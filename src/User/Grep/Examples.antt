-- ===== src/User/Grep/Examples.antt =====
-- Runs of the matcher.
use homework.Prelude.{◌≡◌, refl, ◌↔◌, true, false, [], ◌∷◌}
use homework.User.Grep.{match}
use homework.User.Grep.Language.{Describes, match_lem}

-- `a.*c` in `xabbc`, and `^b` there.
match-test : match (97 ∷ 46 ∷ 42 ∷ 99 ∷ []) (120 ∷ 97 ∷ 98 ∷ 98 ∷ 99 ∷ []) ≡ true
unfolding match
match-test = refl

match_anchored-test : match (94 ∷ 98 ∷ []) (120 ∷ 97 ∷ 98 ∷ 98 ∷ 99 ∷ []) ≡ false
unfolding match
match_anchored-test = refl

match_lem_example :
    (match (97 ∷ 42 ∷ 36 ∷ []) (98 ∷ 97 ∷ []) ≡ true) ↔ Describes (97 ∷ 42 ∷ 36 ∷ []) (98 ∷ 97 ∷ [])
match_lem_example = match_lem (97 ∷ 42 ∷ 36 ∷ []) (98 ∷ 97 ∷ [])
