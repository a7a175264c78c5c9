-- ===== src/User/Grep.antt =====
-- grep.c: the matcher for regular expressions. A pattern and a text are the lists of their characters
-- before the 0.
pub mod Language
mod Examples
use homework.Prelude.{ℕ, Bool, true, false, ◌&&◌, ◌||◌, List, [], ◌∷◌, ◌==◌, if◌then◌else◌}

abbrev pub caret : ℕ
caret = 94

abbrev pub dot : ℕ
dot = 46

abbrev pub asterisk : ℕ
asterisk = 42

abbrev pub dollar : ℕ
dollar = 36

-- The test of one character of the text.
unfoldable pub accepts : ℕ → ℕ → Bool
accepts c x = c == dot || c == x

-- `matchstar(c, re, text)`, where `here` is `matchhere(re, _)`.
unfoldable pub matchstar : (List ℕ → Bool) → ℕ → List ℕ → Bool
unfolding accepts
matchstar here c [] = here []
matchstar here c (x ∷ text) = here (x ∷ text) || (accepts c x && matchstar here c text)

unfoldable pub matchhere : List ℕ → List ℕ → Bool
unfolding matchstar accepts
matchhere [] text = true
matchhere (c ∷ []) [] = c == dollar
matchhere (c ∷ []) (x ∷ text) = if c == dollar then false else accepts c x
matchhere (c ∷ d ∷ re) [] = if d == asterisk then matchhere re [] else false
matchhere (c ∷ d ∷ re) (x ∷ text) =
    if d == asterisk
    then matchstar (matchhere re) c (x ∷ text)
    else accepts c x && matchhere (d ∷ re) text

-- The `do` loop of `match`.
unfoldable pub match_from : List ℕ → List ℕ → Bool
unfolding matchhere
match_from re [] = matchhere re []
match_from re (x ∷ text) = matchhere re (x ∷ text) || match_from re text

unfoldable pub match : List ℕ → List ℕ → Bool
unfolding match_from
match [] text = match_from [] text
match (c ∷ re) text = if c == caret then matchhere re text else match_from (c ∷ re) text
