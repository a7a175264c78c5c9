-- ===== src/User/Format/Examples.antt =====
-- Runs of `printint`, `printf` and `atoi`.
use homework.Prelude.{◌-◌, ◌^◌, ◌≡◌, ◌==◌, if◌then◌else◌, refl, arith, [], ◌∷◌, true}
use homework.User.Library.{atoi}
use homework.User.Format.{printint, printf}
use homework.User.Format.Numbers.{atoi-printint}

-- -42
printint-test : printint (2 ^ 32 - 42) 10 true [] ≡ 45 ∷ 52 ∷ 50 ∷ []
unfolding printint
printint-test = refl

-- `printf("%x%%%d", 255, 7)`
printf-test :
    printf (λ a. []) (37 ∷ 120 ∷ 37 ∷ 37 ∷ 37 ∷ 100 ∷ []) (λ i. if i == 0 then 255 else 7)
    ≡ 70 ∷ 70 ∷ 37 ∷ 55 ∷ []
unfolding printf
printf-test = refl

-- 2026 and a newline.
atoi-printint_example : atoi (printint 2026 10 true (10 ∷ [])) ≡ 2026
atoi-printint_example = atoi-printint 2026 (10 ∷ []) (omega arith) refl
