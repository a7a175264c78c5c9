-- ===== src/Fs/Bits.antt =====
-- fs.c: bits of a block, as `balloc` and `bfree` test, set and clear them.
use Prim.Native.Nat.{bit_and, bit_or}
use homework.Prelude.{
  ℕ, zero, suc, ◌-◌, ◌/◌, ◌%◌, ◌^◌, ◌<◌, ◌≡◌, refl, ◌==◌, ltb, ◌&&◌, if◌then◌else◌, update_self,
  update_ne, Bool, true, false, not, ℕ_discrete, ltb→lt, arith, Bool-cases, inl, inr, subst,
}
use homework.Fs.Machine.{Block}
use homework.Fs.Blocks.{used, mark, unmark}

-- A test of every byte or bit number, from the largest down.
passes : (ℕ → Bool) → ℕ → Bool
passes test zero = true
passes test (suc v) = elim (test v) [ true ↦ passes test v | false ↦ false ]

passed : (test : ℕ → Bool) (bound v : ℕ) → passes test bound ≡ true → v < bound → test v ≡ true
unfolding passes
passed test zero v e below = absurd (omega arith)
passed test (suc top) v e below = elim (Bool-cases (test top)) [
  | inl good ↦ elim (ℕ_discrete top v) [
    | yes same ↦ subst (λ w. test w ≡ true) same good
    | no ne ↦ passed test top v (rw (passes, good) at e) (omega arith)
  ]
  | inr bad ↦ let stopped : false ≡ true = rw (passes, bad) at e in cc
]

-- Whether bit `j` of a byte is set.
abbrev bit : ℕ → ℕ → Bool
bit v j = not (bit_and v (2 ^ j) == 0)

abbrev same : Bool → Bool → Bool
same true b = b
same false b = not b

same_eq : (a b : Bool) → same a b ≡ true → a ≡ b
same_eq true true h = refl
same_eq true false h = cc
same_eq false true h = cc
same_eq false false h = refl

-- What is true of each byte, each bit that is changed and each bit that is looked at.
abbrev byte_law : ℕ → ℕ → ℕ → Bool
byte_law v k j =
    same (bit (bit_or v (2 ^ k)) j) (if k == j then true else bit v j)
    && (same (bit (bit_and v (255 - 2 ^ k)) j) (if k == j then false else bit v j)
        && (ltb (bit_or v (2 ^ k)) 256 && ltb (bit_and v (255 - 2 ^ k)) 256))

byte_table : passes (λ v. passes (λ k. passes (byte_law v k) 8) 8) 256 ≡ true
unfolding passes
byte_table = refl

byte_laws : (v k j : ℕ) → v < 256 → k < 8 → j < 8 → byte_law v k j ≡ true
byte_laws v k j hv hk hj =
    let of_byte = passed (λ u. passes (λ l. passes (byte_law u l) 8) 8) 256 v byte_table hv in
    let of_bit = passed (λ l. passes (byte_law v l) 8) 8 k of_byte hk in
    passed (byte_law v k) 8 j of_bit hj

and_left : (a b : Bool) → (a && b) ≡ true → (a ≡ true) × (b ≡ true)
and_left true b h = (refl, h)
and_left false b h = cc

module _ (v k j : ℕ) (hv : v < 256) (hk : k < 8) (hj : j < 8) where
  parts :
      (bit (bit_or v (2 ^ k)) j ≡ (if k == j then true else bit v j))
      × (bit (bit_and v (255 - 2 ^ k)) j ≡ (if k == j then false else bit v j))
      × (bit_or v (2 ^ k) < 256)
      × (bit_and v (255 - 2 ^ k) < 256)
  parts =
      let (a, r) = and_left _ _ (byte_laws v k j hv hk hj) in
      let (b, r') = and_left _ _ r in
      let (c, d) = and_left _ _ r' in (same_eq _ _ a, same_eq _ _ b, ltb→lt _ _ c, ltb→lt _ _ d)

abbrev pub IsBytes : Block → Type 0
IsBytes x = (i : ℕ) → x i < 256

module _ (x : Block) (bytes : IsBytes x) (b : ℕ) where
  pub mark-IsBytes : IsBytes (mark x b)
  unfolding mark
  mark-IsBytes i =
      let small = (parts (x (b / 8)) (b % 8) 0 (bytes (b / 8)) (omega arith) (omega arith)).2 in
      let old = bytes i in ground arith

  pub unmark-IsBytes : IsBytes (unmark x b)
  unfolding unmark
  unmark-IsBytes i =
      let small = (parts (x (b / 8)) (b % 8) 0 (bytes (b / 8)) (omega arith) (omega arith)).3 in
      let old = bytes i in ground arith

  -- Only the bit that is set changes.
  pub used-mark : (c : ℕ) → used (mark x b) c ≡ (if b == c then true else used x c)
  unfolding used mark
  used-mark c = elim (ℕ_discrete (b / 8) (c / 8)) [
    | yes e ↦
        let law =
          (parts (x (c / 8)) (b % 8) (c % 8) (bytes (c / 8)) (omega arith) (omega arith)).0 in
        let eq : (b % 8 == c % 8) ≡ (b == c) = ground arith in
        rw (e, update_self x (c / 8) (bit_or (x (c / 8)) (2 ^ (b % 8))), law, eq)
    | no ne ↦
        let eq : (b == c) ≡ false = ground arith in
        rw (eq, update_ne x (b / 8) (bit_or (x (b / 8)) (2 ^ (b % 8))) (c / 8) ne)
  ]

  pub used-unmark : (c : ℕ) → used (unmark x b) c ≡ (if b == c then false else used x c)
  unfolding used unmark
  used-unmark c = elim (ℕ_discrete (b / 8) (c / 8)) [
    | yes e ↦
        let law =
          (parts (x (c / 8)) (b % 8) (c % 8) (bytes (c / 8)) (omega arith) (omega arith)).1 in
        let eq : (b % 8 == c % 8) ≡ (b == c) = ground arith in
        rw (e, update_self x (c / 8) (bit_and (x (c / 8)) (255 - 2 ^ (b % 8))), law, eq)
    | no ne ↦
        let eq : (b == c) ≡ false = ground arith in
        rw (eq, update_ne x (b / 8) (bit_and (x (b / 8)) (255 - 2 ^ (b % 8))) (c / 8) ne)
  ]
