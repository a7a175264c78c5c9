-- ===== src/User/Grep/Language.antt =====
-- grep.c: the texts that a pattern describes, and `match` as a decision of it.
use homework.Prelude.{
  ℕ, ◌≡◌, refl, ◌↔◌, ◌⊎◌, inl, inr, Bool, true, ◌&&◌, List, [], ◌∷◌, ◌==◌, if◌then◌else◌,
  Bool-cases, arith,
}
use homework.User.Grep.{caret, asterisk, dollar, accepts, matchstar, matchhere, match_from, match}

-- A part of a pattern: a character, a starred character, the end of the text.
pub data Item : Type 0 where
  one star : ℕ → Item
  end : Item

-- The parts of a pattern that has no caret in front.
abbrev pub items : List ℕ → List Item
items [] = []
items (c ∷ []) = if c == dollar then end ∷ [] else one c ∷ []
items (c ∷ d ∷ re) = if d == asterisk then star c ∷ items re else one c ∷ items (d ∷ re)

-- The parts describe what the text has before the rest.
pub data Matches : List Item → List ℕ → List ℕ → Type 0 where
  nothing : {rest : List ℕ} → Matches [] rest rest
  character :
      {c x : ℕ} {is : List Item} {text rest : List ℕ}
      → accepts c x ≡ true
      → Matches is text rest
      → Matches (one c ∷ is) (x ∷ text) rest
  stop :
      {c : ℕ} {is : List Item} {text rest : List ℕ}
      → Matches is text rest
      → Matches (star c ∷ is) text rest
  more :
      {c x : ℕ} {is : List Item} {text rest : List ℕ}
      → accepts c x ≡ true
      → Matches (star c ∷ is) text rest
      → Matches (star c ∷ is) (x ∷ text) rest
  ends : {is : List Item} → Matches (end ∷ is) [] []

-- The parts describe some front of the text.
abbrev pub Fronts : List Item → List ℕ → Type 0
Fronts is text = (rest : List ℕ) × Matches is text rest

-- The parts describe a piece of the text somewhere.
pub data Occurs (is : List Item) : List ℕ → Type 0 where
  here : {text rest : List ℕ} → Matches is text rest → Occurs is text
  later : {x : ℕ} {text : List ℕ} → Occurs is text → Occurs is (x ∷ text)

-- A test decides a statement.
abbrev Decides : Bool → Type 0 → Type 0
Decides b P = (b ≡ true) ↔ P

module _ (here : List ℕ → Bool) (is : List Item)
    (decides : (text : List ℕ) → Decides (here text) (Fronts is text)) (c : ℕ) where
  matchstar_sound : (text : List ℕ) → matchstar here c text ≡ true → Fronts (star c ∷ is) text
  unfolding matchstar
  matchstar_sound [] e = let (rest, m) = (decides []).0 e in (rest, stop m)
  matchstar_sound (x ∷ text) e = elim (Bool-cases (here (x ∷ text))) [
    | inl h ↦ let (rest, m) = (decides (x ∷ text)).0 h in (rest, stop m)
    | inr h ↦
        let a : accepts c x ≡ true = ground arith in
        let r : matchstar here c text ≡ true = ground arith in
        let (rest, m) = matchstar_sound text r in (rest, more a m)
  ]

  matchstar_complete :
      (text rest : List ℕ) → Matches (star c ∷ is) text rest → matchstar here c text ≡ true
  unfolding matchstar
  matchstar_complete [] rest (stop m) = (decides []).1 (rest, m)
  matchstar_complete (x ∷ text) rest (stop m) =
      let h = (decides (x ∷ text)).1 (rest, m) in ground arith
  matchstar_complete (x ∷ text) rest (more a m) =
      let h = matchstar_complete text rest m in ground arith

-- What a match of a character needs of the text.
character_inv :
    {c : ℕ} {is : List Item} {x : ℕ} {text rest : List ℕ}
    → Matches (one c ∷ is) (x ∷ text) rest
    → (accepts c x ≡ true) × Matches is text rest
character_inv (character a m) = (a, m)

no_character : {c : ℕ} {is : List Item} {rest : List ℕ} → Matches (one c ∷ is) [] rest → ⊥
no_character m = elim m [ ]

not_at_end : {x : ℕ} {text rest : List ℕ} → Matches (end ∷ []) (x ∷ text) rest → ⊥
not_at_end m = elim m [ ]

last_Decides :
    (c : ℕ) (text : List ℕ) → Decides (matchhere (c ∷ []) text) (Fronts (items (c ∷ [])) text)
unfolding matchhere
last_Decides c [] = elim (Bool-cases (c == dollar)) [
  | inl d ↦ rw d (λ e. ([], ends), λ f. refl)
  | inr d ↦ rw d (λ e. cc, λ f. absurd (no_character f.1))
]
last_Decides c (x ∷ text) = elim (Bool-cases (c == dollar)) [
  | inl d ↦ rw d (λ e. cc, λ f. absurd (not_at_end f.1))
  | inr d ↦ rw d (λ e. (text, character e nothing), λ f. (character_inv f.1).0)
]

star_Decides :
    (c : ℕ) (re text : List ℕ)
    → ((text' : List ℕ) → Decides (matchhere re text') (Fronts (items re) text'))
    → Decides (matchstar (matchhere re) c text) (Fronts (star c ∷ items re) text)
star_Decides c re text h = (
  matchstar_sound (matchhere re) (items re) h c text,
  λ f. matchstar_complete (matchhere re) (items re) h c text f.0 f.1,
)

one_Decides :
    (c x : ℕ) (re text : List ℕ)
    → Decides (matchhere re text) (Fronts (items re) text)
    → Decides (accepts c x && matchhere re text) (Fronts (one c ∷ items re) (x ∷ text))
one_Decides c x re text h = (
  λ e. let (rest, m) = h.0 (ground arith) in (rest, character (ground arith) m),
  λ f. let (a, m) = character_inv f.1 in let r = h.1 (f.0, m) in ground arith,
)

matchhere-Decides : (re text : List ℕ) → Decides (matchhere re text) (Fronts (items re) text)
unfolding matchhere
matchhere-Decides [] text = (λ e. (text, nothing), λ f. refl)
matchhere-Decides (c ∷ []) text = last_Decides c text
matchhere-Decides (c ∷ d ∷ re) [] = elim (Bool-cases (d == asterisk)) [
  | inl s ↦ rw s (unfold matchstar in star_Decides c re [] (matchhere-Decides re))
  | inr s ↦ rw s (λ e. cc, λ f. absurd (no_character f.1))
]
matchhere-Decides (c ∷ d ∷ re) (x ∷ text) = elim (Bool-cases (d == asterisk)) [
  | inl s ↦ rw s (star_Decides c re (x ∷ text) (matchhere-Decides re))
  | inr s ↦ rw s (one_Decides c x (d ∷ re) text (matchhere-Decides (d ∷ re) text))
]

Occurs-cases :
    {is : List Item} {x : ℕ} {text : List ℕ}
    → Occurs is (x ∷ text)
    → Fronts is (x ∷ text) ⊎ Occurs is text
Occurs-cases (here m) = inl (_, m)
Occurs-cases (later o) = inr o

match_from-Decides : (re text : List ℕ) → Decides (match_from re text) (Occurs (items re) text)
unfolding match_from
match_from-Decides re [] = (
  λ e. here ((matchhere-Decides re []).0 e).1,
  λ o. elim o [ here m ↦ (matchhere-Decides re []).1 (_, m) ],
)
match_from-Decides re (x ∷ text) = (
  λ e. elim (Bool-cases (matchhere re (x ∷ text))) [
    | inl h ↦ here ((matchhere-Decides re (x ∷ text)).0 h).1
    | inr h ↦ later ((match_from-Decides re text).0 (ground arith))
  ],
  λ o. elim (Occurs-cases o) [
    | inl f ↦ let h = (matchhere-Decides re (x ∷ text)).1 f in ground arith
    | inr l ↦ let h = (match_from-Decides re text).1 l in ground arith
  ],
)

-- The pieces of text that a pattern describes: with a caret in front, fronts of the text.
abbrev pub Describes : List ℕ → List ℕ → Type 0
Describes [] text = Occurs [] text
Describes (c ∷ re) text =
    if c == caret then Fronts (items re) text else Occurs (items (c ∷ re)) text

-- `match` returns true exactly for the texts that have a piece that the pattern describes, character by
-- character, with any number of a starred character, and at the ends that a caret or dollar asks for.
pub match_lem : (re text : List ℕ) → (match re text ≡ true) ↔ Describes re text
unfolding match
match_lem [] text = match_from-Decides [] text
match_lem (c ∷ re) text = elim (Bool-cases (c == caret)) [
  | inl a ↦ rw a (matchhere-Decides re text)
  | inr a ↦ rw a (match_from-Decides (c ∷ re) text)
]
