-- ===== src/Kalloc/Examples.antt =====
-- Runs of the page allocator, and its theorems at concrete inputs.
use homework.Prelude.{
  count, ℕ, ◌≤◌, ◌≡◌, refl, sym, subst, ◌≢◌, none, some, [], ◌∷◌, ◌==◌, if◌then◌else◌, update,
  arith, ℕ_discrete,
}
use homework.Kalloc.Defs.{Kmem, kfree, kalloc, freerange}
use homework.Kalloc.Chain.{Chain, IsPage, Freed, kfree_lem}
use homework.Kalloc.Ownership.{
  Machine, Reach, here, later, gets, writes, IsOwned, IsPages, Reach-IsOwned,
}

-- The kernel's image ends one megabyte above its base; two pages behind it.
abbrev first : ℕ
first = 2148532224

abbrev a_page : ℕ
a_page = 2148536320

abbrev b_page : ℕ
b_page = 2148540416

abbrev nothing_free : Kmem
nothing_free = record { freelist = 0; mem = λ a. 5 }

-- A range that starts and ends inside a page.
freerange_test :
    elim (freerange first 2148532229 2148544522 nothing_free) [
      | none ↦ []
      | some k ↦ k.freelist ∷ k.mem b_page ∷ k.mem a_page ∷ k.mem 2148536324 ∷ k.mem first ∷ []
    ]
    ≡ b_page ∷ a_page ∷ 0 ∷ 16843009 ∷ 5 ∷ []
unfolding freerange
freerange_test = refl

kfree_misaligned : kfree first 2148536321 nothing_free ≡ none
unfolding kfree
kfree_misaligned = refl

abbrev two_free : Kmem
two_free = record { freelist = a_page; mem = λ a. if a == a_page then b_page else 0 }

abbrev after_one : Kmem
after_one = record { freelist = b_page; mem = λ a. if a == a_page then b_page else 0 }

two_free-Chain : Chain two_free.mem two_free.freelist (a_page ∷ b_page ∷ [])
two_free-Chain = (refl, (refl, refl))

a_page-IsPage : IsPage first a_page
a_page-IsPage = record {
  aligned = refl;
  behind = omega arith;
  above = omega arith;
  below = omega arith;
}

b_page-IsPage : IsPage first b_page
b_page-IsPage = record {
  aligned = refl;
  behind = omega arith;
  above = omega arith;
  below = omega arith;
}

second_page : (v : ℕ) → 1 ≤ count v (a_page ∷ b_page ∷ []) → v ≢ a_page → v ≡ b_page
second_page v h na = ground arith

only_page : (v : ℕ) → 1 ≤ count v (b_page ∷ []) → v ≡ b_page
only_page v h = ground arith

both-IsPages : IsPages first (a_page ∷ b_page ∷ [])
both-IsPages = record {
  once = λ v. ground arith;
  pages = λ v h. elim (ℕ_discrete v a_page) [
    | yes e ↦ subst (IsPage first) (sym e) a_page-IsPage
    | no na ↦ subst (IsPage first) (sym (second_page v h na)) b_page-IsPage
  ];
}

abbrev idle : Machine
idle = record { kmem = two_free; held = [] }

idle-IsOwned : IsOwned (a_page ∷ b_page ∷ []) idle
idle-IsOwned = record {
  free = a_page ∷ b_page ∷ [];
  chain = two_free-Chain;
  split = λ v. omega arith;
}

-- A user gets a page and writes its first word.
abbrev in_use : Machine
in_use = record {
  kmem = record { freelist = b_page; mem = update two_free.mem a_page 9 };
  held = a_page ∷ [];
}

in_use-Reach : Reach first idle in_use
unfolding kalloc
in_use-Reach =
    later (later here (gets refl (omega arith)))
      (writes a_page a_page 9 (omega arith) (omega arith) (omega arith))

Reach-IsOwned_example : IsOwned (a_page ∷ b_page ∷ []) in_use
Reach-IsOwned_example = Reach-IsOwned both-IsPages idle-IsOwned in_use-Reach

abbrev in_use-IsOwned : IsOwned (a_page ∷ b_page ∷ []) in_use
in_use-IsOwned = record { free = b_page ∷ []; chain = (refl, refl); split = λ v. omega arith }

kfree_lem_example :
    (k : Kmem) × (kfree first a_page after_one ≡ some k) × Freed a_page (b_page ∷ []) after_one k
kfree_lem_example =
    kfree_lem first a_page (b_page ∷ []) after_one (refl, refl) a_page-IsPage refl
      (λ q h. subst (IsPage first) (sym (only_page q h)) b_page-IsPage)
