-- ===== src/Proc/Family.antt =====
-- The process table stays a family: pids are unique, and every process but init has a living parent.
use homework.Prelude.{
  ℕ, ◌<◌, ◌≡◌, ◌≢◌, refl, sym, ap, subst, ◌∙◌, ◌⊎◌, inl, inr, arith, true, Option, none, some,
  Bool-cases, ℕ_discrete,
}
use homework.Proc.{Ptable, nproc, proc_eq, option_eq, exit_table}
use homework.Proc.Kin.{free, alive, dead, Kin, kin, SameKin, adopted, Exited, exit_table-Exited}

abbrev pub at : Ptable → ℕ → Kin
at t i = kin (t.proc i)

-- A living parent in the table.
pub record HasParent (t : Ptable) (i : ℕ) : Type 0 where
  pub parent : ℕ
  pub is_parent : (at t i).parent ≡ some parent
  pub in_table : parent < nproc
  pub lives : (at t parent).kind ≡ alive

pub record IsFamily (t : Ptable) : Type 0 where
  pub init_in : t.initproc < nproc
  pub init_lives : (at t t.initproc).kind ≡ alive
  pub pids : (i : ℕ) → i < nproc → (at t i).kind ≢ free → (at t i).pid < t.nextpid
  pub distinct :
      (i j : ℕ)
      → i < nproc
      → j < nproc
      → (at t i).kind ≢ free
      → (at t j).kind ≢ free
      → (at t i).pid ≡ (at t j).pid
      → i ≡ j
  pub parents : (i : ℕ) → i < nproc → (at t i).kind ≢ free → i ≢ t.initproc → HasParent t i
  pub no_parent : (i : ℕ) → i < nproc → (at t i).kind ≡ free → (at t i).parent ≡ none

-- What keeps kinds, pids and parents keeps the family.
pub SameKin-IsFamily : {t u : Ptable} → SameKin t u → IsFamily t → IsFamily u
SameKin-IsFamily {t} {u} s f = record {
  init_in = omega (arith, s.initproc, f.init_in);
  init_lives =
      ap (λ m. (at u m).kind) s.initproc
      ∙ ap (λ (k : Kin). k.kind) (s.slots t.initproc f.init_in)
      ∙ f.init_lives;
  pids = λ i h l. ground (arith, s.slots i h, s.nextpid, f.pids i h);
  distinct = λ i j h h' l l' e.
      f.distinct i j h h' (ground (arith, s.slots i h)) (ground (arith, s.slots j h'))
        (ground (arith, s.slots i h, s.slots j h'));
  parents = λ i h l ne.
      let p = f.parents i h (ground (arith, s.slots i h)) (λ e. ne (e ∙ sym s.initproc)) in
      record {
        parent = p.parent;
        is_parent = ap (λ (k : Kin). k.parent) (s.slots i h) ∙ p.is_parent;
        in_table = p.in_table;
        lives = ap (λ (k : Kin). k.kind) (s.slots p.parent p.in_table) ∙ p.lives;
      };
  no_parent = λ i h e. ground (arith, s.slots i h, f.no_parent i h);
}

pub proc_eq-some : (a : Option ℕ) (b : ℕ) → proc_eq a (some b) ≡ true → a ≡ some b
unfolding proc_eq option_eq
proc_eq-some a b h = ground arith

proc_eq_refl : (a : Option ℕ) (b : ℕ) → a ≡ some b → proc_eq a (some b) ≡ true
unfolding proc_eq option_eq
proc_eq_refl a b e = ground arith

adopted-pid : (cur init : ℕ) (k : Kin) → (adopted cur init k).pid ≡ k.pid
adopted-pid cur init k = ground arith

adopted-kind : (cur init : ℕ) (k : Kin) → (adopted cur init k).kind ≡ k.kind
adopted-kind cur init k = ground arith

-- Afterwards init is the parent, or a process other than `cur` that was.
adopted-parent :
    (cur init : ℕ) (k : Kin) (p : ℕ)
    → k.parent ≡ some p
    → ((adopted cur init k).parent ≡ some init)
      ⊎ ((p ≢ cur) × ((adopted cur init k).parent ≡ some p))
adopted-parent cur init k p e = elim (ℕ_discrete p cur) [
  | yes same ↦ inl (rw (proc_eq_refl k.parent cur (e ∙ ap some same)) refl)
  | no other ↦ elim (Bool-cases (proc_eq k.parent (some cur))) [
    | inl child ↦ absurd (other (ground (arith, proc_eq-some k.parent cur child)))
    | inr stranger ↦ inr (other, rw stranger e)
  ]
]

adopted-orphan : (cur init : ℕ) (k : Kin) → k.parent ≡ none → (adopted cur init k).parent ≡ none
unfolding proc_eq option_eq
adopted-orphan cur init k e = ground arith

-- What `exit` changed of one slot.
exit_slot :
    {cur : ℕ} {t u : Ptable}
    → Exited cur t u
    → cur < nproc
    → (j : ℕ) → j < nproc
    → ((at u j).pid ≡ (at t j).pid)
      × ((at u j).parent ≡ (adopted cur t.initproc (at t j)).parent)
      × (((cur ≡ j) × ((at u j).kind ≡ dead)) ⊎ ((cur ≢ j) × ((at u j).kind ≡ (at t j).kind)))
exit_slot {cur} {t} {u} e hc j h = elim (ℕ_discrete cur j) [
  | yes same ↦
      let self =
        subst (λ m. at u m ≡ record (adopted cur t.initproc (at t m)) { kind = dead }) same
          (e.self hc) in
      (
        ap (λ (k : Kin). k.pid) self ∙ adopted-pid cur t.initproc (at t j),
        ap (λ (k : Kin). k.parent) self,
        inl (same, ap (λ (k : Kin). k.kind) self),
      )
  | no other ↦
      let o = e.others j h other in
      (
        ap (λ (k : Kin). k.pid) o ∙ adopted-pid cur t.initproc (at t j),
        ap (λ (k : Kin). k.parent) o,
        inr (other, ap (λ (k : Kin). k.kind) o ∙ adopted-kind cur t.initproc (at t j)),
      )
]

module _ (cur : ℕ) (t : Ptable) (f : IsFamily t) (in_table : cur < nproc)
    (lives : (at t cur).kind ≡ alive) (not_init : cur ≢ t.initproc) where
  module _ (u : Ptable) (e : Exited cur t u) where
    still_used : (j : ℕ) → j < nproc → (at u j).kind ≢ free → (at t j).kind ≢ free
    still_used j h l q = elim (exit_slot e in_table j h).2 [
      | inl (same, _) ↦ ground (arith, ap (λ m. (at t m).kind) same)
      | inr (_, k) ↦ l (k ∙ q)
    ]

    exit_lives : (j : ℕ) → j < nproc → cur ≢ j → (at t j).kind ≡ alive → (at u j).kind ≡ alive
    exit_lives j h ne a = elim (exit_slot e in_table j h).2 [
      | inl (same, _) ↦ absurd (ne same)
      | inr (_, k) ↦ k ∙ a
    ]

    exit_parent : (j : ℕ) → j < nproc → HasParent t j → HasParent u j
    exit_parent j h p = elim (adopted-parent cur t.initproc (at t j) p.parent p.is_parent) [
      | inl init_now ↦ record {
        parent = t.initproc;
        is_parent = (exit_slot e in_table j h).1 ∙ init_now;
        in_table = f.init_in;
        lives = exit_lives t.initproc f.init_in not_init f.init_lives;
      }
      | inr (other, same) ↦ record {
        parent = p.parent;
        is_parent = (exit_slot e in_table j h).1 ∙ same;
        in_table = p.in_table;
        lives = exit_lives p.parent p.in_table (λ q. other (sym q)) p.lives;
      }
    ]

    exit-IsFamily : IsFamily u
    exit-IsFamily = record {
      init_in = omega (arith, e.initproc, f.init_in);
      init_lives =
          ap (λ m. (at u m).kind) e.initproc
          ∙ exit_lives t.initproc f.init_in not_init f.init_lives;
      pids = λ i h l.
          omega (arith, (exit_slot e in_table i h).0, f.pids i h (still_used i h l), e.nextpid);
      distinct = λ i j h h' l l' q.
          f.distinct i j h h' (still_used i h l) (still_used j h' l')
            (sym (exit_slot e in_table i h).0 ∙ q ∙ (exit_slot e in_table j h').0);
      parents = λ i h l ne.
          exit_parent i h (f.parents i h (still_used i h l) (λ q. ne (q ∙ sym e.initproc)));
      no_parent = λ i h q. elim (exit_slot e in_table i h).2 [
        | inl (_, k) ↦ absurd (ground arith)
        | inr (_, k) ↦
            (exit_slot e in_table i h).1
            ∙ adopted-orphan cur t.initproc (at t i) (f.no_parent i h (sym k ∙ q))
      ];
    }

  -- A living process other than init may exit: its children become init's, and the table stays a
  -- family.
  pub exit_table-IsFamily : IsFamily (exit_table cur t)
  exit_table-IsFamily = exit-IsFamily (exit_table cur t) (exit_table-Exited cur t)
