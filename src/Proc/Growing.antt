-- ===== src/Proc/Growing.antt =====
-- proc.c: `growproc`. `switchuvm`, which loads registers, is left out.
use homework.Prelude.{
  ℕ, ◌+◌, ◌-◌, ◌%◌, ◌^◌, ◌<◌, ◌≤◌, ◌≡◌, refl, Bool, true, false, ltb, ◌==◌, if◌then◌else◌, arith,
}
use homework.Proc.Table.{Ptable, Services, set_proc}

-- The size is written, unless the call that gave it failed.
unfoldable pub resize : {World : Type 0} → (cur : ℕ) → Ptable → ℕ × World → Bool × (Ptable × World)
unfolding set_proc
resize cur t (sz, w) =
    if sz == 0
    then (false, (t, w))
    else (true, (set_proc t cur (record (t.proc cur) { sz = sz }), w))

-- `n` is the word of an `int`: from 2^31 on it is negative.
unfoldable pub growproc :
    (services : Services) (n cur : ℕ) → Ptable → services.World → Bool × (Ptable × services.World)
unfolding resize set_proc
growproc services n cur t w =
    let p = t.proc cur in
    if n == 0
    then (true, (set_proc t cur (record p { sz = p.sz }), w))
    else (if ltb n (2 ^ 31)
        then resize cur t (services.allocuvm p.pgdir p.sz ((p.sz + n) % 2 ^ 32) w)
        else resize cur t (services.deallocuvm p.pgdir p.sz ((p.sz + n) % 2 ^ 32) w))

-- A process of at most 2^31 bytes gives back all its memory, where `deallocuvm` returns the new size: the
-- memory is freed, but the call fails and the process keeps its old size.
growproc-zero :
    (services : Services) (cur : ℕ) (t : Ptable) (w : services.World)
    → 0 < (t.proc cur).sz
    → (t.proc cur).sz ≤ 2 ^ 31
    → ((dir old new : ℕ) (u : services.World)
        → new < old
        → (services.deallocuvm dir old new u).0 ≡ new)
    → growproc services (2 ^ 32 - (t.proc cur).sz) cur t w
      ≡ (false, (t, (services.deallocuvm (t.proc cur).pgdir (t.proc cur).sz 0 w).1))
unfolding growproc resize
growproc-zero services cur t w some_memory fits contract =
    rw
      (
        not_zero,
        negative,
        nothing_left,
        contract (t.proc cur).pgdir (t.proc cur).sz 0 w some_memory,
      )
      refl
  where
    n : ℕ
    n = 2 ^ 32 - (t.proc cur).sz

    not_zero : (n == 0) ≡ false
    not_zero = ground (arith, some_memory, fits)

    negative : ltb n (2 ^ 31) ≡ false
    negative = ground (arith, fits)

    nothing_left : ((t.proc cur).sz + n) % 2 ^ 32 ≡ 0
    nothing_left = omega (arith, fits)
