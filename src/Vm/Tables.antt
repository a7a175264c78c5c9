-- ===== src/Vm/Tables.antt =====
-- vm.c: the walk of a page table, and mappings made in it. Pointers are addresses, 0 for none, and
-- `mem` is the word that the kernel reads at an address.
use homework.Prelude.{
  ℕ, zero, suc, ◌+◌, ◌-◌, ◌*◌, ◌/◌, ◌%◌, ◌^◌, Bool, true, false, ◌==◌, if◌then◌else◌, update,
}
use homework.Kalloc.{Kmem, pgsize}
use homework.Kalloc.{v2p, kalloc}
use homework.Vm.Machine.{
  M, ok, panic, ◌>>=◌, pure, pdx, ptx, pte_addr, present, p2v, page_round_down, bit_or, zero_page,
}

-- The page table that `kalloc` has given is cleared, and entered into the directory.
unfoldable pub enter_table : (pde pgtab : ℕ) → Kmem → Kmem
unfolding v2p zero_page
enter_table pde pgtab s = record s {
  mem = update (zero_page pgtab s.mem) pde (bit_or 32 (v2p pgtab) 7);
}

unfoldable pub new_table : (pde va : ℕ) → ℕ × Kmem → ℕ × Kmem
unfolding enter_table ptx
new_table pde va (pgtab, s) =
    if pgtab == 0 then (0, s) else (pgtab + 4 * ptx va, enter_table pde pgtab s)

unfoldable pub walkpgdir : (pgdir va : ℕ) → (alloc : Bool) → Kmem → ℕ × Kmem
unfolding kalloc new_table pdx ptx present pte_addr p2v
walkpgdir pgdir va alloc s =
    let pde = pgdir + 4 * pdx va in
    if present (s.mem pde)
    then (p2v (pte_addr (s.mem pde)) + 4 * ptx va, s)
    else (if alloc then new_table pde va (kalloc s) else (0, s))

-- The walk as a run.
unfoldable pub walk : (pgdir va : ℕ) → (alloc : Bool) → M ℕ
unfolding walkpgdir
walk pgdir va alloc s = ok (walkpgdir pgdir va alloc s).0 (walkpgdir pgdir va alloc s).1

-- One round of `mappages`: whether there was a page table.
unfoldable pub map_page : (pgdir a pa perm : ℕ) → M Bool
unfolding walkpgdir
map_page pgdir a pa perm s =
    let (pte, t) = walkpgdir pgdir a true s in
    if pte == 0
    then ok false t
    else (if present (t.mem pte)
        then panic
        else ok true (record t { mem = update t.mem pte (bit_or 32 pa (bit_or 32 perm 1)) }))

-- The loop from `a` on; `rounds` pages are left, the last of them `last`.
unfoldable pub map_from : (pgdir rounds a last pa perm : ℕ) → M Bool
unfolding map_page
map_from pgdir zero a last pa perm = pure true
map_from pgdir (suc rounds) a last pa perm = do
  mapped ← map_page pgdir a pa perm
  elim mapped [
    | false ↦ pure false
    | true ↦ elim (a == last) [
      | true ↦ pure true
      | false ↦ map_from pgdir rounds ((a + pgsize) % 2 ^ 32) last ((pa + pgsize) % 2 ^ 32) perm
    ]
  ]

-- `false` for -1. Since `a` wraps, it comes to `last` after the rounds given.
unfoldable pub mappages : (pgdir va size pa perm : ℕ) → M Bool
unfolding map_from
mappages pgdir va size pa perm =
    let a = page_round_down va in
    let last = page_round_down ((va + size + (2 ^ 32 - 1)) % 2 ^ 32) in
    map_from pgdir ((last + 2 ^ 32 - a) % 2 ^ 32 / pgsize + 1) a last pa perm
