-- ===== src/Vm/Copy.antt =====
-- vm.c: user memory that the kernel fills or looks up.
use homework.Prelude.{
  ℕ, zero, suc, ◌+◌, ◌-◌, ◌/◌, ◌%◌, ◌^◌, Bool, true, false, leb, ltb, ◌==◌, if◌then◌else◌, List, [],
  ◌∷◌, length, take, drop,
}
use homework.Kalloc.{pgsize}
use homework.Kalloc.{v2p, kalloc}
use homework.Vm.Machine.{
  M, panic, ◌>>=◌, ◌>>◌, pure, pte_w, pte_u, pte_addr, present, for_user, p2v, page_round_down,
  clear_page, move_in, set_word, word_at,
}
use homework.Vm.Tables.{walk, mappages}
use homework.Vm.Space.{get_page}

-- The result of `kalloc` is not tested.
unfoldable pub inituvm : (pgdir : ℕ) → List ℕ → M (Unit {0})
unfolding kalloc clear_page mappages move_in v2p
inituvm pgdir init = if leb pgsize (length init) then (λ s. panic) else do
  mem ← get_page
  clear_page mem
  mappages pgdir 0 pgsize (v2p mem) (pte_w + pte_u)
  move_in mem init

-- `read` gives the bytes that `readi` reads of the inode: at an offset, so many at most.
module _ (read : ℕ → ℕ → List ℕ) where
  unfoldable pub load_from : (pgdir addr rounds i offset sz : ℕ) → M Bool
  unfolding walk word_at pte_addr p2v move_in
  load_from pgdir addr zero i offset sz = pure true
  load_from pgdir addr (suc rounds) i offset sz = elim (ltb i sz) [
    | false ↦ pure true
    | true ↦ do
      pte ← walk pgdir (addr + i) false
      w ← word_at pte
      let n = if ltb (sz - i) pgsize then sz - i else pgsize in
          elim (pte == 0) [
            | true ↦ (λ s. panic)
            | false ↦ do
              move_in (p2v (pte_addr w)) (read (offset + i) n)
              elim (length (read (offset + i) n) == n) [
                | true ↦ load_from pgdir addr rounds (i + pgsize) offset sz
                | false ↦ pure false
              ]
          ]
  ]

  -- `false` for -1.
  unfoldable pub loaduvm : (pgdir addr offset sz : ℕ) → M Bool
  unfolding load_from
  loaduvm pgdir addr offset sz =
      if addr % pgsize == 0
      then load_from pgdir addr (sz / pgsize + 1) 0 offset sz
      else (λ s. panic)

unfoldable pub clearpteu : (pgdir uva : ℕ) → M (Unit {0})
unfolding walk word_at for_user set_word
clearpteu pgdir uva = do
  pte ← walk pgdir uva false
  w ← word_at pte
  if pte == 0 then (λ s. panic) else set_word pte (if for_user w then w - pte_u else w)

-- What the entry holds is read even where `walkpgdir` gives 0.
unfoldable pub uva2ka : (pgdir uva : ℕ) → M ℕ
unfolding walk word_at present for_user pte_addr p2v
uva2ka pgdir uva = do
  pte ← walk pgdir uva false
  w ← word_at pte
  pure (if present w then (if for_user w then p2v (pte_addr w) else 0) else 0)

-- At most `rounds` pages; `false` for -1.
unfoldable pub copy_out_from : (pgdir rounds va : ℕ) → List ℕ → M Bool
unfolding uva2ka move_in page_round_down
copy_out_from pgdir rounds va [] = pure true
copy_out_from pgdir zero va (b ∷ buf) = pure true
copy_out_from pgdir (suc rounds) va (b ∷ buf) = do
  let va0 = page_round_down va
  pa0 ← uva2ka pgdir va0
  elim (pa0 == 0) [
    | true ↦ pure false
    | false ↦ do
      move_in (pa0 + (va - va0)) (take (pgsize - (va - va0)) (b ∷ buf))
      copy_out_from pgdir rounds ((va0 + pgsize) % 2 ^ 32) (drop (pgsize - (va - va0)) (b ∷ buf))
  ]

unfoldable pub copyout : (pgdir va : ℕ) → List ℕ → M Bool
unfolding copy_out_from
copyout pgdir va buf = copy_out_from pgdir (length buf) va buf
