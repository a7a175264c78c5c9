-- ===== src/Vm/Space.antt =====
-- vm.c: the pages of a process, and its copies. `first` is `end`, the address behind the kernel's
-- image, and `kdata` is `data`, the start of its data; the linker sets both. Sizes are at most KERNBASE,
-- so no address of a user page wraps.
use homework.Prelude.{
  ℕ, zero, suc, ◌+◌, ◌-◌, ◌*◌, ◌/◌, ◌%◌, ◌^◌, true, false, not, ◌||◌, leb, ltb, ◌==◌, if◌then◌else◌,
  List, [], ◌∷◌,
}
use homework.Kalloc.{pgsize, kernbase, phystop}
use homework.Kalloc.{v2p, page_round_up, kalloc}
use homework.Vm.Machine.{
  M, ok, panic, ◌>>=◌, ◌>>◌, pure, npdentries, extmem, devspace, pte_w, pte_u, pdx, pte_addr,
  pte_flags, present, p2v, clear_page, copy_page, set_word, word_at, free_page,
}
use homework.Vm.Tables.{walk, mappages}

pub record Kmap : Type 0 where
  pub virt : ℕ
  pub phys_start : ℕ
  pub phys_end : ℕ
  pub perm : ℕ

unfoldable pub kmap : ℕ → List Kmap
unfolding v2p
kmap kdata =
    record { virt = kernbase; phys_start = 0; phys_end = extmem; perm = pte_w }
    ∷ record {
      virt = kernbase + extmem;
      phys_start = v2p (kernbase + extmem);
      phys_end = v2p kdata;
      perm = 0;
    }
    ∷ record { virt = kdata; phys_start = v2p kdata; phys_end = phystop; perm = pte_w }
    ∷ record { virt = devspace; phys_start = devspace; phys_end = 0; perm = pte_w }
    ∷ []

abbrev pub get_page : M ℕ
get_page s = ok (kalloc s).0 (kalloc s).1

module _ (first : ℕ) where
  -- The page of a page table entry that is there.
  unfoldable pub drop_page : ℕ → M (Unit {0})
  unfolding free_page pte_addr p2v set_word word_at
  drop_page pte = do
    w ← word_at pte
    if pte_addr w == 0 then (λ s. panic) else free_page first (p2v (pte_addr w))
    set_word pte 0

  -- Where the loop goes on behind a directory entry that has no table.
  unfoldable pub next_table : ℕ → ℕ
  unfolding pdx
  next_table a = (pdx a + 1) * 4194304 % 2 ^ 32

  -- The loop from `a` on, for at most `rounds` pages.
  unfoldable pub dealloc_from : (pgdir rounds a oldsz : ℕ) → M (Unit {0})
  unfolding walk drop_page next_table word_at present
  dealloc_from pgdir zero a oldsz = pure tt
  dealloc_from pgdir (suc rounds) a oldsz = elim (ltb a oldsz) [
    | false ↦ pure tt
    | true ↦ do
      pte ← walk pgdir a false
      w ← word_at pte
      elim (pte == 0) [
        | true ↦ dealloc_from pgdir rounds (next_table a) oldsz
        | false ↦ do
          if present w then drop_page pte else pure tt
          dealloc_from pgdir rounds (a + pgsize) oldsz
      ]
  ]

  -- A round passes a page at least.
  unfoldable pub deallocuvm : (pgdir oldsz newsz : ℕ) → M ℕ
  unfolding dealloc_from page_round_up
  deallocuvm pgdir oldsz newsz =
      if leb oldsz newsz
      then pure oldsz
      else (dealloc_from pgdir (oldsz / pgsize + 1) (page_round_up newsz) oldsz >> pure newsz)

  -- The tables of a directory, from entry `i` on.
  unfoldable pub free_tables : (pgdir left i : ℕ) → M (Unit {0})
  unfolding free_page present pte_addr p2v word_at
  free_tables pgdir zero i = pure tt
  free_tables pgdir (suc left) i = do
    w ← word_at (pgdir + 4 * i)
    if present w then free_page first (p2v (pte_addr w)) else pure tt
    free_tables pgdir left (i + 1)

  unfoldable pub freevm : ℕ → M (Unit {0})
  unfolding deallocuvm free_tables free_page
  freevm pgdir =
      if pgdir == 0
      then (λ s. panic)
      else do deallocuvm pgdir kernbase 0; free_tables pgdir npdentries 0; free_page first pgdir

  unfoldable pub map_kernel : (pgdir : ℕ) → List Kmap → M ℕ
  unfolding mappages freevm
  map_kernel pgdir [] = pure pgdir
  map_kernel pgdir (k ∷ ks) = do
    mapped ←
        mappages pgdir k.virt ((k.phys_end + 2 ^ 32 - k.phys_start) % 2 ^ 32) k.phys_start k.perm
    elim mapped [ true ↦ map_kernel pgdir ks | false ↦ freevm pgdir >> pure 0 ]

  unfoldable pub setupkvm : (kdata : ℕ) → M ℕ
  unfolding kalloc clear_page map_kernel kmap p2v
  setupkvm kdata = do
    pgdir ← get_page
    if pgdir == 0 then pure 0 else do
      clear_page pgdir
      if ltb devspace (p2v phystop) then (λ s. panic) else map_kernel pgdir (kmap kdata)

  -- The loop of `allocuvm` from `a` on; `oldsz` and `newsz` are the arguments of the call.
  unfoldable pub alloc_from : (pgdir rounds a oldsz newsz : ℕ) → M ℕ
  unfolding kalloc clear_page mappages deallocuvm free_page v2p
  alloc_from pgdir zero a oldsz newsz = pure newsz
  alloc_from pgdir (suc rounds) a oldsz newsz = elim (ltb a newsz) [
    | false ↦ pure newsz
    | true ↦ do
      mem ← get_page
      elim (mem == 0) [
        | true ↦ deallocuvm pgdir newsz oldsz >> pure 0
        | false ↦ do
          clear_page mem
          mapped ← mappages pgdir a pgsize (v2p mem) (pte_w + pte_u)
          elim mapped [
            | true ↦ alloc_from pgdir rounds (a + pgsize) oldsz newsz
            | false ↦ deallocuvm pgdir newsz oldsz >> free_page first mem >> pure 0
          ]
      ]
  ]

  unfoldable pub allocuvm : (pgdir oldsz newsz : ℕ) → M ℕ
  unfolding alloc_from page_round_up
  allocuvm pgdir oldsz newsz =
      if leb kernbase newsz
      then pure 0
      else (if ltb newsz oldsz
          then pure oldsz
          else alloc_from pgdir (newsz / pgsize + 1) (page_round_up oldsz) oldsz newsz)

  -- The pages from `i` on; 0 when memory runs out.
  unfoldable pub copy_from : (d pgdir rounds i sz : ℕ) → M ℕ
  unfolding walk word_at present pte_addr pte_flags kalloc copy_page mappages freevm p2v v2p
  copy_from d pgdir zero i sz = pure d
  copy_from d pgdir (suc rounds) i sz = elim (ltb i sz) [
    | false ↦ pure d
    | true ↦ do
      pte ← walk pgdir i false
      w ← word_at pte
      elim (pte == 0 || not (present w)) [
        | true ↦ (λ s. panic)
        | false ↦ do
          mem ← get_page
          elim (mem == 0) [
            | true ↦ freevm d >> pure 0
            | false ↦ do
              copy_page mem (p2v (pte_addr w))
              mapped ← mappages d i pgsize (v2p mem) (pte_flags w)
              elim mapped [
                | true ↦ copy_from d pgdir rounds (i + pgsize) sz
                | false ↦ freevm d >> pure 0
              ]
          ]
      ]
  ]

  unfoldable pub copyuvm : (kdata pgdir sz : ℕ) → M ℕ
  unfolding setupkvm copy_from
  copyuvm kdata pgdir sz = do
    d ← setupkvm kdata
    if d == 0 then pure 0 else copy_from d pgdir (sz / pgsize + 1) 0 sz
