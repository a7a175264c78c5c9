-- ===== src/Vm/Machine.antt =====
-- mmu.h and what vm.c works on: the words of the memory at the kernel's addresses, and the free list.
use homework.Prelude.{
  ℕ, zero, suc, ◌+◌, ◌-◌, ◌*◌, ◌/◌, ◌%◌, ◌^◌, Bool, ◌&&◌, leb, ltb, ◌==◌, if◌then◌else◌, update,
  List, [], ◌∷◌, none, some,
}
use homework.Kalloc.{Kmem, pgsize, kernbase}
use homework.Kalloc.{kfree}

-- A run ends with a value, or with a panic.
pub data Ran (A : Type 0) : Type 0 where
  ok : A → Kmem → Ran A
  panic : Ran A

abbrev pub M : Type 0 → Type 0
M A = Kmem → Ran A

module _ {A B : Type 0} where
  abbrev pub and_then : Ran A → (A → M B) → Ran B
  and_then (ok a s) k = k a s
  and_then panic k = panic

  infixl 5 ◌>>=◌ ◌>>◌
  abbrev pub ◌>>=◌ : M A → (A → M B) → M B
  m >>= k = λ s. and_then (m s) k

  abbrev pub ◌>>◌ : M A → M B → M B
  m >> k = m >>= λ _. k

abbrev pub pure : {A : Type 0} → A → M A
pure = ok

abbrev pub npdentries : ℕ
npdentries = 1024

abbrev pub pte_w : ℕ
pte_w = 2

abbrev pub pte_u : ℕ
pte_u = 4

abbrev pub extmem : ℕ
extmem = 1048576

abbrev pub devspace : ℕ
devspace = 4261412864

-- `PDX(va)` and `PTX(va)`
unfoldable pub pdx : ℕ → ℕ
pdx va = va / 4194304 % 1024

unfoldable pub ptx : ℕ → ℕ
ptx va = va / 4096 % 1024

unfoldable pub pte_addr : ℕ → ℕ
pte_addr pte = pte / 4096 * 4096

unfoldable pub pte_flags : ℕ → ℕ
pte_flags pte = pte % 4096

-- `pte & PTE_P` and `pte & PTE_U`
unfoldable pub present : ℕ → Bool
present pte = pte % 2 == 1

unfoldable pub for_user : ℕ → Bool
for_user pte = pte / 4 % 2 == 1

unfoldable pub p2v : ℕ → ℕ
p2v a = (a + kernbase) % 2 ^ 32

unfoldable pub page_round_down : ℕ → ℕ
page_round_down a = a / 4096 * 4096

-- `a | b` on the lowest `bits` bits.
unfoldable pub bit_or : (bits a b : ℕ) → ℕ
bit_or zero a b = 0
bit_or (suc bits) a b = (if a % 2 == 1 then 1 else b % 2) + 2 * bit_or bits (a / 2) (b / 2)

-- `memset(v, 0, PGSIZE)`, word by word.
unfoldable pub zero_page : ℕ → (ℕ → ℕ) → ℕ → ℕ
zero_page v mem a = if leb v a && ltb a (v + pgsize) then 0 else mem a

unfoldable pub clear_page : ℕ → M (Unit {0})
unfolding zero_page
clear_page v s = ok tt (record s { mem = zero_page v s.mem })

-- `memmove(dst, src, PGSIZE)` between pages that do not overlap, word by word.
unfoldable pub copy_page : (dst src : ℕ) → M (Unit {0})
copy_page dst src s = ok tt (record s {
  mem = λ a. if leb dst a && ltb a (dst + pgsize) then s.mem (src + (a - dst)) else s.mem a;
})

-- A byte of a word, and the word with another byte there; the first byte is the lowest.
unfoldable pub byte_unit : ℕ → ℕ
byte_unit a =
    if a % 4 == 0 then 1 else (if a % 4 == 1 then 256 else (if a % 4 == 2 then 65536 else 16777216))

unfoldable pub get_byte : (ℕ → ℕ) → ℕ → ℕ
unfolding byte_unit
get_byte mem a = mem (a / 4 * 4) / byte_unit a % 256

unfoldable pub put_byte : (ℕ → ℕ) → ℕ → ℕ → ℕ → ℕ
unfolding get_byte byte_unit
put_byte mem a b =
    update mem (a / 4 * 4) (mem (a / 4 * 4) - get_byte mem a * byte_unit a + b * byte_unit a)

-- Bytes from an address on, as `memmove` and `readi` put them there.
unfoldable pub put_bytes : (ℕ → ℕ) → ℕ → List ℕ → ℕ → ℕ
unfolding put_byte
put_bytes mem a [] = mem
put_bytes mem a (b ∷ bytes) = put_bytes (put_byte mem a b) (a + 1) bytes

unfoldable pub move_in : ℕ → List ℕ → M (Unit {0})
unfolding put_bytes
move_in dst bytes s = ok tt (record s { mem = put_bytes s.mem dst bytes })

unfoldable pub set_word : ℕ → ℕ → M (Unit {0})
set_word a w s = ok tt (record s { mem = update s.mem a w })

unfoldable pub word_at : ℕ → M ℕ
word_at a s = ok (s.mem a) s

-- `kfree` as a run; `first` is the address behind the kernel's image.
unfoldable pub free_page : (first v : ℕ) → M (Unit {0})
unfolding kfree
free_page first v s = elim (kfree first v s) [ none ↦ panic | some s' ↦ ok tt s' ]
