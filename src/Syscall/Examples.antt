-- ===== src/Syscall/Examples.antt =====
-- Runs of the fetches of arguments, in a process with 64 bytes.
use homework.Prelude.{
  ℕ, ◌^◌, ◌-◌, ◌<◌, ◌≤◌, ◌≡◌, ◌↔◌, ◌+◌, ◌==◌, if◌then◌else◌, refl, none, some, arith,
}
use homework.Syscall.Args.{fetchint, argint, argptr, argstr}
use homework.Syscall.Pointers.{argptr_lem}

-- The stack pointer is 32; argument 0 is the address 48 of the string "AB".
abbrev user_mem : ℕ → ℕ
user_mem a = if a == 36 then 48 else (if a == 48 then 65 else (if a == 49 then 66 else 0))

argstr-test : argstr 64 user_mem 32 0 ≡ some (48, 2)
unfolding argstr
argstr-test = refl

-- An address near 2^32, where `addr + 4` wraps.
fetchint-test : fetchint 64 user_mem (2 ^ 32 - 2) ≡ none
unfolding fetchint
fetchint-test = refl

argptr_lem_example :
    (argptr 64 user_mem 32 0 16 ≡ some 48)
    ↔ ((argint 64 user_mem 32 0 ≡ some 48) × (48 < 64) × (16 < 2 ^ 31) × (48 + 16 ≤ 64))
argptr_lem_example = argptr_lem 64 user_mem 32 0 16 48 (omega arith)
