-- ===== src/Sysfile/Examples.antt =====
-- Runs of the calls on files, and their theorems at concrete inputs.
use homework.Prelude.{
  ℕ, ◌<◌, ◌≡◌, refl, true, false, none, some, ◌==◌, if◌then◌else◌, [], ◌∷◌, inl, inr, Bool-cases,
  arith,
}
use homework.Fs
use mathlib.Core.Option.{some-injective}
use homework.File.{FileType, nfile}
use homework.Sysfile.Machine.{Sys, ok}
use homework.Sysfile.Descriptors.{sys_dup}
use homework.Sysfile.Counted.{IsOpen}
use homework.Sysfile.Sharing.{Dup, Close, sys_dup_lem, sys_close_lem}
use homework.Sysfile.Pipes.{sys_pipe}

abbrev no_files : Fs.State
no_files = record {
  blocks = λ b i. 0;
  logged = [];
  sb = record {
    size = 100;
    nblocks = 41;
    ninodes = 16;
    nlog = 30;
    logstart = 2;
    inodestart = 32;
    bmapstart = 58;
  };
  icache = λ i. record {
    dev = 0;
    inum = 0;
    ref = 0;
    locked = false;
    valid = false;
    kind = 0;
    major = 0;
    minor = 0;
    nlink = 0;
    size = 0;
    addrs = λ j. 0;
  };
}

-- File 7 is the read end of a pipe; descriptor 3 is for it, and another process has one too.
abbrev one_open : Sys
one_open = record {
  fs = no_files;
  file = λ f. record {
    kind = if f == 7 then FileType.fd_pipe else FileType.fd_none;
    ref = if f == 7 then 2 else 0;
    readable = true;
    writable = false;
    pipe = 4096;
    ip = 0;
    off = 0;
  };
  ofile = λ fd. if fd == 3 then some 7 else none;
  cwd = 0;
}

-- Argument 0 is 3, and the others are 0.
abbrev three_first : ℕ → ℕ
three_first a = if a == 36 then 3 else 0

only_file : (fd f : ℕ) → (if fd == 3 then some 7 else none) ≡ some f → f < nfile
only_file fd f e = elim (Bool-cases (fd == 3)) [
  | inl y ↦ omega (arith, some-injective 7 f (rw (y) at e))
  | inr n ↦ absurd (cc (rw (n) at e))
]

one_open-IsOpen : IsOpen one_open (7 ∷ [])
one_open-IsOpen = record { counted = λ f lt. ground arith; valid = λ fd f lt e. only_file fd f e }

sys_dup_lem_example : Dup 64 three_first 32 one_open (7 ∷ [])
sys_dup_lem_example = sys_dup_lem 64 three_first 32 one_open (7 ∷ []) one_open-IsOpen

abbrev nothing_more : Fs.M (Unit {0})
nothing_more s = Fs.ok tt s

sys_close_lem_example :
    Close 64 three_first 32 one_open (7 ∷ []) (λ p w. nothing_more) nothing_more nothing_more
sys_close_lem_example =
    sys_close_lem 64 three_first 32 one_open (7 ∷ []) one_open-IsOpen (λ p w. nothing_more)
      nothing_more nothing_more

-- The duplicate is descriptor 0; and of a pipe, the descriptors 0 and 1, on files 0 and 1.
sys_dup-test :
    elim (sys_dup 64 three_first 32 one_open) [ ok (some fd) t ↦ fd ∷ (t.file 7).ref ∷ [] | _ ↦ [] ]
    ≡ 0 ∷ 3 ∷ []
unfolding sys_dup
sys_dup-test = refl

sys_pipe-test :
    elim (sys_pipe
      (λ s. Fs.ok 8192 s)
      (λ p. nothing_more)
      (λ p w. nothing_more)
      nothing_more
      nothing_more
      64
      (λ a. 0)
      32
      one_open) [ ok (some (p, (a, b))) t ↦ a ∷ b ∷ (t.file 0).ref ∷ (t.file 1).pipe ∷ [] | _ ↦ [] ]
    ≡ 0 ∷ 1 ∷ 1 ∷ 8192 ∷ []
unfolding sys_pipe
sys_pipe-test = refl
