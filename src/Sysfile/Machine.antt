-- ===== src/Sysfile/Machine.antt =====
-- sysfile.c: what its calls work on, for the process that makes the call.
use homework.Prelude.{ℕ, Option, update}
use homework.Fs
use homework.Fs.{State}
use homework.File.{File}

-- The file system, the table of open files, `ofile` and `cwd` of the process. Files are indices.
pub record Sys : Type 0 where
  pub fs : State
  pub file : ℕ → File
  pub ofile : ℕ → Option ℕ
  pub cwd : ℕ

pub data Ran (A : Type 0) : Type 0 where
  ok : A → Sys → Ran A
  panic waits : Ran A

abbrev pub M : Type 0 → Type 0
M A = Sys → Ran A

module _ {A B : Type 0} where
  abbrev pub and_then : Ran A → (A → M B) → Ran B
  and_then (ok a s) k = k a s
  and_then panic k = panic
  and_then waits k = waits

  infixl 5 ◌>>=◌ ◌>>◌
  abbrev pub ◌>>=◌ : M A → (A → M B) → M B
  m >>= k = λ s. and_then (m s) k

  abbrev pub ◌>>◌ : M A → M B → M B
  m >> k = m >>= λ _. k

abbrev pub pure : {A : Type 0} → A → M A
pure = ok

-- A run of fs.c as a part of a call.
abbrev pub after_fs : {A : Type 0} → Fs.Ran A → Sys → Ran A
after_fs (Fs.ok a t) s = ok a (record s { fs = t })
after_fs Fs.panic s = panic
after_fs Fs.waits s = waits

abbrev pub on_fs : {A : Type 0} → Fs.M A → M A
on_fs m s = after_fs (m s.fs) s

unfoldable pub set_ofile : ℕ → Option ℕ → M (Unit {0})
set_ofile fd f s = ok tt (record s { ofile = update s.ofile fd f })

unfoldable pub set_file : ℕ → File → M (Unit {0})
set_file f v s = ok tt (record s { file = update s.file f v })
