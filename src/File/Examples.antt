-- ===== src/File/Examples.antt =====
-- Runs on the table of open files.
use homework.Prelude.{refl, ℕ, ◌≡◌, true, false, none, some, ◌==◌, if◌then◌else◌}
use homework.File.Defs.{FileType, File, still_open, closes_pipe, fileclose}

-- File 0 is the write end of a pipe, with two descriptors.
abbrev files : ℕ → File
files f = record {
  kind = if f == 0 then FileType.fd_pipe else FileType.fd_none;
  ref = if f == 0 then 2 else 0;
  readable = false;
  writable = true;
  pipe = 4096;
  ip = 0;
  off = 0;
}

-- The first descriptor is closed, and then the last.
fileclose-test :
    elim (fileclose 0 files) [
      | none ↦ none
      | some (still_open, f) ↦ elim (fileclose 0 f) [ none ↦ none | some (r, g) ↦ some r ]
      | some (r, f) ↦ none
    ]
    ≡ some (closes_pipe 4096 true)
unfolding fileclose
fileclose-test = refl
