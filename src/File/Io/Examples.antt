-- ===== src/File/Io/Examples.antt =====
-- Runs of `filewrite` and `fileread` on a device, in which every write takes all bytes.
use homework.Prelude.{
  ℕ, ◌≡◌, refl, suc, zero, true, false, Option, none, some, List, [], ◌∷◌, length,
}
use homework.File.Defs.{FileType, File}
use homework.Fs.{Device, State, ok, panic, waits, M, pure}
use homework.File.Io.{fileread, filewrite}

abbrev console : ℕ → Device
console major = record {
  read = some (λ ip n s. ok (some (7 ∷ 8 ∷ [])) s);
  write = some (λ ip src s. ok (some (length src)) (record s { logged = length src ∷ s.logged }));
}

abbrev device_file : File
device_file = record {
  kind = FileType.fd_inode;
  ref = 1;
  readable = true;
  writable = true;
  pipe = 0;
  ip = 0;
  off = 5;
}

abbrev device_state : State
device_state = record {
  blocks = λ b i. 0;
  logged = [];
  sb = record {
    size = 100;
    nblocks = 41;
    ninodes = 16;
    nlog = 30;
    logstart = 2;
    inodestart = 32;
    bmapstart = 58;
  };
  icache = λ i. record {
    dev = 1;
    inum = 2;
    ref = 1;
    locked = false;
    valid = true;
    kind = 3;
    major = 1;
    minor = 0;
    nlink = 1;
    size = 0;
    addrs = λ j. 0;
  };
}

abbrev no_pipe : {A : Type 0} → M (Option A)
no_pipe s = ok none s

abbrev zeros : ℕ → List ℕ
zeros zero = []
zeros (suc n) = 0 ∷ zeros n

-- 2000 bytes go in two pieces.
filewrite-test :
    elim (filewrite console
      (λ p n. no_pipe)
      (λ p src. no_pipe)
      (pure tt)
      (pure tt)
      device_file
      (zeros 2000)
      device_state) [ ok r s ↦ r.1.off ∷ s.logged | panic ↦ [] | waits ↦ [] ]
    ≡ 2005 ∷ 464 ∷ 1536 ∷ []
unfolding filewrite
filewrite-test = refl

fileread-test :
    elim (fileread console
      (λ p n. no_pipe)
      (λ p src. no_pipe)
      (pure tt)
      (pure tt)
      device_file
      9
      device_state) [ ok r s ↦ r.1.off | panic ↦ 0 | waits ↦ 0 ]
    ≡ 7
unfolding fileread
fileread-test = refl
