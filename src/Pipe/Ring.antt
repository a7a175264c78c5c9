-- ===== src/Pipe/Ring.antt =====
-- pipe.c: `struct pipe`, whose counters `nread` and `nwrite` run on and wrap at 2^32.
use homework.Prelude.{
  ℕ, zero, suc, ◌+◌, ◌-◌, ◌%◌, ◌^◌, ◌≤◌, ◌<◌, ◌≡◌, refl, ap, Bool, true, false, ◌↔◌, ◌∙◌, List, [],
  ◌∷◌, ◌++◌, arith, ap₂, ◌==◌, length, update, update_self,
}

abbrev pub pipesize : ℕ
pipesize = 512

abbrev pub u32 : ℕ → ℕ
u32 n = n % 2 ^ 32

pub record Pipe : Type 0 where
  pub bytes : ℕ → ℕ  -- `data`, read at indices below `pipesize` only
  pub nread : ℕ
  pub nwrite : ℕ
  pub readopen : Bool
  pub writeopen : Bool

-- `p->nwrite == p->nread + PIPESIZE`, in `uint` arithmetic
unfoldable pub is_full : Pipe → Bool
is_full p = p.nwrite == u32 (p.nread + pipesize)

unfoldable pub is_empty : Pipe → Bool
is_empty p = p.nread == p.nwrite

-- `p->data[p->nwrite++ % PIPESIZE] = b`
unfoldable pub store : ℕ → Pipe → Pipe
store b p = record p { bytes = update p.bytes (p.nwrite % pipesize) b; nwrite = u32 (p.nwrite + 1) }

-- `p->data[p->nread++ % PIPESIZE]`
unfoldable pub fetch : Pipe → ℕ × Pipe
fetch p = (p.bytes (p.nread % pipesize), record p { nread = u32 (p.nread + 1) })

-- How many bytes are in the pipe: the difference of the counters, modulo 2^32.
abbrev pub used : Pipe → ℕ
used p = u32 (p.nwrite + 2 ^ 32 - p.nread)

-- The `k` bytes from counter value `r` on.
unfoldable pub slice : (ℕ → ℕ) → ℕ → ℕ → List ℕ
slice d r zero = []
slice d r (suc k) = d (r % pipesize) ∷ slice d (u32 (r + 1)) k

-- The abstract queue, oldest byte first.
unfoldable pub contents : Pipe → List ℕ
contents p = slice p.bytes p.nread (used p)

pub record IsValid (p : Pipe) : Type 0 where
  pub read_range : p.nread < 2 ^ 32
  pub write_range : p.nwrite < 2 ^ 32
  pub fits : used p ≤ pipesize

pub length-slice : (d : ℕ → ℕ) (r k : ℕ) → length (slice d r k) ≡ k
unfolding slice
length-slice d r zero = refl
length-slice d r (suc k) = ap suc (length-slice d (u32 (r + 1)) k)

pub length-contents : (p : Pipe) → length (contents p) ≡ used p
unfolding contents
length-contents p = length-slice p.bytes p.nread (used p)

-- A write `g` places further on, less than a round away, is not seen.
slice-update :
    (d : ℕ → ℕ) (b w r k g : ℕ)
    → r < 2 ^ 32
    → k ≤ g
    → g < pipesize
    → u32 (r + g) ≡ w
    → slice (update d (w % pipesize) b) r k ≡ slice d r k
unfolding slice
slice-update d b w r zero g hr hk hg e = refl
slice-update d b w r (suc k) g hr hk hg e =
    ground (arith, slice-update d b w (u32 (r + 1)) k (g - 1))

slice-append :
    (d : ℕ → ℕ) (w r k : ℕ)
    → r < 2 ^ 32
    → u32 (r + k) ≡ w
    → slice d r (suc k) ≡ slice d r k ++ d (w % pipesize) ∷ []
unfolding slice
slice-append d w r zero hr e = ground arith
slice-append d w r (suc k) hr e =
    ap (λ l. d (r % pipesize) ∷ l) (slice-append d w (u32 (r + 1)) k (omega arith) (omega arith))

pub is_full-iff_used : (p : Pipe) → IsValid p → (is_full p ≡ true) ↔ (used p ≡ pipesize)
unfolding is_full
is_full-iff_used p v = (λ h. ground arith, λ h. ground arith)

pub is_empty-iff_used : (p : Pipe) → IsValid p → (is_empty p ≡ true) ↔ (used p ≡ 0)
unfolding is_empty
is_empty-iff_used p v = (λ h. ground arith, λ h. ground arith)

module _ (p : Pipe) (v : IsValid p) where
  used_lt : is_full p ≡ false → used p < pipesize
  unfolding is_full
  used_lt h = ground arith

  used_pos : is_empty p ≡ false → 0 < used p
  unfolding is_empty
  used_pos h = ground arith

  pub store-IsValid : (b : ℕ) → is_full p ≡ false → IsValid (store b p)
  unfolding store
  store-IsValid b h = record {
    read_range = v.read_range;
    write_range = omega arith;
    fits = omega (arith, used_lt h);
  }

  pub fetch-IsValid : is_empty p ≡ false → IsValid (fetch p).1
  unfolding fetch
  fetch-IsValid h = record {
    read_range = omega arith;
    write_range = v.write_range;
    fits = omega (arith, used_pos h);
  }

  pub used-store : (b : ℕ) → is_full p ≡ false → used (store b p) ≡ used p + 1
  unfolding store
  used-store b h = omega (arith, used_lt h)

  -- A stored byte goes to the end of the queue.
  pub contents-store : (b : ℕ) → is_full p ≡ false → contents (store b p) ≡ contents p ++ b ∷ []
  unfolding contents store
  contents-store b h =
      let room = used_lt h in
      let grown : u32 (u32 (p.nwrite + 1) + 2 ^ 32 - p.nread) ≡ suc (used p) = omega arith in
      let new = update p.bytes (p.nwrite % pipesize) b in
      rw grown (
        slice-append new p.nwrite p.nread (used p) v.read_range (omega arith)
        ∙ ap₂ (λ l c. l ++ c ∷ [])
            (slice-update p.bytes b p.nwrite p.nread (used p) (used p) v.read_range (omega arith)
              room (omega arith))
            (update_self p.bytes (p.nwrite % pipesize) b))

  -- A fetched byte comes from its front.
  pub contents-fetch : is_empty p ≡ false → contents p ≡ (fetch p).0 ∷ contents (fetch p).1
  unfolding contents fetch
  contents-fetch h =
      let some_used = used_pos h in
      let shrunk : used p ≡ suc (u32 (p.nwrite + 2 ^ 32 - u32 (p.nread + 1))) = omega arith in
      rw shrunk (unfold slice in refl)

pub contents_empty : (p : Pipe) → IsValid p → is_empty p ≡ true → contents p ≡ []
unfolding contents slice
contents_empty p v h = rw ((is_empty-iff_used p v).0 h)
