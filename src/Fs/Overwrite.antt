-- ===== src/Fs/Overwrite.antt =====
-- fs.c: `writei`, and `readi` after it, on a file whose blocks are all allocated.
use Prim.Native.Nat.{min}
use homework.Prelude.{
  ℕ, zero, suc, ◌+◌, ◌-◌, ◌*◌, ◌/◌, ◌%◌, ◌≤◌, ◌<◌, ◌≡◌, refl, ◌∙◌, ap, sym, subst, inl, inr, ◌==◌,
  false, List, [], ◌∷◌, ◌++◌, length, take, drop, get_or, length-take, length-drop,
  take-append-drop, dec_lt, length-append, arith,
}
use homework.Fs.Machine.{Block, State, Ran, ok, bsize, bread, bind_ok, log_write, ◌>>=◌, ◌>>◌}
use homework.Fs.Content.{bmap, patch, write_blocks}
use homework.Fs.Mapped.{addr_at, byte_at, IsMapped, bmap_lem, bread_ok}
use homework.Fs.Writing.{Written, Written-IsMapped, patched, patched-Written}

get_or-append_left :
    (xs ys : List ℕ) (i : ℕ) → i < length xs → get_or (xs ++ ys) i 0 ≡ get_or xs i 0
get_or-append_left [] ys i lt = absurd (omega arith)
get_or-append_left (x ∷ xs) ys zero lt = refl
get_or-append_left (x ∷ xs) ys (suc i) lt = get_or-append_left xs ys i (omega arith)

get_or-append_right : (xs ys : List ℕ) (i : ℕ) → get_or (xs ++ ys) (length xs + i) 0 ≡ get_or ys i 0
get_or-append_right [] ys i = ap (λ j. get_or ys j 0) (omega arith)
get_or-append_right (x ∷ xs) ys i =
    let e : suc (length xs) + i ≡ suc (length xs + i) = omega arith in
    ap (λ j. get_or (x ∷ (xs ++ ys)) j 0) e ∙ get_or-append_right xs ys i

module _ {s t u : State} {ip n off : ℕ} {bs bs' : List ℕ} (w : Written s ip n off bs t)
    (w' : Written t ip n (off + length bs) bs' u)
    (fits : off + length bs + length bs' ≤ n * bsize) where
  inside-append : (i : ℕ) → i < length (bs ++ bs') → byte_at u ip (off + i) ≡ get_or (bs ++ bs') i 0
  inside-append i lt = elim (dec_lt i (length bs)) [
    | yes h ↦
        w'.outside (off + i) (omega arith) (inl (omega arith))
        ∙ w.inside i h
        ∙ sym (get_or-append_left bs bs' i h)
    | no h ↦
        let e : off + i ≡ off + length bs + (i - length bs) = omega arith in
        let f : length bs + (i - length bs) ≡ i = omega arith in
        ap (byte_at u ip) e
        ∙ w'.inside (i - length bs) (omega (arith, length-append bs bs'))
        ∙ sym (get_or-append_right bs bs' (i - length bs))
        ∙ ap (λ j. get_or (bs ++ bs') j 0) f
  ]

  Written-append : Written s ip n off (bs ++ bs') u
  Written-append = record {
    addrs = λ bn lt. w'.addrs bn lt ∙ w.addrs bn lt;
    inside = inside-append;
    outside = λ i lt h.
        w'.outside i lt
          (elim h [ inl l ↦ inl (omega arith) | inr l ↦ inr (omega (arith, length-append bs bs')) ])
        ∙ w.outside i lt
            (elim h [ inl l ↦ inl l | inr l ↦ inr (omega (arith, length-append bs bs')) ]);
    others = λ c apart.
        w'.others c (λ bn lt e. apart bn lt (sym (w.addrs bn lt) ∙ e)) ∙ w.others c apart;
    icache = w'.icache ∙ w.icache;
    sb = w'.sb ∙ w.sb;
  }

Written-nil : (s : State) (ip n off : ℕ) → Written s ip n off [] s
Written-nil s ip n off = record {
  addrs = λ bn lt. refl;
  inside = λ i lt. absurd (omega arith);
  outside = λ i lt h. refl;
  others = λ c apart. refl;
  icache = refl;
  sb = refl;
}

pub write_blocks_lem :
    (fuel : ℕ) (s : State) (ip n : ℕ) (src : List ℕ) (off : ℕ)
    → IsMapped s ip n
    → length src ≤ fuel
    → off + length src ≤ n * bsize
    → (t : State) × (write_blocks ip fuel src off s ≡ ok (off + length src) t)
      × Written s ip n off src t
unfolding write_blocks log_write patched
write_blocks_lem zero s ip n [] off m le fits =
    (s, ap (λ j. ok j s) (omega arith), Written-nil s ip n off)
write_blocks_lem zero s ip n (b ∷ src) off m le fits = absurd (omega arith)
write_blocks_lem (suc fuel) s ip n [] off m le fits =
    (s, ap (λ j. ok j s) (omega arith), Written-nil s ip n off)
write_blocks_lem (suc fuel) s ip n (c ∷ rest) off m le fits =
    let src = c ∷ rest in
    let k = min (length src) (bsize - off % bsize) in
    let b = addr_at s ip (off / bsize) in
    let taken : length (take k src) ≡ k = omega (arith, length-take k src) in
    let t = patched s ip off (take k src) in
    let w = patched-Written s ip n m off (take k src) (omega arith) (omega arith) in
    let (u, e, w') =
      write_blocks_lem fuel t ip n (drop k src) (off + k) (Written-IsMapped m w)
        (omega (arith, length-drop k src)) (omega (arith, length-drop k src)) in
    let more : (length src == 0) ≡ false = ground arith in
    let there = m.on_disk (off / bsize) (omega arith) in
    let next : Block → State → Ran ℕ = λ x.
      log_write b (patch x (off % bsize) (take k src))
      >> write_blocks ip fuel (drop k src) (off + k) in
    (
      u,
      rw (write_blocks, more)
          (bind_ok (bmap ip (off / bsize))
              (λ a. bread a >>= λ x.
                log_write a (patch x (off % bsize) (take k src))
                >> write_blocks ip fuel (drop k src) (off + k))
              s (bmap_lem s ip n m (off / bsize) (omega arith))
            ∙ bind_ok (bread b) next s (bread_ok b s there)
            ∙ e
            ∙ ap (λ j. ok j u) (omega (arith, length-drop k src))),
      subst (λ l. Written s ip n off l u) (take-append-drop k src)
          (Written-append w (subst (λ j. Written t ip n (off + j) (drop k src) u) (sym taken) w')
            (omega (arith, length-drop k src))),
    )
