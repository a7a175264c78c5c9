-- ===== src/Fs/Elements.antt =====
-- fs.c: `skipelem` on a path as the list of its elements.
use homework.Prelude.{
  ℕ, zero, suc, ◌<◌, ◌≡◌, ◌≢◌, refl, ◌∙◌, ap, sym, ◌==◌, true, false, none, some, List, [], ◌∷◌,
  ◌++◌, All, length, replicate, get_or, ◌↔◌, map, append-nil, arith,
}
use homework.Fs.Machine.{dirsiz}
use homework.Fs.Directory.{Name}
use homework.Fs.Path.{slash, skip_slashes, span_elem, copy_elem, skipelem}

-- A path element: characters other than the slash, at least one.
pub record IsElem (e : List ℕ) : Type 0 where
  pub nonempty : 0 < length e
  pub plain : All (λ c. c ≢ slash) e

-- Elements, each after one slash or more: the numbers say how many slashes more.
abbrev pub join : List (ℕ × List ℕ) → List ℕ → List ℕ
join [] end = end
join ((k, e) ∷ es) end = slash ∷ replicate k slash ++ (e ++ join es end)

-- The buffer `name` holds the element, cut off after `dirsiz` characters.
pub record Holds (e : List ℕ) (name : Name) : Type 0 where
  pub chars : (i : ℕ) → i < length e → i < dirsiz → name i ≡ get_or e i 0
  pub ended : length e < dirsiz → name (length e) ≡ 0

-- Calls of `skipelem` give the elements one after the other, then 0; what is left of the path is empty
-- exactly when the element was the last.
pub data Walks : List (List ℕ) → List ℕ → Name → Type 0 where
  finished : {path : List ℕ} {name : Name} → skipelem path name ≡ none → Walks [] path name
  next :
      {e : List ℕ} {es : List (List ℕ)} {path path' : List ℕ} {name name' : Name}
      → skipelem path name ≡ some (path', name')
      → Holds e name'
      → (path' ≡ []) ↔ (es ≡ [])
      → Walks es path' name'
      → Walks (e ∷ es) path name

skip_slashes-replicate :
    (k : ℕ) (path : List ℕ) → skip_slashes (replicate k slash ++ path) ≡ skip_slashes path
unfolding skip_slashes
skip_slashes-replicate zero path = refl
skip_slashes-replicate (suc k) path = skip_slashes-replicate k path

-- A path that is at its end or at a slash.
abbrev AtSlash : List ℕ → Type 0
AtSlash [] = Unit {0}
AtSlash (c ∷ path) = c ≡ slash

span_elem-append :
    (e rest : List ℕ) → All (λ c. c ≢ slash) e → AtSlash rest → span_elem (e ++ rest) ≡ (e, rest)
unfolding span_elem
span_elem-append [] [] p at = refl
span_elem-append [] (c ∷ rest) p at =
    let test : (c == slash) ≡ true = ground arith in rw (span_elem, test)
span_elem-append (c ∷ e) rest p at =
    let test : (c == slash) ≡ false = ground arith in
    rw (span_elem, test, span_elem-append e rest p.1 at)

skip_slashes-append : (e rest : List ℕ) → IsElem e → skip_slashes (e ++ rest) ≡ e ++ rest
unfolding skip_slashes
skip_slashes-append [] rest p = let h = p.nonempty in absurd (omega arith)
skip_slashes-append (c ∷ e) rest p =
    let ne = p.plain.0 in let test : (c == slash) ≡ false = ground arith in rw (skip_slashes, test)

skipelem_at :
    (e rest path : List ℕ) (name : Name)
    → IsElem e
    → AtSlash rest
    → skip_slashes path ≡ e ++ rest
    → skipelem path name ≡ some (skip_slashes rest, copy_elem e name)
unfolding skipelem
skipelem_at [] rest path name p at q = let h = p.nonempty in absurd (omega arith)
skipelem_at (c ∷ e) rest path name p at q =
    rw (skipelem, q, span_elem-append (c ∷ e) rest p.plain at)

copy_elem-Holds : (e : List ℕ) (name : Name) → Holds e (copy_elem e name)
unfolding copy_elem
copy_elem-Holds e name = record {
  chars = λ i lt small. ground arith;
  ended = λ small. ground arith;
}

-- A path that starts with the first element, without the slashes before it.
abbrev pub joined : List (ℕ × List ℕ) → List ℕ → List ℕ
joined [] end = []
joined ((k, e) ∷ es) end = e ++ join es end

abbrev pub names : List (ℕ × List ℕ) → List (List ℕ)
names es = map (λ p. p.1) es

AtSlash-join : (es : List (ℕ × List ℕ)) (m : ℕ) → AtSlash (join es (replicate m slash))
AtSlash-join [] zero = tt
AtSlash-join [] (suc m) = refl
AtSlash-join ((k, e) ∷ es) m = refl

skip_slashes-joined :
    (es : List (ℕ × List ℕ)) (m : ℕ)
    → All (λ p. IsElem (p.1)) es
    → skip_slashes (joined es (replicate m slash)) ≡ joined es (replicate m slash)
unfolding skip_slashes
skip_slashes-joined [] m p = refl
skip_slashes-joined ((k, e) ∷ es) m p = skip_slashes-append e (join es (replicate m slash)) p.0

skip_slashes-join :
    (es : List (ℕ × List ℕ)) (m : ℕ)
    → All (λ p. IsElem (p.1)) es
    → skip_slashes (join es (replicate m slash)) ≡ joined es (replicate m slash)
skip_slashes-join [] m p =
    ap skip_slashes (sym (append-nil (replicate m slash)))
    ∙ skip_slashes-replicate m []
    ∙ (unfold skip_slashes in refl)
skip_slashes-join ((k, e) ∷ es) m p =
    skip_slashes-replicate (suc k) (e ++ join es (replicate m slash))
    ∙ skip_slashes-append e (join es (replicate m slash)) p.0

joined-nil_iff :
    (es : List (ℕ × List ℕ)) (end : List ℕ)
    → All (λ p. IsElem (p.1)) es
    → (joined es end ≡ []) ↔ (names es ≡ [])
joined-nil_iff [] end p = (λ e. refl, λ e. refl)
joined-nil_iff ((k, []) ∷ es) end p = let h = p.0.nonempty in absurd (omega arith)
joined-nil_iff ((k, c ∷ e) ∷ es) end p = (λ q. cc, λ q. cc)

joined-Walks :
    (es : List (ℕ × List ℕ)) (m : ℕ) (path : List ℕ) (name : Name)
    → All (λ p. IsElem (p.1)) es
    → skip_slashes path ≡ joined es (replicate m slash)
    → Walks (names es) path name
joined-Walks [] m path name p q =
    finished {path = path} {name = name} (unfold skipelem in rw (skipelem, q))
joined-Walks ((k, e) ∷ es) m path name p q =
    let rest = joined es (replicate m slash) in
    let to_rest = skip_slashes-join es m p.1 in
    next
      (skipelem_at e (join es (replicate m slash)) path name p.0 (AtSlash-join es m) q
        ∙ ap (λ r. some (r, copy_elem e name)) to_rest)
      (copy_elem-Holds e name) (joined-nil_iff es (replicate m slash) p.1)
      (joined-Walks es m rest (copy_elem e name) p.1 (skip_slashes-joined es m p.1))

-- From a path that is written with any number of slashes before, between and behind its elements,
-- calls of `skipelem` give back the elements in order, each cut off after 14 characters, and then 0. The
-- rest of the path is empty exactly after the last element.
pub skipelem-join :
    (es : List (ℕ × List ℕ)) (k m : ℕ) (name : Name)
    → All (λ p. IsElem (p.1)) es
    → Walks (names es) (replicate k slash ++ joined es (replicate m slash)) name
skipelem-join es k m name p =
    joined-Walks es m (replicate k slash ++ joined es (replicate m slash)) name p
      (skip_slashes-replicate k (joined es (replicate m slash)) ∙ skip_slashes-joined es m p)
