-- ===== src/Pathname/Normal.antt =====
-- nsd/pathname.c: what Ns_NormalizePath makes of a path, as a list of parts.
use anansi.Common.{
  ℕ, zero, suc, ◌+◌, ◌<◌, ◌≡◌, inl, inr, refl, sym, ap, subst, ◌∙◌, Bool, false, ◌||◌, none, some,
  List, [], ◌∷◌, ◌++◌, arith, if◌then◌else◌, Bytes, length, take-append-length, Bool-cases,
  Option-cases,
}
use anansi.Pathname.{
  is_slash, skip_slashes, next_part, last_slash, cut_last, is_dot, is_dotdot, is_empty, put_part,
  normalize_from, normalize_path,
}

-- The parts of a path between its slashes.
abbrev pub parts_of : Bytes → List Bytes
parts_of [] = [] ∷ []
parts_of (c ∷ s) =
    let rest = parts_of s in
    if is_slash c then [] ∷ rest else elim rest [ [] ↦ (c ∷ []) ∷ [] | p ∷ ps ↦ (c ∷ p) ∷ ps ]

-- One part follows the directories `dirs`, the innermost one first.
abbrev pub enter : List Bytes → Bytes → List Bytes
enter dirs part =
    if is_dotdot part
    then elim dirs [ [] ↦ [] | d ∷ ds ↦ ds ]
    else if is_empty part || is_dot part
    then dirs
    else part ∷ dirs

abbrev pub resolve : List Bytes → List Bytes → List Bytes
resolve dirs [] = dirs
resolve dirs (p ∷ ps) = resolve (enter dirs p) ps

-- The path of a list of directories.
abbrev pub render : List Bytes → Bytes
render [] = []
render (d ∷ ds) = render ds ++ b'/' ∷ d

abbrev pub has_slash : Bytes → Bool
has_slash [] = false
has_slash (c ∷ s) = is_slash c || has_slash s

-- No directory is empty, "." or "..", and none has a slash.
abbrev pub IsClean : Bytes → Type 0
IsClean d =
    (is_empty d ≡ false) × (is_dot d ≡ false) × (is_dotdot d ≡ false) × (has_slash d ≡ false)

abbrev pub AllClean : List Bytes → Type 0
AllClean [] = Unit
AllClean (d ∷ ds) = IsClean d × AllClean ds

last_slash-none : (s : Bytes) → has_slash s ≡ false → last_slash s ≡ none
unfolding last_slash
last_slash-none [] h = refl
last_slash-none (c ∷ s) h = ground (arith, last_slash-none s (ground arith))

last_slash-append :
    (xs s : Bytes) → has_slash s ≡ false → last_slash (xs ++ b'/' ∷ s) ≡ some (length xs)
unfolding last_slash
last_slash-append [] s h = ground (arith, last_slash-none s h)
last_slash-append (x ∷ xs) s h = ground (arith, last_slash-append xs s h)

cut_last-append : (xs s : Bytes) → has_slash s ≡ false → cut_last (xs ++ b'/' ∷ s) ≡ xs
unfolding cut_last
cut_last-append xs s h = rw (cut_last, last_slash-append xs s h) (take-append-length xs (b'/' ∷ s))

cut_last-render :
    (ds : List Bytes)
    → AllClean ds
    → cut_last (render ds) ≡ render (elim ds [ [] ↦ [] | d ∷ ds' ↦ ds' ])
unfolding cut_last last_slash
cut_last-render [] a = refl
cut_last-render (d ∷ ds) ((x, y, z, h), a) = cut_last-append (render ds) d h

put_part-render :
    (ds : List Bytes) (part : Bytes)
    → AllClean ds
    → put_part (render ds) part ≡ render (enter ds part)
unfolding put_part
put_part-render ds part a = elim (Bool-cases (is_dotdot part)) [
  | inl t ↦ rw (put_part, t) (cut_last-render ds a)
  | inr t ↦ elim (Bool-cases (is_empty part || is_dot part)) [
    | inl u ↦ rw (put_part, t, u) refl
    | inr u ↦ rw (put_part, t, u) refl
  ]
]

enter-AllClean :
    (ds : List Bytes) (part : Bytes)
    → AllClean ds
    → has_slash part ≡ false
    → AllClean (enter ds part)
enter-AllClean [] part a h = ground (arith, is_dotdot part, is_empty part, is_dot part)
enter-AllClean (d ∷ ds) part (b, a) h = ground (arith, is_dotdot part, is_empty part, is_dot part)

-- The parts of a path begin with its next part.
next_part-parts :
    (s : Bytes)
    → parts_of s
      ≡ elim (next_part s).1 [ none ↦ (next_part s).0 ∷ [] | some r ↦ (next_part s).0 ∷ parts_of r ]
unfolding next_part
next_part-parts [] = refl
next_part-parts (c ∷ s) = elim (Bool-cases (is_slash c)) [
  | inl t ↦ ground arith
  | inr t ↦ ground (arith, next_part-parts s)
]

next_part-slash : (s : Bytes) → has_slash (next_part s).0 ≡ false
unfolding next_part
next_part-slash [] = refl
next_part-slash (c ∷ s) = ground (arith, next_part-slash s)

next_part-shorter : (s r : Bytes) → (next_part s).1 ≡ some r → length r < length s
unfolding next_part
next_part-shorter [] r h = absurd cc
next_part-shorter (c ∷ s) r h = elim (Bool-cases (is_slash c)) [
  | inl t ↦ ground arith
  | inr t ↦ ground (arith, next_part-shorter s r)
]

-- The directories that a path leads to.
abbrev pub dirs_of : Bytes → List Bytes
dirs_of path = resolve [] (parts_of path)

-- Two facts of a string: it is the path of the directories, and they are clean.
abbrev Resolves : List Bytes → Bytes → Type 0
Resolves dirs s = (s ≡ render dirs) × AllClean dirs

normalize_from-end :
    (fuel : ℕ) (ds src : Bytes)
    → (next_part src).1 ≡ none
    → normalize_from (suc fuel) ds src ≡ put_part ds (next_part src).0
unfolding normalize_from
normalize_from-end fuel ds src h = ground arith

normalize_from-step :
    (fuel : ℕ) (ds src r : Bytes)
    → (next_part src).1 ≡ some r
    → normalize_from (suc fuel) ds src ≡ normalize_from fuel (put_part ds (next_part src).0) r
unfolding normalize_from
normalize_from-step fuel ds src r h = ground arith

normalize_from-Resolves :
    (fuel : ℕ) (dirs : List Bytes) (src : Bytes)
    → length src < fuel
    → AllClean dirs
    → Resolves (resolve dirs (parts_of src)) (normalize_from fuel (render dirs) src)
normalize_from-Resolves zero dirs src l a = absurd (omega arith)
normalize_from-Resolves (suc fuel) dirs src l a =
    let part = (next_part src).0 in
    let put = put_part-render dirs part a in
    let clean = enter-AllClean dirs part a (next_part-slash src) in
    elim (Option-cases (next_part src).1) [
      | inl h ↦
          let p : parts_of src ≡ part ∷ [] = next_part-parts src ∙ rw h refl in
          subst (λ ps. Resolves (resolve dirs ps) (normalize_from (suc fuel) (render dirs) src))
            (sym p) (normalize_from-end fuel (render dirs) src h ∙ put, clean)
      | inr (r, h) ↦
          let p : parts_of src ≡ part ∷ parts_of r = next_part-parts src ∙ rw h refl in
          let k =
            normalize_from-Resolves fuel (enter dirs part) r
              (omega (arith, next_part-shorter src r h)) clean in
          let e : normalize_from (suc fuel) (render dirs) src
              ≡ normalize_from fuel (render (enter dirs part)) r =
            normalize_from-step fuel (render dirs) src r h
            ∙ ap (λ t. normalize_from fuel t r) put in
          subst (λ ps. Resolves (resolve dirs ps) (normalize_from (suc fuel) (render dirs) src))
            (sym p) (e ∙ k.0, k.1)
    ]

skip_slashes-resolve :
    (s : Bytes) → resolve [] (parts_of (skip_slashes s)) ≡ resolve [] (parts_of s)
unfolding skip_slashes
skip_slashes-resolve [] = refl
skip_slashes-resolve (c ∷ s) = elim (Bool-cases (is_slash c)) [
  | inl t ↦ rw (skip_slashes, t) (skip_slashes-resolve s)
  | inr t ↦
      let e : skip_slashes (c ∷ s) ≡ c ∷ s = ground arith in ap (λ x. resolve [] (parts_of x)) e
]

-- The path of some directories, "/" where there is none.
abbrev pub path_of : List Bytes → Bytes
path_of [] = b'/' ∷ []
path_of (d ∷ ds) = render (d ∷ ds)

is_empty-append : (xs : Bytes) (c : ℕ) (s : Bytes) → is_empty (xs ++ c ∷ s) ≡ false
is_empty-append [] c s = refl
is_empty-append (x ∷ xs) c s = refl

render-path_of :
    (ds : List Bytes) → (if is_empty (render ds) then b'/' ∷ [] else render ds) ≡ path_of ds
render-path_of [] = refl
render-path_of (d ∷ ds) = rw (is_empty-append (render ds) b'/' d) refl

-- Ns_NormalizePath follows the parts of a path from the root: "" and "." lead nowhere, ".." leads back,
-- at the root to the root, and every other part leads into a directory. The result is the path of the
-- directories, and none of them is empty, "." or ".." or has a slash or a backslash, so the path does
-- not lead out of the root.
pub normalize_path-dirs_of :
    (path : Bytes) → (normalize_path [] path ≡ path_of (dirs_of path)) × AllClean (dirs_of path)
unfolding normalize_path
normalize_path-dirs_of path =
    let src = skip_slashes path in
    let k = normalize_from-Resolves (length src + 1) [] src (omega arith) tt in
    let same = skip_slashes-resolve path in
    let p : normalize_from (length src + 1) [] src ≡ render (dirs_of path) = k.0 ∙ ap render same in
    (rw (normalize_path, p) (render-path_of (dirs_of path)), subst AllClean same k.1)
