-- ===== src/Set/Combine.antt =====
-- nsd/set.c: `Ns_SetMerge`, `Ns_SetCopy` and `Ns_SetMove`.
use anansi.Common.{
  ℕ, zero, suc, ◌+◌, ◌≤◌, ◌≡◌, refl, sym, ap, ◌∙◌, Option, none, some, List, [], ◌∷◌, ◌++◌,
  append-nil, append_assoc, arith, if◌then◌else◌, inl, inr, Bool-cases, Bytes, length, take, drop,
  take-drop-suc, str_eq,
}
use anansi.Set.{
  Field, blank, NsSet, field, find, get, put, merge_from, merge, merge_one, copy_from, copy, move,
  create,
}
use anansi.Set.View.{IsValid, view, view-put, view-trunc, create-IsValid}
use anansi.Set.Lookup.{
  first, value_of, named, IsFirst, find_cmp-first, first_of_IsFirst, get_cmp-first,
}
use anansi.Set.Change.{or_else, or_else-none, first-append, matches_iff}

-- The fields of `low` from `i`, as the loops meet them.
rest_of : (low : NsSet) → ℕ → ℕ → List Field
rest_of low k i = take k (drop i low.fields)

copy_from-view :
    (old : NsSet) (k i : ℕ) (s : NsSet)
    → i + k ≤ length old.fields
    → IsValid s
    → (view (copy_from old k i s) ≡ view s ++ rest_of old k i) × IsValid (copy_from old k i s)
unfolding copy_from rest_of
copy_from-view old zero i s h v = (sym (append-nil (view s)), v)
copy_from-view old (suc k) i s h v =
    let (e, _, w) = view-put s v (field old i).name (field old i).value in
    let (f, u) =
      copy_from-view old k (suc i) (put s (field old i).name (field old i).value).0 (omega arith)
        w in
    (
      f
          ∙ rw (e, take-drop-suc k i old.fields blank (omega arith))
              (append_assoc (view s) (field old i ∷ []) _),
      u,
    )

-- A copy of a valid set is valid and has the fields of the old set, in their order.
pub view-copy : (old : NsSet) → IsValid old → (view (copy old) ≡ view old) × IsValid (copy old)
unfolding copy rest_of
view-copy old v =
    let (w, e) = create-IsValid old.name in
    let (f, u) =
      copy_from-view old old.size 0 (create old.name) (omega (arith, v.fits, v.allocated)) w in
    (f ∙ ap (λ xs. xs ++ view old) e, u)

-- `move` appends the fields of `from` to `to`, and leaves `from` empty; both stay valid.
pub view-move :
    (to from : NsSet)
    → IsValid to
    → IsValid from
    → (view (move to from).0 ≡ view to ++ view from)
      × (view (move to from).1 ≡ [])
      × IsValid (move to from).0
      × IsValid (move to from).1
unfolding move rest_of
view-move to from v w =
    let (f, u) = copy_from-view from from.size 0 to (omega (arith, w.fits, w.allocated)) v in
    let (g, t) = view-trunc from w 0 in (f, g, u, t)

or_else_assoc : (f g h : Option Field) → or_else (or_else f g) h ≡ or_else f (or_else g h)
or_else_assoc none g h = refl
or_else_assoc (some f) g h = refl

-- What a search finds in one field.
found : Option Bytes → Field → Option Field
found q f = if named str_eq q f then some f else none

first-cons :
    (q : Option Bytes) (f : Field) (xs : List Field)
    → first (named str_eq q) (f ∷ xs) ≡ or_else (found q f) (first (named str_eq q) xs)
unfolding first found
first-cons q f xs = ground arith

first-nil : (q : Option Bytes) → first (named str_eq q) [] ≡ none
unfolding first
first-nil q = refl

-- A field whose name is in the list already adds nothing to what is found.
or_else-found :
    (q : Option Bytes) (xs : List Field) (f : Field) (r : Option Field) (m : ℕ)
    → IsFirst (named str_eq f.name) xs m
    → or_else (first (named str_eq q) xs) (or_else (found q f) r)
      ≡ or_else (first (named str_eq q) xs) r
unfolding found
or_else-found q xs f r m i = elim (Bool-cases (named str_eq q f)) [
  | inl e ↦
      let q' = (matches_iff q f.name).0 e in
      rw (q', first_of_IsFirst (named str_eq f.name) xs m i) refl
  | inr e ↦ rw e
]

merge_one-first :
    (q : Option Bytes) (s : NsSet) (f : Field) (r : Option Field)
    → IsValid s
    → (or_else (first (named str_eq q) (view (merge_one s f))) r
        ≡ or_else (first (named str_eq q) (view s)) (or_else (found q f) r))
      × IsValid (merge_one s f)
unfolding merge_one first
merge_one-first q s f r v = elim (find_cmp-first str_eq f.name s v) [
  | inl (e, _) ↦
      unfold find in
      let (g, _, w) = view-put s v f.name f.value in
      let p = named str_eq q in
      let same : first p (view (put s f.name f.value).0) ≡ or_else (first p (view s)) (found q f) =
        ap (first p) g
        ∙ first-append p (view s) (f ∷ [])
        ∙ ap (or_else (first p (view s))) (first-cons q f [] ∙ rw first-nil (or_else-none _)) in
      (
        rw (e, merge_one, same) (or_else_assoc (first p (view s)) (found q f) r),
        rw (e, merge_one) w,
      )
  | inr (m, e, i) ↦
      unfold find in
      (rw (e, merge_one) (sym (or_else-found q (view s) f r m i)), rw (e, merge_one) v)
]

merge_from-first :
    (low : NsSet) (q : Option Bytes) (k i : ℕ) (s : NsSet)
    → i + k ≤ length low.fields
    → IsValid s
    → (first (named str_eq q) (view (merge_from low k i s))
        ≡ or_else (first (named str_eq q) (view s)) (first (named str_eq q) (rest_of low k i)))
      × IsValid (merge_from low k i s)
unfolding merge_from rest_of
merge_from-first low q zero i s h v = (rw (first-nil q) (sym (or_else-none _)), v)
merge_from-first low q (suc k) i s h v =
    let f = field low i in
    let r = first (named str_eq q) (rest_of low k (suc i)) in
    let (e, w) = merge_one-first q s f r v in
    let (g, u) = merge_from-first low q k (suc i) (merge_one s f) (omega arith) w in
    (g ∙ e ∙ rw (take-drop-suc k i low.fields blank (omega arith), first-cons) refl, u)

-- A key finds in a merged set what it found in `high`, and what it finds in `low` if `high` had
-- no such key; the merged set is valid where both were.
pub get-merge :
    (high low : NsSet) (q : Option Bytes)
    → IsValid high
    → IsValid low
    → (get (merge high low) q
        ≡ value_of
            (or_else (first (named str_eq q) (view high)) (first (named str_eq q) (view low))))
      × IsValid (merge high low)
unfolding merge get rest_of
get-merge high low q v w =
    let (e, u) = merge_from-first low q low.size 0 high (omega (arith, w.fits, w.allocated)) v in
    (get_cmp-first str_eq q (merge high low) u ∙ ap value_of e, u)
