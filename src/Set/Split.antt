-- ===== src/Set/Split.antt =====
-- nsd/set.c: `Ns_SetListFind` and `Ns_SetSplit`. The NULL-terminated array of sets is a list; the
-- separator is not NUL, and every field has a name (the code passes it to `strchr`): `none` stands
-- for the fault on a field without one.
use anansi.Common.{
  ℕ, zero, suc, ◌+◌, ◌≤◌, ◌≡◌, ◌≢◌, refl, sym, ◌∙◌, Option, none, some, List, [], ◌∷◌, ◌++◌,
  append-nil, append_assoc, arith, if◌then◌else◌, inl, inr, Option-cases, subst, Bytes, length,
  take, drop, take-drop-suc, str_eq, ◌==◌,
}
use anansi.Set.{Field, blank, NsSet, field, matches, put, create}
use anansi.Set.View.{IsValid, view, view-put, name-put, create-IsValid}
use anansi.Set.Change.{matches_iff}

-- `strchr(name, sep)`: what stands before and after the first separator.
unfoldable pub cut : ℕ → Bytes → Option (Bytes × Bytes)
cut sep [] = none
cut sep (c ∷ s) =
    if c == sep
    then some ([], s)
    else elim (cut sep s) [ none ↦ none | some (a, b) ↦ some (c ∷ a, b) ]

-- The set's name and the field's key in it.
unfoldable pub split_name : ℕ → Bytes → Option Bytes × Bytes
split_name sep n = elim (cut sep n) [ none ↦ (none, n) | some (a, b) ↦ (some a, b) ]

-- Ns_SetListFind
unfoldable pub list_find : List NsSet → Option Bytes → Option NsSet
list_find [] name = none
list_find (s ∷ sets) name = if matches str_eq name s.name then some s else list_find sets name

-- `Ns_SetPut` on the set that Ns_SetListFind returned: the array holds a pointer to it.
unfoldable pub put_in : List NsSet → Option Bytes → Bytes → Option Bytes → List NsSet
put_in [] name key value = []
put_in (s ∷ sets) name key value =
    if matches str_eq name s.name
    then (put s (some key) value).0 ∷ sets
    else s ∷ put_in sets name key value

-- The body of the loop of Ns_SetSplit.
unfoldable pub split_one : ℕ → List NsSet → Bytes → Option Bytes → List NsSet
split_one sep sets n value =
    let (name, key) = split_name sep n in
    elim (list_find sets name) [
      | none ↦ put_in (sets ++ create name ∷ []) name key value
      | some s ↦ put_in sets name key value
    ]

unfoldable pub split_from : ℕ → NsSet → ℕ → ℕ → List NsSet → Option (List NsSet)
split_from sep s zero i sets = some sets
split_from sep s (suc k) i sets = elim (field s i).name [
  | none ↦ none
  | some n ↦ split_from sep s k (suc i) (split_one sep sets n (field s i).value)
]

-- Ns_SetSplit
unfoldable pub split : NsSet → ℕ → Option (List NsSet)
split s sep = split_from sep s s.size 0 []

-- The bytes before the first separator.
pub before : ℕ → Bytes → Bytes
before sep [] = []
before sep (c ∷ s) = if c == sep then [] else c ∷ before sep s

-- The parts of a name: with no separator in it there is no prefix, and the key is the name; else the
-- key is what stands behind as many bytes as the prefix has and the separator.
pub parts : ℕ → Bytes → Option Bytes × Bytes
parts sep n =
    let a = before sep n in
    if length a == length n then (none, n) else (some a, drop (suc (length a)) n)

-- The specification: the fields whose name has the prefix `q`, in their order, under their keys.
pub select : ℕ → Option Bytes → List Field → List Field
select sep q [] = []
select sep q (f ∷ fs) = elim f.name [
  | none ↦ select sep q fs
  | some n ↦
      (if matches str_eq q (parts sep n).0
        then record { name = some (parts sep n).1; value = f.value } ∷ []
        else [])
      ++ select sep q fs
]

-- The fields of the set with a given name.
pub fields_of : List NsSet → Option Bytes → List Field
fields_of sets q = elim (list_find sets q) [ none ↦ [] | some s ↦ view s ]

abbrev pub AllValid : List NsSet → Type 0
AllValid [] = Unit
AllValid (s ∷ sets) = IsValid s × AllValid sets

fields_of-cons :
    (s : NsSet) (sets : List NsSet) (q : Option Bytes)
    → fields_of (s ∷ sets) q ≡ (if matches str_eq q s.name then view s else fields_of sets q)
unfolding fields_of list_find
fields_of-cons s sets q = ground arith

-- The new field, where its set is asked for.
added : Option Bytes → Bytes → Option Bytes → Option Bytes → List Field
added name key value q =
    if matches str_eq q name then record { name = some key; value = value } ∷ [] else []

put_in-fields :
    (sets : List NsSet) (name : Option Bytes) (key : Bytes) (value q : Option Bytes)
    → AllValid sets
    → list_find sets name ≢ none
    → (fields_of (put_in sets name key value) q ≡ fields_of sets q ++ added name key value q)
      × AllValid (put_in sets name key value)
unfolding put_in list_find added
put_in-fields [] name key value q a h = absurd (h refl)
put_in-fields (s ∷ sets) name key value q a h =
    let (e, _, w) = view-put s a.0 (some key) value in
    ground (
      arith,
      e,
      w,
      name-put s a.0 (some key) value,
      fields_of-cons (put s (some key) value).0 sets q,
      fields_of-cons s sets q,
      fields_of-cons s (put_in sets name key value) q,
      matches_iff name s.name,
      matches_iff q s.name,
      matches_iff q name,
      append-nil (view s),
      append-nil (fields_of sets q),
      put_in-fields sets name key value q,
    )

fields_of-create :
    (sets : List NsSet) (name q : Option Bytes)
    → fields_of (sets ++ create name ∷ []) q ≡ fields_of sets q
fields_of-create [] name q =
    fields_of-cons (create name) [] q
    ∙ unfold fields_of list_find in ground (arith, (create-IsValid name).1)
fields_of-create (s ∷ sets) name q =
    fields_of-cons s (sets ++ create name ∷ []) q
    ∙ rw (fields_of-create sets name q) (sym (fields_of-cons s sets q))

list_find-create :
    (sets : List NsSet) (name : Option Bytes) → list_find (sets ++ create name ∷ []) name ≢ none
unfolding list_find create
list_find-create [] name = ground (arith, matches_iff name name)
list_find-create (s ∷ sets) name = ground (arith, list_find-create sets name)

AllValid-create :
    (sets : List NsSet) (name : Option Bytes) → AllValid sets → AllValid (sets ++ create name ∷ [])
AllValid-create [] name a = ((create-IsValid name).0, tt)
AllValid-create (s ∷ sets) name a = (a.0, AllValid-create sets name a.1)

split_one-fields :
    (sep : ℕ) (sets : List NsSet) (n : Bytes) (value q : Option Bytes)
    → AllValid sets
    → (fields_of (split_one sep sets n value) q
        ≡ fields_of sets q ++ added (split_name sep n).0 (split_name sep n).1 value q)
      × AllValid (split_one sep sets n value)
unfolding split_one
split_one-fields sep sets n value q a =
    let name = (split_name sep n).0 in
    let key = (split_name sep n).1 in
    elim (Option-cases (list_find sets name)) [
      | inl e ↦
          let (f, w) =
            put_in-fields (sets ++ create name ∷ []) name key value q (AllValid-create sets name a)
              (list_find-create sets name) in
          (rw (e, split_one) (f ∙ rw (fields_of-create sets name q)), rw (e, split_one) w)
      | inr (s, e) ↦
          let (f, w) = put_in-fields sets name key value q a (λ d. cc) in
          (rw (e, split_one) f, rw (e, split_one) w)
    ]

-- Every field has a name.
abbrev pub AllNamed : List Field → Type 0
AllNamed [] = Unit
AllNamed (f ∷ fs) = (f.name ≢ none) × AllNamed fs

before_inside : (sep : ℕ) (n : Bytes) → length (before sep n) ≤ length n
unfolding before
before_inside sep [] = omega arith
before_inside sep (c ∷ s) = ground (arith, before_inside sep s)

split_name-parts : (sep : ℕ) (n : Bytes) → split_name sep n ≡ parts sep n
unfolding split_name cut parts before
split_name-parts sep [] = refl
split_name-parts sep (c ∷ s) =
    ground (arith, split_name-parts sep s, before_inside sep s, Option-cases (cut sep s))

select-cons :
    (sep : ℕ) (q : Option Bytes) (f : Field) (fs : List Field) (n : Bytes)
    → f.name ≡ some n
    → select sep q (f ∷ fs)
      ≡ added (split_name sep n).0 (split_name sep n).1 f.value q ++ select sep q fs
unfolding select added
select-cons sep q f fs n e = rw (e, select, split_name-parts sep n)

split_from-fields :
    (sep : ℕ) (s : NsSet) (k i : ℕ) (sets : List NsSet)
    → i + k ≤ length s.fields
    → AllValid sets
    → AllNamed (take k (drop i s.fields))
    → (out : List NsSet) × (split_from sep s k i sets ≡ some out)
      × AllValid out
      × ((q : Option Bytes)
          → fields_of out q ≡ fields_of sets q ++ select sep q (take k (drop i s.fields)))
unfolding split_from
split_from-fields sep s zero i sets h a named =
    (sets, refl, a, λ q. unfold select in sym (append-nil (fields_of sets q)))
split_from-fields sep s (suc k) i sets h a named =
    let f = field s i in
    let cons = take-drop-suc k i s.fields blank (omega arith) in
    let named' = subst AllNamed cons named in
    elim (Option-cases f.name) [
      | inl e ↦ absurd (named'.0 e)
      | inr (n, e) ↦
          let next = split_one sep sets n f.value in
          let (out, r, v, g) =
            split_from-fields sep s k (suc i) next (omega arith)
              (split_one-fields sep sets n f.value none a).1 named'.1 in
          (
            out,
            rw (e, split_from) r,
            v,
            λ q.
                g q
                ∙ rw
                    (
                      (split_one-fields sep sets n f.value q a).0,
                      cons,
                      select-cons sep q f (take k (drop (suc i) s.fields)) n e,
                    )
                    (append_assoc (fields_of sets q) _ _),
          )
    ]

-- A valid set whose fields all have names is split at a separator that is not NUL into valid sets.
-- In the result the set of each name holds the fields with that prefix, in their order, and nothing
-- else; its keys are what stands behind the first separator, and a name without one is a key of the
-- set that has no name.
pub fields_of-split :
    (s : NsSet) (sep : ℕ)
    → sep ≢ 0
    → IsValid s
    → AllNamed (view s)
    → (out : List NsSet) × (split s sep ≡ some out)
      × AllValid out
      × ((q : Option Bytes) → fields_of out q ≡ select sep q (view s))
unfolding split
fields_of-split s sep h v named =
    let (out, r, w, g) =
      split_from-fields sep s s.size 0 [] (omega (arith, v.fits, v.allocated)) tt named in
    (out, r, w, λ q. g q ∙ unfold fields_of list_find in refl)
