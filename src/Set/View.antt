-- ===== src/Set/View.antt =====
-- nsd/set.c: the invariant of a set, and its list of fields in use. Every operation that changes a
-- set is shown to be an operation on that list.
use anansi.Common.{
  ℕ, suc, ◌+◌, ◌-◌, ◌*◌, ◌≤◌, ◌<◌, ◌≡◌, refl, sym, ap, ◌∙◌, Option, none, some, List, [], ◌∷◌, ◌++◌,
  arith, ltb, inl, inr, Bool-cases, Bytes, length, set, take, replicate, remove_at, length-append,
  length-replicate, length-set, length-take, take-append_le, take-set-suc, take-set_of_lt,
  take-take, take_of_length-le, take-shift_down, length-shift_down, shift_down, tests,
  remove_at_of_length-le, set_of_length-le,
}
use anansi.Set.{Field, blank, NsSet, field, create, realloc, grow, put, trunc, delete, put_value}

-- The slots in use lie in the allocated array, which has `max_size` slots.
pub record IsValid (s : NsSet) : Type 0 where
  pub fits : s.size ≤ s.max_size
  pub allocated : length s.fields ≡ s.max_size

-- The fields in use, in their order.
abbrev pub view : NsSet → List Field
view s = take s.size s.fields

pub length-view : (s : NsSet) → IsValid s → length (view s) ≡ s.size
length-view s v = omega (arith, length-take s.size s.fields, v.fits, v.allocated)

pub create-IsValid : (name : Option Bytes) → IsValid (create name) × (view (create name) ≡ [])
unfolding create
create-IsValid name = (record { fits = omega arith; allocated = refl }, refl)

realloc-length : (n : ℕ) (fs : List Field) → length (realloc n fs) ≡ n
unfolding realloc
realloc-length n fs = omega (
  arith,
  length-take n (fs ++ replicate n blank),
  length-append fs (replicate n blank),
  length-replicate n blank,
)

realloc-take :
    (m n : ℕ) (fs : List Field) → m ≤ n → m ≤ length fs → take m (realloc n fs) ≡ take m fs
unfolding realloc
realloc-take m n fs h k =
    take-take m n (fs ++ replicate n blank) h ∙ take-append_le m fs (replicate n blank) k

-- What `grow` gives to a set whose `size` was just raised above its fields.
grow_lem :
    (s : NsSet) (n : ℕ)
    → n ≤ length s.fields
    → length s.fields ≡ s.max_size
    → s.size ≡ suc n
    → ((grow s).size ≡ suc n)
      × (suc n ≤ (grow s).max_size)
      × (length (grow s).fields ≡ (grow s).max_size)
      × (take n (grow s).fields ≡ take n s.fields)
unfolding grow
grow_lem s n h k e =
    ground (arith, realloc-length (s.size * 2) s.fields, realloc-take n (s.size * 2) s.fields)

module _ (s : NsSet) (v : IsValid s) where
  -- In a valid set `put` appends a field at the index that it returns, and keeps the invariant.
  pub view-put :
      (key value : Option Bytes)
      → (view (put s key value).0 ≡ view s ++ record { name = key; value = value } ∷ [])
        × ((put s key value).1 ≡ s.size)
        × IsValid (put s key value).0
  unfolding put
  view-put key value =
      let raised : NsSet = record s { size = s.size + 1 } in
      let f : Field = record { name = key; value = value } in
      let (e, h, k, t) =
        grow_lem raised s.size (omega (arith, v.fits, v.allocated)) v.allocated (omega arith) in
      (
        rw e (take-set-suc s.size (grow raised).fields f (omega arith) ∙ ap (λ xs. xs ++ f ∷ []) t),
        refl,
        record { fits = omega arith; allocated = length-set (grow raised).fields s.size f ∙ k },
      )

  pub name-put : (key value : Option Bytes) → (put s key value).0.name ≡ s.name
  unfolding put grow
  name-put key value = ground arith

  delete_in_range :
      (i : ℕ)
      → i < s.size
      → take (s.size - 1) (shift_down blank (s.size - 1 - i) i s.fields) ≡ remove_at i (view s)
  delete_in_range i h =
      let e : suc (s.size - 1) ≡ s.size = omega arith in
      take-shift_down blank (s.size - 1 - i) i (s.size - 1) s.fields (omega arith)
        (omega (arith, v.fits, v.allocated))
      ∙ ap (λ n. remove_at i (take n s.fields)) e

  -- In a valid set `delete` removes the field at its index, and does nothing out of range.
  pub view-delete : (i : ℕ) → view (delete s (some i)) ≡ remove_at i (view s)
  unfolding delete
  view-delete i = elim (Bool-cases (ltb i s.size)) [
    | inl h ↦ rw h (delete_in_range i (omega tests))
    | inr h ↦ rw h (sym (remove_at_of_length-le i (view s) (ground (arith, length-view s v))))
  ]

  pub delete-IsValid : (i : Option ℕ) → IsValid (delete s i)
  unfolding delete
  delete-IsValid none = v
  delete-IsValid (some i) =
      ground (arith, v.fits, v.allocated, length-shift_down blank (s.size - 1 - i) i s.fields)

  pub view-trunc : (n : ℕ) → (view (trunc s n) ≡ take n (view s)) × IsValid (trunc s n)
  unfolding trunc
  view-trunc n = elim (Bool-cases (ltb n s.size)) [
    | inl h ↦ (
      rw h (sym (take-take n s.size s.fields (ground arith))),
      rw h (record { fits = ground (arith, v.fits); allocated = v.allocated }),
    )
    | inr h ↦ (rw h (sym (take_of_length-le n (view s) (ground (arith, length-view s v)))), rw h v)
  ]

  -- `put_value` replaces the value of one field, and does nothing out of range.
  pub view-put_value :
      (i : ℕ) (value : Bytes)
      → (view (put_value s i value)
          ≡ set (view s) i (record { name = (field s i).name; value = some value }))
        × IsValid (put_value s i value)
  unfolding put_value
  view-put_value i value =
      let f : Field = record { name = (field s i).name; value = some value } in
      elim (Bool-cases (ltb i s.size)) [
        | inl h ↦ (
          rw h (take-set_of_lt s.size i s.fields f),
          rw h (record { fits = v.fits; allocated = length-set s.fields i f ∙ v.allocated }),
        )
        | inr h ↦
            (rw h (sym (set_of_length-le i (view s) f (ground (arith, length-view s v)))), rw h v)
      ]
