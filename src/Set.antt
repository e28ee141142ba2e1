-- ===== src/Set.antt =====
-- nsd/set.c: `Ns_Set`, an array of (name, value) pairs that grows on demand. `fields` is the
-- allocated array, `size` of its slots are in use; `create`, `put`, ... are `Ns_SetCreate`,
-- `Ns_SetPut` and so on. Memory that `ns_malloc` leaves unset holds `blank`. A comparison function
-- is passed as the test "it returns 0".
pub mod View
pub mod Lookup
pub mod Change
pub mod Combine
pub mod Split
use anansi.Common.{
  ℕ, zero, suc, ◌+◌, ◌-◌, ◌*◌, ◌<◌, Bool, true, false, ◌&&◌, Option, none, some, List, [], ◌∷◌,
  ◌++◌, ltb, leb, ◌==◌, if◌then◌else◌, Bytes, str_eq, str_case_eq, length, get_or, set, take,
  replicate, shift_down,
}

-- `Ns_SetField`; a NULL pointer is `none`.
pub record Field : Type 0 where
  pub name : Option Bytes
  pub value : Option Bytes

abbrev pub blank : Field
blank = record { name = none; value = none }

pub record NsSet : Type 0 where
  pub name : Option Bytes
  pub size : ℕ
  pub max_size : ℕ
  pub fields : List Field

-- `(*cmp)(key, name) == 0`
abbrev pub Cmp : Type 0
Cmp = Bytes → Bytes → Bool

abbrev pub field : NsSet → ℕ → Field
field s i = get_or s.fields i blank

-- Ns_SetCreate
unfoldable pub create : Option Bytes → NsSet
create name = record { name = name; size = 0; max_size = 10; fields = replicate 10 blank }

-- `ns_realloc` to `n` slots: the old slots are kept.
unfoldable pub realloc : ℕ → List Field → List Field
realloc n fs = take n (fs ++ replicate n blank)

-- The growth test of Ns_SetPutSz, once `size` is incremented.
unfoldable pub grow : NsSet → NsSet
grow s =
    if ltb s.max_size s.size
    then record s { max_size = s.size * 2; fields = realloc (s.size * 2) s.fields }
    else s

-- Ns_SetPut: the index of the new field, and the set.
unfoldable pub put : NsSet → Option Bytes → Option Bytes → NsSet × ℕ
put s key value =
    let index = s.size in
    let g = grow (record s { size = s.size + 1 }) in
    (record g { fields = set g.fields index (record { name = key; value = value }) }, index)

-- `(name == NULL) || (name != NULL && cmp(key, name) == 0)`
abbrev pub matches_unique : Cmp → Bytes → Option Bytes → Bool
matches_unique cmp key none = true
matches_unique cmp key (some name) = cmp key name

-- The loop of Ns_SetUniqueCmp from index `i`, with `k` rounds left.
unfoldable pub unique_from : Cmp → Bytes → NsSet → ℕ → ℕ → Bool → Bool
unique_from cmp key s zero i found = true
unique_from cmp key s (suc k) i found =
    let rest = unique_from cmp key s k (suc i) true in
    let skip = unique_from cmp key s k (suc i) found in
    if matches_unique cmp key (field s i).name then (if found then false else rest) else skip

-- Ns_SetUniqueCmp
unfoldable pub unique_cmp : Cmp → NsSet → Bytes → Bool
unique_cmp cmp s key = unique_from cmp key s s.size 0 false

-- The test of the two loops of Ns_SetFindCmp: a NULL key finds a NULL name.
unfoldable pub matches : Cmp → Option Bytes → Option Bytes → Bool
matches cmp (some key) (some name) = cmp key name
matches cmp (some key) none = false
matches cmp none (some name) = false
matches cmp none none = true

-- The loops of Ns_SetFindCmp; `none` is -1.
unfoldable pub find_from : Cmp → Option Bytes → NsSet → ℕ → ℕ → Option ℕ
find_from cmp key s zero i = none
find_from cmp key s (suc k) i =
    let rest = find_from cmp key s k (suc i) in
    if matches cmp key (field s i).name then some i else rest

-- Ns_SetFindCmp
unfoldable pub find_cmp : Cmp → NsSet → Option Bytes → Option ℕ
find_cmp cmp s key = find_from cmp key s s.size 0

-- Ns_SetGetCmp
unfoldable pub get_cmp : Cmp → NsSet → Option Bytes → Option Bytes
get_cmp cmp s key = elim (find_cmp cmp s key) [ none ↦ none | some i ↦ (field s i).value ]

-- Ns_SetUnique, Ns_SetIUnique
unfoldable pub unique : NsSet → Bytes → Bool
unique = unique_cmp str_eq

unfoldable pub iunique : NsSet → Bytes → Bool
iunique = unique_cmp str_case_eq

-- Ns_SetFind, Ns_SetIFind
unfoldable pub find : NsSet → Option Bytes → Option ℕ
find = find_cmp str_eq

unfoldable pub ifind : NsSet → Option Bytes → Option ℕ
ifind = find_cmp str_case_eq

-- Ns_SetGet, Ns_SetIGet
unfoldable pub get : NsSet → Option Bytes → Option Bytes
get = get_cmp str_eq

unfoldable pub iget : NsSet → Option Bytes → Option Bytes
iget = get_cmp str_case_eq

-- `if (value == NULL || *value == '\0') value = def`
abbrev pub or_default : Option Bytes → Option Bytes → Option Bytes
or_default none def = def
or_default (some []) def = def
or_default (some (c ∷ cs)) def = some (c ∷ cs)

-- Ns_SetGetValue, Ns_SetIGetValue
unfoldable pub get_value : NsSet → Option Bytes → Option Bytes → Option Bytes
get_value s key def = or_default (get s key) def

unfoldable pub iget_value : NsSet → Option Bytes → Option Bytes → Option Bytes
iget_value s key def = or_default (iget s key) def

-- Ns_SetTrunc
unfoldable pub trunc : NsSet → ℕ → NsSet
trunc s size = if ltb size s.size then record s { size = size } else s

-- Ns_SetDelete; the index -1 is `none`.
unfoldable pub delete : NsSet → Option ℕ → NsSet
delete s none = s
delete s (some index) =
    let n = s.size - 1 in
    if ltb index s.size
    then record s { size = n; fields = shift_down blank (n - index) index s.fields }
    else s

-- Ns_SetPutValue
unfoldable pub put_value : NsSet → ℕ → Bytes → NsSet
put_value s index value =
    if ltb index s.size
    then record s { fields = set s.fields index (record (field s index) { value = some value }) }
    else s

-- Ns_SetDeleteKey, Ns_SetIDeleteKey
unfoldable pub delete_key : NsSet → Option Bytes → NsSet
delete_key s key = delete s (find s key)

unfoldable pub idelete_key : NsSet → Option Bytes → NsSet
idelete_key s key = delete s (ifind s key)

-- Ns_SetUpdate
unfoldable pub update : NsSet → Bytes → Bytes → NsSet
update s key value = (put (delete_key s (some key)) (some key) (some value)).0

-- The body of the loop of Ns_SetMerge, for the field `f` of `low`.
unfoldable pub merge_one : NsSet → Field → NsSet
merge_one high f = elim (find high f.name) [ none ↦ (put high f.name f.value).0 | some j ↦ high ]

-- The loop over the fields of `low` from `i`, with `k` rounds left.
unfoldable pub merge_from : NsSet → ℕ → ℕ → NsSet → NsSet
merge_from low zero i high = high
merge_from low (suc k) i high = merge_from low k (suc i) (merge_one high (field low i))

-- Ns_SetMerge
unfoldable pub merge : NsSet → NsSet → NsSet
merge high low = merge_from low low.size 0 high

-- The loop of Ns_SetCopy and of Ns_SetMove.
unfoldable pub copy_from : NsSet → ℕ → ℕ → NsSet → NsSet
copy_from old zero i s = s
copy_from old (suc k) i s = copy_from old k (suc i) (put s (field old i).name (field old i).value).0

-- Ns_SetCopy of a set that is not NULL
unfoldable pub copy : NsSet → NsSet
copy old = copy_from old old.size 0 (create old.name)

-- Ns_SetMove: the new `to` and the new `from`.
unfoldable pub move : NsSet → NsSet → NsSet × NsSet
move to from = (copy_from from from.size 0 to, trunc from 0)
