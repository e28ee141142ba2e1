-- ===== src/Index.antt =====
-- nsd/index.c: `Ns_Index`, an array of pointers that a comparison function keeps in order. `el` is
-- the allocated array, `n` of its slots are in use; `nil` is what an unset slot holds. A comparison
-- `cmp(key, element)` is a function of the element, and only the sign of its result is used.
pub mod Search
pub mod Order
pub mod Delete
pub mod Find
pub mod Member
pub mod Elements
pub mod Windows
use Prim.Native.Nat.{Ordering, lt, eq, gt}
use anansi.Common.{
  ℕ, zero, suc, ◌+◌, ◌-◌, ◌/◌, Bool, true, false, Option, none, some, List, [], ◌∷◌, ◌++◌, ltb, leb,
  ◌==◌, if◌then◌else◌, length, get_or, set, take, drop, replicate, shift_down, shift_up,
}

pub record NsIndex {ℓ} (A : Type ℓ) : Type ℓ where
  pub n : ℕ
  pub max : ℕ
  pub inc : ℕ
  pub el : List A

abbrev pub is_eq : Ordering → Bool
is_eq lt = false
is_eq eq = true
is_eq gt = false

module _ {ℓ} {A : Type ℓ} (nil : A) where
  -- Ns_IndexInit
  unfoldable pub init : ℕ → NsIndex A
  init inc = record { n = 0; max = inc; inc = inc; el = replicate inc nil }

  -- Ns_IndexTrunc
  unfoldable pub trunc : NsIndex A → NsIndex A
  trunc x = record x { n = 0; max = x.inc; el = replicate x.inc nil }

  -- Ns_IndexDup
  unfoldable pub dup : NsIndex A → NsIndex A
  dup x = record x { el = take x.n x.el ++ replicate (x.max - x.n) nil }

  -- The loop of BinSearch and BinSearchKey over `low`, `high + 1` and `mid`.
  unfoldable pub bin_loop : (A → Ordering) → List A → ℕ → ℕ → ℕ → ℕ → ℕ
  bin_loop cond xs zero low high1 mid = if leb high1 mid then mid else low
  bin_loop cond xs (suc fuel) low high1 mid =
      let m = (low + high1 - 1) / 2 in
      let left = bin_loop cond xs fuel low m m in
      let right = bin_loop cond xs fuel (suc m) high1 m in
      if ltb low high1
      then elim (cond (get_or xs m nil)) [ lt ↦ left | gt ↦ right | eq ↦ m ]
      else (if leb high1 mid then mid else low)

  -- BinSearch, BinSearchKey: a round for each element is enough.
  unfoldable pub bin_search : (A → Ordering) → List A → ℕ → ℕ
  bin_search cond xs n = bin_loop cond xs n 0 n 0

  -- The growth test of Ns_IndexAdd.
  unfoldable pub grow : NsIndex A → NsIndex A
  grow x =
      if x.n == x.max
      then record x { max = x.max + x.inc; el = x.el ++ replicate x.inc nil }
      else if x.max == 0
      then record x { max = x.max + x.inc; el = replicate (x.max + x.inc) nil }
      else x

  -- Where Ns_IndexAdd inserts: the search is skipped in an empty index.
  unfoldable pub place : (A → A → Ordering) → NsIndex A → A → ℕ
  place cmp g e = if ltb 0 g.n then bin_search (cmp e) g.el g.n else 0

  -- The slots behind `i` moved up by one.
  unfoldable pub open_slot : NsIndex A → ℕ → List A
  open_slot g i = if ltb i g.n then shift_up nil (g.n - i) i g.el else g.el

  -- Ns_IndexAdd; `cmp` is `CmpEls`.
  unfoldable pub add : (A → A → Ordering) → NsIndex A → A → NsIndex A
  add cmp x e =
      let g = grow x in
      let i = place cmp g e in record g { n = suc g.n; el = set (open_slot g i) i e }

  -- The loop of Ns_IndexDel from `i`, with `k` rounds left; `same` compares two pointers.
  unfoldable pub del_from : (A → A → Bool) → NsIndex A → A → ℕ → ℕ → NsIndex A
  del_from same x e zero i = x
  del_from same x e (suc k) i =
      let rest = del_from same x e k (suc i) in
      let m = x.n - 1 in
      if same (get_or x.el i nil) e
      then record x { n = m; el = if ltb i m then shift_down nil (m - i) i x.el else x.el }
      else rest

  -- Ns_IndexDel
  unfoldable pub del : (A → A → Bool) → NsIndex A → A → NsIndex A
  del same x e = del_from same x e x.n 0

  -- Ns_IndexEl
  unfoldable pub el_at : NsIndex A → ℕ → A
  el_at x i = get_or x.el i nil

  -- Ns_IndexFind; `bsearch` is the C library's.
  unfoldable pub find : ((A → Ordering) → List A → Option ℕ) → (A → Ordering) → NsIndex A → Option A
  find bsearch cond x = elim (bsearch cond (take x.n x.el)) [
    | none ↦ none
    | some i ↦ some (get_or x.el i nil)
  ]

  -- Ns_IndexFindInf
  unfoldable pub find_inf : (A → Ordering) → NsIndex A → Option A
  find_inf cond x =
      let i = bin_search cond x.el x.n in
      if ltb 0 x.n
      then (if leb x.n i then none else elim (cond (get_or x.el i nil)) [
        | eq ↦ some (get_or x.el i nil)
        | _ ↦ if ltb 0 i then some (get_or x.el (i - 1) nil) else some (get_or x.el i nil)
      ])
      else none

  -- The backward loop of Ns_IndexFindMultiple.
  unfoldable pub back : (A → Ordering) → List A → ℕ → ℕ
  back cond xs zero = 0
  back cond xs (suc p) =
      let rest = back cond xs p in if is_eq (cond (get_or xs p nil)) then rest else suc p

  -- The forward loop from offset `i` behind `p`, with `k` rounds left.
  unfoldable pub forward : (A → Ordering) → List A → ℕ → ℕ → ℕ → ℕ
  forward cond xs p zero i = i
  forward cond xs p (suc k) i =
      let rest = forward cond xs p k (suc i) in
      if is_eq (cond (get_or xs (p + i) nil)) then rest else i

  -- Ns_IndexFindMultiple
  unfoldable pub find_multiple :
      ((A → Ordering) → List A → Option ℕ) → (A → Ordering) → NsIndex A → Option (List A)
  find_multiple bsearch cond x = elim (bsearch cond (take x.n x.el)) [
    | none ↦ none
    | some p ↦
        let q = back cond x.el p in some (take (forward cond x.el q (x.n - q - 1) 1) (drop q x.el))
  ]
