-- ===== src/Index/Elements.antt =====
-- nsd/index.c: the indexes of strings and of ints. Strings are values, which `ns_strdup` copies;
-- `strcmp` is the C library's, a parameter.
use Prim.Native.Nat.{Ordering, lt, eq, gt}
use mathlib.Core.List.Perm
use mathlib.Core.List.{Perm, perm_middle}
use anansi.Common.{
  ℕ, zero, suc, ◌+◌, ◌≤◌, Bytes, [], ◌++◌, arith, if◌then◌else◌, get_or, take, drop, length,
  take-drop-suc,
}
use anansi.Common.Int.{ℤ, pos, ltb_ℤ}
use anansi.Index.{NsIndex, init, trunc, dup, add}
use anansi.Index.Order.{IsValid, IsOrder, IsSorted, view, add-IsSorted}

-- CmpInts, CmpKeyWithInt
unfoldable pub cmp_ints : ℤ → ℤ → Ordering
cmp_ints left right = if ltb_ℤ left right then lt else if ltb_ℤ right left then gt else eq

-- Ns_IndexIntInit
unfoldable pub int_init : ℕ → NsIndex ℤ
int_init inc = init (pos 0) inc

-- CmpStr, CmpKeyWithStr
unfoldable pub cmp_str : (Bytes → Bytes → Ordering) → Bytes → Bytes → Ordering
cmp_str strcmp left right = strcmp left right

-- Ns_IndexStringInit
unfoldable pub string_init : ℕ → NsIndex Bytes
string_init inc = init [] inc

-- Ns_IndexStringDup
unfoldable pub string_dup : NsIndex Bytes → NsIndex Bytes
string_dup x = dup [] x

-- Ns_IndexStringTrunc
unfoldable pub string_trunc : NsIndex Bytes → NsIndex Bytes
string_trunc x = trunc [] x

-- The loop of Ns_IndexStringAppend from `i`, with `k` rounds left.
unfoldable pub append_from :
    (Bytes → Bytes → Ordering) → NsIndex Bytes → ℕ → ℕ → NsIndex Bytes → NsIndex Bytes
append_from strcmp addfrom zero i addto = addto
append_from strcmp addfrom (suc k) i addto =
    append_from strcmp addfrom k (suc i) (add [] (cmp_str strcmp) addto (get_or addfrom.el i []))

-- Ns_IndexStringAppend
unfoldable pub string_append :
    (Bytes → Bytes → Ordering) → NsIndex Bytes → NsIndex Bytes → NsIndex Bytes
string_append strcmp addto addfrom = append_from strcmp addfrom addfrom.n 0 addto

-- The comparison of ints is an order, as `add` needs it.
pub cmp_ints-IsOrder : IsOrder cmp_ints
unfolding cmp_ints
cmp_ints-IsOrder = record {
  turn_lt = λ a b h. ground arith;
  turn_gt = λ a b h. ground arith;
  turn_eq = λ a b h. ground arith;
  trans = λ a b c h k. ground arith;
}

module _ (strcmp : Bytes → Bytes → Ordering) (o : IsOrder (cmp_str strcmp)) where
  append_from-IsSorted :
      (addfrom : NsIndex Bytes) (k i : ℕ) (addto : NsIndex Bytes)
      → i + k ≤ length addfrom.el
      → IsValid addto
      → IsSorted [] (cmp_str strcmp) (view addto)
      → IsValid (append_from strcmp addfrom k i addto)
        × IsSorted [] (cmp_str strcmp) (view (append_from strcmp addfrom k i addto))
        × Perm
            (view (append_from strcmp addfrom k i addto))
            (take k (drop i addfrom.el) ++ view addto)
  unfolding append_from
  append_from-IsSorted addfrom zero i addto h v s = (v, s, Perm.refl _)
  append_from-IsSorted addfrom (suc k) i addto h v s =
      let e = get_or addfrom.el i [] in
      let (s2, p, v2) = add-IsSorted [] (cmp_str strcmp) o addto e v s in
      let (v3, s3, q) =
        append_from-IsSorted addfrom k (suc i) (add [] (cmp_str strcmp) addto e) (omega arith) v2
          s2 in
      (
        v3,
        s3,
        rw (take-drop-suc k i addfrom.el [] (omega arith)) (
            Perm.trans q (
              Perm.trans (Perm.append_left (take k (drop (suc i) addfrom.el)) p)
                (perm_middle (take k (drop (suc i) addfrom.el)) (view addto)))),
      )

  -- With a `strcmp` that is an order, appending a valid index to one that is valid and in order
  -- leaves it so, with the elements of both.
  pub string_append-IsSorted :
      (addto addfrom : NsIndex Bytes)
      → IsValid addto
      → IsValid addfrom
      → IsSorted [] (cmp_str strcmp) (view addto)
      → IsValid (string_append strcmp addto addfrom)
        × IsSorted [] (cmp_str strcmp) (view (string_append strcmp addto addfrom))
        × Perm (view (string_append strcmp addto addfrom)) (view addfrom ++ view addto)
  unfolding string_append
  string_append-IsSorted addto addfrom v w s =
      append_from-IsSorted addfrom addfrom.n 0 addto (omega (arith, w.fits, w.allocated)) v s
