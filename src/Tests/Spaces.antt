-- ===== src/Tests/Spaces.antt =====
-- nsd/urlspace.c at small inputs.
use mathlib.Core.List.{Memᴰ}
use anansi.Common.{
  ℕ, ◌+◌, ◌≡◌, refl, Bool, true, false, ◌&&◌, ◌||◌, Option, none, some, List, [], ◌∷◌, ◌==◌,
  if◌then◌else◌, Bytes, str_eq, str_eq_iff, Bool-cases, inl, inr, arith, shift_up, length,
}
use anansi.Index
use anansi.Index.Order.{view}
use anansi.UrlSpace
use anansi.UrlSpace.{mk_seq, mk_words, Node, Trie, trie_init, trie_find, trie_add}
use anansi.UrlSpace.Words.{url_words, AllWords, mk_seq-url_words}
use anansi.UrlSpace.Exact.{same_slot}
use anansi.UrlSpace.Prefixes.{at_depth, best, trie_find-best}
use anansi.UrlSpace.Truncate
use anansi.UrlSpace.Truncate.{is_start}
use anansi.UrlSpace.Junction
use anansi.UrlSpace.Junction.{
  Junction, junction_get, junction_find, junction_find_exact, channel_of, channels, star,
  has_channel, last_word, is_mask,
}
use anansi.UrlSpace.Channels.{IsGood}
use anansi.UrlSpace.Deepest.{deepest, junction_find-deepest}
use anansi.UrlSpace.Replace.{IsUrl, IsPlain, same_entry}
use anansi.UrlSpace.Space
use anansi.UrlSpace.Space.{
  url_specific_set, url_specific_get, url_specific_get_exact, url_specific_destroy,
  url_specific_walk, junction_trunc_branch, junction_delete_node, Entry, show_node, depth_of,
  stack_size,
}
use anansi.UrlSpace.Stored.{IsSpace, empty-IsSpace, url_specific_get_exact-url_specific_set}
use anansi.UrlSpace.Clear.{junction_find_exact-junction_trunc_branch}
use anansi.UrlSpace.Remove.{junction_find_exact-junction_delete_node}
use anansi.UrlSpace.Balance.{held, count, held-trie_add-trie_delete}
use anansi.UrlSpace.Ordered.{IsOrdered, trie_add-trie_delete-IsOrdered}
use anansi.UrlSpace.Walk.{fits_trie, fits_branches, fits_channels, shown, url_specific_walk-shown}
use anansi.Request.{cut_at}
use anansi.Tests.Orders.{order, order-IsStrcmp, linear, linear_search}

-- A match with the wildcards `*` and `?`, as Tcl_StringMatch may be.
any_rest : (Bytes → Bool) → Bytes → Bool
any_rest f [] = f []
any_rest f (c ∷ s) = f (c ∷ s) || any_rest f s

glob : Bytes → Bytes → Bool
glob [] [] = true
glob [] (c ∷ s) = false
glob (p ∷ pattern) s =
    let rest = glob pattern in
    if p == b'*'
    then any_rest rest s
    else elim s [ [] ↦ false | c ∷ t ↦ (p == b'?' || p == c) && rest t ]

abbrev string_match : Bytes → Bytes → Bool
string_match str pattern = glob pattern str

abbrev get : Bytes
get = b'G' ∷ []

-- "/a", "/a/*.h", "/a/b.h" and "/a/b/*.h"
abbrev dir : Bytes
dir = b'/' ∷ b'a' ∷ []

abbrev mask : Bytes
mask = b'/' ∷ b'a' ∷ b'/' ∷ b'*' ∷ b'.' ∷ b'h' ∷ []

abbrev file : Bytes
file = b'/' ∷ b'a' ∷ b'/' ∷ b'b' ∷ b'.' ∷ b'h' ∷ []

abbrev deep_mask : Bytes
deep_mask = b'/' ∷ b'a' ∷ b'/' ∷ b'b' ∷ b'/' ∷ b'*' ∷ b'.' ∷ b'h' ∷ []

abbrev empty : ℕ → Option Junction
empty id = none

abbrev put : (ℕ → Option Junction) → Bytes → ℕ → ℕ → Option Junction
put space url value = (url_specific_set order string_match linear space get url 0 value 0 none).0

abbrev one : ℕ → Option Junction
one = put empty dir 7

abbrev two : ℕ → Option Junction
two = put one mask 8

program : Unit {0}
unfolding mk_seq mk_words cut_at UrlSpace.is_set url_specific_set junction_get is_mask last_word
    glob any_rest order str_eq Junction.cut_word channel_of
program = tt

mask-IsUrl : IsUrl (mk_seq get mask)
unfolding program
mask-IsUrl = refl

dir-IsUrl : IsUrl (mk_seq get dir)
unfolding program
dir-IsUrl = refl

whole : Unit {0}
unfolding mk_seq mk_words cut_at UrlSpace.is_set url_specific_set junction_get is_mask last_word
    glob any_rest order str_eq linear Junction.cut_word channel_of channels has_channel
    Junction.junction_init Junction.set_trie Junction.cmp_channels Junction.add_channel
    Junction.junction_add Junction.visit Junction.find_from junction_find junction_find_exact
    Index.init Index.add Index.find Index.grow Index.place Index.open_slot Index.bin_search
    Index.bin_loop shift_up trie_init trie_find trie_add UrlSpace.trie_find_exact
    UrlSpace.trie_delete UrlSpace.or_init UrlSpace.set_branch UrlSpace.insert_branch
    UrlSpace.to_list UrlSpace.of_list UrlSpace.find_branch UrlSpace.put_branch UrlSpace.cmp_branch
    UrlSpace.node_add UrlSpace.node_find UrlSpace.node_exact UrlSpace.node_delete UrlSpace.slot_of
    UrlSpace.set_slot UrlSpace.delete_call url_specific_get url_specific_get_exact
    url_specific_destroy Space.wipe Space.delete_in Space.delete_from junction_delete_node
    junction_trunc_branch Space.trunc_from Truncate.trie_trunc_branch Truncate.trie_trunc
    Truncate.trunc_branches Truncate.destroy_calls UrlSpace.node_destroy
whole = tt

-- The mask and the directory are as deep; the filter that matches less stands in front.
lookup_file : url_specific_get order string_match two get file 0 false ≡ some 8
unfolding whole
lookup_file = refl

lookup_dir : url_specific_get order string_match two get dir 0 false ≡ some 7
unfolding whole
lookup_dir = refl

-- The mask of another directory makes the channel; a deletion of a mask that was never set then
-- deletes the data of the directory.
destroy_mask :
    (url_specific_destroy order string_match (put one deep_mask 9) get mask 0 0).1 ≡ some 7
unfolding whole
destroy_mask = refl

-- A mask below two directories is not deleted.
destroy_deep_mask :
    (url_specific_destroy order string_match (put one deep_mask 9) get deep_mask 0 0).1 ≡ none
unfolding whole
destroy_deep_mask = refl

one-IsSpace : IsSpace order order-IsStrcmp one
one-IsSpace =
    (url_specific_get_exact-url_specific_set order order-IsStrcmp string_match (linear_search [])
      empty get dir 0 7 0 none (empty-IsSpace order order-IsStrcmp) dir-IsUrl).0

two-IsSpace : IsSpace order order-IsStrcmp two
two-IsSpace =
    (url_specific_get_exact-url_specific_set order order-IsStrcmp string_match (linear_search [])
      one get mask 0 8 0 none one-IsSpace mask-IsUrl).0

url_specific_get_exact-url_specific_set_example :
    IsSpace order order-IsStrcmp two
    × ((m u : Bytes) (k g : ℕ)
        → IsUrl (mk_seq m u)
        → url_specific_get_exact order string_match two m u k g ≡ (
            if k == 0 && (same_entry (mk_seq get mask) (mk_seq m u) && same_slot 0 g)
            then some 8
            else url_specific_get_exact order string_match one m u k g))
url_specific_get_exact-url_specific_set_example =
    url_specific_get_exact-url_specific_set order order-IsStrcmp string_match (linear_search []) one
      get mask 0 8 0 none one-IsSpace mask-IsUrl

mk_seq-url_words_example : (mk_seq get mask ≡ get ∷ url_words mask) × AllWords (url_words mask)
mk_seq-url_words_example = mk_seq-url_words get mask

abbrev found : Trie
found = (trie_add order trie_init (mk_seq get dir) 7 0 none).0

trie_find-best_example :
    trie_find order found (mk_seq get file) 0 ≡ at_depth 0 (best order found (mk_seq get file))
trie_find-best_example = trie_find-best order found (mk_seq get file) 0

junction_find-deepest_example :
    junction_find order string_match (junction_get two 0) (mk_seq get file) false
    ≡ (at_depth 0 (
        deepest order string_match
          (junction_get two 0)
          (mk_seq get file)
          false
          (channels (junction_get two 0)))).0
junction_find-deepest_example =
    junction_find-deepest order string_match (junction_get two 0) (mk_seq get file) false

junction_find_exact-junction_trunc_branch_example :
    IsGood order (junction_trunc_branch order string_match (junction_get two 0) (mk_seq get dir)).0
    × IsPlain order
        (junction_trunc_branch order string_match (junction_get two 0) (mk_seq get dir)).0
    × ((u : List Bytes) (g : ℕ)
        → IsUrl u
        → junction_find_exact order
            (junction_trunc_branch order string_match (junction_get two 0) (mk_seq get dir)).0
            u
            g
          ≡ (if is_start (mk_seq get dir) (channel_of u).1
              then none
              else junction_find_exact order (junction_get two 0) u g))
junction_find_exact-junction_trunc_branch_example =
    junction_find_exact-junction_trunc_branch order order-IsStrcmp string_match (junction_get two 0)
      (mk_seq get dir) (two-IsSpace 0).0 (two-IsSpace 0).1

url_specific_walk-shown_example :
    (out : List Entry) × (url_specific_walk two 0 ≡ some out)
    × Memᴰ (shown (channel_of (mk_seq get mask)).1 (channel_of (mk_seq get mask)).0 0 8) out
unfolding whole fits_trie fits_branches fits_channels
url_specific_walk-shown_example =
    url_specific_walk-shown order order-IsStrcmp string_match two get mask 0 0 8 two-IsSpace refl
      mask-IsUrl refl

-- A full stack: the word of a deeper branch takes the last slot, which is NULL afterwards.
full_depth : (words : List Bytes) → length words ≡ stack_size → depth_of words ≡ 511
unfolding depth_of
full_depth words h = ground (arith, h)

-- A node at a full stack: the loop over the words reads past the array.
full_stack :
    (words : List Bytes) (n : Node)
    → length words ≡ stack_size
    → show_node words star (some n) ≡ none
unfolding show_node
full_stack words n h = ground (arith, h)

-- The only channel of the first space is "*".
one-fits :
    (f : Bytes)
    → has_channel f (view (junction_get one 0).byuse) ≡ true
    → string_match (last_word (mk_seq get dir)) f ≡ str_eq star f
unfolding whole
one-fits f h =
    let e : str_eq f star ≡ true = elim (Bool-cases (str_eq f star)) [
      | inl k ↦ k
      | inr k ↦ let n : has_channel f (star ∷ []) ≡ false = ground (arith, k) in absurd (cc)
    ] in
    let same : f ≡ star = (str_eq_iff f star).0 e in rw same refl

junction_find_exact-junction_delete_node_example :
    let k = junction_delete_node order string_match (junction_get one 0) (mk_seq get dir) 0 in
    (k.1 ≡ junction_find_exact order (junction_get one 0) (mk_seq get dir) 0)
    × IsGood order k.0
    × IsPlain order k.0
    × ((u : List Bytes) (g : ℕ)
        → IsUrl u
        → junction_find_exact order k.0 u g ≡ (
            if same_entry (mk_seq get dir) u && same_slot 0 g
            then none
            else junction_find_exact order (junction_get one 0) u g))
unfolding whole
junction_find_exact-junction_delete_node_example =
    junction_find_exact-junction_delete_node order string_match order-IsStrcmp (junction_get one 0)
      (one-IsSpace 0).0 (one-IsSpace 0).1 (mk_seq get dir) 0 refl one-fits

held-trie_add-trie_delete_example :
    (held order (λ call. true) (trie_add order found (mk_seq get dir) 9 0 (some 4)).0
        + count order (λ call. true) (trie_add order found (mk_seq get dir) 9 0 (some 4)).1
      ≡ held order (λ call. true) found
        + count order
            (λ call. true)
            (UrlSpace.delete_call (record { value = some 9; deletefunc = some 4 })))
    × (held order (λ call. true) (UrlSpace.trie_delete order found (mk_seq get dir) 0).0
          + count order (λ call. true) (UrlSpace.trie_delete order found (mk_seq get dir) 0).2
        ≡ held order (λ call. true) found)
    × (held order (λ call. true) (Truncate.trie_trunc_branch order found (mk_seq get dir)).0
          + count order (λ call. true) (Truncate.trie_trunc_branch order found (mk_seq get dir)).2
        ≡ held order (λ call. true) found)
unfolding program
held-trie_add-trie_delete_example =
    held-trie_add-trie_delete order (λ call. true) found (mk_seq get dir) 9 0 (some 4) refl

found-IsOrdered : IsOrdered order order-IsStrcmp found
unfolding trie_init IsOrdered
found-IsOrdered =
    (trie_add-trie_delete-IsOrdered order order-IsStrcmp trie_init (mk_seq get dir) 7 0 none tt).1

trie_add-trie_delete-IsOrdered_example :
    IsOrdered order order-IsStrcmp trie_init
    × IsOrdered order order-IsStrcmp (trie_add order found (mk_seq get file) 9 0 none).0
    × IsOrdered order order-IsStrcmp (UrlSpace.trie_delete order found (mk_seq get file) 0).0
trie_add-trie_delete-IsOrdered_example =
    trie_add-trie_delete-IsOrdered order order-IsStrcmp found (mk_seq get file) 9 0 none
      found-IsOrdered
