-- ===== src/UrlSpace/Junction.antt =====
-- nsd/urlspace.c: junctions, which hold a channel for each filter, and the functions of the URL
-- space. A channel is known by its filter, since a junction has one channel for a filter; `tries`
-- has the trie of each. The indexes are those of nsd/index.c. Tcl_StringMatch, `strcmp` and
-- `bsearch` are parameters: `string_match str pattern`, `bsearch` as `Index.find` takes it.
use Prim.Native.Nat.{Ordering, lt, eq, gt}
use anansi.Common.{
  ℕ, ◌-◌, Bool, true, false, ◌&&◌, ◌||◌, Option, none, some, List, [], ◌∷◌, ltb, ◌==◌,
  if◌then◌else◌, Bytes, length, get_or, take, str_eq,
}
use anansi.Index.{NsIndex, init, add, find}
use anansi.UrlSpace.{Call, Trie, trie_init, trie_add, trie_find, trie_find_exact}

pub record Junction : Type 0 where
  pub byname : NsIndex Bytes
  pub byuse : NsIndex Bytes
  pub tries : Bytes → Trie

-- The junction that JunctionGet makes.
unfoldable pub junction_init : Junction
junction_init = record { byname = init [] 5; byuse = init [] 5; tries = λ filter. trie_init }

-- JunctionGet, in the array of junctions of a server
unfoldable pub junction_get : (ℕ → Option Junction) → ℕ → Junction
junction_get urlspace id = elim (urlspace id) [ none ↦ junction_init | some j ↦ j ]

-- The trie of a channel changed.
unfoldable pub set_trie : Junction → Bytes → Trie → Junction
set_trie j filter t = record j { tries = λ f. if str_eq f filter then t else j.tries f }

-- The channels in the order of use.
unfoldable pub channels : Junction → List Bytes
channels j = take j.byuse.n j.byuse.el

-- The last word of a sequence, and the sequence with that word wiped out.
unfoldable pub last_word : List Bytes → Bytes
last_word seq = get_or seq (length seq - 1) []

unfoldable pub cut_word : List Bytes → List Bytes
cut_word seq = take (length seq - 1) seq

-- `strchr(p, '*') != NULL || strchr(p, '?') != NULL`
unfoldable pub is_mask : Bytes → Bool
is_mask [] = false
is_mask (c ∷ s) = c == b'*' || c == b'?' || is_mask s

abbrev pub star : Bytes
star = b'*' ∷ []

-- The filter of JunctionAdd and the words that lead to the node.
unfoldable pub channel_of : List Bytes → Bytes × List Bytes
channel_of seq =
    if ltb 1 (length seq) && is_mask (last_word seq)
    then (last_word seq, cut_word seq)
    else (star, seq)

-- CmpChannels, CmpKeyWithChannel
unfoldable pub cmp_channels : (Bytes → Bytes → Bool) → Bytes → Bytes → Ordering
cmp_channels string_match left right =
    let lcontainsr = string_match right left in
    let rcontainsl = string_match left right in
    if lcontainsr && rcontainsl
    then eq
    else if lcontainsr
    then gt
    else if rcontainsl
    then lt
    else eq

-- The channel of a filter, which JunctionAdd makes if there is none.
unfoldable pub add_channel :
    (Bytes → Bytes → Ordering)
    → (Bytes → Bytes → Bool)
    → ((Bytes → Ordering) → List Bytes → Option ℕ)
    → Junction
    → Bytes
    → Junction
add_channel strcmp string_match bsearch j filter = elim (find [] bsearch (strcmp filter) j.byname) [
  | some f ↦ j
  | none ↦ record (set_trie j filter trie_init) {
    byuse = add [] (cmp_channels string_match) j.byuse filter;
    byname = add [] strcmp j.byname filter;
  }
]

-- JunctionAdd
unfoldable pub junction_add :
    (Bytes → Bytes → Ordering)
    → (Bytes → Bytes → Bool)
    → ((Bytes → Ordering) → List Bytes → Option ℕ)
    → Junction
    → List Bytes
    → ℕ
    → ℕ
    → Option ℕ
    → Junction × List Call
junction_add strcmp string_match bsearch j seq value flags deletefunc =
    let (filter, words) = channel_of seq in
    let k = add_channel strcmp string_match bsearch j filter in
    let (t, calls) = trie_add strcmp (k.tries filter) words value flags deletefunc in
    (set_trie k filter t, calls)

-- One round of the loop of JunctionFind; the state is `data` and `depth`.
unfoldable pub visit :
    (Bytes → Bytes → Ordering)
    → (Bytes → Bytes → Bool)
    → Junction
    → List Bytes
    → Bool
    → Bytes
    → Option ℕ × ℕ
    → Option ℕ × ℕ
visit strcmp string_match j seq fast filter (value, depth) =
    let p = last_word seq in
    let (candidate, cdepth) = trie_find strcmp (j.tries filter) seq 0 in
    if (if fast then str_eq p filter else string_match p filter)
    then elim value [
      | none ↦ (candidate, cdepth)
      | some d ↦ elim candidate [
        | none ↦ (some d, depth)
        | some e ↦ if ltb depth cdepth then (some e, cdepth) else (some d, depth)
      ]
    ]
    else (value, depth)

unfoldable pub find_from :
    (Bytes → Bytes → Ordering)
    → (Bytes → Bytes → Bool)
    → Junction
    → List Bytes
    → Bool
    → List Bytes
    → Option ℕ × ℕ
    → Option ℕ × ℕ
find_from strcmp string_match j seq fast [] state = state
find_from strcmp string_match j seq fast (filter ∷ rest) state =
    find_from strcmp string_match j seq fast rest
      (visit strcmp string_match j seq fast filter state)

-- JunctionFind
unfoldable pub junction_find :
    (Bytes → Bytes → Ordering) → (Bytes → Bytes → Bool) → Junction → List Bytes → Bool → Option ℕ
junction_find strcmp string_match j seq fast =
    (find_from strcmp string_match j seq fast (channels j) (none, 0)).0

-- The loops of JunctionFindExact: the first channel with a filter.
unfoldable pub has_channel : Bytes → List Bytes → Bool
has_channel p [] = false
has_channel p (filter ∷ rest) = if str_eq p filter then true else has_channel p rest

-- JunctionFindExact
unfoldable pub junction_find_exact :
    (Bytes → Bytes → Ordering) → Junction → List Bytes → ℕ → Option ℕ
junction_find_exact strcmp j seq flags =
    if has_channel (last_word seq) (channels j)
    then trie_find_exact strcmp (j.tries (last_word seq)) (cut_word seq) flags
    else if has_channel star (channels j)
    then trie_find_exact strcmp (j.tries star) seq flags
    else none
