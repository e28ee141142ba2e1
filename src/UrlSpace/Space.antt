-- ===== src/UrlSpace/Space.antt =====
-- nsd/urlspace.c: the functions of the URL space of a server, with the removal of data and the walk.
-- `urlspace` is the server's array of junctions, `none` for one that JunctionGet has not made yet.
use Prim.Native.Nat.{Ordering}
use anansi.Common.{
  ℕ, suc, ◌-◌, length, Bool, true, false, ◌&&◌, Option, none, some, List, [], ◌∷◌, ◌++◌, leb, ◌==◌,
  if◌then◌else◌, Bytes, str_eq, update, ltb, take,
}
use anansi.UrlSpace.{
  op_recurse, is_set, mk_seq, Call, Node, Trie, trie, Branches, no_branch, branch, trie_find_exact,
  trie_delete,
}
use anansi.UrlSpace.Truncate.{trie_trunc_branch}
use anansi.UrlSpace.Junction.{
  Junction, junction_get, set_trie, channels, last_word, cut_word, junction_add, junction_find,
  junction_find_exact,
}

abbrev pub max_urlspaces : ℕ
max_urlspaces = 16

-- Ns_UrlSpecificAlloc: the next `nextid`, and the id, or none where Ns_Fatal ends the process.
unfoldable pub url_specific_alloc : ℕ → ℕ × Option ℕ
url_specific_alloc nextid = (suc nextid, if leb max_urlspaces nextid then none else some nextid)

-- `*p = '\0'`, where `p` is the last word of the sequence.
unfoldable pub wipe : Bytes → List Bytes → List Bytes
wipe [] seq = seq
wipe (c ∷ p) seq = cut_word seq

-- What a sublist of the walk shows: the method and the words of the URL, the filter of the channel,
-- whether the data is inherited, and the data. The text of the list is Tcl's.
pub record Entry : Type 0 where
  pub stack : List Bytes
  pub filter : Bytes
  pub inherits : Bool
  pub value : ℕ

-- STACK_SIZE
abbrev pub stack_size : ℕ
stack_size = 512

-- The sublists that WalkTrie appends for a node.
unfoldable pub sublists : List Bytes → Bytes → Node → List Entry
sublists stack filter n =
    (elim n.inherit.value [
      | none ↦ []
      | some d ↦ record { stack = stack; filter = filter; inherits = true; value = d } ∷ []
    ])
    ++ (elim n.no_inherit.value [
      | none ↦ []
      | some d ↦ record { stack = stack; filter = filter; inherits = false; value = d } ∷ []
    ])

-- The node part of WalkTrie. The array of the stack is the list of the words in it, up to the first
-- NULL. When all slots have words, the loop over them reads past the array: `none`. (The first word
-- is the method; a node that no word leads to is never made.)
unfoldable pub show_node : List Bytes → Bytes → Option Node → Option (List Entry)
show_node stack filter none = some []
show_node stack filter (some n) =
    if ltb (length stack) stack_size then some (sublists stack filter n) else none

-- The first slot that is NULL, or the last one.
unfoldable pub depth_of : List Bytes → ℕ
depth_of stack = if ltb (length stack) (stack_size - 1) then length stack else stack_size - 1

unfoldable mutual
  -- WalkTrie, and the stack as it leaves it.
  pub walk_trie : Trie → List Bytes → Bytes → Option (List Entry × List Bytes)
  walk_trie (trie n bs) stack filter = elim (walk_branches bs stack filter) [
    | none ↦ none
    | some (below, left) ↦ elim (show_node left filter n) [
      | none ↦ none
      | some own ↦ some (below ++ own, left)
    ]
  ]

  -- The loop over the branches. The word goes into its slot, which is the last one also when that
  -- has a word, and the slot is set to NULL behind the call.
  pub walk_branches : Branches → List Bytes → Bytes → Option (List Entry × List Bytes)
  walk_branches no_branch stack filter = some ([], stack)
  walk_branches (branch word t rest) stack filter =
      let depth = depth_of stack in
      elim (walk_trie t (take depth stack ++ word ∷ []) filter) [
        | none ↦ none
        | some (shown, left) ↦ elim (walk_branches rest (take depth left) filter) [
          | none ↦ none
          | some (more, last) ↦ some (shown ++ more, last)
        ]
      ]

-- The loop of Ns_UrlSpecificWalk over the channels, with the stack.
unfoldable pub walk_channels : Junction → List Bytes → List Bytes → Option (List Entry)
walk_channels j [] stack = some []
walk_channels j (filter ∷ rest) stack = elim (walk_trie (j.tries filter) stack filter) [
  | none ↦ none
  | some (shown, left) ↦ elim (walk_channels j rest left) [
    | none ↦ none
    | some more ↦ some (shown ++ more)
  ]
]

-- Ns_UrlSpecificWalk
unfoldable pub url_specific_walk : (ℕ → Option Junction) → ℕ → Option (List Entry)
url_specific_walk urlspace id =
    walk_channels (junction_get urlspace id) (channels (junction_get urlspace id)) []

module _ (strcmp : Bytes → Bytes → Ordering) (string_match : Bytes → Bytes → Bool) where
  -- A node of a channel deleted, if it has data; `other` is what the loop does if not.
  unfoldable pub delete_in :
      Junction
      → Bytes
      → List Bytes
      → ℕ
      → Junction × Option ℕ × List Call
      → Junction × Option ℕ × List Call
  delete_in j filter seq flags other = elim (trie_find_exact strcmp (j.tries filter) seq flags) [
    | none ↦ other
    | some d ↦
        let (t, value, calls) = trie_delete strcmp (j.tries filter) seq flags in
        (set_trie j filter t, some d, calls)
  ]

  -- The loop of JunctionDeleteNode, which goes on with the sequence as a round has left it.
  unfoldable pub delete_from :
      Junction → ℕ → ℕ → List Bytes → List Bytes → Bytes → Junction × Option ℕ × List Call
  delete_from j depth flags [] seq p = (j, none, [])
  delete_from j depth flags (filter ∷ rest) seq p =
      let wiped = delete_from j depth flags rest (wipe p seq) [] in
      let other = delete_from j depth flags rest seq p in
      if depth == 2 && str_eq p filter
      then delete_in j filter (wipe p seq) flags wiped
      else if string_match p filter
      then delete_in j filter seq flags other
      else other

  -- JunctionDeleteNode
  unfoldable pub junction_delete_node : Junction → List Bytes → ℕ → Junction × Option ℕ × List Call
  junction_delete_node j seq flags =
      delete_from j (length seq - 1) flags (channels j) seq (last_word seq)

  -- The loop of JunctionTruncBranch.
  unfoldable pub trunc_from : List Bytes → List Bytes → Junction → Junction × List Call
  trunc_from seq [] j = (j, [])
  trunc_from seq (filter ∷ rest) j =
      let (t, found, calls) = trie_trunc_branch strcmp (j.tries filter) seq in
      let (k, more) = trunc_from seq rest (set_trie j filter t) in (k, calls ++ more)

  -- JunctionTruncBranch
  unfoldable pub junction_trunc_branch : Junction → List Bytes → Junction × List Call
  junction_trunc_branch j seq = trunc_from seq (channels j) j

  -- Ns_UrlSpecificDestroy
  unfoldable pub url_specific_destroy :
      (ℕ → Option Junction) → Bytes → Bytes → ℕ → ℕ → (ℕ → Option Junction) × Option ℕ × List Call
  url_specific_destroy urlspace method url id flags =
      let j = junction_get urlspace id in
      let seq = mk_seq method url in
      let (cut, truncated) = junction_trunc_branch j seq in
      let (k, value, calls) = junction_delete_node j seq flags in
      if is_set op_recurse flags
      then (update urlspace id (some cut), none, truncated)
      else (update urlspace id (some k), value, calls)

  -- Ns_UrlSpecificSet
  unfoldable pub url_specific_set :
      ((Bytes → Ordering) → List Bytes → Option ℕ)
      → (ℕ → Option Junction)
      → Bytes
      → Bytes
      → ℕ
      → ℕ
      → ℕ
      → Option ℕ
      → (ℕ → Option Junction) × List Call
  url_specific_set bsearch urlspace method url id value flags deletefunc =
      let (j, calls) =
        junction_add strcmp string_match bsearch (junction_get urlspace id) (mk_seq method url)
          value flags deletefunc in
      (update urlspace id (some j), calls)

  -- NsUrlSpecificGet
  unfoldable pub url_specific_get : (ℕ → Option Junction) → Bytes → Bytes → ℕ → Bool → Option ℕ
  url_specific_get urlspace method url id fast =
      junction_find strcmp string_match (junction_get urlspace id) (mk_seq method url) fast

  -- Ns_UrlSpecificGetExact
  unfoldable pub url_specific_get_exact : (ℕ → Option Junction) → Bytes → Bytes → ℕ → ℕ → Option ℕ
  url_specific_get_exact urlspace method url id flags =
      junction_find_exact strcmp (junction_get urlspace id) (mk_seq method url) flags
