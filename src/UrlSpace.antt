-- ===== src/UrlSpace.antt =====
-- nsd/urlspace.c: data of the server for sets of URLs. A sequence, the buffer of words that MkSeq
-- fills, is the list of its words, none of them empty; cutting off its last word is dropping it. The
-- data and the delete functions are numbers for the pointers, `none` for NULL. `strcmp` is the C
-- library's, a parameter. Functions that call delete functions return the calls they make.
pub mod Truncate
pub mod Words
pub mod Exact
pub mod Prefixes
pub mod Junction
pub mod Channels
pub mod Deepest
pub mod Replace
pub mod Space
pub mod Stored
pub mod Clear
pub mod Remove
pub mod Walk
pub mod Balance
pub mod Insert
pub mod Ordered
use Prim.Native.Nat.{Ordering, lt, eq, gt}
use anansi.Common.{
  ℕ, zero, suc, ◌+◌, ◌/◌, ◌%◌, Bool, true, false, Option, none, some, List, [], ◌∷◌, ◌++◌, ◌==◌,
  if◌then◌else◌, Bytes, length, take,
}
use anansi.Index.{NsIndex, is_eq, add}
use anansi.Request.{cut_at}

-- NS_OP_NOINHERIT, NS_OP_NODELETE, NS_OP_RECURSE
abbrev pub op_noinherit : ℕ
op_noinherit = 2

abbrev pub op_nodelete : ℕ
op_nodelete = 4

abbrev pub op_recurse : ℕ
op_recurse = 8

-- `(flags & bit) != 0`
unfoldable pub is_set : ℕ → ℕ → Bool
is_set bit flags = (flags / bit) % 2 == 1

-- The loop of MkSeq; `fuel` is for the bytes of the URL.
unfoldable pub mk_words : ℕ → Bytes → List Bytes
mk_words zero url = []
mk_words (suc fuel) [] = []
mk_words (suc fuel) (c ∷ url) =
    let past = mk_words fuel url in
    let (word, rest) = cut_at b'/' (c ∷ url) in
    if c == b'/'
    then past
    else elim rest [ none ↦ word ∷ [] | some tail ↦ word ∷ mk_words fuel tail ]

-- MkSeq; the method is not empty.
unfoldable pub mk_seq : Bytes → Bytes → List Bytes
mk_seq method url = method ∷ mk_words (length url) url

-- User's data and its cleanup function.
pub record Slot : Type 0 where
  pub value : Option ℕ
  pub deletefunc : Option ℕ

pub record Node : Type 0 where
  pub inherit : Slot
  pub no_inherit : Slot

mutual
  pub data Trie : Type 0 where
    trie : Option Node → Branches → Trie

  pub data Branches : Type 0 where
    no_branch : Branches
    branch : Bytes → Trie → Branches → Branches

-- A call of a delete function: the function and the data.
abbrev pub Call : Type 0
Call = ℕ × Option ℕ

abbrev pub empty_slot : Slot
empty_slot = record { value = none; deletefunc = none }

abbrev pub empty_node : Node
empty_node = record { inherit = empty_slot; no_inherit = empty_slot }

-- TrieInit
unfoldable pub trie_init : Trie
trie_init = trie none no_branch

-- The call of a slot's delete function, if it has one.
unfoldable pub delete_call : Slot → List Call
delete_call s = elim s.deletefunc [ none ↦ [] | some f ↦ (f, s.value) ∷ [] ]

-- NodeDestroy
unfoldable pub node_destroy : Node → List Call
node_destroy n = delete_call n.no_inherit ++ delete_call n.inherit

-- The slot that the flags choose.
unfoldable pub slot_of : ℕ → Node → Slot
slot_of flags n = if is_set op_noinherit flags then n.no_inherit else n.inherit

unfoldable pub set_slot : ℕ → Slot → Node → Node
set_slot flags s n =
    if is_set op_noinherit flags then record n { no_inherit = s } else record n { inherit = s }

-- The node part of TrieAdd.
unfoldable pub node_add : ℕ → ℕ → Option ℕ → Option Node → Node × List Call
node_add value flags deletefunc none =
    (set_slot flags (record { value = some value; deletefunc = deletefunc }) empty_node, [])
node_add value flags deletefunc (some n) = (
  set_slot flags (record { value = some value; deletefunc = deletefunc }) n,
  if is_set op_nodelete flags then [] else delete_call (slot_of flags n),
)

-- The node part of TrieFindExact.
unfoldable pub node_exact : ℕ → Option Node → Option ℕ
node_exact flags none = none
node_exact flags (some n) = (slot_of flags n).value

-- The node part of TrieFind; `last` is whether the sequence ends here.
unfoldable pub node_find : Bool → Option Node → Option ℕ
node_find last none = none
node_find last (some n) = elim n.no_inherit.value [
  | none ↦ n.inherit.value
  | some d ↦ if last then some d else n.inherit.value
]

-- The node part of TrieDelete.
unfoldable pub node_delete : ℕ → Option Node → Option Node × Option ℕ × List Call
node_delete flags none = (none, none, [])
node_delete flags (some n) = (
  some (set_slot flags empty_slot n),
  (slot_of flags n).value,
  if is_set op_nodelete flags then [] else delete_call (slot_of flags n),
)

-- A trie that may be missing: what TrieAdd makes of a word without a branch.
unfoldable pub or_init : Option Trie → Trie
or_init none = trie_init
or_init (some t) = t

-- The branches in their order, as the elements of an index.
unfoldable pub to_list : Branches → List (Bytes × Trie)
to_list no_branch = []
to_list (branch word t rest) = (word, t) ∷ to_list rest

unfoldable pub of_list : List (Bytes × Trie) → Branches
of_list [] = no_branch
of_list (b ∷ bs) = branch b.0 b.1 (of_list bs)

-- An index of just these elements, with the increment of TrieInit.
abbrev pub full_index : List (Bytes × Trie) → NsIndex (Bytes × Trie)
full_index bs = record { n = length bs; max = length bs; inc = 25; el = bs }

module _ (strcmp : Bytes → Bytes → Ordering) where
  -- CmpKeyWithBranch
  unfoldable pub cmp_branch : Bytes → Bytes → Ordering
  cmp_branch key word = strcmp key word

  -- Ns_IndexFind in the branches: a trie has one branch for a word.
  unfoldable pub find_branch : Bytes → Branches → Option Trie
  find_branch key no_branch = none
  find_branch key (branch word t rest) =
      let found = find_branch key rest in
      elim (cmp_branch key word) [ eq ↦ some t | lt ↦ found | gt ↦ found ]

  -- The trie of the branch that was found changed.
  unfoldable pub set_branch : Bytes → Trie → Branches → Branches
  set_branch key t no_branch = no_branch
  set_branch key t (branch word s rest) =
      let behind = set_branch key t rest in
      elim (cmp_branch key word) [
        | eq ↦ branch word t rest
        | lt ↦ branch word s behind
        | gt ↦ branch word s behind
      ]

  -- CmpBranches
  abbrev pub cmp_branches : Bytes × Trie → Bytes × Trie → Ordering
  cmp_branches left right = strcmp left.0 right.0

  -- Ns_IndexAdd of a branch with a new word. The unused slots of the index are not kept: it is taken
  -- to be full.
  unfoldable pub insert_branch : Bytes → Trie → Branches → Branches
  insert_branch key t bs =
      let x = add ([], trie_init) cmp_branches (full_index (to_list bs)) (key, t) in
      of_list (take x.n x.el)

  -- The branch of a word with a trie: the one that is there, or a new one.
  unfoldable pub put_branch : Bytes → Trie → Branches → Branches
  put_branch key t bs = elim (find_branch key bs) [
    | none ↦ insert_branch key t bs
    | some s ↦ set_branch key t bs
  ]

  -- TrieAdd
  unfoldable pub trie_add : Trie → List Bytes → ℕ → ℕ → Option ℕ → Trie × List Call
  trie_add (trie n bs) [] value flags deletefunc =
      let (node, calls) = node_add value flags deletefunc n in (trie (some node) bs, calls)
  trie_add (trie n bs) (word ∷ seq) value flags deletefunc =
      let (t, calls) = trie_add (or_init (find_branch word bs)) seq value flags deletefunc in
      (trie n (put_branch word t bs), calls)

  -- TrieFind; the number is the value behind `depthPtr`.
  unfoldable pub trie_find : Trie → List Bytes → ℕ → Option ℕ × ℕ
  trie_find (trie n bs) [] depth = (node_find true n, depth)
  trie_find (trie n bs) (word ∷ seq) depth = elim (find_branch word bs) [
    | none ↦ (node_find false n, depth)
    | some t ↦
        let (p, ldepth) = trie_find t seq (depth + 1) in
        elim p [ none ↦ (node_find false n, depth) | some d ↦ (some d, ldepth) ]
  ]

  -- TrieFindExact
  unfoldable pub trie_find_exact : Trie → List Bytes → ℕ → Option ℕ
  trie_find_exact (trie n bs) [] flags = node_exact flags n
  trie_find_exact (trie n bs) (word ∷ seq) flags = elim (find_branch word bs) [
    | none ↦ none
    | some t ↦ trie_find_exact t seq flags
  ]

  -- TrieDelete
  unfoldable pub trie_delete : Trie → List Bytes → ℕ → Trie × Option ℕ × List Call
  trie_delete (trie n bs) [] flags =
      let (node, value, calls) = node_delete flags n in (trie node bs, value, calls)
  trie_delete (trie n bs) (word ∷ seq) flags = elim (find_branch word bs) [
    | none ↦ (trie n bs, none, [])
    | some t ↦
        let (s, value, calls) = trie_delete t seq flags in
        (trie n (put_branch word s bs), value, calls)
  ]
