-- ===== src/UrlSpace/Balance.antt =====
-- nsd/urlspace.c: every data with a delete function is passed to it once, when it leaves a trie.
use Prim.Native.Nat.{Ordering}
use anansi.Common.{
  ℕ, suc, ◌+◌, ◌≡◌, inl, inr, refl, sym, ap, ◌∙◌, Bool, false, Option, none, some, List, [], ◌∷◌,
  ◌++◌, arith, if◌then◌else◌, Bytes, Bool-cases, Option-cases, Ordering-cases, zero,
}
use anansi.UrlSpace.Insert.{insert_nth, insert_branch-insert_nth}
use anansi.UrlSpace.{
  op_noinherit, op_nodelete, is_set, Slot, Node, Call, Trie, trie, Branches, no_branch, branch,
  empty_slot, empty_node, trie_init, delete_call, node_destroy, slot_of, set_slot, node_add,
  node_delete, or_init, cmp_branch, find_branch, set_branch, insert_branch, put_branch, trie_add,
  trie_delete,
}
use anansi.UrlSpace.Truncate.{destroy_calls, trie_trunc, trunc_branches, trie_trunc_branch}

module _ (strcmp : Bytes → Bytes → Ordering) (p : Call → Bool) where
  -- How many calls pass a test.
  abbrev pub count : List Call → ℕ
  count [] = 0
  count (c ∷ cs) = if p c then suc (count cs) else count cs

  -- How many such calls the data of a trie still has before it: what its truncation makes.
  abbrev pub held : Trie → ℕ
  held t = count (trie_trunc t).1

  abbrev held_branches : Branches → ℕ
  held_branches bs = count (trunc_branches bs).1

  count-append : (xs ys : List Call) → count (xs ++ ys) ≡ count xs + count ys
  count-append [] ys = omega arith
  count-append (x ∷ xs) ys = ground (arith, count-append xs ys)

  held-trie :
      (n : Option Node) (bs : Branches)
      → held (trie n bs) ≡ held_branches bs + count (destroy_calls n)
  unfolding trie_trunc
  held-trie n bs = count-append (trunc_branches bs).1 (destroy_calls n)

  held-branch :
      (w : Bytes) (t : Trie) (bs : Branches)
      → held_branches (branch w t bs) ≡ held t + held_branches bs
  unfolding trunc_branches
  held-branch w t bs = count-append (trie_trunc t).1 (trunc_branches bs).1

  held-nth :
      (r : ℕ) (bs : Branches) (v : Bytes) (t : Trie)
      → held_branches (insert_nth r v t bs) ≡ held t + held_branches bs
  unfolding insert_nth
  held-nth zero bs v t = held-branch v t bs
  held-nth (suc r) no_branch v t = held-branch v t no_branch
  held-nth (suc r) (branch u s rest) v t =
      omega
        (arith, held-branch u s rest, held-branch u s (insert_nth r v t rest), held-nth r rest v t)

  held-insert :
      (bs : Branches) (v : Bytes) (t : Trie)
      → held_branches (insert_branch strcmp v t bs) ≡ held t + held_branches bs
  held-insert bs v t =
      let (r, e) = insert_branch-insert_nth strcmp v t bs in rw e (held-nth r bs v t)

  held-set :
      (bs : Branches) (v : Bytes) (s t : Trie)
      → find_branch strcmp v bs ≡ some s
      → held_branches (set_branch strcmp v t bs) + held s ≡ held t + held_branches bs
  unfolding set_branch find_branch cmp_branch
  held-set no_branch v s t h = absurd (cc)
  held-set (branch u r rest) v s t h = ground (
    arith,
    held-branch u t rest,
    held-branch u r rest,
    held-branch u r (set_branch strcmp v t rest),
    held-set rest v s t,
    Ordering-cases (strcmp v u),
  )

  held-init : held (trie none no_branch) ≡ 0
  unfolding trie_trunc trunc_branches destroy_calls
  held-init = refl

  held-put :
      (bs : Branches) (v : Bytes) (t : Trie)
      → held_branches (put_branch strcmp v t bs) + held (or_init (find_branch strcmp v bs))
        ≡ held t + held_branches bs
  unfolding put_branch or_init trie_init
  held-put bs v t = elim (Option-cases (find_branch strcmp v bs)) [
    | inl e ↦ ground (arith, e, held-insert bs v t, held-init)
    | inr (s, e) ↦ ground (arith, e, held-set bs v s t e)
  ]

  held_slots : Node → ℕ
  held_slots n = count (delete_call n.no_inherit) + count (delete_call n.inherit)

  count-node_destroy : (n : Node) → count (node_destroy n) ≡ held_slots n
  unfolding node_destroy held_slots
  count-node_destroy n = count-append (delete_call n.no_inherit) (delete_call n.inherit)

  -- One slot of a node replaced.
  held-set_slot :
      (f : ℕ) (s : Slot) (n : Node)
      → count (node_destroy (set_slot f s n)) + count (delete_call (slot_of f n))
        ≡ count (node_destroy n) + count (delete_call s)
  unfolding set_slot slot_of held_slots
  held-set_slot f s n = ground (
    arith,
    count-node_destroy n,
    count-node_destroy (record n { no_inherit = s }),
    count-node_destroy (record n { inherit = s }),
    Bool-cases (is_set op_noinherit f),
  )

  destroy-node_add :
      (d f : ℕ) (k : Option ℕ) (n : Option Node)
      → is_set op_nodelete f ≡ false
      → count (destroy_calls (some (node_add d f k n).0)) + count (node_add d f k n).1
        ≡ count (destroy_calls n) + count (delete_call (record { value = some d; deletefunc = k }))
  unfolding node_add destroy_calls delete_call slot_of held_slots
  destroy-node_add d f k none h =
      let s : Slot = record { value = some d; deletefunc = k } in
      let empty : count (node_destroy empty_node) ≡ 0 = count-node_destroy empty_node in
      ground (arith, empty, held-set_slot f s empty_node, Bool-cases (is_set op_noinherit f))
  destroy-node_add d f k (some n) h =
      let s : Slot = record { value = some d; deletefunc = k } in
      let law = held-set_slot f s n in rw h law

  destroy-node_delete :
      (f : ℕ) (n : Option Node)
      → is_set op_nodelete f ≡ false
      → count (destroy_calls (node_delete f n).0) + count (node_delete f n).2
        ≡ count (destroy_calls n)
  unfolding node_delete destroy_calls delete_call
  destroy-node_delete f none h = omega arith
  destroy-node_delete f (some n) h =
      let law = held-set_slot f empty_slot n in rw h (omega (arith, law))

  -- What TrieAdd adds to the calls that a trie has before it.
  held-trie_add :
      (t : Trie) (s : List Bytes) (d f : ℕ) (k : Option ℕ)
      → is_set op_nodelete f ≡ false
      → held (trie_add strcmp t s d f k).0 + count (trie_add strcmp t s d f k).1
        ≡ held t + count (delete_call (record { value = some d; deletefunc = k }))
  unfolding trie_add
  held-trie_add (trie n bs) [] d f k h =
      omega (
        arith,
        held-trie n bs,
        held-trie (some (node_add d f k n).0) bs,
        destroy-node_add d f k n h,
      )
  held-trie_add (trie n bs) (w ∷ s) d f k h =
      let t = or_init (find_branch strcmp w bs) in
      let u = (trie_add strcmp t s d f k).0 in
      omega (
        arith,
        held-trie n bs,
        held-trie n (put_branch strcmp w u bs),
        held-put bs w u,
        held-trie_add t s d f k h,
      )

  delete_missing :
      (n : Option Node) (bs : Branches) (w : Bytes) (s : List Bytes) (f : ℕ)
      → find_branch strcmp w bs ≡ none
      → trie_delete strcmp (trie n bs) (w ∷ s) f ≡ (trie n bs, none, [])
  unfolding trie_delete
  delete_missing n bs w s f e = ground (arith, e)

  delete_branch :
      (n : Option Node) (bs : Branches) (w : Bytes) (s : List Bytes) (f : ℕ) (t : Trie)
      → find_branch strcmp w bs ≡ some t
      → trie_delete strcmp (trie n bs) (w ∷ s) f ≡ (
          let (u, value, calls) = trie_delete strcmp t s f in
          (trie n (put_branch strcmp w u bs), value, calls))
  unfolding trie_delete
  delete_branch n bs w s f t e = ground (arith, e)

  held-trie_delete :
      (t : Trie) (s : List Bytes) (f : ℕ)
      → is_set op_nodelete f ≡ false
      → held (trie_delete strcmp t s f).0 + count (trie_delete strcmp t s f).2 ≡ held t
  unfolding trie_delete or_init
  held-trie_delete (trie n bs) [] f h =
      omega (arith, held-trie n bs, held-trie (node_delete f n).0 bs, destroy-node_delete f n h)
  held-trie_delete (trie n bs) (w ∷ s) f h = elim (Option-cases (find_branch strcmp w bs)) [
    | inl e ↦ rw (delete_missing n bs w s f e) (omega arith)
    | inr (t, e) ↦
        let u = (trie_delete strcmp t s f).0 in
        let same : held_branches (put_branch strcmp w u bs) + held t ≡ held u + held_branches bs =
          ap (λ o. held_branches (put_branch strcmp w u bs) + held (or_init o)) (sym e)
          ∙ held-put bs w u in
        rw (delete_branch n bs w s f t e) (
          omega (
            arith,
            held-trie n bs,
            held-trie n (put_branch strcmp w u bs),
            held-trie_delete t s f h,
            same,
          ))
  ]

  mutual
    unfolding trie_trunc trunc_branches destroy_calls

    held-trie_trunc : (t : Trie) → held (trie_trunc t).0 ≡ 0
    held-trie_trunc (trie n bs) =
        held-trie none (trunc_branches bs).0 ∙ omega (arith, held-trunc_branches bs)

    held-trunc_branches : (bs : Branches) → held_branches (trunc_branches bs).0 ≡ 0
    held-trunc_branches no_branch = refl
    held-trunc_branches (branch w t bs) =
        held-branch w (trie_trunc t).0 (trunc_branches bs).0
        ∙ omega (arith, held-trie_trunc t, held-trunc_branches bs)

  trunc_missing :
      (n : Option Node) (bs : Branches) (w : Bytes) (s : List Bytes)
      → find_branch strcmp w bs ≡ none
      → trie_trunc_branch strcmp (trie n bs) (w ∷ s) ≡ (trie n bs, false, [])
  unfolding trie_trunc_branch
  trunc_missing n bs w s e = ground (arith, e)

  trunc_branch :
      (n : Option Node) (bs : Branches) (w : Bytes) (s : List Bytes) (t : Trie)
      → find_branch strcmp w bs ≡ some t
      → trie_trunc_branch strcmp (trie n bs) (w ∷ s) ≡ (
          let (u, found, calls) = trie_trunc_branch strcmp t s in
          (trie n (put_branch strcmp w u bs), found, calls))
  unfolding trie_trunc_branch
  trunc_branch n bs w s t e = ground (arith, e)

  held-trie_trunc_branch :
      (t : Trie) (s : List Bytes)
      → held (trie_trunc_branch strcmp t s).0 + count (trie_trunc_branch strcmp t s).2 ≡ held t
  unfolding trie_trunc_branch or_init
  held-trie_trunc_branch (trie n bs) [] = omega (arith, held-trie_trunc (trie n bs))
  held-trie_trunc_branch (trie n bs) (w ∷ s) = elim (Option-cases (find_branch strcmp w bs)) [
    | inl e ↦ rw (trunc_missing n bs w s e) (omega arith)
    | inr (t, e) ↦
        let u = (trie_trunc_branch strcmp t s).0 in
        let same : held_branches (put_branch strcmp w u bs) + held t ≡ held u + held_branches bs =
          ap (λ o. held_branches (put_branch strcmp w u bs) + held (or_init o)) (sym e)
          ∙ held-put bs w u in
        rw (trunc_branch n bs w s t e) (
          omega (
            arith,
            held-trie n bs,
            held-trie n (put_branch strcmp w u bs),
            held-trie_trunc_branch t s,
            same,
          ))
  ]

  -- Each data with a delete function leaves a trie by one call of it: without NS_OP_NODELETE, the
  -- calls that TrieAdd makes and those that the trie has before it afterwards are those that it had
  -- before and that of the new data; TrieDelete and TrieTruncBranch make calls that the trie had before it, and leave the others.
  pub held-trie_add-trie_delete :
      (t : Trie) (s : List Bytes) (d f : ℕ) (k : Option ℕ)
      → is_set op_nodelete f ≡ false
      → (held (trie_add strcmp t s d f k).0 + count (trie_add strcmp t s d f k).1
          ≡ held t + count (delete_call (record { value = some d; deletefunc = k })))
        × (held (trie_delete strcmp t s f).0 + count (trie_delete strcmp t s f).2 ≡ held t)
        × (held (trie_trunc_branch strcmp t s).0 + count (trie_trunc_branch strcmp t s).2 ≡ held t)
  held-trie_add-trie_delete t s d f k h =
      (held-trie_add t s d f k h, held-trie_delete t s f h, held-trie_trunc_branch t s)
