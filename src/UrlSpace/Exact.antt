-- ===== src/UrlSpace/Exact.antt =====
-- nsd/urlspace.c: TrieFindExact after TrieAdd and TrieDelete.
use Prim.Native.Nat.{Ordering, lt, eq, gt}
use anansi.Common.{
  ℕ, ◌≡◌, inl, inr, refl, ◌⊎◌, Bool, true, false, ◌&&◌, not, Option, none, some, List, [], ◌∷◌,
  arith, if◌then◌else◌, Bytes, str_eq, str_eq_iff, str_eq_refl, Option-cases, Ordering-cases, zero,
  suc,
}
use anansi.Index.Order.{IsOrder}
use anansi.UrlSpace.Insert.{insert_nth, insert_branch-insert_nth}
use anansi.UrlSpace.{
  op_noinherit, is_set, Node, Trie, trie, Branches, no_branch, branch, trie_init, slot_of, set_slot,
  node_add, node_exact, node_delete, or_init, cmp_branch, find_branch, set_branch, insert_branch,
  put_branch, trie_add, trie_find_exact, trie_delete,
}

-- What `strcmp` does: it orders strings, and only a string and itself are equal.
pub record IsStrcmp (strcmp : Bytes → Bytes → Ordering) : Type 0 where
  pub order : IsOrder strcmp
  pub equal : (a b : Bytes) → strcmp a b ≡ eq → a ≡ b

-- The same words.
abbrev pub same_seq : List Bytes → List Bytes → Bool
same_seq [] [] = true
same_seq [] (w ∷ ws) = false
same_seq (v ∷ vs) [] = false
same_seq (v ∷ vs) (w ∷ ws) = str_eq v w && same_seq vs ws

-- Flags that choose the same slot.
abbrev pub same_slot : ℕ → ℕ → Bool
same_slot f g = if is_set op_noinherit f then is_set op_noinherit g else not (is_set op_noinherit g)

node_exact-node_add :
    (n : Option Node) (d f g : ℕ) (k : Option ℕ)
    → node_exact g (some (node_add d f k n).0) ≡ (if same_slot f g then some d else node_exact g n)
unfolding node_exact node_add slot_of set_slot
node_exact-node_add none d f g k = ground arith
node_exact-node_add (some n) d f g k = ground arith

node_exact-node_delete :
    (n : Option Node) (f g : ℕ)
    → node_exact g (node_delete f n).0 ≡ (if same_slot f g then none else node_exact g n)
unfolding node_exact node_delete slot_of set_slot
node_exact-node_delete none f g = ground arith
node_exact-node_delete (some n) f g = ground arith

module _ (strcmp : Bytes → Bytes → Ordering) (c : IsStrcmp strcmp) where
  pub strcmp_refl : (a : Bytes) → strcmp a a ≡ eq
  strcmp_refl a =
      ground (arith, c.order.turn_lt a a, c.order.turn_gt a a, Ordering-cases (strcmp a a))

  strcmp_ne : (v w : Bytes) → str_eq v w ≡ false → (strcmp w v ≡ lt) ⊎ (strcmp w v ≡ gt)
  strcmp_ne v w h = elim (Ordering-cases (strcmp w v)) [
    | inl o ↦ inl o
    | inr (inl o) ↦ let e = c.equal w v o in absurd (ground (arith, str_eq_refl v))
    | inr (inr o) ↦ inr o
  ]

  find_branch-other_set :
      (bs : Branches) (v w : Bytes) (t : Trie)
      → str_eq v w ≡ false
      → find_branch strcmp w (set_branch strcmp v t bs) ≡ find_branch strcmp w bs
  unfolding find_branch set_branch cmp_branch
  find_branch-other_set no_branch v w t h = refl
  find_branch-other_set (branch u s rest) v w t h = ground (
    arith,
    strcmp_ne v w h,
    find_branch-other_set rest v w t h,
    Ordering-cases (strcmp v u),
    c.equal v u,
  )

  find_branch-other_nth :
      (r : ℕ) (bs : Branches) (v w : Bytes) (t : Trie)
      → str_eq v w ≡ false
      → find_branch strcmp w (insert_nth r v t bs) ≡ find_branch strcmp w bs
  unfolding find_branch insert_nth cmp_branch
  find_branch-other_nth zero bs v w t h = ground (arith, strcmp_ne v w h)
  find_branch-other_nth (suc r) no_branch v w t h = ground (arith, strcmp_ne v w h)
  find_branch-other_nth (suc r) (branch u s rest) v w t h =
      ground (arith, find_branch-other_nth r rest v w t h)

  find_branch-other_insert :
      (bs : Branches) (v w : Bytes) (t : Trie)
      → str_eq v w ≡ false
      → find_branch strcmp w (insert_branch strcmp v t bs) ≡ find_branch strcmp w bs
  find_branch-other_insert bs v w t h =
      let (r, e) = insert_branch-insert_nth strcmp v t bs in
      rw e (find_branch-other_nth r bs v w t h)

  find_branch-set :
      (bs : Branches) (v : Bytes) (s t : Trie)
      → find_branch strcmp v bs ≡ some s
      → find_branch strcmp v (set_branch strcmp v t bs) ≡ some t
  unfolding find_branch set_branch cmp_branch
  find_branch-set no_branch v s t h = absurd (cc)
  find_branch-set (branch u r rest) v s t h =
      ground (arith, find_branch-set rest v s t, Ordering-cases (strcmp v u))

  find_branch-nth :
      (r : ℕ) (bs : Branches) (v : Bytes) (t : Trie)
      → find_branch strcmp v bs ≡ none
      → find_branch strcmp v (insert_nth r v t bs) ≡ some t
  unfolding find_branch insert_nth cmp_branch
  find_branch-nth zero bs v t h = ground (arith, strcmp_refl v)
  find_branch-nth (suc r) no_branch v t h = ground (arith, strcmp_refl v)
  find_branch-nth (suc r) (branch u s rest) v t h =
      ground (arith, find_branch-nth r rest v t, Ordering-cases (strcmp v u))

  find_branch-insert :
      (bs : Branches) (v : Bytes) (t : Trie)
      → find_branch strcmp v bs ≡ none
      → find_branch strcmp v (insert_branch strcmp v t bs) ≡ some t
  find_branch-insert bs v t h =
      let (r, e) = insert_branch-insert_nth strcmp v t bs in rw e (find_branch-nth r bs v t h)

  pub find_branch-put_branch :
      (bs : Branches) (v w : Bytes) (t : Trie)
      → find_branch strcmp w (put_branch strcmp v t bs)
        ≡ (if str_eq v w then some t else find_branch strcmp w bs)
  unfolding put_branch
  find_branch-put_branch bs v w t = elim (Option-cases (find_branch strcmp v bs)) [
    | inl e ↦ ground (
      arith,
      e,
      (str_eq_iff v w).0,
      find_branch-other_insert bs v w t,
      find_branch-insert bs v t e,
    )
    | inr (s, e) ↦
        ground
          (arith, e, (str_eq_iff v w).0, find_branch-other_set bs v w t, find_branch-set bs v s t e)
  ]

  pub trie_find_exact-init : (s : List Bytes) (f : ℕ) → trie_find_exact strcmp trie_init s f ≡ none
  unfolding trie_find_exact trie_init find_branch node_exact
  trie_find_exact-init [] f = refl
  trie_find_exact-init (w ∷ s) f = refl

  -- The trie behind a word, which may be missing.
  trie_find_exact-cons :
      (n : Option Node) (bs : Branches) (w : Bytes) (s : List Bytes) (f : ℕ)
      → trie_find_exact strcmp (trie n bs) (w ∷ s) f
        ≡ trie_find_exact strcmp (or_init (find_branch strcmp w bs)) s f
  unfolding trie_find_exact or_init
  trie_find_exact-cons n bs w s f = ground (arith, trie_find_exact-init s f)

  -- What an exact lookup finds after a value was added: that value for the same words and the same
  -- slot, what it found before for all others.
  pub trie_find_exact-trie_add :
      (t : Trie) (s : List Bytes) (d f : ℕ) (k : Option ℕ) (u : List Bytes) (g : ℕ)
      → trie_find_exact strcmp (trie_add strcmp t s d f k).0 u g
        ≡ (if same_seq s u && same_slot f g then some d else trie_find_exact strcmp t u g)
  unfolding trie_find_exact trie_add
  trie_find_exact-trie_add (trie n bs) [] d f k [] g = node_exact-node_add n d f g k
  trie_find_exact-trie_add (trie n bs) [] d f k (w ∷ u) g = refl
  trie_find_exact-trie_add (trie n bs) (v ∷ s) d f k [] g = refl
  trie_find_exact-trie_add (trie n bs) (v ∷ s) d f k (w ∷ u) g =
      let t = or_init (find_branch strcmp v bs) in
      let ih = trie_find_exact-trie_add t s d f k u g in
      ground (
        arith,
        find_branch-put_branch bs v w (trie_add strcmp t s d f k).0,
        trie_find_exact-cons n bs v u g,
        (str_eq_iff v w).0,
        ih,
      )

  trie_find_exact-deleted :
      (t : Trie) (s : List Bytes) (f : ℕ) (u : List Bytes) (g : ℕ)
      → trie_find_exact strcmp (trie_delete strcmp t s f).0 u g
        ≡ (if same_seq s u && same_slot f g then none else trie_find_exact strcmp t u g)
  unfolding trie_find_exact trie_delete
  trie_find_exact-deleted (trie n bs) [] f [] g = node_exact-node_delete n f g
  trie_find_exact-deleted (trie n bs) [] f (w ∷ u) g = refl
  trie_find_exact-deleted (trie n bs) (v ∷ s) f [] g =
      ground (arith, Option-cases (find_branch strcmp v bs))
  trie_find_exact-deleted (trie n bs) (v ∷ s) f (w ∷ u) g =
      elim (Option-cases (find_branch strcmp v bs)) [
        | inl e ↦ ground (arith, (str_eq_iff v w).0)
        | inr (t, e) ↦
            let ih = trie_find_exact-deleted t s f u g in
            ground (
              arith,
              find_branch-put_branch bs v w (trie_delete strcmp t s f).0,
              (str_eq_iff v w).0,
              ih,
            )
      ]

  trie_delete-found :
      (t : Trie) (s : List Bytes) (f : ℕ)
      → (trie_delete strcmp t s f).1 ≡ trie_find_exact strcmp t s f
  unfolding trie_find_exact trie_delete node_delete node_exact
  trie_delete-found (trie none bs) [] f = refl
  trie_delete-found (trie (some n) bs) [] f = refl
  trie_delete-found (trie n bs) (v ∷ s) f = elim (Option-cases (find_branch strcmp v bs)) [
    | inl e ↦ ground (arith, e)
    | inr (t, e) ↦ let ih = trie_delete-found t s f in ground (arith, ih)
  ]

  -- What an exact lookup finds after a deletion: nothing for the same words and the same slot, what
  -- it found before for all others; and the deletion returns what the lookup found.
  pub trie_find_exact-trie_delete :
      (t : Trie) (s : List Bytes) (f : ℕ) (u : List Bytes) (g : ℕ)
      → (trie_find_exact strcmp (trie_delete strcmp t s f).0 u g
          ≡ (if same_seq s u && same_slot f g then none else trie_find_exact strcmp t u g))
        × ((trie_delete strcmp t s f).1 ≡ trie_find_exact strcmp t s f)
  trie_find_exact-trie_delete t s f u g =
      (trie_find_exact-deleted t s f u g, trie_delete-found t s f)
