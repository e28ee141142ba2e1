-- ===== src/UrlSpace/Ordered.antt =====
-- nsd/urlspace.c: the branches of a trie stand in the order of their words, each word once, as
-- the search of Ns_IndexFind needs it: Ns_IndexAdd puts a branch where BinSearch finds its place.
use Prim.Native.Nat.{Ordering, lt, eq, gt}
use anansi.Common.{
  ℕ, zero, suc, ◌≤◌, ◌<◌, length, get_or, ◌≡◌, ◌≢◌, inl, inr, sym, subst, Option, none, some, List,
  [], ◌∷◌, arith, Bytes, Option-cases, Ordering-cases, some_inj,
}
use anansi.UrlSpace.{
  Trie, trie, Branches, no_branch, branch, trie_init, or_init, cmp_branch, find_branch, set_branch,
  insert_branch, put_branch, trie_add, trie_delete, to_list, full_index, cmp_branches,
}
use anansi.Index.Order.{IsOrder, IsSorted, Fits, view-add}
use anansi.UrlSpace.Insert.{insert_nth, insert_branch-at, full_index-IsValid, view-full_index}
use anansi.UrlSpace.Exact.{IsStrcmp}

-- The number of branches, and the word of the `i`th.
abbrev size : Branches → ℕ
size bs = length (to_list bs)

abbrev word_at : Branches → ℕ → Bytes
word_at bs i = (get_or (to_list bs) i ([], trie_init)).0

module _ (strcmp : Bytes → Bytes → Ordering) (c : IsStrcmp strcmp) where
  -- A word stands before all of some branches.
  abbrev pub IsBefore : Bytes → Branches → Type 0
  IsBefore w no_branch = Unit
  IsBefore w (branch v t bs) = (strcmp w v ≡ lt) × IsBefore w bs

  unfoldable mutual
    pub IsOrdered : Trie → Type 0
    IsOrdered (trie n bs) = AllOrdered bs

    pub AllOrdered : Branches → Type 0
    AllOrdered no_branch = Unit
    AllOrdered (branch w t bs) = IsOrdered t × IsBefore w bs × AllOrdered bs

  strcmp_trans : (a b d : Bytes) → strcmp a b ≡ lt → strcmp b d ≡ lt → strcmp a d ≡ lt
  strcmp_trans a b d h k = elim (Ordering-cases (strcmp a d)) [
    | inl o ↦ o
    | inr (inl o) ↦
        let e = c.equal a d o in let t = c.order.turn_lt a b h in absurd (ground (arith, e))
    | inr (inr o) ↦ absurd (c.order.trans a b d (λ e. cc) (λ e. cc) o)
  ]

  lt_of_ne : (a b : Bytes) → strcmp a b ≢ gt → strcmp a b ≢ eq → strcmp a b ≡ lt
  lt_of_ne a b h k = ground (arith, Ordering-cases (strcmp a b))

  IsBefore-trans : (a b : Bytes) (bs : Branches) → strcmp a b ≡ lt → IsBefore b bs → IsBefore a bs
  IsBefore-trans a b no_branch h k = tt
  IsBefore-trans a b (branch v t bs) h (k, l) = (strcmp_trans a b v h k, IsBefore-trans a b bs h l)

  set-here :
      (key v : Bytes) (t s : Trie) (bs : Branches)
      → strcmp key v ≡ eq
      → set_branch strcmp key t (branch v s bs) ≡ branch v t bs
  unfolding set_branch cmp_branch
  set-here key v t s bs h = ground (arith, h)

  set-past :
      (key v : Bytes) (t s : Trie) (bs : Branches)
      → strcmp key v ≢ eq
      → set_branch strcmp key t (branch v s bs) ≡ branch v s (set_branch strcmp key t bs)
  unfolding set_branch cmp_branch
  set-past key v t s bs h = ground (arith, h, Ordering-cases (strcmp key v))

  IsBefore-set :
      (w key : Bytes) (t : Trie) (bs : Branches)
      → IsBefore w bs
      → IsBefore w (set_branch strcmp key t bs)
  unfolding set_branch
  IsBefore-set w key t no_branch k = tt
  IsBefore-set w key t (branch v s bs) (k, l) =
      let past : strcmp key v ≢ eq → IsBefore w (set_branch strcmp key t (branch v s bs)) =
        λ n. subst (IsBefore w) (sym (set-past key v t s bs n)) (k, IsBefore-set w key t bs l) in
      elim (Ordering-cases (strcmp key v)) [
        | inl o ↦ past (λ e. cc)
        | inr (inl o) ↦ subst (IsBefore w) (sym (set-here key v t s bs o)) (k, l)
        | inr (inr o) ↦ past (λ e. cc)
      ]

  -- A branch in its place keeps the order.
  IsBefore-nth :
      (r : ℕ) (w key : Bytes) (t : Trie) (bs : Branches)
      → strcmp w key ≡ lt
      → IsBefore w bs
      → IsBefore w (insert_nth r key t bs)
  unfolding insert_nth
  IsBefore-nth zero w key t bs h k = (h, k)
  IsBefore-nth (suc r) w key t no_branch h k = (h, tt)
  IsBefore-nth (suc r) w key t (branch v s bs) h (k, l) = (k, IsBefore-nth r w key t bs h l)

  AllOrdered-nth :
      (r : ℕ) (key : Bytes) (t : Trie) (bs : Branches)
      → IsOrdered t
      → AllOrdered bs
      → ((i : ℕ) → i < r → i < size bs → strcmp (word_at bs i) key ≡ lt)
      → (r < size bs → strcmp key (word_at bs r) ≡ lt)
      → AllOrdered (insert_nth r key t bs)
  unfolding insert_nth IsOrdered to_list
  AllOrdered-nth zero key t no_branch k a before behind = (k, tt, tt)
  AllOrdered-nth zero key t (branch v s bs) k (a, l, b) before behind =
      let o = behind (omega arith) in (k, (o, IsBefore-trans key v bs o l), (a, l, b))
  AllOrdered-nth (suc r) key t no_branch k a before behind = (k, tt, tt)
  AllOrdered-nth (suc r) key t (branch v s bs) k (a, l, b) before behind = (
    a,
    IsBefore-nth r v key t bs (before 0 (omega arith) (omega arith)) l,
    AllOrdered-nth r key t bs k b (λ i h g. before (suc i) (omega arith) (omega arith))
        (λ h. behind (omega arith)),
  )

  IsBefore-word_at :
      (w : Bytes) (bs : Branches) (i : ℕ)
      → IsBefore w bs
      → i < size bs
      → strcmp w (word_at bs i) ≡ lt
  unfolding to_list
  IsBefore-word_at w no_branch i k h = absurd (omega arith)
  IsBefore-word_at w (branch v s bs) zero (k, l) h = k
  IsBefore-word_at w (branch v s bs) (suc i) (k, l) h = IsBefore-word_at w bs i l (omega arith)

  word_at-ne_gt :
      (bs : Branches) (i j : ℕ)
      → AllOrdered bs
      → i ≤ j
      → j < size bs
      → strcmp (word_at bs i) (word_at bs j) ≢ gt
  unfolding to_list IsOrdered
  word_at-ne_gt no_branch i j a h g = absurd (omega arith)
  word_at-ne_gt (branch v s bs) zero zero a h g = λ e. let t = c.order.turn_gt v v e in absurd (cc)
  word_at-ne_gt (branch v s bs) zero (suc j) (a, l, b) h g =
      λ e. let o = IsBefore-word_at v bs j l (omega arith) in absurd (cc)
  word_at-ne_gt (branch v s bs) (suc i) zero a h g = absurd (omega arith)
  word_at-ne_gt (branch v s bs) (suc i) (suc j) (a, l, b) h g =
      word_at-ne_gt bs i j b (omega arith) (omega arith)

  find_branch-word_at :
      (key : Bytes) (bs : Branches) (i : ℕ)
      → find_branch strcmp key bs ≡ none
      → i < size bs
      → strcmp key (word_at bs i) ≢ eq
  unfolding to_list find_branch cmp_branch
  find_branch-word_at key no_branch i h g = absurd (omega arith)
  find_branch-word_at key (branch v s bs) zero h g = λ e. absurd (ground (arith, e, h))
  find_branch-word_at key (branch v s bs) (suc i) h g =
      find_branch-word_at key bs i (ground (arith, h, Ordering-cases (strcmp key v))) (omega arith)

  cmp_branches-IsOrder : IsOrder (cmp_branches strcmp)
  cmp_branches-IsOrder = record {
    turn_lt = λ a b. c.order.turn_lt a.0 b.0;
    turn_gt = λ a b. c.order.turn_gt a.0 b.0;
    turn_eq = λ a b. c.order.turn_eq a.0 b.0;
    trans = λ a b d. c.order.trans a.0 b.0 d.0;
  }

  -- Ns_IndexAdd puts a new branch where BinSearch finds its place.
  AllOrdered-insert :
      (key : Bytes) (t : Trie) (bs : Branches)
      → find_branch strcmp key bs ≡ none
      → IsOrdered t
      → AllOrdered bs
      → AllOrdered (insert_branch strcmp key t bs)
  AllOrdered-insert key t bs h k a =
      let xs = to_list bs in
      let same = view-full_index xs in
      let sorted : IsSorted ([], trie_init) (cmp_branches strcmp) xs =
        λ i j l g. word_at-ne_gt bs i j a l g in
      let (r, e, f, v) =
        view-add ([], trie_init) (cmp_branches strcmp) cmp_branches-IsOrder (full_index xs) (key, t)
          (full_index-IsValid xs)
          (subst (IsSorted ([], trie_init) (cmp_branches strcmp)) (sym same) sorted) in
      let fits =
        subst (λ ys. Fits ([], trie_init) (cmp_branches strcmp) cmp_branches-IsOrder (key, t) ys r)
          same f in
      subst AllOrdered (sym (insert_branch-at strcmp key t bs r e)) (
        AllOrdered-nth r key t bs k a
          (λ i l g.
            lt_of_ne (word_at bs i) key (fits.before i l)
              (λ q. find_branch-word_at key bs i h g (c.order.turn_eq _ _ q)))
          (λ g.
            lt_of_ne key (word_at bs r) (fits.behind r (omega arith) g)
              (find_branch-word_at key bs r h g)))

  AllOrdered-set :
      (key : Bytes) (t : Trie) (bs : Branches)
      → IsOrdered t
      → AllOrdered bs
      → AllOrdered (set_branch strcmp key t bs)
  unfolding set_branch IsOrdered
  AllOrdered-set key t no_branch k a = tt
  AllOrdered-set key t (branch v s bs) k (a, l, b) =
      let past : strcmp key v ≢ eq → AllOrdered (set_branch strcmp key t (branch v s bs)) = λ n.
        subst AllOrdered (sym (set-past key v t s bs n))
          (a, IsBefore-set v key t bs l, AllOrdered-set key t bs k b) in
      elim (Ordering-cases (strcmp key v)) [
        | inl o ↦ past (λ e. cc)
        | inr (inl o) ↦ subst AllOrdered (sym (set-here key v t s bs o)) (k, l, b)
        | inr (inr o) ↦ past (λ e. cc)
      ]

  AllOrdered-put :
      (key : Bytes) (t : Trie) (bs : Branches)
      → IsOrdered t
      → AllOrdered bs
      → AllOrdered (put_branch strcmp key t bs)
  unfolding put_branch IsOrdered
  AllOrdered-put key t bs k a = elim (Option-cases (find_branch strcmp key bs)) [
    | inl e ↦ rw (put_branch, e) (AllOrdered-insert key t bs e k a)
    | inr (s, e) ↦ rw (put_branch, e) (AllOrdered-set key t bs k a)
  ]

  find_branch-IsOrdered :
      (key : Bytes) (t : Trie) (bs : Branches)
      → find_branch strcmp key bs ≡ some t
      → AllOrdered bs
      → IsOrdered t
  unfolding find_branch cmp_branch IsOrdered
  find_branch-IsOrdered key t no_branch h a = absurd (cc)
  find_branch-IsOrdered key t (branch v s bs) h (a, l, b) = elim (Ordering-cases (strcmp key v)) [
    | inl o ↦ find_branch-IsOrdered key t bs (ground (arith, o, h)) b
    | inr (inl o) ↦ subst IsOrdered (some_inj (ground (arith, o, h))) a
    | inr (inr o) ↦ find_branch-IsOrdered key t bs (ground (arith, o, h)) b
  ]

  trie_init-IsOrdered : IsOrdered trie_init
  unfolding IsOrdered trie_init
  trie_init-IsOrdered = tt

  or_init-IsOrdered :
      (w : Bytes) (bs : Branches) → AllOrdered bs → IsOrdered (or_init (find_branch strcmp w bs))
  unfolding or_init IsOrdered
  or_init-IsOrdered w bs a = elim (Option-cases (find_branch strcmp w bs)) [
    | inl e ↦ rw (or_init, e) trie_init-IsOrdered
    | inr (t, e) ↦ rw (or_init, e) (find_branch-IsOrdered w t bs e a)
  ]

  trie_add-IsOrdered :
      (t : Trie) (s : List Bytes) (d f : ℕ) (k : Option ℕ)
      → IsOrdered t
      → IsOrdered (trie_add strcmp t s d f k).0
  unfolding trie_add IsOrdered
  trie_add-IsOrdered (trie n bs) [] d f k a = a
  trie_add-IsOrdered (trie n bs) (w ∷ s) d f k a =
      let t = or_init (find_branch strcmp w bs) in
      AllOrdered-put w (trie_add strcmp t s d f k).0 bs
        (trie_add-IsOrdered t s d f k (or_init-IsOrdered w bs a)) a

  delete-IsOrdered :
      (t : Trie) (s : List Bytes) (f : ℕ) → IsOrdered t → IsOrdered (trie_delete strcmp t s f).0
  unfolding trie_delete IsOrdered
  delete-IsOrdered (trie n bs) [] f a = a
  delete-IsOrdered (trie n bs) (w ∷ s) f a = elim (Option-cases (find_branch strcmp w bs)) [
    | inl e ↦ rw (trie_delete, e) a
    | inr (t, e) ↦
        rw (trie_delete, e)
          (AllOrdered-put w (trie_delete strcmp t s f).0 bs
            (delete-IsOrdered t s f (find_branch-IsOrdered w t bs e a)) a)
  ]

  -- A trie starts in order, and TrieAdd and TrieDelete keep it so: the branches at each place stand
  -- in the strict order of their words.
  pub trie_add-trie_delete-IsOrdered :
      (t : Trie) (s : List Bytes) (d f : ℕ) (k : Option ℕ)
      → IsOrdered t
      → IsOrdered trie_init
        × IsOrdered (trie_add strcmp t s d f k).0
        × IsOrdered (trie_delete strcmp t s f).0
  trie_add-trie_delete-IsOrdered t s d f k a =
      (trie_init-IsOrdered, trie_add-IsOrdered t s d f k a, delete-IsOrdered t s f a)
