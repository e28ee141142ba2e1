-- ===== src/UrlSpace/Walk.antt =====
-- nsd/urlspace.c: Ns_UrlSpecificWalk shows all that an exact lookup finds, where no
-- URL is deeper than its stack.
use Prim.Native.Nat.{Ordering}
use mathlib.Core.List.Memᴰ
use mathlib.Core.List.{Memᴰ}
use anansi.Common.{
  ℕ, ◌≡◌, inl, inr, refl, sym, ap, subst, ◌∙◌, Bool, true, not, Option, none, some, List, [], ◌∷◌,
  ◌++◌, append_assoc, append-nil, arith, Bytes, str_eq, str_eq_iff, Bool-cases, Option-cases,
  Ordering-cases, some_inj, suc, ◌-◌, ◌<◌, ◌&&◌, ltb, length, take, take_of_length-le,
  take-append-length, length-append,
}
use anansi.Index.Order.{view}
use anansi.UrlSpace.{
  op_noinherit, is_set, slot_of, node_exact, mk_seq, Node, Trie, trie, Branches, no_branch, branch,
  cmp_branch, find_branch, trie_find_exact,
}
use anansi.UrlSpace.Exact.{IsStrcmp}
use anansi.UrlSpace.Junction.{Junction, junction_get, channels, channel_of, has_channel}
use anansi.UrlSpace.Replace.{IsUrl, junction_find_exact-entry}
use anansi.UrlSpace.Stored.{IsSpace}
use anansi.UrlSpace.Space.{
  Entry, stack_size, sublists, show_node, depth_of, walk_trie, walk_branches, walk_channels,
  url_specific_walk, url_specific_get_exact,
}

-- How the walk shows data that the flags choose.
abbrev pub shown : List Bytes → Bytes → ℕ → ℕ → Entry
shown stack filter flags d = record {
  stack = stack;
  filter = filter;
  inherits = not (is_set op_noinherit flags);
  value = d;
}

-- The walk with a stack that has no end: the specification.
unfoldable pub node_entries : List Bytes → Bytes → Option Node → List Entry
node_entries stack filter none = []
node_entries stack filter (some n) = sublists stack filter n

unfoldable mutual
  pub trie_entries : Trie → List Bytes → Bytes → List Entry
  trie_entries (trie n bs) stack filter =
      branches_entries bs stack filter ++ node_entries stack filter n

  pub branches_entries : Branches → List Bytes → Bytes → List Entry
  branches_entries no_branch stack filter = []
  branches_entries (branch word t rest) stack filter =
      trie_entries t (stack ++ word ∷ []) filter ++ branches_entries rest stack filter

unfoldable mutual
  -- Below a stack of `k` words, no branch leads to more words than fit with a NULL behind them.
  pub fits_trie : Trie → ℕ → Bool
  fits_trie (trie n bs) k = fits_branches bs k

  pub fits_branches : Branches → ℕ → Bool
  fits_branches no_branch k = true
  fits_branches (branch word t rest) k =
      ltb k (stack_size - 1) && (fits_trie t (suc k) && fits_branches rest k)

-- The tries of these channels are at most 511 words deep, the method included.
unfoldable pub fits_channels : Junction → List Bytes → Bool
fits_channels j [] = true
fits_channels j (f ∷ fs) = fits_trie (j.tries f) 0 && fits_channels j fs

show_node-entries :
    (stack : List Bytes) (filter : Bytes) (n : Option Node)
    → length stack < stack_size
    → show_node stack filter n ≡ some (node_entries stack filter n)
unfolding show_node node_entries
show_node-entries stack filter none l = refl
show_node-entries stack filter (some n) l = ground arith

walk_trie_eq :
    (n : Option Node) (bs : Branches) (stack left : List Bytes) (filter : Bytes)
    (below own : List Entry)
    → walk_branches bs stack filter ≡ some (below, left)
    → show_node left filter n ≡ some own
    → walk_trie (trie n bs) stack filter ≡ some (below ++ own, left)
unfolding walk_trie
walk_trie_eq n bs stack left filter below own h k = ground (arith, h, k)

walk_branches_eq :
    (w : Bytes) (t : Trie) (rest : Branches) (stack left last : List Bytes) (filter : Bytes)
    (shown more : List Entry)
    → walk_trie t (take (depth_of stack) stack ++ w ∷ []) filter ≡ some (shown, left)
    → walk_branches rest (take (depth_of stack) left) filter ≡ some (more, last)
    → walk_branches (branch w t rest) stack filter ≡ some (shown ++ more, last)
unfolding walk_branches
walk_branches_eq w t rest stack left last filter shown more h k = ground (arith, h, k)

mutual
  unfolding trie_entries walk_branches fits_trie depth_of

  -- In a trie that is not too deep the walk is that of the specification, and leaves the stack as it
  -- was.
  walk_trie-entries :
      (t : Trie) (stack : List Bytes) (filter : Bytes)
      → length stack < stack_size
      → fits_trie t (length stack) ≡ true
      → walk_trie t stack filter ≡ some (trie_entries t stack filter, stack)
  walk_trie-entries (trie n bs) stack filter l h =
      walk_trie_eq n bs stack stack filter _ _ (walk_branches-entries bs stack filter l h)
        (show_node-entries stack filter n l)

  walk_branches-entries :
      (bs : Branches) (stack : List Bytes) (filter : Bytes)
      → length stack < stack_size
      → fits_branches bs (length stack) ≡ true
      → walk_branches bs stack filter ≡ some (branches_entries bs stack filter, stack)
  walk_branches-entries no_branch stack filter l h = refl
  walk_branches-entries (branch w t rest) stack filter l h =
      let inside : ltb (length stack) (stack_size - 1) ≡ true = ground (arith, h) in
      let d : depth_of stack ≡ length stack = ground (arith, inside) in
      let own : take (depth_of stack) stack ≡ stack =
        take_of_length-le (depth_of stack) stack (omega arith) in
      let back : take (depth_of stack) (stack ++ w ∷ []) ≡ stack =
        ap (λ n. take n (stack ++ w ∷ [])) d ∙ take-append-length stack (w ∷ []) in
      let longer = length-append stack (w ∷ []) in
      let below =
        walk_trie-entries t (stack ++ w ∷ []) filter (ground (arith, inside, longer))
          (ground (arith, h, longer)) in
      let next = walk_branches-entries rest stack filter l (ground (arith, h)) in
      walk_branches_eq w t rest stack (stack ++ w ∷ []) stack filter _ _
        (ap (λ s. walk_trie t (s ++ w ∷ []) filter) own ∙ below)
        (ap (λ s. walk_branches rest s filter) back ∙ next)

-- The specification for the channels.
channels_entries : Junction → List Bytes → List Entry
channels_entries j [] = []
channels_entries j (f ∷ fs) = trie_entries (j.tries f) [] f ++ channels_entries j fs

walk_channels-entries :
    (j : Junction) (fs : List Bytes)
    → fits_channels j fs ≡ true
    → walk_channels j fs [] ≡ some (channels_entries j fs)
unfolding walk_channels channels_entries fits_channels
walk_channels-entries j [] h = refl
walk_channels-entries j (f ∷ fs) h =
    let below = walk_trie-entries (j.tries f) [] f (omega arith) (ground (arith, h)) in
    let next = walk_channels-entries j fs (ground (arith, h)) in ground (arith, below, next)

node_entries-shown :
    (n : Option Node) (stack : List Bytes) (filter : Bytes) (g d : ℕ)
    → node_exact g n ≡ some d
    → Memᴰ (shown stack filter g d) (node_entries stack filter n)
unfolding node_entries sublists node_exact slot_of
node_entries-shown none stack filter g d h = absurd (cc)
node_entries-shown (some n) stack filter g d h = elim (Bool-cases (is_set op_noinherit g)) [
  | inl e ↦
      let v : n.no_inherit.value ≡ some d = ground (arith, e, h) in
      rw (e, v) (Memᴰ.append_right _ (Memᴰ.head refl))
  | inr e ↦ let v : n.inherit.value ≡ some d = ground (arith, e, h) in rw (e, v) (Memᴰ.head refl)
]

module _ (strcmp : Bytes → Bytes → Ordering) (c : IsStrcmp strcmp) where
  mutual
    unfolding trie_entries branches_entries trie_find_exact find_branch cmp_branch

    trie_entries-shown :
        (t : Trie) (s stack : List Bytes) (filter : Bytes) (g d : ℕ)
        → trie_find_exact strcmp t s g ≡ some d
        → Memᴰ (shown (stack ++ s) filter g d) (trie_entries t stack filter)
    trie_entries-shown (trie n bs) [] stack filter g d h =
        Memᴰ.append_right (branches_entries bs stack filter)
          (rw (append-nil stack) (node_entries-shown n stack filter g d h))
    trie_entries-shown (trie n bs) (w ∷ s) stack filter g d h =
        elim (Option-cases (find_branch strcmp w bs)) [
          | inl e ↦ absurd (ground (arith, e, h))
          | inr (t, e) ↦
              Memᴰ.append_left (node_entries stack filter n)
                (branches_entries-shown bs w s stack filter g d t e (ground (arith, e, h)))
        ]

    branches_entries-shown :
        (bs : Branches) (w : Bytes) (s stack : List Bytes) (filter : Bytes) (g d : ℕ) (t : Trie)
        → find_branch strcmp w bs ≡ some t
        → trie_find_exact strcmp t s g ≡ some d
        → Memᴰ (shown (stack ++ w ∷ s) filter g d) (branches_entries bs stack filter)
    branches_entries-shown no_branch w s stack filter g d t e h = absurd (cc)
    branches_entries-shown (branch v u bs) w s stack filter g d t e h =
        elim (Ordering-cases (strcmp w v)) [
          | inl o ↦
              Memᴰ.append_right (trie_entries u (stack ++ v ∷ []) filter)
                (branches_entries-shown bs w s stack filter g d t (ground (arith, o, e)) h)
          | inr (inl o) ↦
              let same = c.equal w v o in
              let k : u ≡ t = some_inj (ground (arith, o, e)) in
              let m =
                trie_entries-shown u s (stack ++ v ∷ []) filter g d
                  (ap (λ t. trie_find_exact strcmp t s g) k ∙ h) in
              Memᴰ.append_left (branches_entries bs stack filter) (
                subst (λ q. Memᴰ (shown q filter g d) (trie_entries u (stack ++ v ∷ []) filter))
                  (append_assoc stack (v ∷ []) s ∙ ap (λ y. stack ++ y ∷ s) (sym same)) m)
          | inr (inr o) ↦
              Memᴰ.append_right (trie_entries u (stack ++ v ∷ []) filter)
                (branches_entries-shown bs w s stack filter g d t (ground (arith, o, e)) h)
        ]

  channels_entries-shown :
      (j : Junction) (fs : List Bytes) (p : Bytes) (s : List Bytes) (g d : ℕ)
      → has_channel p fs ≡ true
      → trie_find_exact strcmp (j.tries p) s g ≡ some d
      → Memᴰ (shown s p g d) (channels_entries j fs)
  unfolding channels_entries has_channel
  channels_entries-shown j [] p s g d m h = absurd (cc)
  channels_entries-shown j (f ∷ fs) p s g d m h = elim (Bool-cases (str_eq p f)) [
    | inl e ↦
        let same = (str_eq_iff p f).0 e in
        let k = trie_entries-shown (j.tries p) s [] p g d h in
        Memᴰ.append_left (channels_entries j fs)
          (subst (λ q. Memᴰ (shown s p g d) (trie_entries (j.tries q) [] q)) same k)
    | inr e ↦
        Memᴰ.append_right (trie_entries (j.tries f) [] f)
          (channels_entries-shown j fs p s g d (ground (arith, e, m)) h)
  ]

  walk_channels-shown :
      (j : Junction) (fs : List Bytes) (p : Bytes) (s : List Bytes) (g d : ℕ)
      → fits_channels j fs ≡ true
      → has_channel p fs ≡ true
      → trie_find_exact strcmp (j.tries p) s g ≡ some d
      → (out : List Entry) × (walk_channels j fs [] ≡ some out) × Memᴰ (shown s p g d) out
  walk_channels-shown j fs p s g d fits m h = (
    channels_entries j fs,
    walk_channels-entries j fs fits,
    channels_entries-shown j fs p s g d m h,
  )

  -- In a space whose tries are at most 511 words deep, the method included, the walk stays within its
  -- stack and shows every data that an exact lookup of a URL finds, with the words that lead to it
  -- and the filter of its channel.
  pub url_specific_walk-shown :
      (string_match : Bytes → Bytes → Bool) (urlspace : ℕ → Option Junction) (method url : Bytes)
      (id flags d : ℕ)
      → IsSpace strcmp c urlspace
      → fits_channels (junction_get urlspace id) (channels (junction_get urlspace id)) ≡ true
      → IsUrl (mk_seq method url)
      → url_specific_get_exact strcmp string_match urlspace method url id flags ≡ some d
      → let (filter, words) = channel_of (mk_seq method url) in
        (out : List Entry) × (url_specific_walk urlspace id ≡ some out)
        × Memᴰ (shown words filter flags d) out
  unfolding url_specific_walk url_specific_get_exact channels
  url_specific_walk-shown string_match urlspace method url id flags d space fits w h =
      let j = junction_get urlspace id in
      let u = mk_seq method url in
      let (p, words) = channel_of u in
      let (good, plain) = space id in
      let e = sym (junction_find_exact-entry strcmp j u flags good plain w) ∙ h in
      elim (Bool-cases (has_channel p (view j.byuse))) [
        | inl m ↦ walk_channels-shown j (view j.byuse) p words flags d fits m (ground (arith, e, m))
        | inr m ↦ absurd (ground (arith, e, m))
      ]
