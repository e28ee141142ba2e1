-- ===== src/UrlSpace/Replace.antt =====
-- nsd/urlspace.c: JunctionFindExact after JunctionAdd.
use Prim.Native.Nat.{Ordering}
use anansi.Common.{
  ℕ, suc, ◌-◌, ◌≡◌, inl, inr, refl, sym, ap, ◌∙◌, Bool, true, false, ◌&&◌, ◌||◌, Option, none, some,
  List, [], ◌∷◌, arith, if◌then◌else◌, Bytes, ltb, length, get_or, str_eq, str_eq_iff, str_eq_refl,
  Bool-cases, Option-cases,
}
use anansi.Index.Order.{view}
use anansi.Index.Find.{Bsearch}
use anansi.Index.{find}
use anansi.UrlSpace.{Trie, trie_add, trie_find_exact}
use anansi.UrlSpace.Exact.{
  IsStrcmp, same_seq, same_slot, trie_find_exact-init, trie_find_exact-trie_add,
}
use anansi.UrlSpace.Junction.{
  Junction, set_trie, channels, is_mask, star, add_channel, junction_add, channel_of, has_channel,
  last_word, junction_find_exact,
}
use anansi.UrlSpace.Channels.{IsGood, IsGood-indexes, IsAdded, add_channel-IsAdded}

-- Some word has a wildcard.
abbrev pub any_mask : List Bytes → Bool
any_mask [] = false
any_mask (w ∷ ws) = is_mask w || any_mask ws

-- The words of a URL that has a wildcard in its last part at most, and none in its method.
abbrev pub IsUrl : List Bytes → Type 0
IsUrl seq = any_mask (channel_of seq).1 ≡ false

-- Two sequences that lead to one node of one channel.
abbrev pub same_entry : List Bytes → List Bytes → Bool
same_entry s u =
    str_eq (channel_of s).0 (channel_of u).0 && same_seq (channel_of s).1 (channel_of u).1

pub any_mask-last : (seq : List Bytes) → is_mask (last_word seq) ≡ true → any_mask seq ≡ true
unfolding last_word is_mask
any_mask-last [] h = absurd (cc)
any_mask-last (w ∷ []) h = ground arith
any_mask-last (w ∷ v ∷ ws) h =
    let n : length (w ∷ v ∷ ws) - 1 ≡ suc (length (v ∷ ws) - 1) = omega arith in
    let same = ap (λ i. is_mask (get_or (w ∷ v ∷ ws) i [])) n in
    let ih = any_mask-last (v ∷ ws) (sym same ∙ h) in ground (arith, ih)

any_mask-same_seq : (s u : List Bytes) → same_seq s u ≡ true → any_mask s ≡ any_mask u
any_mask-same_seq [] [] h = refl
any_mask-same_seq [] (w ∷ u) h = absurd (cc)
any_mask-same_seq (v ∷ s) [] h = absurd (cc)
any_mask-same_seq (v ∷ s) (w ∷ u) h = ground (arith, (str_eq_iff v w).0, any_mask-same_seq s u)

channel_of-is_mask : (seq : List Bytes) → is_mask (channel_of seq).0 ≡ true
unfolding channel_of is_mask
channel_of-is_mask seq = ground arith

module _ (strcmp : Bytes → Bytes → Ordering) where
  -- No node stands behind a word with a wildcard.
  pub record IsPlain (j : Junction) : Type 0 where
    pub plain :
        (p : Bytes) (u : List Bytes) (g : ℕ)
        → any_mask u ≡ true
        → trie_find_exact strcmp (j.tries p) u g ≡ none

  -- The lookup in the one channel of a sequence.
  abbrev pub entry : Junction → Bytes × List Bytes → ℕ → Option ℕ
  entry j (p, words) g =
      if has_channel p (view j.byuse) then trie_find_exact strcmp (j.tries p) words g else none

  pub junction_find_exact-entry :
      (j : Junction) (u : List Bytes) (g : ℕ)
      → IsGood strcmp j
      → IsPlain j
      → IsUrl u
      → junction_find_exact strcmp j u g ≡ entry j (channel_of u) g
  unfolding junction_find_exact channel_of channels
  junction_find_exact-entry j u g good p url =
      elim (Bool-cases (ltb 1 (length u) && is_mask (last_word u))) [
        | inl e ↦
            let m = any_mask-last u (ground (arith, e)) in ground (arith, e, p.plain star u g m)
        | inr e ↦
            let m : any_mask u ≡ false = ground (arith, e, url) in
            ground (arith, e, any_mask-last u, good.masks (last_word u))
      ]

  module _ (c : IsStrcmp strcmp) (string_match : Bytes → Bytes → Bool)
      (b : Bsearch {A = Bytes} []) where
    -- The junction that JunctionAdd leaves.
    abbrev added : Junction → List Bytes → ℕ → ℕ → Option ℕ → Junction
    added j s d f k = (junction_add strcmp string_match b.search j s d f k).0

    added-IsGood :
        (j : Junction) (s : List Bytes) (d f : ℕ) (k : Option ℕ)
        → IsGood strcmp j
        → IsGood strcmp (added j s d f k)
    unfolding junction_add set_trie
    added-IsGood j s d f k good =
        let (filter, words) = channel_of s in
        let a = add_channel-IsAdded strcmp c string_match b j filter good (channel_of-is_mask s) in
        IsGood-indexes strcmp (add_channel strcmp string_match b.search j filter) (added j s d f k)
          refl refl a.good

    -- The channel that the addition uses shows what the junction had there.
    entry-IsAdded :
        (j k : Junction) (filter : Bytes) (u : List Bytes) (g : ℕ)
        → IsAdded strcmp j k filter
        → trie_find_exact strcmp (k.tries filter) u g ≡ entry j (filter, u) g
    entry-IsAdded j k filter u g a = elim (Bool-cases (has_channel filter (view j.byuse))) [
      | inl e ↦ rw e (ap (λ t. trie_find_exact strcmp t u g) (a.kept filter e))
      | inr e ↦
          rw e
            (ap (λ t. trie_find_exact strcmp t u g) (a.fresh e) ∙ trie_find_exact-init strcmp c u g)
    ]

    entry-other :
        (j k : Junction) (filter p : Bytes) (u : List Bytes) (g : ℕ)
        → IsAdded strcmp j k filter
        → str_eq p filter ≡ false
        → entry k (p, u) g ≡ entry j (p, u) g
    entry-other j k filter p u g a h =
        let m : has_channel p (view k.byuse) ≡ has_channel p (view j.byuse) =
          a.members p ∙ ap (λ t. t || has_channel p (view j.byuse)) h in
        elim (Bool-cases (has_channel p (view j.byuse))) [
          | inl e ↦ rw (m, e) (ap (λ t. trie_find_exact strcmp t u g) (a.kept p e))
          | inr e ↦ rw (m, e) refl
        ]

    -- The lookup in a channel after the addition.
    entry-added :
        (j : Junction) (s : List Bytes) (d f : ℕ) (k : Option ℕ) (p : Bytes) (u : List Bytes)
        (g : ℕ)
        → IsGood strcmp j
        → entry (added j s d f k) (p, u) g ≡ (
            if str_eq (channel_of s).0 p && same_seq (channel_of s).1 u && same_slot f g
            then some d
            else entry j (p, u) g)
    unfolding junction_add set_trie
    entry-added j s d f k p u g good =
        let (filter, words) = channel_of s in
        let a = add_channel-IsAdded strcmp c string_match b j filter good (channel_of-is_mask s) in
        let k' = add_channel strcmp string_match b.search j filter in
        let law = trie_find_exact-trie_add strcmp c (k'.tries filter) words d f k u g in
        elim (Bool-cases (str_eq p filter)) [
          | inl e ↦
              let same = (str_eq_iff p filter).0 e in
              let old = entry-IsAdded j k' filter u g a in
              ground (arith, a.members filter, str_eq_refl filter, law, old, same)
          | inr e ↦
              let old = entry-other j k' filter p u g a e in
              ground (arith, (str_eq_iff filter p).0, str_eq_refl p, old, e)
        ]

    same_seq-IsPlain :
        (t : Trie) (words u : List Bytes) (d f g : ℕ) (k : Option ℕ)
        → any_mask words ≡ false
        → any_mask u ≡ true
        → trie_find_exact strcmp t u g ≡ none
        → trie_find_exact strcmp (trie_add strcmp t words d f k).0 u g ≡ none
    same_seq-IsPlain t words u d f g k plain mask old =
        ground (
          arith,
          trie_find_exact-trie_add strcmp c t words d f k u g,
          any_mask-same_seq words u,
          old,
        )

    add_channel-IsPlain :
        (j : Junction) (filter : Bytes)
        → IsPlain j
        → IsPlain (add_channel strcmp string_match b.search j filter)
    unfolding add_channel set_trie
    add_channel-IsPlain j filter plain =
        elim (Option-cases (find [] b.search (strcmp filter) j.byname)) [
          | inr (f, e) ↦ rw (e, add_channel) plain
          | inl e ↦
              rw (e, add_channel)
                (record {
                  plain = λ p u g m. ground (
                    arith,
                    trie_find_exact-init strcmp c u g,
                    plain.plain p u g m,
                    Bool-cases (str_eq p filter),
                  );
                })
        ]

    added-IsPlain :
        (j : Junction) (s : List Bytes) (d f : ℕ) (k : Option ℕ)
        → IsUrl s
        → IsPlain j
        → IsPlain (added j s d f k)
    unfolding junction_add set_trie
    added-IsPlain j s d f k url plain =
        let (filter, words) = channel_of s in
        let a = add_channel-IsPlain j filter plain in
        let k' = add_channel strcmp string_match b.search j filter in
        record {
          plain = λ p u g m.
              let other = a.plain p u g m in
              let same =
                same_seq-IsPlain (k'.tries filter) words u d f g k url m (a.plain filter u g m) in
              ground (arith, other, same, Bool-cases (str_eq p filter));
        }

    -- After JunctionAdd an exact lookup finds the new value for the same entry and the same kind of
    -- data, and what it found before for all other URLs; the invariants stay.
    pub junction_find_exact-junction_add :
        (j : Junction) (s : List Bytes) (d f : ℕ) (k : Option ℕ)
        → IsGood strcmp j
        → IsPlain j
        → IsUrl s
        → IsGood strcmp (junction_add strcmp string_match b.search j s d f k).0
          × IsPlain (junction_add strcmp string_match b.search j s d f k).0
          × ((u : List Bytes) (g : ℕ)
              → IsUrl u
              → junction_find_exact strcmp
                  (junction_add strcmp string_match b.search j s d f k).0
                  u
                  g
                ≡ (if same_entry s u && same_slot f g
                    then some d
                    else junction_find_exact strcmp j u g))
    junction_find_exact-junction_add j s d f k good plain url =
        let after = added j s d f k in
        let good' = added-IsGood j s d f k good in
        let plain' = added-IsPlain j s d f k url plain in
        (
          good',
          plain',
          λ u g h.
              junction_find_exact-entry after u g good' plain' h
              ∙ entry-added j s d f k (channel_of u).0 (channel_of u).1 g good
              ∙ ground (arith, junction_find_exact-entry j u g good plain h),
        )
