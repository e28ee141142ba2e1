-- ===== src/UrlSpace/Remove.antt =====
-- nsd/urlspace.c: JunctionDeleteNode of a URL without wildcards.
use Prim.Native.Nat.{Ordering}
use anansi.Common.{
  ℕ, ◌-◌, ◌≡◌, inl, inr, refl, sym, ap, ◌∙◌, Bool, true, false, ◌&&◌, Option, none, some, List, [],
  ◌∷◌, arith, ◌==◌, if◌then◌else◌, Bytes, length, str_eq, str_eq_iff, str_eq_refl, Bool-cases,
  Option-cases,
}
use anansi.Index.Order.{view}
use anansi.UrlSpace.{
  Call, Trie, trie, slot_of, node_exact, find_branch, trie_find_exact, trie_delete,
}
use anansi.UrlSpace.Exact.{IsStrcmp, same_slot, same_seq, trie_find_exact-trie_delete}
use anansi.UrlSpace.Junction.{
  Junction, set_trie, channels, channel_of, has_channel, star, last_word, junction_find_exact,
}
use anansi.UrlSpace.Channels.{IsGood, IsGood-indexes}
use anansi.UrlSpace.Replace.{
  IsUrl, IsPlain, any_mask, any_mask-last, entry, same_entry, junction_find_exact-entry,
}
use anansi.UrlSpace.Space.{wipe, delete_in, delete_from, junction_delete_node}

and_false : (a : Bool) {b : Bool} → b ≡ false → (a && b) ≡ false
and_false true h = h
and_false false h = refl

module _ (strcmp : Bytes → Bytes → Ordering) (string_match : Bytes → Bytes → Bool) where
  -- What a deletion of a sequence in the channel "*" does.
  abbrev in_star : Junction → List Bytes → ℕ → Junction × Option ℕ × List Call
  in_star j seq flags = delete_in strcmp string_match j star seq flags (j, none, [])

  in_star-twice :
      (j : Junction) (seq : List Bytes) (flags : ℕ)
      → delete_in strcmp string_match j star seq flags (in_star j seq flags) ≡ in_star j seq flags
  unfolding delete_in
  in_star-twice j seq flags =
      ground (arith, Option-cases (trie_find_exact strcmp (j.tries star) seq flags))

  delete_from-cons :
      (j : Junction) (depth flags : ℕ) (f : Bytes) (fs : List Bytes) (seq : List Bytes) (p : Bytes)
      → str_eq p f ≡ false
      → delete_from strcmp string_match j depth flags (f ∷ fs) seq p ≡ (
          if string_match p f
          then delete_in strcmp string_match j f seq flags
              (delete_from strcmp string_match j depth flags fs seq p)
          else delete_from strcmp string_match j depth flags fs seq p)
  unfolding delete_from
  delete_from-cons j depth flags f fs seq p h =
      ap
        (λ t.
          if t
          then delete_in strcmp string_match j f (wipe p seq) flags
              (delete_from strcmp string_match j depth flags fs (wipe p seq) [])
          else if string_match p f
          then delete_in strcmp string_match j f seq flags
              (delete_from strcmp string_match j depth flags fs seq p)
          else delete_from strcmp string_match j depth flags fs seq p)
        (and_false (depth == 2) h)

  -- Where the last word is none of the filters and only "*" fits it, the loop looks there alone.
  delete_from-star :
      (j : Junction) (depth flags : ℕ) (fs : List Bytes) (seq : List Bytes) (p : Bytes)
      → ((f : Bytes)
          → has_channel f fs ≡ true
          → (str_eq p f ≡ false) × (string_match p f ≡ str_eq star f))
      → delete_from strcmp string_match j depth flags fs seq p
        ≡ (if has_channel star fs then in_star j seq flags else (j, none, []))
  unfolding delete_from has_channel
  delete_from-star j depth flags [] seq p h = refl
  delete_from-star j depth flags (f ∷ fs) seq p h =
      let (ne, fit) = h f (ground (arith, str_eq_refl f)) in
      let ih = delete_from-star j depth flags fs seq p (λ q k. h q (ground (arith, k))) in
      elim (Bool-cases (str_eq star f)) [
        | inl e ↦
            let same = (str_eq_iff star f).0 e in
            let rest = delete_from strcmp string_match j depth flags fs seq p in
            delete_from-cons j depth flags f fs seq p ne
            ∙ rw (fit, e) (ap (λ g. delete_in strcmp string_match j g seq flags rest) (sym same))
            ∙ ap (delete_in strcmp string_match j star seq flags) ih
            ∙ (elim (Bool-cases (has_channel star fs)) [
              | inl k ↦ rw (k, e) (in_star-twice j seq flags)
              | inr k ↦ rw (k, e) refl
            ])
        | inr e ↦ delete_from-cons j depth flags f fs seq p ne ∙ rw (fit, e) ih
      ]

  in_star-none :
      (j : Junction) (seq : List Bytes) (flags : ℕ)
      → trie_find_exact strcmp (j.tries star) seq flags ≡ none
      → in_star j seq flags ≡ (j, none, [])
  unfolding delete_in
  in_star-none j seq flags e = ground (arith, e)

  in_star-some :
      (j : Junction) (seq : List Bytes) (flags d : ℕ)
      → trie_find_exact strcmp (j.tries star) seq flags ≡ some d
      → in_star j seq flags ≡ (
          let (t, value, calls) = trie_delete strcmp (j.tries star) seq flags in
          (set_trie j star t, some d, calls))
  unfolding delete_in
  in_star-some j seq flags d e = ground (arith, e)

  trie_find_exact-same :
      (t : Trie) (s u : List Bytes) (f g : ℕ)
      → same_seq s u ≡ true
      → same_slot f g ≡ true
      → trie_find_exact strcmp t s f ≡ trie_find_exact strcmp t u g
  unfolding trie_find_exact node_exact slot_of
  trie_find_exact-same (trie none bs) [] [] f g h k = refl
  trie_find_exact-same (trie (some n) bs) [] [] f g h k = ground arith
  trie_find_exact-same t [] (w ∷ u) f g h k = absurd (cc)
  trie_find_exact-same t (v ∷ s) [] f g h k = absurd (cc)
  trie_find_exact-same (trie n bs) (v ∷ s) (w ∷ u) f g h k =
      elim (Option-cases (find_branch strcmp v bs)) [
        | inl e ↦ ground (arith, (str_eq_iff v w).0)
        | inr (t, e) ↦
            let ih = trie_find_exact-same t s u f g in ground (arith, (str_eq_iff v w).0, ih)
      ]

  deleted-entry :
      (c : IsStrcmp strcmp) (j : Junction) (seq : List Bytes) (flags : ℕ) (p : Bytes)
      (u : List Bytes) (g : ℕ)
      → trie_find_exact strcmp
          ((set_trie j star (trie_delete strcmp (j.tries star) seq flags).0).tries p)
          u
          g
        ≡ (if str_eq star p && same_seq seq u && same_slot flags g
            then none
            else trie_find_exact strcmp (j.tries p) u g)
  unfolding set_trie
  deleted-entry c j seq flags p u g =
      let law = trie_find_exact-trie_delete strcmp c (j.tries star) seq flags u g in
      elim (Bool-cases (str_eq p star)) [
        | inl e ↦ let same = (str_eq_iff p star).0 e in ground (arith, law, same, str_eq_refl star)
        | inr e ↦ ground (arith, e, (str_eq_iff star p).0, str_eq_refl p)
      ]

  -- What a deletion in the channel "*" leaves.
  record IsDeleted (j k : Junction) (seq : List Bytes) (flags : ℕ) (value : Option ℕ) : Type 0 where
    pub use_same : k.byuse ≡ j.byuse
    pub name_same : k.byname ≡ j.byname
    pub returned : value ≡ trie_find_exact strcmp (j.tries star) seq flags
    pub left :
        (p : Bytes) (u : List Bytes) (g : ℕ)
        → trie_find_exact strcmp (k.tries p) u g ≡ (
            if str_eq star p && same_seq seq u && same_slot flags g
            then none
            else trie_find_exact strcmp (j.tries p) u g)

  in_star-IsDeleted :
      (c : IsStrcmp strcmp) (j : Junction) (seq : List Bytes) (flags : ℕ)
      → IsDeleted j (in_star j seq flags).0 seq flags (in_star j seq flags).1
  unfolding set_trie
  in_star-IsDeleted c j seq flags =
      elim (Option-cases (trie_find_exact strcmp (j.tries star) seq flags)) [
        | inl e ↦ rw (in_star-none j seq flags e) (record {
          use_same = refl;
          name_same = refl;
          returned = sym e;
          left = λ p u g.
              ground (
                arith,
                trie_find_exact-same (j.tries star) seq u flags g,
                (str_eq_iff star p).0,
                e,
              );
        })
        | inr (d, e) ↦ rw (in_star-some j seq flags d e) (record {
          use_same = refl;
          name_same = refl;
          returned = sym e;
          left = deleted-entry c j seq flags;
        })
      ]

  module _ (c : IsStrcmp strcmp) (j : Junction) (good : IsGood strcmp j) (plain : IsPlain strcmp j)
      (seq : List Bytes) (flags : ℕ) (url : any_mask seq ≡ false) where
    channel_of-plain : channel_of seq ≡ (star, seq)
    unfolding channel_of
    channel_of-plain = ground (arith, any_mask-last seq)

    find_exact-star : junction_find_exact strcmp j seq flags ≡ entry strcmp j (star, seq) flags
    find_exact-star =
        junction_find_exact-entry strcmp j seq flags good plain (rw channel_of-plain url)
        ∙ ap (λ r. entry strcmp j r flags) channel_of-plain

    -- The loop looks in the channel "*" alone.
    delete_node-star :
        ((f : Bytes)
          → has_channel f (view j.byuse) ≡ true
          → string_match (last_word seq) f ≡ str_eq star f)
        → junction_delete_node strcmp string_match j seq flags
          ≡ (if has_channel star (view j.byuse) then in_star j seq flags else (j, none, []))
    unfolding junction_delete_node channels
    delete_node-star fit =
        delete_from-star j (length seq - 1) flags (view j.byuse) seq (last_word seq) (λ f h. (
          ground (arith, good.masks f h, (str_eq_iff (last_word seq) f).0, any_mask-last seq),
          fit f h,
        ))

    -- Without the channel "*" nothing is there to delete.
    unchanged :
        has_channel star (view j.byuse) ≡ false
        → (u : List Bytes) (g : ℕ) → IsUrl u
        → junction_find_exact strcmp j u g ≡ (
            if same_entry seq u && same_slot flags g
            then none
            else junction_find_exact strcmp j u g)
    unchanged e u g h =
        let (p, words) = channel_of u in
        rw channel_of-plain (
          ground
            (arith, junction_find_exact-entry strcmp j u g good plain h, (str_eq_iff star p).0, e))

    module _ (k : Junction) (value : Option ℕ) (d : IsDeleted j k seq flags value) where
      deleted-IsGood : IsGood strcmp k
      deleted-IsGood = IsGood-indexes strcmp j k d.use_same d.name_same good

      deleted-IsPlain : IsPlain strcmp k
      deleted-IsPlain = record {
        plain = λ p u g m. ground (arith, d.left p u g, plain.plain p u g m);
      }

      deleted-other :
          (u : List Bytes) (g : ℕ)
          → IsUrl u
          → junction_find_exact strcmp k u g ≡ (
              if same_entry seq u && same_slot flags g
              then none
              else junction_find_exact strcmp j u g)
      deleted-other u g h =
          let (p, words) = channel_of u in
          junction_find_exact-entry strcmp k u g deleted-IsGood deleted-IsPlain h
          ∙ rw (d.use_same, channel_of-plain)
              (ground
                (arith, junction_find_exact-entry strcmp j u g good plain h, d.left p words g))

    -- A URL without wildcards whose last part fits no filter but "*": JunctionDeleteNode returns what
    -- an exact lookup finds; after it an exact lookup finds nothing for the same entry and the same
    -- kind of data, and what it found before for all others; the invariants stay.
    pub junction_find_exact-junction_delete_node :
        ((f : Bytes)
          → has_channel f (view j.byuse) ≡ true
          → string_match (last_word seq) f ≡ str_eq star f)
        → let (k, value, calls) = junction_delete_node strcmp string_match j seq flags in
          (value ≡ junction_find_exact strcmp j seq flags)
          × IsGood strcmp k
          × IsPlain strcmp k
          × ((u : List Bytes) (g : ℕ)
              → IsUrl u
              → junction_find_exact strcmp k u g ≡ (
                  if same_entry seq u && same_slot flags g
                  then none
                  else junction_find_exact strcmp j u g))
    junction_find_exact-junction_delete_node fit =
        elim (Bool-cases (has_channel star (view j.byuse))) [
          | inl e ↦
              let d = in_star-IsDeleted c j seq flags in
              let k = (in_star j seq flags).0 in
              let v = (in_star j seq flags).1 in
              rw (delete_node-star fit, e)
                (
                  d.returned ∙ sym (find_exact-star ∙ rw e refl),
                  deleted-IsGood k v d,
                  deleted-IsPlain k v d,
                  deleted-other k v d,
                )
          | inr e ↦
              rw (delete_node-star fit, e)
                (sym (find_exact-star ∙ rw e refl), good, plain, λ u g h. unchanged e u g h)
        ]
