-- ===== src/UrlSpace/Channels.antt =====
-- nsd/urlspace.c: the invariant of a junction, and what JunctionAdd makes of its channels.
use Prim.Native.Nat.{Ordering, eq}
use anansi.Common.{
  ℕ, zero, suc, ◌<◌, ◌≡◌, ◌≢◌, inl, inr, refl, sym, ap, subst, ◌∙◌, Bool, true, false, ◌||◌, List,
  [], ◌∷◌, arith, Bytes, length, get_or, insert_at, str_eq, str_eq_iff, str_eq_refl,
}
use anansi.Index.{init, add}
use anansi.Index.Order.{
  IsValid, IsSorted, view, IsSorted-IsMonotone, view-add, view-add_any, add-IsSorted, init-IsValid,
}
use anansi.Index.Find.{Bsearch}
use anansi.Index.Member.{find-cases}
use anansi.UrlSpace.{trie_init}
use anansi.UrlSpace.Exact.{IsStrcmp, strcmp_refl}
use anansi.UrlSpace.Junction.{
  Junction, junction_init, set_trie, is_mask, cmp_channels, add_channel, has_channel,
}

-- No filter twice.
abbrev pub AllOnce : List Bytes → Type 0
AllOnce [] = Unit
AllOnce (f ∷ fs) = (has_channel f fs ≡ false) × AllOnce fs

has_channel-insert_at :
    (p : Bytes) (r : ℕ) (f : Bytes) (fs : List Bytes)
    → has_channel p (insert_at r f fs) ≡ (str_eq p f || has_channel p fs)
unfolding has_channel
has_channel-insert_at p zero f fs = ground arith
has_channel-insert_at p (suc r) f [] = ground arith
has_channel-insert_at p (suc r) f (g ∷ fs) = ground (arith, has_channel-insert_at p r f fs)

str_eq_sym : (a b : Bytes) → str_eq a b ≡ str_eq b a
str_eq_sym a b = ground (arith, str_eq_iff a b, str_eq_iff b a)

insert_at-AllOnce :
    (r : ℕ) (f : Bytes) (fs : List Bytes)
    → has_channel f fs ≡ false
    → AllOnce fs
    → AllOnce (insert_at r f fs)
unfolding has_channel
insert_at-AllOnce zero f fs h a = (h, a)
insert_at-AllOnce (suc r) f [] h a = (h, tt)
insert_at-AllOnce (suc r) f (g ∷ fs) h (k, a) = (
  ground (arith, has_channel-insert_at g r f fs, str_eq_sym f g),
  insert_at-AllOnce r f fs (ground arith) a,
)

has_channel-get_or :
    (fs : List Bytes) (i : ℕ) → i < length fs → has_channel (get_or fs i []) fs ≡ true
unfolding has_channel
has_channel-get_or [] i h = absurd (omega arith)
has_channel-get_or (f ∷ fs) zero h = ground (arith, str_eq_refl f)
has_channel-get_or (f ∷ fs) (suc i) h = ground (arith, has_channel-get_or fs i (omega arith))

has_channel-false :
    (p : Bytes) (fs : List Bytes)
    → ((i : ℕ) → i < length fs → get_or fs i [] ≢ p)
    → has_channel p fs ≡ false
unfolding has_channel
has_channel-false p [] h = refl
has_channel-false p (f ∷ fs) h =
    let rest = has_channel-false p fs (λ i l. h (suc i) (omega arith)) in
    ground (arith, (str_eq_iff p f).0, h 0 (omega arith), rest)

-- The invariant of a junction: both indexes hold the same filters, each once, the index by name in
-- order; every filter has a wildcard.
pub record IsGood (strcmp : Bytes → Bytes → Ordering) (j : Junction) : Type 0 where
  pub name_valid : IsValid j.byname
  pub name_sorted : IsSorted [] strcmp (view j.byname)
  pub use_valid : IsValid j.byuse
  pub once : AllOnce (view j.byuse)
  pub both : (p : Bytes) → has_channel p (view j.byuse) ≡ has_channel p (view j.byname)
  pub masks : (p : Bytes) → has_channel p (view j.byuse) ≡ true → is_mask p ≡ true

-- The junction that JunctionGet makes is good.
pub junction_init-IsGood : (strcmp : Bytes → Bytes → Ordering) → IsGood strcmp junction_init
unfolding junction_init has_channel init
junction_init-IsGood strcmp =
    let (v, e) = init-IsValid [] 5 (omega arith) in
    record {
      name_valid = v;
      name_sorted = subst (IsSorted [] strcmp) (sym e) (λ i j h l. absurd (omega arith));
      use_valid = v;
      once = subst AllOnce (sym e) tt;
      both = λ p. refl;
      masks = λ p h. absurd (let k : false ≡ true = h in cc);
    }

-- Only the indexes matter to it.
pub IsGood-indexes :
    (strcmp : Bytes → Bytes → Ordering) (j k : Junction)
    → k.byuse ≡ j.byuse
    → k.byname ≡ j.byname
    → IsGood strcmp j
    → IsGood strcmp k
IsGood-indexes strcmp j k by_use by_name good = record {
  name_valid = subst IsValid (sym by_name) good.name_valid;
  name_sorted = subst (λ x. IsSorted [] strcmp (view x)) (sym by_name) good.name_sorted;
  use_valid = subst IsValid (sym by_use) good.use_valid;
  once = subst (λ x. AllOnce (view x)) (sym by_use) good.once;
  both = λ p. rw (by_use, by_name) (good.both p);
  masks = λ p h. good.masks p (rw by_use at h);
}

-- What JunctionAdd has made of the channels when it reaches TrieAdd.
pub record IsAdded (strcmp : Bytes → Bytes → Ordering) (j k : Junction) (filter : Bytes)
    : Type 0 where
  pub good : IsGood strcmp k
  pub members :
      (p : Bytes) → has_channel p (view k.byuse) ≡ (str_eq p filter || has_channel p (view j.byuse))
  pub fresh : has_channel filter (view j.byuse) ≡ false → k.tries filter ≡ trie_init
  pub kept : (p : Bytes) → has_channel p (view j.byuse) ≡ true → k.tries p ≡ j.tries p

module _ (strcmp : Bytes → Bytes → Ordering) (c : IsStrcmp strcmp)
    (string_match : Bytes → Bytes → Bool) (b : Bsearch {A = Bytes} []) where
  add_channel-old :
      (j : Junction) (filter : Bytes)
      → IsGood strcmp j
      → has_channel filter (view j.byuse) ≡ true
      → IsAdded strcmp j j filter
  add_channel-old j filter g h = record {
    good = g;
    members = λ p. ground (arith, (str_eq_iff p filter).0);
    fresh = λ n. absurd (cc);
    kept = λ p m. refl;
  }

  add_channel-new :
      (j : Junction) (filter : Bytes)
      → IsGood strcmp j
      → is_mask filter ≡ true
      → has_channel filter (view j.byuse) ≡ false
      → IsAdded strcmp j
          (record (set_trie j filter trie_init) {
            byuse = add [] (cmp_channels string_match) j.byuse filter;
            byname = add [] strcmp j.byname filter;
          })
          filter
  unfolding set_trie
  add_channel-new j filter g m h =
      let (r, w, v) = view-add_any [] (cmp_channels string_match) j.byuse filter g.use_valid in
      let (q, x, f, y) = view-add [] strcmp c.order j.byname filter g.name_valid g.name_sorted in
      let (s, p, z) = add-IsSorted [] strcmp c.order j.byname filter g.name_valid g.name_sorted in
      let members : (p : Bytes)
          → has_channel p (view (add [] (cmp_channels string_match) j.byuse filter))
            ≡ (str_eq p filter || has_channel p (view j.byuse)) =
        λ p. rw w (has_channel-insert_at p r filter (view j.byuse)) in
      record {
        good = record {
          name_valid = y;
          name_sorted = s;
          use_valid = v;
          once = subst AllOnce (sym w) (insert_at-AllOnce r filter (view j.byuse) h g.once);
          both = λ p.
              members p
              ∙ ap (λ t. str_eq p filter || t) (g.both p)
              ∙ sym (rw x (has_channel-insert_at p q filter (view j.byname)));
          masks = λ p k. ground (arith, members p, (str_eq_iff p filter).0, g.masks p);
        };
        members = members;
        fresh = λ n. ground (arith, str_eq_refl filter);
        kept = λ p k. ground (arith, (str_eq_iff p filter).0);
      }

  pub add_channel-IsAdded :
      (j : Junction) (filter : Bytes)
      → IsGood strcmp j
      → is_mask filter ≡ true
      → IsAdded strcmp j (add_channel strcmp string_match b.search j filter) filter
  unfolding add_channel
  add_channel-IsAdded j filter g m =
      let o = IsSorted-IsMonotone [] strcmp c.order j.byname filter g.name_valid g.name_sorted in
      elim (find-cases [] (strcmp filter) j.byname g.name_valid b o) [
        | inl (i, l, e, h) ↦
            let same = c.equal filter (get_or (view j.byname) i []) e in
            let k : has_channel filter (view j.byuse) ≡ true =
              g.both filter
              ∙ subst (λ f. has_channel f (view j.byname) ≡ true) (sym same)
                  (has_channel-get_or (view j.byname) i l) in
            rw (h, add_channel) (add_channel-old j filter g k)
        | inr (h, n) ↦
            let k : has_channel filter (view j.byuse) ≡ false =
              g.both filter
              ∙ has_channel-false filter (view j.byname) (λ i l e.
                n i l (subst (λ f. strcmp filter f ≡ eq) (sym e) (strcmp_refl strcmp c filter))) in
            rw (h, add_channel) (add_channel-new j filter g m k)
      ]
