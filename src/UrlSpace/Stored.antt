-- ===== src/UrlSpace/Stored.antt =====
-- nsd/urlspace.c: what Ns_UrlSpecificGetExact finds after Ns_UrlSpecificSet, in any junction.
use Prim.Native.Nat.{Ordering}
use anansi.Common.{
  ℕ, ◌≡◌, inl, inr, refl, Bool, ◌&&◌, Option, none, some, [], ◌==◌, ==_iff, if◌then◌else◌, Bytes,
  Bool-cases, update,
}
use anansi.Index.Find.{Bsearch}
use anansi.UrlSpace.{mk_seq}
use anansi.UrlSpace.Exact.{IsStrcmp, same_slot, trie_find_exact-init}
use anansi.UrlSpace.Junction.{Junction, junction_init, junction_get, junction_add}
use anansi.UrlSpace.Channels.{IsGood, junction_init-IsGood}
use anansi.UrlSpace.Replace.{IsUrl, IsPlain, same_entry, junction_find_exact-junction_add}
use anansi.UrlSpace.Space.{url_specific_set, url_specific_get_exact}

module _ (strcmp : Bytes → Bytes → Ordering) (c : IsStrcmp strcmp) where
  -- All junctions keep their invariants.
  abbrev pub IsSpace : (ℕ → Option Junction) → Type 0
  IsSpace urlspace =
      (id : ℕ)
      → IsGood strcmp (junction_get urlspace id) × IsPlain strcmp (junction_get urlspace id)

  pub empty-IsSpace : IsSpace (λ id. none)
  unfolding junction_get junction_init
  empty-IsSpace id =
      (junction_init-IsGood strcmp, record { plain = λ p u g m. trie_find_exact-init strcmp c u g })

  junction_get-update :
      (urlspace : ℕ → Option Junction) (i : ℕ) (j : Junction) (k : ℕ)
      → junction_get (update urlspace i (some j)) k
        ≡ (if k == i then j else junction_get urlspace k)
  unfolding junction_get
  junction_get-update urlspace i j k = elim (Bool-cases (k == i)) [
    | inl e ↦ rw (e, junction_get) refl
    | inr e ↦ rw (e, junction_get) refl
  ]

  module _ (string_match : Bytes → Bytes → Bool) (b : Bsearch {A = Bytes} []) where
    -- After Ns_UrlSpecificSet with a URL that has wildcards in its last part at most, an exact lookup
    -- of such a URL finds the new value for the same id, the same entry and the same kind of data,
    -- and what it found before for all others; the invariants stay.
    pub url_specific_get_exact-url_specific_set :
        (urlspace : ℕ → Option Junction) (method url : Bytes) (id value flags : ℕ)
        (deletefunc : Option ℕ)
        → IsSpace urlspace
        → IsUrl (mk_seq method url)
        → IsSpace
            (url_specific_set strcmp string_match b.search urlspace method url id value flags
              deletefunc).0
          × ((m u : Bytes) (k g : ℕ)
              → IsUrl (mk_seq m u)
              → url_specific_get_exact strcmp string_match
                  (url_specific_set strcmp string_match b.search urlspace method url id value flags
                    deletefunc).0
                  m
                  u
                  k
                  g
                ≡ (if k == id && (same_entry (mk_seq method url) (mk_seq m u) && same_slot flags g)
                    then some value
                    else url_specific_get_exact strcmp string_match urlspace m u k g))
    unfolding url_specific_set url_specific_get_exact
    url_specific_get_exact-url_specific_set urlspace method url id value flags deletefunc space w =
        let s = mk_seq method url in
        let (good, plain) = space id in
        let (good', plain', law) =
          junction_find_exact-junction_add strcmp c string_match b (junction_get urlspace id) s
            value flags deletefunc good plain w in
        let j =
          (junction_add strcmp string_match b.search (junction_get urlspace id) s value flags
            deletefunc).0 in
        let get = junction_get-update urlspace id j in
        (
          λ k. rw (get k) (elim (Bool-cases (k == id)) [
            | inl e ↦ rw e (good', plain')
            | inr e ↦ rw e (space k)
          ]),
          λ m u k g h. rw (get k) (elim (Bool-cases (k == id)) [
            | inl e ↦ let same = (==_iff k id).0 e in rw (e, same) (law (mk_seq m u) g h)
            | inr e ↦ rw e refl
          ]),
        )
