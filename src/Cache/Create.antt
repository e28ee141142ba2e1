-- ===== src/Cache/Create.antt =====
-- nsd/cache.c: what a creation does to the list of the entries, and that a new entry keeps the sizes, the
-- hash table and the list in agreement.
use anansi.Common.{
  ℕ, ◌≡◌, ◌≢◌, inl, inr, refl, sym, ap, ◌∙◌, Bool, true, false, none, some, List, [], ◌∷◌, arith,
  ◌==◌, update, Bool-cases, Option-cases, Bytes, str_eq, str_eq_iff, str_eq_refl,
}
use anansi.Time.{Time}
use anansi.Cache.{
  Entry, Cache, create_sz, expired, push, unset_value, create_entry, new_entry, add_hit, add_miss,
  add_use, add_expired,
}
use anansi.Cache.Chain.{Misses, SameLinks}
use anansi.Cache.Lists.{has, without, has-Misses, push-IsLinked, Same-IsLinked}
use anansi.Cache.Books.{
  IsFilled, IsValid, SameData-IsFilled, push-SameData, SameData-trans, unset_value-IsValid,
  total-update_missing,
}
use anansi.Cache.Access.{Counted-IsValid, SameData-stats, add_use-IsValid, refresh-IsValid}

missing_same :
    (m : ℕ → Entry) (a : ℕ) (v : Entry) (xs : List ℕ)
    → Misses (some a) xs
    → SameLinks m (update m a v) xs
missing_same m a v [] h = tt
missing_same m a v (x ∷ xs) (h, k) =
    let n : a ≢ x = λ p. h (ap some p) in (ground arith, ground arith, missing_same m a v xs k)

fresh-missing : (c : Cache) (xs : List ℕ) → IsFilled c xs → has c.next_addr xs ≡ false
fresh-missing c xs f = elim (Bool-cases (has c.next_addr xs)) [
  | inl t ↦ absurd (omega (arith, f.fresh c.next_addr t))
  | inr t ↦ t
]

new_entry-keyed :
    (c : Cache) (key : Bytes) (x : ℕ)
    → c.table key ≡ none
    → (c.next_addr ≢ x → c.table (c.mem x).key ≡ some x)
    → (new_entry c key).table ((new_entry c key).mem x).key ≡ some x
new_entry-keyed c key x t f = elim (Bool-cases (x == c.next_addr)) [
  | inl h ↦ let p : c.next_addr ≡ x = ground arith in ground (arith, str_eq_refl key)
  | inr h ↦
      let ne : c.next_addr ≢ x = λ p. ground arith in
      let q = f ne in
      let n : str_eq (c.mem x).key key ≡ false = elim (Bool-cases (str_eq (c.mem x).key key)) [
        | inl e ↦
            let r = (str_eq_iff (c.mem x).key key).0 e in
            let z : none ≡ some x = sym t ∙ ap c.table (sym r) ∙ q in absurd cc
        | inr e ↦ e
      ] in
      ground arith
]

new_entry-IsFilled :
    (c : Cache) (key : Bytes) (xs : List ℕ)
    → c.table key ≡ none
    → IsFilled c xs
    → IsFilled (new_entry c key) (c.next_addr ∷ xs)
new_entry-IsFilled c key xs t f = record {
  sizes = ground (
    arith,
    f.sizes,
    total-update_missing c.mem c.next_addr ((new_entry c key).mem c.next_addr) xs
        (fresh-missing c xs f),
  );
  unsized = λ x k q. ground (arith, f.unsized x);
  keyed = λ x k. new_entry-keyed c key x t (λ h. f.keyed x (ground arith));
  listed = λ k x q. elim (Bool-cases (str_eq k key)) [
    | inl h ↦ let p : key ≡ k = sym ((str_eq_iff k key).0 h) in ground arith
    | inr h ↦
        let q' : c.table k ≡ some x = ground arith in
        let (a, b) = f.listed k x q' in ground (arith, fresh-missing c xs f)
  ];
  fresh = λ x k. ground (arith, f.fresh x);
}

new-IsValid :
    (c : Cache) (key : Bytes) (xs : List ℕ)
    → c.table key ≡ none
    → IsValid c xs
    → IsValid (push (add_miss (new_entry c key)) c.next_addr) (c.next_addr ∷ xs)
new-IsValid c key xs t v =
    let a = c.next_addr in
    let d = add_miss (new_entry c key) in
    let m = has-Misses a xs (fresh-missing c xs v.filled) in
    let f = new_entry-IsFilled c key xs t v.filled in
    record {
      linked =
          push-IsLinked d a xs m
            (Same-IsLinked c d xs (missing_same c.mem a _ xs m) refl refl v.linked);
      filled =
          SameData-IsFilled (new_entry c key) (push d a) (a ∷ xs) (a ∷ xs)
            (SameData-trans (new_entry c key) d (push d a)
              (SameData-stats (new_entry c key) d refl refl refl refl) (push-SameData d a))
            (λ x. refl) refl f;
    }

-- The list after a creation: the entry is in front.
abbrev pub created_list : Cache → Bytes → List ℕ → List ℕ
created_list c key xs = elim (c.table key) [ none ↦ c.next_addr ∷ xs | some e ↦ e ∷ without e xs ]

-- The entry that a creation gives, and whether it is new.
abbrev pub created : Cache → Bytes → ℕ
created c key = elim (c.table key) [ none ↦ c.next_addr | some e ↦ e ]

abbrev pub is_new : Cache → Bytes → Time → Bool
is_new c key now = elim (c.table key) [ none ↦ true | some e ↦ expired (c.mem e) now ]

-- A creation gives the entry of the key, a new one where there is none, and puts it in front of the
-- others, whose order stays; it is reported as new when it was made or had expired. The list, the
-- sizes and the hash table agree afterwards when they did before.
pub create_entry-IsValid :
    (c : Cache) (key : Bytes) (now : Time) (xs : List ℕ)
    → IsValid c xs
    → IsValid (create_entry c key now).0 (created_list c key xs)
      × ((create_entry c key now).1 ≡ created c key)
      × ((create_entry c key now).2 ≡ is_new c key now)
unfolding create_entry
create_entry-IsValid c key now xs v = elim (Option-cases (c.table key)) [
  | inl t ↦
      rw (create_entry, created_list, created, is_new, t) (new-IsValid c key xs t v, refl, refl)
  | inr (e, t) ↦
      let h = (v.filled.listed key e t).0 in
      elim (Bool-cases (expired (c.mem e) now)) [
        | inl f ↦
            rw (create_entry, created_list, created, is_new, t, f)
              (
                refresh-IsValid (unset_value (add_expired c) e) e xs h (
                    unset_value-IsValid (add_expired c) e xs h
                      (Counted-IsValid c (add_expired c) xs refl refl refl refl refl refl v)),
                refl,
                refl,
              )
        | inr f ↦
            rw (create_entry, created_list, created, is_new, t, f)
              (
                refresh-IsValid (add_hit (add_use c e)) e xs h (
                    Counted-IsValid (add_use c e) (add_hit (add_use c e)) xs refl refl refl refl
                      refl refl (add_use-IsValid c e xs v)),
                refl,
                refl,
              )
      ]
]

-- An empty cache.
pub create_sz-IsValid :
    (mem : ℕ → Entry) (max_size : ℕ) (has_free : Bool)
    → IsValid (create_sz mem max_size has_free) []
unfolding create_sz
create_sz-IsValid mem max_size has_free = record {
  linked = ((refl, refl), tt);
  filled = record {
    sizes = refl;
    unsized = λ x k q. absurd (ground arith);
    keyed = λ x k. absurd (ground arith);
    listed = λ k x q. absurd cc;
    fresh = λ x k. absurd (ground arith);
  };
}
