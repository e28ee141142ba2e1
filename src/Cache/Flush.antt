-- ===== src/Cache/Flush.antt =====
-- nsd/cache.c: Ns_CacheFlush takes away the entries that have a value, and leaves the others.
use anansi.Common.{
  ℕ, zero, suc, ◌+◌, ◌≤◌, ◌≡◌, ◌≢◌, inl, inr, refl, sym, ap, subst, ◌∙◌, true, false, none, some,
  List, [], ◌∷◌, arith, length, Bool-cases, Option-cases,
}
use anansi.Time.{Time}
use anansi.Cache.{Entry, Cache, expired, delete_entry, add_expired, next_entry, flush_from, flush}
use anansi.Cache.Chain.{Misses, IsDistinct}
use anansi.Cache.Lists.{has, without, has-without}
use anansi.Cache.Books.{IsValid, delete_entry-IsValid}
use anansi.Cache.Access.{Counted-IsValid}
use anansi.Cache.Prune.{delete_entry-other}

-- The entries of `xs` without those of `order` that have a value.
abbrev pub rest_of : (ℕ → Entry) → List ℕ → List ℕ → List ℕ
rest_of m [] xs = xs
rest_of m (e ∷ order) xs = elim (m e).value [
  | none ↦ rest_of m order xs
  | some v ↦ rest_of m order (without e xs)
]

-- All of `order` are entries of `xs`.
abbrev pub AllIn : List ℕ → List ℕ → Type 0
AllIn [] xs = Unit
AllIn (e ∷ order) xs = (has e xs ≡ true) × AllIn order xs

rest_of-same :
    (m n : ℕ → Entry) (e : ℕ) (order xs : List ℕ)
    → Misses (some e) order
    → ((x : ℕ) → e ≢ x → (n x).value ≡ (m x).value)
    → rest_of n order xs ≡ rest_of m order xs
rest_of-same m n e [] xs h f = refl
rest_of-same m n e (x ∷ order) xs (h, k) f =
    let p : (n x).value ≡ (m x).value = f x (λ q. h (ap some q)) in
    elim (Option-cases (m x).value) [
      | inl t ↦ ground (arith, rest_of-same m n e order xs k f)
      | inr (v, t) ↦ ground (arith, rest_of-same m n e order (without x xs) k f)
    ]

AllIn-without :
    (e : ℕ) (order xs : List ℕ)
    → Misses (some e) order
    → AllIn order xs
    → AllIn order (without e xs)
AllIn-without e [] xs h a = tt
AllIn-without e (x ∷ order) xs (h, k) (a, as') =
    let n : e ≢ x = λ p. h (ap some p) in
    (ground (arith, has-without e x xs), AllIn-without e order xs k as')

flush_from-skip :
    (fuel : ℕ) (c : Cache) (now : Time) (e : ℕ) (order : List ℕ) (n : ℕ)
    → (c.mem e).value ≡ none
    → flush_from (suc fuel) c now (e ∷ order) n ≡ flush_from (suc fuel) c now order n
unfolding flush_from next_entry
flush_from-skip fuel c now e order n h = ground arith

flush_from-expired :
    (fuel : ℕ) (c : Cache) (now : Time) (e : ℕ) (order : List ℕ) (n v : ℕ)
    → (c.mem e).value ≡ some v
    → expired (c.mem e) now ≡ true
    → flush_from (suc fuel) c now (e ∷ order) n
      ≡ flush_from (suc fuel) (delete_entry (add_expired c) e) now order n
unfolding flush_from next_entry
flush_from-expired fuel c now e order n v h x = ground arith

flush_from-take :
    (fuel : ℕ) (c : Cache) (now : Time) (e : ℕ) (order : List ℕ) (n v : ℕ)
    → (c.mem e).value ≡ some v
    → expired (c.mem e) now ≡ false
    → flush_from (suc fuel) c now (e ∷ order) n
      ≡ flush_from fuel (delete_entry c e) now order (n + 1)
unfolding flush_from next_entry
flush_from-take fuel c now e order n v h x = ground arith

flush_from_end : (fuel : ℕ) (c : Cache) (now : Time) (n : ℕ) → (flush_from fuel c now [] n).0 ≡ c
unfolding flush_from next_entry
flush_from_end zero c now n = refl
flush_from_end (suc fuel) c now n = refl

flush_from-IsValid :
    (fuel : ℕ) (c : Cache) (now : Time) (order : List ℕ) (n : ℕ) (xs : List ℕ)
    → length order ≤ fuel
    → IsDistinct order
    → AllIn order xs
    → IsValid c xs
    → IsValid (flush_from fuel c now order n).0 (rest_of c.mem order xs)
flush_from-IsValid fuel c now [] n xs b d a v =
    subst (λ y. IsValid y xs) (sym (flush_from_end fuel c now n)) v
flush_from-IsValid zero c now (e ∷ order) n xs b d a v = absurd (omega arith)
flush_from-IsValid (suc fuel) c now (e ∷ order) n xs b (m, d) (h, a) v =
    let a' = AllIn-without e order xs m a in
    let same =
      rest_of-same c.mem (delete_entry c e).mem e order (without e xs) m
        (λ x q. delete_entry-other c e x q) in
    elim (Option-cases (c.mem e).value) [
      | inl t ↦
          let r = flush_from-IsValid (suc fuel) c now order n xs (omega arith) d a v in
          let p : rest_of c.mem (e ∷ order) xs ≡ rest_of c.mem order xs = ground arith in
          subst (λ y. IsValid y.0 (rest_of c.mem (e ∷ order) xs))
            (sym (flush_from-skip fuel c now e order n t)) (subst (IsValid _) (sym p) r)
      | inr (w, t) ↦
          let p : rest_of c.mem (e ∷ order) xs ≡ rest_of c.mem order (without e xs) =
            ground arith in
          elim (Bool-cases (expired (c.mem e) now)) [
            | inl x ↦
                let b' = add_expired c in
                let u =
                  delete_entry-IsValid b' e xs h
                    (Counted-IsValid c b' xs refl refl refl refl refl refl v) in
                let same' =
                  rest_of-same c.mem (delete_entry b' e).mem e order (without e xs) m
                    (λ x q. delete_entry-other b' e x q) in
                let r =
                  flush_from-IsValid (suc fuel) (delete_entry b' e) now order n (without e xs)
                    (omega arith) d a' u in
                subst (λ y. IsValid y.0 (rest_of c.mem (e ∷ order) xs))
                  (sym (flush_from-expired fuel c now e order n w t x))
                  (subst (IsValid _) (same' ∙ sym p) r)
            | inr x ↦
                let u = delete_entry-IsValid c e xs h v in
                let r =
                  flush_from-IsValid fuel (delete_entry c e) now order (n + 1) (without e xs)
                    (omega arith) d a' u in
                subst (λ y. IsValid y.0 (rest_of c.mem (e ∷ order) xs))
                  (sym (flush_from-take fuel c now e order n w t x))
                  (subst (IsValid _) (same ∙ sym p) r)
          ]
    ]

-- A flush deletes the entries that have a value, in whichever order the search of the hash table gives
-- the entries, and leaves those without one, in their order; the list, the sizes and the hash table
-- still agree. A round for each entry is enough.
pub flush-IsValid :
    (fuel : ℕ) (c : Cache) (now : Time) (order xs : List ℕ)
    → length order ≤ fuel
    → IsDistinct order
    → AllIn order xs
    → IsValid c xs
    → IsValid (flush fuel c now order).0 (rest_of c.mem order xs)
unfolding flush
flush-IsValid fuel c now order xs b d a v =
    let k = (flush_from fuel c now order 0).0 in
    Counted-IsValid k (flush fuel c now order).0 (rest_of c.mem order xs) refl refl refl refl refl
      refl (flush_from-IsValid fuel c now order 0 xs b d a v)
