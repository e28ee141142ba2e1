-- ===== src/Cache/Access.antt =====
-- nsd/cache.c: what a search does to the list of the entries, and that they
-- keep the sizes, the hash table and the list in agreement.
use anansi.Common.{
  ℕ, ◌≡◌, inl, inr, refl, ap, true, Option, none, some, List, ◌∷◌, arith, ◌==◌, if◌then◌else◌,
  Bool-cases, Option-cases, Bytes,
}
use anansi.Time.{Time}
use anansi.Cache.{
  Cache, expired, push, delink, delete_entry, find_entry, add_hit, add_miss, add_use,
}
use anansi.Cache.Chain.{Misses}
use anansi.Cache.Lists.{
  has, without, IsLinked, has-without, delink-IsLinked, push-IsLinked, Same-IsLinked, all_same,
}
use anansi.Cache.Books.{
  IsValid, SameData, SameData-IsFilled, push-SameData, delink-SameData, SameData-trans,
  total-without, delete_entry-IsValid,
}

pub SameData-stats :
    (c d : Cache)
    → d.mem ≡ c.mem
    → d.current_size ≡ c.current_size
    → d.table ≡ c.table
    → d.next_addr ≡ c.next_addr
    → SameData c d
SameData-stats c d m z t a = record {
  same_key = λ x. ap (λ n. (n x).key) m;
  same_size = λ x. ap (λ n. (n x).size) m;
  same_value = λ x. ap (λ n. (n x).value) m;
  same_expires = λ x. ap (λ n. (n x).expires) m;
  same_current = z;
  same_table = λ k. ap (λ n. n k) t;
  same_addr = a;
}

add_use-SameData : (c : Cache) (e : ℕ) → SameData c (add_use c e)
add_use-SameData c e = record {
  same_key = λ x. ground arith;
  same_size = λ x. ground arith;
  same_value = λ x. ground arith;
  same_expires = λ x. ground arith;
  same_current = refl;
  same_table = λ k. refl;
  same_addr = refl;
}

-- A change of the counters.
pub Counted-IsValid :
    (c d : Cache) (xs : List ℕ)
    → d.mem ≡ c.mem
    → d.first ≡ c.first
    → d.last ≡ c.last
    → d.current_size ≡ c.current_size
    → d.table ≡ c.table
    → d.next_addr ≡ c.next_addr
    → IsValid c xs
    → IsValid d xs
Counted-IsValid c d xs m f l z t a v = record {
  linked =
      Same-IsLinked c d xs
        (all_same c.mem d.mem xs (λ x. (ap (λ n. (n x).prev) m, ap (λ n. (n x).next) m))) f l
        v.linked;
  filled = SameData-IsFilled c d xs xs (SameData-stats c d m z t a) (λ x. refl) refl v.filled;
}

pub add_use-IsValid : (c : Cache) (e : ℕ) (xs : List ℕ) → IsValid c xs → IsValid (add_use c e) xs
add_use-IsValid c e xs v = record {
  linked =
      Same-IsLinked c (add_use c e) xs (all_same c.mem (add_use c e).mem xs (λ x. ground arith))
        refl refl v.linked;
  filled = SameData-IsFilled c (add_use c e) xs xs (add_use-SameData c e) (λ x. refl) refl v.filled;
}

-- An entry that was taken out of the list is put in front of the others.
front-IsValid :
    (c b : Cache) (e : ℕ) (xs : List ℕ)
    → has e xs ≡ true
    → IsLinked b (without e xs)
    → Misses (some e) (without e xs)
    → SameData c b
    → IsValid c xs
    → IsValid (push b e) (e ∷ without e xs)
front-IsValid c b e xs h l m s v = record {
  linked = push-IsLinked b e (without e xs) m l;
  filled =
      SameData-IsFilled c (push b e) xs (e ∷ without e xs)
        (SameData-trans c b (push b e) s (push-SameData b e))
        (λ x. ground (arith, has-without e x xs, Bool-cases (e == x), h))
        (total-without c.mem e xs h v.linked.1) v.filled;
}

pub refresh-IsValid :
    (c : Cache) (e : ℕ) (xs : List ℕ)
    → has e xs ≡ true
    → IsValid c xs
    → IsValid (push (delink c e) e) (e ∷ without e xs)
refresh-IsValid c e xs h v =
    let (l, m) = delink-IsLinked c e xs h v.linked in
    front-IsValid c (delink c e) e xs h l m (delink-SameData c e) v

hit-IsValid :
    (c : Cache) (e : ℕ) (xs : List ℕ)
    → has e xs ≡ true
    → IsValid c xs
    → IsValid (push (add_use (delink c e) e) e) (e ∷ without e xs)
hit-IsValid c e xs h v =
    let d = delink c e in
    let ys = without e xs in
    let (l, m) = delink-IsLinked c e xs h v.linked in
    front-IsValid c (add_use d e) e xs h
      (Same-IsLinked d (add_use d e) ys (all_same d.mem (add_use d e).mem ys (λ x. ground arith))
        refl refl l)
      m (SameData-trans c d (add_use d e) (delink-SameData c e) (add_use-SameData d e)) v

-- The list after a search: a valid entry comes to the front, an expired one leaves.
abbrev pub found_list : Cache → Bytes → Time → List ℕ → List ℕ
found_list c key now xs = elim (c.table key) [
  | none ↦ xs
  | some e ↦ elim (c.mem e).value [
    | none ↦ xs
    | some v ↦ if expired (c.mem e) now then without e xs else e ∷ without e xs
  ]
]

-- What a search gives.
abbrev pub found : Cache → Bytes → Time → Option ℕ
found c key now = elim (c.table key) [
  | none ↦ none
  | some e ↦ elim (c.mem e).value [
    | none ↦ none
    | some v ↦ if expired (c.mem e) now then none else some e
  ]
]

miss-IsValid : (c : Cache) (xs : List ℕ) → IsValid c xs → IsValid (add_miss c) xs
miss-IsValid c xs v = Counted-IsValid c (add_miss c) xs refl refl refl refl refl refl v

-- A search gives the entry of the key when it has a value that has not expired, and moves it to the
-- front of the list; an expired entry is deleted, and else the list stays. The list, the sizes and
-- the hash table agree afterwards when they did before.
pub find_entry-IsValid :
    (c : Cache) (key : Bytes) (now : Time) (xs : List ℕ)
    → IsValid c xs
    → IsValid (find_entry c key now).0 (found_list c key now xs)
      × ((find_entry c key now).1 ≡ found c key now)
unfolding find_entry
find_entry-IsValid c key now xs v =
    let w = miss-IsValid c xs v in
    elim (Option-cases (c.table key)) [
      | inl t ↦ rw (find_entry, found_list, found, t) (w, refl)
      | inr (e, t) ↦
          let h = (v.filled.listed key e t).0 in
          elim (Option-cases (c.mem e).value) [
            | inl n ↦ rw (find_entry, found_list, found, t, n) (w, refl)
            | inr (x, n) ↦ elim (Bool-cases (expired (c.mem e) now)) [
              | inl f ↦
                  rw (find_entry, found_list, found, t, n, f)
                    (
                      miss-IsValid (delete_entry c e) (without e xs)
                          (delete_entry-IsValid c e xs h v),
                      refl,
                    )
              | inr f ↦
                  rw (find_entry, found_list, found, t, n, f)
                    (
                      hit-IsValid (add_hit c) e xs h
                          (Counted-IsValid c (add_hit c) xs refl refl refl refl refl refl v),
                      refl,
                    )
            ]
          ]
    ]
