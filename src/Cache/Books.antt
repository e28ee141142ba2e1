-- ===== src/Cache/Books.antt =====
-- nsd/cache.c: the sizes, the hash table and the list of the cache agree, and each operation keeps
-- them so. The list of addresses is what the cache looks like without its pointers.
use anansi.Common.{
  ℕ, ◌+◌, ◌<◌, ◌≡◌, ◌≢◌, inl, inr, refl, sym, ap, subst, ◌∙◌, true, false, Option, none, some, List,
  [], ◌∷◌, arith, ◌==◌, if◌then◌else◌, update, Bool-cases, some_inj, Bytes, str_eq, str_eq_iff,
}
use anansi.Time.{Time}
use anansi.Cache.{
  Entry, Cache, unlink_next, unlink_prev, delink, push, unset_value, delete_entry, store_value,
  drop_key, no_time,
}
use anansi.Cache.Chain.{IsDistinct}
use anansi.Cache.Lists.{
  has, without, IsLinked, Misses-has, has-without, without-missing, delink-IsLinked, Same-IsLinked,
  all_same,
}

-- The sum of the sizes of the entries at `xs`.
abbrev pub total : (ℕ → Entry) → List ℕ → ℕ
total m [] = 0
total m (x ∷ xs) = (m x).size + total m xs

-- The sizes and the hash table are those of the entries at `xs`.
pub record IsFilled (c : Cache) (xs : List ℕ) : Type 0 where
  pub sizes : c.current_size ≡ total c.mem xs
  pub unsized : (x : ℕ) → has x xs ≡ true → (c.mem x).value ≡ none → (c.mem x).size ≡ 0
  pub keyed : (x : ℕ) → has x xs ≡ true → c.table (c.mem x).key ≡ some x
  pub listed : (k : Bytes) (x : ℕ) → c.table k ≡ some x → (has x xs ≡ true) × ((c.mem x).key ≡ k)
  pub fresh : (x : ℕ) → has x xs ≡ true → x < c.next_addr

-- The list of the cache is `xs`, which is what the sizes and the hash table are about.
pub record IsValid (c : Cache) (xs : List ℕ) : Type 0 where
  pub linked : IsLinked c xs
  pub filled : IsFilled c xs

-- What Delink and Push leave alone.
pub record SameData (c d : Cache) : Type 0 where
  pub same_key : (x : ℕ) → (d.mem x).key ≡ (c.mem x).key
  pub same_size : (x : ℕ) → (d.mem x).size ≡ (c.mem x).size
  pub same_value : (x : ℕ) → (d.mem x).value ≡ (c.mem x).value
  pub same_expires : (x : ℕ) → (d.mem x).expires ≡ (c.mem x).expires
  pub same_current : d.current_size ≡ c.current_size
  pub same_table : (k : Bytes) → d.table k ≡ c.table k
  pub same_addr : d.next_addr ≡ c.next_addr

pub delink-SameData : (c : Cache) (e : ℕ) → SameData c (delink c e)
unfolding delink unlink_next unlink_prev
delink-SameData c e = record {
  same_key = λ x. ground arith;
  same_size = λ x. ground arith;
  same_value = λ x. ground arith;
  same_expires = λ x. ground arith;
  same_current = ground arith;
  same_table = λ k. ground arith;
  same_addr = ground arith;
}

pub push-SameData : (c : Cache) (e : ℕ) → SameData c (push c e)
unfolding push
push-SameData c e = record {
  same_key = λ x. ground arith;
  same_size = λ x. ground arith;
  same_value = λ x. ground arith;
  same_expires = λ x. ground arith;
  same_current = ground arith;
  same_table = λ k. ground arith;
  same_addr = ground arith;
}

pub SameData-trans : (c d b : Cache) → SameData c d → SameData d b → SameData c b
SameData-trans c d b s t = record {
  same_key = λ x. t.same_key x ∙ s.same_key x;
  same_size = λ x. t.same_size x ∙ s.same_size x;
  same_value = λ x. t.same_value x ∙ s.same_value x;
  same_expires = λ x. t.same_expires x ∙ s.same_expires x;
  same_current = t.same_current ∙ s.same_current;
  same_table = λ k. t.same_table k ∙ s.same_table k;
  same_addr = t.same_addr ∙ s.same_addr;
}

total_same :
    (m n : ℕ → Entry) (xs : List ℕ) → ((x : ℕ) → (n x).size ≡ (m x).size) → total n xs ≡ total m xs
total_same m n [] h = refl
total_same m n (x ∷ xs) h = omega (arith, h x, total_same m n xs h)

-- The total of a list in another order, and of a list without an entry.
pub total-without :
    (m : ℕ → Entry) (e : ℕ) (xs : List ℕ)
    → has e xs ≡ true
    → IsDistinct xs
    → (m e).size + total m (without e xs) ≡ total m xs
total-without m e [] h d = absurd (ground arith)
total-without m e (x ∷ xs) h (n, d) = elim (Bool-cases (x == e)) [
  | inl t ↦
      let p : x ≡ e = ground arith in
      let k : has e xs ≡ false = subst (λ y. has y xs ≡ false) p (Misses-has x xs n) in
      let s : (m x).size ≡ (m e).size = ap (λ y. (m y).size) p in
      ground (arith, without-missing e xs k)
  | inr f ↦ ground (arith, total-without m e xs (ground arith) d)
]

pub total-update_missing :
    (m : ℕ → Entry) (e : ℕ) (v : Entry) (xs : List ℕ)
    → has e xs ≡ false
    → total (update m e v) xs ≡ total m xs
total-update_missing m e v [] h = refl
total-update_missing m e v (x ∷ xs) h = ground (arith, total-update_missing m e v xs (ground arith))

-- A change of one entry changes the total by its size.
total-update :
    (m : ℕ → Entry) (e : ℕ) (v : Entry) (xs : List ℕ)
    → has e xs ≡ true
    → IsDistinct xs
    → total (update m e v) xs + (m e).size ≡ total m xs + v.size
total-update m e v [] h d = absurd (ground arith)
total-update m e v (x ∷ xs) h (n, d) = elim (Bool-cases (x == e)) [
  | inl t ↦
      let p : x ≡ e = ground arith in
      let k : has e xs ≡ false = subst (λ y. has y xs ≡ false) p (Misses-has x xs n) in
      let s : (m x).size ≡ (m e).size = ap (λ y. (m y).size) p in
      ground (arith, total-update_missing m e v xs k)
  | inr f ↦ ground (arith, total-update m e v xs (ground arith) d)
]

-- The same data, with the same entries in another order.
pub SameData-IsFilled :
    (c d : Cache) (xs ys : List ℕ)
    → SameData c d
    → ((x : ℕ) → has x ys ≡ has x xs)
    → total c.mem ys ≡ total c.mem xs
    → IsFilled c xs
    → IsFilled d ys
SameData-IsFilled c d xs ys s h t f = record {
  sizes = s.same_current ∙ f.sizes ∙ sym t ∙ sym (total_same c.mem d.mem ys s.same_size);
  unsized = λ x k v. s.same_size x ∙ f.unsized x (sym (h x) ∙ k) (sym (s.same_value x) ∙ v);
  keyed = λ x k. ap d.table (s.same_key x) ∙ s.same_table (c.mem x).key ∙ f.keyed x (sym (h x) ∙ k);
  listed =
      λ k x q. let (a, b) = f.listed k x (sym (s.same_table k) ∙ q) in (h x ∙ a, s.same_key x ∙ b);
  fresh = λ x k. subst (λ n. x < n) (sym s.same_addr) (f.fresh x (sym (h x) ∙ k));
}

unset_value-none : (c : Cache) (e : ℕ) → ((unset_value c e).mem e).value ≡ none
unfolding unset_value
unset_value-none c e = ground arith

unset_value-links :
    (c : Cache) (e x : ℕ)
    → (((unset_value c e).mem x).prev ≡ (c.mem x).prev)
      × (((unset_value c e).mem x).next ≡ (c.mem x).next)
unfolding unset_value
unset_value-links c e x = ground arith

unset_value-key : (c : Cache) (e x : ℕ) → ((unset_value c e).mem x).key ≡ (c.mem x).key
unfolding unset_value
unset_value-key c e x = ground arith

pub unset_value-IsValid :
    (c : Cache) (e : ℕ) (xs : List ℕ)
    → has e xs ≡ true
    → IsValid c xs
    → IsValid (unset_value c e) xs
unfolding unset_value
unset_value-IsValid c e xs h v = record {
  linked =
      Same-IsLinked c (unset_value c e) xs
        (all_same c.mem (unset_value c e).mem xs (unset_value-links c e)) (ground arith)
        (ground arith) v.linked;
  filled = record {
    sizes = ground (
      arith,
      v.filled.sizes,
      total-update c.mem e (record (c.mem e) { size = 0; value = none; expires = no_time }) xs h
          v.linked.1,
    );
    unsized = λ x k n. ground (arith, v.filled.unsized x k);
    keyed = λ x k. ground (arith, v.filled.keyed x k);
    listed = λ k x n. ground (arith, v.filled.listed k x);
    fresh = λ x k. ground (arith, v.filled.fresh x k);
  };
}

-- Two entries of the list have different keys.
other_key :
    (c d : Cache) (e x : ℕ)
    → SameData c d
    → c.table (c.mem e).key ≡ some e
    → c.table (c.mem x).key ≡ some x
    → e ≢ x
    → (drop_key d e).table ((drop_key d e).mem x).key ≡ some x
other_key c d e x s p q n = elim (Bool-cases (str_eq (d.mem x).key (d.mem e).key)) [
  | inl t ↦
      let r = (str_eq_iff (d.mem x).key (d.mem e).key).0 t in
      let r' : (c.mem x).key ≡ (c.mem e).key = sym (s.same_key x) ∙ r ∙ s.same_key e in
      absurd (n (some_inj (sym p ∙ ap c.table (sym r') ∙ q)))
  | inr f ↦
      let r : d.table (d.mem x).key ≡ some x =
        ap d.table (s.same_key x) ∙ s.same_table (c.mem x).key ∙ q in
      ground arith
]

other_listed :
    (c d : Cache) (e x : ℕ) (k : Bytes) (xs ys : List ℕ)
    → SameData c d
    → c.table (c.mem e).key ≡ some e
    → (drop_key d e).table k ≡ some x
    → (c.table k ≡ some x → (has x xs ≡ true) × ((c.mem x).key ≡ k))
    → has x ys ≡ (if e == x then false else has x xs)
    → (has x ys ≡ true) × ((d.mem x).key ≡ k)
other_listed c d e x k xs ys s p q f w = elim (Bool-cases (str_eq k (d.mem e).key)) [
  | inl t ↦ absurd (ground arith)
  | inr t ↦
      let q' : c.table k ≡ some x = sym (s.same_table k) ∙ (ground arith) in
      let (a, b) = f q' in
      let ne : e ≢ x = λ r.
        let r' : (d.mem e).key ≡ k = ap (λ y. (d.mem y).key) r ∙ s.same_key x ∙ b in
        ground (arith, (str_eq_iff k (d.mem e).key).1 (sym r')) in
      (ground arith, s.same_key x ∙ b)
]

delink-IsFilled :
    (c : Cache) (e : ℕ) (xs : List ℕ)
    → has e xs ≡ true
    → (c.mem e).value ≡ none
    → IsValid c xs
    → IsFilled (drop_key (delink c e) e) (without e xs)
delink-IsFilled c e xs h n v =
    let s = delink-SameData c e in
    let f = v.filled in
    record {
      sizes = ground (
        arith,
        s.same_current,
        f.sizes,
        f.unsized e h n,
        total-without c.mem e xs h v.linked.1,
        total_same c.mem (delink c e).mem (without e xs) s.same_size,
      );
      unsized =
          λ x k q. ground (arith, has-without e x xs, s.same_size x, s.same_value x, f.unsized x);
      keyed = λ x k.
          let hx : has x xs ≡ true = ground (arith, has-without e x xs) in
          let ne : e ≢ x = λ p. ground (arith, has-without e x xs) in
          other_key c (delink c e) e x s (f.keyed e h) (f.keyed x hx) ne;
      listed = λ k x q.
          other_listed c (delink c e) e x k xs (without e xs) s (f.keyed e h) q (f.listed k x)
            (has-without e x xs);
      fresh = λ x k. ground (arith, has-without e x xs, s.same_addr, f.fresh x);
    }

-- In a cache whose list, sizes and hash table agree, deleting an entry of the list takes it out of
-- the list, its size off the total and its key out of the table; the other entries keep their order.
pub delete_entry-IsValid :
    (c : Cache) (e : ℕ) (xs : List ℕ)
    → has e xs ≡ true
    → IsValid c xs
    → IsValid (delete_entry c e) (without e xs)
unfolding delete_entry
delete_entry-IsValid c e xs h v =
    let u = unset_value-IsValid c e xs h v in
    let (l, m) = delink-IsLinked (unset_value c e) e xs h u.linked in
    record {
      linked = l;
      filled = delink-IsFilled (unset_value c e) e xs h (unset_value-none c e) u;
    }

-- An entry without a value that gets one.
fill-IsValid :
    (d : Cache) (e : ℕ) (v : Entry) (xs : List ℕ)
    → has e xs ≡ true
    → (d.mem e).value ≡ none
    → v.next ≡ (d.mem e).next
    → v.prev ≡ (d.mem e).prev
    → v.key ≡ (d.mem e).key
    → v.value ≢ none
    → IsValid d xs
    → IsValid (record d { mem = update d.mem e v; current_size = d.current_size + v.size }) xs
fill-IsValid d e v xs h n vn vp vk vv u =
    let b : Cache = record d { mem = update d.mem e v; current_size = d.current_size + v.size } in
    record {
      linked =
          Same-IsLinked d b xs (all_same d.mem b.mem xs (λ x. ground arith)) refl refl u.linked;
      filled = record {
        sizes =
            ground (
              arith,
              u.filled.sizes,
              u.filled.unsized e h n,
              total-update d.mem e v xs h u.linked.1,
            );
        unsized = λ x k q. ground (arith, u.filled.unsized x k);
        keyed = λ x k. ground (arith, u.filled.keyed x k);
        listed = λ k x q. ground (arith, u.filled.listed k x);
        fresh = λ x k. u.filled.fresh x k;
      };
    }

-- Storing a value in an entry keeps the list, and the size of the cache is the sum of the sizes.
pub store_value-IsValid :
    (c : Cache) (e value size : ℕ) (timeout : Option Time) (cost : ℕ) (xs : List ℕ)
    → has e xs ≡ true
    → IsValid c xs
    → IsValid (store_value c e value size timeout cost) xs
unfolding store_value
store_value-IsValid c e value size timeout cost xs h v =
    fill-IsValid (unset_value c e) e _ xs h (unset_value-none c e) refl refl refl (λ q. cc)
      (unset_value-IsValid c e xs h v)
