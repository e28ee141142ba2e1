-- ===== src/Cache/Lists.antt =====
-- nsd/cache.c: the list of the entries, the one that was used last in front, as a list of addresses
-- without the pointers, and how `Delink` and `Push` change it.
use anansi.Common.{
  ℕ, ◌≡◌, ◌≢◌, inl, inr, refl, sym, ap, subst, ◌∙◌, Bool, true, false, Option, none, some, List, [],
  ◌∷◌, ◌++◌, arith, ◌==◌, ◌||◌, if◌then◌else◌, Bool-cases, some_inj,
}
use anansi.Cache.{Entry, Cache, unlink_next, unlink_prev, delink, push}
use anansi.Cache.Chain.{
  IsChain, Misses, IsDistinct, head_or, last_or, SameLinks, SameLinks-IsChain, Misses-append,
  append-Misses, Unlinks-IsChain, neighbours, delink-Unlinks,
}

abbrev pub has : ℕ → List ℕ → Bool
has e [] = false
has e (x ∷ xs) = x == e || has e xs

abbrev pub without : ℕ → List ℕ → List ℕ
without e [] = []
without e (x ∷ xs) = let rest = without e xs in if x == e then rest else x ∷ rest

-- The list of the cache is `xs`.
abbrev pub IsLinked : Cache → List ℕ → Type 0
IsLinked c xs = IsChain c.mem none c.first c.last xs × IsDistinct xs

pub has-Misses : (e : ℕ) (xs : List ℕ) → has e xs ≡ false → Misses (some e) xs
has-Misses e [] h = tt
has-Misses e (x ∷ xs) h =
    ((λ p. let q : e ≡ x = some_inj p in ground arith), has-Misses e xs (ground arith))

pub Misses-has : (e : ℕ) (xs : List ℕ) → Misses (some e) xs → has e xs ≡ false
Misses-has e [] h = refl
Misses-has e (x ∷ xs) (h, k) =
    let n : e ≢ x = λ p. h (ap some p) in ground (arith, Misses-has e xs k)

pub without-missing : (e : ℕ) (xs : List ℕ) → has e xs ≡ false → without e xs ≡ xs
without-missing e [] h = refl
without-missing e (x ∷ xs) h = ground (arith, without-missing e xs)

pub has-without :
    (e x : ℕ) (xs : List ℕ) → has x (without e xs) ≡ (if e == x then false else has x xs)
has-without e x [] = ground arith
has-without e x (y ∷ xs) = ground (arith, has-without e x xs)

-- An entry of the list splits it.
pub split :
    (e : ℕ) (xs : List ℕ)
    → has e xs ≡ true
    → IsDistinct xs
    → (as' : List ℕ) × (bs : List ℕ) × (xs ≡ as' ++ e ∷ bs) × (without e xs ≡ as' ++ bs)
split e [] h d = absurd (ground arith)
split e (x ∷ xs) h (m, d) = elim (Bool-cases (x == e)) [
  | inl t ↦
      let p : x ≡ e = ground arith in
      let n : has e xs ≡ false = subst (λ y. has y xs ≡ false) p (Misses-has x xs m) in
      ([], xs, ap (λ y. y ∷ xs) p, ground (arith, without-missing e xs n))
  | inr f ↦
      let (as', bs, p, q) = split e xs (ground arith) d in (x ∷ as', bs, ap (◌∷◌ x) p, ground arith)
]

Distinct_out :
    (as' bs : List ℕ) (e : ℕ)
    → IsDistinct (as' ++ e ∷ bs)
    → IsDistinct (as' ++ bs) × Misses (some e) (as' ++ bs)
Distinct_out [] bs e (m, d) = (d, m)
Distinct_out (a ∷ as') bs e (m, d) =
    let (x, y) = Distinct_out as' bs e d in
    let (p, n, q) = Misses-append (some a) as' bs e m in
    ((append-Misses (some a) as' bs p q, x), ((λ h. n (sym h)), y))

Misses-none : (xs : List ℕ) → Misses none xs
Misses-none [] = tt
Misses-none (x ∷ xs) = ((λ h. cc), Misses-none xs)

last_or-some : (d : Option ℕ) (a : ℕ) (as' : List ℕ) → (x : ℕ) × (last_or d (a ∷ as') ≡ some x)
last_or-some d a [] = (a, refl)
last_or-some d a (b ∷ as') = last_or-some (some a) b as'

delink-first :
    (c : Cache) (e : ℕ) (as' : List ℕ)
    → (c.mem e).prev ≡ last_or none as'
    → (delink c e).first ≡ elim as' [ [] ↦ (c.mem e).next | x ∷ xs ↦ c.first ]
unfolding delink unlink_next unlink_prev
delink-first c e [] h = ground arith
delink-first c e (a ∷ as') h = let (x, p) = last_or-some none a as' in ground arith

delink-last :
    (c : Cache) (e : ℕ) (bs : List ℕ)
    → (c.mem e).next ≡ head_or none bs
    → ((c.mem e).prev ≢ some e)
    → (delink c e).last ≡ elim bs [ [] ↦ (c.mem e).prev | x ∷ xs ↦ c.last ]
unfolding delink unlink_next unlink_prev
delink-last c e [] h n = ground arith
delink-last c e (a ∷ bs) h n = ground arith

last_or-other : (e : ℕ) (as' bs : List ℕ) → IsDistinct (as' ++ e ∷ bs) → last_or none as' ≢ some e
last_or-other e [] bs d = λ h. cc
last_or-other e (a ∷ []) bs ((n, m), d) = n
last_or-other e (a ∷ b ∷ as') bs (m, d) = last_or-other e (b ∷ as') bs d

delink-split :
    (c : Cache) (e : ℕ) (as' bs : List ℕ)
    → IsLinked c (as' ++ e ∷ bs)
    → IsLinked (delink c e) (as' ++ bs) × Misses (some e) (as' ++ bs)
delink-split c e as' bs (l, d) =
    let u = delink-Unlinks c e in
    let (p, n) = neighbours c.mem (delink c e).mem e u none c.first c.last as' bs l in
    let k =
      Unlinks-IsChain c.mem (delink c e).mem e u none c.first c.last as' bs l d
        (Misses-none (as' ++ e ∷ bs)) in
    let (d', m) = Distinct_out as' bs e d in
    let ne : (c.mem e).prev ≢ some e = λ h. last_or-other e as' bs d (sym p ∙ h) in
    let first : Option ℕ = elim as' [ [] ↦ (c.mem e).next | x ∷ xs ↦ c.first ] in
    let r : IsChain (delink c e).mem none (delink c e).first (delink c e).last (as' ++ bs) =
      subst (λ y. IsChain (delink c e).mem none y (delink c e).last (as' ++ bs))
        (sym (delink-first c e as' p))
        (subst (λ y. IsChain (delink c e).mem none first y (as' ++ bs))
          (sym (delink-last c e bs n ne)) k) in
    ((r, d'), m)

-- Delink takes the entry out of the list, and the others stay in their order.
pub delink-IsLinked :
    (c : Cache) (e : ℕ) (xs : List ℕ)
    → has e xs ≡ true
    → IsLinked c xs
    → IsLinked (delink c e) (without e xs) × Misses (some e) (without e xs)
delink-IsLinked c e xs h (l, d) =
    let (as', bs, p, q) = split e xs h d in
    subst (λ ys. IsLinked (delink c e) ys × Misses (some e) ys) (sym q)
      (delink-split c e as' bs (subst (IsLinked c) p (l, d)))

push_rest :
    (m n : ℕ → Entry) (e x : ℕ) (xs : List ℕ)
    → Misses (some e) xs
    → Misses (some x) xs
    → ((y : ℕ) → some e ≢ some y → some x ≢ some y → n y ≡ m y)
    → SameLinks m n xs
push_rest m n e x [] a b f = tt
push_rest m n e x (y ∷ xs) (a, as') (b, bs) f =
    let p : n y ≡ m y = f y a b in
    (ap (λ z. z.prev) p, ap (λ z. z.next) p, push_rest m n e x xs as' bs f)

pub Chain-last :
    (m : ℕ → Entry) (before first last : Option ℕ) (xs : List ℕ)
    → IsChain m before first last xs
    → last ≡ last_or before xs
Chain-last m before first last [] (f, l) = l
Chain-last m before first last (x ∷ xs) (f, p, k) = Chain-last m (some x) (m x).next last xs k

push_next : (c : Cache) (e : ℕ) → ((push c e).mem e).next ≡ c.first
unfolding push
push_next c e = ground arith

push_prev : (c : Cache) (e : ℕ) → ((push c e).mem e).prev ≡ none
unfolding push
push_prev c e = ground arith

push_front :
    (c : Cache) (e x : ℕ) → c.first ≡ some x → some e ≢ some x → ((push c e).mem x).prev ≡ some e
unfolding push
push_front c e x h n = let k : e ≢ x = λ p. n (ap some p) in ground arith

push_behind : (c : Cache) (e x : ℕ) → some e ≢ some x → ((push c e).mem x).next ≡ (c.mem x).next
unfolding push
push_behind c e x n = let k : e ≢ x = λ p. n (ap some p) in ground arith

push_other :
    (c : Cache) (e x y : ℕ)
    → c.first ≡ some x
    → some e ≢ some y
    → some x ≢ some y
    → (push c e).mem y ≡ c.mem y
unfolding push
push_other c e x y h n k =
    let n' : e ≢ y = λ p. n (ap some p) in let k' : x ≢ y = λ p. k (ap some p) in ground arith

push_first : (c : Cache) (e : ℕ) → (push c e).first ≡ some e
unfolding push
push_first c e = refl

push_last_empty : (c : Cache) (e : ℕ) → c.last ≡ none → (push c e).last ≡ some e
unfolding push
push_last_empty c e h = ground arith

push_last : (c : Cache) (e x : ℕ) → c.last ≡ some x → (push c e).last ≡ c.last
unfolding push
push_last c e x h = ground arith

-- Push puts the entry in front.
pub push-IsLinked :
    (c : Cache) (e : ℕ) (xs : List ℕ)
    → Misses (some e) xs
    → IsLinked c xs
    → IsLinked (push c e) (e ∷ xs)
push-IsLinked c e [] m ((f, l), d) =
    ((push_first c e, push_prev c e, (push_next c e ∙ f, push_last_empty c e l)), (tt, tt))
push-IsLinked c e (x ∷ xs) (n, m) ((f, p, k), (dx, d)) =
    let (y, q) = last_or-some none x xs in
    let l : (push c e).last ≡ c.last =
      push_last c e y (Chain-last c.mem none c.first c.last (x ∷ xs) (f, p, k) ∙ q) in
    let r : IsChain (push c e).mem (some x) ((push c e).mem x).next (push c e).last xs =
      subst (λ z. IsChain (push c e).mem (some x) ((push c e).mem x).next z xs) (sym l)
        (subst (λ z. IsChain (push c e).mem (some x) z c.last xs) (sym (push_behind c e x n))
          (SameLinks-IsChain c.mem (push c e).mem (some x) (c.mem x).next c.last xs
            (push_rest c.mem (push c e).mem e x xs m dx (λ z a b. push_other c e x z f a b)) k)) in
    (
      (push_first c e, push_prev c e, (push_next c e ∙ f, push_front c e x f n, r)),
      ((n, m), (dx, d)),
    )

-- A change of the other fields of the entries keeps the list.
pub Same-IsLinked :
    (c d : Cache) (xs : List ℕ)
    → SameLinks c.mem d.mem xs
    → d.first ≡ c.first
    → d.last ≡ c.last
    → IsLinked c xs
    → IsLinked d xs
Same-IsLinked c d xs s p q (l, k) = (
  subst (λ y. IsChain d.mem none y d.last xs) (sym p)
      (subst (λ y. IsChain d.mem none c.first y xs) (sym q)
        (SameLinks-IsChain c.mem d.mem none c.first c.last xs s l)),
  k,
)

pub all_same :
    (m n : ℕ → Entry) (xs : List ℕ)
    → ((x : ℕ) → ((n x).prev ≡ (m x).prev) × ((n x).next ≡ (m x).next))
    → SameLinks m n xs
all_same m n [] h = tt
all_same m n (x ∷ xs) h = let (p, q) = h x in (p, q, all_same m n xs h)
