-- ===== src/Cache/Chain.antt =====
-- nsd/cache.c: the doubly linked list of the entries, and what `Delink` and `Push` do to it.
use anansi.Common.{ℕ, ◌≡◌, ◌≢◌, sym, subst, ◌∙◌, Option, none, some, List, [], ◌∷◌, ◌++◌, arith}
use anansi.Cache.{Entry, Cache, unlink_next, unlink_prev, delink}

-- From `first` to `last`, the entries at `xs` follow one another, each pointing at its neighbours;
-- `before` is the neighbour on the left of them all.
abbrev pub IsChain : (ℕ → Entry) → Option ℕ → Option ℕ → Option ℕ → List ℕ → Type 0
IsChain m before first last [] = (first ≡ none) × (last ≡ before)
IsChain m before first last (x ∷ xs) =
    (first ≡ some x) × ((m x).prev ≡ before) × IsChain m (some x) (m x).next last xs

-- `q` points at none of the entries.
abbrev pub Misses : Option ℕ → List ℕ → Type 0
Misses q [] = Unit
Misses q (x ∷ xs) = (q ≢ some x) × Misses q xs

abbrev pub IsDistinct : List ℕ → Type 0
IsDistinct [] = Unit
IsDistinct (x ∷ xs) = Misses (some x) xs × IsDistinct xs

abbrev pub head_or : Option ℕ → List ℕ → Option ℕ
head_or d [] = d
head_or d (x ∷ xs) = some x

abbrev pub last_or : Option ℕ → List ℕ → Option ℕ
last_or d [] = d
last_or d (x ∷ xs) = last_or (some x) xs

-- Two memories whose entries at `xs` have the same neighbours.
abbrev pub SameLinks : (ℕ → Entry) → (ℕ → Entry) → List ℕ → Type 0
SameLinks m n [] = Unit
SameLinks m n (x ∷ xs) = ((n x).prev ≡ (m x).prev) × ((n x).next ≡ (m x).next) × SameLinks m n xs

pub SameLinks-IsChain :
    (m n : ℕ → Entry) (before first last : Option ℕ) (xs : List ℕ)
    → SameLinks m n xs
    → IsChain m before first last xs
    → IsChain n before first last xs
SameLinks-IsChain m n before first last [] s c = c
SameLinks-IsChain m n before first last (x ∷ xs) (p, q, s) (f, b, c) = (
  f,
  p ∙ b,
  SameLinks-IsChain m n (some x) (n x).next last xs s
      (subst (λ y. IsChain m (some x) y last xs) (sym q) c),
)

pub Misses-append :
    (q : Option ℕ) (as' bs : List ℕ) (e : ℕ)
    → Misses q (as' ++ e ∷ bs)
    → Misses q as' × (q ≢ some e) × Misses q bs
Misses-append q [] bs e (h, k) = (tt, h, k)
Misses-append q (a ∷ as') bs e (h, k) = let (x, y, z) = Misses-append q as' bs e k in ((h, x), y, z)

pub append-Misses :
    (q : Option ℕ) (as' bs : List ℕ) → Misses q as' → Misses q bs → Misses q (as' ++ bs)
append-Misses q [] bs h k = k
append-Misses q (a ∷ as') bs (h, g) k = (h, append-Misses q as' bs g k)

-- `n` is the memory `m` without the entry at `e` in its list.
pub record Unlinks (m n : ℕ → Entry) (e : ℕ) : Type 0 where
  pub same_next : (x : ℕ) → some e ≢ some x → (m e).prev ≢ some x → (n x).next ≡ (m x).next
  pub same_prev : (x : ℕ) → some e ≢ some x → (m e).next ≢ some x → (n x).prev ≡ (m x).prev
  pub new_next : (x : ℕ) → some e ≢ some x → (m e).prev ≡ some x → (n x).next ≡ (m e).next
  pub new_prev : (x : ℕ) → some e ≢ some x → (m e).next ≡ some x → (n x).prev ≡ (m e).prev

module _ (m n : ℕ → Entry) (e : ℕ) (u : Unlinks m n e) where
  Unlinks-SameLinks :
      (xs : List ℕ)
      → Misses (some e) xs
      → Misses (m e).prev xs
      → Misses (m e).next xs
      → SameLinks m n xs
  Unlinks-SameLinks [] a b c = tt
  Unlinks-SameLinks (x ∷ xs) (ha, a) (hb, b) (hc, c) =
      (u.same_prev x ha hc, u.same_next x ha hb, Unlinks-SameLinks xs a b c)

  pub neighbours :
      (before first last : Option ℕ) (as' bs : List ℕ)
      → IsChain m before first last (as' ++ e ∷ bs)
      → ((m e).prev ≡ last_or before as') × ((m e).next ≡ head_or none bs)
  neighbours before first last [] [] (f, b, (g, k)) = (b, g)
  neighbours before first last [] (x ∷ bs) (f, b, (g, _, _)) = (b, g)
  neighbours before first last (a ∷ as') bs (f, b, c) = neighbours (some a) (m a).next last as' bs c

  last_or-Misses :
      (q : Option ℕ) (a : ℕ) (as' : List ℕ) → Misses q (a ∷ as') → last_or (some a) as' ≢ q
  last_or-Misses q a [] (h, k) = λ x. h (sym x)
  last_or-Misses q a (b ∷ as') (h, k) = last_or-Misses q b as' k

  head_or-Misses : (a : ℕ) (bs : List ℕ) → Misses (some a) bs → head_or none bs ≢ some a
  head_or-Misses a [] h = λ x. cc
  head_or-Misses a (b ∷ bs) (h, k) = λ x. h (sym x)

  next_kept :
      (a : ℕ) (as' : List ℕ)
      → some e ≢ some a
      → Misses (some a) as'
      → (m e).prev ≡ last_or (some a) as'
      → (n a).next ≡ elim as' [ [] ↦ (m e).next | x ∷ xs ↦ (m a).next ]
  next_kept a [] ne ma np = u.new_next a ne np
  next_kept a (x ∷ xs) ne ma np =
      u.same_next a ne (λ h. last_or-Misses (some a) x xs ma (sym np ∙ h))

  -- Without the entry the list is a list of the others, whose ends are moved where it was an end.
  pub Unlinks-IsChain :
      (before first last : Option ℕ) (as' bs : List ℕ)
      → IsChain m before first last (as' ++ e ∷ bs)
      → IsDistinct (as' ++ e ∷ bs)
      → Misses before (as' ++ e ∷ bs)
      → IsChain n before
          (elim as' [ [] ↦ (m e).next | x ∷ xs ↦ first ])
          (elim bs [ [] ↦ (m e).prev | x ∷ xs ↦ last ])
          (as' ++ bs)
  Unlinks-IsChain before first last [] [] (f, b, (g, k)) d o = (g, b)
  Unlinks-IsChain before first last [] (x ∷ bs) (f, b, (g, k, c)) ((dx, d), (dd, ds))
        (ho, (hx, o)) =
      (
        g,
        u.new_prev x dx g ∙ b,
        subst (λ y. IsChain n (some x) y last bs) (sym (u.same_next x dx (λ h. hx (sym b ∙ h))))
            (SameLinks-IsChain m n (some x) (m x).next last bs
              (Unlinks-SameLinks bs d (subst (λ y. Misses y bs) (sym b) o)
                (subst (λ y. Misses y bs) (sym g) dd))
              c),
      )
  Unlinks-IsChain before first last (a ∷ as') bs (f, b, c) (da, ds) (ho, o) =
      let (np, nn) = neighbours (some a) (m a).next last as' bs c in
      let (ma, ea, mb) = Misses-append (some a) as' bs e da in
      let ih = Unlinks-IsChain (some a) (m a).next last as' bs c ds da in
      (
        f,
        u.same_prev a (λ h. ea (sym h)) (λ h. head_or-Misses a bs mb (sym nn ∙ h)) ∙ b,
        subst (λ y. IsChain n (some a) y (elim bs [ [] ↦ (m e).prev | x ∷ xs ↦ last ]) (as' ++ bs))
            (sym (next_kept a as' (λ h. ea (sym h)) ma np)) ih,
      )

pub delink-Unlinks : (c : Cache) (e : ℕ) → Unlinks c.mem (delink c e).mem e
unfolding delink unlink_next unlink_prev
delink-Unlinks c e = record {
  same_next = λ x h k. ground arith;
  same_prev = λ x h k. ground arith;
  new_next = λ x h k. ground arith;
  new_prev = λ x h k. ground arith;
}
