-- ===== src/Cache/Prune.antt =====
-- nsd/cache.c: the loop of Ns_CacheSetValueExpires that makes space drops entries from the end of the
-- list, and with a round for each entry it comes to its own end.
use anansi.Common.{
  ℕ, zero, suc, ◌≤◌, ◌≡◌, ◌≢◌, ◌⊎◌, inl, inr, refl, sym, ap, subst, ◌∙◌, Bool, true, false, not,
  ◌&&◌, Option, none, some, List, [], ◌∷◌, ◌++◌, arith, ltb, ◌==◌, if◌then◌else◌, length,
  length-append, append-nil, append_assoc, Bool-cases, Option-cases, some_inj,
}
use anansi.Time.{Time}
use anansi.Cache.{
  Cache, delink, unlink_next, unlink_prev, unset_value, delete_entry, add_pruned, prune,
  store_value, set_value_expires,
}
use anansi.Cache.Chain.{IsDistinct, last_or, Misses-append}
use anansi.Cache.Lists.{has, without, Chain-last}
use anansi.Cache.Books.{IsValid, delete_entry-IsValid, store_value-IsValid}
use anansi.Cache.Access.{Counted-IsValid}

without-last : (l : ℕ) (ys : List ℕ) → IsDistinct (ys ++ l ∷ []) → without l (ys ++ l ∷ []) ≡ ys
without-last l [] d = ground arith
without-last l (y ∷ ys) (m, d) =
    let (p, n, q) = Misses-append (some y) ys [] l m in
    let n' : y ≢ l = λ h. n (ap some h) in ground (arith, without-last l ys d)

has-last : (l : ℕ) (ys : List ℕ) → has l (ys ++ l ∷ []) ≡ true
has-last l [] = ground arith
has-last l (y ∷ ys) = ground (arith, has-last l ys)

has-front : (e l : ℕ) (ys : List ℕ) → e ≢ l → has e (ys ++ l ∷ []) ≡ true → has e ys ≡ true
has-front e l [] n h = ground arith
has-front e l (y ∷ ys) n h = ground (arith, has-front e l ys n)

last-split :
    (d : Option ℕ) (x : ℕ) (xs : List ℕ)
    → (ys : List ℕ) × (l : ℕ) × (x ∷ xs ≡ ys ++ l ∷ []) × (last_or d (x ∷ xs) ≡ some l)
last-split d x [] = ([], x, refl, refl)
last-split d x (y ∷ xs) =
    let (ys, l, p, q) = last-split (some x) y xs in (x ∷ ys, l, ap (◌∷◌ x) p, q)

-- The last entry of the cache stands at the end of the list.
last-at :
    (c : Cache) (l e : ℕ) (xs : List ℕ)
    → IsValid c xs
    → has e xs ≡ true
    → c.last ≡ some l
    → (ys : List ℕ) × (xs ≡ ys ++ l ∷ [])
last-at c l e [] v h p = absurd (ground arith)
last-at c l e (x ∷ xs) v h p =
    let (ys, k, q, r) = last-split none x xs in
    let s = Chain-last c.mem none c.first c.last (x ∷ xs) v.linked.0 in
    (ys, subst (λ z. x ∷ xs ≡ ys ++ z ∷ []) (some_inj (sym r ∙ sym s ∙ p)) q)

-- Dropping the last entry.
drop_last-IsValid :
    (c : Cache) (l : ℕ) (ys : List ℕ)
    → IsValid c (ys ++ l ∷ [])
    → IsValid (add_pruned (delete_entry c l)) ys
drop_last-IsValid c l ys v =
    let w = delete_entry-IsValid c l (ys ++ l ∷ []) (has-last l ys) v in
    let d = delete_entry c l in
    Counted-IsValid d (add_pruned d) ys refl refl refl refl refl refl
      (subst (IsValid d) (without-last l ys v.linked.1) w)

pub delete_entry-other :
    (c : Cache) (l e : ℕ) → l ≢ e → ((delete_entry c l).mem e).value ≡ (c.mem e).value
unfolding delete_entry delink unlink_next unlink_prev unset_value
delete_entry-other c l e n = ground arith

delete_entry-size : (c : Cache) (l e : ℕ) → l ≢ e → ((delete_entry c l).mem e).size ≡ (c.mem e).size
unfolding delete_entry delink unlink_next unlink_prev unset_value
delete_entry-size c l e n = ground arith

delete_entry-max_size : (c : Cache) (l : ℕ) → (delete_entry c l).max_size ≡ c.max_size
unfolding delete_entry delink unlink_next unlink_prev unset_value
delete_entry-max_size c l = ground arith

-- The cache fits its limit, or the entry at its end may not be dropped.
abbrev pub IsFitted : Cache → ℕ → Type 0
IsFitted d e =
    (d.current_size ≤ d.max_size)
    ⊎ ((l : ℕ) × (d.last ≡ some l) × ((l ≡ e) ⊎ ((d.mem l).value ≡ none)))

-- What is left of the list `xs` is a prefix of it, which has the entry `e`.
pub record IsPruned (c d : Cache) (e : ℕ) (xs : List ℕ) : Type 0 where
  pub kept : List ℕ
  pub dropped : List ℕ
  pub prefix : xs ≡ kept ++ dropped
  pub valid : IsValid d kept
  pub kept_entry : has e kept ≡ true
  pub same_value : (d.mem e).value ≡ (c.mem e).value
  pub same_size : (d.mem e).size ≡ (c.mem e).size
  pub fitted : IsFitted d e

not_dropped :
    (c : Cache) (e : ℕ) (xs : List ℕ)
    → IsValid c xs
    → has e xs ≡ true
    → IsFitted c e
    → IsPruned c c e xs
not_dropped c e xs v h f = record {
  kept = xs;
  dropped = [];
  prefix = sym (append-nil xs);
  valid = v;
  kept_entry = h;
  same_value = refl;
  same_size = refl;
  fitted = f;
}

dropped_last :
    (c d : Cache) (l e : ℕ) (ys : List ℕ)
    → l ≢ e
    → IsPruned (add_pruned (delete_entry c l)) d e ys
    → IsPruned c d e (ys ++ l ∷ [])
dropped_last c d l e ys n p = record {
  kept = p.kept;
  dropped = p.dropped ++ l ∷ [];
  prefix = ap (λ z. z ++ l ∷ []) p.prefix ∙ append_assoc p.kept p.dropped (l ∷ []);
  valid = p.valid;
  kept_entry = p.kept_entry;
  same_value = p.same_value ∙ delete_entry-other c l e n;
  same_size = p.same_size ∙ delete_entry-size c l e n;
  fitted = p.fitted;
}

-- The test of the loop.
abbrev drops : Cache → ℕ → ℕ → Bool
drops c e l =
    ltb c.max_size c.current_size
    && (not (l == e) && elim (c.mem l).value [ none ↦ false | some v ↦ true ])

drops-IsFitted : (c : Cache) (e l : ℕ) → c.last ≡ some l → drops c e l ≡ false → IsFitted c e
drops-IsFitted c e l p h = elim (Bool-cases (ltb c.max_size c.current_size)) [
  | inr t ↦ inl (ground arith)
  | inl t ↦ elim (Bool-cases (l == e)) [
    | inl q ↦ inr (l, p, inl (ground arith))
    | inr q ↦ elim (Option-cases (c.mem l).value) [
      | inl n ↦ inr (l, p, inr n)
      | inr (w, n) ↦ absurd (ground arith)
    ]
  ]
]

last-none : (c : Cache) (e : ℕ) (xs : List ℕ) → IsValid c xs → has e xs ≡ true → c.last ≢ none
last-none c e [] v h = absurd (ground arith)
last-none c e (x ∷ xs) v h =
    let (ys, k, q, r) = last-split none x xs in
    let s = Chain-last c.mem none c.first c.last (x ∷ xs) v.linked.0 in
    λ n. let z : none ≡ some k = sym n ∙ s ∙ r in cc

prune_stop :
    (fuel : ℕ) (c : Cache) (e l : ℕ)
    → c.last ≡ some l
    → drops c e l ≡ false
    → prune (suc fuel) c e ≡ c
unfolding prune
prune_stop fuel c e l p t = ground arith

prune_go :
    (fuel : ℕ) (c : Cache) (e l : ℕ)
    → c.last ≡ some l
    → drops c e l ≡ true
    → prune (suc fuel) c e ≡ prune fuel (add_pruned (delete_entry c l)) e
unfolding prune
prune_go fuel c e l p t = ground arith

prune-IsPruned :
    (fuel : ℕ) (c : Cache) (e : ℕ) (xs : List ℕ)
    → length xs ≤ fuel
    → IsValid c xs
    → has e xs ≡ true
    → IsPruned c (prune fuel c e) e xs
prune-IsPruned zero c e [] b v h = absurd (ground arith)
prune-IsPruned zero c e (x ∷ xs) b v h = absurd (omega arith)
prune-IsPruned (suc fuel) c e xs b v h = elim (Option-cases c.last) [
  | inl p ↦ absurd (last-none c e xs v h p)
  | inr (l, p) ↦ elim (Bool-cases (drops c e l)) [
    | inr t ↦
        subst (λ d. IsPruned c d e xs) (sym (prune_stop fuel c e l p t))
          (not_dropped c e xs v h (drops-IsFitted c e l p t))
    | inl t ↦
        let (ys, q) = last-at c l e xs v h p in
        let n : l ≢ e = λ r. ground arith in
        let w = subst (IsValid c) q v in
        let k = has-front e l ys (λ r. n (sym r)) (subst (λ z. has e z ≡ true) q h) in
        let d = add_pruned (delete_entry c l) in
        let r =
          prune-IsPruned fuel d e ys (omega (arith, b, ap length q, length-append ys (l ∷ [])))
            (drop_last-IsValid c l ys w) k in
        subst (λ z. IsPruned c z e xs) (sym (prune_go fuel c e l p t))
          (subst (IsPruned c (prune fuel d e) e) (sym q)
            (dropped_last c (prune fuel d e) l e ys n r))
  ]
]

stored :
    (c : Cache) (e value size : ℕ) (timeout : Option Time) (cost : ℕ)
    → (((store_value c e value size timeout cost).mem e).value ≡ some value)
      × (((store_value c e value size timeout cost).mem e).size ≡ size)
unfolding store_value
stored c e value size timeout cost = ground arith

-- What a store promises of the cache `d` that it leaves, whose list was `xs`.
pub record IsStored (d : Cache) (e value size : ℕ) (xs : List ℕ) : Type 0 where
  pub kept : List ℕ
  pub dropped : List ℕ
  pub prefix : xs ≡ kept ++ dropped
  pub valid : IsValid d kept
  pub kept_entry : has e kept ≡ true
  pub has_value : (d.mem e).value ≡ some value
  pub has_size : (d.mem e).size ≡ size
  pub fitted : (d.max_size ≡ 0) ⊎ IsFitted d e

-- With a round for each entry of the list, the store comes to its end: the entry has the value and the
-- size, entries were dropped from the end of the list only, the entry itself is not among them, and
-- then the cache fits its limit unless it has none or its last entry is the one stored or one without a
-- value.
pub set_value_expires-IsStored :
    (fuel : ℕ) (c : Cache) (e value size : ℕ) (timeout : Option Time) (cost : ℕ) (xs : List ℕ)
    → length xs ≤ fuel
    → IsValid c xs
    → has e xs ≡ true
    → IsStored (set_value_expires fuel c e value size timeout cost) e value size xs
unfolding set_value_expires
set_value_expires-IsStored fuel c e value size timeout cost xs b v h =
    let d = store_value c e value size timeout cost in
    let w : IsValid d xs = store_value-IsValid c e value size timeout cost xs h v in
    let (sv, sz) = stored c e value size timeout cost in
    let r = prune-IsPruned fuel d e xs b w h in
    let yes : IsStored (prune fuel d e) e value size xs = record {
      kept = r.kept;
      dropped = r.dropped;
      prefix = r.prefix;
      valid = r.valid;
      kept_entry = r.kept_entry;
      has_value = r.same_value ∙ sv;
      has_size = r.same_size ∙ sz;
      fitted = inr r.fitted;
    } in
    let no : (d.max_size ≡ 0) → IsStored d e value size xs = λ z. record {
      kept = xs;
      dropped = [];
      prefix = sym (append-nil xs);
      valid = w;
      kept_entry = h;
      has_value = sv;
      has_size = sz;
      fitted = inl z;
    } in
    elim (ltb 0 d.max_size)
        as (λ t.
          (ltb 0 d.max_size ≡ t) → IsStored (if t then prune fuel d e else d) e value size xs) [
            | true ↦ λ t. yes
            | false ↦ λ t. no (ground arith)
          ]
      refl
