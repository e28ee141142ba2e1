-- ===== src/Sched/Links.antt =====
-- nsd/sched.c: the queue and the `qid` of the events in it point at one another.
use anansi.Common.{
  ℕ, zero, suc, ◌*◌, ◌/◌, ◌≤◌, ◌<◌, ◌≡◌, refl, ◌∙◌, ◌&&◌, arith, ltb, leb, inl, inr, Bool-cases,
  leb→le,
}
use anansi.Sched.{Sched, exchange, key, up, child, down}
use anansi.Sched.Order.{nqueue-exchange, up_test-true, child_lem}

abbrev pub qid_of : Sched → ℕ → ℕ
qid_of s e = (s.ev e).qid

-- Each slot in use holds an event that knows its slot, and an event with a slot is in it: `qid` is
-- zero exactly for the events that are not queued, and no event is queued twice.
pub record IsLinked (s : Sched) : Type 0 where
  pub slot : (i : ℕ) → 0 < i → i ≤ s.nqueue → qid_of s (s.queue i) ≡ i
  pub inside : (e : ℕ) → 0 < qid_of s e → qid_of s e ≤ s.nqueue
  pub held : (e : ℕ) → 0 < qid_of s e → s.queue (qid_of s e) ≡ e

-- What the moves of the heap leave as it is: the number of events, their times, and which events
-- are queued.
pub record Keeps (s t : Sched) : Type 0 where
  pub same_nqueue : t.nqueue ≡ s.nqueue
  pub same_table : t.table ≡ s.table
  pub same_time : (e : ℕ) → (t.ev e).nextqueue ≡ (s.ev e).nextqueue
  pub same_flags : (e : ℕ) → (t.ev e).flags ≡ (s.ev e).flags
  pub still_queued : (e : ℕ) → 0 < qid_of s e → 0 < qid_of t e
  pub was_queued : (e : ℕ) → 0 < qid_of t e → 0 < qid_of s e

pub Keeps-refl : (s : Sched) → Keeps s s
Keeps-refl s = record {
  same_nqueue = refl;
  same_table = refl;
  same_time = λ e. refl;
  same_flags = λ e. refl;
  still_queued = λ e h. h;
  was_queued = λ e h. h;
}

pub Keeps-trans : {s t u : Sched} → Keeps s t → Keeps t u → Keeps s u
Keeps-trans a b = record {
  same_nqueue = b.same_nqueue ∙ a.same_nqueue;
  same_table = b.same_table ∙ a.same_table;
  same_time = λ e. b.same_time e ∙ a.same_time e;
  same_flags = λ e. b.same_flags e ∙ a.same_flags e;
  still_queued = λ e h. b.still_queued e (a.still_queued e h);
  was_queued = λ e h. a.was_queued e (b.was_queued e h);
}

module _ (s : Sched) (v : IsLinked s) (i j : ℕ) (pi : 0 < i) (li : i ≤ s.nqueue) (pj : 0 < j)
    (lj : j ≤ s.nqueue) where
  pub exchange-IsLinked : IsLinked (exchange s i j)
  unfolding exchange
  exchange-IsLinked = record {
    slot = λ k a b. ground (arith, v.slot k a b, v.slot i pi li, v.slot j pj lj);
    inside = λ e h. ground (arith, v.inside e);
    held = λ e h. ground (arith, v.held e, v.slot i pi li, v.slot j pj lj);
  }

  pub exchange-Keeps : Keeps s (exchange s i j)
  unfolding exchange
  exchange-Keeps = record {
    same_nqueue = refl;
    same_table = refl;
    same_time = λ e. ground arith;
    same_flags = λ e. ground arith;
    still_queued = λ e h. ground arith;
    was_queued = λ e h. ground (arith, v.slot i pi li, v.slot j pj lj);
  }

pub up-IsLinked :
    (fuel : ℕ) (s : Sched) (k : ℕ)
    → IsLinked s
    → k ≤ s.nqueue
    → IsLinked (up fuel s k) × Keeps s (up fuel s k)
unfolding up
up-IsLinked zero s k v h = (v, Keeps-refl s)
up-IsLinked (suc fuel) s k v h = elim (Bool-cases (ltb 1 k && ltb (key s k) (key s (k / 2)))) [
  | inr e ↦ rw e (v, Keeps-refl s)
  | inl e ↦
      let (p, _) = up_test-true s k e in
      let a : 0 < k / 2 = omega arith in
      let b : k / 2 ≤ s.nqueue = omega arith in
      let c : 0 < k = omega arith in
      let t = exchange s (k / 2) k in
      let (w, m) =
        up-IsLinked fuel t (k / 2) (exchange-IsLinked s v (k / 2) k a b c h)
          (rw (nqueue-exchange s (k / 2) k) b) in
      rw e (w, Keeps-trans (exchange-Keeps s v (k / 2) k a b c h) m)
]

pub down-IsLinked :
    (fuel : ℕ) (s : Sched) (k : ℕ)
    → IsLinked s
    → 0 < k
    → IsLinked (down fuel s k) × Keeps s (down fuel s k)
unfolding down
down-IsLinked zero s k v h = (v, Keeps-refl s)
down-IsLinked (suc fuel) s k v h = elim (Bool-cases (leb (2 * k) s.nqueue)) [
  | inr e ↦ rw e (v, Keeps-refl s)
  | inl e ↦
      let j = child s k in
      let le = leb→le (2 * k) s.nqueue e in
      let (c1, c2, c3, c4) = child_lem s k h le in
      elim (Bool-cases (ltb (key s k) (key s j))) [
        | inl f ↦ rw (e, f) (v, Keeps-refl s)
        | inr f ↦
            let a : k ≤ s.nqueue = omega arith in
            let b : 0 < j = omega arith in
            let (w, m) =
              down-IsLinked fuel (exchange s k j) j (exchange-IsLinked s v k j h a b c1) b in
            rw (e, f) (w, Keeps-trans (exchange-Keeps s v k j h a b c1) m)
      ]
]
