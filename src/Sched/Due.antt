-- ===== src/Sched/Due.antt =====
-- nsd/sched.c: the loop of SchedThread that takes the events that are due from the queue.
use anansi.Common.{
  ℕ, zero, suc, ◌/◌, ◌≤◌, ◌<◌, ◌≡◌, ◌≢◌, ◌↔◌, refl, ap, subst, ◌∙◌, true, false, ◌&&◌, arith, ltb,
  leb, if◌then◌else◌, inl, inr, Bool-cases, List, ◌∷◌,
}
use anansi.Sched.{Sched, key, dequeue_event, start_due, take_due}
use anansi.Sched.Links.{qid_of, IsLinked}
use anansi.Sched.Queue.{IsQueued, IsValid, key_first-le, dequeue_event_first}

-- Two states with the same queue: they may differ in the other parts of their events.
pub record SameQueue (s t : Sched) : Type 0 where
  pub slots : (i : ℕ) → t.queue i ≡ s.queue i
  pub count : t.nqueue ≡ s.nqueue
  pub qids : (e : ℕ) → qid_of t e ≡ qid_of s e
  pub times : (e : ℕ) → (t.ev e).nextqueue ≡ (s.ev e).nextqueue

pub SameQueue-IsLinked : {s t : Sched} → SameQueue s t → IsLinked s → IsLinked t
SameQueue-IsLinked {s} {t} q v = record {
  slot = λ i a b. rw (q.slots i, q.qids (s.queue i)) (v.slot i a (omega (arith, q.count)));
  inside = λ e h. omega (arith, q.qids e, q.count, v.inside e);
  held = λ e h. rw (q.qids e, q.slots (qid_of s e)) (v.held e (omega (arith, q.qids e)));
}

pub SameQueue-key : {s t : Sched} → SameQueue s t → (i : ℕ) → key t i ≡ key s i
SameQueue-key {s} {t} q i = ap (λ a. (t.ev a).nextqueue) (q.slots i) ∙ q.times (s.queue i)

pub SameQueue-IsValid : {s t : Sched} → SameQueue s t → IsValid s → IsValid t
SameQueue-IsValid {s} {t} q v = record {
  linked = SameQueue-IsLinked q v.linked;
  heap = λ i a b.
      rw (SameQueue-key q i, SameQueue-key q (i / 2)) (v.heap i a (omega (arith, q.count)));
}

start_due-SameQueue : (s : Sched) (e now : ℕ) → SameQueue s (start_due s e now)
unfolding start_due
start_due-SameQueue s e now = record {
  slots = λ i. refl;
  count = refl;
  qids = λ a. ground arith;
  times = λ a. ground arith;
}

-- In an empty queue no event is queued.
none-IsQueued : (s : Sched) → IsLinked s → s.nqueue ≡ 0 → (e : ℕ) → ¬ IsQueued s e
none-IsQueued s v z e h = omega (arith, v.inside e h)

test-false :
    (s : Sched) (now : ℕ)
    → (ltb 0 s.nqueue && leb (key s 1) now) ≡ false
    → 0 < s.nqueue
    → now < key s 1
test-false s now h p = ground arith

test-true :
    (s : Sched) (now : ℕ)
    → (ltb 0 s.nqueue && leb (key s 1) now) ≡ true
    → (0 < s.nqueue) × (key s 1 ≤ now)
test-true s now h = ground arith

-- With a round for each event of a valid queue, the loop ends with a valid queue of just those
-- events that were queued and are not due yet.
pub take_due-IsQueued :
    (fuel : ℕ) (s : Sched) (now : ℕ) (threads ready : List ℕ)
    → IsValid s
    → s.nqueue ≤ fuel
    → IsValid (take_due fuel s now threads ready).0
      × ((e : ℕ)
          → IsQueued (take_due fuel s now threads ready).0 e
            ↔ (IsQueued s e × (now < (s.ev e).nextqueue)))
unfolding take_due
take_due-IsQueued zero s now threads ready v h =
    (v, λ e. ((λ a. absurd (none-IsQueued s v.linked (omega arith) e a)), (λ a. a.0)))
take_due-IsQueued (suc fuel) s now threads ready v h =
    elim (Bool-cases (ltb 0 s.nqueue && leb (key s 1) now)) [
      | inr f ↦ rw f (
        v,
        λ e. (
          (λ a.
              let p : 0 < s.nqueue = omega (arith, v.linked.inside e a) in
              let i = qid_of s e in
              let l =
                key_first-le (key s) s.nqueue i i v.heap a (v.linked.inside e a) (omega arith) in
              let l' = subst (λ b. key s 1 ≤ (s.ev b).nextqueue) (v.linked.held e a) l in
              (a, omega (arith, test-false s now f p))),
          (λ a. a.0),
        ),
      )
      | inl f ↦
          let (p, l) = test-true s now f in
          let (x, w, d, _) = dequeue_event_first s v p in
          let r = (dequeue_event s 1).0 in
          let e1 = (dequeue_event s 1).1 in
          let t = start_due r e1 now in
          let q = start_due-SameQueue r e1 now in
          let on_thread = (r.ev e1).flags.thread in
          let (u, g) =
            take_due-IsQueued fuel t now (if on_thread then e1 ∷ threads else threads)
              (if on_thread then ready else e1 ∷ ready) (SameQueue-IsValid q w)
              (omega (arith, q.count, d.count)) in
          rw f (
            u,
            λ e. (
              (λ a.
                  let (b, c) = (g e).0 a in
                  let (b', ne) = (d.queued e).0 (omega (arith, q.qids e)) in
                  (b', omega (arith, q.times e, d.times e))),
              (λ a.
                  let ne : e ≢ s.queue 1 =
                    λ z. let y = subst (λ b. now < (s.ev b).nextqueue) z a.1 in omega arith in
                  let b = (d.queued e).1 (a.0, ne) in
                  (g e).1 (omega (arith, q.qids e), omega (arith, q.times e, d.times e))),
            ),
          )
    ]
