-- ===== src/Sched/Twice.antt =====
-- nsd/sched.c: an event that is resumed while it runs is put into the queue a second time when its
-- run ends.
use anansi.Common.{
  update, ℕ, zero, suc, ◌+◌, ◌/◌, ◌≤◌, ◌<◌, ◌≡◌, refl, sym, ap, subst, ◌∙◌, true, false, ◌&&◌,
  arith, ltb, ◌==◌, if◌then◌else◌, inl, inr, Bool-cases, some,
}
use anansi.Sched.{
  Sched, Calendar, exchange, key, up, append_event, place_last, next_time, queue_event, flag_paused,
  resume, finish,
}
use anansi.Sched.Order.{nqueue-exchange, up_test-true}
use anansi.Sched.Links.{qid_of, IsLinked}
use anansi.Sched.Queue.{IsQueued, IsValid, queue_event-Enqueued}
use anansi.Sched.Due.{SameQueue, SameQueue-IsValid, SameQueue-IsLinked}
use anansi.Sched.Control.{flag_paused-SameQueue, flag_paused-flags, resume-eq}

-- Two slots hold the event `e`.
pub record IsTwice (s : Sched) (e : ℕ) : Type 0 where
  pub i : ℕ
  pub j : ℕ
  pub lower : 0 < i
  pub apart : i < j
  pub upper : j ≤ s.nqueue
  pub at_i : s.queue i ≡ e
  pub at_j : s.queue j ≡ e

IsTwice-not-IsLinked : (s : Sched) (e : ℕ) → IsTwice s e → ¬ IsLinked s
IsTwice-not-IsLinked s e t v =
    let a = v.slot t.i t.lower (omega (arith, t.apart, t.upper)) in
    let b = v.slot t.j (omega (arith, t.apart)) t.upper in
    let p : qid_of s (s.queue t.i) ≡ qid_of s (s.queue t.j) = ap (qid_of s) (t.at_i ∙ sym t.at_j) in
    omega (arith, t.apart)

-- Where the element of slot `k` stands after the exchange of `a` and `b`.
abbrev moved : ℕ → ℕ → ℕ → ℕ
moved a b k = if k == a then b else if k == b then a else k

queue-exchange : (s : Sched) (a b k : ℕ) → (exchange s a b).queue (moved a b k) ≡ s.queue k
unfolding exchange
queue-exchange s a b k = ground arith

IsTwice-exchange :
    (s : Sched) (e a b : ℕ)
    → 0 < a
    → a ≤ s.nqueue
    → 0 < b
    → b ≤ s.nqueue
    → IsTwice s e
    → IsTwice (exchange s a b) e
IsTwice-exchange s e a b pa la pb lb t =
    let x = exchange s a b in
    let n = nqueue-exchange s a b in
    let i = moved a b t.i in
    let j = moved a b t.j in
    let p = queue-exchange s a b t.i ∙ t.at_i in
    let q = queue-exchange s a b t.j ∙ t.at_j in
    let lo = t.lower in
    let ap' = t.apart in
    let hi = t.upper in
    elim (Bool-cases (ltb i j)) [
      | inl h ↦ record {
        i = i;
        j = j;
        lower = ground arith;
        apart = ground arith;
        upper = ground arith;
        at_i = p;
        at_j = q;
      }
      | inr h ↦ record {
        i = j;
        j = i;
        lower = ground arith;
        apart = ground arith;
        upper = ground arith;
        at_i = q;
        at_j = p;
      }
    ]

IsTwice-up : (fuel : ℕ) (s : Sched) (k e : ℕ) → k ≤ s.nqueue → IsTwice s e → IsTwice (up fuel s k) e
unfolding up
IsTwice-up zero s k e h t = t
IsTwice-up (suc fuel) s k e h t = elim (Bool-cases (ltb 1 k && ltb (key s k) (key s (k / 2)))) [
  | inr f ↦ rw f t
  | inl f ↦
      let (p, _) = up_test-true s k f in
      rw f (
        IsTwice-up fuel (exchange s (k / 2) k) (k / 2) e
          (rw (nqueue-exchange s (k / 2) k) (omega arith))
          (IsTwice-exchange s e (k / 2) k (omega arith) (omega arith) (omega arith) h t))
]

append_event-IsTwice :
    (s : Sched) (e time : ℕ) → IsLinked s → IsQueued s e → IsTwice (append_event s e time) e
unfolding append_event
append_event-IsTwice s e time v h = record {
  i = qid_of s e;
  j = s.nqueue + 1;
  lower = h;
  apart = omega (arith, v.inside e h);
  upper = omega arith;
  at_i = ground (arith, v.inside e h, v.held e h);
  at_j = ground arith;
}

place_last-IsTwice :
    (s : Sched) (e time : ℕ)
    → IsLinked s
    → IsQueued s e
    → IsTwice (place_last (append_event s e time)) e
unfolding place_last
place_last-IsTwice s e time v h =
    let a = append_event s e time in
    let t = append_event-IsTwice s e time v h in
    elim (Bool-cases (ltb 1 a.nqueue)) [
      | inl f ↦ rw f (IsTwice-up a.nqueue a a.nqueue e (omega arith) t)
      | inr f ↦ rw f t
    ]

-- `queue_event` does not look whether the event is queued: one that is gets a second slot.
pub queue_event-IsTwice :
    (c : Calendar) (s : Sched) (e now : ℕ)
    → IsLinked s
    → IsQueued s e
    → (s.ev e).flags.paused ≡ false
    → IsTwice (queue_event c s e now) e
unfolding queue_event
queue_event-IsTwice c s e now v h f =
    let placed = place_last (append_event s e (next_time c (s.ev e) now)) in
    let z : queue_event c s e now ≡ placed = ap (λ b. if b then s else placed) f in
    subst (λ t. IsTwice t e) (sym z) (place_last-IsTwice s e (next_time c (s.ev e) now) v h)

-- The event as `finish` leaves it, before it is queued again.
ended : Sched → ℕ → ℕ → Sched
ended s e now = record s {
  ev =
      update s.ev e (record (s.ev e) {
        flags = record ((s.ev e).flags) { running = false };
        lastend = some now;
      });
}

ended-SameQueue : (s : Sched) (e now : ℕ) → SameQueue s (ended s e now)
unfolding ended
ended-SameQueue s e now = record {
  slots = λ i. refl;
  count = refl;
  qids = λ a. ground arith;
  times = λ a. ground arith;
}

ended-paused : (s : Sched) (e now : ℕ) → ((ended s e now).ev e).flags.paused ≡ (s.ev e).flags.paused
unfolding ended
ended-paused s e now = ground arith

-- Before shutdown, a known event that is paused and not queued, as one that was paused during its
-- run, and that is resumed before the run ends, stands in two slots of the queue once the run has
-- ended: the queue and its events no longer point at one another.
pub resume-finish-IsTwice :
    (c : Calendar) (s : Sched) (id e now later : ℕ)
    → IsValid s
    → s.shutdown_pending ≡ false
    → s.table id ≡ some e
    → (s.ev e).flags.paused ≡ true
    → qid_of s e ≡ 0
    → IsTwice (finish c (resume c s id now).0 e later) e
      × (¬ IsLinked (finish c (resume c s id now).0 e later))
unfolding finish ended
resume-finish-IsTwice c s id e now later v up known f free =
    let q = flag_paused-SameQueue s e false in
    let p = flag_paused-flags s e false in
    let (w, n) =
      (queue_event-Enqueued c (flag_paused s e false) e now (SameQueue-IsValid q v)
          (q.qids e ∙ free)).1
        p in
    let r = queue_event c (flag_paused s e false) e now in
    let u = ended-SameQueue r e later in
    let t =
      queue_event-IsTwice c (ended r e later) e later (SameQueue-IsLinked u w.linked)
        (omega (arith, u.qids e, (n.queued e).1 (inr refl)))
        (ended-paused r e later ∙ ap (λ x. x.paused) (n.flags e) ∙ p) in
    rw (resume-eq s id e up known c now f) (t, IsTwice-not-IsLinked _ e t)
