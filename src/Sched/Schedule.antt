-- ===== src/Sched/Schedule.antt =====
-- nsd/sched.c: what `Ns_ScheduleProcEx` does to the queue.
use anansi.Common.{
  update, ℕ, ◌+◌, ◌<◌, ◌≤◌, ◌/◌, ◌≡◌, ◌⊎◌, ◌↔◌, inl, inr, refl, ap, ◌∙◌, true, false, none, some,
  arith, ◌==◌, if◌then◌else◌, ==_iff,
}
use anansi.Sched.{Event, Flags, Sched, Calendar, fresh_id, schedule_proc_ex, next_time}
use anansi.Sched.Links.{qid_of}
use anansi.Sched.Queue.{IsQueued, IsValid, queue_event-Enqueued}

abbrev pub new_event : ℕ → Flags → ℕ → Event
new_event id flags interval = record {
  id = id;
  qid = 0;
  hashed = true;
  nextqueue = 0;
  lastqueue = none;
  laststart = none;
  lastend = none;
  flags = flags;
  interval = interval;
}

-- The state with the new event, before it is queued.
unfoldable registered : Sched → Flags → ℕ → ℕ → ℕ → Sched
registered s flags interval id next = record s {
  ev = update s.ev s.next_addr (new_event id flags interval);
  table = update s.table id (some s.next_addr);
  next_id = next;
  next_addr = s.next_addr + 1;
}

module _ (s : Sched) (v : IsValid s) (free : qid_of s s.next_addr ≡ 0) where
  registered-IsValid :
      (flags : Flags) (interval id next : ℕ) → IsValid (registered s flags interval id next)
  unfolding registered
  registered-IsValid flags interval id next =
      let other : (i : ℕ) → 0 < i → i ≤ s.nqueue → (s.queue i == s.next_addr) ≡ false =
        λ i a b. let q = v.linked.slot i a b in ground arith in
      let same : (i : ℕ)
          → 0 < i
          → i ≤ s.nqueue
          → update s.ev s.next_addr (new_event id flags interval) (s.queue i) ≡ s.ev (s.queue i) =
        λ i a b.
          ap (λ x. if x then new_event id flags interval else s.ev (s.queue i)) (other i a b) in
      record {
        linked = record {
          slot = λ i a b. ap (λ x. x.qid) (same i a b) ∙ v.linked.slot i a b;
          inside = λ e h. ground (arith, v.linked.inside e);
          held = λ e h. ground (arith, v.linked.held e);
        };
        heap = λ i a b.
            let p = ap (λ x. x.nextqueue) (same i (omega arith) b) in
            let q = ap (λ x. x.nextqueue) (same (i / 2) (omega arith) (omega arith)) in
            omega (arith, v.heap i a b);
      }

  registered-IsQueued :
      (flags : Flags) (interval id next a : ℕ)
      → IsQueued (registered s flags interval id next) a ↔ IsQueued s a
  unfolding registered
  registered-IsQueued flags interval id next a = ground arith

  -- In a valid queue, before shutdown, where an unused id is found and the memory of the new event is
  -- not that of a queued one, `schedule_proc_ex` of flags that are not paused returns the id and adds
  -- the new event, alone, to the queue, at its next time; the queue stays valid.
  pub schedule_proc_ex_lem :
      (c : Calendar) (fuel : ℕ) (flags : Flags) (interval now id next : ℕ)
      → s.shutdown_pending ≡ false
      → fresh_id s.table fuel s.next_id ≡ some (id, next)
      → flags.paused ≡ false
      → ((schedule_proc_ex c fuel s flags interval now).1 ≡ some id)
        × IsValid (schedule_proc_ex c fuel s flags interval now).0
        × (((schedule_proc_ex c fuel s flags interval now).0.ev s.next_addr).nextqueue
            ≡ next_time c (new_event id flags interval) now)
        × ((a : ℕ)
            → IsQueued (schedule_proc_ex c fuel s flags interval now).0 a
              ↔ (IsQueued s a ⊎ (a ≡ s.next_addr)))
  unfolding schedule_proc_ex registered
  schedule_proc_ex_lem c fuel flags interval now id next up found unpaused =
      let t : Sched = registered s flags interval id next in
      let here : t.ev s.next_addr ≡ new_event id flags interval =
        ap (λ x. if x then new_event id flags interval else s.ev s.next_addr)
          ((==_iff s.next_addr s.next_addr).1 refl) in
      let r = registered-IsQueued flags interval id next in
      let (w, n) =
        (queue_event-Enqueued c t s.next_addr now (registered-IsValid flags interval id next)
            (ap (λ x. x.qid) here)).1
          (ap (λ x. x.flags.paused) here ∙ unpaused) in
      rw (up, found)
        (
          refl,
          w,
          n.at ∙ ap (λ x. next_time c x now) here,
          λ a. (
            (λ b. elim ((n.queued a).0 b) [ inl x ↦ inl ((r a).0 x) | inr x ↦ inr x ]),
            (λ b. (n.queued a).1 (elim b [ inl x ↦ inl ((r a).1 x) | inr x ↦ inr x ])),
          ),
        )
