-- ===== src/Sched/Queue.antt =====
-- nsd/sched.c: `QueueEvent` and `DeQueueEvent`.
use anansi.Common.{
  ℕ, zero, suc, ◌+◌, ◌-◌, ◌*◌, ◌/◌, ◌≤◌, ◌<◌, ◌≡◌, ◌≢◌, ◌↔◌, refl, sym, ap, subst, ◌∙◌, true, false,
  arith, ltb, leb, if◌then◌else◌, ◌⊎◌, inl, inr, Bool-cases, leb→le, ltb→lt, lt→ltb,
}
use anansi.Sched.{
  Sched, Calendar, set_qid, exchange, key, child, down, dequeue_event, append_event, place_last,
  next_time, queue_event,
}
use anansi.Sched.Swap.{swapped, key-exchange, IsHeap, IsHeapUp, IsHeapDown}
use anansi.Sched.Order.{nqueue-exchange, up-IsHeap, down-IsHeap, child_lem}
use anansi.Sched.Links.{
  qid_of, IsLinked, Keeps, exchange-IsLinked, exchange-Keeps, up-IsLinked, down-IsLinked,
}

-- The event at `e` is in the queue.
abbrev pub IsQueued : Sched → ℕ → Type 0
IsQueued s e = 0 < qid_of s e

-- The state of the queue: linked, and in the order of a heap.
pub record IsValid (s : Sched) : Type 0 where
  pub linked : IsLinked s
  pub heap : IsHeap (key s) s.nqueue

-- In a heap no event is due before the first.
pub key_first-le : (f : ℕ → ℕ) (n fuel i : ℕ) → IsHeap f n → 0 < i → i ≤ n → i ≤ fuel → f 1 ≤ f i
key_first-le f n zero i h p l b = absurd (omega arith)
key_first-le f n (suc fuel) i h p l b = elim (Bool-cases (ltb 1 i)) [
  | inl e ↦
      let q = ltb→lt 1 i e in
      omega
        (arith, h i q l, key_first-le f n fuel (i / 2) h (omega arith) (omega arith) (omega arith))
  | inr e ↦ let z : i ≡ 1 = ground arith in rw z (omega arith)
]

-- The event `e` was taken out of the queue, and no other; all times stay.
pub record Dequeued (s t : Sched) (e : ℕ) : Type 0 where
  pub count : t.nqueue + 1 ≡ s.nqueue
  pub table : t.table ≡ s.table
  pub queued : (a : ℕ) → IsQueued t a ↔ (IsQueued s a × (a ≢ e))
  pub times : (a : ℕ) → (t.ev a).nextqueue ≡ (s.ev a).nextqueue
  pub flags : (a : ℕ) → (t.ev a).flags ≡ (s.ev a).flags

-- The event `e` was added to the queue, to run at `time`; other times stay.
pub record Enqueued (s t : Sched) (e time : ℕ) : Type 0 where
  pub count : t.nqueue ≡ s.nqueue + 1
  pub queued : (a : ℕ) → IsQueued t a ↔ (IsQueued s a ⊎ (a ≡ e))
  pub at : (t.ev e).nextqueue ≡ time
  pub times : (a : ℕ) → a ≢ e → (t.ev a).nextqueue ≡ (s.ev a).nextqueue
  pub flags : (a : ℕ) → (t.ev a).flags ≡ (s.ev a).flags

-- The last event in the slot `q`, and the event that was there set free.
module _ (s : Sched) (v : IsLinked s) (q : ℕ) (pq : 0 < q) (lq : q ≤ s.nqueue) where
  pub freed : Sched
  freed =
      let x = exchange s q s.nqueue in
      record x { nqueue = x.nqueue - 1; ev = set_qid x.ev (x.queue x.nqueue) 0 }

  last-exchange : (exchange s q s.nqueue).queue (exchange s q s.nqueue).nqueue ≡ s.queue q
  unfolding exchange
  last-exchange = ground arith

  freed-IsLinked : IsLinked freed
  unfolding freed
  freed-IsLinked =
      let x = exchange s q s.nqueue in
      let w = exchange-IsLinked s v q s.nqueue pq lq (omega arith) (omega arith) in
      let n = nqueue-exchange s q s.nqueue in
      record {
        slot = λ i a b. ground (arith, w.slot i a (omega arith), w.slot x.nqueue);
        inside = λ e h. ground (arith, w.inside e, w.held e);
        held = λ e h. ground (arith, w.held e);
      }

  freed-IsQueued : (e : ℕ) → IsQueued freed e ↔ (IsQueued s e × (e ≢ s.queue q))
  unfolding freed
  freed-IsQueued e =
      let x = exchange s q s.nqueue in
      let k = exchange-Keeps s v q s.nqueue pq lq (omega arith) (omega arith) in
      let l = last-exchange in
      (
        (λ h. (ground (arith, k.was_queued e), ground arith)),
        (λ h. ground (arith, k.still_queued e)),
      )

  freed-time : (e : ℕ) → (freed.ev e).nextqueue ≡ (s.ev e).nextqueue
  unfolding freed
  freed-time e =
      let k = exchange-Keeps s v q s.nqueue pq lq (omega arith) (omega arith) in
      ground (arith, k.same_time e)

  freed-flags : (e : ℕ) → (freed.ev e).flags ≡ (s.ev e).flags
  unfolding freed
  freed-flags e =
      let k = exchange-Keeps s v q s.nqueue pq lq (omega arith) (omega arith) in
      ground (arith, k.same_flags e)

  freed-table : freed.table ≡ s.table
  unfolding freed
  freed-table = (exchange-Keeps s v q s.nqueue pq lq (omega arith) (omega arith)).same_table

  freed-nqueue : freed.nqueue ≡ s.nqueue - 1
  unfolding freed
  freed-nqueue = ap (λ m. m - 1) (nqueue-exchange s q s.nqueue)

  freed-key : (i : ℕ) → key freed i ≡ swapped (key s) q s.nqueue i
  unfolding freed
  freed-key i = ground (arith, key-exchange s q s.nqueue i)

  freed-IsHeapDown :
      IsHeap (key s) s.nqueue
      → (1 < q → key s (q / 2) ≤ key s s.nqueue)
      → IsHeapDown (key freed) freed.nqueue q
  freed-IsHeapDown h c =
      let n = freed-nqueue in
      record {
        order =
            λ i a b d. rw (freed-key i, freed-key (i / 2)) (ground (arith, h i a (omega arith), c));
        around = λ i a b d.
            rw (freed-key i, freed-key (q / 2))
              (ground (arith, h i (omega arith) (omega arith), h q a lq));
      }

  dequeue_event-freed : dequeue_event s q ≡ (down freed.nqueue freed q, s.queue q)
  unfolding dequeue_event freed
  dequeue_event-freed = λ i. (down freed.nqueue freed q, last-exchange i)

  -- `dequeue_event` returns the event in the slot and takes this one event out of the queue.
  pub dequeue_event-Dequeued :
      ((dequeue_event s q).1 ≡ s.queue q)
      × IsLinked (dequeue_event s q).0
      × Dequeued s (dequeue_event s q).0 (s.queue q)
  dequeue_event-Dequeued =
      let (w, k) = down-IsLinked freed.nqueue freed q freed-IsLinked pq in
      rw dequeue_event-freed (
        refl,
        w,
        record {
          count = omega (arith, k.same_nqueue, freed-nqueue);
          table = k.same_table ∙ freed-table;
          queued = λ e.
              let (f, g) = freed-IsQueued e in
              ((λ h. f (k.was_queued e h)), (λ h. k.still_queued e (g h)));
          times = λ e. k.same_time e ∙ freed-time e;
          flags = λ e. k.same_flags e ∙ freed-flags e;
        },
      )

  -- Taking the event out of a slot of a linked queue in order leaves it so, where the last event is
  -- not due before the parent of that slot: the loop only moves events down.
  pub dequeue_event-IsHeap :
      IsHeap (key s) s.nqueue
      → (1 < q → key s (q / 2) ≤ key s s.nqueue)
      → IsValid (dequeue_event s q).0
  dequeue_event-IsHeap h c =
      let (w, _) = down-IsLinked freed.nqueue freed q freed-IsLinked pq in
      rw dequeue_event-freed (record {
        linked = w;
        heap = (down-IsHeap freed.nqueue freed q pq (omega arith) (freed-IsHeapDown h c)).0;
      })

-- In a valid queue that is not empty the first event is due no later than any other, and taking it
-- out, and no other, leaves a valid queue.
pub dequeue_event_first :
    (s : Sched)
    → IsValid s
    → 0 < s.nqueue
    → ((dequeue_event s 1).1 ≡ s.queue 1)
      × IsValid (dequeue_event s 1).0
      × Dequeued s (dequeue_event s 1).0 (s.queue 1)
      × ((e : ℕ) → IsQueued s e → (s.ev (s.queue 1)).nextqueue ≤ (s.ev e).nextqueue)
dequeue_event_first s v p =
    let (e, _, d) = dequeue_event-Dequeued s v.linked 1 (omega arith) p in
    (
      e,
      dequeue_event-IsHeap s v.linked 1 (omega arith) p v.heap (λ h. absurd (omega arith)),
      d,
      λ a h.
          let i = qid_of s a in
          let l = key_first-le (key s) s.nqueue i i v.heap h (v.linked.inside a h) (omega arith) in
          subst (λ b. (s.ev (s.queue 1)).nextqueue ≤ (s.ev b).nextqueue) (v.linked.held a h) l,
    )

module _ (s : Sched) (e time : ℕ) (v : IsValid s) (free : qid_of s e ≡ 0) where
  append_event-IsLinked : IsLinked (append_event s e time)
  unfolding append_event
  append_event-IsLinked =
      let w = v.linked in
      record {
        slot = λ i a b. ground (arith, w.slot i);
        inside = λ a h. ground (arith, w.inside a);
        held = λ a h. ground (arith, w.held a, w.inside a);
      }

  append_event-IsHeapUp :
      IsHeapUp
        (key (append_event s e time))
        (append_event s e time).nqueue
        (append_event s e time).nqueue
  unfolding append_event
  append_event-IsHeapUp =
      let w = v.linked in
      record {
        order = λ i a b c. ground (arith, v.heap i a, w.slot i, w.slot (i / 2));
        around = λ i a b c. absurd (omega arith);
      }

  append_event-Enqueued : Enqueued s (append_event s e time) e time
  unfolding append_event
  append_event-Enqueued = record {
    count = refl;
    queued = λ a. ((λ h. ground arith), (λ h. ground arith));
    at = ground arith;
    times = λ a h. ground arith;
    flags = λ a. ground arith;
  }

pub Keeps-Enqueued :
    {s t u : Sched} {e time : ℕ} → Enqueued s t e time → Keeps t u → Enqueued s u e time
Keeps-Enqueued {e = e} a k = record {
  count = k.same_nqueue ∙ a.count;
  queued =
      λ b. ((λ h. (a.queued b).0 (k.was_queued b h)), (λ h. k.still_queued b ((a.queued b).1 h)));
  at = k.same_time e ∙ a.at;
  times = λ b h. k.same_time b ∙ a.times b h;
  flags = λ b. k.same_flags b ∙ a.flags b;
}

place_last-Enqueued :
    (s : Sched) (e time : ℕ)
    → IsValid s
    → qid_of s e ≡ 0
    → IsValid (place_last (append_event s e time))
      × Enqueued s (place_last (append_event s e time)) e time
unfolding place_last
place_last-Enqueued s e time v free =
    let a = append_event s e time in
    let w = append_event-IsLinked s e time v free in
    let u = append_event-IsHeapUp s e time v free in
    let q = append_event-Enqueued s e time v free in
    let (l, k) = up-IsLinked a.nqueue a a.nqueue w (omega arith) in
    let o = (up-IsHeap a.nqueue a a.nqueue (omega arith) (omega arith) u).0 in
    elim (Bool-cases (ltb 1 a.nqueue)) [
      | inl h ↦ rw h (record { linked = l; heap = o }, Keeps-Enqueued q k)
      | inr h ↦ rw h (record { linked = w; heap = λ i x y. absurd (ground arith) }, q)
    ]

-- To a valid queue `queue_event` adds an event that is neither paused nor queued, at its next time,
-- and keeps the queue valid. A paused event is left alone.
pub queue_event-Enqueued :
    (c : Calendar) (s : Sched) (e now : ℕ)
    → IsValid s
    → qid_of s e ≡ 0
    → ((s.ev e).flags.paused ≡ true → queue_event c s e now ≡ s)
      × ((s.ev e).flags.paused ≡ false
          → IsValid (queue_event c s e now)
            × Enqueued s (queue_event c s e now) e (next_time c (s.ev e) now))
unfolding queue_event
queue_event-Enqueued c s e now v free =
    let time = next_time c (s.ev e) now in
    let placed = place_last (append_event s e time) in
    (
      (λ p. ap (λ b. if b then s else placed) p),
      λ p.
          let z : queue_event c s e now ≡ placed = ap (λ b. if b then s else placed) p in
          subst (λ t. IsValid t × Enqueued s t e time) (sym z)
            (place_last-Enqueued s e time v free),
    )

down-stop :
    (fuel : ℕ) (s : Sched) (k : ℕ)
    → 0 < k
    → ((i : ℕ) → i ≤ s.nqueue → i / 2 ≡ k → key s k < key s i)
    → down fuel s k ≡ s
unfolding down
down-stop zero s k p h = refl
down-stop (suc fuel) s k p h = elim (Bool-cases (leb (2 * k) s.nqueue)) [
  | inr e ↦ rw e
  | inl e ↦
      let (c1, c2, c3, c4) = child_lem s k p (leb→le (2 * k) s.nqueue e) in
      rw (e, lt→ltb (key s k) (key s (child s k)) (h (child s k) c1 c2))
]

-- In a valid queue, where the last event is due before the parent of an inner slot, `dequeue_event`
-- of that slot leaves a queue that is not in the order of a heap.
pub dequeue_event_unordered :
    (s : Sched) (q : ℕ)
    → IsValid s
    → 1 < q
    → q < s.nqueue
    → key s s.nqueue < key s (q / 2)
    → ¬ IsHeap (key (dequeue_event s q).0) (dequeue_event s q).0.nqueue
dequeue_event_unordered s q v p l lt h =
    let a : 0 < q = omega arith in
    let b : q ≤ s.nqueue = omega arith in
    let w = v.linked in
    let f = freed s w q a b in
    let fk = freed-key s w q a b in
    let n : f.nqueue ≡ s.nqueue - 1 = freed-nqueue s w q a b in
    let stop : down f.nqueue f q ≡ f =
      down-stop f.nqueue f q a
        (λ i c d. rw (fk q, fk i) (ground (arith, v.heap i, v.heap q p b))) in
    let t : (dequeue_event s q).0 ≡ f = ap (λ r. r.0) (dequeue_event-freed s w q a b) ∙ stop in
    let bad = subst (λ u. IsHeap (key u) u.nqueue) t h q p (omega arith) in
    let bad' = rw (fk q, fk (q / 2)) at bad in ground arith
