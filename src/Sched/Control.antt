-- ===== src/Sched/Control.antt =====
-- nsd/sched.c: `Ns_ScheduleProcEx`, `Ns_Cancel`, `Ns_Pause` and `Ns_Resume`.
use anansi.Common.{
  ℕ, zero, suc, ◌+◌, ◌%◌, ◌^◌, ◌<◌, ◌≡◌, ◌≢◌, ◌↔◌, refl, sym, ap, subst, ◌∙◌, Bool, true, false,
  arith, ltb, ◌==◌, if◌then◌else◌, ◌⊎◌, inl, inr, Bool-cases, Option, none, some, Option-cases,
  some_inj,
}
use anansi.Sched.{
  Sched, Calendar, queue_event, fresh_id, unqueue, forget, flag_paused, cancel, pause, resume,
}
use anansi.Sched.Links.{qid_of, IsLinked}
use anansi.Sched.Queue.{IsQueued, IsValid, dequeue_event-Dequeued, queue_event-Enqueued}
use anansi.Sched.Due.{SameQueue, SameQueue-IsLinked, SameQueue-IsValid}

unqueue_lem :
    (s : Sched) (e : ℕ)
    → IsLinked s
    → IsLinked (unqueue s e)
      × ((unqueue s e).table ≡ s.table)
      × ((a : ℕ) → ((unqueue s e).ev a).flags ≡ (s.ev a).flags)
      × ((a : ℕ) → IsQueued (unqueue s e) a ↔ (IsQueued s a × (a ≢ e)))
unfolding unqueue
unqueue_lem s e v =
    let n = qid_of s e in
    elim (Bool-cases (ltb 0 n)) [
      | inl h ↦
          let p : 0 < n = ground arith in
          let (x, l, d) = dequeue_event-Dequeued s v n p (v.inside e p) in
          let z = v.held e p in
          rw h (
            l,
            d.table,
            d.flags,
            λ a. (
              (λ b. let (c, ne) = (d.queued a).0 b in (c, λ y. ne (y ∙ sym z))),
              (λ b. (d.queued a).1 (b.0, λ y. b.1 (y ∙ z))),
            ),
          )
      | inr h ↦
          let z : n ≡ 0 = ground arith in
          rw h (
            v,
            refl,
            (λ a. refl),
            λ a. (
              (λ b. (b, λ y. let w = subst (λ c. 0 < qid_of s c) y b in omega arith)),
              (λ b. b.0),
            ),
          )
    ]

forget-SameQueue : (s : Sched) (id e : ℕ) → SameQueue s (forget s id e)
unfolding forget
forget-SameQueue s id e = record {
  slots = λ i. refl;
  count = refl;
  qids = λ a. ground arith;
  times = λ a. ground arith;
}

forget-table :
    (s : Sched) (id e i : ℕ) → (forget s id e).table i ≡ (if i == id then none else s.table i)
unfolding forget
forget-table s id e i = refl

pub flag_paused-SameQueue : (s : Sched) (e : ℕ) (b : Bool) → SameQueue s (flag_paused s e b)
unfolding flag_paused
flag_paused-SameQueue s e b = record {
  slots = λ i. refl;
  count = refl;
  qids = λ a. ground arith;
  times = λ a. ground arith;
}

pub flag_paused-flags : (s : Sched) (e : ℕ) (b : Bool) → ((flag_paused s e b).ev e).flags.paused ≡ b
unfolding flag_paused
flag_paused-flags s e b = ground arith

module _ (s : Sched) (id e : ℕ) (up : s.shutdown_pending ≡ false)
    (known : s.table id ≡ some e) where
  -- Before shutdown, where the queue and its events point at one another, `cancel` forgets a known
  -- id, and takes its event, alone, from the queue. It says whether the event was there.
  pub cancel_lem :
      IsLinked s
      → IsLinked (cancel s id).0
        × ((i : ℕ) → (cancel s id).0.table i ≡ (if i == id then none else s.table i))
        × ((cancel s id).1 ≡ ltb 0 (qid_of s e))
        × ((a : ℕ) → IsQueued (cancel s id).0 a ↔ (IsQueued s a × (a ≢ e)))
  unfolding cancel
  cancel_lem v =
      let q = forget-SameQueue s id e in
      let (l, t, f, g) = unqueue_lem (forget s id e) e (SameQueue-IsLinked q v) in
      rw (up, known)
        (
          l,
          (λ i. ap (λ t. t i) t ∙ forget-table s id e i),
          refl,
          λ a. (
            (λ b. let (c, n) = (g a).0 b in (omega (arith, q.qids a), n)),
            (λ b. (g a).1 (omega (arith, q.qids a, b.0), b.1)),
          ),
        )

  pause-eq : (s.ev e).flags.paused ≡ false → pause s id ≡ (unqueue (flag_paused s e true) e, true)
  unfolding pause
  pause-eq f =
      let body : Bool → Sched × Bool =
        λ b. if b then (s, false) else (unqueue (flag_paused s e true) e, true) in
      let start : pause s id ≡ body (s.ev e).flags.paused = simp (up, known) in start ∙ ap body f

  -- Before shutdown, where the queue and its events point at one another, `pause` marks a known
  -- event that is not paused, and takes it, alone, from the queue.
  pub pause_lem :
      IsLinked s
      → (s.ev e).flags.paused ≡ false
      → ((pause s id).1 ≡ true)
        × IsLinked (pause s id).0
        × (((pause s id).0.ev e).flags.paused ≡ true)
        × ((a : ℕ) → IsQueued (pause s id).0 a ↔ (IsQueued s a × (a ≢ e)))
  pause_lem v f =
      let q = flag_paused-SameQueue s e true in
      let (l, t, h, g) = unqueue_lem (flag_paused s e true) e (SameQueue-IsLinked q v) in
      rw (pause-eq f) (
        refl,
        l,
        ap (λ x. x.paused) (h e) ∙ flag_paused-flags s e true,
        λ a. (
          (λ b. let (c, n) = (g a).0 b in (omega (arith, q.qids a), n)),
          (λ b. (g a).1 (omega (arith, q.qids a, b.0), b.1)),
        ),
      )

  pub resume-eq :
      (c : Calendar) (now : ℕ)
      → (s.ev e).flags.paused ≡ true
      → resume c s id now ≡ (queue_event c (flag_paused s e false) e now, true)
  unfolding resume
  resume-eq c now f =
      let body : Bool → Sched × Bool =
        λ b. if b then (queue_event c (flag_paused s e false) e now, true) else (s, false) in
      let start : resume c s id now ≡ body (s.ev e).flags.paused = simp (up, known) in
      start ∙ ap body f

  -- Before shutdown `resume` puts a known event that is paused and not queued back into the queue,
  -- alone, and keeps the queue valid.
  pub resume_lem :
      (c : Calendar) (now : ℕ)
      → IsValid s
      → (s.ev e).flags.paused ≡ true
      → qid_of s e ≡ 0
      → ((resume c s id now).1 ≡ true)
        × IsValid (resume c s id now).0
        × ((a : ℕ) → IsQueued (resume c s id now).0 a ↔ (IsQueued s a ⊎ (a ≡ e)))
  resume_lem c now v f free =
      let q = flag_paused-SameQueue s e false in
      let (w, n) =
        (queue_event-Enqueued c (flag_paused s e false) e now (SameQueue-IsValid q v)
            (q.qids e ∙ free)).1
          (flag_paused-flags s e false) in
      rw (resume-eq c now f) (
        refl,
        w,
        λ a. (
          (λ b. elim ((n.queued a).0 b) [ inl x ↦ inl (omega (arith, q.qids a)) | inr x ↦ inr x ]),
          (λ b. (n.queued a).1 (elim b [ inl x ↦ inl (omega (arith, q.qids a)) | inr x ↦ inr x ])),
        ),
      )

-- An id that `fresh_id` finds is in no entry of the table, and the next search starts behind it,
-- or at 0 where an `int` ends.
pub fresh_id_lem :
    (table : ℕ → Option ℕ) (fuel id found next : ℕ)
    → fresh_id table fuel id ≡ some (found, next)
    → (table found ≡ none) × (next ≡ (found + 1) % 2 ^ 31)
unfolding fresh_id
fresh_id_lem table zero id found next h = cc
fresh_id_lem table (suc fuel) id found next h = elim (Option-cases (table id)) [
  | inl e ↦
      let z : some (id, (id + 1) % 2 ^ 31) ≡ some (found, next) = rw (e, fresh_id) at h in
      let w = some_inj z in
      let f : id ≡ found = ap (λ x. x.0) w in
      let g : (id + 1) % 2 ^ 31 ≡ next = ap (λ x. x.1) w in (rw (← f) e, rw (← f) (sym g))
  | inr (a, e) ↦ fresh_id_lem table fuel ((id + 1) % 2 ^ 31) found next (rw (e, fresh_id) at h)
]

-- Some id among the `fuel` ids from `id` on that is free is found.
pub fresh_id-found :
    (table : ℕ → Option ℕ) (fuel id k : ℕ)
    → id + k < 2 ^ 31
    → k < fuel
    → table (id + k) ≡ none
    → (found : ℕ) × (next : ℕ) × (fresh_id table fuel id ≡ some (found, next))
unfolding fresh_id
fresh_id-found table zero id k b h e = absurd (omega arith)
fresh_id-found table (suc fuel) id zero b h e =
    let z : id + 0 ≡ id = omega arith in (id, (id + 1) % 2 ^ 31, rw (rw z at e, fresh_id))
fresh_id-found table (suc fuel) id (suc k) b h e = elim (Option-cases (table id)) [
  | inl f ↦ (id, (id + 1) % 2 ^ 31, rw (f, fresh_id))
  | inr (a, f) ↦
      let z : (id + 1) % 2 ^ 31 ≡ id + 1 = omega arith in
      let y : id + suc k ≡ (id + 1) % 2 ^ 31 + k = omega arith in
      let (found, next, g) =
        fresh_id-found table fuel ((id + 1) % 2 ^ 31) k (omega arith) (omega arith) (rw y at e) in
      (found, next, rw (f, fresh_id) g)
]
