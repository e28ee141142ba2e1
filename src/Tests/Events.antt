-- ===== src/Tests/Events.antt =====
-- nsd/sched.c at small inputs.
use anansi.Common.Int.{pos}
use anansi.Common.{
  ℕ, ◌+◌, ◌≡◌, ◌≤◌, ◌<◌, ◌↔◌, refl, true, false, none, some, [], arith, leb, ◌==◌, if◌then◌else◌,
}
use anansi.Sched
use anansi.Sched.{
  Event, Flags, Sched, Calendar, Tm, key, queue_event, dequeue_event, take_due, next_time, cancel,
  pause, resume, finish, fresh_id, schedule_proc_ex,
}
use anansi.Sched.Swap.{IsHeap}
use anansi.Sched.Links.{IsLinked}
use anansi.Sched.Queue.{
  IsQueued, IsValid, Dequeued, Enqueued, dequeue_event_first, dequeue_event-IsHeap,
  queue_event-Enqueued, dequeue_event_unordered,
}
use anansi.Sched.Due.{take_due-IsQueued}
use anansi.Sched.Twice.{IsTwice, resume-finish-IsTwice}

abbrev no_flags : Flags
no_flags = record {
  once = false;
  thread = false;
  daily = false;
  weekly = false;
  paused = false;
  running = false;
}

abbrev calendar : Calendar
calendar = record {
  localtime = λ t. record { sec = t; min = 0; hour = 0; mday = pos 1; wday = 0; rest = 0 };
  mktime = λ tm. (tm.sec, tm);
}

-- The times of six events: the one in slot 2 is late, that in slot 6 early.
abbrev times : ℕ → ℕ
times e = if e == 1 then 1 else if e == 3 then 2 else if e == 6 then 3 else 10 + e

-- Event `e` in slot `e`, for the six of them; event 7 is paused and not queued.
abbrev six : Sched
six = record {
  ev = λ e. record {
    id = e;
    qid = if leb e 6 then e else 0;
    hashed = true;
    nextqueue = times e;
    lastqueue = none;
    laststart = none;
    lastend = none;
    flags = record no_flags { paused = e == 7 };
    interval = 5;
  };
  queue = λ i. i;
  nqueue = 6;
  maxqueue = 25;
  table = λ i. if leb i 7 then some i else none;
  next_id = 3;
  next_addr = 8;
  shutdown_pending = false;
}

six-IsLinked : IsLinked six
six-IsLinked = record {
  slot = λ i a b. ground arith;
  inside = λ e h. ground arith;
  held = λ e h. ground arith;
}

six-IsHeap : IsHeap (key six) 6
six-IsHeap i a b = ground arith

six-IsValid : IsValid six
six-IsValid = record { linked = six-IsLinked; heap = six-IsHeap }

program : Unit {0}
unfolding Sched.exchange Sched.up Sched.child Sched.down dequeue_event next_time Sched.append_event
    Sched.place_last queue_event fresh_id Sched.unqueue Sched.forget cancel Sched.flag_paused pause
    resume Sched.start_due take_due finish
program = tt

-- The first event due is taken from slot 1, and the next one moves there.
dequeue_one : ((dequeue_event six 1).1 ≡ 1) × (key (dequeue_event six 1).0 1 ≡ 2)
unfolding program
dequeue_one = (refl, refl)

-- A resumed event is queued after its interval.
resume_last : key (queue_event calendar (Sched.flag_paused six 7 false) 7 0) 7 ≡ 5
unfolding program
resume_last = refl

dequeue_event_first_example :
    ((dequeue_event six 1).1 ≡ six.queue 1)
    × IsValid (dequeue_event six 1).0
    × Dequeued six (dequeue_event six 1).0 (six.queue 1)
    × ((e : ℕ) → IsQueued six e → (six.ev (six.queue 1)).nextqueue ≤ (six.ev e).nextqueue)
dequeue_event_first_example = dequeue_event_first six six-IsValid (omega arith)

dequeue_event-IsHeap_example : IsValid (dequeue_event six 3).0
dequeue_event-IsHeap_example =
    dequeue_event-IsHeap six six-IsLinked 3 (omega arith) (omega arith) six-IsHeap
      (λ h. omega arith)

-- Slot 4 below the late event takes the early event of slot 6.
dequeue_event_unordered_example :
    ¬ IsHeap (key (dequeue_event six 4).0) (dequeue_event six 4).0.nqueue
dequeue_event_unordered_example =
    dequeue_event_unordered six 4 six-IsValid (omega arith) (omega arith) (omega arith)

queue_event-Enqueued_example :
    ((six.ev 7).flags.paused ≡ true → queue_event calendar six 7 0 ≡ six)
    × ((six.ev 7).flags.paused ≡ false
        → IsValid (queue_event calendar six 7 0)
          × Enqueued six (queue_event calendar six 7 0) 7 (next_time calendar (six.ev 7) 0))
queue_event-Enqueued_example = queue_event-Enqueued calendar six 7 0 six-IsValid refl

take_due-IsQueued_example :
    IsValid (take_due 6 six 2 [] []).0
    × ((e : ℕ)
        → IsQueued (take_due 6 six 2 [] []).0 e ↔ (IsQueued six e × (2 < (six.ev e).nextqueue)))
take_due-IsQueued_example = take_due-IsQueued 6 six 2 [] [] six-IsValid (omega arith)

resume-finish-IsTwice_example :
    IsTwice (finish calendar (resume calendar six 7 0).0 7 1) 7
    × (¬ IsLinked (finish calendar (resume calendar six 7 0).0 7 1))
resume-finish-IsTwice_example =
    resume-finish-IsTwice calendar six 7 7 0 1 six-IsValid refl refl refl refl
