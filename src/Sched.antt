-- ===== src/Sched.antt =====
-- nsd/sched.c: scheduled events in a heap ordered by the next time to run. An event is known by its
-- address: `ev` is the memory of the events, `queue` the array of pointers (slots 1 to `nqueue`),
-- `table` the hash table from ids to addresses. Callbacks and their arguments are left out, times
-- are natural numbers, and every operation is the part that runs under the module's lock.
pub mod Swap
pub mod Order
pub mod Links
pub mod Queue
pub mod Due
pub mod Control
pub mod Twice
pub mod Calls
pub mod Schedule
use anansi.Common.Int.{ℤ, pos, ◌-ℤ◌, ◌+ℤ◌}
use anansi.Common.{
  ℕ, zero, suc, ◌+◌, ◌-◌, ◌*◌, ◌/◌, ◌%◌, ◌^◌, Bool, true, false, not, ◌&&◌, ◌||◌, Option, none,
  some, List, [], ◌∷◌, ltb, leb, ◌==◌, if◌then◌else◌, update,
}

-- The bits NS_SCHED_ONCE, NS_SCHED_THREAD, NS_SCHED_DAILY, NS_SCHED_WEEKLY, NS_SCHED_PAUSED and
-- NS_SCHED_RUNNING of `flags`.
pub record Flags : Type 0 where
  pub once : Bool
  pub thread : Bool
  pub daily : Bool
  pub weekly : Bool
  pub paused : Bool
  pub running : Bool

-- `hashed` is `hPtr != NULL`; the times before the first run, -1 in the source, are `none`.
pub record Event : Type 0 where
  pub id : ℕ
  pub qid : ℕ
  pub hashed : Bool
  pub nextqueue : ℕ
  pub lastqueue : Option ℕ
  pub laststart : Option ℕ
  pub lastend : Option ℕ
  pub flags : Flags
  pub interval : ℕ

pub record Sched : Type 0 where
  pub ev : ℕ → Event
  pub queue : ℕ → ℕ
  pub nqueue : ℕ
  pub maxqueue : ℕ
  pub table : ℕ → Option ℕ
  pub next_id : ℕ
  pub next_addr : ℕ
  pub shutdown_pending : Bool

-- The parts of `struct tm` that the module sets; `rest` is what it leaves alone.
pub record Tm : Type 0 where
  pub sec : ℕ
  pub min : ℕ
  pub hour : ℕ
  pub mday : ℤ
  pub wday : ℕ
  pub rest : ℕ

-- The C library's `localtime` and `mktime`.
pub record Calendar : Type 0 where
  pub localtime : ℕ → Tm
  -- the time, and the fields as `mktime` leaves them
  pub mktime : Tm → ℕ × Tm

abbrev pub set_qid : (ℕ → Event) → ℕ → ℕ → ℕ → Event
set_qid ev e i = update ev e (record (ev e) { qid = i })

-- Exchange
unfoldable pub exchange : Sched → ℕ → ℕ → Sched
exchange s i j =
    let tmp = s.queue i in
    let q = update (update s.queue i (s.queue j)) j tmp in
    record s { queue = q; ev = set_qid (set_qid s.ev (q i) i) (q j) j }

-- `queue[i]->nextqueue`
abbrev pub key : Sched → ℕ → ℕ
key s i = (s.ev (s.queue i)).nextqueue

-- The loop of QueueEvent that moves the event in slot `k` up.
unfoldable pub up : ℕ → Sched → ℕ → Sched
up zero s k = s
up (suc fuel) s k =
    let j = k / 2 in
    let rest = up fuel (exchange s j k) j in if ltb 1 k && ltb (key s k) (key s j) then rest else s

-- The child of `qid` that the loop of DeQueueEvent compares with.
unfoldable pub child : Sched → ℕ → ℕ
child s qid =
    let j = 2 * qid in if ltb j s.nqueue && ltb (key s (j + 1)) (key s j) then j + 1 else j

-- The loop of DeQueueEvent that moves the event in slot `qid` down.
unfoldable pub down : ℕ → Sched → ℕ → Sched
down zero s qid = s
down (suc fuel) s qid =
    let j = child s qid in
    let rest = down fuel (exchange s qid j) j in
    if leb (2 * qid) s.nqueue then (if ltb (key s qid) (key s j) then s else rest) else s

-- DeQueueEvent: the address of the event, and the queue without it.
unfoldable pub dequeue_event : Sched → ℕ → Sched × ℕ
dequeue_event s qid =
    let x = exchange s qid s.nqueue in
    let e = x.queue x.nqueue in
    let y = record x { nqueue = x.nqueue - 1; ev = set_qid x.ev e 0 } in (down y.nqueue y qid, e)

-- The time at which QueueEvent queues an event.
unfoldable pub next_time : Calendar → Event → ℕ → ℕ
next_time c e now =
    if e.flags.daily || e.flags.weekly
    then (let l = c.localtime now in
        let tp = record l {
          sec = e.interval;
          hour = 0;
          min = 0;
          mday = if e.flags.weekly then l.mday -ℤ pos l.wday else l.mday;
        } in
        let (t, left) = c.mktime tp in
        let days : ℕ = if e.flags.weekly then 7 else 1 in
        if leb t now then (c.mktime (record left { mday = left.mday +ℤ pos days })).0 else t)
    else now + e.interval

-- The event at `e` in a new last slot.
unfoldable pub append_event : Sched → ℕ → ℕ → Sched
append_event s e time =
    let n = s.nqueue + 1 in
    record s {
      nqueue = n;
      maxqueue = if leb s.maxqueue n then s.maxqueue + 25 else s.maxqueue;
      ev = update s.ev e (record (s.ev e) { nextqueue = time; qid = n });
      queue = update s.queue n e;
    }

-- The last event moved up, `if (nqueue > 1)`.
unfoldable pub place_last : Sched → Sched
place_last a = if ltb 1 a.nqueue then up a.nqueue a a.nqueue else a

-- QueueEvent
unfoldable pub queue_event : Calendar → Sched → ℕ → ℕ → Sched
queue_event c s e now =
    if (s.ev e).flags.paused then s else place_last (append_event s e (next_time c (s.ev e) now))

-- The loop of Ns_ScheduleProcEx that looks for an unused id, which `int` wraps around.
unfoldable pub fresh_id : (ℕ → Option ℕ) → ℕ → ℕ → Option (ℕ × ℕ)
fresh_id table zero id = none
fresh_id table (suc fuel) id =
    let next = (id + 1) % 2 ^ 31 in
    let rest = fresh_id table fuel next in
    elim (table id) [ none ↦ some (id, next) | some e ↦ rest ]

-- Ns_ScheduleProcEx with an interval that is not negative; `none` for the id is NS_ERROR. Fuel is
-- the number of ids tried.
unfoldable pub schedule_proc_ex : Calendar → ℕ → Sched → Flags → ℕ → ℕ → Sched × Option ℕ
schedule_proc_ex c fuel s flags interval now =
    if s.shutdown_pending then (s, none) else elim (fresh_id s.table fuel s.next_id) [
      | none ↦ (s, none)
      | some (id, next) ↦
          let e = s.next_addr in
          let event : Event = record {
            id = id;
            qid = 0;
            hashed = true;
            nextqueue = 0;
            lastqueue = none;
            laststart = none;
            lastend = none;
            flags = flags;
            interval = interval;
          } in
          let t = record s {
            ev = update s.ev e event;
            table = update s.table id (some e);
            next_id = next;
            next_addr = e + 1;
          } in
          (queue_event c t e now, some id)
    ]

-- `if (ePtr->qid > 0) DeQueueEvent(ePtr->qid)` in Ns_Cancel and Ns_Pause
unfoldable pub unqueue : Sched → ℕ → Sched
unqueue s e = if ltb 0 (s.ev e).qid then (dequeue_event s (s.ev e).qid).0 else s

-- The event at `e` under the id `id`, taken out of the hash table.
unfoldable pub forget : Sched → ℕ → ℕ → Sched
forget s id e = record s {
  table = update s.table id none;
  ev = update s.ev e (record (s.ev e) { hashed = false });
}

-- Ns_Cancel; the freed event's callback is left out.
unfoldable pub cancel : Sched → ℕ → Sched × Bool
cancel s id = if s.shutdown_pending then (s, false) else elim (s.table id) [
  | none ↦ (s, false)
  | some e ↦ (unqueue (forget s id e) e, ltb 0 (s.ev e).qid)
]

-- The flag NS_SCHED_PAUSED of the event at `e`, set or reset.
unfoldable pub flag_paused : Sched → ℕ → Bool → Sched
flag_paused s e b = record s {
  ev = update s.ev e (record (s.ev e) { flags = record ((s.ev e).flags) { paused = b } });
}

-- Ns_Pause
unfoldable pub pause : Sched → ℕ → Sched × Bool
pause s id = if s.shutdown_pending then (s, false) else elim (s.table id) [
  | none ↦ (s, false)
  | some e ↦ if (s.ev e).flags.paused then (s, false) else (unqueue (flag_paused s e true) e, true)
]

-- Ns_Resume
unfoldable pub resume : Calendar → Sched → ℕ → ℕ → Sched × Bool
resume c s id now = if s.shutdown_pending then (s, false) else elim (s.table id) [
  | none ↦ (s, false)
  | some e ↦
      if (s.ev e).flags.paused
      then (queue_event c (flag_paused s e false) e now, true)
      else (s, false)
]

-- What the loop of SchedThread does with an event that it took from the queue.
unfoldable pub start_due : Sched → ℕ → ℕ → Sched
start_due s e now =
    let v = s.ev e in
    let once = v.flags.once in
    record s {
      table = if once then update s.table v.id none else s.table;
      ev = update s.ev e (record v {
        hashed = if once then false else v.hashed;
        lastqueue = some now;
        laststart = if v.flags.thread then some now else v.laststart;
        flags = if v.flags.thread then record (v.flags) { running = true } else v.flags;
      });
    }

-- The loop of SchedThread over the events that are due: those for threads and the others, each
-- list as it is pushed. A round takes one event, so `nqueue` rounds are enough.
unfoldable pub take_due : ℕ → Sched → ℕ → List ℕ → List ℕ → Sched × List ℕ × List ℕ
take_due zero s now threads ready = (s, threads, ready)
take_due (suc fuel) s now threads ready =
    let (d, e) = dequeue_event s 1 in
    let t = start_due d e now in
    let for_thread = (d.ev e).flags.thread in
    let rest =
      take_due fuel t now (if for_thread then e ∷ threads else threads)
        (if for_thread then ready else e ∷ ready) in
    if ltb 0 s.nqueue && leb (key s 1) now then rest else (s, threads, ready)

-- The end of a run in SchedThread and EventThread, for an event that was not cancelled meanwhile.
unfoldable pub finish : Calendar → Sched → ℕ → ℕ → Sched
finish c s e now =
    let v = s.ev e in
    queue_event c
      (record s {
        ev =
            update s.ev e
              (record v { flags = record (v.flags) { running = false }; lastend = some now });
      })
      e now
