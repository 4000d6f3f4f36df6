-- ===== src/Scheduler.antt =====
-- Wake-ups for the phase timers, `PhaseTimerScheduler` of jjk_arena/battle_v2/timer_scheduler.py.
-- Clock readings are natural numbers, since the code only compares and subtracts them. A section
-- under the condition's lock is one step; `heapq` is kept as the list of its items in order. The
-- deadline that `get_deadline` answers, the clock's reading and whether a callback raised are
-- arguments of the steps. `notify_all` and `wait` say when the worker runs again, which no step
-- depends on.
pub mod Heap
pub mod Waking
pub mod Keeping
pub mod Running
use fantasy_draft.Base.{
  ℕ, suc, ◌-◌, ◌≡◌, Bool, true, false, not, ◌&&◌, ◌||◌, Option, none, some, List, [], ◌∷◌, ◌==◌,
  ltb, leb, if◌then◌else◌, is_some, length,
}
use fantasy_draft.Dict.{Dict, lookup, insert, erase}

-- `(deadline, next(self._entry_seq), room_id)`
pub record Entry : Type 0 where
  pub deadline : ℕ
  pub seq : ℕ
  pub room_id : ℕ

-- Where the worker thread stands: at the top of its loop, after the lock's release with a room taken
-- off the heap, or in that room's expire, on_expired and re-arm sequence.
pub data Worker : Type 0 where
  absent : Worker
  looping : Worker
  taken : ℕ → Worker
  firing : ℕ → Worker

pub record Scheduler : Type 0 where
  pub deadlines : Dict ℕ
  pub heap : List Entry
  pub next_seq : ℕ
  pub stopped : Bool
  pub worker : Worker
  pub callback_errors_total : ℕ
  pub firing_room_id : Option ℕ

abbrev pub new_scheduler : Scheduler
new_scheduler = record {
  deadlines = [];
  heap = [];
  next_seq = 0;
  stopped = false;
  worker = Worker.absent;
  callback_errors_total = 0;
  firing_room_id = none;
}

-- The order of the tuples; a sequence number occurs once, so rooms are never compared.
unfoldable pub before : Entry → Entry → Bool
before a b = ltb a.deadline b.deadline || (a.deadline == b.deadline && leb a.seq b.seq)

unfoldable pub heappush : Entry → List Entry → List Entry
heappush e [] = e ∷ []
heappush e (x ∷ heap) =
    let later = x ∷ heappush e heap in if before e x then e ∷ x ∷ heap else later

-- `option == Some(n)`
unfoldable pub is_room : Option ℕ → ℕ → Bool
is_room none n = false
is_room (some m) n = m == n

unfoldable pub arm : Option ℕ → ℕ → Scheduler → Scheduler
arm none room_id s = if s.stopped then s else (record s { deadlines = erase room_id s.deadlines })
arm (some deadline) room_id s =
    if s.stopped
    then s
    else if is_room (lookup room_id s.deadlines) deadline
    then s
    else (record s {
      deadlines = insert room_id deadline s.deadlines;
      heap = heappush (record { deadline = deadline; seq = s.next_seq; room_id = room_id }) s.heap;
      next_seq = suc s.next_seq;
    })

unfoldable pub cancel : ℕ → Scheduler → Scheduler
cancel room_id s = record s { deadlines = erase room_id s.deadlines }

unfoldable pub active_task_count : Scheduler → ℕ
active_task_count s = length s.deadlines

unfoldable pub in_flight_count_for_room : ℕ → Scheduler → ℕ
in_flight_count_for_room room_id s = if is_room s.firing_room_id room_id then 1 else 0

unfoldable pub in_flight_total : Scheduler → ℕ
in_flight_total s = if is_some s.firing_room_id then 1 else 0

unfoldable pub cancel_if_idle : ℕ → Scheduler → Bool × Scheduler
cancel_if_idle room_id s =
    if is_room s.firing_room_id room_id then (false, s) else (true, cancel room_id s)

unfoldable pub shutdown : Scheduler → Scheduler
shutdown s = record s { stopped = true; deadlines = []; heap = [] }

-- `_worker_started` holds from here until the worker has left `_run`.
unfoldable pub started : Worker → Worker
started Worker.absent = Worker.looping
started Worker.looping = Worker.looping
started (Worker.taken room_id) = Worker.taken room_id
started (Worker.firing room_id) = Worker.firing room_id

unfoldable pub ensure_worker : Scheduler → Scheduler
ensure_worker s = record s { worker = started s.worker }

-- An entry is stale if its room has no deadline any more or another one.
unfoldable pub is_live : Dict ℕ → Entry → Bool
is_live deadlines e = is_room (lookup e.room_id deadlines) e.deadline

-- The loop that pops stale entries.
unfoldable pub skip_stale : Dict ℕ → List Entry → List Entry
skip_stale deadlines [] = []
skip_stale deadlines (e ∷ heap) =
    let rest = skip_stale deadlines heap in if is_live deadlines e then e ∷ heap else rest

-- What the locked part of the loop ends in.
pub data Wake : Type 0 where
  exits : Wake
  waits : Wake
  waits_for : ℕ → Wake
  fires : ℕ → Wake

unfoldable pub wake_at : ℕ → List Entry → Wake
wake_at now [] = Wake.waits
wake_at now (e ∷ heap) =
    if ltb now e.deadline then Wake.waits_for (e.deadline - now) else Wake.fires e.room_id

-- `heapq.heappop`
unfoldable pub heappop : List Entry → List Entry
heappop [] = []
heappop (e ∷ heap) = heap

-- What the locked part leaves; a room that fires is taken off the heap and the deadlines.
unfoldable pub after_wake : Wake → List Entry → Scheduler → Scheduler
after_wake (Wake.fires room_id) heap s = record s {
  heap = heappop heap;
  deadlines = erase room_id s.deadlines;
  worker = Worker.taken room_id;
}
after_wake Wake.exits heap s = record s { heap = heap }
after_wake Wake.waits heap s = record s { heap = heap }
after_wake (Wake.waits_for timeout) heap s = record s { heap = heap }

unfoldable pub wake : ℕ → Scheduler → Wake × Scheduler
wake now s =
    let heap = skip_stale s.deadlines s.heap in
    let found = wake_at now heap in
    if s.stopped
    then (Wake.exits, record s { worker = Worker.absent })
    else (found, after_wake found heap s)

-- The lock is taken again only to note the room whose callbacks run.
unfoldable pub claim : ℕ → Scheduler → Scheduler
claim room_id s = record s { firing_room_id = some room_id; worker = Worker.firing room_id }

unfoldable pub note_error : Scheduler → Scheduler
note_error s = record s { callback_errors_total = suc s.callback_errors_total }

unfoldable pub finish : Scheduler → Scheduler
finish s = record s { firing_room_id = none; worker = Worker.looping }

-- One step of the worker or of another thread. A worker may be started at any time, which is more
-- than `arm` does.
pub data Step : Scheduler → Scheduler → Type 0 where
  arms : {s : Scheduler} (deadline : Option ℕ) (room_id : ℕ) → Step s (arm deadline room_id s)
  cancels : {s : Scheduler} (room_id : ℕ) → Step s (cancel room_id s)
  cancels_if_idle : {s : Scheduler} (room_id : ℕ) → Step s (cancel_if_idle room_id s).1
  shuts_down : {s : Scheduler} → Step s (shutdown s)
  starts : {s : Scheduler} → Step s (ensure_worker s)
  wakes : {s : Scheduler} (now : ℕ) → s.worker ≡ Worker.looping → Step s (wake now s).1
  claims :
      {s : Scheduler} (room_id : ℕ) → s.worker ≡ Worker.taken room_id → Step s (claim room_id s)
  fails : {s : Scheduler} (room_id : ℕ) → s.worker ≡ Worker.firing room_id → Step s (note_error s)
  finishes : {s : Scheduler} (room_id : ℕ) → s.worker ≡ Worker.firing room_id → Step s (finish s)

pub data Reachable : Scheduler → Type 0 where
  created : Reachable new_scheduler
  then_step : {s t : Scheduler} → Reachable s → Step s t → Reachable t
