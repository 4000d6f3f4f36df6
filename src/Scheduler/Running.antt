-- ===== src/Scheduler/Running.antt =====
-- Every reachable scheduler is well formed, and what follows for its callers,
-- jjk_arena/battle_v2/timer_scheduler.py.
use fantasy_draft.Base.{
  ℕ, suc, ◌≡◌, ◌≢◌, refl, sym, ◌∙◌, inl, inr, Bool, true, false, Option, none, some, List, [],
  arith, Bool-cases, ==_refl,
}
use fantasy_draft.Invariant.{if_keeps}
use fantasy_draft.Dict.{lookup, lookup-erase, lookup-empty}
use fantasy_draft.Scheduler.{
  Entry, Worker, Scheduler, Wake, wake, wake_at, after_wake, skip_stale, is_room, arm, cancel,
  cancel_if_idle, in_flight_total, shutdown, started, ensure_worker, claim, note_error, finish,
  Step, Reachable,
}
use fantasy_draft.Scheduler.Heap.{is_room_iff}
use fantasy_draft.Scheduler.Waking.{IsArmed}
use fantasy_draft.Scheduler.Keeping.{marked, IsScheduler, arm-IsArmed, cancel-IsArmed, wake-IsArmed}

arm-mark :
    (deadline : Option ℕ) (room_id : ℕ) (s : Scheduler)
    → s.firing_room_id ≡ marked s.worker
    → (arm deadline room_id s).firing_room_id ≡ marked (arm deadline room_id s).worker
unfolding arm
arm-mark none room_id s h = ground (arith, h)
arm-mark (some deadline) room_id s h = ground (arith, h)

idle-IsScheduler :
    (room_id : ℕ) (s : Scheduler) → IsScheduler s → IsScheduler (cancel_if_idle room_id s).1
unfolding cancel_if_idle
idle-IsScheduler room_id s h =
    if_keeps (λ (r : Bool × Scheduler). IsScheduler r.1) (is_room s.firing_room_id room_id) (λ _. h)
      (λ _. record { armed = cancel-IsArmed room_id s h.armed; mark = unfold cancel in h.mark })

started-marked : (w : Worker) → marked (started w) ≡ marked w
unfolding started marked
started-marked Worker.absent = refl
started-marked Worker.looping = refl
started-marked (Worker.taken room_id) = refl
started-marked (Worker.firing room_id) = refl

-- A change of the worker and its mark alone.
remarked :
    (s : Scheduler) (firing : Option ℕ) (w : Worker) (errors : ℕ)
    → IsArmed s
    → firing ≡ marked w
    → IsScheduler (record s { firing_room_id = firing; worker = w; callback_errors_total = errors })
remarked s firing w errors h mark = record {
  armed = record { sorted = h.sorted; covered = h.covered; silent = h.silent };
  mark = mark;
}

after_wake-mark :
    (w : Wake) (heap : List Entry) (s : Scheduler)
    → s.firing_room_id ≡ none
    → s.worker ≡ Worker.looping
    → (after_wake w heap s).firing_room_id ≡ marked (after_wake w heap s).worker
unfolding after_wake marked
after_wake-mark Wake.exits heap s h at_top = rw (h, at_top) refl
after_wake-mark Wake.waits heap s h at_top = rw (h, at_top) refl
after_wake-mark (Wake.waits_for timeout) heap s h at_top = rw (h, at_top) refl
after_wake-mark (Wake.fires room_id) heap s h at_top = h

wake-mark :
    (now : ℕ) (s : Scheduler)
    → s.firing_room_id ≡ marked s.worker
    → s.worker ≡ Worker.looping
    → (wake now s).1.firing_room_id ≡ marked (wake now s).1.worker
unfolding wake marked
wake-mark now s h at_top =
    let unmarked : s.firing_room_id ≡ none = (rw at_top at h) in
    if_keeps (λ (r : Wake × Scheduler). r.1.firing_room_id ≡ marked r.1.worker) s.stopped
      (λ _. unmarked)
      (λ _.
        after_wake-mark (wake_at now (skip_stale s.deadlines s.heap))
          (skip_stale s.deadlines s.heap) s unmarked at_top)

Step-IsScheduler : {s t : Scheduler} → Step s t → IsScheduler s → IsScheduler t
Step-IsScheduler (Step.arms {s} deadline room_id) h = record {
  armed = arm-IsArmed deadline room_id s h.armed;
  mark = arm-mark deadline room_id s h.mark;
}
Step-IsScheduler (Step.cancels {s} room_id) h = record {
  armed = cancel-IsArmed room_id s h.armed;
  mark = unfold cancel in h.mark;
}
Step-IsScheduler (Step.cancels_if_idle {s} room_id) h = idle-IsScheduler room_id s h
Step-IsScheduler (Step.shuts_down {s}) h =
    unfold shutdown in
    record {
      armed = record {
        sorted = tt;
        covered = λ r d found. absurd (let e = lookup-empty {V = ℕ} r in cc);
        silent = λ _. refl;
      };
      mark = h.mark;
    }
Step-IsScheduler (Step.starts {s}) h =
    unfold ensure_worker in
    remarked s s.firing_room_id (started s.worker) s.callback_errors_total h.armed
      (rw started-marked h.mark)
Step-IsScheduler (Step.wakes {s} now at_top) h = record {
  armed = wake-IsArmed now s h.armed;
  mark = wake-mark now s h.mark at_top;
}
Step-IsScheduler (Step.claims {s} room_id at) h =
    unfold claim in
    unfold marked in
    remarked s (some room_id) (Worker.firing room_id) s.callback_errors_total h.armed refl
Step-IsScheduler (Step.fails {s} room_id at) h =
    unfold note_error in
    remarked s s.firing_room_id s.worker (suc s.callback_errors_total) h.armed h.mark
Step-IsScheduler (Step.finishes {s} room_id at) h =
    unfold finish in
    unfold marked in remarked s none Worker.looping s.callback_errors_total h.armed refl

-- In every state that the steps of the worker and of its callers can reach, each armed deadline has
-- its entry in the heap, the heap is in order, nothing is armed once the scheduler is stopped, and
-- the in-flight mark names exactly the room whose callbacks run.
pub Reachable-IsScheduler : {s : Scheduler} → Reachable s → IsScheduler s
Reachable-IsScheduler Reachable.created = record {
  armed = record {
    sorted = tt;
    covered = λ r d found. absurd (let e = lookup-empty {V = ℕ} r in cc);
    silent = λ _. refl;
  };
  mark = unfold marked in refl;
}
Reachable-IsScheduler (Reachable.then_step earlier step) =
    Step-IsScheduler step (Reachable-IsScheduler earlier)

marked→firing : (w : Worker) (room_id : ℕ) → marked w ≡ some room_id → w ≡ Worker.firing room_id
unfolding marked
marked→firing Worker.absent room_id h = cc
marked→firing Worker.looping room_id h = cc
marked→firing (Worker.taken r) room_id h = cc
marked→firing (Worker.firing r) room_id h = cc

firing→marked :
    (s : Scheduler) (room_id : ℕ)
    → IsScheduler s
    → s.worker ≡ Worker.firing room_id
    → is_room s.firing_room_id room_id ≡ true
unfolding marked is_room
firing→marked s room_id h there =
    let mark : s.firing_room_id ≡ marked (Worker.firing room_id) = (rw there at h.mark) in
    rw mark (==_refl room_id)

-- `cancel_if_idle` refuses exactly while the room's callbacks run; where it does not refuse, the
-- room has no deadline afterwards, and the worker is not in that room's callbacks.
pub cancel_if_idle_lem :
    (s : Scheduler) (room_id : ℕ)
    → Reachable s
    → ((cancel_if_idle room_id s).0 ≡ false → s.worker ≡ Worker.firing room_id)
      × ((cancel_if_idle room_id s).0 ≡ true
          → (lookup room_id (cancel_if_idle room_id s).1.deadlines ≡ none)
            × (s.worker ≢ Worker.firing room_id))
unfolding cancel_if_idle
cancel_if_idle_lem s room_id h =
    let good = Reachable-IsScheduler h in
    elim (Bool-cases (is_room s.firing_room_id room_id)) [
      | inl busy ↦ rw busy (
        λ _.
            marked→firing s.worker room_id
              (sym good.mark ∙ is_room_iff s.firing_room_id room_id busy),
        λ e. absurd cc,
      )
      | inr idle ↦ rw idle (
        λ e. absurd cc,
        λ _. (
          unfold cancel in rw (lookup-erase room_id room_id s.deadlines, ==_refl room_id) refl,
          λ there. let busy = firing→marked s room_id good there in absurd cc,
        ),
      )
    ]

idle-worker : (s : Scheduler) (room_id : ℕ) → (cancel_if_idle room_id s).1.worker ≡ s.worker
unfolding cancel_if_idle cancel
idle-worker s room_id = ground arith

-- The gap between taking a room off the heap and marking it: a room that the worker has taken is not
-- in flight and can be cancelled with the answer true, and its callbacks run all the same.
pub taken_unmarked :
    (s : Scheduler) (room_id : ℕ)
    → Reachable s
    → s.worker ≡ Worker.taken room_id
    → (in_flight_total s ≡ 0)
      × ((cancel_if_idle room_id s).0 ≡ true)
      × Step (cancel_if_idle room_id s).1 (claim room_id (cancel_if_idle room_id s).1)
unfolding in_flight_total cancel_if_idle
taken_unmarked s room_id h taken =
    let mark = (Reachable-IsScheduler h).mark in
    let unmarked : s.firing_room_id ≡ marked (Worker.taken room_id) = (rw taken at mark) in
    (
      rw unmarked (unfold marked in refl),
      rw unmarked (unfold marked is_room in refl),
      Step.claims room_id (idle-worker s room_id ∙ taken),
    )

stays_stopped : {s t : Scheduler} → Step s t → s.stopped ≡ true → t.stopped ≡ true
stays_stopped (Step.arms {s} none room_id) h = unfold arm in ground (arith, h)
stays_stopped (Step.arms {s} (some deadline) room_id) h = unfold arm in ground (arith, h)
stays_stopped (Step.cancels {s} room_id) h = unfold cancel in h
stays_stopped (Step.cancels_if_idle {s} room_id) h =
    unfold cancel_if_idle cancel in ground (arith, h)
stays_stopped (Step.shuts_down {s}) h = unfold shutdown in refl
stays_stopped (Step.starts {s}) h = unfold ensure_worker in h
stays_stopped (Step.wakes {s} now at_top) h = unfold wake in ground (arith, h)
stays_stopped (Step.claims {s} room_id there) h = unfold claim in h
stays_stopped (Step.fails {s} room_id there) h = unfold note_error in h
stays_stopped (Step.finishes {s} room_id there) h = unfold finish in h

-- Once the scheduler is stopped, every step leaves it stopped and no deadline armed, and a worker
-- that wakes leaves its loop.
pub shutdown_final :
    {s t : Scheduler} (now : ℕ)
    → Reachable s
    → s.stopped ≡ true
    → Step s t
    → (t.stopped ≡ true) × (t.deadlines ≡ []) × ((wake now t).0 ≡ Wake.exits)
unfolding wake
shutdown_final {s} {t} now h off step =
    let still = stays_stopped step off in
    (still, (Reachable-IsScheduler (Reachable.then_step h step)).armed.silent still, rw still refl)
