-- ===== src/Scheduler/Keeping.antt =====
-- What every reachable scheduler has, jjk_arena/battle_v2/timer_scheduler.py.
use fantasy_draft.Base.{
  ℕ, ◌≡◌, refl, inl, inr, true, false, Option, none, some, List, [], ◌∷◌, ◌==◌, ltb, arith,
  Bool-cases,
}
use fantasy_draft.Invariant.{if_keeps}
use fantasy_draft.Dict.{Dict, lookup, insert, erase, lookup-insert, lookup-erase}
use fantasy_draft.Scheduler.{
  Entry, Worker, Scheduler, Wake, wake, wake_at, after_wake, heappop, skip_stale, is_room, heappush,
  arm, cancel,
}
use fantasy_draft.Scheduler.Heap.{
  Sorted, is_entry, has_entry, has_entry-skip, has_entry-push, heappush-Sorted, skip_stale-Sorted,
}
use fantasy_draft.Scheduler.Waking.{IsArmed}

-- The in-flight mark names exactly the room whose callbacks the worker runs.
unfoldable pub marked : Worker → Option ℕ
marked (Worker.firing room_id) = some room_id
marked Worker.absent = none
marked Worker.looping = none
marked (Worker.taken room_id) = none

pub record IsScheduler (s : Scheduler) : Type 0 where
  pub armed : IsArmed s
  pub mark : s.firing_room_id ≡ marked s.worker

erase-found :
    (room_id r d : ℕ) (deadlines : Dict ℕ)
    → lookup r (erase room_id deadlines) ≡ some d
    → lookup r deadlines ≡ some d
erase-found room_id r d deadlines h = let e = lookup-erase room_id r deadlines in ground arith

pub cancel-IsArmed : (room_id : ℕ) (s : Scheduler) → IsArmed s → IsArmed (cancel room_id s)
unfolding cancel
cancel-IsArmed room_id s h = record {
  sorted = h.sorted;
  covered = λ r d found. h.covered r d (erase-found room_id r d s.deadlines found);
  silent = λ off. rw (h.silent off) (unfold erase in refl);
}

push-covered :
    (deadline room_id r d : ℕ) (s : Scheduler)
    → IsArmed s
    → lookup r (insert room_id deadline s.deadlines) ≡ some d
    → has_entry r d
        (heappush (record { deadline = deadline; seq = s.next_seq; room_id = room_id }) s.heap)
      ≡ true
unfolding is_entry
push-covered deadline room_id r d s h found =
    let new = lookup-insert room_id r deadline s.deadlines in
    rw has_entry-push (elim (Bool-cases (room_id == r)) [
      | inl same ↦ let newest : deadline ≡ d = ground arith in ground arith
      | inr other ↦
          let old : lookup r s.deadlines ≡ some d = ground arith in
          let there = h.covered r d old in ground arith
    ])

pub arm-IsArmed :
    (deadline : Option ℕ) (room_id : ℕ) (s : Scheduler)
    → IsArmed s
    → IsArmed (arm deadline room_id s)
unfolding arm
arm-IsArmed none room_id s h =
    if_keeps IsArmed s.stopped (λ _. h) (λ _. unfold cancel in cancel-IsArmed room_id s h)
arm-IsArmed (some deadline) room_id s h =
    if_keeps IsArmed s.stopped (λ _. h)
      λ on.
        if_keeps IsArmed (is_room (lookup room_id s.deadlines) deadline) (λ _. h)
          λ _. record {
            sorted = heappush-Sorted _ s.heap h.sorted;
            covered = λ r d found. push-covered deadline room_id r d s h found;
            silent = λ off. absurd (let e = on in cc);
          }

erase-covered :
    (room_id : ℕ) (e : Entry) (heap : List Entry) (deadlines : Dict ℕ)
    → e.room_id ≡ room_id
    → ((r d : ℕ) → lookup r deadlines ≡ some d → has_entry r d (e ∷ heap) ≡ true)
    → (r d : ℕ) → lookup r (erase room_id deadlines) ≡ some d
    → has_entry r d heap ≡ true
unfolding is_entry
erase-covered room_id e heap deadlines same covered r d found =
    let there = covered r d (erase-found room_id r d deadlines found) in
    let kept = lookup-erase room_id r deadlines in
    elim (Bool-cases (room_id == r)) [
      | inl gone ↦ absurd (let none_there = (rw gone at kept) in cc)
      | inr other ↦
          let elsewhere : e.room_id == r ≡ false = rw same other in (rw elsewhere at there)
    ]

after_wake-IsArmed :
    (now : ℕ) (s : Scheduler) (heap : List Entry)
    → Sorted heap
    → ((r d : ℕ) → lookup r s.deadlines ≡ some d → has_entry r d heap ≡ true)
    → (s.stopped ≡ true → s.deadlines ≡ [])
    → IsArmed (after_wake (wake_at now heap) heap s)
unfolding wake_at after_wake heappop
after_wake-IsArmed now s [] sorted covered silent = record {
  sorted = sorted;
  covered = covered;
  silent = silent;
}
after_wake-IsArmed now s (e ∷ heap) sorted covered silent = elim (Bool-cases (ltb now e.deadline)) [
  | inl early ↦ rw early (record { sorted = sorted; covered = covered; silent = silent })
  | inr due ↦ rw due (record {
    sorted = sorted.1;
    covered = erase-covered e.room_id e heap s.deadlines refl covered;
    silent = λ off. rw (silent off) (unfold erase in refl);
  })
]

pub wake-IsArmed : (now : ℕ) (s : Scheduler) → IsArmed s → IsArmed (wake now s).1
unfolding wake
wake-IsArmed now s h =
    if_keeps (λ (r : Wake × Scheduler). IsArmed r.1) s.stopped
      (λ _. record { sorted = h.sorted; covered = h.covered; silent = h.silent })
      (λ _.
        after_wake-IsArmed now s (skip_stale s.deadlines s.heap)
          (skip_stale-Sorted s.deadlines s.heap h.sorted)
          (λ r d found. has_entry-skip s.deadlines r d s.heap found (h.covered r d found)) h.silent)
