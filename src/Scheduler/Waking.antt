-- ===== src/Scheduler/Waking.antt =====
-- Which room the worker wakes up for, `PhaseTimerScheduler._run` of
-- jjk_arena/battle_v2/timer_scheduler.py.
use fantasy_draft.Base.{
  ℕ, ◌+◌, ◌≤◌, ◌<◌, ◌≡◌, refl, inl, inr, true, none, some, List, [], ◌∷◌, ltb, ltb→lt, arith,
  Bool-cases, Option-cases,
}
use fantasy_draft.Dict.{Dict, lookup}
use fantasy_draft.Invariant.{if_keeps}
use fantasy_draft.Scheduler.{Entry, Scheduler, Wake, wake, wake_at, skip_stale, is_live}
use fantasy_draft.Scheduler.Heap.{
  NotBefore, Sorted, is_entry, has_entry, has_entry-skip, skip_stale-Sorted, skip_stale-first,
  is_room_iff,
}

-- Every deadline that stands has its entry in the heap, the heap is in order, and nothing is armed
-- once the scheduler is stopped.
pub record IsArmed (s : Scheduler) : Type 0 where
  pub sorted : Sorted s.heap
  pub covered :
      (room_id d : ℕ) → lookup room_id s.deadlines ≡ some d → has_entry room_id d s.heap ≡ true
  pub silent : s.stopped ≡ true → s.deadlines ≡ []

entry-NotBefore :
    (d room_id d' : ℕ) (heap : List Entry)
    → NotBefore d heap
    → has_entry room_id d' heap ≡ true
    → d ≤ d'
unfolding is_entry
entry-NotBefore d room_id d' [] h e = cc
entry-NotBefore d room_id d' (x ∷ heap) (first, rest) h =
    elim (Bool-cases (is_entry room_id d' x)) [
      | inl here ↦ let same : x.deadline ≡ d' = ground arith in omega arith
      | inr other ↦ entry-NotBefore d room_id d' heap rest (rw other at h)
    ]

first_not_before :
    (e : Entry) (room_id d : ℕ) (heap : List Entry)
    → Sorted (e ∷ heap)
    → has_entry room_id d (e ∷ heap) ≡ true
    → e.deadline ≤ d
first_not_before e room_id d heap (first, rest) h =
    entry-NotBefore e.deadline room_id d (e ∷ heap) (omega arith, first) h

-- What the worker does at a clock reading is right for the deadlines that are armed.
pub Answers : ℕ → Scheduler → Wake → Type 0
Answers now s Wake.exits = s.stopped ≡ true
Answers now s Wake.waits = (room_id : ℕ) → lookup room_id s.deadlines ≡ none
Answers now s (Wake.waits_for timeout) =
    (0 < timeout) × ((room_id d : ℕ) → lookup room_id s.deadlines ≡ some d → now + timeout ≤ d)
Answers now s (Wake.fires room_id) =
    (due : ℕ) × (lookup room_id s.deadlines ≡ some due)
    × (due ≤ now)
    × ((other d : ℕ) → lookup other s.deadlines ≡ some d → due ≤ d)

live_deadline :
    (deadlines : Dict ℕ) (e : Entry)
    → is_live deadlines e ≡ true
    → lookup e.room_id deadlines ≡ some e.deadline
unfolding is_live
live_deadline deadlines e h = is_room_iff (lookup e.room_id deadlines) e.deadline h

wake_at-Answers :
    (now : ℕ) (s : Scheduler) (heap : List Entry)
    → skip_stale s.deadlines s.heap ≡ heap
    → IsArmed s
    → Answers now s (wake_at now heap)
unfolding wake_at Answers
wake_at-Answers now s [] e h = λ room_id. elim (Option-cases (lookup room_id s.deadlines)) [
  | inl free ↦ free
  | inr (d, found) ↦ absurd (
      let there = has_entry-skip s.deadlines room_id d s.heap found (h.covered room_id d found) in
      let none_there = (rw e at there) in cc)
]
wake_at-Answers now s (x ∷ heap) e h =
    let whole = skip_stale-Sorted s.deadlines s.heap h.sorted in
    let sorted : Sorted (x ∷ heap) = (rw e at whole) in
    let first = (λ (r d : ℕ) (found : lookup r s.deadlines ≡ some d).
      let there = has_entry-skip s.deadlines r d s.heap found (h.covered r d found) in
      first_not_before x r d heap sorted (rw e at there)) in
    elim (Bool-cases (ltb now x.deadline)) [
      | inl early ↦ rw early (
        ground arith,
        λ r d found.
            let least = first r d found in let later = ltb→lt now x.deadline early in omega arith,
      )
      | inr due ↦ rw due (
        x.deadline,
        live_deadline s.deadlines x (skip_stale-first s.deadlines s.heap x heap e),
        ground arith,
        first,
      )
    ]

-- What the worker does when it wakes is right for the deadlines that are armed: it leaves only if the
-- scheduler is stopped, it waits without a limit only if no deadline is armed, it waits for a time
-- only if that is positive and no deadline falls before its end, and it fires a room only if the
-- room's deadline is armed, due, and the earliest of all.
pub wake-Answers : (now : ℕ) (s : Scheduler) → IsArmed s → Answers now s (wake now s).0
unfolding wake
wake-Answers now s h =
    if_keeps (λ (r : Wake × Scheduler). Answers now s r.0) s.stopped (λ off. unfold Answers in off)
      (λ _. wake_at-Answers now s (skip_stale s.deadlines s.heap) refl h)
