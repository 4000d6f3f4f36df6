-- ===== src/Examples/Rooms.antt =====
-- Resume credentials, the scheduler and damage accounting at concrete inputs.
use fantasy_draft.Base.{ℕ, ◌+◌, ◌≡◌, ◌↔◌, refl, true, false, none, some, [], ◌∷◌, arith}
use fantasy_draft.Int.{pos}
use fantasy_draft.Dict.{Dict, lookup}
use fantasy_draft.Models.{EventType, RawAmount, BattleEvent}
use fantasy_draft.Sessions.{Registry, verify, reserve, commit, get_in}
use fantasy_draft.Sessions.View.{at_pair}
use fantasy_draft.Sessions.Resuming.{resume_rotates}
use fantasy_draft.Scheduler.{
  Worker, Scheduler, new_scheduler, Wake, arm, cancel, cancel_if_idle, ensure_worker, shutdown,
  wake, claim, in_flight_total, Step, Reachable,
}
use fantasy_draft.Scheduler.Waking.{IsArmed, Answers, wake-Answers}
use fantasy_draft.Scheduler.Keeping.{IsScheduler}
use fantasy_draft.Scheduler.Running.{Reachable-IsScheduler, taken_unmarked}
use fantasy_draft.Accounting.{
  Attribution, enemy_hp_damage_attribution, IsEnemyDamage, enemy_hp_damage_attribution_iff,
}

-- A digest that tells tokens apart.
abbrev digest : ℕ → ℕ
digest token = token + 1000

abbrev seated : Registry
seated = record { token_hashes = (1, (2, 1077) ∷ []) ∷ []; reservations = [] }

seated-verify : verify digest 1 2 77 seated ≡ true
unfolding verify get_in lookup
seated-verify = refl

seated_free : get_in seated.reservations 1 2 ≡ none
unfolding get_in lookup
seated_free = refl

resume_rotates_example :
    let reserved = reserve digest 1 2 77 seated in
    let done = commit digest 88 1 2 77 reserved.1 in
    (reserved.0 ≡ true)
    × (done.0 ≡ some (record { room_id = 1; player_id = 2; token = 88 }))
    × (verify digest 1 2 88 done.1 ≡ true)
    × (verify digest 1 2 77 done.1 ≡ false)
    × ((r p t : ℕ)
        → at_pair 1 2 r p ≡ false
        → verify digest r p t done.1 ≡ verify digest r p t seated)
resume_rotates_example =
    resume_rotates digest seated 88 1 2 77 seated-verify seated_free
      (λ e. absurd (omega (arith, e)))

-- The room 6 is armed for the time 50 and the room 7 for the time 20, and the worker runs.
abbrev two_rooms : Scheduler
two_rooms = ensure_worker (arm (some 20) 7 (arm (some 50) 6 new_scheduler))

two_rooms-Reachable : Reachable two_rooms
two_rooms-Reachable =
    Reachable.then_step
      (Reachable.then_step (Reachable.then_step Reachable.created (Step.arms (some 50) 6))
        (Step.arms (some 20) 7))
      Step.starts

two_rooms_loop : two_rooms.worker ≡ Worker.looping
unfolding ensure_worker fantasy_draft.Scheduler.started arm fantasy_draft.Scheduler.is_room lookup
    fantasy_draft.Dict.insert
two_rooms_loop = refl

Reachable-IsScheduler_example : IsScheduler two_rooms
Reachable-IsScheduler_example = Reachable-IsScheduler two_rooms-Reachable

two_rooms-IsArmed : IsArmed two_rooms
two_rooms-IsArmed = (Reachable-IsScheduler two_rooms-Reachable).armed

wake-Answers_example : Answers 25 two_rooms (wake 25 two_rooms).0
wake-Answers_example = wake-Answers 25 two_rooms two_rooms-IsArmed

-- At the time 25 the worker takes the room 7.
abbrev one_taken : Scheduler
one_taken = (wake 25 two_rooms).1

one_taken-Reachable : Reachable one_taken
one_taken-Reachable = Reachable.then_step two_rooms-Reachable (Step.wakes 25 two_rooms_loop)

one_taken_stands : one_taken.worker ≡ Worker.taken 7
unfolding wake ensure_worker arm fantasy_draft.Scheduler.is_room lookup fantasy_draft.Dict.insert
    fantasy_draft.Scheduler.after_wake fantasy_draft.Scheduler.wake_at
    fantasy_draft.Scheduler.skip_stale fantasy_draft.Scheduler.heappush
    fantasy_draft.Scheduler.before fantasy_draft.Scheduler.is_live
one_taken_stands = refl

taken_unmarked_example :
    (in_flight_total one_taken ≡ 0)
    × ((cancel_if_idle 7 one_taken).0 ≡ true)
    × Step (cancel_if_idle 7 one_taken).1 (claim 7 (cancel_if_idle 7 one_taken).1)
taken_unmarked_example = taken_unmarked one_taken 7 one_taken-Reachable one_taken_stands

-- A hit of the player 1 on the player 2, sent back by the player 2.
abbrev reflected_hit : BattleEvent
reflected_hit = record {
  type = EventType.damage;
  turn_number = pos 4;
  private_to = none;
  subject = none;
  source_player_id = some 1;
  source_slot = some (pos 0);
  target_player_id = some 1;
  target_slot = some (pos 0);
  actual_hp_damage = RawAmount.number (pos 12);
  is_reflected = true;
  reflected_by_player_id = some 2;
  amount = pos 12;
  stacks = pos 0;
  families = [];
}

abbrev reflector_credit : Attribution
reflector_credit = record { source = 2; target = 1; amount = pos 12 }

enemy_hp_damage_attribution_iff_example :
    (enemy_hp_damage_attribution reflected_hit (1 ∷ 2 ∷ []) ≡ some reflector_credit)
    ↔ IsEnemyDamage reflected_hit (1 ∷ 2 ∷ []) reflector_credit
enemy_hp_damage_attribution_iff_example =
    enemy_hp_damage_attribution_iff reflected_hit (1 ∷ 2 ∷ []) reflector_credit
