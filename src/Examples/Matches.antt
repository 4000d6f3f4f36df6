-- ===== src/Examples/Matches.antt =====
-- A match under the manager at concrete inputs: absences, the end of turns, conversions, tiebreaks.
use fantasy_draft.Base.{
  ◌+◌, ◌-◌, ◌*◌, ◌<◌, ◌≡◌, refl, Bool, true, false, Option, none, some, List, [], ◌∷◌, arith,
}
use fantasy_draft.Int.{ℤ, pos, negsuc}
use fantasy_draft.Dict.{Dict, lookup}
use fantasy_draft.Result.{ok}
use fantasy_draft.Models.{BattlePhase, EnergyType, PlayerState, BattleState}
use fantasy_draft.Timers.{default_policy, phase_seconds_remaining}
use fantasy_draft.Invariant.{IsSoundState}
use fantasy_draft.Match.{ResultType, FinishReason, MatchState, Live}
use fantasy_draft.Match.Finish.{Score, is_finished, scores, tiebreak_winner}
use fantasy_draft.Match.Ledger.{complete_player_turn}
use fantasy_draft.Match.Presence.{
  grace, max_budget, min, used_by, is_player, disconnect_player, reconnect_player,
  expire_disconnects,
}
use fantasy_draft.Match.Phases.{Setting, expire_phase}
use fantasy_draft.Match.Commands.{convert_energy}
use fantasy_draft.Match.Runs.{MatchStep, IsFresh, Played}
use fantasy_draft.Match.Final.{finished_final}
use fantasy_draft.Match.Pausing.{IsOrderly}
use fantasy_draft.Match.Orderly.{Played-IsOrderly}
use fantasy_draft.Match.Returning.{CameBack, reconnect-disconnect}
use fantasy_draft.Match.Limits.{IsPlayable, IsWithin, complete_player_turn_bounds}
use fantasy_draft.Match.Tiebreak.{Decides, tiebreak_winner-Decides}
use fantasy_draft.Match.Converting.{Converted, convert_energy-Converted}
use fantasy_draft.Match.Soundness.{IsFair, expire_phase-IsSoundState}
use fantasy_draft.Examples.Samples.{character, fallen, striker, player_of, battle}
use fantasy_draft.Examples.Turns.{front_world, front_world-IsSampler, battle-IsSoundState}

abbrev first_player : PlayerState
first_player = player_of (striker ∷ fallen ∷ [])

abbrev second_player : PlayerState
second_player = player_of (character (pos 60) [] ∷ character (pos 40) [] ∷ [])

abbrev pub duel : BattleState
duel = record {
  players = (1, first_player) ∷ (2, second_player) ∷ [];
  turn_player_id = 1;
  phase = BattlePhase.planning;
  turn_number = pos 4;
  pending_actions = [];
  queue_order = [];
  event_log = [];
  winner_id = none;
}

abbrev pub fresh_state : MatchState
fresh_state = record {
  battle = duel;
  room_id = some 7;
  result_type = none;
  finish_reason = none;
  paused = false;
  paused_phase = none;
  paused_seconds_remaining = none;
  phase_deadline = some 61000;
  disconnected_at = [];
  disconnect_deadlines = [];
  disconnect_seconds_used = (1, 0) ∷ (2, 0) ∷ [];
  timeout_total = (1, 0) ∷ (2, 0) ∷ [];
  timeout_consecutive = (1, 0) ∷ (2, 0) ∷ [];
  damage_to_hp = (1, pos 0) ∷ (2, pos 0) ∷ [];
  no_progress_turns = 0;
  player_turns_completed = 0;
  progress_event_cursor = 0;
  logical_time = 0;
  state_revision = 0;
}

abbrev pub fresh : Live
fresh = record { state = fresh_state; callbacks = record { pending = none; published = [] } }

fresh-IsFresh : IsFresh 7 fresh
unfolding lookup
fresh-IsFresh = record {
  named = refl;
  unfinished = refl;
  no_result = refl;
  unpaused = refl;
  no_pause = refl;
  within = λ id. ground arith;
  all_here = refl;
  no_deadlines = refl;
  no_queue = refl;
  unpublished = refl;
  turns = refl;
  no_progress = refl;
}

-- The player 2 leaves and does not come back: the player 1 wins.
abbrev left_alone : Live
left_alone = record fresh { state = disconnect_player 2 1000 fresh_state }

abbrev given_up : Live
given_up = (expire_disconnects 99000 left_alone).0

given_up_result : given_up.state.result_type ≡ some ResultType.forfeit
unfolding expire_disconnects disconnect_player lookup fantasy_draft.Match.Presence.expired_ids
    fantasy_draft.Dict.insert fantasy_draft.Turn.player_ids fantasy_draft.Match.Finish.finish_match
given_up_result = refl

Played-IsOrderly_example : IsOrderly 7 given_up
Played-IsOrderly_example = Played-IsOrderly (
    Played.goes_on
      (Played.goes_on (Played.begins fresh-IsFresh) (MatchStep.disconnects {live = fresh} 2 1000))
      (MatchStep.expires_away {live = left_alone} 99000))

abbrev ended : Live
ended = record fresh {
  state = record fresh_state {
    battle = record duel { phase = BattlePhase.finished; winner_id = some 1 };
    result_type = some ResultType.win;
    finish_reason = some FinishReason.defeat;
  };
}

finished_final_example : record ended { state = disconnect_player 2 5000 ended.state } ≡ ended
finished_final_example =
    finished_final {live = ended} refl refl (MatchStep.disconnects {live = ended} 2 5000)

second_plays : is_player 2 fresh_state ≡ true
unfolding is_player lookup
second_plays = refl

in_time : 31000 < 1000 + min grace (max_budget - used_by 2 fresh_state) * 1000
unfolding lookup
in_time = omega arith

reconnect-disconnect_example :
    (after : MatchState) × (reconnect_player 2 31000 (disconnect_player 2 1000 fresh_state)
      ≡ ok after)
    × CameBack 2 1000 31000 fresh_state after
reconnect-disconnect_example =
    reconnect-disconnect 2 1000 31000 fresh_state refl refl second_plays refl refl (omega arith)
      in_time

duel-IsPlayable : IsPlayable duel.players
unfolding fantasy_draft.Slots.get_at
duel-IsPlayable = record {
  some_player = refl;
  slots = ((refl, (refl, tt)), ((refl, (refl, tt)), tt));
}

complete_player_turn_bounds_example :
    (after : Live) × (complete_player_turn 1 true fresh ≡ ok after)
    × (after.state.player_turns_completed ≡ 0 + 1)
    × (is_finished after.state ≡ false → IsWithin true 1 after.state)
complete_player_turn_bounds_example = complete_player_turn_bounds 1 true fresh refl duel-IsPlayable

-- One living character against two.
abbrev duel_scores : Dict Score
duel_scores =
    (1, pos 1 ∷ pos 80 ∷ pos 0 ∷ pos 0 ∷ []) ∷ (2, pos 2 ∷ pos 100 ∷ pos 0 ∷ pos 0 ∷ []) ∷ []

duel_scored : scores fresh_state duel.players ≡ ok duel_scores
unfolding scores fantasy_draft.Match.Finish.active_characters fantasy_draft.Match.Finish.score_of
    fantasy_draft.Int.◌+ℤ◌ lookup fantasy_draft.Int.◌-ℤ◌ fantasy_draft.Int.max_ℤ
duel_scored = refl

duel_tiebreak : tiebreak_winner fresh_state ≡ ok (some 2)
unfolding tiebreak_winner scores fantasy_draft.Match.Finish.active_characters
    fantasy_draft.Match.Finish.best_score fantasy_draft.Match.Finish.only
    fantasy_draft.Match.Finish.holders fantasy_draft.Match.Finish.score_of
    fantasy_draft.Match.Finish.best_from fantasy_draft.Match.Finish.score_ltb fantasy_draft.Int.◌+ℤ◌
    fantasy_draft.Int.max_ℤ lookup fantasy_draft.Int.◌-ℤ◌
duel_tiebreak = refl

tiebreak_winner-Decides_example : Decides duel_scores (some 2)
tiebreak_winner-Decides_example = tiebreak_winner-Decides fresh_state duel_scored duel_tiebreak

abbrev five_sources : List (Option EnergyType)
five_sources =
    some EnergyType.green
    ∷ some EnergyType.green
    ∷ some EnergyType.red
    ∷ some EnergyType.blue
    ∷ some EnergyType.blue
    ∷ []

granted :
    (after : MatchState) × (convert_energy 1 five_sources (some EnergyType.white) fresh_state
      ≡ ok after)
unfolding convert_energy fantasy_draft.Match.Phases.ensure_turn_player lookup
    fantasy_draft.Queue.pending fantasy_draft.Energy.require_energy fantasy_draft.Energy.items
    fantasy_draft.Energy.update_counter fantasy_draft.Energy.increment
granted = (_, refl)

first_stands : lookup 1 duel.players ≡ some first_player
unfolding lookup
first_stands = refl

convert_energy-Converted_example :
    Converted 1 first_player fresh_state granted.0 five_sources (some EnergyType.white)
convert_energy-Converted_example =
    convert_energy-Converted 1 five_sources (some EnergyType.white) fresh_state first_player
      first_stands (λ k. omega arith) granted.1

-- The time of the player 1 runs out.
abbrev pub late : Setting
late = record {
  now = 70000;
  policy = default_policy;
  choice = λ i. EnergyType.green;
  world = front_world;
}

late-IsFair : IsFair late
late-IsFair = record { sampler = front_world-IsSampler; core = λ i e. absurd (ground arith) }

abbrev overdue : Live
overdue = record fresh { state = record fresh_state { battle = battle } }

passed : (ran : Live × Bool) × (expire_phase late overdue ≡ ok ran)
unfolding expire_phase fantasy_draft.Timers.phase_timer_expired complete_player_turn
    fantasy_draft.Match.Ledger.has_timed_out lookup fantasy_draft.Dict.insert
    fantasy_draft.Turn.log_event fantasy_draft.Turn.check_winner fantasy_draft.Turn.decide
    fantasy_draft.Turn.alive_players fantasy_draft.Turn.finish_turn fantasy_draft.Turn.pass_turn
    fantasy_draft.Turn.clear_queue fantasy_draft.Turn.clean_players fantasy_draft.Turn.player_ids
    fantasy_draft.Turn.clean_player fantasy_draft.Turn.reset_player fantasy_draft.Turn.clean_team
    fantasy_draft.Turn.clean_character fantasy_draft.Slots.character_at
    fantasy_draft.Turn.clean_statuses fantasy_draft.Turn.clean_status fantasy_draft.Turn.drains
    fantasy_draft.Turn.is_revealed_now fantasy_draft.Turn.ended_by_source
    fantasy_draft.Turn.log_revealed fantasy_draft.Turn.with_status fantasy_draft.Turn.grant_guard
    fantasy_draft.Turn.grants_guard fantasy_draft.Slots.with_character fantasy_draft.Turn.log_events
    fantasy_draft.Turn.has_living fantasy_draft.Energy.is_living fantasy_draft.Energy.team_at
    fantasy_draft.Turn.close_character fantasy_draft.Statuses.tick_cooldowns
    fantasy_draft.Statuses.tick_statuses fantasy_draft.Statuses.tick_loop
    fantasy_draft.Statuses.apply_turn_end_statuses fantasy_draft.Statuses.turn_end_loop
    fantasy_draft.Statuses.should_tick_status fantasy_draft.Statuses.applied_now
    fantasy_draft.Turn.cleanup_pass fantasy_draft.Statuses.clock_ticks
    fantasy_draft.Statuses.acts_for fantasy_draft.Statuses.tick
    fantasy_draft.Statuses.check_passive_awakenings fantasy_draft.Damage.apply_damage
    fantasy_draft.Damage.is_shrugged_off fantasy_draft.Damage.has_invulnerability
    fantasy_draft.Damage.deal fantasy_draft.Damage.lose_hp fantasy_draft.Int.◌-ℤ◌
    fantasy_draft.Int.min_ℤ fantasy_draft.Int.max_ℤ fantasy_draft.Damage.incoming_damage
    fantasy_draft.Int.◌+ℤ◌ fantasy_draft.Damage.status_amount
    fantasy_draft.Damage.absorbed_reduction fantasy_draft.Damage.downgraded
    fantasy_draft.Damage.absorbed_defense fantasy_draft.Statuses.check_loop
    fantasy_draft.Statuses.is_due fantasy_draft.Damage.shielded_statuses
    fantasy_draft.Damage.consume_destructible_defense fantasy_draft.Damage.consume_defense
    fantasy_draft.Accounting.enemy_hp_damage_attribution fantasy_draft.Accounting.is_hp_damage
    fantasy_draft.Statuses.status_damage_event fantasy_draft.Accounting.enemy_pair
    fantasy_draft.Accounting.credited_source fantasy_draft.Accounting.read_amount
    fantasy_draft.Accounting.credit
passed = (_, refl)

expire_phase-IsSoundState_example : IsSoundState passed.0.0.state.battle
expire_phase-IsSoundState_example =
    expire_phase-IsSoundState late late-IsFair overdue battle-IsSoundState passed.1
