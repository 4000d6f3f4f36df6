-- ===== src/Statuses/Clock.antt =====
-- Duration clocks, ticking and recurring damage, jjk_arena/battle_v2/effects.py.
use fantasy_draft.Base.{
  ℕ, Bool, true, false, not, ◌&&◌, Option, none, some, List, [], ◌∷◌, ◌++◌, ◌==◌, if◌then◌else◌,
  get_or,
}
use fantasy_draft.Int.{ℤ, pos, ◌-ℤ◌, ltb_ℤ, eqb_ℤ}
use fantasy_draft.Dict.{Dict}
use fantasy_draft.Models.{
  DamageType, damage_eq, DurationClock, IntKey, get_int, StatusEffect, CharacterState, EventType,
  RawAmount, BattleEvent,
}
use fantasy_draft.Conditions.{is_active}
use fantasy_draft.Damage.{apply_damage}
use fantasy_draft.Statuses.SideEffects.{remove_status_side_effects}
use fantasy_draft.Statuses.Passives.{check_passive_awakenings}

-- What cleanup pass it is: whose turn ends, whether the round ends, and the turn's number.
pub record Pass : Type 0 where
  pub acting_player_id : Option ℕ
  pub round_ending : Bool
  pub turn_number : Option ℤ

unfoldable pub acts_for : Option ℕ → ℕ → Bool
acts_for none player_id = true
acts_for (some acting) player_id = player_id == acting

unfoldable pub applied_now : Option ℤ → Option ℤ → Bool
applied_now none applied = false
applied_now (some turn) none = false
applied_now (some turn) (some applied) = eqb_ℤ applied turn

unfoldable pub clock_ticks : DurationClock → StatusEffect → Pass → Bool
clock_ticks DurationClock.source_turn s pass = acts_for pass.acting_player_id s.source_player_id
clock_ticks DurationClock.target_turn s pass = acts_for pass.acting_player_id s.target_player_id
clock_ticks DurationClock.round s pass = pass.round_ending
clock_ticks DurationClock.global_turn s pass = true

unfoldable pub should_tick_status : StatusEffect → Pass → Bool
should_tick_status s pass =
    if applied_now pass.turn_number (s.payload.ints IntKey.applied_turn_number)
    then false
    else clock_ticks s.duration_clock s pass

-- `status.duration -= 1` for a finite status whose clock advances.
unfoldable pub tick : Pass → StatusEffect → StatusEffect
tick pass s =
    if ltb_ℤ (pos 0) s.duration && should_tick_status s pass
    then record s { duration = s.duration -ℤ pos 1 }
    else s

unfoldable pub tick_loop :
    Pass → List StatusEffect → CharacterState → CharacterState × List StatusEffect
tick_loop pass [] c = (c, [])
tick_loop pass (s ∷ rest) c =
    let t = tick pass s in
    let next = tick_loop pass rest (if is_active t then c else remove_status_side_effects c t) in
    (next.0, (if is_active t then t ∷ next.1 else next.1))

unfoldable pub tick_statuses : Pass → CharacterState → CharacterState
tick_statuses pass c = let done = tick_loop pass c.statuses c in record done.0 { statuses = done.1 }

unfoldable pub tick_cooldown_list : Dict ℤ → Dict ℤ
tick_cooldown_list [] = []
tick_cooldown_list ((skill_id, turns) ∷ rest) =
    let others = tick_cooldown_list rest in
    if ltb_ℤ (pos 0) (turns -ℤ pos 1) then (skill_id, turns -ℤ pos 1) ∷ others else others

unfoldable pub tick_cooldowns : CharacterState → CharacterState
tick_cooldowns c = record c { cooldowns = tick_cooldown_list c.cooldowns }

unfoldable pub status_damage_event : StatusEffect → ℕ → ℤ → ℤ → ℤ → BattleEvent
status_damage_event s player_id slot turn_number actual = record {
  type = EventType.status_damage;
  turn_number = turn_number;
  private_to = if s.invisible && not s.revealed then some s.source_player_id else none;
  subject = some s.id;
  source_player_id = some s.source_player_id;
  source_slot = some s.source_slot;
  target_player_id = some player_id;
  target_slot = some slot;
  actual_hp_damage = RawAmount.number actual;
  is_reflected = false;
  reflected_by_player_id = none;
  amount = actual;
  stacks = pos 0;
  families = [];
}

-- The loop of `apply_turn_end_statuses` runs over a copy of the list. What it reads of a status, a
-- hit or an awakening within the loop does not change.
unfoldable pub turn_end_loop :
    List StatusEffect → Pass → ℕ → ℤ → ℤ → CharacterState → CharacterState × List BattleEvent
turn_end_loop [] pass player_id slot turn_number c = (c, [])
turn_end_loop (s ∷ rest) pass player_id slot turn_number c =
    let amount : ℤ = get_int s.payload IntKey.turn_end_damage in
    let hurts = is_active s && should_tick_status s pass && ltb_ℤ (pos 0) amount in
    let type : DamageType = get_or s.payload.turn_end_damage_type DamageType.normal in
    let hit = apply_damage c amount type (damage_eq type DamageType.sure_hit) in
    let woken = check_passive_awakenings hit.0 player_id slot turn_number in
    let next = turn_end_loop rest pass player_id slot turn_number (if hurts then woken.0 else c) in
    (
      next.0,
      (if hurts
          then (status_damage_event s player_id slot turn_number hit.1 ∷ woken.1) ++ next.1
          else next.1),
    )

unfoldable pub apply_turn_end_statuses :
    CharacterState → ℕ → ℤ → ℤ → Pass → CharacterState × List BattleEvent
apply_turn_end_statuses c player_id slot turn_number pass =
    turn_end_loop c.statuses pass player_id slot turn_number c
