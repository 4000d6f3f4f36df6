-- ===== src/Turn/Keeping.antt =====
-- The parts of the cleanup that draw nothing keep a battle sound, `finish_turn` of
-- jjk_arena/battle_v2/resolver.py.
use fantasy_draft.Base.{
  ℕ, ◌≡◌, refl, inl, inr, Bool, List, [], ◌∷◌, ◌==◌, arith, Bool-cases, if◌then◌else◌, get_elem?,
}
use fantasy_draft.Int.{ℤ, pos, ◌≤ℤ◌, int_laws}
use fantasy_draft.Dict.{lookup}
use fantasy_draft.Models.{EnergyType, energy_eq, Energy, StatusEffect, CharacterState, BattleState}
use fantasy_draft.Conditions.{is_active}
use fantasy_draft.Damage.Bounds.{IsSound}
use fantasy_draft.Energy.{take_energy}
use fantasy_draft.Energy.Counting.{count}
use fantasy_draft.Slots.{character_at}
use fantasy_draft.Statuses.{
  remove_status_side_effects, Pass, tick, tick_loop, tick_statuses, tick_cooldowns,
  apply_turn_end_statuses,
}
use fantasy_draft.Statuses.Recurring.{apply_turn_end_statuses-Suffers}
use fantasy_draft.Invariant.{
  IsSoundPlayer, IsSoundState, maybe_keeps, if_keeps, lookup-All, insert-All, character_at-IsSound,
  with_character-IsSoundState, IsSound-like,
}
use fantasy_draft.Turn.Expiry.{
  World, log_event, grants_guard, grant_guard, drainable, take_each, log_drains, log_revealed,
  with_status,
}
use fantasy_draft.Turn.Cleanup.{close_character, reset_player}

pub same_players : {a b : BattleState} → b.players ≡ a.players → IsSoundState a → IsSoundState b
same_players e h = record { all_players = rw e h.all_players }

pub tick_loop-body :
    (pass : Pass) (l : List StatusEffect) (c : CharacterState)
    → IsSound c
    → IsSound (tick_loop pass l c).0
unfolding tick_loop
tick_loop-body pass [] c h = h
tick_loop-body pass (s ∷ l) c h =
    tick_loop-body pass l
      (if is_active (tick pass s) then c else remove_status_side_effects c (tick pass s))
      (if_keeps IsSound (is_active (tick pass s)) (λ _. h)
        (λ _. unfold remove_status_side_effects in IsSound-like refl refl refl h))

pub close_character-IsSound :
    (pass : Pass) (acting player_id : ℕ) (slot turn_number : ℤ) (c : CharacterState)
    → IsSound c
    → IsSound (close_character pass acting player_id slot turn_number c).0
unfolding close_character tick_statuses
close_character-IsSound pass acting player_id slot turn_number c h =
    let hurt = apply_turn_end_statuses c player_id slot turn_number pass in
    let sound = (apply_turn_end_statuses-Suffers c player_id slot turn_number pass h).sound in
    let ticked : IsSound (tick_statuses pass hurt.0) =
      IsSound-like refl refl refl (tick_loop-body pass hurt.0.statuses hurt.0 sound) in
    let cooled : IsSound (
        if player_id == acting
        then tick_cooldowns (tick_statuses pass hurt.0)
        else tick_statuses pass hurt.0) =
      if_keeps IsSound (player_id == acting)
        (λ _. unfold tick_cooldowns in IsSound-like refl refl refl ticked) (λ _. ticked) in
    IsSound-like refl refl refl cooled

pub grant_guard-IsSoundState :
    (world : World) (pass : Pass) (s : StatusEffect) (state : BattleState)
    → IsSoundState state
    → IsSoundState (grant_guard world pass s state)
unfolding grant_guard log_event
grant_guard-IsSoundState world pass s state h =
    if_keeps IsSoundState (grants_guard pass s state)
      (λ _.
        maybe_keeps IsSoundState (character_at state s.source_player_id s.source_slot) h
          λ source found. same_players refl (
            with_character-IsSoundState state s.source_player_id s.source_slot _ h (
              IsSound-like refl refl refl
                (character_at-IsSound state s.source_player_id s.source_slot h found))))
      (λ _. h)

pub with_status-IsSoundState :
    (state : BattleState) (player_id : ℕ) (slot : ℤ) (i : ℕ) (f : StatusEffect → StatusEffect)
    → IsSoundState state
    → IsSoundState (with_status state player_id slot i f)
unfolding with_status
with_status-IsSoundState state player_id slot i f h =
    maybe_keeps IsSoundState (character_at state player_id slot) h λ c found.
      maybe_keeps IsSoundState (get_elem? c.statuses i) h λ s _.
        with_character-IsSoundState state player_id slot _ h
          (IsSound-like refl refl refl (character_at-IsSound state player_id slot h found))

pub drained_nonneg :
    (l : List EnergyType) (energy : Energy) (k : EnergyType)
    → pos (count k l) ≤ℤ energy k
    → pos 0 ≤ℤ take_each l energy k
unfolding take_each take_energy count
drained_nonneg [] energy k h = h
drained_nonneg (e ∷ l) energy k h = elim (Bool-cases (energy_eq k e)) [
  | inl same ↦
      drained_nonneg l (take_energy energy e 1) k (rw same (omega (int_laws, (rw same at h))))
  | inr other ↦
      drained_nonneg l (take_energy energy e 1) k (rw other (omega (int_laws, (rw other at h))))
]

pub drainable-count :
    (energy : Energy) (k : EnergyType)
    → pos 0 ≤ℤ energy k
    → pos (count k (drainable energy)) ≤ℤ energy k
unfolding drainable count
drainable-count energy EnergyType.green h = ground arith
drainable-count energy EnergyType.red h = ground arith
drainable-count energy EnergyType.blue h = ground arith
drainable-count energy EnergyType.white h = ground arith
drainable-count energy EnergyType.black h = ground arith

pub log_drains-players :
    (player_id : ℕ) (l : List EnergyType) (state : BattleState)
    → (log_drains player_id l state).players ≡ state.players
unfolding log_drains log_event
log_drains-players player_id [] state = refl
log_drains-players player_id (e ∷ l) state = log_drains-players player_id l _

pub log_revealed-IsSoundState :
    (shown : Bool) (s : StatusEffect) (state : BattleState)
    → IsSoundState state
    → IsSoundState (log_revealed shown s state)
unfolding log_revealed log_event
log_revealed-IsSoundState shown s state h =
    if_keeps IsSoundState shown (λ _. same_players {a = state} refl h) (λ _. h)

pub reset_player-IsSoundState :
    (player_id : ℕ) (state : BattleState)
    → IsSoundState state
    → IsSoundState (reset_player player_id state)
unfolding reset_player
reset_player-IsSoundState player_id state h =
    maybe_keeps IsSoundState (lookup player_id state.players) h λ player found.
      let owner = lookup-All IsSoundPlayer player_id state.players h.all_players found in
      record {
        all_players =
            insert-All IsSoundPlayer player_id _ state.players h.all_players
              (record { team = owner.team; no_debt = owner.no_debt });
      }
