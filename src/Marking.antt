-- ===== src/Marking.antt =====
-- `apply_status` of jjk_arena/battle_v2/effects.py on a battle: a new status is made for its target
-- and stacked or appended.
use fantasy_draft.Base.{ℕ, Option, ◌==◌, get_or}
use fantasy_draft.Int.{ℤ}
use fantasy_draft.Result.{
  Result, ok, ◌>>=◌, ◌>>◌, raise_if, or_raise, needs_status_id, lookup_error,
}
use fantasy_draft.Models.{EffectSpec, StatusEffect, CharacterState, PendingAction, BattleState}
use fantasy_draft.Slots.{character_at, with_character}
use fantasy_draft.Statuses.{new_status, attach}

-- Whose status it is, where that is not the action's caster.
pub record Source : Type 0 where
  pub player_id : Option ℕ
  pub slot : Option ℤ
  pub skill_id : Option ℕ

unfoldable pub marked_target :
    BattleState
    → PendingAction
    → ℕ
    → ℤ
    → EffectSpec
    → Source
    → ℕ
    → CharacterState
    → CharacterState × StatusEffect
marked_target state action player_id slot effect source id target = attach target (
    new_status state.turn_number action player_id slot target id effect source.player_id source.slot
      source.skill_id)

-- The text of the status may be missing or empty.
unfoldable pub apply_status :
    BattleState → PendingAction → ℕ → ℤ → EffectSpec → Source → Result (BattleState × StatusEffect)
apply_status state action player_id slot effect source = do
  let id = get_or effect.status 0
  raise_if (id == 0) needs_status_id
  target ← or_raise (character_at state player_id slot) lookup_error
  let marked = marked_target state action player_id slot effect source id target
  ok (with_character state player_id slot marked.0, marked.1)
