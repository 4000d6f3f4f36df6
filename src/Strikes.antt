-- ===== src/Strikes.antt =====
-- Effects of the type "damage" and the conditions on an effect's context, `apply_effect` of
-- jjk_arena/battle_v2/effects.py.
pub mod Outcomes
use fantasy_draft.Base.{
  ℕ, Bool, true, false, not, ◌&&◌, ◌||◌, Option, none, some, List, [], ◌∷◌, ◌==◌, if◌then◌else◌,
  get_or, length, contains,
}
use fantasy_draft.Int.{ℤ, pos, ◌+ℤ◌, eqb_ℤ, min_ℤ, max_ℤ}
use fantasy_draft.Dict.{Dict, lookup}
use fantasy_draft.Result.{Result, ok, ◌>>=◌, or_raise, needs_target_slot, lookup_error}
use fantasy_draft.Models.{
  DamageType, damage_eq, SkillClass, IntKey, FlagKey, IdKey, get_int, get_flag, get_id, Modifier,
  EffectSpec, StatusEffect, CharacterState, PendingAction, BattleState,
}
use fantasy_draft.Conditions.{is_active}
use fantasy_draft.Damage.{
  status_amount, damage_bonus, payload_condition_met, scoped_outgoing_damage_delta,
  consume_destructible_defense, apply_damage, apply_damage_payload_side_effects,
}
use fantasy_draft.Slots.{character_at, with_character}
use fantasy_draft.Targeting.{action_target_slots}

-- The fields of `EffectContext` that the conditions read.
pub record EffectContext : Type 0 where
  pub original_target_status_ids : List ℕ
  pub recipient_status_ids : List ℕ

-- What `apply_effect` takes besides the state and the target.
pub record Application : Type 0 where
  pub action : PendingAction
  pub effect : EffectSpec
  pub condition_target : Option CharacterState
  pub skill_id : Option ℕ
  pub skill_classes : List SkillClass
  pub context : Option EffectContext

-- `context_condition_met`
unfoldable pub context_condition_met : Option EffectContext → EffectSpec → Bool
context_condition_met none effect = true
context_condition_met (some context) effect =
    let required = get_id effect.payload IdKey.condition_original_has_status in
    let missing = get_id effect.payload IdKey.condition_original_missing_status in
    let recipient_required = get_id effect.payload IdKey.condition_recipient_has_status in
    let recipient_missing = get_id effect.payload IdKey.condition_recipient_missing_status in
    (required == 0 || contains context.original_target_status_ids required)
    && (missing == 0 || not (contains context.original_target_status_ids missing))
    && (recipient_required == 0 || contains context.recipient_status_ids recipient_required)
    && (recipient_missing == 0 || not (contains context.recipient_status_ids recipient_missing))

unfoldable pub condition_subject : Application → CharacterState → CharacterState
condition_subject app target =
    if get_flag app.effect.payload FlagKey.condition_scope_original_target
    then get_or app.condition_target target
    else target

unfoldable pub condition_met : Application → CharacterState → CharacterState → Bool
condition_met app caster target =
    context_condition_met app.context app.effect
    && payload_condition_met (condition_subject app target) app.effect (some caster)

-- `skill_id or action.skill_id`
unfoldable pub used_skill_id : Application → ℕ
used_skill_id app = elim app.skill_id [
  | none ↦ app.action.skill_id
  | some id ↦ if id == 0 then app.action.skill_id else id
]

-- The modifier that a status holds for the skill.
unfoldable pub modifier_of : Application → StatusEffect → Option Modifier
modifier_of app s =
    if is_active s
    then lookup (used_skill_id app) (get_or s.payload.next_skill_modifiers [])
    else none

unfoldable pub extra_damage : Option Modifier → ℤ
extra_damage none = pos 0
extra_damage (some m) = m.damage

unfoldable pub extra_destruction : Option Modifier → ℤ
extra_destruction none = pos 0
extra_destruction (some m) = m.destroy_defense_first

unfoldable pub sum_modifiers : Application → (Option Modifier → ℤ) → List StatusEffect → ℤ
sum_modifiers app part [] = pos 0
sum_modifiers app part (s ∷ rest) = part (modifier_of app s) +ℤ sum_modifiers app part rest

-- The amount before the caster's modifiers; a skill with one target may have another one.
unfoldable pub base_amount : Application → CharacterState → CharacterState → ℤ
base_amount app caster target =
    let listed = get_or app.effect.amount (pos 0) in
    let base =
      if length (action_target_slots app.action) == 1
      then get_or (app.effect.payload.ints IntKey.single_target_amount) listed
      else listed in
    base +ℤ damage_bonus target app.effect (some caster)

unfoldable pub strike_amount : Application → CharacterState → CharacterState → ℤ
strike_amount app caster target =
    let amount = base_amount app caster target +ℤ sum_modifiers app extra_damage caster.statuses in
    if app.effect.target_self
    then amount
    else max_ℤ (pos 0) (amount +ℤ scoped_outgoing_damage_delta caster app.skill_classes)

unfoldable pub destroyed_defense : Application → CharacterState → CharacterState → ℤ
destroyed_defense app caster target = min_ℤ (status_amount target IntKey.destructible_defense) (
    max_ℤ (pos 0) (get_int app.effect.payload IntKey.destroy_defense_first)
    +ℤ sum_modifiers app extra_destruction caster.statuses)

unfoldable pub strike_type : Application → DamageType
strike_type app = get_or app.effect.damage_type DamageType.normal

unfoldable pub strike_bypasses : Application → Bool
strike_bypasses app =
    get_flag app.effect.payload FlagKey.bypass_invulnerability
    || damage_eq (strike_type app) DamageType.sure_hit

unfoldable pub break_defense : CharacterState → ℤ → CharacterState
break_defense target amount =
    if eqb_ℤ amount (pos 0) then target else consume_destructible_defense target amount

unfoldable pub strike_target : Application → CharacterState → CharacterState → CharacterState × ℤ
strike_target app caster target =
    let broken = break_defense target (destroyed_defense app caster target) in
    let hit =
      apply_damage broken (strike_amount app caster target) (strike_type app)
        (strike_bypasses app) in
    (apply_damage_payload_side_effects hit.0 app.effect, hit.1)

-- A "damage" event with the hit points lost, or the event "damage_skipped".
pub data StrikeOutcome : Type 0 where
  dealt : ℤ → StrikeOutcome
  skipped : StrikeOutcome

unfoldable pub strike_state :
    BattleState
    → Application
    → ℕ
    → ℤ
    → CharacterState
    → CharacterState
    → BattleState × StrikeOutcome
strike_state state app player_id slot caster target =
    let struck = strike_target app caster target in
    if condition_met app caster target
    then (with_character state player_id slot struck.0, StrikeOutcome.dealt struck.1)
    else (state, StrikeOutcome.skipped)

unfoldable pub apply_damage_effect :
    BattleState → Application → ℕ → Option ℤ → Result (BattleState × StrikeOutcome)
apply_damage_effect state app player_id target_slot = do
  slot ← or_raise target_slot needs_target_slot
  target ← or_raise (character_at state player_id slot) lookup_error
  caster ← or_raise (character_at state app.action.player_id app.action.caster_slot) lookup_error
  ok (strike_state state app player_id slot caster target)
