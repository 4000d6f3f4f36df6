-- ===== src/Queue/Actions.antt =====
-- Validation of single actions, jjk_arena/battle_v2/resolver.py.
use fantasy_draft.Base.{
  ℕ, Bool, true, false, not, ◌&&◌, Option, none, some, List, [], ◌∷◌, ◌==◌, if◌then◌else◌, any,
  get_or,
}
use fantasy_draft.Int.{ℤ, pos, ltb_ℤ, eqb_ℤ}
use fantasy_draft.Dict.{lookup}
use fantasy_draft.Result.{
  Result, ok, err, ◌>>=◌, ◌>>◌, raise_if, or_raise, lookup_error, empty_action_id,
  duplicate_targets, primary_not_first, secondary_is_primary, secondary_not_second,
  caster_not_active, caster_dead, already_acted, on_cooldown, caster_stunned, no_allies, no_damage,
  no_counters, cannot_afford, redirect_needs_alternate, alternate_dead, alternate_is_watched,
  bloom_primary, bloom_secondary, bloom_secondary_dead, bloom_team,
}
use fantasy_draft.Models.{
  FlagKey, IdKey, get_flag, get_id, SkillSpec, CharacterState, PlayerState, PendingAction,
  BattleState,
}
use fantasy_draft.Conditions.{is_active, is_empty, has_status, poison_id, is_stunned_for_class}
use fantasy_draft.Energy.{can_afford_specific, validate_wildcard_payments}
use fantasy_draft.Slots.{get_at, has_slot, are_distinct, same_slots}
use fantasy_draft.Targeting.{
  get_player, get_character, action_target_slots, deals_damage, is_ally_kind, validate_target_rule,
}
use fantasy_draft.Queue.Costs.{Skills, get_skill_for_action, adjusted_cost_skill}

unfoldable pub second : List ℤ → Option ℤ
second (a ∷ b ∷ rest) = some b
second _ = none

unfoldable pub first : List ℤ → Option ℤ
first [] = none
first (a ∷ rest) = some a

unfoldable pub eq_slot : Option ℤ → Option ℤ → Bool
eq_slot none none = true
eq_slot (some a) (some b) = eqb_ℤ a b
eq_slot _ _ = false

-- The two tests on a secondary target.
unfoldable pub check_secondary : PendingAction → Result (Unit {0})
check_secondary action = elim action.secondary_target_slot [
  | none ↦ ok tt
  | some slot ↦
      raise_if (eq_slot (some slot) action.target_slot) secondary_is_primary
      >> raise_if (not (eq_slot (second action.target_slots) (some slot))) secondary_not_second
]

unfoldable pub is_not_first : Option ℤ → List ℤ → Bool
is_not_first none slots = false
is_not_first (some slot) [] = false
is_not_first (some slot) (first ∷ slots) = not (eqb_ℤ first slot)

unfoldable pub validate_action_identity : BattleState → PendingAction → Skills → Result (Unit {0})
validate_action_identity state action skills = do
  raise_if (action.id == 0) empty_action_id
  raise_if (not (are_distinct action.target_slots)) duplicate_targets
  raise_if (is_not_first action.target_slot action.target_slots) primary_not_first
  check_secondary action
  player ← get_player state action.player_id
  caster ← get_character player action.caster_slot
  skill ← get_skill_for_action skills caster action
  ok tt

unfoldable pub has_flag : CharacterState → FlagKey → Bool
has_flag c k = any (λ s. is_active s && get_flag s.payload k) c.statuses

-- Skills that a status of the caster forbids.
unfoldable pub check_blocks : CharacterState → SkillSpec → Result (Unit {0})
check_blocks caster skill = do
  raise_if (is_ally_kind skill.target_rule.kind && has_flag caster FlagKey.cannot_target_allies)
      no_allies
  raise_if
      (has_flag caster FlagKey.block_non_damaging_skills && not (any deals_damage skill.effects))
      no_damage
  raise_if
      (has_flag caster FlagKey.block_counters
        && any (λ e. not (get_id e.payload IdKey.counter == 0)) skill.effects)
      no_counters

unfoldable pub has_effect : SkillSpec → FlagKey → Bool
has_effect skill k = any (λ e. get_flag e.payload k) skill.effects

unfoldable pub same_id : Option ℕ → ℕ → Bool
same_id none b = false
same_id (some a) b = a == b

-- A controlled redirect wants another living target.
unfoldable pub check_alternate :
    BattleState → PendingAction → Option ℕ → Option ℤ → Result (Unit {0})
check_alternate state action (some player_id) (some slot) = do
  alternate_player ← get_player state player_id
  alternate ← get_character alternate_player slot
  raise_if (not alternate.alive) alternate_dead
  raise_if (player_id == action.target_player_id && eq_slot (some slot) action.target_slot)
      alternate_is_watched
check_alternate state action _ _ = err redirect_needs_alternate

unfoldable pub check_redirect : BattleState → PendingAction → SkillSpec → Result (Unit {0})
check_redirect state action skill =
    if has_effect skill FlagKey.controlled_redirect
    then check_alternate state action action.alternate_target_player_id action.alternate_target_slot
    else ok tt

-- The active slots whose character is poisoned.
unfoldable pub poisoned_slots : List CharacterState → List ℤ → Result (List ℤ)
poisoned_slots team [] = ok []
poisoned_slots team (slot ∷ slots) = do
  c ← or_raise (get_at team slot) lookup_error
  rest ← poisoned_slots team slots
  ok (if has_status c poison_id then slot ∷ rest else rest)

unfoldable pub primary_slot : PendingAction → Option ℤ
primary_slot action = elim action.target_slot [
  | none ↦ first (action_target_slots action)
  | some slot ↦ some slot
]

unfoldable pub is_in : Option ℤ → List ℤ → Bool
is_in none slots = false
is_in (some slot) slots = has_slot slots slot

unfoldable pub check_spread : PlayerState → PendingAction → Result (Unit {0})
check_spread enemy action = elim action.secondary_target_slot [
  | none ↦ err bloom_secondary
  | some slot ↦
      raise_if (eq_slot (some slot) (primary_slot action)) bloom_secondary
      >> (get_character enemy slot >>= λ c. raise_if (not c.alive) bloom_secondary_dead)
]

unfoldable pub check_bloom : BattleState → PendingAction → SkillSpec → Result (Unit {0})
check_bloom state action skill =
    if has_effect skill FlagKey.conditional_targeting_venom_bloom
    then (do
      enemy ← get_player state action.target_player_id
      poisoned ← poisoned_slots enemy.team enemy.active_slots
      if is_empty poisoned
          then raise_if (not (same_slots (action_target_slots action) enemy.active_slots))
              bloom_team
          else (raise_if (not (is_in (primary_slot action) poisoned)) bloom_primary
              >> check_spread enemy action))
    else ok tt

-- The checks on the caster and its skill.
unfoldable pub check_caster :
    PlayerState → CharacterState → SkillSpec → PendingAction → Result (Unit {0})
check_caster player caster skill action = do
  let cost = (adjusted_cost_skill caster skill).cost
  raise_if (ltb_ℤ (pos 0) (get_or (lookup skill.id caster.cooldowns) (pos 0))) on_cooldown
  raise_if (is_stunned_for_class caster skill.classes skill) caster_stunned
  check_blocks caster skill
  raise_if (not (can_afford_specific player cost)) cannot_afford
  validate_wildcard_payments player cost action.wildcard_pays

unfoldable pub validate_action : BattleState → PendingAction → Skills → Result (Unit {0})
validate_action state action skills = do
  validate_action_identity state action skills
  player ← get_player state action.player_id
  caster ← get_character player action.caster_slot
  raise_if (not (has_slot player.active_slots action.caster_slot)) caster_not_active
  raise_if (not caster.alive) caster_dead
  raise_if caster.acted_this_turn already_acted
  skill ← get_skill_for_action skills caster action
  check_caster player caster skill action
  check_redirect state action skill
  check_bloom state action skill
  accepted ← validate_target_rule state action skill
  ok tt
