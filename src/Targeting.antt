-- ===== src/Targeting.antt =====
-- Targets of actions, jjk_arena/battle_v2/targeting.py.
pub mod Legality
use fantasy_draft.Base.{
  ℕ, zero, suc, Bool, true, false, not, ◌&&◌, ◌||◌, Option, none, some, List, [], ◌∷◌, ◌==◌, ltb,
  if◌then◌else◌, any, length, keep, get_or, map,
}
use fantasy_draft.Int.{ℤ, pos, eqb_ℤ}
use fantasy_draft.Dict.{Dict, lookup}
use fantasy_draft.Result.{
  Result, ok, err, ◌>>=◌, ◌>>◌, raise_if, or_raise, enemy_alias, unknown_player, invalid_slot,
  duplicate_targets, target_count, must_target_enemy, must_target_ally, must_target_self,
  must_target_caster, cannot_target_caster, target_not_active, target_dead, target_invulnerable,
  lacks_status,
}
use fantasy_draft.Models.{
  DamageType, damage_eq, SkillClass, class_eq, FlagKey, get_flag, TargetKind, TargetRule,
  EffectType, EffectSpec, SkillSpec, StatusEffect, CharacterState, PlayerState, PendingAction,
  BattleState,
}
use fantasy_draft.Conditions.{is_active, is_empty, has_status, anti_domain_id}
use fantasy_draft.Energy.{team_at}
use fantasy_draft.Slots.{has_slot, are_distinct}

-- The two aliases of a player.
abbrev pub self_alias : ℕ
self_alias = 1

abbrev pub enemy_alias_id : ℕ
enemy_alias_id = 2

unfoldable pub opponents : ℕ → Dict PlayerState → List ℕ
opponents player_id players = keep (λ id. not (id == player_id)) (map (λ e. e.0) players)

unfoldable pub only : List ℕ → Result ℕ
only (id ∷ []) = ok id
only _ = err enemy_alias

unfoldable pub resolve_player_id : BattleState → ℕ → ℕ → Result ℕ
resolve_player_id state acting_player_id target_player_id =
    if target_player_id == self_alias
    then ok acting_player_id
    else if target_player_id == enemy_alias_id
    then only (opponents acting_player_id state.players)
    else ok target_player_id

unfoldable pub get_player : BattleState → ℕ → Result PlayerState
get_player state player_id = or_raise (lookup player_id state.players) unknown_player

unfoldable pub get_character : PlayerState → ℤ → Result CharacterState
get_character player slot = or_raise (team_at player.team slot) invalid_slot

unfoldable pub action_target_slots : PendingAction → List ℤ
action_target_slots action = elim action.target_slots [
  | [] ↦ elim action.target_slot [ none ↦ [] | some slot ↦ slot ∷ [] ]
  | slot ∷ slots ↦ slot ∷ slots
]

unfoldable pub target_has_anti_domain : CharacterState → Bool
target_has_anti_domain target =
    has_status target anti_domain_id
    || any (λ s. is_active s && get_flag s.payload FlagKey.anti_domain) target.statuses

unfoldable pub is_sure_hit : EffectSpec → Bool
is_sure_hit e = elim e.damage_type [ none ↦ false | some t ↦ damage_eq t DamageType.sure_hit ]

unfoldable pub skill_bypasses_invulnerability : SkillSpec → Option CharacterState → Bool
skill_bypasses_invulnerability skill target =
    let sure =
      any (λ c. class_eq c SkillClass.domain) skill.classes || any is_sure_hit skill.effects in
    let warded : Bool = elim target [ none ↦ false | some t ↦ target_has_anti_domain t ] in
    if any (λ c. class_eq c SkillClass.bypassing) skill.classes
    then true
    else if any (λ e. get_flag e.payload FlagKey.bypass_invulnerability) skill.effects
    then true
    else if sure && warded
    then false
    else sure

unfoldable pub deals_damage : EffectSpec → Bool
deals_damage e =
    not e.target_self
    && (elim e.type [ EffectType.damage ↦ true | EffectType.health_steal ↦ true | _ ↦ false ])

unfoldable pub skill_is_harmful_to_target : SkillSpec → PendingAction → ℕ → Bool
skill_is_harmful_to_target skill action target_player_id =
    if not (target_player_id == action.player_id) then true else any deals_damage skill.effects

unfoldable pub is_invulnerable_status : StatusEffect → Bool
is_invulnerable_status s = is_active s && get_flag s.payload FlagKey.invulnerable

unfoldable pub invulnerability_blocks_skill : CharacterState → SkillSpec → PendingAction → ℕ → Bool
invulnerability_blocks_skill target skill action target_player_id =
    let statuses = keep is_invulnerable_status target.statuses in
    if is_empty statuses
    then false
    else if skill_bypasses_invulnerability skill (some target)
    then false
    else if any (λ s. get_flag s.payload FlagKey.invulnerable_to_all) statuses
    then true
    else if skill_is_harmful_to_target skill action target_player_id
    then true
    else any (λ s. get_flag s.payload FlagKey.invulnerable_to_helpful) statuses

unfoldable pub is_team_kind : TargetKind → Bool
is_team_kind TargetKind.enemy_team = true
is_team_kind TargetKind.ally_team = true
is_team_kind TargetKind.team = true
is_team_kind _ = false

unfoldable pub is_enemy_kind : TargetKind → Bool
is_enemy_kind TargetKind.enemy = true
is_enemy_kind TargetKind.enemy_team = true
is_enemy_kind _ = false

unfoldable pub is_ally_kind : TargetKind → Bool
is_ally_kind TargetKind.ally = true
is_ally_kind TargetKind.ally_team = true
is_ally_kind _ = false

unfoldable pub is_self_kind : TargetKind → Bool
is_self_kind TargetKind.self = true
is_self_kind _ = false

unfoldable pub is_field_kind : TargetKind → Bool
is_field_kind TargetKind.field = true
is_field_kind _ = false

unfoldable pub required_id : TargetRule → ℕ
required_id rule = get_or rule.required_status 0

-- The body of the loop over the target slots.
unfoldable pub check_slot : PlayerState → ℕ → PendingAction → SkillSpec → ℤ → Result CharacterState
check_slot target_player target_player_id action skill slot = do
  let rule = skill.target_rule
  let to_self = is_self_kind rule.kind
  let own = target_player_id == action.player_id
  target ← get_character target_player slot
  raise_if (to_self && not (eqb_ℤ slot action.caster_slot)) must_target_caster
  raise_if (not rule.allow_self && own && eqb_ℤ slot action.caster_slot && not to_self)
      cannot_target_caster
  raise_if (not (has_slot target_player.active_slots slot) && not to_self) target_not_active
  raise_if (not rule.allow_dead && not target.alive) target_dead
  raise_if (invulnerability_blocks_skill target skill action target_player_id) target_invulnerable
  raise_if (not (required_id rule == 0) && not (has_status target (required_id rule))) lacks_status
  ok target

unfoldable pub check_slots :
    PlayerState → ℕ → PendingAction → SkillSpec → List ℤ → Result (List CharacterState)
check_slots target_player target_player_id action skill [] = ok []
check_slots target_player target_player_id action skill (slot ∷ slots) = do
  target ← check_slot target_player target_player_id action skill slot
  targets ← check_slots target_player target_player_id action skill slots
  ok (target ∷ targets)

-- The slots that a team skill takes when the action names none.
unfoldable pub chosen_slots : PlayerState → PendingAction → SkillSpec → List ℤ
chosen_slots target_player action skill =
    let slots = action_target_slots action in
    if is_team_kind skill.target_rule.kind && is_empty slots
    then target_player.active_slots
    else slots

-- `targets[0] is not caster`: the first target is the character in the first chosen slot.
unfoldable pub is_other : ℕ → PendingAction → List ℤ → Bool
is_other target_player_id action [] = false
is_other target_player_id action (slot ∷ slots) =
    not (target_player_id == action.player_id && eqb_ℤ slot action.caster_slot)

unfoldable pub check_self : PlayerState → ℕ → PendingAction → SkillSpec → List ℤ → Result (Unit {0})
check_self acting_player target_player_id action skill slots =
    if is_self_kind skill.target_rule.kind
    then (get_character acting_player action.caster_slot >>= λ caster.
        raise_if (is_other target_player_id action slots) must_target_caster)
    else ok tt

-- The checks of `validate_target_rule` below the early return for a field skill.
unfoldable pub check_targets :
    PlayerState → PlayerState → ℕ → PendingAction → SkillSpec → Result (ℕ × List CharacterState)
check_targets acting_player target_player target_player_id action skill = do
  let rule = skill.target_rule
  let own = target_player_id == action.player_id
  raise_if (not (are_distinct (action_target_slots action))) duplicate_targets
  let slots = chosen_slots target_player action skill
  raise_if (ltb (length slots) rule.min_targets || ltb rule.max_targets (length slots)) target_count
  raise_if (is_enemy_kind rule.kind && own) must_target_enemy
  raise_if (is_ally_kind rule.kind && not own) must_target_ally
  raise_if (is_self_kind rule.kind && not own) must_target_self
  targets ← check_slots target_player target_player_id action skill slots
  check_self acting_player target_player_id action skill slots
  ok (target_player_id, targets)

unfoldable pub validate_target_rule :
    BattleState → PendingAction → SkillSpec → Result (ℕ × List CharacterState)
validate_target_rule state action skill = do
  target_player_id ← resolve_player_id state action.player_id action.target_player_id
  target_player ← get_player state target_player_id
  acting_player ← get_player state action.player_id
  if is_field_kind skill.target_rule.kind
      then ok (target_player_id, [])
      else check_targets acting_player target_player target_player_id action skill
