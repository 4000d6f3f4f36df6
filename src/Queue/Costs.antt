-- ===== src/Queue/Costs.antt =====
-- Skills of actions and their adjusted costs, jjk_arena/battle_v2/resolver.py.
use fantasy_draft.Base.{
  ℕ, zero, suc, not, ◌&&◌, none, some, List, [], ◌∷◌, ◌++◌, if◌then◌else◌, any, contains, get_or,
}
use fantasy_draft.Int.{ℤ, pos, negsuc, ◌+ℤ◌}
use fantasy_draft.Dict.{Dict, lookup}
use fantasy_draft.Result.{
  Result, ok, ◌>>=◌, ◌>>◌, raise_if, or_raise, not_base_slot, unknown_skill, lookup_error,
}
use fantasy_draft.Models.{
  EnergyType, energy_eq, class_eq, IntKey, get_int, SkillSpec, StatusEffect, CharacterState,
  PendingAction,
}
use fantasy_draft.Conditions.{is_active, is_empty}
use fantasy_draft.Slots.{get_at}

abbrev pub Skills : Type 0
Skills = Dict SkillSpec

unfoldable pub effective_skill_id : CharacterState → ℕ → ℕ
effective_skill_id caster skill_id = get_or (lookup skill_id caster.skill_replacements) skill_id

unfoldable pub get_skill_for_action : Skills → CharacterState → PendingAction → Result SkillSpec
get_skill_for_action skills caster action = do
  raise_if
      (not (is_empty caster.base_skill_ids) && not (contains caster.base_skill_ids action.skill_id))
      not_base_slot
  or_raise (lookup (effective_skill_id caster action.skill_id) skills) unknown_skill

unfoldable pub class_delta : SkillSpec → StatusEffect → ℤ
class_delta skill s = elim s.payload.black_cost_delta_for_class [
  | none ↦ pos 0
  | some k ↦
      if any (λ c. class_eq c k) skill.classes
      then get_int s.payload IntKey.black_cost_delta_for_class_amount
      else pos 0
]

-- Both sums over the caster's statuses, status by status.
unfoldable pub black_delta : List StatusEffect → SkillSpec → ℤ
black_delta [] skill = pos 0
black_delta (s ∷ rest) skill =
    (if is_active s
      then get_int s.payload IntKey.black_cost_delta +ℤ class_delta skill s
      else pos 0)
    +ℤ black_delta rest skill

-- A discount drops the first black costs.
unfoldable pub discount : ℕ → List EnergyType → List EnergyType
discount n [] = []
discount zero (e ∷ cost) = e ∷ cost
discount (suc n) (e ∷ cost) =
    let cheaper = discount n cost in
    let kept = e ∷ discount (suc n) cost in if energy_eq e EnergyType.black then cheaper else kept

unfoldable pub blacks : ℕ → List EnergyType
blacks zero = []
blacks (suc n) = EnergyType.black ∷ blacks n

unfoldable pub adjust : ℤ → List EnergyType → List EnergyType
adjust (pos n) cost = cost ++ blacks n
adjust (negsuc n) cost = discount (suc n) cost

-- `_adjusted_cost_skill`: only the cost changes.
unfoldable pub adjusted_cost_skill : CharacterState → SkillSpec → SkillSpec
adjusted_cost_skill caster skill = record skill {
  cost = adjust (black_delta caster.statuses skill) skill.cost;
}

-- The adjusted cost of an action by a member of a team.
unfoldable pub action_cost : List CharacterState → Skills → PendingAction → Result (List EnergyType)
action_cost team skills action = do
  caster ← or_raise (get_at team action.caster_slot) lookup_error
  skill ← get_skill_for_action skills caster action
  ok (adjusted_cost_skill caster skill).cost
