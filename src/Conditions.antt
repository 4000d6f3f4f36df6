-- ===== src/Conditions.antt =====
-- Conditions on characters and skills, jjk_arena/battle_v2/conditions.py.
use fantasy_draft.Base.{
  ℕ, Bool, true, false, not, ◌&&◌, ◌||◌, Option, none, some, List, [], ◌∷◌, ◌==◌, if◌then◌else◌,
  any, get_or,
}
use fantasy_draft.Int.{pos, eqb_ℤ}
use fantasy_draft.Models.{
  SkillClass, class_eq, StunTag, every, of_class, FlagKey, get_flag, TargetKind, EffectType,
  SkillSpec, StatusEffect, CharacterState,
}

-- The status ids that the code names.
abbrev pub stunned_id : ℕ
stunned_id = 1

abbrev pub anti_domain_id : ℕ
anti_domain_id = 2

abbrev pub poison_id : ℕ
poison_id = 3

-- `status.duration != 0`
abbrev pub is_active : StatusEffect → Bool
is_active s = not (eqb_ℤ s.duration (pos 0))

abbrev pub stun_tags : StatusEffect → List StunTag
stun_tags s = get_or s.payload.stun_classes []

unfoldable pub is_hostile_type : EffectType → Bool
is_hostile_type EffectType.damage = true
is_hostile_type EffectType.health_steal = true
is_hostile_type EffectType.drain_energy = true
is_hostile_type EffectType.remove_status = true
is_hostile_type EffectType.counter = true
is_hostile_type _ = false

unfoldable pub is_enemy_kind : TargetKind → Bool
is_enemy_kind TargetKind.enemy = true
is_enemy_kind TargetKind.enemy_team = true
is_enemy_kind _ = false

unfoldable pub skill_is_harmful : SkillSpec → Bool
unfolding is_hostile_type is_enemy_kind
skill_is_harmful skill =
    if is_enemy_kind skill.target_rule.kind
    then any (λ e. not e.target_self) skill.effects
      || any (λ c. class_eq c SkillClass.control) skill.classes
    else any (λ e. not e.target_self && is_hostile_type e.type) skill.effects

abbrev pub is_empty {ℓ} : {A : Type ℓ} → List A → Bool
is_empty [] = true
is_empty (x ∷ xs) = false

unfoldable pub has_stun : StatusEffect → Bool
has_stun s =
    is_active s && (get_flag s.payload FlagKey.stun_harmful || not (is_empty (stun_tags s)))

unfoldable pub is_named : ℕ → StatusEffect → Bool
is_named id s = is_active s && (s.id == id || s.name == id)

unfoldable pub has_status : CharacterState → ℕ → Bool
unfolding has_stun is_named
has_status character id =
    if id == 0
    then false
    else (id == stunned_id && any has_stun character.statuses)
      || any (is_named id) character.statuses

unfoldable pub is_every : StunTag → Bool
is_every every = true
is_every (of_class c) = false

unfoldable pub tag_fits : List SkillClass → StunTag → Bool
tag_fits classes every = false
tag_fits classes (of_class c) = any (λ d. class_eq d c) classes

-- The body of the loop over the statuses.
unfoldable pub stuns : List SkillClass → SkillSpec → StatusEffect → Bool
unfolding is_every tag_fits
stuns classes skill s =
    is_active s
    && ((get_flag s.payload FlagKey.stun_harmful && skill_is_harmful skill)
        || any is_every (stun_tags s)
        || any (tag_fits classes) (stun_tags s))

unfoldable pub ignores_stun : CharacterState → Bool
ignores_stun character =
    any (λ s. is_active s && get_flag s.payload FlagKey.ignore_stun) character.statuses

unfoldable pub is_stunned_for_class : CharacterState → List SkillClass → SkillSpec → Bool
unfolding stuns ignores_stun
is_stunned_for_class character classes skill =
    if ignores_stun character then false else any (stuns classes skill) character.statuses

unfoldable pub first_full_stun : List StatusEffect → Option ℕ
unfolding is_every
first_full_stun [] = none
first_full_stun (s ∷ rest) =
    let later = first_full_stun rest in
    if is_active s && any is_every (stun_tags s)
    then some (if s.name == 0 then s.id else s.name)
    else later

unfoldable pub full_stun_name : CharacterState → Option ℕ
unfolding first_full_stun ignores_stun
full_stun_name character =
    if ignores_stun character then none else first_full_stun character.statuses
