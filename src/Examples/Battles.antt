-- ===== src/Examples/Battles.antt =====
-- Damage, targeting, energy and queues on the small battle.
use fantasy_draft.Base.{◌≡◌, ◌↔◌, refl, inl, true, false, some, List, [], ◌∷◌, arith}
use fantasy_draft.Int.{ℤ, pos, negsuc, ◌+ℤ◌, ◌-ℤ◌, ◌≤ℤ◌, max_ℤ, min_ℤ}
use fantasy_draft.Dict.{lookup}
use fantasy_draft.Result.{ok}
use fantasy_draft.Models.{
  EnergyType, DamageType, no_payload, CharacterState, PlayerState, PendingAction, BattleState,
}
use fantasy_draft.Conditions.{stuns}
use fantasy_draft.Energy.{
  living_active_count, turn_gain, gain_turn_energy, validate_wildcard_payments, spend_skill_energy,
}
use fantasy_draft.Energy.Spending.{
  IsPayable, price, validate_wildcard_payments_iff, spend_skill_energy_lem,
}
use fantasy_draft.Damage.{
  status_amount, incoming_damage, deal, apply_damage, has_invulnerability, uses_shield, lose_hp,
}
use fantasy_draft.Damage.Bounds.{IsSound, Hit, apply_damage-Hit}
use fantasy_draft.Damage.Budget.{Blow, invulnerable_takes_nothing}
use fantasy_draft.Targeting.{validate_target_rule}
use fantasy_draft.Targeting.Legality.{Accepted, validate_target_rule_sound}
use fantasy_draft.Queue.{
  pending, validate_queue, confirm_queue, order_of, action_ids, ordered_actions,
  validate_queue_identity,
}
use fantasy_draft.Queue.Payment.{queue_price}
use fantasy_draft.Queue.Confirming.{Confirmed, confirm_queue-Confirmed}
use fantasy_draft.Queue.Ordering.{ordered_actions_lem}
use fantasy_draft.Examples.Samples.{
  status_with, shield, armor, burning, character, strike_skill, skills, strike_action, attacker,
  battle,
}

abbrev guarded : CharacterState
guarded = character (pos 60) (shield ∷ armor ∷ [])

-- 40 points of normal damage: the armour takes 10, the shield 15 and the character 15.
normal_hit : (deal guarded (pos 40) DamageType.normal).1 ≡ pos 15
unfolding deal min_ℤ max_ℤ ◌-ℤ◌ incoming_damage ◌+ℤ◌ status_amount
    fantasy_draft.Damage.absorbed_reduction fantasy_draft.Damage.absorbed_defense
normal_hit = refl

soul_hit : (deal guarded (pos 40) DamageType.soul).1 ≡ pos 40
unfolding deal min_ℤ max_ℤ ◌-ℤ◌ incoming_damage ◌+ℤ◌ status_amount
    fantasy_draft.Damage.absorbed_reduction fantasy_draft.Damage.absorbed_defense
soul_hit = refl

guarded-IsSound : IsSound guarded
guarded-IsSound = record {
  hp_nonneg = omega arith;
  hp_le_max = omega arith;
  living = λ _. omega arith;
  dead = λ e. absurd cc;
}

apply_damage-Hit_example : Hit guarded (apply_damage guarded (pos 40) DamageType.normal false)
apply_damage-Hit_example = apply_damage-Hit guarded (pos 40) DamageType.normal false guarded-IsSound

abbrev two_blows : List Blow
two_blows =
    record { amount = pos 8; type = DamageType.normal; bypass = false }
    ∷ record { amount = pos 30; type = DamageType.normal; bypass = false }
    ∷ []

abbrev untouchable : CharacterState
untouchable =
    character (pos 60) (status_with 14 (pos 1) (record no_payload { flags = λ k. some true }) ∷ [])

invulnerable_takes_nothing_example :
    apply_damage untouchable (pos 40) DamageType.normal false ≡ (untouchable, pos 0)
unfolding has_invulnerability
invulnerable_takes_nothing_example =
    invulnerable_takes_nothing untouchable (pos 40) DamageType.normal false refl
      (inl ((λ e. absurd cc), refl))

abbrev wild_cost : List EnergyType
wild_cost = EnergyType.green ∷ EnergyType.black ∷ []

nonneg : (k : EnergyType) → pos 0 ≤ℤ attacker.energy k
nonneg k = omega arith

wild_payable : IsPayable attacker.energy wild_cost (EnergyType.red ∷ [])
unfolding price
wild_payable = record { paid = refl; not_wild = refl; covered = covers }
  where
    covers : (k : EnergyType) → pos (price wild_cost (EnergyType.red ∷ []) k) ≤ℤ attacker.energy k
    covers EnergyType.green = omega arith
    covers EnergyType.red = omega arith
    covers EnergyType.blue = omega arith
    covers EnergyType.white = omega arith
    covers EnergyType.black = omega arith

spend_skill_energy_lem_example :
    (after : PlayerState) × (spend_skill_energy attacker wild_cost (EnergyType.red ∷ []) ≡ ok after)
    × ((k : EnergyType)
        → after.energy k ≡ attacker.energy k -ℤ pos (price wild_cost (EnergyType.red ∷ []) k))
    × (after.team ≡ attacker.team)
    × (after.active_slots ≡ attacker.active_slots)
spend_skill_energy_lem_example =
    spend_skill_energy_lem attacker wild_cost (EnergyType.red ∷ []) nonneg wild_payable

validate_wildcard_payments_iff_example :
    (validate_wildcard_payments attacker wild_cost (EnergyType.red ∷ []) ≡ ok tt)
    ↔ IsPayable attacker.energy wild_cost (EnergyType.red ∷ [])
validate_wildcard_payments_iff_example =
    validate_wildcard_payments_iff attacker wild_cost (EnergyType.red ∷ []) nonneg

target_accepted :
    validate_target_rule battle strike_action strike_skill
    ≡ ok (2, character (pos 60) (shield ∷ burning ∷ []) ∷ [])
unfolding fantasy_draft.Targeting.opponents fantasy_draft.Targeting.only
    fantasy_draft.Targeting.resolve_player_id fantasy_draft.Targeting.get_player
    fantasy_draft.Targeting.get_character fantasy_draft.Targeting.action_target_slots
    fantasy_draft.Targeting.target_has_anti_domain fantasy_draft.Targeting.is_sure_hit
    fantasy_draft.Targeting.skill_bypasses_invulnerability fantasy_draft.Targeting.deals_damage
    fantasy_draft.Targeting.skill_is_harmful_to_target
    fantasy_draft.Targeting.is_invulnerable_status
    fantasy_draft.Targeting.invulnerability_blocks_skill fantasy_draft.Targeting.is_team_kind
    fantasy_draft.Targeting.is_enemy_kind fantasy_draft.Targeting.is_ally_kind
    fantasy_draft.Targeting.is_self_kind fantasy_draft.Targeting.is_field_kind
    fantasy_draft.Targeting.required_id fantasy_draft.Targeting.check_slot
    fantasy_draft.Targeting.check_slots fantasy_draft.Targeting.chosen_slots
    fantasy_draft.Targeting.is_other fantasy_draft.Targeting.check_self
    fantasy_draft.Targeting.check_targets fantasy_draft.Targeting.validate_target_rule lookup
    fantasy_draft.Energy.team_at fantasy_draft.Conditions.has_status
    fantasy_draft.Conditions.is_named fantasy_draft.Conditions.has_stun
    fantasy_draft.Conditions.is_hostile_type fantasy_draft.Conditions.is_enemy_kind
    fantasy_draft.Conditions.skill_is_harmful fantasy_draft.Conditions.is_every
    fantasy_draft.Conditions.tag_fits fantasy_draft.Conditions.stuns
    fantasy_draft.Conditions.ignores_stun fantasy_draft.Conditions.is_stunned_for_class
    fantasy_draft.Conditions.first_full_stun fantasy_draft.Conditions.full_stun_name
target_accepted = refl

validate_target_rule_sound_example :
    Accepted battle strike_action strike_skill 2 (character (pos 60) (shield ∷ burning ∷ []) ∷ [])
unfolding fantasy_draft.Targeting.is_field_kind
validate_target_rule_sound_example =
    validate_target_rule_sound battle strike_action strike_skill 2
      (character (pos 60) (shield ∷ burning ∷ []) ∷ []) refl target_accepted

queue_valid : validate_queue battle 1 skills ≡ ok tt
unfolding fantasy_draft.Targeting.opponents fantasy_draft.Targeting.only
    fantasy_draft.Targeting.resolve_player_id fantasy_draft.Targeting.get_player
    fantasy_draft.Targeting.get_character fantasy_draft.Targeting.action_target_slots
    fantasy_draft.Targeting.target_has_anti_domain fantasy_draft.Targeting.is_sure_hit
    fantasy_draft.Targeting.skill_bypasses_invulnerability fantasy_draft.Targeting.deals_damage
    fantasy_draft.Targeting.skill_is_harmful_to_target
    fantasy_draft.Targeting.is_invulnerable_status
    fantasy_draft.Targeting.invulnerability_blocks_skill fantasy_draft.Targeting.is_team_kind
    fantasy_draft.Targeting.is_enemy_kind fantasy_draft.Targeting.is_ally_kind
    fantasy_draft.Targeting.is_self_kind fantasy_draft.Targeting.is_field_kind
    fantasy_draft.Targeting.required_id fantasy_draft.Targeting.check_slot
    fantasy_draft.Targeting.check_slots fantasy_draft.Targeting.chosen_slots
    fantasy_draft.Targeting.is_other fantasy_draft.Targeting.check_self
    fantasy_draft.Targeting.check_targets fantasy_draft.Targeting.validate_target_rule lookup
    fantasy_draft.Energy.team_at fantasy_draft.Conditions.has_status
    fantasy_draft.Conditions.is_named fantasy_draft.Conditions.has_stun
    fantasy_draft.Conditions.is_hostile_type fantasy_draft.Conditions.is_enemy_kind
    fantasy_draft.Conditions.skill_is_harmful fantasy_draft.Conditions.is_every
    fantasy_draft.Conditions.tag_fits fantasy_draft.Conditions.stuns
    fantasy_draft.Conditions.ignores_stun fantasy_draft.Conditions.is_stunned_for_class
    fantasy_draft.Conditions.first_full_stun fantasy_draft.Conditions.full_stun_name
    fantasy_draft.Energy.increment fantasy_draft.Energy.update_counter fantasy_draft.Energy.items_of
    fantasy_draft.Energy.items fantasy_draft.Energy.split_loop fantasy_draft.Energy.split_cost
    fantasy_draft.Energy.affords fantasy_draft.Energy.can_afford_specific
    fantasy_draft.Energy.require_energy fantasy_draft.Energy.validate_wildcard_payments
    fantasy_draft.Energy.take_energy fantasy_draft.Energy.spend_items
    fantasy_draft.Energy.spend_pays fantasy_draft.Energy.spend_skill_energy
    fantasy_draft.Energy.is_living fantasy_draft.Energy.count_living
    fantasy_draft.Energy.living_active_count fantasy_draft.Energy.gain_energy_for_living
    fantasy_draft.Energy.turn_gain fantasy_draft.Energy.gain_turn_energy
    fantasy_draft.Queue.effective_skill_id fantasy_draft.Queue.get_skill_for_action
    fantasy_draft.Queue.class_delta fantasy_draft.Queue.black_delta fantasy_draft.Queue.discount
    fantasy_draft.Queue.blacks fantasy_draft.Queue.adjust fantasy_draft.Queue.adjusted_cost_skill
    fantasy_draft.Queue.action_cost fantasy_draft.Queue.second fantasy_draft.Queue.first
    fantasy_draft.Queue.eq_slot fantasy_draft.Queue.check_secondary fantasy_draft.Queue.is_not_first
    fantasy_draft.Queue.validate_action_identity fantasy_draft.Queue.has_flag
    fantasy_draft.Queue.check_blocks fantasy_draft.Queue.has_effect fantasy_draft.Queue.same_id
    fantasy_draft.Queue.check_alternate fantasy_draft.Queue.check_redirect
    fantasy_draft.Queue.poisoned_slots fantasy_draft.Queue.primary_slot fantasy_draft.Queue.is_in
    fantasy_draft.Queue.check_spread fantasy_draft.Queue.check_bloom
    fantasy_draft.Queue.check_caster fantasy_draft.Queue.validate_action fantasy_draft.Queue.pending
    fantasy_draft.Queue.add_counter fantasy_draft.Queue.required_energy
    fantasy_draft.Queue.validate_queue_energy fantasy_draft.Queue.ids_distinct
    fantasy_draft.Queue.same_ids fantasy_draft.Queue.order_of
    fantasy_draft.Queue.validate_queue_identity fantasy_draft.Queue.validate_actions
    fantasy_draft.Queue.validate_queue fantasy_draft.Queue.spend_all
    fantasy_draft.Queue.confirm_queue fantasy_draft.Queue.insert_sorted
    fantasy_draft.Queue.sort_by_index fantasy_draft.Queue.actions_by_id
    fantasy_draft.Queue.dict_values fantasy_draft.Queue.select fantasy_draft.Queue.ordered_actions
    fantasy_draft.Slots.position fantasy_draft.Slots.get_at fantasy_draft.Slots.set_at
    fantasy_draft.Slots.character_at fantasy_draft.Slots.with_character fantasy_draft.Int.◌+ℤ◌
    fantasy_draft.Int.◌-ℤ◌
queue_valid = refl

attacker_stands : lookup 1 battle.players ≡ some attacker
unfolding lookup
attacker_stands = refl

confirm_queue-Confirmed_example :
    (after : BattleState) × (confirm_queue battle 1 skills ≡ ok after)
    × Confirmed battle after 1 attacker (queue_price attacker.team skills (pending battle 1))
confirm_queue-Confirmed_example =
    confirm_queue-Confirmed battle 1 skills attacker attacker_stands nonneg queue_valid

identity_valid : validate_queue_identity battle 1 ≡ ok tt
unfolding validate_queue_identity pending lookup fantasy_draft.Queue.ids_distinct order_of
    fantasy_draft.Queue.same_ids
identity_valid = refl

ordered_actions_lem_example :
    (l : List PendingAction) × (ordered_actions battle 1 ≡ ok l)
    × (action_ids l ≡ order_of battle 1)
ordered_actions_lem_example = ordered_actions_lem battle 1 identity_valid
