-- ===== src/Models/Keys.antt =====
-- The `payload` dicts of effects and statuses, with the keys that the modelled code reads. Each
-- family of keys is a partial function, so a key can be absent; a status id, a skill id or another
-- text that is only compared is a number, and 0 is the empty text.
use fantasy_draft.Base.{
  ℕ, ◌≡◌, ◌≢◌, refl, Bool, false, Option, none, List, ◌==◌, if◌then◌else◌, get_or, or_else,
}
use fantasy_draft.Int.{ℤ, pos}
use fantasy_draft.Dict.{Dict}
use fantasy_draft.Models.Enums.{EnergyType, DamageType, DurationClock, StatusFamily, SkillClass}

pub data IntKey : Type 0 where
  destructible_defense damage_reduction damage_taken_delta damage_output_delta damage_bonus : IntKey
  harmful_damage_output_delta physical_damage_output_delta healing_received_delta : IntKey
  bonus_amount execute_threshold execute_bonus cooldown_increase : IntKey
  condition_target_hp_below turn_end_damage max_stacks unlock_replacements_at_stacks : IntKey
  low_hp_destructible_defense single_target_amount destroy_defense_first : IntKey
  black_cost_delta black_cost_delta_for_class_amount retaliate_damage : IntKey
  expire_grant_defense turn_end_drain_energy applied_turn_number : IntKey
  watch_target_slot redirect_to_slot hp_threshold reward_energy : IntKey

abbrev int_key_index : IntKey → ℕ
int_key_index destructible_defense = 0
int_key_index damage_reduction = 1
int_key_index damage_taken_delta = 2
int_key_index damage_output_delta = 3
int_key_index damage_bonus = 4
int_key_index harmful_damage_output_delta = 5
int_key_index physical_damage_output_delta = 6
int_key_index healing_received_delta = 7
int_key_index bonus_amount = 8
int_key_index execute_threshold = 9
int_key_index execute_bonus = 10
int_key_index cooldown_increase = 11
int_key_index condition_target_hp_below = 12
int_key_index turn_end_damage = 13
int_key_index max_stacks = 14
int_key_index unlock_replacements_at_stacks = 15
int_key_index low_hp_destructible_defense = 16
int_key_index single_target_amount = 17
int_key_index destroy_defense_first = 18
int_key_index black_cost_delta = 19
int_key_index black_cost_delta_for_class_amount = 20
int_key_index retaliate_damage = 21
int_key_index expire_grant_defense = 22
int_key_index turn_end_drain_energy = 23
int_key_index applied_turn_number = 24
int_key_index watch_target_slot = 25
int_key_index redirect_to_slot = 26
int_key_index hp_threshold = 27
int_key_index reward_energy = 28

pub data FlagKey : Type 0 where
  invulnerable invulnerable_to_all invulnerable_to_helpful anti_domain : FlagKey
  bypass_invulnerability ignore_stun stun_harmful : FlagKey
  block_damage_reduction block_destructible_defense : FlagKey
  block_non_damaging_skills block_counters cannot_target_allies : FlagKey
  controlled_redirect cleanse_self_damage_or_affliction ends_if_source_dies : FlagKey
  conditional_targeting_venom_bloom scaling_missing_hp_25 invisible soulbound : FlagKey
  condition_scope_original_target watch_target_is_target watch_slot_is_target : FlagKey
  reveal_on_expiry : FlagKey

pub data IdKey : Type 0 where
  bonus_status bonus_user_status bonus_user_missing_status : IdKey
  condition_status condition_missing_status : IdKey
  condition_user_status condition_user_missing_status : IdKey
  condition_original_has_status condition_original_missing_status : IdKey
  condition_recipient_has_status condition_recipient_missing_status : IdKey
  name source_skill_id watch_target_player_id redirect_to_player_id counter : IdKey

abbrev id_key_index : IdKey → ℕ
id_key_index bonus_status = 0
id_key_index bonus_user_status = 1
id_key_index bonus_user_missing_status = 2
id_key_index condition_status = 3
id_key_index condition_missing_status = 4
id_key_index condition_user_status = 5
id_key_index condition_user_missing_status = 6
id_key_index condition_original_has_status = 7
id_key_index condition_original_missing_status = 8
id_key_index condition_recipient_has_status = 9
id_key_index condition_recipient_missing_status = 10
id_key_index name = 11
id_key_index source_skill_id = 12
id_key_index watch_target_player_id = 13
id_key_index redirect_to_player_id = 14
id_key_index counter = 15

-- An entry of `stun_classes`: the text "all" or the value of a class.
pub data StunTag : Type 0 where
  every : StunTag
  of_class : SkillClass → StunTag

-- An entry of `next_skill_modifiers`.
pub record Modifier : Type 0 where
  pub damage : ℤ
  pub destroy_defense_first : ℤ

pub record Payload : Type 0 where
  pub ints : IntKey → Option ℤ
  pub flags : FlagKey → Option Bool
  pub ids : IdKey → Option ℕ
  pub bonus_statuses : Option (List ℕ)
  pub condition_statuses : Option (List ℕ)
  pub condition_user_stacks : Option (ℕ × ℤ)
  pub stun_classes : Option (List StunTag)
  pub skill_replacements : Option (Dict ℕ)
  pub next_skill_modifiers : Option (Dict Modifier)
  pub turn_end_damage_type : Option DamageType
  -- The energy that the text under "energy" names, if it names one.
  pub energy : Option EnergyType
  pub black_cost_delta_for_class : Option SkillClass
  pub duration_clock : Option DurationClock
  pub families : Option (List StatusFamily)

abbrev pub no_payload : Payload
no_payload = record {
  ints = λ k. none;
  flags = λ k. none;
  ids = λ k. none;
  bonus_statuses = none;
  condition_statuses = none;
  condition_user_stacks = none;
  stun_classes = none;
  skill_replacements = none;
  next_skill_modifiers = none;
  turn_end_damage_type = none;
  energy = none;
  black_cost_delta_for_class = none;
  duration_clock = none;
  families = none;
}

-- `int(payload.get(key, 0))`
abbrev pub get_int : Payload → IntKey → ℤ
get_int p k = get_or (p.ints k) (pos 0)

-- `payload.get(key, False)`
abbrev pub get_flag : Payload → FlagKey → Bool
get_flag p k = get_or (p.flags k) false

-- `payload.get(key)` where the code goes on to test whether it is a text that is not empty.
abbrev pub get_id : Payload → IdKey → ℕ
get_id p k = get_or (p.ids k) 0

-- `payload[key] = value`, or `payload.pop(key, None)`.
abbrev pub put_int : Payload → IntKey → Option ℤ → Payload
put_int p k v = record p { ints = λ j. if int_key_index j == int_key_index k then v else p.ints j }

abbrev pub put_id : Payload → IdKey → Option ℕ → Payload
put_id p k v = record p { ids = λ j. if id_key_index j == id_key_index k then v else p.ids j }

-- `payload.update(other)`
unfoldable pub update : Payload → Payload → Payload
update p q = record {
  ints = λ k. or_else (q.ints k) (p.ints k);
  flags = λ k. or_else (q.flags k) (p.flags k);
  ids = λ k. or_else (q.ids k) (p.ids k);
  bonus_statuses = or_else q.bonus_statuses p.bonus_statuses;
  condition_statuses = or_else q.condition_statuses p.condition_statuses;
  condition_user_stacks = or_else q.condition_user_stacks p.condition_user_stacks;
  stun_classes = or_else q.stun_classes p.stun_classes;
  skill_replacements = or_else q.skill_replacements p.skill_replacements;
  next_skill_modifiers = or_else q.next_skill_modifiers p.next_skill_modifiers;
  turn_end_damage_type = or_else q.turn_end_damage_type p.turn_end_damage_type;
  energy = or_else q.energy p.energy;
  black_cost_delta_for_class = or_else q.black_cost_delta_for_class p.black_cost_delta_for_class;
  duration_clock = or_else q.duration_clock p.duration_clock;
  families = or_else q.families p.families;
}

-- Writing the defense leaves every other integer alone.
pub put_int-ints_ne :
    (p : Payload) (k : IntKey) (v : Option ℤ)
    → k ≢ destructible_defense
    → (put_int p destructible_defense v).ints k ≡ p.ints k
put_int-ints_ne p destructible_defense v h = absurd (h refl)
put_int-ints_ne p damage_reduction v h = refl
put_int-ints_ne p _ v h = refl
