-- ===== src/Models/Records.antt =====
-- The records of jjk_arena/battle_v2/models.py. The fields that no modelled code reads (texts shown
-- to players, replay bookkeeping) are left out.
use fantasy_draft.Base.{ℕ, Bool, Option, List}
use fantasy_draft.Int.{ℤ}
use fantasy_draft.Dict.{Dict}
use fantasy_draft.Models.Enums.{
  BattlePhase, EnergyType, DamageType, DurationClock, StatusFamily, SkillClass,
}
use fantasy_draft.Models.Keys.{Payload}

pub data TargetKind : Type 0 where
  self enemy ally enemy_team ally_team team field other : TargetKind

pub record TargetRule : Type 0 where
  pub kind : TargetKind
  pub min_targets : ℕ
  pub max_targets : ℕ
  pub allow_self : Bool
  pub allow_dead : Bool
  pub required_status : Option ℕ

pub data EffectType : Type 0 where
  damage health_steal heal apply_status drain_energy gain_energy cleanse : EffectType
  consume_status_stacks extend_status apply_team_status remove_status counter unsupported :
      EffectType

pub record EffectSpec : Type 0 where
  pub type : EffectType
  pub amount : Option ℤ
  pub damage_type : Option DamageType
  pub status : Option ℕ
  pub duration : Option ℤ
  pub stacks : ℤ
  pub classes : List SkillClass
  pub target_self : Bool
  pub payload : Payload

pub record SkillSpec : Type 0 where
  pub id : ℕ
  pub cost : List EnergyType
  pub cooldown : ℤ
  pub target_rule : TargetRule
  pub classes : List SkillClass
  pub effects : List EffectSpec

pub record StatusEffect : Type 0 where
  pub id : ℕ
  pub name : ℕ
  pub source_player_id : ℕ
  pub source_slot : ℤ
  pub target_player_id : ℕ
  pub target_slot : ℤ
  pub duration : ℤ
  pub classes : List SkillClass
  pub invisible : Bool
  pub soulbound : Bool
  pub stacks : ℤ
  pub payload : Payload
  pub revealed : Bool
  pub duration_clock : DurationClock
  pub families : List StatusFamily

-- One of the dicts in `awakening_statuses`.
pub record AwakeningStatus : Type 0 where
  pub id : ℕ
  pub name : ℕ
  pub payload : Payload
  pub families : List StatusFamily

pub record PassiveSpec : Type 0 where
  pub id : ℕ
  pub hp_threshold : ℤ
  pub awakening_statuses : List AwakeningStatus

pub record CharacterState : Type 0 where
  pub max_hp : ℤ
  pub hp : ℤ
  pub alive : Bool
  pub cooldowns : Dict ℤ
  pub statuses : List StatusEffect
  pub skill_replacements : Dict ℕ
  pub acted_this_turn : Bool
  pub base_skill_ids : List ℕ
  pub turn_damage_reduction_used : ℤ
  pub passives : List PassiveSpec
  pub passives_triggered : List ℕ

-- Every `energy` dict has the five keys, from `field(default_factory=...)`.
abbrev pub Energy : Type 0
Energy = EnergyType → ℤ

pub record PlayerState : Type 0 where
  pub energy : Energy
  pub team : List CharacterState
  pub active_slots : List ℤ
  pub queue_confirmed : Bool
  pub energy_converted_this_turn : Bool

pub record PendingAction : Type 0 where
  pub id : ℕ
  pub player_id : ℕ
  pub caster_slot : ℤ
  pub skill_id : ℕ
  pub target_player_id : ℕ
  pub target_slot : Option ℤ
  pub target_slots : List ℤ
  pub wildcard_pays : List EnergyType
  pub queue_index : ℤ
  pub secondary_target_slot : Option ℤ
  pub alternate_target_player_id : Option ℕ
  pub alternate_target_slot : Option ℤ

pub data EventType : Type 0 where
  damage status_damage retaliation health_steal damage_skipped heal : EventType
  status_applied status_skipped status_removed status_consumed status_extended : EventType
  team_status_applied energy_drain_skipped energy_drained energy_gained passive_awakening :
      EventType
  skill_resolved action_fizzled skill_countered skill_reflected skill_redirected : EventType
  status_revealed battle_finished other : EventType
  energy_stolen status_stack_changed domain_ended replacement_revoked hostile_status_expired :
      EventType
  energy_converted turn_skipped phase_timeout auto_pass forfeit no_contest no_progress_warning :
      EventType

-- What stands under `actual_hp_damage`: nothing, a Boolean, an integer, or another value with the
-- integer that `int` reads in it, if it reads one.
pub data RawAmount : Type 0 where
  missing : RawAmount
  boolean : Bool → RawAmount
  number : ℤ → RawAmount
  text : Option ℤ → RawAmount

-- An event with the keys of its payload that the modelled code writes or reads; `subject` is the
-- id of the status, skill, passive or winner that the event is about.
pub record BattleEvent : Type 0 where
  pub type : EventType
  pub turn_number : ℤ
  pub private_to : Option ℕ
  pub subject : Option ℕ
  pub source_player_id : Option ℕ
  pub source_slot : Option ℤ
  pub target_player_id : Option ℕ
  pub target_slot : Option ℤ
  pub actual_hp_damage : RawAmount
  pub is_reflected : Bool
  pub reflected_by_player_id : Option ℕ
  -- 0 and the empty list where the payload has no such key
  pub amount : ℤ
  pub stacks : ℤ
  pub families : List StatusFamily

pub record BattleState : Type 0 where
  pub players : Dict PlayerState
  pub turn_player_id : ℕ
  pub phase : BattlePhase
  pub turn_number : ℤ
  pub pending_actions : Dict (List PendingAction)
  pub queue_order : Dict (List ℕ)
  pub event_log : List BattleEvent
  pub winner_id : Option ℕ
