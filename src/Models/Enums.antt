-- ===== src/Models/Enums.antt =====
-- The enumerations of jjk_arena/battle_v2/models.py, each with the number by which it is compared.
use fantasy_draft.Base.{ℕ, Bool, ◌==◌}

pub data BattlePhase : Type 0 where
  planning queue_review resolving turn_end finished : BattlePhase

pub data EnergyType : Type 0 where
  green red blue white black : EnergyType

pub data DamageType : Type 0 where
  normal piercing soul sure_hit health_steal : DamageType

pub data DurationClock : Type 0 where
  source_turn target_turn round global_turn : DurationClock

pub data StatusFamily : Type 0 where
  affliction soul stun control mark buff debuff : StatusFamily

pub data SkillClass : Type 0 where
  physical melee ranged cursed_energy innate soul barrier strategic domain vow achievement :
      SkillClass
  instant action control invisible uncounterable unreflectable unremovable bypassing : SkillClass
  soulbound nonstacking passive : SkillClass

abbrev phase_index : BattlePhase → ℕ
phase_index BattlePhase.planning = 0
phase_index BattlePhase.queue_review = 1
phase_index BattlePhase.resolving = 2
phase_index BattlePhase.turn_end = 3
phase_index BattlePhase.finished = 4

abbrev pub phase_eq : BattlePhase → BattlePhase → Bool
phase_eq a b = phase_index a == phase_index b

abbrev energy_index : EnergyType → ℕ
energy_index EnergyType.green = 0
energy_index EnergyType.red = 1
energy_index EnergyType.blue = 2
energy_index EnergyType.white = 3
energy_index EnergyType.black = 4

abbrev pub energy_eq : EnergyType → EnergyType → Bool
energy_eq a b = energy_index a == energy_index b

abbrev damage_index : DamageType → ℕ
damage_index DamageType.normal = 0
damage_index DamageType.piercing = 1
damage_index DamageType.soul = 2
damage_index DamageType.sure_hit = 3
damage_index DamageType.health_steal = 4

abbrev pub damage_eq : DamageType → DamageType → Bool
damage_eq a b = damage_index a == damage_index b

abbrev family_index : StatusFamily → ℕ
family_index StatusFamily.affliction = 0
family_index StatusFamily.soul = 1
family_index StatusFamily.stun = 2
family_index StatusFamily.control = 3
family_index StatusFamily.mark = 4
family_index StatusFamily.buff = 5
family_index StatusFamily.debuff = 6

abbrev pub family_eq : StatusFamily → StatusFamily → Bool
family_eq a b = family_index a == family_index b

abbrev class_index : SkillClass → ℕ
class_index SkillClass.physical = 0
class_index SkillClass.melee = 1
class_index SkillClass.ranged = 2
class_index SkillClass.cursed_energy = 3
class_index SkillClass.innate = 4
class_index SkillClass.soul = 5
class_index SkillClass.barrier = 6
class_index SkillClass.strategic = 7
class_index SkillClass.domain = 8
class_index SkillClass.vow = 9
class_index SkillClass.achievement = 10
class_index SkillClass.instant = 11
class_index SkillClass.action = 12
class_index SkillClass.control = 13
class_index SkillClass.invisible = 14
class_index SkillClass.uncounterable = 15
class_index SkillClass.unreflectable = 16
class_index SkillClass.unremovable = 17
class_index SkillClass.bypassing = 18
class_index SkillClass.soulbound = 19
class_index SkillClass.nonstacking = 20
class_index SkillClass.passive = 21

abbrev pub class_eq : SkillClass → SkillClass → Bool
class_eq a b = class_index a == class_index b
