-- ===== src/Examples/Samples.antt =====
-- A small battle: two players with one or two characters each.
use fantasy_draft.Base.{ℕ, true, false, none, some, List, [], ◌∷◌}
use fantasy_draft.Int.{ℤ, pos, negsuc}
use fantasy_draft.Dict.{Dict}
use fantasy_draft.Models.{
  BattlePhase, EnergyType, DurationClock, SkillClass, IntKey, Payload, no_payload, put_int,
  TargetKind, EffectType, EffectSpec, SkillSpec, StatusEffect, PassiveSpec, CharacterState, Energy,
  PlayerState, PendingAction, BattleState,
}

abbrev pub status_with : ℕ → ℤ → Payload → StatusEffect
status_with id duration payload = record {
  id = id;
  name = id;
  source_player_id = 1;
  source_slot = pos 0;
  target_player_id = 1;
  target_slot = pos 0;
  duration = duration;
  classes = [];
  invisible = false;
  soulbound = false;
  stacks = pos 1;
  payload = payload;
  revealed = false;
  duration_clock = DurationClock.source_turn;
  families = [];
}

abbrev pub shield : StatusEffect
shield = status_with 10 (pos 2) (put_int no_payload IntKey.destructible_defense (some (pos 15)))

abbrev pub armor : StatusEffect
armor = status_with 11 (negsuc 0) (put_int no_payload IntKey.damage_reduction (some (pos 10)))

abbrev pub burning : StatusEffect
burning = status_with 12 (pos 3) (put_int no_payload IntKey.turn_end_damage (some (pos 20)))

abbrev pub rage : PassiveSpec
rage = record {
  id = 30;
  hp_threshold = pos 50;
  awakening_statuses = record { id = 31; name = 31; payload = no_payload; families = [] } ∷ [];
}

abbrev pub character : ℤ → List StatusEffect → CharacterState
character hp statuses = record {
  max_hp = pos 100;
  hp = hp;
  alive = true;
  cooldowns = (40, pos 3) ∷ [];
  statuses = statuses;
  skill_replacements = [];
  acted_this_turn = false;
  base_skill_ids = 40 ∷ [];
  turn_damage_reduction_used = pos 0;
  passives = rage ∷ [];
  passives_triggered = [];
}

abbrev pub fallen : CharacterState
fallen = record (character (pos 0) []) { alive = false }

abbrev pub two_each : Energy
two_each k = pos 2

abbrev pub player_of : List CharacterState → PlayerState
player_of team = record {
  energy = two_each;
  team = team;
  active_slots = pos 0 ∷ pos 1 ∷ [];
  queue_confirmed = false;
  energy_converted_this_turn = false;
}

abbrev pub strike_effect : EffectSpec
strike_effect = record {
  type = EffectType.damage;
  amount = some (pos 25);
  damage_type = none;
  status = none;
  duration = none;
  stacks = pos 1;
  classes = [];
  target_self = false;
  payload = no_payload;
}

abbrev pub strike_skill : SkillSpec
strike_skill = record {
  id = 41;
  cost = EnergyType.green ∷ EnergyType.black ∷ [];
  cooldown = pos 2;
  target_rule = record {
    kind = TargetKind.enemy;
    min_targets = 1;
    max_targets = 1;
    allow_self = false;
    allow_dead = false;
    required_status = none;
  };
  classes = SkillClass.physical ∷ [];
  effects = strike_effect ∷ [];
}

abbrev pub skills : Dict SkillSpec
skills = (41, strike_skill) ∷ []

-- The character that acts knows the skill 41.
abbrev pub striker : CharacterState
striker = record (character (pos 80) (armor ∷ [])) { base_skill_ids = 41 ∷ [] }

abbrev pub strike_action : PendingAction
strike_action = record {
  id = 5;
  player_id = 1;
  caster_slot = pos 0;
  skill_id = 41;
  target_player_id = 2;
  target_slot = some (pos 0);
  target_slots = [];
  wildcard_pays = EnergyType.red ∷ [];
  queue_index = pos 0;
  secondary_target_slot = none;
  alternate_target_player_id = none;
  alternate_target_slot = none;
}

abbrev pub attacker : PlayerState
attacker = player_of (striker ∷ fallen ∷ [])

abbrev pub defender : PlayerState
defender = player_of (character (pos 60) (shield ∷ burning ∷ []) ∷ [])

abbrev pub battle : BattleState
battle = record {
  players = (1, attacker) ∷ (2, defender) ∷ [];
  turn_player_id = 1;
  phase = BattlePhase.queue_review;
  turn_number = pos 4;
  pending_actions = (1, strike_action ∷ []) ∷ [];
  queue_order = (1, 5 ∷ []) ∷ [];
  event_log = [];
  winner_id = none;
}
