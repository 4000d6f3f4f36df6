-- ===== src/Effects.antt =====
-- Effects that heal, steal health, move energy, and lengthen or remove statuses, the branches of
-- `apply_effect` in jjk_arena/battle_v2/effects.py. A branch that needs a slot raises without one; the
-- events are left out but for the numbers that they report.
pub mod Healing
pub mod Energies
pub mod Lengths
use fantasy_draft.Base.{
  ℕ, suc, Bool, true, false, not, ◌&&◌, ◌||◌, Option, none, some, List, [], ◌∷◌, ◌==◌,
  if◌then◌else◌, get_or, length,
}
use fantasy_draft.Int.{ℤ, pos, ◌+ℤ◌, ◌-ℤ◌, ltb_ℤ, eqb_ℤ, min_ℤ, max_ℤ}
use fantasy_draft.Dict.{lookup, insert}
use fantasy_draft.Result.{Result, ok, err, ◌>>=◌, or_raise, needs_target_slot, lookup_error}
use fantasy_draft.Models.{
  EnergyType, energy_eq, Energy, DamageType, IntKey, EffectSpec, StatusEffect, CharacterState,
  PlayerState, BattleState,
}
use fantasy_draft.Conditions.{is_active, is_named}
use fantasy_draft.Energy.{all_energy, take_energy}
use fantasy_draft.Damage.{status_amount, apply_damage, payload_condition_met}
use fantasy_draft.Slots.{character_at, with_character}
use fantasy_draft.Statuses.{remove_status_side_effects, cleanse_one_self_affliction}

-- `effect.amount or 0`
unfoldable pub or_zero : Option ℤ → ℤ
or_zero amount = get_or amount (pos 0)

-- `effect.amount or 1`, where 0 counts as absent.
unfoldable pub or_one : Option ℤ → ℤ
or_one none = pos 1
or_one (some n) = if eqb_ℤ n (pos 0) then pos 1 else n

-- The hit points that a heal restores.
unfoldable pub healed_amount : CharacterState → ℤ → ℤ
healed_amount target amount =
    min_ℤ (target.max_hp -ℤ target.hp)
      (max_ℤ (pos 0) (max_ℤ (pos 0) amount +ℤ status_amount target IntKey.healing_received_delta))

unfoldable pub heal : CharacterState → ℤ → CharacterState × ℤ
heal target amount =
    let actual = healed_amount target amount in
    (
      record target {
        hp = target.hp +ℤ actual;
        alive = if ltb_ℤ (pos 0) (target.hp +ℤ actual) then true else target.alive;
      },
      actual,
    )

-- What the caster regains from a hit of `actual`.
unfoldable pub regain : CharacterState → ℤ → CharacterState
regain caster actual = record caster { hp = min_ℤ caster.max_hp (caster.hp +ℤ actual) }

-- `state.players[...].team[...]` of a target whose slot may be missing.
unfoldable pub need_target : BattleState → ℕ → Option ℤ → Result (ℤ × CharacterState)
need_target state player_id target_slot = do
  slot ← or_raise target_slot needs_target_slot
  target ← or_raise (character_at state player_id slot) lookup_error
  ok (slot, target)

unfoldable pub apply_heal : BattleState → EffectSpec → ℕ → Option ℤ → Result (BattleState × ℤ)
apply_heal state effect player_id target_slot = do
  found ← need_target state player_id target_slot
  let healed = heal found.1 (or_zero effect.amount)
  ok (with_character state player_id found.0 healed.0, healed.1)

-- The caster is read after the hit, since it may be its own target.
unfoldable pub apply_health_steal :
    BattleState → ℕ → ℤ → EffectSpec → ℕ → Option ℤ → Result (BattleState × ℤ)
apply_health_steal state caster_id caster_slot effect player_id target_slot = do
  found ← need_target state player_id target_slot
  _ ← or_raise (character_at state caster_id caster_slot) lookup_error
  let hit = apply_damage found.1 (or_zero effect.amount) DamageType.health_steal false
  let struck = with_character state player_id found.0 hit.0
  caster ← or_raise (character_at struck caster_id caster_slot) lookup_error
  ok (with_character struck caster_id caster_slot (regain caster hit.1), hit.1)

-- The first energy that there is some of, in the order of the dict.
unfoldable pub first_left : Energy → List EnergyType → Option EnergyType
first_left energy [] = none
first_left energy (e ∷ rest) =
    let later = first_left energy rest in if ltb_ℤ (pos 0) (energy e) then some e else later

unfoldable pub drain_one : Energy → Energy × Option EnergyType
drain_one energy = elim (first_left energy all_energy) [
  | none ↦ (energy, none)
  | some e ↦ (take_energy energy e 1, some e)
]

-- Whether the condition of a drain holds; without a slot it is not asked.
unfoldable pub drain_allowed : BattleState → EffectSpec → ℕ → Option ℤ → Result Bool
drain_allowed state effect player_id none = ok true
drain_allowed state effect player_id (some slot) = do
  target ← or_raise (character_at state player_id slot) lookup_error
  ok (payload_condition_met target effect none)

unfoldable pub set_energy : BattleState → ℕ → PlayerState → Energy → BattleState
set_energy state player_id player energy = record state {
  players = insert player_id (record player { energy = energy }) state.players;
}

unfoldable pub apply_drain_energy :
    BattleState → EffectSpec → ℕ → Option ℤ → Result (BattleState × Option EnergyType)
apply_drain_energy state effect player_id target_slot = do
  allowed ← drain_allowed state effect player_id target_slot
  player ← or_raise (lookup player_id state.players) lookup_error
  let drained = drain_one player.energy
  ok (if allowed then (set_energy state player_id player drained.0, drained.1) else (state, none))

-- `player.energy[energy] += amount`
unfoldable pub add_energy : Energy → EnergyType → ℤ → Energy
add_energy energy e amount k = if energy_eq k e then energy k +ℤ amount else energy k

-- An unknown text stands for the first energy of the dict, as the text "green" does.
unfoldable pub apply_gain_energy : BattleState → EffectSpec → ℕ → Result BattleState
apply_gain_energy state effect player_id = do
  player ← or_raise (lookup player_id state.players) lookup_error
  let energy = get_or effect.payload.energy EnergyType.green
  ok (set_energy state player_id player (add_energy player.energy energy (or_one effect.amount)))

unfoldable pub apply_cleanse : BattleState → ℕ → Option ℤ → Result (BattleState × Option ℕ)
apply_cleanse state player_id target_slot = do
  found ← need_target state player_id target_slot
  let cleansed = cleanse_one_self_affliction found.1
  ok (with_character state player_id found.0 cleansed.0, cleansed.1)

-- Whether an effect with a status filter speaks of a status.
unfoldable pub is_wanted : Option ℕ → StatusEffect → Bool
is_wanted none s = is_active s
is_wanted (some id) s = is_active s && (s.id == id || s.name == id)

-- The statuses after an extension, and how many were extended.
unfoldable pub extend_all : Option ℕ → ℤ → List StatusEffect → List StatusEffect × ℕ
extend_all filter amount [] = ([], 0)
extend_all filter amount (s ∷ rest) =
    let later = extend_all filter amount rest in
    if is_wanted filter s
    then (record s { duration = s.duration +ℤ amount } ∷ later.0, suc later.1)
    else (s ∷ later.0, later.1)

unfoldable pub apply_extend_status :
    BattleState → EffectSpec → ℕ → Option ℤ → Result (BattleState × ℕ)
apply_extend_status state effect player_id target_slot = do
  found ← need_target state player_id target_slot
  let extended = extend_all effect.status (or_one effect.amount) found.1.statuses
  ok (with_character state player_id found.0 (record found.1 { statuses = extended.0 }), extended.1)
