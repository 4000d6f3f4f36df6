-- ===== src/Examples/Effects.antt =====
-- Effects at concrete inputs.
use fantasy_draft.Base.{ℕ, ◌≡◌, refl, true, false, none, some, [], ◌∷◌, keep, arith}
use fantasy_draft.Int.{ℤ, pos}
use fantasy_draft.Dict.{lookup}
use fantasy_draft.Result.{ok}
use fantasy_draft.Models.{EffectSpec, EffectType, StatusEffect, CharacterState, BattleState}
use fantasy_draft.Conditions.{is_active}
use fantasy_draft.Damage.Bounds.{IsSound, Hit}
use fantasy_draft.Slots.{character_at}
use fantasy_draft.Invariant.{IsSoundState}
use fantasy_draft.Effects.{heal, extend_all, is_wanted}
use fantasy_draft.Effects.Healing.{Healed, heal-Healed}
use fantasy_draft.Effects.Lengths.{extend_ends_permanent}
use fantasy_draft.Strikes.{
  Application, strike_target, StrikeOutcome, condition_met, apply_damage_effect,
}
use fantasy_draft.Strikes.Outcomes.{strike_target-Hit, apply_damage_effect_lem}
use fantasy_draft.Marking.{Source, apply_status}
use fantasy_draft.Removals.{IsPurged, left_of, takes_away, remove_statuses, remove_statuses_lem}
use fantasy_draft.Slots.Writing.{IsWritten}
use fantasy_draft.Statuses.{new_status}
use fantasy_draft.Examples.Samples.{
  shield, armor, burning, character, fallen, striker, strike_effect, strike_action, battle,
}
use fantasy_draft.Examples.Turns.{battle-IsSoundState}

abbrev struck : CharacterState
struck = character (pos 60) (shield ∷ burning ∷ [])

struck-IsSound : IsSound struck
struck-IsSound = record {
  hp_nonneg = omega arith;
  hp_le_max = omega arith;
  living = λ _. omega arith;
  dead = λ e. absurd cc;
}

striker-IsSound : IsSound striker
striker-IsSound = record {
  hp_nonneg = omega arith;
  hp_le_max = omega arith;
  living = λ _. omega arith;
  dead = λ e. absurd cc;
}

fallen-IsSound : IsSound fallen
fallen-IsSound = record {
  hp_nonneg = omega arith;
  hp_le_max = omega arith;
  living = λ e. absurd cc;
  dead = λ _. refl;
}

-- A heal of 30 revives a fallen character.
heal-Healed_example : Healed fallen (pos 30) (heal fallen (pos 30))
heal-Healed_example = heal-Healed fallen (pos 30) fallen-IsSound

armor_wanted : is_wanted (some 11) armor ≡ true
unfolding is_wanted
armor_wanted = refl

extend_ends_permanent_example :
    (keep is_active (armor ∷ []) ≡ armor ∷ [])
    × (keep is_active (extend_all (some 11) (pos 1) (armor ∷ [])).0 ≡ [])
extend_ends_permanent_example = extend_ends_permanent (some 11) armor refl armor_wanted

abbrev strike : Application
strike = record {
  action = strike_action;
  effect = strike_effect;
  condition_target = none;
  skill_id = some 41;
  skill_classes = [];
  context = none;
}

strike_target-Hit_example : Hit struck (strike_target strike striker struck)
strike_target-Hit_example = strike_target-Hit strike striker struck struck-IsSound

target_stands : character_at battle 2 (pos 0) ≡ some struck
unfolding character_at fantasy_draft.Dict.lookup
target_stands = refl

caster_stands : character_at battle 1 (pos 0) ≡ some striker
unfolding character_at fantasy_draft.Dict.lookup
caster_stands = refl

apply_damage_effect_lem_example :
    (result : BattleState × StrikeOutcome) × (apply_damage_effect battle strike 2 (some (pos 0))
      ≡ ok result)
    × IsSoundState result.0
    × (condition_met strike striker struck ≡ true
        → (hit : CharacterState × ℤ) × IsWritten battle result.0 2 (pos 0) hit.0
          × Hit struck hit
          × (result.1 ≡ StrikeOutcome.dealt hit.1)
          × (hit ≡ strike_target strike striker struck))
    × (condition_met strike striker struck ≡ false → result ≡ (battle, StrikeOutcome.skipped))
apply_damage_effect_lem_example =
    apply_damage_effect_lem battle strike 2 (pos 0) striker struck target_stands caster_stands
      battle-IsSoundState

remove_statuses_lem_example :
    let result = remove_statuses (some 12) struck in
    IsPurged 12 struck.statuses result.0.statuses result.1
    × ((k : ℕ)
        → lookup k result.0.skill_replacements
          ≡ left_of (lookup k struck.skill_replacements) (takes_away 12 struck.statuses k))
    × (result.0 ≡ record struck {
      statuses = result.0.statuses;
      skill_replacements = result.0.skill_replacements;
    })
    × IsSound result.0
remove_statuses_lem_example = remove_statuses_lem 12 struck struck-IsSound

abbrev burn_effect : EffectSpec
burn_effect = record strike_effect {
  type = EffectType.apply_status;
  status = some 12;
  duration = some (pos 2);
}

abbrev own_source : Source
own_source = record { player_id = none; slot = none; skill_id = none }

abbrev burn : StatusEffect
burn = new_status battle.turn_number strike_action 2 (pos 0) struck 12 burn_effect none none none
