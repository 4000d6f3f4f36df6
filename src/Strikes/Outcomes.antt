-- ===== src/Strikes/Outcomes.antt =====
-- What a damage effect does to its target and to the battle, jjk_arena/battle_v2/effects.py.
use fantasy_draft.Base.{
  ℕ, ◌≡◌, refl, ap, ◌∙◌, not, ◌||◌, inl, inr, true, false, Bool-cases, none, some,
}
use fantasy_draft.Int.{ℤ, pos, ◌-ℤ◌, eqb_ℤ, leb_ℤ}
use fantasy_draft.Result.{ok}
use fantasy_draft.Models.{IntKey, get_int, EffectSpec, CharacterState, BattleState}
use fantasy_draft.Damage.{
  payload_condition_met, consume_destructible_defense, apply_damage,
  apply_damage_payload_side_effects,
}
use fantasy_draft.Damage.Bounds.{IsSound, Hit, apply_damage-Hit}
use fantasy_draft.Slots.{character_at}
use fantasy_draft.Slots.Writing.{IsWritten, with_character-IsWritten}
use fantasy_draft.Invariant.{
  IsSoundState, if_keeps, IsSound-like, character_at-IsSound, with_character-IsSoundState,
}
use fantasy_draft.Strikes.{
  Application, condition_met, strike_amount, strike_type, strike_bypasses, destroyed_defense,
  break_defense, strike_target, StrikeOutcome, strike_state, apply_damage_effect,
}

break_defense_same :
    (c : CharacterState) (amount : ℤ)
    → ((break_defense c amount).hp ≡ c.hp)
      × ((break_defense c amount).max_hp ≡ c.max_hp)
      × ((break_defense c amount).alive ≡ c.alive)
unfolding break_defense consume_destructible_defense
break_defense_same c amount = elim (Bool-cases (eqb_ℤ amount (pos 0))) [
  | inl none_left ↦ rw none_left (refl, refl, refl)
  | inr some_left ↦ rw some_left (refl, refl, refl)
]

side_effects_same :
    (c : CharacterState) (effect : EffectSpec)
    → ((apply_damage_payload_side_effects c effect).hp ≡ c.hp)
      × ((apply_damage_payload_side_effects c effect).max_hp ≡ c.max_hp)
      × ((apply_damage_payload_side_effects c effect).alive ≡ c.alive)
unfolding apply_damage_payload_side_effects
side_effects_same c effect =
    if_keeps (λ (d : CharacterState). (d.hp ≡ c.hp) × (d.max_hp ≡ c.max_hp) × (d.alive ≡ c.alive))
      (leb_ℤ (get_int effect.payload IntKey.cooldown_increase) (pos 0)
        || not (payload_condition_met c effect none))
      (λ _. (refl, refl, refl)) (λ _. (refl, refl, refl))

-- A damage effect on a sound target leaves it sound and costs it exactly the hit points that the
-- event reports, whatever defense it destroys first.
pub strike_target-Hit :
    (app : Application) (caster target : CharacterState)
    → IsSound target
    → Hit target (strike_target app caster target)
unfolding strike_target
strike_target-Hit app caster target h =
    let broken = break_defense target (destroyed_defense app caster target) in
    let same = break_defense_same target (destroyed_defense app caster target) in
    let hit =
      apply_damage broken (strike_amount app caster target) (strike_type app)
        (strike_bypasses app) in
    let struck =
      apply_damage-Hit broken (strike_amount app caster target) (strike_type app)
        (strike_bypasses app) (IsSound-like same.0 same.1 same.2 h) in
    let after = side_effects_same hit.0 app.effect in
    record {
      sound = IsSound-like after.0 after.1 after.2 struck.sound;
      lost = after.0 ∙ struck.lost ∙ ap (λ x. x -ℤ hit.1) same.0;
      nonneg = struck.nonneg;
      max_kept = after.1 ∙ struck.max_kept ∙ same.1;
    }

-- A damage effect whose target and caster stand in their slots is carried out without an error and
-- leaves a sound battle sound. Where its condition is met, the struck target stands in its slot, with
-- as many hit points less as the event reports, and nothing else of the battle is changed; where it
-- is not met, the battle is as it was and the event says so.
pub apply_damage_effect_lem :
    (state : BattleState) (app : Application) (player_id : ℕ) (slot : ℤ)
    (caster target : CharacterState)
    → character_at state player_id slot ≡ some target
    → character_at state app.action.player_id app.action.caster_slot ≡ some caster
    → IsSoundState state
    → (result : BattleState × StrikeOutcome) × (apply_damage_effect state app player_id (some slot)
        ≡ ok result)
      × IsSoundState result.0
      × (condition_met app caster target ≡ true
          → (struck : CharacterState × ℤ) × IsWritten state result.0 player_id slot struck.0
            × Hit target struck
            × (result.1 ≡ StrikeOutcome.dealt struck.1)
            × (struck ≡ strike_target app caster target))
      × (condition_met app caster target ≡ false → result ≡ (state, StrikeOutcome.skipped))
unfolding apply_damage_effect strike_state
apply_damage_effect_lem state app player_id slot caster target found acting h =
    let struck = strike_target app caster target in
    let hit =
      strike_target-Hit app caster target (character_at-IsSound state player_id slot h found) in
    (
      strike_state state app player_id slot caster target,
      rw (found, acting) refl,
      if_keeps (λ (r : BattleState × StrikeOutcome). IsSoundState r.0)
          (condition_met app caster target)
          (λ _. with_character-IsSoundState state player_id slot struck.0 h hit.sound) (λ _. h),
      λ met.
          rw met
            (struck, with_character-IsWritten state player_id slot struck.0 found, hit, refl, refl),
      λ unmet. rw unmet refl,
    )
