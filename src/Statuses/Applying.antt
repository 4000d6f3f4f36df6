-- ===== src/Statuses/Applying.antt =====
-- Applying, stacking and cleansing statuses, `apply_status` of jjk_arena/battle_v2/effects.py.
use fantasy_draft.Base.{
  ℕ, Bool, false, not, ◌&&◌, ◌||◌, Option, none, some, List, [], ◌∷◌, ◌==◌, if◌then◌else◌, any,
  get_or, or_else,
}
use fantasy_draft.Int.{ℤ, pos, ◌+ℤ◌, ltb_ℤ, min_ℤ, max_ℤ}
use fantasy_draft.Models.{
  DurationClock, StatusFamily, family_eq, SkillClass, class_eq, IntKey, FlagKey, IdKey, Payload,
  get_int, get_flag, put_int, put_id, update, EffectSpec, StatusEffect, CharacterState,
  PendingAction,
}
use fantasy_draft.Conditions.{is_active}
use fantasy_draft.Statuses.SideEffects.{
  apply_status_side_effects, remove_status_side_effects, add_status,
}

-- `_blocks_status_payload` at "damage_reduction" and at "destructible_defense".
unfoldable pub blocks : CharacterState → FlagKey → Bool
blocks target key = any (λ s. is_active s && get_flag s.payload key) target.statuses

unfoldable pub is_cleanseable : StatusEffect → Bool
is_cleanseable s =
    is_active s
    && any (λ f. family_eq f StatusFamily.affliction || family_eq f StatusFamily.soul) s.families
    && not s.soulbound

-- The first status that can be cleansed, and the others.
unfoldable pub take_cleanseable : List StatusEffect → Option (StatusEffect × List StatusEffect)
take_cleanseable [] = none
take_cleanseable (s ∷ rest) =
    let later = take_cleanseable rest in
    if is_cleanseable s
    then some (s, rest)
    else elim later [ none ↦ none | some found ↦ some (found.0, s ∷ found.1) ]

-- `_cleanse_one_self_affliction`
unfoldable pub cleanse_one_self_affliction : CharacterState → CharacterState × Option ℕ
cleanse_one_self_affliction c = elim (take_cleanseable c.statuses) [
  | none ↦ (c, none)
  | some found ↦
      (remove_status_side_effects (record c { statuses = found.1 }) found.0, some found.0.id)
]

-- The payload of a new status, key by key as `apply_status` fills it in.
unfoldable pub status_payload :
    ℤ → PendingAction → CharacterState → EffectSpec → Option ℕ → Option ℕ → Payload
status_payload turn_number action target effect source_player_id source_skill_id =
    let p0 : Payload = put_int effect.payload IntKey.applied_turn_number (some turn_number) in
    let skill : Option ℕ = elim source_player_id [
      | none ↦ some action.skill_id
      | some _ ↦ source_skill_id
    ] in
    let p1 : Payload =
      put_id p0 IdKey.source_skill_id (or_else (p0.ids IdKey.source_skill_id) skill) in
    let low : ℤ = get_int p1 IntKey.low_hp_destructible_defense in
    let p2 : Payload =
      if ltb_ℤ target.hp (pos 50) && ltb_ℤ (pos 0) low
      then put_int p1 IntKey.destructible_defense
          (some (get_int p1 IntKey.destructible_defense +ℤ low))
      else p1 in
    let p3 : Payload =
      if blocks target FlagKey.block_damage_reduction
      then put_int p2 IntKey.damage_reduction none
      else p2 in
    let p4 : Payload =
      if blocks target FlagKey.block_destructible_defense
      then put_int p3 IntKey.destructible_defense none
      else p3 in
    let p5 : Payload =
      if get_flag p4 FlagKey.watch_target_is_target
      then put_id p4 IdKey.watch_target_player_id (some action.target_player_id)
      else p4 in
    let p6 : Payload =
      if get_flag p5 FlagKey.watch_slot_is_target
      then put_int p5 IntKey.watch_target_slot action.target_slot
      else p5 in
    if get_flag p6 FlagKey.controlled_redirect
    then put_int (put_id p6 IdKey.redirect_to_player_id action.alternate_target_player_id)
        IntKey.redirect_to_slot action.alternate_target_slot
    else p6

unfoldable pub has_class : SkillClass → List SkillClass → Bool
has_class k classes = any (λ c. class_eq c k) classes

unfoldable pub new_status :
    ℤ
    → PendingAction
    → ℕ
    → ℤ
    → CharacterState
    → ℕ
    → EffectSpec
    → Option ℕ
    → Option ℤ
    → Option ℕ
    → StatusEffect
new_status turn_number action target_player_id target_slot target id effect source_player_id
      source_slot source_skill_id =
    let source : ℕ = get_or source_player_id action.player_id in
    let payload =
      status_payload turn_number action target effect source_player_id source_skill_id in
    let clock =
      if target_player_id == source then DurationClock.source_turn else DurationClock.target_turn in
    record {
      id = id;
      name = get_or (effect.payload.ids IdKey.name) id;
      source_player_id = source;
      source_slot = get_or source_slot action.caster_slot;
      target_player_id = target_player_id;
      target_slot = target_slot;
      duration = get_or effect.duration (pos 1);
      classes = effect.classes;
      invisible =
          has_class SkillClass.invisible effect.classes
          || get_flag effect.payload FlagKey.invisible;
      soulbound =
          has_class SkillClass.soulbound effect.classes
          || get_flag effect.payload FlagKey.soulbound;
      stacks = effect.stacks;
      payload = record payload { duration_clock = none; families = none };
      revealed = false;
      duration_clock = get_or payload.duration_clock clock;
      families = get_or payload.families [];
    }

-- An active status takes the stacks, the duration and the payload of a new one.
unfoldable pub merge : ℤ → StatusEffect → StatusEffect → StatusEffect
merge max_stacks active s = record active {
  stacks = min_ℤ max_stacks (active.stacks +ℤ s.stacks);
  duration = max_ℤ active.duration s.duration;
  payload = update active.payload s.payload;
}

-- The first active status with the id of the new one, merged with it.
unfoldable pub stack_onto :
    ℤ → StatusEffect → List StatusEffect → Option (StatusEffect × List StatusEffect)
stack_onto max_stacks s [] = none
stack_onto max_stacks s (a ∷ rest) =
    let later = stack_onto max_stacks s rest in
    if is_active a && a.id == s.id
    then some (merge max_stacks a s, merge max_stacks a s ∷ rest)
    else elim later [ none ↦ none | some found ↦ some (found.0, a ∷ found.1) ]

unfoldable pub append_status : CharacterState → StatusEffect → CharacterState × StatusEffect
append_status target s =
    let added = apply_status_side_effects (add_status target s) s in
    (
      if get_flag s.payload FlagKey.cleanse_self_damage_or_affliction
          then (cleanse_one_self_affliction added).0
          else added,
      s,
    )

-- The second half of `apply_status`: stack the new status onto an active one, or append it.
unfoldable pub attach : CharacterState → StatusEffect → CharacterState × StatusEffect
attach target s =
    let max_stacks : ℤ = get_int s.payload IntKey.max_stacks in
    let stacked =
      if ltb_ℤ (pos 0) max_stacks then stack_onto max_stacks s target.statuses else none in
    elim stacked [
      | none ↦ append_status target s
      | some found ↦
          (apply_status_side_effects (record target { statuses = found.1 }) found.0, found.0)
    ]
