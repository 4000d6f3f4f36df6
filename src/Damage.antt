-- ===== src/Damage.antt =====
-- Damage to a character, jjk_arena/battle_v2/effects.py.
pub mod Shields
pub mod Bounds
pub mod Budget
use fantasy_draft.Base.{
  ℕ, suc, ◌*◌, ◌-◌, ◌/◌, ◌+◌, Bool, true, false, not, ◌&&◌, ◌||◌, Option, none, some, List, [], ◌∷◌,
  ◌==◌, if◌then◌else◌, any, map, get_or,
}
use fantasy_draft.Int.{ℤ, pos, negsuc, ◌+ℤ◌, ◌-ℤ◌, ltb_ℤ, leb_ℤ, min_ℤ, max_ℤ, sum}
use fantasy_draft.Models.{
  DamageType, damage_eq, SkillClass, class_eq, IntKey, FlagKey, IdKey, Payload, get_int, get_flag,
  get_id, put_int, EffectSpec, StatusEffect, CharacterState,
}
use fantasy_draft.Conditions.{is_active, is_empty, has_status, anti_domain_id}

unfoldable pub sum_active : List StatusEffect → IntKey → ℤ
sum_active [] k = pos 0
sum_active (s ∷ rest) k = (if is_active s then get_int s.payload k else pos 0) +ℤ sum_active rest k

-- `_status_amount`
unfoldable pub status_amount : CharacterState → IntKey → ℤ
unfolding sum_active
status_amount character k = sum_active character.statuses k

unfoldable pub has_invulnerability : CharacterState → Bool
has_invulnerability character =
    any (λ s. is_active s && get_flag s.payload FlagKey.invulnerable) character.statuses

unfoldable pub has_anti_domain : CharacterState → Bool
has_anti_domain character =
    has_status character anti_domain_id
    || any (λ s. is_active s && get_flag s.payload FlagKey.anti_domain) character.statuses

-- `((max_hp - hp) // 25) * 10`, rounding down.
unfoldable pub missing_hp_bonus : ℤ → ℤ
missing_hp_bonus (pos n) = pos (n / 25 * 10)
missing_hp_bonus (negsuc n) = negsuc (suc (n / 25) * 10 - 1)

unfoldable pub optional : Bool → ℤ → ℤ
optional b x = if b then x else pos 0

-- `x and has_status(character, x)`: `has_status` itself is false of the empty id.
unfoldable pub carries : Option CharacterState → ℕ → Bool
carries none id = false
carries (some c) id = has_status c id

unfoldable pub lacks : Option CharacterState → ℕ → Bool
lacks none id = false
lacks (some c) id = not (id == 0) && not (has_status c id)

unfoldable pub below : ℤ → Option ℤ → Bool
below hp none = false
below hp (some limit) = ltb_ℤ hp limit

-- `_damage_bonus`
unfoldable pub damage_bonus : CharacterState → EffectSpec → Option CharacterState → ℤ
unfolding missing_hp_bonus optional carries lacks below
damage_bonus target effect caster =
    let p = effect.payload in
    let amount : ℤ = get_int p IntKey.bonus_amount in
    optional (has_status target (get_id p IdKey.bonus_status)) amount
    +ℤ optional (carries caster (get_id p IdKey.bonus_user_status)) amount
    +ℤ optional (lacks caster (get_id p IdKey.bonus_user_missing_status)) amount
    +ℤ optional (any (has_status target) (get_or p.bonus_statuses [])) amount
    +ℤ optional (get_flag p FlagKey.scaling_missing_hp_25)
        (missing_hp_bonus (target.max_hp -ℤ target.hp))
    +ℤ optional (below target.hp (p.ints IntKey.execute_threshold)) (get_int p IntKey.execute_bonus)

-- The stacks of the active statuses with an id.
unfoldable pub stacks_of : List StatusEffect → ℕ → ℤ
stacks_of [] id = pos 0
stacks_of (s ∷ rest) id =
    (if is_active s && s.id == id then s.stacks else pos 0) +ℤ stacks_of rest id

unfoldable pub caster_statuses : Option CharacterState → List StatusEffect
caster_statuses none = []
caster_statuses (some c) = c.statuses

unfoldable pub enough_stacks : Option CharacterState → Option (ℕ × ℤ) → Bool
unfolding stacks_of caster_statuses
enough_stacks caster none = true
enough_stacks caster (some (id, minimum)) = leb_ℤ minimum (stacks_of (caster_statuses caster) id)

-- `_payload_condition_met`: one test after another, each of which may return false.
unfoldable pub payload_condition_met : CharacterState → EffectSpec → Option CharacterState → Bool
unfolding carries below enough_stacks
payload_condition_met target effect caster =
    let p = effect.payload in
    let wanted : List ℕ = get_or p.condition_statuses [] in
    (get_id p IdKey.condition_status == 0 || has_status target (get_id p IdKey.condition_status))
    && (is_empty wanted || any (has_status target) wanted)
    && not (has_status target (get_id p IdKey.condition_missing_status))
    && (get_id p IdKey.condition_user_status == 0
        || carries caster (get_id p IdKey.condition_user_status))
    && not (carries caster (get_id p IdKey.condition_user_missing_status))
    && (elim (p.ints IntKey.condition_target_hp_below) [
      | none ↦ true
      | some limit ↦ ltb_ℤ target.hp limit
    ])
    && enough_stacks caster p.condition_user_stacks

-- `_apply_damage_payload_side_effects`
unfoldable pub apply_damage_payload_side_effects : CharacterState → EffectSpec → CharacterState
apply_damage_payload_side_effects target effect =
    let increase : ℤ = get_int effect.payload IntKey.cooldown_increase in
    if leb_ℤ increase (pos 0) || not (payload_condition_met target effect none)
    then target
    else record target { cooldowns = map (λ e. (e.0, e.1 +ℤ increase)) target.cooldowns }

-- `_outgoing_damage_delta`
unfoldable pub outgoing_damage_delta : CharacterState → ℤ
outgoing_damage_delta caster =
    status_amount caster IntKey.damage_output_delta +ℤ status_amount caster IntKey.damage_bonus

-- `_scoped_outgoing_damage_delta`
unfoldable pub scoped_outgoing_damage_delta : CharacterState → List SkillClass → ℤ
unfolding outgoing_damage_delta
scoped_outgoing_damage_delta caster classes =
    outgoing_damage_delta caster
    +ℤ status_amount caster IntKey.harmful_damage_output_delta
    +ℤ (if any (λ c. class_eq c SkillClass.physical) classes
        then status_amount caster IntKey.physical_damage_output_delta
        else pos 0)

-- `_consume_destructible_defense`
unfoldable pub consume_defense : ℤ → List StatusEffect → List StatusEffect
consume_defense remaining [] = []
consume_defense remaining (s ∷ rest) =
    let current : ℤ = get_int s.payload IntKey.destructible_defense in
    let consumed : ℤ = min_ℤ current remaining in
    let skipped = s ∷ consume_defense remaining rest in
    let taken =
      record s {
        payload = put_int s.payload IntKey.destructible_defense (some (current -ℤ consumed));
      }
      ∷ consume_defense (remaining -ℤ consumed) rest in
    if leb_ℤ remaining (pos 0)
    then s ∷ rest
    else if not (is_active s) || leb_ℤ current (pos 0)
    then skipped
    else taken

unfoldable pub consume_destructible_defense : CharacterState → ℤ → CharacterState
consume_destructible_defense target amount = record target {
  statuses = consume_defense amount target.statuses;
}

unfoldable pub uses_shield : DamageType → Bool
uses_shield DamageType.normal = true
uses_shield DamageType.piercing = true
uses_shield DamageType.health_steal = true
uses_shield _ = false

-- The damage that comes in, before reduction and shields.
unfoldable pub incoming_damage : CharacterState → ℤ → ℤ
incoming_damage target amount =
    max_ℤ (pos 0) (amount +ℤ status_amount target IntKey.damage_taken_delta)

-- What the turn's reduction budget absorbs.
unfoldable pub absorbed_reduction : CharacterState → ℤ → DamageType → ℤ
absorbed_reduction target incoming type =
    let available : ℤ =
      max_ℤ (pos 0)
        (status_amount target IntKey.damage_reduction -ℤ target.turn_damage_reduction_used) in
    if damage_eq type DamageType.normal then min_ℤ incoming available else pos 0

-- What the destructible defenses absorb.
unfoldable pub absorbed_defense : CharacterState → ℤ → DamageType → ℤ
unfolding uses_shield
absorbed_defense target incoming type =
    let defense : ℤ = status_amount target IntKey.destructible_defense in
    if uses_shield type && ltb_ℤ (pos 0) defense then min_ℤ incoming defense else pos 0

-- `target.hp -= actual`, and death at 0.
unfoldable pub lose_hp : CharacterState → ℤ → CharacterState
lose_hp target actual =
    if leb_ℤ (target.hp -ℤ actual) (pos 0)
    then record target { hp = pos 0; alive = false }
    else record target { hp = target.hp -ℤ actual }

-- The statuses after the shields have absorbed an amount.
unfoldable pub shielded_statuses : CharacterState → ℤ → List StatusEffect
shielded_statuses target absorbed =
    if ltb_ℤ (pos 0) absorbed
    then (consume_destructible_defense target absorbed).statuses
    else target.statuses

-- The part of `apply_damage` below the test of invulnerability.
unfoldable pub deal : CharacterState → ℤ → DamageType → CharacterState × ℤ
deal target amount type =
    let incoming = incoming_damage target amount in
    let reduced = absorbed_reduction target incoming type in
    let absorbed = absorbed_defense target (incoming -ℤ reduced) type in
    let actual = min_ℤ target.hp (max_ℤ (pos 0) (incoming -ℤ reduced -ℤ absorbed)) in
    let hit : CharacterState = record target {
      turn_damage_reduction_used = target.turn_damage_reduction_used +ℤ reduced;
      statuses = shielded_statuses target absorbed;
    } in
    (lose_hp hit actual, actual)

-- Against an anti-domain status a sure hit is an ordinary one.
unfoldable pub downgraded : CharacterState → DamageType → Bool
downgraded target type = damage_eq type DamageType.sure_hit && has_anti_domain target

unfoldable pub is_shrugged_off : CharacterState → ℤ → DamageType → Bool → Bool
is_shrugged_off target amount type bypass =
    leb_ℤ amount (pos 0)
    || not target.alive
    || (has_invulnerability target && not bypass && not (damage_eq type DamageType.sure_hit))

unfoldable pub apply_damage : CharacterState → ℤ → DamageType → Bool → CharacterState × ℤ
apply_damage target amount type bypass_invulnerability =
    let ordinary = downgraded target type in
    let actual_type = if ordinary then DamageType.normal else type in
    let bypass = if ordinary then false else bypass_invulnerability in
    if is_shrugged_off target amount actual_type bypass
    then (target, pos 0)
    else deal target amount actual_type
