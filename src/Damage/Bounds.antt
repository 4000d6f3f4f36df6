-- ===== src/Damage/Bounds.antt =====
-- The hit points of a damaged character, and where its damage went: `apply_damage` of
-- jjk_arena/battle_v2/effects.py.
use fantasy_draft.Base.{◌≡◌, inl, inr, refl, Bool, true, false, arith, Bool-cases, if◌then◌else◌}
use fantasy_draft.Int.{
  ℤ, pos, ◌+ℤ◌, ◌-ℤ◌, ◌≤ℤ◌, ◌<ℤ◌, leb_ℤ, min_ℤ, max_ℤ, int_laws, leb_ℤ→le, leb_ℤ→gt,
}
use fantasy_draft.Models.{DamageType, CharacterState}
use fantasy_draft.Damage.{
  incoming_damage, absorbed_reduction, absorbed_defense, lose_hp, deal, shielded_statuses,
  is_shrugged_off, downgraded, apply_damage,
}

-- The hit points stand between 0 and the maximum, and a character is alive while it has some.
pub record IsSound (c : CharacterState) : Type 0 where
  pub hp_nonneg : pos 0 ≤ℤ c.hp
  pub hp_le_max : c.hp ≤ℤ c.max_hp
  pub living : c.alive ≡ true → pos 0 <ℤ c.hp
  pub dead : c.alive ≡ false → c.hp ≡ pos 0

lose_hp-IsSound :
    (c : CharacterState) (actual : ℤ)
    → IsSound c
    → c.alive ≡ true
    → pos 0 ≤ℤ actual
    → actual ≤ℤ c.hp
    → IsSound (lose_hp c actual) × ((lose_hp c actual).hp ≡ c.hp -ℤ actual)
unfolding lose_hp
lose_hp-IsSound c actual h up p q = elim (Bool-cases (leb_ℤ (c.hp -ℤ actual) (pos 0))) [
  | inl e ↦ rw e (
    record {
      hp_nonneg = omega arith;
      hp_le_max = omega (int_laws, h.hp_nonneg, h.hp_le_max);
      living = λ a. cc;
      dead = λ a. refl;
    },
    omega (int_laws, leb_ℤ→le (c.hp -ℤ actual) (pos 0) e),
  )
  | inr e ↦ rw e (
    record {
      hp_nonneg = omega int_laws;
      hp_le_max = omega (int_laws, h.hp_le_max);
      living = λ a. leb_ℤ→gt (c.hp -ℤ actual) (pos 0) e;
      dead = λ a. cc;
    },
    refl,
  )
]

lose_hp-max_hp : (c : CharacterState) (actual : ℤ) → (lose_hp c actual).max_hp ≡ c.max_hp
unfolding lose_hp
lose_hp-max_hp c actual = elim (Bool-cases (leb_ℤ (c.hp -ℤ actual) (pos 0))) [
  | inl e ↦ rw e
  | inr e ↦ rw e
]

-- What one call of `apply_damage` did: the returned amount is the hit points that were lost, it is
-- not negative, and the character is sound.
pub record Hit (before : CharacterState) (result : CharacterState × ℤ) : Type 0 where
  pub sound : IsSound result.0
  pub lost : result.0.hp ≡ before.hp -ℤ result.1
  pub nonneg : pos 0 ≤ℤ result.1
  pub max_kept : result.0.max_hp ≡ before.max_hp

deal-Hit :
    (c : CharacterState) (amount : ℤ) (type : DamageType)
    → IsSound c
    → c.alive ≡ true
    → Hit c (deal c amount type)
unfolding deal
deal-Hit c amount type h up =
    let incoming = incoming_damage c amount in
    let reduced = absorbed_reduction c incoming type in
    let absorbed = absorbed_defense c (incoming -ℤ reduced) type in
    let actual = min_ℤ c.hp (max_ℤ (pos 0) (incoming -ℤ reduced -ℤ absorbed)) in
    let hit : CharacterState = record c {
      turn_damage_reduction_used = c.turn_damage_reduction_used +ℤ reduced;
      statuses = shielded_statuses c absorbed;
    } in
    let hit-IsSound : IsSound hit = record {
      hp_nonneg = h.hp_nonneg;
      hp_le_max = h.hp_le_max;
      living = h.living;
      dead = h.dead;
    } in
    let fell =
      lose_hp-IsSound hit actual hit-IsSound up (omega (int_laws, h.hp_nonneg)) (omega int_laws) in
    record {
      sound = fell.0;
      lost = fell.1;
      nonneg = omega (int_laws, h.hp_nonneg);
      max_kept = lose_hp-max_hp hit actual;
    }

dealt_is_alive :
    (c : CharacterState) (amount : ℤ) (type : DamageType) (bypass : Bool)
    → is_shrugged_off c amount type bypass ≡ false
    → c.alive ≡ true
unfolding is_shrugged_off
dealt_is_alive c amount type bypass h = ground arith

unhurt-Hit : (c : CharacterState) → IsSound c → Hit c (c, pos 0)
unhurt-Hit c h = record { sound = h; lost = omega int_laws; nonneg = omega arith; max_kept = refl }

-- Damage to a sound character costs it exactly the hit points that `apply_damage` returns, never
-- more than it had, and it dies exactly when none is left.
pub apply_damage-Hit :
    (c : CharacterState) (amount : ℤ) (type : DamageType) (bypass : Bool)
    → IsSound c
    → Hit c (apply_damage c amount type bypass)
unfolding apply_damage
apply_damage-Hit c amount type bypass h =
    let ordinary = downgraded c type in
    let actual_type = if ordinary then DamageType.normal else type in
    let shrugged = is_shrugged_off c amount actual_type (if ordinary then false else bypass) in
    elim (Bool-cases shrugged) [
      | inl e ↦ rw e (unhurt-Hit c h)
      | inr e ↦ rw e (deal-Hit c amount actual_type h (dealt_is_alive c amount actual_type _ e))
    ]
