-- ===== src/Damage/Budget.antt =====
-- Where damage goes: the turn's reduction budget, the shields and the hit points, `apply_damage` of
-- jjk_arena/battle_v2/effects.py.
use fantasy_draft.Base.{
  ◌≡◌, ◌≢◌, ◌⊎◌, ◌∙◌, inl, inr, refl, Bool, true, false, ◌&&◌, arith, Bool-cases, if◌then◌else◌,
  List, [], ◌∷◌,
}
use fantasy_draft.Int.{ℤ, pos, ◌+ℤ◌, ◌-ℤ◌, ◌≤ℤ◌, leb_ℤ, ltb_ℤ, min_ℤ, max_ℤ, int_laws, +ℤ-zero}
use fantasy_draft.Models.{DamageType, damage_eq, IntKey, CharacterState}
use fantasy_draft.Damage.{
  sum_active, status_amount, incoming_damage, absorbed_reduction, absorbed_defense, uses_shield,
  shielded_statuses, lose_hp, deal, downgraded, is_shrugged_off, has_invulnerability,
  has_anti_domain, apply_damage,
}
use fantasy_draft.Damage.Shields.{HasShields, sum_active_nonneg}

incoming_damage_nonneg : (c : CharacterState) (amount : ℤ) → pos 0 ≤ℤ incoming_damage c amount
unfolding incoming_damage
incoming_damage_nonneg c amount = omega int_laws

-- The budget absorbs at most what comes in and what is left of the turn's reduction.
pub absorbed_reduction_bounds :
    (c : CharacterState) (incoming : ℤ) (type : DamageType)
    → pos 0 ≤ℤ incoming
    → (pos 0 ≤ℤ absorbed_reduction c incoming type)
      × (absorbed_reduction c incoming type ≤ℤ incoming)
      × (c.turn_damage_reduction_used +ℤ absorbed_reduction c incoming type
          ≤ℤ max_ℤ c.turn_damage_reduction_used (status_amount c IntKey.damage_reduction))
unfolding absorbed_reduction
absorbed_reduction_bounds c incoming type h = elim (Bool-cases (damage_eq type DamageType.normal)) [
  | inl e ↦ rw e (omega int_laws, omega int_laws, omega int_laws)
  | inr e ↦ rw e (omega int_laws, h, omega int_laws)
]

-- The shields absorb at most what comes in and what they hold.
pub absorbed_defense_bounds :
    (c : CharacterState) (incoming : ℤ) (type : DamageType)
    → HasShields c.statuses
    → pos 0 ≤ℤ incoming
    → (pos 0 ≤ℤ absorbed_defense c incoming type)
      × (absorbed_defense c incoming type ≤ℤ incoming)
      × (absorbed_defense c incoming type ≤ℤ status_amount c IntKey.destructible_defense)
unfolding absorbed_defense status_amount
absorbed_defense_bounds c incoming type s h =
    elim (Bool-cases
      (uses_shield type && ltb_ℤ (pos 0) (sum_active c.statuses IntKey.destructible_defense))) [
        | inl e ↦
            rw e (omega (int_laws, sum_active_nonneg c.statuses s), omega int_laws, omega int_laws)
        | inr e ↦ rw e (omega int_laws, h, sum_active_nonneg c.statuses s)
      ]

lose_hp-statuses :
    (c : CharacterState) (a : ℤ)
    → ((lose_hp c a).statuses ≡ c.statuses)
      × ((lose_hp c a).turn_damage_reduction_used ≡ c.turn_damage_reduction_used)
unfolding lose_hp
lose_hp-statuses c a = elim (Bool-cases (leb_ℤ (c.hp -ℤ a) (pos 0))) [
  | inl e ↦ rw e (refl, refl)
  | inr e ↦ rw e (refl, refl)
]

-- What the shields and the turn's reduction budget lost in a hit.
abbrev pub taken_up : CharacterState → CharacterState → ℤ
taken_up before after =
    (status_amount before IntKey.destructible_defense
      -ℤ status_amount after IntKey.destructible_defense)
    +ℤ (after.turn_damage_reduction_used -ℤ before.turn_damage_reduction_used)

plain_damage : (x : ℤ) → pos 0 ≤ℤ x → max_ℤ (pos 0) (x -ℤ pos 0 -ℤ pos 0) ≡ x
plain_damage x h = omega int_laws

unguarded :
    (c : CharacterState) (amount : ℤ)
    → let incoming = incoming_damage c amount in
      let actual = min_ℤ c.hp (max_ℤ (pos 0) (incoming -ℤ pos 0 -ℤ pos 0)) in
      let hit : CharacterState = record c {
        turn_damage_reduction_used = c.turn_damage_reduction_used +ℤ pos 0;
      } in
      (actual ≡ min_ℤ c.hp incoming)
      × ((lose_hp hit actual).statuses ≡ c.statuses)
      × ((lose_hp hit actual).turn_damage_reduction_used ≡ c.turn_damage_reduction_used)
unguarded c amount = (
  rw (plain_damage (incoming_damage c amount) (incoming_damage_nonneg c amount)),
  (lose_hp-statuses _ _).0,
  (lose_hp-statuses _ _).1 ∙ +ℤ-zero c.turn_damage_reduction_used,
)

-- Soul and sure-hit damage passes shields and the reduction budget, and leaves both as they were.
pub deal_unguarded :
    (c : CharacterState) (amount : ℤ) (type : DamageType)
    → uses_shield type ≡ false
    → ((deal c amount type).1 ≡ min_ℤ c.hp (incoming_damage c amount))
      × ((deal c amount type).0.statuses ≡ c.statuses)
      × ((deal c amount type).0.turn_damage_reduction_used ≡ c.turn_damage_reduction_used)
unfolding deal uses_shield absorbed_reduction absorbed_defense shielded_statuses
deal_unguarded c amount DamageType.soul h = unguarded c amount
deal_unguarded c amount DamageType.sure_hit h = unguarded c amount
deal_unguarded c amount type h = cc

-- One hit after another within one turn.
pub record Blow : Type 0 where
  pub amount : ℤ
  pub type : DamageType
  pub bypass : Bool

abbrev pub strike : CharacterState → Blow → CharacterState
strike c b = (apply_damage c b.amount b.type b.bypass).0

abbrev pub strikes : CharacterState → List Blow → CharacterState
strikes c [] = c
strikes c (b ∷ bs) = strikes (strike c b) bs

-- What the reduction takes from a hit.
abbrev pub soaked : CharacterState → Blow → ℤ
soaked c b =
    let ordinary = downgraded c b.type in
    let type = if ordinary then DamageType.normal else b.type in
    let bypass = if ordinary then false else b.bypass in
    if is_shrugged_off c b.amount type bypass
    then pos 0
    else absorbed_reduction c (incoming_damage c b.amount) type

abbrev pub soaked_in_all : CharacterState → List Blow → ℤ
soaked_in_all c [] = pos 0
soaked_in_all c (b ∷ bs) = soaked c b +ℤ soaked_in_all (strike c b) bs

-- What a hit does to the budget: it notes `taken`, which is within what is left.
record IsNoted (c after : CharacterState) (taken : ℤ) : Type 0 where
  noted : after.turn_damage_reduction_used ≡ c.turn_damage_reduction_used +ℤ taken
  nonneg : pos 0 ≤ℤ taken
  within :
      c.turn_damage_reduction_used +ℤ taken
      ≤ℤ max_ℤ c.turn_damage_reduction_used (status_amount c IntKey.damage_reduction)
  same_reduction :
      status_amount after IntKey.damage_reduction ≡ status_amount c IntKey.damage_reduction

-- An invulnerable character takes nothing from a hit that neither bypasses nor is sure; under an
-- anti-domain status it takes nothing from a sure hit either, bypassing or not.
pub invulnerable_takes_nothing :
    (c : CharacterState) (amount : ℤ) (type : DamageType) (bypass : Bool)
    → has_invulnerability c ≡ true
    → ((type ≢ DamageType.sure_hit) × (bypass ≡ false))
      ⊎ ((type ≡ DamageType.sure_hit) × (has_anti_domain c ≡ true))
    → apply_damage c amount type bypass ≡ (c, pos 0)
unfolding apply_damage downgraded is_shrugged_off
invulnerable_takes_nothing c amount DamageType.sure_hit bypass inv h = ground arith
invulnerable_takes_nothing c amount type bypass inv h = ground arith
