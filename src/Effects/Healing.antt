-- ===== src/Effects/Healing.antt =====
-- Healing and stolen health, jjk_arena/battle_v2/effects.py.
use fantasy_draft.Base.{◌≡◌, refl, sym, inl, inr, true, false, Bool-cases, ◌⊎◌}
use fantasy_draft.Int.{
  ℤ, pos, ◌+ℤ◌, ◌-ℤ◌, ◌≤ℤ◌, ◌<ℤ◌, ltb_ℤ, min_ℤ, max_ℤ, int_laws, eq_of_parts, ltb_ℤ→lt, ltb_ℤ→ge,
  leb_ℤ, leb_ℤ→le, leb_ℤ→gt,
}
use fantasy_draft.Models.{IntKey, CharacterState, DamageType}
use fantasy_draft.Damage.{status_amount, apply_damage}
use fantasy_draft.Damage.Bounds.{IsSound, apply_damage-Hit}
use fantasy_draft.Effects.{healed_amount, heal, regain}

-- What a heal does to a sound character.
pub record Healed (before : CharacterState) (amount : ℤ) (result : CharacterState × ℤ)
    : Type 0 where
  pub sound : IsSound result.0
  pub gained : result.0.hp ≡ before.hp +ℤ result.1
  pub nonneg : pos 0 ≤ℤ result.1
  pub to_the_full :
      pos 0 ≤ℤ amount
      → pos 0 ≤ℤ status_amount before IntKey.healing_received_delta
      → (result.0.hp ≡ before.max_hp) ⊎ (amount ≤ℤ result.1)
  pub revived : pos 0 <ℤ result.1 → result.0.alive ≡ true
  pub as_dead : result.1 ≡ pos 0 → result.0.alive ≡ before.alive

healed_amount_bounds :
    (c : CharacterState) (amount : ℤ)
    → IsSound c
    → (pos 0 ≤ℤ healed_amount c amount) × (c.hp +ℤ healed_amount c amount ≤ℤ c.max_hp)
unfolding healed_amount
healed_amount_bounds c amount h = let le = h.hp_le_max in (omega int_laws, omega int_laws)

healed_fully :
    (c : CharacterState) (amount : ℤ)
    → pos 0 ≤ℤ amount
    → pos 0 ≤ℤ status_amount c IntKey.healing_received_delta
    → (c.hp +ℤ healed_amount c amount ≡ c.max_hp) ⊎ (amount ≤ℤ healed_amount c amount)
unfolding healed_amount
healed_fully c amount p q =
    let missing = c.max_hp -ℤ c.hp in
    let offered =
      max_ℤ (pos 0) (max_ℤ (pos 0) amount +ℤ status_amount c IntKey.healing_received_delta) in
    elim (Bool-cases (leb_ℤ missing offered)) [
      | inl all_of_it ↦ inl (
          eq_of_parts (c.hp +ℤ min_ℤ missing offered) c.max_hp
            (let le = leb_ℤ→le missing offered all_of_it in omega int_laws))
      | inr some_of_it ↦ inr (let gt = leb_ℤ→gt missing offered some_of_it in omega int_laws)
    ]

stays_up :
    (c : CharacterState) (n : ℤ)
    → IsSound c
    → n ≡ pos 0
    → ltb_ℤ (pos 0) (c.hp +ℤ n) ≡ true
    → true ≡ c.alive
stays_up c n h e up = elim (Bool-cases c.alive) [
  | inl living ↦ sym living
  | inr fallen ↦ absurd (
      let p = ltb_ℤ→lt (pos 0) (c.hp +ℤ n) up in
      let q : pos 0 <ℤ pos 0 +ℤ pos 0 = (rw (h.dead fallen, e) at p) in omega int_laws)
]

still_down :
    (c : CharacterState) (n : ℤ)
    → IsSound c
    → pos 0 ≤ℤ n
    → ltb_ℤ (pos 0) (c.hp +ℤ n) ≡ false
    → IsSound (record c { hp = c.hp +ℤ n })
still_down c n h nonneg down =
    let low = h.hp_nonneg in
    let high = h.hp_le_max in
    let q = ltb_ℤ→ge (pos 0) (c.hp +ℤ n) down in
    let none_left : c.hp +ℤ n ≡ pos 0 = eq_of_parts (c.hp +ℤ n) (pos 0) (omega int_laws) in
    record {
      hp_nonneg = omega int_laws;
      hp_le_max = omega int_laws;
      living = λ up. let p = h.living up in omega int_laws;
      dead = λ _. none_left;
    }

-- A heal leaves a sound character sound and within its maximum, restores exactly what it reports,
-- which is the full amount or all that is missing where nothing lessens healing, and revives a
-- character that was down exactly if it restores something.
pub heal-Healed : (c : CharacterState) (amount : ℤ) → IsSound c → Healed c amount (heal c amount)
unfolding heal
heal-Healed c amount h =
    let n : ℤ = healed_amount c amount in
    let bounds = healed_amount_bounds c amount h in
    let low = h.hp_nonneg in
    elim (Bool-cases (ltb_ℤ (pos 0) (c.hp +ℤ n))) [
      | inl up ↦ rw up (record {
        sound = record {
          hp_nonneg = omega int_laws;
          hp_le_max = bounds.1;
          living = λ _. ltb_ℤ→lt (pos 0) (c.hp +ℤ n) up;
          dead = λ e. absurd cc;
        };
        gained = refl;
        nonneg = bounds.0;
        to_the_full = healed_fully c amount;
        revived = λ _. refl;
        as_dead = λ e. stays_up c n h e up;
      })
      | inr down ↦ rw down (record {
        sound = still_down c n h bounds.0 down;
        gained = refl;
        nonneg = bounds.0;
        to_the_full = healed_fully c amount;
        revived = λ p. absurd (let q = ltb_ℤ→ge (pos 0) (c.hp +ℤ n) down in omega int_laws);
        as_dead = λ _. refl;
      })
    ]

-- A hit that steals health from a sound character gives a living caster back no more than the target
-- lost, and leaves both sound.
pub steal-IsSound :
    (caster target : CharacterState) (amount : ℤ)
    → IsSound caster
    → caster.alive ≡ true
    → IsSound target
    → let hit = apply_damage target amount DamageType.health_steal false in
      IsSound hit.0
      × IsSound (regain caster hit.1)
      × (caster.hp ≤ℤ (regain caster hit.1).hp)
      × ((regain caster hit.1).hp +ℤ hit.0.hp ≤ℤ caster.hp +ℤ target.hp)
unfolding regain
steal-IsSound caster target amount c up t =
    let hit = apply_damage-Hit target amount DamageType.health_steal false t in
    let taken = (apply_damage target amount DamageType.health_steal false).1 in
    let some_left = c.living up in
    let fits = c.hp_le_max in
    let nonneg = hit.nonneg in
    (
      hit.sound,
      record {
        hp_nonneg = omega int_laws;
        hp_le_max = omega int_laws;
        living = λ _. omega int_laws;
        dead = λ e. absurd cc;
      },
      omega int_laws,
      rw hit.lost (omega int_laws),
    )
