-- ===== src/Damage/Shields.antt =====
-- Destructible defense: what a hit consumes of it, `_consume_destructible_defense` of
-- jjk_arena/battle_v2/effects.py.
use fantasy_draft.Base.{
  ◌≡◌, ◌≢◌, refl, inl, inr, Bool, true, false, not, ◌||◌, List, [], ◌∷◌, some, arith, All,
  Bool-cases, if◌then◌else◌,
}
use fantasy_draft.Int.{
  ℤ, pos, ◌-ℤ◌, ◌≤ℤ◌, ◌<ℤ◌, leb_ℤ, int_laws, min_ℤ, leb_ℤ→le, leb_ℤ→gt, ltb_ℤ, ltb_ℤ→ge,
}
use fantasy_draft.Models.{IntKey, get_int, put_int, put_int-ints_ne, StatusEffect, CharacterState}
use fantasy_draft.Conditions.{is_active}
use fantasy_draft.Damage.{
  sum_active, consume_defense, consume_destructible_defense, shielded_statuses,
}

abbrev pub defense_of : StatusEffect → ℤ
defense_of s = get_int s.payload IntKey.destructible_defense

-- No status holds a negative defense.
abbrev pub HasShields : List StatusEffect → Type 0
HasShields l = All (λ s. pos 0 ≤ℤ defense_of s) l

pub sum_active_nonneg :
    (l : List StatusEffect) → HasShields l → pos 0 ≤ℤ sum_active l IntKey.destructible_defense
unfolding sum_active
sum_active_nonneg [] h = omega arith
sum_active_nonneg (s ∷ l) h = elim (Bool-cases (is_active s)) [
  | inl on ↦ rw on (omega (int_laws, sum_active_nonneg l h.1))
  | inr off ↦ rw off (omega (int_laws, sum_active_nonneg l h.1))
]

abbrev is_skipped : StatusEffect → Bool
is_skipped s = not (is_active s) || leb_ℤ (defense_of s) (pos 0)

abbrev shot : ℤ → StatusEffect → StatusEffect
shot r s = record s {
  payload =
      put_int s.payload IntKey.destructible_defense (some (defense_of s -ℤ min_ℤ (defense_of s) r));
}

-- The three ways in which the loop treats a status.
consume_defense-cases :
    (P : List StatusEffect → Type 0) (r : ℤ) (s : StatusEffect) (l : List StatusEffect)
    → (leb_ℤ r (pos 0) ≡ true → P (s ∷ l))
    → (leb_ℤ r (pos 0) ≡ false → is_skipped s ≡ true → P (s ∷ consume_defense r l))
    → (leb_ℤ r (pos 0) ≡ false
        → is_skipped s ≡ false
        → P (shot r s ∷ consume_defense (r -ℤ min_ℤ (defense_of s) r) l))
    → P (consume_defense r (s ∷ l))
unfolding consume_defense
consume_defense-cases P r s l done skip take = elim (Bool-cases (leb_ℤ r (pos 0))) [
  | inl e ↦ rw e (done e)
  | inr e ↦ elim (Bool-cases (is_skipped s)) [
    | inl f ↦ rw (e, f) (skip e f)
    | inr f ↦ rw (e, f) (take e f)
  ]
]

skipped_adds_nothing :
    (s : StatusEffect)
    → pos 0 ≤ℤ defense_of s
    → is_skipped s ≡ true
    → (if is_active s then defense_of s else pos 0) ≡ pos 0
skipped_adds_nothing s h f = elim (Bool-cases (is_active s)) [
  | inl on ↦ rw on (omega (int_laws, leb_ℤ→le (defense_of s) (pos 0) (rw on at f)))
  | inr off ↦ rw off
]

taken_is_active :
    (s : StatusEffect) → is_skipped s ≡ false → (is_active s ≡ true) × (pos 0 <ℤ defense_of s)
taken_is_active s f = elim (Bool-cases (is_active s)) [
  | inl on ↦ (on, leb_ℤ→gt (defense_of s) (pos 0) (rw on at f))
  | inr off ↦ absurd (let e = (rw off at f) in cc)
]

-- Consuming an amount that is there takes exactly that much.
pub consume_defense-sum :
    (r : ℤ) (l : List StatusEffect)
    → HasShields l
    → pos 0 ≤ℤ r
    → r ≤ℤ sum_active l IntKey.destructible_defense
    → sum_active (consume_defense r l) IntKey.destructible_defense
      ≡ sum_active l IntKey.destructible_defense -ℤ r
unfolding sum_active consume_defense
consume_defense-sum r [] h p q = omega int_laws
consume_defense-sum r (s ∷ l) h p q =
    consume_defense-cases
      (λ m.
        sum_active m IntKey.destructible_defense
        ≡ sum_active (s ∷ l) IntKey.destructible_defense -ℤ r)
      r s l (λ e. omega (int_laws, leb_ℤ→le r (pos 0) e))
      (λ e f.
        let nothing = skipped_adds_nothing s h.0 f in
        let fits : r ≤ℤ sum_active l IntKey.destructible_defense =
          omega (int_laws, (rw nothing at q)) in
        rw (nothing, consume_defense-sum r l h.1 p fits) (omega int_laws))
      (λ e f.
        let active = taken_is_active s f in
        let left : ℤ = r -ℤ min_ℤ (defense_of s) r in
        let fits : left ≤ℤ sum_active l IntKey.destructible_defense =
          omega (int_laws, (rw active.0 at q), sum_active_nonneg l h.1) in
        rw (consume_defense-sum left l h.1 (omega int_laws) fits, active.0) (omega int_laws))

-- It leaves every other sum over the statuses alone.
pub consume_defense-sum_ne :
    (r : ℤ) (l : List StatusEffect) (k : IntKey)
    → k ≢ IntKey.destructible_defense
    → sum_active (consume_defense r l) k ≡ sum_active l k
unfolding sum_active consume_defense
consume_defense-sum_ne r [] k h = refl
consume_defense-sum_ne r (s ∷ l) k h =
    consume_defense-cases (λ m. sum_active m k ≡ sum_active (s ∷ l) k) r s l (λ e. refl)
      (λ e f. rw (consume_defense-sum_ne r l k h))
      (λ e f. rw (
        consume_defense-sum_ne (r -ℤ min_ℤ (defense_of s) r) l k h,
        put_int-ints_ne s.payload k (some (defense_of s -ℤ min_ℤ (defense_of s) r)) h,
      ))

pub consume_defense-HasShields :
    (r : ℤ) (l : List StatusEffect) → HasShields l → HasShields (consume_defense r l)
unfolding consume_defense
consume_defense-HasShields r [] h = tt
consume_defense-HasShields r (s ∷ l) h =
    consume_defense-cases HasShields r s l (λ e. h)
      (λ e f. (h.0, consume_defense-HasShields r l h.1))
      (λ e f. (omega int_laws, consume_defense-HasShields (r -ℤ min_ℤ (defense_of s) r) l h.1))

-- The shields of a character after a hit have absorbed an amount that they held.
pub shielded_statuses-sum :
    (c : CharacterState) (a : ℤ)
    → HasShields c.statuses
    → pos 0 ≤ℤ a
    → a ≤ℤ sum_active c.statuses IntKey.destructible_defense
    → sum_active (shielded_statuses c a) IntKey.destructible_defense
      ≡ sum_active c.statuses IntKey.destructible_defense -ℤ a
unfolding shielded_statuses consume_destructible_defense
shielded_statuses-sum c a h p q = elim (Bool-cases (ltb_ℤ (pos 0) a)) [
  | inl e ↦ rw e (consume_defense-sum a c.statuses h p q)
  | inr e ↦ rw e (omega (int_laws, ltb_ℤ→ge (pos 0) a e))
]

pub shielded_statuses-sum_ne :
    (c : CharacterState) (a : ℤ) (k : IntKey)
    → k ≢ IntKey.destructible_defense
    → sum_active (shielded_statuses c a) k ≡ sum_active c.statuses k
unfolding shielded_statuses consume_destructible_defense
shielded_statuses-sum_ne c a k h = elim (Bool-cases (ltb_ℤ (pos 0) a)) [
  | inl e ↦ rw e (consume_defense-sum_ne a c.statuses k h)
  | inr e ↦ rw e
]
