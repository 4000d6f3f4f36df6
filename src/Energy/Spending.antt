-- ===== src/Energy/Spending.antt =====
-- Spending takes exactly what was validated, jjk_arena/battle_v2/energy.py.
use mathlib.Core.Path.{subst}
use native.Mathlib.Nat.{zero-add}
use fantasy_draft.Base.{
  ℕ, ◌+◌, ◌<◌, ◌≡◌, ◌↔◌, refl, ap, sym, true, false, not, Bool-cases, inl, inr, List, [], ◌∷◌,
  arith, ltb, ltb→lt, ==_iff, any, All, ◌==◌, length, if◌then◌else◌,
}
use fantasy_draft.Int.{pos, ◌-ℤ◌, ◌≤ℤ◌, ltb_ℤ, int_laws}
use fantasy_draft.Result.{ok, >>-eq-ok, raise_if-ok, raise_if, wildcard_count, wild_cannot_pay}
use fantasy_draft.Models.{EnergyType, energy_eq, Energy, PlayerState}
use fantasy_draft.Energy.{
  Counter, update_counter, items, items_of, all_energy, split_cost, require_energy,
  validate_wildcard_payments, take_energy, spend_items, spend_pays, spend_skill_energy,
}
use fantasy_draft.Energy.Counting.{
  count, listed, update_counter-count, listed-items, split_cost-count,
}

-- What a skill with a cost takes of an energy when its wildcards are paid as given.
unfoldable pub price : List EnergyType → List EnergyType → EnergyType → ℕ
unfolding count
price cost pays k = (if energy_eq k EnergyType.black then 0 else count k cost) + count k pays

pub spend_items-listed :
    (l : List (EnergyType × ℕ)) (energy : Energy) (k : EnergyType)
    → spend_items l energy k ≡ energy k -ℤ pos (listed k l)
unfolding spend_items listed take_energy
spend_items-listed [] energy k = omega int_laws
spend_items-listed ((e, amount) ∷ rest) energy k = elim (Bool-cases (energy_eq k e)) [
  | inl same ↦ rw (spend_items-listed rest (take_energy energy e amount) k, same) (omega int_laws)
  | inr other ↦ rw (spend_items-listed rest (take_energy energy e amount) k, other) (omega int_laws)
]

pub spend_pays-count :
    (pays : List EnergyType) (energy : Energy) (k : EnergyType)
    → spend_pays pays energy k ≡ energy k -ℤ pos (count k pays)
unfolding spend_pays count take_energy
spend_pays-count [] energy k = omega int_laws
spend_pays-count (e ∷ rest) energy k = elim (Bool-cases (energy_eq k e)) [
  | inl same ↦ rw (spend_pays-count rest (take_energy energy e 1) k, same) (omega int_laws)
  | inr other ↦ rw (spend_pays-count rest (take_energy energy e 1) k, other) (omega int_laws)
]

pub energy_eq-eq : (a b : EnergyType) → energy_eq a b ≡ true → a ≡ b
energy_eq-eq a b h = ground arith

pub energy_eq_self : (a : EnergyType) → energy_eq a a ≡ true
energy_eq_self a = ground arith

abbrev IsCovered : Energy → EnergyType × ℕ → Type 0
IsCovered energy p = pos p.1 ≤ℤ energy p.0

require_energy_sound :
    (energy : Energy) (l : List (EnergyType × ℕ))
    → require_energy energy l ≡ ok tt
    → All (IsCovered energy) l
unfolding require_energy
require_energy_sound energy [] h = tt
require_energy_sound energy ((e, amount) ∷ l) h =
    elim (Bool-cases (ltb_ℤ (energy e) (pos amount))) [
      | inl short ↦ cc
      | inr enough ↦ (ground arith, require_energy_sound energy l (rw enough at h))
    ]

require_energy_complete :
    (energy : Energy) (l : List (EnergyType × ℕ))
    → ((k : EnergyType) → pos (listed k l) ≤ℤ energy k)
    → require_energy energy l ≡ ok tt
unfolding require_energy listed
require_energy_complete energy [] h = refl
require_energy_complete energy ((e, amount) ∷ l) h = ground (
  arith,
  h e,
  energy_eq_self e,
  require_energy_complete energy l (λ k. let f : _ = h k in ground arith),
)

items_of-All :
    (P : EnergyType × ℕ → Type 0) (c : Counter) (k : EnergyType) (es : List EnergyType)
    → All P (items_of c es)
    → 0 < count k es
    → 0 < c k
    → P (k, c k)
unfolding items_of count
items_of-All P c k [] ps h g = absurd (omega arith)
items_of-All P c k (e ∷ es) ps h g = elim (Bool-cases (ltb 0 (c e))) [
  | inl there ↦ elim (Bool-cases (energy_eq k e)) [
    | inl same ↦ subst (λ j. P (j, c j)) (sym (energy_eq-eq k e same)) (rw there at ps).0
    | inr other ↦ items_of-All P c k es (rw there at ps).1 (rw (other, zero-add) at h) g
  ]
  | inr absent ↦ elim (Bool-cases (energy_eq k e)) [
    | inl same ↦ absurd (ground (arith, ap c (energy_eq-eq k e same)))
    | inr other ↦ items_of-All P c k es (rw absent at ps) (rw (other, zero-add) at h) g
  ]
]

count-all_energy : (k : EnergyType) → 0 < count k all_energy
unfolding count
count-all_energy k = ground arith

items-All :
    (P : EnergyType × ℕ → Type 0) (c : Counter) (k : EnergyType)
    → All P (items c)
    → 0 < c k
    → P (k, c k)
unfolding items
items-All P c k ps h = items_of-All P c k all_energy ps (count-all_energy k) h

-- A validated counter is covered by the energy, and a covered one is validated.
pub require_energy-items :
    (energy : Energy) (c : Counter)
    → ((k : EnergyType) → pos 0 ≤ℤ energy k)
    → (require_energy energy (items c) ≡ ok tt) ↔ ((k : EnergyType) → pos (c k) ≤ℤ energy k)
require_energy-items energy c nonneg = (
  λ h k. elim (Bool-cases (ltb 0 (c k))) [
    | inl some_cost ↦
        items-All (IsCovered energy) c k (require_energy_sound energy (items c) h)
          (ltb→lt 0 (c k) some_cost)
    | inr no_cost ↦ ground (arith, nonneg k)
  ],
  λ h. require_energy_complete energy (items c) (λ k. rw listed-items (h k)),
)

-- What the validation accepts: a payment for each wildcard, none of it wild, and enough of every
-- energy for the core costs and the payments together.
pub record IsPayable (energy : Energy) (cost pays : List EnergyType) : Type 0 where
  pub paid : length pays ≡ count EnergyType.black cost
  pub not_wild : any (λ e. energy_eq e EnergyType.black) pays ≡ false
  pub covered : (k : EnergyType) → pos (price cost pays k) ≤ℤ energy k

total-price :
    (cost pays : List EnergyType) (k : EnergyType)
    → update_counter (split_cost cost).0 pays k ≡ price cost pays k
unfolding price
total-price cost pays k =
    omega (arith, update_counter-count (split_cost cost).0 pays k, (split_cost-count cost k).0)

-- For energies that are not negative, `validate_wildcard_payments` accepts exactly the payments
-- that are payable.
pub validate_wildcard_payments_iff :
    (player : PlayerState) (cost pays : List EnergyType)
    → ((k : EnergyType) → pos 0 ≤ℤ player.energy k)
    → (validate_wildcard_payments player cost pays ≡ ok tt) ↔ IsPayable player.energy cost pays
unfolding validate_wildcard_payments
validate_wildcard_payments_iff player cost pays nonneg = (
  λ h.
      let (a, h1) =
        >>-eq-ok (raise_if (not (length pays == (split_cost cost).1)) wildcard_count) _ h in
      let (b, h2) =
        >>-eq-ok (raise_if (any (λ e. energy_eq e EnergyType.black) pays) wild_cannot_pay) _ h1 in
      record {
        paid = ground (arith, raise_if-ok _ _ a, (split_cost-count cost EnergyType.black).1);
        not_wild = raise_if-ok _ _ b;
        covered = λ k. rw (← total-price cost pays k) (
            (require_energy-items player.energy (update_counter (split_cost cost).0 pays) nonneg).0
              h2 k);
      },
  λ p.
      let e : (length pays == (split_cost cost).1) ≡ true =
        rw (split_cost-count cost EnergyType.black).1 ((==_iff _ _).1 p.paid) in
      rw (e, p.not_wild)
        ((require_energy-items player.energy (update_counter (split_cost cost).0 pays) nonneg).1
          (λ k. rw total-price (p.covered k))),
)

-- A payable skill is spent without an error, and every energy falls by exactly its price, so none
-- becomes negative.
pub spend_skill_energy_lem :
    (player : PlayerState) (cost pays : List EnergyType)
    → ((k : EnergyType) → pos 0 ≤ℤ player.energy k)
    → IsPayable player.energy cost pays
    → (after : PlayerState) × (spend_skill_energy player cost pays ≡ ok after)
      × ((k : EnergyType) → after.energy k ≡ player.energy k -ℤ pos (price cost pays k))
      × (after.team ≡ player.team)
      × (after.active_slots ≡ player.active_slots)
unfolding spend_skill_energy
spend_skill_energy_lem player cost pays nonneg p = (
  record player {
    energy = spend_pays pays (spend_items (items (split_cost cost).0) player.energy);
  },
  rw ((validate_wildcard_payments_iff player cost pays nonneg).1 p) refl,
  λ k.
      unfold price in
      rw (spend_pays-count, spend_items-listed, listed-items, (split_cost-count cost k).0)
        (omega int_laws),
  refl,
  refl,
)
