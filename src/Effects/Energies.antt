-- ===== src/Effects/Energies.antt =====
-- Drained and gained energy, jjk_arena/battle_v2/effects.py.
use fantasy_draft.Base.{
  ◌≡◌, refl, inl, inr, true, arith, Bool-cases, Option-cases, Option, none, some, List, [], ◌∷◌,
  any,
}
use fantasy_draft.Int.{
  ℤ, pos, ◌+ℤ◌, ◌-ℤ◌, ◌≤ℤ◌, ◌<ℤ◌, ltb_ℤ, int_laws, eq_of_parts, ltb_ℤ→lt, ltb_ℤ→ge,
}
use fantasy_draft.Models.{EnergyType, energy_eq, Energy}
use fantasy_draft.Energy.{all_energy, take_energy}
use fantasy_draft.Effects.{first_left, drain_one}

-- The total of the five energies.
abbrev pub energy_total : Energy → ℤ
energy_total energy =
    energy EnergyType.green
    +ℤ energy EnergyType.red
    +ℤ energy EnergyType.blue
    +ℤ energy EnergyType.white
    +ℤ energy EnergyType.black

first_left_some :
    (energy : Energy) (l : List EnergyType) (e : EnergyType)
    → first_left energy l ≡ some e
    → pos 0 <ℤ energy e
unfolding first_left
first_left_some energy [] e h = absurd cc
first_left_some energy (k ∷ l) e h = elim (Bool-cases (ltb_ℤ (pos 0) (energy k))) [
  | inl here ↦
      let same : k ≡ e = (let f = (rw here at h) in cc) in
      rw⁻¹ same (ltb_ℤ→lt (pos 0) (energy k) here)
  | inr later ↦ first_left_some energy l e (rw later at h)
]

energy_eq→eq : (a b : EnergyType) → energy_eq a b ≡ true → a ≡ b
energy_eq→eq EnergyType.green EnergyType.green h = refl
energy_eq→eq EnergyType.green _ h = absurd cc
energy_eq→eq EnergyType.red EnergyType.red h = refl
energy_eq→eq EnergyType.red _ h = absurd cc
energy_eq→eq EnergyType.blue EnergyType.blue h = refl
energy_eq→eq EnergyType.blue _ h = absurd cc
energy_eq→eq EnergyType.white EnergyType.white h = refl
energy_eq→eq EnergyType.white _ h = absurd cc
energy_eq→eq EnergyType.black EnergyType.black h = refl
energy_eq→eq EnergyType.black _ h = absurd cc

first_left_none :
    (energy : Energy) (l : List EnergyType) (k : EnergyType)
    → first_left energy l ≡ none
    → any (energy_eq k) l ≡ true
    → energy k ≤ℤ pos 0
unfolding first_left
first_left_none energy [] k h m = absurd cc
first_left_none energy (e ∷ l) k h m = elim (Bool-cases (ltb_ℤ (pos 0) (energy e))) [
  | inl here ↦ absurd (let f = (rw here at h) in cc)
  | inr spent ↦ elim (Bool-cases (energy_eq k e)) [
    | inl same ↦ rw (energy_eq→eq k e same) (ltb_ℤ→ge (pos 0) (energy e) spent)
    | inr other ↦ first_left_none energy l k (rw spent at h) (rw other at m)
  ]
]

taken_total :
    (energy : Energy) (e : EnergyType)
    → energy_total (take_energy energy e 1) ≡ energy_total energy -ℤ pos 1
unfolding take_energy
taken_total energy EnergyType.green = eq_of_parts _ _ (omega int_laws)
taken_total energy EnergyType.red = eq_of_parts _ _ (omega int_laws)
taken_total energy EnergyType.blue = eq_of_parts _ _ (omega int_laws)
taken_total energy EnergyType.white = eq_of_parts _ _ (omega int_laws)
taken_total energy EnergyType.black = eq_of_parts _ _ (omega int_laws)

taken_nonneg :
    (energy : Energy) (e : EnergyType)
    → ((k : EnergyType) → pos 0 ≤ℤ energy k)
    → pos 0 <ℤ energy e
    → (k : EnergyType) → pos 0 ≤ℤ take_energy energy e 1 k
unfolding take_energy
taken_nonneg energy e nonneg some_left k = elim (Bool-cases (energy_eq k e)) [
  | inl same ↦ rw (same, energy_eq→eq k e same) (omega int_laws)
  | inr other ↦ rw other (nonneg k)
]

is_listed : (k : EnergyType) → any (energy_eq k) all_energy ≡ true
is_listed EnergyType.green = refl
is_listed EnergyType.red = refl
is_listed EnergyType.blue = refl
is_listed EnergyType.white = refl
is_listed EnergyType.black = refl

-- What a drain does to energies that are not negative.
pub record Drained (energy : Energy) (result : Energy × Option EnergyType) : Type 0 where
  pub nonneg : (k : EnergyType) → pos 0 ≤ℤ result.0 k
  pub nothing : result.1 ≡ none → ((k : EnergyType) → energy k ≡ pos 0) × (result.0 ≡ energy)
  pub one :
      (e : EnergyType)
      → result.1 ≡ some e
      → (pos 0 <ℤ energy e) × (energy_total result.0 ≡ energy_total energy -ℤ pos 1)

-- A drain of energies that are not negative takes one energy that is there, so the total falls by
-- exactly 1 and no energy becomes negative; it takes none only if all are 0, and changes nothing then.
pub drain_one-Drained :
    (energy : Energy) → ((k : EnergyType) → pos 0 ≤ℤ energy k) → Drained energy (drain_one energy)
unfolding drain_one
drain_one-Drained energy nonneg = elim (Option-cases (first_left energy all_energy)) [
  | inl spent ↦
      rw (drain_one, spent)
        (record {
          nonneg = nonneg;
          nothing = λ _. (
            λ k.
                let none_left = first_left_none energy all_energy k spent (is_listed k) in
                let low = nonneg k in eq_of_parts (energy k) (pos 0) (omega arith),
            refl,
          );
          one = λ e h. absurd cc;
        })
  | inr (e, found) ↦
      rw (drain_one, found)
        (record {
          nonneg = taken_nonneg energy e nonneg (first_left_some energy all_energy e found);
          nothing = λ h. absurd cc;
          one = λ k h.
              let same : e ≡ k = cc in
              rw⁻¹ same (first_left_some energy all_energy e found, taken_total energy e);
        })
]
