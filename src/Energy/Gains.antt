-- ===== src/Energy/Gains.antt =====
-- What a player gains at the start of a turn, jjk_arena/battle_v2/energy.py.
use fantasy_draft.Base.{
  ℕ, zero, suc, ◌+◌, ◌≤◌, ◌≡◌, ◌≢◌, Bool, true, refl, inl, inr, Bool-cases, arith, if◌then◌else◌,
  length, List, [], ◌∷◌,
}
use fantasy_draft.Int.{ℤ, pos, ◌+ℤ◌, ◌≤ℤ◌, int_laws}
use fantasy_draft.Models.{EnergyType, Energy, energy_eq, PlayerState, CharacterState}
use fantasy_draft.Energy.{
  gain_energy_for_living, gain_turn_energy, turn_gain, living_active_count, count_living,
}

-- The core energies together.
unfoldable pub core_total : Energy → ℤ
core_total energy =
    energy EnergyType.green
    +ℤ energy EnergyType.red
    +ℤ energy EnergyType.blue
    +ℤ energy EnergyType.white

bump-core_total :
    (energy : Energy) (e : EnergyType)
    → e ≢ EnergyType.black
    → core_total (λ k. if energy_eq k e then energy k +ℤ pos 1 else energy k)
      ≡ core_total energy +ℤ pos 1
unfolding core_total
bump-core_total energy EnergyType.green h = omega int_laws
bump-core_total energy EnergyType.red h = omega int_laws
bump-core_total energy EnergyType.blue h = omega int_laws
bump-core_total energy EnergyType.white h = omega int_laws
bump-core_total energy EnergyType.black h = absurd (h refl)

module _ (choice : ℕ → EnergyType) (is_core : (i : ℕ) → choice i ≢ EnergyType.black) where
  gain_energy_for_living-core_total :
      (i n : ℕ) (energy : Energy)
      → core_total (gain_energy_for_living choice i n energy) ≡ core_total energy +ℤ pos n
  unfolding gain_energy_for_living
  gain_energy_for_living-core_total i zero energy = omega int_laws
  gain_energy_for_living-core_total i (suc n) energy =
      rw
        (
          gain_energy_for_living-core_total (i + 1) n _,
          bump-core_total energy (choice i) (is_core i),
        )
        (omega int_laws)

  gain_energy_for_living-grows :
      (i n : ℕ) (energy : Energy) (k : EnergyType)
      → energy k ≤ℤ gain_energy_for_living choice i n energy k
  unfolding gain_energy_for_living
  gain_energy_for_living-grows i zero energy k = omega arith
  gain_energy_for_living-grows i (suc n) energy k =
      let rest =
        gain_energy_for_living-grows (i + 1) n
          (λ x. if energy_eq x (choice i) then energy x +ℤ pos 1 else energy x) k in
      elim (Bool-cases (energy_eq k (choice i))) [
        | inl gained ↦ omega (int_laws, rw gained at rest)
        | inr kept ↦ rw kept at rest
      ]

  -- With a generator that answers core energies, a turn starts with one more core energy for each
  -- living active character, but with one at most for the first player's first turn; no energy
  -- falls.
  pub gain_turn_energy_lem :
      (player : PlayerState) (turn_number : ℤ) (is_first : Bool)
      → let after = gain_turn_energy choice player turn_number is_first in
        (core_total after.energy
          ≡ core_total player.energy +ℤ pos (turn_gain player turn_number is_first))
        × (turn_gain player turn_number is_first ≤ living_active_count player)
        × (is_first ≡ true → turn_number ≡ pos 1 → turn_gain player turn_number is_first ≤ 1)
        × ((k : EnergyType) → player.energy k ≤ℤ after.energy k)
  unfolding gain_turn_energy turn_gain
  gain_turn_energy_lem player turn_number is_first = (
    gain_energy_for_living-core_total 0 _ player.energy,
    ground arith,
    λ p q. ground arith,
    λ k. gain_energy_for_living-grows 0 _ player.energy k,
  )

count_living-le-length :
    (team : List CharacterState) (slots : List ℤ) → count_living team slots ≤ length slots
unfolding count_living
count_living-le-length team [] = omega arith
count_living-le-length team (s ∷ slots) = ground (arith, count_living-le-length team slots)
