-- ===== src/Energy.antt =====
-- Energy: gains at the start of a turn, costs, wildcard payments and spending,
-- jjk_arena/battle_v2/energy.py.
pub mod Counting
pub mod Spending
pub mod Gains
use fantasy_draft.Base.{
  ℕ, zero, suc, ◌+◌, Bool, true, false, not, ◌&&◌, Option, none, some, List, [], ◌∷◌, ◌==◌, ltb,
  if◌then◌else◌, any, all, length, get_elem?,
}
use fantasy_draft.Int.{ℤ, pos, ◌+ℤ◌, ◌-ℤ◌, ltb_ℤ, leb_ℤ, eqb_ℤ}
use fantasy_draft.Result.{
  Result, ok, err, ◌>>=◌, ◌>>◌, raise_if, wildcard_count, wild_cannot_pay, not_enough_energy,
}
use fantasy_draft.Models.{EnergyType, Energy, energy_eq, CharacterState, PlayerState}

abbrev pub all_energy : List EnergyType
all_energy =
    EnergyType.green ∷ EnergyType.red ∷ EnergyType.blue ∷ EnergyType.white ∷ EnergyType.black ∷ []

-- A `Counter` of energies: an absent key counts 0. The code's counters hold positive counts, so
-- `items` lists the positive ones, in the order of the enumeration. The order of first insertion,
-- which Python keeps, only decides which of several shortages a message names.
abbrev pub Counter : Type 0
Counter = EnergyType → ℕ

abbrev pub empty_counter : Counter
empty_counter e = 0

unfoldable pub increment : Counter → EnergyType → Counter
increment c e k = if energy_eq k e then c k + 1 else c k

-- `counter.update(pays)`
unfoldable pub update_counter : Counter → List EnergyType → Counter
update_counter c [] = c
update_counter c (e ∷ es) = update_counter (increment c e) es

unfoldable pub items_of : Counter → List EnergyType → List (EnergyType × ℕ)
items_of c [] = []
items_of c (e ∷ es) = let rest = items_of c es in if ltb 0 (c e) then (e, c e) ∷ rest else rest

unfoldable pub items : Counter → List (EnergyType × ℕ)
unfolding items_of
items c = items_of c all_energy

unfoldable pub split_loop : Counter → ℕ → List EnergyType → Counter × ℕ
split_loop specific wild [] = (specific, wild)
split_loop specific wild (e ∷ es) =
    split_loop (if energy_eq e EnergyType.black then specific else increment specific e)
      (if energy_eq e EnergyType.black then wild + 1 else wild) es

-- Specific core costs and the number of wildcards.
unfoldable pub split_cost : List EnergyType → Counter × ℕ
unfolding split_loop
split_cost cost = split_loop empty_counter 0 cost

unfoldable pub affords : Energy → EnergyType × ℕ → Bool
affords energy (e, amount) = leb_ℤ (pos amount) (energy e)

unfoldable pub can_afford_specific : PlayerState → List EnergyType → Bool
unfolding affords
can_afford_specific player cost = all (affords player.energy) (items (split_cost cost).0)

-- The `if player.energy.get(energy, 0) < amount: raise` loops.
unfoldable pub require_energy : Energy → List (EnergyType × ℕ) → Result (Unit {0})
require_energy energy [] = ok tt
require_energy energy ((e, amount) ∷ rest) =
    raise_if (ltb_ℤ (energy e) (pos amount)) not_enough_energy >> require_energy energy rest

unfoldable pub validate_wildcard_payments :
    PlayerState → List EnergyType → List EnergyType → Result (Unit {0})
unfolding require_energy
validate_wildcard_payments player cost pays = do
  let split = split_cost cost
  raise_if (not (length pays == split.1)) wildcard_count
  raise_if (any (λ e. energy_eq e EnergyType.black) pays) wild_cannot_pay
  require_energy player.energy (items (update_counter split.0 pays))

-- `player.energy[energy] -= amount`
unfoldable pub take_energy : Energy → EnergyType → ℕ → Energy
take_energy energy e amount k = if energy_eq k e then energy k -ℤ pos amount else energy k

unfoldable pub spend_items : List (EnergyType × ℕ) → Energy → Energy
spend_items [] energy = energy
spend_items ((e, amount) ∷ rest) energy = spend_items rest (take_energy energy e amount)

unfoldable pub spend_pays : List EnergyType → Energy → Energy
spend_pays [] energy = energy
spend_pays (e ∷ rest) energy = spend_pays rest (take_energy energy e 1)

unfoldable pub spend_skill_energy :
    PlayerState → List EnergyType → List EnergyType → Result PlayerState
unfolding spend_items spend_pays
spend_skill_energy player cost pays = do
  validate_wildcard_payments player cost pays
  ok (record player {
    energy = spend_pays pays (spend_items (items (split_cost cost).0) player.energy);
  })

-- `0 <= slot < len(team) and team[slot]`
unfoldable pub team_at : List CharacterState → ℤ → Option CharacterState
team_at team (pos n) = get_elem? team n
team_at team _ = none

unfoldable pub is_living : List CharacterState → ℤ → Bool
is_living team slot = elim (team_at team slot) [ none ↦ false | some c ↦ c.alive ]

unfoldable pub count_living : List CharacterState → List ℤ → ℕ
count_living team [] = 0
count_living team (slot ∷ slots) =
    let rest = count_living team slots in if is_living team slot then suc rest else rest

unfoldable pub living_active_count : PlayerState → ℕ
unfolding count_living is_living team_at
living_active_count player = count_living player.team player.active_slots

-- `player.energy[rng.choice(CORE_ENERGY)] += 1`, `living_count` times; `choice i` is the answer of
-- the generator's call `i`.
unfoldable pub gain_energy_for_living : (ℕ → EnergyType) → ℕ → ℕ → Energy → Energy
gain_energy_for_living choice i zero energy = energy
gain_energy_for_living choice i (suc n) energy =
    gain_energy_for_living choice (i + 1) n
      λ k. if energy_eq k (choice i) then energy k +ℤ pos 1 else energy k

unfoldable pub turn_gain : PlayerState → ℤ → Bool → ℕ
turn_gain player turn_number is_first =
    let count = living_active_count player in
    if eqb_ℤ turn_number (pos 1) && is_first then (if ltb 1 count then 1 else count) else count

unfoldable pub gain_turn_energy : (ℕ → EnergyType) → PlayerState → ℤ → Bool → PlayerState
gain_turn_energy choice player turn_number is_first = record player {
  energy = gain_energy_for_living choice 0 (turn_gain player turn_number is_first) player.energy;
}
