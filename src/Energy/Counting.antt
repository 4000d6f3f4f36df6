-- ===== src/Energy/Counting.antt =====
-- What the counters of costs and payments count, jjk_arena/battle_v2/energy.py.
use fantasy_draft.Base.{ℕ, ◌+◌, ◌≡◌, ◌∙◌, List, [], ◌∷◌, arith, if◌then◌else◌}
use native.Mathlib.Nat.{zero-add}
use fantasy_draft.Models.{EnergyType, energy_eq}
use fantasy_draft.Energy.{
  Counter, empty_counter, increment, update_counter, items, split_loop, split_cost,
}

-- How often an energy occurs in a list.
unfoldable pub count : EnergyType → List EnergyType → ℕ
count k [] = 0
count k (e ∷ es) = (if energy_eq k e then 1 else 0) + count k es

-- What `items` lists under one key.
unfoldable pub listed : EnergyType → List (EnergyType × ℕ) → ℕ
listed k [] = 0
listed k ((e, amount) ∷ rest) = (if energy_eq k e then amount else 0) + listed k rest

pub update_counter-count :
    (c : Counter) (es : List EnergyType) (k : EnergyType) → update_counter c es k ≡ c k + count k es
unfolding update_counter increment count
update_counter-count c [] k = omega arith
update_counter-count c (e ∷ es) k = ground (arith, update_counter-count (increment c e) es k)

-- An energy is listed with its count, once.
pub listed-items : (c : Counter) (k : EnergyType) → listed k (items c) ≡ c k
unfolding items listed
listed-items c EnergyType.green = ground arith
listed-items c EnergyType.red = ground arith
listed-items c EnergyType.blue = ground arith
listed-items c EnergyType.white = ground arith
listed-items c EnergyType.black = ground arith

pub split_loop-specific :
    (c : Counter) (w : ℕ) (cost : List EnergyType) (k : EnergyType)
    → (split_loop c w cost).0 k ≡ c k + (if energy_eq k EnergyType.black then 0 else count k cost)
unfolding split_loop increment count
split_loop-specific c w [] k = ground arith
split_loop-specific c w (EnergyType.green ∷ es) k =
    ground (arith, split_loop-specific (increment c EnergyType.green) w es k)
split_loop-specific c w (EnergyType.red ∷ es) k =
    ground (arith, split_loop-specific (increment c EnergyType.red) w es k)
split_loop-specific c w (EnergyType.blue ∷ es) k =
    ground (arith, split_loop-specific (increment c EnergyType.blue) w es k)
split_loop-specific c w (EnergyType.white ∷ es) k =
    ground (arith, split_loop-specific (increment c EnergyType.white) w es k)
split_loop-specific c w (EnergyType.black ∷ es) k =
    ground (arith, split_loop-specific c (w + 1) es k)

pub split_loop-wild :
    (c : Counter) (w : ℕ) (cost : List EnergyType)
    → (split_loop c w cost).1 ≡ w + count EnergyType.black cost
unfolding split_loop count
split_loop-wild c w [] = omega arith
split_loop-wild c w (EnergyType.green ∷ es) =
    omega (arith, split_loop-wild (increment c EnergyType.green) w es)
split_loop-wild c w (EnergyType.red ∷ es) =
    omega (arith, split_loop-wild (increment c EnergyType.red) w es)
split_loop-wild c w (EnergyType.blue ∷ es) =
    omega (arith, split_loop-wild (increment c EnergyType.blue) w es)
split_loop-wild c w (EnergyType.white ∷ es) =
    omega (arith, split_loop-wild (increment c EnergyType.white) w es)
split_loop-wild c w (EnergyType.black ∷ es) = omega (arith, split_loop-wild c (w + 1) es)

-- A cost is split into its core energies and the number of its black ones.
pub split_cost-count :
    (cost : List EnergyType) (k : EnergyType)
    → ((split_cost cost).0 k ≡ (if energy_eq k EnergyType.black then 0 else count k cost))
      × ((split_cost cost).1 ≡ count EnergyType.black cost)
unfolding split_cost
split_cost-count cost k = (
  split_loop-specific empty_counter 0 cost k ∙ zero-add _,
  split_loop-wild empty_counter 0 cost ∙ zero-add _,
)
