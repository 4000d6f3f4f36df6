-- ===== src/Examples/Turns.antt =====
-- The end of a turn and the winner of the small battle.
use fantasy_draft.Base.{ℕ, zero, suc, ◌≡◌, ◌≤◌, refl, true, false, none, some, List, [], ◌∷◌, arith}
use fantasy_draft.Models.{BattlePhase, EnergyType}
use fantasy_draft.Energy.Counting.{count}
use fantasy_draft.Invariant.{IsSoundState}
use fantasy_draft.Turn.{World, finish_turn, check_winner, has_living}
use fantasy_draft.Turn.Soundness.{IsSampler, finish_turn-IsSoundState}
use fantasy_draft.Turn.Outcome.{check_winner_lem}
use fantasy_draft.Examples.Samples.{attacker, defender, battle}

-- A generator that draws from the front of the population.
abbrev take_first : ℕ → List EnergyType → List EnergyType
take_first zero l = []
take_first (suc n) [] = []
take_first (suc n) (e ∷ l) = e ∷ take_first n l

abbrev pub front_world : World
front_world = record { sample = λ s turn population n. take_first n population; guard_id = λ n. n }

take_first-count :
    (n : ℕ) (l : List EnergyType) (k : EnergyType) → count k (take_first n l) ≤ count k l
unfolding count
take_first-count zero [] k = omega arith
take_first-count zero (e ∷ l) k = omega arith
take_first-count (suc n) [] k = omega arith
take_first-count (suc n) (e ∷ l) k = ground (arith, take_first-count n l k)

pub front_world-IsSampler : IsSampler front_world
front_world-IsSampler = record { once = λ s turn population n k. take_first-count n population k }

pub battle-IsSoundState : IsSoundState battle
battle-IsSoundState = record {
  all_players = (
    record {
      team = (
        record {
          hp_nonneg = omega arith;
          hp_le_max = omega arith;
          living = λ _. omega arith;
          dead = λ e. absurd cc;
        },
        (
          record {
            hp_nonneg = omega arith;
            hp_le_max = omega arith;
            living = λ e. absurd cc;
            dead = λ _. refl;
          },
          tt,
        ),
      );
      no_debt = λ k. omega arith;
    },
    (
      record {
        team = (
          record {
            hp_nonneg = omega arith;
            hp_le_max = omega arith;
            living = λ _. omega arith;
            dead = λ e. absurd cc;
          },
          tt,
        );
        no_debt = λ k. omega arith;
      },
      tt,
    ),
  );
}

finish_turn-IsSoundState_example : IsSoundState (finish_turn front_world battle 1)
finish_turn-IsSoundState_example =
    finish_turn-IsSoundState front_world front_world-IsSampler battle 1 battle-IsSoundState

check_winner_lem_example :
    let after = check_winner battle in
    (has_living attacker ≡ true → has_living defender ≡ true → after ≡ battle)
    × (has_living attacker ≡ true
        → has_living defender ≡ false
        → (after.winner_id ≡ some 1) × (after.phase ≡ BattlePhase.finished))
    × (has_living attacker ≡ false
        → has_living defender ≡ true
        → (after.winner_id ≡ some 2) × (after.phase ≡ BattlePhase.finished))
    × (has_living attacker ≡ false
        → has_living defender ≡ false
        → (after.winner_id ≡ none) × (after.phase ≡ BattlePhase.finished))
    × (after.players ≡ battle.players)
check_winner_lem_example = check_winner_lem battle 1 2 attacker defender refl
