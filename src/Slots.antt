-- ===== src/Slots.antt =====
-- Slots: Python's lists indexed by integers, sets of slots, and the characters of a state.
pub mod Writing
use fantasy_draft.Base.{
  ℕ, suc, ◌-◌, Bool, true, not, ◌&&◌, Option, none, some, List, [], ◌∷◌, if◌then◌else◌, any, all,
  length, get_elem?, set, leb,
}
use fantasy_draft.Int.{ℤ, pos, negsuc, eqb_ℤ}
use fantasy_draft.Dict.{lookup, insert}
use fantasy_draft.Models.{CharacterState, BattleState}

-- The position that `xs[i]` names: a negative index counts from the end.
unfoldable pub position : ℕ → ℤ → Option ℕ
position n (pos i) = some i
position n (negsuc i) = if leb (suc i) n then some (n - suc i) else none

-- `xs[i]`
unfoldable pub get_at : List CharacterState → ℤ → Option CharacterState
unfolding position
get_at xs i = elim (position (length xs) i) [ none ↦ none | some n ↦ get_elem? xs n ]

-- `xs[i] = c`, where `xs[i]` is there.
unfoldable pub set_at : List CharacterState → ℤ → CharacterState → List CharacterState
unfolding position
set_at xs i c = elim (position (length xs) i) [ none ↦ xs | some n ↦ set xs n c ]

-- `slot in slots`
abbrev pub has_slot : List ℤ → ℤ → Bool
has_slot slots slot = any (λ s. eqb_ℤ s slot) slots

-- `len(slots) == len(set(slots))`
abbrev pub are_distinct : List ℤ → Bool
are_distinct [] = true
are_distinct (s ∷ slots) = not (has_slot slots s) && are_distinct slots

-- `set(a) == set(b)`
abbrev pub same_slots : List ℤ → List ℤ → Bool
same_slots a b = all (has_slot b) a && all (has_slot a) b

-- `state.players[player_id].team[slot]`
unfoldable pub character_at : BattleState → ℕ → ℤ → Option CharacterState
unfolding get_at
character_at state player_id slot = elim (lookup player_id state.players) [
  | none ↦ none
  | some player ↦ get_at player.team slot
]

-- The state after the object `state.players[player_id].team[slot]` has become `c`.
unfoldable pub with_character : BattleState → ℕ → ℤ → CharacterState → BattleState
unfolding set_at
with_character state player_id slot c = elim (lookup player_id state.players) [
  | none ↦ state
  | some player ↦ record state {
    players = insert player_id (record player { team = set_at player.team slot c }) state.players;
  }
]
