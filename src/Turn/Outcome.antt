-- ===== src/Turn/Outcome.antt =====
-- The winner of a battle, `check_winner` of jjk_arena/battle_v2/resolver.py.
use fantasy_draft.Base.{ℕ, ◌≡◌, refl, true, false, none, some, List, [], ◌∷◌}
use fantasy_draft.Dict.{Dict}
use fantasy_draft.Models.{BattlePhase, PlayerState, BattleState}
use fantasy_draft.Turn.Expiry.{log_event}
use fantasy_draft.Turn.Winner.{has_living, alive_players, end_battle, draw, decide, check_winner}

draw-players :
    (players : Dict PlayerState) (state : BattleState)
    → (draw players state).players ≡ state.players
unfolding draw end_battle log_event
draw-players [] state = refl
draw-players (p ∷ ps) state = refl

pub decide-players :
    (state : BattleState) (alive : List ℕ) → (decide state alive).players ≡ state.players
unfolding decide end_battle log_event
decide-players state [] = draw-players state.players state
decide-players state (id ∷ []) = refl
decide-players state (id ∷ other ∷ rest) = refl

-- In a battle of two players with someone left on both sides nothing happens; with someone left on
-- one side only, that player wins and the battle is finished; with nobody left on either side the
-- battle is finished as a draw. The players are left as they are.
pub check_winner_lem :
    (state : BattleState) (a b : ℕ) (p q : PlayerState)
    → state.players ≡ (a, p) ∷ (b, q) ∷ []
    → let after = check_winner state in
      (has_living p ≡ true → has_living q ≡ true → after ≡ state)
      × (has_living p ≡ true
          → has_living q ≡ false
          → (after.winner_id ≡ some a) × (after.phase ≡ BattlePhase.finished))
      × (has_living p ≡ false
          → has_living q ≡ true
          → (after.winner_id ≡ some b) × (after.phase ≡ BattlePhase.finished))
      × (has_living p ≡ false
          → has_living q ≡ false
          → (after.winner_id ≡ none) × (after.phase ≡ BattlePhase.finished))
      × (after.players ≡ state.players)
unfolding check_winner decide draw end_battle log_event alive_players
check_winner_lem state a b p q e = rw e (
  λ f g. rw (f, g) refl,
  λ f g. rw (f, g) (refl, refl),
  λ f g. rw (f, g) (refl, refl),
  λ f g. rw (f, g) (refl, refl),
  decide-players (record state { players = (a, p) ∷ (b, q) ∷ [] })
      (alive_players ((a, p) ∷ (b, q) ∷ [])),
)
