-- ===== src/Turn/Winner.antt =====
-- Who has won, `check_winner` of jjk_arena/battle_v2/resolver.py.
use fantasy_draft.Base.{ℕ, Bool, Option, none, some, List, [], ◌∷◌, if◌then◌else◌, any}
use fantasy_draft.Dict.{Dict}
use fantasy_draft.Models.{BattlePhase, PlayerState, EventType, BattleState}
use fantasy_draft.Energy.{is_living}
use fantasy_draft.Turn.Expiry.{plain_event, log_event}

unfoldable pub has_living : PlayerState → Bool
has_living player = any (is_living player.team) player.active_slots

unfoldable pub alive_players : Dict PlayerState → List ℕ
alive_players [] = []
alive_players ((id, player) ∷ rest) =
    let others = alive_players rest in if has_living player then id ∷ others else others

unfoldable pub end_battle : BattleState → Option ℕ → BattleState
end_battle state winner_id =
    log_event (record state { winner_id = winner_id; phase = BattlePhase.finished })
      (record (plain_event EventType.battle_finished state) { subject = winner_id })

-- With nobody left the battle is a draw, if there are players at all.
unfoldable pub draw : Dict PlayerState → BattleState → BattleState
draw [] state = state
draw (p ∷ ps) state = end_battle state none

unfoldable pub decide : BattleState → List ℕ → BattleState
decide state [] = draw state.players state
decide state (id ∷ []) = end_battle state (some id)
decide state (id ∷ other ∷ rest) = state

unfoldable pub check_winner : BattleState → BattleState
check_winner state = decide state (alive_players state.players)
