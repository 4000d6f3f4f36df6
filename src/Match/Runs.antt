-- ===== src/Match/Runs.antt =====
-- The operations on one match as steps of the manager, jjk_arena/battle_v2/manager.py. A queue is
-- confirmed with any resolution of its skills at all; `cpu_turn` is not among the steps.
use fantasy_draft.Base.{ℕ, ◌≡◌, ◌≤◌, Bool, false, Option, none, some, List, []}
use fantasy_draft.Dict.{Dict}
use fantasy_draft.Result.{Result, ok}
use fantasy_draft.Models.{EnergyType, PendingAction, BattleState}
use fantasy_draft.Queue.{Skills}
use fantasy_draft.Match.{MatchState, Live}
use fantasy_draft.Match.Finish.{is_finished}
use fantasy_draft.Match.Presence.{
  used_by, max_budget, disconnect_player, reconnect_player, expire_disconnects,
}
use fantasy_draft.Match.Phases.{Setting, expire_phase}
use fantasy_draft.Match.Commands.{
  surrender, cancel_queue, end_turn, confirm_turn, convert_energy, submit_plan, update_queue,
}

abbrev with_state : MatchState → Live → Live
with_state state live = record live { state = state }

pub data MatchStep : Live → Live → Type 0 where
  disconnects :
      {live : Live} (player_id now : ℕ)
      → MatchStep live (record live { state = disconnect_player player_id now live.state })
  reconnects :
      {live : Live} {state : MatchState} (player_id now : ℕ)
      → reconnect_player player_id now live.state ≡ ok state
      → MatchStep live (record live { state = state })
  expires_away : {live : Live} (now : ℕ) → MatchStep live (expire_disconnects now live).0
  expires_phase :
      {live : Live} {ran : Live × Bool} (setting : Setting)
      → expire_phase setting live ≡ ok ran
      → MatchStep live ran.0
  surrenders :
      {live after : Live} (player_id : ℕ)
      → surrender player_id live ≡ ok after
      → MatchStep live after
  ends_turn :
      {live after : Live} (setting : Setting) (player_id : ℕ)
      → end_turn setting player_id live ≡ ok after
      → MatchStep live after
  confirms :
      {live after : Live} (resolve : BattleState → ℕ → Skills → Result BattleState)
      (setting : Setting) (player_id : ℕ) (skills : Skills)
      → confirm_turn resolve setting player_id skills live ≡ ok after
      → MatchStep live after
  cancels :
      {live : Live} {state : MatchState} (player_id : ℕ)
      → cancel_queue player_id live.state ≡ ok state
      → MatchStep live (record live { state = state })
  converts :
      {live : Live} {state : MatchState} (player_id : ℕ) (sources : List (Option EnergyType))
      (target : Option EnergyType)
      → convert_energy player_id sources target live.state ≡ ok state
      → MatchStep live (record live { state = state })
  submits :
      {live : Live} (player_id : ℕ) (parsed : List PendingAction) (skills : Skills)
      → MatchStep live (record live { state = (submit_plan player_id parsed skills live.state).0 })
  updates :
      {live : Live} (player_id : ℕ) (order : List ℕ) (pays : Dict (List (Option EnergyType)))
      (skills : Skills)
      → MatchStep live
          (record live { state = (update_queue player_id order pays skills live.state).0 })

-- A match as `start_classic_match` leaves it, as far as the steps' invariants ask for it.
pub record IsFresh (room : ℕ) (live : Live) : Type 0 where
  pub named : live.state.room_id ≡ some room
  pub unfinished : is_finished live.state ≡ false
  pub no_result : live.state.result_type ≡ none
  pub unpaused : live.state.paused ≡ false
  pub no_pause : live.state.paused_phase ≡ none
  pub within : (id : ℕ) → used_by id live.state ≤ max_budget
  pub all_here : live.state.disconnected_at ≡ []
  pub no_deadlines : live.state.disconnect_deadlines ≡ []
  pub no_queue : live.callbacks.pending ≡ none
  pub unpublished : live.callbacks.published ≡ []
  pub turns : live.state.player_turns_completed ≡ 0
  pub no_progress : live.state.no_progress_turns ≡ 0

-- A match that steps have brought from its start to where it stands.
pub data Played (room : ℕ) : Live → Type 0 where
  begins : {live : Live} → IsFresh room live → Played room live
  goes_on : {live after : Live} → Played room live → MatchStep live after → Played room after
