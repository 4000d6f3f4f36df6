-- ===== src/Match.antt =====
-- A match in the charge of the manager, jjk_arena/battle_v2/manager.py: the state with what only the
-- manager keeps in it, and the callbacks for finished matches. The operations and the proofs stand
-- in the children.
pub mod Finish
pub mod Ledger
pub mod Presence
pub mod Phases
pub mod Commands
pub mod Runs
pub mod Ending
pub mod Final
pub mod Pausing
pub mod Absences
pub mod Closing
pub mod Orderly
pub mod Returning
pub mod Limits
pub mod Tiebreak
pub mod Converting
pub mod Soundness
use fantasy_draft.Base.{ℕ, Bool, Option, List}
use fantasy_draft.Int.{ℤ}
use fantasy_draft.Dict.{Dict}
use fantasy_draft.Models.{BattlePhase, BattleState}

pub data ResultType : Type 0 where
  win draw forfeit no_contest : ResultType

pub data FinishReason : Type 0 where
  defeat surrender timeout disconnect disconnect_budget hard_cap no_progress : FinishReason

-- The fields of the class `BattleState` that the manager keeps; the record of Models has the others.
-- Clock readings and deadlines are in milliseconds, all that is named seconds is in seconds.
pub record MatchState : Type 0 where
  pub battle : BattleState
  pub room_id : Option ℕ
  pub result_type : Option ResultType
  pub finish_reason : Option FinishReason
  pub paused : Bool
  pub paused_phase : Option BattlePhase
  pub paused_seconds_remaining : Option ℕ
  pub phase_deadline : Option ℕ
  pub disconnected_at : Dict ℕ
  pub disconnect_deadlines : Dict ℕ
  pub disconnect_seconds_used : Dict ℕ
  pub timeout_total : Dict ℕ
  pub timeout_consecutive : Dict ℕ
  pub damage_to_hp : Dict ℤ
  pub no_progress_turns : ℕ
  pub player_turns_completed : ℕ
  pub progress_event_cursor : ℕ
  pub logical_time : ℕ
  pub state_revision : ℕ

-- The thread's queue of finished rooms, if a block has opened one, and the rooms for which
-- `on_match_finished` has been called.
pub record Callbacks : Type 0 where
  pub pending : Option (List ℕ)
  pub published : List ℕ

pub record Live : Type 0 where
  pub state : MatchState
  pub callbacks : Callbacks
