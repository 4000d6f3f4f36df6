-- ===== src/Match/Returning.antt =====
-- A player that leaves and comes back in time, `disconnect_player` and `reconnect_player` of
-- jjk_arena/battle_v2/manager.py.
use fantasy_draft.Base.{
  ℕ, ◌+◌, ◌-◌, ◌*◌, ◌/◌, ◌≤◌, ◌<◌, ◌≡◌, ◌≢◌, refl, true, false, ◌==◌, ==_refl, leb, none, some, [],
  arith,
}
use fantasy_draft.Dict.{lookup, insert, erase, lookup-insert}
use fantasy_draft.Result.{ok}
use fantasy_draft.Timers.{phase_seconds_remaining}
use fantasy_draft.Match.{MatchState}
use fantasy_draft.Match.Finish.{is_finished}
use fantasy_draft.Match.Presence.{
  max_budget, grace, min, used_by, mark_away, pause, is_player, is_away, disconnect_player, charge,
  resumed_seconds, resume, mark_back, reconnect_player,
}

-- What a short absence of the only absent player leaves behind.
pub record CameBack (player_id now later : ℕ) (before after : MatchState) : Type 0 where
  pub same_battle : after.battle ≡ before.battle
  pub unpaused : after.paused ≡ false
  pub all_here : after.disconnected_at ≡ []
  pub no_deadlines : after.disconnect_deadlines ≡ []
  pub charged : used_by player_id after ≡ used_by player_id before + (later - now) / 1000
  pub others_used : (id : ℕ) → id ≢ player_id → used_by id after ≡ used_by id before
  pub deadline :
      after.phase_deadline
      ≡ some (later + resumed_seconds (phase_seconds_remaining before.phase_deadline now) * 1000)

erase_only : {V : Type 0} (k : ℕ) (v : V) → erase k (insert k v []) ≡ []
unfolding insert erase
erase_only k v = rw (==_refl k) refl

lookup_only : {V : Type 0} (k : ℕ) (v : V) → lookup k (insert k v []) ≡ some v
unfolding insert lookup
lookup_only k v = rw (==_refl k) refl

module _ (player_id now later : ℕ) (state : MatchState) (going : is_finished state ≡ false)
    (unpaused : state.paused ≡ false) (plays : is_player player_id state ≡ true)
    (all_here : state.disconnected_at ≡ []) (no_deadlines : state.disconnect_deadlines ≡ []) where
  -- The player's deadline.
  abbrev due : ℕ
  due = now + min grace (max_budget - used_by player_id state) * 1000

  abbrev left : MatchState
  left = record state {
    disconnected_at = insert player_id now [];
    disconnect_deadlines = insert player_id due [];
    paused = true;
    paused_phase = some state.battle.phase;
    paused_seconds_remaining = phase_seconds_remaining state.phase_deadline now;
    phase_deadline = none;
  }

  leaves : disconnect_player player_id now state ≡ left
  unfolding disconnect_player is_away lookup mark_away pause
  leaves =
      rw
        (
          disconnect_player, is_away, lookup, mark_away, pause, going, plays, all_here,
          no_deadlines, unpaused,
        )
        refl

  abbrev returned : MatchState
  returned = record state {
    disconnected_at = [];
    disconnect_deadlines = [];
    disconnect_seconds_used =
        insert player_id (min max_budget (used_by player_id state + (later - now) / 1000))
          state.disconnect_seconds_used;
    paused = false;
    paused_phase = none;
    paused_seconds_remaining = none;
    phase_deadline =
        some (later + resumed_seconds (phase_seconds_remaining state.phase_deadline now) * 1000);
  }

  comes : later < due → reconnect_player player_id later left ≡ ok returned
  unfolding reconnect_player mark_back charge resume
  comes in_time =
      let early : leb due later ≡ false = ground arith in
      rw
        (
          reconnect_player,
          going,
          lookup_only player_id now,
          lookup_only player_id due,
          early,
          erase_only player_id now,
          erase_only player_id due,
        )
        refl

  came_back : now ≤ later → later < due → CameBack player_id now later state returned
  came_back after in_time = record {
    same_battle = refl;
    unpaused = refl;
    all_here = refl;
    no_deadlines = refl;
    charged =
        rw (lookup-insert player_id player_id _ state.disconnect_seconds_used, ==_refl player_id)
          (ground arith);
    others_used = λ id other.
        rw
          (
            lookup-insert player_id id _ state.disconnect_seconds_used,
            (let e : (player_id == id) ≡ false = ground arith in e),
          )
          refl;
    deadline = refl;
  }

  -- In a match that goes on and is not paused, with nobody away, a player leaves and comes back
  -- before its deadline (90 seconds later, or when its budget of 180 seconds is used up): the return
  -- is accepted, the battle stands as it was and goes on unpaused, exactly the seconds of the absence
  -- are charged to that player, and the phase's timer starts again with the seconds that it had left,
  -- but with 15 at least.
  pub reconnect-disconnect :
      now ≤ later
      → later < due
      → (after : MatchState) × (reconnect_player player_id later
            (disconnect_player player_id now state)
          ≡ ok after)
        × CameBack player_id now later state after
  reconnect-disconnect after in_time =
      (returned, rw leaves (comes in_time), came_back after in_time)
