-- ===== src/Match/Presence.antt =====
-- Players that lose their connection, `disconnect_player`, `reconnect_player` and
-- `expire_disconnects` of jjk_arena/battle_v2/manager.py. `now` is the reading of the clock.
use fantasy_draft.Base.{
  ℕ, ◌+◌, ◌-◌, ◌*◌, ◌/◌, Bool, true, false, not, ◌||◌, Option, none, some, List, [], ◌∷◌,
  if◌then◌else◌, ◌==◌, leb, any, contains, length, is_some, get_or,
}
use fantasy_draft.Dict.{Dict, lookup, insert, erase}
use fantasy_draft.Result.{Result, ok, err, reconnect_rejected, grace_expired}
use fantasy_draft.Models.{EventType}
use fantasy_draft.Timers.{phase_seconds_remaining}
use fantasy_draft.Turn.{player_ids}
use fantasy_draft.Match.{ResultType, FinishReason, MatchState, Live}
use fantasy_draft.Match.Finish.{is_finished, finish_match, defer_finished_callbacks}

abbrev pub max_budget : ℕ
max_budget = 180

abbrev pub grace : ℕ
grace = 90

abbrev pub min : ℕ → ℕ → ℕ
min a b = if leb a b then a else b

abbrev pub max : ℕ → ℕ → ℕ
max a b = if leb a b then b else a

abbrev pub is_empty {ℓ} : {A : Type ℓ} → List A → Bool
is_empty [] = true
is_empty (x ∷ xs) = false

-- `disconnect_seconds_used.get(player_id, 0)`
abbrev pub used_by : ℕ → MatchState → ℕ
used_by player_id state = get_or (lookup player_id state.disconnect_seconds_used) 0

unfoldable pub pause : ℕ → MatchState → MatchState
pause now state = if state.paused then state else record state {
  paused = true;
  paused_phase = some state.battle.phase;
  paused_seconds_remaining = phase_seconds_remaining state.phase_deadline now;
  phase_deadline = none;
}

-- A player's absence begins, with what is left of its budget, at most the grace.
unfoldable pub mark_away : ℕ → ℕ → MatchState → MatchState
mark_away player_id now state = record state {
  disconnected_at = insert player_id now state.disconnected_at;
  disconnect_deadlines =
      insert player_id (now + min grace (max_budget - used_by player_id state) * 1000)
        state.disconnect_deadlines;
}

unfoldable pub is_player : ℕ → MatchState → Bool
is_player player_id state = is_some (lookup player_id state.battle.players)

unfoldable pub is_away : ℕ → MatchState → Bool
is_away player_id state = is_some (lookup player_id state.disconnected_at)

unfoldable pub disconnect_player : ℕ → ℕ → MatchState → MatchState
unfolding pause mark_away is_player is_away
disconnect_player player_id now state =
    if is_finished state || not (is_player player_id state) || is_away player_id state
    then state
    else pause now (mark_away player_id now state)

-- `min(180, used + max(0, int(now - started)))`
unfoldable pub charge : ℕ → ℕ → ℕ → MatchState → MatchState
charge player_id started now state = record state {
  disconnect_seconds_used =
      insert player_id (min max_budget (used_by player_id state + (now - started) / 1000))
        state.disconnect_seconds_used;
}

-- `max(15, int(paused_seconds_remaining or 0))`
unfoldable pub resumed_seconds : Option ℕ → ℕ
resumed_seconds remaining = max 15 (get_or remaining 0)

unfoldable pub resume : ℕ → MatchState → MatchState
unfolding resumed_seconds
resume now state = record state {
  paused = false;
  battle = record state.battle { phase = get_or state.paused_phase state.battle.phase };
  paused_phase = none;
  paused_seconds_remaining = none;
  phase_deadline = some (now + resumed_seconds state.paused_seconds_remaining * 1000);
}

unfoldable pub mark_back : ℕ → ℕ → ℕ → MatchState → MatchState
unfolding charge
mark_back player_id started now state = charge player_id started now (record state {
  disconnected_at = erase player_id state.disconnected_at;
  disconnect_deadlines = erase player_id state.disconnect_deadlines;
})

unfoldable pub reconnect_player : ℕ → ℕ → MatchState → Result MatchState
unfolding resume mark_back
reconnect_player player_id now state = elim (is_finished state) [
  | true ↦ err reconnect_rejected
  | false ↦ elim (lookup player_id state.disconnected_at) [
    | none ↦ err reconnect_rejected
    | some started ↦ elim (leb (get_or (lookup player_id state.disconnect_deadlines) now) now) [
      | true ↦ err grace_expired
      | false ↦
          let back = mark_back player_id started now state in
          ok (if is_empty back.disconnected_at then resume now back else back)
    ]
  ]
]

-- The players whose deadline has come.
unfoldable pub expired_ids : ℕ → Dict ℕ → List ℕ
expired_ids now [] = []
expired_ids now ((id, deadline) ∷ rest) =
    let others = expired_ids now rest in if leb deadline now then id ∷ others else others

unfoldable pub charge_all : ℕ → List ℕ → MatchState → MatchState
unfolding charge
charge_all now [] state = state
charge_all now (id ∷ ids) state =
    charge_all now ids (charge id (get_or (lookup id state.disconnected_at) now) now state)

-- `connected[0]`, if there is one: neither expired nor away.
unfoldable pub first_connected : List ℕ → Dict ℕ → List ℕ → Option ℕ
first_connected expired away [] = none
first_connected expired away (id ∷ ids) =
    let rest = first_connected expired away ids in
    if contains expired id || is_some (lookup id away) then rest else some id

unfoldable pub expiry_reason : List ℕ → MatchState → FinishReason
expiry_reason expired state =
    if any (λ id. leb max_budget (used_by id state)) expired
    then FinishReason.disconnect_budget
    else FinishReason.disconnect

unfoldable pub end_absence : List ℕ → Live → Live
unfolding first_connected expiry_reason
end_absence expired live =
    elim (first_connected expired live.state.disconnected_at (player_ids live.state.battle)) [
      | some id ↦
          finish_match ResultType.forfeit (some id) (expiry_reason expired live.state)
            EventType.forfeit live
      | none ↦
          if length expired == length live.state.battle.players
          then finish_match ResultType.no_contest none FinishReason.disconnect EventType.no_contest
              live
          else live
    ]

unfoldable pub expire_away : ℕ → Live → Live × Bool
unfolding end_absence charge_all
expire_away now live =
    if is_finished live.state
    then (live, false)
    else let expired = expired_ids now live.state.disconnect_deadlines in
      if is_empty expired
      then (live, false)
      else (end_absence expired (record live { state = charge_all now expired live.state }), true)

-- The match after the pass, and whether a deadline had come.
unfoldable pub expire_disconnects : ℕ → Live → Live × Bool
unfolding expire_away defer_finished_callbacks
expire_disconnects now live = (
  (defer_finished_callbacks (λ l. ((expire_away now l).0, none)) live).0,
  (expire_away now live).1,
)
