-- ===== src/Transactions/Rollback.antt =====
-- A command that fails changes nothing, `_execute_player_command` of
-- jjk_arena/battle_v2/manager.py.
use fantasy_draft.Base.{
  ◌+◌, ℕ, ◌≡◌, refl, ap, inl, inr, Bool, true, false, not, ◌&&◌, ◌==◌, leb, Option, none, some,
  List, is_some, Option-cases,
}
use fantasy_draft.Dict.{lookup}
use fantasy_draft.Result.{
  Error, Result, ok, err, ◌>>=◌, Yields, Yields-bind, Yields-ok, Result-cases, result_keeps,
  raise_if, or_raise, unknown_player, no_opponent, match_finished, lookup_error,
}
use fantasy_draft.Invariant.{if_keeps, bool_keeps, maybe_keeps}
use fantasy_draft.Models.{EventType, BattleState}
use fantasy_draft.Queue.{Skills}
use fantasy_draft.Turn.{player_ids}
use fantasy_draft.Match.{ResultType, FinishReason, MatchState, Callbacks, Live}
use fantasy_draft.Match.Finish.{
  is_finished, is_settled, announce, finish_match, finished_state, open_queue, close_queue, Body,
  completed, defer_finished_callbacks, finish_by_tiebreak, tiebreak_winner,
}
use fantasy_draft.Match.Ledger.{
  max_turns, opponent_of, record_defeat, has_timed_out, count_turn, count_timeout,
  capture_turn_ledger, apply_limits, counted, complete_player_turn,
}
use fantasy_draft.Match.Presence.{is_player}
use fantasy_draft.Match.Phases.{
  Setting, ensure_turn_player, time_out, has_run_out, expire_body, expire_phase, expiry_left,
  timed_out,
}
use fantasy_draft.Match.Commands
use fantasy_draft.Match.Commands.{confirm_turn}
use fantasy_draft.Transactions.{
  Command, Request, ReplayEntry, Room, Outside, attempt, leaving, on_state, after_expiry, dispatch,
  advance, conclude, transact, execute_new, execute_known, execute_expired, check_nonce,
  execute_player_command, receipts_of, check_request,
}

-- A queue is open, and nothing was published but `before`.
abbrev pub IsHeld : List ℕ → Callbacks → Type 0
IsHeld before callbacks = (is_some callbacks.pending ≡ true) × (callbacks.published ≡ before)

module _ (before : List ℕ) where
  abbrev Held : Live → Type 0
  Held live = IsHeld before live.callbacks

  announce-IsHeld :
      (room : Option ℕ) (callbacks : Callbacks)
      → IsHeld before callbacks
      → IsHeld before (announce room callbacks)
  unfolding announce
  announce-IsHeld none callbacks h = h
  announce-IsHeld (some room) callbacks h = elim (Option-cases callbacks.pending) [
    | inl no_queue ↦ absurd (let e = (rw no_queue at h.0) in cc)
    | inr (queue, there) ↦ rw there (refl, h.1)
  ]

  finish_match-Held :
      (result : ResultType) (winner : Option ℕ) (reason : FinishReason) (type : EventType)
      (live : Live)
      → Held live
      → Held (finish_match result winner reason type live)
  unfolding finish_match
  finish_match-Held result winner reason type live h =
      if_keeps Held (is_settled live.state) (λ _. h)
        (λ _. announce-IsHeld live.state.room_id live.callbacks h)

  apply_limits-Held :
      (player_id : ℕ) (timeout : Bool) (live : Live)
      → Held live
      → Yields Held (apply_limits player_id timeout live)
  unfolding apply_limits finish_by_tiebreak
  apply_limits-Held player_id timeout live h =
      bool_keeps (Yields Held) (timeout && has_timed_out player_id live.state)
        (λ _. finish_match-Held _ _ _ _ live h)
        λ _.
          bool_keeps (Yields Held) (leb max_turns live.state.player_turns_completed)
            (λ _.
              Yields-bind Held (tiebreak_winner live.state) _
                λ w _. finish_match-Held _ _ _ _ live h)
            λ _.
              bool_keeps (Yields Held) (leb 12 live.state.no_progress_turns)
                (λ _.
                  Yields-bind Held (tiebreak_winner live.state) _
                    λ w _. finish_match-Held _ _ _ _ live h)
                λ _. if_keeps Held (live.state.no_progress_turns == 8) (λ _. h) (λ _. h)

  counted-Held :
      (player_id : ℕ) (timeout : Bool) (live : Live)
      → Held live
      → Held (counted player_id timeout live)
  unfolding record_defeat
  counted-Held player_id timeout live h =
      if_keeps Held (is_finished live.state && not (is_settled live.state))
        (λ _. finish_match-Held _ _ _ _ _ h) (λ _. h)

  complete_player_turn-Held :
      (player_id : ℕ) (timeout : Bool) (live : Live)
      → Held live
      → Yields Held (complete_player_turn player_id timeout live)
  unfolding complete_player_turn
  complete_player_turn-Held player_id timeout live h =
      apply_limits-Held player_id timeout (counted player_id timeout live)
        (counted-Held player_id timeout live h)

  completed-Held :
      (player_id : ℕ) (timeout : Bool) (live : Live) (next : Live → MatchState)
      → Held live
      → Yields Held (
          complete_player_turn player_id timeout live >>= λ completed.
          ok (record completed { state = next completed }))
  completed-Held player_id timeout live next h =
      Yields-bind Held (complete_player_turn player_id timeout live) _
        λ after e. Yields-ok Held (complete_player_turn-Held player_id timeout live h) e

  close_queue-IsHeld :
      (outer callbacks : Callbacks) (done : Bool)
      → IsHeld before outer
      → IsHeld before callbacks
      → IsHeld before (close_queue outer.pending done callbacks)
  unfolding close_queue
  close_queue-IsHeld outer callbacks done h g = elim (Option-cases outer.pending) [
    | inl no_queue ↦ absurd (let e = (rw no_queue at h.0) in cc)
    | inr (queue, there) ↦ rw there g
  ]

  expire_phase-Held :
      (setting : Setting) (live : Live)
      → Held live
      → Yields (λ ran. Held ran.0) (expire_phase setting live)
  unfolding expire_phase expire_body time_out open_queue
  expire_phase-Held setting live h =
      let opened : Live = record live { callbacks = open_queue live.callbacks } in
      let body : Yields (λ (ran : Live × Bool). Held ran.0) (expire_body setting opened) =
        bool_keeps (Yields (λ (ran : Live × Bool). Held ran.0)) (has_run_out setting opened.state)
          (λ _.
            Yields-bind (λ (ran : Live × Bool). Held ran.0) (time_out setting opened) _
              λ after e. Yields-ok Held (completed-Held _ true _ _ (refl, h.1)) e)
          (λ _. (refl, h.1)) in
      Yields-bind (λ ran. Held ran.0) (expire_body setting opened) _
        λ ran e.
          close_queue-IsHeld live.callbacks ran.0.callbacks true h
            (Yields-ok (λ (ran : Live × Bool). Held ran.0) body e)

  expiry_left-Held : (setting : Setting) (live : Live) → Held live → Held (expiry_left setting live)
  unfolding expiry_left open_queue
  expiry_left-Held setting live h = close_queue-IsHeld live.callbacks _ false h (
      counted-Held live.state.battle.turn_player_id true
        (timed_out setting (record live { callbacks = open_queue live.callbacks })) (refl, h.1))

  -- A body publishes nothing itself.
  abbrev IsQuiet : Body → Type 0
  IsQuiet body = (live : Live) → Held live → Held (body live).0

  attempt-IsQuiet :
      (run : Live → Result Live)
      → ((live : Live) → Held live → Yields Held (run live))
      → IsQuiet (attempt run)
  attempt-IsQuiet run yields live h = elim (Result-cases (run live)) [
    | inl (after, e) ↦ rw (attempt, e) (Yields-ok Held (yields live h) e)
    | inr (error, e) ↦ rw (attempt, e) h
  ]

  after_expiry-IsQuiet :
      (setting : Setting) (body : Body) → IsQuiet body → IsQuiet (after_expiry setting body)
  unfolding after_expiry
  after_expiry-IsQuiet setting body quiet live h = elim (Result-cases (expire_phase setting live)) [
    | inl (ran, e) ↦
        rw (after_expiry, e)
          (quiet ran.0 (Yields-ok (λ ran. Held ran.0) (expire_phase-Held setting live h) e))
    | inr (error, e) ↦ rw (after_expiry, e) (expiry_left-Held setting live h)
  ]

  module _ (player_id : ℕ) (live : Live) (h : Held live) where
    confirm_turn-Held :
        (resolve : BattleState → ℕ → Skills → Result BattleState) (setting : Setting)
        (skills : Skills)
        → Yields Held (confirm_turn resolve setting player_id skills live)
    unfolding confirm_turn
    confirm_turn-Held resolve setting skills =
        Yields-bind Held (ensure_turn_player player_id live.state) _ λ _ _.
          Yields-bind Held (resolve live.state.battle player_id skills) _
            λ resolved _. completed-Held player_id false _ _ h

    end_turn-Held : (setting : Setting) → Yields Held (Commands.end_turn setting player_id live)
    unfolding Commands.end_turn
    end_turn-Held setting =
        Yields-bind Held (ensure_turn_player player_id live.state) _
          λ _ _. completed-Held player_id false _ _ h

    surrender-Held : Yields Held (Commands.surrender player_id live)
    unfolding Commands.surrender
    surrender-Held =
        Yields-bind Held (raise_if (not (is_player player_id live.state)) unknown_player) _ λ _ _.
          Yields-bind Held
            (or_raise (opponent_of player_id (player_ids live.state.battle)) no_opponent) _
            λ winner _.
              Yields-bind Held (raise_if (is_finished live.state) match_finished) _
                λ _ _. finish_match-Held _ _ _ _ live h

    on_state-Held : (run : MatchState → Result MatchState) → Yields Held (on_state run live)
    on_state-Held run = Yields-bind Held (run live.state) _ λ _ _. h

  -- Nothing that a player commands publishes within the block, if the CPU's turn does not.
  dispatch-IsQuiet :
      (outside : Outside) (setting : Setting) (skills : Skills) (player_id : ℕ) (command : Command)
      → ((live : Live) → Held live → Yields Held (outside.cpu_turn player_id live))
      → IsQuiet (dispatch outside setting skills player_id command)
  unfolding dispatch
  dispatch-IsQuiet outside setting skills player_id (Command.submit_plan parsed) cpu =
      after_expiry-IsQuiet setting (leaving (Commands.submit_plan player_id parsed skills))
        (λ live h. h)
  dispatch-IsQuiet outside setting skills player_id (Command.update_queue order pays) cpu =
      after_expiry-IsQuiet setting (leaving (Commands.update_queue player_id order pays skills))
        (λ live h. h)
  dispatch-IsQuiet outside setting skills player_id Command.confirm_queue cpu =
      let run = confirm_turn outside.resolve setting player_id skills in
      after_expiry-IsQuiet setting (attempt run) (
        attempt-IsQuiet run
          λ live h. confirm_turn-Held player_id live h outside.resolve setting skills)
  dispatch-IsQuiet outside setting skills player_id Command.cancel_queue cpu =
      let run = Commands.cancel_queue player_id in
      after_expiry-IsQuiet setting (attempt (on_state run))
        (attempt-IsQuiet (on_state run) λ live h. on_state-Held player_id live h run)
  dispatch-IsQuiet outside setting skills player_id (Command.convert_energy sources target) cpu =
      let run = Commands.convert_energy player_id sources target in
      after_expiry-IsQuiet setting (attempt (on_state run))
        (attempt-IsQuiet (on_state run) λ live h. on_state-Held player_id live h run)
  dispatch-IsQuiet outside setting skills player_id Command.end_turn cpu =
      let run = Commands.end_turn setting player_id in
      after_expiry-IsQuiet setting (attempt run)
        (attempt-IsQuiet run λ live h. end_turn-Held player_id live h setting)
  dispatch-IsQuiet outside setting skills player_id Command.surrender cpu =
      attempt-IsQuiet (Commands.surrender player_id) λ live h. surrender-Held player_id live h
  dispatch-IsQuiet outside setting skills player_id Command.cpu_turn cpu =
      after_expiry-IsQuiet setting (attempt (outside.cpu_turn player_id))
        (attempt-IsQuiet (outside.cpu_turn player_id) cpu)
  dispatch-IsQuiet outside setting skills player_id Command.other cpu = λ live h. h

  quiet_advance :
      (outside : Outside) (replay : Option (List ReplayEntry)) (ran : Live × Option Error)
      → Held ran.0
      → Held (advance outside replay ran).0
  unfolding advance
  quiet_advance outside replay (live, some e) h = h
  quiet_advance outside none (live, none) h = h
  quiet_advance outside (some commands) (live, none) h =
      maybe_keeps (λ (ran : Live × Option Error). Held ran.0) (outside.state_hash _) h (λ hash _. h)

dropped :
    (outer inner : Callbacks) (o : Option Error) {e : Error}
    → outer.pending ≡ none
    → o ≡ some e
    → inner.published ≡ outer.published
    → close_queue outer.pending (completed o) inner ≡ outer
unfolding close_queue
dropped outer inner o idle raises same =
    rw (idle, raises) (ap (λ l. record outer { pending = none; published = l }) same)

-- A block that raises gives the callbacks back, if its body publishes nothing itself.
failed_block :
    (body : Body) (live : Live) {e : Error}
    → live.callbacks.pending ≡ none
    → IsQuiet live.callbacks.published body
    → (defer_finished_callbacks body live).1 ≡ some e
    → (defer_finished_callbacks body live).0.callbacks ≡ live.callbacks
unfolding defer_finished_callbacks open_queue close_queue
failed_block body live idle quiet raises =
    let opened : Live = record live { callbacks = open_queue live.callbacks } in
    dropped live.callbacks (body opened).0.callbacks (body opened).1 idle raises
      (quiet opened (refl, refl)).1

-- What the code relies on of the CPU's turn: within a block it publishes nothing itself.
pub record IsHushed (outside : Outside) : Type 0 where
  pub cpu :
      (before : List ℕ) (player_id : ℕ) (live : Live)
      → Held before live
      → Yields (Held before) (outside.cpu_turn player_id live)

-- Where a failed command leaves its room: as it was; as the expiry of an overdue phase left it; or,
-- if that expiry raised itself, with the match as the expiry left it, which nothing undoes, and with
-- nothing announced.
pub data IsUndone (setting : Setting) (room : Room) (e : Error) : Room → Type 0 where
  restored : IsUndone setting room e room
  expired :
      (ran : Live × Bool)
      → expire_phase setting room.live ≡ ok ran
      → IsUndone setting room e (record room { live = ran.0 })
  broke_off :
      expire_phase setting room.live ≡ err e
      → (expiry_left setting room.live).callbacks ≡ room.live.callbacks
      → (expiry_left setting room.live).state.player_turns_completed
        ≡ room.live.state.player_turns_completed + 1
      → IsUndone setting room e (record room { live = expiry_left setting room.live })

finish_match-turns :
    (result : ResultType) (winner : Option ℕ) (reason : FinishReason) (type : EventType)
    (live : Live)
    → (finish_match result winner reason type live).state.player_turns_completed
      ≡ live.state.player_turns_completed
unfolding finish_match finished_state
finish_match-turns result winner reason type live =
    if_keeps (λ (x : Live). x.state.player_turns_completed ≡ live.state.player_turns_completed)
      (is_settled live.state) (λ _. refl) (λ _. refl)

-- An expiry that raises has counted its turn.
expiry_left-turns :
    (setting : Setting) (live : Live)
    → (expiry_left setting live).state.player_turns_completed
      ≡ live.state.player_turns_completed + 1
unfolding expiry_left count_turn count_timeout capture_turn_ledger record_defeat
expiry_left-turns setting live =
    let opened : Live = timed_out setting (record live { callbacks = open_queue live.callbacks }) in
    let same : (record_defeat opened).state.player_turns_completed
        ≡ live.state.player_turns_completed =
      if_keeps (λ (x : Live). x.state.player_turns_completed ≡ live.state.player_turns_completed)
        (is_finished opened.state && not (is_settled opened.state))
        (λ _. finish_match-turns _ _ _ _ _) (λ _. refl) in
    ap (λ n. n + 1) same

module _ (outside : Outside) (hushed : IsHushed outside) (setting : Setting) (skills : Skills)
    (request : Request) where
  concluded :
      (room : Room) (left : Live × Option Error) {e : Error}
      → ((error : Error) → left.1 ≡ some error → left.0.callbacks ≡ room.live.callbacks)
      → (conclude outside request room left).1 ≡ err e
      → (conclude outside request room left).0 ≡ room
  unfolding conclude
  concluded room (after, some error) dropped h =
      ap (λ c. record room { live = record room.live { callbacks = c } }) (dropped error refl)
  concluded room (after, none) dropped h = cc

  transact_failed :
      (room : Room) {e : Error}
      → room.live.callbacks.pending ≡ none
      → (transact outside setting skills request room).1 ≡ err e
      → (transact outside setting skills request room).0 ≡ room
  unfolding transact
  transact_failed room idle h =
      let body : Body = λ live.
        advance outside room.replay
          (dispatch outside setting skills request.player_id request.command live) in
      let before = room.live.callbacks.published in
      let quiet : IsQuiet before body = λ live held.
        quiet_advance before outside room.replay
          (dispatch outside setting skills request.player_id request.command live)
          (dispatch-IsQuiet before outside setting skills request.player_id request.command
            (hushed.cpu before request.player_id) live held) in
      concluded room (defer_finished_callbacks body room.live)
        (λ error raises. failed_block body room.live idle quiet raises) h

  -- A call that fails leaves the room as it was.
  abbrev Fails : Room → Room × Result Bool → Type 0
  Fails room left = (e : Error) → left.1 ≡ err e → left.0 ≡ room

  expired_failed :
      (room : Room)
      → room.live.callbacks.pending ≡ none
      → Fails room (execute_expired outside setting skills request room)
  unfolding execute_expired execute_new execute_known
  expired_failed room idle =
      maybe_keeps (Fails room) (lookup request.nonce (receipts_of request room))
        (result_keeps (Fails room) (check_request request room.live.state) (λ error _ e h. refl)
          λ x _ e h. transact_failed room idle h)
        λ previous _.
          if_keeps (Fails room) (previous == outside.fingerprint request.command)
            (λ _ e h. absurd cc) (λ _ e h. refl)

  expire_idle :
      (live : Live)
      → live.callbacks.pending ≡ none
      → Yields (λ ran. ran.0.callbacks.pending ≡ none) (expire_phase setting live)
  unfolding expire_phase close_queue
  expire_idle live idle =
      Yields-bind (λ (ran : Live × Bool). ran.0.callbacks.pending ≡ none)
        (expire_body setting (record live { callbacks = open_queue live.callbacks })) _
        λ ran e. rw idle refl

  -- An expiry that raises announces nothing.
  expiry_left-callbacks :
      (live : Live)
      → live.callbacks.pending ≡ none
      → (expiry_left setting live).callbacks ≡ live.callbacks
  unfolding expiry_left open_queue
  expiry_left-callbacks live idle =
      let opened : Live = record live { callbacks = open_queue live.callbacks } in
      let held : Held live.callbacks.published
          (counted live.state.battle.turn_player_id true (timed_out setting opened)) =
        counted-Held live.callbacks.published live.state.battle.turn_player_id true
          (timed_out setting opened) (refl, refl) in
      dropped live.callbacks _ (some lookup_error) idle refl held.1

  -- Whatever a command does before it raises (a guard, an error in the middle of a queue, a hash that
  -- cannot be computed), the state, the replay, the receipts and the callbacks stand afterwards as
  -- they stood before the call, or as the expiry of an overdue phase at its start had left them, if
  -- no block was open before and the CPU's turn publishes nothing itself. If it is that expiry that
  -- raises, the match is left with the turn closed and counted, and the replay, the receipts and the
  -- callbacks stand as before.
  pub execute_player_command_failed :
      (room : Room) {e : Error}
      → room.live.callbacks.pending ≡ none
      → (execute_player_command outside setting skills request room).1 ≡ err e
      → IsUndone setting room e (execute_player_command outside setting skills request room).0
  unfolding execute_player_command
  execute_player_command_failed room idle h =
      let P : Room × Result Bool → Type 0 =
        λ left. (e : Error) → left.1 ≡ err e → IsUndone setting room e left.0 in
      result_keeps P (check_nonce outside request.nonce) (λ error _ e h. IsUndone.restored)
        (λ x _.
          result_keeps P (expire_phase setting room.live)
            (λ error f e h.
              let same : error ≡ e = cc in
              IsUndone.broke_off (rw same at f) (expiry_left-callbacks room.live idle)
                (expiry_left-turns setting room.live))
            λ ran f e h.
              let back =
                expired_failed (record room { live = ran.0 })
                  (Yields-ok (λ (r : Live × Bool). r.0.callbacks.pending ≡ none)
                    (expire_idle room.live idle) f)
                  e h in
              rw back (IsUndone.expired ran f))
        _ h
