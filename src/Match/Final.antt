-- ===== src/Match/Final.antt =====
-- A finished match is final for every operation of jjk_arena/battle_v2/manager.py.
use fantasy_draft.Base.{
  ℕ, ◌≡◌, refl, sym, ap, ◌∙◌, inl, inr, Bool, true, false, not, Option, none, List, append-nil,
  arith,
}
use fantasy_draft.Dict.{Dict}
use fantasy_draft.Result.{
  Error, Result, ok, err, ◌>>◌, raise_if, raise_if-ok, >>=-eq-ok, >>-eq-ok, or_raise,
  unknown_player, no_opponent, match_finished, Result-cases,
}
use fantasy_draft.Models.{EnergyType, PendingAction}
use fantasy_draft.Queue.{Skills}
use fantasy_draft.Turn.{player_ids}
use fantasy_draft.Match.{MatchState, Callbacks, Live}
use fantasy_draft.Match.Finish.{is_finished, open_queue, close_queue, defer_finished_callbacks}
use fantasy_draft.Match.Ledger.{opponent_of}
use fantasy_draft.Match.Presence.{
  is_player, disconnect_player, reconnect_player, expire_away, expire_disconnects,
}
use fantasy_draft.Match.Phases.{
  Setting, ensure_turn_player, ensure_turn_player-MayAct, has_run_out, expire_body, expire_phase,
}
use fantasy_draft.Match.Commands.{
  surrender, cancel_queue, end_turn, confirm_turn, convert_energy, submit_plan, update_queue,
}
use fantasy_draft.Match.Runs.{MatchStep}

-- Without a queue a block changes nothing about the callbacks if its body does not.
pub close_open :
    (callbacks : Callbacks)
    → callbacks.pending ≡ none
    → close_queue callbacks.pending true (open_queue callbacks) ≡ callbacks
unfolding close_queue open_queue
close_open callbacks h =
    rw h (
      ap (λ l. record callbacks { pending = none; published = l }) (append-nil callbacks.published))

module _ (live : Live) (over : is_finished live.state ≡ true) where
  -- A call that needs the turn is refused.
  refused : {A : Type 0} (player_id : ℕ) → ensure_turn_player player_id live.state ≡ ok tt → A
  refused player_id h =
      let going = (ensure_turn_player-MayAct player_id live.state h).going in absurd cc

  guarded :
      {X : Type 0} {A : Type 0} (player_id : ℕ) (rest : Result X) {x : X}
      → (ensure_turn_player player_id live.state >> rest) ≡ ok x
      → A
  guarded player_id rest h =
      refused player_id (>>-eq-ok (ensure_turn_player player_id live.state) rest h).0

  final_reconnect :
      {A : Type 0} (player_id now : ℕ) {state : MatchState}
      → reconnect_player player_id now live.state ≡ ok state
      → A
  unfolding reconnect_player
  final_reconnect player_id now h = absurd (let e = (rw (reconnect_player, over) at h) in cc)

  final_surrender :
      {A : Type 0} (player_id : ℕ) {after : Live} → surrender player_id live ≡ ok after → A
  unfolding surrender
  final_surrender player_id h =
      let (_, h1) = >>-eq-ok (raise_if (not (is_player player_id live.state)) unknown_player) _ h in
      let (_, _, h2) =
        >>=-eq-ok (or_raise (opponent_of player_id (player_ids live.state.battle)) no_opponent) _
          h1 in
      let (e, _) = >>-eq-ok (raise_if (is_finished live.state) match_finished) _ h2 in
      absurd (let going = raise_if-ok _ match_finished e in cc)

  final_disconnect : (player_id now : ℕ) → disconnect_player player_id now live.state ≡ live.state
  unfolding disconnect_player
  final_disconnect player_id now = rw over refl

  refusal : (player_id : ℕ) → (e : Error) × (ensure_turn_player player_id live.state ≡ err e)
  refusal player_id = elim (Result-cases (ensure_turn_player player_id live.state)) [
    | inl (x, h) ↦ refused player_id h
    | inr (e, h) ↦ (e, h)
  ]

  final_submit :
      (player_id : ℕ) (parsed : List PendingAction) (skills : Skills)
      → (submit_plan player_id parsed skills live.state).0 ≡ live.state
  unfolding submit_plan
  final_submit player_id parsed skills = let (e, h) = refusal player_id in rw (submit_plan, h) refl

  final_update :
      (player_id : ℕ) (order : List ℕ) (pays : Dict (List (Option EnergyType))) (skills : Skills)
      → (update_queue player_id order pays skills live.state).0 ≡ live.state
  unfolding update_queue
  final_update player_id order pays skills =
      let (e, h) = refusal player_id in rw (update_queue, h) refl

  final_away : (now : ℕ) → live.callbacks.pending ≡ none → (expire_disconnects now live).0 ≡ live
  unfolding expire_disconnects expire_away defer_finished_callbacks
  final_away now idle =
      rw over (ap (λ c. record live { callbacks = c }) (close_open live.callbacks idle))

  not_run_out : (setting : Setting) → has_run_out setting live.state ≡ false
  unfolding has_run_out
  not_run_out setting = ground (arith, over)

  final_phase :
      (setting : Setting) {ran : Live × Bool}
      → live.callbacks.pending ≡ none
      → expire_phase setting live ≡ ok ran
      → ran.0 ≡ live
  unfolding expire_phase expire_body
  final_phase setting {ran} idle h =
      let same = close_open live.callbacks idle in
      let off = not_run_out setting in
      let e = (rw (expire_phase, expire_body, off) at h) in
      let closed : Live = record live {
        callbacks = close_queue live.callbacks.pending true (open_queue live.callbacks);
      } in
      let here : (closed, false) ≡ ran = cc in
      ap (λ (r : Live × Bool). r.0) (sym here) ∙ ap (λ c. record live { callbacks = c }) same

-- A finished match does not change any more: every step that the manager can still take on it, a
-- reconnection, a timeout or a command, leaves state and callbacks as they were, if no block that
-- queues callbacks is open.
pub finished_final :
    {live after : Live}
    → is_finished live.state ≡ true
    → live.callbacks.pending ≡ none
    → MatchStep live after
    → after ≡ live
unfolding cancel_queue end_turn confirm_turn convert_energy
finished_final {live} over idle (MatchStep.disconnects p now) =
    ap (λ s. record live { state = s }) (final_disconnect live over p now)
finished_final {live} over idle (MatchStep.reconnects p now h) = final_reconnect live over p now h
finished_final {live} over idle (MatchStep.expires_away now) = final_away live over now idle
finished_final {live} over idle (MatchStep.expires_phase setting h) =
    final_phase live over setting idle h
finished_final {live} over idle (MatchStep.surrenders p h) = final_surrender live over p h
finished_final {live} over idle (MatchStep.ends_turn setting p h) = guarded live over p _ h
finished_final {live} over idle (MatchStep.confirms resolve setting p skills h) =
    guarded live over p _ h
finished_final {live} over idle (MatchStep.cancels p h) = guarded live over p _ h
finished_final {live} over idle (MatchStep.converts p sources target h) = guarded live over p _ h
finished_final {live} over idle (MatchStep.submits p parsed skills) =
    ap (λ s. record live { state = s }) (final_submit live over p parsed skills)
finished_final {live} over idle (MatchStep.updates p order pays skills) =
    ap (λ s. record live { state = s }) (final_update live over p order pays skills)
