-- ===== src/Match/Orderly.antt =====
-- Every operation of jjk_arena/battle_v2/manager.py keeps a match orderly.
use fantasy_draft.Base.{
  ℕ, ◌≡◌, refl, ◌∙◌, inl, inr, Bool, true, false, not, Option, List, Bool-cases, arith,
}
use fantasy_draft.Dict.{Dict, lookup}
use fantasy_draft.Result.{
  Result, ok, err, Yields, Yields-bind, Yields-map, Yields-ok, Result-cases, raise_if, or_raise,
  unknown_player, no_opponent, match_finished, lookup_error,
}
use fantasy_draft.Invariant.{if_keeps, bool_keeps, maybe_keeps}
use fantasy_draft.Models.{BattlePhase, phase_eq, EnergyType, PendingAction, BattleState}
use fantasy_draft.Energy.{require_energy, items, update_counter, empty_counter}
use fantasy_draft.Queue.{Skills, pending, order_of, action_ids, sort_by_index, validate_queue}
use fantasy_draft.Turn.{player_ids, log_event, clear_queue}
use fantasy_draft.Match.{MatchState, Live}
use fantasy_draft.Match.Finish.{is_finished, open_queue, close_queue}
use fantasy_draft.Match.Ledger.{opponent_of}
use fantasy_draft.Match.Presence.{is_player}
use fantasy_draft.Match.Phases.{
  Setting, ensure_turn_player, time_out, has_run_out, expire_body, expire_phase,
}
use fantasy_draft.Match.Commands.{
  is_resolver_error, surrender, cancel_queue, end_turn, confirm_turn, may_convert, read_request,
  convert_energy, settle_plan, put_queue, with_phase, validate_plan, submit_plan, write_pays,
  put_order, reorder, update_queue,
}
use fantasy_draft.Match.Runs.{MatchStep, IsFresh, Played}
use fantasy_draft.Match.Ending.{Goes, finish_match-Goes}
use fantasy_draft.Match.Pausing.{IsOrderly, Alike-IsOrderly, Goes-IsOrderly, closed-Goes}
use fantasy_draft.Match.Final.{close_open, finished_final}
use fantasy_draft.Match.Absences.{
  disconnect_player-IsOrderly, reconnect_player-IsOrderly, expire_disconnects-IsOrderly,
}
use fantasy_draft.Match.Closing.{grant_next_turn_energy-Beside, completed-Goes, time_out-Goes}

settle_plan-keeps :
    (P : MatchState → Type 0) (planned restored : MatchState) (result : Result (Unit {0}))
    → P planned
    → P restored
    → P (settle_plan planned restored result).0
unfolding settle_plan
settle_plan-keeps P planned restored (ok x) p q = p
settle_plan-keeps P planned restored (err e) p q =
    if_keeps P (is_resolver_error e) (λ _. q) (λ _. p)

module _ (room : ℕ) (live : Live) (h : IsOrderly room live)
    (on : is_finished live.state ≡ false) where
  abbrev Next : MatchState → Type 0
  Next state = IsOrderly room (record live { state = state })

  -- Only the battle has changed, and it is not over.
  battle_only :
      (battle : BattleState)
      → phase_eq battle.phase BattlePhase.finished ≡ false
      → Next (record live.state { battle = battle })
  battle_only battle going =
      Alike-IsOrderly room h on
        (record {
          kept = record { room = refl; away = refl; deadlines = refl; used = refl };
          result = refl;
          quiet = refl;
          pause = refl;
          suspended = refl;
          turns = refl;
        })
        going

  ends : {after : Live} → Goes 1 live after → IsOrderly room after
  ends g = Goes-IsOrderly room h on (omega arith) g

  end_turn-IsOrderly :
      (setting : Setting) (player_id : ℕ)
      → Yields (IsOrderly room) (end_turn setting player_id live)
  unfolding end_turn
  end_turn-IsOrderly setting player_id =
      Yields-bind (IsOrderly room) (ensure_turn_player player_id live.state) _ λ _ _.
        Yields-map (Goes 1 live) (IsOrderly room) _ (λ after g. ends g)
          (completed-Goes player_id false live _ _ (h.going on).0
            λ after. grant_next_turn_energy-Beside setting player_id after.state)

  confirm_turn-IsOrderly :
      (resolve : BattleState → ℕ → Skills → Result BattleState) (setting : Setting) (player_id : ℕ)
      (skills : Skills)
      → Yields (IsOrderly room) (confirm_turn resolve setting player_id skills live)
  unfolding confirm_turn
  confirm_turn-IsOrderly resolve setting player_id skills =
      Yields-bind (IsOrderly room) (ensure_turn_player player_id live.state) _ λ _ _.
        Yields-bind (IsOrderly room) (resolve live.state.battle player_id skills) _ λ resolved _.
          Yields-map (Goes 1 live) (IsOrderly room) _ (λ after g. ends g)
            (completed-Goes player_id false live resolved _ (h.going on).0
              λ after. grant_next_turn_energy-Beside setting player_id after.state)

  surrender-IsOrderly : (player_id : ℕ) → Yields (IsOrderly room) (surrender player_id live)
  unfolding surrender
  surrender-IsOrderly player_id =
      Yields-bind (IsOrderly room) (raise_if (not (is_player player_id live.state)) unknown_player)
        _
        λ _ _.
          Yields-bind (IsOrderly room)
            (or_raise (opponent_of player_id (player_ids live.state.battle)) no_opponent) _
            λ winner _.
              Yields-bind (IsOrderly room) (raise_if (is_finished live.state) match_finished) _
                λ _ _.
                  Goes-IsOrderly room h on (omega arith)
                    (finish_match-Goes _ _ _ _ live (h.going on).0)

  cancel_queue-IsOrderly : (player_id : ℕ) → Yields Next (cancel_queue player_id live.state)
  unfolding cancel_queue clear_queue
  cancel_queue-IsOrderly player_id =
      Yields-bind Next (ensure_turn_player player_id live.state) _ λ _ _. battle_only _ refl

  convert_energy-IsOrderly :
      (player_id : ℕ) (sources : List (Option EnergyType)) (target : Option EnergyType)
      → Yields Next (convert_energy player_id sources target live.state)
  unfolding convert_energy log_event
  convert_energy-IsOrderly player_id sources target =
      Yields-bind Next (ensure_turn_player player_id live.state) _ λ _ _.
        Yields-bind Next (or_raise (lookup player_id live.state.battle.players) lookup_error) _
          λ player _. Yields-bind Next (may_convert player live.state.battle player_id) _ λ _ _.
            Yields-bind Next (read_request sources target) _ λ request _.
              Yields-bind Next
                (require_energy player.energy (items (update_counter empty_counter request.0))) _
                λ _ _. battle_only _ on

  submit_plan-IsOrderly :
      (player_id : ℕ) (parsed : List PendingAction) (skills : Skills)
      → Next (submit_plan player_id parsed skills live.state).0
  unfolding submit_plan put_queue with_phase
  submit_plan-IsOrderly player_id parsed skills =
      elim (Result-cases (ensure_turn_player player_id live.state)) [
        | inr (e, refused) ↦ rw (submit_plan, refused) h
        | inl (x, allowed) ↦
            let planned =
              with_phase BattlePhase.queue_review
                (put_queue player_id parsed (action_ids (sort_by_index parsed)) live.state) in
            let restored = with_phase BattlePhase.planning (
              put_queue player_id (pending live.state.battle player_id)
                (order_of live.state.battle player_id) planned) in
            rw (submit_plan, allowed)
              (settle_plan-keeps Next planned restored (validate_plan planned player_id skills)
                (battle_only planned.battle refl) (battle_only restored.battle refl))
      ]

  write_pays-battle :
      (player_id : ℕ) (paid : List PendingAction)
      → (b : BattleState) × (write_pays player_id paid live.state
          ≡ record live.state { battle = b })
        × (phase_eq b.phase BattlePhase.finished ≡ false)
  unfolding write_pays
  write_pays-battle player_id paid =
      maybe_keeps
        (λ (s : MatchState).
          (b : BattleState) × (s ≡ record live.state { battle = b })
          × (phase_eq b.phase BattlePhase.finished ≡ false))
        (lookup player_id live.state.battle.pending_actions) (live.state.battle, refl, on)
        λ l _. (_, refl, on)

  reorder-IsOrderly :
      (player_id : ℕ) (order : List ℕ) (skills : Skills)
      (paid : List PendingAction × Result (Unit {0}))
      → Next (reorder player_id order skills live.state paid).0
  unfolding reorder put_order put_queue
  reorder-IsOrderly player_id order skills (paid, err e) =
      let (b, same, going) = write_pays-battle player_id paid in rw same (battle_only b going)
  reorder-IsOrderly player_id order skills (paid, ok x) =
      let (b, same, going) = write_pays-battle player_id paid in
      let updated = put_order player_id order (record live.state { battle = b }) in
      let restored =
        put_queue player_id (pending live.state.battle player_id)
          (order_of live.state.battle player_id) updated in
      rw same (
        settle_plan-keeps Next updated restored (validate_queue updated.battle player_id skills)
          (battle_only updated.battle going) (battle_only restored.battle going))

  update_queue-IsOrderly :
      (player_id : ℕ) (order : List ℕ) (pays : Dict (List (Option EnergyType))) (skills : Skills)
      → Next (update_queue player_id order pays skills live.state).0
  unfolding update_queue
  update_queue-IsOrderly player_id order pays skills =
      elim (Result-cases (ensure_turn_player player_id live.state)) [
        | inr (e, refused) ↦ rw (update_queue, refused) h
        | inl (x, allowed) ↦ rw (update_queue, allowed) (reorder-IsOrderly player_id order skills _)
      ]

  abbrev Closed : Live × Bool → Type 0
  Closed ran =
      IsOrderly room
        (record ran.0 { callbacks = close_queue live.callbacks.pending true ran.0.callbacks })

  abbrev opened : Live
  opened = record live { callbacks = open_queue live.callbacks }

  expire_body-IsOrderly : (setting : Setting) → Yields Closed (expire_body setting opened)
  unfolding expire_body
  expire_body-IsOrderly setting =
      bool_keeps (Yields Closed) (has_run_out setting opened.state)
        (λ _. Yields-bind Closed (time_out setting opened) _ λ after e. ends (
          closed-Goes h.idle
            (Yields-ok (Goes 1 opened) (time_out-Goes setting opened (h.going on).0) e)))
        λ _. rw (close_open live.callbacks h.idle) h

  expire_phase-IsOrderly :
      (setting : Setting) → Yields (λ ran. IsOrderly room ran.0) (expire_phase setting live)
  unfolding expire_phase
  expire_phase-IsOrderly setting =
      Yields-bind (λ ran. IsOrderly room ran.0) (expire_body setting opened) _
        λ ran e. Yields-ok Closed (expire_body-IsOrderly setting) e

MatchStep-IsOrderly :
    {room : ℕ} {live after : Live}
    → IsOrderly room live
    → MatchStep live after
    → IsOrderly room after
MatchStep-IsOrderly {room} {live} h step = elim (Bool-cases (is_finished live.state)) [
  | inl over ↦ rw (finished_final over h.idle step) h
  | inr on ↦ open_step h on step
]
  where
    open_step :
        {live after : Live}
        → IsOrderly room live
        → is_finished live.state ≡ false
        → MatchStep live after
        → IsOrderly room after
    open_step {live} h on (MatchStep.disconnects p now) =
        disconnect_player-IsOrderly room p now live h
    open_step {live} h on (MatchStep.reconnects p now e) =
        Yields-ok _ (reconnect_player-IsOrderly room p now live h) e
    open_step {live} h on (MatchStep.expires_away now) =
        expire_disconnects-IsOrderly room now live h
    open_step {live} h on (MatchStep.expires_phase setting e) =
        Yields-ok _ (expire_phase-IsOrderly room live h on setting) e
    open_step {live} h on (MatchStep.surrenders p e) =
        Yields-ok _ (surrender-IsOrderly room live h on p) e
    open_step {live} h on (MatchStep.ends_turn setting p e) =
        Yields-ok _ (end_turn-IsOrderly room live h on setting p) e
    open_step {live} h on (MatchStep.confirms resolve setting p skills e) =
        Yields-ok _ (confirm_turn-IsOrderly room live h on resolve setting p skills) e
    open_step {live} h on (MatchStep.cancels p e) =
        Yields-ok _ (cancel_queue-IsOrderly room live h on p) e
    open_step {live} h on (MatchStep.converts p sources target e) =
        Yields-ok _ (convert_energy-IsOrderly room live h on p sources target) e
    open_step {live} h on (MatchStep.submits p parsed skills) =
        submit_plan-IsOrderly room live h on p parsed skills
    open_step {live} h on (MatchStep.updates p order pays skills) =
        update_queue-IsOrderly room live h on p order pays skills

IsFresh-IsOrderly : {room : ℕ} {live : Live} → IsFresh room live → IsOrderly room live
unfolding lookup
IsFresh-IsOrderly f = record {
  timed = record {
    budget = λ id. f.within id;
    both = λ id. rw (f.all_here, f.no_deadlines) refl;
    soon = λ id deadline started d s. absurd (let e = (rw f.no_deadlines at d) in cc);
  };
  named = f.named;
  idle = f.no_queue;
  paused = λ _. f.unpaused ∙ rw f.all_here refl;
  resumable = λ phase e. absurd (let x = f.no_pause in cc);
  going = λ _. (f.no_result, f.unpublished);
  over = λ e. absurd (let x = f.unfinished in cc);
  turns = rw f.turns (omega arith);
  left = λ _. rw f.turns (omega arith);
}

-- However disconnections, returns, timeouts and commands follow one another from the start of a
-- match on, the match is orderly: nobody has used more than 180 seconds, no deadline is later than
-- the grace, a match that goes on is paused exactly while somebody is away and has neither a result
-- nor an announcement, and a match that is finished has a result, is not paused, and its room was
-- announced exactly once. No match completes more than 72 turns, and one that has completed them is
-- finished.
pub Played-IsOrderly : {room : ℕ} {live : Live} → Played room live → IsOrderly room live
Played-IsOrderly (Played.begins f) = IsFresh-IsOrderly f
Played-IsOrderly (Played.goes_on before step) = MatchStep-IsOrderly (Played-IsOrderly before) step
