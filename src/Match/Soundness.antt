-- ===== src/Match/Soundness.antt =====
-- Turns that end without actions keep the battle sound, `end_turn` and `expire_phase_if_needed` of
-- jjk_arena/battle_v2/manager.py over `finish_turn` and `check_winner` of
-- jjk_arena/battle_v2/resolver.py.
use fantasy_draft.Base.{
  ℕ, ◌≡◌, ◌≢◌, refl, ◌∙◌, Bool, true, false, not, ◌&&◌, ◌||◌, ◌==◌, leb, Option, is_some, arith,
}
use fantasy_draft.Int.{int_laws}
use fantasy_draft.Dict.{lookup}
use fantasy_draft.Result.{ok, ◌>>=◌, Yields, Yields-bind, Yields-map, Yields-ok}
use fantasy_draft.Invariant.{
  IsSoundPlayer, IsSoundState, if_keeps, bool_keeps, maybe_keeps, lookup-All, insert-All,
}
use fantasy_draft.Models.{BattlePhase, phase_eq, EnergyType, EventType, BattleState}
use fantasy_draft.Energy.{gain_turn_energy}
use fantasy_draft.Energy.Gains.{gain_turn_energy_lem}
use fantasy_draft.Turn.{log_event, check_winner, finish_turn, clear_queue}
use fantasy_draft.Turn.Outcome.{decide-players}
use fantasy_draft.Turn.Soundness.{IsSampler, finish_turn-IsSoundState}
use fantasy_draft.Match.{ResultType, FinishReason, MatchState, Live}
use fantasy_draft.Match.Finish.{
  is_settled, open_queue, finished_state, finish_match, finish_by_tiebreak, tiebreak_winner,
}
use fantasy_draft.Match.Ledger.{
  max_turns, capture_turn_ledger, record_defeat, count_timeout, count_turn, has_timed_out, warn,
  apply_limits, complete_player_turn,
}
use fantasy_draft.Match.Phases.{
  Setting, ensure_turn_player, arm, grant_energy, grant_next_turn_energy, close_turn, log_timeout,
  time_out, has_run_out, expire_body, expire_phase,
}
use fantasy_draft.Match.Commands.{end_turn}

abbrev SamePlayers : Live → Live → Type 0
SamePlayers a b = b.state.battle.players ≡ a.state.battle.players

same_players : {a b : BattleState} → b.players ≡ a.players → IsSoundState a → IsSoundState b
same_players e h = record { all_players = rw e h.all_players }

finish_match-players :
    (result : ResultType) (winner : Option ℕ) (reason : FinishReason) (type : EventType)
    (live : Live)
    → SamePlayers live (finish_match result winner reason type live)
unfolding finish_match finished_state log_event
finish_match-players result winner reason type live =
    if_keeps (SamePlayers live) (is_settled live.state) (λ _. refl) (λ _. refl)

apply_limits-players :
    (player_id : ℕ) (timeout : Bool) (live : Live)
    → Yields (SamePlayers live) (apply_limits player_id timeout live)
unfolding apply_limits warn log_event finish_by_tiebreak
apply_limits-players player_id timeout live =
    bool_keeps (Yields (SamePlayers live)) (timeout && has_timed_out player_id live.state)
      (λ _. finish_match-players _ _ _ _ live)
      λ _.
        bool_keeps (Yields (SamePlayers live)) (leb max_turns live.state.player_turns_completed)
          (λ _.
            Yields-bind (SamePlayers live) (tiebreak_winner live.state) _
              λ w _. finish_match-players _ _ _ _ live)
          λ _.
            bool_keeps (Yields (SamePlayers live)) (leb 12 live.state.no_progress_turns)
              (λ _.
                Yields-bind (SamePlayers live) (tiebreak_winner live.state) _
                  λ w _. finish_match-players _ _ _ _ live)
              λ _.
                if_keeps (SamePlayers live) (live.state.no_progress_turns == 8) (λ _. refl)
                  (λ _. refl)

pub record_defeat-players : (live : Live) → SamePlayers live (record_defeat live)
unfolding record_defeat finish_match finished_state log_event
record_defeat-players live = ground arith

complete_player_turn-players :
    (player_id : ℕ) (timeout : Bool) (live : Live)
    → Yields (SamePlayers live) (complete_player_turn player_id timeout live)
unfolding complete_player_turn count_turn count_timeout capture_turn_ledger
complete_player_turn-players player_id timeout live =
    let counted : Live = record (record_defeat live) {
      state = count_turn player_id timeout (record_defeat live).state;
    } in
    Yields-map (SamePlayers counted) (SamePlayers live) (apply_limits player_id timeout counted)
      (λ after e. e ∙ record_defeat-players live) (apply_limits-players player_id timeout counted)

-- What an operation takes from outside does what the code relies on: the generator draws distinct
-- members of a population and answers with core energies.
pub record IsFair (setting : Setting) : Type 0 where
  pub sampler : IsSampler setting.world
  pub core : (i : ℕ) → setting.choice i ≢ EnergyType.black

module _ (setting : Setting) (fair : IsFair setting) where
  grant-IsSoundState :
      (previous : ℕ) (state : MatchState)
      → IsSoundState state.battle
      → IsSoundState (grant_next_turn_energy setting previous state).battle
  unfolding grant_next_turn_energy arm grant_energy gain_turn_energy
  grant-IsSoundState previous state h =
      let P : MatchState → Type 0 = λ s. IsSoundState s.battle in
      if_keeps P
        (not (phase_eq state.battle.phase BattlePhase.planning) || is_some state.battle.winner_id)
        (λ _. h)
        λ _.
          if_keeps P (state.battle.turn_player_id == previous) (λ _. h)
            λ _.
              maybe_keeps IsSoundState (lookup state.battle.turn_player_id state.battle.players) h
                λ player found.
                  let owner =
                    lookup-All IsSoundPlayer state.battle.turn_player_id state.battle.players
                      h.all_players found in
                  let grown =
                    (gain_turn_energy_lem setting.choice fair.core player state.battle.turn_number
                      false).3 in
                  record {
                    all_players =
                        insert-All IsSoundPlayer state.battle.turn_player_id _ state.battle.players
                          h.all_players
                          (record {
                            team = owner.team;
                            no_debt = λ k. omega (int_laws, owner.no_debt k, grown k);
                          });
                  }

  close_turn-IsSoundState :
      (player_id : ℕ) (battle : BattleState)
      → IsSoundState battle
      → IsSoundState (close_turn setting player_id battle)
  unfolding close_turn check_winner
  close_turn-IsSoundState player_id battle h =
      same_players (decide-players (finish_turn setting.world battle player_id) _)
        (finish_turn-IsSoundState setting.world fair.sampler battle player_id h)

  completed-IsSoundState :
      (player_id : ℕ) (timeout : Bool) (live : Live) (battle : BattleState)
      (next : Live → MatchState)
      → IsSoundState battle
      → ((after : Live) → IsSoundState after.state.battle → IsSoundState (next after).battle)
      → Yields
          (λ after. IsSoundState after.state.battle)
          (complete_player_turn player_id timeout
              (record live { state = record live.state { battle = battle } })
            >>= λ completed. ok (record completed { state = next completed }))
  completed-IsSoundState player_id timeout live battle next h keeps =
      let begun : Live = record live { state = record live.state { battle = battle } } in
      Yields-bind (λ after. IsSoundState after.state.battle)
        (complete_player_turn player_id timeout begun) _
        λ after e. keeps after (
          same_players
            (Yields-ok (SamePlayers begun) (complete_player_turn-players player_id timeout begun) e)
            h)

  -- A turn that a player ends keeps the battle sound.
  pub end_turn-IsSoundState :
      (player_id : ℕ) (live : Live) {after : Live}
      → IsSoundState live.state.battle
      → end_turn setting player_id live ≡ ok after
      → IsSoundState after.state.battle
  unfolding end_turn log_event clear_queue
  end_turn-IsSoundState player_id live h e =
      Yields-ok (λ after. IsSoundState after.state.battle)
        (Yields-bind (λ after. IsSoundState after.state.battle)
          (ensure_turn_player player_id live.state) _
          λ _ _.
            completed-IsSoundState player_id false live _ _
              (close_turn-IsSoundState player_id _ (same_players {a = live.state.battle} refl h))
              λ after sound. grant-IsSoundState player_id after.state sound)
        e

  time_out-IsSoundState :
      (live : Live)
      → IsSoundState live.state.battle
      → Yields (λ after. IsSoundState after.state.battle) (time_out setting live)
  unfolding time_out log_timeout log_event clear_queue arm
  time_out-IsSoundState live h =
      let player_id = live.state.battle.turn_player_id in
      let closed =
        close_turn-IsSoundState player_id (clear_queue player_id live.state.battle)
          (same_players {a = live.state.battle} refl h) in
      completed-IsSoundState player_id true live _ _
        (same_players {a = close_turn setting player_id (clear_queue player_id live.state.battle)}
          refl closed)
        λ after sound. grant-IsSoundState player_id after.state sound

  -- The end of a phase whose time is over keeps every character sound and everyone out of debt: the
  -- cleanup, the decision about a winner, the timeout's limits and the energy of the next turn.
  pub expire_phase-IsSoundState :
      (live : Live) {ran : Live × Bool}
      → IsSoundState live.state.battle
      → expire_phase setting live ≡ ok ran
      → IsSoundState ran.0.state.battle
  unfolding expire_phase expire_body
  expire_phase-IsSoundState live h e =
      let Sound : Live × Bool → Type 0 = λ ran. IsSoundState ran.0.state.battle in
      let opened : Live = record live { callbacks = open_queue live.callbacks } in
      let body : Yields Sound (expire_body setting opened) =
        bool_keeps (Yields Sound) (has_run_out setting opened.state)
          (λ _. Yields-bind Sound (time_out setting opened) _ λ after f.
            Yields-ok (λ x. IsSoundState x.state.battle) (time_out-IsSoundState opened h) f)
          (λ _. h) in
      Yields-ok Sound
        (Yields-bind Sound (expire_body setting opened) _ λ ran f. Yields-ok Sound body f) e
