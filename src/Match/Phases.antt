-- ===== src/Match/Phases.antt =====
-- Guards, the energy of the next turn and phases that run out, `_ensure_turn_player`,
-- `_grant_next_turn_energy` and `expire_phase_if_needed` of jjk_arena/battle_v2/manager.py. The
-- matches are classic ones, which keep no progress of the First Creation.
use fantasy_draft.Base.{
  ℕ, ◌+◌, ◌≡◌, refl, Bool, true, false, not, ◌||◌, none, some, if◌then◌else◌, ◌==◌, is_some,
}
use fantasy_draft.Dict.{lookup, insert}
use fantasy_draft.Result.{
  Result, ok, ◌>>=◌, ◌>>◌, raise_if, >>-eq-ok, raise_if-ok, unknown_player, match_finished,
  match_paused, not_your_turn,
}
use fantasy_draft.Models.{BattlePhase, phase_eq, EnergyType, EventType, BattleState}
use fantasy_draft.Energy.{gain_turn_energy}
use fantasy_draft.Timers.{BattleTimerPolicy, arm_phase_timer, phase_timer_expired}
use fantasy_draft.Turn.{World, plain_event, log_event, finish_turn, check_winner, clear_queue}
use fantasy_draft.Match.{MatchState, Live}
use fantasy_draft.Match.Finish.{is_finished, open_queue, close_queue}
use fantasy_draft.Match.Ledger.{complete_player_turn, counted}
use fantasy_draft.Match.Presence.{is_player}

pub not-false : (b : Bool) → not b ≡ false → b ≡ true
not-false true h = refl
not-false false h = cc

-- What one operation takes from outside: the clock's reading, the timer policy, the answers of the
-- room's generator, and the `World` of the cleanup.
pub record Setting : Type 0 where
  pub now : ℕ
  pub policy : BattleTimerPolicy
  pub choice : ℕ → EnergyType
  pub world : World

unfoldable pub ensure_turn_player : ℕ → MatchState → Result (Unit {0})
unfolding is_player
ensure_turn_player player_id state = do
  raise_if (not (is_player player_id state)) unknown_player
  raise_if (is_finished state) match_finished
  raise_if state.paused match_paused
  raise_if (not (state.battle.turn_player_id == player_id)) not_your_turn

unfoldable pub arm : Setting → MatchState → MatchState
arm setting state = record state {
  phase_deadline = arm_phase_timer setting.policy state.battle.phase setting.now;
}

unfoldable pub grant_energy : Setting → ℕ → BattleState → BattleState
grant_energy setting player_id battle = elim (lookup player_id battle.players) [
  | none ↦ battle
  | some player ↦ record battle {
    players =
        insert player_id (gain_turn_energy setting.choice player battle.turn_number false)
          battle.players;
  }
]

unfoldable pub grant_next_turn_energy : Setting → ℕ → MatchState → MatchState
unfolding arm grant_energy
grant_next_turn_energy setting previous_player_id state =
    if not (phase_eq state.battle.phase BattlePhase.planning) || is_some state.battle.winner_id
    then arm setting state
    else if state.battle.turn_player_id == previous_player_id
    then state
    else arm setting
        (record state { battle = grant_energy setting state.battle.turn_player_id state.battle })

-- The end of a turn without actions: cleanup and the winner.
unfoldable pub close_turn : Setting → ℕ → BattleState → BattleState
close_turn setting player_id battle = check_winner (finish_turn setting.world battle player_id)

unfoldable pub log_timeout : BattleState → BattleState
log_timeout battle =
    log_event (log_event battle (plain_event EventType.phase_timeout battle))
      (plain_event EventType.auto_pass battle)

-- The match of a player whose time has run out, with the turn closed.
abbrev pub timed_out : Setting → Live → Live
timed_out setting live =
    let player_id = live.state.battle.turn_player_id in
    record live {
      state = record live.state {
        battle =
            log_timeout (close_turn setting player_id (clear_queue player_id live.state.battle));
      };
    }

unfoldable pub time_out : Setting → Live → Result Live
unfolding close_turn log_timeout
time_out setting live = do
  let player_id : ℕ = live.state.battle.turn_player_id
  completed ← complete_player_turn player_id true (timed_out setting live)
  let granted : MatchState = arm setting (grant_next_turn_energy setting player_id completed.state)
  ok (record completed { state = record granted { state_revision = granted.state_revision + 1 } })

unfoldable pub has_run_out : Setting → MatchState → Bool
has_run_out setting state = not (
    state.paused || not (phase_timer_expired state.phase_deadline setting.now) || is_finished state)

unfoldable pub expire_body : Setting → Live → Result (Live × Bool)
unfolding time_out has_run_out
expire_body setting live = elim (has_run_out setting live.state) [
  | true ↦ time_out setting live >>= λ after. ok (after, true)
  | false ↦ ok (live, false)
]

-- `expire_phase_if_needed`: the body within a block that queues callbacks. What it leaves where it
-- raises is `expiry_left`.
unfoldable pub expire_phase : Setting → Live → Result (Live × Bool)
unfolding expire_body open_queue close_queue
expire_phase setting live = do
  ran ← expire_body setting (record live { callbacks = open_queue live.callbacks })
  ok (record ran.0 { callbacks = close_queue live.callbacks.pending true ran.0.callbacks }, ran.1)

-- What an expiry that raises has left, as nothing undoes it: of what is modelled only the tiebreak
-- raises, when the turn is closed and counted; the callbacks that were queued are dropped.
unfoldable pub expiry_left : Setting → Live → Live
unfolding close_queue open_queue
expiry_left setting live =
    let opened : Live = record live { callbacks = open_queue live.callbacks } in
    let left = counted live.state.battle.turn_player_id true (timed_out setting opened) in
    record left { callbacks = close_queue live.callbacks.pending false left.callbacks }

-- What a command that got past the guards knows.
pub record MayAct (player_id : ℕ) (state : MatchState) : Type 0 where
  pub plays : is_player player_id state ≡ true
  pub going : is_finished state ≡ false
  pub unpaused : state.paused ≡ false
  pub turn : (state.battle.turn_player_id == player_id) ≡ true

pub ensure_turn_player-MayAct :
    (player_id : ℕ) (state : MatchState)
    → ensure_turn_player player_id state ≡ ok tt
    → MayAct player_id state
unfolding ensure_turn_player
ensure_turn_player-MayAct player_id state h =
    let (a, h1) = >>-eq-ok (raise_if (not (is_player player_id state)) unknown_player) _ h in
    let (b, h2) = >>-eq-ok (raise_if (is_finished state) match_finished) _ h1 in
    let (c, d) = >>-eq-ok (raise_if state.paused match_paused) _ h2 in
    record {
      plays = not-false _ (raise_if-ok _ unknown_player a);
      going = raise_if-ok _ match_finished b;
      unpaused = raise_if-ok _ match_paused c;
      turn = not-false _ (raise_if-ok _ not_your_turn d);
    }
