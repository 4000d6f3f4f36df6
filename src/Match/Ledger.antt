-- ===== src/Match/Ledger.antt =====
-- What the manager counts when a player's turn is over, `_capture_turn_ledger` and
-- `_complete_player_turn` of jjk_arena/battle_v2/manager.py.
use fantasy_draft.Base.{
  ℕ, zero, suc, ◌+◌, Bool, true, false, not, ◌&&◌, ◌||◌, Option, none, some, List, [], ◌∷◌,
  if◌then◌else◌, ◌==◌, leb, any, length, get_or,
}
use fantasy_draft.Int.{ℤ, pos, ◌+ℤ◌, ltb_ℤ}
use fantasy_draft.Dict.{Dict, lookup, insert}
use fantasy_draft.Result.{Result, ok}
use fantasy_draft.Models.{BattlePhase, StatusFamily, EventType, BattleEvent}
use fantasy_draft.Accounting.{Attribution, enemy_hp_damage_attribution}
use fantasy_draft.Turn.{plain_event, log_event, player_ids}
use fantasy_draft.Match.{ResultType, FinishReason, MatchState, Live}
use fantasy_draft.Match.Finish.{
  is_settled, is_finished, win_or_draw, finish_match, finish_by_tiebreak,
}

abbrev pub max_turns : ℕ
max_turns = 72

-- `list[n:]`
unfoldable pub drop : ℕ → List BattleEvent → List BattleEvent
drop zero events = events
drop (suc n) [] = []
drop (suc n) (e ∷ events) = drop n events

-- The families that `_capture_turn_ledger` looks for.
abbrev is_hostile : StatusFamily → Bool
is_hostile StatusFamily.buff = false
is_hostile StatusFamily.debuff = false
is_hostile _ = true

-- Whether an event without attribution is progress. Damage to hit points without one is not.
unfoldable pub shows_progress : BattleEvent → Bool
shows_progress event = elim event.type [
  | EventType.energy_drained ↦ ltb_ℤ (pos 0) event.amount
  | EventType.energy_stolen ↦ ltb_ℤ (pos 0) event.amount
  | EventType.status_stack_changed ↦ ltb_ℤ (pos 0) event.amount
  | EventType.status_consumed ↦ ltb_ℤ (pos 0) event.amount
  | EventType.status_applied ↦ any is_hostile event.families || ltb_ℤ (pos 1) event.stacks
  | EventType.domain_ended ↦ true
  | EventType.replacement_revoked ↦ true
  | EventType.hostile_status_expired ↦ true
  | _ ↦ false
]

unfoldable pub add_damage : Attribution → Dict ℤ → Dict ℤ
add_damage a damage = insert a.source (get_or (lookup a.source damage) (pos 0) +ℤ a.amount) damage

-- The loop of `_capture_turn_ledger`: the damage credited so far and whether there was progress.
unfoldable pub ledger_loop : List ℕ → List BattleEvent → Dict ℤ → Bool → Dict ℤ × Bool
ledger_loop ids [] damage progress = (damage, progress)
ledger_loop ids (event ∷ events) damage progress =
    let a = enemy_hp_damage_attribution event ids in
    ledger_loop ids events (elim a [ none ↦ damage | some credit ↦ add_damage credit damage ])
      (progress || elim a [ none ↦ shows_progress event | some credit ↦ true ])

unfoldable pub capture_turn_ledger : MatchState → MatchState × Bool
unfolding ledger_loop drop
capture_turn_ledger state =
    let events = drop state.progress_event_cursor state.battle.event_log in
    let done = ledger_loop (player_ids state.battle) events state.damage_to_hp false in
    (
      record state { progress_event_cursor = length state.battle.event_log; damage_to_hp = done.0 },
      done.1,
    )

-- `check_winner` finishes a battle without a result: the defeat is recorded now.
unfoldable pub record_defeat : Live → Live
record_defeat live =
    if is_finished live.state && not (is_settled live.state)
    then finish_match (win_or_draw live.state.battle.winner_id) live.state.battle.winner_id
        FinishReason.defeat EventType.battle_finished
        (record live {
          state = record live.state {
            battle = record live.state.battle { phase = BattlePhase.turn_end };
          };
        })
    else live

unfoldable pub count_timeout : ℕ → Bool → MatchState → MatchState
count_timeout player_id timeout state = record state {
  timeout_total =
      if timeout
      then insert player_id (get_or (lookup player_id state.timeout_total) 0 + 1)
          state.timeout_total
      else state.timeout_total;
  timeout_consecutive =
      insert player_id
        (if timeout then get_or (lookup player_id state.timeout_consecutive) 0 + 1 else 0)
        state.timeout_consecutive;
}

-- The counters of a completed turn.
unfoldable pub count_turn : ℕ → Bool → MatchState → MatchState
unfolding count_timeout capture_turn_ledger
count_turn player_id timeout state =
    let captured = capture_turn_ledger (
      count_timeout player_id timeout (record state {
        player_turns_completed = state.player_turns_completed + 1;
        logical_time = state.logical_time + 1;
      })) in
    record captured.0 {
      no_progress_turns = if captured.1 then 0 else captured.0.no_progress_turns + 1;
    }

unfoldable pub opponent_of : ℕ → List ℕ → Option ℕ
opponent_of player_id [] = none
opponent_of player_id (id ∷ ids) =
    let rest = opponent_of player_id ids in if id == player_id then rest else some id

-- Three timeouts in a row, or five in all.
unfoldable pub has_timed_out : ℕ → MatchState → Bool
has_timed_out player_id state =
    leb 3 (get_or (lookup player_id state.timeout_consecutive) 0)
    || leb 5 (get_or (lookup player_id state.timeout_total) 0)

unfoldable pub warn : MatchState → MatchState
warn state = record state {
  battle = log_event state.battle (plain_event EventType.no_progress_warning state.battle);
}

-- The cascade that ends a match after a turn.
unfoldable pub apply_limits : ℕ → Bool → Live → Result Live
apply_limits player_id timeout live = elim (timeout && has_timed_out player_id live.state) [
  | true ↦ ok (
      finish_match ResultType.forfeit (opponent_of player_id (player_ids live.state.battle))
        FinishReason.timeout EventType.forfeit live)
  | false ↦ elim (leb max_turns live.state.player_turns_completed) [
    | true ↦ finish_by_tiebreak FinishReason.hard_cap live
    | false ↦ elim (leb 12 live.state.no_progress_turns) [
      | true ↦ finish_by_tiebreak FinishReason.no_progress live
      | false ↦ ok (
          if live.state.no_progress_turns == 8
          then record live { state = warn live.state }
          else live)
    ]
  ]
]

-- The part that cannot raise.
abbrev pub counted : ℕ → Bool → Live → Live
counted player_id timeout live =
    let settled = record_defeat live in
    record settled { state = count_turn player_id timeout settled.state }

unfoldable pub complete_player_turn : ℕ → Bool → Live → Result Live
unfolding record_defeat count_turn apply_limits
complete_player_turn player_id timeout live =
    apply_limits player_id timeout (counted player_id timeout live)
