-- ===== src/Match/Finish.antt =====
-- How a match is finished, `_finish_match`, `_publish_match_finished`, `_finish_by_tiebreak` and
-- `_defer_finished_callbacks` of jjk_arena/battle_v2/manager.py.
use fantasy_draft.Base.{
  ℕ, zero, suc, Bool, true, false, ◌&&◌, ◌||◌, Option, none, some, List, [], ◌∷◌, ◌++◌,
  if◌then◌else◌, is_some, get_or,
}
use fantasy_draft.Int.{ℤ, pos, ◌+ℤ◌, ◌-ℤ◌, ltb_ℤ, eqb_ℤ, max_ℤ}
use fantasy_draft.Dict.{Dict, lookup}
use fantasy_draft.Result.{Error, Result, ok, err, ◌>>=◌, or_raise, lookup_error, empty_sequence}
use fantasy_draft.Models.{BattlePhase, phase_eq, EventType, CharacterState, PlayerState}
use fantasy_draft.Slots.{get_at}
use fantasy_draft.Turn.{plain_event, log_event}
use fantasy_draft.Match.{ResultType, FinishReason, MatchState, Callbacks, Live}

abbrev pub is_finished : MatchState → Bool
is_finished state = phase_eq state.battle.phase BattlePhase.finished

-- `state.phase == FINISHED and state.result_type is not None`
abbrev pub is_settled : MatchState → Bool
is_settled state = is_finished state && is_some state.result_type

-- `pending.append(room_id)`, or the callback at once if no block is open.
unfoldable pub announce : Option ℕ → Callbacks → Callbacks
announce none callbacks = callbacks
announce (some room_id) callbacks = elim callbacks.pending [
  | none ↦ record callbacks { published = callbacks.published ++ room_id ∷ [] }
  | some queue ↦ record callbacks { pending = some (queue ++ room_id ∷ []) }
]

unfoldable pub finished_state :
    ResultType → Option ℕ → FinishReason → EventType → MatchState → MatchState
unfolding log_event plain_event
finished_state result winner_id reason event_type state = record state {
  result_type = some result;
  finish_reason = some reason;
  paused = false;
  paused_phase = none;
  paused_seconds_remaining = none;
  phase_deadline = none;
  battle =
      log_event (record state.battle { winner_id = winner_id; phase = BattlePhase.finished })
        (record (plain_event event_type state.battle) { subject = winner_id });
}

unfoldable pub finish_match : ResultType → Option ℕ → FinishReason → EventType → Live → Live
unfolding announce finished_state
finish_match result winner_id reason event_type live =
    if is_settled live.state then live else record {
      state = finished_state result winner_id reason event_type live.state;
      callbacks = announce live.state.room_id live.callbacks;
    }

-- The body of a block gives what it left and the error that it raised, if any.
abbrev pub Body : Type 0
Body = Live → Live × Option Error

unfoldable pub open_queue : Callbacks → Callbacks
open_queue callbacks = record callbacks { pending = some (get_or callbacks.pending []) }

-- The `finally` of a block: the block that owns the queue drops it, and publishes what stands in it
-- if it came to its end.
unfoldable pub close_queue : Option (List ℕ) → Bool → Callbacks → Callbacks
close_queue (some outer) completed callbacks = callbacks
close_queue none completed callbacks = record {
  pending = none;
  published =
      if completed then callbacks.published ++ get_or callbacks.pending [] else callbacks.published;
}

abbrev pub completed : Option Error → Bool
completed none = true
completed (some e) = false

unfoldable pub defer_finished_callbacks : Body → Body
unfolding open_queue close_queue
defer_finished_callbacks body live =
    let ran = body (record live { callbacks = open_queue live.callbacks }) in
    (
      record ran.0 {
        callbacks = close_queue live.callbacks.pending (completed ran.1) ran.0.callbacks;
      },
      ran.1,
    )

-- The tuples by which `max` compares the players.
abbrev pub Score : Type 0
Score = List ℤ

unfoldable pub score_ltb : Score → Score → Bool
score_ltb [] [] = false
score_ltb [] (y ∷ ys) = true
score_ltb (x ∷ xs) [] = false
score_ltb (x ∷ xs) (y ∷ ys) = ltb_ℤ x y || eqb_ℤ x y && score_ltb xs ys

unfoldable pub active_characters : List CharacterState → List ℤ → Result (List CharacterState)
unfolding get_at
active_characters team [] = ok []
active_characters team (slot ∷ slots) = do
  c ← or_raise (get_at team slot) lookup_error
  rest ← active_characters team slots
  ok (c ∷ rest)

unfoldable pub living_of : List CharacterState → ℤ
living_of [] = pos 0
living_of (c ∷ cs) = let rest = living_of cs in if c.alive then rest +ℤ pos 1 else rest

unfoldable pub hp_of : List CharacterState → ℤ
hp_of [] = pos 0
hp_of (c ∷ cs) = max_ℤ (pos 0) c.hp +ℤ hp_of cs

unfoldable pub score_of : MatchState → ℕ → List CharacterState → Score
unfolding living_of hp_of
score_of state id active =
    living_of active
    ∷ hp_of active
    ∷ get_or (lookup id state.damage_to_hp) (pos 0)
    ∷ (pos 0 -ℤ pos (get_or (lookup id state.timeout_total) 0))
    ∷ []

unfoldable pub scores : MatchState → Dict PlayerState → Result (Dict Score)
scores state [] = ok []
scores state ((id, player) ∷ players) = do
  active ← active_characters player.team player.active_slots
  rest ← scores state players
  ok ((id, score_of state id active) ∷ rest)

unfoldable pub best_from : Score → Dict Score → Score
best_from best [] = best
best_from best ((id, score) ∷ rest) = best_from (if score_ltb best score then score else best) rest

unfoldable pub best_score : Dict Score → Result Score
best_score [] = err empty_sequence
best_score ((id, score) ∷ rest) = ok (best_from score rest)

abbrev pub score_eq : Score → Score → Bool
score_eq [] [] = true
score_eq [] (y ∷ ys) = false
score_eq (x ∷ xs) [] = false
score_eq (x ∷ xs) (y ∷ ys) = eqb_ℤ x y && score_eq xs ys

unfoldable pub holders : Score → Dict Score → List ℕ
holders best [] = []
holders best ((id, score) ∷ rest) =
    let others = holders best rest in if score_eq score best then id ∷ others else others

unfoldable pub only : List ℕ → Option ℕ
only [] = none
only (id ∷ []) = some id
only (id ∷ other ∷ rest) = none

-- `winners[0] if len(winners) == 1 else None`, of the players with the best score.
unfoldable pub tiebreak_winner : MatchState → Result (Option ℕ)
tiebreak_winner state = do
  all_scores ← scores state state.battle.players
  best ← best_score all_scores
  ok (only (holders best all_scores))

-- `"WIN" if winner else "DRAW"`, where the number 0 is the empty text.
abbrev pub win_or_draw : Option ℕ → ResultType
win_or_draw none = ResultType.draw
win_or_draw (some zero) = ResultType.draw
win_or_draw (some (suc n)) = ResultType.win

unfoldable pub finish_by_tiebreak : FinishReason → Live → Result Live
unfolding tiebreak_winner
finish_by_tiebreak reason live = do
  winner ← tiebreak_winner live.state
  ok (finish_match (win_or_draw winner) winner reason EventType.battle_finished live)
