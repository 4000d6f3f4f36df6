-- ===== src/Match/Limits.antt =====
-- A completed turn always comes to its end and bounds the match, `_complete_player_turn` of
-- jjk_arena/battle_v2/manager.py.
use fantasy_draft.Base.{
  ℕ, ◌+◌, ◌<◌, ◌≡◌, refl, inl, inr, Bool, true, false, ◌&&◌, ◌==◌, leb, Option, none, some, List,
  [], ◌∷◌, is_some, get_or, arith, All, Option-cases,
}
use fantasy_draft.Int.{ℤ}
use fantasy_draft.Dict.{Dict, lookup}
use fantasy_draft.Result.{Result, ok, ◌>>=◌, Yields-ok}
use fantasy_draft.Invariant.{if_keeps, bool_keeps}
use fantasy_draft.Models.{EventType, CharacterState, PlayerState}
use fantasy_draft.Slots.{get_at}
use fantasy_draft.Turn.{log_event}
use fantasy_draft.Match.{ResultType, FinishReason, MatchState, Live}
use fantasy_draft.Match.Finish.{
  Score, is_finished, finished_state, finish_match, active_characters, score_of, scores, best_score,
  holders, only, tiebreak_winner, finish_by_tiebreak,
}
use fantasy_draft.Match.Ledger.{
  max_turns, capture_turn_ledger, record_defeat, count_timeout, count_turn, has_timed_out, warn,
  apply_limits, complete_player_turn,
}
use fantasy_draft.Match.Ending.{Goes, complete_player_turn-Goes}
use fantasy_draft.Match.Soundness.{record_defeat-players}

-- Every active slot of a player names a character of its team.
abbrev pub SlotsStand : PlayerState → Type 0
SlotsStand player = All (λ slot. is_some (get_at player.team slot) ≡ true) player.active_slots

abbrev first_entry {ℓ} : {A : Type ℓ} → List A → Option A
first_entry [] = none
first_entry (x ∷ xs) = some x

-- There are players, and all their active slots stand.
pub record IsPlayable (players : Dict PlayerState) : Type 0 where
  pub some_player : is_some (first_entry players) ≡ true
  pub slots : All (λ e. SlotsStand e.1) players

abbrev Succeeds {ℓ} : {X : Type ℓ} → Result X → Type ℓ
Succeeds {X = X} r = (x : X) × (r ≡ ok x)

active_characters-Succeeds :
    (team : List CharacterState) (slots : List ℤ)
    → All (λ slot. is_some (get_at team slot) ≡ true) slots
    → Succeeds (active_characters team slots)
unfolding active_characters
active_characters-Succeeds team [] h = ([], refl)
active_characters-Succeeds team (slot ∷ slots) h = elim (Option-cases (get_at team slot)) [
  | inl out ↦ absurd (let e = (rw out at h.0) in cc)
  | inr (c, there) ↦
      let (rest, same) = active_characters-Succeeds team slots h.1 in
      (c ∷ rest, rw (active_characters, there, same) refl)
]

scores-Succeeds :
    (state : MatchState) (players : Dict PlayerState)
    → All (λ e. SlotsStand e.1) players
    → (l : Dict Score) × (scores state players ≡ ok l)
      × (is_some (first_entry players) ≡ is_some (first_entry l))
unfolding scores
scores-Succeeds state [] h = ([], refl, refl)
scores-Succeeds state ((id, player) ∷ players) h =
    let (active, e) = active_characters-Succeeds player.team player.active_slots h.0 in
    let (rest, f, _) = scores-Succeeds state players h.1 in
    ((id, score_of state id active) ∷ rest, (rw (scores, e, f) refl), refl)

best_Succeeds :
    (l : Dict Score)
    → is_some (first_entry l) ≡ true
    → Succeeds (best_score l >>= λ best. ok (only (holders best l)))
unfolding best_score
best_Succeeds [] h = cc
best_Succeeds (e ∷ l) h = (_, refl)

tiebreak_winner-Succeeds :
    (state : MatchState) → IsPlayable state.battle.players → Succeeds (tiebreak_winner state)
unfolding tiebreak_winner
tiebreak_winner-Succeeds state h =
    let (l, e, same) = scores-Succeeds state state.battle.players h.slots in
    let (w, f) = best_Succeeds l (rw (← same) h.some_player) in (w, rw (tiebreak_winner, e) f)

-- What the limits leave: a match that goes on is within all of them.
pub record IsWithin (timeout : Bool) (player_id : ℕ) (state : MatchState) : Type 0 where
  pub turns : state.player_turns_completed < max_turns
  pub progress : state.no_progress_turns < 12
  pub in_a_row : timeout ≡ true → get_or (lookup player_id state.timeout_consecutive) 0 < 3
  pub in_all : timeout ≡ true → get_or (lookup player_id state.timeout_total) 0 < 5

module _ (player_id : ℕ) (timeout : Bool) where
  -- The limits decide, and what goes on is within them.
  abbrev Bounded : Result Live → Type 0
  Bounded r =
      (after : Live) × (r ≡ ok after)
      × (is_finished after.state ≡ false → IsWithin timeout player_id after.state)

  finished :
      (result : ResultType) (winner : Option ℕ) (reason : FinishReason) (type : EventType)
      (live : Live)
      → Bounded (ok (finish_match result winner reason type live))
  unfolding finish_match finished_state log_event
  finished result winner reason type live =
      (finish_match result winner reason type live, refl, λ on. absurd (ground arith))

  tiebroken :
      (reason : FinishReason) (live : Live)
      → IsPlayable live.state.battle.players
      → Bounded (finish_by_tiebreak reason live)
  unfolding finish_by_tiebreak
  tiebroken reason live h =
      let (w, e) = tiebreak_winner-Succeeds live.state h in
      rw (finish_by_tiebreak, e) (finished _ w reason EventType.battle_finished live)

  apply_limits-Bounded :
      (live : Live)
      → IsPlayable live.state.battle.players
      → Bounded (apply_limits player_id timeout live)
  unfolding apply_limits warn log_event has_timed_out
  apply_limits-Bounded live h =
      bool_keeps Bounded (timeout && has_timed_out player_id live.state)
        (λ _. finished _ _ _ _ live)
        λ in_time.
          bool_keeps Bounded (leb max_turns live.state.player_turns_completed)
            (λ _. tiebroken FinishReason.hard_cap live h)
            λ few.
              bool_keeps Bounded (leb 12 live.state.no_progress_turns)
                (λ _. tiebroken FinishReason.no_progress live h)
                λ moving.
                  let within : IsWithin timeout player_id live.state = record {
                    turns = ground arith;
                    progress = ground arith;
                    in_a_row = λ e. ground arith;
                    in_all = λ e. ground arith;
                  } in
                  (
                    _,
                    refl,
                    λ _.
                        if_keeps (λ (l : Live). IsWithin timeout player_id l.state)
                          (live.state.no_progress_turns == 8)
                          (λ _. record {
                            turns = within.turns;
                            progress = within.progress;
                            in_a_row = within.in_a_row;
                            in_all = within.in_all;
                          })
                          (λ _. within),
                  )

  -- A turn of a match without a result, whose players' active slots all name characters, is always
  -- completed without an error and counted once; afterwards the match is finished, or it has
  -- completed fewer than 72 turns, fewer than 12 in a row without progress, and, after a timeout, its
  -- player has fewer than three timeouts in a row and fewer than five in all.
  pub complete_player_turn_bounds :
      (live : Live)
      → live.state.result_type ≡ none
      → IsPlayable live.state.battle.players
      → (after : Live) × (complete_player_turn player_id timeout live ≡ ok after)
        × (after.state.player_turns_completed ≡ live.state.player_turns_completed + 1)
        × (is_finished after.state ≡ false → IsWithin timeout player_id after.state)
  unfolding complete_player_turn count_turn count_timeout capture_turn_ledger
  complete_player_turn_bounds live none_yet h =
      let counted : Live = record (record_defeat live) {
        state = count_turn player_id timeout (record_defeat live).state;
      } in
      let (after, e, within) = apply_limits-Bounded counted (rw (record_defeat-players live) h) in
      (
        after,
        e,
        (Yields-ok (Goes 1 live) (complete_player_turn-Goes player_id timeout live none_yet)
            e).turns,
        within,
      )
