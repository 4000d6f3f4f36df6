-- ===== src/Match/Ending.antt =====
-- How operations of jjk_arena/battle_v2/manager.py end a match: what finishing, the limits of a turn
-- and a completed turn do to the result and to the callbacks.
use fantasy_draft.Base.{
  ℕ, ◌+◌, ◌<◌, ◌≡◌, refl, ◌∙◌, ◌⊎◌, inl, inr, Bool, true, false, ◌&&◌, Option, none, ◌==◌, leb,
  is_some, arith,
}
use fantasy_draft.Result.{Yields, Yields-bind, Yields-map}
use fantasy_draft.Invariant.{bool_keeps, if_keeps}
use fantasy_draft.Models.{EventType}
use fantasy_draft.Turn.{log_event}
use fantasy_draft.Match.{ResultType, FinishReason, MatchState, Live}
use fantasy_draft.Match.Finish.{
  is_finished, is_settled, announce, finished_state, finish_match, finish_by_tiebreak,
  tiebreak_winner,
}
use fantasy_draft.Match.Ledger.{
  max_turns, capture_turn_ledger, record_defeat, count_timeout, count_turn, has_timed_out, warn,
  apply_limits, complete_player_turn,
}

-- What a turn's end leaves alone.
pub record Kept (before after : MatchState) : Type 0 where
  pub room : after.room_id ≡ before.room_id
  pub away : after.disconnected_at ≡ before.disconnected_at
  pub deadlines : after.disconnect_deadlines ≡ before.disconnect_deadlines
  pub used : after.disconnect_seconds_used ≡ before.disconnect_seconds_used

pub Kept-trans : {a b c : MatchState} → Kept a b → Kept b c → Kept a c
Kept-trans p q = record {
  room = q.room ∙ p.room;
  away = q.away ∙ p.away;
  deadlines = q.deadlines ∙ p.deadlines;
  used = q.used ∙ p.used;
}

-- The match goes on.
pub record Stays (before after : Live) : Type 0 where
  pub unfinished : is_finished after.state ≡ false
  pub no_result : after.state.result_type ≡ none
  pub quiet : after.callbacks ≡ before.callbacks
  pub pause : after.state.paused ≡ before.state.paused
  pub suspended : after.state.paused_phase ≡ before.state.paused_phase
  pub within : after.state.player_turns_completed < max_turns

-- The match has a result, and its room was announced once.
pub record Ends (before after : Live) : Type 0 where
  pub finished : is_finished after.state ≡ true
  pub result : is_some after.state.result_type ≡ true
  pub announced : after.callbacks ≡ announce before.state.room_id before.callbacks
  pub unpaused : after.state.paused ≡ false
  pub released : after.state.paused_phase ≡ none

-- What an operation that completes `n` turns does to a match without a result.
pub record Goes (n : ℕ) (before after : Live) : Type 0 where
  pub turns : after.state.player_turns_completed ≡ before.state.player_turns_completed + n
  pub kept : Kept before.state after.state
  pub ending : Stays before after ⊎ Ends before after

module _ (result : ResultType) (winner : Option ℕ) (reason : FinishReason) (type : EventType) where
  pub finish_match-Goes :
      (live : Live)
      → live.state.result_type ≡ none
      → Goes 0 live (finish_match result winner reason type live)
  unfolding finish_match finished_state log_event
  finish_match-Goes live none_yet = ground (arith, none_yet)

  pub finish_match_settled :
      (live : Live)
      → is_settled live.state ≡ true
      → finish_match result winner reason type live ≡ live
  unfolding finish_match
  finish_match_settled live h = rw h refl

pub tiebreak-Goes :
    (reason : FinishReason) (live : Live)
    → live.state.result_type ≡ none
    → Yields (Goes 0 live) (finish_by_tiebreak reason live)
unfolding finish_by_tiebreak
tiebreak-Goes reason live none_yet =
    Yields-bind (Goes 0 live) (tiebreak_winner live.state) _
      λ winner _. finish_match-Goes _ winner reason EventType.battle_finished live none_yet

pub Goes-same :
    {live : Live}
    → is_finished live.state ≡ false
    → live.state.result_type ≡ none
    → live.state.player_turns_completed < max_turns
    → Goes 0 live live
Goes-same going none_yet within = record {
  turns = omega arith;
  kept = record { room = refl; away = refl; deadlines = refl; used = refl };
  ending = inl (record {
    unfinished = going;
    no_result = none_yet;
    quiet = refl;
    pause = refl;
    suspended = refl;
    within = within;
  });
}

module _ (player_id : ℕ) (timeout : Bool) where
  apply_limits-Goes :
      (live : Live)
      → is_finished live.state ≡ false
      → live.state.result_type ≡ none
      → Yields (Goes 0 live) (apply_limits player_id timeout live)
  unfolding apply_limits warn log_event
  apply_limits-Goes live going none_yet =
      bool_keeps (Yields (Goes 0 live)) (timeout && has_timed_out player_id live.state)
        (λ _. finish_match-Goes _ _ _ _ live none_yet)
        λ _.
          bool_keeps (Yields (Goes 0 live)) (leb max_turns live.state.player_turns_completed)
            (λ _. tiebreak-Goes FinishReason.hard_cap live none_yet)
            λ few.
              bool_keeps (Yields (Goes 0 live)) (leb 12 live.state.no_progress_turns)
                (λ _. tiebreak-Goes FinishReason.no_progress live none_yet)
                λ _.
                  if_keeps (Goes 0 live) (live.state.no_progress_turns == 8)
                    (λ _. record {
                      turns = omega arith;
                      kept = record { room = refl; away = refl; deadlines = refl; used = refl };
                      ending = inl (record {
                        unfinished = going;
                        no_result = none_yet;
                        quiet = refl;
                        pause = refl;
                        suspended = refl;
                        within = ground arith;
                      });
                    })
                    (λ _. Goes-same going none_yet (ground arith))

  -- A match with a result keeps it through the limits.
  record Rests (before after : Live) : Type 0 where
    turns : after.state.player_turns_completed ≡ before.state.player_turns_completed
    settled : is_settled after.state ≡ true
    quiet : after.callbacks ≡ before.callbacks
    pause : after.state.paused ≡ before.state.paused
    suspended : after.state.paused_phase ≡ before.state.paused_phase
    kept : Kept before.state after.state

  apply_limits-Rests :
      (live : Live)
      → is_settled live.state ≡ true
      → Yields (Rests live) (apply_limits player_id timeout live)
  unfolding apply_limits warn log_event finish_match finish_by_tiebreak
  apply_limits-Rests live h =
      let same : Rests live live = record {
        turns = refl;
        settled = h;
        quiet = refl;
        pause = refl;
        suspended = refl;
        kept = record { room = refl; away = refl; deadlines = refl; used = refl };
      } in
      bool_keeps (Yields (Rests live)) (timeout && has_timed_out player_id live.state)
        (λ _. if_keeps (Rests live) (is_settled live.state) (λ _. same) (λ e. absurd cc))
        λ _.
          bool_keeps (Yields (Rests live)) (leb max_turns live.state.player_turns_completed)
            (λ _.
              Yields-bind (Rests live) (tiebreak_winner live.state) _
                λ w _. if_keeps (Rests live) (is_settled live.state) (λ _. same) (λ e. absurd cc))
            λ _.
              bool_keeps (Yields (Rests live)) (leb 12 live.state.no_progress_turns)
                (λ _.
                  Yields-bind (Rests live) (tiebreak_winner live.state) _ λ w _.
                    if_keeps (Rests live) (is_settled live.state) (λ _. same) (λ e. absurd cc))
                λ _.
                  if_keeps (Rests live) (live.state.no_progress_turns == 8)
                    (λ _. record {
                      turns = refl;
                      settled = h;
                      quiet = refl;
                      pause = refl;
                      suspended = refl;
                      kept = record { room = refl; away = refl; deadlines = refl; used = refl };
                    })
                    (λ _. same)

  record_defeat-cases :
      (live : Live)
      → live.state.result_type ≡ none
      → ((record_defeat live ≡ live) × (is_finished live.state ≡ false))
        ⊎ (Kept live.state (record_defeat live).state
            × Ends live (record_defeat live)
            × ((record_defeat live).state.player_turns_completed
                ≡ live.state.player_turns_completed))
  unfolding record_defeat finish_match finished_state log_event
  record_defeat-cases live none_yet = ground (arith, none_yet)

  abbrev counted : Live → Live
  counted live = record live { state = count_turn player_id timeout live.state }

  counted_on :
      (live : Live)
      → is_finished live.state ≡ false
      → live.state.result_type ≡ none
      → Yields (Goes 1 live) (apply_limits player_id timeout (counted live))
  unfolding count_turn count_timeout capture_turn_ledger
  counted_on live going none_yet =
      Yields-map (Goes 0 (counted live)) (Goes 1 live)
        (apply_limits player_id timeout (counted live))
        (λ after g. record {
          turns = (let same = g.turns in omega arith);
          kept = record {
            room = g.kept.room;
            away = g.kept.away;
            deadlines = g.kept.deadlines;
            used = g.kept.used;
          };
          ending = elim g.ending [
            | inl s ↦ inl (record {
              unfinished = s.unfinished;
              no_result = s.no_result;
              quiet = s.quiet;
              pause = s.pause;
              suspended = s.suspended;
              within = s.within;
            })
            | inr e ↦ inr (record {
              finished = e.finished;
              result = e.result;
              announced = e.announced;
              unpaused = e.unpaused;
              released = e.released;
            })
          ];
        })
        (apply_limits-Goes (counted live) going none_yet)

  counted_off :
      (live settled : Live)
      → Kept live.state settled.state
      → Ends live settled
      → settled.state.player_turns_completed ≡ live.state.player_turns_completed
      → Yields (Goes 1 live) (apply_limits player_id timeout (counted settled))
  unfolding count_turn count_timeout capture_turn_ledger
  counted_off live settled kept ended turns =
      Yields-map (Rests (counted settled)) (Goes 1 live)
        (apply_limits player_id timeout (counted settled))
        (λ after g. record {
          turns = (let same = g.turns in omega arith);
          kept = Kept-trans kept (record {
            room = g.kept.room;
            away = g.kept.away;
            deadlines = g.kept.deadlines;
            used = g.kept.used;
          });
          ending = inr (record {
            finished = (let s = g.settled in ground arith);
            result = (let s = g.settled in ground arith);
            announced = g.quiet ∙ ended.announced;
            unpaused = g.pause ∙ ended.unpaused;
            released = g.suspended ∙ ended.released;
          });
        })
        (apply_limits-Rests (counted settled) (ground (arith, ended.finished, ended.result)))

  -- A turn that is over leaves a match without a result as it was or ends it, and then announces it.
  pub complete_player_turn-Goes :
      (live : Live)
      → live.state.result_type ≡ none
      → Yields (Goes 1 live) (complete_player_turn player_id timeout live)
  unfolding complete_player_turn
  complete_player_turn-Goes live none_yet = elim (record_defeat-cases live none_yet) [
    | inl (same, going) ↦ rw same (counted_on live going none_yet)
    | inr (kept, ended, turns) ↦ counted_off live (record_defeat live) kept ended turns
  ]

-- A state with the same standing as another one.
pub record Beside (before after : MatchState) : Type 0 where
  pub kept : Kept before after
  pub result : after.result_type ≡ before.result_type
  pub finished : is_finished after ≡ is_finished before
  pub turns : after.player_turns_completed ≡ before.player_turns_completed
  pub pause : after.paused ≡ before.paused
  pub suspended : after.paused_phase ≡ before.paused_phase

pub Goes-Beside :
    {n : ℕ} {live middle : Live} {state : MatchState}
    → Goes n live middle
    → Beside middle.state state
    → Goes n live (record middle { state = state })
Goes-Beside g b = record {
  turns = b.turns ∙ g.turns;
  kept = Kept-trans g.kept b.kept;
  ending = elim g.ending [
    | inl s ↦ inl (record {
      unfinished = b.finished ∙ s.unfinished;
      no_result = b.result ∙ s.no_result;
      quiet = s.quiet;
      pause = b.pause ∙ s.pause;
      suspended = b.suspended ∙ s.suspended;
      within = rw b.turns s.within;
    })
    | inr e ↦ inr (record {
      finished = b.finished ∙ e.finished;
      result = rw b.result e.result;
      announced = e.announced;
      unpaused = b.pause ∙ e.unpaused;
      released = b.suspended ∙ e.released;
    })
  ];
}
