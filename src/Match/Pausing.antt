-- ===== src/Match/Pausing.antt =====
-- Who is away, whether the match is paused, and what was announced: what every operation of
-- jjk_arena/battle_v2/manager.py keeps.
use fantasy_draft.Base.{
  ℕ, ◌+◌, ◌*◌, ◌≤◌, ◌<◌, ◌≡◌, refl, ◌∙◌, inl, inr, true, false, not, Option, none, some, [], ◌∷◌,
  is_some, arith,
}
use fantasy_draft.Dict.{lookup}
use fantasy_draft.Models.{BattlePhase, phase_eq}
use fantasy_draft.Match.{MatchState, Callbacks, Live}
use fantasy_draft.Match.Finish.{is_finished, announce, open_queue, close_queue}
use fantasy_draft.Match.Ledger.{max_turns}
use fantasy_draft.Match.Presence.{max_budget, grace, is_empty, used_by}
use fantasy_draft.Match.Ending.{Kept, Goes}
use fantasy_draft.Match.Final.{close_open}

-- Nobody has used more than its budget, the players with a deadline are the absent ones, and no
-- deadline is later than the grace allows.
pub record IsTimed (state : MatchState) : Type 0 where
  pub budget : (id : ℕ) → used_by id state ≤ max_budget
  pub both :
      (id : ℕ)
      → is_some (lookup id state.disconnect_deadlines) ≡ is_some (lookup id state.disconnected_at)
  pub soon :
      (id deadline started : ℕ)
      → lookup id state.disconnect_deadlines ≡ some deadline
      → lookup id state.disconnected_at ≡ some started
      → deadline ≤ started + grace * 1000

-- A match that goes on is paused exactly while somebody is away, and knows a phase to resume that is
-- not the end; it has no result, was not announced, and has completed fewer than 72 turns. A finished match is not paused, has a result,
-- was announced once, and has completed 72 turns at most.
pub record IsOrderly (room : ℕ) (live : Live) : Type 0 where
  pub timed : IsTimed live.state
  pub named : live.state.room_id ≡ some room
  pub idle : live.callbacks.pending ≡ none
  pub paused :
      is_finished live.state ≡ false → live.state.paused ≡ not (is_empty live.state.disconnected_at)
  pub resumable :
      (phase : BattlePhase)
      → live.state.paused_phase ≡ some phase
      → phase_eq phase BattlePhase.finished ≡ false
  pub going :
      is_finished live.state ≡ false
      → (live.state.result_type ≡ none) × (live.callbacks.published ≡ [])
  pub turns : live.state.player_turns_completed ≤ max_turns
  pub left : is_finished live.state ≡ false → live.state.player_turns_completed < max_turns
  pub over :
      is_finished live.state ≡ true
      → (live.state.paused ≡ false)
        × (is_some live.state.result_type ≡ true)
        × (live.callbacks.published ≡ room ∷ [])

IsTimed-Kept : {a b : MatchState} → Kept a b → IsTimed a → IsTimed b
IsTimed-Kept k t = record {
  budget = λ id. rw k.used (t.budget id);
  both = λ id. rw (k.away, k.deadlines) (t.both id);
  soon = λ id d s e f. t.soon id d s (rw k.deadlines at e) (rw k.away at f);
}

-- The parts of a match that stand beside its battle.
pub record Alike (before after : Live) : Type 0 where
  pub kept : Kept before.state after.state
  pub result : after.state.result_type ≡ before.state.result_type
  pub quiet : after.callbacks ≡ before.callbacks
  pub pause : after.state.paused ≡ before.state.paused
  pub suspended : after.state.paused_phase ≡ before.state.paused_phase
  pub turns : after.state.player_turns_completed ≡ before.state.player_turns_completed

told_idle :
    (room : ℕ) (callbacks : Callbacks)
    → callbacks.pending ≡ none
    → (announce (some room) callbacks).pending ≡ none
unfolding announce
told_idle room callbacks idle = rw idle refl

told_once :
    (room : ℕ) (callbacks : Callbacks)
    → callbacks.pending ≡ none
    → callbacks.published ≡ []
    → (announce (some room) callbacks).published ≡ room ∷ []
unfolding announce
told_once room callbacks idle empty = rw (idle, empty) refl

pub Alike-refl : {live : Live} → Alike live live
Alike-refl = record {
  kept = record { room = refl; away = refl; deadlines = refl; used = refl };
  result = refl;
  quiet = refl;
  pause = refl;
  suspended = refl;
  turns = refl;
}

module _ (room : ℕ) {before : Live} (h : IsOrderly room before)
    (going : is_finished before.state ≡ false) where
  -- Where the parts beside the battle stay as they are, a match that goes on stays orderly.
  pub Alike-IsOrderly :
      {after : Live} → Alike before after → is_finished after.state ≡ false → IsOrderly room after
  Alike-IsOrderly a on = record {
    turns = rw a.turns h.turns;
    left = λ _. rw a.turns (h.left going);
    timed = IsTimed-Kept a.kept h.timed;
    named = a.kept.room ∙ h.named;
    idle = rw a.quiet h.idle;
    paused = λ _. rw (a.pause, a.kept.away) (h.paused going);
    resumable = λ phase e. h.resumable phase (rw a.suspended at e);
    going = λ _. (a.result ∙ (h.going going).0, rw a.quiet (h.going going).1);
    over = λ e. absurd cc;
  }

  -- What a turn's end does to such a match.
  pub Goes-IsOrderly : {n : ℕ} {after : Live} → n ≤ 1 → Goes n before after → IsOrderly room after
  Goes-IsOrderly {n} {after} few g = elim g.ending [
    | inl s ↦
        let counted : (x : ℕ) → x < max_turns → x ≤ max_turns = λ x lt. omega arith in
        record {
          timed = IsTimed-Kept g.kept h.timed;
          named = g.kept.room ∙ h.named;
          idle = rw s.quiet h.idle;
          paused = λ _. rw (s.pause, g.kept.away) (h.paused going);
          resumable = λ phase e. h.resumable phase (rw s.suspended at e);
          going = λ _. (s.no_result, rw s.quiet (h.going going).1);
          over = λ e. absurd (let x = s.unfinished in cc);
          turns = counted _ s.within;
          left = λ _. s.within;
        }
    | inr e ↦
        let told : after.callbacks ≡ announce (some room) before.callbacks =
          e.announced ∙ rw h.named refl in
        let some_left = h.left going in
        let counted = g.turns in
        record {
          timed = IsTimed-Kept g.kept h.timed;
          named = g.kept.room ∙ h.named;
          idle = rw told (told_idle room before.callbacks h.idle);
          paused = λ on. absurd (let x = e.finished in cc);
          resumable = λ phase p. absurd (let x = e.released in cc);
          going = λ on. absurd (let x = e.finished in cc);
          over = λ _. (
            e.unpaused,
            e.result,
            rw told (told_once room before.callbacks h.idle (h.going going).1),
          );
          turns = omega arith;
          left = λ on. absurd (let x = e.finished in cc);
        }
  ]

close_announced :
    (o : Option ℕ) (callbacks : Callbacks)
    → callbacks.pending ≡ none
    → close_queue callbacks.pending true (announce o (open_queue callbacks)) ≡ announce o callbacks
unfolding open_queue close_queue announce
close_announced none callbacks idle = close_open callbacks idle
close_announced (some room) callbacks idle = rw idle refl

-- A block that queues callbacks does for the outside what its body does within.
pub closed-Goes :
    {n : ℕ} {live after : Live}
    → live.callbacks.pending ≡ none
    → Goes n (record live { callbacks = open_queue live.callbacks }) after
    → Goes n live
        (record after { callbacks = close_queue live.callbacks.pending true after.callbacks })
closed-Goes {live = live} idle g = record {
  turns = g.turns;
  kept = record {
    room = g.kept.room;
    away = g.kept.away;
    deadlines = g.kept.deadlines;
    used = g.kept.used;
  };
  ending = elim g.ending [
    | inl s ↦ inl (record {
      unfinished = s.unfinished;
      no_result = s.no_result;
      quiet = rw s.quiet (close_open live.callbacks idle);
      pause = s.pause;
      suspended = s.suspended;
      within = s.within;
    })
    | inr e ↦ inr (record {
      finished = e.finished;
      result = e.result;
      announced = rw e.announced (close_announced live.state.room_id live.callbacks idle);
      unpaused = e.unpaused;
      released = e.released;
    })
  ];
}
