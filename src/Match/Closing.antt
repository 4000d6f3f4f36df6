-- ===== src/Match/Closing.antt =====
-- The end of a turn and of a phase in a match of jjk_arena/battle_v2/manager.py: the energy of the
-- next turn and the new timer stand beside what a match keeps.
use fantasy_draft.Base.{ℕ, ◌≡◌, refl, ◌∙◌, inl, inr, Bool, true, not, ◌||◌, ◌==◌, none, is_some}
use fantasy_draft.Dict.{lookup}
use fantasy_draft.Result.{ok, ◌>>=◌, Yields, Yields-bind, Yields-ok}
use fantasy_draft.Invariant.{if_keeps, maybe_keeps}
use fantasy_draft.Models.{BattlePhase, phase_eq, BattleState}
use fantasy_draft.Match.{MatchState, Live}
use fantasy_draft.Match.Ledger.{complete_player_turn}
use fantasy_draft.Match.Phases.{Setting, arm, grant_energy, grant_next_turn_energy, time_out}
use fantasy_draft.Match.Ending.{Kept-trans, Goes, Beside, Goes-Beside, complete_player_turn-Goes}

pub grant_next_turn_energy-Beside :
    (setting : Setting) (previous : ℕ) (state : MatchState)
    → Beside state (grant_next_turn_energy setting previous state)
unfolding grant_next_turn_energy arm grant_energy
grant_next_turn_energy-Beside setting previous state =
    let same : Beside state state = record {
      kept = record { room = refl; away = refl; deadlines = refl; used = refl };
      result = refl;
      finished = refl;
      pause = refl;
      suspended = refl;
      turns = refl;
    } in
    if_keeps (Beside state)
      (not (phase_eq state.battle.phase BattlePhase.planning) || is_some state.battle.winner_id)
      (λ _. record {
        kept = record { room = refl; away = refl; deadlines = refl; used = refl };
        result = refl;
        finished = refl;
        pause = refl;
        suspended = refl;
        turns = refl;
      })
      λ _.
        if_keeps (Beside state) (state.battle.turn_player_id == previous) (λ _. same)
          λ _. record {
            kept = record { room = refl; away = refl; deadlines = refl; used = refl };
            result = refl;
            finished =
                maybe_keeps
                  (λ (b : BattleState).
                    phase_eq b.phase BattlePhase.finished
                    ≡ phase_eq state.battle.phase BattlePhase.finished)
                  (lookup state.battle.turn_player_id state.battle.players) refl (λ player _. refl);
            pause = refl;
            suspended = refl;
            turns = refl;
          }

-- The state with another deadline and revision.
re_armed :
    (setting : Setting) (n : ℕ) (state : MatchState)
    → Beside state (record (arm setting state) { state_revision = n })
unfolding arm
re_armed setting n state = record {
  kept = record { room = refl; away = refl; deadlines = refl; used = refl };
  result = refl;
  finished = refl;
  pause = refl;
  suspended = refl;
  turns = refl;
}

-- What goes for a match does not depend on the battle that it had.
Goes-rebase :
    (live : Live) (battle : BattleState) {after : Live}
    → Goes 1 (record live { state = record live.state { battle = battle } }) after
    → Goes 1 live after
Goes-rebase live battle g = record {
  turns = g.turns;
  kept = record {
    room = g.kept.room;
    away = g.kept.away;
    deadlines = g.kept.deadlines;
    used = g.kept.used;
  };
  ending = elim g.ending [
    | inl s ↦ inl (record {
      unfinished = s.unfinished;
      no_result = s.no_result;
      quiet = s.quiet;
      pause = s.pause;
      suspended = s.suspended;
      within = s.within;
    })
    | inr e ↦ inr (record {
      finished = e.finished;
      result = e.result;
      announced = e.announced;
      unpaused = e.unpaused;
      released = e.released;
    })
  ];
}

-- A turn that is completed on whatever battle, and what is done after it.
pub completed-Goes :
    (player_id : ℕ) (timeout : Bool) (live : Live) (battle : BattleState) (next : Live → MatchState)
    → live.state.result_type ≡ none
    → ((after : Live) → Beside after.state (next after))
    → Yields (Goes 1 live) (
        complete_player_turn player_id timeout
          (record live { state = record live.state { battle = battle } })
        >>= λ completed. ok (record completed { state = next completed }))
completed-Goes player_id timeout live battle next none_yet beside =
    let begun : Live = record live { state = record live.state { battle = battle } } in
    Yields-bind (Goes 1 live) (complete_player_turn player_id timeout begun) _ λ after e.
      Goes-Beside
        (Goes-rebase live battle
          (Yields-ok (Goes 1 begun) (complete_player_turn-Goes player_id timeout begun none_yet) e))
        (beside after)

Beside-trans : {a b c : MatchState} → Beside a b → Beside b c → Beside a c
Beside-trans p q = record {
  kept = Kept-trans p.kept q.kept;
  result = q.result ∙ p.result;
  finished = q.finished ∙ p.finished;
  pause = q.pause ∙ p.pause;
  suspended = q.suspended ∙ p.suspended;
  turns = q.turns ∙ p.turns;
}

pub time_out-Goes :
    (setting : Setting) (live : Live)
    → live.state.result_type ≡ none
    → Yields (Goes 1 live) (time_out setting live)
unfolding time_out
time_out-Goes setting live none_yet =
    completed-Goes live.state.battle.turn_player_id true live _ _ none_yet λ after.
      Beside-trans
        (grant_next_turn_energy-Beside setting live.state.battle.turn_player_id after.state)
        (re_armed setting _
          (grant_next_turn_energy setting live.state.battle.turn_player_id after.state))
