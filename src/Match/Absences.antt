-- ===== src/Match/Absences.antt =====
-- Absences keep a match orderly, `disconnect_player`, `reconnect_player` and `expire_disconnects` of
-- jjk_arena/battle_v2/manager.py.
use fantasy_draft.Base.{
  ℕ, ◌+◌, ◌-◌, ◌*◌, ◌≤◌, ◌<◌, ◌≡◌, refl, sym, ◌∙◌, inl, inr, Bool, true, false, not, ◌||◌, ◌==◌,
  leb, Option, none, some, List, [], ◌∷◌, if◌then◌else◌, is_some, arith, get_or, Bool-cases, length,
}
use fantasy_draft.Dict.{Dict, lookup, insert, erase, lookup-insert, lookup-erase}
use fantasy_draft.Result.{Yields}
use fantasy_draft.Invariant.{if_keeps, bool_keeps, maybe_keeps}
use fantasy_draft.Models.{BattlePhase, phase_eq}
use fantasy_draft.Turn.{player_ids}
use fantasy_draft.Match.{MatchState, Callbacks, Live}
use fantasy_draft.Match.Finish.{is_finished, open_queue, close_queue, defer_finished_callbacks}
use fantasy_draft.Match.Ledger.{max_turns}
use fantasy_draft.Match.Presence.{
  max_budget, grace, min, is_empty, used_by, mark_away, pause, is_player, is_away,
  disconnect_player, charge, resume, mark_back, reconnect_player, expired_ids, charge_all,
  end_absence, first_connected, expire_away, expire_disconnects,
}
use fantasy_draft.Match.Ending.{Goes, Goes-same, finish_match-Goes}
use fantasy_draft.Match.Pausing.{IsTimed, IsOrderly, Goes-IsOrderly, closed-Goes}
use fantasy_draft.Match.Final.{close_open}

insert_there : {V : Type 0} (k : ℕ) (v : V) (d : Dict V) → is_empty (insert k v d) ≡ false
unfolding insert
insert_there k v [] = refl
insert_there k v ((j, w) ∷ d) = ground arith

lookup_there : {V : Type 0} (k : ℕ) (d : Dict V) {v : V} → lookup k d ≡ some v → is_empty d ≡ false
unfolding lookup
lookup_there k [] e = cc
lookup_there k (x ∷ d) e = refl

insert_both :
    {V W : Type 0} (k j : ℕ) (v : V) (w : W) (d : Dict V) (e : Dict W)
    → is_some (lookup j d) ≡ is_some (lookup j e)
    → is_some (lookup j (insert k v d)) ≡ is_some (lookup j (insert k w e))
insert_both k j v w d e h =
    rw (lookup-insert k j v d, lookup-insert k j w e)
      (elim (Bool-cases (k == j)) [ inl here ↦ rw here refl | inr there ↦ rw there h ])

erase_both :
    {V W : Type 0} (k j : ℕ) (d : Dict V) (e : Dict W)
    → is_some (lookup j d) ≡ is_some (lookup j e)
    → is_some (lookup j (erase k d)) ≡ is_some (lookup j (erase k e))
erase_both k j d e h =
    rw (lookup-erase k j d, lookup-erase k j e)
      (elim (Bool-cases (k == j)) [ inl here ↦ rw here refl | inr there ↦ rw there h ])

mark_away-IsTimed :
    (player_id now : ℕ) (state : MatchState)
    → IsTimed state
    → IsTimed (mark_away player_id now state)
unfolding mark_away
mark_away-IsTimed player_id now state t = record {
  budget = t.budget;
  both = λ id.
      insert_both player_id id _ _ state.disconnect_deadlines state.disconnected_at (t.both id);
  soon = λ id deadline started d s.
      soon_for id deadline started (t.soon id deadline started)
        (sym (lookup-insert player_id id _ state.disconnect_deadlines) ∙ d)
        (sym (lookup-insert player_id id now state.disconnected_at) ∙ s);
}
  where
    soon_for :
        (id deadline started : ℕ)
        → (lookup id state.disconnect_deadlines ≡ some deadline
            → lookup id state.disconnected_at ≡ some started
            → deadline ≤ started + grace * 1000)
        → (if player_id == id
            then some (now + min grace (max_budget - used_by player_id state) * 1000)
            else lookup id state.disconnect_deadlines)
          ≡ some deadline
        → (if player_id == id then some now else lookup id state.disconnected_at) ≡ some started
        → deadline ≤ started + grace * 1000
    soon_for id deadline started before d s = elim (Bool-cases (player_id == id)) [
      | inl here ↦
          let e : some (now + min grace (max_budget - used_by player_id state) * 1000)
              ≡ some deadline =
            rw here at d in
          let f : some now ≡ some started = rw here at s in ground arith
      | inr there ↦ before (rw there at d) (rw there at s)
    ]

charge-IsTimed :
    (player_id started now : ℕ) (state : MatchState)
    → IsTimed state
    → IsTimed (charge player_id started now state)
unfolding charge
charge-IsTimed player_id started now state t = record {
  budget = λ id.
      rw (lookup-insert player_id id _ state.disconnect_seconds_used)
        (elim (Bool-cases (player_id == id)) [
          | inl here ↦ rw here (ground arith)
          | inr there ↦ rw there (t.budget id)
        ]);
  both = t.both;
  soon = t.soon;
}

back-IsTimed :
    (player_id : ℕ) (state : MatchState)
    → IsTimed state
    → IsTimed (record state {
      disconnected_at = erase player_id state.disconnected_at;
      disconnect_deadlines = erase player_id state.disconnect_deadlines;
    })
back-IsTimed player_id state t = record {
  budget = t.budget;
  both = λ id. erase_both player_id id state.disconnect_deadlines state.disconnected_at (t.both id);
  soon = λ id deadline started d s. elim (Bool-cases (player_id == id)) [
    | inl here ↦ absurd (
        let e : none ≡ some deadline =
          rw (lookup-erase player_id id state.disconnect_deadlines, here) at d in
        cc)
    | inr there ↦
        t.soon id deadline started
          (rw (lookup-erase player_id id state.disconnect_deadlines, there) at d)
          (rw (lookup-erase player_id id state.disconnected_at, there) at s)
  ];
}

module _ (room : ℕ) where
  abbrev Orderly : Callbacks → MatchState → Type 0
  Orderly callbacks state = IsOrderly room (record { state = state; callbacks = callbacks })

  -- A player that loses its connection keeps the match orderly.
  pub disconnect_player-IsOrderly :
      (player_id now : ℕ) (live : Live)
      → IsOrderly room live
      → Orderly live.callbacks (disconnect_player player_id now live.state)
  unfolding disconnect_player pause mark_away
  disconnect_player-IsOrderly player_id now live h =
      if_keeps (Orderly live.callbacks)
        (is_finished live.state
          || not (is_player player_id live.state)
          || is_away player_id live.state)
        (λ _. h)
        λ allowed.
          let on : is_finished live.state ≡ false = ground arith in
          let timed = mark_away-IsTimed player_id now live.state h.timed in
          let somebody : is_empty (mark_away player_id now live.state).disconnected_at ≡ false =
            insert_there player_id now live.state.disconnected_at in
          if_keeps (Orderly live.callbacks) (mark_away player_id now live.state).paused
            (λ p. record {
              timed = timed;
              named = h.named;
              idle = h.idle;
              turns = h.turns;
              left = λ _. h.left on;
              paused = λ _. p ∙ rw somebody refl;
              resumable = h.resumable;
              going = λ _. h.going on;
              over = λ e. absurd cc;
            })
            (λ _. record {
              timed = record { budget = timed.budget; both = timed.both; soon = timed.soon };
              named = h.named;
              idle = h.idle;
              turns = h.turns;
              left = λ _. h.left on;
              paused = λ _. rw somebody refl;
              resumable =
                  λ phase e. let same : live.state.battle.phase ≡ phase = cc in rw (← same) on;
              going = λ _. h.going on;
              over = λ e. absurd cc;
            })

  resumed_on :
      (o : Option BattlePhase) (phase : BattlePhase)
      → ((p : BattlePhase) → o ≡ some p → phase_eq p BattlePhase.finished ≡ false)
      → phase_eq phase BattlePhase.finished ≡ false
      → phase_eq (get_or o phase) BattlePhase.finished ≡ false
  resumed_on none phase h on = on
  resumed_on (some p) phase h on = h p refl

  -- So does one that comes back in time.
  pub reconnect_player-IsOrderly :
      (player_id now : ℕ) (live : Live)
      → IsOrderly room live
      → Yields (Orderly live.callbacks) (reconnect_player player_id now live.state)
  unfolding reconnect_player mark_back charge resume
  reconnect_player-IsOrderly player_id now live h =
      let P = Orderly live.callbacks in
      bool_keeps (Yields P) (is_finished live.state) (λ _. tt)
        λ on.
          maybe_keeps (Yields P) (lookup player_id live.state.disconnected_at) tt λ started found.
            bool_keeps (Yields P)
              (leb (get_or (lookup player_id live.state.disconnect_deadlines) now) now) (λ _. tt)
              λ _.
                let was_paused : live.state.paused ≡ true =
                  h.paused on ∙ rw (lookup_there player_id live.state.disconnected_at found) refl in
                let timed : IsTimed (mark_back player_id started now live.state) =
                  charge-IsTimed player_id started now _
                    (back-IsTimed player_id live.state h.timed) in
                if_keeps P (is_empty (erase player_id live.state.disconnected_at))
                  (λ empty.
                    let going =
                      resumed_on live.state.paused_phase live.state.battle.phase h.resumable on in
                    record {
                      timed = record {
                        budget = timed.budget;
                        both = timed.both;
                        soon = timed.soon;
                      };
                      named = h.named;
                      idle = h.idle;
                      turns = h.turns;
                      left = λ _. h.left on;
                      paused = λ _. rw empty refl;
                      resumable = λ phase e. absurd cc;
                      going = λ _. h.going on;
                      over = λ e. absurd cc;
                    })
                  (λ somebody. record {
                    timed = timed;
                    named = h.named;
                    idle = h.idle;
                    turns = h.turns;
                    left = λ _. h.left on;
                    paused = λ _. was_paused ∙ rw somebody refl;
                    resumable = h.resumable;
                    going = λ _. h.going on;
                    over = λ e. absurd cc;
                  })

  -- Charging the absent players changes nothing else.
  charge_all-IsOrderly :
      (now : ℕ) (ids : List ℕ) (live : Live)
      → IsOrderly room live
      → Orderly live.callbacks (charge_all now ids live.state)
        × (is_finished (charge_all now ids live.state) ≡ is_finished live.state)
  unfolding charge_all charge
  charge_all-IsOrderly now [] live h = (h, refl)
  charge_all-IsOrderly now (id ∷ ids) live h =
      let started = get_or (lookup id live.state.disconnected_at) now in
      let charged : MatchState = charge id started now live.state in
      let first : IsOrderly room (record live { state = charged }) = record {
        timed = charge-IsTimed id started now live.state h.timed;
        named = h.named;
        idle = h.idle;
        turns = h.turns;
        left = h.left;
        paused = h.paused;
        resumable = h.resumable;
        going = h.going;
        over = h.over;
      } in
      let rest = charge_all-IsOrderly now ids (record live { state = charged }) first in rest

  end_absence-Goes :
      (expired : List ℕ) (live : Live)
      → is_finished live.state ≡ false
      → live.state.result_type ≡ none
      → live.state.player_turns_completed < max_turns
      → Goes 0 live (end_absence expired live)
  unfolding end_absence
  end_absence-Goes expired live on none_yet left =
      maybe_keeps (Goes 0 live)
        (first_connected expired live.state.disconnected_at (player_ids live.state.battle))
        (if_keeps (Goes 0 live) (length expired == length live.state.battle.players)
          (λ _. finish_match-Goes _ _ _ _ live none_yet) (λ _. Goes-same on none_yet left))
        λ id _. finish_match-Goes _ _ _ _ live none_yet

  -- So does the pass that ends the absences whose time is over.
  pub expire_disconnects-IsOrderly :
      (now : ℕ) (live : Live) → IsOrderly room live → IsOrderly room (expire_disconnects now live).0
  unfolding expire_disconnects defer_finished_callbacks expire_away
  expire_disconnects-IsOrderly now live h =
      let closed : Live → Live =
        λ x. record x { callbacks = close_queue live.callbacks.pending true x.callbacks } in
      let P : Live × Bool → Type 0 = λ x. IsOrderly room (closed x.0) in
      let ids = expired_ids now live.state.disconnect_deadlines in
      let opened = open_queue live.callbacks in
      let unmoved : IsOrderly room
          (record live { callbacks = close_queue live.callbacks.pending true opened }) =
        rw (close_open live.callbacks h.idle) h in
      if_keeps P (is_finished live.state) (λ _. unmoved)
        λ on.
          if_keeps P (is_empty ids) (λ _. unmoved)
            λ _.
              let charged = charge_all-IsOrderly now ids live h in
              let before : Live = record live { state = charge_all now ids live.state } in
              let going = charged.1 ∙ on in
              Goes-IsOrderly room charged.0 going (omega arith) (
                closed-Goes h.idle (
                  end_absence-Goes ids (record before { callbacks = opened }) going
                    (charged.0.going going).0 (charged.0.left going)))
