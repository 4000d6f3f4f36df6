-- ===== src/Turn/Soundness.antt =====
-- The end of a turn keeps every character sound and every player without debt, `finish_turn` of
-- jjk_arena/battle_v2/resolver.py.
use fantasy_draft.Base.{
  ℕ, zero, suc, ◌≤◌, refl, true, List, [], ◌∷◌, if◌then◌else◌, get_elem?, length,
}
use fantasy_draft.Int.{ℤ, pos, int_laws}
use fantasy_draft.Dict.{lookup, insert}
use fantasy_draft.Models.{
  BattlePhase, phase_eq, IntKey, get_int, EnergyType, StatusEffect, BattleState,
}
use fantasy_draft.Energy.Counting.{count}
use fantasy_draft.Slots.{character_at, with_character}
use fantasy_draft.Statuses.{Pass}
use fantasy_draft.Queue.Confirming.{HasNoDebt}
use fantasy_draft.Invariant.{
  IsSoundPlayer, IsSoundState, maybe_keeps, if_keeps, lookup-All, insert-All, character_at-IsSound,
  with_character-IsSoundState,
}
use fantasy_draft.Turn.Expiry.{
  World, log_event, grant_guard, ended_by_source, is_revealed_now, drainable, drain_count,
  take_each, log_revealed, drains, drain_energy, with_status,
}
use fantasy_draft.Turn.Cleanup.{
  log_events, clean_status, clean_statuses, close_character, clean_character, clean_team,
  clean_player, clean_players, player_ids, cleanup_pass, pass_turn, clear_queue, finish_turn,
}
use fantasy_draft.Turn.Keeping.{
  same_players, close_character-IsSound, grant_guard-IsSoundState, with_status-IsSoundState,
  drained_nonneg, drainable-count, log_drains-players, log_revealed-IsSoundState,
  reset_player-IsSoundState,
}

-- What the code relies on of `rng.sample`: distinct members of the population.
pub record IsSampler (world : World) : Type 0 where
  pub once :
      (s : StatusEffect) (turn : ℤ) (population : List EnergyType) (n : ℕ) (k : EnergyType)
      → count k (world.sample s turn population n) ≤ count k population

module _ (world : World) (sampler : IsSampler world) where
  drain_energy-IsSoundState :
      (acting player_id : ℕ) (s : StatusEffect) (state : BattleState)
      → IsSoundState state
      → IsSoundState (drain_energy world acting player_id s state)
  unfolding drain_energy
  drain_energy-IsSoundState acting player_id s state h =
      maybe_keeps IsSoundState (lookup player_id state.players) h λ player found.
        let owner = lookup-All IsSoundPlayer player_id state.players h.all_players found in
        let available = drainable player.energy in
        let n = drain_count (get_int s.payload IntKey.turn_end_drain_energy) available in
        let drained = world.sample s state.turn_number available n in
        let no_debt : HasNoDebt (record player { energy = take_each drained player.energy }) = λ k.
          drained_nonneg drained player.energy k (
            let some_left = drainable-count player.energy k (owner.no_debt k) in
            omega (int_laws, sampler.once s state.turn_number available n k)) in
        let paid : BattleState = record state {
          players =
              insert player_id (record player { energy = take_each drained player.energy })
                state.players;
        } in
        same_players {a = paid} (log_drains-players acting drained paid) (record {
          all_players =
              insert-All IsSoundPlayer player_id _ state.players h.all_players
                (record { team = owner.team; no_debt = no_debt });
        })

  clean_status-IsSoundState :
      (pass : Pass) (acting player_id : ℕ) (slot : ℤ) (i : ℕ) (state : BattleState)
      → IsSoundState state
      → IsSoundState (clean_status world pass acting player_id slot i state)
  unfolding clean_status log_event
  clean_status-IsSoundState pass acting player_id slot i state h =
      maybe_keeps IsSoundState (character_at state player_id slot) h λ c found.
        maybe_keeps IsSoundState (get_elem? c.statuses i) h λ s0 _.
          let guarded = grant_guard world pass s0 state in
          let s1 = ended_by_source guarded s0 in
          let shown = is_revealed_now pass s1 in
          let s2 = if shown then record s1 { revealed = true } else s1 in
          let drained = drains pass acting s2 in
          let s3 = if drained then record s2 { duration = pos 0 } else s2 in
          let written : IsSoundState (with_status guarded player_id slot i (λ _. s3)) =
            with_status-IsSoundState guarded player_id slot i (λ _. s3)
              (grant_guard-IsSoundState world pass s0 state h) in
          let logged : IsSoundState
              (log_revealed shown s2 (with_status guarded player_id slot i (λ _. s3))) =
            log_revealed-IsSoundState shown s2 (with_status guarded player_id slot i (λ _. s3))
              written in
          if_keeps IsSoundState drained
            (λ _.
              drain_energy-IsSoundState acting player_id s3
                (log_revealed shown s2 (with_status guarded player_id slot i (λ _. s3))) logged)
            (λ _. logged)

  clean_statuses-IsSoundState :
      (pass : Pass) (acting player_id : ℕ) (slot : ℤ) (i n : ℕ) (state : BattleState)
      → IsSoundState state
      → IsSoundState (clean_statuses world pass acting player_id slot i n state)
  unfolding clean_statuses
  clean_statuses-IsSoundState pass acting player_id slot i zero state h = h
  clean_statuses-IsSoundState pass acting player_id slot i (suc n) state h =
      clean_statuses-IsSoundState pass acting player_id slot (suc i) n
        (clean_status world pass acting player_id slot i state)
        (clean_status-IsSoundState pass acting player_id slot i state h)

  clean_character-IsSoundState :
      (pass : Pass) (acting player_id : ℕ) (slot : ℤ) (state : BattleState)
      → IsSoundState state
      → IsSoundState (clean_character world pass acting player_id slot state)
  unfolding clean_character log_events
  clean_character-IsSoundState pass acting player_id slot state h =
      maybe_keeps IsSoundState (character_at state player_id slot) h λ c0 _.
        let cleaned =
          clean_statuses world pass acting player_id slot 0 (length c0.statuses) state in
        let sound =
          clean_statuses-IsSoundState pass acting player_id slot 0 (length c0.statuses) state h in
        maybe_keeps IsSoundState (character_at cleaned player_id slot) sound λ c found.
          let closed = close_character pass acting player_id slot state.turn_number c in
          same_players {a = with_character cleaned player_id slot closed.0} refl (
            with_character-IsSoundState cleaned player_id slot closed.0 sound (
              close_character-IsSound pass acting player_id slot state.turn_number c
                (character_at-IsSound cleaned player_id slot sound found)))

  clean_team-IsSoundState :
      (pass : Pass) (acting player_id slot n : ℕ) (state : BattleState)
      → IsSoundState state
      → IsSoundState (clean_team world pass acting player_id slot n state)
  unfolding clean_team
  clean_team-IsSoundState pass acting player_id slot zero state h = h
  clean_team-IsSoundState pass acting player_id slot (suc n) state h =
      clean_team-IsSoundState pass acting player_id (suc slot) n
        (clean_character world pass acting player_id (pos slot) state)
        (clean_character-IsSoundState pass acting player_id (pos slot) state h)

  clean_players-IsSoundState :
      (pass : Pass) (acting : ℕ) (ids : List ℕ) (state : BattleState)
      → IsSoundState state
      → IsSoundState (clean_players world pass acting ids state)
  unfolding clean_players clean_player
  clean_players-IsSoundState pass acting [] state h = h
  clean_players-IsSoundState pass acting (id ∷ ids) state h =
      clean_players-IsSoundState pass acting ids (clean_player world pass acting id state) (
        maybe_keeps IsSoundState (lookup id state.players) h λ player _.
          reset_player-IsSoundState id
            (clean_team world pass acting id 0 (length player.team) state)
            (clean_team-IsSoundState pass acting id 0 (length player.team) state h))

  -- Cleanup at the end of a turn keeps every character of every player sound and every energy at 0
  -- or more, if the sampler draws distinct members of its population.
  pub finish_turn-IsSoundState :
      (state : BattleState) (player_id : ℕ)
      → IsSoundState state
      → IsSoundState (finish_turn world state player_id)
  unfolding finish_turn pass_turn clear_queue
  finish_turn-IsSoundState state player_id h =
      let cleaned =
        clean_players world (cleanup_pass state player_id) player_id (player_ids state) state in
      let sound : IsSoundState cleaned =
        clean_players-IsSoundState (cleanup_pass state player_id) player_id (player_ids state) state
          h in
      if_keeps IsSoundState (phase_eq cleaned.phase BattlePhase.finished)
        (λ _. same_players {a = cleaned} refl sound) (λ _. same_players {a = cleaned} refl sound)
