-- ===== src/Turn/Cleanup.antt =====
-- Cleanup after the acting player's turn, `finish_turn` of jjk_arena/battle_v2/resolver.py.
use fantasy_draft.Base.{
  ℕ, zero, suc, Bool, true, false, not, none, some, List, [], ◌∷◌, ◌++◌, ◌==◌, if◌then◌else◌,
  length, get_elem?, keep, map,
}
use fantasy_draft.Int.{ℤ, pos, ◌+ℤ◌}
use fantasy_draft.Dict.{lookup, insert}
use fantasy_draft.Models.{BattlePhase, phase_eq, CharacterState, BattleEvent, BattleState}
use fantasy_draft.Slots.{character_at, with_character}
use fantasy_draft.Statuses.{Pass, apply_turn_end_statuses, tick_statuses, tick_cooldowns}
use fantasy_draft.Turn.Expiry.{
  World, with_status, grant_guard, ended_by_source, is_revealed_now, drains, drain_energy,
  log_revealed,
}

-- The body of the loop over a copy of a character's statuses, at the status in place `i`. Only the
-- end of a list grows within the loop, so places stay.
unfoldable pub clean_status : World → Pass → ℕ → ℕ → ℤ → ℕ → BattleState → BattleState
clean_status world pass acting_player_id player_id slot i state =
    elim (character_at state player_id slot) [
      | none ↦ state
      | some c ↦ elim (get_elem? c.statuses i) [
        | none ↦ state
        | some s0 ↦
            let guarded = grant_guard world pass s0 state in
            let s1 = ended_by_source guarded s0 in
            let shown = is_revealed_now pass s1 in
            let s2 = if shown then record s1 { revealed = true } else s1 in
            let drained = drains pass acting_player_id s2 in
            let s3 = if drained then record s2 { duration = pos 0 } else s2 in
            let written = with_status guarded player_id slot i (λ _. s3) in
            let logged = log_revealed shown s2 written in
            if drained then drain_energy world acting_player_id player_id s3 logged else logged
      ]
    ]

unfoldable pub clean_statuses : World → Pass → ℕ → ℕ → ℤ → ℕ → ℕ → BattleState → BattleState
clean_statuses world pass acting_player_id player_id slot i zero state = state
clean_statuses world pass acting_player_id player_id slot i (suc n) state =
    clean_statuses world pass acting_player_id player_id slot (suc i) n
      (clean_status world pass acting_player_id player_id slot i state)

unfoldable pub log_events : List BattleEvent → BattleState → BattleState
log_events events state = record state { event_log = state.event_log ++ events }

-- The end of the turn for one character itself.
unfoldable pub close_character :
    Pass → ℕ → ℕ → ℤ → ℤ → CharacterState → CharacterState × List BattleEvent
close_character pass acting_player_id player_id slot turn_number c =
    let hurt = apply_turn_end_statuses c player_id slot turn_number pass in
    let ticked = tick_statuses pass hurt.0 in
    let cooled = if player_id == acting_player_id then tick_cooldowns ticked else ticked in
    (record cooled { acted_this_turn = false; turn_damage_reduction_used = pos 0 }, hurt.1)

unfoldable pub clean_character : World → Pass → ℕ → ℕ → ℤ → BattleState → BattleState
clean_character world pass acting_player_id player_id slot state =
    elim (character_at state player_id slot) [
      | none ↦ state
      | some c0 ↦
          let cleaned =
            clean_statuses world pass acting_player_id player_id slot 0 (length c0.statuses)
              state in
          elim (character_at cleaned player_id slot) [
            | none ↦ cleaned
            | some c ↦
                let closed =
                  close_character pass acting_player_id player_id slot state.turn_number c in
                log_events closed.1 (with_character cleaned player_id slot closed.0)
          ]
    ]

unfoldable pub clean_team : World → Pass → ℕ → ℕ → ℕ → ℕ → BattleState → BattleState
clean_team world pass acting_player_id player_id slot zero state = state
clean_team world pass acting_player_id player_id slot (suc n) state =
    clean_team world pass acting_player_id player_id (suc slot) n
      (clean_character world pass acting_player_id player_id (pos slot) state)

unfoldable pub reset_player : ℕ → BattleState → BattleState
reset_player player_id state = elim (lookup player_id state.players) [
  | none ↦ state
  | some player ↦ record state {
    players =
        insert player_id
          (record player { queue_confirmed = false; energy_converted_this_turn = false })
          state.players;
  }
]

unfoldable pub clean_player : World → Pass → ℕ → ℕ → BattleState → BattleState
clean_player world pass acting_player_id player_id state = elim (lookup player_id state.players) [
  | none ↦ state
  | some player ↦
      reset_player player_id
        (clean_team world pass acting_player_id player_id 0 (length player.team) state)
]

unfoldable pub clean_players : World → Pass → ℕ → List ℕ → BattleState → BattleState
clean_players world pass acting_player_id [] state = state
clean_players world pass acting_player_id (id ∷ ids) state =
    clean_players world pass acting_player_id ids
      (clean_player world pass acting_player_id id state)

unfoldable pub player_ids : BattleState → List ℕ
player_ids state = map (λ e. e.0) state.players

unfoldable pub last_is : ℕ → List ℕ → Bool
last_is id [] = false
last_is id (a ∷ []) = a == id
last_is id (a ∷ b ∷ rest) = last_is id (b ∷ rest)

unfoldable pub cleanup_pass : BattleState → ℕ → Pass
cleanup_pass state player_id = record {
  acting_player_id = some player_id;
  round_ending = last_is player_id (player_ids state);
  turn_number = some state.turn_number;
}

unfoldable pub first_of_ids : List ℕ → ℕ → ℕ
first_of_ids [] d = d
first_of_ids (id ∷ ids) d = id

-- The turn passes to the first other player.
unfoldable pub pass_turn : ℕ → BattleState → BattleState
pass_turn player_id state =
    if phase_eq state.phase BattlePhase.finished then state else record state {
      phase = BattlePhase.planning;
      turn_number = state.turn_number +ℤ pos 1;
      turn_player_id =
          first_of_ids (keep (λ id. not (id == player_id)) (player_ids state)) state.turn_player_id;
    }

unfoldable pub clear_queue : ℕ → BattleState → BattleState
clear_queue player_id state = record state {
  pending_actions = insert player_id [] state.pending_actions;
  queue_order = insert player_id [] state.queue_order;
}

unfoldable pub finish_turn : World → BattleState → ℕ → BattleState
finish_turn world state player_id = pass_turn player_id (
    clear_queue player_id
      (clean_players world (cleanup_pass state player_id) player_id (player_ids state) state))
