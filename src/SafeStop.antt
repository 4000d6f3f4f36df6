-- ===== src/SafeStop.antt =====
-- The drain gate, jjk_arena/battle_v2/safe_stop.py. A blocker or a warning is a constructor with the
-- number that its text shows.
use fantasy_draft.Base.{
  ℕ, ◌≡◌, ◌↔◌, Bool, true, List, [], ◌∷◌, ◌++◌, if◌then◌else◌, get_or, arith, length,
}
use fantasy_draft.Int.{ℤ, pos, ◌+ℤ◌, ltb_ℤ, ◌≤ℤ◌, ◌<ℤ◌}
use fantasy_draft.Dict.{Dict, lookup}
use fantasy_draft.Conditions.{is_empty}

pub data Blocker : Type 0 where
  events_dropped : ℤ → Blocker
  still_in_flight : ℤ → Blocker

pub data Warning : Type 0 where
  dead_letters : ℤ → Warning

pub record SafeStopDecision : Type 0 where
  pub ready : Bool
  pub blockers : List Blocker
  pub warnings : List Warning

-- The key "dead_letter" of the settlement counts.
abbrev pub dead_letter_key : ℕ
dead_letter_key = 0

unfoldable pub is_positive : ℤ → Bool
is_positive n = ltb_ℤ (pos 0) n

unfoldable pub evaluate_safe_stop : ℤ → Dict ℤ → ℤ → ℤ → SafeStopDecision
evaluate_safe_stop dropped mission_settlement_counts in_flight_commands
      in_flight_scheduler_callbacks =
    let dead = get_or (lookup dead_letter_key mission_settlement_counts) (pos 0) in
    let in_flight_total = in_flight_commands +ℤ in_flight_scheduler_callbacks in
    let blockers =
      (if is_positive dropped then Blocker.events_dropped dropped ∷ [] else [])
      ++ (if is_positive in_flight_total
          then Blocker.still_in_flight in_flight_total ∷ []
          else []) in
    record {
      ready = is_empty blockers;
      blockers = blockers;
      warnings = if is_positive dead then Warning.dead_letters dead ∷ [] else [];
    }

-- The gate is open exactly if no event was dropped and the commands and callbacks in flight do not
-- sum up to more than 0, whatever the settlement counts are; a dead letter adds a warning and no
-- blocker.
pub evaluate_safe_stop_lem :
    (dropped commands callbacks : ℤ) (counts : Dict ℤ)
    → let decision = evaluate_safe_stop dropped counts commands callbacks in
      ((decision.ready ≡ true) ↔ ((dropped ≤ℤ pos 0) × (commands +ℤ callbacks ≤ℤ pos 0)))
      × ((pos 0 <ℤ get_or (lookup dead_letter_key counts) (pos 0)) ↔ (length decision.warnings ≡ 1))
unfolding evaluate_safe_stop is_positive
evaluate_safe_stop_lem dropped commands callbacks counts =
    ((ground arith, ground arith), (ground arith, ground arith))
