-- ===== src/Examples/Outbox.antt =====
-- The outbox of mission settlements at concrete inputs.
use fantasy_draft.Base.{ℕ, ◌+◌, ◌*◌, ◌≤◌, ◌≡◌, refl, true, false, none, some, [], ◌∷◌, arith}
use fantasy_draft.Settlements.{
  Row, Store, Merged, Commit, is_row, count, enqueue_mission_settlement,
  claim_next_mission_settlement, commit_profile_mission_settlement, mark_mission_settlement_settled,
  retry_delay,
}
use fantasy_draft.Settlements.Lifecycle.{Work, Worked, Reached, IsOutbox, Reached-IsOutbox}
use fantasy_draft.Settlements.Settling.{committed_once}
use fantasy_draft.Settlements.Owning.{is_held, claim_exclusive}
use fantasy_draft.Settlements.Schedule.{IsBestClaim, claim-IsBestClaim, retry_delay_bounds}

abbrev empty_store : Store
empty_store = record {
  rows = [];
  profiles = [];
  events = [];
  claimed_total = 0;
  dead_lettered_total = 0;
}

-- Two players' progress in a match, the first one's claimed with token 7.
abbrev first_stored : Store
first_stored = enqueue_mission_settlement 1 2 30 none 1000 empty_store

abbrev both_stored : Store
both_stored = enqueue_mission_settlement 1 3 40 none 2000 first_stored

abbrev at_work : Store
at_work = (claim_next_mission_settlement 7 none false 5000 both_stored).1

at_work-Reached : Reached at_work
at_work-Reached =
    Reached.works
      (Reached.works (Reached.works (Reached.begins refl) (Work.enqueues 1 2 30 none 1000))
        (Work.enqueues 1 3 40 none 2000))
      (Work.claims 7 none false 5000)

-- A merge that stores the progress and completes mission 6.
abbrev adds : ℕ → ℕ → ℕ → Merged
adds profile progress finished_at = Merged.updated (profile + progress) (6 ∷ [])

abbrev settled : Store × Commit
settled = commit_profile_mission_settlement adds 1 2 7 30 1000 6000 at_work

commit_accepted : settled.1 ≡ Commit.committed
unfolding commit_profile_mission_settlement claim_next_mission_settlement enqueue_mission_settlement
commit_accepted = refl

mission_noted : settled.0.events ≡ record { match_id = 1; player_id = 2; mission_id = 6 } ∷ []
unfolding commit_profile_mission_settlement claim_next_mission_settlement enqueue_mission_settlement
mission_noted = refl

-- Two rows in processing: nobody else gets the first one, and the second one is the next.
next_is_other : (claim_next_mission_settlement 8 none true 9000 at_work).1.claimed_total ≡ 2
unfolding claim_next_mission_settlement enqueue_mission_settlement
next_is_other = refl

Reached-IsOutbox_example : IsOutbox at_work.rows
Reached-IsOutbox_example = Reached-IsOutbox at_work-Reached

-- The first worker's row again, put in anew in the meantime.
abbrev put_in_again : Store
put_in_again = enqueue_mission_settlement 1 2 30 none 9000 settled.0

committed_once_example :
    (commit_profile_mission_settlement adds 1 2 7 30 1000 9500 put_in_again
      ≡ (put_in_again, Commit.not_claimed))
    × (mark_mission_settlement_settled 1 2 7 9500 put_in_again ≡ (put_in_again, false))
committed_once_example =
    committed_once adds adds 1 2 7 30 1000 6000 7 30 1000 9500 at_work
      (Reached-IsOutbox at_work-Reached) commit_accepted
      (Worked.goes_on Worked.stays (Work.enqueues 1 2 30 none 9000))

at_work_held : 1 ≤ count (is_held 1 2 7 9000) at_work.rows
unfolding count claim_next_mission_settlement enqueue_mission_settlement
at_work_held = omega arith

claim_exclusive_example :
    let run = claim_next_mission_settlement 8 none true 9000 at_work in
    (1 ≤ count (is_held 1 2 7 9000) run.1.rows)
    × ((r : Row) → run.0 ≡ some r → is_row 1 2 r ≡ false)
claim_exclusive_example =
    claim_exclusive 1 2 7 8 none true 9000 at_work (Reached-IsOutbox at_work-Reached) at_work_held

claim-IsBestClaim_example :
    IsBestClaim 8 none false 9000 at_work (claim_next_mission_settlement 8 none false 9000 at_work)
claim-IsBestClaim_example =
    claim-IsBestClaim 8 none false 9000 at_work (Reached-IsOutbox at_work-Reached)

retry_delay_bounds_example :
    ((1000 ≤ retry_delay 3) × (retry_delay 3 ≤ 256000))
    × (1 ≤ 3 → 3 ≤ 8 → retry_delay (3 + 1) ≡ 2 * retry_delay 3)
retry_delay_bounds_example = retry_delay_bounds 3
