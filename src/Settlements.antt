-- ===== src/Settlements.antt =====
-- The outbox of mission settlements of jjk_arena/battle_v2/runtime_store.py: the rows of the table
-- mission_settlement_outbox, and the workers that claim, settle, fail and redrive them. Each
-- function is one transaction. An UPDATE is a map over the rows that its WHERE meets, times are
-- milliseconds, and texts are numbers. The proofs stand in the children.
pub mod Rows
pub mod Lifecycle
pub mod Settling
pub mod Owning
pub mod Schedule
use fantasy_draft.Base.{
  ℕ, zero, suc, ◌+◌, ◌-◌, ◌*◌, Bool, true, false, not, ◌&&◌, ◌||◌, Option, none, some, List, [],
  ◌∷◌, ◌++◌, if◌then◌else◌, ◌==◌, ltb, leb, any, keep, map, get_or,
}
use fantasy_draft.Dict.{Dict, lookup, insert}

pub data SettlementStatus : Type 0 where
  pending processing settled failed_retryable dead_letter : SettlementStatus

-- A row of mission_settlement_outbox, `progress` for progress_json.
pub record Row : Type 0 where
  pub match_id : ℕ
  pub player_id : ℕ
  pub progress : ℕ
  pub finished_at : ℕ
  pub status : SettlementStatus
  pub retry_count : ℕ
  pub next_attempt_at : ℕ
  pub last_error : Option ℕ
  pub updated_at : ℕ
  pub claim_token : Option ℕ
  pub claim_expires_at : Option ℕ

-- A `mission_completed` row of analytics_events, known by its event_key.
pub record MissionEvent : Type 0 where
  pub match_id : ℕ
  pub player_id : ℕ
  pub mission_id : ℕ

pub record Store : Type 0 where
  pub rows : List Row
  pub profiles : Dict ℕ
  pub events : List MissionEvent
  pub claimed_total : ℕ
  pub dead_lettered_total : ℕ

abbrev pub is_pending : SettlementStatus → Bool
is_pending SettlementStatus.pending = true
is_pending _ = false

abbrev pub is_processing : SettlementStatus → Bool
is_processing SettlementStatus.processing = true
is_processing _ = false

abbrev pub is_settled : SettlementStatus → Bool
is_settled SettlementStatus.settled = true
is_settled _ = false

abbrev pub is_failed : SettlementStatus → Bool
is_failed SettlementStatus.failed_retryable = true
is_failed _ = false

abbrev pub is_dead : SettlementStatus → Bool
is_dead SettlementStatus.dead_letter = true
is_dead _ = false

abbrev pub is_row : ℕ → ℕ → Row → Bool
is_row m p r = r.match_id == m && r.player_id == p

abbrev pub eq_some : Option ℕ → ℕ → Bool
eq_some none n = false
eq_some (some k) n = k == n

-- The WHERE of those who hold a claim.
abbrev pub is_claimed : ℕ → ℕ → ℕ → Row → Bool
is_claimed m p token r = is_row m p r && (is_processing r.status && eq_some r.claim_token token)

-- `UPDATE ... SET f WHERE c`, and its rowcount.
unfoldable pub update_where : (Row → Bool) → (Row → Row) → List Row → List Row
update_where c f [] = []
update_where c f (r ∷ rows) = (if c r then f r else r) ∷ update_where c f rows

unfoldable pub count : (Row → Bool) → List Row → ℕ
count c [] = 0
count c (r ∷ rows) = (if c r then 1 else 0) + count c rows

-- What `ON CONFLICT` makes of the row that is there.
unfoldable pub merge_enqueued : ℕ → ℕ → Row → Row
merge_enqueued progress now r =
    let kept = is_settled r.status || is_processing r.status || is_dead r.status in
    record r {
      progress = progress;
      status = if kept then r.status else SettlementStatus.pending;
      next_attempt_at = if kept then r.next_attempt_at else now;
      last_error = if kept then r.last_error else none;
      updated_at = now;
    }

abbrev pub new_row : ℕ → ℕ → ℕ → ℕ → ℕ → Row
new_row m p progress terminal_at now = record {
  match_id = m;
  player_id = p;
  progress = progress;
  finished_at = terminal_at;
  status = SettlementStatus.pending;
  retry_count = 0;
  next_attempt_at = now;
  last_error = none;
  updated_at = now;
  claim_token = none;
  claim_expires_at = none;
}

unfoldable pub enqueue_mission_settlement : ℕ → ℕ → ℕ → Option ℕ → ℕ → Store → Store
unfolding update_where merge_enqueued
enqueue_mission_settlement m p progress finished_at now store = record store {
  rows =
      if any (is_row m p) store.rows
      then update_where (is_row m p) (merge_enqueued progress now) store.rows
      else store.rows ++ new_row m p progress (get_or finished_at now) now ∷ [];
}

-- `status = 'processing' AND claim_expires_at <= now`
abbrev pub has_expired : ℕ → Row → Bool
has_expired now r =
    is_processing r.status && elim r.claim_expires_at [ none ↦ false | some t ↦ leb t now ]

-- The text `claim lease expired`.
abbrev pub claim_lease_expired : ℕ
claim_lease_expired = 1

abbrev pub release_expired : ℕ → Row → Row
release_expired now r = record r {
  status = SettlementStatus.failed_retryable;
  claim_token = none;
  claim_expires_at = none;
  next_attempt_at = now;
  last_error = some claim_lease_expired;
  updated_at = now;
}

abbrev pub is_open : Row → Bool
is_open r = is_pending r.status || is_failed r.status

-- The WHERE of the SELECT.
unfoldable pub is_due : Option ℕ → Bool → ℕ → Row → Bool
is_due player_id force_due now r =
    is_open r
    && (elim player_id [ none ↦ true | some p ↦ r.player_id == p ]
        && (force_due || leb r.next_attempt_at now))

-- `ORDER BY next_attempt_at, finished_at, match_id, player_id`
unfoldable pub comes_before : Row → Row → Bool
comes_before a b =
    ltb a.next_attempt_at b.next_attempt_at
    || a.next_attempt_at == b.next_attempt_at
      && (ltb a.finished_at b.finished_at
          || a.finished_at == b.finished_at
            && (ltb a.match_id b.match_id
                || a.match_id == b.match_id && ltb a.player_id b.player_id))

-- The first of the rows that meet the WHERE, in the order.
unfoldable pub first_due : (Row → Bool) → List Row → Option Row
unfolding comes_before
first_due c [] = none
first_due c (r ∷ rows) =
    let rest = first_due c rows in
    if c r
    then elim rest [ none ↦ some r | some best ↦ if comes_before best r then some best else some r ]
    else rest

abbrev pub lease : ℕ
lease = 60 * 1000

abbrev pub take_row : ℕ → ℕ → Row → Row
take_row token now r = record r {
  status = SettlementStatus.processing;
  claim_token = some token;
  claim_expires_at = some (now + lease);
  updated_at = now;
}

-- The claim, with the token that was drawn for it.
unfoldable pub claim_next_mission_settlement : ℕ → Option ℕ → Bool → ℕ → Store → Option Row × Store
unfolding update_where first_due is_due count
claim_next_mission_settlement token player_id force_due now store =
    let released = update_where (has_expired now) (release_expired now) store.rows in
    elim (first_due (is_due player_id force_due now) released) [
      | none ↦ (none, record store { rows = released })
      | some r ↦
          let meant = λ (s : Row). is_row r.match_id r.player_id s && is_open s in
          let taken = update_where meant (take_row token now) released in
          if count meant released == 1
          then (some r, record store { rows = taken; claimed_total = store.claimed_total + 1 })
          else (none, record store { rows = taken })
    ]

abbrev pub settle_row : ℕ → Row → Row
settle_row now r = record r {
  status = SettlementStatus.settled;
  next_attempt_at = now;
  last_error = none;
  updated_at = now;
  claim_token = none;
  claim_expires_at = none;
}

unfoldable pub mark_mission_settlement_settled : ℕ → ℕ → ℕ → ℕ → Store → Store × Bool
unfolding update_where count
mark_mission_settlement_settled m p token now store = (
  record store { rows = update_where (is_claimed m p token) (settle_row now) store.rows },
  count (is_claimed m p token) store.rows == 1,
)

abbrev pub power_of_two : ℕ → ℕ
power_of_two zero = 1
power_of_two (suc n) = 2 * power_of_two n

abbrev pub min : ℕ → ℕ → ℕ
min a b = if leb a b then a else b

-- `min(300, 2 ** min(retry_count - 1, 8))` seconds
unfoldable pub retry_delay : ℕ → ℕ
retry_delay retry_count = min 300 (power_of_two (min (retry_count - 1) 8)) * 1000

-- The claimed row is the one that the worker read when it claimed it.
unfoldable pub fail_mission_settlement_claim : ℕ → ℕ → ℕ → ℕ → ℕ → Bool → ℕ → Store → Store × Bool
unfolding update_where count retry_delay
fail_mission_settlement_claim m p token retries error permanent now store =
    let changed = count (is_claimed m p token) store.rows == 1 in
    (
      record store {
        rows =
            update_where (is_claimed m p token)
              (λ r. record r {
                status =
                    if permanent
                    then SettlementStatus.dead_letter
                    else SettlementStatus.failed_retryable;
                retry_count = retries + 1;
                next_attempt_at = now + retry_delay (retries + 1);
                last_error = some error;
                updated_at = now;
                claim_token = none;
                claim_expires_at = none;
              })
              store.rows;
        dead_lettered_total =
            if permanent && changed
            then store.dead_lettered_total + 1
            else store.dead_lettered_total;
      },
      changed,
    )

-- The code that a worker brings along: `update_profile` merges the progress that was reached at a
-- time into a profile and names the missions that this completed, sorted and each once, or raises.
pub data Merged : Type 0 where
  updated : ℕ → List ℕ → Merged
  raised : Merged

abbrev same_event : MissionEvent → MissionEvent → Bool
same_event a b =
    a.match_id == b.match_id && (a.player_id == b.player_id && a.mission_id == b.mission_id)

-- `INSERT OR IGNORE INTO analytics_events`, for each mission.
unfoldable pub insert_missions : ℕ → ℕ → List ℕ → List MissionEvent → List MissionEvent
insert_missions m p [] events = events
insert_missions m p (mission ∷ missions) events =
    let event : MissionEvent = record { match_id = m; player_id = p; mission_id = mission } in
    insert_missions m p missions
      (if any (same_event event) events then events else events ++ event ∷ [])

pub data Commit : Type 0 where
  committed not_claimed failed : Commit

-- The end of the transaction, with what the merge gave; a raised error rolls all back.
unfoldable pub write_merged : ℕ → ℕ → ℕ → ℕ → Store → Merged → Store × Commit
unfolding count update_where insert_missions
write_merged m p token now store Merged.raised = (store, Commit.failed)
write_merged m p token now store (Merged.updated profile missions) =
    if count (is_claimed m p token) store.rows == 1
    then (
      record store {
        profiles = insert p profile store.profiles;
        events = insert_missions m p missions store.events;
        rows = update_where (is_claimed m p token) (settle_row now) store.rows;
      },
      Commit.committed,
    )
    else (store, Commit.failed)

-- The empty profile is 0.
unfoldable pub commit_profile_mission_settlement :
    (ℕ → ℕ → ℕ → Merged) → ℕ → ℕ → ℕ → ℕ → ℕ → ℕ → Store → Store × Commit
unfolding count write_merged
commit_profile_mission_settlement update_profile m p token progress finished_at now store =
    if count (is_claimed m p token) store.rows == 0
    then (store, Commit.not_claimed)
    else write_merged m p token now store
        (update_profile (get_or (lookup p store.profiles) 0) progress finished_at)

unfoldable pub redrive_mission_settlement : ℕ → ℕ → ℕ → Store → Store × Bool
unfolding update_where count
redrive_mission_settlement m p now store =
    let meant = λ (r : Row). is_row m p r && (is_failed r.status || is_dead r.status) in
    (
      record store {
        rows =
            update_where meant
              (λ r. record r {
                status = SettlementStatus.pending;
                retry_count = 0;
                next_attempt_at = now;
                last_error = none;
                updated_at = now;
                claim_token = none;
                claim_expires_at = none;
              })
              store.rows;
      },
      count meant store.rows == 1,
    )

-- `status = 'settled' AND updated_at < cutoff`, for `cutoff = now - max(1, retention_days) * 86400`.
abbrev pub is_stale : ℕ → ℕ → Row → Bool
is_stale retention_days now r =
    is_settled r.status
    && ltb (r.updated_at + (if leb 1 retention_days then retention_days else 1) * 86400000) now

unfoldable pub prune_settled_mission_settlements : ℕ → ℕ → Store → Store × ℕ
unfolding count
prune_settled_mission_settlements retention_days now store = (
  record store { rows = keep (λ r. not (is_stale retention_days now r)) store.rows },
  count (is_stale retention_days now) store.rows,
)
