-- ===== src/Settlements/Lifecycle.antt =====
-- The life of a mission settlement in jjk_arena/battle_v2/runtime_store.py, under any interleaving of
-- the workers' transactions.
use fantasy_draft.Base.{
  ℕ, ◌+◌, ◌≤◌, ◌≡◌, refl, sym, ap, ◌∙◌, inl, inr, Bool, true, false, not, ◌&&◌, ◌||◌, Option, List,
  [], ◌∷◌, if◌then◌else◌, ◌==◌, any, arith, Bool-cases, is_some, get_or,
}
use fantasy_draft.Invariant.{if_keeps, maybe_keeps}
use fantasy_draft.Settlements.{
  SettlementStatus, Row, Store, is_processing, is_settled, is_failed, is_dead, is_row, is_claimed,
  update_where, count, merge_enqueued, new_row, enqueue_mission_settlement, has_expired,
  release_expired, is_open, first_due, is_due, take_row, claim_next_mission_settlement, settle_row,
  mark_mission_settlement_settled, fail_mission_settlement_claim, Merged, Commit, write_merged,
  commit_profile_mission_settlement, redrive_mission_settlement, prune_settled_mission_settlements,
}
use fantasy_draft.Settlements.Rows.{count-update_where_le, count-append, count-keep_le, count-any}

-- A transaction of some worker, but for pruning.
pub data Work : Store → Store → Type 0 where
  enqueues :
      {s : Store} (m p progress : ℕ) (finished_at : Option ℕ) (now : ℕ)
      → Work s (enqueue_mission_settlement m p progress finished_at now s)
  claims :
      {s : Store} (token : ℕ) (player_id : Option ℕ) (force_due : Bool) (now : ℕ)
      → Work s (claim_next_mission_settlement token player_id force_due now s).1
  settles :
      {s : Store} (m p token now : ℕ) → Work s (mark_mission_settlement_settled m p token now s).0
  fails :
      {s : Store} (m p token retries error : ℕ) (permanent : Bool) (now : ℕ)
      → Work s (fail_mission_settlement_claim m p token retries error permanent now s).0
  commits :
      {s : Store} (update_profile : ℕ → ℕ → ℕ → Merged) (m p token progress finished_at now : ℕ)
      → Work s
          (commit_profile_mission_settlement update_profile m p token progress finished_at now s).0
  redrives : {s : Store} (m p now : ℕ) → Work s (redrive_mission_settlement m p now s).0

pub data Worked : Store → Store → Type 0 where
  stays : {s : Store} → Worked s s
  goes_on : {s t u : Store} → Worked s t → Work t u → Worked s u

-- What the store can become, from an empty table on.
pub data Reached : Store → Type 0 where
  begins : {s : Store} → s.rows ≡ [] → Reached s
  works : {s t : Store} → Reached s → Work s t → Reached t
  prunes :
      {s : Store} (retention_days now : ℕ)
      → Reached s
      → Reached (prune_settled_mission_settlements retention_days now s).0

-- Exactly a row in processing has a token and a lease.
abbrev pub is_consistent : Row → Bool
is_consistent r =
    if is_processing r.status
    then is_some r.claim_token && is_some r.claim_expires_at
    else not (is_some r.claim_token) && not (is_some r.claim_expires_at)

-- No two rows have a key in common, and all are consistent.
pub record IsOutbox (rows : List Row) : Type 0 where
  pub unique : (m p : ℕ) → count (is_row m p) rows ≤ 1
  pub consistent : count (λ r. not (is_consistent r)) rows ≡ 0

pub update_where-IsOutbox :
    (c : Row → Bool) (f : Row → Row) (rows : List Row)
    → ((m p : ℕ) (r : Row) → is_row m p (f r) ≡ is_row m p r)
    → ((r : Row) → c r ≡ true → is_consistent r ≡ true → is_consistent (f r) ≡ true)
    → IsOutbox rows
    → IsOutbox (update_where c f rows)
update_where-IsOutbox c f rows key h o = record {
  unique = λ m p.
      let less =
        count-update_where_le (is_row m p) (is_row m p) c f rows (λ r _ e. sym (key m p r) ∙ e)
          (λ r _ e. e) in
      let before = o.unique m p in omega arith;
  consistent =
      let less =
        count-update_where_le (λ r. not (is_consistent r)) (λ r. not (is_consistent r)) c f rows
          (λ r e n. elim (Bool-cases (is_consistent r)) [
            | inl good ↦ absurd (let k = h r e good in cc)
            | inr bad ↦ ap not bad
          ])
          (λ r _ e. e) in
      let before = o.consistent in omega arith;
}

is_processing-kept :
    (s : SettlementStatus)
    → is_processing
        (if is_settled s || is_processing s || is_dead s then s else SettlementStatus.pending)
      ≡ is_processing s
is_processing-kept SettlementStatus.pending = refl
is_processing-kept SettlementStatus.processing = refl
is_processing-kept SettlementStatus.settled = refl
is_processing-kept SettlementStatus.failed_retryable = refl
is_processing-kept SettlementStatus.dead_letter = refl

merge_enqueued-is_consistent :
    (progress now : ℕ) (r : Row)
    → is_consistent r ≡ true
    → is_consistent (merge_enqueued progress now r) ≡ true
unfolding merge_enqueued
merge_enqueued-is_consistent progress now r h = rw (is_processing-kept r.status) h

append_new-count :
    (m p n q progress terminal_at now : ℕ) (rows : List Row)
    → count (is_row m p) rows ≡ 0
    → count (is_row n q) rows ≤ 1
    → count (is_row n q) rows + count (is_row n q) (new_row m p progress terminal_at now ∷ []) ≤ 1
unfolding count
append_new-count m p n q progress terminal_at now rows h u = elim (Bool-cases (m == n && p == q)) [
  | inl here ↦
      let a : m ≡ n = ground arith in
      let b : p ≡ q = ground arith in
      let z : count (is_row n q) rows ≡ 0 = rw (← a, ← b) h in rw (here, z) (omega arith)
  | inr there ↦ rw there (omega arith)
]

enqueue-IsOutbox :
    (m p progress : ℕ) (finished_at : Option ℕ) (now : ℕ) (s : Store)
    → IsOutbox s.rows
    → IsOutbox (enqueue_mission_settlement m p progress finished_at now s).rows
unfolding enqueue_mission_settlement merge_enqueued count
enqueue-IsOutbox m p progress finished_at now s o =
    if_keeps IsOutbox (any (is_row m p) s.rows)
      (λ _.
        update_where-IsOutbox (is_row m p) (merge_enqueued progress now) s.rows (λ n q r. refl)
          (λ r _. merge_enqueued-is_consistent progress now r) o)
      λ e. record {
        unique = λ n q.
            rw
              (count-append (is_row n q) s.rows
                (new_row m p progress (get_or finished_at now) now ∷ []))
              (append_new-count m p n q progress (get_or finished_at now) now s.rows
                (count-any (is_row m p) s.rows e) (o.unique n q));
        consistent =
            count-append (λ r. not (is_consistent r)) s.rows _
            ∙ (let before = o.consistent in omega arith);
      }

claim-IsOutbox :
    (token : ℕ) (player_id : Option ℕ) (force_due : Bool) (now : ℕ) (s : Store)
    → IsOutbox s.rows
    → IsOutbox (claim_next_mission_settlement token player_id force_due now s).1.rows
unfolding claim_next_mission_settlement
claim-IsOutbox token player_id force_due now s o =
    let released = update_where (has_expired now) (release_expired now) s.rows in
    let free : IsOutbox released =
      update_where-IsOutbox (has_expired now) (release_expired now) s.rows (λ n q r. refl)
        (λ r _ _. refl) o in
    maybe_keeps (λ (x : Option Row × Store). IsOutbox x.1.rows)
      (first_due (is_due player_id force_due now) released) free
      λ r _.
        let c = λ (x : Row). is_row r.match_id r.player_id x && is_open x in
        let taken : IsOutbox (update_where c (take_row token now) released) =
          update_where-IsOutbox c (take_row token now) released (λ n q r. refl) (λ r _ _. refl)
            free in
        if_keeps (λ (x : Option Row × Store). IsOutbox x.1.rows) (count c released == 1)
          (λ _. taken) (λ _. taken)

settle-IsOutbox :
    (m p token now : ℕ) (rows : List Row)
    → IsOutbox rows
    → IsOutbox (update_where (is_claimed m p token) (settle_row now) rows)
settle-IsOutbox m p token now rows =
    update_where-IsOutbox (is_claimed m p token) (settle_row now) rows (λ n q r. refl)
      (λ r _ _. refl)

-- The two statuses after a failure.
is_processing-failure :
    (permanent : Bool)
    → is_processing
        (if permanent then SettlementStatus.dead_letter else SettlementStatus.failed_retryable)
      ≡ false
is_processing-failure true = refl
is_processing-failure false = refl

fail-IsOutbox :
    (m p token retries error : ℕ) (permanent : Bool) (now : ℕ) (s : Store)
    → IsOutbox s.rows
    → IsOutbox (fail_mission_settlement_claim m p token retries error permanent now s).0.rows
unfolding fail_mission_settlement_claim
fail-IsOutbox m p token retries error permanent now s =
    update_where-IsOutbox (is_claimed m p token) _ s.rows (λ n q r. refl)
      (λ r _ _. rw (is_processing-failure permanent) refl)

write_merged-IsOutbox :
    (m p token now : ℕ) (s : Store) (merged : Merged)
    → IsOutbox s.rows
    → IsOutbox (write_merged m p token now s merged).0.rows
unfolding write_merged
write_merged-IsOutbox m p token now s Merged.raised o = o
write_merged-IsOutbox m p token now s (Merged.updated profile missions) o =
    if_keeps (λ (x : Store × Commit). IsOutbox x.0.rows) (count (is_claimed m p token) s.rows == 1)
      (λ _. settle-IsOutbox m p token now s.rows o) (λ _. o)

commit-IsOutbox :
    (update_profile : ℕ → ℕ → ℕ → Merged) (m p token progress finished_at now : ℕ) (s : Store)
    → IsOutbox s.rows
    → let after =
        commit_profile_mission_settlement update_profile m p token progress finished_at now s in
      IsOutbox after.0.rows
unfolding commit_profile_mission_settlement
commit-IsOutbox update_profile m p token progress finished_at now s o =
    if_keeps (λ (x : Store × Commit). IsOutbox x.0.rows) (count (is_claimed m p token) s.rows == 0)
      (λ _. o) (λ _. write_merged-IsOutbox m p token now s _ o)

redrive-IsOutbox :
    (m p now : ℕ) (s : Store)
    → IsOutbox s.rows
    → IsOutbox (redrive_mission_settlement m p now s).0.rows
unfolding redrive_mission_settlement
redrive-IsOutbox m p now s =
    update_where-IsOutbox (λ r. is_row m p r && (is_failed r.status || is_dead r.status)) _ s.rows
      (λ n q r. refl) (λ r _ _. refl)

prune-IsOutbox :
    (retention_days now : ℕ) (s : Store)
    → IsOutbox s.rows
    → IsOutbox (prune_settled_mission_settlements retention_days now s).0.rows
unfolding prune_settled_mission_settlements
prune-IsOutbox retention_days now s o =
    let less : (q : Row → Bool)
        → count q (prune_settled_mission_settlements retention_days now s).0.rows ≤ count q s.rows =
      λ q. count-keep_le q _ s.rows in
    record {
      unique = λ m p. omega (arith, less (is_row m p), o.unique m p);
      consistent = omega (arith, less (λ r. not (is_consistent r)), o.consistent);
    }

Work-IsOutbox : {s t : Store} → Work s t → IsOutbox s.rows → IsOutbox t.rows
unfolding mark_mission_settlement_settled
Work-IsOutbox {s} (Work.enqueues m p progress finished now) o =
    enqueue-IsOutbox m p progress finished now s o
Work-IsOutbox {s} (Work.claims token player force now) o = claim-IsOutbox token player force now s o
Work-IsOutbox {s} (Work.settles m p token now) o = settle-IsOutbox m p token now s.rows o
Work-IsOutbox {s} (Work.fails m p token retries error permanent now) o =
    fail-IsOutbox m p token retries error permanent now s o
Work-IsOutbox {s} (Work.commits update m p token progress finished now) o =
    commit-IsOutbox update m p token progress finished now s o
Work-IsOutbox {s} (Work.redrives m p now) o = redrive-IsOutbox m p now s o

-- However the workers' transactions and pruning follow one another from an empty table on, no match
-- and player have two rows, and exactly the rows in processing have a token and a lease.
pub Reached-IsOutbox : {s : Store} → Reached s → IsOutbox s.rows
unfolding mark_mission_settlement_settled count
Reached-IsOutbox (Reached.begins e) =
    rw e (record { unique = λ m p. omega arith; consistent = refl })
Reached-IsOutbox (Reached.prunes days now before) =
    prune-IsOutbox days now _ (Reached-IsOutbox before)
Reached-IsOutbox (Reached.works before work) = Work-IsOutbox work (Reached-IsOutbox before)
