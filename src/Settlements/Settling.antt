-- ===== src/Settlements/Settling.antt =====
-- A settlement of the outbox of jjk_arena/battle_v2/runtime_store.py is committed once.
use fantasy_draft.Base.{
  ℕ, ◌≤◌, ◌≡◌, refl, ◌∙◌, inl, inr, Bool, true, false, not, ◌&&◌, ◌||◌, Option, List, [], ◌∷◌, ◌++◌,
  if◌then◌else◌, ◌==◌, any, arith, Bool-cases, get_or,
}
use fantasy_draft.Dict.{lookup}
use fantasy_draft.Invariant.{if_keeps, maybe_keeps}
use fantasy_draft.Settlements.{
  SettlementStatus, Row, Store, is_pending, is_processing, is_settled, is_failed, is_dead, is_row,
  is_claimed, update_where, count, merge_enqueued, new_row, enqueue_mission_settlement, has_expired,
  release_expired, is_open, first_due, is_due, take_row, claim_next_mission_settlement, settle_row,
  mark_mission_settlement_settled, fail_mission_settlement_claim, Merged, Commit, write_merged,
  commit_profile_mission_settlement, redrive_mission_settlement,
}
use fantasy_draft.Settlements.Rows.{
  count-update_where_le, count_le, count_le-update_where, count-append, count-any, count-split,
  update_where_none,
}
use fantasy_draft.Settlements.Lifecycle.{IsOutbox, Work, Worked}

-- A row of the player in the match that is not settled.
abbrev is_unsettled : ℕ → ℕ → Row → Bool
is_unsettled m p r = is_row m p r && not (is_settled r.status)

-- There is a row of the player in the match, and none that is not settled.
record IsDone (m p : ℕ) (rows : List Row) : Type 0 where
  there : 1 ≤ count (is_row m p) rows
  settled : count (is_unsettled m p) rows ≡ 0

-- An update keeps what is done where it leaves settled rows settled, and all keys.
update_where-IsDone :
    (m p : ℕ) (c : Row → Bool) (f : Row → Row) (rows : List Row)
    → ((r : Row) → is_row m p (f r) ≡ is_row m p r)
    → ((r : Row) → c r ≡ true → is_settled r.status ≡ true → is_settled (f r).status ≡ true)
    → IsDone m p rows
    → IsDone m p (update_where c f rows)
update_where-IsDone m p c f rows key h d = record {
  there =
      let more = count_le-update_where (is_row m p) c f rows λ r _ e. key r ∙ e in
      omega (arith, more, d.there);
  settled =
      let less =
        count-update_where_le (is_unsettled m p) (is_unsettled m p) c f rows
          (λ r e n.
            let k = key r in
            elim (Bool-cases (is_settled r.status)) [
              | inl over ↦ absurd (let s = h r e over in ground arith)
              | inr open_still ↦ ground arith
            ])
          (λ r _ e. e) in
      omega (arith, less, d.settled);
}

any-count : (q : Row → Bool) (rows : List Row) → 1 ≤ count q rows → any q rows ≡ true
unfolding count
any-count q [] h = absurd (omega arith)
any-count q (r ∷ rows) h = elim (Bool-cases (q r)) [
  | inl here ↦ rw here refl
  | inr there ↦ let rest = any-count q rows in ground arith
]

is_settled-merged :
    (s : SettlementStatus)
    → is_settled s ≡ true
    → is_settled
        (if is_settled s || is_processing s || is_dead s then s else SettlementStatus.pending)
      ≡ true
is_settled-merged SettlementStatus.settled h = refl
is_settled-merged s h = rw h refl

-- No status but settled is meant by the tests for the others.
settled-only :
    (s : SettlementStatus)
    → is_settled s ≡ true
    → (is_processing s ≡ false)
      × (is_pending s ≡ false)
      × (is_failed s ≡ false)
      × (is_dead s ≡ false)
settled-only SettlementStatus.settled h = (refl, refl, refl, refl)
settled-only SettlementStatus.pending h = cc
settled-only SettlementStatus.processing h = cc
settled-only SettlementStatus.failed_retryable h = cc
settled-only SettlementStatus.dead_letter h = cc

module _ (m p : ℕ) where
  claim-IsDone :
      (token : ℕ) (player_id : Option ℕ) (force_due : Bool) (now : ℕ) (s : Store)
      → IsDone m p s.rows
      → IsDone m p (claim_next_mission_settlement token player_id force_due now s).1.rows
  unfolding claim_next_mission_settlement
  claim-IsDone token player_id force_due now s d =
      let released = update_where (has_expired now) (release_expired now) s.rows in
      let free : IsDone m p released =
        update_where-IsDone m p (has_expired now) (release_expired now) s.rows (λ r. refl)
          (λ r e over. absurd (let k = settled-only r.status over in ground arith)) d in
      maybe_keeps (λ (x : Option Row × Store). IsDone m p x.1.rows)
        (first_due (is_due player_id force_due now) released) free
        λ r _.
          let c = λ (x : Row). is_row r.match_id r.player_id x && is_open x in
          let taken : IsDone m p (update_where c (take_row token now) released) =
            update_where-IsDone m p c (take_row token now) released (λ r. refl)
              (λ x e over. absurd (let k = settled-only x.status over in ground arith)) free in
          if_keeps (λ (x : Option Row × Store). IsDone m p x.1.rows) (count c released == 1)
            (λ _. taken) (λ _. taken)

  settle-IsDone :
      (n q token now : ℕ) (rows : List Row)
      → IsDone m p rows
      → IsDone m p (update_where (is_claimed n q token) (settle_row now) rows)
  settle-IsDone n q token now rows =
      update_where-IsDone m p (is_claimed n q token) (settle_row now) rows (λ r. refl)
        (λ r _ _. refl)

  write_merged-IsDone :
      (n q token now : ℕ) (s : Store) (merged : Merged)
      → IsDone m p s.rows
      → IsDone m p (write_merged n q token now s merged).0.rows
  unfolding write_merged
  write_merged-IsDone n q token now s Merged.raised d = d
  write_merged-IsDone n q token now s (Merged.updated profile missions) d =
      if_keeps (λ (x : Store × Commit). IsDone m p x.0.rows)
        (count (is_claimed n q token) s.rows == 1) (λ _. settle-IsDone n q token now s.rows d)
        (λ _. d)

  append_new-IsDone :
      (n q progress terminal_at now : ℕ) (rows : List Row)
      → count (is_row n q) rows ≡ 0
      → IsDone m p rows
      → IsDone m p (rows ++ new_row n q progress terminal_at now ∷ [])
  unfolding count
  append_new-IsDone n q progress terminal_at now rows h d =
      let new = new_row n q progress terminal_at now ∷ [] in
      let other : (n == m && q == p) ≡ false = elim (Bool-cases (n == m && q == p)) [
        | inl same ↦
            let a : n ≡ m = ground arith in
            let b : q ≡ p = ground arith in
            let none_there : count (is_row m p) rows ≡ 0 = rw (← a, ← b) h in
            absurd (omega (arith, none_there, d.there))
        | inr e ↦ e
      ] in
      record {
        there = rw (count-append (is_row m p) rows new) (omega (arith, d.there));
        settled = rw (count-append (is_unsettled m p) rows new, other) (omega (arith, d.settled));
      }

  Work-IsDone : {s t : Store} → Work s t → IsDone m p s.rows → IsDone m p t.rows
  unfolding enqueue_mission_settlement merge_enqueued mark_mission_settlement_settled
      fail_mission_settlement_claim commit_profile_mission_settlement write_merged
      redrive_mission_settlement
  Work-IsDone {s} (Work.enqueues n q progress finished now) d =
      if_keeps (IsDone m p) (any (is_row n q) s.rows)
        (λ _.
          update_where-IsDone m p (is_row n q) (merge_enqueued progress now) s.rows (λ r. refl)
            (λ r _. is_settled-merged r.status) d)
        (λ e.
          append_new-IsDone n q progress (get_or finished now) now s.rows
            (count-any (is_row n q) s.rows e) d)
  Work-IsDone {s} (Work.claims token player force now) d = claim-IsDone token player force now s d
  Work-IsDone {s} (Work.settles n q token now) d = settle-IsDone n q token now s.rows d
  Work-IsDone {s} (Work.fails n q token retries error permanent now) d =
      update_where-IsDone m p (is_claimed n q token) _ s.rows (λ r. refl)
        (λ r e over. absurd (let k = settled-only r.status over in ground arith)) d
  Work-IsDone {s} (Work.commits update n q token progress finished now) d =
      if_keeps (λ (x : Store × Commit). IsDone m p x.0.rows)
        (count (is_claimed n q token) s.rows == 0) (λ _. d)
        (λ _. write_merged-IsDone n q token now s _ d)
  Work-IsDone {s} (Work.redrives n q now) d =
      update_where-IsDone m p (λ r. is_row n q r && (is_failed r.status || is_dead r.status)) _
        s.rows (λ r. refl) (λ r e over. absurd (let k = settled-only r.status over in ground arith))
        d

  Worked-IsDone : {s t : Store} → Worked s t → IsDone m p s.rows → IsDone m p t.rows
  Worked-IsDone Worked.stays d = d
  Worked-IsDone (Worked.goes_on before work) d = Work-IsDone work (Worked-IsDone before d)

  -- The one row that a token claims is done when it is settled.
  settled-IsDone :
      (token now : ℕ) (rows : List Row)
      → IsOutbox rows
      → count (is_claimed m p token) rows ≡ 1
      → IsDone m p (update_where (is_claimed m p token) (settle_row now) rows)
  settled-IsDone token now rows o h =
      let c = is_claimed m p token in
      let one : count c rows ≤ count (λ r. is_row m p r && c r) rows =
        count_le c (λ r. is_row m p r && c r) rows λ r e. ground arith in
      let split = count-split (is_row m p) c rows in
      let same = count_le-update_where (is_row m p) c (settle_row now) rows λ r _ e. e in
      let less : count (is_unsettled m p) (update_where c (settle_row now) rows)
          ≤ count (λ r. is_row m p r && not (c r)) rows =
        count-update_where_le (is_unsettled m p) (λ r. is_row m p r && not (c r)) c (settle_row now)
          rows (λ r e n. absurd (ground arith)) (λ r e n. rw e (ground arith)) in
      record {
        there = omega (arith, one, split, same, h);
        settled = omega (arith, one, split, less, h, o.unique m p);
      }

  done-unclaimed :
      (token : ℕ) (rows : List Row) → IsDone m p rows → count (is_claimed m p token) rows ≡ 0
  done-unclaimed token rows d =
      let less = count_le (is_claimed m p token) (is_unsettled m p) rows λ r e.
        elim (Bool-cases (is_settled r.status)) [
          | inl over ↦ absurd (let k = settled-only r.status over in ground arith)
          | inr open_still ↦ ground arith
        ] in
      omega (arith, less, d.settled)

  write_merged-Done :
      (token now : ℕ) (s : Store) (merged : Merged)
      → IsOutbox s.rows
      → (write_merged m p token now s merged).1 ≡ Commit.committed
      → IsDone m p (write_merged m p token now s merged).0.rows
  unfolding write_merged
  write_merged-Done token now s Merged.raised o = λ e. absurd cc
  write_merged-Done token now s (Merged.updated profile missions) o =
      let P : Store × Commit → Type 0 = λ run. run.1 ≡ Commit.committed → IsDone m p run.0.rows in
      if_keeps P (count (is_claimed m p token) s.rows == 1)
        (λ one e. settled-IsDone token now s.rows o (ground arith)) (λ _ e. absurd cc)

  commit-IsDone :
      (update_profile : ℕ → ℕ → ℕ → Merged) (token progress finished_at now : ℕ) (s : Store)
      → IsOutbox s.rows
      → let run =
          commit_profile_mission_settlement update_profile m p token progress finished_at now s in
        run.1 ≡ Commit.committed → IsDone m p run.0.rows
  unfolding commit_profile_mission_settlement
  commit-IsDone update_profile token progress finished_at now s o =
      let P : Store × Commit → Type 0 = λ run. run.1 ≡ Commit.committed → IsDone m p run.0.rows in
      if_keeps P (count (is_claimed m p token) s.rows == 0) (λ _ e. absurd cc)
        (λ _.
          write_merged-Done token now s
            (update_profile (get_or (lookup p s.profiles) 0) progress finished_at) o)

-- After the settlement of a player's match was committed, nobody commits it again: whatever the
-- workers do to the outbox short of pruning, late and with whichever token, a further commit or mark
-- for the same player and match answers that it holds no claim and changes nothing.
pub committed_once :
    (update_profile update_again : ℕ → ℕ → ℕ → Merged) (m p token progress finished_at now : ℕ)
    (token_again progress_again finished_again later_now : ℕ) (s : Store) {later : Store}
    → IsOutbox s.rows
    → (commit_profile_mission_settlement update_profile m p token progress finished_at now s).1
      ≡ Commit.committed
    → Worked
        (commit_profile_mission_settlement update_profile m p token progress finished_at now s).0
        later
    → (commit_profile_mission_settlement update_again m p token_again progress_again finished_again
          later_now later
        ≡ (later, Commit.not_claimed))
      × (mark_mission_settlement_settled m p token_again later_now later ≡ (later, false))
unfolding commit_profile_mission_settlement mark_mission_settlement_settled
committed_once update_profile update_again m p token progress finished_at now token_again
      progress_again finished_again later_now s {later} o h worked =
    let done =
      Worked-IsDone m p worked
        (commit-IsDone m p update_profile token progress finished_at now s o h) in
    let idle = done-unclaimed m p token_again later.rows done in
    (
      rw idle refl,
      rw
          (
            idle,
            update_where_none (is_claimed m p token_again) (settle_row later_now) later.rows idle,
          )
          refl,
    )
