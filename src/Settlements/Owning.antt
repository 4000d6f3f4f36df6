-- ===== src/Settlements/Owning.antt =====
-- A claim on a row of the outbox of jjk_arena/battle_v2/runtime_store.py is exclusive until its lease
-- is over.
use fantasy_draft.Base.{
  ℕ, ◌+◌, ◌≤◌, ◌≡◌, refl, ◌∙◌, inl, inr, Bool, true, false, not, ◌&&◌, ◌||◌, Option, none, some,
  List, [], ◌∷◌, if◌then◌else◌, ◌==◌, ltb, arith, Bool-cases, Option-cases,
}
use fantasy_draft.Invariant.{if_keeps, maybe_keeps}
use fantasy_draft.Settlements.{
  SettlementStatus, Row, Store, is_pending, is_processing, is_failed, is_row, is_claimed,
  update_where, count, has_expired, release_expired, is_open, first_due, is_due, take_row,
  claim_next_mission_settlement, comes_before,
}
use fantasy_draft.Settlements.Rows.{count_le, count_le-update_where, count-split}
use fantasy_draft.Settlements.Lifecycle.{IsOutbox, update_where-IsOutbox}

-- A row that a token claims, with time left on its lease.
abbrev pub is_held : ℕ → ℕ → ℕ → ℕ → Row → Bool
is_held m p token now r =
    is_claimed m p token r && elim r.claim_expires_at [ none ↦ false | some t ↦ ltb now t ]

-- The row that is found is tested for, and counts.
pub first_due-is_due :
    (c q : Row → Bool) (rows : List Row) {r : Row}
    → first_due c rows ≡ some r
    → (c r ≡ true) × (q r ≡ true → 1 ≤ count q rows)
unfolding first_due count
first_due-is_due c q [] = λ e. absurd cc
first_due-is_due c q (x ∷ rows) {r} =
    let P : Option Row → Type 0 =
      λ o. o ≡ some r → (c r ≡ true) × (q r ≡ true → 1 ≤ (if q x then 1 else 0) + count q rows) in
    let later : (b : Row) → first_due c rows ≡ some b → P (some b) = λ b f e.
      let same : first_due c rows ≡ some r = f ∙ e in
      let (due, more) = first_due-is_due c q rows same in (due, λ k. omega (arith, more k)) in
    let here : c x ≡ true → P (some x) = λ k e.
      let same : x ≡ r = cc in
      (rw (← same) k, λ j. let g : q x ≡ true = rw same j in rw g (omega arith)) in
    if_keeps P (c x)
      (λ k.
        maybe_keeps P (first_due c rows) (here k)
          λ b f. if_keeps P (comes_before b x) (λ _. later b f) (λ _. here k))
      (λ _. elim (Option-cases (first_due c rows)) [
        | inl nobody ↦ rw nobody (λ e. absurd cc)
        | inr (b, f) ↦ rw f (later b f)
      ])

held-current :
    (m p token now : ℕ) (r : Row) → is_held m p token now r ≡ true → has_expired now r ≡ false
held-current m p token now r h = elim (Option-cases r.claim_expires_at) [
  | inl free ↦ rw free (ground arith)
  | inr (t, e) ↦ let k = (rw e at h) in rw e (ground arith)
]

processing-closed :
    (s : SettlementStatus) → is_processing s ≡ true → (is_pending s || is_failed s) ≡ false
processing-closed SettlementStatus.processing h = refl
processing-closed SettlementStatus.pending h = cc
processing-closed SettlementStatus.settled h = cc
processing-closed SettlementStatus.failed_retryable h = cc
processing-closed SettlementStatus.dead_letter h = cc

held-closed :
    (m p token now : ℕ) (r : Row)
    → is_held m p token now r ≡ true
    → (is_row m p r ≡ true) × (is_open r ≡ false)
held-closed m p token now r h = (ground arith, processing-closed r.status (ground arith))

-- Where a row is held, none of its key is open.
held-alone :
    (m p token now : ℕ) (rows : List Row)
    → IsOutbox rows
    → 1 ≤ count (is_held m p token now) rows
    → count (λ r. is_row m p r && is_open r) rows ≡ 0
held-alone m p token now rows o h =
    let inside =
      count_le (is_held m p token now) (λ r. is_row m p r && not (is_open r)) rows
        λ r e. let (mine, closed) = held-closed m p token now r e in rw (mine, closed) refl in
    omega (arith, inside, count-split (is_row m p) is_open rows, o.unique m p, h)

-- A row that is found due has not the key of a row that is held.
found-other :
    (m p token now : ℕ) (player_id : Option ℕ) (force_due : Bool) (rows : List Row) {r : Row}
    → IsOutbox rows
    → 1 ≤ count (is_held m p token now) rows
    → first_due (is_due player_id force_due now) rows ≡ some r
    → is_row m p r ≡ false
unfolding is_due
found-other m p token now player_id force_due rows {r} o h f =
    let (due, counted) =
      first_due-is_due (is_due player_id force_due now) (λ x. is_row m p x && is_open x) rows f in
    elim (Bool-cases (is_row m p r)) [
      | inl mine ↦
          let opened : is_open r ≡ true = ground arith in
          absurd
            (omega (arith, held-alone m p token now rows o h, counted (rw (mine, opened) refl)))
      | inr other ↦ other
    ]

-- A claim whose lease is not over is exclusive: no claim of another worker, forced or not, gets its
-- row or changes its token and lease.
pub claim_exclusive :
    (m p token token_again : ℕ) (player_id : Option ℕ) (force_due : Bool) (now : ℕ) (s : Store)
    → IsOutbox s.rows
    → 1 ≤ count (is_held m p token now) s.rows
    → let run = claim_next_mission_settlement token_again player_id force_due now s in
      (1 ≤ count (is_held m p token now) run.1.rows)
      × ((r : Row) → run.0 ≡ some r → is_row m p r ≡ false)
unfolding claim_next_mission_settlement
claim_exclusive m p token token_again player_id force_due now s o h =
    let held = is_held m p token now in
    let c = is_due player_id force_due now in
    let released = update_where (has_expired now) (release_expired now) s.rows in
    let free : IsOutbox released =
      update_where-IsOutbox (has_expired now) (release_expired now) s.rows (λ n q r. refl)
        (λ r _ _. refl) o in
    let still : 1 ≤ count held released = omega (
      arith,
      h,
      count_le-update_where held (has_expired now) (release_expired now) s.rows
          λ r e k. absurd (let current = held-current m p token now r k in cc),
    ) in
    let P : Option Row × Store → Type 0 =
      λ x. (1 ≤ count held x.1.rows) × ((r : Row) → x.0 ≡ some r → is_row m p r ≡ false) in
    maybe_keeps P (first_due c released) (still, λ r e. absurd cc)
      λ best f.
        let meant = λ (x : Row). is_row best.match_id best.player_id x && is_open x in
        let kept : 1 ≤ count held (update_where meant (take_row token_again now) released) = omega (
          arith,
          still,
          count_le-update_where held meant (take_row token_again now) released
              λ r e k. absurd (let closed = held-closed m p token now r k in ground arith),
        ) in
        if_keeps P (count meant released == 1)
          (λ _. (
            kept,
            λ r e. found-other m p token now player_id force_due released free still (f ∙ e),
          ))
          (λ _. (kept, λ r e. absurd cc))
