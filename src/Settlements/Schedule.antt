-- ===== src/Settlements/Schedule.antt =====
-- Which settlement a worker of jjk_arena/battle_v2/runtime_store.py gets, and when a failed one is due
-- again.
use fantasy_draft.Base.{
  ℕ, zero, suc, ◌+◌, ◌-◌, ◌*◌, ◌≤◌, ◌≡◌, refl, ◌∙◌, inl, inr, Bool, true, false, ◌&&◌, ◌==◌, ltb,
  leb, Option, none, some, List, [], ◌∷◌, if◌then◌else◌, arith, Bool-cases, Option-cases, ==_refl,
}
use fantasy_draft.Invariant.{if_keeps, maybe_keeps}
use fantasy_draft.Settlements.Rows.{count_le, count-updated_le}
use fantasy_draft.Settlements.{
  Row, Store, count, comes_before, first_due, power_of_two, min, retry_delay, update_where,
  has_expired, release_expired, is_due, is_open, is_row, take_row, lease,
  claim_next_mission_settlement,
}
use fantasy_draft.Settlements.Lifecycle.{IsOutbox, update_where-IsOutbox}
use fantasy_draft.Settlements.Owning.{is_held, first_due-is_due}

comes_before_trans :
    (a b c : Row) → comes_before b a ≡ false → comes_before c b ≡ false → comes_before c a ≡ false
unfolding comes_before
comes_before_trans a b c h k = ground arith

comes_before_irrefl : (a : Row) → comes_before a a ≡ false
unfolding comes_before
comes_before_irrefl a = ground arith

comes_before_asym : (a b : Row) → comes_before a b ≡ true → comes_before b a ≡ false
unfolding comes_before
comes_before_asym a b h = ground arith

-- Where none is found, none is tested for.
first_due-none : (c : Row → Bool) (rows : List Row) → first_due c rows ≡ none → count c rows ≡ 0
unfolding first_due count
first_due-none c [] = λ _. refl
first_due-none c (x ∷ rows) =
    let P : Option Row → Type 0 = λ o. o ≡ none → (if c x then 1 else 0) + count c rows ≡ 0 in
    elim (Bool-cases (c x)) [
      | inl here ↦ rw here (
          maybe_keeps (λ o. o ≡ none → 1 + count c rows ≡ 0) (first_due c rows) (λ e. absurd cc)
            λ b _.
              if_keeps (λ o. o ≡ none → 1 + count c rows ≡ 0) (comes_before b x) (λ _ e. absurd cc)
                (λ _ e. absurd cc))
      | inr there ↦ rw there (λ e. omega (arith, first_due-none c rows e))
    ]

-- Where the best of the rest is not before a row, nobody is.
none_before :
    (c : Row → Bool) (b x : Row) (rows : List Row)
    → comes_before b x ≡ false
    → count (λ r. c r && comes_before r b) rows ≡ 0
    → count (λ r. c r && comes_before r x) rows ≡ 0
none_before c b x rows h k =
    let less =
      count_le (λ r. c r && comes_before r x) (λ r. c r && comes_before r b) rows
        λ r e. elim (Bool-cases (comes_before r b)) [
          | inl before ↦ ground arith
          | inr after ↦ absurd (let n = comes_before_trans x b r h after in ground arith)
        ] in
    omega (arith, less, k)

-- The one found is tested for, and none of those before it in the order is.
first_due-First :
    (c : Row → Bool) (rows : List Row) {best : Row}
    → first_due c rows ≡ some best
    → (c best ≡ true) × (count (λ r. c r && comes_before r best) rows ≡ 0)
unfolding first_due count
first_due-First c [] = λ e. absurd cc
first_due-First c (x ∷ rows) {best} =
    let P : Option Row → Type 0 = λ o.
      o ≡ some best
      → (c best ≡ true)
        × ((if c x && comes_before x best then 1 else 0)
              + count (λ r. c r && comes_before r best) rows
            ≡ 0) in
    let later : (b : Row)
        → first_due c rows ≡ some b
        → (c x && comes_before x b) ≡ false
        → P (some b) =
      λ b f free e.
        let (due, none_there) = first_due-First c rows (f ∙ e) in
        let same : b ≡ best = cc in
        let off : (c x && comes_before x best) ≡ false = rw (← same) free in
        (due, rw off (omega (arith, none_there))) in
    let here : c x ≡ true → count (λ r. c r && comes_before r x) rows ≡ 0 → P (some x) =
      λ due none_there e.
        let same : x ≡ best = cc in
        rw (← same) (due, rw (comes_before_irrefl x, due) (omega (arith, none_there))) in
    if_keeps P (c x)
      (λ due. elim (Option-cases (first_due c rows)) [
        | inl nobody ↦
            let fewer = count_le (λ r. c r && comes_before r x) c rows λ r e. ground arith in
            rw nobody (here due (omega (arith, fewer, first_due-none c rows nobody)))
        | inr (b, f) ↦ rw f (
            if_keeps P (comes_before b x)
              (λ before. later b f (rw (comes_before_asym b x before) (ground arith)))
              (λ after. here due (none_before c b x rows after (first_due-First c rows f).1)))
      ])
      (λ idle. elim (Option-cases (first_due c rows)) [
        | inl nobody ↦ rw nobody (λ e. absurd cc)
        | inr (b, f) ↦ rw f (later b f (rw idle refl))
      ])

power_of_two-positive : (n : ℕ) → 1 ≤ power_of_two n
power_of_two-positive zero = omega arith
power_of_two-positive (suc n) = let h = power_of_two-positive n in omega arith

power_of_two_mono : (a b : ℕ) → a ≤ b → power_of_two a ≤ power_of_two b
power_of_two_mono zero b h = power_of_two-positive b
power_of_two_mono (suc a) zero h = absurd (omega arith)
power_of_two_mono (suc a) (suc b) h = let rest = power_of_two_mono a b (omega arith) in omega arith

retry_delay-power : (n : ℕ) → retry_delay n ≡ power_of_two (min (n - 1) 8) * 1000
unfolding retry_delay
retry_delay-power n =
    let high : power_of_two (min (n - 1) 8) ≤ 256 =
      power_of_two_mono (min (n - 1) 8) 8 (ground arith) in
    let less : leb 300 (power_of_two (min (n - 1) 8)) ≡ false = ground arith in rw less refl

retry_delay-doubles : (n : ℕ) → 1 ≤ n → n ≤ 8 → retry_delay (n + 1) ≡ 2 * retry_delay n
retry_delay-doubles zero h k = absurd (omega arith)
retry_delay-doubles (suc n) h k =
    let after : min (suc n + 1 - 1) 8 ≡ suc n = ground arith in
    let before : min (suc n - 1) 8 ≡ n = ground arith in
    rw (retry_delay-power (suc n + 1), retry_delay-power (suc n), after, before) (omega arith)

-- The one row that a claim means, where keys are unique.
taken-one :
    (m p : ℕ) (rows : List Row)
    → count (is_row m p) rows ≤ 1
    → 1 ≤ count (λ x. is_row m p x && is_open x) rows
    → (count (λ x. is_row m p x && is_open x) rows == 1) ≡ true
taken-one m p rows u h =
    let less = count_le (λ x. is_row m p x && is_open x) (is_row m p) rows λ x e. ground arith in
    ground arith

-- What holds of one of two equal finds holds of the other.
found_same : (P : Row → Type 0) {b r : Row} → some b ≡ some r → P b → P r
found_same P {b} {r} e h = let same : b ≡ r = cc in rw (← same) h

module _ (token : ℕ) (player_id : Option ℕ) (force_due : Bool) (now : ℕ) (s : Store) where
  abbrev pub due : Row → Bool
  due = is_due player_id force_due now

  -- The rows after those whose lease was over were given free.
  abbrev pub released : List Row
  released = update_where (has_expired now) (release_expired now) s.rows

  -- What a claim gives.
  pub record IsBestClaim (run : Option Row × Store) : Type 0 where
    best :
        (r : Row)
        → run.0 ≡ some r
        → (due r ≡ true)
          × (count (λ x. due x && comes_before x r) released ≡ 0)
          × (1 ≤ count (is_held r.match_id r.player_id token now) run.1.rows)
    nobody : run.0 ≡ none → count due released ≡ 0

  -- The row that is found is met by the claim's UPDATE.
  found-open :
      (r : Row)
      → first_due due released ≡ some r
      → 1 ≤ count (λ x. is_row r.match_id r.player_id x && is_open x) released
  unfolding is_due
  found-open r f =
      let c : Row → Bool = λ x. is_row r.match_id r.player_id x && is_open x in
      let (meant, counted) = first_due-is_due due c released f in
      let opened : is_open r ≡ true = ground arith in
      counted (rw (==_refl r.match_id, ==_refl r.player_id, opened) refl)

  taken-held :
      (r : Row)
      → first_due due released ≡ some r
      → let c : Row → Bool = λ x. is_row r.match_id r.player_id x && is_open x in
        1
        ≤ count
            (is_held r.match_id r.player_id token now)
            (update_where c (take_row token now) released)
  taken-held r f =
      let c : Row → Bool = λ x. is_row r.match_id r.player_id x && is_open x in
      let fresh : ltb now (now + lease) ≡ true = ground arith in
      let held =
        count-updated_le (is_held r.match_id r.player_id token now) c (take_row token now) released
          λ x e.
            let mine : is_row r.match_id r.player_id x ≡ true = ground arith in
            rw (mine, ==_refl token, fresh) refl in
      omega (arith, held, found-open r f)

  -- In a table whose keys are unique, a claim gives the first of the rows that are due, by the time of the next attempt, the end of the
  -- match and the ids, leases that are over being given free before, and whoever gets it holds the
  -- row's claim with time left; it gives none only if none is due.
  pub claim-IsBestClaim :
      IsOutbox s.rows → IsBestClaim (claim_next_mission_settlement token player_id force_due now s)
  unfolding claim_next_mission_settlement
  claim-IsBestClaim o =
      let free : IsOutbox released =
        update_where-IsOutbox (has_expired now) (release_expired now) s.rows (λ n q r. refl)
          (λ r _ _. refl) o in
      elim (Option-cases (first_due due released)) [
        | inl none_due ↦
            rw (claim_next_mission_settlement, none_due)
              (record {
                best = λ r e. absurd cc;
                nobody = λ _. first_due-none due released none_due;
              })
        | inr (b, f) ↦
            let one =
              taken-one b.match_id b.player_id released (free.unique b.match_id b.player_id)
                (found-open b f) in
            rw (claim_next_mission_settlement, f, one)
              (record {
                best = λ r e.
                    let (meant, first) = first_due-First due released f in
                    found_same
                      (λ x.
                        (due x ≡ true)
                        × (count (λ y. due y && comes_before y x) released ≡ 0)
                        × (1
                            ≤ count (is_held x.match_id x.player_id token now) (
                                update_where (λ y. is_row b.match_id b.player_id y && is_open y)
                                  (take_row token now) released)))
                      e (meant, first, taken-held b f);
                nobody = λ e. absurd cc;
              })
      ]

-- A failed settlement is tried again after 1 second at least and 256 seconds at most, so that the
-- bound of 300 seconds is never met, and each failure up to the ninth doubles the wait.
pub retry_delay_bounds :
    (n : ℕ)
    → ((1000 ≤ retry_delay n) × (retry_delay n ≤ 256000))
      × (1 ≤ n → n ≤ 8 → retry_delay (n + 1) ≡ 2 * retry_delay n)
retry_delay_bounds n =
    let low = power_of_two-positive (min (n - 1) 8) in
    let high : power_of_two (min (n - 1) 8) ≤ 256 =
      power_of_two_mono (min (n - 1) 8) 8 (ground arith) in
    let e = retry_delay-power n in ((omega arith, omega arith), retry_delay-doubles n)
