-- ===== src/Timers.antt =====
-- Phase deadlines, jjk_arena/battle_v2/timers.py. Clock readings and deadlines are in milliseconds;
-- the policy's two durations are whole seconds. A function that writes `state.phase_deadline` gives
-- the new deadline.
use fantasy_draft.Base.{
  ℕ, ◌+◌, ◌-◌, ◌*◌, ◌/◌, ◌≤◌, ◌≡◌, ◌↔◌, refl, Bool, true, false, Option, none, some, leb, arith,
}
use fantasy_draft.Models.{BattlePhase}

pub record BattleTimerPolicy : Type 0 where
  pub planning_seconds : ℕ
  pub queue_review_seconds : ℕ

abbrev pub default_policy : BattleTimerPolicy
default_policy = record { planning_seconds = 60; queue_review_seconds = 30 }

unfoldable pub seconds_for : BattleTimerPolicy → BattlePhase → Option ℕ
seconds_for policy BattlePhase.planning = some policy.planning_seconds
seconds_for policy BattlePhase.queue_review = some policy.queue_review_seconds
seconds_for policy _ = none

unfoldable pub arm_phase_timer : BattleTimerPolicy → BattlePhase → ℕ → Option ℕ
arm_phase_timer policy phase now = elim (seconds_for policy phase) [
  | none ↦ none
  | some seconds ↦ some (now + seconds * 1000)
]

unfoldable pub phase_timer_expired : Option ℕ → ℕ → Bool
phase_timer_expired none now = false
phase_timer_expired (some deadline) now = leb deadline now

-- `max(0, math.ceil(deadline - clock()))`; a difference below 0 is cut off at 0 before.
unfoldable pub phase_seconds_remaining : Option ℕ → ℕ → Option ℕ
phase_seconds_remaining none now = none
phase_seconds_remaining (some deadline) now = some ((deadline - now + 999) / 1000)

late : (deadline now : ℕ) → deadline - now ≡ 0 → leb deadline now ≡ true
late deadline now h = ground arith

-- A player is shown no seconds left exactly if the phase has expired.
pub seconds-expired :
    (deadline : Option ℕ) (now : ℕ)
    → (phase_timer_expired deadline now ≡ true) ↔ (phase_seconds_remaining deadline now ≡ some 0)
unfolding phase_timer_expired phase_seconds_remaining
seconds-expired none now = (λ h. absurd cc, λ h. absurd cc)
seconds-expired (some deadline) now = (
  λ h. let due : deadline - now ≡ 0 = ground arith in rw due refl,
  λ h. late deadline now (let n : (deadline - now + 999) / 1000 ≡ 0 = cc in omega arith),
)

expires_at :
    (now seconds passed : ℕ) (o : Option ℕ)
    → o ≡ some seconds
    → (phase_timer_expired (elim o [ none ↦ none | some n ↦ some (now + n * 1000) ]) (now + passed)
        ≡ true)
      ↔ (seconds * 1000 ≤ passed)
unfolding phase_timer_expired
expires_at now seconds passed o h = rw h (λ e. ground arith, λ e. ground arith)

-- A phase that the policy gives some seconds expires exactly when that many seconds have passed
-- since the timer was armed, and a phase without seconds never expires.
pub armed_expires :
    (policy : BattleTimerPolicy) (phase : BattlePhase) (now passed : ℕ)
    → let expired = phase_timer_expired (arm_phase_timer policy phase now) (now + passed) in
      ((seconds : ℕ)
        → seconds_for policy phase ≡ some seconds
        → (expired ≡ true) ↔ (seconds * 1000 ≤ passed))
      × (seconds_for policy phase ≡ none → expired ≡ false)
unfolding phase_timer_expired arm_phase_timer
armed_expires policy phase now passed = (
  λ seconds h. expires_at now seconds passed (seconds_for policy phase) h,
  λ h. ground (arith, h),
)
