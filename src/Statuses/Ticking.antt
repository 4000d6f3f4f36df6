-- ===== src/Statuses/Ticking.antt =====
-- How long statuses and cooldowns last, `tick_statuses` and `tick_cooldowns` of
-- jjk_arena/battle_v2/effects.py.
use mathlib.Core.Path.{subst}
use fantasy_draft.Base.{
  ==_iff, ℕ, zero, suc, ◌-◌, ◌<◌, ◌≡◌, refl, ap, ◌∙◌, sym, inl, inr, true, false, ◌&&◌, List, [],
  ◌∷◌, ◌==◌, Option, none, some, ltb, arith, All, Bool-cases, if◌then◌else◌, keep, map,
}
use fantasy_draft.Int.{ℤ, pos, ◌-ℤ◌, ltb_ℤ}
use fantasy_draft.Dict.{Dict, lookup}
use fantasy_draft.Models.{DurationClock, StatusEffect, CharacterState}
use fantasy_draft.Conditions.{is_active}
use fantasy_draft.Statuses.SideEffects.{remove_status_side_effects}
use fantasy_draft.Statuses.Clock.{
  Pass, clock_ticks, should_tick_status, tick, tick_loop, tick_statuses, tick_cooldown_list,
}

-- After a pass the statuses are the ticked ones that are still active, in order.
tick_loop-keep :
    (pass : Pass) (l : List StatusEffect) (c : CharacterState)
    → (tick_loop pass l c).1 ≡ keep is_active (map (tick pass) l)
unfolding tick_loop
tick_loop-keep pass [] c = refl
tick_loop-keep pass (s ∷ l) c = rw (
    tick_loop-keep pass l
      (if is_active (tick pass s) then c else remove_status_side_effects c (tick pass s)))

pub tick_statuses-keep :
    (pass : Pass) (c : CharacterState)
    → (tick_statuses pass c).statuses ≡ keep is_active (map (tick pass) c.statuses)
unfolding tick_statuses
tick_statuses-keep pass c = tick_loop-keep pass c.statuses c

-- One pass after another of the same kind.
abbrev pub ticks : ℕ → Pass → StatusEffect → StatusEffect
ticks zero pass s = s
ticks (suc k) pass s = ticks k pass (tick pass s)

abbrev pub passes : ℕ → Pass → CharacterState → CharacterState
passes zero pass c = c
passes (suc k) pass c = passes k pass (tick_statuses pass c)

tick_inactive : (pass : Pass) (s : StatusEffect) → is_active s ≡ false → tick pass s ≡ s
unfolding tick
tick_inactive pass s h = ground arith

ticks_inactive : (k : ℕ) (pass : Pass) (s : StatusEffect) → is_active s ≡ false → ticks k pass s ≡ s
ticks_inactive zero pass s h = refl
ticks_inactive (suc k) pass s h = rw (tick_inactive pass s h) (ticks_inactive k pass s h)

keep-map-ticks :
    (k : ℕ) (pass : Pass) (l : List StatusEffect)
    → keep is_active (map (ticks k pass) (keep is_active l)) ≡ keep is_active (map (ticks k pass) l)
keep-map-ticks k pass [] = refl
keep-map-ticks k pass (s ∷ l) = elim (Bool-cases (is_active s)) [
  | inl on ↦ rw (on, keep-map-ticks k pass l)
  | inr off ↦ rw (off, ticks_inactive k pass s off, off) (keep-map-ticks k pass l)
]

keep-All : (l : List StatusEffect) → All (λ s. is_active s ≡ true) (keep is_active l)
keep-All [] = tt
keep-All (s ∷ l) = elim (Bool-cases (is_active s)) [
  | inl on ↦ rw on (on, keep-All l)
  | inr off ↦ rw off (keep-All l)
]

kept_as_it_is :
    (l : List StatusEffect) → All (λ s. is_active s ≡ true) l → keep is_active (map (λ s. s) l) ≡ l
kept_as_it_is [] h = refl
kept_as_it_is (s ∷ l) h = rw (h.0, kept_as_it_is l h.1)

map-tick :
    (k : ℕ) (pass : Pass) (l : List StatusEffect)
    → map (ticks k pass) (map (tick pass) l) ≡ map (ticks (suc k) pass) l
map-tick k pass [] = refl
map-tick k pass (s ∷ l) = rw (map-tick k pass l)

-- After any number of passes the statuses are those of the start that are still active, each ticked
-- as often, in order: expired ones are removed and nothing else is.
pub passes-statuses :
    (k : ℕ) (pass : Pass) (c : CharacterState)
    → All (λ s. is_active s ≡ true) c.statuses
    → (passes k pass c).statuses ≡ keep is_active (map (ticks k pass) c.statuses)
passes-statuses zero pass c h = sym (kept_as_it_is c.statuses h)
passes-statuses (suc k) pass c h =
    let active : All (λ s. is_active s ≡ true) (tick_statuses pass c).statuses =
      rw tick_statuses-keep (keep-All (map (tick pass) c.statuses)) in
    rw (
      passes-statuses k pass (tick_statuses pass c) active,
      tick_statuses-keep,
      keep-map-ticks,
      map-tick,
    )

clock_ticks-duration :
    (k : DurationClock) (d : ℤ) (s : StatusEffect) (pass : Pass)
    → clock_ticks k (record s { duration = d }) pass ≡ clock_ticks k s pass
unfolding clock_ticks
clock_ticks-duration DurationClock.source_turn d s pass = refl
clock_ticks-duration _ d s pass = refl

should_tick-tick :
    (pass : Pass) (s : StatusEffect)
    → should_tick_status s pass ≡ true
    → should_tick_status (tick pass s) pass ≡ true
unfolding tick should_tick_status
should_tick-tick pass s h =
    elim (Bool-cases (ltb_ℤ (pos 0) s.duration && should_tick_status s pass)) [
      | inl e ↦ rw (e, clock_ticks-duration s.duration_clock (s.duration -ℤ pos 1) s pass) h
      | inr e ↦ rw e h
    ]

tick-duration :
    (n : ℕ) (pass : Pass) (s : StatusEffect)
    → s.duration ≡ pos n
    → should_tick_status s pass ≡ true
    → (tick pass s).duration ≡ pos (n - 1)
unfolding tick ◌-ℤ◌
tick-duration n pass s d h = ground arith

-- A status of duration n whose clock advances on the pass has n - k left after k passes, so it is
-- active for the first n - 1 of them and no longer.
pub ticks-duration :
    (k n : ℕ) (pass : Pass) (s : StatusEffect)
    → s.duration ≡ pos n
    → should_tick_status s pass ≡ true
    → (ticks k pass s).duration ≡ pos (n - k)
ticks-duration zero n pass s d h = d ∙ ap pos (omega arith)
ticks-duration (suc k) n pass s d h =
    ticks-duration k (n - 1) pass (tick pass s) (tick-duration n pass s d h)
      (should_tick-tick pass s h)
    ∙ ap pos (omega arith)

-- The cooldowns after some passes.
abbrev pub cooldown_passes : ℕ → Dict ℤ → Dict ℤ
cooldown_passes zero d = d
cooldown_passes (suc k) d = cooldown_passes k (tick_cooldown_list d)

-- A dict holds a key once.
abbrev pub HasDistinctKeys : Dict ℤ → Type 0
HasDistinctKeys [] = Unit
HasDistinctKeys ((k, v) ∷ d) = (lookup k d ≡ none) × HasDistinctKeys d

abbrev pub counted_down : Option ℤ → Option ℤ
counted_down none = none
counted_down (some turns) = if ltb_ℤ (pos 0) (turns -ℤ pos 1) then some (turns -ℤ pos 1) else none

lookup-tick_cooldown_list :
    (id : ℕ) (d : Dict ℤ)
    → HasDistinctKeys d
    → lookup id (tick_cooldown_list d) ≡ counted_down (lookup id d)
unfolding lookup tick_cooldown_list
lookup-tick_cooldown_list id [] h = refl
lookup-tick_cooldown_list id ((k, turns) ∷ d) h =
    let later = lookup-tick_cooldown_list id d h.1 in
    elim (Bool-cases (k == id)) [
      | inl same ↦
          let gone : lookup id d ≡ none =
            subst (λ j. lookup j d ≡ none) ((==_iff k id).0 same) h.0 in
          elim (Bool-cases (ltb_ℤ (pos 0) (turns -ℤ pos 1))) [
            | inl more ↦ rw (more, same, more)
            | inr over ↦ rw (over, same, over) (later ∙ ap counted_down gone)
          ]
      | inr other ↦ elim (Bool-cases (ltb_ℤ (pos 0) (turns -ℤ pos 1))) [
        | inl more ↦ rw (more, other) later
        | inr over ↦ rw (over, other) later
      ]
    ]

tick_cooldown_list-HasDistinctKeys :
    (d : Dict ℤ) → HasDistinctKeys d → HasDistinctKeys (tick_cooldown_list d)
unfolding tick_cooldown_list
tick_cooldown_list-HasDistinctKeys [] h = tt
tick_cooldown_list-HasDistinctKeys ((k, turns) ∷ d) h =
    elim (Bool-cases (ltb_ℤ (pos 0) (turns -ℤ pos 1))) [
      | inl more ↦ rw more (
        lookup-tick_cooldown_list k d h.1 ∙ ap counted_down h.0,
        tick_cooldown_list-HasDistinctKeys d h.1,
      )
      | inr over ↦ rw over (tick_cooldown_list-HasDistinctKeys d h.1)
    ]

abbrev counted : ℕ → Option ℤ → Option ℤ
counted zero o = o
counted (suc k) o = counted k (counted_down o)

lookup-cooldown_passes :
    (k id : ℕ) (d : Dict ℤ)
    → HasDistinctKeys d
    → lookup id (cooldown_passes k d) ≡ counted k (lookup id d)
lookup-cooldown_passes zero id d h = refl
lookup-cooldown_passes (suc k) id d h =
    lookup-cooldown_passes k id (tick_cooldown_list d) (tick_cooldown_list-HasDistinctKeys d h)
    ∙ ap (counted k) (lookup-tick_cooldown_list id d h)

counted-none : (k : ℕ) → counted k none ≡ none
counted-none zero = refl
counted-none (suc k) = counted-none k

counted_down_pos :
    (n : ℕ) → counted_down (some (pos n)) ≡ (if ltb 1 n then some (pos (n - 1)) else none)
unfolding ◌-ℤ◌
counted_down_pos n = ground arith

counted_pos :
    (k n : ℕ)
    → counted (suc k) (some (pos n)) ≡ (if ltb (suc k) n then some (pos (n - suc k)) else none)
counted_pos zero n = counted_down_pos n
counted_pos (suc k) n = elim (Bool-cases (ltb 1 n)) [
  | inl more ↦ rw (counted_down_pos n, more, counted_pos k (n - 1)) (ground arith)
  | inr over ↦ rw (counted_down_pos n, over, counted-none k) (ground arith)
]

-- The counter of a skill after k passes of its owner's turn, k at least 1: a counter of n stands at
-- n - k while that is positive, and then it is gone.
pub cooldown_lasts :
    (k n id : ℕ) (d : Dict ℤ)
    → HasDistinctKeys d
    → lookup id d ≡ some (pos n)
    → 0 < k
    → lookup id (cooldown_passes k d) ≡ (if ltb k n then some (pos (n - k)) else none)
cooldown_lasts zero n id d h e p = absurd (omega arith)
cooldown_lasts (suc k) n id d h e p =
    rw (lookup-cooldown_passes (suc k) id d h, e) (counted_pos k n)
