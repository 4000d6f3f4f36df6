-- ===== src/Removals.antt =====
-- Effects of the type "remove_status", the branch of `apply_effect` in
-- jjk_arena/battle_v2/effects.py.
use fantasy_draft.Base.{
  ℕ, suc, ◌≡◌, ◌≢◌, ◌⊎◌, refl, sym, true, arith, ==_refl, ◌∙◌, inl, inr, Bool, false, not, ◌&&◌,
  ◌||◌, Option, none, some, List, [], ◌∷◌, ◌==◌, if◌then◌else◌, get_or, length, keep, Bool-cases,
  Option-cases, fun_ext, ap, any,
}
use fantasy_draft.Int.{ℤ, pos, eqb_ℤ, eq_of_parts}
use fantasy_draft.Dict.{Dict, lookup, erase, lookup-erase}
use fantasy_draft.Result.{Result, ok, ◌>>=◌, or_raise, needs_target_slot, lookup_error}
use fantasy_draft.Models.{StatusEffect, CharacterState, BattleState}
use fantasy_draft.Conditions.{is_active}
use fantasy_draft.Damage.{payload_condition_met}
use fantasy_draft.Damage.Bounds.{IsSound}
use fantasy_draft.Slots.{character_at, with_character}
use fantasy_draft.Statuses.{remove_status_side_effects, replacements_of, remove_all}
use fantasy_draft.Strikes.{Application, context_condition_met}
use fantasy_draft.Invariant.{if_keeps, maybe_keeps, IsSound-like}

-- An active status with the id or the name; without a status nothing is meant.
unfoldable pub is_meant : Option ℕ → StatusEffect → Bool
is_meant none s = false
is_meant (some id) s = is_active s && (s.id == id || s.name == id)

-- The loop over the statuses switches off what a removed status had switched on, and counts.
unfoldable pub remove_loop : Option ℕ → List StatusEffect → CharacterState → CharacterState × ℕ
remove_loop meant [] c = (c, 0)
remove_loop meant (s ∷ rest) c =
    let gone = remove_loop meant rest (remove_status_side_effects c s) in
    let kept = remove_loop meant rest c in if is_meant meant s then (gone.0, suc gone.1) else kept

unfoldable pub remove_statuses : Option ℕ → CharacterState → CharacterState × ℕ
remove_statuses meant target =
    let removed = remove_loop meant target.statuses target in
    (record removed.0 { statuses = keep (λ s. not (is_meant meant s)) target.statuses }, removed.1)

unfoldable pub may_remove : Application → CharacterState → CharacterState → Bool
may_remove app caster target =
    context_condition_met app.context app.effect
    && payload_condition_met (get_or app.condition_target target) app.effect (some caster)

-- The state with the number that the event "status_removed" reports, or none for "status_skipped".
unfoldable pub apply_remove_status :
    BattleState → Application → ℕ → Option ℤ → Result (BattleState × Option ℕ)
apply_remove_status state app player_id target_slot = do
  slot ← or_raise target_slot needs_target_slot
  target ← or_raise (character_at state player_id slot) lookup_error
  caster ← or_raise (character_at state app.action.player_id app.action.caster_slot) lookup_error
  let removed = remove_statuses app.effect.status target
  ok (
      if may_remove app caster target
      then (with_character state player_id slot removed.0, some removed.1)
      else (state, none))

remove_loop-counts :
    (meant : Option ℕ) (l : List StatusEffect) (c : CharacterState)
    → (remove_loop meant l c).1 ≡ length (keep (is_meant meant) l)
unfolding remove_loop
remove_loop-counts meant [] c = refl
remove_loop-counts meant (s ∷ rest) c = elim (Bool-cases (is_meant meant s)) [
  | inl gone ↦ rw gone (ap suc (remove_loop-counts meant rest (remove_status_side_effects c s)))
  | inr stays ↦ rw stays (remove_loop-counts meant rest c)
]

remove_loop-IsSound :
    (meant : Option ℕ) (l : List StatusEffect) (c : CharacterState)
    → IsSound c
    → IsSound (remove_loop meant l c).0
unfolding remove_loop
remove_loop-IsSound meant [] c h = h
remove_loop-IsSound meant (s ∷ rest) c h =
    if_keeps (λ (r : CharacterState × ℕ). IsSound r.0) (is_meant meant s)
      (λ _.
        remove_loop-IsSound meant rest (remove_status_side_effects c s)
          (unfold remove_status_side_effects in IsSound-like refl refl refl h))
      (λ _. remove_loop-IsSound meant rest c h)

-- A status that a removal of the id means, an active one with it as id or as name, and one that it
-- spares.
pub record IsMeant (id : ℕ) (s : StatusEffect) : Type 0 where
  pub active : s.duration ≢ pos 0
  pub named : (s.id ≡ id) ⊎ (s.name ≡ id)

abbrev pub IsSpared : ℕ → StatusEffect → Type 0
IsSpared id s = (s.duration ≡ pos 0) ⊎ ((s.id ≢ id) × (s.name ≢ id))

-- The second list is the first without the ones that are meant, in order; `n` of them are gone.
pub data IsPurged (id : ℕ) : List StatusEffect → List StatusEffect → ℕ → Type 0 where
  ends : IsPurged id [] [] 0
  purged :
      {s : StatusEffect} {l r : List StatusEffect} {n : ℕ}
      → IsMeant id s
      → IsPurged id l r n
      → IsPurged id (s ∷ l) r (suc n)
  spared :
      {s : StatusEffect} {l r : List StatusEffect} {n : ℕ}
      → IsSpared id s
      → IsPurged id l r n
      → IsPurged id (s ∷ l) (s ∷ r) n

is_meant-IsMeant : (id : ℕ) (s : StatusEffect) → is_meant (some id) s ≡ true → IsMeant id s
unfolding is_meant
is_meant-IsMeant id s h = record {
  active = λ e. let on : is_active s ≡ true = ground arith in absurd (let f = (rw e at on) in cc);
  named = ground arith;
}

is_meant-IsSpared : (id : ℕ) (s : StatusEffect) → is_meant (some id) s ≡ false → IsSpared id s
unfolding is_meant
is_meant-IsSpared id s h = elim (Bool-cases (eqb_ℤ s.duration (pos 0))) [
  | inl over ↦ inl (eq_of_parts s.duration (pos 0) (ground arith))
  | inr on ↦ inr ((λ e. ground arith), (λ e. ground arith))
]

remove_loop-IsPurged :
    (id : ℕ) (l : List StatusEffect) (c : CharacterState)
    → IsPurged id l (keep (λ s. not (is_meant (some id) s)) l) (remove_loop (some id) l c).1
unfolding remove_loop
remove_loop-IsPurged id [] c = IsPurged.ends
remove_loop-IsPurged id (s ∷ l) c = elim (Bool-cases (is_meant (some id) s)) [
  | inl gone ↦ rw gone (
      IsPurged.purged (is_meant-IsMeant id s gone)
        (remove_loop-IsPurged id l (remove_status_side_effects c s)))
  | inr stays ↦
      rw stays (IsPurged.spared (is_meant-IsSpared id s stays) (remove_loop-IsPurged id l c))
]

-- A status brings a replacement of a skill.
abbrev pub brings : ℕ → ℕ → Dict ℕ → Bool
brings source replacement pairs = any (λ (e : ℕ × ℕ). e.0 == source && e.1 == replacement) pairs

-- What is left of a replacement, if those that stand in a list of pairs are given back.
abbrev pub left_of : Option ℕ → (ℕ → Bool) → Option ℕ
left_of none gone = none
left_of (some replacement) gone = if gone replacement then none else some replacement

left_of-twice :
    (o : Option ℕ) (g h : ℕ → Bool) → left_of (left_of o g) h ≡ left_of o (λ r. g r || h r)
left_of-twice none g h = refl
left_of-twice (some r) g h = elim (Bool-cases (g r)) [
  | inl gone ↦ rw gone refl
  | inr stays ↦ rw stays refl
]

left_of-nothing : (o : Option ℕ) → left_of o (λ r. false) ≡ o
left_of-nothing none = refl
left_of-nothing (some r) = refl

-- `if d.get(source) == replacement: d.pop(source, None)`
abbrev give_back : ℕ → ℕ → Dict ℕ → Dict ℕ
give_back source replacement d = elim (lookup source d) [
  | none ↦ d
  | some current ↦ if current == replacement then erase source d else d
]

lookup-give_back_own :
    (k replacement : ℕ) (d : Dict ℕ)
    → lookup k (give_back k replacement d) ≡ left_of (lookup k d) (λ r. k == k && replacement == r)
lookup-give_back_own k replacement d = elim (Option-cases (lookup k d)) [
  | inl nothing ↦ rw (give_back, nothing) nothing
  | inr (c, found) ↦ elim (Bool-cases (c == replacement)) [
    | inl same ↦
        let back : (replacement == c) ≡ true = ground arith in
        rw (give_back, found, same, ==_refl k, back) (lookup-erase k k d ∙ rw (==_refl k) refl)
    | inr differs ↦
        let back : (replacement == c) ≡ false = ground arith in
        rw (give_back, found, differs, ==_refl k, back) found
  ]
]

lookup-give_back :
    (k source replacement : ℕ) (d : Dict ℕ)
    → lookup k (give_back source replacement d)
      ≡ left_of (lookup k d) (λ r. source == k && replacement == r)
lookup-give_back k source replacement d = elim (Bool-cases (source == k)) [
  | inr other ↦
      let idle : (λ (r : ℕ). source == k && replacement == r) ≡ (λ r. false) =
        fun_ext λ r. rw other refl in
      let changed : lookup k (give_back source replacement d) ≡ lookup k d =
        maybe_keeps (λ (x : Dict ℕ). lookup k x ≡ lookup k d) (lookup source d) refl
          λ c _.
            if_keeps (λ (x : Dict ℕ). lookup k x ≡ lookup k d) (c == replacement)
              (λ _. lookup-erase source k d ∙ rw other refl) (λ _. refl) in
      changed ∙ sym (ap (left_of (lookup k d)) idle ∙ left_of-nothing (lookup k d))
  | inl here ↦ let e : source ≡ k = ground arith in rw e (lookup-give_back_own k replacement d)
]

lookup-remove_all :
    (k : ℕ) (pairs d : Dict ℕ)
    → lookup k (remove_all pairs d) ≡ left_of (lookup k d) (λ r. brings k r pairs)
unfolding remove_all
lookup-remove_all k [] d = sym (left_of-nothing (lookup k d))
lookup-remove_all k ((source, replacement) ∷ pairs) d =
    lookup-remove_all k pairs (give_back source replacement d)
    ∙ rw (lookup-give_back k source replacement d)
        (left_of-twice (lookup k d) (λ r. source == k && replacement == r) (λ r. brings k r pairs))

-- A removed status brings the replacement.
abbrev pub takes_away : ℕ → List StatusEffect → ℕ → ℕ → Bool
takes_away id l source replacement =
    any (λ s. is_meant (some id) s && brings source replacement (replacements_of s)) l

lookup-remove_loop :
    (id k : ℕ) (l : List StatusEffect) (c : CharacterState)
    → lookup k (remove_loop (some id) l c).0.skill_replacements
      ≡ left_of (lookup k c.skill_replacements) (takes_away id l k)
unfolding remove_loop remove_status_side_effects
lookup-remove_loop id k [] c = sym (left_of-nothing (lookup k c.skill_replacements))
lookup-remove_loop id k (s ∷ l) c = elim (Bool-cases (is_meant (some id) s)) [
  | inl gone ↦
      let now = lookup k c.skill_replacements in
      let twice : left_of (left_of now (λ r. brings k r (replacements_of s))) (takes_away id l k)
          ≡ left_of now (takes_away id (s ∷ l) k) =
        left_of-twice now (λ r. brings k r (replacements_of s)) (takes_away id l k)
        ∙ ap (left_of now) (fun_ext λ r. rw gone refl) in
      rw (remove_loop, gone)
        (lookup-remove_loop id k l (remove_status_side_effects c s)
          ∙ ap (λ o. left_of o (takes_away id l k))
              (lookup-remove_all k (replacements_of s) c.skill_replacements)
          ∙ twice)
  | inr stays ↦
      let now = lookup k c.skill_replacements in
      let same : left_of now (takes_away id l k) ≡ left_of now (takes_away id (s ∷ l) k) =
        ap (left_of now) (fun_ext λ r. rw stays refl) in
      rw (remove_loop, stays) (lookup-remove_loop id k l c ∙ same)
]

remove_loop-only :
    (id : ℕ) (l : List StatusEffect) (c : CharacterState)
    → (remove_loop (some id) l c).0
      ≡ record c { skill_replacements = (remove_loop (some id) l c).0.skill_replacements }
unfolding remove_loop remove_status_side_effects
remove_loop-only id [] c = refl
remove_loop-only id (s ∷ l) c = elim (Bool-cases (is_meant (some id) s)) [
  | inl gone ↦ rw gone (remove_loop-only id l (remove_status_side_effects c s))
  | inr stays ↦ rw stays (remove_loop-only id l c)
]

-- A removal by an id or a name takes exactly the active statuses that have it, the others staying in
-- their order, and counts them; of the skill replacements exactly those are given back that a removed
-- status had brought and that still stand; nothing else of the character changes, and a sound
-- character stays sound.
pub remove_statuses_lem :
    (id : ℕ) (target : CharacterState)
    → IsSound target
    → let result = remove_statuses (some id) target in
      IsPurged id target.statuses result.0.statuses result.1
      × ((k : ℕ)
          → lookup k result.0.skill_replacements
            ≡ left_of (lookup k target.skill_replacements) (takes_away id target.statuses k))
      × (result.0 ≡ record target {
        statuses = result.0.statuses;
        skill_replacements = result.0.skill_replacements;
      })
      × IsSound result.0
unfolding remove_statuses
remove_statuses_lem id target h = (
  remove_loop-IsPurged id target.statuses target,
  λ k. lookup-remove_loop id k target.statuses target,
  ap
      (λ (c : CharacterState). record c {
        statuses = keep (λ s. not (is_meant (some id) s)) target.statuses;
      })
      (remove_loop-only id target.statuses target),
  IsSound-like refl refl refl (remove_loop-IsSound (some id) target.statuses target h),
)
