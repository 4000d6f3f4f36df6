-- ===== src/Statuses/Stacking.antt =====
-- Stacking a status onto an active one of the same id, `apply_status` of
-- jjk_arena/battle_v2/effects.py.
use fantasy_draft.Base.{
  ℕ, suc, ◌≡◌, refl, ap, inl, inr, Bool, true, false, ◌&&◌, none, some, List, [], ◌∷◌, ◌++◌, ◌==◌,
  arith, Bool-cases, if◌then◌else◌, any, length,
}
use fantasy_draft.Int.{ℤ, pos, ◌≤ℤ◌, ltb_ℤ, int_laws}
use fantasy_draft.Models.{IntKey, FlagKey, get_int, get_flag, StatusEffect, CharacterState}
use fantasy_draft.Conditions.{is_active}
use fantasy_draft.Statuses.SideEffects.{
  apply_status_side_effects, remove_status_side_effects, add_status,
}
use fantasy_draft.Statuses.Applying.{merge, stack_onto, append_status, attach}

-- The active statuses onto which a status of an id stacks.
abbrev pub fits : ℕ → StatusEffect → Bool
fits id a = is_active a && a.id == id

-- The status `result.0` stands in the place of an active one of the id, and the other statuses are as they were.
pub record IsMergedInto (s : StatusEffect) (l : List StatusEffect)
    (result : StatusEffect × List StatusEffect) : Type 0 where
  pub front : List StatusEffect
  pub old : StatusEffect
  pub back : List StatusEffect
  pub before : l ≡ front ++ old ∷ back
  pub fitting : fits s.id old ≡ true
  pub after : result.1 ≡ front ++ result.0 ∷ back

-- What stacking found: the merged status, in a list of the same length.
pub record Stacked (m : ℤ) (s : StatusEffect) (l : List StatusEffect) : Type 0 where
  pub result : StatusEffect × List StatusEffect
  pub found : stack_onto m s l ≡ some result
  pub same_length : length result.1 ≡ length l
  pub capped : result.0.stacks ≤ℤ m
  pub lasts : s.duration ≤ℤ result.0.duration
  pub same_id : result.0.id ≡ s.id
  pub placed : IsMergedInto s l result

stack_onto-found :
    (m : ℤ) (s : StatusEffect) (l : List StatusEffect) → any (fits s.id) l ≡ true → Stacked m s l
unfolding stack_onto merge
stack_onto-found m s [] h = absurd (let e = h in cc)
stack_onto-found m s (a ∷ l) h = elim (Bool-cases (fits s.id a)) [
  | inl here ↦ record {
    result = (merge m a s, merge m a s ∷ l);
    found = rw here;
    same_length = refl;
    capped = omega int_laws;
    lasts = omega int_laws;
    same_id = ground arith;
    placed = record { front = []; old = a; back = l; before = refl; fitting = here; after = refl };
  }
  | inr later ↦
      let rest = stack_onto-found m s l (rw later at h) in
      record {
        result = (rest.result.0, a ∷ rest.result.1);
        found = rw (later, rest.found);
        same_length = ap suc rest.same_length;
        capped = rest.capped;
        lasts = rest.lasts;
        same_id = rest.same_id;
        placed = record {
          front = a ∷ rest.placed.front;
          old = rest.placed.old;
          back = rest.placed.back;
          before = ap (λ x. a ∷ x) rest.placed.before;
          fitting = rest.placed.fitting;
          after = ap (λ x. a ∷ x) rest.placed.after;
        };
      }
]

stack_onto-missing :
    (m : ℤ) (s : StatusEffect) (l : List StatusEffect)
    → any (fits s.id) l ≡ false
    → stack_onto m s l ≡ none
unfolding stack_onto
stack_onto-missing m s [] h = refl
stack_onto-missing m s (a ∷ l) h = elim (Bool-cases (fits s.id a)) [
  | inl here ↦ absurd (let e = (rw here at h) in cc)
  | inr later ↦ rw (later, stack_onto-missing m s l (rw later at h))
]

apply_status_side_effects-statuses :
    (c : CharacterState) (s : StatusEffect) → (apply_status_side_effects c s).statuses ≡ c.statuses
unfolding apply_status_side_effects remove_status_side_effects
apply_status_side_effects-statuses c s = keeps_statuses _ _ _ refl refl
  where
    keeps_statuses :
        (b : Bool) (x y : CharacterState) {l : List StatusEffect}
        → x.statuses ≡ l
        → y.statuses ≡ l
        → (if b then x else y).statuses ≡ l
    keeps_statuses true x y p q = p
    keeps_statuses false x y p q = q

attach-found :
    (target : CharacterState) (s : StatusEffect)
    → ltb_ℤ (pos 0) (get_int s.payload IntKey.max_stacks) ≡ true
    → (st : Stacked (get_int s.payload IntKey.max_stacks) s target.statuses)
    → attach target s ≡ (
      apply_status_side_effects (record target { statuses = st.result.1 }) st.result.0,
      st.result.0,
    )
unfolding attach
attach-found target s limited st = rw (attach, limited, st.found)

attach-missing :
    (target : CharacterState) (s : StatusEffect)
    → any (fits s.id) target.statuses ≡ false
    → get_flag s.payload FlagKey.cleanse_self_damage_or_affliction ≡ false
    → attach target s ≡ (apply_status_side_effects (add_status target s) s, s)
unfolding attach append_status
attach-missing target s h plain =
    elim (Bool-cases (ltb_ℤ (pos 0) (get_int s.payload IntKey.max_stacks))) [
      | inl limited ↦ rw (
        attach,
        limited,
        stack_onto-missing (get_int s.payload IntKey.max_stacks) s target.statuses h,
        append_status,
        plain,
      )
      | inr free ↦ rw (attach, free, append_status, plain)
    ]

-- A status with a stack limit joins an active one of its id, if there is one: the list keeps its
-- length, the stacks stay within the limit and the duration is not shortened. If there is none, and
-- it cleanses nothing, it is appended as it is.
pub attach_stacks :
    (target : CharacterState) (s : StatusEffect)
    → ltb_ℤ (pos 0) (get_int s.payload IntKey.max_stacks) ≡ true
    → (any (fits s.id) target.statuses ≡ true
        → (length (attach target s).0.statuses ≡ length target.statuses)
          × ((attach target s).1.stacks ≤ℤ get_int s.payload IntKey.max_stacks)
          × (s.duration ≤ℤ (attach target s).1.duration))
      × (any (fits s.id) target.statuses ≡ false
          → get_flag s.payload FlagKey.cleanse_self_damage_or_affliction ≡ false
          → ((attach target s).0.statuses ≡ target.statuses ++ s ∷ []) × ((attach target s).1 ≡ s))
attach_stacks target s limited = (
  λ h.
      let st = stack_onto-found (get_int s.payload IntKey.max_stacks) s target.statuses h in
      rw (attach-found target s limited st, apply_status_side_effects-statuses)
        (st.same_length, st.capped, st.lasts),
  λ h plain.
      rw (attach-missing target s h plain)
        (apply_status_side_effects-statuses (add_status target s) s, refl),
)

-- What attaching the status `s` makes of its target, in the character `after` and the status that the
-- target has now: stacked onto an active status of its id, if it has a limit and there is one, and
-- appended as it is otherwise, if it cleanses nothing.
pub record IsAttached (target : CharacterState) (s : StatusEffect)
    (after : CharacterState × StatusEffect) : Type 0 where
  pub stacked :
      ltb_ℤ (pos 0) (get_int s.payload IntKey.max_stacks) ≡ true
      → any (fits s.id) target.statuses ≡ true
      → IsMergedInto s target.statuses (after.1, after.0.statuses)
        × (after.1.id ≡ s.id)
        × (after.1.stacks ≤ℤ get_int s.payload IntKey.max_stacks)
        × (s.duration ≤ℤ after.1.duration)
  pub appended :
      (ltb_ℤ (pos 0) (get_int s.payload IntKey.max_stacks) && any (fits s.id) target.statuses)
        ≡ false
      → get_flag s.payload FlagKey.cleanse_self_damage_or_affliction ≡ false
      → (after.0.statuses ≡ target.statuses ++ s ∷ []) × (after.1 ≡ s)

attach-free :
    (target : CharacterState) (s : StatusEffect)
    → ltb_ℤ (pos 0) (get_int s.payload IntKey.max_stacks) ≡ false
    → get_flag s.payload FlagKey.cleanse_self_damage_or_affliction ≡ false
    → attach target s ≡ (apply_status_side_effects (add_status target s) s, s)
unfolding attach append_status
attach-free target s free plain = rw (attach, free, append_status, plain)

pub attach-IsAttached :
    (target : CharacterState) (s : StatusEffect) → IsAttached target s (attach target s)
attach-IsAttached target s = record {
  stacked = λ limited h.
      let st = stack_onto-found (get_int s.payload IntKey.max_stacks) s target.statuses h in
      rw (attach-found target s limited st, apply_status_side_effects-statuses)
        (st.placed, st.same_id, st.capped, st.lasts);
  appended = λ h plain. elim (Bool-cases (ltb_ℤ (pos 0) (get_int s.payload IntKey.max_stacks))) [
    | inl limited ↦
        let missing : any (fits s.id) target.statuses ≡ false = (rw limited at h) in
        rw (attach-missing target s missing plain)
          (apply_status_side_effects-statuses (add_status target s) s, refl)
    | inr free ↦
        rw (attach-free target s free plain)
          (apply_status_side_effects-statuses (add_status target s) s, refl)
  ];
}
