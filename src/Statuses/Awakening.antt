-- ===== src/Statuses/Awakening.antt =====
-- An awakening happens once and leaves the hit points alone, `check_passive_awakenings` of
-- jjk_arena/battle_v2/effects.py.
use fantasy_draft.Base.{
  ℕ, ◌≡◌, refl, ◌∙◌, inl, inr, Bool, true, false, not, ◌||◌, List, [], ◌∷◌, ◌==◌, ==_refl, arith,
  All, Bool-cases, if◌then◌else◌, contains,
}
use fantasy_draft.Int.{ℤ}
use fantasy_draft.Models.{AwakeningStatus, PassiveSpec, CharacterState, StatusEffect}
use fantasy_draft.Statuses.SideEffects.{
  apply_status_side_effects, remove_status_side_effects, add_status,
}
use fantasy_draft.Statuses.Passives.{
  awakening_status, awaken, is_due, trigger, check_loop, check_passive_awakenings,
}

-- Two characters that differ in statuses and skill replacements at most.
pub record SameBody (c d : CharacterState) : Type 0 where
  pub hp : c.hp ≡ d.hp
  pub max_hp : c.max_hp ≡ d.max_hp
  pub alive : c.alive ≡ d.alive
  pub passives : c.passives ≡ d.passives
  pub triggered : c.passives_triggered ≡ d.passives_triggered

pub SameBody-refl : (c : CharacterState) → SameBody c c
SameBody-refl c = record {
  hp = refl;
  max_hp = refl;
  alive = refl;
  passives = refl;
  triggered = refl;
}

pub SameBody-trans : {a b c : CharacterState} → SameBody a b → SameBody b c → SameBody a c
SameBody-trans p q = record {
  hp = p.hp ∙ q.hp;
  max_hp = p.max_hp ∙ q.max_hp;
  alive = p.alive ∙ q.alive;
  passives = p.passives ∙ q.passives;
  triggered = p.triggered ∙ q.triggered;
}

pub SameBody-if :
    (b : Bool) (x y : CharacterState) {z : CharacterState}
    → SameBody x z
    → SameBody y z
    → SameBody (if b then x else y) z
SameBody-if true x y p q = p
SameBody-if false x y p q = q

abbrev pub same_body :
    {c : CharacterState} {d : CharacterState}
    → c.hp ≡ d.hp
    → c.max_hp ≡ d.max_hp
    → c.alive ≡ d.alive
    → c.passives ≡ d.passives
    → c.passives_triggered ≡ d.passives_triggered
    → SameBody c d
same_body a b e f g = record { hp = a; max_hp = b; alive = e; passives = f; triggered = g }

pub apply_status_side_effects-SameBody :
    (c : CharacterState) (s : StatusEffect) → SameBody (apply_status_side_effects c s) c
unfolding apply_status_side_effects remove_status_side_effects
apply_status_side_effects-SameBody c s =
    SameBody-if _ _ _ (same_body refl refl refl refl refl) (same_body refl refl refl refl refl)

pub awaken-SameBody :
    (specs : List AwakeningStatus) (player_id : ℕ) (slot : ℤ) (c : CharacterState)
    → SameBody (awaken specs player_id slot c) c
unfolding awaken
awaken-SameBody [] player_id slot c = SameBody-refl c
awaken-SameBody (spec ∷ rest) player_id slot c =
    let s = awakening_status spec player_id slot in
    let d = apply_status_side_effects c s in
    let same = apply_status_side_effects-SameBody c s in
    SameBody-trans (awaken-SameBody rest player_id slot (add_status d s))
      (same_body same.hp same.max_hp same.alive same.passives same.triggered)

-- What a check leaves alone: all but statuses, replacements and the set of triggered passives, which
-- only grows.
pub record Grown (c d : CharacterState) : Type 0 where
  pub hp : c.hp ≡ d.hp
  pub max_hp : c.max_hp ≡ d.max_hp
  pub alive : c.alive ≡ d.alive
  pub passives : c.passives ≡ d.passives
  pub kept :
      (id : ℕ) → contains d.passives_triggered id ≡ true → contains c.passives_triggered id ≡ true

trigger-Grown :
    (c : CharacterState) (p : PassiveSpec) (player_id : ℕ) (slot : ℤ)
    → Grown (trigger c p player_id slot) c
unfolding trigger
trigger-Grown c p player_id slot =
    let same =
      awaken-SameBody p.awakening_statuses player_id slot
        (record c { passives_triggered = p.id ∷ c.passives_triggered }) in
    record {
      hp = same.hp;
      max_hp = same.max_hp;
      alive = same.alive;
      passives = same.passives;
      kept = λ id h. rw (same.triggered, h) (or_true (p.id == id));
    }
  where
    or_true : (b : Bool) → (b || true) ≡ true
    or_true true = refl
    or_true false = refl

Grown-refl : (c : CharacterState) → Grown c c
Grown-refl c = record { hp = refl; max_hp = refl; alive = refl; passives = refl; kept = λ id h. h }

Grown-trans : {a b c : CharacterState} → Grown a b → Grown b c → Grown a c
Grown-trans p q = record {
  hp = p.hp ∙ q.hp;
  max_hp = p.max_hp ∙ q.max_hp;
  alive = p.alive ∙ q.alive;
  passives = p.passives ∙ q.passives;
  kept = λ id h. p.kept id (q.kept id h);
}

pub check_loop-Grown :
    (ps : List PassiveSpec) (c : CharacterState) (player_id : ℕ) (slot turn_number : ℤ)
    → Grown (check_loop ps c player_id slot turn_number).0 c
unfolding check_loop
check_loop-Grown [] c player_id slot turn_number = Grown-refl c
check_loop-Grown (p ∷ ps) c player_id slot turn_number = elim (Bool-cases (is_due c p)) [
  | inl due ↦ rw due (
      Grown-trans (check_loop-Grown ps (trigger c p player_id slot) player_id slot turn_number)
        (trigger-Grown c p player_id slot))
  | inr idle ↦ rw idle (check_loop-Grown ps c player_id slot turn_number)
]

-- A check leaves hit points, maximum and life alone.
pub check_passive_awakenings-Grown :
    (c : CharacterState) (player_id : ℕ) (slot turn_number : ℤ)
    → Grown (check_passive_awakenings c player_id slot turn_number).0 c
unfolding check_passive_awakenings
check_passive_awakenings-Grown c player_id slot turn_number = elim (Bool-cases (not c.alive)) [
  | inl dead ↦ rw dead (Grown-refl c)
  | inr up ↦ rw up (check_loop-Grown c.passives c player_id slot turn_number)
]

-- What is not due stays so.
Grown-idle :
    {c d : CharacterState} (p : PassiveSpec) → Grown d c → is_due c p ≡ false → is_due d p ≡ false
unfolding is_due
Grown-idle {c} {d} p g h = rw g.hp (ground (arith, g.kept p.id))

trigger_idle :
    (c : CharacterState) (p : PassiveSpec) (player_id : ℕ) (slot : ℤ)
    → is_due (trigger c p player_id slot) p ≡ false
unfolding is_due trigger
trigger_idle c p player_id slot =
    let same =
      awaken-SameBody p.awakening_statuses player_id slot
        (record c { passives_triggered = p.id ∷ c.passives_triggered }) in
    rw (same.triggered, ==_refl p.id) (ground arith)

next_idle :
    (c : CharacterState) (p : PassiveSpec) (player_id : ℕ) (slot : ℤ)
    → is_due (if is_due c p then trigger c p player_id slot else c) p ≡ false
next_idle c p player_id slot = elim (Bool-cases (is_due c p)) [
  | inl due ↦ rw due (trigger_idle c p player_id slot)
  | inr idle ↦ rw (idle, idle)
]

abbrev IsSettled : CharacterState → List PassiveSpec → Type 0
IsSettled c ps = All (λ p. is_due c p ≡ false) ps

check_loop-IsSettled :
    (ps : List PassiveSpec) (c : CharacterState) (player_id : ℕ) (slot turn_number : ℤ)
    → IsSettled (check_loop ps c player_id slot turn_number).0 ps
unfolding check_loop
check_loop-IsSettled [] c player_id slot turn_number = tt
check_loop-IsSettled (p ∷ ps) c player_id slot turn_number =
    let d = if is_due c p then trigger c p player_id slot else c in
    (
      Grown-idle p (check_loop-Grown ps d player_id slot turn_number)
          (next_idle c p player_id slot),
      check_loop-IsSettled ps d player_id slot turn_number,
    )

check_loop_settled :
    (ps : List PassiveSpec) (c : CharacterState) (player_id : ℕ) (slot turn_number : ℤ)
    → IsSettled c ps
    → check_loop ps c player_id slot turn_number ≡ (c, [])
unfolding check_loop
check_loop_settled [] c player_id slot turn_number h = refl
check_loop_settled (p ∷ ps) c player_id slot turn_number h =
    rw (h.0, check_loop_settled ps c player_id slot turn_number h.1)

-- Right after a check, a second one changes nothing and announces nothing: each awakening happens
-- once.
pub check_passive_awakenings_idempotent :
    (c : CharacterState) (player_id : ℕ) (slot turn_number : ℤ)
    → let after = (check_passive_awakenings c player_id slot turn_number).0 in
      check_passive_awakenings after player_id slot turn_number ≡ (after, [])
unfolding check_passive_awakenings
check_passive_awakenings_idempotent c player_id slot turn_number = elim (Bool-cases (not c.alive)) [
  | inl dead ↦ rw (dead, dead)
  | inr up ↦
      let after = (check_loop c.passives c player_id slot turn_number).0 in
      let g = check_loop-Grown c.passives c player_id slot turn_number in
      rw (up, g.alive, up, g.passives)
        (check_loop_settled c.passives after player_id slot turn_number
          (check_loop-IsSettled c.passives c player_id slot turn_number))
]
