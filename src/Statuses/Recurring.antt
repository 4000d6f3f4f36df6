-- ===== src/Statuses/Recurring.antt =====
-- The damage of recurring statuses at the end of a turn, and the events that report it,
-- `apply_turn_end_statuses` of jjk_arena/battle_v2/effects.py.
use fantasy_draft.Base.{
  ℕ, ◌≡◌, refl, ◌∙◌, sym, inl, inr, Bool, true, false, not, ◌&&◌, List, [], ◌∷◌, ◌++◌, Bool-cases,
  if◌then◌else◌, get_or,
}
use fantasy_draft.Int.{ℤ, pos, ◌+ℤ◌, ◌-ℤ◌, ltb_ℤ, int_laws}
use fantasy_draft.Models.{
  DamageType, damage_eq, IntKey, get_int, StatusEffect, CharacterState, RawAmount, BattleEvent,
  PassiveSpec,
}
use fantasy_draft.Conditions.{is_active}
use fantasy_draft.Damage.{apply_damage}
use fantasy_draft.Damage.Bounds.{IsSound, apply_damage-Hit}
use fantasy_draft.Statuses.Passives.{
  is_due, trigger, awakening_event, check_loop, check_passive_awakenings,
}
use fantasy_draft.Statuses.Clock.{
  Pass, should_tick_status, status_damage_event, turn_end_loop, apply_turn_end_statuses,
}
use fantasy_draft.Statuses.Awakening.{Grown, check_passive_awakenings-Grown}

abbrev pub reported : RawAmount → ℤ
reported (RawAmount.number n) = n
reported _ = pos 0

-- The hit points that the events of a list report as lost.
abbrev pub total_damage : List BattleEvent → ℤ
total_damage [] = pos 0
total_damage (e ∷ es) = reported e.actual_hp_damage +ℤ total_damage es

total_damage-append :
    (xs ys : List BattleEvent) → total_damage (xs ++ ys) ≡ total_damage xs +ℤ total_damage ys
total_damage-append [] ys = omega int_laws
total_damage-append (x ∷ xs) ys = rw (total_damage-append xs ys) (omega int_laws)

check_loop-total_damage :
    (ps : List PassiveSpec) (c : CharacterState) (player_id : ℕ) (slot turn_number : ℤ)
    → total_damage (check_loop ps c player_id slot turn_number).1 ≡ pos 0
unfolding check_loop awakening_event
check_loop-total_damage [] c player_id slot turn_number = refl
check_loop-total_damage (p ∷ ps) c player_id slot turn_number =
    silent (is_due c p) _ _
      (check_loop-total_damage ps (if is_due c p then trigger c p player_id slot else c) player_id
        slot turn_number)
      refl
  where
    silent :
        (b : Bool) (e : BattleEvent) (es : List BattleEvent)
        → total_damage es ≡ pos 0
        → reported e.actual_hp_damage ≡ pos 0
        → total_damage (if b then e ∷ es else es) ≡ pos 0
    silent true e es h r = rw (h, r) (omega int_laws)
    silent false e es h r = h

check_passive_awakenings-total_damage :
    (c : CharacterState) (player_id : ℕ) (slot turn_number : ℤ)
    → total_damage (check_passive_awakenings c player_id slot turn_number).1 ≡ pos 0
unfolding check_passive_awakenings
check_passive_awakenings-total_damage c player_id slot turn_number =
    elim (Bool-cases (not c.alive)) [
      | inl dead ↦ rw dead
      | inr up ↦ rw up (check_loop-total_damage c.passives c player_id slot turn_number)
    ]

pub Grown-IsSound : {c d : CharacterState} → Grown c d → IsSound d → IsSound c
Grown-IsSound g h = record {
  hp_nonneg = rw g.hp h.hp_nonneg;
  hp_le_max = rw (g.hp, g.max_hp) h.hp_le_max;
  living = λ a. rw g.hp (h.living (sym g.alive ∙ a));
  dead = λ a. g.hp ∙ h.dead (sym g.alive ∙ a);
}

-- A character before and after some damage that events report.
pub record Suffers (before after : CharacterState) (events : List BattleEvent) : Type 0 where
  pub sound : IsSound after
  pub lost : after.hp ≡ before.hp -ℤ total_damage events

turn_end_loop-Suffers :
    (l : List StatusEffect) (pass : Pass) (player_id : ℕ) (slot turn_number : ℤ)
    (c : CharacterState)
    → IsSound c
    → let result = turn_end_loop l pass player_id slot turn_number c in Suffers c result.0 result.1
unfolding turn_end_loop status_damage_event
turn_end_loop-Suffers [] pass player_id slot turn_number c h = record {
  sound = h;
  lost = omega int_laws;
}
turn_end_loop-Suffers (s ∷ l) pass player_id slot turn_number c h =
    let amount : ℤ = get_int s.payload IntKey.turn_end_damage in
    let hurts = is_active s && should_tick_status s pass && ltb_ℤ (pos 0) amount in
    let type : DamageType = get_or s.payload.turn_end_damage_type DamageType.normal in
    let hit = apply_damage c amount type (damage_eq type DamageType.sure_hit) in
    let woken = check_passive_awakenings hit.0 player_id slot turn_number in
    let fell = apply_damage-Hit c amount type (damage_eq type DamageType.sure_hit) h in
    let grown = check_passive_awakenings-Grown hit.0 player_id slot turn_number in
    elim (Bool-cases hurts) [
      | inl yes_ ↦
          let rest =
            turn_end_loop-Suffers l pass player_id slot turn_number woken.0
              (Grown-IsSound grown fell.sound) in
          rw yes_ (record {
            sound = rest.sound;
            lost =
                rw
                  (
                    rest.lost, grown.hp, fell.lost, total_damage-append,
                    check_passive_awakenings-total_damage,
                  )
                  (omega int_laws);
          })
      | inr no_ ↦ rw no_ (turn_end_loop-Suffers l pass player_id slot turn_number c h)
    ]

-- The recurring damage of a turn's end leaves a sound character sound, and costs it exactly the hit
-- points that the events report.
pub apply_turn_end_statuses-Suffers :
    (c : CharacterState) (player_id : ℕ) (slot turn_number : ℤ) (pass : Pass)
    → IsSound c
    → let result = apply_turn_end_statuses c player_id slot turn_number pass in
      Suffers c result.0 result.1
unfolding apply_turn_end_statuses
apply_turn_end_statuses-Suffers c player_id slot turn_number pass h =
    turn_end_loop-Suffers c.statuses pass player_id slot turn_number c h
