-- ===== src/Statuses/Passives.antt =====
-- One-time awakenings at a threshold of hit points, `check_passive_awakenings` of
-- jjk_arena/battle_v2/effects.py.
use fantasy_draft.Base.{
  ℕ, Bool, false, not, ◌&&◌, none, some, List, [], ◌∷◌, ◌==◌, if◌then◌else◌, contains, or_else,
}
use fantasy_draft.Int.{ℤ, pos, negsuc, leb_ℤ}
use fantasy_draft.Models.{
  DurationClock, StatusEffect, AwakeningStatus, PassiveSpec, CharacterState, EventType, RawAmount,
  BattleEvent,
}
use fantasy_draft.Statuses.SideEffects.{post_init, apply_status_side_effects, add_status}

-- The permanent status of an awakening.
unfoldable pub awakening_status : AwakeningStatus → ℕ → ℤ → StatusEffect
awakening_status spec player_id slot = post_init (record {
  id = spec.id;
  name = spec.name;
  source_player_id = player_id;
  source_slot = slot;
  target_player_id = player_id;
  target_slot = slot;
  duration = negsuc 0;
  classes = [];
  invisible = false;
  soulbound = false;
  stacks = pos 1;
  payload = record spec.payload { families = or_else spec.payload.families (some spec.families) };
  revealed = false;
  duration_clock = DurationClock.global_turn;
  families = spec.families;
})

unfoldable pub awaken : List AwakeningStatus → ℕ → ℤ → CharacterState → CharacterState
awaken [] player_id slot c = c
awaken (spec ∷ rest) player_id slot c =
    let s = awakening_status spec player_id slot in
    awaken rest player_id slot (add_status (apply_status_side_effects c s) s)

unfoldable pub awakening_event : PassiveSpec → ℕ → ℤ → ℤ → BattleEvent
awakening_event passive player_id slot turn_number = record {
  type = EventType.passive_awakening;
  turn_number = turn_number;
  private_to = none;
  subject = some passive.id;
  source_player_id = none;
  source_slot = none;
  target_player_id = some player_id;
  target_slot = some slot;
  actual_hp_damage = RawAmount.missing;
  is_reflected = false;
  reflected_by_player_id = none;
  amount = pos 0;
  stacks = pos 0;
  families = [];
}

-- A passive that is named, not yet triggered, and whose threshold has been crossed.
unfoldable pub is_due : CharacterState → PassiveSpec → Bool
is_due c passive =
    not (passive.id == 0)
    && not (contains c.passives_triggered passive.id)
    && leb_ℤ c.hp passive.hp_threshold

unfoldable pub trigger : CharacterState → PassiveSpec → ℕ → ℤ → CharacterState
trigger c passive player_id slot =
    awaken passive.awakening_statuses player_id slot
      (record c { passives_triggered = passive.id ∷ c.passives_triggered })

unfoldable pub check_loop :
    List PassiveSpec → CharacterState → ℕ → ℤ → ℤ → CharacterState × List BattleEvent
check_loop [] c player_id slot turn_number = (c, [])
check_loop (passive ∷ rest) c player_id slot turn_number =
    let due = is_due c passive in
    let next =
      check_loop rest (if due then trigger c passive player_id slot else c) player_id slot
        turn_number in
    (next.0, (if due then awakening_event passive player_id slot turn_number ∷ next.1 else next.1))

unfoldable pub check_passive_awakenings :
    CharacterState → ℕ → ℤ → ℤ → CharacterState × List BattleEvent
check_passive_awakenings c player_id slot turn_number =
    if not c.alive then (c, []) else check_loop c.passives c player_id slot turn_number
