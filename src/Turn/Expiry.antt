-- ===== src/Turn/Expiry.antt =====
-- What one status does as a turn ends, the inner loop of `finish_turn` of jjk_arena/battle_v2/resolver.py.
use fantasy_draft.Base.{
  ℕ, Bool, true, false, not, ◌&&◌, none, some, List, [], ◌∷◌, ◌++◌, ◌==◌, if◌then◌else◌, length,
  get_elem?, set, keep,
}
use fantasy_draft.Int.{ℤ, pos, ltb_ℤ, leb_ℤ, eqb_ℤ}
use fantasy_draft.Dict.{lookup, insert}
use fantasy_draft.Models.{
  EnergyType, energy_eq, Energy, DurationClock, IntKey, FlagKey, no_payload, get_int, get_flag,
  put_int, StatusEffect, EventType, RawAmount, BattleEvent, BattleState,
}
use fantasy_draft.Energy.{all_energy, take_energy, team_at}
use fantasy_draft.Slots.{character_at, with_character}
use fantasy_draft.Statuses.{add_status, Pass, should_tick_status}

-- What the code takes from outside: `rng.sample` of a generator seeded for a status and a turn, and
-- the id that ends in "_guard".
pub record World : Type 0 where
  pub sample : StatusEffect → ℤ → List EnergyType → ℕ → List EnergyType
  pub guard_id : ℕ → ℕ

unfoldable pub plain_event : EventType → BattleState → BattleEvent
plain_event type state = record {
  type = type;
  turn_number = state.turn_number;
  private_to = none;
  subject = none;
  source_player_id = none;
  source_slot = none;
  target_player_id = none;
  target_slot = none;
  actual_hp_damage = RawAmount.missing;
  is_reflected = false;
  reflected_by_player_id = none;
  amount = pos 0;
  stacks = pos 0;
  families = [];
}

-- `_append_event`
unfoldable pub log_event : BattleState → BattleEvent → BattleState
log_event state event = record state { event_log = state.event_log ++ event ∷ [] }

-- `state.players.get(id)` has a living character in the slot, counted from 0.
unfoldable pub lives_at : BattleState → ℕ → ℤ → Bool
lives_at state player_id slot = elim (lookup player_id state.players) [
  | none ↦ false
  | some player ↦ elim (team_at player.team slot) [ none ↦ false | some c ↦ c.alive ]
]

unfoldable pub guard_status : World → StatusEffect → ℤ → StatusEffect
guard_status world s defense = record {
  id = world.guard_id s.id;
  name = world.guard_id s.name;
  source_player_id = s.source_player_id;
  source_slot = s.source_slot;
  target_player_id = s.source_player_id;
  target_slot = s.source_slot;
  duration = pos 2;
  classes = [];
  invisible = false;
  soulbound = false;
  stacks = pos 1;
  payload = put_int no_payload IntKey.destructible_defense (some defense);
  revealed = false;
  duration_clock = DurationClock.global_turn;
  families = [];
}

-- A status object, changed in its place in the list.
unfoldable pub with_status : BattleState → ℕ → ℤ → ℕ → (StatusEffect → StatusEffect) → BattleState
with_status state player_id slot i f = elim (character_at state player_id slot) [
  | none ↦ state
  | some c ↦ elim (get_elem? c.statuses i) [
    | none ↦ state
    | some s ↦ with_character state player_id slot (record c { statuses = set c.statuses i (f s) })
  ]
]

unfoldable pub grants_guard : Pass → StatusEffect → BattleState → Bool
grants_guard pass s state =
    eqb_ℤ s.duration (pos 1)
    && should_tick_status s pass
    && ltb_ℤ (pos 0) (get_int s.payload IntKey.expire_grant_defense)
    && lives_at state s.source_player_id s.source_slot

-- A status that grants its source a guard as it expires.
unfoldable pub grant_guard : World → Pass → StatusEffect → BattleState → BattleState
grant_guard world pass s state =
    let defense : ℤ = get_int s.payload IntKey.expire_grant_defense in
    let granted : BattleState = elim (character_at state s.source_player_id s.source_slot) [
      | none ↦ state
      | some source ↦
          log_event
            (with_character state s.source_player_id s.source_slot
              (add_status source (guard_status world s defense)))
            (record (plain_event EventType.status_applied state) {
              subject = some (world.guard_id s.id);
              source_player_id = some s.source_player_id;
              source_slot = some s.source_slot;
              target_player_id = some s.source_player_id;
              target_slot = some s.source_slot;
            })
    ] in
    if grants_guard pass s state then granted else state

-- `status.duration = 0` if its source is gone.
unfoldable pub ended_by_source : BattleState → StatusEffect → StatusEffect
ended_by_source state s =
    if get_flag s.payload FlagKey.ends_if_source_dies
      && not (lives_at state s.source_player_id s.source_slot)
    then record s { duration = pos 0 }
    else s

unfoldable pub is_revealed_now : Pass → StatusEffect → Bool
is_revealed_now pass s =
    s.invisible
    && not s.revealed
    && eqb_ℤ s.duration (pos 1)
    && get_flag s.payload FlagKey.reveal_on_expiry
    && should_tick_status s pass

-- The energies that can be drained: not black, and some left.
unfoldable pub drainable : Energy → List EnergyType
drainable energy =
    keep (λ e. not (energy_eq e EnergyType.black) && ltb_ℤ (pos 0) (energy e)) all_energy

unfoldable pub to_count : ℤ → ℕ
to_count (pos n) = n
to_count _ = 0

-- `min(drain_amount, len(available))`
unfoldable pub drain_count : ℤ → List EnergyType → ℕ
drain_count amount available = elim (leb_ℤ amount (pos (length available))) [
  | true ↦ to_count amount
  | false ↦ length available
]

unfoldable pub take_each : List EnergyType → Energy → Energy
take_each [] energy = energy
take_each (e ∷ rest) energy = take_each rest (take_energy energy e 1)

unfoldable pub log_drains : ℕ → List EnergyType → BattleState → BattleState
log_drains player_id [] state = state
log_drains player_id (e ∷ rest) state = log_drains player_id rest (
    log_event state (record (plain_event EventType.energy_drained state) {
      target_player_id = some player_id;
      amount = pos 1;
    }))

unfoldable pub drains : Pass → ℕ → StatusEffect → Bool
drains pass acting_player_id s =
    ltb_ℤ (pos 0) (get_int s.payload IntKey.turn_end_drain_energy)
    && s.target_player_id == acting_player_id
    && should_tick_status s pass

-- The drain of a status on a character of `player_id`.
unfoldable pub drain_energy : World → ℕ → ℕ → StatusEffect → BattleState → BattleState
drain_energy world acting_player_id player_id s state = elim (lookup player_id state.players) [
  | none ↦ state
  | some player ↦
      let available = drainable player.energy in
      let drained =
        world.sample s state.turn_number available
          (drain_count (get_int s.payload IntKey.turn_end_drain_energy) available) in
      log_drains acting_player_id drained (record state {
        players =
            insert player_id (record player { energy = take_each drained player.energy })
              state.players;
      })
]

-- The event of a status that is revealed as it expires.
unfoldable pub log_revealed : Bool → StatusEffect → BattleState → BattleState
log_revealed shown s state =
    let logged = log_event state (record (plain_event EventType.status_revealed state) {
      subject = some s.id;
      target_player_id = some s.target_player_id;
      target_slot = some s.target_slot;
    }) in
    if shown then logged else state
