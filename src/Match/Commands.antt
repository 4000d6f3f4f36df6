-- ===== src/Match/Commands.antt =====
-- The commands of a player, `surrender`, `submit_plan`, `update_queue`, `cancel_queue`,
-- `convert_energy` and `end_turn` of jjk_arena/battle_v2/manager.py, from where the phase has been
-- expired on. The serialized answers are left out.
use fantasy_draft.Base.{
  ℕ, Bool, true, false, not, ◌&&◌, ◌||◌, Option, none, some, List, [], ◌∷◌, if◌then◌else◌, ◌==◌,
  any, all, length,
}
use fantasy_draft.Int.{pos, ◌+ℤ◌}
use fantasy_draft.Dict.{Dict, lookup, insert}
use fantasy_draft.Result.{
  Error, Result, ok, err, ◌>>=◌, ◌>>◌, raise_if, or_raise, lookup_error, unknown_player,
  match_finished, wrong_phase, conversion_sources, already_converted, queue_pending,
  queue_already_confirmed, no_opponent, unknown_energy, only_core, unknown_action, invalid_slot,
  unhandled_targeting,
}
use fantasy_draft.Models.{
  BattlePhase, phase_eq, EnergyType, energy_eq, Energy, EventType, PendingAction, PlayerState,
  BattleState,
}
use fantasy_draft.Energy.{empty_counter, update_counter, items, require_energy, spend_items}
use fantasy_draft.Slots.{character_at}
use fantasy_draft.Queue.{
  Skills, get_skill_for_action, validate_action_identity, pending, order_of, action_ids,
  sort_by_index, validate_queue_identity, validate_queue,
}
use fantasy_draft.Turn.{plain_event, log_event, player_ids, clear_queue}
use fantasy_draft.Match.{ResultType, FinishReason, MatchState, Live}
use fantasy_draft.Match.Finish.{is_finished, finish_match}
use fantasy_draft.Match.Ledger.{opponent_of, complete_player_turn}
use fantasy_draft.Match.Presence.{is_empty, is_player}
use fantasy_draft.Match.Phases.{Setting, ensure_turn_player, close_turn, grant_next_turn_energy}

unfoldable pub surrender : ℕ → Live → Result Live
unfolding is_player
surrender player_id live = do
  raise_if (not (is_player player_id live.state)) unknown_player
  winner ← or_raise (opponent_of player_id (player_ids live.state.battle)) no_opponent
  raise_if (is_finished live.state) match_finished
  ok (finish_match ResultType.forfeit (some winner) FinishReason.surrender EventType.forfeit live)

unfoldable pub cancel_queue : ℕ → MatchState → Result MatchState
cancel_queue player_id state = do
  ensure_turn_player player_id state
  ok (record state {
    battle = record (clear_queue player_id state.battle) { phase = BattlePhase.planning };
  })

unfoldable pub end_turn : Setting → ℕ → Live → Result Live
unfolding close_turn
end_turn setting player_id live = do
  ensure_turn_player player_id live.state
  let cleared : BattleState = clear_queue player_id live.state.battle
  let skipped : BattleState = log_event cleared (plain_event EventType.turn_skipped cleared)
  completed ←
      complete_player_turn player_id false (record live {
        state = record live.state { battle = close_turn setting player_id skipped };
      })
  ok (record completed { state = grant_next_turn_energy setting player_id completed.state })

-- `confirm_queue`: the resolution of the queue is the argument `resolve`.
unfoldable pub confirm_turn :
    (BattleState → ℕ → Skills → Result BattleState) → Setting → ℕ → Skills → Live → Result Live
confirm_turn resolve setting player_id skills live = do
  ensure_turn_player player_id live.state
  resolved ← resolve live.state.battle player_id skills
  completed ←
      complete_player_turn player_id false
        (record live { state = record live.state { battle = resolved } })
  ok (record completed { state = grant_next_turn_energy setting player_id completed.state })

-- `[normalize_energy(source) for source in sources]`, of texts that name an energy or none.
unfoldable pub normalize_all : List (Option EnergyType) → Result (List EnergyType)
normalize_all [] = ok []
normalize_all (o ∷ rest) = do
  energy ← or_raise o unknown_energy
  others ← normalize_all rest
  ok (energy ∷ others)

abbrev pub is_core : EnergyType → Bool
is_core e = not (energy_eq e EnergyType.black)

unfoldable pub may_convert : PlayerState → BattleState → ℕ → Result (Unit {0})
may_convert player battle player_id = do
  raise_if player.queue_confirmed queue_already_confirmed
  raise_if (not (is_empty (pending battle player_id))) queue_pending
  raise_if (not (phase_eq battle.phase BattlePhase.planning)) wrong_phase
  raise_if player.energy_converted_this_turn already_converted

-- The sources and the target that a request names, if they are core energies.
unfoldable pub read_request :
    List (Option EnergyType) → Option EnergyType → Result (List EnergyType × EnergyType)
unfolding normalize_all
read_request sources target = do
  raise_if (not (length sources == 5)) conversion_sources
  named ← normalize_all sources
  goal ← or_raise target unknown_energy
  raise_if (not (is_core goal) || any (λ e. not (is_core e)) named) only_core
  ok (named, goal)

unfoldable pub add_one : EnergyType → Energy → Energy
add_one e energy k = if energy_eq k e then energy k +ℤ pos 1 else energy k

-- The pool after the counted sources were taken and one of the target was added.
unfoldable pub transmute : List EnergyType → EnergyType → Energy → Energy
unfolding add_one
transmute sources target energy =
    add_one target (spend_items (items (update_counter empty_counter sources)) energy)

unfoldable pub convert_energy :
    ℕ → List (Option EnergyType) → Option EnergyType → MatchState → Result MatchState
unfolding may_convert read_request transmute
convert_energy player_id sources target state = do
  ensure_turn_player player_id state
  player ← or_raise (lookup player_id state.battle.players) lookup_error
  may_convert player state.battle player_id
  request ← read_request sources target
  require_energy player.energy (items (update_counter empty_counter request.0))
  let converted : PlayerState = record player {
    energy = transmute request.0 request.1 player.energy;
    energy_converted_this_turn = true;
  }
  let paid : BattleState = record state.battle {
    players = insert player_id converted state.battle.players;
  }
  ok (record state { battle = log_event paid (plain_event EventType.energy_converted paid) })

-- A call outside `validate_action`, which makes a ResolverError of a TargetingError: here they escape.
unfoldable pub escaping : Result (Unit {0}) → Result (Unit {0})
escaping (err unknown_player) = err unhandled_targeting
escaping (err invalid_slot) = err unhandled_targeting
escaping r = r

-- `_validate_non_wildcard_plan`: from the first skill that costs a wildcard on, nothing is checked.
unfoldable pub check_plan : MatchState → ℕ → Skills → List PendingAction → Result (Unit {0})
unfolding escaping
check_plan state player_id skills [] = validate_queue state.battle player_id skills
check_plan state player_id skills (action ∷ rest) = do
  caster ← or_raise (character_at state.battle player_id action.caster_slot) lookup_error
  skill ← get_skill_for_action skills caster action
  escaping (validate_action_identity state.battle action skills)
  let later = check_plan state player_id skills rest
  if any (λ e. energy_eq e EnergyType.black) skill.cost then ok tt else later

unfoldable pub validate_plan : MatchState → ℕ → Skills → Result (Unit {0})
unfolding check_plan
validate_plan state player_id skills =
    if all (λ a. is_empty a.wildcard_pays) (pending state.battle player_id)
    then validate_queue_identity state.battle player_id
      >> check_plan state player_id skills (pending state.battle player_id)
    else validate_queue state.battle player_id skills

-- All that validation raises is a `ResolverError`, but for a missing key or slot and what escapes.
abbrev pub is_resolver_error : Error → Bool
is_resolver_error lookup_error = false
is_resolver_error unhandled_targeting = false
is_resolver_error _ = true

unfoldable pub put_queue : ℕ → List PendingAction → List ℕ → MatchState → MatchState
put_queue player_id actions order state = record state {
  battle = record state.battle {
    pending_actions = insert player_id actions state.battle.pending_actions;
    queue_order = insert player_id order state.battle.queue_order;
  };
}

unfoldable pub with_phase : BattlePhase → MatchState → MatchState
with_phase phase state = record state { battle = record state.battle { phase = phase } }

-- The state that a command leaves, also where it raised.
unfoldable pub settle_plan :
    MatchState → MatchState → Result (Unit {0}) → MatchState × Result (Unit {0})
settle_plan planned restored (ok x) = (planned, ok x)
settle_plan planned restored (err e) = (if is_resolver_error e then restored else planned, err e)

unfoldable pub submit_plan :
    ℕ → List PendingAction → Skills → MatchState → MatchState × Result (Unit {0})
unfolding settle_plan put_queue with_phase validate_plan
submit_plan player_id parsed skills state = elim (ensure_turn_player player_id state) [
  | err e ↦ (state, err e)
  | ok x ↦
      let planned =
        with_phase BattlePhase.queue_review
          (put_queue player_id parsed (action_ids (sort_by_index parsed)) state) in
      let restored = with_phase BattlePhase.planning (
        put_queue player_id (pending state.battle player_id) (order_of state.battle player_id)
          planned) in
      settle_plan planned restored (validate_plan planned player_id skills)
]

-- `action_by_id[action_id].wildcard_pays = ...`: of two actions with an id the later one is meant.
unfoldable pub set_pays : ℕ → List EnergyType → List PendingAction → List PendingAction
set_pays id pays [] = []
set_pays id pays (a ∷ rest) =
    let later = set_pays id pays rest in
    if a.id == id && not (any (λ b. b.id == id) rest)
    then record a { wildcard_pays = pays } ∷ rest
    else a ∷ later

-- The loop over the payments; an error leaves the payments before it in place.
unfoldable pub set_all_pays :
    Dict (List (Option EnergyType)) → List PendingAction → List PendingAction × Result (Unit {0})
unfolding normalize_all set_pays
set_all_pays [] actions = (actions, ok tt)
set_all_pays ((id, texts) ∷ rest) actions = elim (any (λ a. a.id == id) actions) [
  | false ↦ (actions, err unknown_action)
  | true ↦ elim (normalize_all texts) [
    | err e ↦ (actions, err e)
    | ok pays ↦ set_all_pays rest (set_pays id pays actions)
  ]
]

-- The payments stand in the action objects: where the player has no list, nothing is written.
unfoldable pub write_pays : ℕ → List PendingAction → MatchState → MatchState
write_pays player_id paid state = elim (lookup player_id state.battle.pending_actions) [
  | none ↦ state
  | some l ↦ record state {
    battle = record state.battle {
      pending_actions = insert player_id paid state.battle.pending_actions;
    };
  }
]

unfoldable pub put_order : ℕ → List ℕ → MatchState → MatchState
put_order player_id order state = record state {
  battle = record state.battle { queue_order = insert player_id order state.battle.queue_order };
}

-- `update_queue` from where the payments are set.
unfoldable pub reorder :
    ℕ
    → List ℕ
    → Skills
    → MatchState
    → List PendingAction × Result (Unit {0})
    → MatchState × Result (Unit {0})
unfolding settle_plan put_queue write_pays put_order
reorder player_id order skills state (paid, err e) = (write_pays player_id paid state, err e)
reorder player_id order skills state (paid, ok x) =
    let updated = put_order player_id order (write_pays player_id paid state) in
    let restored =
      put_queue player_id (pending state.battle player_id) (order_of state.battle player_id)
        updated in
    settle_plan updated restored (validate_queue updated.battle player_id skills)

unfoldable pub update_queue :
    ℕ
    → List ℕ
    → Dict (List (Option EnergyType))
    → Skills
    → MatchState
    → MatchState × Result (Unit {0})
unfolding reorder set_all_pays
update_queue player_id order pays skills state = elim (ensure_turn_player player_id state) [
  | err e ↦ (state, err e)
  | ok x ↦ reorder player_id order skills state (set_all_pays pays (pending state.battle player_id))
]
