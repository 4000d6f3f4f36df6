-- ===== src/Queue/Order.antt =====
-- Validation, payment and order of the whole queue, jjk_arena/battle_v2/resolver.py.
use fantasy_draft.Base.{
  ℕ, ◌+◌, Bool, true, not, ◌&&◌, List, [], ◌∷◌, ◌==◌, if◌then◌else◌, any, all, length, contains,
  get_or, map,
}
use fantasy_draft.Int.{ℤ, leb_ℤ}
use fantasy_draft.Dict.{Dict, lookup, insert}
use fantasy_draft.Result.{
  Result, ok, ◌>>=◌, ◌>>◌, raise_if, or_raise, lookup_error, wildcard_count, wild_cannot_pay,
  empty_action_id, ids_not_unique, order_length, order_duplicates, order_mismatch,
  one_skill_per_caster,
}
use fantasy_draft.Models.{
  BattlePhase, EnergyType, energy_eq, CharacterState, PlayerState, PendingAction, BattleState,
}
use fantasy_draft.Conditions.{is_empty}
use fantasy_draft.Energy.{
  Counter, empty_counter, update_counter, items, split_cost, require_energy, spend_skill_energy,
}
use fantasy_draft.Slots.{has_slot}
use fantasy_draft.Queue.Costs.{Skills, action_cost}
use fantasy_draft.Queue.Actions.{validate_action}

-- `state.pending_actions.get(player_id, [])`
unfoldable pub pending : BattleState → ℕ → List PendingAction
pending state player_id = get_or (lookup player_id state.pending_actions) []

-- `required.update(specific)`: the counts of two counters together.
unfoldable pub add_counter : Counter → Counter → Counter
add_counter c d k = c k + d k

-- The loop that sums up what the queue requires.
unfoldable pub required_energy :
    List CharacterState → Skills → Counter → List PendingAction → Result Counter
required_energy team skills required [] = ok required
required_energy team skills required (action ∷ rest) = do
  cost ← action_cost team skills action
  let split = split_cost cost
  raise_if (not (length action.wildcard_pays == split.1)) wildcard_count
  raise_if (any (λ e. energy_eq e EnergyType.black) action.wildcard_pays) wild_cannot_pay
  required_energy team skills (update_counter (add_counter required split.0) action.wildcard_pays)
      rest

unfoldable pub validate_queue_energy : BattleState → ℕ → Skills → Result (Unit {0})
validate_queue_energy state player_id skills = do
  player ← or_raise (lookup player_id state.players) lookup_error
  required ← required_energy player.team skills empty_counter (pending state player_id)
  require_energy player.energy (items required)

unfoldable pub ids_distinct : List ℕ → Bool
ids_distinct [] = true
ids_distinct (id ∷ ids) = not (contains ids id) && ids_distinct ids

-- `set(a) == set(b)`
unfoldable pub same_ids : List ℕ → List ℕ → Bool
same_ids a b = all (contains b) a && all (contains a) b

abbrev pub action_ids : List PendingAction → List ℕ
action_ids actions = map (λ a. a.id) actions

unfoldable pub order_of : BattleState → ℕ → List ℕ
order_of state player_id = get_or (lookup player_id state.queue_order) []

unfoldable pub validate_queue_identity : BattleState → ℕ → Result (Unit {0})
validate_queue_identity state player_id = do
  let ids = action_ids (pending state player_id)
  let order = order_of state player_id
  raise_if (any (λ id. id == 0) ids) empty_action_id
  raise_if (not (ids_distinct ids)) ids_not_unique
  raise_if (not (length order == length (pending state player_id))) order_length
  raise_if (not (ids_distinct order)) order_duplicates
  raise_if (not (is_empty order) && not (same_ids order ids)) order_mismatch

-- One skill for each caster, and every action valid.
unfoldable pub validate_actions :
    BattleState → Skills → List ℤ → List PendingAction → Result (Unit {0})
validate_actions state skills seen_casters [] = ok tt
validate_actions state skills seen_casters (action ∷ rest) = do
  raise_if (has_slot seen_casters action.caster_slot) one_skill_per_caster
  validate_action state action skills
  validate_actions state skills (action.caster_slot ∷ seen_casters) rest

unfoldable pub validate_queue : BattleState → ℕ → Skills → Result (Unit {0})
validate_queue state player_id skills = do
  validate_queue_identity state player_id
  validate_actions state skills [] (pending state player_id)
  validate_queue_energy state player_id skills

-- The loop that pays for one action after another.
unfoldable pub spend_all : Skills → List PendingAction → PlayerState → Result PlayerState
spend_all skills [] player = ok player
spend_all skills (action ∷ rest) player = do
  cost ← action_cost player.team skills action
  paid ← spend_skill_energy player cost action.wildcard_pays
  spend_all skills rest paid

unfoldable pub confirm_queue : BattleState → ℕ → Skills → Result BattleState
confirm_queue state player_id skills = do
  validate_queue state player_id skills
  player ← or_raise (lookup player_id state.players) lookup_error
  paid ← spend_all skills (pending state player_id) player
  ok (record state {
    players = insert player_id (record paid { queue_confirmed = true }) state.players;
    phase = BattlePhase.resolving;
  })

-- `sorted(..., key=lambda item: item.queue_index)`, which is stable.
unfoldable pub insert_sorted : PendingAction → List PendingAction → List PendingAction
insert_sorted a [] = a ∷ []
insert_sorted a (b ∷ rest) =
    let later = b ∷ insert_sorted a rest in
    if leb_ℤ a.queue_index b.queue_index then a ∷ b ∷ rest else later

unfoldable pub sort_by_index : List PendingAction → List PendingAction
sort_by_index [] = []
sort_by_index (a ∷ rest) = insert_sorted a (sort_by_index rest)

-- `{action.id: action for action in actions}`: a later action takes the place of an earlier one.
unfoldable pub actions_by_id : List PendingAction → Dict PendingAction → Dict PendingAction
actions_by_id [] d = d
actions_by_id (a ∷ rest) d = actions_by_id rest (insert a.id a d)

unfoldable pub dict_values : Dict PendingAction → List PendingAction
dict_values d = map (λ e. e.1) d

unfoldable pub select : Dict PendingAction → List ℕ → Result (List PendingAction)
select d [] = ok []
select d (id ∷ ids) = do
  action ← or_raise (lookup id d) lookup_error
  rest ← select d ids
  ok (action ∷ rest)

unfoldable pub ordered_actions : BattleState → ℕ → Result (List PendingAction)
ordered_actions state player_id =
    let d = actions_by_id (pending state player_id) [] in
    let order = order_of state player_id in
    select d (if is_empty order then action_ids (sort_by_index (dict_values d)) else order)
