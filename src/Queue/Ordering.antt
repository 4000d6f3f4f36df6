-- ===== src/Queue/Ordering.antt =====
-- The order in which a queue resolves, `ordered_actions` of jjk_arena/battle_v2/resolver.py.
use fantasy_draft.Base.{
  ℕ, ◌≡◌, refl, inl, inr, true, false, not, ◌&&◌, ◌||◌, some, List, [], ◌∷◌, ◌==◌, arith,
  Bool-cases, Option-cases, if◌then◌else◌, all, contains, is_some, length,
}
use fantasy_draft.Dict.{Dict, lookup, insert, lookup-insert, lookup-empty}
use fantasy_draft.Result.{ok, >>-eq-ok, raise_if-ok, order_length, order_mismatch}
use fantasy_draft.Models.{PendingAction, BattleState}
use fantasy_draft.Conditions.{is_empty}
use fantasy_draft.Queue.Order.{
  pending, order_of, action_ids, same_ids, validate_queue_identity, actions_by_id, dict_values,
  select, sort_by_index, ordered_actions,
}

-- Every action stands under its own id.
Keyed : Dict PendingAction → Type 0
Keyed d = (id : ℕ) (a : PendingAction) → lookup id d ≡ some a → a.id ≡ id

actions_by_id-Keyed :
    (l : List PendingAction) (d : Dict PendingAction) → Keyed d → Keyed (actions_by_id l d)
unfolding actions_by_id Keyed
actions_by_id-Keyed [] d h = h
actions_by_id-Keyed (a ∷ l) d h = actions_by_id-Keyed l (insert a.id a d) λ id b found.
    let new = lookup-insert a.id id a d in
    elim (Bool-cases (a.id == id)) [
      | inl same ↦ let e : a ≡ b = (let n = (rw same at new) in cc) in rw⁻¹ e (ground arith)
      | inr other ↦ h id b (let n = (rw other at new) in cc)
    ]

actions_by_id-found :
    (id : ℕ) (l : List PendingAction) (d : Dict PendingAction)
    → (contains (action_ids l) id || is_some (lookup id d)) ≡ true
    → is_some (lookup id (actions_by_id l d)) ≡ true
unfolding actions_by_id
actions_by_id-found id [] d h = h
actions_by_id-found id (a ∷ l) d h =
    actions_by_id-found id l (insert a.id a d) (let new = lookup-insert a.id id a d in ground arith)

select-finds :
    (d : Dict PendingAction) (ids : List ℕ) (known : List ℕ)
    → Keyed d
    → ((id : ℕ) → contains known id ≡ true → is_some (lookup id d) ≡ true)
    → all (contains known) ids ≡ true
    → (l : List PendingAction) × (select d ids ≡ ok l) × (action_ids l ≡ ids)
unfolding select Keyed
select-finds d [] known keyed found h = ([], refl, refl)
select-finds d (id ∷ ids) known keyed found h =
    let here : contains known id ≡ true = ground arith in
    let others : all (contains known) ids ≡ true = ground arith in
    elim (Option-cases (lookup id d)) [
      | inl missing ↦ absurd (let e = found id here in let f = (rw missing at e) in cc)
      | inr (a, found_here) ↦
          let (l, selected, same) = select-finds d ids known keyed found others in
          (a ∷ l, rw (found_here, selected) refl, rw (keyed id a found_here, same) refl)
    ]

same_length :
    (order : List ℕ) (actions : List PendingAction)
    → not (length order == length actions) ≡ false
    → length order ≡ length actions
same_length order actions h = ground arith

-- What a queue that passes the check of its identity has.
identity_order :
    (state : BattleState) (player_id : ℕ)
    → validate_queue_identity state player_id ≡ ok tt
    → (length (order_of state player_id) ≡ length (pending state player_id))
      × ((not (is_empty (order_of state player_id))
            && not (same_ids (order_of state player_id) (action_ids (pending state player_id))))
          ≡ false)
unfolding validate_queue_identity
identity_order state player_id h =
    let (_, h1) = >>-eq-ok _ _ h in
    let (_, h2) = >>-eq-ok _ _ h1 in
    let (e, h3) = >>-eq-ok _ _ h2 in
    let (_, h4) = >>-eq-ok _ _ h3 in
    (
      same_length (order_of state player_id) (pending state player_id)
          (raise_if-ok _ order_length e),
      raise_if-ok _ order_mismatch h4,
    )

listed_known :
    (order ids : List ℕ)
    → (not (is_empty order) && not (same_ids order ids)) ≡ false
    → all (contains ids) order ≡ true
unfolding same_ids
listed_known [] ids h = refl
listed_known (id ∷ order) ids h = ground arith

empty_pending : (l : List PendingAction) → 0 ≡ length l → l ≡ []
empty_pending [] h = refl
empty_pending (a ∷ l) h = absurd (omega arith)

resolved_order :
    (actions : List PendingAction) (order : List ℕ)
    → length order ≡ length actions
    → (not (is_empty order) && not (same_ids order (action_ids actions))) ≡ false
    → (l : List PendingAction) × (select (actions_by_id actions []) (
          if is_empty order
          then action_ids (sort_by_index (dict_values (actions_by_id actions [])))
          else order)
        ≡ ok l)
      × (action_ids l ≡ order)
resolved_order actions [] same h =
    rw (empty_pending actions same)
      ([], unfold actions_by_id dict_values sort_by_index select in refl, refl)
resolved_order actions (id ∷ order) same h =
    select-finds (actions_by_id actions []) (id ∷ order) (action_ids actions)
      (actions_by_id-Keyed actions []
        (unfold Keyed in λ j a found. absurd (let e = lookup-empty {V = PendingAction} j in cc)))
      (λ j known. actions_by_id-found j actions [] (rw known refl))
      (listed_known (id ∷ order) (action_ids actions) h)

-- A queue that passes the check of its identity resolves without an error, one action for each id of
-- the player's queue order, in that order.
pub ordered_actions_lem :
    (state : BattleState) (player_id : ℕ)
    → validate_queue_identity state player_id ≡ ok tt
    → (l : List PendingAction) × (ordered_actions state player_id ≡ ok l)
      × (action_ids l ≡ order_of state player_id)
unfolding ordered_actions
ordered_actions_lem state player_id h =
    let (same, known) = identity_order state player_id h in
    resolved_order (pending state player_id) (order_of state player_id) same known
