-- ===== src/Queue/Confirming.antt =====
-- Confirming a valid queue, `confirm_queue` of jjk_arena/battle_v2/resolver.py.
use fantasy_draft.Base.{ap, ℕ, ◌≡◌, ◌≢◌, refl, true, some, [], All, arith}
use fantasy_draft.Int.{pos, ◌≤ℤ◌, int_laws}
use fantasy_draft.Dict.{lookup, insert, lookup-insert}
use fantasy_draft.Result.{ok, ◌>>=◌, >>=-eq-ok, >>-eq-ok}
use fantasy_draft.Models.{BattlePhase, EnergyType, PlayerState, BattleState}
use fantasy_draft.Energy.{empty_counter, require_energy, items}
use fantasy_draft.Energy.Spending.{require_energy-items}
use fantasy_draft.Queue.Costs.{Skills}
use fantasy_draft.Queue.Order.{
  pending, required_energy, validate_queue_energy, validate_queue_identity, validate_actions,
  validate_queue, confirm_queue,
}
use fantasy_draft.Queue.Payment.{queue_price, IsPaid, required_energy-price, Spent, spend_all_lem}

abbrev pub HasNoDebt : PlayerState → Type 0
HasNoDebt player = (k : EnergyType) → pos 0 ≤ℤ player.energy k

-- What a successful confirmation has done: the player has paid the price of its queue, keeps no
-- debt and is confirmed; the other players are as they were, and the phase is `resolving`.
pub record Confirmed (before after : BattleState) (player_id : ℕ) (player : PlayerState)
    (price : EnergyType → ℕ) : Type 0 where
  pub paid : PlayerState
  pub stands : lookup player_id after.players ≡ some paid
  pub spent : Spent player price paid
  pub no_debt : HasNoDebt paid
  pub confirmed : paid.queue_confirmed ≡ true
  pub others : (id : ℕ) → id ≢ player_id → lookup id after.players ≡ lookup id before.players
  pub resolving : after.phase ≡ BattlePhase.resolving
  pub same_actions : after.pending_actions ≡ before.pending_actions
  pub same_turn : after.turn_number ≡ before.turn_number
  pub only_paid : paid ≡ record player { energy = paid.energy; queue_confirmed = true }
  pub nothing_else : after ≡ record before {
    players = insert player_id paid before.players;
    phase = BattlePhase.resolving;
  }

-- The price of a queue that has passed the validation of its energy is covered.
validated_price :
    (state : BattleState) (player_id : ℕ) (skills : Skills) (player : PlayerState)
    → lookup player_id state.players ≡ some player
    → HasNoDebt player
    → validate_queue_energy state player_id skills ≡ ok tt
    → All (IsPaid player.team skills) (pending state player_id)
      × ((k : EnergyType)
          → pos (queue_price player.team skills (pending state player_id) k) ≤ℤ player.energy k)
unfolding validate_queue_energy
validated_price state player_id skills player found nonneg h =
    let h0 : (required_energy player.team skills empty_counter (pending state player_id)
          >>= λ required. require_energy player.energy (items required))
        ≡ ok tt =
      rw found at h in
    let (total, sums, covered) =
      >>=-eq-ok (required_energy player.team skills empty_counter (pending state player_id)) _ h0 in
    let priced =
      required_energy-price player.team skills (pending state player_id) empty_counter total sums in
    (
      priced.0,
      λ k.
          let enough = (require_energy-items player.energy total nonneg).0 covered k in
          omega (arith, priced.1 k),
    )

valid_energy :
    (state : BattleState) (player_id : ℕ) (skills : Skills)
    → validate_queue state player_id skills ≡ ok tt
    → validate_queue_energy state player_id skills ≡ ok tt
unfolding validate_queue
valid_energy state player_id skills valid =
    let (_, v1) = >>-eq-ok (validate_queue_identity state player_id) _ valid in
    (>>-eq-ok (validate_actions state skills [] (pending state player_id)) _ v1).1

-- A queue that is valid, of a player without debt, is confirmed without an error, however many
-- actions it holds: no payment fails half way. The player has paid exactly the price of the queue,
-- keeps no debt and is confirmed, the phase is `resolving`, and nothing else of the player or of the
-- battle has changed.
pub confirm_queue-Confirmed :
    (state : BattleState) (player_id : ℕ) (skills : Skills) (player : PlayerState)
    → lookup player_id state.players ≡ some player
    → HasNoDebt player
    → validate_queue state player_id skills ≡ ok tt
    → (after : BattleState) × (confirm_queue state player_id skills ≡ ok after)
      × Confirmed state after player_id player
          (queue_price player.team skills (pending state player_id))
unfolding confirm_queue
confirm_queue-Confirmed state player_id skills player found nonneg valid =
    let v2 = valid_energy state player_id skills valid in
    let priced = validated_price state player_id skills player found nonneg v2 in
    let (paid, spends, spent, only) =
      spend_all_lem skills (pending state player_id) player priced.0 nonneg priced.1 in
    (
      record state {
        players = insert player_id (record paid { queue_confirmed = true }) state.players;
        phase = BattlePhase.resolving;
      },
      rw (valid, found, spends),
      record {
        paid = record paid { queue_confirmed = true };
        stands = rw lookup-insert (ground arith);
        spent = record {
          falls = spent.falls;
          same_team = spent.same_team;
          same_slots = spent.same_slots;
        };
        no_debt = λ k. let c = priced.1 k in rw (spent.falls k) (omega int_laws);
        confirmed = refl;
        others = λ id ne. rw lookup-insert (ground arith);
        resolving = refl;
        same_actions = refl;
        same_turn = refl;
        only_paid = ap (λ (x : PlayerState). record x { queue_confirmed = true }) only;
        nothing_else = refl;
      },
    )
