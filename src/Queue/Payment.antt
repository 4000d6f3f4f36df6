-- ===== src/Queue/Payment.antt =====
-- The queue's energy: what validation adds up is what confirmation spends,
-- jjk_arena/battle_v2/resolver.py.
use mathlib.Core.Path.{subst}
use fantasy_draft.Base.{
  ℕ, ◌+◌, ◌≡◌, ◌∙◌, refl, sym, ap, false, not, List, [], ◌∷◌, ◌==◌, arith, any, All, length,
}
use fantasy_draft.Int.{ℤ, pos, ◌-ℤ◌, ◌≤ℤ◌, int_laws}
use fantasy_draft.Result.{
  Result, ok, err, raise_if, >>=-eq-ok, >>-eq-ok, raise_if-ok, wildcard_count, wild_cannot_pay,
}
use fantasy_draft.Models.{EnergyType, energy_eq, CharacterState, PlayerState, PendingAction}
use fantasy_draft.Energy.{
  spend_skill_energy, validate_wildcard_payments, spend_items, spend_pays, items, Counter,
  update_counter, split_cost,
}
use fantasy_draft.Energy.Counting.{count, update_counter-count, split_cost-count}
use fantasy_draft.Energy.Spending.{price, IsPayable, spend_skill_energy_lem}
use fantasy_draft.Queue.Costs.{Skills, action_cost}
use fantasy_draft.Queue.Order.{add_counter, required_energy, spend_all}

abbrev pub priced : Result (List EnergyType) → List EnergyType → EnergyType → ℕ
priced (ok cost) pays k = price cost pays k
priced (err e) pays k = 0

-- What the actions of a queue take of an energy together.
abbrev pub queue_price : List CharacterState → Skills → List PendingAction → EnergyType → ℕ
queue_price team skills [] k = 0
queue_price team skills (a ∷ rest) k =
    priced (action_cost team skills a) a.wildcard_pays k + queue_price team skills rest k

-- The cost of an action is known, and its payments fit it.
pub record IsPaid (team : List CharacterState) (skills : Skills) (a : PendingAction) : Type 0 where
  pub cost : List EnergyType
  pub known : action_cost team skills a ≡ ok cost
  pub paid : length a.wildcard_pays ≡ count EnergyType.black cost
  pub not_wild : any (λ e. energy_eq e EnergyType.black) a.wildcard_pays ≡ false

added_price :
    (required : Counter) (cost pays : List EnergyType) (k : EnergyType)
    → update_counter (add_counter required (split_cost cost).0) pays k
      ≡ required k + price cost pays k
unfolding add_counter price
added_price required cost pays k = omega (
  arith,
  update_counter-count (add_counter required (split_cost cost).0) pays k,
  (split_cost-count cost k).0,
)

pub required_energy-price :
    (team : List CharacterState) (skills : Skills) (actions : List PendingAction)
    (required total : Counter)
    → required_energy team skills required actions ≡ ok total
    → All (IsPaid team skills) actions
      × ((k : EnergyType) → total k ≡ required k + queue_price team skills actions k)
unfolding required_energy
required_energy-price team skills [] required total h = (tt, λ k. total_of (λ r. r k) h)
  where
    total_of : (f : Counter → ℕ) → ok required ≡ ok total → f total ≡ f required + 0
    total_of f e = let same : required ≡ total = cc in omega (arith, ap f same)
required_energy-price team skills (a ∷ rest) required total h =
    let (cost, known, h1) = >>=-eq-ok (action_cost team skills a) _ h in
    let (w, h2) =
      >>-eq-ok (raise_if (not (length a.wildcard_pays == (split_cost cost).1)) wildcard_count) _
        h1 in
    let (b, h3) =
      >>-eq-ok (raise_if (any (λ e. energy_eq e EnergyType.black) a.wildcard_pays) wild_cannot_pay)
        _ h2 in
    let more =
      required_energy-price team skills rest
        (update_counter (add_counter required (split_cost cost).0) a.wildcard_pays) total h3 in
    (
      (
        record {
          cost = cost;
          known = known;
          paid = ground (arith, raise_if-ok _ _ w, (split_cost-count cost EnergyType.black).1);
          not_wild = raise_if-ok _ _ b;
        },
        more.0,
      ),
      λ k. rw known (omega (arith, more.1 k, added_price required cost a.wildcard_pays k)),
    )

-- What spending has done to a player.
pub record Spent (before : PlayerState) (cost : EnergyType → ℕ) (after : PlayerState) : Type 0 where
  pub falls : (k : EnergyType) → after.energy k ≡ before.energy k -ℤ pos (cost k)
  pub same_team : after.team ≡ before.team
  pub same_slots : after.active_slots ≡ before.active_slots

Spent-trans :
    {a b c : PlayerState} (f g h : EnergyType → ℕ)
    → Spent a f b
    → Spent b g c
    → ((k : EnergyType) → h k ≡ f k + g k)
    → Spent a h c
Spent-trans f g h p q e = record {
  falls = λ k. rw (q.falls k, p.falls k, e k) (omega int_laws);
  same_team = q.same_team ∙ p.same_team;
  same_slots = q.same_slots ∙ p.same_slots;
}

left_covered :
    (before after : ℤ) (x y : ℕ) → after ≡ before -ℤ pos x → pos (x + y) ≤ℤ before → pos y ≤ℤ after
left_covered before after x y e h = rw e (omega int_laws)

-- Spending changes nothing but the energy.
spend-only :
    (player : PlayerState) (cost pays : List EnergyType) {after : PlayerState}
    → spend_skill_energy player cost pays ≡ ok after
    → after ≡ record player { energy = after.energy }
unfolding spend_skill_energy
spend-only player cost pays {after} h =
    let (_, spent) = >>-eq-ok (validate_wildcard_payments player cost pays) _ h in
    let same : record player {
      energy = spend_pays pays (spend_items (items (split_cost cost).0) player.energy);
    }
        ≡ after =
      cc in
    rw (← same) refl

-- A queue whose actions are paid for and covered together is spent without an error, and every
-- energy falls by exactly the price of the queue, and nothing else of the player changes.
pub spend_all_lem :
    (skills : Skills) (actions : List PendingAction) (player : PlayerState)
    → All (IsPaid player.team skills) actions
    → ((k : EnergyType) → pos 0 ≤ℤ player.energy k)
    → ((k : EnergyType) → pos (queue_price player.team skills actions k) ≤ℤ player.energy k)
    → (after : PlayerState) × (spend_all skills actions player ≡ ok after)
      × Spent player (queue_price player.team skills actions) after
      × (after ≡ record player { energy = after.energy })
unfolding spend_all
spend_all_lem skills [] player paid nonneg covered = (
  player,
  refl,
  record { falls = λ k. omega int_laws; same_team = refl; same_slots = refl },
  refl,
)
spend_all_lem skills (a ∷ rest) player paid nonneg covered =
    let p = paid.0 in
    let now : EnergyType → ℕ = price p.cost a.wildcard_pays in
    let later : EnergyType → ℕ = queue_price player.team skills rest in
    let all_covered : (k : EnergyType) → pos (now k + later k) ≤ℤ player.energy k =
      λ k. rw p.known at (covered k) in
    let payable : IsPayable player.energy p.cost a.wildcard_pays = record {
      paid = p.paid;
      not_wild = p.not_wild;
      covered = λ k. let c = all_covered k in omega arith;
    } in
    let first = spend_skill_energy_lem player p.cost a.wildcard_pays nonneg payable in
    let spent_now : Spent player now first.0 = record {
      falls = first.2;
      same_team = first.3;
      same_slots = first.4;
    } in
    let rest_covered : (k : EnergyType) → pos (later k) ≤ℤ first.0.energy k = λ k.
      left_covered (player.energy k) (first.0.energy k) (now k) (later k) (first.2 k)
        (all_covered k) in
    let more =
      spend_all_lem skills rest first.0
        (subst (λ t. All (IsPaid t skills) rest) (sym first.3) paid.1)
        (λ k. let c = rest_covered k in omega arith) (λ k. rw first.3 (rest_covered k)) in
    let spent_later : Spent first.0 later more.0 =
      subst (λ t. Spent first.0 (queue_price t skills rest) more.0) first.3 more.2 in
    let only_now = spend-only player p.cost a.wildcard_pays first.1 in
    let last = more.0.energy in
    let step : record first.0 { energy = last } ≡ record player { energy = last } =
      ap (λ (x : PlayerState). record x { energy = last }) only_now in
    (
      more.0,
      rw (p.known, first.1) more.1,
      Spent-trans now later (queue_price player.team skills (a ∷ rest)) spent_now spent_later
          (λ k. rw p.known),
      more.3 ∙ step,
    )
