-- ===== src/Accounting.antt =====
-- Who is credited for damage, jjk_arena/battle_v2/damage_accounting.py.
use fantasy_draft.Base.{
  ℕ, ◌≡◌, ◌≢◌, ◌↔◌, refl, Bool, true, false, not, ◌||◌, Option, none, some, List, ◌==◌,
  if◌then◌else◌, contains, arith, Bool-cases, Option-cases, inl, inr,
}
use fantasy_draft.Int.{ℤ, pos, leb_ℤ, ◌<ℤ◌}
use fantasy_draft.Models.{EventType, RawAmount, BattleEvent}

pub record Attribution : Type 0 where
  pub source : ℕ
  pub target : ℕ
  pub amount : ℤ

-- `event.type not in HP_DAMAGE_EVENT_TYPES` is the negation.
unfoldable pub is_hp_damage : EventType → Bool
is_hp_damage EventType.damage = true
is_hp_damage EventType.status_damage = true
is_hp_damage EventType.retaliation = true
is_hp_damage EventType.health_steal = true
is_hp_damage _ = false

unfoldable pub credited_source : BattleEvent → Option ℕ
credited_source event =
    if event.is_reflected then event.reflected_by_player_id else event.source_player_id

-- `int(raw_amount)`, which refuses a missing value; a Boolean is refused before.
unfoldable pub read_amount : RawAmount → Option ℤ
read_amount RawAmount.missing = none
read_amount (RawAmount.boolean b) = none
read_amount (RawAmount.number n) = some n
read_amount (RawAmount.text read) = read

-- The identifiers of a source and a target that are both players and differ.
unfoldable pub enemy_pair : List ℕ → Option ℕ → Option ℕ → Option (ℕ × ℕ)
enemy_pair player_ids (some source) (some target) =
    if not (contains player_ids source) || not (contains player_ids target) || source == target
    then none
    else some (source, target)
enemy_pair player_ids none target = none
enemy_pair player_ids (some source) none = none

unfoldable pub credit : ℕ × ℕ → ℤ → Option Attribution
credit pair amount =
    if leb_ℤ amount (pos 0)
    then none
    else some (record { source = pair.0; target = pair.1; amount = amount })

unfoldable pub enemy_hp_damage_attribution : BattleEvent → List ℕ → Option Attribution
enemy_hp_damage_attribution event player_ids =
    if not (is_hp_damage event.type)
    then none
    else elim (enemy_pair player_ids (credited_source event) event.target_player_id) [
      | none ↦ none
      | some pair ↦ elim (read_amount event.actual_hp_damage) [
        | none ↦ none
        | some amount ↦ credit pair amount
      ]
    ]

-- What an event must say for an attribution.
pub record IsEnemyDamage (event : BattleEvent) (player_ids : List ℕ) (a : Attribution)
    : Type 0 where
  pub hp_damage : is_hp_damage event.type ≡ true
  pub credited : credited_source event ≡ some a.source
  pub hit : event.target_player_id ≡ some a.target
  pub source_plays : contains player_ids a.source ≡ true
  pub target_plays : contains player_ids a.target ≡ true
  pub enemies : a.source ≢ a.target
  pub actual : read_amount event.actual_hp_damage ≡ some a.amount
  pub positive : pos 0 <ℤ a.amount

enemy_pair_sound :
    (ids : List ℕ) (s t : Option ℕ) (pair : ℕ × ℕ)
    → enemy_pair ids s t ≡ some pair
    → (s ≡ some pair.0)
      × (t ≡ some pair.1)
      × (contains ids pair.0 ≡ true)
      × (contains ids pair.1 ≡ true)
      × (pair.0 ≢ pair.1)
unfolding enemy_pair
enemy_pair_sound ids (some s) (some t) pair h = elim (Bool-cases (contains ids s)) [
  | inl s_plays ↦ elim (Bool-cases (contains ids t)) [
    | inl t_plays ↦ elim (Bool-cases (s == t)) [
      | inl same ↦ absurd (let e = (rw (s_plays, t_plays, same) at h) in cc)
      | inr differ ↦
          let e : some (s, t) ≡ some pair = (rw (s_plays, t_plays, differ) at h) in
          let here : (s, t) ≡ pair = cc in
          rw⁻¹ here (refl, refl, s_plays, t_plays, λ same. absurd (ground (arith, differ, same)))
    ]
    | inr not_there ↦ absurd (let e = (rw (s_plays, not_there) at h) in cc)
  ]
  | inr not_there ↦ absurd (let e = (rw not_there at h) in cc)
]
enemy_pair_sound ids none t pair h = absurd cc
enemy_pair_sound ids (some s) none pair h = absurd cc

enemy_pair_complete :
    (ids : List ℕ) (s t : ℕ)
    → contains ids s ≡ true
    → contains ids t ≡ true
    → s ≢ t
    → enemy_pair ids (some s) (some t) ≡ some (s, t)
unfolding enemy_pair
enemy_pair_complete ids s t s_plays t_plays differ = rw (s_plays, t_plays) (ground (arith, differ))

credit_sound :
    (pair : ℕ × ℕ) (n : ℤ) (a : Attribution)
    → credit pair n ≡ some a
    → (a ≡ record { source = pair.0; target = pair.1; amount = n }) × (pos 0 <ℤ n)
unfolding credit
credit_sound pair n a h = elim (Bool-cases (leb_ℤ n (pos 0))) [
  | inl low ↦ absurd (let e = (rw low at h) in cc)
  | inr high ↦ (let e = (rw high at h) in cc, ground arith)
]

attribution_sound :
    (event : BattleEvent) (player_ids : List ℕ) (a : Attribution)
    → enemy_hp_damage_attribution event player_ids ≡ some a
    → IsEnemyDamage event player_ids a
unfolding enemy_hp_damage_attribution
attribution_sound event player_ids a h = elim (Bool-cases (is_hp_damage event.type)) [
  | inl hp ↦
      elim (Option-cases (enemy_pair player_ids (credited_source event) event.target_player_id)) [
        | inl nobody ↦ absurd (let e = (rw (hp, nobody) at h) in cc)
        | inr (pair, both) ↦ elim (Option-cases (read_amount event.actual_hp_damage)) [
          | inl unread ↦ absurd (let e = (rw (hp, both, unread) at h) in cc)
          | inr (n, read) ↦
              let o =
                enemy_pair_sound player_ids (credited_source event) event.target_player_id pair
                  both in
              let (same, positive) = credit_sound pair n a (rw (hp, both, read) at h) in
              rw same (record {
                hp_damage = hp;
                credited = o.0;
                hit = o.1;
                source_plays = o.2;
                target_plays = o.3;
                enemies = o.4;
                actual = read;
                positive = positive;
              })
        ]
      ]
  | inr other ↦ absurd (let e = (rw other at h) in cc)
]

attribution_complete :
    (event : BattleEvent) (player_ids : List ℕ) (a : Attribution)
    → IsEnemyDamage event player_ids a
    → enemy_hp_damage_attribution event player_ids ≡ some a
unfolding enemy_hp_damage_attribution credit
attribution_complete event player_ids a h =
    rw
      (
        h.hp_damage,
        h.credited,
        h.hit,
        enemy_pair_complete player_ids a.source a.target h.source_plays h.target_plays h.enemies,
        h.actual,
      )
      (let high : leb_ℤ a.amount (pos 0) ≡ false = (let p = h.positive in ground arith) in
        rw high refl)

-- An event is attributed exactly if it is one of the four kinds of damage to hit points, the credited
-- source (the reflector of a reflected hit) and the target are two different players of the battle,
-- and its actual damage is an integer above 0; the attribution names those three.
pub enemy_hp_damage_attribution_iff :
    (event : BattleEvent) (player_ids : List ℕ) (a : Attribution)
    → (enemy_hp_damage_attribution event player_ids ≡ some a) ↔ IsEnemyDamage event player_ids a
enemy_hp_damage_attribution_iff event player_ids a =
    (attribution_sound event player_ids a, attribution_complete event player_ids a)
