-- ===== src/Invariant.antt =====
-- The invariant of a battle: every character is sound and no player is in debt; how reads and writes
-- of a state keep it.
use fantasy_draft.Base.{
  ℕ, zero, suc, ◌≡◌, refl, sym, ◌∙◌, inl, inr, Bool, true, false, Option, none, some, List, [], ◌∷◌,
  ◌==◌, Bool-cases, Option-cases, if◌then◌else◌, All, set, get_elem?, length,
}
use fantasy_draft.Int.{ℤ}
use fantasy_draft.Dict.{Dict, lookup, insert}
use fantasy_draft.Models.{CharacterState, PlayerState, BattleState}
use fantasy_draft.Damage.Bounds.{IsSound}
use fantasy_draft.Slots.{position, get_at, set_at, character_at, with_character}
use fantasy_draft.Queue.Confirming.{HasNoDebt}

pub record IsSoundPlayer (player : PlayerState) : Type 0 where
  pub team : All IsSound player.team
  pub no_debt : HasNoDebt player

-- Every character of every player is sound, and nobody is in debt.
pub record IsSoundState (state : BattleState) : Type 0 where
  pub all_players : All (λ e. IsSoundPlayer e.1) state.players

-- A value that is read from an optional one has what both its cases have.
pub maybe_keeps {ℓ κ} :
    {A B : Type ℓ} (P : B → Type κ) (o : Option A) {x : B} {f : A → B}
    → P x
    → ((a : A) → o ≡ some a → P (f a))
    → P (elim o [ none ↦ x | some a ↦ f a ])
maybe_keeps P none p q = p
maybe_keeps P (some a) p q = q a refl

pub if_keeps {ℓ κ} :
    {B : Type ℓ} (P : B → Type κ) (b : Bool) {x y : B}
    → (b ≡ true → P x)
    → (b ≡ false → P y)
    → P (if b then x else y)
if_keeps P true p q = p refl
if_keeps P false p q = q refl

pub bool_keeps {ℓ κ} :
    {B : Type ℓ} (P : B → Type κ) (b : Bool) {x y : B}
    → (b ≡ true → P x)
    → (b ≡ false → P y)
    → P (elim b [ true ↦ x | false ↦ y ])
bool_keeps P true p q = p refl
bool_keeps P false p q = q refl

module _ {A : Type 0} (P : A → Type 0) where
  pub lookup-All : (k : ℕ) (d : Dict A) {v : A} → All (λ e. P e.1) d → lookup k d ≡ some v → P v
  unfolding lookup
  lookup-All k [] h e = cc
  lookup-All k ((j, w) ∷ d) {v} h e = elim (Bool-cases (j == k)) [
    | inl here ↦ let same : w ≡ v = (let f = (rw here at e) in cc) in rw (← same) h.0
    | inr there ↦ lookup-All k d h.1 (rw there at e)
  ]

  pub insert-All :
      (k : ℕ) (v : A) (d : Dict A) → All (λ e. P e.1) d → P v → All (λ e. P e.1) (insert k v d)
  unfolding insert
  insert-All k v [] h p = (p, tt)
  insert-All k v ((j, w) ∷ d) h p = elim (Bool-cases (j == k)) [
    | inl here ↦ rw here (p, h.1)
    | inr there ↦ rw there (h.0, insert-All k v d h.1 p)
  ]

  get_elem?-All : (xs : List A) (i : ℕ) {a : A} → All P xs → get_elem? xs i ≡ some a → P a
  get_elem?-All [] i h e = cc
  get_elem?-All (x ∷ xs) zero {a} h e = let same : x ≡ a = cc in rw (← same) h.0
  get_elem?-All (x ∷ xs) (suc i) h e = get_elem?-All xs i h.1 e

  set-All : (xs : List A) (i : ℕ) (a : A) → All P xs → P a → All P (set xs i a)
  set-All [] i a h p = tt
  set-All (x ∷ xs) zero a h p = (p, h.1)
  set-All (x ∷ xs) (suc i) a h p = (h.0, set-All xs i a h.1 p)

get_at-IsSound :
    (team : List CharacterState) (i : ℤ) {c : CharacterState}
    → All IsSound team
    → get_at team i ≡ some c
    → IsSound c
unfolding get_at
get_at-IsSound team i {c} h e = elim (Option-cases (position (length team) i)) [
  | inl out ↦ absurd (let f = (rw (get_at, out) at e) in cc)
  | inr (n, at_n) ↦ get_elem?-All IsSound team n h (rw (get_at, at_n) at e)
]

set_at-IsSound :
    (team : List CharacterState) (i : ℤ) (c : CharacterState)
    → All IsSound team
    → IsSound c
    → All IsSound (set_at team i c)
unfolding set_at
set_at-IsSound team i c h p =
    maybe_keeps (All IsSound) (position (length team) i) h (λ n _. set-All IsSound team n c h p)

pub character_at-IsSound :
    (state : BattleState) (player_id : ℕ) (slot : ℤ) {c : CharacterState}
    → IsSoundState state
    → character_at state player_id slot ≡ some c
    → IsSound c
unfolding character_at
character_at-IsSound state player_id slot {c} h e =
    elim (Option-cases (lookup player_id state.players)) [
      | inl out ↦ absurd (let f = (rw (character_at, out) at e) in cc)
      | inr (player, found) ↦
          get_at-IsSound player.team slot
            (lookup-All IsSoundPlayer player_id state.players h.all_players found).team
            (rw (character_at, found) at e)
    ]

pub with_character-IsSoundState :
    (state : BattleState) (player_id : ℕ) (slot : ℤ) (c : CharacterState)
    → IsSoundState state
    → IsSound c
    → IsSoundState (with_character state player_id slot c)
unfolding with_character
with_character-IsSoundState state player_id slot c h p =
    maybe_keeps IsSoundState (lookup player_id state.players) h λ player found.
      let owner = lookup-All IsSoundPlayer player_id state.players h.all_players found in
      record {
        all_players = insert-All IsSoundPlayer player_id _ state.players h.all_players (record {
          team = set_at-IsSound player.team slot c owner.team p;
          no_debt = owner.no_debt;
        });
      }

-- Soundness speaks of hit points, maximum and life alone.
pub IsSound-like :
    {c d : CharacterState}
    → d.hp ≡ c.hp
    → d.max_hp ≡ c.max_hp
    → d.alive ≡ c.alive
    → IsSound c
    → IsSound d
IsSound-like p q r h = record {
  hp_nonneg = rw p h.hp_nonneg;
  hp_le_max = rw (p, q) h.hp_le_max;
  living = λ a. rw p (h.living (sym r ∙ a));
  dead = λ a. p ∙ h.dead (sym r ∙ a);
}
