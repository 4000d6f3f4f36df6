-- ===== src/Slots/Writing.antt =====
-- Writing a character into its slot, `state.players[player_id].team[slot]` in
-- jjk_arena/battle_v2/effects.py.
use fantasy_draft.Base.{
  ℕ, zero, suc, ◌≡◌, ◌≢◌, refl, ap, ◌∙◌, inl, inr, false, some, List, [], ◌∷◌, ◌==◌, ==_refl,
  length, get_elem?, set, Option-cases, length-set,
}
use fantasy_draft.Int.{ℤ}
use fantasy_draft.Dict.{lookup, lookup-insert}
use fantasy_draft.Models.{CharacterState, PlayerState, BattleState}
use fantasy_draft.Slots.{position, get_at, set_at, character_at, with_character}

-- The state `after` is `before` with the character `c` in the slot, and nothing else is changed.
pub record IsWritten (before after : BattleState) (player_id : ℕ) (slot : ℤ) (c : CharacterState)
    : Type 0 where
  pub there : character_at after player_id slot ≡ some c
  pub others :
      (id : ℕ) → (player_id == id) ≡ false → lookup id after.players ≡ lookup id before.players
  pub owner : PlayerState
  pub owner_found : lookup player_id before.players ≡ some owner
  pub owner_after : PlayerState
  pub owner_stands : lookup player_id after.players ≡ some owner_after
  pub team_only : owner_after ≡ record owner { team = owner_after.team }
  pub mates :
      (n : ℕ)
      → position (length owner.team) slot ≢ some n
      → get_elem? owner_after.team n ≡ get_elem? owner.team n
  pub players_only : after ≡ record before { players = after.players }

module _ {ℓ} {A : Type ℓ} where
  get_elem?-set :
      (xs : List A) (n : ℕ) (v w : A) → get_elem? xs n ≡ some v → get_elem? (set xs n w) n ≡ some w
  get_elem?-set [] n v w h = absurd cc
  get_elem?-set (x ∷ xs) zero v w h = refl
  get_elem?-set (x ∷ xs) (suc n) v w h = get_elem?-set xs n v w h

  get_elem?-set_ne :
      (xs : List A) (n k : ℕ) (w : A) → n ≢ k → get_elem? (set xs n w) k ≡ get_elem? xs k
  get_elem?-set_ne [] n k w ne = refl
  get_elem?-set_ne (x ∷ xs) zero zero w ne = absurd (ne refl)
  get_elem?-set_ne (x ∷ xs) zero (suc k) w ne = refl
  get_elem?-set_ne (x ∷ xs) (suc n) zero w ne = refl
  get_elem?-set_ne (x ∷ xs) (suc n) (suc k) w ne = get_elem?-set_ne xs n k w λ e. ne (ap suc e)

get_at-set_at :
    (team : List CharacterState) (slot : ℤ) {c : CharacterState} (d : CharacterState)
    → get_at team slot ≡ some c
    → get_at (set_at team slot d) slot ≡ some d
unfolding get_at set_at
get_at-set_at team slot {c} d h = elim (Option-cases (position (length team) slot)) [
  | inl out ↦ absurd (let e = (rw (get_at, out) at h) in cc)
  | inr (n, at_n) ↦
      let wrote : set_at team slot d ≡ set team n d = rw (set_at, at_n) refl in
      let same : position (length (set team n d)) slot ≡ some n = rw (length-set team n d) at_n in
      rw wrote (rw (get_at, same) (get_elem?-set team n c d (rw (get_at, at_n) at h)))
]

set_at-mates :
    (team : List CharacterState) (slot : ℤ) (d : CharacterState) (n : ℕ)
    → position (length team) slot ≢ some n
    → get_elem? (set_at team slot d) n ≡ get_elem? team n
unfolding set_at
set_at-mates team slot d n ne = elim (Option-cases (position (length team) slot)) [
  | inl out ↦ rw (set_at, out) refl
  | inr (k, at_k) ↦ rw (set_at, at_k) (get_elem?-set_ne team k n d λ e. ne (at_k ∙ ap some e))
]

-- A character that is read from a slot can be written there.
pub with_character-IsWritten :
    (state : BattleState) (player_id : ℕ) (slot : ℤ) {c : CharacterState} (d : CharacterState)
    → character_at state player_id slot ≡ some c
    → IsWritten state (with_character state player_id slot d) player_id slot d
unfolding character_at with_character
with_character-IsWritten state player_id slot {c} d h =
    elim (Option-cases (lookup player_id state.players)) [
      | inl nobody ↦ absurd (let e = (rw (character_at, nobody) at h) in cc)
      | inr (player, found) ↦
          let there : get_at player.team slot ≡ some c = (rw (character_at, found) at h) in
          let after : PlayerState = record player { team = set_at player.team slot d } in
          rw (with_character, found)
            (record {
              there =
                  rw
                    (
                      character_at,
                      lookup-insert player_id player_id after state.players,
                      ==_refl player_id,
                    )
                    (get_at-set_at player.team slot d there);
              others = λ id ne. rw (lookup-insert player_id id after state.players, ne) refl;
              owner = player;
              owner_found = found;
              owner_after = after;
              owner_stands =
                  rw (lookup-insert player_id player_id after state.players, ==_refl player_id)
                    refl;
              team_only = refl;
              mates = set_at-mates player.team slot d;
              players_only = refl;
            })
    ]
