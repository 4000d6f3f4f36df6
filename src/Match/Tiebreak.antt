-- ===== src/Match/Tiebreak.antt =====
-- Who wins by tiebreak, `_finish_by_tiebreak` of jjk_arena/battle_v2/manager.py.
use fantasy_draft.Base.{
  ℕ, ◌≡◌, ◌≢◌, refl, ◌⊎◌, inl, inr, Bool, true, false, Option, none, some, List, [], ◌∷◌,
  if◌then◌else◌, arith, All, Bool-cases, length, ◌≤◌, ◌∙◌,
}
use fantasy_draft.Dict.{Dict}
use fantasy_draft.Result.{ok, ◌>>=◌}
use fantasy_draft.Match.{MatchState}
use fantasy_draft.Match.Finish.{
  Score, score_ltb, score_eq, scores, best_from, best_score, holders, only, tiebreak_winner,
}

score_refl : (x : Score) → score_ltb x x ≡ false
unfolding score_ltb
score_refl [] = refl
score_refl (x ∷ xs) = ground (arith, score_refl xs)

-- One that is not below another, which is not below a third one, is not below the third one.
score_trans :
    (x y z : Score) → score_ltb x y ≡ false → score_ltb y z ≡ false → score_ltb x z ≡ false
unfolding score_ltb
score_trans [] [] z h g = g
score_trans [] (y ∷ ys) z h g = cc
score_trans (x ∷ xs) [] [] h g = refl
score_trans (x ∷ xs) [] (z ∷ zs) h g = cc
score_trans (x ∷ xs) (y ∷ ys) [] h g = refl
score_trans (x ∷ xs) (y ∷ ys) (z ∷ zs) h g = ground (arith, score_trans xs ys zs)

score_asym : (x y : Score) → score_ltb x y ≡ true → score_ltb y x ≡ false
unfolding score_ltb
score_asym [] [] h = refl
score_asym [] (y ∷ ys) h = refl
score_asym (x ∷ xs) [] h = cc
score_asym (x ∷ xs) (y ∷ ys) h = ground (arith, score_asym xs ys)

-- Of two different scores one is below the other.
below_of_ne : (x y : Score) → score_eq x y ≡ false → score_ltb y x ≡ false → score_ltb x y ≡ true
unfolding score_ltb
below_of_ne [] [] h g = cc
below_of_ne [] (y ∷ ys) h g = refl
below_of_ne (x ∷ xs) [] h g = cc
below_of_ne (x ∷ xs) (y ∷ ys) h g = ground (arith, below_of_ne xs ys)

score_eq_refl : (x : Score) → score_eq x x ≡ true
score_eq_refl [] = refl
score_eq_refl (x ∷ xs) = ground (arith, score_eq_refl xs)

abbrev NotAbove : Score → Dict Score → Type 0
NotAbove best l = All (λ e. score_ltb best e.1 ≡ false) l

above_trans : (a b : Score) (l : Dict Score) → score_ltb a b ≡ false → NotAbove b l → NotAbove a l
above_trans a b [] h n = tt
above_trans a b (e ∷ l) h n = (score_trans a b e.1 h n.0, above_trans a b l h n.1)

-- The greater of two scores.
abbrev higher : Score → Score → Score
higher best score = if score_ltb best score then score else best

higher_lem :
    (best score : Score)
    → (score_ltb (higher best score) best ≡ false)
      × (score_ltb (higher best score) score ≡ false)
      × ((higher best score ≡ best) ⊎ (higher best score ≡ score))
higher_lem best score = elim (Bool-cases (score_ltb best score)) [
  | inl below ↦ rw below (score_asym best score below, score_refl score, inr refl)
  | inr not_below ↦ rw not_below (score_refl best, not_below, inl refl)
]

-- The fold of `max` gives a score that none exceeds.
best_from_max :
    (best : Score) (l : Dict Score)
    → (score_ltb (best_from best l) best ≡ false) × NotAbove (best_from best l) l
unfolding best_from
best_from_max best [] = (score_refl best, tt)
best_from_max best ((id, score) ∷ l) =
    let next = higher_lem best score in
    let (first, rest) = best_from_max (higher best score) l in
    (
      score_trans _ (higher best score) best first next.0,
      (score_trans _ (higher best score) score first next.1, rest),
    )

if_nil :
    (b : Bool) (id : ℕ) (others : List ℕ) → (if b then id ∷ others else others) ≡ [] → others ≡ []
if_nil true id others e = cc
if_nil false id others e = e

-- It is the score that the fold started from, or one of the list.
best_from_held :
    (best : Score) (l : Dict Score)
    → (best_from best l ≡ best) ⊎ (holders (best_from best l) l ≢ [])
unfolding best_from holders
best_from_held best [] = inl refl
best_from_held best ((id, score) ∷ l) = elim (best_from_held (higher best score) l) [
  | inr there ↦ inr (λ e. there (if_nil _ id _ e))
  | inl same ↦ elim (higher_lem best score).2 [
    | inl old ↦ inl (same ∙ old)
    | inr new ↦ inr (λ e. absurd (let f = (rw (same ∙ new, score_eq_refl score) at e) in cc))
  ]
]

-- The decision of a tiebreak: the winner alone has the best score and everyone else is below it, or
-- two players or more share the best score.
abbrev pub Decides : Dict Score → Option ℕ → Type 0
Decides all none = (best : Score) × NotAbove best all × (2 ≤ length (holders best all))
Decides all (some winner) =
    (best : Score) × NotAbove best all
    × (holders best all ≡ winner ∷ [])
    × All (λ e. (e.0 ≡ winner) ⊎ (score_ltb e.1 best ≡ true)) all

-- Whoever does not hold the best score is below it.
others_below :
    (best : Score) (l : Dict Score) (winner : ℕ)
    → NotAbove best l
    → All (λ id. id ≡ winner) (holders best l)
    → All (λ e. (e.0 ≡ winner) ⊎ (score_ltb e.1 best ≡ true)) l
unfolding holders
others_below best [] winner n h = tt
others_below best ((id, score) ∷ l) winner n h = elim (Bool-cases (score_eq score best)) [
  | inl equal ↦
      let (here, rest) = (rw equal at h) in (inl here, others_below best l winner n.1 rest)
  | inr differs ↦
      let below : score_ltb score best ≡ true = below_of_ne score best differs n.0 in
      (inr below, others_below best l winner n.1 (rw differs at h))
]

decided :
    (all : Dict Score) (best : Score)
    → NotAbove best all
    → holders best all ≢ []
    → (l : List ℕ) → holders best all ≡ l
    → Decides all (only l)
unfolding only
decided all best n some_holder [] e = absurd (some_holder e)
decided all best n some_holder (id ∷ []) e =
    (best, n, e, others_below best all id n (rw e (refl, tt)))
decided all best n some_holder (id ∷ other ∷ rest) e = (best, n, rw e (omega arith))

best_is_held :
    (id : ℕ) (score : Score) (l : Dict Score) → holders (best_from score l) ((id, score) ∷ l) ≢ []
unfolding holders
best_is_held id score l e = elim (best_from_held score l) [
  | inl same ↦ absurd (let f = (rw (same, score_eq_refl score) at e) in cc)
  | inr there ↦ there (if_nil _ id _ e)
]

best-Decides :
    (all : Dict Score) {winner : Option ℕ}
    → (best_score all >>= λ best. ok (only (holders best all))) ≡ ok winner
    → Decides all winner
unfolding best_score
best-Decides [] h = cc
best-Decides ((id, score) ∷ l) {winner} h =
    let best = best_from score l in
    let same : only (holders best ((id, score) ∷ l)) ≡ winner = cc in
    rw⁻¹ same
      (decided ((id, score) ∷ l) best (best_from_max score l) (best_is_held id score l) _ refl)

-- When a tiebreak is decided, its winner is the one player with the best score (living active
-- characters, then their hit points, then the damage dealt, then the fewest timeouts), everyone else
-- being strictly below; it is a draw only if two players or more share the best score.
pub tiebreak_winner-Decides :
    (state : MatchState) {all : Dict Score} {winner : Option ℕ}
    → scores state state.battle.players ≡ ok all
    → tiebreak_winner state ≡ ok winner
    → Decides all winner
unfolding tiebreak_winner
tiebreak_winner-Decides state {all} e h = best-Decides all (rw (tiebreak_winner, e) at h)
