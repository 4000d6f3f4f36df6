-- ===== src/Sessions/View.antt =====
-- The registry as two partial functions of room and player, and what each method does to them,
-- jjk_arena/battle_v2/sessions.py.
use fantasy_draft.Base.{
  ℕ, ◌≡◌, inl, inr, Bool, ◌&&◌, none, some, [], ◌==◌, arith, Option-cases, if◌then◌else◌, get_or,
}
use fantasy_draft.Dict.{Dict, lookup, insert, erase, lookup-insert, lookup-erase, lookup-empty}
use fantasy_draft.Sessions.{get_in, put_in, pop_in}

abbrev pub at_pair : ℕ → ℕ → ℕ → ℕ → Bool
at_pair room player r p = room == r && player == p

module _ {V : Type 0} where
  pub get_in-put_in :
      (d : Dict (Dict V)) (room player r p : ℕ) (v : V)
      → get_in (put_in d room player v) r p
        ≡ (if at_pair room player r p then some v else get_in d r p)
  unfolding get_in put_in
  get_in-put_in d room player r p v = ground (
    arith,
    lookup-insert room r (insert player v (get_or (lookup room d) [])) d,
    lookup-insert player p v (get_or (lookup room d) []),
  )

  pub get_in-pop_in :
      (d : Dict (Dict V)) (room player r p : ℕ)
      → get_in (pop_in d room player) r p ≡ (if at_pair room player r p then none else get_in d r p)
  unfolding get_in pop_in
  get_in-pop_in d room player r p = elim (Option-cases (lookup room d)) [
    | inl absent ↦ ground (arith, absent, lookup-empty {V = V} p)
    | inr (inner, found) ↦
        ground
          (arith, found, lookup-insert room r (erase player inner) d, lookup-erase player p inner)
  ]
