-- ===== src/Settlements/Rows.antt =====
-- Counting the rows that an UPDATE leaves, `update_where` and `count` of the outbox of mission
-- settlements of jjk_arena/battle_v2/runtime_store.py.
use fantasy_draft.Base.{
  ◌+◌, ◌≤◌, ◌≡◌, refl, Bool, true, false, not, ◌&&◌, List, [], ◌∷◌, ◌++◌, any, keep, arith,
}
use fantasy_draft.Settlements.{Row, update_where, count}

-- Where every updated row that is counted was counted before, the update adds none.
pub count-update_where_le :
    (q q' c : Row → Bool) (f : Row → Row) (rows : List Row)
    → ((r : Row) → c r ≡ true → q (f r) ≡ true → q' r ≡ true)
    → ((r : Row) → c r ≡ false → q r ≡ true → q' r ≡ true)
    → count q (update_where c f rows) ≤ count q' rows
unfolding count update_where
count-update_where_le q q' c f [] h k = omega arith
count-update_where_le q q' c f (r ∷ rows) h k =
    let rest = count-update_where_le q q' c f rows h k in
    let here = h r in let there = k r in ground arith

pub count_le :
    (q q' : Row → Bool) (rows : List Row)
    → ((r : Row) → q r ≡ true → q' r ≡ true)
    → count q rows ≤ count q' rows
unfolding count
count_le q q' [] h = omega arith
count_le q q' (r ∷ rows) h = let rest = count_le q q' rows h in let here = h r in ground arith

-- An update that leaves the tested alone keeps their number from falling.
pub count_le-update_where :
    (q c : Row → Bool) (f : Row → Row) (rows : List Row)
    → ((r : Row) → c r ≡ true → q r ≡ true → q (f r) ≡ true)
    → count q rows ≤ count q (update_where c f rows)
unfolding count update_where
count_le-update_where q c f [] h = omega arith
count_le-update_where q c f (r ∷ rows) h =
    let rest = count_le-update_where q c f rows h in let here = h r in ground arith

pub count-append :
    (q : Row → Bool) (rows more : List Row) → count q (rows ++ more) ≡ count q rows + count q more
unfolding count
count-append q [] more = omega arith
count-append q (r ∷ rows) more = let rest = count-append q rows more in ground arith

pub count-keep_le : (q p : Row → Bool) (rows : List Row) → count q (keep p rows) ≤ count q rows
unfolding count
count-keep_le q p [] = omega arith
count-keep_le q p (r ∷ rows) = let rest = count-keep_le q p rows in ground arith

pub count-any : (q : Row → Bool) (rows : List Row) → any q rows ≡ false → count q rows ≡ 0
unfolding count
count-any q [] h = refl
count-any q (r ∷ rows) h = let rest = count-any q rows in ground arith

-- The counted split by a second test.
pub count-split :
    (q c : Row → Bool) (rows : List Row)
    → count q rows ≡ count (λ r. q r && c r) rows + count (λ r. q r && not (c r)) rows
unfolding count
count-split q c [] = refl
count-split q c (r ∷ rows) = let rest = count-split q c rows in ground arith

pub update_where_none :
    (c : Row → Bool) (f : Row → Row) (rows : List Row)
    → count c rows ≡ 0
    → update_where c f rows ≡ rows
unfolding count update_where
update_where_none c f [] h = refl
update_where_none c f (r ∷ rows) h = let rest = update_where_none c f rows in ground arith

-- Every row that an update means counts afterwards, if the update makes it so.
pub count-updated_le :
    (q c : Row → Bool) (f : Row → Row) (rows : List Row)
    → ((r : Row) → c r ≡ true → q (f r) ≡ true)
    → count c rows ≤ count q (update_where c f rows)
unfolding count update_where
count-updated_le q c f [] h = omega arith
count-updated_le q c f (r ∷ rows) h =
    let rest = count-updated_le q c f rows h in let here = h r in ground arith
