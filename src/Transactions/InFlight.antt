-- ===== src/Transactions/InFlight.antt =====
-- Commands in flight, `_enter_in_flight_command`, `_exit_in_flight_command`,
-- `in_flight_commands_for_room` and `in_flight_command_total` of jjk_arena/battle_v2/manager.py. Each
-- runs under the lock, so that an interleaving of threads is a list of entries and exits.
use fantasy_draft.Base.{
  ℕ, ◌+◌, ◌-◌, ◌≤◌, ◌<◌, ◌≡◌, refl, ◌∙◌, inl, inr, false, ◌==◌, leb, none, List, [], ◌∷◌,
  if◌then◌else◌, arith, get_or, Bool-cases,
}
use fantasy_draft.Invariant.{if_keeps}
use fantasy_draft.Dict.{Dict, lookup, insert, erase, lookup-insert, lookup-erase, lookup-empty}

abbrev pub Counts : Type 0
Counts = Dict ℕ

-- `self._in_flight_commands.get(room_id, 0)`; a `Counter` counts an absent room 0.
unfoldable pub in_flight_commands_for_room : ℕ → Counts → ℕ
in_flight_commands_for_room room counts = get_or (lookup room counts) 0

unfoldable pub enter_in_flight_command : ℕ → Counts → Counts
enter_in_flight_command room counts = insert room (get_or (lookup room counts) 0 + 1) counts

-- `remaining <= 0` is a count of 1 or less before.
unfoldable pub exit_in_flight_command : ℕ → Counts → Counts
exit_in_flight_command room counts =
    let count = get_or (lookup room counts) 0 in
    if leb count 1 then erase room counts else insert room (count - 1) counts

unfoldable pub in_flight_command_total : Counts → ℕ
in_flight_command_total [] = 0
in_flight_command_total ((room, count) ∷ counts) = count + in_flight_command_total counts

pub data Passage : Type 0 where
  enters exits : ℕ → Passage

unfoldable pub pass : Passage → Counts → Counts
pass (Passage.enters room) counts = enter_in_flight_command room counts
pass (Passage.exits room) counts = exit_in_flight_command room counts

unfoldable pub pass_all : List Passage → Counts → Counts
pass_all [] counts = counts
pass_all (p ∷ rest) counts = pass_all rest (pass p counts)

-- The handlers that run, room by room and together, with no dictionary.
pub record Running : Type 0 where
  pub inside : ℕ → ℕ
  pub total : ℕ

abbrev moved : Passage → Running → Running
moved (Passage.enters room) r = record {
  inside = λ j. if room == j then r.inside j + 1 else r.inside j;
  total = r.total + 1;
}
moved (Passage.exits room) r = record {
  inside = λ j. if room == j then r.inside j - 1 else r.inside j;
  total = r.total - 1;
}

abbrev pub moved_all : List Passage → Running → Running
moved_all [] r = r
moved_all (p ∷ rest) r = moved_all rest (moved p r)

-- Every exit is of a handler that has entered.
abbrev pub AreMatched : List Passage → Running → Type 0
AreMatched [] r = Unit
AreMatched (Passage.enters room ∷ rest) r = AreMatched rest (moved (Passage.enters room) r)
AreMatched (Passage.exits room ∷ rest) r =
    (0 < r.inside room) × AreMatched rest (moved (Passage.exits room) r)

-- A room has one counter.
abbrev AreDistinct : Counts → Type 0
AreDistinct [] = Unit
AreDistinct ((room, count) ∷ counts) = (lookup room counts ≡ none) × AreDistinct counts

-- The counters stand for the handlers that run.
pub record Counting (counts : Counts) (r : Running) : Type 0 where
  pub rooms : (room : ℕ) → in_flight_commands_for_room room counts ≡ r.inside room
  pub sum : in_flight_command_total counts ≡ r.total
  pub unique : AreDistinct counts

total-enter :
    (room : ℕ) (n : ℕ) (counts : Counts)
    → in_flight_command_total (insert room n counts) + get_or (lookup room counts) 0
      ≡ in_flight_command_total counts + n
unfolding in_flight_command_total insert lookup
total-enter room n [] = omega arith
total-enter room n ((j, count) ∷ counts) = ground (arith, total-enter room n counts)

erase_absent : (room : ℕ) (counts : Counts) → lookup room counts ≡ none → erase room counts ≡ counts
unfolding lookup erase
erase_absent room [] h = refl
erase_absent room ((j, count) ∷ counts) h = ground (arith, erase_absent room counts)

total-exit :
    (room : ℕ) (counts : Counts)
    → AreDistinct counts
    → in_flight_command_total (erase room counts) + get_or (lookup room counts) 0
      ≡ in_flight_command_total counts
unfolding in_flight_command_total erase lookup
total-exit room [] d = omega arith
total-exit room ((j, count) ∷ counts) d = elim (Bool-cases (j == room)) [
  | inl here ↦
      let same : j ≡ room = ground arith in
      rw (here, erase_absent room counts (rw same at d.0)) (omega arith)
  | inr there ↦ rw there (omega (arith, total-exit room counts d.1))
]

differs : (a b : ℕ) → (b == a) ≡ false → (a == b) ≡ false
differs a b h = ground arith

insert-AreDistinct :
    (room n : ℕ) (counts : Counts) → AreDistinct counts → AreDistinct (insert room n counts)
unfolding insert
insert-AreDistinct room n [] d = (lookup-empty room, tt)
insert-AreDistinct room n ((j, count) ∷ counts) d = elim (Bool-cases (j == room)) [
  | inl here ↦ rw here d
  | inr there ↦ rw there (
    lookup-insert room j n counts ∙ rw (differs room j there) d.0,
    insert-AreDistinct room n counts d.1,
  )
]

erase-AreDistinct :
    (room : ℕ) (counts : Counts) → AreDistinct counts → AreDistinct (erase room counts)
unfolding erase
erase-AreDistinct room [] d = tt
erase-AreDistinct room ((j, count) ∷ counts) d = elim (Bool-cases (j == room)) [
  | inl here ↦ rw here (erase-AreDistinct room counts d.1)
  | inr there ↦ rw there (
    lookup-erase room j counts ∙ rw (differs room j there) d.0,
    erase-AreDistinct room counts d.1,
  )
]

enters-Counting :
    (room : ℕ) (counts : Counts) (r : Running)
    → Counting counts r
    → Counting (enter_in_flight_command room counts) (moved (Passage.enters room) r)
unfolding enter_in_flight_command in_flight_commands_for_room
enters-Counting room counts r c = record {
  rooms = λ j.
      let was = c.rooms j in
      rw (lookup-insert room j (get_or (lookup room counts) 0 + 1) counts)
        (elim (Bool-cases (room == j)) [
          | inl here ↦ let same : room ≡ j = ground arith in rw (here, same) (omega arith)
          | inr there ↦ rw there was
        ]);
  sum =
      (let t = total-enter room (get_or (lookup room counts) 0 + 1) counts in
        let s = c.sum in omega arith);
  unique = insert-AreDistinct room _ counts c.unique;
}

exits-Counting :
    (room : ℕ) (counts : Counts) (r : Running)
    → 0 < r.inside room
    → Counting counts r
    → Counting (exit_in_flight_command room counts) (moved (Passage.exits room) r)
unfolding exit_in_flight_command in_flight_commands_for_room
exits-Counting room counts r inside c =
    let was = c.rooms room in
    let s = c.sum in
    let n : ℕ = get_or (lookup room counts) 0 in
    if_keeps (λ d. Counting d (moved (Passage.exits room) r)) (leb n 1)
      (λ last. record {
        rooms = λ j. rw (lookup-erase room j counts) (elim (Bool-cases (room == j)) [
          | inl here ↦
              let same : room ≡ j = ground arith in
              rw (here, ← same) (let one : n ≤ 1 = ground arith in omega arith)
          | inr there ↦ rw there (c.rooms j)
        ]);
        sum =
            (let t = total-exit room counts c.unique in
              let one : n ≤ 1 = ground arith in omega arith);
        unique = erase-AreDistinct room counts c.unique;
      })
      (λ more. record {
        rooms = λ j. rw (lookup-insert room j (n - 1) counts) (elim (Bool-cases (room == j)) [
          | inl here ↦ let same : room ≡ j = ground arith in rw (here, ← same) (omega arith)
          | inr there ↦ rw there (c.rooms j)
        ]);
        sum = (let t = total-enter room (n - 1) counts in omega arith);
        unique = insert-AreDistinct room _ counts c.unique;
      })

-- However the handlers of any number of rooms enter and leave, each leaving once after it entered,
-- the dictionary counts for every room exactly the handlers that are inside, and the total counts
-- them all: the counters implement what runs, with no room's counter disturbed by another's.
pub pass_all-Counting :
    (passages : List Passage) (counts : Counts) (r : Running)
    → Counting counts r
    → AreMatched passages r
    → Counting (pass_all passages counts) (moved_all passages r)
unfolding pass_all pass
pass_all-Counting [] counts r c m = c
pass_all-Counting (Passage.enters room ∷ rest) counts r c m =
    pass_all-Counting rest _ _ (enters-Counting room counts r c) m
pass_all-Counting (Passage.exits room ∷ rest) counts r c m =
    pass_all-Counting rest _ _ (exits-Counting room counts r m.0 c) m.1
