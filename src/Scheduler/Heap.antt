-- ===== src/Scheduler/Heap.antt =====
-- The heap of jjk_arena/battle_v2/timer_scheduler.py as a sorted list, and the stale entries in it.
use fantasy_draft.Base.{
  ℕ, ◌≤◌, ◌≡◌, refl, inl, inr, Bool, true, false, ◌&&◌, ◌||◌, Option, none, some, List, [], ◌∷◌,
  ◌==◌, arith, All, any, Bool-cases,
}
use fantasy_draft.Dict.{Dict, lookup}
use fantasy_draft.Scheduler.{Entry, before, heappush, is_room, is_live, skip_stale}

abbrev pub NotBefore : ℕ → List Entry → Type 0
NotBefore d heap = All (λ x. d ≤ x.deadline) heap

abbrev pub Sorted : List Entry → Type 0
Sorted [] = Unit
Sorted (e ∷ heap) = NotBefore e.deadline heap × Sorted heap

unfoldable pub is_entry : ℕ → ℕ → Entry → Bool
is_entry room_id d e = e.room_id == room_id && e.deadline == d

abbrev pub has_entry : ℕ → ℕ → List Entry → Bool
has_entry room_id d heap = any (is_entry room_id d) heap

pub NotBefore-push :
    (d : ℕ) (e : Entry) (heap : List Entry)
    → d ≤ e.deadline
    → NotBefore d heap
    → NotBefore d (heappush e heap)
unfolding heappush
NotBefore-push d e [] le h = (le, tt)
NotBefore-push d e (x ∷ heap) le (first, rest) = elim (Bool-cases (before e x)) [
  | inl b ↦ rw b (le, (first, rest))
  | inr b ↦ rw b (first, NotBefore-push d e heap le rest)
]

NotBefore-le : (d d' : ℕ) (heap : List Entry) → d ≤ d' → NotBefore d' heap → NotBefore d heap
NotBefore-le d d' [] le h = tt
NotBefore-le d d' (x ∷ heap) le (first, rest) = (omega arith, NotBefore-le d d' heap le rest)

before→le : (e x : Entry) → before e x ≡ true → e.deadline ≤ x.deadline
unfolding before
before→le e x h = ground arith

not_before→le : (e x : Entry) → before e x ≡ false → x.deadline ≤ e.deadline
unfolding before
not_before→le e x h = ground arith

pub heappush-Sorted : (e : Entry) (heap : List Entry) → Sorted heap → Sorted (heappush e heap)
unfolding heappush
heappush-Sorted e [] h = (tt, tt)
heappush-Sorted e (x ∷ heap) (first, rest) = elim (Bool-cases (before e x)) [
  | inl b ↦ rw b (
    (before→le e x b, NotBefore-le e.deadline x.deadline heap (before→le e x b) first),
    (first, rest),
  )
  | inr b ↦
      rw b
        (NotBefore-push x.deadline e heap (not_before→le e x b) first, heappush-Sorted e heap rest)
]

pub has_entry-push :
    (room_id d : ℕ) (e : Entry) (heap : List Entry)
    → has_entry room_id d (heappush e heap) ≡ (is_entry room_id d e || has_entry room_id d heap)
unfolding heappush
has_entry-push room_id d e [] = refl
has_entry-push room_id d e (x ∷ heap) = ground (arith, has_entry-push room_id d e heap)

pub is_room_iff : (o : Option ℕ) (n : ℕ) → is_room o n ≡ true → o ≡ some n
unfolding is_room
is_room_iff none n h = cc
is_room_iff (some m) n h = ground arith

pub skip_stale-Sorted :
    (deadlines : Dict ℕ) (heap : List Entry) → Sorted heap → Sorted (skip_stale deadlines heap)
unfolding skip_stale
skip_stale-Sorted deadlines [] h = tt
skip_stale-Sorted deadlines (e ∷ heap) h = elim (Bool-cases (is_live deadlines e)) [
  | inl live ↦ rw live h
  | inr stale ↦ rw stale (skip_stale-Sorted deadlines heap h.1)
]

-- The entry of a deadline that stands is live.
entry-is_live :
    (deadlines : Dict ℕ) (room_id d : ℕ) (e : Entry)
    → lookup room_id deadlines ≡ some d
    → is_entry room_id d e ≡ true
    → is_live deadlines e ≡ true
unfolding is_live is_entry is_room
entry-is_live deadlines room_id d e found h =
    let same : e.room_id ≡ room_id = ground arith in rw (same, found) (ground arith)

pub has_entry-skip :
    (deadlines : Dict ℕ) (room_id d : ℕ) (heap : List Entry)
    → lookup room_id deadlines ≡ some d
    → has_entry room_id d heap ≡ true
    → has_entry room_id d (skip_stale deadlines heap) ≡ true
unfolding skip_stale
has_entry-skip deadlines room_id d [] found h = h
has_entry-skip deadlines room_id d (e ∷ heap) found h = elim (Bool-cases (is_live deadlines e)) [
  | inl live ↦ rw live h
  | inr stale ↦ rw stale (elim (Bool-cases (is_entry room_id d e)) [
    | inl here ↦ absurd (let live = entry-is_live deadlines room_id d e found here in cc)
    | inr other ↦ has_entry-skip deadlines room_id d heap found (rw other at h)
  ])
]

-- The first entry that is left is live.
pub skip_stale-first :
    (deadlines : Dict ℕ) (heap : List Entry) (e : Entry) (rest : List Entry)
    → skip_stale deadlines heap ≡ e ∷ rest
    → is_live deadlines e ≡ true
unfolding skip_stale
skip_stale-first deadlines [] e rest h = cc
skip_stale-first deadlines (x ∷ heap) e rest h = elim (Bool-cases (is_live deadlines x)) [
  | inl live ↦ let same = (rw live at h) in cc
  | inr stale ↦ skip_stale-first deadlines heap e rest (rw stale at h)
]
