-- ===== src/Transactions/Recent.antt =====
-- How long a receipt is remembered, `_record_command_receipt` and the receipts of
-- `_execute_player_command` of jjk_arena/battle_v2/manager.py.
use fantasy_draft.Base.{
  ℕ, ◌+◌, ◌≤◌, ◌<◌, ◌≡◌, refl, ◌∙◌, inl, inr, Bool, true, false, ◌==◌, ==_refl, ltb, Option, none,
  some, List, [], ◌∷◌, ◌++◌, if◌then◌else◌, arith, length, Bool-cases, Option-cases,
}
use fantasy_draft.Dict.{lookup, insert, erase, lookup-insert, lookup-erase}
use fantasy_draft.Result.{Error, Result, result_keeps}
use fantasy_draft.Invariant.{if_keeps}
use fantasy_draft.Queue.{Skills}
use fantasy_draft.Match.{Live}
use fantasy_draft.Match.Phases.{Setting, expire_phase, expiry_left}
use fantasy_draft.Transactions.{
  Request, Room, Outside, Receipts, max_receipts, move_to_end, evict, record_receipt, put_receipts,
  append_replay, receipts_of, conclude, transact, check_request, execute_new, execute_known,
  execute_expired, check_nonce, execute_player_command,
}
use fantasy_draft.Transactions.Receipts.{lookup-append_last}

-- How many receipts stand behind a nonce's.
abbrev pub newer : ℕ → Receipts → ℕ
newer k [] = 0
newer k ((i, f) ∷ l) = if i == k then length l else newer k l

-- A nonce is known with its fingerprint, and at most `n` receipts are newer.
pub record IsRecent (n k f : ℕ) (l : Receipts) : Type 0 where
  pub known : lookup k l ≡ some f
  pub few : newer k l ≤ n

length-append_last : (x : ℕ × ℕ) (l : Receipts) → length (l ++ x ∷ []) ≡ length l + 1
length-append_last x [] = refl
length-append_last x (y ∷ l) = let rest = length-append_last x l in omega arith

newer-append :
    (k f : ℕ) (x : ℕ × ℕ) (l : Receipts)
    → lookup k l ≡ some f
    → newer k (l ++ x ∷ []) ≡ newer k l + 1
unfolding lookup
newer-append k f x [] h = absurd cc
newer-append k f x ((i, g) ∷ l) h =
    let rest = newer-append k f x l in let size = length-append_last x l in ground arith

length-erase_le : (j : ℕ) (l : Receipts) → length (erase j l) ≤ length l
unfolding erase
length-erase_le j [] = omega arith
length-erase_le j ((i, g) ∷ l) = let rest = length-erase_le j l in ground arith

length-erase-insert : (j f : ℕ) (l : Receipts) → length (erase j (insert j f l)) ≤ length l
unfolding erase insert
length-erase-insert j f [] = rw (==_refl j) (omega arith)
length-erase-insert j f ((i, g) ∷ l) =
    let rest = length-erase-insert j f l in let fewer = length-erase_le j l in ground arith

newer-erase_le : (k j : ℕ) (l : Receipts) → (j == k) ≡ false → newer k (erase j l) ≤ newer k l
unfolding erase
newer-erase_le k j [] ne = omega arith
newer-erase_le k j ((i, g) ∷ l) ne =
    let rest = newer-erase_le k j l ne in let fewer = length-erase_le j l in ground arith

newer-erase-insert :
    (k j f : ℕ) (l : Receipts) → (j == k) ≡ false → newer k (erase j (insert j f l)) ≤ newer k l
unfolding erase insert
newer-erase-insert k j f [] ne = rw (==_refl j) (omega arith)
newer-erase-insert k j f ((i, g) ∷ l) ne =
    let rest = newer-erase-insert k j f l ne in
    let fewer = newer-erase_le k j l ne in let size = length-erase-insert j f l in ground arith

newer-length : (k f : ℕ) (l : Receipts) → lookup k l ≡ some f → newer k l < length l
unfolding lookup
newer-length k f [] h = absurd cc
newer-length k f ((i, g) ∷ l) h = let rest = newer-length k f l in ground arith

-- Eviction takes only what has 128 receipts or more behind it.
evict-IsRecent :
    (n k f : ℕ) (l : Receipts) → n < max_receipts → IsRecent n k f l → IsRecent n k f (evict l)
unfolding lookup evict
evict-IsRecent n k f [] h r = r
evict-IsRecent n k f ((i, g) ∷ l) h r = elim (Bool-cases (ltb max_receipts (length ((i, g) ∷ l)))) [
  | inr fits ↦ rw fits r
  | inl full ↦ elim (Bool-cases (i == k)) [
    | inl here ↦ absurd (let few = (rw here at r.few) in ground arith)
    | inr there ↦
        rw full (
          evict-IsRecent n k f l h
            (record { known = rw there at r.known; few = rw there at r.few }))
  ]
]

move_to_end-IsRecent :
    (n k f j g : ℕ) (l : Receipts)
    → (j == k) ≡ false
    → IsRecent n k f l
    → IsRecent (n + 1) k f (erase j l ++ (j, g) ∷ [])
move_to_end-IsRecent n k f j g l ne r =
    let still : lookup k (erase j l) ≡ some f = rw (lookup-erase j k l, ne) r.known in
    record {
      known = rw (lookup-append_last j k g (erase j l), ne) still;
      few =
          let one = newer-append k f (j, g) (erase j l) still in
          let fewer = newer-erase_le k j l ne in omega (arith, r.few, one, fewer);
    }

record_receipt-IsRecent :
    (n k f j g : ℕ) (l : Receipts)
    → (j == k) ≡ false
    → n + 1 < max_receipts
    → IsRecent n k f l
    → IsRecent (n + 1) k f (record_receipt j g l)
unfolding record_receipt move_to_end
record_receipt-IsRecent n k f j g l ne h r =
    let still : lookup k (erase j (insert j g l)) ≡ some f =
      rw (lookup-erase j k (insert j g l), ne, lookup-insert j k g l, ne) r.known in
    evict-IsRecent (n + 1) k f (erase j (insert j g l) ++ (j, g) ∷ []) h (record {
      known = rw (lookup-append_last j k g (erase j (insert j g l)), ne) still;
      few =
          let one = newer-append k f (j, g) (erase j (insert j g l)) still in
          let fewer = newer-erase-insert k j g l ne in omega (arith, r.few, one, fewer);
    })

newest : (k f : ℕ) (l : Receipts) → lookup k l ≡ none → IsRecent 0 k f (l ++ (k, f) ∷ [])
unfolding lookup
newest k f [] h = record { known = rw (==_refl k) refl; few = rw (==_refl k) (omega arith) }
newest k f ((i, g) ∷ l) h = elim (Bool-cases (i == k)) [
  | inl here ↦ absurd (let e = (rw (lookup, here) at h) in cc)
  | inr there ↦
      let rest = newest k f l (rw (lookup, there) at h) in
      record { known = rw there rest.known; few = rw there rest.few }
]

renewed : (k f : ℕ) (l : Receipts) → IsRecent 0 k f (erase k l ++ (k, f) ∷ [])
renewed k f l = newest k f (erase k l) (lookup-erase k k l ∙ rw (==_refl k) refl)

-- The receipt that is recorded is the newest.
pub record_receipt-newest : (k f : ℕ) (l : Receipts) → IsRecent 0 k f (record_receipt k f l)
unfolding record_receipt move_to_end
record_receipt-newest k f l = evict-IsRecent 0 k f _ (omega arith) (renewed k f (insert k f l))

moved-IsRecent :
    (n k f j g : ℕ) (l : Receipts)
    → lookup j l ≡ some g
    → IsRecent n k f l
    → IsRecent (n + 1) k f (erase j l ++ (j, g) ∷ [])
moved-IsRecent n k f j g l found r = elim (Bool-cases (j == k)) [
  | inl here ↦
      let e : j ≡ k = ground arith in
      let same : g ≡ f =
        (let known = r.known in let there : lookup k l ≡ some g = rw e at found in cc) in
      let last = renewed k f l in
      rw (e, same) (record { known = last.known; few = omega (arith, last.few) })
  | inr there ↦ move_to_end-IsRecent n k f j g l there r
]

IsRecent-later : (n k f : ℕ) (l : Receipts) → IsRecent n k f l → IsRecent (n + 1) k f l
IsRecent-later n k f l r = record { known = r.known; few = omega (arith, r.few) }

-- A delivery of a command, with whatever has happened to the match since the one before.
pub record Delivery : Type 0 where
  pub meanwhile : Live → Live
  pub setting : Setting
  pub skills : Skills
  pub request : Request

abbrev pub deliver : Outside → Delivery → Room → Room
deliver outside d room =
    (execute_player_command outside d.setting d.skills d.request
      (record room { live = d.meanwhile room.live })).0

abbrev pub deliver_all : Outside → List Delivery → Room → Room
deliver_all outside [] room = room
deliver_all outside (d ∷ ds) room = deliver_all outside ds (deliver outside d room)

module _ (outside : Outside) (request : Request) where
  -- The room remembers the request, with at most `n` newer receipts of its player.
  abbrev pub IsKept : ℕ → Room → Type 0
  IsKept n room =
      IsRecent n request.nonce (outside.fingerprint request.command) (receipts_of request room)

  module _ (n : ℕ) (few : n + 1 < max_receipts) (setting : Setting) (skills : Skills)
      (other : Request) where
    put-IsKept :
        (receipts : Receipts) (room : Room)
        → ((other.player_id == request.player_id) ≡ true
            → IsRecent (n + 1) request.nonce (outside.fingerprint request.command) receipts)
        → IsKept n room
        → IsKept (n + 1) (put_receipts other receipts room)
    unfolding put_receipts
    put-IsKept receipts room same kept = elim (Bool-cases (other.player_id == request.player_id)) [
      | inl mine ↦
          rw (lookup-insert other.player_id request.player_id receipts room.receipts, mine)
            (same mine)
      | inr foreign ↦
          rw (lookup-insert other.player_id request.player_id receipts room.receipts, foreign)
            (IsRecent-later n request.nonce _ _ kept)
    ]

    abbrev Kept : Room × Result Bool → Type 0
    Kept left = IsKept (n + 1) left.0

    -- The same receipts, one delivery later.
    still : (room : Room) → IsKept n room → IsKept (n + 1) room
    still room kept = IsRecent-later n request.nonce _ _ kept

    -- A player has one list of receipts.
    same_receipts :
        (room : Room)
        → (other.player_id == request.player_id) ≡ true
        → receipts_of other room ≡ receipts_of request room
    same_receipts room same =
        let e : other.player_id ≡ request.player_id = ground arith in rw e refl

    conclude-Kept :
        (room : Room) (left : Live × Option Error)
        → lookup other.nonce (receipts_of other room) ≡ none
        → IsKept n room
        → Kept (conclude outside other room left)
    unfolding conclude
    conclude-Kept room (after, some e) fresh kept = still room kept
    conclude-Kept room (after, none) fresh kept =
        put-IsKept _
          (record room {
            live = after;
            replay = append_replay outside other after.state room.replay;
          })
          (λ same.
            let one = same_receipts room same in
            rw one (
              record_receipt-IsRecent n request.nonce (outside.fingerprint request.command)
                other.nonce (outside.fingerprint other.command) (receipts_of request room)
                (elim (Bool-cases (other.nonce == request.nonce)) [
                  | inl here ↦
                      let e : other.nonce ≡ request.nonce = ground arith in
                      let unknown : lookup request.nonce (receipts_of request room) ≡ none =
                        rw (← e, ← one) fresh in
                      absurd (let known = kept.known in cc)
                  | inr there ↦ there
                ])
                few kept))
          kept

    known-Kept :
        (room : Room) (previous : ℕ)
        → lookup other.nonce (receipts_of other room) ≡ some previous
        → IsKept n room
        → Kept (execute_known outside other previous room)
    unfolding execute_known move_to_end
    known-Kept room previous found kept =
        if_keeps Kept (previous == outside.fingerprint other.command)
          (λ _.
            put-IsKept _ room
              (λ same.
                let one = same_receipts room same in
                rw one (
                  moved-IsRecent n request.nonce (outside.fingerprint request.command) other.nonce
                    previous (receipts_of request room) (rw one at found) kept))
              kept)
          (λ _. still room kept)

    expired-Kept :
        (room : Room) → IsKept n room → Kept (execute_expired outside setting skills other room)
    unfolding execute_expired execute_new transact
    expired-Kept room kept = elim (Option-cases (lookup other.nonce (receipts_of other room))) [
      | inl fresh ↦
          rw (execute_expired, fresh)
            (result_keeps Kept (check_request other room.live.state) (λ _ _. still room kept)
              (λ _ _. conclude-Kept room _ fresh kept))
      | inr (previous, found) ↦ rw (execute_expired, found) (known-Kept room previous found kept)
    ]

    execute-Kept :
        (room : Room)
        → IsKept n room
        → Kept (execute_player_command outside setting skills other room)
    unfolding execute_player_command
    execute-Kept room kept =
        result_keeps Kept (check_nonce outside other.nonce) (λ _ _. still room kept)
          λ _ _.
            result_keeps Kept (expire_phase setting room.live)
              (λ _ _. still (record room { live = expiry_left setting room.live }) kept)
              λ ran _. expired-Kept (record room { live = ran.0 }) kept

  -- A receipt outlives 127 further deliveries.
  pub deliver_all-IsKept :
      (n : ℕ) (ds : List Delivery) (room : Room)
      → n + length ds < max_receipts
      → IsKept n room
      → IsKept (n + length ds) (deliver_all outside ds room)
  deliver_all-IsKept n [] room few kept = record {
    known = kept.known;
    few = omega (arith, kept.few);
  }
  deliver_all-IsKept n (d ∷ ds) room few kept =
      let one : IsKept (n + 1) (deliver outside d room) =
        execute-Kept n (omega arith) d.setting d.skills d.request
          (record room { live = d.meanwhile room.live }) kept in
      let all = deliver_all-IsKept (n + 1) ds (deliver outside d room) (omega arith) one in
      record { known = all.known; few = omega (arith, all.few) }
