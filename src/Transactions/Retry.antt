-- ===== src/Transactions/Retry.antt =====
-- A retried command is not run twice, `_execute_player_command` of jjk_arena/battle_v2/manager.py.
use fantasy_draft.Base.{
  ℕ, ◌≡◌, refl, ap, ◌∙◌, Bool, true, false, ◌==◌, ==_refl, Option, none, some, List, ◌≤◌, length,
  arith,
}
use fantasy_draft.Int.{ℤ}
use fantasy_draft.Dict.{lookup, lookup-insert}
use fantasy_draft.Result.{Error, Result, ok, result_keeps}
use fantasy_draft.Invariant.{if_keeps, maybe_keeps}
use fantasy_draft.Queue.{Skills}
use fantasy_draft.Match.{Live}
use fantasy_draft.Match.Phases.{Setting, expire_phase}
use fantasy_draft.Transactions.{
  Request, Room, Outside, Receipts, move_to_end, record_receipt, put_receipts, append_replay,
  receipts_of, conclude, transact, check_request, execute_new, execute_known, execute_expired,
  check_nonce, execute_player_command,
}
use fantasy_draft.Transactions.Receipts.{lookup-move_to_end}
use fantasy_draft.Transactions.Recent.{
  IsKept, Delivery, deliver_all, deliver_all-IsKept, record_receipt-newest,
}

put_back :
    (request : Request) (receipts : Receipts) (room : Room)
    → receipts_of request (put_receipts request receipts room) ≡ receipts
unfolding put_receipts
put_back request receipts room =
    rw
      (
        lookup-insert request.player_id request.player_id receipts room.receipts,
        ==_refl request.player_id,
      )
      refl

-- What a second delivery of a request leaves: the match as it was, the replay as it was, and every
-- receipt still known.
pub record Repeated (request : Request) (live : Live) (before : Room) (left : Room × Result Bool)
    : Type 0 where
  pub safe : left.1 ≡ ok true
  pub same_live : left.0.live ≡ live
  pub same_replay : left.0.replay ≡ before.replay
  pub same_receipts :
      (nonce : ℕ)
      → lookup nonce (receipts_of request left.0) ≡ lookup nonce (receipts_of request before)

module _ (outside : Outside) (setting : Setting) (skills : Skills) (request : Request) where
  -- A command that was run is remembered, if its nonce is one.
  abbrev Runs : Room × Result Bool → Type 0
  Runs left =
      left.1 ≡ ok false
      → (check_nonce outside request.nonce ≡ ok tt) × IsKept outside request 0 left.0

  conclude-IsKept :
      (room : Room) (left : Live × Option Error)
      → (conclude outside request room left).1 ≡ ok false
      → IsKept outside request 0 (conclude outside request room left).0
  unfolding conclude
  conclude-IsKept room (after, some e) h = cc
  conclude-IsKept room (after, none) h =
      rw
        (put_back request
          (record_receipt request.nonce (outside.fingerprint request.command)
            (receipts_of request room))
          (record room {
            live = after;
            replay = append_replay outside request after.state room.replay;
          }))
        (record_receipt-newest request.nonce (outside.fingerprint request.command)
          (receipts_of request room))

  execute_expired-IsKept :
      (room : Room)
      → (execute_expired outside setting skills request room).1 ≡ ok false
      → IsKept outside request 0 (execute_expired outside setting skills request room).0
  unfolding execute_expired execute_new execute_known transact
  execute_expired-IsKept room =
      let P : Room × Result Bool → Type 0 =
        λ left. left.1 ≡ ok false → IsKept outside request 0 left.0 in
      maybe_keeps P (lookup request.nonce (receipts_of request room))
        (result_keeps P (check_request request room.live.state) (λ error _ h. absurd cc)
          λ x _. conclude-IsKept room _)
        λ previous _.
          if_keeps P (previous == outside.fingerprint request.command) (λ _ h. absurd cc)
            (λ _ h. absurd cc)

  run_remembers : (room : Room) → Runs (execute_player_command outside setting skills request room)
  unfolding execute_player_command
  run_remembers room =
      result_keeps Runs (check_nonce outside request.nonce) (λ e _ h. absurd cc)
        λ x named.
          result_keeps Runs (expire_phase setting room.live) (λ e _ h. absurd cc)
            λ ran _ h. (named, execute_expired-IsKept (record room { live = ran.0 }) h)

repeats :
    (outside : Outside) (later : Setting) (skills : Skills) (request : Request) (after : Room)
    {ran : Live × Bool}
    → check_nonce outside request.nonce ≡ ok tt
    → lookup request.nonce (receipts_of request after) ≡ some (outside.fingerprint request.command)
    → expire_phase later after.live ≡ ok ran
    → Repeated request ran.0 after (execute_player_command outside later skills request after)
unfolding execute_player_command execute_expired execute_known put_receipts
repeats outside later skills request after {ran} named known expired =
    let fingerprint = outside.fingerprint request.command in
    rw
      (
        execute_player_command,
        named,
        expired,
        execute_expired,
        known,
        execute_known,
        ==_refl fingerprint,
      )
      (record {
        safe = refl;
        same_live = refl;
        same_replay = refl;
        same_receipts = λ nonce.
            ap (lookup nonce) (
              put_back request (move_to_end request.nonce fingerprint (receipts_of request after))
                (record after { live = ran.0 }))
            ∙ lookup-move_to_end request.nonce fingerprint nonce (receipts_of request after) known;
      })

-- A request that was run is not run again, if at most 127 commands (of anyone, accepted or not, with
-- whatever else happens to the match) were delivered in between: delivered a second time, whatever
-- revision it claims then, it is answered as a safe retry, and but for the expiry of a phase whose
-- time is over nothing happens to the match, the replay or what is remembered.
pub execute_again :
    (outside : Outside) (setting later : Setting) (skills : Skills) (request : Request)
    (claimed : Option ℤ) (between : List Delivery) (room : Room) {ran : Live × Bool}
    → (execute_player_command outside setting skills request room).1 ≡ ok false
    → length between ≤ 127
    → let after =
        deliver_all outside between
          (execute_player_command outside setting skills request room).0 in
      let again = record request { state_revision = claimed } in
      expire_phase later after.live ≡ ok ran
      → Repeated again ran.0 after (execute_player_command outside later skills again after)
execute_again outside setting later skills request claimed between room h few expired =
    let (named, kept) = run_remembers outside setting skills request room h in
    let still =
      deliver_all-IsKept outside request 0 between
        (execute_player_command outside setting skills request room).0 (omega arith) kept in
    repeats outside later skills (record request { state_revision = claimed }) _ named still.known
      expired
