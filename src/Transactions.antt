-- ===== src/Transactions.antt =====
-- The versioned commands of players, `execute_player_command` of jjk_arena/battle_v2/manager.py, for
-- one room of classic matches with its lock held. The proofs stand in the children.
pub mod Receipts
pub mod InFlight
pub mod Rollback
pub mod Recent
pub mod Retry
use fantasy_draft.Base.{
  ℕ, ◌+◌, ◌≡◌, Bool, true, false, not, Option, none, some, List, [], ◌∷◌, ◌++◌, if◌then◌else◌, ◌==◌,
  ltb, length, get_or,
}
use fantasy_draft.Int.{ℤ, pos, ltb_ℤ, eqb_ℤ}
use fantasy_draft.Dict.{Dict, lookup, insert, erase}
use fantasy_draft.Result.{
  Error, Result, ok, err, ◌>>=◌, ◌>>◌, raise_if, match_finished, match_paused, nonce_required,
  nonce_too_long, nonce_reused, bad_revision, stale_revision, unknown_command, hash_failed,
}
use fantasy_draft.Models.{EnergyType, PendingAction, BattleState}
use fantasy_draft.Queue.{Skills}
use fantasy_draft.Match.{MatchState, Live}
use fantasy_draft.Match.Finish.{is_finished, Body, defer_finished_callbacks}
use fantasy_draft.Match.Phases.{Setting, expire_phase, expiry_left}
use fantasy_draft.Match.Commands
use fantasy_draft.Match.Commands.{confirm_turn}

-- The texts of commands, each with what is read from its payload.
pub data Command : Type 0 where
  submit_plan : List PendingAction → Command
  update_queue : List ℕ → Dict (List (Option EnergyType)) → Command
  confirm_queue cancel_queue end_turn surrender cpu_turn : Command
  convert_energy : List (Option EnergyType) → Option EnergyType → Command
  other : Command

pub record Request : Type 0 where
  pub player_id : ℕ
  pub command : Command
  pub state_revision : Option ℤ
  pub nonce : ℕ

-- A player's nonces with the fingerprints of their commands, an `OrderedDict`.
abbrev pub Receipts : Type 0
Receipts = Dict ℕ

-- An entry of the replay's list of commands.
pub record ReplayEntry : Type 0 where
  pub request : Request
  pub expected_state_hash : ℕ

-- What the manager keeps for a room and a command may change. No replay is `none`.
pub record Room : Type 0 where
  pub live : Live
  pub replay : Option (List ReplayEntry)
  pub receipts : Dict Receipts

-- What comes from outside: the length of the text that a number stands for, the fingerprint of a
-- command with its payload, the hash of a state, if it can be computed, and the two commands whose
-- skills are resolved.
pub record Outside : Type 0 where
  pub text_length : ℕ → ℕ
  pub fingerprint : Command → ℕ
  pub state_hash : MatchState → Option ℕ
  pub resolve : BattleState → ℕ → Skills → Result BattleState
  pub cpu_turn : ℕ → Live → Result Live

-- `receipts.move_to_end(nonce)`
unfoldable pub move_to_end : ℕ → ℕ → Receipts → Receipts
move_to_end nonce fingerprint receipts = erase nonce receipts ++ (nonce, fingerprint) ∷ []

abbrev pub max_receipts : ℕ
max_receipts = 128

-- `while len(receipts) > 128: receipts.popitem(last=False)`
unfoldable pub evict : Receipts → Receipts
evict [] = []
evict (r ∷ rest) =
    let later = evict rest in if ltb max_receipts (length (r ∷ rest)) then later else r ∷ rest

unfoldable pub record_receipt : ℕ → ℕ → Receipts → Receipts
unfolding move_to_end evict
record_receipt nonce fingerprint receipts =
    evict (move_to_end nonce fingerprint (insert nonce fingerprint receipts))

-- A call that gives what it left, where it did not raise.
abbrev pub attempt : (Live → Result Live) → Body
attempt run live = elim (run live) [ ok after ↦ (after, none) | err e ↦ (live, some e) ]

abbrev pub on_state : (MatchState → Result MatchState) → Live → Result Live
on_state run live = run live.state >>= λ state. ok (record live { state = state })

abbrev raised : Result (Unit {0}) → Option Error
raised (ok x) = none
raised (err e) = some e

-- A command that leaves a state even where it raises.
abbrev pub leaving : (MatchState → MatchState × Result (Unit {0})) → Body
leaving run live = let left = run live.state in (record live { state = left.0 }, raised left.1)

-- Every command but `surrender` expires the phase first.
unfoldable pub after_expiry : Setting → Body → Body
unfolding expiry_left
after_expiry setting body live = elim (expire_phase setting live) [
  | err e ↦ (expiry_left setting live, some e)
  | ok ran ↦ body ran.0
]

-- The chain of tests on the command's text.
unfoldable pub dispatch : Outside → Setting → Skills → ℕ → Command → Body
dispatch outside setting skills player_id (submit_plan parsed) =
    after_expiry setting (leaving (Commands.submit_plan player_id parsed skills))
dispatch outside setting skills player_id (update_queue order pays) =
    after_expiry setting (leaving (Commands.update_queue player_id order pays skills))
dispatch outside setting skills player_id confirm_queue =
    after_expiry setting (attempt (confirm_turn outside.resolve setting player_id skills))
dispatch outside setting skills player_id cancel_queue =
    after_expiry setting (attempt (on_state (Commands.cancel_queue player_id)))
dispatch outside setting skills player_id (convert_energy sources target) =
    after_expiry setting (attempt (on_state (Commands.convert_energy player_id sources target)))
dispatch outside setting skills player_id end_turn =
    after_expiry setting (attempt (Commands.end_turn setting player_id))
dispatch outside setting skills player_id surrender = attempt (Commands.surrender player_id)
dispatch outside setting skills player_id cpu_turn =
    after_expiry setting (attempt (outside.cpu_turn player_id))
dispatch outside setting skills player_id other = λ live. (live, some unknown_command)

-- The end of the block: the revision, and the hash that the replay takes.
unfoldable pub advance :
    Outside → Option (List ReplayEntry) → Live × Option Error → Live × Option Error
advance outside replay (live, some e) = (live, some e)
advance outside none (live, none) = (
  record live { state = record live.state { state_revision = live.state.state_revision + 1 } },
  none,
)
advance outside (some commands) (live, none) =
    let state = record live.state { state_revision = live.state.state_revision + 1 } in
    elim (outside.state_hash state) [
      | none ↦ (record live { state = state }, some hash_failed)
      | some hash ↦ (record live { state = state }, none)
    ]

unfoldable pub append_replay :
    Outside → Request → MatchState → Option (List ReplayEntry) → Option (List ReplayEntry)
append_replay outside request state none = none
append_replay outside request state (some commands) = some (
    commands
    ++ record { request = request; expected_state_hash = get_or (outside.state_hash state) 0 } ∷ [])

-- `self.command_receipts...setdefault(player_id, OrderedDict())`
abbrev pub receipts_of : Request → Room → Receipts
receipts_of request room = get_or (lookup request.player_id room.receipts) []

unfoldable pub put_receipts : Request → Receipts → Room → Room
put_receipts request receipts room = record room {
  receipts = insert request.player_id receipts room.receipts;
}

-- What the block left is kept, or the room gets its snapshot back, but for the callbacks.
unfoldable pub conclude : Outside → Request → Room → Live × Option Error → Room × Result Bool
unfolding append_replay put_receipts record_receipt
conclude outside request room (after, some e) =
    (record room { live = record after { state = room.live.state } }, err e)
conclude outside request room (after, none) = (
  put_receipts request
      (record_receipt request.nonce (outside.fingerprint request.command)
        (receipts_of request room))
      (record room {
        live = after;
        replay = append_replay outside request after.state room.replay;
      }),
  ok false,
)

unfoldable pub transact : Outside → Setting → Skills → Request → Room → Room × Result Bool
unfolding conclude advance dispatch
transact outside setting skills request room = conclude outside request room (
    defer_finished_callbacks
      (λ live.
        advance outside room.replay
          (dispatch outside setting skills request.player_id request.command live))
      room.live)

-- No integer, or one below 0, is refused; so is one that is not the state's.
unfoldable pub check_revision : Option ℤ → MatchState → Result (Unit {0})
check_revision none state = err bad_revision
check_revision (some revision) state = do
  raise_if (ltb_ℤ revision (pos 0)) bad_revision
  raise_if (not (eqb_ℤ revision (pos state.state_revision))) stale_revision

-- The guards of a new command.
unfoldable pub check_request : Request → MatchState → Result (Unit {0})
check_request request state = do
  raise_if (is_finished state) match_finished
  raise_if state.paused match_paused
  check_revision request.state_revision state

-- Through the receipts: a known nonce repeats nothing.
unfoldable pub execute_new : Outside → Setting → Skills → Request → Room → Room × Result Bool
unfolding check_request check_revision transact
execute_new outside setting skills request room = elim (check_request request room.live.state) [
  | err e ↦ (room, err e)
  | ok x ↦ transact outside setting skills request room
]

unfoldable pub execute_known : Outside → Request → ℕ → Room → Room × Result Bool
unfolding put_receipts move_to_end
execute_known outside request previous room =
    if previous == outside.fingerprint request.command
    then (
      put_receipts request (move_to_end request.nonce previous (receipts_of request room)) room,
      ok true,
    )
    else (room, err nonce_reused)

unfoldable pub execute_expired : Outside → Setting → Skills → Request → Room → Room × Result Bool
unfolding execute_new execute_known
execute_expired outside setting skills request room =
    elim (lookup request.nonce (receipts_of request room)) [
      | some previous ↦ execute_known outside request previous room
      | none ↦ execute_new outside setting skills request room
    ]

unfoldable pub check_nonce : Outside → ℕ → Result (Unit {0})
check_nonce outside nonce = do
  raise_if (nonce == 0) nonce_required
  raise_if (ltb 64 (outside.text_length nonce)) nonce_too_long

-- `_execute_player_command`. Where the expiry of the phase raises, its changes stay.
unfoldable pub execute_player_command :
    Outside → Setting → Skills → Request → Room → Room × Result Bool
unfolding execute_expired check_nonce expiry_left
execute_player_command outside setting skills request room =
    elim (check_nonce outside request.nonce) [
      | err e ↦ (room, err e)
      | ok x ↦ elim (expire_phase setting room.live) [
        | err e ↦ (record room { live = expiry_left setting room.live }, err e)
        | ok ran ↦ execute_expired outside setting skills request (record room { live = ran.0 })
      ]
    ]
