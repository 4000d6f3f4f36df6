-- ===== src/Examples/Commands.antt =====
-- Commands, receipts and commands in flight at concrete inputs.
use fantasy_draft.Base.{◌≤◌, ◌≡◌, refl, false, none, some, List, [], ◌∷◌, arith, length}
use fantasy_draft.Int.{pos}
use fantasy_draft.Dict.{lookup}
use fantasy_draft.Result.{ok, err, hash_failed}
use fantasy_draft.Match.{Live}
use fantasy_draft.Match.Phases.{Setting, expire_phase}
use fantasy_draft.Transactions.{
  Command, Request, Room, Outside, max_receipts, record_receipt, execute_player_command,
}
use fantasy_draft.Transactions.Receipts.{record_receipt_lem}
use fantasy_draft.Transactions.InFlight.{
  Passage, Running, pass_all, moved_all, AreMatched, Counting, pass_all-Counting,
}
use fantasy_draft.Transactions.Rollback.{IsHushed, IsUndone, execute_player_command_failed}
use fantasy_draft.Transactions.Recent.{Delivery, deliver_all}
use fantasy_draft.Transactions.Retry.{Repeated, execute_again}
use fantasy_draft.Examples.Matches.{fresh, late}

abbrev early : Setting
early = record late { now = 5000 }

abbrev outside : Outside
outside = record {
  text_length = λ n. 3;
  fingerprint = λ c. 9;
  state_hash = λ s. some 3;
  resolve = λ battle player_id skills. ok battle;
  cpu_turn = λ player_id live. ok live;
}

abbrev without_hash : Outside
without_hash = record outside { state_hash = λ s. none }

without_hash-IsHushed : IsHushed without_hash
without_hash-IsHushed = record { cpu = λ before player_id live held. held }

abbrev resigns : Request
resigns = record {
  player_id = 2;
  command = Command.surrender;
  state_revision = some (pos 0);
  nonce = 4;
}

abbrev room : Room
room = record { live = fresh; replay = some []; receipts = [] }

-- The surrender ends the match, and then the hash of the state cannot be computed.
hash_fails : (execute_player_command without_hash early [] resigns room).1 ≡ err hash_failed
unfolding execute_player_command expire_phase fantasy_draft.Timers.phase_timer_expired lookup
    fantasy_draft.Match.Finish.defer_finished_callbacks fantasy_draft.Match.Commands.surrender
    fantasy_draft.Match.Ledger.opponent_of fantasy_draft.Turn.player_ids
hash_fails = refl

execute_player_command_failed_example :
    IsUndone early room hash_failed (execute_player_command without_hash early [] resigns room).0
execute_player_command_failed_example =
    execute_player_command_failed without_hash without_hash-IsHushed early [] resigns room refl
      hash_fails

abbrev after : Room
after = (execute_player_command outside early [] resigns room).0

runs : (execute_player_command outside early [] resigns room).1 ≡ ok false
unfolding execute_player_command expire_phase fantasy_draft.Timers.phase_timer_expired lookup
    fantasy_draft.Match.Finish.defer_finished_callbacks fantasy_draft.Match.Commands.surrender
    fantasy_draft.Match.Ledger.opponent_of fantasy_draft.Turn.player_ids
runs = refl

-- The match is over and announced.
announced : after.live.callbacks.published ≡ 7 ∷ []
unfolding execute_player_command expire_phase fantasy_draft.Timers.phase_timer_expired lookup
    fantasy_draft.Match.Finish.defer_finished_callbacks fantasy_draft.Match.Commands.surrender
    fantasy_draft.Match.Ledger.opponent_of fantasy_draft.Turn.player_ids
    fantasy_draft.Match.Finish.finish_match
announced = refl

-- The other player asks for a cancellation in the meantime, which is refused.
abbrev refused : Delivery
refused = record {
  meanwhile = λ live. live;
  setting = early;
  skills = [];
  request = record {
    player_id = 1;
    command = Command.cancel_queue;
    state_revision = none;
    nonce = 5;
  };
}

abbrev afterwards : Room
afterwards = deliver_all outside (refused ∷ []) after

nothing_expires : expire_phase late afterwards.live ≡ ok (afterwards.live, false)
unfolding execute_player_command expire_phase fantasy_draft.Timers.phase_timer_expired lookup
    fantasy_draft.Match.Finish.defer_finished_callbacks fantasy_draft.Match.Commands.surrender
    fantasy_draft.Match.Ledger.opponent_of fantasy_draft.Turn.player_ids
    fantasy_draft.Match.Finish.finish_match fantasy_draft.Dict.insert
nothing_expires = refl

execute_again_example :
    let again = record resigns { state_revision = none } in
    Repeated again afterwards.live afterwards
      (execute_player_command outside late [] again afterwards)
execute_again_example =
    execute_again outside early late [] resigns none (refused ∷ []) room runs (omega arith)
      nothing_expires

record_receipt_lem_example :
    (lookup 4 (record_receipt 4 9 ((3, 8) ∷ [])) ≡ some 9)
    × (length (record_receipt 4 9 ((3, 8) ∷ [])) ≤ max_receipts)
record_receipt_lem_example = record_receipt_lem 4 9 ((3, 8) ∷ [])

abbrev nobody : Running
nobody = record { inside = λ room. 0; total = 0 }

nobody-Counting : Counting [] nobody
unfolding fantasy_draft.Transactions.InFlight.in_flight_commands_for_room lookup
    fantasy_draft.Transactions.InFlight.in_flight_command_total
nobody-Counting = record { rooms = λ room. refl; sum = refl; unique = tt }

abbrev two_rooms_pass : List Passage
two_rooms_pass = Passage.enters 6 ∷ Passage.enters 7 ∷ Passage.exits 6 ∷ Passage.enters 7 ∷ []

two_rooms-AreMatched : AreMatched two_rooms_pass nobody
two_rooms-AreMatched = (omega arith, tt)

pass_all-Counting_example : Counting (pass_all two_rooms_pass []) (moved_all two_rooms_pass nobody)
pass_all-Counting_example =
    pass_all-Counting two_rooms_pass [] nobody nobody-Counting two_rooms-AreMatched
