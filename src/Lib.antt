-- ===== src/Lib.antt =====
-- A verification library for the Battle v2 engine of the JJK arena, jjk_arena/battle_v2/.
--
-- A battle is a `BattleState`: two players with teams of characters, energies, queued actions and
-- an event log. A player queues skills, the queue is validated and paid for as a whole, resolved in
-- order, and the end of the turn applies recurring statuses, ticks clocks and looks for a winner. A
-- manager keeps the match around the battle: absences, timeouts, limits of turns and the end, with
-- one announcement of the result. It runs a player's command as a transaction, with a receipt by
-- which a repeated command is known. Around it stand the rooms' phase timers, the scheduler that
-- wakes them up, the resume credentials of players, the outbox from which workers settle the
-- missions of finished matches, and the gate that an operator asks before stopping the server.
--
-- Which file models what:
--   * Models, Models/Enums, Models/Keys, Models/Records: jjk_arena/battle_v2/models.py. Identifiers
--     and texts that are only compared are numbers, 0 the empty one. A `payload` dict is a record of
--     partial functions, one for each family of keys.
--   * Energy: jjk_arena/battle_v2/energy.py, by the same function names. `random.Random.choice` is a
--     parameter.
--   * Conditions: jjk_arena/battle_v2/conditions.py.
--   * Damage: apply_damage, damage bonuses, payload conditions and destructible defense of
--     jjk_arena/battle_v2/effects.py.
--   * Statuses: the parts of apply_status (`new_status` and `attach`, put together in Marking),
--     check_passive_awakenings, apply_turn_end_statuses, tick_statuses and tick_cooldowns of
--     jjk_arena/battle_v2/effects.py.
--   * Effects, Strikes, Removals: the branches of apply_effect in jjk_arena/battle_v2/effects.py for
--     health, energy and lengths of statuses, for damage, and for removed statuses.
--   * Slots, Targeting: jjk_arena/battle_v2/targeting.py and the reads and writes of team slots.
--   * Queue: jjk_arena/battle_v2/resolver.py from effective_skill_id to ordered_actions.
--   * Turn: finish_turn and check_winner of jjk_arena/battle_v2/resolver.py. `random.Random.sample`
--     and the ids of guards are the record `World`; the drawn energies are distinct members of the
--     population, by the record `IsSampler`.
--   * Match: a match in the charge of jjk_arena/battle_v2/manager.py. `MatchState` is a `BattleState`
--     with the fields that only the manager uses, `Live` adds the queue of callbacks for finished
--     matches. Match/Finish has the end and the tiebreak, Match/Ledger _capture_turn_ledger and
--     _complete_player_turn, Match/Presence disconnections and returns, Match/Phases the expiry of a
--     phase, Match/Commands the commands from the expiry on, and Match/Runs the steps of a match. The
--     resolution of a confirmed queue is the argument `resolve`. The clock counts milliseconds.
--   * Transactions: _execute_player_command, its receipts and its replay entries, and the counters of
--     commands in flight, of the same file, for one room. The hash of a payload, the hash of a state
--     and the CPU's turn are the record `Outside`.
--   * Settlements: the outbox of mission settlements of jjk_arena/battle_v2/runtime_store.py, a list of
--     rows, with each transaction a function and each UPDATE a map. Tokens and the merge of a profile
--     are arguments; rows are as in a fresh database, where finished_at is there.
--   * Sessions: jjk_arena/battle_v2/sessions.py. SHA-256 and fresh tokens are parameters.
--   * Timers, Scheduler: jjk_arena/battle_v2/timers.py and jjk_arena/battle_v2/timer_scheduler.py. The
--     scheduler is a step relation of its worker and its callers, one step for each section under the
--     lock.
--   * SafeStop, Accounting: jjk_arena/battle_v2/safe_stop.py and
--     jjk_arena/battle_v2/damage_accounting.py.
--   * Invariant: what holds of every character and player of a battle. Base, Int, Dict and Result are
--     shared helpers; Examples holds tests and the theorems at concrete inputs.
--
-- How the code is read: a function that changes an object gives the changed object; a raised error
-- is a `Result`; Python's integers are the `ℤ` of Int; dicts are association lists in insertion
-- order. But for the endless loop of the scheduler's worker, which is a step relation, every loop of
-- the modelled code runs over a list, so no fuel is needed, and every function is total. A loop that
-- walks over a copy of a list while statuses are appended walks over positions.
--
-- Not modelled: the effect types apply_status, apply_team_status and consume_status_stacks, with
-- the dispatch over effect types; the resolution of skills (resolve_queue_prefix); of the manager
-- the registry of rooms, the CPU's planning, matches of First Creation and their progress, the
-- serialized answers of commands (whose making expires an overdue phase once more) and the position
-- of the random source; of the store all but the settlements, and the loop that a worker runs over
-- them; serialization, the replay's player, progression and the web server; message texts; threads
-- beyond the steps under a lock.
pub mod Base
pub mod Int
pub mod Dict
pub mod Result
pub mod Models
pub mod Energy
pub mod Conditions
pub mod Damage
pub mod Statuses
pub mod Slots
pub mod Targeting
pub mod Queue
pub mod Invariant
pub mod Turn
pub mod Effects
pub mod Strikes
pub mod Removals
pub mod Marking
pub mod Match
pub mod Transactions
pub mod Sessions
pub mod Scheduler
pub mod Settlements
pub mod SafeStop
pub mod Accounting
pub mod Timers
mod Examples
