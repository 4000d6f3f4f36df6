-- ===== src/Examples.antt =====
-- Tests on concrete battles, and the theorems at concrete inputs.
mod Samples
mod Battles
mod Turns
mod Effects
mod Statuses
mod Rooms
mod Matches
mod Commands
mod Outbox
