-- ===== src/Queue.antt =====
-- Validation, payment and order of a player's queue, the first half of
-- jjk_arena/battle_v2/resolver.py. The definitions stand in three children, whose names are passed
-- on; the theorems stand in the others.
mod Costs
mod Actions
mod Order
pub mod Payment
pub mod Confirming
pub mod Ordering
unfoldable pub use Costs.*
unfoldable pub use Actions.*
unfoldable pub use Order.*
