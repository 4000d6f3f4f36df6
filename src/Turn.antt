-- ===== src/Turn.antt =====
-- The end of a turn and of a battle, the second half of jjk_arena/battle_v2/resolver.py. The
-- definitions stand in three children, whose names are passed on.
mod Expiry
mod Cleanup
mod Winner
pub mod Outcome
mod Keeping
pub mod Soundness
unfoldable pub use Expiry.*
unfoldable pub use Cleanup.*
unfoldable pub use Winner.*
