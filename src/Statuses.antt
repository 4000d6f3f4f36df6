-- ===== src/Statuses.antt =====
-- Statuses: side effects on skills, passives, application, clocks and ticking,
-- jjk_arena/battle_v2/effects.py. The definitions stand in four children, whose names are passed
-- on; the theorems stand in the others.
mod SideEffects
mod Passives
mod Applying
mod Clock
pub mod Ticking
pub mod Awakening
pub mod Stacking
pub mod Recurring
unfoldable pub use SideEffects.*
unfoldable pub use Passives.*
unfoldable pub use Applying.*
unfoldable pub use Clock.*
