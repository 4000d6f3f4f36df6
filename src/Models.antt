-- ===== src/Models.antt =====
-- The data model of the battle engine, jjk_arena/battle_v2/models.py.
mod Enums
mod Keys
mod Records
pub use Enums.*
pub use Keys.*
unfoldable pub use Keys.{update}
pub use Records.*
