-- ===== src/Models.antt =====
-- The dataclasses of backend/app/core/models.py that the engines read and write, each with every field
-- and default of the source. `float` is any type.
pub mod Settings
pub mod Token
pub mod Stats
pub use Settings.*
pub use Token.*
pub use Stats.*
