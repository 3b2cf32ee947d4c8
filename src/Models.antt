-- ===== src/Models.antt =====
-- The tables of app/models: the enumerations, and a record for each mapped class.
mod Enums
mod Tables
pub use Enums.*
pub use Tables.*
