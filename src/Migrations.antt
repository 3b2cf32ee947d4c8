-- ===== src/Migrations.antt =====
-- alembic/versions: the migrations, upward and downward.
pub mod Schema
pub mod Tables
pub mod Versions
pub mod Applied
pub mod Ready
pub mod Back
