-- ===== src/State.antt =====
-- src/state.rs: the state store. `migrate_state` is in `State/Migrate`, the files in `State/Files`,
-- `StateStore` in `State/Store`.
pub mod Migrate
pub mod Files
pub mod Store
