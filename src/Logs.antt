-- ===== src/Logs.antt =====
-- src/app/log_ops.rs: reading the end of a log, and the filters of its lines. `Logs/Tail` reads a log,
-- `Logs/Filter` and `Logs/Window` choose lines. Following a log and printing are not modelled.
pub mod Tail
pub mod Filter
pub mod Window
