-- ===== src/Dap.antt =====
-- The Debug Adapter Protocol: src/dap.
pub mod Codec
pub mod Events
pub mod Subprocess
