-- ===== src/Context.antt =====
-- The context of a daemon: include/cocaine/context and src/context.
pub mod Ports
pub mod Signal
pub mod Core
pub mod Config
