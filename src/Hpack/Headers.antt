-- ===== src/Hpack/Headers.antt =====
-- include/cocaine/hpack/header_definitions.hpp, in three parts.
pub mod Values
pub mod Early
pub mod Late
