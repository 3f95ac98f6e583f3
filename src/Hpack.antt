-- ===== src/Hpack.antt =====
-- Header compression: include/cocaine/hpack and src/header.cpp.
pub mod Header
pub mod Headers
pub mod StaticTable
pub mod Table
pub mod Msgpack
mod Tests
