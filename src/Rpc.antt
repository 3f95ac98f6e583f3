-- ===== src/Rpc.antt =====
-- Message framing, streams, sessions and dispatches: include/cocaine/rpc, src/encoder.cpp,
-- src/decoder.cpp and src/session.cpp.
pub mod Buffers
pub mod Encoder
pub mod Decoder
pub mod Framing
pub mod Writable
pub mod Readable
pub mod Session
pub mod Slots
pub mod Queue
mod Tests
