-- ===== src/Protocol.antt =====
-- kafka/protocol/: the bytes of requests and responses, and the frames that carry them.
pub mod Frame
pub mod Ints
pub mod Parser
pub mod Types
pub mod Utf8
pub mod Decoding
pub mod Message
pub mod Messages
pub mod Classes
mod Tests
