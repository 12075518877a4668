-- ===== src/Stream/EventStream.antt =====
-- crates/wiremux/src/stream/eventstream.rs: messages of the AWS Event Stream, read from and written
-- to bytes.
pub mod Bytes
pub mod Headers
pub mod Message
pub mod Reader
pub mod Encode
pub mod Unwrap
pub mod HeaderTrip
pub mod RoundTrip
pub mod Prefix
pub mod Fuel
pub mod Chunks
