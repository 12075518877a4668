-- ===== src/Stream.antt =====
-- crates/wiremux/src/stream: the frame type and the readers of the two transports.
pub mod Frame
pub mod Fields
pub mod Usage
pub mod Messages
pub mod Encoder
pub mod Sse
pub mod EventStream
