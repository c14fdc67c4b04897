-- ===== src/Stream.antt =====
-- The streaming parser of kason.c, `kason_stream_init` to `kason_stream_finish`.
pub mod Text
pub mod State
pub mod Tokens
pub mod Container
pub mod Feed
pub mod Calls
pub mod Bounds
pub mod Cuts
