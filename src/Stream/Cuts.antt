-- ===== src/Stream/Cuts.antt =====
-- The input of the streaming parser of kason.c may be cut into chunks anywhere: what is common to the
-- proof. A stream in the middle of a chunk is compared with the stream that has put its slices of
-- the chunk into the scratch buffer, as `kason_stream_preserve_direct` does at the end of a chunk.
pub mod Settle
pub mod Drip
pub mod Between
pub mod Separators
pub mod Grow
pub mod Escapes
pub mod Keys
pub mod KeyRounds
pub mod Commits
pub mod Growing
pub mod Values
pub mod Begins
pub mod Opens
pub mod Containers
pub mod ContainerRounds
pub mod Rounds
pub mod Rests
pub mod Chunks
pub mod Room
