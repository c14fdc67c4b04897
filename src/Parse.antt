-- ===== src/Parse.antt =====
-- The range parser of kason.c (`kason_scan_*`, `kason_parse_range`, `kason_parse`).
pub mod Tokens
pub mod Events
pub mod Frame
pub mod Scan
pub mod Range
pub mod Grammar
pub mod Strings
pub mod Run
pub mod Quoted
pub mod Primitive
pub mod Inversion
pub mod Sound
pub mod Lengths
pub mod Settled
pub mod Notes
pub mod Heads
pub mod Reach
pub mod Rounds
pub mod Complete
pub mod Texts
