-- ===== src/Number.antt =====
-- JSON numbers in kason.c: the incremental automaton, the one-pass test, and the conversions.
pub mod State
pub mod Valid
pub mod Integer
pub mod Accumulator
