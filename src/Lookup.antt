-- ===== src/Lookup.antt =====
-- The lookup keys of kason.c.
pub mod Hash
pub mod Sample
pub mod Whole
pub mod Key
pub mod Decoded
pub mod Table
pub mod Found
pub mod Keys
