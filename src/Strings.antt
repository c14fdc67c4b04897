-- ===== src/Strings.antt =====
-- JSON string slices: decoding, UTF-8 encoding, copying and comparing (kason.c).
pub mod Next
pub mod Encode
pub mod Loop
pub mod Copy
pub mod Compare
