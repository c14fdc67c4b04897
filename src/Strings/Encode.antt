-- ===== src/Strings/Encode.antt =====
-- `kason_utf8_encode` of kason.c, and the units that `kason_strcpy_utf16` and `kason_strcpy_utf32`
-- write for one scalar. The result is the list of the units, its length what the C function returns.
pub mod Forms
pub mod RoundTrip
pub mod Shortest
use kason.Base.{
  ℕ, ◌+◌, ◌-◌, ◌/◌, ◌%◌, ◌^◌, List, [], ◌∷◌, leb, if◌then◌else◌, Bytes, bit_and, bit_or,
}

-- `(char) x`, as a byte.
abbrev pub to_char : ℕ → ℕ
to_char x = x % 256

unfoldable pub utf8_encode : ℕ → Bytes
utf8_encode v =
    if leb v 0x7f
    then to_char v ∷ []
    else if leb v 0x7ff
    then to_char (bit_or 0xc0 (v / 2 ^ 6)) ∷ to_char (bit_or 0x80 (bit_and v 0x3f)) ∷ []
    else if leb v 0xffff
    then to_char (bit_or 0xe0 (v / 2 ^ 12))
      ∷ to_char (bit_or 0x80 (bit_and (v / 2 ^ 6) 0x3f))
      ∷ to_char (bit_or 0x80 (bit_and v 0x3f))
      ∷ []
    else to_char (bit_or 0xf0 (v / 2 ^ 18))
      ∷ to_char (bit_or 0x80 (bit_and (v / 2 ^ 12) 0x3f))
      ∷ to_char (bit_or 0x80 (bit_and (v / 2 ^ 6) 0x3f))
      ∷ to_char (bit_or 0x80 (bit_and v 0x3f))
      ∷ []

-- One `uint16_t`, or a surrogate pair.
unfoldable pub utf16_units : ℕ → List ℕ
utf16_units v =
    if leb v 0xffff
    then v % 2 ^ 16 ∷ []
    else (0xd800 + (v - 0x10000) / 2 ^ 10) % 2 ^ 16
      ∷ (0xdc00 + bit_and (v - 0x10000) 0x3ff) % 2 ^ 16
      ∷ []

unfoldable pub utf32_units : ℕ → List ℕ
utf32_units v = v ∷ []
