-- ===== src/Strings/Next.antt =====
-- `kason_string_next_internal` of kason.c and what it calls: one decoded Unicode scalar from a JSON
-- string slice. A slice `[begin, end]` is the list of its bytes, and a cursor the rest of it.
pub mod Bounds
use kason.Base.{
  ℕ, zero, suc, ◌+◌, ◌-◌, Bool, true, not, ◌&&◌, ◌||◌, Option, none, some, [], ◌∷◌, ltb, leb, ◌==◌,
  if◌then◌else◌, ◌>>=◌, ◌>>◌, guard, Bytes, length, drop, get_or, bit_and, bit_or,
}
use kason.Base.Bits.{shl32}
use kason.Chars.{hex_value}

-- The three results; `value` carries the scalar and the moved cursor.
pub data Next : Type 0 where
  invalid : Next
  finished : Next
  value : ℕ → Bytes → Next

-- The loop of `kason_decode_hex4`, with the digits still to read.
unfoldable pub hex_digits : ℕ → Bytes → ℕ → Option ℕ
hex_digits zero s result = some result
hex_digits (suc n) [] result = none
hex_digits (suc n) (c ∷ s) result = do
  digit ← hex_value c
  hex_digits n s (bit_or (shl32 result 4) digit)

unfoldable pub decode_hex4 : Bytes → Option ℕ
decode_hex4 s = hex_digits 4 s 0

-- The second half of `case 'u'`, behind the first four hexadecimal digits.
unfoldable pub surrogate_pair : ℕ → Bytes → Option (ℕ × Bytes)
surrogate_pair high s = do
  guard (not (ltb (length s) 6))
  guard (get_or s 0 0 == b'\\' && get_or s 1 0 == b'u')
  low ← decode_hex4 (drop 2 s)
  guard (leb 0xdc00 low && leb low 0xdfff)
  some (0x10000 + shl32 (high - 0xd800) 10 + (low - 0xdc00), drop 6 s)

-- `case 'u'`.
unfoldable pub unicode_escape : Bytes → Option (ℕ × Bytes)
unicode_escape s = do
  guard (not (ltb (length s) 4))
  scalar ← decode_hex4 s
  if leb 0xd800 scalar && leb scalar 0xdbff
      then surrogate_pair scalar (drop 4 s)
      else if leb 0xdc00 scalar && leb scalar 0xdfff
      then none
      else some (scalar, drop 4 s)

-- The `switch` behind a backslash.
unfoldable pub escape_sequence : Bytes → Option (ℕ × Bytes)
escape_sequence [] = none
escape_sequence (c ∷ s) =
    if c == b'"'
    then some (b'"', s)
    else if c == b'\\'
    then some (b'\\', s)
    else if c == b'/'
    then some (b'/', s)
    else if c == b'b'
    then some (8, s)
    else if c == b'f'
    then some (12, s)
    else if c == b'n'
    then some (10, s)
    else if c == b'r'
    then some (13, s)
    else if c == b't'
    then some (9, s)
    else if c == b'u'
    then unicode_escape s
    else none

-- The classes of a leading byte: number of continuation bytes, payload, least scalar.
unfoldable pub lead_byte : ℕ → Option (ℕ × ℕ × ℕ)
lead_byte first =
    if leb 0xc2 first && leb first 0xdf
    then some (1, bit_and first 0x1f, 0x80)
    else if leb 0xe0 first && leb first 0xef
    then some (2, bit_and first 0x0f, 0x800)
    else if leb 0xf0 first && leb first 0xf4
    then some (3, bit_and first 0x07, 0x10000)
    else none

-- The loop over the continuation bytes, with the number still to read.
unfoldable pub continuation_bytes : ℕ → Bytes → ℕ → Option (ℕ × Bytes)
continuation_bytes zero s scalar = some (scalar, s)
continuation_bytes (suc n) [] scalar = none
continuation_bytes (suc n) (c ∷ s) scalar =
    let rest = continuation_bytes n s (bit_or (shl32 scalar 6) (bit_and c 0x3f)) in
    if bit_and c 0xc0 == 0x80 then rest else none

-- The test behind that loop.
unfoldable pub check_scalar : ℕ → ℕ × Bytes → Option (ℕ × Bytes)
check_scalar minimum (scalar, s) =
    if ltb scalar minimum || ltb 0x10ffff scalar || (leb 0xd800 scalar && leb scalar 0xdfff)
    then none
    else some (scalar, s)

unfoldable pub multibyte : ℕ → Bytes → Option (ℕ × Bytes)
multibyte first s = do
  (count, payload, minimum) ← lead_byte first
  guard (not (ltb (length s) count))
  decoded ← continuation_bytes count s payload
  check_scalar minimum decoded

-- The branch for a byte below 0x80.
unfoldable pub plain_byte : Bool → ℕ → Bytes → Option (ℕ × Bytes)
plain_byte strict_json first s =
    if strict_json && (ltb first 0x20 || first == b'"') then none else some (first, s)

abbrev pub to_next : Option (ℕ × Bytes) → Next
to_next none = invalid
to_next (some (scalar, s)) = value scalar s

unfoldable pub decode_first : Bool → ℕ → Bytes → Option (ℕ × Bytes)
decode_first strict_json first s =
    if first == b'\\'
    then escape_sequence s
    else if ltb first 0x80
    then plain_byte strict_json first s
    else multibyte first s

-- On a slice whose pointers are not NULL.
unfoldable pub next_in_slice : Bool → Bytes → Next
next_in_slice strict_json [] = finished
next_in_slice strict_json (first ∷ s) = to_next (decode_first strict_json first s)

-- `none` is a NULL cursor or a NULL end.
unfoldable pub string_next_internal : Bool → Option Bytes → Next
string_next_internal strict_json none = invalid
string_next_internal strict_json (some s) = next_in_slice strict_json s

unfoldable pub string_next : Option Bytes → Next
string_next = string_next_internal true
