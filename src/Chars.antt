-- ===== src/Chars.antt =====
-- Character classes of kason.c. A `char` is its byte, 0 to 255; a byte above 127, which is a
-- negative number where `char` is signed, is in none of the ranges below either way.
use kason.Base.{
  ℕ, ◌+◌, ◌-◌, ◌<◌, Bool, ◌&&◌, ◌||◌, Option, none, some, ◌≡◌, arith, ltb, leb, ◌==◌, if◌then◌else◌,
}

unfoldable pub is_digit : ℕ → Bool
is_digit c = leb b'0' c && leb c b'9'

unfoldable pub is_hex_digit : ℕ → Bool
unfolding is_digit
is_hex_digit c = is_digit c || (leb b'a' c && leb c b'f') || (leb b'A' c && leb c b'F')

unfoldable pub is_control_char : ℕ → Bool
is_control_char c = ltb c 0x20

unfoldable pub is_whitespace : ℕ → Bool
is_whitespace c = c == b' ' || c == b'\n' || c == b'\t' || c == b'\r'

unfoldable pub is_simple_escape : ℕ → Bool
is_simple_escape c =
    c == b'"'
    || c == b'\\'
    || c == b'/'
    || c == b'b'
    || c == b'f'
    || c == b'n'
    || c == b'r'
    || c == b't'

-- `kason_hex_value`; `none` is -1.
unfoldable pub hex_value : ℕ → Option ℕ
hex_value c =
    if leb b'0' c && leb c b'9'
    then some (c - b'0')
    else if leb b'a' c && leb c b'f'
    then some (c - b'a' + 10)
    else if leb b'A' c && leb c b'F'
    then some (c - b'A' + 10)
    else none

pub hex_value-lt : (c : ℕ) {d : ℕ} → hex_value c ≡ some d → d < 16
unfolding hex_value
hex_value-lt c h = ground arith
