-- ===== src/Stream/Text.antt =====
-- The strings inside a container that `kason_stream_process_container` of kason.c streams: they are
-- checked byte by byte, without being kept.
pub mod Accepts
pub mod Checks
use kason.Base.{
  ℕ, zero, suc, ◌-◌, Bool, true, false, not, ◌&&◌, ◌||◌, Option, none, some, [], ◌∷◌, ltb, leb,
  ◌==◌, if◌then◌else◌, Bytes, bit_and, bit_or,
}
use kason.Base.Bits.{shl32}
use kason.Chars.{is_control_char, is_simple_escape, hex_value}
use kason.Strings.Next.{lead_byte}

-- KaSON_SURROGATE_*.
pub data Surrogate : Type 0 where
  no_surrogate expect_backslash expect_u low_hex : Surrogate

-- The fields `container_escape` to `container_utf8_left` of `kason_stream`.
pub record Text : Type 0 where
  pub escape : Bool
  pub hex_left : ℕ
  pub unicode_value : ℕ
  pub high_surrogate : ℕ
  pub utf8_value : ℕ
  pub utf8_minimum : ℕ
  pub surrogate_state : Surrogate
  pub utf8_left : ℕ

abbrev pub clear_text : Text
clear_text = record {
  escape = false;
  hex_left = 0;
  unicode_value = 0;
  high_surrogate = 0;
  utf8_value = 0;
  utf8_minimum = 0;
  surrogate_state = no_surrogate;
  utf8_left = 0;
}

-- An error, or not, and the fields that are left.
pub data TextResult : Type 0 where
  text_failed text_ok : Text → TextResult

-- The classes of a leading byte are those of the decoder.
abbrev pub utf8_lead : Text → Option (ℕ × ℕ × ℕ) → TextResult
utf8_lead t none = text_failed t
utf8_lead t (some (left, payload, minimum)) =
    text_ok (record t { utf8_left = left; utf8_value = payload; utf8_minimum = minimum })

abbrev pub utf8_refused : ℕ → ℕ → Bool
utf8_refused minimum v = ltb v minimum || ltb 0x10ffff v || (leb 0xd800 v && leb v 0xdfff)

-- A continuation byte, with `left` of them to come behind it.
unfoldable pub utf8_continue : ℕ → Text → ℕ → TextResult
utf8_continue left t c =
    let v = bit_or (shl32 t.utf8_value 6) (bit_and c 0x3f) in
    let moved = record t { utf8_value = v; utf8_left = left } in
    if not (bit_and c 0xc0 == 0x80)
    then text_failed t
    else if left == 0 && utf8_refused t.utf8_minimum v
    then text_failed moved
    else text_ok moved

unfoldable pub process_utf8 : ℕ → Text → ℕ → TextResult
unfolding utf8_continue
process_utf8 zero t c = if ltb c 0x80 then text_ok t else utf8_lead t (lead_byte c)
process_utf8 (suc left) t c = utf8_continue left t c

-- Behind the fourth hexadecimal digit of an escape, and of a low surrogate.
abbrev pub first_unit : Text → ℕ → TextResult
first_unit t v =
    if leb 0xd800 v && leb v 0xdbff
    then text_ok
        (record t { high_surrogate = v; surrogate_state = expect_backslash; escape = false })
    else if leb 0xdc00 v && leb v 0xdfff
    then text_failed t
    else text_ok (record t { escape = false })

unfoldable pub code_unit : Surrogate → Text → ℕ → TextResult
code_unit low_hex t v =
    if ltb v 0xdc00 || ltb 0xdfff v
    then text_failed t
    else text_ok (record t { high_surrogate = 0; surrogate_state = no_surrogate; escape = false })
code_unit no_surrogate t v = first_unit t v
code_unit expect_backslash t v = first_unit t v
code_unit expect_u t v = first_unit t v

-- A hexadecimal digit, with `left` of them to come behind it.
unfoldable pub hex_digit : ℕ → Text → Option ℕ → TextResult
unfolding code_unit
hex_digit left t none = text_failed t
hex_digit zero t (some digit) =
    let v = bit_or (shl32 t.unicode_value 4) digit in
    code_unit t.surrogate_state (record t { unicode_value = v; hex_left = 0 }) v
hex_digit (suc left) t (some digit) =
    text_ok
      (record t { unicode_value = bit_or (shl32 t.unicode_value 4) digit; hex_left = suc left })

-- `kason_stream_process_container_escape`, by the number of hexadecimal digits left.
unfoldable pub process_container_escape : ℕ → Text → ℕ → TextResult
unfolding hex_digit
process_container_escape (suc left) t c = hex_digit left t (hex_value c)
process_container_escape zero t c =
    if c == b'u'
    then text_ok (record t { hex_left = 4; unicode_value = 0 })
    else if is_simple_escape c
    then text_ok (record t { escape = false })
    else text_failed t

-- A byte in a string: an error, the closing mark, or the next state.
pub data TextStep : Type 0 where
  text_closed : TextStep
  text_error text_next : Text → TextStep

abbrev pub text_or_error : TextResult → TextStep
text_or_error (text_failed t) = text_error t
text_or_error (text_ok t) = text_next t

-- A byte outside an escape and outside a UTF-8 sequence.
unfoldable pub plain_text_byte : Text → ℕ → TextStep
unfolding process_utf8
plain_text_byte t c =
    if c == b'\\'
    then text_next (record t { escape = true; hex_left = 0 })
    else if c == b'"'
    then text_closed
    else if is_control_char c
    then text_error t
    else if leb 0x80 c
    then text_or_error (process_utf8 t.utf8_left t c)
    else text_next t

-- The branch for `container_string`, by the surrogate state.
unfoldable pub text_byte : Surrogate → Text → ℕ → TextStep
unfolding process_container_escape process_utf8 plain_text_byte
text_byte expect_backslash t c =
    if not (c == b'\\') then text_error t else text_next (record t { surrogate_state = expect_u })
text_byte expect_u t c =
    if not (c == b'u')
    then text_error t
    else text_next (record t { surrogate_state = low_hex; hex_left = 4; unicode_value = 0 })
text_byte low_hex t c = text_or_error (process_container_escape t.hex_left t c)
text_byte no_surrogate t c =
    if t.escape
    then text_or_error (process_container_escape t.hex_left t c)
    else if ltb 0 t.utf8_left
    then text_or_error (process_utf8 t.utf8_left t c)
    else plain_text_byte t c
