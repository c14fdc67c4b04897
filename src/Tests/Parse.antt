-- ===== src/Tests/Parse.antt =====
-- The range parser of kason.c on small texts.
use kason.Base.{
  ℕ, ◌+◌, false, true, ◌==◌, if◌then◌else◌, some, ◌∷◌, ◌++◌, Bytes, ◌≡◌, ◌≢◌, ◌⊎◌, ◌↔◌, inl, refl,
  arith,
}
use kason.Tests.Text.{codes}
use kason.Chars.{is_whitespace, is_digit, is_control_char}
use kason.Number.Valid.{
  scan_number, skip_minus, after_integer, after_fraction, after_exponent, digits_required,
  skip_sign, skip_digits,
}
use kason.Parse.Tokens.{
  Slice, scan_string, string_loop, string_byte, close_string, skip_plain_string, skip_whitespace,
  scan_token, scan_literal, expect_bytes,
}
use kason.Parse.Events.{
  enter, break_off, Event, value_event, container_begin, container_end, Callback, scan_emit,
}
use kason.Parse.Scan.{
  member_key, key_value, after_colon, emit_token, scan_primitive, close_container, open_container,
  with_action, scan_container, scan_start, scan_value, scan_child, next_element, after_child,
  scan_member, scan_round, scan_loop,
}
use kason.Parse.Range.{
  success, error, unfinished, scan_result, scan_root, scan_parse, parse_range, parse,
}
use kason.Parse.Grammar.{IsString, IsText}
use kason.Parse.Strings.{find_quote, string_loop-find_quote}
use kason.Parse.Quoted.{scan_string_iff}
use kason.Parse.Notes.{noting}
use kason.Parse.Reach.{IsPolite, Polite}
use kason.Parse.Texts.{
  parse_range-returns, parse_range-success, parse_range_success_iff, parse_success_iff,
}

-- A callback that enters every container and counts its calls.
abbrev counter : Callback ℕ
counter key event count calls = (enter, calls + 1)

enter-IsPolite : (event : Event) → IsPolite event enter
enter-IsPolite value_event = refl
enter-IsPolite container_begin = inl refl
enter-IsPolite container_end = refl

counter-Polite : Polite (some counter)
unfolding scan_emit
counter-Polite key event count calls = enter-IsPolite event.event

-- Two containers and two primitives: six events.
abbrev nested : Bytes
nested = codes "[1, {\"a\":true}]"

abbrev unclosed : Bytes
unclosed = codes "[1,"

nested_result : parse_range (some counter) (some nested) 0 ≡ (success, 6)
unfolding parse_range scan_parse scan_root scan_result scan_value scan_start scan_container
    with_action open_container scan_loop scan_round scan_member scan_child after_child next_element
    close_container scan_primitive emit_token scan_emit member_key key_value after_colon scan_token
    scan_literal expect_bytes scan_number skip_minus after_integer after_fraction after_exponent
    digits_required skip_sign skip_digits scan_string string_loop string_byte close_string
    skip_plain_string skip_whitespace is_whitespace is_digit is_control_char
nested_result = refl

unclosed_result : parse_range (some counter) (some unclosed) 0 ≡ (error, 2)
unfolding parse_range scan_parse scan_root scan_result scan_value scan_start scan_container
    with_action open_container scan_loop scan_round scan_member scan_child after_child next_element
    close_container scan_primitive emit_token scan_emit member_key key_value after_colon scan_token
    scan_literal expect_bytes scan_number skip_minus after_integer after_fraction after_exponent
    digits_required skip_sign skip_digits scan_string string_loop string_byte close_string
    skip_plain_string skip_whitespace is_whitespace is_digit is_control_char
unclosed_result = refl

-- It breaks off at the first value, and the rest of the range is not read.
abbrev breaker : Callback ℕ
breaker key event count calls = (if calls == 1 then break_off else enter, calls + 1)

unclosed_broken :
    parse_range (some (noting breaker)) (some unclosed) (0, false) ≡ (success, (2, true))
unfolding parse_range scan_parse scan_root scan_result scan_value scan_start scan_container
    with_action open_container scan_loop scan_round scan_member scan_child after_child next_element
    close_container scan_primitive emit_token scan_emit member_key key_value after_colon scan_token
    scan_literal expect_bytes scan_number skip_minus after_integer after_fraction after_exponent
    digits_required skip_sign skip_digits scan_string string_loop string_byte close_string
    skip_plain_string skip_whitespace is_whitespace is_digit is_control_char
unclosed_broken = refl

parse_range_success_iff_example :
    ((parse_range (some counter) (some nested) 0).0 ≡ success) ↔ IsText nested
parse_range_success_iff_example = parse_range_success_iff counter nested 0 counter-Polite

parse_range-success_example :
    IsText nested
    ⊎ (parse_range (some (noting counter)) (some nested) (0, false) ≡ (success, (6, true)))
parse_range-success_example = parse_range-success counter nested 0 nested_result

parse_range-returns_example : (parse_range (some counter) (some unclosed) 0).0 ≢ unfinished
parse_range-returns_example = parse_range-returns counter unclosed 0

parse_success_iff_example :
    ((parse (some counter) (some (nested ++ (0 ∷ unclosed))) 0).0 ≡ success) ↔ IsText nested
parse_success_iff_example = parse_success_iff counter nested unclosed 0 counter-Polite (omega arith)

scan_string_iff_example :
    ((p : Slice) × (scan_string (codes "a\\\"b\",") ≡ some (p, codes ",")))
    ↔ IsString (b'"' ∷ codes "a\\\"b\",") (codes ",")
scan_string_iff_example = scan_string_iff (codes "a\\\"b\",") (codes ",")

string_loop-find_quote_example :
    string_loop 7 false false (codes "a\\\"b\",") ≡ find_quote false false (codes "a\\\"b\",")
string_loop-find_quote_example =
    string_loop-find_quote 7 false false (codes "a\\\"b\",") (omega arith)
