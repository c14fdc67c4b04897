-- ===== src/Stream/Tokens.antt =====
-- The tokens of the streaming parser of kason.c: escapes, primitive values and what follows them.
use kason.Base.{
  ℕ, zero, suc, Bool, true, false, not, ◌&&◌, ◌||◌, Option, none, some, [], ◌∷◌, ◌==◌,
  if◌then◌else◌, Bytes,
}
use kason.Chars.{is_whitespace, is_digit, is_hex_digit, is_simple_escape}
use kason.Types.{JsonType, null, true_literal, false_literal, string, number}
use kason.Number.Valid.{is_valid_number}
use kason.Parse.Tokens.{rest_of_true, rest_of_false, rest_of_null, slice_equals}
use kason.Stream.State.{
  Mode, m_auto, m_object, m_array, m_string, m_generic, Phase, find_key_begin, find_value_begin,
  find_param_sep, finished, success, error, value_event, Stream, Outcome, on_success, unless_break,
  clear_scratch, append_scratch, value_bytes, stream_emit,
}

-- `kason_stream_process_escape`, by the number of hexadecimal digits left.
abbrev pub after_hex_digit : {U : Type 0} → ℕ → Phase → Stream U → Outcome U
after_hex_digit zero restore_state t =
    (success, record t { escape_hex_left = 0; state = restore_state })
after_hex_digit (suc left) restore_state t = (success, record t { escape_hex_left = suc left })

unfoldable pub process_escape : {U : Type 0} → ℕ → ℕ → Phase → Stream U → Outcome U
unfolding append_scratch
process_escape (suc left) c restore_state t =
    if not (is_hex_digit c)
    then (error, t)
    else on_success (append_scratch c t) (after_hex_digit left restore_state)
process_escape zero c restore_state t =
    if c == b'u'
    then on_success (append_scratch c t) (λ u. (success, record u { escape_hex_left = 4 }))
    else if is_simple_escape c
    then on_success (append_scratch c t) (λ u. (success, record u { state = restore_state }))
    else (error, t)

-- `kason_stream_generic_type`, on the bytes of the value: `none` is an error.
unfoldable pub generic_type : Bytes → Option JsonType
generic_type [] = none
generic_type (c ∷ s) =
    if c == b'-' || is_digit c
    then (if is_valid_number (c ∷ s) then some number else none)
    else if slice_equals (c ∷ s) (b'n' ∷ rest_of_null)
    then some null
    else if slice_equals (c ∷ s) (b't' ∷ rest_of_true)
    then some true_literal
    else if slice_equals (c ∷ s) (b'f' ∷ rest_of_false)
    then some false_literal
    else none

-- `stream->mode == M_OBJECT || stream->mode == M_ARRAY`, and `stream->mode == M_GENERIC`.
abbrev pub in_container : Mode → Bool
in_container m_object = true
in_container m_array = true
in_container m_auto = false
in_container m_string = false
in_container m_generic = false

abbrev pub is_generic : Mode → Bool
is_generic m_generic = true
is_generic m_object = false
is_generic m_array = false
is_generic m_auto = false
is_generic m_string = false

unfoldable pub generic_delimiter : Mode → ℕ → ℕ → Bool
generic_delimiter mode end_token c =
    if in_container mode
    then c == b',' || c == end_token || is_whitespace c
    else is_generic mode && is_whitespace c

unfoldable pub commit_primitive : {U : Type 0} → JsonType → Stream U → Outcome U
unfolding stream_emit value_bytes clear_scratch
commit_primitive kind t =
    unless_break (stream_emit kind value_event (value_bytes t) true t)
      (λ u. (success, clear_scratch u))

abbrev pub stream_complete : {U : Type 0} → Stream U → Stream U
stream_complete t = record t { complete = true; state = finished }

unfoldable pub after_completed_value : {U : Type 0} → Stream U → Stream U
after_completed_value t =
    if in_container t.mode
    then record t { has_entries = true; state = find_param_sep }
    else stream_complete t

unfoldable pub commit_string : {U : Type 0} → Stream U → Outcome U
unfolding commit_primitive after_completed_value
commit_string t = unless_break (commit_primitive string t) (λ u. (success, after_completed_value u))

-- Behind a comma: a key in an object, a value in an array.
abbrev pub after_separator : Mode → Phase
after_separator m_object = find_key_begin
after_separator m_array = find_value_begin
after_separator m_auto = find_value_begin
after_separator m_string = find_value_begin
after_separator m_generic = find_value_begin

unfoldable pub after_generic : {U : Type 0} → ℕ → Stream U → Stream U
after_generic delimiter t =
    if is_generic t.mode
    then stream_complete t
    else if delimiter == b','
    then record t { has_entries = true; state = after_separator t.mode }
    else if delimiter == t.end_token
    then stream_complete (record t { has_entries = true })
    else record t { has_entries = true; state = find_param_sep }

abbrev pub commit_typed : {U : Type 0} → ℕ → Stream U → Option JsonType → Outcome U
commit_typed delimiter t none = (error, t)
commit_typed delimiter t (some kind) =
    unless_break (commit_primitive kind t) (λ u. (success, after_generic delimiter u))

unfoldable pub commit_generic : {U : Type 0} → ℕ → Stream U → Outcome U
unfolding value_bytes generic_type
commit_generic delimiter t = commit_typed delimiter t (generic_type (value_bytes t))
