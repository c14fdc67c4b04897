-- ===== src/Stream/Feed.antt =====
-- The cases of the switch in `kason_stream_feed` of kason.c, one function for each. A cursor is the
-- rest of the chunk.
use kason.Base.{
  ℕ, ◌-◌, Bool, true, false, not, ◌&&◌, ◌||◌, Option, none, some, [], ◌∷◌, leb, ◌==◌, if◌then◌else◌,
  Bytes, length,
}
use kason.Chars.{is_control_char, is_whitespace}
use kason.Strings.Loop.{string_is_valid}
use kason.Parse.Tokens.{Slice}
use kason.Stream.State.{
  Mode, m_auto, m_object, m_array, m_string, m_generic, Phase, find_key_begin, find_key_end,
  find_value_sep, find_value_begin, find_string_end, find_generic_end, key_escape, string_escape,
  StreamResult, success, error, Stream, Outcome, on_success, clear_scratch, append_scratch,
  preserve_direct, key_bytes, value_bytes,
}
use kason.Stream.Tokens.{
  process_escape, generic_delimiter, stream_complete, commit_string, after_separator,
  commit_generic,
}
use kason.Stream.Container.{start_container}

-- What a case of the switch leaves: the result, the rest behind the cursor, and the stream.
abbrev pub Step : Type 0 → Type 0
Step U = StreamResult × Bytes × Stream U

abbrev pub at_rest : {U : Type 0} → Bytes → Outcome U → Step U
at_rest s (result, t) = (result, s, t)

-- The loops that move the cursor over bytes that a direct slice takes in.
abbrev pub is_text_byte : ℕ → Bool
is_text_byte c = leb 0x20 c && not (c == b'"') && not (c == b'\\')

unfoldable pub skip_text : Bytes → Bytes
skip_text [] = []
skip_text (c ∷ s) = let rest = skip_text s in if is_text_byte c then rest else c ∷ s

unfoldable pub skip_generic : Mode → ℕ → Bytes → Bytes
skip_generic mode end_token [] = []
skip_generic mode end_token (c ∷ s) =
    let rest = skip_generic mode end_token s in
    if generic_delimiter mode end_token c then c ∷ s else rest

-- `direct_value_begin` on the byte behind the quotation mark, and on the first byte.
abbrev pub begin_string : {U : Type 0} → Bytes → Stream U → Stream U
begin_string s t = record t {
  direct_value = some (record { begin = s; behind = s });
  state = find_string_end;
}

abbrev pub begin_generic : {U : Type 0} → ℕ → Bytes → Stream U → Stream U
begin_generic c s t = record t {
  direct_value = some (record { begin = c ∷ s; behind = s });
  state = find_generic_end;
}

unfoldable pub find_root_byte : {U : Type 0} → ℕ → Bytes → Stream U → Outcome U
find_root_byte c s t =
    if is_whitespace c
    then (success, t)
    else if c == b'{'
    then (success, record t { mode = m_object; end_token = b'}'; state = find_key_begin })
    else if c == b'['
    then (success, record t { mode = m_array; end_token = b']'; state = find_value_begin })
    else if c == b'"'
    then (success, begin_string s (record t { mode = m_string }))
    else (success, begin_generic c s (record t { mode = m_generic }))

unfoldable pub find_key_begin_byte : {U : Type 0} → ℕ → Bytes → Stream U → Outcome U
unfolding clear_scratch
find_key_begin_byte c s t =
    if is_whitespace c
    then (success, t)
    else if c == b'}' && not t.has_entries
    then (success, stream_complete t)
    else if c == b'"'
    then (
      success,
      record (clear_scratch t) {
        direct_key = some (record { begin = s; behind = s });
        state = find_key_end;
      },
    )
    else (error, t)

-- A backslash in a key or in a string.
abbrev pub escaping : {U : Type 0} → Phase → Outcome U → Outcome U
escaping escape_state (result, t) = (result, record t { state = escape_state; escape_hex_left = 0 })

unfoldable pub begin_escape : {U : Type 0} → Phase → ℕ → Stream U → Outcome U
unfolding preserve_direct append_scratch
begin_escape escape_state c t =
    escaping escape_state (on_success (preserve_direct t) (append_scratch c))

-- `key_end` and `value_end` on the last byte in the scratch buffer.
abbrev pub key_to_end : {U : Type 0} → Outcome U → Outcome U
key_to_end (result, t) = (result, record t { key_end = length t.scratch - 1 })

abbrev pub value_to_end : {U : Type 0} → Outcome U → Outcome U
value_to_end (result, t) = (result, record t { value_end = length t.scratch - 1 })

-- Any other byte of a key, by `direct_key_begin`.
abbrev pub key_byte : {U : Type 0} → Option Slice → ℕ → Bytes → Stream U → Step U
key_byte (some p) c s t =
    let rest = skip_text s in
    (success, rest, record t { direct_key = some (record p { behind = rest }) })
key_byte none c s t = at_rest s (key_to_end (append_scratch c t))

unfoldable pub find_key_end_byte : {U : Type 0} → ℕ → Bytes → Stream U → Step U
unfolding begin_escape key_bytes skip_text append_scratch
find_key_end_byte c s t =
    if c == b'\\'
    then at_rest s (begin_escape key_escape c t)
    else if c == b'"'
    then (if string_is_valid (some (key_bytes t))
        then (success, s, record t { has_key = true; state = find_value_sep })
        else (error, s, t))
    else if is_control_char c
    then (error, s, t)
    else key_byte t.direct_key c s t

unfoldable pub key_escape_byte : {U : Type 0} → ℕ → Stream U → Outcome U
unfolding process_escape
key_escape_byte c t =
    on_success (process_escape t.escape_hex_left c find_key_end t) (λ u. key_to_end (success, u))

unfoldable pub find_value_sep_byte : {U : Type 0} → ℕ → Stream U → Outcome U
find_value_sep_byte c t =
    if is_whitespace c
    then (success, t)
    else if c == b':'
    then (success, record t { state = find_value_begin })
    else (error, t)

abbrev pub is_array : Mode → Bool
is_array m_array = true
is_array m_auto = false
is_array m_object = false
is_array m_string = false
is_array m_generic = false

unfoldable pub find_value_begin_byte : {U : Type 0} → ℕ → Bytes → Stream U → Outcome U
unfolding start_container
find_value_begin_byte c s t =
    if is_whitespace c
    then (success, t)
    else if c == t.end_token
    then (if is_array t.mode && not t.has_entries then (success, stream_complete t) else (error, t))
    else if c == b','
    then (error, t)
    else if c == b'"'
    then (success, begin_string s t)
    else if c == b'{' || c == b'['
    then start_container c t
    else (success, begin_generic c s t)

abbrev pub text_value_byte : {U : Type 0} → Option Slice → ℕ → Bytes → Stream U → Step U
text_value_byte (some p) c s t =
    let rest = skip_text s in
    (success, rest, record t { direct_value = some (record p { behind = rest }) })
text_value_byte none c s t = at_rest s (value_to_end (append_scratch c t))

unfoldable pub find_string_end_byte : {U : Type 0} → ℕ → Bytes → Stream U → Step U
unfolding begin_escape value_bytes skip_text append_scratch commit_string
find_string_end_byte c s t =
    if c == b'\\'
    then at_rest s (begin_escape string_escape c t)
    else if c == b'"'
    then (if string_is_valid (some (value_bytes t))
        then at_rest s (commit_string t)
        else (error, s, t))
    else if is_control_char c
    then (error, s, t)
    else text_value_byte t.direct_value c s t

unfoldable pub string_escape_byte : {U : Type 0} → ℕ → Stream U → Outcome U
unfolding process_escape
string_escape_byte c t =
    on_success (process_escape t.escape_hex_left c find_string_end t)
      (λ u. value_to_end (success, u))

abbrev pub generic_value_byte : {U : Type 0} → Option Slice → ℕ → Bytes → Stream U → Step U
generic_value_byte (some p) c s t =
    let rest = skip_generic t.mode t.end_token s in
    (success, rest, record t { direct_value = some (record p { behind = rest }) })
generic_value_byte none c s t = at_rest s (value_to_end (append_scratch c t))

unfoldable pub find_generic_end_byte : {U : Type 0} → ℕ → Bytes → Stream U → Step U
unfolding commit_generic generic_delimiter skip_generic append_scratch
find_generic_end_byte c s t =
    if generic_delimiter t.mode t.end_token c
    then at_rest s (commit_generic c t)
    else generic_value_byte t.direct_value c s t

unfoldable pub find_param_sep_byte : {U : Type 0} → ℕ → Stream U → Outcome U
find_param_sep_byte c t =
    if is_whitespace c
    then (success, t)
    else if c == b','
    then (success, record t { state = after_separator t.mode })
    else if c == t.end_token
    then (success, stream_complete t)
    else (error, t)
