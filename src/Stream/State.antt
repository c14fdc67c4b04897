-- ===== src/Stream/State.antt =====
-- The state of the streaming parser of kason.c, its scratch buffer, and the call of the callback.
use kason.Base.{
  ℕ, ◌+◌, ◌-◌, Bool, true, false, Option, none, some, [], ◌∷◌, ◌++◌, ltb, leb, if◌then◌else◌, Bytes,
  length, take, drop,
}
use kason.Types.{JsonType, unknown}
use kason.Parse.Tokens.{Slice, slice_bytes}
use kason.Stream.Text.{Text, clear_text}

-- KaSON_PARSE_MODE.
pub data Mode : Type 0 where
  m_auto m_object m_array m_string m_generic : Mode

-- KaSON_STREAM_STATE_*; `finished` is COMPLETE.
pub data Phase : Type 0 where
  find_root find_key_begin find_key_end find_value_sep find_value_begin find_string_end : Phase
  find_generic_end find_param_sep stream_container key_escape string_escape finished : Phase

-- KaSON_PARSE_RESULT_*, those that the streaming parser returns.
pub data StreamResult : Type 0 where
  success incomplete error null_callback buffer_full : StreamResult

-- KaSON_STREAM_EVENT_*.
pub data StreamEvent : Type 0 where
  value_event container_begin container_part container_end : StreamEvent

-- `kason_stream_data`, with the bytes from `begin` to `end`.
pub record StreamData : Type 0 where
  pub type : JsonType
  pub event : StreamEvent
  pub text : Bytes

-- A callback: from the bytes of the key, unless it is NULL, the event and the user data, to whether
-- it returns BREAK, and the user data that it leaves.
abbrev pub StreamCallback : Type 0 → Type 0
StreamCallback U = Option Bytes → StreamData → U → Bool × U

-- `kason_stream`. `scratch` holds the `scratch_length` bytes in use; the first is never read.
pub record Stream (U : Type 0) : Type 0 where
  pub scratch : Bytes
  pub scratch_size : ℕ
  pub callback : StreamCallback U
  pub user_data : U
  pub mode : Mode
  pub state : Phase
  pub complete : Bool
  pub callback_break : Bool
  pub end_token : ℕ
  pub key_begin : ℕ
  pub key_end : ℕ
  pub value_begin : ℕ
  pub value_end : ℕ
  pub direct_key : Option Slice
  pub direct_value : Option Slice
  pub has_key : Bool
  pub has_entries : Bool
  pub escape_hex_left : ℕ
  pub container_type : JsonType
  pub container_string : Bool
  pub container_text : Text

-- What an operation on a stream returns, and the stream it leaves.
abbrev pub Outcome : Type 0 → Type 0
Outcome U = StreamResult × Stream U

-- `if (result != KaSON_PARSE_RESULT_SUCCESS) return result;`
abbrev pub on_success : {U : Type 0} → Outcome U → (Stream U → Outcome U) → Outcome U
on_success (success, t) later = later t
on_success (incomplete, t) later = (incomplete, t)
on_success (error, t) later = (error, t)
on_success (null_callback, t) later = (null_callback, t)
on_success (buffer_full, t) later = (buffer_full, t)

-- `if (result != KaSON_PARSE_RESULT_SUCCESS || stream->callback_break) return result;`
abbrev pub unless_break : {U : Type 0} → Outcome U → (Stream U → Outcome U) → Outcome U
unless_break r later = on_success r (λ t. if t.callback_break then (success, t) else later t)

unfoldable pub clear_scratch : {U : Type 0} → Stream U → Stream U
clear_scratch t = record t {
  scratch = if ltb 0 t.scratch_size then 0 ∷ [] else [];
  key_begin = 0;
  key_end = 0;
  value_begin = 0;
  value_end = 0;
  direct_key = none;
  direct_value = none;
  has_key = false;
  escape_hex_left = 0;
}

unfoldable pub append_scratch : {U : Type 0} → ℕ → Stream U → Outcome U
append_scratch c t =
    if leb t.scratch_size (length t.scratch)
    then (buffer_full, t)
    else (success, record t { scratch = t.scratch ++ (c ∷ []) })

-- The bytes from `kason_stream_slice_begin` to `kason_stream_slice_end`.
abbrev pub scratch_slice : Bytes → ℕ → ℕ → Bytes
scratch_slice scratch begin end =
    if leb begin end then take (end + 1 - begin) (drop begin scratch) else []

-- The loop of `kason_stream_copy_direct`: the bytes to copy, the scratch bytes and `scratch_end`.
unfoldable pub copy_loop : ℕ → Bytes → Bytes → ℕ → StreamResult × Bytes × ℕ
copy_loop size [] scratch end = (success, scratch, end)
copy_loop size (c ∷ s) scratch end =
    let rest = copy_loop size s (scratch ++ (c ∷ [])) (length scratch) in
    if leb size (length scratch) then (buffer_full, scratch, end) else rest

-- `kason_stream_copy_direct` for the key, and for the value: the pointers are cleared on a success.
abbrev pub key_copied : {U : Type 0} → Stream U → StreamResult × Bytes × ℕ → Outcome U
key_copied t (result, scratch, end) =
    let copied = record t { scratch = scratch; key_begin = length t.scratch; key_end = end } in
    on_success (result, copied) (λ u. (success, record u { direct_key = none }))

abbrev pub copy_direct_key : {U : Type 0} → Option Slice → Stream U → Outcome U
copy_direct_key none t = (success, t)
copy_direct_key (some p) t =
    key_copied t (copy_loop t.scratch_size (slice_bytes p) t.scratch (length t.scratch - 1))

abbrev pub value_copied : {U : Type 0} → Stream U → StreamResult × Bytes × ℕ → Outcome U
value_copied t (result, scratch, end) =
    let copied = record t { scratch = scratch; value_begin = length t.scratch; value_end = end } in
    on_success (result, copied) (λ u. (success, record u { direct_value = none }))

abbrev pub copy_direct_value : {U : Type 0} → Option Slice → Stream U → Outcome U
copy_direct_value none t = (success, t)
copy_direct_value (some p) t =
    value_copied t (copy_loop t.scratch_size (slice_bytes p) t.scratch (length t.scratch - 1))

unfoldable pub preserve_direct : {U : Type 0} → Stream U → Outcome U
preserve_direct t =
    on_success (copy_direct_key t.direct_key t) (λ u. copy_direct_value u.direct_value u)

-- The bytes from `kason_stream_key_begin` to `kason_stream_key_end`, and those of the value.
abbrev pub direct_or : Option Slice → Bytes → Bytes
direct_or none s = s
direct_or (some p) s = slice_bytes p

unfoldable pub key_bytes : {U : Type 0} → Stream U → Bytes
key_bytes t = direct_or t.direct_key (scratch_slice t.scratch t.key_begin t.key_end)

unfoldable pub value_bytes : {U : Type 0} → Stream U → Bytes
value_bytes t = direct_or t.direct_value (scratch_slice t.scratch t.value_begin t.value_end)

unfoldable pub make_key : {U : Type 0} → Stream U → Option Bytes
unfolding key_bytes
make_key t = if t.has_key then some (key_bytes t) else none

-- `kason_stream_emit`, when the callback has returned.
abbrev pub after_callback : {U : Type 0} → Stream U → Bool × U → Outcome U
after_callback t (true, u) =
    (success, record t { user_data = u; callback_break = true; complete = true; state = finished })
after_callback t (false, u) = (success, record t { user_data = u })

unfoldable pub stream_emit :
    {U : Type 0} → JsonType → StreamEvent → Bytes → Bool → Stream U → Outcome U
unfolding make_key
stream_emit kind event text include_key t =
    let sent : StreamData = record { type = kind; event = event; text = text } in
    after_callback t (t.callback (if include_key then make_key t else none) sent t.user_data)

unfoldable pub stream_reset : {U : Type 0} → Stream U → Stream U
unfolding clear_scratch
stream_reset t = record (clear_scratch t) {
  mode = m_auto;
  state = find_root;
  complete = false;
  callback_break = false;
  end_token = 0;
  has_entries = false;
  container_type = unknown;
  container_string = false;
  container_text = clear_text;
}

-- `kason_stream_init` of a stream that is not NULL; `none` is a callback that is NULL.
unfoldable pub stream_init : {U : Type 0} → Option (StreamCallback U) → ℕ → U → Stream U → Outcome U
unfolding stream_reset clear_scratch
stream_init none size u t = (null_callback, t)
stream_init (some callback) size u t = if leb size 1 then (error, t) else (
  success,
  stream_reset (record t { scratch_size = size; callback = callback; user_data = u }),
)
