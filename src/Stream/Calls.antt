-- ===== src/Stream/Calls.antt =====
-- `kason_stream_feed` and `kason_stream_finish` of kason.c: the loop over a chunk, and its end.
use kason.Base.{
  ℕ, zero, suc, ◌+◌, Bool, true, false, ◌&&◌, Option, none, some, [], ◌∷◌, if◌then◌else◌, Bytes,
  length,
}
use kason.Chars.{is_whitespace}
use kason.Stream.State.{
  Phase, find_root, find_key_begin, find_key_end, find_value_sep, find_value_begin, find_string_end,
  find_generic_end, find_param_sep, stream_container, key_escape, string_escape, finished, success,
  incomplete, error, null_callback, buffer_full, Stream, Outcome, on_success, unless_break,
  preserve_direct,
}
use kason.Stream.Tokens.{is_generic, commit_generic}
use kason.Stream.Container.{process_container}
use kason.Stream.Feed.{
  Step, at_rest, find_root_byte, find_key_begin_byte, find_key_end_byte, key_escape_byte,
  find_value_sep_byte, find_value_begin_byte, find_string_end_byte, string_escape_byte,
  find_generic_end_byte, find_param_sep_byte,
}

-- A round of the loop: behind the document only white space may follow.
unfoldable pub feed_byte : {U : Type 0} → Phase → ℕ → Bytes → Stream U → Step U
unfolding find_root_byte find_key_begin_byte find_key_end_byte key_escape_byte find_value_sep_byte
    find_value_begin_byte find_string_end_byte string_escape_byte find_generic_end_byte
    find_param_sep_byte process_container
feed_byte finished c s t = if is_whitespace c then (success, s, t) else (error, s, t)
feed_byte find_root c s t = at_rest s (find_root_byte c s t)
feed_byte find_key_begin c s t = at_rest s (find_key_begin_byte c s t)
feed_byte find_key_end c s t = find_key_end_byte c s t
feed_byte key_escape c s t = at_rest s (key_escape_byte c t)
feed_byte find_value_sep c s t = at_rest s (find_value_sep_byte c t)
feed_byte find_value_begin c s t = at_rest s (find_value_begin_byte c s t)
feed_byte find_string_end c s t = find_string_end_byte c s t
feed_byte string_escape c s t = at_rest s (string_escape_byte c t)
feed_byte find_generic_end c s t = find_generic_end_byte c s t
feed_byte find_param_sep c s t = at_rest s (find_param_sep_byte c t)
feed_byte stream_container c s t = process_container (c ∷ s) t

-- Behind the loop.
abbrev pub is_finished : Phase → Bool
is_finished finished = true
is_finished find_root = false
is_finished find_key_begin = false
is_finished find_key_end = false
is_finished find_value_sep = false
is_finished find_value_begin = false
is_finished find_string_end = false
is_finished find_generic_end = false
is_finished find_param_sep = false
is_finished stream_container = false
is_finished key_escape = false
is_finished string_escape = false

unfoldable pub feed_end : {U : Type 0} → Stream U → Outcome U
unfolding preserve_direct
feed_end t =
    on_success (preserve_direct t) (λ u. (if is_finished u.state then success else incomplete, u))

abbrev pub next_round :
    {U : Type 0} → (Bytes → Stream U → Option (Outcome U)) → Step U → Option (Outcome U)
next_round later (success, s, t) = if t.callback_break then some (success, t) else later s t
next_round later (incomplete, s, t) = some (incomplete, t)
next_round later (error, s, t) = some (error, t)
next_round later (null_callback, s, t) = some (null_callback, t)
next_round later (buffer_full, s, t) = some (buffer_full, t)

-- The loop, on fuel.
unfoldable pub feed_loop : {U : Type 0} → ℕ → Bytes → Stream U → Option (Outcome U)
unfolding feed_byte feed_end
feed_loop zero s t = none
feed_loop (suc fuel) [] t = some (feed_end t)
feed_loop (suc fuel) (c ∷ s) t = next_round (feed_loop fuel) (feed_byte t.state c s t)

unfoldable pub stream_feed : {U : Type 0} → Bytes → Stream U → Option (Outcome U)
unfolding feed_loop
stream_feed chunk t =
    if t.callback_break then some (success, t) else feed_loop (length chunk + 1) chunk t

abbrev pub is_generic_end : Phase → Bool
is_generic_end find_generic_end = true
is_generic_end finished = false
is_generic_end find_root = false
is_generic_end find_key_begin = false
is_generic_end find_key_end = false
is_generic_end find_value_sep = false
is_generic_end find_value_begin = false
is_generic_end find_string_end = false
is_generic_end find_param_sep = false
is_generic_end stream_container = false
is_generic_end key_escape = false
is_generic_end string_escape = false

unfoldable pub stream_finish : {U : Type 0} → Stream U → Outcome U
unfolding commit_generic
stream_finish t =
    if t.callback_break
    then (success, t)
    else if is_finished t.state
    then (success, t)
    else if is_generic_end t.state && is_generic t.mode
    then unless_break (commit_generic 0 t)
        (λ u. (if is_finished u.state then success else error, u))
    else (error, t)
