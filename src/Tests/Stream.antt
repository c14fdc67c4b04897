-- ===== src/Tests/Stream.antt =====
-- Tests of the streaming parser.
use kason.Base.{Bool, false, Option, none, some, List, [], ◌∷◌, ◌++◌, Bytes, ◌≡◌, refl, ap, arith}
use kason.Tests.Text.{codes}
use kason.Stream.Tokens.{
  process_escape, generic_delimiter, commit_generic, commit_primitive, generic_type, after_generic,
}
use kason.Stream.Container.{
  start_container, process_container, container_loop, container_byte, structure_byte,
  container_match, end_container, container_ended, emit_part,
}
use kason.Chars.{is_whitespace, is_digit, is_control_char, is_simple_escape, is_hex_digit}
use kason.Number.Valid.{is_valid_number}
use kason.Types.{unknown}
use kason.Strings.Next.{next_in_slice, decode_first, plain_byte, escape_sequence}
use kason.Strings.Loop.{scalar_loop, string_is_valid}
use kason.Stream.Text.Accepts.{accepts_text}
use kason.Stream.Text.Checks.{accepts_text-string_is_valid}
use kason.Stream.Bounds.{Bounded, clear_scratch-Bounded}
use kason.Stream.Bounds.Returns.{Returns, stream_feed-Returns}
use kason.Stream.Text.{clear_text}
use kason.Stream.State.{
  stream_init, m_auto, find_root, stream_reset, clear_scratch, StreamResult, success, StreamEvent,
  value_event, container_begin, container_part, container_end, StreamCallback, Stream,
  preserve_direct, copy_loop, append_scratch, key_bytes, value_bytes, make_key, stream_emit,
}
use kason.Stream.Cuts.Settle.{settle}
use kason.Stream.Cuts.Drip.{IgnoresParts, drip, Observed, observe_call, at_end}
use kason.Stream.Cuts.Rests.{Resting}
use kason.Stream.Cuts.Chunks.{feed_chunks, joined, feed_chunks-stream_feed, stream_feed-drips}
use kason.Stream.Cuts.Room.{NeverFull, feed_chunks-NeverFull, stream_init-Resting}
use kason.Stream.Feed.{
  find_root_byte, find_key_begin_byte, find_key_end_byte, key_escape_byte, find_value_sep_byte,
  find_value_begin_byte, find_generic_end_byte, find_param_sep_byte, begin_escape, skip_text,
  skip_generic,
}
use kason.Stream.Calls.{stream_feed, feed_loop, feed_byte, feed_end}

-- A callback that keeps the bytes of every event, keys first.
abbrev keep : StreamCallback (List Bytes)
keep none sent seen = (false, seen ++ (sent.text ∷ []))
keep (some key) sent seen = (false, seen ++ (key ∷ sent.text ∷ []))

abbrev no_stream : Stream (List Bytes)
no_stream = record {
  scratch = [];
  scratch_size = 0;
  callback = keep;
  user_data = [];
  mode = m_auto;
  state = find_root;
  complete = false;
  callback_break = false;
  end_token = 0;
  key_begin = 0;
  key_end = 0;
  value_begin = 0;
  value_end = 0;
  direct_key = none;
  direct_value = none;
  has_key = false;
  has_entries = false;
  escape_hex_left = 0;
  container_type = unknown;
  container_string = false;
  container_text = clear_text;
}

abbrev fresh : Stream (List Bytes)
fresh = stream_reset (record no_stream { scratch_size = 64 })

abbrev cut : Bytes
cut = codes "{\"a\\n\":[1,\"x"

abbrev rest_of_cut : Bytes
rest_of_cut = codes "\"],\"c\":12 }"

fresh-Bounded : Bounded fresh
unfolding stream_reset clear_scratch
fresh-Bounded = clear_scratch-Bounded fresh (omega arith)

accepts_text-string_is_valid_example :
    accepts_text clear_text (codes "a\\u00e9") ≡ string_is_valid (some (codes "a\\u00e9"))
accepts_text-string_is_valid_example = accepts_text-string_is_valid (codes "a\\u00e9")

stream_feed-Returns_example : Returns Bounded (stream_feed cut fresh)
stream_feed-Returns_example = stream_feed-Returns cut fresh fresh-Bounded

-- A callback that keeps values and the begins and ends of containers, not their parts.
abbrev whole_event : StreamEvent → Bytes → List Bytes → Bool × List Bytes
whole_event value_event text seen = (false, seen ++ (text ∷ []))
whole_event container_begin text seen = (false, seen ++ (text ∷ []))
whole_event container_part text seen = (false, seen)
whole_event container_end text seen = (false, seen ++ (text ∷ []))

abbrev keep_whole : StreamCallback (List Bytes)
keep_whole key sent seen = whole_event sent.event sent.text seen

abbrev whole_stream : Stream (List Bytes)
whole_stream = record fresh { callback = keep_whole }

whole_stream-Resting : Resting (joined cut (rest_of_cut ∷ [])) whole_stream
unfolding stream_reset clear_scratch settle
whole_stream-Resting = (
  record {
    filled = omega arith;
    key_inside = omega arith;
    room = omega arith;
    quiet = refl;
    ignores = λ sent u e. ap (λ x. whole_event x sent.text u) e;
    placed = (refl, refl);
  },
  (refl, refl),
)

feed_chunks-stream_feed_example :
    observe_call (feed_chunks cut (rest_of_cut ∷ []) whole_stream)
    ≡ observe_call (stream_feed (joined cut (rest_of_cut ∷ [])) whole_stream)
feed_chunks-stream_feed_example =
    feed_chunks-stream_feed cut (rest_of_cut ∷ []) whole_stream whole_stream-Resting

stream_feed-drips_example :
    observe_call (stream_feed (joined cut (rest_of_cut ∷ [])) whole_stream)
    ≡ some (at_end (drip (joined cut (rest_of_cut ∷ [])) whole_stream))
stream_feed-drips_example =
    stream_feed-drips (joined cut (rest_of_cut ∷ [])) whole_stream whole_stream-Resting

abbrev results : Option (Observed (List Bytes)) → Option (StreamResult × List Bytes)
results none = none
results (some (result, seen, left)) = some (result, seen)

-- Two chunks that cut a string in an array: the brackets of the array and the number are reported.
cut-results :
    results (observe_call (feed_chunks cut (rest_of_cut ∷ []) whole_stream))
    ≡ some (success, codes "[" ∷ codes "]" ∷ codes "12" ∷ [])
unfolding stream_reset clear_scratch feed_chunks stream_feed feed_loop feed_byte feed_end
    preserve_direct copy_loop append_scratch find_root_byte find_key_begin_byte find_key_end_byte
    key_escape_byte find_value_sep_byte find_value_begin_byte find_generic_end_byte
    find_param_sep_byte begin_escape process_escape skip_text skip_generic generic_delimiter
    key_bytes value_bytes make_key stream_emit start_container process_container container_loop
    container_byte structure_byte container_match end_container container_ended emit_part
    commit_generic commit_primitive generic_type after_generic string_is_valid is_whitespace
    is_digit is_control_char is_simple_escape is_hex_digit is_valid_number scalar_loop next_in_slice
    decode_first plain_byte escape_sequence
cut-results = refl

feed_chunks-NeverFull_example : NeverFull (feed_chunks cut (rest_of_cut ∷ []) whole_stream)
feed_chunks-NeverFull_example =
    feed_chunks-NeverFull cut (rest_of_cut ∷ []) whole_stream whole_stream-Resting

keep_whole-IgnoresParts : IgnoresParts keep_whole
keep_whole-IgnoresParts sent u e = ap (λ x. whole_event x sent.text u) e

stream_init-Resting_example :
    (v : Stream (List Bytes)) × (stream_init (some keep_whole) 64 [] no_stream ≡ (success, v))
    × Resting (joined cut (rest_of_cut ∷ [])) v
stream_init-Resting_example =
    stream_init-Resting keep_whole 64 [] no_stream (joined cut (rest_of_cut ∷ []))
      keep_whole-IgnoresParts (omega arith) (omega arith)
