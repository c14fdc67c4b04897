-- ===== src/Lib.antt =====
-- Verification of kason, a JSON library in C: the parts of `kason.c` below and what they promise.
--
-- The program. `kason.c` is one translation unit in layers. Character classes and the string decoder
-- (`kason_string_next_internal`) read one Unicode scalar of a JSON string slice; the public string
-- functions (`kason_strcpy`, `kason_strcpy_utf16`, `kason_strcpy_utf32`, `kason_strlen`,
-- `kason_strcmp`) loop over that decoder and encode or compare. Numbers are checked twice: as a whole
-- slice by `is_valid_number`, and byte by byte by the automaton `kason_number_begin`,
-- `kason_number_next`, `kason_number_complete`, which also feeds an accumulator from which a selected
-- value is converted. `kason_value_to_int64` and its siblings convert a number slice later.
-- `kason_parse_range` and `kason_parse` scan a whole text by recursive descent (`kason_scan_*`), check
-- its strings with the decoder, and report values and containers to a callback, whose answers decide
-- which containers are entered, captured or skipped, and when to stop.
-- A lookup table holds the keys that a client selects: open addressing by a hash of the length and of
-- the first and last four bytes, which is sampled while an object key is decoded.
-- The streaming parser (`kason_stream_feed`) takes a text in chunks: a state machine by bytes that
-- keeps what crosses a chunk in a scratch buffer, reports each value of the outer container whole and
-- the containers inside it in parts, whose strings it checks byte by byte.
--
-- The files.
-- `Base` and its children: the list, option, integer and bit operations that the other files share.
-- `Chars`: the character classes of `kason.c` (`is_digit` and the rest) and `kason_hex_value`.
-- `Types`: KaSON_TYPE_* and KaSON_CONVERT_* of `kason.h`.
-- `Strings/Next`: `kason_string_next_internal`, `kason_decode_hex4`; its bounds in `Next/Bounds`.
-- `Strings/Encode`: `kason_utf8_encode` and the UTF-16 and UTF-32 units; the round trips with the
--   decoder in `Encode/RoundTrip` and `Encode/Shortest`.
-- `Strings/Loop`: the loop over the scalars of a slice, and `kason_string_is_valid`.
-- `Strings/Copy`: `kason_strcpy`, `kason_strcpy_utf16`, `kason_strcpy_utf32`, `kason_strlen`.
-- `Strings/Compare`: `kason_strcmp`.
-- `Number/State`: the number automaton. `Number/Valid`: `is_valid_number`, with the JSON grammar of
--   numbers in `Valid/Grammar` and the comparison with the automaton in `Valid/Automaton`.
-- `Number/Integer`: `kason_integer_magnitude`, `kason_value_to_int64`, `kason_value_to_int`,
--   `kason_value_to_uint64`.
-- `Number/Accumulator`: `kason_number_accumulator_init` and `_feed`; `_finish` and
--   `kason_value_to_double` in `Accumulator/Finish`.
-- `Parse/Tokens`: white space, `kason_skip_plain_string`, `kason_scan_string`, `kason_scan_literal` and
--   the tokens of `kason_scan_primitive`. `Parse/Events`: the callback and `kason_scan_emit`.
-- `Parse/Frame`, `Parse/Scan`: `kason_scan_container`, `kason_scan_primitive`, `kason_scan_value`.
--   `Parse/Range`: `kason_scan_parse`, `kason_parse_range`, `kason_parse`.
-- `Parse/Grammar`: the JSON grammar. `Parse/Strings`, `Parse/Run`, `Parse/Quoted`, `Parse/Primitive`:
--   the tokens against it. `Parse/Inversion`, `Parse/Sound`: the soundness of the scan against the
--   grammar. `Parse/Lengths`, `Parse/Settled`, `Parse/Notes`: how it ends. `Parse/Heads`, `Parse/Reach`,
--   `Parse/Rounds`, `Parse/Complete`: its completeness. `Parse/Texts`: whole texts.
-- `Lookup/Hash`: `kason_hash_bytes` and the hash sample, compared in `Lookup/Sample` and `Lookup/Whole`.
--   `Lookup/Key`: `kason_lookup_key_init`, `kason_decoded_key_info`, `kason_decoded_key_equals`, with
--   their laws in `Lookup/Decoded`. `Lookup/Table`: `kason_lookup_table_init`,
--   `kason_lookup_table_add`, `kason_lookup_find`, with their laws in `Lookup/Found`, `Lookup/Keys`.
-- `Stream/Text`: the checks of strings in a streamed container (`kason_stream_process_utf8`,
--   `kason_stream_process_container_escape`), against the decoder in `Text/Accepts`, `Text/Checks`.
-- `Stream/State`: `kason_stream`, its scratch buffer, `kason_stream_emit`, `_reset`, `_init`.
--   `Stream/Tokens`: escapes and primitive values. `Stream/Container`:
--   `kason_stream_process_container`. `Stream/Feed`: the switch of `kason_stream_feed`.
--   `Stream/Calls`: `kason_stream_feed`, `kason_stream_finish`.
--   `Stream/Bounds` and its children: the bounds of the scratch buffer, and that a feed returns.
--   `Stream/Cuts` and its children: the input may be cut anywhere. `Cuts/Settle`, `Cuts/Drip`: the
--   buffer behind a chunk, and the bytes one by one. `Cuts/Between`, `Cuts/Begins`,
--   `Cuts/Escapes`, `Cuts/Commits`, `Cuts/Grow`, `Cuts/Keys`, `Cuts/Growing`: their steps, with the
--   loops that skip. `Cuts/Separators`, `Cuts/Opens`, `Cuts/KeyRounds`, `Cuts/Values`,
--   `Cuts/Containers`, `Cuts/ContainerRounds`: the rounds by phase. `Cuts/Rounds`,
--   `Cuts/Rests`, `Cuts/Chunks`: whole chunks and sequences of chunks. `Cuts/Room`: how large a
--   scratch buffer is enough.
-- `Tests`: runs of the definitions and of the theorems on concrete texts.
--
-- The correspondence. A byte is a number below 256, and an inclusive slice `[begin, end]` the list of
-- its bytes, so that a cursor is the rest of the list and `ptr > end` the empty list; a NULL pointer is
-- `none`. Lengths are those of buffers of at most INT_MAX bytes, for which the `int` counters of the
-- code do not wrap. A `uint32_t` shift keeps its wrap-around (`shl32`), and the guards of the code keep
-- the `uint64_t` magnitudes below 2^64. An output buffer is the list of the units written to its front.
-- Error codes are `none`, or a constructor of the result type. `double`, `snprintf` and `strtod` belong
-- to the C library and are the fields of the parameter `Libc`.
--
-- Loops that the code bounds by the slice are recursive in the list or run on the length of the slice
-- plus one as fuel, which is enough since every step consumes a byte.
--
-- The `while` loop of a container and the containers inside it share fuel, the length of the range plus
-- one, which is enough since every round consumes a byte. The callback is a function of the key, the
-- event, the count and the state behind `user_data`; a pointer into the range is the rest of the range
-- from there, so that an event's slice is the difference of two rests. Where the value of a member is
-- missing at the end of a range, the code reads the byte behind the range before it fails; the model
-- fails at once, as the code does for each value of that byte.
--
-- The stream's `scratch` is the list of the bytes in use, so that its length is `scratch_length`; a
-- pair of direct pointers is a slice of the chunk. The callback changes `user_data` only. A slice that
-- points into an earlier chunk, which an error leaves behind, is taken to keep its bytes.
--
-- Not modelled: the state machine `kason_parse_internal` and its callers, but for
-- the lookup of a key (`lookup` in `Lookup/Table`), and `kason_schema.c`.
pub mod Base
pub mod Chars
pub mod Types
pub mod Strings
pub mod Number
pub mod Parse
pub mod Lookup
pub mod Stream
mod Tests
