-- ===== src/Stream/Container.antt =====
-- A container inside the document that the streaming parser of kason.c reads: it is reported in
-- parts, with its open brackets in the scratch buffer.
use kason.Base.{
  ℕ, ◌-◌, Bool, true, false, not, ◌&&◌, ◌||◌, [], ◌∷◌, leb, ◌==◌, if◌then◌else◌, Bytes, length,
  get_or, take,
}
use kason.Types.{JsonType, array, object}
use kason.Parse.Tokens.{slice_bytes, is_empty}
use kason.Stream.Text.{clear_text, TextStep, text_error, text_closed, text_next, text_byte}
use kason.Stream.State.{
  find_param_sep, stream_container, StreamResult, success, incomplete, error, null_callback,
  buffer_full, container_begin, container_part, container_end, Stream, Outcome, on_success,
  unless_break, clear_scratch, append_scratch, stream_emit,
}

unfoldable pub container_match : ℕ → ℕ → Bool
container_match open_byte close_byte =
    (open_byte == b'{' && close_byte == b'}') || (open_byte == b'[' && close_byte == b']')

abbrev pub is_open : ℕ → Bool
is_open c = c == b'{' || c == b'['

abbrev pub is_close : ℕ → Bool
is_close c = c == b'}' || c == b']'

abbrev pub container_kind : ℕ → JsonType
container_kind c = if c == b'{' then object else array

abbrev pub container_opened : {U : Type 0} → Stream U → Stream U
container_opened t = record t {
  container_string = false;
  container_text = clear_text;
  state = stream_container;
}

unfoldable pub start_container : {U : Type 0} → ℕ → Stream U → Outcome U
unfolding stream_emit clear_scratch append_scratch
start_container c t =
    let typed = record t { container_type = container_kind c } in
    unless_break (stream_emit (container_kind c) container_begin (c ∷ []) true typed)
      (λ u. on_success (append_scratch c (clear_scratch u)) (λ v. (success, container_opened v)))

-- A byte of a container: an error, the mark that closes the whole container, or neither.
pub data ContainerStep (U : Type 0) : Type 0 where
  refused : StreamResult → Stream U → ContainerStep U
  final_close : Stream U → ContainerStep U
  inside : Stream U → ContainerStep U

abbrev pub after_text : {U : Type 0} → Stream U → TextStep → ContainerStep U
after_text t (text_error x) = refused error (record t { container_text = x })
after_text t text_closed = inside (record t { container_string = false })
after_text t (text_next x) = inside (record t { container_text = x })

abbrev pub pushed : {U : Type 0} → Outcome U → ContainerStep U
pushed (success, t) = inside t
pushed (incomplete, t) = refused incomplete t
pushed (error, t) = refused error t
pushed (null_callback, t) = refused null_callback t
pushed (buffer_full, t) = refused buffer_full t

abbrev pub popped : {U : Type 0} → Stream U → ContainerStep U
popped t = if length t.scratch == 1 then final_close t else inside t

unfoldable pub structure_byte : {U : Type 0} → ℕ → Stream U → ContainerStep U
unfolding append_scratch container_match
structure_byte c t =
    if c == b'"'
    then inside (record t { container_string = true; container_text = clear_text })
    else if is_open c
    then pushed (append_scratch c t)
    else if is_close c
    then (if leb (length t.scratch) 1
          || not (container_match (get_or t.scratch (length t.scratch - 1) 0) c)
        then refused error t
        else popped (record t { scratch = take (length t.scratch - 1) t.scratch }))
    else inside t

unfoldable pub container_byte : {U : Type 0} → ℕ → Stream U → ContainerStep U
unfolding structure_byte text_byte
container_byte c t =
    if t.container_string
    then after_text t (text_byte t.container_text.surrogate_state t.container_text c)
    else structure_byte c t

-- A part of the container, from `part_start` on, unless it is empty.
unfoldable pub emit_part : {U : Type 0} → Bytes → Bytes → Stream U → Outcome U
unfolding stream_emit
emit_part part_start behind t =
    let part = slice_bytes (record { begin = part_start; behind = behind }) in
    if is_empty part then (success, t) else stream_emit t.container_type container_part part false t

unfoldable pub container_ended : {U : Type 0} → Stream U → Stream U
unfolding clear_scratch
container_ended t = record (clear_scratch t) { has_entries = true; state = find_param_sep }

-- The whole container is closed by `c`: its last part and its end.
unfoldable pub end_container : {U : Type 0} → Bytes → ℕ → Bytes → Stream U → Outcome U
unfolding stream_emit emit_part container_ended
end_container part_start c s t = unless_break (emit_part part_start (c ∷ s) t) (λ u.
    unless_break (stream_emit u.container_type container_end (c ∷ []) false u)
      (λ v. (success, container_ended v)))

-- `kason_stream_process_container`: the loop on the rest of the chunk, and the rest it leaves.
abbrev pub next_container :
    {U : Type 0}
    → (Stream U → StreamResult × Bytes × Stream U)
    → Bytes
    → ℕ
    → Bytes
    → ContainerStep U
    → StreamResult × Bytes × Stream U
next_container later part_start c s (refused result t) = (result, part_start, t)
next_container later part_start c s (final_close t) =
    let (result, u) = end_container part_start c s t in (result, s, u)
next_container later part_start c s (inside t) = later t

unfoldable pub container_loop :
    {U : Type 0} → Bytes → Bytes → Stream U → StreamResult × Bytes × Stream U
unfolding container_byte end_container emit_part
container_loop part_start [] t = let (result, u) = emit_part part_start [] t in (result, [], u)
container_loop part_start (c ∷ s) t =
    next_container (container_loop part_start s) part_start c s (container_byte c t)

unfoldable pub process_container : {U : Type 0} → Bytes → Stream U → StreamResult × Bytes × Stream U
unfolding container_loop
process_container s t = container_loop s s t
