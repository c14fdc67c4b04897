-- ===== src/Stream/Bounds/Returns.antt =====
-- A call of `kason_stream_feed` of kason.c returns, and stays inside the scratch buffer.
use kason.Base.{
  ℕ, zero, suc, ◌+◌, ◌≤◌, ◌<◌, Bool, true, false, Option, none, some, [], ◌∷◌, if◌then◌else◌, Bytes,
  length, ◌≡◌, inl, inr, refl, ap, arith, Bool-cases,
}
use kason.Chars.{is_whitespace}
use kason.Parse.Tokens.{Slice}
use kason.Stream.State.{
  Phase, find_root, find_key_begin, find_key_end, find_value_sep, find_value_begin, find_string_end,
  find_generic_end, find_param_sep, stream_container, key_escape, string_escape, finished,
  StreamResult, success, incomplete, error, null_callback, buffer_full, Stream, Outcome,
  copy_direct_key, copy_direct_value, preserve_direct,
}
use kason.Stream.Feed.{
  find_root_byte, find_key_begin_byte, key_escape_byte, find_value_sep_byte, find_value_begin_byte,
  string_escape_byte, find_param_sep_byte,
}
use kason.Stream.Calls.{feed_byte, is_finished, feed_end, next_round, feed_loop, stream_feed}
use kason.Stream.Bounds.{is_container, Bounded, Leaves, on_success-Leaves, preserve_direct-Outside}
use kason.Stream.Bounds.Values.{Cleared}
use kason.Stream.Bounds.ContainerLoop.{Moves, Moves-at_rest, process_container-Moves}
use kason.Stream.Bounds.Phases.{
  find_root_byte-Bounded, find_key_begin_byte-Bounded, find_value_sep_byte-Bounded,
  find_param_sep_byte-Bounded, Outside-Bounded,
}
use kason.Stream.Bounds.Feed.{
  key_escape_byte-Bounded, string_escape_byte-Bounded, find_value_begin_byte-Bounded,
  find_key_end_byte-Moves, find_string_end_byte-Moves, find_generic_end_byte-Moves,
}

-- In the phase of a container no slice is in use.
Bounded-Cleared : {U : Type 0} (t : Stream U) → t.state ≡ stream_container → Bounded t → Cleared t
Bounded-Cleared t e h = record {
  holds = h.filled;
  inside = h.inside;
  no_key = h.no_key (ap is_container e);
  no_value = h.no_value (ap is_container e);
}

feed_byte-Moves :
    {U : Type 0} (phase : Phase) (c : ℕ) (s : Bytes) (t : Stream U)
    → t.state ≡ phase
    → Bounded t
    → Moves Bounded (length s) (feed_byte phase c s t)
unfolding feed_byte
feed_byte-Moves finished c s t e h = elim (Bool-cases (is_whitespace c)) [
  | inl p ↦ rw p (λ x. omega arith, h)
  | inr p ↦ rw p (λ x. omega arith, h)
]
feed_byte-Moves find_root c s t e h =
    Moves-at_rest Bounded s (find_root_byte c s t)
      (find_root_byte-Bounded c s t (h, ap is_container e))
feed_byte-Moves find_key_begin c s t e h =
    Moves-at_rest Bounded s (find_key_begin_byte c s t)
      (find_key_begin_byte-Bounded c s t (h, ap is_container e))
feed_byte-Moves find_key_end c s t e h = find_key_end_byte-Moves c s t (h, ap is_container e)
feed_byte-Moves key_escape c s t e h =
    Moves-at_rest Bounded s (key_escape_byte c t)
      (key_escape_byte-Bounded c t (h, ap is_container e))
feed_byte-Moves find_value_sep c s t e h =
    Moves-at_rest Bounded s (find_value_sep_byte c t)
      (find_value_sep_byte-Bounded c t (h, ap is_container e))
feed_byte-Moves find_value_begin c s t e h =
    Moves-at_rest Bounded s (find_value_begin_byte c s t)
      (find_value_begin_byte-Bounded c s t (h, ap is_container e))
feed_byte-Moves find_string_end c s t e h = find_string_end_byte-Moves c s t (h, ap is_container e)
feed_byte-Moves string_escape c s t e h =
    Moves-at_rest Bounded s (string_escape_byte c t)
      (string_escape_byte-Bounded c t (h, ap is_container e))
feed_byte-Moves find_generic_end c s t e h =
    find_generic_end_byte-Moves c s t (h, ap is_container e)
feed_byte-Moves find_param_sep c s t e h =
    Moves-at_rest Bounded s (find_param_sep_byte c t)
      (find_param_sep_byte-Bounded c t (h, ap is_container e))
feed_byte-Moves stream_container c s t e h = process_container-Moves c s t (Bounded-Cleared t e h)

copy_nothing_key :
    {U : Type 0} (o : Option Slice) (t : Stream U) → o ≡ none → copy_direct_key o t ≡ (success, t)
copy_nothing_key none t e = refl
copy_nothing_key (some p) t e = absurd (cc e)

copy_nothing_value :
    {U : Type 0} (o : Option Slice) (t : Stream U) → o ≡ none → copy_direct_value o t ≡ (success, t)
copy_nothing_value none t e = refl
copy_nothing_value (some p) t e = absurd (cc e)

pub preserve_nothing :
    {U : Type 0} (t : Stream U)
    → t.direct_key ≡ none
    → t.direct_value ≡ none
    → preserve_direct t ≡ (success, t)
unfolding preserve_direct
preserve_nothing t k v =
    rw (copy_nothing_key t.direct_key t k) (copy_nothing_value t.direct_value t v)

preserve_direct-Bounded :
    {U : Type 0} (t : Stream U) → Bounded t → Leaves Bounded (preserve_direct t)
preserve_direct-Bounded t h = elim (Bool-cases (is_container t.state)) [
  | inl e ↦ rw (preserve_nothing t (h.no_key e).1 (h.no_value e).1) h
  | inr e ↦ Outside-Bounded (preserve_direct t) (preserve_direct-Outside t (h, e))
]

feed_end-Bounded : {U : Type 0} (t : Stream U) → Bounded t → Leaves Bounded (feed_end t)
unfolding feed_end
feed_end-Bounded t h =
    on_success-Leaves Bounded Bounded (preserve_direct t)
      (λ u. (if is_finished u.state then success else incomplete, u)) (λ u q. q)
      (preserve_direct-Bounded t h) (λ u q. q)

-- The call returns, and leaves a stream with the property.
abbrev pub Returns : {U : Type 0} → (Stream U → Type 0) → Option (Outcome U) → Type 0
Returns P none = ⊥
Returns P (some r) = Leaves P r

next_round-Returns :
    {U : Type 0} (n : ℕ) (later : Bytes → Stream U → Option (Outcome U))
    (r : StreamResult × Bytes × Stream U)
    → Moves Bounded n r
    → ((s : Bytes) (t : Stream U) → length s ≤ n → Bounded t → Returns Bounded (later s t))
    → Returns Bounded (next_round later r)
next_round-Returns {U} n later (success, s, t) (short, h) step = broken t.callback_break
  where
    broken : (b : Bool) → Returns Bounded (if b then some (success, t) else later s t)
    broken true = h
    broken false = step s t (short refl) h
next_round-Returns n later (incomplete, s, t) (short, h) step = h
next_round-Returns n later (error, s, t) (short, h) step = h
next_round-Returns n later (null_callback, s, t) (short, h) step = h
next_round-Returns n later (buffer_full, s, t) (short, h) step = h

feed_loop-Returns :
    {U : Type 0} (fuel : ℕ) (s : Bytes) (t : Stream U)
    → length s < fuel
    → Bounded t
    → Returns Bounded (feed_loop fuel s t)
unfolding feed_loop
feed_loop-Returns zero s t lt h = elim lt [ ]
feed_loop-Returns (suc fuel) [] t lt h = feed_end-Bounded t h
feed_loop-Returns (suc fuel) (c ∷ s) t lt h =
    next_round-Returns (length s) (feed_loop fuel) (feed_byte t.state c s t)
      (feed_byte-Moves t.state c s t refl h)
      (λ x u le q. feed_loop-Returns fuel x u (omega (arith, le, lt)) q)

-- On every chunk and with every callback `kason_stream_feed` returns and, whatever it returns, keeps the
-- scratch buffer within its bounds: at least one and at most `scratch_size` bytes are in use, the slices
-- in it end among those, and while a container is read no slice is kept.
pub stream_feed-Returns :
    {U : Type 0} (chunk : Bytes) (t : Stream U) → Bounded t → Returns Bounded (stream_feed chunk t)
unfolding stream_feed
stream_feed-Returns {U} chunk t h = broken t.callback_break
  where
    broken :
        (b : Bool)
        → Returns Bounded (if b then some (success, t) else feed_loop (length chunk + 1) chunk t)
    broken true = h
    broken false = feed_loop-Returns (length chunk + 1) chunk t (omega arith) h
