-- ===== src/Stream/Cuts/Room.antt =====
-- The scratch buffer of the streaming parser of kason.c is never full if it is larger than the input.
use kason.Base.{
  ℕ, ◌≤◌, ◌<◌, ltb, leb, Bool, true, false, Option, none, some, List, [], ◌∷◌, if◌then◌else◌, Bytes,
  length, ◌≡◌, ◌≢◌, refl, sym, ◌∙◌, ap, arith,
}
use kason.Stream.State.{
  StreamCallback, clear_scratch, stream_reset, stream_init, success, incomplete, error,
  null_callback, buffer_full, Stream, Outcome,
}
use kason.Stream.Calls.{is_finished, feed_byte}
use kason.Stream.Cuts.Settle.{settle, settle_nothing}
use kason.Stream.Cuts.Drip.{
  Seen, going, broke, failed, seen, outcome_of, proceed, drip, IgnoresParts, observe, observe_call,
  at_end,
}
use kason.Stream.Cuts.Rests.{Resting, HasRoom, feed_byte-HasRoom, feed_byte-Resting}
use kason.Stream.Cuts.Chunks.{feed_chunks, joined, observed, feed_chunks-drips}

drip-HasRoom : {U : Type 0} (s : Bytes) (t : Stream U) → Resting s t → HasRoom (drip s t)
unfolding drip
drip-HasRoom [] t h = tt
drip-HasRoom {U} (c ∷ s) t h =
    further (seen (outcome_of (feed_byte t.state c [] t))) refl (feed_byte-HasRoom c s t h)
      (λ u e. drip-HasRoom s u (feed_byte-Resting c s t u h e))
  where
    further :
        (y : Seen U)
        → seen (outcome_of (feed_byte t.state c [] t)) ≡ y
        → HasRoom y
        → ((u : Stream U)
            → seen (outcome_of (feed_byte t.state c [] t)) ≡ going u
            → HasRoom (drip s u))
        → HasRoom (proceed (drip s) y)
    further (going u) e room k = k u e
    further (broke u) e room k = tt
    further (failed result u) e room k = room

-- A result is returned, and it is not that the scratch buffer is full.
abbrev pub NeverFull : {U : Type 0} → Option (Outcome U) → Type 0
NeverFull none = ⊥
NeverFull (some (result, t)) = result ≢ buffer_full

result_of : {U : Type 0} (r : Outcome U) → (observe r).0 ≡ r.0
result_of (success, t) = refl
result_of (incomplete, t) = refl
result_of (error, t) = refl
result_of (null_callback, t) = refl
result_of (buffer_full, t) = refl

room_left : {U : Type 0} (y : Seen U) → HasRoom y → (at_end y).0 ≢ buffer_full
room_left (going t) room e = ended_well (is_finished t.state) e
  where
    ended_well : (b : Bool) → (if b then success else incomplete) ≢ buffer_full
    ended_well true e = cc e
    ended_well false e = cc e
room_left (broke u) room e = cc e
room_left (failed result u) room e = room e

at_end-NeverFull :
    {U : Type 0} (r : Option (Outcome U)) (y : Seen U)
    → observe_call r ≡ some (at_end y)
    → HasRoom y
    → NeverFull r
at_end-NeverFull none y e room = absurd (cc e)
at_end-NeverFull (some r) y e room =
    λ full. room_left y room (sym (ap (λ x. x.0) (observed e)) ∙ result_of r ∙ full)

-- If the scratch buffer has room for what a stream between two chunks holds and for all the bytes to
-- come, and the callback takes no notice of the parts of containers and continues on them, every call
-- returns, and none returns KaSON_PARSE_RESULT_ERROR_BUFFER_FULL, however the input is cut.
pub feed_chunks-NeverFull :
    {U : Type 0} (chunk : Bytes) (chunks : List Bytes) (t : Stream U)
    → Resting (joined chunk chunks) t
    → NeverFull (feed_chunks chunk chunks t)
feed_chunks-NeverFull chunk chunks t h =
    at_end-NeverFull (feed_chunks chunk chunks t) (drip (joined chunk chunks) t)
      (feed_chunks-drips chunk chunks t h) (drip-HasRoom (joined chunk chunks) t h)

-- `kason_stream_init` with a callback that takes no notice of the parts of containers and continues on
-- them succeeds for every scratch buffer of two bytes or more, and leaves a stream between two chunks
-- that has room for every input that is shorter than the buffer.
pub stream_init-Resting :
    {U : Type 0} (callback : StreamCallback U) (size : ℕ) (u : U) (t : Stream U) (s : Bytes)
    → IgnoresParts callback
    → 2 ≤ size
    → length s < size
    → (v : Stream U) × (stream_init (some callback) size u t ≡ (success, v)) × Resting s v
unfolding stream_init stream_reset clear_scratch settle
stream_init-Resting {U} callback size u t s ignores le lt =
    let first : ◌≡◌ {A = Bytes} (if ltb 0 size then 0 ∷ [] else []) (0 ∷ []) = ground (arith, le) in
    let refused : leb size 1 ≡ false = ground (arith, le) in
    let v = stream_reset (record t { scratch_size = size; callback = callback; user_data = u }) in
    let n : length (settle v).scratch ≡ 1 =
      ap (λ (x : Stream U). length x.scratch) (settle_nothing v refl refl) ∙ ap length first in
    (
      v,
      rw refused refl,
      (
        record {
          filled = omega (arith, ap length first);
          key_inside = omega (arith, ap length first);
          room = omega (arith, n, lt);
          quiet = refl;
          ignores = ignores;
          placed = (refl, refl);
        },
        (refl, refl),
      ),
    )
