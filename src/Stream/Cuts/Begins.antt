-- ===== src/Stream/Cuts/Begins.antt =====
-- The escapes in a string, and the begin of a slice of the chunk, in `kason_stream_feed` of kason.c.
use kason.Base.{
  ℕ, ◌-◌, ◌≤◌, none, some, [], ◌∷◌, ◌++◌, Bytes, length, length-append, append-nil, ◌≡◌, refl, sym,
  ◌∙◌, ap, subst, arith,
}
use kason.Parse.Tokens.{Slice, slice_bytes}
use kason.Stream.State.{Phase, find_string_end, string_escape, success, Stream}
use kason.Stream.Feed.{at_rest, string_escape_byte}
use kason.Stream.Bounds.{is_container}
use kason.Stream.Cuts.Settle.{part, with_key, settle, settle_nothing}
use kason.Stream.Cuts.Drip.{outcome_of, Nothing, Placed, Underway, Agrees, Agrees-going}
use kason.Stream.Cuts.Between.{Underway-step, settle-direct_value}
use kason.Stream.Cuts.Escapes.{Sound-Agrees, Underway-append, Appended, process_escape-Sound}
use kason.Stream.Cuts.Commits.{Nothing-Placed}

-- A byte of an escape in a string.
value_ends :
    {U : Type 0} (c : ℕ) (s : Bytes) (t u : Stream U)
    → Underway (c ∷ s) t
    → Nothing t
    → Appended c t u
    → Placed u.state s (record u { value_end = length u.scratch - 1 })
    → Underway s (record u { value_end = length u.scratch - 1 })
value_ends c s t u h nothing a placed =
    let settled = settle_nothing t nothing.0 nothing.1 in
    Underway-append c s t (record u { value_end = length u.scratch - 1 }) h
      (a.scratch ∙ ap (λ x. x.scratch ++ (c ∷ [])) (sym settled)) a.size
      (omega (arith, a.key, h.key_inside, ap length a.scratch, length-append t.scratch (c ∷ [])))
      a.quiet a.callback a.nothing placed

pub string_escape_byte-Agrees :
    {U : Type 0} (c : ℕ) (s : Bytes) (t : Stream U)
    → t.state ≡ string_escape
    → Underway (c ∷ s) t
    → Agrees s
        (at_rest s (string_escape_byte c t))
        (outcome_of (at_rest [] (string_escape_byte c (settle t))))
unfolding string_escape_byte
string_escape_byte-Agrees {U} c s t e h =
    let nothing = subst (λ x. Placed x (c ∷ s) t) e h.placed in
    let settled = settle_nothing t nothing.0 nothing.1 in
    let n = ap (λ x. length (x.scratch)) settled in
    let ended = λ (u : Stream U). record u { value_end = length u.scratch - 1 } in
    subst
      (λ x.
        Agrees s (at_rest s (string_escape_byte c t))
          (outcome_of (at_rest [] (string_escape_byte c x))))
      (sym settled)
      (Sound-Agrees s (string_escape_byte c t) (
        process_escape-Sound c s t find_string_end ended nothing (omega (arith, h.room, n))
          (λ u a q. value_ends c s t u h nothing a (
            Nothing-Placed u.state s (ended u) a.nothing
              (λ x. absurd (cc (x, ap is_container (q ∙ e))))))
          (λ u a q. value_ends c s t u h nothing a (
            Nothing-Placed u.state s (ended u) a.nothing (λ x. absurd (cc (x, ap is_container q)))))
          t.escape_hex_left))

-- The begin of a slice of the chunk, with the key in the buffer already or not.
settle-again :
    {U : Type 0} (t : Stream U) (y : Slice)
    → t.direct_value ≡ none
    → settle (record (settle t) { direct_value = some y })
      ≡ settle (record t { direct_value = some y })
unfolding settle
settle-again t y v =
    let e : (with_key t ++ part t.direct_value) ++ [] ≡ with_key t =
      append-nil (with_key t ++ part t.direct_value)
      ∙ ap (λ o. with_key t ++ part o) v
      ∙ append-nil (with_key t) in
    ap
      (λ b. record (settle t) {
        scratch = b ++ slice_bytes y;
        value_begin = length b;
        value_end = length (b ++ slice_bytes y) - 1;
      })
      e

pub begins-Agrees :
    {U : Type 0} (c : ℕ) (s : Bytes) (t : Stream U) (phase : Phase) (x y : Slice)
    → Underway (c ∷ s) t
    → t.direct_value ≡ none
    → slice_bytes x ≡ slice_bytes y
    → length (slice_bytes x) ≤ 1
    → Placed phase s (record t { direct_value = some x; state = phase })
    → Agrees s
        (success, s, record t { direct_value = some x; state = phase })
        (success, record (settle t) { direct_value = some y; state = phase })
begins-Agrees c s t phase x y h v e le placed =
    let u = record t { state = phase } in
    Agrees-going s (record t { direct_value = some x; state = phase })
      (record (settle t) { direct_value = some y; state = phase })
      (Underway-step c s t (record t { direct_value = some x; state = phase }) h refl refl refl refl
        refl (omega (arith, le)) placed)
      (settle-direct_value u x y e ∙ (unfold settle in sym (settle-again u y v)))
