-- ===== src/Stream/Cuts/Keys.antt =====
-- A key that grows in `kason_stream_feed` of kason.c, in the chunk or in the scratch buffer.
use kason.Base.{
  ℕ, ◌+◌, ◌-◌, ◌≤◌, ◌<◌, true, false, Option, none, some, [], ◌∷◌, ◌++◌, ◌==◌, if◌then◌else◌, Bytes,
  length, length-append, append_assoc, append-nil, ◌≡◌, refl, sym, ◌∙◌, ap, subst, arith,
}
use kason.Chars.{is_control_char}
use kason.Parse.Tokens.{Slice, slice_bytes}
use kason.Stream.State.{find_key_end, success, Stream, Outcome}
use kason.Stream.Feed.{is_text_byte, skip_text, key_byte, find_key_end_byte}
use kason.Stream.Calls.{feed_byte, next_round}
use kason.Stream.Cuts.Settle.{part, settle}
use kason.Stream.Cuts.Drip.{
  going, seen, outcome_of, proceed, drip, observe_call, at_end, GrowsTo, Placed, Underway, Drips,
}
use kason.Stream.Cuts.Between.{held, slice_bytes-front}
use kason.Stream.Cuts.Grow.{append_scratch-room, seen-settled, drip-skip}

-- The stream with the bytes of a key in the buffer.
abbrev keyed : {U : Type 0} → Stream U → Bytes → Stream U
keyed t b = record t {
  scratch = t.scratch ++ b;
  key_begin = length t.scratch;
  key_end = length (t.scratch ++ b) - 1;
  direct_key = none;
  direct_value = none;
}

settle-keyed :
    {U : Type 0} (t : Stream U) (p : Slice) (b : Bytes)
    → t.direct_value ≡ none
    → slice_bytes p ≡ b
    → settle (record t { direct_key = some p }) ≡ keyed t b
unfolding settle
settle-keyed t p b v e =
    ap (λ o. settle (record t { direct_key = some p; direct_value = o })) v
    ∙ ap
        (λ x. record (keyed t (slice_bytes p)) {
          scratch = x;
          value_begin = t.value_begin;
          value_end = t.value_end;
        })
        (append-nil (t.scratch ++ slice_bytes p))
    ∙ ap (keyed t) e

pub text-tests :
    (c : ℕ)
    → is_text_byte c ≡ true
    → ((c == b'\\') ≡ false) × ((c == b'"') ≡ false) × (is_control_char c ≡ false)
unfolding is_control_char
text-tests c p = (ground (arith, p), ground (arith, p), ground (arith, p))

pub is_text :
    (c : ℕ)
    → (c == b'\\') ≡ false
    → (c == b'"') ≡ false
    → is_control_char c ≡ false
    → is_text_byte c ≡ true
unfolding is_control_char
is_text c p q o = ground (arith, p, q, o)

-- A byte behind a key in the buffer.
pub key_grows :
    {U : Type 0} (c : ℕ) (s : Bytes) (t : Stream U)
    → length t.scratch < t.scratch_size
    → key_byte none c s t ≡ (
      success,
      s,
      record t { scratch = t.scratch ++ (c ∷ []); key_end = length (t.scratch ++ (c ∷ [])) - 1 },
    )
key_grows c s t room = rw (append_scratch-room c t room) refl

module _ {U : Type 0} (t : Stream U) (quiet : t.callback_break ≡ false) where
  keyed-grows :
      (b : Bytes) (c : ℕ)
      → length b < t.scratch_size - length t.scratch
      → seen (outcome_of (key_byte none c [] (keyed t b))) ≡ going (keyed t (b ++ (c ∷ [])))
  keyed-grows b c room =
      let e = length-append t.scratch b in
      ap (λ x. seen (outcome_of x)) (key_grows c [] (keyed t b) (omega (arith, e, room)))
      ∙ seen-settled
          (record (keyed t b) {
            scratch = (t.scratch ++ b) ++ (c ∷ []);
            key_end = length ((t.scratch ++ b) ++ (c ∷ [])) - 1;
          })
          quiet refl refl
      ∙ ap (λ x. going (record (keyed t b) { scratch = x; key_end = length x - 1 }))
          (append_assoc t.scratch b (c ∷ []))

  keyed-one :
      (b : Bytes) (c : ℕ)
      → t.state ≡ find_key_end
      → length b < t.scratch_size - length t.scratch
      → is_text_byte c ≡ true
      → seen (outcome_of (feed_byte t.state c [] (keyed t b))) ≡ going (keyed t (b ++ (c ∷ [])))
  unfolding feed_byte find_key_end_byte
  keyed-one b c e room p =
      let (x, y, z) = text-tests c p in
      ap (λ phase. seen (outcome_of (feed_byte phase c [] (keyed t b)))) e
      ∙ rw (x, y, z) (keyed-grows b c room)

pub skip_text-cons :
    (c : ℕ) (s : Bytes) → skip_text (c ∷ s) ≡ (if is_text_byte c then skip_text s else c ∷ s)
unfolding skip_text
skip_text-cons c s = refl

pub skip_text-nil : skip_text [] ≡ []
unfolding skip_text
skip_text-nil = refl

-- The loops behind the rounds for a chunk's rest and for every shorter one.
abbrev pub DripsUpto : {U : Type 0} → (Bytes → Stream U → Option (Outcome U)) → ℕ → Type 0
DripsUpto later n = (x : Bytes) → length x ≤ n → Drips later x

pub bytes_of : (p : Slice) (xs s : Bytes) → p.begin ≡ xs ++ s → p.behind ≡ s → slice_bytes p ≡ xs
bytes_of p xs s begin behind =
    ap (λ b. slice_bytes (record p { begin = b })) begin
    ∙ ap (λ b. slice_bytes (record { begin = xs ++ s; behind = b })) behind
    ∙ slice_bytes-front xs s

module _ {U : Type 0} (later : Bytes → Stream U → Option (Outcome U)) (c : ℕ) (s : Bytes)
    (t : Stream U) (e : t.state ≡ find_key_end) (h : Underway (c ∷ s) t)
    (behind : DripsUpto later (length s)) where
  pub key_skips :
      (p : Slice)
      → t.direct_key ≡ some p
      → is_text_byte c ≡ true
      → observe_call (next_round later (key_byte (some p) c s t))
        ≡ some (at_end (proceed (drip s) (seen (outcome_of (key_byte none c [] (settle t))))))
  key_skips p k text =
      let (grows, v) = subst (λ x. Placed x (c ∷ s) t) e h.placed in
      let (xs, begin, ends) = subst (λ o. GrowsTo (c ∷ s) o) k grows in
      let settled : settle t ≡ keyed t xs =
        ap (λ o. settle (record t { direct_key = o })) k
        ∙ settle-keyed t p xs v (bytes_of p xs (c ∷ s) begin ends) in
      let room = h.room in
      let n : length (settle t).scratch ≡ length t.scratch + length xs =
        ap (λ (x : Stream U). length x.scratch) settled ∙ length-append t.scratch xs in
      let (front, split, skips) =
        drip-skip is_text_byte skip_text (keyed t) (t.scratch_size - length t.scratch) skip_text-nil
          skip_text-cons (λ b d. keyed-one t h.quiet b d e) s (xs ++ (c ∷ []))
          (omega (arith, n, room, length-append xs (c ∷ []))) in
      let q : Slice = record p { behind = skip_text s } in
      let u = record t { direct_key = some q } in
      let begins : q.begin ≡ (xs ++ (c ∷ front)) ++ skip_text s =
        begin ∙ ap (λ x. xs ++ (c ∷ x)) split ∙ sym (append_assoc xs (c ∷ front) (skip_text s)) in
      let bytes = bytes_of q (xs ++ (c ∷ front)) (skip_text s) begins refl in
      let m : length s ≡ length front + length (skip_text s) =
        ap length split ∙ length-append front (skip_text s) in
      let underway : Underway (skip_text s) u = record {
        filled = h.filled;
        key_inside = h.key_inside;
        room = omega (
          arith,
          held u,
          ap length bytes,
          length-append xs (c ∷ front),
          ap (λ o. length (part o)) v,
          n,
          m,
          room,
        );
        quiet = h.quiet;
        ignores = h.ignores;
        placed =
            subst (λ x. Placed x (skip_text s) u) (sym e) ((xs ++ (c ∷ front), begins, refl), v);
      } in
      ap (λ b. observe_call (if b then some (success, u) else later (skip_text s) u)) h.quiet
      ∙ behind (skip_text s) (omega (arith, m)) u underway
      ∙ ap (λ x. some (at_end (drip (skip_text s) x)))
          (settle-keyed t q (xs ++ (c ∷ front)) v bytes
            ∙ ap (keyed t) (sym (append_assoc xs (c ∷ []) front)))
      ∙ ap (λ x. some (at_end x)) (sym skips)
      ∙ ap (λ x. some (at_end (proceed (drip s) x)))
          (sym (
            ap (λ x. seen (outcome_of (key_byte none c [] x))) settled
            ∙ keyed-grows t h.quiet xs c (omega (arith, n, room))))
