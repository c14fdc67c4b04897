-- ===== src/Stream/Cuts/Growing.antt =====
-- A value that grows in `kason_stream_feed` of kason.c, in the chunk or in the scratch buffer.
use kason.Base.{
  ℕ, ◌+◌, ◌-◌, ◌<◌, Bool, true, false, Option, none, some, [], ◌∷◌, ◌++◌, if◌then◌else◌, Bytes,
  length, length-append, append_assoc, ◌≡◌, refl, sym, ◌∙◌, ap, subst, arith,
}
use kason.Parse.Tokens.{Slice, slice_bytes}
use kason.Stream.State.{StreamResult, success, Stream, Outcome, append_scratch}
use kason.Stream.Feed.{at_rest, value_to_end}
use kason.Stream.Calls.{feed_byte, next_round}
use kason.Stream.Cuts.Settle.{part, pick, with_key, settle, settle_nothing}
use kason.Stream.Cuts.Drip.{
  going, seen, outcome_of, proceed, drip, observe_call, at_end, GrowsTo, Nothing, ValueGrows,
  Placed, Underway, Agrees, Agrees-going,
}
use kason.Stream.Cuts.Between.{held}
use kason.Stream.Cuts.Escapes.{Underway-append}
use kason.Stream.Cuts.Keys.{DripsUpto, bytes_of}
use kason.Stream.Cuts.Grow.{append_scratch-room, seen-settled, drip-skip}

-- The stream with the bytes of a value in the buffer, behind those of the key.
abbrev pub valued : {U : Type 0} → Stream U → Bytes → Stream U
valued t b = record t {
  scratch = with_key t ++ b;
  key_begin = pick t.direct_key (length t.scratch) t.key_begin;
  key_end = pick t.direct_key (length (with_key t) - 1) t.key_end;
  value_begin = length (with_key t);
  value_end = length (with_key t ++ b) - 1;
  direct_key = none;
  direct_value = none;
}

settle-valued :
    {U : Type 0} (t : Stream U) (p : Slice) (b : Bytes)
    → slice_bytes p ≡ b
    → settle (record t { direct_value = some p }) ≡ valued t b
unfolding settle
settle-valued t p b e = ap (valued t) e

-- A byte behind a value in the buffer.
abbrev pub value_more : {U : Type 0} → ℕ → Bytes → Stream U → StreamResult × Bytes × Stream U
value_more c s t = at_rest s (value_to_end (append_scratch c t))

value_grows :
    {U : Type 0} (c : ℕ) (s : Bytes) (t : Stream U)
    → length t.scratch < t.scratch_size
    → value_more c s t ≡ (
      success,
      s,
      record t { scratch = t.scratch ++ (c ∷ []); value_end = length (t.scratch ++ (c ∷ [])) - 1 },
    )
value_grows c s t room = rw (append_scratch-room c t room) refl

valued-grows :
    {U : Type 0} (t : Stream U) (b : Bytes) (c : ℕ)
    → t.callback_break ≡ false
    → length b < t.scratch_size - length (with_key t)
    → seen (outcome_of (value_more c [] (valued t b))) ≡ going (valued t (b ++ (c ∷ [])))
valued-grows t b c quiet room =
    let e = length-append (with_key t) b in
    ap (λ x. seen (outcome_of x)) (value_grows c [] (valued t b) (omega (arith, e, room)))
    ∙ seen-settled
        (record (valued t b) {
          scratch = (with_key t ++ b) ++ (c ∷ []);
          value_end = length ((with_key t ++ b) ++ (c ∷ [])) - 1;
        })
        quiet refl refl
    ∙ ap (λ x. going (record (valued t b) { scratch = x; value_end = length x - 1 }))
        (append_assoc (with_key t) b (c ∷ []))

-- A byte of a value that is in the buffer already.
pub value_stays :
    {U : Type 0} (c : ℕ) (s : Bytes) (t : Stream U)
    → Underway (c ∷ s) t
    → Nothing t
    → ((u : Stream U) → Nothing u → u.state ≡ t.state → Placed u.state s u)
    → Agrees s (value_more c s t) (outcome_of (value_more c [] (settle t)))
value_stays c s t h nothing places =
    let settled = settle_nothing t nothing.0 nothing.1 in
    let n = ap (λ x. length (x.scratch)) settled in
    let room : length t.scratch < t.scratch_size = omega (arith, h.room, n) in
    let u = record t {
      scratch = t.scratch ++ (c ∷ []);
      value_end = length (t.scratch ++ (c ∷ [])) - 1;
    } in
    subst (λ x. Agrees s x (outcome_of (value_more c [] (settle t)))) (sym (value_grows c s t room))
      (subst (λ x. Agrees s (success, s, u) (outcome_of (value_more c [] x))) (sym settled)
        (subst (λ x. Agrees s (success, s, u) (outcome_of x)) (sym (value_grows c [] t room))
          (Agrees-going s u u
            (Underway-append c s t u h (ap (λ x. x.scratch ++ (c ∷ [])) (sym settled)) refl
              (omega (arith, h.key_inside, length-append t.scratch (c ∷ []))) refl refl nothing
              (places u nothing refl))
            refl)))

-- A value in the chunk grows by the bytes that pass a test.
module _ {U : Type 0} (passes : ℕ → Bool) (skip : Bytes → Bytes) (t : Stream U)
    (skip-nil : skip [] ≡ [])
    (skip-cons : (c : ℕ) (s : Bytes) → skip (c ∷ s) ≡ (if passes c then skip s else c ∷ s))
    (one : (b : Bytes) (c : ℕ)
      → passes c ≡ true
      → feed_byte t.state c [] (valued t b) ≡ value_more c [] (valued t b))
    (places : (r : Bytes) (u : Stream U) → ValueGrows r u → u.state ≡ t.state → Placed u.state r u)
    (later : Bytes → Stream U → Option (Outcome U)) (c : ℕ) (s : Bytes) (h : Underway (c ∷ s) t)
    (behind : DripsUpto later (length s)) where
  pub value_skips :
      (p : Slice)
      → t.direct_value ≡ some p
      → GrowsTo (c ∷ s) (some p)
      → observe_call (
          next_round later
            (success, skip s, record t { direct_value = some (record p { behind = skip s }) }))
        ≡ some (at_end (proceed (drip s) (seen (outcome_of (value_more c [] (settle t))))))
  value_skips p k (xs, begin, ends) =
      let settled : settle t ≡ valued t xs =
        ap (λ o. settle (record t { direct_value = o })) k
        ∙ settle-valued t p xs (bytes_of p xs (c ∷ s) begin ends) in
      let room = h.room in
      let n : length (settle t).scratch ≡ length (with_key t) + length xs =
        ap (λ (x : Stream U). length x.scratch) settled ∙ length-append (with_key t) xs in
      let (front, split, skips) =
        drip-skip passes skip (valued t) (t.scratch_size - length (with_key t)) skip-nil skip-cons
          (λ b d less pass.
            ap (λ x. seen (outcome_of x)) (one b d pass) ∙ valued-grows t b d h.quiet less)
          s (xs ++ (c ∷ [])) (omega (arith, n, room, length-append xs (c ∷ []))) in
      let q : Slice = record p { behind = skip s } in
      let u = record t { direct_value = some q } in
      let begins : q.begin ≡ (xs ++ (c ∷ front)) ++ skip s =
        begin ∙ ap (λ x. xs ++ (c ∷ x)) split ∙ sym (append_assoc xs (c ∷ front) (skip s)) in
      let bytes = bytes_of q (xs ++ (c ∷ front)) (skip s) begins refl in
      let m : length s ≡ length front + length (skip s) =
        ap length split ∙ length-append front (skip s) in
      let underway : Underway (skip s) u = record {
        filled = h.filled;
        key_inside = h.key_inside;
        room = omega (
          arith,
          held u,
          ap length bytes,
          length-append xs (c ∷ front),
          length-append t.scratch (part t.direct_key),
          n,
          m,
          room,
        );
        quiet = h.quiet;
        ignores = h.ignores;
        placed = places (skip s) u ((xs ++ (c ∷ front), begins, refl), λ x. absurd (cc x)) refl;
      } in
      ap (λ b. observe_call (if b then some (success, u) else later (skip s) u)) h.quiet
      ∙ behind (skip s) (omega (arith, m)) u underway
      ∙ ap (λ x. some (at_end (drip (skip s) x)))
          (settle-valued t q (xs ++ (c ∷ front)) bytes
            ∙ ap (valued t) (sym (append_assoc xs (c ∷ []) front)))
      ∙ ap (λ x. some (at_end x)) (sym skips)
      ∙ ap (λ x. some (at_end (proceed (drip s) x)))
          (sym (
            ap (λ x. seen (outcome_of (value_more c [] x))) settled
            ∙ valued-grows t xs c h.quiet (omega (arith, n, room))))
