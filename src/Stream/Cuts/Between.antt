-- ===== src/Stream/Cuts/Between.antt =====
-- Steps of the streaming parser of kason.c that leave the scratch buffer, and the first byte of a value.
use kason.Base.{
  ℕ, ◌+◌, ◌-◌, ◌≤◌, some, [], ◌∷◌, ◌++◌, Bytes, length, length-append, take-length, ◌≡◌, refl, sym,
  ◌∙◌, ap, subst, arith,
}
use kason.Parse.Tokens.{Slice, slice_bytes}
use kason.Stream.State.{find_string_end, find_generic_end, success, Stream}
use kason.Stream.Feed.{begin_string, begin_generic}
use kason.Stream.Cuts.Settle.{part, pick, settle}
use kason.Stream.Cuts.Drip.{Placed, Underway, Agrees, Agrees-going, IgnoresParts}

pub held :
    {U : Type 0} (t : Stream U)
    → length (settle t).scratch
      ≡ length t.scratch + length (part t.direct_key) + length (part t.direct_value)
unfolding settle
held t = omega (
  arith,
  length-append t.scratch (part t.direct_key),
  length-append (t.scratch ++ part t.direct_key) (part t.direct_value),
)

-- A round that takes at most its byte.
pub Underway-step :
    {U : Type 0} (c : ℕ) (s : Bytes) (t u : Stream U)
    → Underway (c ∷ s) t
    → u.scratch ≡ t.scratch
    → u.scratch_size ≡ t.scratch_size
    → u.key_end ≡ t.key_end
    → u.callback_break ≡ t.callback_break
    → u.callback ≡ t.callback
    → length (part u.direct_key) + length (part u.direct_value)
      ≤ length (part t.direct_key) + length (part t.direct_value) + 1
    → Placed u.state s u
    → Underway s u
Underway-step c s t u h scratch size key quiet callback le placed = record {
  filled = rw scratch h.filled;
  key_inside = rw (scratch, key) h.key_inside;
  room = omega (arith, held t, held u, ap length scratch, size, le, h.room);
  quiet = quiet ∙ h.quiet;
  ignores = subst (λ f. IgnoresParts f) (sym callback) h.ignores;
  placed = placed;
}

-- A slice that ends at the cursor holds what is in front of it.
pub slice_bytes-front : (xs s : Bytes) → slice_bytes (record { begin = xs ++ s; behind = s }) ≡ xs
slice_bytes-front xs s =
    let e : length (xs ++ s) - length s ≡ length xs = omega (arith, length-append xs s) in
    rw e (take-length xs s)

pub settle-direct_value :
    {U : Type 0} (t : Stream U) (p q : Slice)
    → slice_bytes p ≡ slice_bytes q
    → settle (record t { direct_value = some p }) ≡ settle (record t { direct_value = some q })
unfolding settle
settle-direct_value t p q e =
    let with_key = t.scratch ++ part t.direct_key in
    ap
      (λ b. record (settle t) {
        scratch = with_key ++ b;
        value_begin = length with_key;
        value_end = length (with_key ++ b) - 1;
      })
      e

pub settle-direct_key :
    {U : Type 0} (t : Stream U) (p q : Slice)
    → slice_bytes p ≡ slice_bytes q
    → settle (record t { direct_key = some p }) ≡ settle (record t { direct_key = some q })
unfolding settle
settle-direct_key t p q e =
    let value = part t.direct_value in
    ap
      (λ b. record (settle t) {
        scratch = (t.scratch ++ b) ++ value;
        key_begin = length t.scratch;
        key_end = length (t.scratch ++ b) - 1;
        value_begin = pick t.direct_value (length (t.scratch ++ b)) t.value_begin;
        value_end = pick t.direct_value (length ((t.scratch ++ b) ++ value) - 1) t.value_end;
      })
      e

-- A round that changes neither the buffer nor the slices.
pub same :
    {U : Type 0} (c : ℕ) (s : Bytes) (t u : Stream U)
    → Underway (c ∷ s) t
    → u.scratch ≡ t.scratch
    → u.scratch_size ≡ t.scratch_size
    → u.key_end ≡ t.key_end
    → u.callback_break ≡ t.callback_break
    → u.callback ≡ t.callback
    → u.direct_key ≡ t.direct_key
    → u.direct_value ≡ t.direct_value
    → Placed u.state s u
    → Underway s u
same c s t u h scratch size key quiet callback k v placed =
    Underway-step c s t u h scratch size key quiet callback
      (omega (arith, ap (λ o. length (part o)) k, ap (λ o. length (part o)) v)) placed

-- The first byte of a string, and of another value.
pub begun_string-Agrees :
    {U : Type 0} (c : ℕ) (s : Bytes) (t u : Stream U)
    → Underway (c ∷ s) t
    → u.scratch ≡ t.scratch
    → u.scratch_size ≡ t.scratch_size
    → u.key_end ≡ t.key_end
    → u.callback_break ≡ t.callback_break
    → u.callback ≡ t.callback
    → u.direct_key ≡ t.direct_key
    → Agrees s (success, s, begin_string s u) (success, begin_string [] u)
begun_string-Agrees c s t u h scratch size key quiet callback k =
    let p : Slice = record { begin = s; behind = s } in
    let e = slice_bytes-front [] s in
    Agrees-going s (begin_string s u) (begin_string [] u)
      (Underway-step c s t (begin_string s u) h scratch size key quiet callback
        (omega (arith, ap (λ o. length (part o)) k, ap length e))
        (([], refl, refl), λ x. absurd (cc x)))
      (settle-direct_value (record u { state = find_string_end }) p
        (record { begin = []; behind = [] }) e)

pub begun_generic-Agrees :
    {U : Type 0} (c : ℕ) (s : Bytes) (t u : Stream U)
    → Underway (c ∷ s) t
    → u.scratch ≡ t.scratch
    → u.scratch_size ≡ t.scratch_size
    → u.key_end ≡ t.key_end
    → u.callback_break ≡ t.callback_break
    → u.callback ≡ t.callback
    → u.direct_key ≡ t.direct_key
    → Agrees s (success, s, begin_generic c s u) (success, begin_generic c [] u)
begun_generic-Agrees c s t u h scratch size key quiet callback k =
    let p : Slice = record { begin = c ∷ s; behind = s } in
    let q : Slice = record { begin = c ∷ []; behind = [] } in
    let e = slice_bytes-front (c ∷ []) s in
    Agrees-going s (begin_generic c s u) (begin_generic c [] u)
      (Underway-step c s t (begin_generic c s u) h scratch size key quiet callback
        (omega (arith, ap (λ o. length (part o)) k, ap length e))
        ((c ∷ [], refl, refl), λ x. absurd (cc x)))
      (settle-direct_value (record u { state = find_generic_end }) p q
        (e ∙ sym (slice_bytes-front (c ∷ []) [])))
