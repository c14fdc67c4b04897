-- ===== src/Number/Accumulator/Cached.antt =====
-- The conversions that run beside the automaton, finished, against those of the finished text.
use kason.Base.{
  ℕ, true, false, Option, none, some, [], ◌∷◌, if◌then◌else◌, Bytes, ◌≡◌, refl, sym, ap, ◌∙◌, arith,
  inl, inr,
}
use kason.Types.{number, error}
use kason.Number.State.{
  NumberState, invalid, sign, number_begin, number_step, number_step-next, accepts, accepts-cons,
  accepts-nil, accepts-invalid,
}
use kason.Number.Valid.{is_valid_number, accepts_slice}
use kason.Number.Valid.Automaton.{is_valid_number-accepts_slice}
use kason.Number.Integer.{integer_magnitude, value_to_int64, value_to_uint64, then_convert}
use kason.Number.Integer
use kason.Number.Accumulator.{
  Conversion, signed, unsigned, double, Accumulator, accumulator_init, accumulator_feed, feed_rest,
  feed_state, state_digit, integer_digit, magnitude_digit, double_digit, drop_digit, fraction_digit,
  exponent_digit, accumulate,
}
use kason.Number.Accumulator.Agrees.{accumulate-integer_magnitude}
use kason.Number.Accumulator.Tail.{integer_result}
use kason.Number.Accumulator.Finish.{
  Libc, store_signed, store_unsigned, finish_kind, accumulator_finish, is_invalid, double_loop,
  read_double, value_to_double,
}

next_case :
    (s : Bytes) (next : NumberState) (x : Option Accumulator) (a : Accumulator)
    → x ≡ (if accepts next s then some a else none)
    → (if is_invalid next then none else x) ≡ (if accepts next s then some a else none)
next_case s invalid x a h = rw accepts-invalid
next_case s _ x a h = h

double_loop-accepts :
    (s : Bytes) (state : NumberState) (a : Accumulator)
    → double_loop state a s ≡ (if accepts state s then some (feed_rest state a s) else none)
unfolding double_loop feed_rest
double_loop-accepts [] state a = rw accepts-nil
double_loop-accepts (c ∷ s) state a =
    let next : NumberState = number_step state c in
    let b : Accumulator = accumulator_feed a c next in
    let e : accepts state (c ∷ s) ≡ accepts next s =
      accepts-cons state c s ∙ ap (λ x. accepts x s) (sym (number_step-next state c)) in
    rw e (next_case s next _ (feed_rest next b s) (double_loop-accepts s next b))

-- `kason_value_to_double` reads a text exactly when it is a valid number, and then into the
-- accumulator that the incremental parser fills from the same bytes.
pub read_double-accumulate :
    (s : Bytes) → read_double s ≡ (if is_valid_number s then some (accumulate double s) else none)
read_double-accumulate [] = unfold read_double is_valid_number in refl
read_double-accumulate (c ∷ s) =
    let e = is_valid_number-accepts_slice (c ∷ s) in
    let b : Accumulator = accumulator_feed (accumulator_init double) c (number_begin c) in
    rw e (
      unfold read_double accumulate accepts_slice in
      next_case s (number_begin c) _ (feed_rest (number_begin c) b s) (double_loop-accepts s _ b))

feed-kind :
    (a : Accumulator) (c : ℕ) (state : NumberState) → (accumulator_feed a c state).kind ≡ a.kind
unfolding accumulator_feed feed_state state_digit integer_digit magnitude_digit double_digit
    drop_digit fraction_digit exponent_digit
feed-kind a c sign = ground arith
feed-kind a c _ = ground arith

feed_rest-kind :
    (s : Bytes) (state : NumberState) (a : Accumulator) → (feed_rest state a s).kind ≡ a.kind
unfolding feed_rest
feed_rest-kind [] state a = refl
feed_rest-kind (c ∷ s) state a =
    feed_rest-kind s _ (accumulator_feed a c (number_step state c)) ∙ feed-kind a c _

accumulate-kind : (kind : Conversion) (s : Bytes) → (accumulate kind s).kind ≡ kind
unfolding accumulate
accumulate-kind kind [] = refl
accumulate-kind kind (c ∷ s) =
    feed_rest-kind s _ (accumulator_feed (accumulator_init kind) c (number_begin c))
    ∙ feed-kind _ c _

module _ {D : Type 0} (libc : Libc D) where
  finish_signed :
      (a : Accumulator)
      → finish_kind libc signed a
        ≡ store_signed libc (then_convert (integer_result a) (λ p. Integer.signed_value p.0 p.1))
  unfolding finish_kind
  finish_signed a = ground arith

  finish_unsigned :
      (a : Accumulator)
      → finish_kind libc unsigned a
        ≡ store_unsigned libc
            (then_convert (integer_result a) (λ p. Integer.unsigned_value p.0 p.1))
  unfolding finish_kind
  finish_unsigned a = ground arith

  -- The signed conversion of the incremental parser gives the result of `kason_value_to_int64` on
  -- the text, for the text of every number.
  pub finish-value_to_int64 :
      (s : Bytes)
      → is_valid_number s ≡ true
      → accumulator_finish libc (accumulate signed s)
        ≡ store_signed libc (value_to_int64 number (some s) true)
  unfolding accumulator_finish value_to_int64
  finish-value_to_int64 s h =
      let text = sym (is_valid_number-accepts_slice s) ∙ h in
      let e = accumulate-integer_magnitude signed s (inl refl) text in
      ap (λ k. finish_kind libc k (accumulate signed s)) (accumulate-kind signed s)
      ∙ finish_signed (accumulate signed s)
      ∙ rw e

  -- The unsigned conversion gives the result of `kason_value_to_uint64`, for the text of every
  -- number.
  pub finish-value_to_uint64 :
      (s : Bytes)
      → is_valid_number s ≡ true
      → accumulator_finish libc (accumulate unsigned s)
        ≡ store_unsigned libc (value_to_uint64 number (some s) true)
  unfolding accumulator_finish value_to_uint64
  finish-value_to_uint64 s h =
      let text = sym (is_valid_number-accepts_slice s) ∙ h in
      let e = accumulate-integer_magnitude unsigned s (inr refl) text in
      ap (λ k. finish_kind libc k (accumulate unsigned s)) (accumulate-kind unsigned s)
      ∙ finish_unsigned (accumulate unsigned s)
      ∙ rw e

  -- `kason_value_to_double` refuses every text that is no valid number.
  pub value_to_double_refuses :
      (s : Bytes) → is_valid_number s ≡ false → value_to_double libc number (some s) true ≡ error
  unfolding value_to_double
  value_to_double_refuses s h = rw (read_double-accumulate, h)
