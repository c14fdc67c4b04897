-- ===== src/Number/Accumulator/Tail.antt =====
-- Behind the integer part of a number an integer accumulator keeps what it has read.
use kason.Base.{
  ℕ, Bool, true, false, not, [], ◌∷◌, if◌then◌else◌, Bytes, ◌≡◌, ◌⊎◌, refl, arith, ◌∙◌,
}
use kason.Types.{Convert, success, error, range}
use kason.Number.State.{
  NumberState, sign, leading_zero, integer, number_next, number_step, number_step-next,
}
use kason.Number.Accumulator.{
  Conversion, signed, unsigned, Accumulator, magnitude_digit, integer_digit, fraction_digit,
  exponent_digit, state_digit, feed_state, accumulator_feed, feed_rest,
}

abbrev pub IsIntegerKind : Conversion → Type 0
IsIntegerKind kind = (kind ≡ signed) ⊎ (kind ≡ unsigned)

-- What an accumulator of an integer kind has read.
abbrev pub integer_result : Accumulator → Convert (Bool × ℕ)
integer_result a =
    if a.integer_overflow
    then range
    else if not a.integer_form
    then error
    else success (a.negative, a.magnitude)

-- The states behind the digits of the integer part.
abbrev pub is_tail : NumberState → Bool
is_tail sign = false
is_tail leading_zero = false
is_tail integer = false
is_tail _ = true

tail_next :
    (state : NumberState) (c : ℕ) → is_tail state ≡ true → is_tail (number_next state c) ≡ true
unfolding number_next
tail_next sign c h = absurd (ground arith)
tail_next _ c h = ground arith

-- Behind the integer part nothing that an integer kind keeps is changed.
pub record SameInteger (a b : Accumulator) : Type 0 where
  pub kind_is : b.kind ≡ a.kind
  pub negative_is : b.negative ≡ a.negative
  pub overflow_is : b.integer_overflow ≡ a.integer_overflow
  pub magnitude_is : b.magnitude ≡ a.magnitude
  pub not_integer : a.integer_form ≡ false → b.integer_form ≡ false

feed_tail :
    (a : Accumulator) (c : ℕ) (state : NumberState)
    → IsIntegerKind a.kind
    → is_tail state ≡ true
    → SameInteger a (accumulator_feed a c state)
unfolding accumulator_feed feed_state state_digit fraction_digit exponent_digit
feed_tail a c sign k h = absurd (ground arith)
feed_tail a c _ k h = ground arith

SameInteger-trans : (a b c : Accumulator) → SameInteger a b → SameInteger b c → SameInteger a c
SameInteger-trans a b c p q = record {
  kind_is = q.kind_is ∙ p.kind_is;
  negative_is = q.negative_is ∙ p.negative_is;
  overflow_is = q.overflow_is ∙ p.overflow_is;
  magnitude_is = q.magnitude_is ∙ p.magnitude_is;
  not_integer = λ h. q.not_integer (p.not_integer h);
}

SameInteger-refl : (a : Accumulator) → SameInteger a a
SameInteger-refl a = record {
  kind_is = refl;
  negative_is = refl;
  overflow_is = refl;
  magnitude_is = refl;
  not_integer = λ h. h;
}

pub feed_rest_tail :
    (s : Bytes) (a : Accumulator) (state : NumberState)
    → IsIntegerKind a.kind
    → is_tail state ≡ true
    → SameInteger a (feed_rest state a s)
unfolding feed_rest
feed_rest_tail [] a state k h = SameInteger-refl a
feed_rest_tail (c ∷ s) a state k h =
    let next : NumberState = number_step state c in
    let tail_ : is_tail next ≡ true = rw number_step-next (tail_next state c h) in
    let b : Accumulator = accumulator_feed a c next in
    let first : SameInteger a b = feed_tail a c next k tail_ in
    SameInteger-trans a b _ first (feed_rest_tail s b next (rw first.kind_is k) tail_)

-- An overflow is never forgotten.
feed_overflow :
    (a : Accumulator) (c : ℕ) (state : NumberState)
    → IsIntegerKind a.kind
    → a.integer_overflow ≡ true
    → ((accumulator_feed a c state).integer_overflow ≡ true)
      × ((accumulator_feed a c state).kind ≡ a.kind)
unfolding accumulator_feed feed_state state_digit integer_digit magnitude_digit fraction_digit
    exponent_digit
feed_overflow a c sign k h = ground arith
feed_overflow a c _ k h = ground arith

pub feed_rest_overflow :
    (s : Bytes) (a : Accumulator) (state : NumberState)
    → IsIntegerKind a.kind
    → a.integer_overflow ≡ true
    → (feed_rest state a s).integer_overflow ≡ true
unfolding feed_rest
feed_rest_overflow [] a state k h = h
feed_rest_overflow (c ∷ s) a state k h =
    let next : NumberState = number_step state c in
    let kept = feed_overflow a c next k h in
    feed_rest_overflow s (accumulator_feed a c next) next (rw (kept.1) k) kept.0
