-- ===== src/Number/Accumulator.antt =====
-- `kason_number_accumulator` of kason.c: the conversion that runs beside the automaton.
pub mod Finish
pub mod Tail
pub mod Digits
pub mod Agrees
pub mod Cached
use kason.Base.{
  ℕ, ◌+◌, ◌-◌, ◌*◌, ◌/◌, ◌%◌, ◌^◌, Bool, true, false, not, ◌&&◌, ◌||◌, List, [], ◌∷◌, ltb, leb,
  ◌==◌, if◌then◌else◌, Bytes,
}
use kason.Base.Int.{ℤ, pos, negsuc}
use kason.Chars.{is_digit}
use kason.Number.State.{
  NumberState, invalid, sign, leading_zero, integer, decimal_point, fraction, exponent_mark,
  exponent_sign, exponent, number_begin, number_step,
}
use kason.Number.Integer.{uint64_max}

-- KaSON_CACHED_NUMBER_*.
pub data Conversion : Type 0 where
  unconverted signed unsigned double : Conversion

pub record Accumulator : Type 0 where
  pub kind : Conversion
  pub negative : Bool
  pub integer_form : Bool
  pub integer_overflow : Bool
  pub magnitude : ℕ
  pub significand : ℕ
  pub fraction_digits : ℕ
  pub dropped_digits : ℕ
  pub explicit_exponent : ℕ
  pub significant_digits : ℕ
  pub exponent_negative : Bool
  pub nonzero : Bool
  pub round_up : Bool

abbrev pub accumulator_init : Conversion → Accumulator
accumulator_init kind = record {
  kind = kind;
  negative = false;
  integer_form = true;
  integer_overflow = false;
  magnitude = 0;
  significand = 0;
  fraction_digits = 0;
  dropped_digits = 0;
  explicit_exponent = 0;
  significant_digits = 0;
  exponent_negative = false;
  nonzero = false;
  round_up = false;
}

abbrev pub counter_limit : ℕ
counter_limit = 1_000_000

-- A digit beyond the nineteenth is dropped; the first dropped one decides the rounding.
unfoldable pub drop_digit : Accumulator → ℕ → Accumulator
drop_digit a digit = record a {
  round_up = if a.dropped_digits == 0 && leb 5 digit then true else a.round_up;
  dropped_digits =
      if ltb a.dropped_digits counter_limit then a.dropped_digits + 1 else a.dropped_digits;
}

unfoldable pub double_digit : Accumulator → ℕ → Accumulator
unfolding drop_digit
double_digit a digit =
    if not a.nonzero && digit == 0
    then a
    else let b = record a { nonzero = true } in
      if ltb b.significant_digits 19
      then record b {
        significand = (b.significand * 10 + digit) % 2 ^ 64;
        significant_digits = b.significant_digits + 1;
      }
      else drop_digit b digit

unfoldable pub magnitude_digit : Accumulator → ℕ → Accumulator
magnitude_digit a digit =
    if ltb ((uint64_max - digit) / 10) a.magnitude
    then record a { integer_overflow = true }
    else record a { magnitude = (a.magnitude * 10 + digit) % 2 ^ 64 }

-- A digit in front of the point.
unfoldable pub integer_digit : Conversion → Accumulator → ℕ → Accumulator
unfolding double_digit magnitude_digit
integer_digit unconverted a digit = a
integer_digit signed a digit = magnitude_digit a digit
integer_digit unsigned a digit = magnitude_digit a digit
integer_digit double a digit = double_digit a digit

-- A digit behind the point.
unfoldable pub fraction_digit : Conversion → Accumulator → ℕ → Accumulator
unfolding double_digit
fraction_digit double a digit =
    double_digit
      (if ltb a.fraction_digits counter_limit
        then record a { fraction_digits = a.fraction_digits + 1 }
        else a)
      digit
fraction_digit _ a digit = a

-- A digit of the exponent, which is capped.
unfoldable pub exponent_digit : Conversion → Accumulator → ℕ → Accumulator
exponent_digit double a digit =
    let e = a.explicit_exponent * 10 + digit in
    let b = record a { explicit_exponent = if ltb counter_limit e then counter_limit else e } in
    if ltb a.explicit_exponent counter_limit then b else a
exponent_digit _ a digit = a

unfoldable pub state_digit : NumberState → Accumulator → ℕ → Accumulator
unfolding integer_digit fraction_digit exponent_digit
state_digit leading_zero a digit = integer_digit a.kind a digit
state_digit integer a digit = integer_digit a.kind a digit
state_digit fraction a digit = fraction_digit a.kind a digit
state_digit exponent a digit = exponent_digit a.kind a digit
state_digit _ a digit = a

-- The body behind the tests for a kind and a sign.
unfoldable pub feed_state : NumberState → Accumulator → ℕ → Accumulator
unfolding state_digit
feed_state exponent_sign a c = record a { integer_form = false; exponent_negative = c == b'-' }
feed_state sign a c = record a { negative = true }
feed_state leading_zero a c = if is_digit c then state_digit leading_zero a (c - b'0') else a
feed_state integer a c = if is_digit c then state_digit integer a (c - b'0') else a
feed_state invalid a c = a
feed_state state a c =
    let b = record a { integer_form = false } in
    if is_digit c then state_digit state b (c - b'0') else b

abbrev is_converted : Conversion → Bool
is_converted unconverted = false
is_converted _ = true

unfoldable pub accumulator_feed : Accumulator → ℕ → NumberState → Accumulator
unfolding feed_state
accumulator_feed a c state = if is_converted a.kind then feed_state state a c else a

-- The loops of `kason_parse_internal` and `kason_value_to_double`: a step of the automaton, and its
-- byte to the accumulator.
unfoldable pub feed_rest : NumberState → Accumulator → Bytes → Accumulator
unfolding accumulator_feed
feed_rest state a [] = a
feed_rest state a (c ∷ s) =
    feed_rest (number_step state c) (accumulator_feed a c (number_step state c)) s

unfoldable pub accumulate : Conversion → Bytes → Accumulator
unfolding feed_rest
accumulate kind [] = accumulator_init kind
accumulate kind (c ∷ s) =
    feed_rest (number_begin c) (accumulator_feed (accumulator_init kind) c (number_begin c)) s
