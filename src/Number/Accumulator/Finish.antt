-- ===== src/Number/Accumulator/Finish.antt =====
-- `kason_number_accumulator_finish` and `kason_value_to_double` of kason.c. The C library's
-- `snprintf` and `strtod` are parameters, and so is the type of doubles.
use kason.Base.{
  ℕ, ◌+◌, ◌-◌, Bool, true, false, not, Option, none, some, [], ◌∷◌, leb, ◌==◌, if◌then◌else◌, Bytes,
  ◌%◌, ◌^◌,
}
use kason.Base.Int.{ℤ, pos, negsuc}
use kason.Types.{JsonType, number, Convert, success, error, range, type_error}
use kason.Number.State.{NumberState, invalid, number_begin, number_step, number_complete}
use kason.Number.Integer
use kason.Number.Accumulator.{
  Conversion, unconverted, signed, unsigned, double, Accumulator, accumulator_init,
  accumulator_feed,
}

-- The member of the `union` that is stored, if any.
pub data CachedValue (D : Type 0) : Type 0 where
  unset : CachedValue D
  signed_value : ℤ → CachedValue D
  unsigned_value : ℕ → CachedValue D
  real_value : D → CachedValue D

-- `a - b` as an integer.
abbrev sub_ℕ : ℕ → ℕ → ℤ
sub_ℕ a b = if leb b a then pos (a - b) else negsuc (b - a - 1)

-- `(negative ? -exponent : exponent) - fraction_digits + dropped_digits`.
unfoldable pub decimal_exponent : Accumulator → ℤ
decimal_exponent a =
    if a.exponent_negative
    then sub_ℕ a.dropped_digits (a.explicit_exponent + a.fraction_digits)
    else sub_ℕ (a.explicit_exponent + a.dropped_digits) a.fraction_digits

-- The C library, as far as the conversion calls it: the two zeros; the length that `snprintf`
-- returns for `"%s%llue%lld"` and the text that it writes; the value of `strtod`, whether it sets
-- `errno` to ERANGE, and how many bytes it reads.
pub record Libc (D : Type 0) : Type 0 where
  pub zero_double : Bool → D
  pub print : Bool → ℕ → ℤ → ℤ × Bytes
  pub strtod : Bytes → D × Bool × ℕ

module _ {D : Type 0} (libc : Libc D) where
  -- The bound is `sizeof(normalized)`.
  unfoldable pub parse_normalized : ℤ × Bytes → Convert (CachedValue D)
  parse_normalized (negsuc n, text) = error
  parse_normalized (pos length_, text) =
      let (v, out_of_range, consumed) = libc.strtod text in
      if leb 64 length_
      then error
      else if out_of_range
      then range
      else if not (consumed == length_)
      then error
      else success (real_value v)

  unfoldable pub finish_double : Accumulator → Convert (CachedValue D)
  unfolding parse_normalized decimal_exponent
  finish_double a =
      if not a.nonzero
      then success (real_value (libc.zero_double a.negative))
      else parse_normalized (
          libc.print a.negative (if a.round_up then (a.significand + 1) % 2 ^ 64 else a.significand)
            (decimal_exponent a))

  -- The tests that the two integer kinds share.
  abbrev pub finish_integer : Accumulator → Convert (CachedValue D) → Convert (CachedValue D)
  finish_integer a stored =
      if a.integer_overflow then range else if not a.integer_form then error else stored

  abbrev pub store_signed : Convert ℤ → Convert (CachedValue D)
  store_signed (success v) = success (signed_value v)
  store_signed error = error
  store_signed range = range
  store_signed type_error = type_error

  abbrev pub store_unsigned : Convert ℕ → Convert (CachedValue D)
  store_unsigned (success v) = success (unsigned_value v)
  store_unsigned error = error
  store_unsigned range = range
  store_unsigned type_error = type_error

  unfoldable pub finish_kind : Conversion → Accumulator → Convert (CachedValue D)
  finish_kind signed a =
      finish_integer a (store_signed (Integer.signed_value a.negative a.magnitude))
  finish_kind unsigned a =
      finish_integer a (store_unsigned (Integer.unsigned_value a.negative a.magnitude))
  finish_kind double a = finish_double a
  finish_kind unconverted a = success unset

  unfoldable pub accumulator_finish : Accumulator → Convert (CachedValue D)
  accumulator_finish a = finish_kind a.kind a

abbrev pub is_invalid : NumberState → Bool
is_invalid invalid = true
is_invalid _ = false

-- The loop of `kason_value_to_double` and the test behind it; `none` is KaSON_CONVERT_ERROR.
unfoldable pub double_loop : NumberState → Accumulator → Bytes → Option Accumulator
double_loop state a [] = if number_complete state then some a else none
double_loop state a (c ∷ s) =
    let next = number_step state c in
    let rest = double_loop next (accumulator_feed a c next) s in
    if is_invalid next then none else rest

-- From the first byte on.
unfoldable pub read_double : Bytes → Option Accumulator
read_double [] = none
read_double (c ∷ s) =
    let state = number_begin c in
    if is_invalid state
    then none
    else double_loop state (accumulator_feed (accumulator_init double) c state) s

module _ {D : Type 0} (libc : Libc D) where
  -- `cached.value.real_value`; an accumulator of the kind `double` stores no other member.
  abbrev pub stored_double : Convert (CachedValue D) → Convert D
  stored_double (success (real_value v)) = success v
  stored_double (success _) = error
  stored_double error = error
  stored_double range = range
  stored_double type_error = type_error

  abbrev pub finish_read : Option Accumulator → Convert D
  finish_read none = error
  finish_read (some a) = stored_double (accumulator_finish libc a)

  abbrev is_number : JsonType → Bool
  is_number number = true
  is_number _ = false

  unfoldable pub value_to_double : JsonType → Option Bytes → Bool → Convert D
  value_to_double type none has_out = if not (is_number type) then type_error else error
  value_to_double type (some s) has_out =
      if not (is_number type)
      then type_error
      else if not has_out
      then error
      else finish_read (read_double s)
