-- ===== src/Tests/Number.antt =====
-- The number functions of kason.c on small texts.
use kason.Base.{
  ℕ, Bool, true, false, not, ◌&&◌, none, some, [], ◌∷◌, ◌≡◌, ◌↔◌, refl, if◌then◌else◌, leb,
}
use kason.Base.Int.{pos, negsuc}
use kason.Tests.Text.{codes}
use kason.Chars.{is_digit}
use kason.Types.{number, success, error, range}
use kason.Number.Valid.{is_valid_number, accepts_slice, digits_required, skip_digits, skip_sign}
use kason.Number.Valid.Automaton.{is_valid_number-accepts_slice}
use kason.Number.Valid.Grammar.{IsNumber, is_valid_number_iff}
use kason.Number.Integer.{
  uint64_max, unsigned_magnitude, integer_magnitude, value_to_int64, value_to_int, value_to_uint64,
  signed_value,
}
use kason.Number.Integer.Exact.{digits, IsInteger, minus, integer_of}
use kason.Number.Integer.Ranges.{
  in_int64, in_int, value_to_int64_complete, value_to_int64_sound, value_to_int_complete,
  value_to_uint64_complete,
}
use kason.Number.Accumulator.{signed, unsigned, double, accumulate}
use kason.Number.Accumulator.Finish.{
  Libc, store_signed, store_unsigned, accumulator_finish, read_double, value_to_double,
}
use kason.Number.Accumulator.Cached.{
  finish-value_to_int64, finish-value_to_uint64, read_double-accumulate, value_to_double_refuses,
}

valid : is_valid_number (codes "-0.5e+10") ≡ true
unfolding is_valid_number digits_required skip_digits skip_sign is_digit
valid = refl

leading_zeros : is_valid_number (codes "007") ≡ false
unfolding is_valid_number
leading_zeros = refl

valid_42 : is_valid_number (codes "-42") ≡ true
unfolding is_valid_number skip_digits is_digit
valid_42 = refl

valid_7 : is_valid_number (codes "7") ≡ true
unfolding is_valid_number skip_digits is_digit
valid_7 = refl

is_valid_number-accepts_slice_example :
    is_valid_number (codes "-0.5e+10") ≡ accepts_slice (codes "-0.5e+10")
is_valid_number-accepts_slice_example = is_valid_number-accepts_slice (codes "-0.5e+10")

is_valid_number_iff_example : (is_valid_number (codes "-42") ≡ true) ↔ IsNumber (codes "-42")
is_valid_number_iff_example = is_valid_number_iff (codes "-42")

minus_42 : IsInteger (codes "-42") true 42
unfolding is_digit
minus_42 = minus (digits refl (refl, tt) refl)

minus_42_value : value_to_int64 number (some (codes "-42")) true ≡ success (negsuc 41)
unfolding value_to_int64 integer_magnitude unsigned_magnitude signed_value
minus_42_value = refl

value_to_int64_complete_example :
    value_to_int64 number (some (codes "-42")) true
    ≡ (if in_int64 (integer_of true 42) then success (integer_of true 42) else range)
value_to_int64_complete_example = value_to_int64_complete minus_42

value_to_int64_sound_example :
    (negative : Bool) × (m : ℕ) × IsInteger (codes "-42") negative m
    × (negsuc 41 ≡ integer_of negative m)
    × (in_int64 (negsuc 41) ≡ true)
value_to_int64_sound_example = value_to_int64_sound (codes "-42") minus_42_value

value_to_int_complete_example :
    value_to_int number (some (codes "-42")) true
    ≡ (if in_int (integer_of true 42) then success (integer_of true 42) else range)
value_to_int_complete_example = value_to_int_complete minus_42

value_to_uint64_complete_example :
    value_to_uint64 number (some (codes "-42")) true
    ≡ (if not true && leb 42 uint64_max then success 42 else range)
value_to_uint64_complete_example = value_to_uint64_complete minus_42

-- A C library over numbers for doubles, whose `strtod` reads all of a text of one byte.
abbrev toy_libc : Libc ℕ
toy_libc = record {
  zero_double = λ negative. 0;
  print = λ negative significand exponent. (pos 1, significand ∷ []);
  strtod = λ text. elim text [ [] ↦ (0, false, 0) | c ∷ s ↦ (c, false, 1) ];
}

finish-value_to_int64_example :
    accumulator_finish toy_libc (accumulate signed (codes "-42"))
    ≡ store_signed toy_libc (value_to_int64 number (some (codes "-42")) true)
finish-value_to_int64_example = finish-value_to_int64 toy_libc (codes "-42") valid_42

finish-value_to_uint64_example :
    accumulator_finish toy_libc (accumulate unsigned (codes "7"))
    ≡ store_unsigned toy_libc (value_to_uint64 number (some (codes "7")) true)
finish-value_to_uint64_example = finish-value_to_uint64 toy_libc (codes "7") valid_7

read_double-accumulate_example :
    read_double (codes "1.5")
    ≡ (if is_valid_number (codes "1.5") then some (accumulate double (codes "1.5")) else none)
read_double-accumulate_example = read_double-accumulate (codes "1.5")

value_to_double_refuses_example : value_to_double toy_libc number (some (codes "007")) true ≡ error
value_to_double_refuses_example = value_to_double_refuses toy_libc (codes "007") leading_zeros
