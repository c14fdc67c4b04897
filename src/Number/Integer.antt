-- ===== src/Number/Integer.antt =====
-- `kason_integer_magnitude` of kason.c and the integer conversions that use it.
pub mod Exact
pub mod Ranges
use kason.Base.{
  ℕ, zero, suc, ◌+◌, ◌-◌, ◌*◌, ◌/◌, ◌%◌, ◌^◌, Bool, true, false, not, ◌||◌, Option, none, some,
  List, [], ◌∷◌, ltb, ◌==◌, if◌then◌else◌, Bytes,
}
use kason.Base.Int.{ℤ, pos, negsuc, ltb_ℤ}
use kason.Types.{JsonType, number, Convert, success, error, range, type_error}

abbrev pub uint64_max : ℕ
uint64_max = 2 ^ 64 - 1

abbrev pub int64_max : ℕ
int64_max = 2 ^ 63 - 1

-- The loop over the digits.
unfoldable pub magnitude_loop : Bytes → ℕ → Convert ℕ
magnitude_loop [] value = success value
magnitude_loop (c ∷ s) value =
    let digit = c - b'0' in
    let rest = magnitude_loop s ((value * 10 + digit) % 2 ^ 64) in
    if ltb c b'0' || ltb b'9' c
    then error
    else if ltb ((uint64_max - digit) / 10) value
    then range
    else rest

-- Behind the sign.
unfoldable pub unsigned_magnitude : Bytes → Convert ℕ
unfolding magnitude_loop
unsigned_magnitude [] = error
unsigned_magnitude (c ∷ s) =
    if c == b'0'
    then elim s [ [] ↦ success 0 | _ ∷ _ ↦ error ]
    else if ltb c b'1' || ltb b'9' c
    then error
    else magnitude_loop (c ∷ s) 0

abbrev pub with_sign : Bool → Convert ℕ → Convert (Bool × ℕ)
with_sign negative (success m) = success (negative, m)
with_sign negative error = error
with_sign negative range = range
with_sign negative type_error = type_error

-- The slice is `none` if a pointer is NULL; the result is the sign and the magnitude.
unfoldable pub integer_magnitude : Option Bytes → Convert (Bool × ℕ)
integer_magnitude none = error
integer_magnitude (some []) = error
integer_magnitude (some (c ∷ s)) =
    if c == b'-'
    then with_sign true (unsigned_magnitude s)
    else with_sign false (unsigned_magnitude (c ∷ s))

-- `-(int64_t) m` where that fits.
abbrev pub negate : ℕ → ℤ
negate zero = pos 0
negate (suc n) = negsuc n

abbrev pub int64_min : ℤ
int64_min = negsuc int64_max

unfoldable pub signed_value : Bool → ℕ → Convert ℤ
signed_value negative magnitude =
    let limit = if negative then int64_max + 1 else int64_max in
    if ltb limit magnitude
    then range
    else if negative
    then success (if magnitude == int64_max + 1 then int64_min else negate magnitude)
    else success (pos magnitude)

abbrev is_number : JsonType → Bool
is_number number = true
is_number _ = false

abbrev pub then_convert : {A : Type 0} {B : Type 0} → Convert A → (A → Convert B) → Convert B
then_convert (success a) f = f a
then_convert error f = error
then_convert range f = range
then_convert type_error f = type_error

-- `has_out` is `out_value != NULL`; a success stores the value.
unfoldable pub value_to_int64 : JsonType → Option Bytes → Bool → Convert ℤ
value_to_int64 type s has_out =
    if not (is_number type)
    then type_error
    else if not has_out
    then error
    else then_convert (integer_magnitude s) (λ p. signed_value p.0 p.1)

abbrev pub int_max : ℕ
int_max = 2 ^ 31 - 1

-- The range test of `kason_value_to_int`, for a 32-bit `int`.
unfoldable pub narrow_to_int : ℤ → Convert ℤ
narrow_to_int value =
    if ltb_ℤ value (negsuc int_max) || ltb_ℤ (pos int_max) value then range else success value

unfoldable pub value_to_int : JsonType → Option Bytes → Bool → Convert ℤ
value_to_int type s has_out =
    if not has_out
    then if is_number type then error else type_error
    else then_convert (value_to_int64 type s true) narrow_to_int

unfoldable pub unsigned_value : Bool → ℕ → Convert ℕ
unsigned_value negative magnitude = if negative then range else success magnitude

unfoldable pub value_to_uint64 : JsonType → Option Bytes → Bool → Convert ℕ
value_to_uint64 type s has_out =
    if not (is_number type)
    then type_error
    else if not has_out
    then error
    else then_convert (integer_magnitude s) (λ p. unsigned_value p.0 p.1)
