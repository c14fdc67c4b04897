-- ===== src/Number/Valid/Automaton.antt =====
-- The one-pass test and the automaton give the same verdict on every slice.
use kason.Base.{Option, some, [], ◌∷◌, Bytes, ◌≡◌, refl, arith, ◌>>=◌}
use kason.Number.State.{
  sign, leading_zero, integer, decimal_point, fraction, exponent_mark, exponent_sign, exponent,
  number_begin, number_next, number_complete, accepts, accepts-cons, accepts-nil, accepts-invalid,
}
use kason.Number.Valid.{
  skip_digits, digits_required, skip_sign, after_exponent, after_fraction, after_integer,
  skip_minus, at_end, is_valid_number, accepts_slice,
}

accepts-exponent : (s : Bytes) → accepts exponent s ≡ at_end (some (skip_digits s))
unfolding skip_digits number_next number_complete
accepts-exponent [] = accepts-nil exponent
accepts-exponent (c ∷ s) =
    ground (arith, accepts-cons exponent c s, accepts-exponent s, accepts-invalid s)

accepts-exponent_sign : (s : Bytes) → accepts exponent_sign s ≡ at_end (digits_required s)
unfolding digits_required number_next number_complete
accepts-exponent_sign [] = accepts-nil exponent_sign
accepts-exponent_sign (c ∷ s) =
    ground (arith, accepts-cons exponent_sign c s, accepts-exponent s, accepts-invalid s)

accepts-exponent_mark :
    (s : Bytes) → accepts exponent_mark s ≡ at_end (digits_required (skip_sign s))
unfolding digits_required skip_sign number_next number_complete
accepts-exponent_mark [] = accepts-nil exponent_mark
accepts-exponent_mark (c ∷ s) = ground (
  arith,
  accepts-cons exponent_mark c s,
  accepts-exponent s,
  accepts-exponent_sign s,
  accepts-invalid s,
)

accepts-fraction : (s : Bytes) → accepts fraction s ≡ at_end (after_exponent (skip_digits s))
unfolding skip_digits after_exponent number_next number_complete
accepts-fraction [] = accepts-nil fraction
accepts-fraction (c ∷ s) = ground (
  arith,
  accepts-cons fraction c s,
  accepts-fraction s,
  accepts-exponent_mark s,
  accepts-invalid s,
)

accepts-decimal_point :
    (s : Bytes) → accepts decimal_point s ≡ at_end (digits_required s >>= after_exponent)
unfolding digits_required number_next number_complete
accepts-decimal_point [] = accepts-nil decimal_point
accepts-decimal_point (c ∷ s) =
    ground (arith, accepts-cons decimal_point c s, accepts-fraction s, accepts-invalid s)

accepts-leading_zero :
    (s : Bytes) → accepts leading_zero s ≡ at_end (after_fraction s >>= after_exponent)
unfolding after_fraction after_exponent number_next number_complete
accepts-leading_zero [] = accepts-nil leading_zero
accepts-leading_zero (c ∷ s) = ground (
  arith,
  accepts-cons leading_zero c s,
  accepts-decimal_point s,
  accepts-exponent_mark s,
  accepts-invalid s,
)

accepts-integer :
    (s : Bytes) → accepts integer s ≡ at_end (after_fraction (skip_digits s) >>= after_exponent)
unfolding skip_digits after_fraction after_exponent number_next number_complete
accepts-integer [] = accepts-nil integer
accepts-integer (c ∷ s) = ground (
  arith,
  accepts-cons integer c s,
  accepts-integer s,
  accepts-decimal_point s,
  accepts-exponent_mark s,
  accepts-invalid s,
)

abbrev number_rest : Bytes → Option Bytes
number_rest s = do f ← after_integer s; e ← after_fraction f; after_exponent e

accepts-sign : (s : Bytes) → accepts sign s ≡ at_end (number_rest s)
unfolding after_integer number_next number_complete
accepts-sign [] = accepts-nil sign
accepts-sign (c ∷ s) =
    ground
      (arith, accepts-cons sign c s, accepts-leading_zero s, accepts-integer s, accepts-invalid s)

-- For every slice, `is_valid_number` says what the automaton says that starts with
-- `kason_number_begin`, steps by `kason_number_next` and ends with `kason_number_complete`.
pub is_valid_number-accepts_slice : (s : Bytes) → is_valid_number s ≡ accepts_slice s
unfolding is_valid_number accepts_slice number_begin after_integer skip_minus
is_valid_number-accepts_slice [] = refl
is_valid_number-accepts_slice (c ∷ s) =
    ground (arith, accepts-sign s, accepts-leading_zero s, accepts-integer s, accepts-invalid s)
