-- ===== src/Number/Valid.antt =====
-- `is_valid_number` and `kason_scan_number` of kason.c, and what they share with the automaton.
pub mod Automaton
pub mod Grammar
pub mod Prefix
use kason.Base.{
  ℕ, Bool, true, false, not, ◌&&◌, ◌||◌, Option, none, some, List, [], ◌∷◌, leb, ◌==◌,
  if◌then◌else◌, ◌>>=◌, Bytes, ◌≡◌, refl, arith,
}
use kason.Chars.{is_digit}
use kason.Number.State.{is_one_to_nine, is_exponent_mark, is_sign, number_begin, accepts}

-- `for (; ptr <= end && is_digit(*ptr); ptr++)`.
unfoldable pub skip_digits : Bytes → Bytes
skip_digits [] = []
skip_digits (c ∷ s) = if is_digit c then skip_digits s else c ∷ s

-- One digit is required, and the others follow.
unfoldable pub digits_required : Bytes → Option Bytes
unfolding skip_digits
digits_required [] = none
digits_required (c ∷ s) = if not (is_digit c) then none else some (skip_digits s)

-- The sign of an exponent is optional.
unfoldable pub skip_sign : Bytes → Bytes
skip_sign [] = []
skip_sign (c ∷ s) = if is_sign c then s else c ∷ s

unfoldable pub after_exponent : Bytes → Option Bytes
unfolding digits_required skip_sign
after_exponent [] = some []
after_exponent (c ∷ s) = if is_exponent_mark c then digits_required (skip_sign s) else some (c ∷ s)

unfoldable pub after_fraction : Bytes → Option Bytes
unfolding digits_required
after_fraction [] = some []
after_fraction (c ∷ s) = if c == b'.' then digits_required s else some (c ∷ s)

-- The digits in front of the point: a zero, or a digit that is none and its successors.
unfoldable pub after_integer : Bytes → Option Bytes
unfolding skip_digits
after_integer [] = none
after_integer (c ∷ s) =
    if c == b'0' then some s else if is_one_to_nine c then some (skip_digits s) else none

unfoldable pub skip_minus : Bytes → Bytes
skip_minus [] = []
skip_minus (c ∷ s) = if c == b'-' then s else c ∷ s

-- The rest of the input behind a number. The cursor is inside the input when this is called.
unfoldable pub scan_number : Bytes → Option Bytes
unfolding skip_minus after_integer after_fraction after_exponent
scan_number s = do
  fraction_part ← after_integer (skip_minus s)
  exponent_part ← after_fraction fraction_part
  after_exponent exponent_part

-- `ptr > end`.
abbrev pub at_end : Option Bytes → Bool
at_end none = false
at_end (some []) = true
at_end (some (c ∷ s)) = false

unfoldable pub is_valid_number : Bytes → Bool
unfolding skip_minus after_integer after_fraction after_exponent
is_valid_number [] = false
is_valid_number (c ∷ s) = at_end (do
  fraction_part ← after_integer (skip_minus (c ∷ s))
  exponent_part ← after_fraction fraction_part
  after_exponent exponent_part)

-- The slice as the incremental parser reads it: `kason_number_begin`, then `kason_number_next`.
unfoldable pub accepts_slice : Bytes → Bool
accepts_slice [] = false
accepts_slice (c ∷ s) = accepts (number_begin c) s
