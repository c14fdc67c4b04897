-- ===== src/Number/Integer/Ranges.antt =====
-- The conversions to `int64_t`, `int` and `uint64_t`: the value of the text, or out of range.
use kason.Base.{
  ℕ, zero, suc, ◌<◌, Bool, true, false, not, ◌&&◌, some, leb, if◌then◌else◌, Bytes, ◌≡◌, inl, inr,
  refl, arith, Bool-cases,
}
use kason.Base.Int.{ℤ, pos, negsuc, ltb_ℤ}
use kason.Types.{Convert, success, error, range, type_error, number}
use kason.Number.Integer.{
  uint64_max, int64_max, int64_min, int_max, integer_magnitude, signed_value, value_to_int64,
  narrow_to_int, value_to_int, unsigned_value, then_convert, value_to_uint64,
}
use kason.Number.Integer.Exact.{
  IsInteger, integer_of, integer_magnitude_complete, integer_magnitude_sound,
}

-- `lo <= v && v <= hi`.
abbrev pub within : ℤ → ℤ → ℤ → Bool
within lo hi v = not (ltb_ℤ v lo) && not (ltb_ℤ hi v)

abbrev pub in_int64 : ℤ → Bool
in_int64 = within int64_min (pos int64_max)

abbrev pub in_int : ℤ → Bool
in_int = within (negsuc int_max) (pos int_max)

signed_value_lem :
    (negative : Bool) (m : ℕ)
    → signed_value negative m
      ≡ (if in_int64 (integer_of negative m) then success (integer_of negative m) else range)
unfolding signed_value
signed_value_lem false m = ground arith
signed_value_lem true zero = refl
signed_value_lem true (suc m) = ground arith

too_large : (negative : Bool) (m : ℕ) → uint64_max < m → in_int64 (integer_of negative m) ≡ false
too_large false m h = ground arith
too_large true zero h = elim h [ ]
too_large true (suc m) h = ground arith

then_convert-eq-success :
    {A : Type 0} {B : Type 0} (r : Convert A) (f : A → Convert B) {b : B}
    → then_convert r f ≡ success b
    → (a : A) × (r ≡ success a) × (f a ≡ success b)
then_convert-eq-success (success a) f h = (a, refl, h)
then_convert-eq-success error f h = absurd (ground arith)
then_convert-eq-success range f h = absurd (ground arith)
then_convert-eq-success type_error f h = absurd (ground arith)

success_if :
    (test : ℤ → Bool) (w : ℤ) {v : ℤ}
    → test w ≡ true
    → (if test w then success w else range) ≡ success v
    → (v ≡ w) × (test v ≡ true)
success_if test w {v} p h = let e : v ≡ w = ground arith in (e, rw e p)

range_if :
    (test : ℤ → Bool) (w : ℤ) {v : ℤ}
    → test w ≡ false
    → (if test w then success w else range) ≡ success v
    → ⊥
range_if test w p h = ground arith

narrowed :
    (v : ℤ)
    → then_convert (if in_int64 v then success v else range) narrow_to_int
      ≡ (if in_int v then success v else range)
unfolding narrow_to_int
narrowed (pos n) = ground arith
narrowed (negsuc n) = ground arith

unsigned_result :
    (negative : Bool) (m : ℕ)
    → then_convert {A = Bool × ℕ}
        (if leb m uint64_max then success (negative, m) else range)
        (λ p. unsigned_value p.0 p.1)
      ≡ (if not negative && leb m uint64_max then success m else range)
unfolding unsigned_value
unsigned_result negative m = ground arith

signed_value_inv :
    (negative : Bool) (m : ℕ) {v : ℤ}
    → signed_value negative m ≡ success v
    → (v ≡ integer_of negative m) × (in_int64 v ≡ true)
signed_value_inv negative m h = elim (Bool-cases (in_int64 (integer_of negative m))) [
  | inl p ↦ success_if in_int64 (integer_of negative m) p (rw (signed_value_lem negative m) at h)
  | inr p ↦
      absurd (range_if in_int64 (integer_of negative m) p (rw (signed_value_lem negative m) at h))
]

-- The text of an integer is converted to its value if that fits `int64_t`, and is out of range if
-- not.
pub value_to_int64_complete :
    {s : Bytes} {negative : Bool} {m : ℕ}
    → IsInteger s negative m
    → value_to_int64 number (some s) true
      ≡ (if in_int64 (integer_of negative m) then success (integer_of negative m) else range)
unfolding value_to_int64
value_to_int64_complete {negative = negative} {m = m} d = elim (Bool-cases (leb m uint64_max)) [
  | inl fits ↦ rw (integer_magnitude_complete d, fits) (signed_value_lem negative m)
  | inr large ↦ rw (integer_magnitude_complete d, large, too_large negative m (ground arith))
]

-- Only the text of an integer is converted, and the result is its value, inside the range.
pub value_to_int64_sound :
    (s : Bytes) {v : ℤ}
    → value_to_int64 number (some s) true ≡ success v
    → (negative : Bool) × (m : ℕ) × IsInteger s negative m
      × (v ≡ integer_of negative m)
      × (in_int64 v ≡ true)
unfolding value_to_int64
value_to_int64_sound s h =
    let ((negative, m), e, later) = then_convert-eq-success (integer_magnitude (some s)) _ h in
    let (d, _) = integer_magnitude_sound s e in
    let (same, inside) = signed_value_inv negative m later in (negative, m, d, same, inside)

-- The conversion to a 32-bit `int`: the value if it fits, and out of range if not.
pub value_to_int_complete :
    {s : Bytes} {negative : Bool} {m : ℕ}
    → IsInteger s negative m
    → value_to_int number (some s) true
      ≡ (if in_int (integer_of negative m) then success (integer_of negative m) else range)
unfolding value_to_int narrow_to_int
value_to_int_complete {negative = negative} {m = m} d =
    rw (value_to_int64_complete d) (narrowed (integer_of negative m))

-- The conversion to `uint64_t`: the value if it fits; a minus sign is out of range, before a zero
-- too.
pub value_to_uint64_complete :
    {s : Bytes} {negative : Bool} {m : ℕ}
    → IsInteger s negative m
    → value_to_uint64 number (some s) true
      ≡ (if not negative && leb m uint64_max then success m else range)
unfolding value_to_uint64 unsigned_value
value_to_uint64_complete {negative = negative} {m = m} d =
    rw (integer_magnitude_complete d) (unsigned_result negative m)
