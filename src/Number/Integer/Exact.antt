-- ===== src/Number/Integer/Exact.antt =====
-- `kason_integer_magnitude` reads exactly the decimal integers, without overflow.
use kason.Base.{
  ℕ, ◌+◌, ◌-◌, ◌*◌, ◌≤◌, Bool, true, false, some, [], ◌∷◌, leb, ◌==◌, if◌then◌else◌, Bytes, ◌≡◌,
  ◌⊎◌, inl, inr, refl, arith, Bool-cases, ==_iff,
}
use kason.Base.Int.{ℤ, pos}
use kason.Chars.{is_digit}
use kason.Types.{Convert, success, error, range, type_error}
use kason.Number.State.{is_one_to_nine}
use kason.Number.Valid.Grammar.{Digits}
use kason.Number.Integer.{
  uint64_max, negate, magnitude_loop, unsigned_magnitude, with_sign, integer_magnitude,
}

-- The number that digits spell behind `n`, with no bound.
abbrev pub decimal : ℕ → Bytes → ℕ
decimal n [] = n
decimal n (c ∷ s) = decimal (n * 10 + (c - b'0')) s

-- Canonical decimal text and its value.
pub data IsDecimal : Bytes → ℕ → Type 0 where
  zero_digit : IsDecimal (b'0' ∷ []) 0
  digits :
      {c : ℕ} {s : Bytes} {m : ℕ}
      → is_one_to_nine c ≡ true
      → Digits s
      → m ≡ decimal 0 (c ∷ s)
      → IsDecimal (c ∷ s) m

-- The same behind an optional minus sign.
pub data IsInteger : Bytes → Bool → ℕ → Type 0 where
  nonnegative : {s : Bytes} {m : ℕ} → IsDecimal s m → IsInteger s false m
  minus : {s : Bytes} {m : ℕ} → IsDecimal s m → IsInteger (b'-' ∷ s) true m

-- The integer that a sign and a magnitude stand for.
abbrev pub integer_of : Bool → ℕ → ℤ
integer_of false m = pos m
integer_of true m = negate m

le-decimal : (s : Bytes) (n : ℕ) → n ≤ decimal n s
le-decimal [] n = omega arith
le-decimal (c ∷ s) n = omega (arith, le-decimal s (n * 10 + (c - b'0')))

magnitude_loop_complete :
    (s : Bytes) (n : ℕ)
    → Digits s
    → n ≤ uint64_max
    → magnitude_loop s n ≡ (if leb (decimal n s) uint64_max then success (decimal n s) else range)
unfolding magnitude_loop is_digit
magnitude_loop_complete [] n h fits = ground arith
magnitude_loop_complete (c ∷ s) n (p, h) fits =
    ground
      (arith, magnitude_loop_complete s (n * 10 + (c - b'0')) h, le-decimal s (n * 10 + (c - b'0')))

magnitude_loop_sound :
    (s : Bytes) (n : ℕ) {m : ℕ}
    → n ≤ uint64_max
    → magnitude_loop s n ≡ success m
    → Digits s × (m ≡ decimal n s) × (m ≤ uint64_max)
unfolding magnitude_loop is_digit
magnitude_loop_sound [] n fits h = ground arith
magnitude_loop_sound (c ∷ s) n {m} fits h =
    ground (arith, magnitude_loop_sound s (n * 10 + (c - b'0')) {m = m})

unsigned_magnitude_complete :
    {s : Bytes} {m : ℕ}
    → IsDecimal s m
    → unsigned_magnitude s ≡ (if leb m uint64_max then success m else range)
unfolding unsigned_magnitude
unsigned_magnitude_complete zero_digit = refl
unsigned_magnitude_complete (digits {c} {s} {m} nonzero h e) =
    let all : Digits (c ∷ s) = (unfold is_digit in ground arith, h) in
    ground (arith, magnitude_loop_complete (c ∷ s) 0 all)

zero_text : (c : ℕ) (s : Bytes) (m : ℕ) → c ≡ b'0' → s ≡ [] → m ≡ 0 → IsDecimal (c ∷ s) m
zero_text c s m p q r = rw (p, q, r) zero_digit

unsigned_magnitude_parts :
    (c : ℕ) (s : Bytes) {m : ℕ}
    → unsigned_magnitude (c ∷ s) ≡ success m
    → ((c ≡ b'0') × (s ≡ []) × (m ≡ 0))
      ⊎ ((is_one_to_nine c ≡ true) × (magnitude_loop (c ∷ s) 0 ≡ success m))
unfolding unsigned_magnitude
unsigned_magnitude_parts c [] h = ground arith
unsigned_magnitude_parts c (d ∷ s) h = ground arith

unsigned_magnitude_sound :
    (s : Bytes) {m : ℕ} → unsigned_magnitude s ≡ success m → IsDecimal s m × (m ≤ uint64_max)
unsigned_magnitude_sound [] h = unfold unsigned_magnitude in absurd (ground arith)
unsigned_magnitude_sound (c ∷ s) {m} h = elim (unsigned_magnitude_parts c s h) [
  | inl (p, q, r) ↦ (zero_text c s m p q r, omega arith)
  | inr (nonzero, run) ↦
      let (all, e, fits) = magnitude_loop_sound (c ∷ s) 0 (omega arith) run in
      (digits nonzero all.1 e, fits)
]

signed_result :
    (negative : Bool) (m : ℕ)
    → with_sign negative (if leb m uint64_max then success m else range)
      ≡ (if leb m uint64_max then success (negative, m) else range)
signed_result negative m = ground arith

with_sign_inv :
    (sign : Bool) (r : Convert ℕ) (negative : Bool) (m : ℕ)
    → with_sign sign r ≡ success (negative, m)
    → (negative ≡ sign) × (r ≡ success m)
with_sign_inv sign (success n) negative m h = ground arith
with_sign_inv sign error negative m h = absurd (ground arith)
with_sign_inv sign range negative m h = absurd (ground arith)
with_sign_inv sign type_error negative m h = absurd (ground arith)

integer_magnitude_parts :
    (c : ℕ) (s : Bytes) {negative : Bool} {m : ℕ}
    → integer_magnitude (some (c ∷ s)) ≡ success (negative, m)
    → ((c ≡ b'-') × (negative ≡ true) × (unsigned_magnitude s ≡ success m))
      ⊎ ((negative ≡ false) × (unsigned_magnitude (c ∷ s) ≡ success m))
unfolding integer_magnitude
integer_magnitude_parts c s {negative} {m} h = elim (Bool-cases (c == b'-')) [
  | inl p ↦
      let (q, r) = with_sign_inv true (unsigned_magnitude s) negative m (rw p at h) in
      inl ((==_iff c b'-').0 p, q, r)
  | inr p ↦ inr (with_sign_inv false (unsigned_magnitude (c ∷ s)) negative m (rw p at h))
]

-- The text of an integer has the magnitude that it spells, or is out of the range of `uint64_t`.
pub integer_magnitude_complete :
    {s : Bytes} {negative : Bool} {m : ℕ}
    → IsInteger s negative m
    → integer_magnitude (some s) ≡ (if leb m uint64_max then success (negative, m) else range)
unfolding integer_magnitude
integer_magnitude_complete (nonnegative zero_digit) = unfold unsigned_magnitude in refl
integer_magnitude_complete (nonnegative (digits {c} {s} {m} nonzero h e)) =
    let other : (c == b'-') ≡ false = ground arith in
    rw (other, unsigned_magnitude_complete (digits nonzero h e)) (signed_result false m)
integer_magnitude_complete (minus {m = m} d) =
    rw (unsigned_magnitude_complete d) (signed_result true m)

-- What has a magnitude is the text of an integer, and nothing wrapped around.
pub integer_magnitude_sound :
    (s : Bytes) {negative : Bool} {m : ℕ}
    → integer_magnitude (some s) ≡ success (negative, m)
    → IsInteger s negative m × (m ≤ uint64_max)
integer_magnitude_sound [] h = unfold integer_magnitude in absurd (ground arith)
integer_magnitude_sound (c ∷ s) {negative} {m} h = elim (integer_magnitude_parts c s h) [
  | inl (p, q, r) ↦ let (d, fits) = unsigned_magnitude_sound s r in (rw (p, q) (minus d), fits)
  | inr (q, r) ↦ let (d, fits) = unsigned_magnitude_sound (c ∷ s) r in (rw q (nonnegative d), fits)
]
