-- ===== src/Number/Valid/Grammar.antt =====
-- The grammar of JSON numbers (RFC 8259, section 6), and that the parser accepts exactly it.
use kason.Base.{
  ℕ, Bool, true, false, [], ◌∷◌, ◌++◌, All, Bytes, ◌≡◌, ◌↔◌, inl, inr, refl, ap, subst, arith, some,
  ◌>>=◌, ◌==◌, Bool-cases, ==_iff,
}
use kason.Chars.{is_digit}
use kason.Number.State.{is_one_to_nine, is_exponent_mark, is_sign}
use kason.Number.Valid.{
  skip_digits, digits_required, skip_sign, after_exponent, after_fraction, after_integer,
  skip_minus, at_end, is_valid_number,
}

abbrev pub Digits : Bytes → Type 0
Digits = All (λ c. is_digit c ≡ true)

-- `[ exp ]`
pub data IsExponent : Bytes → Type 0 where
  no_exponent : IsExponent []
  unsigned :
      {e d : ℕ} {ds : Bytes}
      → is_exponent_mark e ≡ true
      → is_digit d ≡ true
      → Digits ds
      → IsExponent (e ∷ d ∷ ds)
  signed :
      {e m d : ℕ} {ds : Bytes}
      → is_exponent_mark e ≡ true
      → is_sign m ≡ true
      → is_digit d ≡ true
      → Digits ds
      → IsExponent (e ∷ m ∷ d ∷ ds)

-- `[ frac ] [ exp ]`
pub data IsFraction : Bytes → Type 0 where
  no_fraction : {s : Bytes} → IsExponent s → IsFraction s
  point :
      {d : ℕ} (ds : Bytes) {s : Bytes}
      → is_digit d ≡ true
      → Digits ds
      → IsExponent s
      → IsFraction (b'.' ∷ d ∷ (ds ++ s))

-- `int [ frac ] [ exp ]`: a zero, or digits of which the first is none.
pub data IsUnsigned : Bytes → Type 0 where
  zero_digit : {s : Bytes} → IsFraction s → IsUnsigned (b'0' ∷ s)
  digits :
      {d : ℕ} (ds : Bytes) {s : Bytes}
      → is_one_to_nine d ≡ true
      → Digits ds
      → IsFraction s
      → IsUnsigned (d ∷ (ds ++ s))

-- `[ minus ] int [ frac ] [ exp ]`
pub data IsNumber : Bytes → Type 0 where
  nonnegative : {s : Bytes} → IsUnsigned s → IsNumber s
  minus : {s : Bytes} → IsUnsigned s → IsNumber (b'-' ∷ s)

-- Digits are skipped up to the first byte that is none.
abbrev pub NoDigit : Bytes → Type 0
NoDigit [] = Unit
NoDigit (c ∷ s) = is_digit c ≡ false

pub skip_digits-append : (ds s : Bytes) → Digits ds → NoDigit s → skip_digits (ds ++ s) ≡ s
unfolding skip_digits
skip_digits-append [] [] h n = refl
skip_digits-append [] (c ∷ s) h n = rw n
skip_digits-append (d ∷ ds) s (p, h) n = rw p (skip_digits-append ds s h n)

pub record Skipped (s : Bytes) : Type 0 where
  pub front : Bytes
  pub are_digits : Digits front
  pub joined : s ≡ front ++ skip_digits s

pub skip_digits-Skipped : (s : Bytes) → Skipped s
unfolding skip_digits
skip_digits-Skipped [] = record { front = []; are_digits = tt; joined = refl }
skip_digits-Skipped (c ∷ s) = elim (Bool-cases (is_digit c)) [
  | inl p ↦
      let r = skip_digits-Skipped s in
      record {
        front = c ∷ r.front;
        are_digits = (p, r.are_digits);
        joined = rw p (ap (◌∷◌ c) r.joined);
      }
  | inr p ↦ record { front = []; are_digits = tt; joined = rw p }
]

skip_digits-Digits : (ds : Bytes) → Digits ds → skip_digits ds ≡ []
unfolding skip_digits
skip_digits-Digits [] h = refl
skip_digits-Digits (d ∷ ds) (p, h) = rw p (skip_digits-Digits ds h)

-- A digit is no sign, and an exponent mark is no digit.
digit_not_sign : (c : ℕ) → is_digit c ≡ true → is_sign c ≡ false
unfolding is_digit
digit_not_sign c h = ground arith

mark_not_digit : (c : ℕ) → is_exponent_mark c ≡ true → is_digit c ≡ false
unfolding is_digit
mark_not_digit c h = ground arith

-- Completeness: each part of the grammar is taken.
after_exponent-IsExponent : {s : Bytes} → IsExponent s → at_end (after_exponent s) ≡ true
unfolding after_exponent digits_required skip_sign
after_exponent-IsExponent no_exponent = refl
after_exponent-IsExponent (unsigned {e} {d} {ds} mark digit h) =
    rw (mark, digit_not_sign d digit, digit, skip_digits-Digits ds h)
after_exponent-IsExponent (signed {e} {m} {d} {ds} mark sign digit h) =
    rw (mark, sign, digit, skip_digits-Digits ds h)

IsExponent-NoDigit : {s : Bytes} → IsExponent s → NoDigit s
IsExponent-NoDigit no_exponent = tt
IsExponent-NoDigit (unsigned {e} mark digit h) = mark_not_digit e mark
IsExponent-NoDigit (signed {e} mark sign digit h) = mark_not_digit e mark

IsFraction-NoDigit : {s : Bytes} → IsFraction s → NoDigit s
unfolding is_digit
IsFraction-NoDigit (no_fraction h) = IsExponent-NoDigit h
IsFraction-NoDigit (point ds digit h e) = refl

after_fraction-IsExponent : {s : Bytes} → IsExponent s → after_fraction s ≡ some s
unfolding after_fraction
after_fraction-IsExponent no_exponent = refl
after_fraction-IsExponent (unsigned {e} mark digit h) = ground arith
after_fraction-IsExponent (signed {e} mark sign digit h) = ground arith

abbrev ends_fraction : Bytes → Bool
ends_fraction s = at_end (after_fraction s >>= after_exponent)

after_fraction-IsFraction : {s : Bytes} → IsFraction s → ends_fraction s ≡ true
after_fraction-IsFraction (no_fraction h) =
    rw (after_fraction-IsExponent h) (after_exponent-IsExponent h)
after_fraction-IsFraction (point {d} ds {s} digit h e) =
    let taken = skip_digits-append ds s h (IsExponent-NoDigit e) in
    unfold after_fraction digits_required in rw (digit, taken) (after_exponent-IsExponent e)

abbrev ends_unsigned : Bytes → Bool
ends_unsigned s = at_end (after_integer s >>= λ f. after_fraction f >>= after_exponent)

after_integer-IsUnsigned : {s : Bytes} → IsUnsigned s → ends_unsigned s ≡ true
unfolding after_integer
after_integer-IsUnsigned (zero_digit f) = after_fraction-IsFraction f
after_integer-IsUnsigned (digits {d} ds {s} nonzero h f) =
    let taken = skip_digits-append ds s h (IsFraction-NoDigit f) in
    let other : (d == b'0') ≡ false = ground arith in
    rw (other, nonzero, taken) (after_fraction-IsFraction f)

-- Soundness: what is taken is a part of the grammar.
skip_digits_end : (s : Bytes) → at_end (some (skip_digits s)) ≡ true → Digits s
unfolding skip_digits
skip_digits_end [] h = tt
skip_digits_end (c ∷ s) h = elim (Bool-cases (is_digit c)) [
  | inl p ↦ (p, skip_digits_end s (rw p at h))
  | inr p ↦ absurd (ground arith)
]

IsExponent-sound : (s : Bytes) → at_end (after_exponent s) ≡ true → IsExponent s
unfolding after_exponent digits_required skip_sign
IsExponent-sound [] h = no_exponent
IsExponent-sound (e ∷ []) h = absurd (ground arith)
IsExponent-sound (e ∷ m ∷ []) h = unsigned (ground arith) (ground arith) tt
IsExponent-sound (e ∷ m ∷ d ∷ s) h = elim (Bool-cases (is_sign m)) [
  | inl sign ↦ signed (ground arith) sign (ground arith) (skip_digits_end s (ground arith))
  | inr none_ ↦ unsigned (ground arith) (ground arith) (skip_digits_end (d ∷ s) (ground arith))
]

fraction_parts :
    (c d : ℕ) (s : Bytes)
    → (c == b'.') ≡ true
    → ends_fraction (c ∷ d ∷ s) ≡ true
    → (is_digit d ≡ true) × (at_end (after_exponent (skip_digits s)) ≡ true)
unfolding after_fraction digits_required
fraction_parts c d s p h = ground arith

no_point :
    (c : ℕ) (s : Bytes)
    → (c == b'.') ≡ false
    → ends_fraction (c ∷ s) ≡ true
    → at_end (after_exponent (c ∷ s)) ≡ true
unfolding after_fraction
no_point c s p h = rw p at h

after_zero :
    (c : ℕ) (s : Bytes) → (c == b'0') ≡ true → ends_unsigned (c ∷ s) ≡ true → ends_fraction s ≡ true
unfolding after_integer
after_zero c s p h = rw p at h

integer_parts :
    (c : ℕ) (s : Bytes)
    → (c == b'0') ≡ false
    → ends_unsigned (c ∷ s) ≡ true
    → (is_one_to_nine c ≡ true) × (ends_fraction (skip_digits s) ≡ true)
unfolding after_integer
integer_parts c s p h = elim (Bool-cases (is_one_to_nine c)) [
  | inl n ↦ (n, rw (p, n) at h)
  | inr n ↦ absurd (ground arith)
]

after_minus :
    (c : ℕ) (s : Bytes)
    → (c == b'-') ≡ true
    → is_valid_number (c ∷ s) ≡ true
    → ends_unsigned s ≡ true
unfolding is_valid_number skip_minus
after_minus c s p h = rw p at h

no_minus :
    (c : ℕ) (s : Bytes)
    → (c == b'-') ≡ false
    → is_valid_number (c ∷ s) ≡ true
    → ends_unsigned (c ∷ s) ≡ true
unfolding is_valid_number skip_minus
no_minus c s p h = rw p at h

valid_unsigned : {s : Bytes} → IsUnsigned s → is_valid_number s ≡ true
unfolding is_valid_number skip_minus
valid_unsigned (zero_digit f) = after_integer-IsUnsigned (zero_digit f)
valid_unsigned (digits {d} ds {s} nonzero h f) =
    let other : (d == b'-') ≡ false = ground arith in
    rw other (after_integer-IsUnsigned (digits {d = d} ds nonzero h f))

IsFraction-sound : (s : Bytes) → ends_fraction s ≡ true → IsFraction s
IsFraction-sound [] h = no_fraction no_exponent
IsFraction-sound (c ∷ []) h =
    no_fraction (IsExponent-sound (c ∷ []) (unfold after_fraction digits_required in ground arith))
IsFraction-sound (c ∷ d ∷ s) h = elim (Bool-cases (c == b'.')) [
  | inl p ↦
      let (digit, rest) = fraction_parts c d s p h in
      let r = skip_digits-Skipped s in
      let e : b'.' ∷ d ∷ (r.front ++ skip_digits s) ≡ c ∷ d ∷ s =
        cc ((==_iff c b'.').0 p, r.joined) in
      subst IsFraction e (point r.front digit r.are_digits (IsExponent-sound (skip_digits s) rest))
  | inr p ↦ no_fraction (IsExponent-sound (c ∷ d ∷ s) (no_point c (d ∷ s) p h))
]

IsUnsigned-sound : (s : Bytes) → ends_unsigned s ≡ true → IsUnsigned s
IsUnsigned-sound [] h = unfold after_integer in absurd (ground arith)
IsUnsigned-sound (c ∷ s) h = elim (Bool-cases (c == b'0')) [
  | inl p ↦
      let e : b'0' ∷ s ≡ c ∷ s = cc ((==_iff c b'0').0 p) in
      subst IsUnsigned e (zero_digit (IsFraction-sound s (after_zero c s p h)))
  | inr p ↦
      let (nonzero, rest) = integer_parts c s p h in
      let r = skip_digits-Skipped s in
      let e : c ∷ (r.front ++ skip_digits s) ≡ c ∷ s = cc (r.joined) in
      subst IsUnsigned e
        (digits r.front nonzero r.are_digits (IsFraction-sound (skip_digits s) rest))
]

-- A slice is a valid number exactly when it is one of the grammar.
pub is_valid_number_iff : (s : Bytes) → (is_valid_number s ≡ true) ↔ IsNumber s
is_valid_number_iff s = (sound s, complete)
  where
    sound : (s : Bytes) → is_valid_number s ≡ true → IsNumber s
    sound [] h = unfold is_valid_number in absurd (ground arith)
    sound (c ∷ s) h = elim (Bool-cases (c == b'-')) [
      | inl p ↦
          let e : b'-' ∷ s ≡ c ∷ s = cc ((==_iff c b'-').0 p) in
          subst IsNumber e (minus (IsUnsigned-sound s (after_minus c s p h)))
      | inr p ↦ nonnegative (IsUnsigned-sound (c ∷ s) (no_minus c s p h))
    ]

    complete : {s : Bytes} → IsNumber s → is_valid_number s ≡ true
    complete (nonnegative u) = valid_unsigned u
    complete (minus u) = unfold is_valid_number skip_minus in after_integer-IsUnsigned u
