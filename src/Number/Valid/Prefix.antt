-- ===== src/Number/Valid/Prefix.antt =====
-- The number at the front of a range, as `kason_scan_number` of kason.c reads it.
use kason.Base.{
  ℕ, true, false, some, [], ◌∷◌, ◌++◌, append_assoc, Bytes, ◌≡◌, inl, inr, refl, ap, ◌∙◌, arith,
  ◌>>=◌, ◌==◌, Bool-cases, ==_iff, >>=-eq-some,
}
use kason.Chars.{is_digit}
use kason.Number.State.{is_one_to_nine, is_exponent_mark, is_sign}
use kason.Number.Valid.{
  skip_digits, digits_required, skip_sign, after_exponent, after_fraction, after_integer,
  skip_minus, scan_number,
}
use kason.Number.Valid.Grammar.{
  Digits, IsExponent, no_exponent, unsigned, signed, IsFraction, no_fraction, point, IsUnsigned,
  zero_digit, digits, IsNumber, nonnegative, minus, skip_digits-Skipped, NoDigit,
  skip_digits-append,
}

-- A front of `s` with a property, with `t` left.
pub record Front (P : Bytes → Type 0) (s t : Bytes) : Type 0 where
  pub front : Bytes
  pub holds : P front
  pub joined : s ≡ front ++ t

required-Digits :
    (s : Bytes) {t : Bytes}
    → digits_required s ≡ some t
    → (d : ℕ) × (ds : Bytes) × (is_digit d ≡ true) × Digits ds × (s ≡ d ∷ (ds ++ t))
unfolding digits_required
required-Digits [] h = absurd (cc h)
required-Digits (d ∷ s) {t} h = elim (Bool-cases (is_digit d)) [
  | inl p ↦
      let r = skip_digits-Skipped s in
      let e : skip_digits s ≡ t = ground (arith, h, p) in
      (d, r.front, p, r.are_digits, cc (r.joined, e))
  | inr p ↦ absurd (ground (arith, h, p))
]

IsExponent-text :
    (e : ℕ) (s : Bytes) {t : Bytes}
    → is_exponent_mark e ≡ true
    → digits_required (skip_sign s) ≡ some t
    → Front IsExponent (e ∷ s) t
unfolding skip_sign
IsExponent-text e [] mark h = absurd (unfold digits_required in cc h)
IsExponent-text e (c ∷ s) {t} mark h = elim (Bool-cases (is_sign c)) [
  | inl p ↦
      let (d, ds, digit, rest, eq) = required-Digits s {t = t} (rw p at h) in
      record { front = e ∷ c ∷ d ∷ ds; holds = signed mark p digit rest; joined = cc eq }
  | inr p ↦
      let (d, ds, digit, rest, eq) = required-Digits (c ∷ s) {t = t} (rw p at h) in
      record { front = e ∷ d ∷ ds; holds = unsigned mark digit rest; joined = cc eq }
]

IsExponent-Front : (s : Bytes) {t : Bytes} → after_exponent s ≡ some t → Front IsExponent s t
unfolding after_exponent
IsExponent-Front [] h = record { front = []; holds = no_exponent; joined = ground (arith, h) }
IsExponent-Front (c ∷ s) {t} h = elim (Bool-cases (is_exponent_mark c)) [
  | inl p ↦ IsExponent-text c s {t = t} p (rw p at h)
  | inr p ↦ record { front = []; holds = no_exponent; joined = ground (arith, h, p) }
]

IsFraction-Front :
    (s : Bytes) {r t : Bytes}
    → after_fraction s ≡ some r
    → Front IsExponent r t
    → Front IsFraction s t
unfolding after_fraction
IsFraction-Front [] {r} h x =
    let e : [] ≡ r = ground (arith, h) in
    record { front = x.front; holds = no_fraction x.holds; joined = e ∙ x.joined }
IsFraction-Front (c ∷ s) {r} {t} h x = elim (Bool-cases (c == b'.')) [
  | inl p ↦
      let (d, ds, digit, rest, eq) = required-Digits s {t = r} (rw p at h) in
      record {
        front = b'.' ∷ d ∷ (ds ++ x.front);
        holds = point ds digit rest x.holds;
        joined = cc ((==_iff c b'.').0 p, eq, x.joined, append_assoc ds x.front t);
      }
  | inr p ↦
      let e : c ∷ s ≡ r = ground (arith, h, p) in
      record { front = x.front; holds = no_fraction x.holds; joined = e ∙ x.joined }
]

integer-Front :
    (s : Bytes) {r t : Bytes}
    → after_integer s ≡ some r
    → Front IsFraction r t
    → Front IsUnsigned s t
unfolding after_integer
integer-Front [] h x = absurd (cc h)
integer-Front (c ∷ s) {r} {t} h x = elim (Bool-cases (c == b'0')) [
  | inl p ↦
      let e : s ≡ r = ground (arith, h, p) in
      record {
        front = b'0' ∷ x.front;
        holds = zero_digit x.holds;
        joined = cc ((==_iff c b'0').0 p, e, x.joined);
      }
  | inr p ↦ elim (Bool-cases (is_one_to_nine c)) [
    | inl q ↦
        let k = skip_digits-Skipped s in
        let e : skip_digits s ≡ r = ground (arith, h, p, q) in
        record {
          front = c ∷ (k.front ++ x.front);
          holds = digits k.front q k.are_digits x.holds;
          joined = cc (k.joined, e, x.joined, append_assoc k.front x.front t);
        }
    | inr q ↦ absurd (ground (arith, h, p, q))
  ]
]

signed-Front : (s : Bytes) {t : Bytes} → Front IsUnsigned (skip_minus s) t → Front IsNumber s t
unfolding skip_minus
signed-Front [] x = record { front = x.front; holds = nonnegative x.holds; joined = x.joined }
signed-Front (c ∷ s) {t} x = elim (Bool-cases (c == b'-')) [
  | inl p ↦
      let y : Front IsUnsigned s t = rw p at x in
      record {
        front = b'-' ∷ y.front;
        holds = minus y.holds;
        joined = cc ((==_iff c b'-').0 p, y.joined);
      }
  | inr p ↦
      let y : Front IsUnsigned (c ∷ s) t = rw p at x in
      record { front = y.front; holds = nonnegative y.holds; joined = y.joined }
]

-- What is read is a number of the grammar.
pub scan_number-Front : (s : Bytes) {t : Bytes} → scan_number s ≡ some t → Front IsNumber s t
unfolding scan_number
scan_number-Front s {t} h =
    let (a, p, rest) = >>=-eq-some (after_integer (skip_minus s)) _ h in
    let (b, q, last) = >>=-eq-some (after_fraction a) _ rest in
    signed-Front s (
      integer-Front (skip_minus s) {r = a} p
        (IsFraction-Front a {r = b} q (IsExponent-Front b {t = t} last)))

-- A range in front of which a number can end: it does not go on with a digit, a point or an exponent.
abbrev pub EndsNumber : Bytes → Type 0
EndsNumber [] = Unit
EndsNumber (c ∷ s) = (is_digit c ≡ false) × ((c == b'.') ≡ false) × (is_exponent_mark c ≡ false)

ends-NoDigit : (t : Bytes) → EndsNumber t → NoDigit t
ends-NoDigit [] h = tt
ends-NoDigit (c ∷ t) (h, _, _) = h

exponent-NoDigit : {e : Bytes} (t : Bytes) → IsExponent e → EndsNumber t → NoDigit (e ++ t)
unfolding is_digit
exponent-NoDigit t no_exponent h = ends-NoDigit t h
exponent-NoDigit t (unsigned p q r) h = ground arith
exponent-NoDigit t (signed p q r k) h = ground arith

exponent_kept :
    {e : Bytes} (t : Bytes) → IsExponent e → EndsNumber t → after_fraction (e ++ t) ≡ some (e ++ t)
unfolding after_fraction
exponent_kept [] no_exponent h = refl
exponent_kept (c ∷ t) no_exponent (_, p, _) = rw p
exponent_kept t (unsigned p q r) h = ground arith
exponent_kept t (signed p q r k) h = ground arith

digit_no_sign : (d : ℕ) → is_digit d ≡ true → is_sign d ≡ false
unfolding is_digit
digit_no_sign d h = ground arith

exponent_read :
    {e : Bytes} (t : Bytes) → IsExponent e → EndsNumber t → after_exponent (e ++ t) ≡ some t
unfolding after_exponent digits_required skip_sign
exponent_read [] no_exponent h = refl
exponent_read (c ∷ t) no_exponent (_, _, p) = rw p
exponent_read t (unsigned {ds = ds} p q r) h =
    rw (p, digit_no_sign _ q, q) (ap some (skip_digits-append ds t r (ends-NoDigit t h)))
exponent_read t (signed {ds = ds} p q r k) h =
    ground (arith, p, q, r, skip_digits-append ds t k (ends-NoDigit t h))

fraction_read :
    {f : Bytes} (t : Bytes)
    → IsFraction f
    → EndsNumber t
    → (after_fraction (f ++ t) >>= after_exponent) ≡ some t
fraction_read t (no_fraction e) h = rw (exponent_kept t e h) (exponent_read t e h)
fraction_read t (point {d} ds {s} digit rest e) h =
    let joined : (ds ++ s) ++ t ≡ ds ++ (s ++ t) = append_assoc ds s t in
    let skipped = skip_digits-append ds (s ++ t) rest (exponent-NoDigit t e h) in
    unfold after_fraction digits_required in rw (joined, digit, skipped) (exponent_read t e h)

fraction-NoDigit : {f : Bytes} (t : Bytes) → IsFraction f → EndsNumber t → NoDigit (f ++ t)
unfolding is_digit
fraction-NoDigit t (no_fraction e) h = exponent-NoDigit t e h
fraction-NoDigit t (point ds p r e) h = ground arith

unsigned_read :
    {n : Bytes} (t : Bytes)
    → IsUnsigned n
    → EndsNumber t
    → (after_integer (n ++ t) >>= λ s. after_fraction s >>= after_exponent) ≡ some t
unfolding after_integer
unsigned_read t (zero_digit f) h = fraction_read t f h
unsigned_read t (digits {d} ds {s} nonzero rest f) h =
    let joined : (ds ++ s) ++ t ≡ ds ++ (s ++ t) = append_assoc ds s t in
    let other : (d == b'0') ≡ false = ground arith in
    let skipped = skip_digits-append ds (s ++ t) rest (fraction-NoDigit t f h) in
    rw (joined, other, nonzero, skipped) (fraction_read t f h)

skip_minus-unsigned : {n : Bytes} (t : Bytes) → IsUnsigned n → skip_minus (n ++ t) ≡ n ++ t
unfolding skip_minus
skip_minus-unsigned t (zero_digit f) = refl
skip_minus-unsigned t (digits ds nonzero rest f) = ground arith

-- A number of the grammar is read whole where it can end.
pub scan_number-IsNumber :
    {n : Bytes} (t : Bytes) → IsNumber n → EndsNumber t → scan_number (n ++ t) ≡ some t
unfolding scan_number
scan_number-IsNumber t (nonnegative u) h = rw (skip_minus-unsigned t u) (unsigned_read t u h)
scan_number-IsNumber t (minus u) h = unfold skip_minus in unsigned_read t u h
