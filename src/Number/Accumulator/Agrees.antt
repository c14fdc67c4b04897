-- ===== src/Number/Accumulator/Agrees.antt =====
-- Converting beside the automaton reads what converting the finished text reads.
use kason.Base.{
  ℕ, true, false, [], ◌∷◌, ◌==◌, if◌then◌else◌, Bytes, ◌≡◌, ◌⊎◌, inl, inr, refl, sym, ap, arith,
  Bool-cases, ==_iff, ◌∙◌, some,
}
use kason.Chars.{is_digit}
use kason.Types.{error}
use kason.Number.State.{
  NumberState, invalid, sign, leading_zero, integer, decimal_point, exponent_mark, is_one_to_nine,
  number_begin, number_next, number_step, stays_on_digit, number_complete, accepts, accepts-cons,
  accepts-nil, accepts-invalid,
}
use kason.Number.Valid.{accepts_slice}
use kason.Number.Integer.{magnitude_loop, unsigned_magnitude, with_sign, integer_magnitude}
use kason.Number.Accumulator.{
  Conversion, signed, unsigned, Accumulator, accumulator_init, magnitude_digit, integer_digit,
  state_digit, feed_state, accumulator_feed, feed_rest, accumulate,
}
use kason.Number.Accumulator.Tail.{IsIntegerKind, integer_result}
use kason.Number.Accumulator.Digits.{
  Reading, Reading-digit, mark_error, feed_rest-cons, integer_rest, digit_stays,
}

after_zero :
    (c : ℕ) (s : Bytes)
    → accepts leading_zero (c ∷ s) ≡ true
    → (is_digit c ≡ false)
      × ((number_step leading_zero c ≡ decimal_point)
          ⊎ (number_step leading_zero c ≡ exponent_mark))
unfolding number_step number_next stays_on_digit is_digit
after_zero c s h = ground (arith, accepts-cons leading_zero c s, accepts-invalid s)

zero_then : (c : ℕ) (s : Bytes) → unsigned_magnitude (b'0' ∷ c ∷ s) ≡ error
unfolding unsigned_magnitude
zero_then c s = refl

zero_rest :
    (s : Bytes) (a : Accumulator)
    → Reading a
    → a.magnitude ≡ 0
    → accepts leading_zero s ≡ true
    → integer_result (feed_rest leading_zero a s)
      ≡ with_sign a.negative (unsigned_magnitude (b'0' ∷ s))
zero_rest [] a r m h = unfold feed_rest unsigned_magnitude in rw (r.no_overflow, r.form, m)
zero_rest (c ∷ s) a r m h =
    let (other, mark) = after_zero c s h in
    rw (feed_rest-cons, zero_then c s) (mark_error s a c (number_step leading_zero c) r other mark)

-- The first digit of an integer part.
start_zero :
    (a : Accumulator)
    → Reading a
    → a.magnitude ≡ 0
    → accumulator_feed a b'0' leading_zero ≡ record a { magnitude = 0 }
unfolding accumulator_feed feed_state state_digit integer_digit magnitude_digit is_digit
start_zero a r m = ground arith

nonzero_magnitude :
    (c : ℕ) (s : Bytes)
    → is_one_to_nine c ≡ true
    → unsigned_magnitude (c ∷ s) ≡ magnitude_loop (c ∷ s) 0
unfolding unsigned_magnitude magnitude_loop
nonzero_magnitude c s h = ground arith

stay_digit : (c : ℕ) → is_digit c ≡ true → number_next integer c ≡ integer
unfolding number_next
stay_digit c digit = rw digit

start_integer :
    (c : ℕ) (s : Bytes) (a : Accumulator)
    → Reading a
    → a.magnitude ≡ 0
    → is_one_to_nine c ≡ true
    → accepts integer s ≡ true
    → integer_result (feed_rest integer (accumulator_feed a c integer) s)
      ≡ with_sign a.negative (unsigned_magnitude (c ∷ s))
start_integer c s a r m n h =
    let digit : is_digit c ≡ true = unfold is_digit in ground arith in
    let all : accepts integer (c ∷ s) ≡ true =
      accepts-cons integer c s ∙ rw (stay_digit c digit) h in
    let fed : feed_rest integer a (c ∷ s) ≡ feed_rest integer (accumulator_feed a c integer) s =
      rw (feed_rest-cons, digit_stays c digit) in
    let loop : magnitude_loop (c ∷ s) a.magnitude ≡ unsigned_magnitude (c ∷ s) =
      ap (magnitude_loop (c ∷ s)) m ∙ sym (nonzero_magnitude c s n) in
    ap integer_result (sym fed) ∙ integer_rest (c ∷ s) a r all ∙ ap (with_sign a.negative) loop

-- The automaton's state at the first digit.
abbrev first_digit : ℕ → NumberState
first_digit c = if c == b'0' then leading_zero else if is_one_to_nine c then integer else invalid

start_digits :
    (c : ℕ) (s : Bytes) (a : Accumulator)
    → Reading a
    → a.magnitude ≡ 0
    → accepts (first_digit c) s ≡ true
    → integer_result (feed_rest (first_digit c) (accumulator_feed a c (first_digit c)) s)
      ≡ with_sign a.negative (unsigned_magnitude (c ∷ s))
start_digits c s a r m h = elim (Bool-cases (c == b'0')) [
  | inl z ↦
      let e = (==_iff c b'0').0 z in
      let b = record a { magnitude = 0 } in
      rw (z, e, start_zero a r m) (zero_rest s b (Reading-digit a 0 r) refl (rw z at h))
  | inr z ↦ elim (Bool-cases (is_one_to_nine c)) [
    | inl n ↦ rw (z, n) (start_integer c s a r m n (rw (z, n) at h))
    | inr n ↦
        let none_ : accepts invalid s ≡ true = rw (z, n) at h in
        absurd (ground (arith, none_, accepts-invalid s))
  ]
]

Reading-init : (kind : Conversion) → IsIntegerKind kind → Reading (accumulator_init kind)
Reading-init kind k = record { integer_kind = k; no_overflow = refl; form = refl }

begin_digit : (c : ℕ) → (c == b'-') ≡ false → number_begin c ≡ first_digit c
unfolding number_begin
begin_digit c p = rw p

step_from_sign : (c : ℕ) → number_step sign c ≡ first_digit c
unfolding number_step number_next stays_on_digit
step_from_sign c = ground arith

feed_sign :
    (kind : Conversion)
    → IsIntegerKind kind
    → accumulator_feed (accumulator_init kind) b'-' sign
      ≡ record (accumulator_init kind) { negative = true }
unfolding accumulator_feed feed_state
feed_sign kind k = ground arith

next_from_sign : (c : ℕ) → number_next sign c ≡ first_digit c
unfolding number_next
next_from_sign c = refl

begin_minus : number_begin b'-' ≡ sign
unfolding number_begin
begin_minus = refl

behind_sign :
    (kind : Conversion) (s : Bytes)
    → IsIntegerKind kind
    → accepts sign s ≡ true
    → integer_result (feed_rest sign (record (accumulator_init kind) { negative = true }) s)
      ≡ with_sign true (unsigned_magnitude s)
behind_sign kind [] k h = absurd (unfold number_complete in ground (arith, accepts-nil sign))
behind_sign kind (c ∷ s) k h =
    let a : Accumulator = record (accumulator_init kind) { negative = true } in
    let r : Reading a = record { integer_kind = k; no_overflow = refl; form = refl } in
    let next : number_step sign c ≡ first_digit c = step_from_sign c in
    let go : accepts (first_digit c) s ≡ true =
      ap (λ state. accepts state s) (sym (next_from_sign c)) ∙ sym (accepts-cons sign c s) ∙ h in
    rw (feed_rest-cons, next) (start_digits c s a r refl go)

-- For the text of a number, the signed and the unsigned accumulator end with the sign and the
-- magnitude that `kason_integer_magnitude` reads from the finished text, and fail as it fails.
pub accumulate-integer_magnitude :
    (kind : Conversion) (s : Bytes)
    → (kind ≡ signed) ⊎ (kind ≡ unsigned)
    → accepts_slice s ≡ true
    → integer_result (accumulate kind s) ≡ integer_magnitude (some s)
unfolding accumulate accepts_slice integer_magnitude
accumulate-integer_magnitude kind [] k h = absurd (ground arith)
accumulate-integer_magnitude kind (c ∷ s) k h = elim (Bool-cases (c == b'-')) [
  | inl p ↦
      let minus = (==_iff c b'-').0 p in
      let rest : accepts sign s ≡ true = rw (minus, begin_minus) at h in
      rw (minus, begin_minus, feed_sign kind k) (behind_sign kind s k rest)
  | inr p ↦
      rw (p, begin_digit c p)
        (start_digits c s (accumulator_init kind) (Reading-init kind k) refl
          (rw (begin_digit c p) at h))
]
