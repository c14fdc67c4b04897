-- ===== src/Number/Accumulator/Digits.antt =====
-- The digits of the integer part: the accumulator and the loop over the text go side by side.
use kason.Base.{
  ℕ, ◌+◌, ◌-◌, ◌*◌, ◌/◌, ◌%◌, ◌^◌, Bool, true, false, [], ◌∷◌, ltb, if◌then◌else◌, Bytes, ◌≡◌, ◌⊎◌,
  inl, inr, refl, arith, Bool-cases, ◌∙◌,
}
use kason.Chars.{is_digit}
use kason.Types.{error, range}
use kason.Number.State.{
  NumberState, integer, decimal_point, exponent_mark, number_next, number_step, stays_on_digit,
  accepts, accepts-cons, accepts-invalid,
}
use kason.Number.Integer.{uint64_max, magnitude_loop, with_sign}
use kason.Number.Accumulator.{
  Accumulator, magnitude_digit, integer_digit, state_digit, feed_state, accumulator_feed, feed_rest,
}
use kason.Number.Accumulator.Tail.{
  IsIntegerKind, integer_result, is_tail, feed_rest_tail, feed_rest_overflow,
}

-- An accumulator that has read digits without overflow.
pub record Reading (a : Accumulator) : Type 0 where
  pub integer_kind : IsIntegerKind a.kind
  pub no_overflow : a.integer_overflow ≡ false
  pub form : a.integer_form ≡ true

-- One more digit: the overflow test is that of the loop over the text.
feed_digit :
    (a : Accumulator) (c : ℕ)
    → Reading a
    → is_digit c ≡ true
    → accumulator_feed a c integer ≡ (
        if ltb ((uint64_max - (c - b'0')) / 10) a.magnitude
        then record a { integer_overflow = true }
        else record a { magnitude = (a.magnitude * 10 + (c - b'0')) % 2 ^ 64 })
unfolding accumulator_feed feed_state state_digit integer_digit magnitude_digit
feed_digit a c r digit = ground arith

pub Reading-digit : (a : Accumulator) (n : ℕ) → Reading a → Reading (record a { magnitude = n })
Reading-digit a n r = record {
  integer_kind = r.integer_kind;
  no_overflow = r.no_overflow;
  form = r.form;
}

tail_error :
    (s : Bytes) (a : Accumulator) (state : NumberState)
    → IsIntegerKind a.kind
    → is_tail state ≡ true
    → a.integer_overflow ≡ false
    → a.integer_form ≡ false
    → integer_result (feed_rest state a s) ≡ error
tail_error s a state k tail_ o f =
    let same = feed_rest_tail s a state k tail_ in
    let o' = same.overflow_is ∙ o in let f' = same.not_integer f in rw (o', f')

overflow_range :
    (s : Bytes) (a : Accumulator) (state : NumberState)
    → IsIntegerKind a.kind
    → a.integer_overflow ≡ true
    → integer_result (feed_rest state a s) ≡ range
overflow_range s a state k o = rw (feed_rest_overflow s a state k o)

-- The byte that ends the integer part clears `integer_form`.
feed_mark :
    (a : Accumulator) (c : ℕ) (state : NumberState)
    → Reading a
    → is_digit c ≡ false
    → (state ≡ decimal_point) ⊎ (state ≡ exponent_mark)
    → accumulator_feed a c state ≡ record a { integer_form = false }
unfolding accumulator_feed feed_state
feed_mark a c state r digit m = ground arith

pub mark_error :
    (s : Bytes) (a : Accumulator) (c : ℕ) (state : NumberState)
    → Reading a
    → is_digit c ≡ false
    → (state ≡ decimal_point) ⊎ (state ≡ exponent_mark)
    → integer_result (feed_rest state (accumulator_feed a c state) s) ≡ error
mark_error s a c state r digit m = rw (feed_mark a c state r digit m) (
    tail_error s (record a { integer_form = false }) state r.integer_kind (ground arith)
      r.no_overflow refl)

after_digits :
    (c : ℕ) (s : Bytes)
    → is_digit c ≡ false
    → accepts integer (c ∷ s) ≡ true
    → (number_step integer c ≡ decimal_point) ⊎ (number_step integer c ≡ exponent_mark)
unfolding number_step number_next
after_digits c s digit h = ground (arith, accepts-cons integer c s, accepts-invalid s)

pub digit_stays : (c : ℕ) → is_digit c ≡ true → number_step integer c ≡ integer
unfolding number_step stays_on_digit
digit_stays c digit = ground arith

accepts_digit :
    (c : ℕ) (s : Bytes)
    → is_digit c ≡ true
    → accepts integer (c ∷ s) ≡ true
    → accepts integer s ≡ true
unfolding number_next
accepts_digit c s digit h = ground (arith, accepts-cons integer c s)

-- One round of the loop over the text.
loop_digit :
    (c : ℕ) (s : Bytes) (n : ℕ)
    → is_digit c ≡ true
    → magnitude_loop (c ∷ s) n ≡ (
        if ltb ((uint64_max - (c - b'0')) / 10) n
        then range
        else magnitude_loop s ((n * 10 + (c - b'0')) % 2 ^ 64))
unfolding magnitude_loop is_digit
loop_digit c s n digit = ground arith

loop_other : (c : ℕ) (s : Bytes) (n : ℕ) → is_digit c ≡ false → magnitude_loop (c ∷ s) n ≡ error
unfolding magnitude_loop is_digit
loop_other c s n digit = ground arith

pub feed_rest-cons :
    (state : NumberState) (a : Accumulator) (c : ℕ) (s : Bytes)
    → feed_rest state a (c ∷ s)
      ≡ feed_rest (number_step state c) (accumulator_feed a c (number_step state c)) s
unfolding feed_rest
feed_rest-cons state a c s = refl

module _ (a : Accumulator) (c : ℕ) (s : Bytes) (r : Reading a) where
  abbrev over : Bool
  over = ltb ((uint64_max - (c - b'0')) / 10) a.magnitude

  abbrev grown : ℕ
  grown = (a.magnitude * 10 + (c - b'0')) % 2 ^ 64

  digit_over :
      is_digit c ≡ true
      → over ≡ true
      → integer_result (feed_rest integer a (c ∷ s))
        ≡ with_sign a.negative (magnitude_loop (c ∷ s) a.magnitude)
  digit_over digit o =
      rw
        (
          feed_rest-cons,
          digit_stays c digit,
          feed_digit a c r digit,
          loop_digit c s a.magnitude digit,
          o,
        )
        (overflow_range s (record a { integer_overflow = true }) integer r.integer_kind refl)

  digit_fits :
      is_digit c ≡ true
      → over ≡ false
      → integer_result (feed_rest integer (record a { magnitude = grown }) s)
        ≡ with_sign a.negative (magnitude_loop s grown)
      → integer_result (feed_rest integer a (c ∷ s))
        ≡ with_sign a.negative (magnitude_loop (c ∷ s) a.magnitude)
  digit_fits digit o later =
      rw
        (
          feed_rest-cons,
          digit_stays c digit,
          feed_digit a c r digit,
          loop_digit c s a.magnitude digit,
          o,
        )
        later

  other_ends :
      is_digit c ≡ false
      → accepts integer (c ∷ s) ≡ true
      → integer_result (feed_rest integer a (c ∷ s))
        ≡ with_sign a.negative (magnitude_loop (c ∷ s) a.magnitude)
  other_ends other h =
      rw (feed_rest-cons, loop_other c s a.magnitude other)
        (mark_error s a c (number_step integer c) r other (after_digits c s other h))

-- The rest of the integer part, from what the accumulator holds.
pub integer_rest :
    (s : Bytes) (a : Accumulator)
    → Reading a
    → accepts integer s ≡ true
    → integer_result (feed_rest integer a s) ≡ with_sign a.negative (magnitude_loop s a.magnitude)
integer_rest [] a r h = unfold feed_rest magnitude_loop in rw (r.no_overflow, r.form)
integer_rest (c ∷ s) a r h = elim (Bool-cases (is_digit c)) [
  | inl digit ↦ elim (Bool-cases (over a c s r)) [
    | inl o ↦ digit_over a c s r digit o
    | inr o ↦
        let b = record a { magnitude = grown a c s r } in
        digit_fits a c s r digit o
          (integer_rest s b (Reading-digit a (grown a c s r) r) (accepts_digit c s digit h))
  ]
  | inr other ↦ other_ends a c s r other h
]
