-- ===== src/Number/State.antt =====
-- `kason_number_state` of kason.c and its transitions.
use kason.Base.{
  ℕ, Bool, true, false, not, ◌&&◌, ◌||◌, [], ◌∷◌, leb, ◌==◌, if◌then◌else◌, Bytes, ◌≡◌, refl, arith,
}
use kason.Chars.{is_digit}

-- KaSON_NUMBER_INVALID and the states of a number that is being read.
pub data NumberState : Type 0 where
  invalid sign leading_zero integer decimal_point fraction : NumberState
  exponent_mark exponent_sign exponent : NumberState

abbrev pub is_one_to_nine : ℕ → Bool
is_one_to_nine c = leb b'1' c && leb c b'9'

abbrev pub is_exponent_mark : ℕ → Bool
is_exponent_mark c = c == b'e' || c == b'E'

abbrev pub is_sign : ℕ → Bool
is_sign c = c == b'+' || c == b'-'

unfoldable pub number_begin : ℕ → NumberState
number_begin c =
    if c == b'-'
    then sign
    else if c == b'0'
    then leading_zero
    else if is_one_to_nine c
    then integer
    else invalid

unfoldable pub number_next : NumberState → ℕ → NumberState
number_next sign c =
    if c == b'0' then leading_zero else if is_one_to_nine c then integer else invalid
number_next leading_zero c =
    if c == b'.' then decimal_point else if is_exponent_mark c then exponent_mark else invalid
number_next integer c =
    if is_digit c
    then integer
    else if c == b'.'
    then decimal_point
    else if is_exponent_mark c
    then exponent_mark
    else invalid
number_next decimal_point c = if is_digit c then fraction else invalid
number_next fraction c =
    if is_digit c then fraction else if is_exponent_mark c then exponent_mark else invalid
number_next exponent_mark c =
    if is_sign c then exponent_sign else if is_digit c then exponent else invalid
number_next exponent_sign c = if is_digit c then exponent else invalid
number_next exponent c = if is_digit c then exponent else invalid
number_next invalid c = invalid

unfoldable pub number_complete : NumberState → Bool
number_complete leading_zero = true
number_complete integer = true
number_complete fraction = true
number_complete exponent = true
number_complete _ = false

-- The state behind all the bytes of a slice, from the first one on.
unfoldable pub run : NumberState → Bytes → NumberState
run state [] = state
run state (c ∷ s) = run (number_next state c) s

-- The automaton's verdict on a slice.
unfoldable pub accepts : NumberState → Bytes → Bool
accepts state s = number_complete (run state s)

pub accepts-cons :
    (state : NumberState) (c : ℕ) (s : Bytes)
    → accepts state (c ∷ s) ≡ accepts (number_next state c) s
unfolding accepts run
accepts-cons state c s = refl

pub accepts-nil : (state : NumberState) → accepts state [] ≡ number_complete state
unfolding accepts run
accepts-nil state = refl

pub accepts-invalid : (s : Bytes) → accepts invalid s ≡ false
unfolding accepts run number_complete number_next
accepts-invalid [] = refl
accepts-invalid (c ∷ s) = accepts-invalid s

-- The loops of `kason_parse_internal` and `kason_value_to_double` leave the state alone at a digit
-- in these three states; `kason_number_next` does not move it there either.
unfoldable pub stays_on_digit : NumberState → Bool
stays_on_digit integer = true
stays_on_digit fraction = true
stays_on_digit exponent = true
stays_on_digit _ = false

unfoldable pub number_step : NumberState → ℕ → NumberState
number_step state c =
    if not (is_digit c) || not (stays_on_digit state) then number_next state c else state

pub number_step-next : (state : NumberState) (c : ℕ) → number_step state c ≡ number_next state c
unfolding number_step number_next stays_on_digit
number_step-next integer c = ground arith
number_step-next _ c = ground arith
