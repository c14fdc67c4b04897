-- ===== src/Parse/Tokens.antt =====
-- The tokens that the range parser of kason.c reads: white space, strings, numbers, literals. A
-- cursor is the rest of the range, so that `kason_scan_has` is the test for a nonempty list.
use kason.Base.{
  ℕ, zero, suc, ◌+◌, ◌-◌, Bool, true, false, not, ◌&&◌, ◌||◌, Option, none, some, List, [], ◌∷◌,
  leb, ltb, ◌==◌, if◌then◌else◌, ◌>>=◌, Bytes, length, take,
}
use kason.Chars.{is_whitespace, is_control_char, is_digit}
use kason.Types.{JsonType, null, true_literal, false_literal, string, number}
use kason.Strings.Loop.{string_is_valid}
use kason.Number.Valid.{scan_number}

-- Two pointers into the range: the rest from the first byte of a slice, and the rest behind its last.
pub record Slice : Type 0 where
  pub begin : Bytes
  pub behind : Bytes

abbrev pub slice_bytes : Slice → Bytes
slice_bytes p = take (length p.begin - length p.behind) p.begin

unfoldable pub skip_whitespace : Bytes → Bytes
skip_whitespace [] = []
skip_whitespace (c ∷ s) = let rest = skip_whitespace s in if is_whitespace c then rest else c ∷ s

abbrev pub is_plain : ℕ → Bool
is_plain c = leb 0x20 c && ltb c 0x80 && not (c == b'"') && not (c == b'\\')

-- `kason_skip_plain_string` on a range: the rest behind the last byte that it moves over.
unfoldable pub skip_plain_string : Bytes → Bytes
skip_plain_string [] = []
skip_plain_string (c ∷ s) = let rest = skip_plain_string s in if is_plain c then rest else c ∷ s

-- A byte in the loop of `kason_scan_string`; `rest` is the loop behind it. The result says if the
-- string needs validation, and what is left from the closing quotation mark on.
unfoldable pub string_byte :
    (Bool → Bool → Bytes → Option (Bool × Bytes)) → Bool → Bool → ℕ → Bytes → Option (Bool × Bytes)
string_byte rest escape needs_validation c s =
    if not escape && c == b'"'
    then some (needs_validation, c ∷ s)
    else if not escape && is_control_char c
    then none
    else if not escape && c == b'\\'
    then rest true true s
    else if leb 0x80 c
    then rest false true s
    else rest false needs_validation (if escape then s else skip_plain_string s)

-- The loop, on fuel.
unfoldable pub string_loop : ℕ → Bool → Bool → Bytes → Option (Bool × Bytes)
unfolding string_byte
string_loop zero escape needs_validation s = none
string_loop (suc fuel) escape needs_validation [] = none
string_loop (suc fuel) escape needs_validation (c ∷ s) =
    string_byte (string_loop fuel) escape needs_validation c s

abbrev pub is_empty : Bytes → Bool
is_empty [] = true
is_empty (c ∷ s) = false

-- Behind the loop: the slice between the quotation marks, and the cursor.
unfoldable pub close_string : Bytes → Bool × Bytes → Option (Slice × Bytes)
close_string s (needs_validation, []) = none
close_string s (needs_validation, c ∷ t) =
    let contents : Slice = record { begin = s; behind = c ∷ t } in
    if needs_validation
      && not (is_empty (slice_bytes contents))
      && not (string_is_valid (some (slice_bytes contents)))
    then none
    else some (contents, t)

-- `kason_scan_string`, on the range behind the opening quotation mark.
unfoldable pub scan_string : Bytes → Option (Slice × Bytes)
scan_string s = do closed ← string_loop (length s + 1) false false s; close_string s closed

-- The comparison with the bytes of a literal.
unfoldable pub expect_bytes : List ℕ → Bytes → Option Bytes
expect_bytes [] s = some s
expect_bytes (e ∷ es) [] = none
expect_bytes (e ∷ es) (c ∷ s) = let rest = expect_bytes es s in if c == e then rest else none

-- A literal behind its first byte: `rue`, `alse`, `ull`.
abbrev pub rest_of_true : Bytes
rest_of_true = b'r' ∷ b'u' ∷ b'e' ∷ []

abbrev pub rest_of_false : Bytes
rest_of_false = b'a' ∷ b'l' ∷ b's' ∷ b'e' ∷ []

abbrev pub rest_of_null : Bytes
rest_of_null = b'u' ∷ b'l' ∷ b'l' ∷ []

unfoldable pub scan_literal : Bytes → Option (JsonType × Bytes)
scan_literal [] = none
scan_literal (c ∷ s) =
    if c == b't'
    then (expect_bytes rest_of_true s >>= λ t. some (true_literal, t))
    else if c == b'f'
    then (expect_bytes rest_of_false s >>= λ t. some (false_literal, t))
    else if c == b'n'
    then (expect_bytes rest_of_null s >>= λ t. some (null, t))
    else none

-- The last branch of `kason_scan_primitive`: the bytes up to a delimiter, and what is left.
abbrev pub is_delimiter : ℕ → Bool
is_delimiter c = is_whitespace c || c == b',' || c == b'}' || c == b']'

unfoldable pub word_end : Bytes → Bytes
word_end [] = []
word_end (c ∷ s) = let rest = word_end s in if is_delimiter c then c ∷ s else rest

-- `kason_slice_equals`.
unfoldable pub slice_equals : Bytes → Bytes → Bool
slice_equals [] [] = true
slice_equals [] (e ∷ es) = false
slice_equals (c ∷ s) [] = false
slice_equals (c ∷ s) (e ∷ es) = c == e && slice_equals s es

unfoldable pub scan_word : Bytes → Option (JsonType × Bytes)
scan_word s =
    let word = slice_bytes (record { begin = s; behind = word_end s }) in
    if is_empty word
    then none
    else if slice_equals word (b'n' ∷ rest_of_null)
    then some (null, word_end s)
    else if slice_equals word (b't' ∷ rest_of_true)
    then some (true_literal, word_end s)
    else if slice_equals word (b'f' ∷ rest_of_false)
    then some (false_literal, word_end s)
    else none

-- What `kason_scan_primitive` reads before it calls back: type, slice and cursor.
pub record Token : Type 0 where
  pub type : JsonType
  pub slice : Slice
  pub cursor : Bytes

-- The token of a type that reaches from `s` to `t`.
abbrev pub whole_token : Bytes → JsonType × Bytes → Token
whole_token s (kind, t) = record {
  type = kind;
  slice = record { begin = s; behind = t };
  cursor = t;
}

abbrev pub string_token : Slice × Bytes → Token
string_token (contents, t) = record { type = string; slice = contents; cursor = t }

unfoldable pub scan_token : Bytes → Option Token
scan_token [] = none
scan_token (c ∷ s) =
    if c == b'"'
    then (scan_string s >>= λ p. some (string_token p))
    else if c == b'-' || is_digit c
    then (scan_number (c ∷ s) >>= λ t. some (whole_token (c ∷ s) (number, t)))
    else if c == b't' || c == b'f' || c == b'n'
    then (scan_literal (c ∷ s) >>= λ p. some (whole_token (c ∷ s) p))
    else (scan_word (c ∷ s) >>= λ p. some (whole_token (c ∷ s) p))
