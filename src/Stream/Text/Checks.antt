-- ===== src/Stream/Text/Checks.antt =====
-- The strings inside a streamed container of kason.c are checked as the decoder checks them.
use kason.Base.{
  ℕ, zero, suc, ◌+◌, ◌-◌, ◌≤◌, ◌<◌, Bool, true, false, not, ◌&&◌, Option, none, some, [], ◌∷◌, ltb,
  leb, ◌==◌, if◌then◌else◌, ◌>>=◌, ◌>>◌, guard, Bytes, length, drop, length-drop, bit_and, bit_or,
  ◌≡◌, inl, inr, refl, ap, sym, ◌∙◌, arith, ltb→lt, Bool-cases, ==_iff,
}
use kason.Base.Bits.{shl32}
use kason.Chars.{is_control_char, is_simple_escape, hex_value}
use kason.Strings.Next.{
  hex_digits, decode_hex4, surrogate_pair, unicode_escape, escape_sequence, lead_byte,
  continuation_bytes, check_scalar, multibyte, plain_byte, to_next, decode_first, next_in_slice,
}
use kason.Strings.Loop.{stop, fail, more, decode_total, string_is_valid, string_is_valid-Decodes}
use kason.Stream.Text.Accepts.{
  accepts_text, hex_text, after_result, after_text_or_error, after_hex, hex_read,
}
use kason.Stream.Text.{
  no_surrogate, expect_backslash, low_hex, Text, clear_text, utf8_lead, utf8_continue, process_utf8,
  code_unit, process_container_escape, plain_text_byte, text_byte,
}

-- The rest of a string behind a scalar.
abbrev valid_after : Option (ℕ × Bytes) → Bool
valid_after none = false
valid_after (some (v, s)) = string_is_valid (some s)

valid_next :
    (c : ℕ) (s : Bytes) (o : Option (ℕ × Bytes))
    → decode_first true c s ≡ o
    → string_is_valid (some (c ∷ s)) ≡ valid_after o
unfolding next_in_slice
valid_next c s none h = string_is_valid-Decodes (c ∷ s) (fail (ap to_next h))
valid_next c s (some (v, t)) h =
    let (vs, complete, d) = decode_total true t in
    string_is_valid-Decodes (c ∷ s) (more (ap to_next h) d) ∙ sym (string_is_valid-Decodes t d)

hex_digits-short : (n r : ℕ) (s : Bytes) → length s < n → hex_digits n s r ≡ none
unfolding hex_digits
hex_digits-short zero r s lt = elim lt [ ]
hex_digits-short (suc n) r [] lt = refl
hex_digits-short (suc n) r (c ∷ s) lt =
    short (hex_value c) (λ x. hex_digits-short n x s (omega (arith, lt)))
  where
    short :
        (o : Option ℕ)
        → ((x : ℕ) → hex_digits n s x ≡ none)
        → (o >>= λ d. hex_digits n s (bit_or (shl32 r 4) d)) ≡ none
    short none k = refl
    short (some d) k = k (bit_or (shl32 r 4) d)

-- A state between two scalars; the values of those before it stay.
abbrev clear_of : ℕ → ℕ → ℕ → ℕ → Text
clear_of r high v least = record clear_text {
  unicode_value = r;
  high_surrogate = high;
  utf8_value = v;
  utf8_minimum = least;
}

abbrev Accepts : ℕ → Type 0
Accepts n =
    (s : Bytes) (r high v least : ℕ)
    → length s < n
    → accepts_text (clear_of r high v least) s ≡ string_is_valid (some s)

suc-nonzero : (n : ℕ) → (suc n == 0) ≡ false
suc-nonzero n = ground arith

suc-positive : (n : ℕ) → ltb 0 (suc n) ≡ true
suc-positive n = ground arith

continuation_bytes-short : (n v : ℕ) (s : Bytes) → length s < n → continuation_bytes n s v ≡ none
unfolding continuation_bytes
continuation_bytes-short zero v s lt = elim lt [ ]
continuation_bytes-short (suc n) v [] lt = refl
continuation_bytes-short (suc n) v (c ∷ s) lt =
    let e =
      continuation_bytes-short n (bit_or (shl32 v 6) (bit_and c 0x3f)) s (omega (arith, lt)) in
    ground (arith, e)

module _ (n : ℕ) (ih : Accepts n) where
  low_surrogate :
      (high v least : ℕ) (s : Bytes) (o : Option ℕ)
      → length s < n
      → after_hex low_hex 4 high v least s o
        ≡ valid_after (
            o >>= λ low.
            (guard (leb 0xdc00 low && leb low 0xdfff)
              >> some (0x10000 + shl32 (high - 0xd800) 10 + (low - 0xdc00), drop 4 s)))
  unfolding code_unit
  low_surrogate high v least s none lt = refl
  low_surrogate high v least s (some low) lt =
      let e = ih (drop 4 s) low 0 v least (omega (arith, lt, length-drop 4 s)) in ground (arith, e)

  pair_behind :
      (high v least : ℕ) (s : Bytes) (o : Option ℕ)
      → hex_digits 4 s 0 ≡ o
      → length s < n
      → valid_after (
          o >>= λ low.
          (guard (leb 0xdc00 low && leb low 0xdfff)
            >> some (0x10000 + shl32 (high - 0xd800) 10 + (low - 0xdc00), drop 4 s)))
        ≡ valid_after (surrogate_pair high (b'\\' ∷ b'u' ∷ s))
  unfolding surrogate_pair decode_hex4
  pair_behind high v least s o e lt = elim (Bool-cases (ltb (length s) 4)) [
    | inl short ↦
        let none_read = hex_digits-short 4 0 s (ltb→lt (length s) 4 short) in
        ground (arith, e, none_read)
    | inr long ↦ ground (arith, e)
  ]

  -- Behind a high surrogate.
  surrogate_text :
      (r high v least : ℕ) (s : Bytes)
      → length s ≤ n + 1
      → accepts_text (hex_text expect_backslash 0 r high v least) s
        ≡ valid_after (surrogate_pair high s)
  unfolding accepts_text text_byte surrogate_pair
  surrogate_text r high v least [] le = refl
  surrogate_text r high v least (c ∷ []) le = ground arith
  surrogate_text r high v least (c ∷ d ∷ s) le =
      let read = hex_read low_hex 3 0 high v least s refl in
      let low = low_surrogate high v least s (hex_digits 4 s 0) (omega (arith, le)) in
      let behind = pair_behind high v least s (hex_digits 4 s 0) refl (omega (arith, le)) in
      elim (Bool-cases (c == b'\\')) [
        | inl p ↦ elim (Bool-cases (d == b'u')) [
          | inl q ↦ rw ((==_iff c b'\\').0 p, (==_iff d b'u').0 q) (read ∙ low ∙ behind)
          | inr q ↦ ground (arith, p, q)
        ]
        | inr p ↦ ground (arith, p)
      ]

  -- The unit behind `\u`.
  after_unit :
      (high v least : ℕ) (s : Bytes) (o : Option ℕ)
      → length s < n
      → after_hex no_surrogate 4 high v least s o
        ≡ valid_after (
            o >>= λ scalar.
            (if leb 0xd800 scalar && leb scalar 0xdbff
              then surrogate_pair scalar (drop 4 s)
              else if leb 0xdc00 scalar && leb scalar 0xdfff
              then none
              else some (scalar, drop 4 s)))
  unfolding code_unit
  after_unit high v least s none lt = refl
  after_unit high v least s (some x) lt =
      let clear = ih (drop 4 s) x high v least (omega (arith, lt, length-drop 4 s)) in
      let pair = surrogate_text x x v least (drop 4 s) (omega (arith, lt, length-drop 4 s)) in
      ground (arith, clear, pair)

  unit_read :
      (s : Bytes) (o : Option ℕ)
      → hex_digits 4 s 0 ≡ o
      → valid_after (
          o >>= λ scalar.
          (if leb 0xd800 scalar && leb scalar 0xdbff
            then surrogate_pair scalar (drop 4 s)
            else if leb 0xdc00 scalar && leb scalar 0xdfff
            then none
            else some (scalar, drop 4 s)))
        ≡ valid_after (unicode_escape s)
  unfolding unicode_escape decode_hex4
  unit_read s o e = elim (Bool-cases (ltb (length s) 4)) [
    | inl short ↦
        let none_read = hex_digits-short 4 0 s (ltb→lt (length s) 4 short) in
        ground (arith, e, none_read)
    | inr long ↦ rw (long, e) refl
  ]

  unicode_text :
      (high v least : ℕ) (s : Bytes)
      → length s < n
      → accepts_text (hex_text no_surrogate 4 0 high v least) s ≡ valid_after (unicode_escape s)
  unicode_text high v least s lt =
      hex_read no_surrogate 3 0 high v least s refl
      ∙ after_unit high v least s (hex_digits 4 s 0) lt
      ∙ unit_read s (hex_digits 4 s 0) refl

  -- Behind a backslash.
  escape_text :
      (r high v least : ℕ) (s : Bytes)
      → length s ≤ n
      → accepts_text (hex_text no_surrogate 0 r high v least) s ≡ valid_after (escape_sequence s)
  unfolding accepts_text text_byte process_container_escape escape_sequence is_simple_escape
  escape_text r high v least [] le = refl
  escape_text r high v least (c ∷ s) le =
      let unicode = unicode_text high v least s (omega (arith, le)) in
      let clear = ih s r high v least (omega (arith, le)) in ground (arith, unicode, clear)

  -- Inside a UTF-8 sequence.
  utf8_byte :
      (left r high v least c : ℕ) (s : Bytes)
      → accepts_text (record (clear_of r high v least) { utf8_left = suc (suc left) }) (c ∷ s) ≡ (
          if bit_and c 0xc0 == 0x80
          then accepts_text
              (record (clear_of r high (bit_or (shl32 v 6) (bit_and c 0x3f)) least) {
                utf8_left = suc left;
              })
              s
          else false)
  unfolding accepts_text text_byte process_utf8 utf8_continue
  utf8_byte left r high v least c s = elim (Bool-cases (bit_and c 0xc0 == 0x80)) [
    | inl p ↦ rw (p, suc-positive (suc left), suc-nonzero left) refl
    | inr p ↦ rw (p, suc-positive (suc left)) refl
  ]

  utf8_text :
      (left r high v least : ℕ) (s : Bytes)
      → length s ≤ n
      → accepts_text (record (clear_of r high v least) { utf8_left = suc left }) s
        ≡ valid_after (continuation_bytes (suc left) s v >>= check_scalar least)
  unfolding continuation_bytes check_scalar
  utf8_text left r high v least [] le = unfold accepts_text in suc-nonzero left
  utf8_text zero r high v least (c ∷ s) le =
      let x = bit_or (shl32 v 6) (bit_and c 0x3f) in
      let clear = ih s r high x least (omega (arith, le)) in
      unfold accepts_text text_byte process_utf8 utf8_continue in ground (arith, clear)
  utf8_text (suc left) r high v least (c ∷ s) le =
      let rest =
        utf8_text left r high (bit_or (shl32 v 6) (bit_and c 0x3f)) least s (omega (arith, le)) in
      elim (Bool-cases (bit_and c 0xc0 == 0x80)) [
        | inl p ↦ rw (utf8_byte left r high v least c s, p) rest
        | inr p ↦ rw (utf8_byte left r high v least c s, p) refl
      ]

  lead_text :
      (left r high v least : ℕ) (s : Bytes)
      → length s ≤ n
      → accepts_text (record (clear_of r high v least) { utf8_left = suc left }) s
        ≡ valid_after (
            guard (not (ltb (length s) (suc left)))
            >> (continuation_bytes (suc left) s v >>= check_scalar least))
  lead_text left r high v least s le = elim (Bool-cases (ltb (length s) (suc left))) [
    | inl short ↦
        let e = continuation_bytes-short (suc left) v s (ltb→lt (length s) (suc left) short) in
        utf8_text left r high v least s le ∙ rw (short, e) refl
    | inr long ↦ utf8_text left r high v least s le ∙ rw long refl
  ]

  multibyte_text :
      (r high v least c : ℕ) (s : Bytes)
      → length s ≤ n
      → after_result (λ t. accepts_text t s) (utf8_lead (clear_of r high v least) (lead_byte c))
        ≡ valid_after (multibyte c s)
  unfolding multibyte lead_byte
  multibyte_text r high v least c s le =
      let two = lead_text 0 r high (bit_and c 0x1f) 0x80 s le in
      let three = lead_text 1 r high (bit_and c 0x0f) 0x800 s le in
      let four = lead_text 2 r high (bit_and c 0x07) 0x10000 s le in
      elim (Bool-cases (leb 0xc2 c && leb c 0xdf)) [
        | inl p ↦ rw p two
        | inr p ↦ elim (Bool-cases (leb 0xe0 c && leb c 0xef)) [
          | inl q ↦ rw (p, q) three
          | inr q ↦ elim (Bool-cases (leb 0xf0 c && leb c 0xf4)) [
            | inl o ↦ rw (p, q, o) four
            | inr o ↦ rw (p, q, o) refl
          ]
        ]
      ]

  first_text :
      (r high v least c : ℕ) (s : Bytes)
      → length s < n
      → accepts_text (clear_of r high v least) (c ∷ s) ≡ valid_after (decode_first true c s)
  unfolding accepts_text text_byte plain_text_byte process_utf8 decode_first plain_byte
      is_control_char
  first_text r high v least c s lt =
      let escaped = escape_text r high v least s (omega (arith, lt)) in
      let sequence = multibyte_text r high v least c s (omega (arith, lt)) in
      let led =
        after_text_or_error (λ t. accepts_text t s)
          (utf8_lead (clear_of r high v least) (lead_byte c)) in
      let clear = ih s r high v least lt in ground (arith, escaped, led ∙ sequence, clear)

Accepts-upto : (n : ℕ) → Accepts n
unfolding accepts_text next_in_slice
Accepts-upto zero s r high v least lt = elim lt [ ]
Accepts-upto (suc n) [] r high v least lt = sym (string_is_valid-Decodes [] (stop refl))
Accepts-upto (suc n) (c ∷ s) r high v least lt =
    first_text n (Accepts-upto n) r high v least c s (omega (arith, lt))
    ∙ sym (valid_next c s (decode_first true c s) refl)

-- A string inside a streamed container, checked byte by byte without a buffer, passes exactly when
-- the decoder accepts the bytes between its quotation marks.
pub accepts_text-string_is_valid :
    (s : Bytes) → accepts_text clear_text s ≡ string_is_valid (some s)
accepts_text-string_is_valid s = Accepts-upto (length s + 1) s 0 0 0 0 (omega arith)
