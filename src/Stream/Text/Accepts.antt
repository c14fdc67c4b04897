-- ===== src/Stream/Text/Accepts.antt =====
-- The strings inside a streamed container of kason.c: the bytes up to the closing mark, and the
-- hexadecimal digits of an escape among them.
use kason.Base.{
  ℕ, zero, suc, Bool, true, false, not, ◌&&◌, Option, none, some, [], ◌∷◌, ◌==◌, ◌>>=◌, Bytes, drop,
  bit_or, ◌≡◌, refl, ◌∙◌,
}
use kason.Base.Bits.{shl32}
use kason.Chars.{hex_value}
use kason.Strings.Next.{hex_digits}
use kason.Stream.Text.{
  TextResult, text_failed, text_ok, Surrogate, no_surrogate, expect_backslash, expect_u, low_hex,
  Text, code_unit, hex_digit, process_container_escape, TextStep, text_error, text_closed,
  text_next, text_or_error, text_byte,
}

-- Outside an escape, a UTF-8 sequence and a surrogate pair.
abbrev pub is_clear : Surrogate → Text → Bool
is_clear no_surrogate t = not t.escape && t.utf8_left == 0
is_clear expect_backslash t = false
is_clear expect_u t = false
is_clear low_hex t = false

abbrev pub after_step : (Text → Bool) → TextStep → Bool
after_step later (text_error t) = false
after_step later text_closed = false
after_step later (text_next t) = later t

-- All the bytes pass, none of them closes the string, and it could be closed behind them.
unfoldable pub accepts_text : Text → Bytes → Bool
accepts_text t [] = is_clear t.surrogate_state t
accepts_text t (c ∷ s) = after_step (λ u. accepts_text u s) (text_byte t.surrogate_state t c)

-- The states inside an escape, by what it is the escape of.
abbrev pub escape_of : Surrogate → Bool
escape_of no_surrogate = true
escape_of expect_backslash = false
escape_of expect_u = false
escape_of low_hex = false

abbrev pub hex_text : Surrogate → ℕ → ℕ → ℕ → ℕ → ℕ → Text
hex_text kind left r high v least = record {
  escape = escape_of kind;
  hex_left = left;
  unicode_value = r;
  high_surrogate = high;
  utf8_value = v;
  utf8_minimum = least;
  surrogate_state = kind;
  utf8_left = 0;
}

abbrev pub after_result : (Text → Bool) → TextResult → Bool
after_result later (text_failed t) = false
after_result later (text_ok t) = later t

pub after_text_or_error :
    (later : Text → Bool) (o : TextResult)
    → after_step later (text_or_error o) ≡ after_result later o
after_text_or_error later (text_failed t) = refl
after_text_or_error later (text_ok t) = refl

abbrev pub reads_hex : Surrogate → Bool
reads_hex no_surrogate = true
reads_hex expect_backslash = false
reads_hex expect_u = false
reads_hex low_hex = true

abbrev pub after_hex : Surrogate → ℕ → ℕ → ℕ → ℕ → Bytes → Option ℕ → Bool
after_hex kind n high v least s none = false
after_hex kind n high v least s (some x) =
    after_result (λ t. accepts_text t (drop n s))
      (code_unit kind (hex_text kind 0 x high v least) x)

hex_byte :
    (kind : Surrogate) (n r high v least c : ℕ) (s : Bytes)
    → reads_hex kind ≡ true
    → accepts_text (hex_text kind (suc n) r high v least) (c ∷ s)
      ≡ after_result
          (λ t. accepts_text t s)
          (hex_digit n (hex_text kind (suc n) r high v least) (hex_value c))
unfolding accepts_text text_byte process_container_escape
hex_byte no_surrogate n r high v least c s h =
    after_text_or_error (λ t. accepts_text t s)
      (process_container_escape (suc n) (hex_text no_surrogate (suc n) r high v least) c)
hex_byte low_hex n r high v least c s h =
    after_text_or_error (λ t. accepts_text t s)
      (process_container_escape (suc n) (hex_text low_hex (suc n) r high v least) c)
hex_byte expect_u n r high v least c s h = absurd (cc h)
hex_byte expect_backslash n r high v least c s h = absurd (cc h)

hex_end :
    (kind : Surrogate) (n r high v least : ℕ)
    → reads_hex kind ≡ true
    → accepts_text (hex_text kind n r high v least) [] ≡ false
unfolding accepts_text
hex_end no_surrogate n r high v least h = refl
hex_end low_hex n r high v least h = refl
hex_end expect_u n r high v least h = absurd (cc h)
hex_end expect_backslash n r high v least h = absurd (cc h)

-- The hexadecimal digits are those that the decoder reads.
pub hex_read :
    (kind : Surrogate) (n r high v least : ℕ) (s : Bytes)
    → reads_hex kind ≡ true
    → accepts_text (hex_text kind (suc n) r high v least) s
      ≡ after_hex kind (suc n) high v least s (hex_digits (suc n) s r)
unfolding hex_digits hex_digit
hex_read kind n r high v least [] h = hex_end kind (suc n) r high v least h
hex_read kind zero r high v least (c ∷ s) h =
    hex_byte kind zero r high v least c s h ∙ last (hex_value c)
  where
    last :
        (o : Option ℕ)
        → after_result (λ t. accepts_text t s) (hex_digit 0 (hex_text kind 1 r high v least) o)
          ≡ after_hex kind 1 high v least (c ∷ s) (o >>= λ d. hex_digits 0 s (bit_or (shl32 r 4) d))
    last none = refl
    last (some d) = refl
hex_read kind (suc n) r high v least (c ∷ s) h =
    hex_byte kind (suc n) r high v least c s h
    ∙ inner (hex_value c) (λ d. hex_read kind n (bit_or (shl32 r 4) d) high v least s h)
  where
    shifted :
        (o : Option ℕ)
        → after_hex kind (suc n) high v least s o
          ≡ after_hex kind (suc (suc n)) high v least (c ∷ s) o
    shifted none = refl
    shifted (some x) = refl

    inner :
        (o : Option ℕ)
        → ((d : ℕ)
            → accepts_text (hex_text kind (suc n) (bit_or (shl32 r 4) d) high v least) s
              ≡ after_hex kind (suc n) high v least s (hex_digits (suc n) s (bit_or (shl32 r 4) d)))
        → after_result
            (λ t. accepts_text t s)
            (hex_digit (suc n) (hex_text kind (suc (suc n)) r high v least) o)
          ≡ after_hex kind
              (suc (suc n))
              high
              v
              least
              (c ∷ s)
              (o >>= λ d. hex_digits (suc n) s (bit_or (shl32 r 4) d))
    inner none k = refl
    inner (some d) k = k d ∙ shifted (hex_digits (suc n) s (bit_or (shl32 r 4) d))
