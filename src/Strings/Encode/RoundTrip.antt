-- ===== src/Strings/Encode/RoundTrip.antt =====
-- UTF-8: the decoder of kason.c undoes the encoder.
use kason.Base.{
  ℕ, ◌+◌, ◌-◌, ◌*◌, ◌/◌, ◌%◌, ◌≤◌, ◌<◌, Bool, some, ◌∷◌, ◌++◌, leb, Bytes, ◌≡◌, ◌≢◌, ◌⊎◌, inl, inr,
  arith, Bool-cases,
}
use kason.Base.Bits.{low_three, low_four, low_five}
use kason.Strings.Next.{
  value, lead_byte, check_scalar, multibyte, plain_byte, decode_first, next_in_slice,
}
use kason.Strings.Next.Bounds.{IsScalar}
use kason.Strings.Encode.{utf8_encode}
use kason.Strings.Encode.Forms.{tail, utf8_two, utf8_three, utf8_four, read_tail, read_done}

-- What the three multi-byte forms decode to.
multibyte_two :
    (c d : ℕ) (t : Bytes)
    → 0xc2 ≤ c
    → c ≤ 0xdf
    → 0x80 ≤ d
    → d < 0xc0
    → multibyte c (d ∷ t) ≡ some ((c - 0xc0) * 64 + (d - 0x80), t)
unfolding multibyte lead_byte check_scalar
multibyte_two c d t c0 c1 d0 d1 =
    ground
      (arith, low_five c, read_tail 0 d t (c % 32) d0 d1, read_done t (c % 32 * 64 + (d - 0x80)))

multibyte_three :
    (c d e : ℕ) (t : Bytes)
    → 0xe0 ≤ c
    → c ≤ 0xef
    → 0x80 ≤ d
    → d < 0xc0
    → 0x80 ≤ e
    → e < 0xc0
    → let v : ℕ = (c - 0xe0) * 4096 + (d - 0x80) * 64 + (e - 0x80) in
      0x800 ≤ v → (v < 0xd800) ⊎ (0xdfff < v) → multibyte c (d ∷ e ∷ t) ≡ some (v, t)
unfolding multibyte lead_byte check_scalar
multibyte_three c d e t c0 c1 d0 d1 e0 e1 least plain = ground (
  arith,
  low_four c,
  read_tail 1 d (e ∷ t) (c % 16) d0 d1,
  read_tail 0 e t (c % 16 * 64 + (d - 0x80)) e0 e1,
  read_done t ((c % 16 * 64 + (d - 0x80)) * 64 + (e - 0x80)),
)

multibyte_four :
    (c d e f : ℕ) (t : Bytes)
    → 0xf0 ≤ c
    → c ≤ 0xf4
    → 0x80 ≤ d
    → d < 0xc0
    → 0x80 ≤ e
    → e < 0xc0
    → 0x80 ≤ f
    → f < 0xc0
    → let v : ℕ = (c - 0xf0) * 262144 + (d - 0x80) * 4096 + (e - 0x80) * 64 + (f - 0x80) in
      0x10000 ≤ v → v ≤ 0x10ffff → multibyte c (d ∷ e ∷ f ∷ t) ≡ some (v, t)
unfolding multibyte lead_byte check_scalar
multibyte_four c d e f t c0 c1 d0 d1 e0 e1 f0 f1 least most = ground (
  arith,
  low_three c,
  read_tail 2 d (e ∷ f ∷ t) (c % 8) d0 d1,
  read_tail 1 e (f ∷ t) (c % 8 * 64 + (d - 0x80)) e0 e1,
  read_tail 0 f t ((c % 8 * 64 + (d - 0x80)) * 64 + (e - 0x80)) f0 f1,
  read_done t (((c % 8 * 64 + (d - 0x80)) * 64 + (e - 0x80)) * 64 + (f - 0x80)),
)

decode_tail :
    (strict : Bool) (c v : ℕ) (s t : Bytes)
    → 0x80 ≤ c
    → multibyte c s ≡ some (v, t)
    → next_in_slice strict (c ∷ s) ≡ value v t
unfolding next_in_slice decode_first
decode_tail strict c v s t big h = ground arith

decode_ascii :
    (strict : Bool) (v : ℕ) (t : Bytes)
    → v < 0x80
    → 0x20 ≤ v
    → v ≢ b'"'
    → v ≢ b'\\'
    → next_in_slice strict (utf8_encode v ++ t) ≡ value v t
unfolding next_in_slice decode_first plain_byte utf8_encode
decode_ascii strict v t small control quote backslash = ground arith

decode_two :
    (v : ℕ) (t : Bytes)
    → 0x7f < v
    → v ≤ 0x7ff
    → multibyte (0xc0 + v / 64) (tail v ∷ t) ≡ some (v, t)
decode_two v t low high = ground (arith, multibyte_two (0xc0 + v / 64) (tail v) t)

decode_three :
    (v : ℕ) (t : Bytes)
    → 0x7ff < v
    → v ≤ 0xffff
    → (v < 0xd800) ⊎ (0xdfff < v)
    → multibyte (0xe0 + v / 4096) (tail (v / 64) ∷ tail v ∷ t) ≡ some (v, t)
decode_three v t low high plain =
    ground (arith, multibyte_three (0xe0 + v / 4096) (tail (v / 64)) (tail v) t)

decode_four :
    (v : ℕ) (t : Bytes)
    → 0xffff < v
    → v ≤ 0x10ffff
    → multibyte (0xf0 + v / 262144) (tail (v / 4096) ∷ tail (v / 64) ∷ tail v ∷ t) ≡ some (v, t)
decode_four v t low high =
    ground (arith, multibyte_four (0xf0 + v / 262144) (tail (v / 4096)) (tail (v / 64)) (tail v) t)

-- The decoder reads back every encoded scalar value that JSON text holds unescaped, whatever
-- follows it: not a control character, a quotation mark or a backslash.
pub next_in_slice-utf8_encode :
    (strict_json : Bool) (v : ℕ) (t : Bytes)
    → IsScalar v
    → 0x20 ≤ v
    → v ≢ b'"'
    → v ≢ b'\\'
    → next_in_slice strict_json (utf8_encode v ++ t) ≡ value v t
next_in_slice-utf8_encode strict v t (most, plain) control quote backslash =
    elim (Bool-cases (leb v 0x7f)) [
      | inl one ↦ decode_ascii strict v t (ground arith) control quote backslash
      | inr above ↦ elim (Bool-cases (leb v 0x7ff)) [
        | inl two ↦ rw (utf8_two v (ground arith) (ground arith)) (
            decode_tail strict _ v _ t (omega arith) (decode_two v t (ground arith) (ground arith)))
        | inr above' ↦ elim (Bool-cases (leb v 0xffff)) [
          | inl three ↦ rw (utf8_three v (ground arith) (ground arith)) (
              decode_tail strict _ v _ t (omega arith)
                (decode_three v t (ground arith) (ground arith) plain))
          | inr above'' ↦
              rw (utf8_four v (ground arith) most)
                (decode_tail strict _ v _ t (omega arith) (decode_four v t (ground arith) most))
        ]
      ]
    ]
