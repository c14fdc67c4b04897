-- ===== src/Strings/Encode/Forms.antt =====
-- The bytes of `kason_utf8_encode` and the continuation loop of the decoder, as arithmetic.
use kason.Base.{
  ℕ, suc, ◌+◌, ◌-◌, ◌*◌, ◌/◌, ◌%◌, ◌^◌, ◌≤◌, ◌<◌, true, some, [], ◌∷◌, ◌==◌, Bytes, bit_and, bit_or,
  ◌≡◌, refl, arith,
}
use kason.Base.Bits.{shl32, bit_or-shifted, top_two, low_six}
use kason.Strings.Next.{continuation_bytes}
use kason.Strings.Encode.{to_char, utf8_encode}

-- The three payload joins of the encoder.
tail_byte : (x : ℕ) → to_char (bit_or 0x80 (bit_and x 0x3f)) ≡ 0x80 + x % 64
tail_byte x = rw low_six (omega (arith, bit_or-shifted 6 2 (x % 64) (omega arith)))

-- Multi-byte forms as arithmetic.
abbrev pub tail : ℕ → ℕ
tail x = 0x80 + x % 64

pub utf8_two : (v : ℕ) → 0x7f < v → v ≤ 0x7ff → utf8_encode v ≡ (0xc0 + v / 64) ∷ tail v ∷ []
unfolding utf8_encode
utf8_two v low high = ground (arith, tail_byte v, bit_or-shifted 5 6 (v / 64) (omega arith))

pub utf8_three :
    (v : ℕ)
    → 0x7ff < v
    → v ≤ 0xffff
    → utf8_encode v ≡ (0xe0 + v / 4096) ∷ tail (v / 64) ∷ tail v ∷ []
unfolding utf8_encode
utf8_three v low high =
    ground (arith, tail_byte v, tail_byte (v / 64), bit_or-shifted 4 14 (v / 4096) (omega arith))

pub utf8_four :
    (v : ℕ)
    → 0xffff < v
    → v ≤ 0x10ffff
    → utf8_encode v ≡ (0xf0 + v / 262144) ∷ tail (v / 4096) ∷ tail (v / 64) ∷ tail v ∷ []
unfolding utf8_encode
utf8_four v low high = ground (
  arith,
  tail_byte v,
  tail_byte (v / 64),
  tail_byte (v / 4096),
  bit_or-shifted 3 30 (v / 262144) (omega arith),
)

-- One continuation byte adds six bits.
pub read_tail :
    (n : ℕ) (c : ℕ) (s : Bytes) (x : ℕ)
    → 0x80 ≤ c
    → c < 0xc0
    → x < 2 ^ 26
    → continuation_bytes (suc n) (c ∷ s) x ≡ continuation_bytes n s (x * 64 + (c - 0x80))
unfolding continuation_bytes
read_tail n c s x low high fits =
    let top : (bit_and c 0xc0 == 0x80) ≡ true = ground (arith, top_two c (omega arith)) in
    let six : bit_and c 0x3f ≡ c - 0x80 = omega (arith, low_six c) in
    let up : shl32 x 6 ≡ x * 2 ^ 6 = omega arith in
    let joined : bit_or (x * 2 ^ 6) (c - 0x80) ≡ x * 64 + (c - 0x80) =
      bit_or-shifted 6 x (c - 0x80) (omega arith) in
    rw (top, six, up, joined)

pub read_done : (s : Bytes) (x : ℕ) → continuation_bytes 0 s x ≡ some (x, s)
unfolding continuation_bytes
read_done s x = refl
