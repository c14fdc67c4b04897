-- ===== src/Strings/Encode/Shortest.antt =====
-- UTF-8: what the decoder of kason.c accepts is what the encoder writes.
use kason.Base.{
  ℕ, suc, ◌+◌, ◌-◌, ◌*◌, ◌^◌, ◌≤◌, ◌<◌, Bool, some, [], ◌∷◌, ◌++◌, ltb, ◌==◌, Bytes, length,
  bit_and, ◌≡◌, ◌≢◌, ◌⊎◌, inl, inr, refl, sym, arith, All, ◌∙◌, not, guard, >>=-eq-some, Bool-cases,
}
use kason.Base.Bits.{top_two, low_three, low_four, low_five}
use kason.Strings.Next.{
  value, lead_byte, continuation_bytes, check_scalar, multibyte, plain_byte, decode_first,
  next_in_slice,
}
use kason.Strings.Next.Bounds.{IsScalar, to_next-eq-value, next_in_slice-moves}
use kason.Strings.Encode.{utf8_encode}
use kason.Strings.Encode.Forms.{utf8_two, utf8_three, utf8_four, read_tail}

-- The next byte of a continuation, and what is read after it.
read_tail_inv :
    (n : ℕ) (s : Bytes) (x : ℕ) {v : ℕ} {t : Bytes}
    → All (λ c. c < 256) s
    → x < 2 ^ 26
    → continuation_bytes (suc n) s x ≡ some (v, t)
    → (c : ℕ) × (r : Bytes) × (s ≡ c ∷ r)
      × (0x80 ≤ c)
      × (c < 0xc0)
      × All (λ c. c < 256) r
      × (continuation_bytes n r (x * 64 + (c - 0x80)) ≡ some (v, t))
unfolding continuation_bytes
read_tail_inv n [] x bytes fits h = cc
read_tail_inv n (c ∷ r) x {v} {t} (byte, bytes) fits h =
    elim (Bool-cases (bit_and c 0xc0 == 0x80)) [
      | inl top ↦
          let range : (0x80 ≤ c) × (c < 0xc0) = ground (arith, top_two c byte) in
          (c, r, refl, range.0, range.1, bytes, sym (read_tail n c r x range.0 range.1 fits) ∙ h)
      | inr bad ↦ absurd (ground arith)
    ]

lead_byte_inv :
    (first : ℕ) {n x least : ℕ}
    → lead_byte first ≡ some (n, x, least)
    → (0xc2 ≤ first)
      × (first ≤ 0xf4)
      × (((first ≤ 0xdf) × (n ≡ 1) × (x ≡ first - 0xc0) × (least ≡ 0x80))
          ⊎ ((0xe0 ≤ first) × (first ≤ 0xef) × (n ≡ 2) × (x ≡ first - 0xe0) × (least ≡ 0x800))
          ⊎ ((0xf0 ≤ first) × (n ≡ 3) × (x ≡ first - 0xf0) × (least ≡ 0x10000)))
unfolding lead_byte
lead_byte_inv first h = ground (arith, low_five first, low_four first, low_three first)

check_scalar_inv :
    (least x : ℕ) (r : Bytes) {v : ℕ} {t : Bytes}
    → check_scalar least (x, r) ≡ some (v, t)
    → (v ≡ x) × (t ≡ r) × (least ≤ v) × (v ≤ 0x10ffff)
unfolding check_scalar
check_scalar_inv least x r h = ground arith

read_done_inv :
    (s : Bytes) (x : ℕ) {y : ℕ} {t : Bytes}
    → continuation_bytes 0 s x ≡ some (y, t)
    → (y ≡ x) × (t ≡ s)
unfolding continuation_bytes
read_done_inv s x h = ground arith

form_two :
    (first c v : ℕ) (t : Bytes)
    → 0xc2 ≤ first
    → first ≤ 0xdf
    → 0x80 ≤ c
    → c < 0xc0
    → v ≡ (first - 0xc0) * 64 + (c - 0x80)
    → first ∷ c ∷ t ≡ utf8_encode v ++ t
form_two first c v t low high c0 c1 e = rw (utf8_two v (omega arith) (omega arith)) (ground arith)

form_three :
    (first c d v : ℕ) (t : Bytes)
    → 0xe0 ≤ first
    → first ≤ 0xef
    → 0x80 ≤ c
    → c < 0xc0
    → 0x80 ≤ d
    → d < 0xc0
    → 0x800 ≤ v
    → v ≡ ((first - 0xe0) * 64 + (c - 0x80)) * 64 + (d - 0x80)
    → first ∷ c ∷ d ∷ t ≡ utf8_encode v ++ t
form_three first c d v t low high c0 c1 d0 d1 least e =
    rw (utf8_three v (omega arith) (omega arith)) (ground arith)

form_four :
    (first c d x v : ℕ) (t : Bytes)
    → 0xf0 ≤ first
    → first ≤ 0xf4
    → 0x80 ≤ c
    → c < 0xc0
    → 0x80 ≤ d
    → d < 0xc0
    → 0x80 ≤ x
    → x < 0xc0
    → 0x10000 ≤ v
    → v ≤ 0x10ffff
    → v ≡ (((first - 0xf0) * 64 + (c - 0x80)) * 64 + (d - 0x80)) * 64 + (x - 0x80)
    → first ∷ c ∷ d ∷ x ∷ t ≡ utf8_encode v ++ t
form_four first c d x v t low high c0 c1 d0 d1 x0 x1 least most e =
    rw (utf8_four v (omega arith) most) (ground arith)

module _ (first : ℕ) (s : Bytes) (bytes : All (λ c. c < 256) s) (v : ℕ) (t : Bytes) where
  encoded_two :
      0xc2 ≤ first
      → first ≤ 0xdf
      → continuation_bytes 1 s (first - 0xc0) ≡ some (v, t)
      → first ∷ s ≡ utf8_encode v ++ t
  encoded_two low high read =
      let (c, r, split, c0, c1, _, last) =
        read_tail_inv 0 s (first - 0xc0) bytes (omega arith) read in
      let (value_is, rest_is) = read_done_inv r _ last in
      cc (form_two first c v t low high c0 c1 value_is)

  encoded_three :
      0xe0 ≤ first
      → first ≤ 0xef
      → 0x800 ≤ v
      → continuation_bytes 2 s (first - 0xe0) ≡ some (v, t)
      → first ∷ s ≡ utf8_encode v ++ t
  encoded_three low high least read =
      let (c, r, split, c0, c1, more, read') =
        read_tail_inv 1 s (first - 0xe0) bytes (omega arith) read in
      let (d, q, split', d0, d1, _, last) = read_tail_inv 0 r _ more (omega arith) read' in
      let (value_is, rest_is) = read_done_inv q _ last in
      cc (form_three first c d v t low high c0 c1 d0 d1 least value_is)

  encoded_four :
      0xf0 ≤ first
      → first ≤ 0xf4
      → 0x10000 ≤ v
      → v ≤ 0x10ffff
      → continuation_bytes 3 s (first - 0xf0) ≡ some (v, t)
      → first ∷ s ≡ utf8_encode v ++ t
  encoded_four low high least most read =
      let (c, r, split, c0, c1, more, read') =
        read_tail_inv 2 s (first - 0xf0) bytes (omega arith) read in
      let (d, q, split', d0, d1, more', read'') = read_tail_inv 1 r _ more (omega arith) read' in
      let (e, p, split'', e0, e1, _, last) = read_tail_inv 0 q _ more' (omega arith) read'' in
      let (value_is, rest_is) = read_done_inv p _ last in
      cc (form_four first c d e v t low high c0 c1 d0 d1 e0 e1 least most value_is)

utf8_one : (v : ℕ) (t : Bytes) → v < 0x80 → utf8_encode v ++ t ≡ v ∷ t
unfolding utf8_encode
utf8_one v t low = ground arith

split_first :
    (strict : Bool) (c : ℕ) (s : Bytes) {v : ℕ} {t : Bytes}
    → c ≢ b'\\'
    → decode_first strict c s ≡ some (v, t)
    → ((c < 0x80) × (v ≡ c) × (t ≡ s)) ⊎ (multibyte c s ≡ some (v, t))
unfolding decode_first plain_byte
split_first strict c s plain h = ground arith

multibyte_parts :
    (first : ℕ) (s : Bytes) {v : ℕ} {t : Bytes}
    → multibyte first s ≡ some (v, t)
    → (n payload least : ℕ) × (lead_byte first ≡ some (n, payload, least))
      × (continuation_bytes n s payload ≡ some (v, t))
      × (least ≤ v)
      × (v ≤ 0x10ffff)
unfolding multibyte
multibyte_parts first s h =
    let ((n, payload, least), lead, h1) = >>=-eq-some (lead_byte first) _ h in
    let (_, _, h2) = >>=-eq-some (guard (not (ltb (length s) n))) _ h1 in
    let ((x, r), read, h3) = >>=-eq-some (continuation_bytes n s payload) _ h2 in
    let (value_is, rest_is, low, high) = check_scalar_inv least x r h3 in
    (n, payload, least, lead, read ∙ cc (value_is, rest_is), low, high)

-- A decoded multi-byte form is the encoding of its scalar.
multibyte-utf8_encode :
    (first : ℕ) (s : Bytes) {v : ℕ} {t : Bytes}
    → All (λ c. c < 256) s
    → multibyte first s ≡ some (v, t)
    → first ∷ s ≡ utf8_encode v ++ t
multibyte-utf8_encode first s {v} {t} bytes h =
    let (n, payload, least, lead, read, low, high) = multibyte_parts first s h in
    by_class n payload least read low high (lead_byte_inv first lead)
  where
    by_class :
        (n payload least : ℕ)
        → continuation_bytes n s payload ≡ some (v, t)
        → least ≤ v
        → v ≤ 0x10ffff
        → (0xc2 ≤ first)
          × (first ≤ 0xf4)
          × (((first ≤ 0xdf) × (n ≡ 1) × (payload ≡ first - 0xc0) × (least ≡ 0x80))
              ⊎ ((0xe0 ≤ first)
                  × (first ≤ 0xef)
                  × (n ≡ 2)
                  × (payload ≡ first - 0xe0)
                  × (least ≡ 0x800))
              ⊎ ((0xf0 ≤ first) × (n ≡ 3) × (payload ≡ first - 0xf0) × (least ≡ 0x10000)))
        → first ∷ s ≡ utf8_encode v ++ t
    by_class n payload least read low high (a, b, inl (c, en, ep, el)) =
        encoded_two first s bytes v t a c (rw (en, ep) at read)
    by_class n payload least read low high (a, b, inr (inl (c, d, en, ep, el))) =
        encoded_three first s bytes v t c d (rw el at low) (rw (en, ep) at read)
    by_class n payload least read low high (a, b, inr (inr (c, en, ep, el))) =
        encoded_four first s bytes v t c b (rw el at low) high (rw (en, ep) at read)

-- A byte that opens no escape and decodes begins the shortest UTF-8 form of what it decodes to, and
-- that is a Unicode scalar value: overlong forms, stray continuation bytes and encoded surrogates are
-- refused.
pub utf8_encode-next_in_slice :
    (strict_json : Bool) (c : ℕ) (s : Bytes) {v : ℕ} {t : Bytes}
    → All (λ b. b < 256) (c ∷ s)
    → c ≢ b'\\'
    → next_in_slice strict_json (c ∷ s) ≡ value v t
    → IsScalar v × (utf8_encode v ++ t ≡ c ∷ s)
utf8_encode-next_in_slice strict c s {v} {t} (byte, bytes) plain h = (
  (next_in_slice-moves strict (c ∷ s) h).0,
  elim (split_first strict c s {v = v} {t = t} plain
      (unfold next_in_slice in to_next-eq-value _ h)) [
        | inl (low, same, rest) ↦ rw (same, rest) (utf8_one c s low)
        | inr many ↦ sym (multibyte-utf8_encode c s bytes many)
      ],
)
