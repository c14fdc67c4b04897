-- ===== src/Strings/Next/Bounds.antt =====
-- Where the cursor of `kason_string_next_internal` goes, and what it can return.
use native.Mathlib.Nat.{pow-suc, one-le-pow}
use kason.Base.{
  ℕ, zero, suc, ◌+◌, ◌*◌, ◌^◌, ◌≤◌, ◌<◌, Bool, Option, none, some, [], ◌∷◌, ltb, ◌==◌, guard,
  Bool-cases, ltb→lt, not, >>=-eq-some, Option-cases, drop-drop, length-drop, Bytes, length, drop,
  bit_and, bit_or, ◌≡◌, ◌∙◌, ◌⊎◌, inl, inr, arith, ap,
}
use kason.Base.Bits.{shl32, bit_or-shifted}
use kason.Chars.{hex_value, hex_value-lt}
use kason.Strings.Next.{
  value, hex_digits, decode_hex4, surrogate_pair, unicode_escape, escape_sequence, lead_byte,
  continuation_bytes, check_scalar, multibyte, plain_byte, to_next, decode_first, next_in_slice,
}

-- A Unicode scalar value: a code point that is no surrogate.
abbrev pub IsScalar : ℕ → Type 0
IsScalar v = (v ≤ 0x10ffff) × ((v < 0xd800) ⊎ (0xdfff < v))

-- The cursor moved from `s` to `t` by `k` bytes, all of them inside `s`.
pub record Moved (s t : Bytes) (least most : ℕ) : Type 0 where
  pub count : ℕ
  pub at_least : least ≤ count
  pub at_most : count ≤ most
  pub inside : count ≤ length s
  pub rest : t ≡ drop count s

-- One round of the loop of `kason_decode_hex4`.
hex_round : (r d : ℕ) → r < 2 ^ 28 → d < 16 → bit_or (shl32 r 4) d ≡ r * 16 + d
hex_round r d fits small =
    let e : shl32 r 4 ≡ r * 2 ^ 4 = omega arith in rw e (omega (arith, bit_or-shifted 4 r d small))

hex_room : (n r : ℕ) → (r + 1) * 16 ^ suc n ≤ 2 ^ 16 → r < 2 ^ 28
hex_room n r fits = grind (arith, one-le-pow (suc n) 16)

hex_room_next :
    (n r d : ℕ) → d < 16 → (r + 1) * 16 ^ suc n ≤ 2 ^ 16 → (r * 16 + d + 1) * 16 ^ n ≤ 2 ^ 16
hex_room_next n r d low fits =
    let scaled : (r + 1) * 16 ^ suc n ≡ (r + 1) * 16 * 16 ^ n =
      omega (arith, ap (λ (t : ℕ). (r + 1) * t) (pow-suc 16 n)) in
    let less : r * 16 + d + 1 ≤ (r + 1) * 16 = omega arith in grind arith

hex_digits-lt :
    (n : ℕ) (s : Bytes) (r : ℕ) {v : ℕ}
    → (r + 1) * 16 ^ n ≤ 2 ^ 16
    → hex_digits n s r ≡ some v
    → v < 2 ^ 16
unfolding hex_digits
hex_digits-lt zero s r fits h = ground arith
hex_digits-lt (suc n) [] r fits h = cc
hex_digits-lt (suc n) (c ∷ s) r fits h =
    let (d, digit, later) = >>=-eq-some (hex_value c) _ h in
    let low : d < 16 = hex_value-lt c digit in
    let small : r < 2 ^ 28 = hex_room n r fits in
    hex_digits-lt n s (r * 16 + d) (hex_room_next n r d low fits)
      (rw (hex_round r d small low) at later)

decode_hex4-lt : (s : Bytes) {v : ℕ} → decode_hex4 s ≡ some v → v < 2 ^ 16
unfolding decode_hex4
decode_hex4-lt s h = hex_digits-lt 4 s 0 (omega arith) h

surrogate_pair-moves :
    (high : ℕ) (s : Bytes) {v : ℕ} {t : Bytes}
    → high ≤ 0xdbff
    → surrogate_pair high s ≡ some (v, t)
    → IsScalar v × (6 ≤ length s) × (t ≡ drop 6 s)
unfolding surrogate_pair
surrogate_pair-moves high s top h = ground arith

-- A `\u` escape takes four digits, or ten bytes when a low surrogate follows.
unicode_escape-moves :
    (s : Bytes) {v : ℕ} {t : Bytes}
    → unicode_escape s ≡ some (v, t)
    → IsScalar v × (((4 ≤ length s) × (t ≡ drop 4 s)) ⊎ ((10 ≤ length s) × (t ≡ drop 10 s)))
unfolding unicode_escape
unicode_escape-moves s {v} {t} h = elim (Option-cases (decode_hex4 s)) [
  | inl e ↦ ground arith
  | inr (x, e) ↦ ground (
    arith,
    decode_hex4-lt s e,
    surrogate_pair-moves x (drop 4 s) {v = v} {t = t},
    drop-drop 4 6 s,
    length-drop 4 s,
  )
]

continuation_bytes-moves :
    (n : ℕ) (s : Bytes) (scalar : ℕ) {v : ℕ} {t : Bytes}
    → continuation_bytes n s scalar ≡ some (v, t)
    → (n ≤ length s) × (t ≡ drop n s)
unfolding continuation_bytes
continuation_bytes-moves zero s scalar h = ground arith
continuation_bytes-moves (suc n) [] scalar h = cc
continuation_bytes-moves (suc n) (c ∷ s) scalar {v} {t} h =
    ground (
      arith,
      continuation_bytes-moves n s (bit_or (shl32 scalar 6) (bit_and c 0x3f)) {v = v} {t = t},
    )

lead_byte-count :
    (first : ℕ) {n payload least : ℕ}
    → lead_byte first ≡ some (n, payload, least)
    → (1 ≤ n) × (n ≤ 3)
unfolding lead_byte
lead_byte-count first h = ground arith

check_scalar-IsScalar :
    (least x : ℕ) (r : Bytes) {v : ℕ} {t : Bytes}
    → check_scalar least (x, r) ≡ some (v, t)
    → IsScalar v × (t ≡ r)
unfolding check_scalar
check_scalar-IsScalar least x r h = ground arith

multibyte-moves :
    (first : ℕ) (s : Bytes) {v : ℕ} {t : Bytes}
    → multibyte first s ≡ some (v, t)
    → IsScalar v × Moved s t 1 3
unfolding multibyte
multibyte-moves first s h =
    let ((n, payload, least), lead, h1) = >>=-eq-some (lead_byte first) _ h in
    let (_, _, h2) = >>=-eq-some (guard (not (ltb (length s) n))) _ h1 in
    let ((x, r), read, h3) = >>=-eq-some (continuation_bytes n s payload) _ h2 in
    let (scalar, same) = check_scalar-IsScalar least x r h3 in
    let (fits, rest) = continuation_bytes-moves n s payload read in
    let (low, high) = lead_byte-count first lead in
    (
      scalar,
      record { count = n; at_least = low; at_most = high; inside = fits; rest = same ∙ rest },
    )

escape_sequence-lands :
    (c : ℕ) (s : Bytes) {v : ℕ} {t : Bytes}
    → escape_sequence (c ∷ s) ≡ some (v, t)
    → IsScalar v
      × ((t ≡ s) ⊎ ((4 ≤ length s) × (t ≡ drop 4 s)) ⊎ ((10 ≤ length s) × (t ≡ drop 10 s)))
unfolding escape_sequence
escape_sequence-lands c s {v} {t} h = ground (arith, unicode_escape-moves s {v = v} {t = t})

-- An escape sequence takes one byte, or that of its `u` and what follows.
escape_sequence-moves :
    (s : Bytes) {v : ℕ} {t : Bytes} → escape_sequence s ≡ some (v, t) → IsScalar v × Moved s t 1 11
escape_sequence-moves [] h = unfold escape_sequence in cc
escape_sequence-moves (c ∷ s) {v} {t} h = (landed.0, move landed.1)
  where
    landed :
        IsScalar v
        × ((t ≡ s) ⊎ ((4 ≤ length s) × (t ≡ drop 4 s)) ⊎ ((10 ≤ length s) × (t ≡ drop 10 s)))
    landed = escape_sequence-lands c s h

    by : (n : ℕ) → n ≤ 10 → n ≤ length s → t ≡ drop n s → Moved (c ∷ s) t 1 11
    by n most fits e = record {
      count = suc n;
      at_least = omega arith;
      at_most = omega arith;
      inside = omega arith;
      rest = e;
    }

    move :
        (t ≡ s) ⊎ ((4 ≤ length s) × (t ≡ drop 4 s)) ⊎ ((10 ≤ length s) × (t ≡ drop 10 s))
        → Moved (c ∷ s) t 1 11
    move (inl e) = by 0 (omega arith) (omega arith) e
    move (inr (inl (fits, e))) = by 4 (omega arith) fits e
    move (inr (inr (fits, e))) = by 10 (omega arith) fits e

Moved-cons :
    (c : ℕ) (s : Bytes) {t : Bytes} {least most : ℕ}
    → Moved s t least most
    → Moved (c ∷ s) t (suc least) (suc most)
Moved-cons c s m = record {
  count = suc m.count;
  at_least = omega (arith, m.at_least);
  at_most = omega (arith, m.at_most);
  inside = omega (arith, m.inside);
  rest = m.rest;
}

Moved-weaken : (s : Bytes) {t : Bytes} {a b c d : ℕ} → c ≤ a → b ≤ d → Moved s t a b → Moved s t c d
Moved-weaken s low high m = record {
  count = m.count;
  at_least = omega (arith, m.at_least);
  at_most = omega (arith, m.at_most);
  inside = m.inside;
  rest = m.rest;
}

plain_byte-moves :
    (strict : Bool) (c : ℕ) (s : Bytes) {v : ℕ} {t : Bytes}
    → c < 0x80
    → plain_byte strict c s ≡ some (v, t)
    → (v ≡ c) × (t ≡ s)
unfolding plain_byte
plain_byte-moves strict c s low h = ground arith

decode_first-moves :
    (strict : Bool) (c : ℕ) (s : Bytes) {v : ℕ} {t : Bytes}
    → decode_first strict c s ≡ some (v, t)
    → IsScalar v × Moved (c ∷ s) t 1 12
unfolding decode_first
decode_first-moves strict c s h = elim (Bool-cases (c == b'\\')) [
  | inl e ↦
      let (scalar, m) = escape_sequence-moves s (rw e at h) in
      (scalar, Moved-weaken (c ∷ s) (omega arith) (omega arith) (Moved-cons c s m))
  | inr e ↦ elim (Bool-cases (ltb c 0x80)) [
    | inl low ↦
        let (same, rest) = plain_byte-moves strict c s (ltb→lt c 0x80 low) (rw (e, low) at h) in
        let small = ltb→lt c 0x80 low in
        (
          (omega arith, inl (omega arith)),
          record {
            count = 1;
            at_least = omega arith;
            at_most = omega arith;
            inside = omega arith;
            rest = rest;
          },
        )
    | inr high ↦
        let (scalar, m) = multibyte-moves c s (rw (e, high) at h) in
        (scalar, Moved-weaken (c ∷ s) (omega arith) (omega arith) (Moved-cons c s m))
  ]
]

pub to_next-eq-value :
    (o : Option (ℕ × Bytes)) {v : ℕ} {t : Bytes} → to_next o ≡ value v t → o ≡ some (v, t)
to_next-eq-value none h = cc
to_next-eq-value (some (v, t)) h = ground arith

-- A decoded value is a Unicode scalar value, and the cursor moves forward by one to twelve bytes
-- that lie inside the slice, in the strict mode and in the lenient one.
pub next_in_slice-moves :
    (strict_json : Bool) (s : Bytes) {v : ℕ} {t : Bytes}
    → next_in_slice strict_json s ≡ value v t
    → IsScalar v × Moved s t 1 12
unfolding next_in_slice
next_in_slice-moves strict_json [] h = cc
next_in_slice-moves strict_json (c ∷ s) h =
    decode_first-moves strict_json c s (to_next-eq-value _ h)
