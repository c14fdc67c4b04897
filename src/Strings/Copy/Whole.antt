-- ===== src/Strings/Copy/Whole.antt =====
-- Copies into a buffer that is large enough, and copies of unescaped text.
use kason.Base.{
  ℕ, ◌+◌, ◌-◌, ◌/◌, ◌%◌, ◌≤◌, ◌<◌, Bool, true, false, Option, none, some, List, [], ◌∷◌, ◌++◌, leb,
  if◌then◌else◌, Bytes, length, ◌≡◌, ◌≢◌, ◌⊎◌, inl, inr, refl, sym, ap, ◌∙◌, arith, length-append,
  All, All-weaken, All-append_right, Bool-cases, leb→le, ◌*◌,
}
use kason.Base.Int.{pos}
use kason.Base.Bits.{low_ten}
use kason.Strings.Next.{next_in_slice, value, finished, to_next, decode_first}
use kason.Strings.Next.Bounds.{IsScalar}
use kason.Strings.Encode.{utf8_encode, utf16_units}
use kason.Strings.Encode.Shortest.{utf8_encode-next_in_slice}
use kason.Strings.Loop.{
  Decodes, stop, fail, more, decode_total, string_is_valid, string_is_valid-Decodes,
}
use kason.Strings.Copy.{Copied, strcpy, strlen}
use kason.Strings.Copy.Fit.{all_units, fitting, copy_units-fitting, copy_units-counts}

fitting_all :
    (units : ℕ → List ℕ) (room : ℕ) (vs : List ℕ)
    → length (all_units units vs) ≤ room
    → fitting units room vs ≡ vs
fitting_all units room [] h = refl
fitting_all units room (v ∷ vs) h = ground (
  arith,
  length-append (units v) (all_units units vs),
  fitting_all units (room - length (units v)) vs,
)

-- A buffer of at least `kason_strlen` bytes receives the whole decoded string, and the copy returns
-- that length.
pub strcpy-strlen :
    (s : Bytes) (n size : ℕ) {vs : List ℕ}
    → Decodes true s vs true
    → strlen (some s) ≡ some n
    → n ≤ size
    → strcpy (some s) true (pos size) ≡ (some n, all_units utf8_encode vs)
unfolding strcpy strlen
strcpy-strlen s n size {vs} d h enough =
    let total = length (all_units utf8_encode vs) in
    let counted : strlen (some s) ≡ some total =
      ap (λ (r : Option ℕ × List ℕ). r.0) (copy_units-counts utf8_encode s 0 d) in
    let same : n ≡ total = ground (arith, counted, h) in
    let whole : fitting utf8_encode size vs ≡ vs = fitting_all utf8_encode size vs (omega arith) in
    rw (same, ← whole) (copy_units-fitting utf8_encode s size d).0

-- The bytes of a slice, none of them a backslash.
abbrev pub IsUnescaped : Bytes → Type 0
IsUnescaped = All (λ b. (b < 256) × (b ≢ b'\\'))

to_next-ne-finished : (o : Option (ℕ × Bytes)) → to_next o ≢ finished
to_next-ne-finished none h = cc
to_next-ne-finished (some (v, t)) h = cc

pub finished-nil : (strict : Bool) (s : Bytes) → next_in_slice strict s ≡ finished → s ≡ []
unfolding next_in_slice
finished-nil strict [] h = refl
finished-nil strict (c ∷ s) h = absurd (to_next-ne-finished (decode_first strict c s) h)

encoded_front :
    (strict : Bool) (s : Bytes) {v : ℕ} {t : Bytes}
    → IsUnescaped s
    → next_in_slice strict s ≡ value v t
    → utf8_encode v ++ t ≡ s
encoded_front strict [] plain h = unfold next_in_slice in absurd (cc h)
encoded_front strict (c ∷ s) plain h =
    let bytes : All (λ b. b < 256) (c ∷ s) = All-weaken _ _ (c ∷ s) (λ x p. p.0) plain in
    (utf8_encode-next_in_slice strict c s bytes plain.0.1 h).1

pub unescaped_text :
    {strict : Bool} {s : Bytes} {vs : List ℕ} {complete : Bool}
    → IsUnescaped s
    → Decodes strict s vs complete
    → complete ≡ true
    → all_units utf8_encode vs ≡ s
unescaped_text {strict} {s} plain (stop e) done = sym (finished-nil strict s e)
unescaped_text plain (fail e) done = absurd (ground arith)
unescaped_text {strict} {s} plain (more {t = t} {v = v} {vs = vs} e d) done =
    let front = encoded_front strict s plain e in
    let later : IsUnescaped t = All-append_right _ (utf8_encode v) t (rw front plain) in
    ap (λ r. utf8_encode v ++ r) (unescaped_text later d done) ∙ front

whole_result :
    (complete : Bool) (out : List ℕ) {s : Bytes}
    → complete ≡ true
    → out ≡ s
    → ◌≡◌ {A = Copied} ((if complete then some (length out) else none), out) (some (length s), s)
whole_result true out done e = cc (ap length e)
whole_result false out done e = absurd (ground arith)

-- A valid slice with no backslash is copied byte for byte by a buffer of at least its size.
pub strcpy_unescaped :
    (s : Bytes) (size : ℕ)
    → IsUnescaped s
    → string_is_valid (some s) ≡ true
    → length s ≤ size
    → strcpy (some s) true (pos size) ≡ (some (length s), s)
unfolding strcpy
strcpy_unescaped s size plain valid room =
    let (vs, complete, d) = decode_total true s in
    let done : complete ≡ true = sym (string_is_valid-Decodes s d) ∙ valid in
    let text : all_units utf8_encode vs ≡ s = unescaped_text plain d done in
    let whole : fitting utf8_encode size vs ≡ vs = fitting_all utf8_encode size vs (rw text room) in
    let front : all_units utf8_encode (fitting utf8_encode size vs) ≡ s =
      ap (all_units utf8_encode) whole ∙ text in
    (copy_units-fitting utf8_encode s size d).0 ∙ whole_result complete _ done front

-- The units of a scalar value in UTF-16: itself, and then no surrogate, or a high and a low
-- surrogate that stand for it.
pub utf16_units_lem :
    (v : ℕ)
    → IsScalar v
    → ((utf16_units v ≡ v ∷ []) × (v ≤ 0xffff) × ((v < 0xd800) ⊎ (0xdfff < v)))
      ⊎ ((high : ℕ) × (low : ℕ) × (utf16_units v ≡ high ∷ low ∷ [])
          × ((0xd800 ≤ high) × (high ≤ 0xdbff) × (0xdc00 ≤ low) × (low ≤ 0xdfff))
          × (v ≡ 0x10000 + (high - 0xd800) * 1024 + (low - 0xdc00)))
unfolding utf16_units
utf16_units_lem v (most, plain) = elim (Bool-cases (leb v 0xffff)) [
  | inl small ↦ inl (ground arith, leb→le _ _ small, plain)
  | inr large ↦
      let below : 0xffff < v = ground arith in
      inr (
        0xd800 + (v - 0x10000) / 1024,
        0xdc00 + (v - 0x10000) % 1024,
        ground (arith, low_ten (v - 0x10000)),
        omega (arith, below),
        omega (arith, below),
      )
]
