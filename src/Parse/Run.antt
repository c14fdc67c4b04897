-- ===== src/Parse/Run.antt =====
-- What the string scanner of kason.c passes over is what the decoder reads: plain bytes, escapes and
-- UTF-8 sequences.
use kason.Base.{
  ℕ, zero, suc, ◌≤◌, Bool, true, false, not, ◌&&◌, ◌||◌, Option, none, some, List, [], ◌∷◌, ◌++◌,
  leb, ltb, ◌==◌, if◌then◌else◌, guard, Bytes, length, get_or, drop, bit_and, bit_or, ◌≡◌, ◌⊎◌, inl,
  inr, refl, sym, ◌∙◌, subst, arith, Bool-cases, ==_iff, >>=-eq-some,
}
use kason.Base.Bits.{shl32, high_two}
use kason.Chars.{is_control_char, hex_value}
use kason.Strings.Next.{
  value, hex_digits, decode_hex4, surrogate_pair, unicode_escape, escape_sequence, lead_byte,
  continuation_bytes, check_scalar, multibyte, plain_byte, decode_first, next_in_slice,
}
use kason.Strings.Next.Bounds.{to_next-eq-value}
use kason.Strings.Loop.{
  Decodes, stop, fail, more, decode_total, string_is_valid, string_is_valid-Decodes,
}
use kason.Strings.Copy.Whole.{finished-nil}
use kason.Parse.Strings.{find_byte, find_quote}

-- A byte that neither closes a string nor opens an escape, and is no control character.
abbrev is_quiet : ℕ → Bool
is_quiet c = not (c == b'"') && not (c == b'\\') && leb 0x20 c

-- From `s` to `t` there are such bytes, and escapes.
pub data Run : Bytes → Bytes → Type 0 where
  done : {s : Bytes} → Run s s
  quiet : {c : ℕ} {s t : Bytes} → is_quiet c ≡ true → Run s t → Run (c ∷ s) t
  escaped : (x : ℕ) {s t : Bytes} → Run s t → Run (b'\\' ∷ x ∷ s) t

Run-Run : {s r t : Bytes} → Run s r → Run r t → Run s t
Run-Run done q = q
Run-Run (quiet h p) q = quiet h (Run-Run p q)
Run-Run (escaped x p) q = escaped x (Run-Run p q)

quiet_byte :
    (rest : Bool → Bool → Option (Bool × Bytes)) (n : Bool) (c : ℕ) (s : Bytes)
    → is_quiet c ≡ true
    → find_byte rest false n c s ≡ rest false (n || leb 0x80 c)
unfolding is_control_char
quiet_byte rest n c s h = ground (arith, h)

quiet_step :
    (n : Bool) (c : ℕ) (s : Bytes)
    → is_quiet c ≡ true
    → find_quote false n (c ∷ s) ≡ find_quote false (n || leb 0x80 c) s
unfolding find_quote
quiet_step n c s h = quiet_byte (λ e n. find_quote e n s) n c s h

escape_step :
    (n : Bool) (x : ℕ) (s : Bytes) → find_quote false n (b'\\' ∷ x ∷ s) ≡ find_quote false true s
unfolding find_quote is_control_char
escape_step n x s = refl

-- The search passes over them.
pub find_quote-Run :
    {s u : Bytes} (r : Bytes) (n : Bool)
    → Run s u
    → (m : Bool) × (find_quote false n (s ++ r) ≡ find_quote false m (u ++ r))
find_quote-Run r n done = (n, refl)
find_quote-Run {u = u} r n (quiet {c} {s} h p) =
    let (m, e) = find_quote-Run {u = u} r (n || leb 0x80 c) p in (m, quiet_step n c (s ++ r) h ∙ e)
find_quote-Run {u = u} r n (escaped x {s} p) =
    let (m, e) = find_quote-Run {u = u} r true p in (m, escape_step n x (s ++ r) ∙ e)

hex_quiet : (c : ℕ) {d : ℕ} → hex_value c ≡ some d → is_quiet c ≡ true
unfolding hex_value
hex_quiet c h = ground (arith, h)

hex_digits-Run : (n : ℕ) (s : Bytes) (r : ℕ) {v : ℕ} → hex_digits n s r ≡ some v → Run s (drop n s)
unfolding hex_digits
hex_digits-Run zero s r h = done
hex_digits-Run (suc n) [] r h = absurd (cc h)
hex_digits-Run (suc n) (c ∷ s) r {v} h =
    let (d, p, rest) = >>=-eq-some (hex_value c) _ h in
    quiet (hex_quiet c {d = d} p) (hex_digits-Run n s (bit_or (shl32 r 4) d) {v = v} rest)

continuation_quiet :
    (n : ℕ) (c : ℕ) (s : Bytes) (r : ℕ) {v : ℕ} {t : Bytes}
    → continuation_bytes (suc n) (c ∷ s) r ≡ some (v, t)
    → (bit_and c 0xc0 ≡ 0x80)
      × (continuation_bytes n s (bit_or (shl32 r 6) (bit_and c 0x3f)) ≡ some (v, t))
unfolding continuation_bytes
continuation_quiet n c s r {v} {t} h = (ground (arith, h), ground (arith, h))

continuation_bytes-Run :
    (n : ℕ) (s : Bytes) (r : ℕ) {v : ℕ} {t : Bytes}
    → continuation_bytes n s r ≡ some (v, t)
    → Run s t
continuation_bytes-Run zero s r {v} {t} h =
    let e : s ≡ t = unfold continuation_bytes in ground (arith, h) in subst (Run s) e done
continuation_bytes-Run (suc n) [] r h = absurd (unfold continuation_bytes in cc h)
continuation_bytes-Run (suc n) (c ∷ s) r {v} {t} h =
    let (top, rest) = continuation_quiet n c s r {v = v} {t = t} h in
    let high : 0x80 ≤ c = omega (arith, high_two c, top) in
    quiet (ground (arith, high))
      (continuation_bytes-Run n s (bit_or (shl32 r 6) (bit_and c 0x3f)) {v = v} {t = t} rest)

check_scalar-rest :
    (least x : ℕ) (r : Bytes) {v : ℕ} {t : Bytes} → check_scalar least (x, r) ≡ some (v, t) → r ≡ t
unfolding check_scalar
check_scalar-rest least x r h = ground arith

lead_quiet : (c : ℕ) {x : ℕ × ℕ × ℕ} → lead_byte c ≡ some x → is_quiet c ≡ true
unfolding lead_byte
lead_quiet c h = ground (arith, h)

multibyte-Run :
    (c : ℕ) (s : Bytes) {v : ℕ} {t : Bytes} → multibyte c s ≡ some (v, t) → Run (c ∷ s) t
unfolding multibyte
multibyte-Run c s {v} {t} h =
    let ((n, payload, least), lead, h1) = >>=-eq-some (lead_byte c) _ h in
    let (_, _, h2) = >>=-eq-some (guard (not (ltb (length s) n))) _ h1 in
    let ((x, r), read, h3) = >>=-eq-some (continuation_bytes n s payload) _ h2 in
    let same = check_scalar-rest least x r {v = v} {t = t} h3 in
    quiet (lead_quiet c lead)
      (subst (Run s) same (continuation_bytes-Run n s payload {v = x} {t = r} read))

pair_form :
    (s : Bytes)
    → (get_or s 0 0 == b'\\' && get_or s 1 0 == b'u') ≡ true
    → (r : Bytes) × (s ≡ b'\\' ∷ b'u' ∷ r)
pair_form [] h = absurd (ground (arith, h))
pair_form (a ∷ []) h = absurd (ground (arith, h))
pair_form (a ∷ b ∷ s) h = (s, ground (arith, h))

guard-true : (b : Bool) {u : Unit {0}} → guard b ≡ some u → b ≡ true
guard-true true h = refl
guard-true false h = absurd (cc h)

decode_hex4-Run : (s : Bytes) {v : ℕ} → decode_hex4 s ≡ some v → Run s (drop 4 s)
unfolding decode_hex4
decode_hex4-Run s {v} h = hex_digits-Run 4 s 0 {v = v} h

some-rest :
    {v w : ℕ} {s t : Bytes} → ◌≡◌ {A = Option (ℕ × Bytes)} (some (v, s)) (some (w, t)) → s ≡ t
some-rest h = cc

surrogate_pair-Run :
    (high : ℕ) (s : Bytes) {v : ℕ} {t : Bytes} → surrogate_pair high s ≡ some (v, t) → Run s t
unfolding surrogate_pair
surrogate_pair-Run high s {v} {t} h =
    let (_, _, h1) = >>=-eq-some (guard (not (ltb (length s) 6))) _ h in
    let (_, marks, h2) = >>=-eq-some (guard (get_or s 0 0 == b'\\' && get_or s 1 0 == b'u')) _ h1 in
    let (low, hex, h3) = >>=-eq-some (decode_hex4 (drop 2 s)) _ h2 in
    let (_, _, h4) = >>=-eq-some (guard (leb 0xdc00 low && leb low 0xdfff)) _ h3 in
    let (r, form) = pair_form s (guard-true _ marks) in
    let last : drop 6 s ≡ t = some-rest h4 in
    let run = decode_hex4-Run (drop 2 s) {v = low} hex in
    let whole : Run (b'\\' ∷ b'u' ∷ r) (drop 4 r) = escaped b'u' (rw form at run) in
    let front : b'\\' ∷ b'u' ∷ r ≡ s = sym form in
    let end : drop 4 r ≡ t = rw form at last in
    subst (λ x. Run x t) front (subst (Run (b'\\' ∷ b'u' ∷ r)) end whole)

unicode_rest :
    (scalar : ℕ) (s : Bytes) {v : ℕ} {t : Bytes}
    → (if leb 0xd800 scalar && leb scalar 0xdbff
        then surrogate_pair scalar s
        else if leb 0xdc00 scalar && leb scalar 0xdfff
        then none
        else some (scalar, s))
      ≡ some (v, t)
    → (s ≡ t) ⊎ (surrogate_pair scalar s ≡ some (v, t))
unicode_rest scalar s h = ground (arith, h)

unicode_escape-Run : (s : Bytes) {v : ℕ} {t : Bytes} → unicode_escape s ≡ some (v, t) → Run s t
unfolding unicode_escape
unicode_escape-Run s {v} {t} h =
    let (_, _, h1) = >>=-eq-some (guard (not (ltb (length s) 4))) _ h in
    let (scalar, hex, h2) = >>=-eq-some (decode_hex4 s) _ h1 in
    let first = decode_hex4-Run s {v = scalar} hex in
    elim (unicode_rest scalar (drop 4 s) {v = v} {t = t} h2) [
      | inl e ↦ subst (Run s) e first
      | inr e ↦ Run-Run first (surrogate_pair-Run scalar (drop 4 s) {v = v} {t = t} e)
    ]

escape_cases :
    (x : ℕ) (s : Bytes) {v : ℕ} {t : Bytes}
    → escape_sequence (x ∷ s) ≡ some (v, t)
    → (s ≡ t) ⊎ (unicode_escape s ≡ some (v, t))
unfolding escape_sequence
escape_cases x s h = ground (arith, h)

escape_sequence-Run :
    (s : Bytes) {v : ℕ} {t : Bytes} → escape_sequence s ≡ some (v, t) → Run (b'\\' ∷ s) t
escape_sequence-Run [] h = absurd (unfold escape_sequence in cc h)
escape_sequence-Run (x ∷ s) {v} {t} h = elim (escape_cases x s {v = v} {t = t} h) [
  | inl e ↦ escaped x (subst (Run s) e done)
  | inr e ↦ escaped x (unicode_escape-Run s {v = v} {t = t} e)
]

plain_byte-quiet :
    (c : ℕ) (s : Bytes) {v : ℕ} {t : Bytes}
    → (c == b'\\') ≡ false
    → plain_byte true c s ≡ some (v, t)
    → (is_quiet c ≡ true) × (s ≡ t)
unfolding plain_byte
plain_byte-quiet c s p h = (ground (arith, p, h), ground (arith, p, h))

decode_first-Run :
    (c : ℕ) (s : Bytes) {v : ℕ} {t : Bytes} → decode_first true c s ≡ some (v, t) → Run (c ∷ s) t
unfolding decode_first
decode_first-Run c s {v} {t} h = elim (Bool-cases (c == b'\\')) [
  | inl e ↦
      let same : b'\\' ∷ s ≡ c ∷ s = cc ((==_iff c b'\\').0 e) in
      subst (λ x. Run x t) same (escape_sequence-Run s {v = v} {t = t} (rw e at h))
  | inr e ↦ elim (Bool-cases (ltb c 0x80)) [
    | inl low ↦
        let (plain, same) = plain_byte-quiet c s {v = v} {t = t} e (rw (e, low) at h) in
        quiet plain (subst (Run s) same done)
    | inr high ↦ multibyte-Run c s {v = v} {t = t} (rw (e, high) at h)
  ]
]

next-Run : (s : Bytes) {v : ℕ} {t : Bytes} → next_in_slice true s ≡ value v t → Run s t
unfolding next_in_slice
next-Run [] h = absurd (cc h)
next-Run (c ∷ s) {v} {t} h =
    decode_first-Run c s {v = v} {t = t}
      (to_next-eq-value (decode_first true c s) {v = v} {t = t} h)

Decodes-Run :
    {s : Bytes} {vs : List ℕ} {complete : Bool}
    → Decodes true s vs complete
    → complete ≡ true
    → Run s []
Decodes-Run {s = s} (stop e) h = subst (Run s) (finished-nil true s e) done
Decodes-Run (fail e) h = absurd (cc h)
Decodes-Run {s = s} (more {t = t} {v = v} e d) h =
    Run-Run (next-Run s {v = v} {t = t} e) (Decodes-Run d h)

pub valid-Run : (s : Bytes) → string_is_valid (some s) ≡ true → Run s []
valid-Run s h =
    let (vs, complete, d) = decode_total true s in
    Decodes-Run d (sym (string_is_valid-Decodes s d) ∙ h)
