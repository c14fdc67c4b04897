-- ===== src/Lookup/Decoded.antt =====
-- What kason.c knows of an object key before it looks it up: the hash and the length of the decoded
-- key, and whether it is the expected one.
use kason.Base.{
  ℕ, zero, suc, ◌+◌, ◌<◌, Bool, true, false, ◌&&◌, ◌||◌, Option, none, some, List, [], ◌∷◌, ◌++◌,
  leb, ltb, ◌==◌, if◌then◌else◌, foldl, Bytes, length, All, ◌≡◌, ◌↔◌, inl, inr, refl, ap, sym, ◌∙◌,
  subst, arith, Bool-cases, ==_iff,
}
use kason.Strings.Encode.{to_char, utf8_encode}
use kason.Strings.Loop.{ended, Decodes, stop, fail, more, scalar_loop-foldl, shorter}
use kason.Strings.Copy.Fit.{all_units}
use kason.Strings.Copy.Whole.{IsUnescaped, unescaped_text}
use kason.Lookup.Hash.{hash_bytes, Sample, empty_sample, sample_add, sample_finish}
use kason.Lookup.Sample.{empty-Sampled, foldl-Sampled}
use kason.Lookup.Whole.{sample_finish-hash_bytes}
use kason.Lookup.Key.{
  LookupKey, sample_scalar, sample_info, decoded_key_info, plain_ascii, same_bytes, match_bytes,
  match_scalar, at_offset_end, if_matched, equals_loop, decoded_key_equals,
}

foldl-append :
    (x : Sample) (xs ys : Bytes)
    → foldl sample_add x (xs ++ ys) ≡ foldl sample_add (foldl sample_add x xs) ys
foldl-append x [] ys = refl
foldl-append x (v ∷ xs) ys = foldl-append (sample_add x v) xs ys

-- Sampled scalar by scalar, a key is sampled byte by byte.
foldl-sample_scalar :
    (x : Sample) (vs : List ℕ)
    → foldl sample_scalar x vs ≡ foldl sample_add x (all_units utf8_encode vs)
foldl-sample_scalar x [] = refl
foldl-sample_scalar x (v ∷ vs) =
    foldl-sample_scalar (sample_scalar x v) vs
    ∙ sym (foldl-append x (utf8_encode v) (all_units utf8_encode vs))

All-append :
    (xs ys : Bytes) → All (λ b. b < 256) xs → All (λ b. b < 256) ys → All (λ b. b < 256) (xs ++ ys)
All-append [] ys p q = q
All-append (x ∷ xs) ys (h, p) q = (h, All-append xs ys p q)

to_char-lt : (x : ℕ) → to_char x < 256
to_char-lt x = omega arith

utf8_encode-bytes : (v : ℕ) → All (λ b. b < 256) (utf8_encode v)
unfolding utf8_encode
utf8_encode-bytes v = elim (Bool-cases (leb v 0x7f)) [
  | inl p ↦ rw p (to_char-lt _, tt)
  | inr p ↦ elim (Bool-cases (leb v 0x7ff)) [
    | inl q ↦ rw (p, q) (to_char-lt _, (to_char-lt _, tt))
    | inr q ↦ elim (Bool-cases (leb v 0xffff)) [
      | inl r ↦ rw (p, q, r) (to_char-lt _, (to_char-lt _, (to_char-lt _, tt)))
      | inr r ↦ rw (p, q, r) (to_char-lt _, (to_char-lt _, (to_char-lt _, (to_char-lt _, tt))))
    ]
  ]
]

All-bytes : (vs : List ℕ) → All (λ b. b < 256) (all_units utf8_encode vs)
All-bytes [] = tt
All-bytes (v ∷ vs) =
    All-append (utf8_encode v) (all_units utf8_encode vs) (utf8_encode-bytes v) (All-bytes vs)

info_result :
    (complete : Bool) (x : Sample) (h n : ℕ)
    → sample_finish x ≡ h
    → x.count ≡ n
    → sample_info (ended complete x) ≡ (if complete then some (h, n) else none)
info_result true x h n p q = rw (p, q) refl
info_result false x h n p q = refl

-- The hash and the length that are sampled while a key is decoded are those of its UTF-8 text; a
-- malformed key has none.
pub decoded_key_info-hash_bytes :
    (key : Bytes) {vs : List ℕ} {complete : Bool}
    → Decodes true key vs complete
    → decoded_key_info key ≡ (
        if complete
        then some (
          hash_bytes (all_units utf8_encode vs) (length (all_units utf8_encode vs)),
          length (all_units utf8_encode vs),
        )
        else none)
unfolding decoded_key_info
decoded_key_info-hash_bytes key {vs} {complete} d =
    let text = all_units utf8_encode vs in
    let sampled = foldl-Sampled [] text empty_sample empty-Sampled in
    let same = foldl-sample_scalar empty_sample vs in
    ap sample_info (scalar_loop-foldl sample_scalar empty_sample key d)
    ∙ info_result complete (foldl sample_scalar empty_sample vs) (hash_bytes text (length text))
        (length text) (ap sample_finish same ∙ sample_finish-hash_bytes text (All-bytes vs))
        (ap (λ (x : Sample). x.count) same ∙ sampled.counted)

same_bytes_refl : (a : Bytes) → same_bytes a a ≡ true
unfolding same_bytes
same_bytes_refl [] = refl
same_bytes_refl (c ∷ a) = let p : (c == c) ≡ true = (==_iff c c).1 refl in rw p (same_bytes_refl a)

same_bytes_sound : (a b : Bytes) → same_bytes a b ≡ true → a ≡ b
unfolding same_bytes
same_bytes_sound [] [] h = refl
same_bytes_sound [] (e ∷ b) h = absurd (cc h)
same_bytes_sound (c ∷ a) [] h = absurd (cc h)
same_bytes_sound (c ∷ a) (e ∷ b) h = elim (Bool-cases (c == e)) [
  | inl p ↦ cc ((==_iff c e).0 p, same_bytes_sound a b (rw p at h))
  | inr p ↦ absurd (cc (rw p at h))
]

same_bytes_iff : (a b : Bytes) → (same_bytes a b ≡ true) ↔ (a ≡ b)
same_bytes_iff a b =
    (same_bytes_sound a b, λ e. subst (λ x. same_bytes a x ≡ true) e (same_bytes_refl a))

match_bytes-same :
    (a b rest : Bytes)
    → same_bytes (a ++ b) rest ≡ if_matched (match_bytes a rest) (λ r. same_bytes b r)
unfolding same_bytes match_bytes
match_bytes-same [] b rest = refl
match_bytes-same (c ∷ a) b [] = refl
match_bytes-same (c ∷ a) b (e ∷ rest) = elim (Bool-cases (c == e)) [
  | inl p ↦ rw p (match_bytes-same a b rest)
  | inr p ↦ rw p refl
]

same_bytes-short : (a b rest : Bytes) → length rest < length a → same_bytes (a ++ b) rest ≡ false
unfolding same_bytes
same_bytes-short [] b rest h = absurd (omega (arith, h))
same_bytes-short (c ∷ a) b [] h = refl
same_bytes-short (c ∷ a) b (e ∷ rest) h =
    rw (same_bytes-short a b rest (omega (arith, h))) (and_false (c == e))
  where
    and_false : (x : Bool) → (x && false) ≡ false
    and_false true = refl
    and_false false = refl

match_scalar-same :
    (a b rest : Bytes)
    → if_matched (match_scalar a rest) (λ r. same_bytes b r) ≡ same_bytes (a ++ b) rest
unfolding match_scalar
match_scalar-same a b rest = elim (Bool-cases (ltb (length rest) (length a))) [
  | inl p ↦ rw p (sym (same_bytes-short a b rest (ground (arith, p))))
  | inr p ↦ rw p (sym (match_bytes-same a b rest))
]

if_matched-ext :
    (o : Option Bytes) (f g : Bytes → Bool)
    → ((r : Bytes) → f r ≡ g r)
    → if_matched o f ≡ if_matched o g
if_matched-ext none f g h = refl
if_matched-ext (some r) f g h = h r

end_same : (rest : Bytes) → at_offset_end rest ≡ same_bytes [] rest
unfolding same_bytes
end_same [] = refl
end_same (e ∷ es) = refl

-- The loop compares the text of the decoded key.
equals_loop-same :
    (fuel : ℕ) {key : Bytes} {vs : List ℕ} {complete : Bool} (rest : Bytes)
    → length key < fuel
    → Decodes true key vs complete
    → complete ≡ true
    → equals_loop fuel key rest ≡ same_bytes (all_units utf8_encode vs) rest
unfolding equals_loop
equals_loop-same zero rest lt d h = elim lt [ ]
equals_loop-same (suc fuel) rest lt (stop e) h = rw (e, equals_loop) (end_same rest)
equals_loop-same (suc fuel) rest lt (fail e) h = absurd (cc h)
equals_loop-same (suc fuel) {key = key} rest lt (more {t = t} {v = v} {vs = vs} e d) h =
    let later = λ (r : Bytes).
      equals_loop-same fuel {key = t} r (omega (arith, lt, shorter true key {v = v} {t = t} e)) d
        h in
    rw (e, equals_loop)
      (if_matched-ext (match_scalar (utf8_encode v) rest) _ _ later
        ∙ match_scalar-same (utf8_encode v) (all_units utf8_encode vs) rest)

-- A plain key is its own text.
pub plain-IsUnescaped : (key : Bytes) → plain_ascii key ≡ true → IsUnescaped key
unfolding plain_ascii
plain-IsUnescaped [] h = tt
plain-IsUnescaped (c ∷ s) h = elim (Bool-cases (c == b'\\' || leb 0x80 c)) [
  | inl p ↦ absurd (cc (rw p at h))
  | inr p ↦ ((ground (arith, p), ground (arith, p)), plain-IsUnescaped s (rw p at h))
]

same_length : (a b : Bytes) → ((length a == length b) && same_bytes a b) ≡ same_bytes a b
same_length a b = elim (Bool-cases (same_bytes a b)) [
  | inl p ↦
      let e = ap length (same_bytes_sound a b p) in
      let q : (length a == length b) ≡ true = (==_iff _ _).1 e in rw (p, q) refl
  | inr p ↦ rw p (last_false (length a == length b))
]
  where
    last_false : (x : Bool) → (x && false) ≡ false
    last_false true = refl
    last_false false = refl

pub equals_text :
    (key : Bytes) (expected : LookupKey) {vs : List ℕ}
    → Decodes true key vs true
    → decoded_key_equals key expected ≡ same_bytes (all_units utf8_encode vs) expected.text
unfolding decoded_key_equals
equals_text key expected {vs} d = elim (Bool-cases (plain_ascii key)) [
  | inl p ↦
      let same : all_units utf8_encode vs ≡ key = unescaped_text (plain-IsUnescaped key p) d refl in
      rw (p, same) (same_length key expected.text)
  | inr p ↦ rw p (equals_loop-same (length key + 1) expected.text (omega arith) d refl)
]

-- A well-formed key equals a lookup key exactly when its UTF-8 text is the lookup key's, whether it is
-- compared byte by byte or decoded.
pub decoded_key_equals_iff :
    (key : Bytes) (expected : LookupKey) {vs : List ℕ}
    → Decodes true key vs true
    → (decoded_key_equals key expected ≡ true) ↔ (all_units utf8_encode vs ≡ expected.text)
decoded_key_equals_iff key expected {vs} d =
    rw (equals_text key expected d) (same_bytes_iff (all_units utf8_encode vs) expected.text)
