-- ===== src/Parse/Primitive.antt =====
-- `kason_scan_primitive` of kason.c reads the primitives of the grammar, and no others.
use kason.Base.{
  ℕ, zero, suc, ◌-◌, true, false, ◌||◌, none, some, [], ◌∷◌, ◌++◌, ◌==◌, ◌>>=◌, Bytes, length, take,
  ◌≡◌, ◌⊎◌, inl, inr, refl, sym, ◌∙◌, subst, arith, Bool-cases, ==_iff, >>=-eq-some,
}
use kason.Chars.{is_whitespace, is_digit}
use kason.Types.{JsonType, number, true_literal, false_literal, null}
use kason.Number.Valid.{scan_number}
use kason.Number.Valid.Grammar.{IsNumber, nonnegative, minus, zero_digit, digits}
use kason.Number.Valid.Prefix.{scan_number-Front, scan_number-IsNumber, EndsNumber}
use kason.Parse.Tokens.{
  scan_string, expect_bytes, rest_of_true, rest_of_false, rest_of_null, scan_literal, is_delimiter,
  word_end, slice_equals, scan_word, Token, whole_token, string_token, scan_token,
}
use kason.Parse.Grammar.{IsString, quoted, IsPrimitive, a_string, a_number, a_true, a_false, a_null}
use kason.Parse.Strings.{scan_string-IsString}
use kason.Parse.Quoted.{scan_string-valid}

expect_bytes_sound : (es s : Bytes) {t : Bytes} → expect_bytes es s ≡ some t → s ≡ es ++ t
unfolding expect_bytes
expect_bytes_sound [] s h = ground (arith, h)
expect_bytes_sound (e ∷ es) [] h = absurd (cc h)
expect_bytes_sound (e ∷ es) (c ∷ s) {t} h = elim (Bool-cases (c == e)) [
  | inl p ↦ cc ((==_iff c e).0 p, expect_bytes_sound es s {t = t} (rw p at h))
  | inr p ↦ absurd (ground (arith, h, p))
]

expect_bytes-append : (es t : Bytes) → expect_bytes es (es ++ t) ≡ some t
unfolding expect_bytes
expect_bytes-append [] t = refl
expect_bytes-append (e ∷ es) t =
    let p : (e == e) ≡ true = (==_iff e e).1 refl in rw p (expect_bytes-append es t)

literal_cases :
    (c : ℕ) (s : Bytes) {k : JsonType} {t : Bytes}
    → scan_literal (c ∷ s) ≡ some (k, t)
    → ((c ≡ b't') × (expect_bytes rest_of_true s ≡ some t))
      ⊎ ((c ≡ b'f') × (expect_bytes rest_of_false s ≡ some t))
      ⊎ ((c ≡ b'n') × (expect_bytes rest_of_null s ≡ some t))
unfolding scan_literal
literal_cases c s {k} {t} h = elim (Bool-cases (c == b't')) [
  | inl p ↦
      let (x, e, r) = >>=-eq-some (expect_bytes rest_of_true s) _ (rw p at h) in
      inl ((==_iff c b't').0 p, cc (e, r))
  | inr p ↦ elim (Bool-cases (c == b'f')) [
    | inl q ↦
        let (x, e, r) = >>=-eq-some (expect_bytes rest_of_false s) _ (rw (p, q) at h) in
        inr (inl ((==_iff c b'f').0 q, cc (e, r)))
    | inr q ↦ elim (Bool-cases (c == b'n')) [
      | inl l ↦
          let (x, e, r) = >>=-eq-some (expect_bytes rest_of_null s) _ (rw (p, q, l) at h) in
          inr (inr ((==_iff c b'n').0 l, cc (e, r)))
      | inr l ↦ absurd (ground (arith, h, p, q, l))
    ]
  ]
]

literal_sound :
    (c : ℕ) (s : Bytes) {k : JsonType} {t : Bytes}
    → scan_literal (c ∷ s) ≡ some (k, t)
    → IsPrimitive (c ∷ s) t
literal_sound c s {k} {t} h = elim (literal_cases c s {k = k} {t = t} h) [
  | inl (p, e) ↦
      let same : b't' ∷ (rest_of_true ++ t) ≡ c ∷ s =
        cc (p, expect_bytes_sound rest_of_true s {t = t} e) in
      subst (λ x. IsPrimitive x t) same a_true
  | inr (inl (p, e)) ↦
      let same : b'f' ∷ (rest_of_false ++ t) ≡ c ∷ s =
        cc (p, expect_bytes_sound rest_of_false s {t = t} e) in
      subst (λ x. IsPrimitive x t) same a_false
  | inr (inr (p, e)) ↦
      let same : b'n' ∷ (rest_of_null ++ t) ≡ c ∷ s =
        cc (p, expect_bytes_sound rest_of_null s {t = t} e) in
      subst (λ x. IsPrimitive x t) same a_null
]

-- A word that is no literal's begins with another byte.
slice_equals-head :
    (k c : ℕ) (s : Bytes) (e : ℕ) (es : Bytes)
    → (c == e) ≡ false
    → slice_equals (take k (c ∷ s)) (e ∷ es) ≡ false
unfolding slice_equals
slice_equals-head zero c s e es h = refl
slice_equals-head (suc k) c s e es h = rw h

scan_word-none :
    (c : ℕ) (s : Bytes) → (c == b't' || c == b'f' || c == b'n') ≡ false → scan_word (c ∷ s) ≡ none
unfolding scan_word
scan_word-none c s h =
    let k = length (c ∷ s) - length (word_end (c ∷ s)) in
    let t = slice_equals-head k c s b't' rest_of_true (ground (arith, h)) in
    let f = slice_equals-head k c s b'f' rest_of_false (ground (arith, h)) in
    let n = slice_equals-head k c s b'n' rest_of_null (ground (arith, h)) in ground (arith, t, f, n)

token_number :
    (c : ℕ) (s : Bytes) {tok : Token}
    → (scan_number (c ∷ s) >>= λ t. some (whole_token (c ∷ s) (number, t))) ≡ some tok
    → IsPrimitive (c ∷ s) tok.cursor
token_number c s {tok} h =
    let (t, read, e) = >>=-eq-some (scan_number (c ∷ s)) _ h in
    let f = scan_number-Front (c ∷ s) {t = t} read in
    let cursor : t ≡ tok.cursor = cc e in
    subst (IsPrimitive (c ∷ s)) cursor (a_number f.front f.holds f.joined)

token_string :
    (s : Bytes) {tok : Token}
    → (scan_string s >>= λ p. some (string_token p)) ≡ some tok
    → IsPrimitive (b'"' ∷ s) tok.cursor
token_string s {tok} h =
    let ((p, t), read, e) = >>=-eq-some (scan_string s) _ h in
    let cursor : t ≡ tok.cursor = cc e in
    subst (IsPrimitive (b'"' ∷ s)) cursor (a_string (scan_string-IsString s {p = p} {t = t} read).0)

token_literal :
    (c : ℕ) (s : Bytes) {tok : Token}
    → (scan_literal (c ∷ s) >>= λ p. some (whole_token (c ∷ s) p)) ≡ some tok
    → IsPrimitive (c ∷ s) tok.cursor
token_literal c s {tok} h =
    let ((k, t), read, e) = >>=-eq-some (scan_literal (c ∷ s)) _ h in
    let cursor : t ≡ tok.cursor = cc e in
    subst (IsPrimitive (c ∷ s)) cursor (literal_sound c s {k = k} {t = t} read)

-- A token that is read is a primitive.
pub scan_token-IsPrimitive :
    (s : Bytes) {tok : Token} → scan_token s ≡ some tok → IsPrimitive s tok.cursor
unfolding scan_token
scan_token-IsPrimitive [] h = absurd (cc h)
scan_token-IsPrimitive (c ∷ s) {tok} h = elim (Bool-cases (c == b'"')) [
  | inl p ↦
      let same : b'"' ∷ s ≡ c ∷ s = cc ((==_iff c b'"').0 p) in
      subst (λ x. IsPrimitive x tok.cursor) same (token_string s {tok = tok} (rw p at h))
  | inr p ↦ elim (Bool-cases (c == b'-' || is_digit c)) [
    | inl q ↦ token_number c s {tok = tok} (rw (p, q) at h)
    | inr q ↦ elim (Bool-cases (c == b't' || c == b'f' || c == b'n')) [
      | inl l ↦ token_literal c s {tok = tok} (rw (p, q, l) at h)
      | inr l ↦ absurd (cc (rw (p, q, l, scan_word-none c s l) at h))
    ]
  ]
]

-- A primitive can end here: at the end, or before a delimiter.
abbrev pub Delimited : Bytes → Type 0
Delimited [] = Unit
Delimited (c ∷ s) = is_delimiter c ≡ true

Delimited-EndsNumber : (t : Bytes) → Delimited t → EndsNumber t
unfolding is_whitespace is_digit
Delimited-EndsNumber [] h = tt
Delimited-EndsNumber (c ∷ t) h = (ground (arith, h), ground (arith, h), ground (arith, h))

-- The head of a number.
pub number_head :
    {n : Bytes}
    → IsNumber n
    → (c : ℕ) × (s : Bytes) × (n ≡ c ∷ s)
      × ((c == b'-' || is_digit c) ≡ true)
      × ((c == b'"') ≡ false)
unfolding is_digit
number_head (minus {s} u) = (b'-', s, refl, refl, refl)
number_head (nonnegative (zero_digit {s} f)) = (b'0', s, refl, refl, refl)
number_head (nonnegative (digits {d} ds {s} nonzero h f)) =
    (d, ds ++ s, refl, ground (arith, nonzero), ground (arith, nonzero))

-- A token is read, with the cursor at `t`.
abbrev pub Reads : Bytes → Bytes → Type 0
Reads s t = (tok : Token) × (scan_token s ≡ some tok) × (tok.cursor ≡ t)

Reads-number :
    (c : ℕ) (s t : Bytes)
    → (c == b'-' || is_digit c) ≡ true
    → (c == b'"') ≡ false
    → scan_number (c ∷ s) ≡ some t
    → Reads (c ∷ s) t
unfolding scan_token
Reads-number c s t p q h = (whole_token (c ∷ s) (number, t), rw (q, p, h) refl, refl)

Reads-literal :
    (c : ℕ) (s t : Bytes) {k : JsonType}
    → (c == b't' || c == b'f' || c == b'n') ≡ true
    → scan_literal (c ∷ s) ≡ some (k, t)
    → Reads (c ∷ s) t
unfolding scan_token is_digit
Reads-literal c s t {k} p h =
    let q : (c == b'"') ≡ false = ground (arith, p) in
    let r : (c == b'-' || is_digit c) ≡ false = ground (arith, p) in
    (whole_token (c ∷ s) (k, t), rw (q, r, p, h) refl, refl)

Reads-string : {s t : Bytes} → IsString s t → Reads s t
unfolding scan_token
Reads-string (quoted body {t} valid) = (
  string_token (record { begin = body ++ (b'"' ∷ t); behind = b'"' ∷ t }, t),
  rw (scan_string-valid body t valid) refl,
  refl,
)

-- Every primitive is read where it can end.
pub Reads-primitive : {s t : Bytes} → IsPrimitive s t → Delimited t → Reads s t
unfolding scan_literal
Reads-primitive (a_string x) h = Reads-string x
Reads-primitive {t = t} (a_number n x e) h =
    let (c, s, head, first, plain) = number_head x in
    let read = scan_number-IsNumber t x (Delimited-EndsNumber t h) in
    let same : c ∷ (s ++ t) ≡ n ++ t = cc head in
    let reads = Reads-number c (s ++ t) t first plain (rw (← same) at read) in
    subst (λ x. Reads x t) (same ∙ sym e) reads
Reads-primitive {t = t} a_true h =
    Reads-literal b't' (rest_of_true ++ t) t {k = true_literal} refl
      (rw (expect_bytes-append rest_of_true t) refl)
Reads-primitive {t = t} a_false h =
    Reads-literal b'f' (rest_of_false ++ t) t {k = false_literal} refl
      (rw (expect_bytes-append rest_of_false t) refl)
Reads-primitive {t = t} a_null h =
    Reads-literal b'n' (rest_of_null ++ t) t {k = null} refl
      (rw (expect_bytes-append rest_of_null t) refl)
