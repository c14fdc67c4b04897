-- ===== src/Parse/Strings.antt =====
-- What `kason_scan_string` of kason.c reads.
use kason.Base.{
  ℕ, zero, suc, ◌+◌, ◌-◌, ◌≤◌, ◌<◌, Bool, true, false, not, ◌&&◌, ◌||◌, Option, none, some, [], ◌∷◌,
  ◌++◌, leb, ◌==◌, if◌then◌else◌, Bytes, length, take, length-append, All, ◌≡◌, ◌⊎◌, inl, inr, refl,
  ap, sym, ◌∙◌, subst, arith, Bool-cases, >>=-eq-some,
}
use kason.Chars.{is_whitespace, is_control_char}
use kason.Strings.Next.{value, next_in_slice, decode_first, plain_byte}
use kason.Strings.Loop.{Decodes, stop, more, string_is_valid, string_is_valid-Decodes}
use kason.Parse.Tokens.{
  Slice, slice_bytes, skip_whitespace, is_plain, skip_plain_string, string_byte, string_loop,
  is_empty, close_string, scan_string,
}
use kason.Parse.Grammar.{Spaces, here, space, IsString, quoted}

pub skip_whitespace-Spaces : (s : Bytes) → Spaces s (skip_whitespace s)
unfolding skip_whitespace
skip_whitespace-Spaces [] = here
skip_whitespace-Spaces (c ∷ s) = elim (Bool-cases (is_whitespace c)) [
  | inl p ↦ rw p (space p (skip_whitespace-Spaces s))
  | inr p ↦ rw p here
]

-- The loop without the skip: the next quotation mark outside an escape, byte by byte.
abbrev pub find_byte :
    (Bool → Bool → Option (Bool × Bytes)) → Bool → Bool → ℕ → Bytes → Option (Bool × Bytes)
find_byte rest escape needs_validation c s =
    if not escape && c == b'"'
    then some (needs_validation, c ∷ s)
    else if not escape && is_control_char c
    then none
    else if not escape && c == b'\\'
    then rest true true
    else rest false (needs_validation || leb 0x80 c)

unfoldable pub find_quote : Bool → Bool → Bytes → Option (Bool × Bytes)
find_quote escape needs_validation [] = none
find_quote escape needs_validation (c ∷ s) =
    find_byte (λ e n. find_quote e n s) escape needs_validation c s

find_quote-skip :
    (n : Bool) (s : Bytes) → find_quote false n (skip_plain_string s) ≡ find_quote false n s
unfolding find_quote skip_plain_string is_control_char
find_quote-skip n [] = refl
find_quote-skip n (c ∷ s) = ground (arith, find_quote-skip n s)

length-skip_plain : (s : Bytes) → length (skip_plain_string s) ≤ length s
unfolding skip_plain_string
length-skip_plain [] = omega arith
length-skip_plain (c ∷ s) = ground (arith, length-skip_plain s)

-- The loop that skips plain bytes finds the mark that the search byte by byte finds, on fuel for
-- every byte.
pub string_loop-find_quote :
    (fuel : ℕ) (escape needs : Bool) (s : Bytes)
    → length s < fuel
    → string_loop fuel escape needs s ≡ find_quote escape needs s
unfolding string_loop string_byte find_quote
string_loop-find_quote zero e n s lt = elim lt [ ]
string_loop-find_quote (suc fuel) e n [] lt = refl
string_loop-find_quote (suc fuel) e n (c ∷ s) lt =
    let short : length (skip_plain_string s) < fuel = omega (arith, length-skip_plain s, lt) in
    let skipped =
      string_loop-find_quote fuel false n (skip_plain_string s) short ∙ find_quote-skip n s in
    let escaped = string_loop-find_quote fuel true true s (omega (arith, lt)) in
    let high = string_loop-find_quote fuel false true s (omega (arith, lt)) in
    let plain = string_loop-find_quote fuel false n s (omega (arith, lt)) in
    ground (arith, skipped, escaped, high, plain)

find_byte_inv :
    (rest : Bool → Bool → Option (Bool × Bytes)) (e n : Bool) (c : ℕ) (s : Bytes) {m : Bool}
    {t : Bytes}
    → find_byte rest e n c s ≡ some (m, t)
    → ((c ≡ b'"') × (n ≡ m) × (c ∷ s ≡ t))
      ⊎ ((e' : Bool) × (n' : Bool) × (rest e' n' ≡ some (m, t))
          × (n' ≡ false → (n ≡ false) × (e ≡ false → (is_plain c ≡ true) × (e' ≡ false))))
unfolding is_control_char
find_byte_inv rest e n c s {m} {t} h = elim (Bool-cases (not e && c == b'"')) [
  | inl p ↦ inl (ground (arith, h, p), ground (arith, h, p), ground (arith, h, p))
  | inr p ↦ elim (Bool-cases (not e && c == b'\\')) [
    | inl q ↦ inr (true, true, ground (arith, h, p, q), λ x. absurd (cc x))
    | inr q ↦ inr (
      false,
      n || leb 0x80 c,
      ground (arith, h, p, q),
      λ x. (ground (arith, x), λ y. (ground (arith, h, p, q, x, y), refl)),
    )
  ]
]

-- The mark that is found, and what is in front of it.
pub record Found (e n : Bool) (s : Bytes) (m : Bool) (t : Bytes) : Type 0 where
  pub body : Bytes
  pub rest : Bytes
  pub joined : s ≡ body ++ t
  pub mark : t ≡ b'"' ∷ rest
  pub plain : m ≡ false → (n ≡ false) × (e ≡ false → All (λ c. is_plain c ≡ true) body)

find_quote-Found :
    (e n : Bool) (s : Bytes) {m : Bool} {t : Bytes}
    → find_quote e n s ≡ some (m, t)
    → Found e n s m t
unfolding find_quote
find_quote-Found e n [] h = absurd (cc h)
find_quote-Found e n (c ∷ s) {m} {t} h =
    elim (find_byte_inv (λ e n. find_quote e n s) e n c s {m = m} {t = t} h) [
      | inl (quote, same, eq) ↦ record {
        body = [];
        rest = s;
        joined = eq;
        mark = cc (eq, quote);
        plain = λ x. (same ∙ x, λ y. tt);
      }
      | inr (e', n', found, k) ↦
          let r = find_quote-Found e' n' s {m = m} {t = t} found in
          record {
            body = c ∷ r.body;
            rest = r.rest;
            joined = cc (r.joined);
            mark = r.mark;
            plain = λ x. (
              (k (r.plain x).0).0,
              λ y. (((k (r.plain x).0).1 y).0, (r.plain x).1 ((k (r.plain x).0).1 y).1),
            );
          }
    ]

plain_next : (c : ℕ) (s : Bytes) → is_plain c ≡ true → next_in_slice true (c ∷ s) ≡ value c s
unfolding next_in_slice decode_first plain_byte
plain_next c s h = ground (arith, h)

nil-Decodes : Decodes true [] [] true
unfolding next_in_slice
nil-Decodes = stop {s = []} refl

plain-Decodes : (s : Bytes) → All (λ c. is_plain c ≡ true) s → Decodes true s s true
plain-Decodes [] h = nil-Decodes
plain-Decodes (c ∷ s) (p, h) = more (plain_next c s p) (plain-Decodes s h)

plain-is_valid : (s : Bytes) → All (λ c. is_plain c ≡ true) s → string_is_valid (some s) ≡ true
plain-is_valid s h = string_is_valid-Decodes s (plain-Decodes s h)

take-front : (s t : Bytes) → take (length s) (s ++ t) ≡ s
take-front [] t = refl
take-front (c ∷ s) t = ap (◌∷◌ c) (take-front s t)

pub slice_bytes-append : (s t : Bytes) → slice_bytes (record { begin = s ++ t; behind = t }) ≡ s
slice_bytes-append s t =
    let e : length (s ++ t) - length t ≡ length s = omega (arith, length-append s t) in
    rw e (take-front s t)

close_string_inv :
    (s : Bytes) (m : Bool) (c : ℕ) (r : Bytes) {p : Slice} {t : Bytes}
    → close_string s (m, c ∷ r) ≡ some (p, t)
    → (r ≡ t)
      × (p ≡ record { begin = s; behind = c ∷ r })
      × ((m ≡ false)
          ⊎ (is_empty (slice_bytes (record { begin = s; behind = c ∷ r })) ≡ true)
          ⊎ (string_is_valid (some (slice_bytes (record { begin = s; behind = c ∷ r }))) ≡ true))
unfolding close_string
close_string_inv s m c r {p} {t} h = ground (arith, h)

nil-is_valid : string_is_valid (some []) ≡ true
nil-is_valid = string_is_valid-Decodes [] nil-Decodes

empty-is_valid : (s : Bytes) → is_empty s ≡ true → string_is_valid (some s) ≡ true
empty-is_valid [] h = nil-is_valid
empty-is_valid (c ∷ s) h = absurd (cc h)

-- A string that is read, on the range behind its opening mark.
pub scan_string-IsString :
    (s : Bytes) {p : Slice} {t : Bytes}
    → scan_string s ≡ some (p, t)
    → IsString (b'"' ∷ s) t × (p ≡ record { begin = s; behind = b'"' ∷ t })
unfolding scan_string
scan_string-IsString s {p} {t} h =
    let ((m, q), found, closed) = >>=-eq-some (string_loop (length s + 1) false false s) _ h in
    let same = string_loop-find_quote (length s + 1) false false s (omega arith) in
    let f = find_quote-Found false false s {m = m} {t = q} (sym same ∙ found) in
    finish f.body f.rest m q p t f.joined f.mark (λ x. (f.plain x).1 refl) closed
  where
    valid :
        (body r : Bytes) (m : Bool)
        → (m ≡ false → All (λ c. is_plain c ≡ true) body)
        → (m ≡ false) ⊎ (is_empty body ≡ true) ⊎ (string_is_valid (some body) ≡ true)
        → string_is_valid (some body) ≡ true
    valid body r m plain (inl x) = plain-is_valid body (plain x)
    valid body r m plain (inr (inl x)) = empty-is_valid body x
    valid body r m plain (inr (inr x)) = x

    finish :
        {s : Bytes} (body r : Bytes) (m : Bool) (q : Bytes) (p : Slice) (t : Bytes)
        → s ≡ body ++ q
        → q ≡ b'"' ∷ r
        → (m ≡ false → All (λ c. is_plain c ≡ true) body)
        → close_string s (m, q) ≡ some (p, t)
        → IsString (b'"' ∷ s) t × (p ≡ record { begin = s; behind = b'"' ∷ t })
    finish {s} body r m q p t joined mark plain closed =
        let all : s ≡ body ++ (b'"' ∷ r) = cc (joined, mark) in
        let (end, slice, cases) = close_string_inv s m b'"' r {p = p} {t = t} (rw mark at closed) in
        let bytes =
          ap (λ x. slice_bytes (record { begin = x; behind = b'"' ∷ r })) all
          ∙ slice_bytes-append body (b'"' ∷ r) in
        let ok = valid body r m plain (rw bytes at cases) in
        let text : b'"' ∷ (body ++ (b'"' ∷ t)) ≡ b'"' ∷ s = cc (all, end) in
        (subst (λ x. IsString x t) text (quoted body ok), cc (slice, end))
