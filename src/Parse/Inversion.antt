-- ===== src/Parse/Inversion.antt =====
-- The steps of the range parser of kason.c read backwards: what a result that moved the cursor says.
use kason.Base.{
  ℕ, ◌+◌, Bool, true, false, ◌||◌, Option, none, some, [], ◌∷◌, ◌==◌, if◌then◌else◌, ◌>>=◌, Bytes,
  ◌≡◌, ◌⊎◌, inl, inr, refl, sym, ◌∙◌, subst, arith, Bool-cases, ==_iff, >>=-eq-some,
}
use kason.Chars.{is_whitespace}
use kason.Parse.Tokens.{Slice, Token, skip_whitespace, scan_string}
use kason.Parse.Events.{Action, enter, break_off, capture, skip, other, Callback}
use kason.Parse.Scan.{after_colon, key_value, member_key, emit_token}
use kason.Parse.Frame.{
  Kind, object_kind, array_kind, Scan, failed, stopped, reached, starved, then_scan, after_event,
  emitted,
}
use kason.Parse.Grammar.{Spaces, IsString, value_part, element, Derives, item, pair}
use kason.Parse.Strings.{skip_whitespace-Spaces, scan_string-IsString}

pub then_scan-eq-reached :
    {U : Type 0} (m : Scan U) (f : Bytes → U → Scan U) {t : Bytes} {v : U}
    → then_scan m f ≡ reached t v
    → (r : Bytes) × (w : U) × (m ≡ reached r w) × (f r w ≡ reached t v)
then_scan-eq-reached (failed u) f h = absurd (cc h)
then_scan-eq-reached (stopped u) f h = absurd (cc h)
then_scan-eq-reached (reached r w) f h = (r, w, refl, h)
then_scan-eq-reached starved f h = absurd (cc h)

pub after_event-eq-reached :
    {U : Type 0} (s : Bytes) (a : Action × U) {t : Bytes} {v : U}
    → after_event s a ≡ reached t v
    → s ≡ t
after_event-eq-reached s (enter, u) h = cc h
after_event-eq-reached s (break_off, u) h = absurd (cc h)
after_event-eq-reached s (capture, u) h = absurd (cc h)
after_event-eq-reached s (skip, u) h = absurd (cc h)
after_event-eq-reached s (other n, u) h = absurd (cc h)

pub emitted-eq-reached :
    {U : Type 0} (b : Bool) (s : Bytes) (a : Action × U) (u : U) {t : Bytes} {v : U}
    → emitted b s a u ≡ reached t v
    → s ≡ t
emitted-eq-reached true s a u {t} {v} h = after_event-eq-reached s a {t = t} {v = v} h
emitted-eq-reached false s a u h = cc h

pub colon_inv :
    (s : Bytes) {t : Bytes}
    → after_colon s ≡ some t
    → (r : Bytes) × (s ≡ b':' ∷ r) × (skip_whitespace r ≡ t)
unfolding after_colon
colon_inv [] h = absurd (cc h)
colon_inv (c ∷ s) h = elim (Bool-cases (c == b':')) [
  | inl p ↦ (s, cc ((==_iff c b':').0 p), ground (arith, h, p))
  | inr p ↦ absurd (ground (arith, h, p))
]

-- The part of a member in front of its value.
abbrev pub KeyBetween : Bytes → Bytes → Type 0
KeyBetween s t = (r : Bytes) × (q : Bytes) × IsString s r × Spaces r (b':' ∷ q) × Spaces q t

pub quoted_key :
    (s : Bytes) {k : Option Slice} {t : Bytes}
    → (scan_string s >>= key_value) ≡ some (k, t)
    → KeyBetween (b'"' ∷ s) t
unfolding key_value
quoted_key s {k} {t} h =
    let ((p, r), read, h1) = >>=-eq-some (scan_string s) key_value h in
    let (x, colon, h2) = >>=-eq-some (after_colon (skip_whitespace r)) _ h1 in
    let (q, mark, e) = colon_inv (skip_whitespace r) {t = x} colon in
    let end : skip_whitespace q ≡ t = e ∙ cc h2 in
    (
      r,
      q,
      (scan_string-IsString s {p = p} {t = r} read).0,
      subst (Spaces r) mark (skip_whitespace-Spaces r),
      subst (Spaces q) end (skip_whitespace-Spaces q),
    )

pub object_key :
    (s : Bytes) {k : Option Slice} {t : Bytes}
    → member_key object_kind s ≡ some (k, t)
    → KeyBetween s t
unfolding member_key
object_key [] h = absurd (cc h)
object_key (c ∷ s) {k} {t} h = elim (Bool-cases (c == b'"')) [
  | inl p ↦
      let same : b'"' ∷ s ≡ c ∷ s = cc ((==_iff c b'"').0 p) in
      subst (λ x. KeyBetween x t) same (quoted_key s {k = k} {t = t} (rw p at h))
  | inr p ↦ absurd (cc (rw p at h))
]

pub member_element :
    (kind : Kind) (d : ℕ) (s : Bytes) {k : Option Slice} {r t : Bytes}
    → member_key kind s ≡ some (k, r)
    → Derives value_part (d + 1) r t
    → Derives (element kind) d s t
member_element object_kind d s {k} {r} h x =
    let (a, b, string, first, second) = object_key s {k = k} {t = r} h in pair string first second x
member_element array_kind d s {k} {r} {t} h x =
    let same : s ≡ r = unfold member_key in cc h in
    item (subst (λ y. Derives value_part (d + 1) y t) (sym same) x)

-- No white space stands in front of an opening mark.
pub mark_kept :
    (c : ℕ) (s : Bytes) → (c == b'{' || c == b'[') ≡ true → skip_whitespace (c ∷ s) ≡ c ∷ s
unfolding skip_whitespace is_whitespace
mark_kept c s h = ground (arith, h)

pub child_cases :
    {U : Type 0} (a b : Bool) (u : U) (x y : Scan U) {t : Bytes} {v : U}
    → (if a then failed u else if b then x else y) ≡ reached t v
    → (a ≡ false) × (((b ≡ true) × (x ≡ reached t v)) ⊎ (y ≡ reached t v))
child_cases true b u x y h = absurd (cc h)
child_cases false true u x y h = (refl, inl (refl, h))
child_cases false false u x y h = (refl, inr h)

pub token_eq_reached :
    {U : Type 0} (callback : Option (Callback U)) (key : Option Slice) (emit : Bool) (u : U)
    (o : Option Token) {t : Bytes} {v : U}
    → emit_token callback key emit u o ≡ reached t v
    → (tok : Token) × (o ≡ some tok) × (tok.cursor ≡ t)
unfolding emit_token
token_eq_reached callback key emit u none h = absurd (cc h)
token_eq_reached callback key emit u (some tok) {t} {v} h =
    (tok, refl, emitted-eq-reached emit tok.cursor _ u {t = t} {v = v} h)
