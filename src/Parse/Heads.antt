-- ===== src/Parse/Heads.antt =====
-- How the parts of a JSON text begin, and what the range parser of kason.c skips in front of them.
use kason.Base.{
  ℕ, Bool, true, false, not, ◌&&◌, ◌||◌, Option, some, ◌∷◌, ◌++◌, ◌==◌, Bytes, ◌≡◌, refl, arith,
}
use kason.Chars.{is_whitespace, is_digit}
use kason.Parse.Tokens.{Slice, skip_whitespace, is_delimiter}
use kason.Parse.Scan.{after_colon, key_value, member_key}
use kason.Parse.Frame.{Kind, object_kind, array_kind, open_mark, close_mark}
use kason.Parse.Grammar.{
  Spaces, here, space, IsString, quoted, IsPrimitive, a_string, a_number, a_true, a_false, a_null,
  value_part, elements, element, Derives, primitive, container, last, next, item, pair,
}
use kason.Parse.Quoted.{scan_string-valid}
use kason.Parse.Primitive.{Delimited, number_head}

-- The first byte of a part satisfies a test.
abbrev pub Headed : (ℕ → Bool) → Bytes → Type 0
Headed test s = (c : ℕ) × (r : Bytes) × (s ≡ c ∷ r) × (test c ≡ true)

abbrev pub starts_primitive : ℕ → Bool
starts_primitive c = c == b'"' || c == b'-' || is_digit c || c == b't' || c == b'f' || c == b'n'

-- No white space and no closing mark.
abbrev pub is_solid : ℕ → Bool
is_solid c = not (is_whitespace c) && not (c == b'}') && not (c == b']')

pub primitive_head : {s t : Bytes} → IsPrimitive s t → Headed starts_primitive s
unfolding is_digit
primitive_head (a_string (quoted body {t} h)) = (b'"', body ++ (b'"' ∷ t), refl, refl)
primitive_head {t = t} (a_number n x e) =
    let (c, r, head, first, plain) = number_head x in
    (c, r ++ t, cc (e, head), ground (arith, first))
primitive_head a_true = (b't', _, refl, refl)
primitive_head a_false = (b'f', _, refl, refl)
primitive_head a_null = (b'n', _, refl, refl)

primitive_solid : (c : ℕ) → starts_primitive c ≡ true → is_solid c ≡ true
unfolding is_whitespace is_digit
primitive_solid c h = ground (arith, h)

pub open_solid : (k : Kind) → is_solid (open_mark k) ≡ true
unfolding is_whitespace
open_solid object_kind = refl
open_solid array_kind = refl

pub value_head : {d : ℕ} {s t : Bytes} → Derives value_part d s t → Headed is_solid s
value_head (primitive x) = let (c, r, e, h) = primitive_head x in (c, r, e, primitive_solid c h)
value_head (container {k} {s = s} x) = (open_mark k, s, refl, open_solid k)

pub element_head : {k : Kind} {d : ℕ} {s t : Bytes} → Derives (element k) d s t → Headed is_solid s
unfolding is_whitespace
element_head (item x) = value_head x
element_head (pair (quoted body {t} h) y z w) = (b'"', body ++ (b'"' ∷ t), refl, refl)

pub elements_head :
    {k : Kind} {d : ℕ} {s t : Bytes} → Derives (elements k) d s t → Headed is_solid s
elements_head (last x y) = element_head x
elements_head (next x y z w) = element_head x

-- White space is skipped up to a byte that is none.
pub skip_to :
    {s : Bytes} (c : ℕ) (r : Bytes)
    → is_whitespace c ≡ false
    → Spaces s (c ∷ r)
    → skip_whitespace s ≡ c ∷ r
unfolding skip_whitespace
skip_to c r h here = rw h
skip_to c r h (space p x) = rw p (skip_to c r h x)

pub solid_cases :
    (c : ℕ) (k : Kind)
    → is_solid c ≡ true
    → (is_whitespace c ≡ false) × ((c == close_mark k) ≡ false)
solid_cases c object_kind h = (ground (arith, h), ground (arith, h))
solid_cases c array_kind h = (ground (arith, h), ground (arith, h))

pub close_delimits : (k : Kind) → is_delimiter (close_mark k) ≡ true
unfolding is_whitespace
close_delimits object_kind = refl
close_delimits array_kind = refl

pub close_spaceless : (k : Kind) → is_whitespace (close_mark k) ≡ false
unfolding is_whitespace
close_spaceless object_kind = refl
close_spaceless array_kind = refl

pub Delimited-Spaces :
    {s : Bytes} (c : ℕ) {r : Bytes} → is_delimiter c ≡ true → Spaces s (c ∷ r) → Delimited s
Delimited-Spaces c h here = h
Delimited-Spaces c h (space p x) = rw p refl

pub object_member :
    {s r q p : Bytes}
    → IsString s r
    → Spaces r (b':' ∷ q)
    → skip_whitespace q ≡ p
    → (key : Option Slice) × (member_key object_kind s ≡ some (key, p))
unfolding member_key key_value after_colon is_whitespace
object_member {r = r} {q = q} (quoted body h) y z =
    let colon : skip_whitespace r ≡ b':' ∷ q = skip_to b':' q refl y in
    (
      some (record { begin = body ++ (b'"' ∷ r); behind = b'"' ∷ r }),
      rw (scan_string-valid body r h, colon, z) refl,
    )
