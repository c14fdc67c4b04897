-- ===== src/Parse/Lengths.antt =====
-- Every part of a JSON text has a byte at least, so that the range parser of kason.c moves forward.
use kason.Base.{ℕ, ◌≤◌, ◌<◌, Option, some, ◌∷◌, ◌++◌, Bytes, length, length-append, ◌≡◌, ap, arith}
use kason.Number.Valid.Grammar.{IsNumber, nonnegative, minus, zero_digit, digits}
use kason.Parse.Tokens.{Slice, skip_whitespace, rest_of_true, rest_of_false, rest_of_null}
use kason.Parse.Scan.{member_key}
use kason.Parse.Frame.{Kind, object_kind, array_kind}
use kason.Parse.Grammar.{
  Spaces, here, space, IsString, quoted, IsPrimitive, a_string, a_number, a_true, a_false, a_null,
  Part, Derives, primitive, container, empty, filled, last, next, item, pair,
}
use kason.Parse.Strings.{skip_whitespace-Spaces}
use kason.Parse.Inversion.{object_key}

pub length-Spaces : {s t : Bytes} → Spaces s t → length t ≤ length s
length-Spaces here = omega arith
length-Spaces (space {s = s} {t = t} h x) = omega (arith, length-Spaces {s = s} {t = t} x)

pub length-skip_whitespace : (s : Bytes) → length (skip_whitespace s) ≤ length s
length-skip_whitespace s = length-Spaces (skip_whitespace-Spaces s)

-- `t` is left of `s`, with a byte less at least.
abbrev pub Shorter : Bytes → Bytes → Type 0
Shorter s t = length t < length s

Shorter-append : (n t : Bytes) → 0 < length n → Shorter (n ++ t) t
Shorter-append n t h = omega (arith, length-append n t, h)

shorter-IsNumber : {n : Bytes} → IsNumber n → 0 < length n
shorter-IsNumber (minus u) = omega arith
shorter-IsNumber (nonnegative (zero_digit f)) = omega arith
shorter-IsNumber (nonnegative (digits ds h k f)) = omega arith

Shorter-IsString : {s t : Bytes} → IsString s t → Shorter s t
Shorter-IsString (quoted body {t} h) = omega (arith, length-append body (b'"' ∷ t))

Shorter-IsPrimitive : {s t : Bytes} → IsPrimitive s t → Shorter s t
Shorter-IsPrimitive (a_string x) = Shorter-IsString x
Shorter-IsPrimitive {t = t} (a_number n x e) =
    omega (arith, ap length e, Shorter-append n t (shorter-IsNumber x))
Shorter-IsPrimitive {t = t} a_true = Shorter-append (b't' ∷ rest_of_true) t (omega arith)
Shorter-IsPrimitive {t = t} a_false = Shorter-append (b'f' ∷ rest_of_false) t (omega arith)
Shorter-IsPrimitive {t = t} a_null = Shorter-append (b'n' ∷ rest_of_null) t (omega arith)

pub Shorter-Derives : {p : Part} {d : ℕ} {s t : Bytes} → Derives p d s t → Shorter s t
Shorter-Derives (primitive x) = Shorter-IsPrimitive x
Shorter-Derives {s = s} {t = t} (container {s = r} x) =
    omega (arith, Shorter-Derives {s = r} {t = t} x)
Shorter-Derives (empty x) = omega (arith, length-Spaces x)
Shorter-Derives {t = t} (filled {r = r} deep x y) =
    omega (arith, length-Spaces x, Shorter-Derives {s = r} {t = t} y)
Shorter-Derives {s = s} (last {r = r} x y) =
    omega (arith, Shorter-Derives {s = s} {t = r} x, length-Spaces y)
Shorter-Derives {s = s} {t = t} (next {r = r} {q = q} {p = p} x y z w) = omega (
  arith,
  Shorter-Derives {s = s} {t = r} x,
  length-Spaces y,
  length-Spaces z,
  Shorter-Derives {s = p} {t = t} w,
)
Shorter-Derives {s = s} {t = t} (item x) = Shorter-Derives {s = s} {t = t} x
Shorter-Derives {s = s} {t = t} (pair {p = p} x y z w) =
    omega (
      arith,
      Shorter-IsString x,
      length-Spaces y,
      length-Spaces z,
      Shorter-Derives {s = p} {t = t} w,
    )

pub length-member_key :
    (kind : Kind) (s : Bytes) {k : Option Slice} {t : Bytes}
    → member_key kind s ≡ some (k, t)
    → length t ≤ length s
length-member_key array_kind s {k} {t} h =
    let same : s ≡ t = unfold member_key in cc h in omega (arith, ap length same)
length-member_key object_kind s {k} {t} h =
    let (r, q, x, y, z) = object_key s {k = k} {t = t} h in
    omega (arith, Shorter-IsString x, length-Spaces y, length-Spaces z)
