-- ===== src/Tests/Strings.antt =====
-- The string functions of kason.c on small slices.
use kason.Base.{
  ℕ, ◌+◌, ◌*◌, ◌-◌, ◌≤◌, ◌<◌, Bool, true, false, none, some, List, [], ◌∷◌, ◌++◌, Bytes, length,
  ◌≡◌, ◌↔◌, ◌⊎◌, inl, inr, refl, arith, if◌then◌else◌,
}
use kason.Base.Int.{pos}
use kason.Tests.Text.{codes}
use kason.Strings.Next.{
  invalid, finished, value, next_in_slice, decode_first, escape_sequence, unicode_escape,
  surrogate_pair, decode_hex4, hex_digits, plain_byte, multibyte, lead_byte, continuation_bytes,
  check_scalar,
}
use kason.Chars.{hex_value}
use kason.Strings.Next.Bounds.{IsScalar, Moved, next_in_slice-moves}
use kason.Strings.Encode.{utf8_encode, utf16_units}
use kason.Strings.Encode.RoundTrip.{next_in_slice-utf8_encode}
use kason.Strings.Encode.Shortest.{utf8_encode-next_in_slice}
use kason.Strings.Loop.{Decodes, stop, more, string_is_valid, string_is_valid-Decodes, scalar_loop}
use kason.Strings.Copy.{copy_units, strcpy, strlen, copy_scalar}
use kason.Strings.Copy.Fit.{all_units, fitting, copy_units-fitting}
use kason.Strings.Copy.Whole.{strcpy-strlen, strcpy_unescaped, utf16_units_lem}
use kason.Strings.Compare.{strcmp}
use kason.Strings.Compare.Order.{sort_key, lex, strcmp-lex, strcmp_zero_iff}

-- `x\u20ac`: a plain byte, and the euro sign as an escape.
abbrev euro : Bytes
euro = codes "x\\u20ac"

-- The euro sign in UTF-8.
abbrev euro_utf8 : Bytes
euro_utf8 = 0xe2 ∷ 0x82 ∷ 0xac ∷ []

-- U+1F600 as an escaped surrogate pair.
abbrev pair : Bytes
pair = codes "\\ud83d\\ude00"

euro_value : next_in_slice true (codes "\\u20ac") ≡ value 0x20ac []
unfolding next_in_slice decode_first escape_sequence unicode_escape decode_hex4 hex_digits hex_value
euro_value = refl

pair_value : next_in_slice true pair ≡ value 0x1f600 []
unfolding next_in_slice decode_first escape_sequence unicode_escape surrogate_pair decode_hex4
    hex_digits hex_value
pair_value = refl

utf8_value : next_in_slice true euro_utf8 ≡ value 0x20ac []
unfolding next_in_slice decode_first multibyte lead_byte continuation_bytes check_scalar
utf8_value = refl

x_value : (s : Bytes) → next_in_slice true (b'x' ∷ s) ≡ value b'x' s
unfolding next_in_slice decode_first plain_byte
x_value s = refl

no_more : (strict : Bool) → next_in_slice strict [] ≡ finished
unfolding next_in_slice
no_more strict = refl

lone_surrogate : next_in_slice true (codes "\\ud83d") ≡ invalid
unfolding next_in_slice decode_first escape_sequence unicode_escape surrogate_pair decode_hex4
    hex_digits hex_value
lone_surrogate = refl

overlong : next_in_slice true (0xc0 ∷ 0x80 ∷ []) ≡ invalid
unfolding next_in_slice decode_first multibyte lead_byte
overlong = refl

euro_copied : strcpy (some euro) true (pos 3) ≡ (some 1, b'x' ∷ [])
unfolding strcpy copy_scalar scalar_loop next_in_slice decode_first plain_byte escape_sequence
    unicode_escape decode_hex4 hex_digits hex_value utf8_encode
euro_copied = refl

euro-Decodes : Decodes true euro (b'x' ∷ 0x20ac ∷ []) true
euro-Decodes = more (x_value _) (more euro_value (stop (no_more true)))

next_in_slice-moves_example : IsScalar 0x1f600 × Moved pair [] 1 12
next_in_slice-moves_example = next_in_slice-moves true pair pair_value

next_in_slice-utf8_encode_example :
    next_in_slice true (utf8_encode 0x20ac ++ codes "x") ≡ value 0x20ac (codes "x")
next_in_slice-utf8_encode_example =
    next_in_slice-utf8_encode true 0x20ac (codes "x") (omega arith, inl (omega arith)) (omega arith)
      (omega arith) (omega arith)

utf8_encode-next_in_slice_example : IsScalar 0x20ac × (utf8_encode 0x20ac ++ [] ≡ euro_utf8)
utf8_encode-next_in_slice_example =
    utf8_encode-next_in_slice true 0xe2 (0x82 ∷ 0xac ∷ []) (omega arith) (omega arith) utf8_value

string_is_valid-Decodes_example : string_is_valid (some euro) ≡ true
string_is_valid-Decodes_example = string_is_valid-Decodes euro euro-Decodes

copy_units-fitting_example :
    (copy_units utf8_encode (some euro) true (pos 3) ≡ (
      (if true
          then some (length (all_units utf8_encode (fitting utf8_encode 3 (b'x' ∷ 0x20ac ∷ []))))
          else none),
      all_units utf8_encode (fitting utf8_encode 3 (b'x' ∷ 0x20ac ∷ [])),
    ))
    × (length (all_units utf8_encode (fitting utf8_encode 3 (b'x' ∷ 0x20ac ∷ []))) ≤ 3)
copy_units-fitting_example = copy_units-fitting utf8_encode euro 3 euro-Decodes

euro_length : strlen (some euro) ≡ some 4
unfolding strlen copy_scalar scalar_loop next_in_slice decode_first plain_byte escape_sequence
    unicode_escape decode_hex4 hex_digits hex_value utf8_encode
euro_length = refl

strcpy-strlen_example :
    strcpy (some euro) true (pos 4) ≡ (some 4, all_units utf8_encode (b'x' ∷ 0x20ac ∷ []))
strcpy-strlen_example = strcpy-strlen euro 4 4 euro-Decodes euro_length (omega arith)

xx_valid : string_is_valid (some (codes "xx")) ≡ true
unfolding string_is_valid scalar_loop next_in_slice decode_first plain_byte
xx_valid = refl

strcpy_unescaped_example : strcpy (some (codes "xx")) true (pos 2) ≡ (some 2, codes "xx")
strcpy_unescaped_example = strcpy_unescaped (codes "xx") 2 (omega arith) xx_valid (omega arith)

utf16_units_lem_example :
    ((utf16_units 0x1f600 ≡ 0x1f600 ∷ [])
      × (0x1f600 ≤ 0xffff)
      × ((0x1f600 < 0xd800) ⊎ (0xdfff < 0x1f600)))
    ⊎ ((high : ℕ) × (low : ℕ) × (utf16_units 0x1f600 ≡ high ∷ low ∷ [])
        × ((0xd800 ≤ high) × (high ≤ 0xdbff) × (0xdc00 ≤ low) × (low ≤ 0xdfff))
        × (0x1f600 ≡ 0x10000 + (high - 0xd800) * 1024 + (low - 0xdc00)))
utf16_units_lem_example = utf16_units_lem 0x1f600 (omega arith, inr (omega arith))

lenient_x : (s : Bytes) → next_in_slice false (b'x' ∷ s) ≡ value b'x' s
unfolding next_in_slice decode_first plain_byte
lenient_x s = refl

escaped_x : next_in_slice false (codes "\\u0078") ≡ value b'x' []
unfolding next_in_slice decode_first escape_sequence unicode_escape decode_hex4 hex_digits hex_value
escaped_x = refl

abbrev one_x : List ℕ
one_x = b'x' ∷ []

strcmp-lex_example :
    strcmp (some (codes "x")) (some (codes "\\u0078"))
    ≡ some (lex (sort_key (b'x' ∷ []) true) (sort_key (b'x' ∷ []) true))
strcmp-lex_example =
    strcmp-lex (codes "x") (codes "\\u0078") (more (lenient_x []) (stop (no_more false)))
      (more escaped_x (stop (no_more false)))

strcmp_zero_iff_example :
    (strcmp (some (codes "x")) (some (codes "\\u0078")) ≡ some (pos 0))
    ↔ ((one_x ≡ one_x) × (true ≡ true))
strcmp_zero_iff_example =
    strcmp_zero_iff (codes "x") (codes "\\u0078") (more (lenient_x []) (stop (no_more false)))
      (more escaped_x (stop (no_more false)))
