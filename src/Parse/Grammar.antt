-- ===== src/Parse/Grammar.antt =====
-- The grammar of JSON texts (RFC 8259), as a relation between a text and what is left of it, with the
-- depth of a value below the bound of kason.h.
use kason.Base.{ℕ, ◌+◌, ◌<◌, true, some, [], ◌∷◌, ◌++◌, Bytes, ◌≡◌}
use kason.Chars.{is_whitespace}
use kason.Strings.Loop.{string_is_valid}
use kason.Number.Valid.Grammar.{IsNumber}
use kason.Parse.Tokens.{rest_of_true, rest_of_false, rest_of_null}
use kason.Parse.Frame.{max_nesting, Kind, object_kind, array_kind, open_mark, close_mark}

-- White space between `s` and `t`.
pub data Spaces : Bytes → Bytes → Type 0 where
  here : {s : Bytes} → Spaces s s
  space : {c : ℕ} {s t : Bytes} → is_whitespace c ≡ true → Spaces s t → Spaces (c ∷ s) t

-- A string between `s` and `t`: its contents have valid escapes and valid UTF-8, and no control
-- character and no quotation mark outside an escape.
pub data IsString : Bytes → Bytes → Type 0 where
  quoted :
      (body : Bytes) {t : Bytes}
      → string_is_valid (some body) ≡ true
      → IsString (b'"' ∷ (body ++ (b'"' ∷ t))) t

-- A primitive between `s` and `t`.
pub data IsPrimitive : Bytes → Bytes → Type 0 where
  a_string : {s t : Bytes} → IsString s t → IsPrimitive s t
  a_number : (n : Bytes) {s t : Bytes} → IsNumber n → s ≡ n ++ t → IsPrimitive s t
  a_true : {t : Bytes} → IsPrimitive (b't' ∷ (rest_of_true ++ t)) t
  a_false : {t : Bytes} → IsPrimitive (b'f' ∷ (rest_of_false ++ t)) t
  a_null : {t : Bytes} → IsPrimitive (b'n' ∷ (rest_of_null ++ t)) t

-- What stands between a container's opening mark and the end of its closing mark (`contents`), behind
-- its white space (`elements`), and between two commas (`element`).
pub data Part : Type 0 where
  value_part : Part
  contents elements element : Kind → Part

-- A part at a depth, between `s` and `t`.
pub data Derives : Part → ℕ → Bytes → Bytes → Type 0 where
  primitive : {d : ℕ} {s t : Bytes} → IsPrimitive s t → Derives value_part d s t
  container :
      {k : Kind} {d : ℕ} {s t : Bytes}
      → Derives (contents k) d s t
      → Derives value_part d (open_mark k ∷ s) t
  empty :
      {k : Kind} {d : ℕ} {s t : Bytes} → Spaces s (close_mark k ∷ t) → Derives (contents k) d s t
  filled :
      {k : Kind} {d : ℕ} {s r t : Bytes}
      → d < max_nesting
      → Spaces s r
      → Derives (elements k) d r t
      → Derives (contents k) d s t
  last :
      {k : Kind} {d : ℕ} {s r t : Bytes}
      → Derives (element k) d s r
      → Spaces r (close_mark k ∷ t)
      → Derives (elements k) d s t
  next :
      {k : Kind} {d : ℕ} {s r q p t : Bytes}
      → Derives (element k) d s r
      → Spaces r (b',' ∷ q)
      → Spaces q p
      → Derives (elements k) d p t
      → Derives (elements k) d s t
  item : {d : ℕ} {s t : Bytes} → Derives value_part (d + 1) s t → Derives (element array_kind) d s t
  pair :
      {d : ℕ} {s r q p t : Bytes}
      → IsString s r
      → Spaces r (b':' ∷ q)
      → Spaces q p
      → Derives value_part (d + 1) p t
      → Derives (element object_kind) d s t

-- A JSON text: one value between white space.
pub data IsText (s : Bytes) : Type 0 where
  text : {r t : Bytes} → Spaces s r → Derives value_part 0 r t → Spaces t [] → IsText s
