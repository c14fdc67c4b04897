-- ===== src/Strings/Copy.antt =====
-- `kason_strcpy`, `kason_strcpy_utf16`, `kason_strcpy_utf32` and `kason_strlen` of kason.c. The
-- three copies are one loop over the units of a scalar; the buffer is the list of the units written
-- to its front, since each write goes to index `written`.
pub mod Fit
pub mod Whole
use kason.Base.{
  ℕ, ◌+◌, ◌-◌, Bool, true, false, not, ◌&&◌, Option, none, some, List, [], ◌++◌, leb, if◌then◌else◌,
  Bytes, length,
}
use kason.Base.Int.{ℤ, pos, negsuc}
use kason.Strings.Encode.{utf8_encode, utf16_units, utf32_units}
use kason.Strings.Loop.{Loop, ended, starved, scalar_loop}

-- The locals of the loop, and the buffer.
pub record Copy : Type 0 where
  pub buffer : List ℕ
  pub written : ℕ
  pub full : Bool

abbrev pub empty_copy : Copy
empty_copy = record { buffer = []; written = 0; full = false }

-- The body of the loop. The capacity is `none` for a NULL buffer.
unfoldable pub copy_scalar : (ℕ → List ℕ) → Option ℕ → Copy → ℕ → Copy
copy_scalar units none c v = record c { written = c.written + length (units v) }
copy_scalar units (some size) c v =
    if not c.full && leb (length (units v)) (size - c.written)
    then record c { buffer = c.buffer ++ units v; written = c.written + length (units v) }
    else record c { full = true }

-- What a copy returns, `none` for KaSON_STRING_RESULT_ERROR, and what it has written.
abbrev pub Copied : Type 0
Copied = Option ℕ × List ℕ

abbrev pub copied : Loop Copy → Copied
copied (ended true c) = (some c.written, c.buffer)
copied (ended false c) = (none, c.buffer)
copied starved = (none, [])

-- The slice is `none` if one of its pointers is NULL; a negative `buffer_size` is an error.
unfoldable pub copy_units : (ℕ → List ℕ) → Option Bytes → Bool → ℤ → Copied
copy_units units s has_buffer (negsuc n) = (none, [])
copy_units units s false (pos size) = copied (scalar_loop (copy_scalar units none) empty_copy s)
copy_units units s true (pos size) =
    copied (scalar_loop (copy_scalar units (some size)) empty_copy s)

unfoldable pub strcpy : Option Bytes → Bool → ℤ → Copied
unfolding copy_units
strcpy = copy_units utf8_encode

unfoldable pub strcpy_utf16 : Option Bytes → Bool → ℤ → Copied
unfolding copy_units
strcpy_utf16 = copy_units utf16_units

unfoldable pub strcpy_utf32 : Option Bytes → Bool → ℤ → Copied
unfolding copy_units
strcpy_utf32 = copy_units utf32_units

unfoldable pub strlen : Option Bytes → Option ℕ
unfolding strcpy
strlen s = (strcpy s false (pos 0)).0
