-- ===== src/Strings/Compare.antt =====
-- `kason_strcmp` of kason.c: the order of two slices by their decoded scalars.
pub mod Order
use kason.Base.{
  ℕ, zero, suc, ◌+◌, false, Option, none, some, List, ltb, if◌then◌else◌, Bytes, length,
}
use kason.Base.Int.{ℤ, pos, negsuc}
use kason.Strings.Next.{Next, invalid, finished, value, string_next_internal}

-- One round; `rest` is the loop on the moved cursors.
unfoldable pub strcmp_round : (Bytes → Bytes → Option ℤ) → Next → Next → Option ℤ
strcmp_round rest invalid invalid = some (pos 0)
strcmp_round rest invalid finished = some (negsuc 0)
strcmp_round rest invalid (value v t) = some (negsuc 0)
strcmp_round rest finished invalid = some (pos 1)
strcmp_round rest (value v t) invalid = some (pos 1)
strcmp_round rest finished finished = some (pos 0)
strcmp_round rest finished (value v t) = some (negsuc 0)
strcmp_round rest (value v t) finished = some (pos 1)
strcmp_round rest (value v t) (value w u) =
    let later = rest t u in
    if ltb v w then some (negsuc 0) else if ltb w v then some (pos 1) else later

-- `for (;;)`, on fuel.
unfoldable pub strcmp_loop : ℕ → Option Bytes → Option Bytes → Option ℤ
unfolding strcmp_round
strcmp_loop zero s t = none
strcmp_loop (suc fuel) s t =
    strcmp_round (λ s' t'. strcmp_loop fuel (some s') (some t')) (string_next_internal false s)
      (string_next_internal false t)

abbrev slice_length : Option Bytes → ℕ
slice_length none = 0
slice_length (some s) = length s

-- A slice is `none` if one of its pointers is NULL. Each round moves the first cursor.
unfoldable pub strcmp : Option Bytes → Option Bytes → Option ℤ
unfolding strcmp_loop
strcmp s t = strcmp_loop (slice_length s + 1) s t
