-- ===== src/Parse/Range.antt =====
-- `kason_scan_parse`, `kason_parse_range` and `kason_parse` of kason.c.
use kason.Base.{◌+◌, true, Option, none, some, [], ◌∷◌, ◌==◌, if◌then◌else◌, Bytes, length}
use kason.Parse.Tokens.{skip_whitespace}
use kason.Parse.Events.{Callback}
use kason.Parse.Scan.{scan_value, scan_loop}
use kason.Parse.Frame.{Scan, failed, stopped, reached, starved, then_scan}

-- KaSON_PARSE_RESULT_* of these functions; `unfinished` stands for no result.
pub data ParseResult : Type 0 where
  success error null_callback unfinished : ParseResult

unfoldable pub scan_result : {U : Type 0} → Scan U → ParseResult × U → ParseResult × U
scan_result (failed u) d = (error, u)
scan_result (stopped u) d = (success, u)
scan_result (reached [] u) d = (success, u)
scan_result (reached (c ∷ s) u) d = (error, u)
scan_result starved d = d

module _ {U : Type 0} where
  -- The whole range as one value at depth 0.
  unfoldable pub scan_root : Option (Callback U) → Bytes → U → Scan U
  unfolding scan_value scan_loop
  scan_root callback s u =
      then_scan (scan_value callback (scan_loop callback (length s + 1)) none true 0 s u)
        (λ t v. reached (skip_whitespace t) v)

  -- A range is `none` if it begins at NULL.
  unfoldable pub scan_parse : Option (Callback U) → Option Bytes → U → ParseResult × U
  unfolding scan_root scan_result
  scan_parse none s u = (null_callback, u)
  scan_parse (some callback) none u = (error, u)
  scan_parse (some callback) (some s) u =
      scan_result (scan_root (some callback) s u) (unfinished, u)

  unfoldable pub parse_range : Option (Callback U) → Option Bytes → U → ParseResult × U
  unfolding scan_parse
  parse_range = scan_parse

-- The bytes of a C string: those in front of its first zero.
unfoldable pub c_string : Bytes → Bytes
c_string [] = []
c_string (c ∷ s) = let rest = c_string s in if c == 0 then [] else c ∷ rest

module _ {U : Type 0} where
  -- The range of a string of that many bytes.
  unfoldable pub parse_text : Option (Callback U) → Bytes → U → ParseResult × U
  unfolding scan_parse
  parse_text callback [] u = (error, u)
  parse_text callback (c ∷ s) u = scan_parse callback (some (c ∷ s)) u

  unfoldable pub parse : Option (Callback U) → Option Bytes → U → ParseResult × U
  unfolding parse_text
  parse callback none u = (error, u)
  parse callback (some buffer) u = parse_text callback (c_string buffer) u
