-- ===== src/Parse/Quoted.antt =====
-- `kason_scan_string` of kason.c reads every JSON string: the decoder and the search for the closing
-- quotation mark agree on what an escape is.
use kason.Base.{
  ℕ, ◌+◌, Bool, true, false, some, ◌∷◌, ◌++◌, ◌>>=◌, Bytes, length, ◌≡◌, ◌↔◌, refl, ap, ◌∙◌, arith,
}
use kason.Strings.Loop.{string_is_valid}
use kason.Parse.Tokens.{Slice, slice_bytes, close_string, scan_string}
use kason.Parse.Grammar.{IsString, quoted}
use kason.Parse.Strings.{
  scan_string-IsString, find_quote, string_loop-find_quote, slice_bytes-append,
}
use kason.Parse.Run.{find_quote-Run, valid-Run}

find_quote-mark : (n : Bool) (t : Bytes) → find_quote false n (b'"' ∷ t) ≡ some (n, b'"' ∷ t)
unfolding find_quote
find_quote-mark n t = refl

close_valid :
    (s : Bytes) (m : Bool) (c : ℕ) (t : Bytes)
    → string_is_valid (some (slice_bytes (record { begin = s; behind = c ∷ t }))) ≡ true
    → close_string s (m, c ∷ t) ≡ some (record { begin = s; behind = c ∷ t }, t)
unfolding close_string
close_valid s m c t h = ground (arith, h)

-- Every valid string is read, whatever follows its closing mark.
pub scan_string-valid :
    (body t : Bytes)
    → string_is_valid (some body) ≡ true
    → scan_string (body ++ (b'"' ∷ t))
      ≡ some (record { begin = body ++ (b'"' ∷ t); behind = b'"' ∷ t }, t)
unfolding scan_string
scan_string-valid body t h =
    let s = body ++ (b'"' ∷ t) in
    let (m, e) = find_quote-Run (b'"' ∷ t) false (valid-Run body h) in
    let loop = string_loop-find_quote (length s + 1) false false s (omega arith) in
    let found = loop ∙ e ∙ find_quote-mark m t in
    let valid : string_is_valid (some (slice_bytes (record { begin = s; behind = b'"' ∷ t })))
        ≡ true =
      rw (slice_bytes-append body (b'"' ∷ t)) h in
    ap (λ o. o >>= close_string s) found ∙ close_valid s m b'"' t valid

scan_string-total :
    {s t : Bytes} → IsString (b'"' ∷ s) t → (p : Slice) × (scan_string s ≡ some (p, t))
scan_string-total (quoted body {t} valid) =
    (record { begin = body ++ (b'"' ∷ t); behind = b'"' ∷ t }, scan_string-valid body t valid)

-- The string scanner reads a range up to `t` exactly when a JSON string stands in front of `t`: it
-- finds the closing mark, and refuses contents that are no valid string.
pub scan_string_iff :
    (s t : Bytes) → ((p : Slice) × (scan_string s ≡ some (p, t))) ↔ IsString (b'"' ∷ s) t
scan_string_iff s t = (forward, scan_string-total)
  where
    forward : (p : Slice) × (scan_string s ≡ some (p, t)) → IsString (b'"' ∷ s) t
    forward (p, h) = (scan_string-IsString s {p = p} {t = t} h).0
