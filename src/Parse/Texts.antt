-- ===== src/Parse/Texts.antt =====
-- What `kason_parse_range` and `kason_parse` of kason.c promise: they end, and accept JSON texts.
use kason.Base.{
  ◌+◌, ◌≤◌, true, none, some, [], ◌∷◌, Bytes, length, ◌≡◌, ◌≢◌, ◌⊎◌, ◌↔◌, inl, inr, refl, ap, sym,
  subst, arith, All, ◌++◌, ◌∙◌, false,
}
use kason.Parse.Tokens.{skip_whitespace}
use kason.Parse.Events.{
  Action, break_off, Event, value_event, container_begin, container_end, Callback,
}
use kason.Parse.Scan.{scan_value, scan_start, scan_loop}
use kason.Parse.Frame.{array_kind, Scan, failed, stopped, reached, starved}
use kason.Parse.Range.{
  ParseResult, success, error, unfinished, scan_result, scan_root, scan_parse, parse_range,
  c_string, parse_text, parse,
}
use kason.Parse.Grammar.{Spaces, here, space, IsText, text}
use kason.Parse.Strings.{skip_whitespace-Spaces}
use kason.Parse.Sound.{scan_value-Derives, loop_sound}
use kason.Parse.Inversion.{then_scan-eq-reached}
use kason.Parse.Primitive.{Delimited}
use kason.Parse.Lengths.{length-Spaces}
use kason.Parse.Settled.{Breaks, Settled, stops, reaches, value-Settled, loop-Settled, then-Settled}
use kason.Parse.Notes.{noting, noting-Alike, noted, map-parse_range}
use kason.Parse.Heads.{value_head, solid_cases, skip_to}
use kason.Parse.Reach.{IsPolite, Polite, Reach, Reach-then, Reach-value}
use kason.Parse.Complete.{complete}

skip_to_end : {t : Bytes} → Spaces t [] → skip_whitespace t ≡ []
unfolding skip_whitespace
skip_to_end here = refl
skip_to_end (space p x) = rw p (skip_to_end x)

end_delimits : {t : Bytes} → Spaces t [] → Delimited t
end_delimits here = tt
end_delimits (space p x) = rw p refl

c_string-append : (s behind : Bytes) → All (λ c. c ≢ 0) s → c_string (s ++ (0 ∷ behind)) ≡ s
unfolding c_string
c_string-append [] behind h = refl
c_string-append (c ∷ s) behind h = ground (arith, c_string-append s behind h.1)

module _ {U : Type 0} (callback : Callback U) where
  root-Settled : (s : Bytes) (u : U) → Settled (some callback) (scan_root (some callback) s u)
  unfolding scan_root
  root-Settled s u =
      let fuel = length s + 1 in
      let loop = scan_loop (some callback) fuel in
      then-Settled (some callback) (scan_value (some callback) loop none true 0 s u)
        (λ t v. reached (skip_whitespace t) v)
        (value-Settled (some callback) loop fuel (loop-Settled (some callback) fuel)
          (loop_sound (some callback) fuel) none true 0 s u (omega arith))
        (λ t v e. reaches)

  root_sound : (s : Bytes) (u : U) {v : U} → scan_root (some callback) s u ≡ reached [] v → IsText s
  unfolding scan_root
  root_sound s u {v} h =
      let loop = scan_loop (some callback) (length s + 1) in
      let (t, w, value, end) =
        then_scan-eq-reached (scan_value (some callback) loop none true 0 s u)
          (λ t v. reached (skip_whitespace t) v) {t = []} {v = v} h in
      let x =
        scan_value-Derives (some callback) (length s + 1) none true 0 s u {t = t} {v = w} value in
      let last : skip_whitespace t ≡ [] = cc end in
      text (skip_whitespace-Spaces s) x (subst (Spaces t) last (skip_whitespace-Spaces t))

  result_cases :
      (m : Scan U) (d : ParseResult × U) {v : U}
      → Settled (some callback) m
      → scan_result m d ≡ (success, v)
      → (m ≡ reached [] v) ⊎ Breaks (some callback) v
  unfolding scan_result
  result_cases (failed u) d x h = absurd (cc h)
  result_cases (stopped u) d (stops b) h = inr (subst (Breaks (some callback)) (ap (λ r. r.1) h) b)
  result_cases (reached [] u) d x h = inl (cc h)
  result_cases (reached (c ∷ s) u) d x h = absurd (cc h)
  result_cases starved d x h = elim x [ ]

  result_ends :
      (m : Scan U) (d : ParseResult × U)
      → Settled (some callback) m
      → (scan_result m d).0 ≢ unfinished
  unfolding scan_result
  result_ends (failed u) d x h = cc h
  result_ends (stopped u) d x h = cc h
  result_ends (reached [] u) d x h = cc h
  result_ends (reached (c ∷ s) u) d x h = cc h
  result_ends starved d x h = elim x [ ]

  -- The parser returns, on every range and with every callback: the fuel of the model is enough.
  pub parse_range-returns :
      (s : Bytes) (u : U) → (parse_range (some callback) (some s) u).0 ≢ unfinished
  unfolding parse_range scan_parse
  parse_range-returns s u =
      result_ends (scan_root (some callback) s u) (unfinished, u) (root-Settled s u)

  IsText-or_break :
      (s : Bytes) (u : U) {v : U}
      → parse_range (some callback) (some s) u ≡ (success, v)
      → IsText s ⊎ Breaks (some callback) v
  unfolding parse_range scan_parse
  IsText-or_break s u {v} h =
      elim (result_cases (scan_root (some callback) s u) (unfinished, u) {v = v} (root-Settled s u)
        h) [ inl e ↦ inl (root_sound s u {v = v} e) | inr b ↦ inr b ]

  root_complete :
      (s : Bytes) (u : U)
      → Polite (some callback)
      → IsText s
      → Reach (scan_root (some callback) s u) []
  unfolding scan_root
  root_complete s u polite (text {r} {t} x y z) =
      let fuel = length s + 1 in
      let loop = scan_loop (some callback) fuel in
      let (c, b, head, solid) = value_head y in
      let (plain, _) = solid_cases c array_kind solid in
      let skipped = skip_to c b plain (subst (Spaces s) head x) in
      let room : length r ≤ fuel = omega (arith, length-Spaces x) in
      let start =
        complete (some callback) polite y fuel none true u (omega arith) (end_delimits z) room in
      Reach-then (scan_value (some callback) loop none true 0 s u)
        (λ t v. reached (skip_whitespace t) v) {r = t} {t = []}
        (Reach-value (some callback) polite loop none true 0 c b s u {t = t} (omega arith) skipped
          (rw head at start))
        (λ v. (v, ap (λ e. reached e v) (skip_to_end z)))

  break_impolite : (event : Event) (a : Action) → IsPolite event a → a ≢ break_off
  break_impolite value_event a h e = cc (h, e)
  break_impolite container_end a h e = cc (h, e)
  break_impolite container_begin a (inl h) e = cc (h, e)
  break_impolite container_begin a (inr (inl h)) e = cc (h, e)
  break_impolite container_begin a (inr (inr h)) e = cc (h, e)

  result_reached : (m : Scan U) (d : ParseResult × U) → Reach m [] → (scan_result m d).0 ≡ success
  unfolding scan_result
  result_reached m d (v, e) = rw e refl

  -- With a callback that enters, captures or skips every container and continues otherwise, the
  -- parser succeeds exactly on the JSON texts of at most the depth KaSON_MAX_NESTING.
  pub parse_range_success_iff :
      (s : Bytes) (u : U)
      → Polite (some callback)
      → ((parse_range (some callback) (some s) u).0 ≡ success) ↔ IsText s
  parse_range_success_iff s u polite = (forward, backward)
    where
      forward : (parse_range (some callback) (some s) u).0 ≡ success → IsText s
      forward h =
          elim (IsText-or_break s u {v = (parse_range (some callback) (some s) u).1} (cc h)) [
            | inl x ↦ x
            | inr (key, event, count, v, e) ↦
                absurd (break_impolite event.event _ (polite key event count v) (ap (λ r. r.0) e))
          ]

      backward : IsText s → (parse_range (some callback) (some s) u).0 ≡ success
      backward x =
          unfold parse_range scan_parse in
          result_reached (scan_root (some callback) s u) (unfinished, u)
            (root_complete s u polite x)

  empty_error : (u : U) → parse_range (some callback) (some []) u ≡ (error, u)
  unfolding parse_range scan_parse scan_root scan_value scan_start skip_whitespace scan_result
  empty_error u = refl

  parse-parse_range :
      (buffer : Bytes) (u : U)
      → parse (some callback) (some buffer) u
        ≡ parse_range (some callback) (some (c_string buffer)) u
  parse-parse_range buffer u = at (c_string buffer) refl
    where
      at :
          (s : Bytes)
          → c_string buffer ≡ s
          → parse (some callback) (some buffer) u
            ≡ parse_range (some callback) (some (c_string buffer)) u
      at [] e = unfold parse parse_text in rw e (sym (empty_error u))
      at (c ∷ s) e = unfold parse parse_text parse_range in rw e refl

  -- With a callback that enters, captures or skips every container and continues otherwise,
  -- `kason_parse` on a buffer that holds a text with no zero byte, a zero, and anything behind it,
  -- succeeds exactly if the text is a JSON text of at most the depth KaSON_MAX_NESTING.
  pub parse_success_iff :
      (s behind : Bytes) (u : U)
      → Polite (some callback)
      → All (λ c. c ≢ 0) s
      → ((parse (some callback) (some (s ++ (0 ∷ behind))) u).0 ≡ success) ↔ IsText s
  parse_success_iff s behind u polite solid =
      rw (parse-parse_range (s ++ (0 ∷ behind)) u, c_string-append s behind solid)
        (parse_range_success_iff s u polite)

-- Whatever its callback answers, the parser succeeds only on a JSON text of at most the depth
-- KaSON_MAX_NESTING, unless the callback has answered KaSON_ACTION_BREAK in this very run: the run
-- that notes such an answer beside the user data ends with the same result and user data, and with
-- the note made.
pub parse_range-success :
    {U : Type 0} (callback : Callback U) (s : Bytes) (u : U) {v : U}
    → parse_range (some callback) (some s) u ≡ (success, v)
    → IsText s ⊎ (parse_range (some (noting callback)) (some s) (u, false) ≡ (success, (v, true)))
parse_range-success {U} callback s u {v} h =
    let noted_run = parse_range (some (noting callback)) (some s) (u, false) in
    let same =
      map-parse_range (λ w. w.0) (noting callback) callback s (u, false) (noting-Alike callback)
      ∙ h in
    let ends : noted_run ≡ (success, (v, noted_run.1.1)) =
      ap (λ (r : ParseResult × U). (r.0, (r.1, noted_run.1.1))) same in
    elim (IsText-or_break (noting callback) s (u, false) {v = (v, noted_run.1.1)} ends) [
      | inl x ↦ inl x
      | inr b ↦ inr (ends ∙ ap (λ n. (success, (v, n))) (noted callback (v, noted_run.1.1) b))
    ]
