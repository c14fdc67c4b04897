-- ===== src/Parse/Notes.antt =====
-- The scan of kason.c hands `user_data` to the callback and on: what a callback notes there beside
-- its own state changes nothing else.
use kason.Base.{
  ℕ, zero, suc, ◌+◌, Bool, true, false, not, ◌&&◌, ◌||◌, Option, none, some, [], ◌∷◌, ltb, ◌==◌,
  if◌then◌else◌, Bytes, length, ◌≡◌, refl, sym, ap, ◌∙◌,
}
use kason.Parse.Tokens.{Slice, Token, skip_whitespace, scan_token}
use kason.Parse.Events.{Action, enter, break_off, capture, skip, other, Data, Callback, scan_emit}
use kason.Parse.Scan.{
  member_key, emit_token, scan_primitive, close_container, open_container, with_action,
  scan_container, scan_start, scan_value, scan_child, next_element, after_child, scan_member,
  scan_round, scan_loop,
}
use kason.Parse.Frame.{
  max_nesting, Kind, object_kind, array_kind, close_mark, Scan, failed, stopped, reached, starved,
  Frame, then_scan, after_event, emitted, token_data, end_data, begin_data, end_count, is_skip,
  is_enter, new_frame,
}
use kason.Parse.Settled.{Breaks}
use kason.Parse.Range.{ParseResult, scan_result, scan_root, scan_parse, parse_range}

module _ {U V : Type 0} (project : V → U) where
  abbrev map_answer : Action × V → Action × U
  map_answer (a, v) = (a, project v)

  abbrev map_scan : Scan V → Scan U
  map_scan (failed v) = failed (project v)
  map_scan (stopped v) = stopped (project v)
  map_scan (reached t v) = reached t (project v)
  map_scan starved = starved

  abbrev pub map_result : ParseResult × V → ParseResult × U
  map_result (r, v) = (r, project v)

  map_scan-if :
      (b : Bool) (x y : Scan V) (x' y' : Scan U)
      → map_scan x ≡ x'
      → map_scan y ≡ y'
      → map_scan (if b then x else y) ≡ (if b then x' else y')
  map_scan-if true x y x' y' p q = p
  map_scan-if false x y x' y' p q = q

  map-after_event :
      (t : Bytes) (a : Action × V) → map_scan (after_event t a) ≡ after_event t (map_answer a)
  map-after_event t (enter, v) = refl
  map-after_event t (break_off, v) = refl
  map-after_event t (capture, v) = refl
  map-after_event t (skip, v) = refl
  map-after_event t (other n, v) = refl

  map-emitted :
      (b : Bool) (t : Bytes) (a : Action × V) (a' : Action × U) (v : V)
      → map_answer a ≡ a'
      → map_scan (emitted b t a v) ≡ emitted b t a' (project v)
  map-emitted true t a a' v e = rw (← e) (map-after_event t a)
  map-emitted false t a a' v e = refl

  map-then_scan :
      (m : Scan V) (m' : Scan U) (k : Bytes → V → Scan V) (k' : Bytes → U → Scan U)
      → map_scan m ≡ m'
      → ((t : Bytes) (v : V) → map_scan (k t v) ≡ k' t (project v))
      → map_scan (then_scan m k) ≡ then_scan m' k'
  map-then_scan (failed v) m' k k' e h = rw (← e) refl
  map-then_scan (stopped v) m' k k' e h = rw (← e) refl
  map-then_scan (reached t v) m' k k' e h = rw (← e) (h t v)
  map-then_scan starved m' k k' e h = rw (← e) refl

  -- The callbacks answer alike, but for what one of them keeps besides.
  abbrev pub Alike : Option (Callback V) → Option (Callback U) → Type 0
  Alike kept callback =
      (key : Option Slice) (event : Data) (count : ℕ) (v : V)
      → map_answer (scan_emit kept key event count v)
        ≡ scan_emit callback key event count (project v)

  module _ (kept : Option (Callback V)) (callback : Option (Callback U))
      (alike : Alike kept callback) where
    map-scan_primitive :
        (key : Option Slice) (emit : Bool) (s : Bytes) (v : V)
        → map_scan (scan_primitive kept key emit s v)
          ≡ scan_primitive callback key emit s (project v)
    unfolding scan_primitive emit_token
    map-scan_primitive key emit s v = at (scan_token s)
      where
        at :
            (o : Option Token)
            → map_scan (emit_token kept key emit v o) ≡ emit_token callback key emit (project v) o
        at none = refl
        at (some token) = map-emitted emit token.cursor _ _ v (alike key (token_data token) 1 v)

    map-close_container :
        (f : Frame) (n : ℕ) (closing rest : Bytes) (v : V)
        → map_scan (close_container kept f n closing rest v)
          ≡ close_container callback f n closing rest (project v)
    unfolding close_container
    map-close_container f n closing rest v =
        map-emitted (f.emit && not (is_skip f.action)) rest _ _ v
          (alike f.key (end_data f closing rest) (end_count f.kind n) v)

    module _ (loop : Frame → ℕ → Bytes → V → Scan V) (loop' : Frame → ℕ → Bytes → U → Scan U)
        (loops : (f : Frame) (n : ℕ) (s : Bytes) (v : V)
          → map_scan (loop f n s v) ≡ loop' f n s (project v)) where
      map-open_container :
          (f : Frame) (s : Bytes) (v : V)
          → map_scan (open_container kept loop f s v)
            ≡ open_container callback loop' f s (project v)
      unfolding open_container
      map-open_container f [] v = refl
      map-open_container f (c ∷ s) v =
          map_scan-if (c == close_mark f.kind) _ _ _ _ (map-close_container f 0 (c ∷ s) s v)
            (loops f 0 (c ∷ s) v)

      map-with_action :
          (f : Frame) (s : Bytes) (a : Action × V) (a' : Action × U)
          → map_answer a ≡ a'
          → map_scan (with_action kept loop f s a) ≡ with_action callback loop' f s a'
      unfolding with_action
      map-with_action f s (break_off, v) a' e = rw (← e) refl
      map-with_action f s (other n, v) a' e = rw (← e) refl
      map-with_action f s (enter, v) a' e =
          rw (← e) (map-open_container (record f { action = enter }) (skip_whitespace s) v)
      map-with_action f s (capture, v) a' e =
          rw (← e) (map-open_container (record f { action = capture }) (skip_whitespace s) v)
      map-with_action f s (skip, v) a' e =
          rw (← e) (map-open_container (record f { action = skip }) (skip_whitespace s) v)

      map-scan_container :
          (kind : Kind) (key : Option Slice) (emit : Bool) (d c : ℕ) (s : Bytes) (v : V)
          → map_scan (scan_container kept loop kind key emit d c s v)
            ≡ scan_container callback loop' kind key emit d c s (project v)
      unfolding scan_container
      map-scan_container kind key true d c s v =
          map-with_action (new_frame kind key true d (c ∷ s)) s _ _
            (alike key (begin_data kind (c ∷ s)) 0 v)
      map-scan_container kind key false d c s v =
          map-with_action (new_frame kind key false d (c ∷ s)) s (skip, v) _ refl

      map-scan_start :
          (key : Option Slice) (emit : Bool) (d : ℕ) (s : Bytes) (v : V)
          → map_scan (scan_start kept loop key emit d s v)
            ≡ scan_start callback loop' key emit d s (project v)
      unfolding scan_start
      map-scan_start key emit d [] v = refl
      map-scan_start key emit d (c ∷ s) v =
          map_scan-if (c == b'{') _ _ _ _ (map-scan_container object_kind key emit d c s v) (
            map_scan-if (c == b'[') _ _ _ _ (map-scan_container array_kind key emit d c s v)
              (map-scan_primitive key emit (c ∷ s) v))

      map-scan_value :
          (key : Option Slice) (emit : Bool) (d : ℕ) (s : Bytes) (v : V)
          → map_scan (scan_value kept loop key emit d s v)
            ≡ scan_value callback loop' key emit d s (project v)
      unfolding scan_value
      map-scan_value key emit d s v =
          map_scan-if (ltb max_nesting d) _ _ _ _ refl
            (map-scan_start key emit d (skip_whitespace s) v)

      map-scan_child :
          (f : Frame) (key : Option Slice) (s : Bytes) (v : V)
          → map_scan (scan_child kept loop f key s v)
            ≡ scan_child callback loop' f key s (project v)
      unfolding scan_child
      map-scan_child f key [] v = refl
      map-scan_child f key (c ∷ s) v =
          let emit = f.emit && is_enter f.action in
          map_scan-if (ltb max_nesting (f.depth + 1)) _ _ _ _ refl (
            map_scan-if (c == b'{' || c == b'[') _ _ _ _
              (map-scan_value key emit (f.depth + 1) (c ∷ s) v)
              (map-scan_primitive key emit (c ∷ s) v))

      map-next_element :
          (f : Frame) (n : ℕ) (s : Bytes) (v : V)
          → map_scan (next_element kept loop f n s v)
            ≡ next_element callback loop' f n s (project v)
      unfolding next_element
      map-next_element f n [] v = refl
      map-next_element f n (c ∷ s) v =
          map_scan-if (c == close_mark f.kind) _ _ _ _ refl (loops f n (c ∷ s) v)

      map-after_child :
          (f : Frame) (n : ℕ) (s : Bytes) (v : V)
          → map_scan (after_child kept loop f n s v) ≡ after_child callback loop' f n s (project v)
      unfolding after_child
      map-after_child f n [] v = refl
      map-after_child f n (c ∷ s) v =
          map_scan-if (c == close_mark f.kind) _ _ _ _ (map-close_container f n (c ∷ s) s v)
            (map_scan-if (c == b',') _ _ _ _ (map-next_element f n (skip_whitespace s) v) refl)

      map-scan_member :
          (f : Frame) (n : ℕ) (v : V) (o : Option (Option Slice × Bytes))
          → map_scan (scan_member kept loop f n v o) ≡ scan_member callback loop' f n (project v) o
      unfolding scan_member
      map-scan_member f n v none = refl
      map-scan_member f n v (some (key, r)) =
          map-then_scan (scan_child kept loop f key r v) _ _ _ (map-scan_child f key r v)
            (λ t w. map-after_child f (n + 1) (skip_whitespace t) w)

    map-scan_loop :
        (fuel : ℕ) (f : Frame) (n : ℕ) (s : Bytes) (v : V)
        → map_scan (scan_loop kept fuel f n s v) ≡ scan_loop callback fuel f n s (project v)
    unfolding scan_loop scan_round
    map-scan_loop zero f n s v = refl
    map-scan_loop (suc fuel) f n [] v = refl
    map-scan_loop (suc fuel) f n (c ∷ s) v =
        map-scan_member (scan_loop kept fuel) (scan_loop callback fuel) (map-scan_loop fuel) f n v
          (member_key f.kind (c ∷ s))

    map-scan_root :
        (s : Bytes) (v : V) → map_scan (scan_root kept s v) ≡ scan_root callback s (project v)
    unfolding scan_root
    map-scan_root s v =
        let fuel = length s + 1 in
        map-then_scan (scan_value kept (scan_loop kept fuel) none true 0 s v) _ _ _
          (map-scan_value (scan_loop kept fuel) (scan_loop callback fuel) (map-scan_loop fuel) none
            true 0 s v)
          (λ t w. refl)

  map-scan_result :
      (m : Scan V) (d : ParseResult × V)
      → map_result (scan_result m d) ≡ scan_result (map_scan m) (map_result d)
  unfolding scan_result
  map-scan_result (failed v) d = refl
  map-scan_result (stopped v) d = refl
  map-scan_result (reached [] v) d = refl
  map-scan_result (reached (c ∷ s) v) d = refl
  map-scan_result starved d = refl

  pub map-parse_range :
      (kept : Callback V) (callback : Callback U) (s : Bytes) (v : V)
      → Alike (some kept) (some callback)
      → map_result (parse_range (some kept) (some s) v)
        ≡ parse_range (some callback) (some s) (project v)
  unfolding parse_range scan_parse
  map-parse_range kept callback s v alike =
      let e = map-scan_root (some kept) (some callback) alike s v in
      rw (← e) (map-scan_result (scan_root (some kept) s v) _)

abbrev is_break : Action → Bool
is_break break_off = true
is_break _ = false

-- The callback with a note, beside its own state, of whether it has answered KaSON_ACTION_BREAK.
abbrev pub noting : {U : Type 0} → Callback U → Callback (U × Bool)
noting callback key event count (u, broken) =
    let (answer, v) = callback key event count u in (answer, (v, broken || is_break answer))

pub noting-Alike :
    {U : Type 0} (callback : Callback U)
    → Alike (λ (w : U × Bool). w.0) (some (noting callback)) (some callback)
unfolding scan_emit
noting-Alike callback key event count (u, broken) = refl

or_true : (b : Bool) → (b || true) ≡ true
or_true true = refl
or_true false = refl

-- Where the callback answers KaSON_ACTION_BREAK, the note says so.
pub noted :
    {U : Type 0} (callback : Callback U) (w : U × Bool)
    → Breaks (some (noting callback)) w
    → w.1 ≡ true
unfolding scan_emit
noted callback w (key, event, count, (u, broken), e) =
    let (answer, v) = callback key event count u in
    let broke : answer ≡ break_off = ap (λ r. r.0) e in
    sym (ap (λ r. r.1.1) e) ∙ rw broke (or_true broken)
