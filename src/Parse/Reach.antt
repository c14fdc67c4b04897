-- ===== src/Parse/Reach.antt =====
-- The steps of the range parser of kason.c on a JSON text, where its callback answers as kason.h asks.
use kason.Base.{
  ℕ, ◌≤◌, Bool, true, false, not, ◌&&◌, Option, some, ◌∷◌, ltb, ◌==◌, if◌then◌else◌, Bytes, ◌≡◌,
  ◌⊎◌, inr, refl, ap, sym, ◌∙◌, subst, arith, ==_iff,
}
use kason.Chars.{is_digit}
use kason.Parse.Tokens.{Slice, Token, skip_whitespace}
use kason.Parse.Events.{
  Action, enter, break_off, capture, skip, other, Event, value_event, container_begin,
  container_end, Data, Callback, scan_emit,
}
use kason.Parse.Scan.{
  emit_token, scan_primitive, close_container, open_container, with_action, scan_container,
  scan_start, scan_value,
}
use kason.Parse.Frame.{
  max_nesting, Kind, object_kind, array_kind, open_mark, close_mark, Scan, reached, Frame,
  then_scan, after_event, emitted, token_data, end_data, begin_data, end_count, is_skip, new_frame,
}
use kason.Parse.Grammar.{IsPrimitive}
use kason.Parse.Primitive.{Delimited, Reads-primitive}
use kason.Parse.Heads.{starts_primitive, primitive_head}

-- What kason.h asks of an answer: to a container that begins, to enter, capture or skip it; to other
-- events, to continue.
abbrev pub IsPolite : Event → Action → Type 0
IsPolite container_begin a = (a ≡ enter) ⊎ (a ≡ capture) ⊎ (a ≡ skip)
IsPolite value_event a = a ≡ enter
IsPolite container_end a = a ≡ enter

abbrev pub Polite : {U : Type 0} → Option (Callback U) → Type 0
Polite {U} callback =
    (key : Option Slice) (event : Data) (count : ℕ) (u : U)
    → IsPolite event.event (scan_emit callback key event count u).0

-- The scan comes to `t`.
abbrev pub Reach : {U : Type 0} → Scan U → Bytes → Type 0
Reach {U} m t = (v : U) × (m ≡ reached t v)

pub Reach-then :
    {U : Type 0} (m : Scan U) (k : Bytes → U → Scan U) {r t : Bytes}
    → Reach m r
    → ((v : U) → Reach (k r v) t)
    → Reach (then_scan m k) t
Reach-then m k {r} {t} (v, e) h = let (w, p) = h v in (w, rw e p)

pub after_enter :
    {U : Type 0} (t : Bytes) (a : Action × U) → a.0 ≡ enter → Reach (after_event t a) t
after_enter t (enter, u) h = (u, refl)
after_enter t (break_off, u) h = absurd (cc h)
after_enter t (capture, u) h = absurd (cc h)
after_enter t (skip, u) h = absurd (cc h)
after_enter t (other n, u) h = absurd (cc h)

pub emitted_enter :
    {U : Type 0} (b : Bool) (t : Bytes) (a : Action × U) (u : U)
    → a.0 ≡ enter
    → Reach (emitted b t a u) t
emitted_enter true t a u h = after_enter t a h
emitted_enter false t a u h = (u, refl)

pub comma_other : (k : Kind) → (b',' == close_mark k) ≡ false
comma_other object_kind = refl
comma_other array_kind = refl

pub if_false :
    {U : Type 0} {b : Bool} (x : Scan U) {y : Scan U} {t : Bytes}
    → b ≡ false
    → Reach y t
    → Reach (if b then x else y) t
if_false x e h = rw e h

module _ {U : Type 0} (callback : Option (Callback U)) (polite : Polite callback) where
  Reach-token :
      (key : Option Slice) (emit : Bool) (u : U) (tok : Token)
      → Reach (emit_token callback key emit u (some tok)) tok.cursor
  unfolding emit_token
  Reach-token key emit u tok = emitted_enter emit tok.cursor _ u (polite key (token_data tok) 1 u)

  pub Reach-primitive :
      (key : Option Slice) (emit : Bool) (u : U) {s t : Bytes}
      → IsPrimitive s t
      → Delimited t
      → Reach (scan_primitive callback key emit s u) t
  unfolding scan_primitive
  Reach-primitive key emit u x h =
      let (tok, read, cursor) = Reads-primitive x h in
      let (v, e) = Reach-token key emit u tok in (v, rw read (e ∙ ap (λ y. reached y v) cursor))

  pub Reach-close :
      (f : Frame) (n : ℕ) (closing t : Bytes) (u : U)
      → Reach (close_container callback f n closing t u) t
  unfolding close_container
  Reach-close f n closing t u =
      emitted_enter (f.emit && not (is_skip f.action)) t
        (scan_emit callback f.key (end_data f closing t) (end_count f.kind n) u) u
        (polite f.key (end_data f closing t) (end_count f.kind n) u)

  -- Where the container is closed at once.
  pub Reach-empty :
      (loop : Frame → ℕ → Bytes → U → Scan U) (f : Frame) (t : Bytes) (u : U)
      → Reach (open_container callback loop f (close_mark f.kind ∷ t) u) t
  unfolding open_container
  Reach-empty loop f t u =
      let p : (close_mark f.kind == close_mark f.kind) ≡ true = (==_iff _ _).1 refl in
      rw p (Reach-close f 0 (close_mark f.kind ∷ t) t u)

  pub Reach-filled :
      (loop : Frame → ℕ → Bytes → U → Scan U) (f : Frame) (c : ℕ) (s : Bytes) (u : U) {t : Bytes}
      → (c == close_mark f.kind) ≡ false
      → Reach (loop f 0 (c ∷ s) u) t
      → Reach (open_container callback loop f (c ∷ s) u) t
  unfolding open_container
  Reach-filled loop f c s u p h = rw p h

  -- Any polite answer to the beginning of a container.
  Reach-action :
      (loop : Frame → ℕ → Bytes → U → Scan U) (f : Frame) (s : Bytes) (a : Action × U) {t : Bytes}
      → IsPolite container_begin a.0
      → ((x : Action) (u : U)
          → Reach (open_container callback loop (record f { action = x }) (skip_whitespace s) u) t)
      → Reach (with_action callback loop f s a) t
  unfolding with_action
  Reach-action loop f s (enter, u) p h = h enter u
  Reach-action loop f s (capture, u) p h = h capture u
  Reach-action loop f s (skip, u) p h = h skip u
  Reach-action loop f s (break_off, u) p h = absurd (ground (arith, p))
  Reach-action loop f s (other n, u) p h = absurd (ground (arith, p))

  pub Reach-container :
      (loop : Frame → ℕ → Bytes → U → Scan U) (kind : Kind) (key : Option Slice) (emit : Bool)
      (d c : ℕ) (s : Bytes) (u : U) {t : Bytes}
      → ((f : Frame) (v : U)
          → f.kind ≡ kind
          → f.depth ≡ d
          → Reach (open_container callback loop f (skip_whitespace s) v) t)
      → Reach (scan_container callback loop kind key emit d c s u) t
  unfolding scan_container
  Reach-container loop kind key true d c s u h =
      Reach-action loop (new_frame kind key true d (c ∷ s)) s _
        (polite key (begin_data kind (c ∷ s)) 0 u)
        (λ x v.
          h (record { kind = kind; opening = c ∷ s; key = key; emit = true; action = x; depth = d })
            v refl refl)
  Reach-container loop kind key false d c s u h =
      Reach-action loop (new_frame kind key false d (c ∷ s)) s (skip, u) (inr (inr refl))
        (λ x v.
          h
            (record {
              kind = kind;
              opening = c ∷ s;
              key = key;
              emit = false;
              action = x;
              depth = d;
            })
            v refl refl)

  start_at :
      (loop : Frame → ℕ → Bytes → U → Scan U) (key : Option Slice) (emit : Bool) (d : ℕ) (u : U)
      (c : ℕ) (r : Bytes) {t : Bytes}
      → starts_primitive c ≡ true
      → Reach (scan_primitive callback key emit (c ∷ r) u) t
      → Reach (scan_start callback loop key emit d (c ∷ r) u) t
  unfolding scan_start is_digit
  start_at loop key emit d u c r start z =
      let p : (c == b'{') ≡ false = ground (arith, start) in
      let q : (c == b'[') ≡ false = ground (arith, start) in rw (p, q) z

  pub Reach-start-primitive :
      (loop : Frame → ℕ → Bytes → U → Scan U) (key : Option Slice) (emit : Bool) (d : ℕ) (u : U)
      {s t : Bytes}
      → IsPrimitive s t
      → Delimited t
      → Reach (scan_start callback loop key emit d s u) t
  Reach-start-primitive loop key emit d u {s} {t} x h =
      let (c, r, e, start) = primitive_head x in
      let y : IsPrimitive (c ∷ r) t = subst (λ z. IsPrimitive z t) e x in
      subst (λ z. Reach (scan_start callback loop key emit d z u) t) (sym e)
        (start_at loop key emit d u c r start (Reach-primitive key emit u y h))

  pub Reach-start-container :
      (loop : Frame → ℕ → Bytes → U → Scan U) (kind : Kind) (key : Option Slice) (emit : Bool)
      (d : ℕ) (s : Bytes) (u : U) {t : Bytes}
      → Reach (scan_container callback loop kind key emit d (open_mark kind) s u) t
      → Reach (scan_start callback loop key emit d (open_mark kind ∷ s) u) t
  unfolding scan_start
  Reach-start-container loop object_kind key emit d s u h = h
  Reach-start-container loop array_kind key emit d s u h = h

  -- A value at its first byte: by the loop's way to it, or as a child.
  pub Reach-value :
      (loop : Frame → ℕ → Bytes → U → Scan U) (key : Option Slice) (emit : Bool) (d c : ℕ)
      (r s : Bytes) (u : U) {t : Bytes}
      → d ≤ max_nesting
      → skip_whitespace s ≡ c ∷ r
      → Reach (scan_start callback loop key emit d (c ∷ r) u) t
      → Reach (scan_value callback loop key emit d s u) t
  unfolding scan_value
  Reach-value loop key emit d c r s u deep e h =
      let p : ltb max_nesting d ≡ false = ground (arith, deep) in rw (p, e) h
