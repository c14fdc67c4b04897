-- ===== src/Parse/Sound.antt =====
-- What the range parser of kason.c accepts is JSON, whatever its callback answers.
use kason.Base.{
  ℕ, zero, suc, ◌+◌, ◌<◌, Bool, not, ◌&&◌, ◌||◌, Option, none, some, [], ◌∷◌, ltb, ◌==◌,
  if◌then◌else◌, Bytes, ◌≡◌, inl, inr, refl, subst, arith, Bool-cases, ==_iff,
}
use kason.Parse.Tokens.{Slice, skip_whitespace, scan_token}
use kason.Parse.Events.{Action, enter, break_off, capture, skip, other, Callback, scan_emit}
use kason.Parse.Scan.{
  member_key, scan_primitive, close_container, open_container, with_action, scan_container,
  scan_start, scan_value, scan_child, next_element, after_child, scan_member, scan_round, scan_loop,
}
use kason.Parse.Frame.{
  max_nesting, Kind, object_kind, array_kind, close_mark, Scan, reached, Frame, end_data, end_count,
  is_skip, is_enter, new_frame, begin_data,
}
use kason.Parse.Grammar.{
  Spaces, IsPrimitive, value_part, contents, elements, element, Derives, primitive, container,
  empty, filled, last, next,
}
use kason.Parse.Strings.{skip_whitespace-Spaces}
use kason.Parse.Primitive.{scan_token-IsPrimitive}
use kason.Parse.Inversion.{
  then_scan-eq-reached, emitted-eq-reached, member_element, mark_kept, child_cases,
  token_eq_reached,
}

-- What the loop reads is a list of elements.
abbrev pub SoundLoop : {U : Type 0} → (Frame → ℕ → Bytes → U → Scan U) → Type 0
SoundLoop {U} loop =
    (f : Frame) (n : ℕ) (s : Bytes) (u : U) (t : Bytes) (v : U)
    → loop f n s u ≡ reached t v
    → (f.depth < max_nesting) × Derives (elements f.kind) f.depth s t

-- Where the loop is sound, so are a value and a round.
module _ {U : Type 0} (callback : Option (Callback U)) where
  IsPrimitive-sound :
      (key : Option Slice) (emit : Bool) (s : Bytes) (u : U) {t : Bytes} {v : U}
      → scan_primitive callback key emit s u ≡ reached t v
      → IsPrimitive s t
  unfolding scan_primitive
  IsPrimitive-sound key emit s u {t} {v} h =
      let (tok, e, cursor) =
        token_eq_reached callback key emit u (scan_token s) {t = t} {v = v} h in
      subst (IsPrimitive s) cursor (scan_token-IsPrimitive s {tok = tok} e)

  close_sound :
      (f : Frame) (n : ℕ) (closing rest : Bytes) (u : U) {t : Bytes} {v : U}
      → close_container callback f n closing rest u ≡ reached t v
      → rest ≡ t
  unfolding close_container
  close_sound f n closing rest u {t} {v} h =
      emitted-eq-reached (f.emit && not (is_skip f.action)) rest
        (scan_emit callback f.key (end_data f closing rest) (end_count f.kind n) u) u {t = t}
        {v = v} h

  module _ (loop : Frame → ℕ → Bytes → U → Scan U) (sound : SoundLoop loop) where
    contents_sound :
        (f : Frame) (s : Bytes) (u : U) {t : Bytes} {v : U} {r : Bytes}
        → skip_whitespace s ≡ r
        → open_container callback loop f r u ≡ reached t v
        → Derives (contents f.kind) f.depth s t
    unfolding open_container
    contents_sound f s u {r = []} e h = absurd (cc h)
    contents_sound f s u {t} {v} {r = c ∷ r} e h = elim (Bool-cases (c == close_mark f.kind)) [
      | inl p ↦
          let end = close_sound f 0 (c ∷ r) r u {t = t} {v = v} (rw p at h) in
          let spaces : Spaces s (c ∷ r) = subst (Spaces s) e (skip_whitespace-Spaces s) in
          let mark : c ∷ r ≡ close_mark f.kind ∷ t = cc ((==_iff c _).0 p, end) in
          empty (subst (Spaces s) mark spaces)
      | inr p ↦
          let (deep, x) = sound f 0 (c ∷ r) u t v (rw p at h) in
          filled deep (subst (Spaces s) e (skip_whitespace-Spaces s)) x
    ]

    action_sound :
        (f : Frame) (s : Bytes) (a : Action × U) {t : Bytes} {v : U}
        → with_action callback loop f s a ≡ reached t v
        → Derives (contents f.kind) f.depth s t
    unfolding with_action
    action_sound f s (break_off, u) h = absurd (cc h)
    action_sound f s (other n, u) h = absurd (cc h)
    action_sound f s (enter, u) {t} {v} h =
        contents_sound (record f { action = enter }) s u {t = t} {v = v} refl h
    action_sound f s (capture, u) {t} {v} h =
        contents_sound (record f { action = capture }) s u {t = t} {v = v} refl h
    action_sound f s (skip, u) {t} {v} h =
        contents_sound (record f { action = skip }) s u {t = t} {v = v} refl h

    container_sound :
        (kind : Kind) (key : Option Slice) (emit : Bool) (d c : ℕ) (s : Bytes) (u : U) {t : Bytes}
        {v : U}
        → scan_container callback loop kind key emit d c s u ≡ reached t v
        → Derives (contents kind) d s t
    unfolding scan_container
    container_sound kind key emit d c s u {t} {v} h =
        action_sound (new_frame kind key emit d (c ∷ s)) s
          (if emit then scan_emit callback key (begin_data kind (c ∷ s)) 0 u else (skip, u)) {t = t}
          {v = v} h

    start_sound :
        (key : Option Slice) (emit : Bool) (d : ℕ) (s : Bytes) (u : U) {t : Bytes} {v : U}
        → scan_start callback loop key emit d s u ≡ reached t v
        → Derives value_part d s t
    unfolding scan_start
    start_sound key emit d [] u h = absurd (cc h)
    start_sound key emit d (c ∷ s) u {t} {v} h = elim (Bool-cases (c == b'{')) [
      | inl p ↦
          let x = container_sound object_kind key emit d c s u {t = t} {v = v} (rw p at h) in
          let same : b'{' ∷ s ≡ c ∷ s = cc ((==_iff c b'{').0 p) in
          subst (λ y. Derives value_part d y t) same (container x)
      | inr p ↦ elim (Bool-cases (c == b'[')) [
        | inl q ↦
            let x = container_sound array_kind key emit d c s u {t = t} {v = v} (rw (p, q) at h) in
            let same : b'[' ∷ s ≡ c ∷ s = cc ((==_iff c b'[').0 q) in
            subst (λ y. Derives value_part d y t) same (container x)
        | inr q ↦ primitive (IsPrimitive-sound key emit (c ∷ s) u {t = t} {v = v} (rw (p, q) at h))
      ]
    ]

    -- The white space in front of a value is part of the derivation where the value stands.
    value_sound :
        (key : Option Slice) (emit : Bool) (d : ℕ) (s : Bytes) (u : U) {t : Bytes} {v : U}
        → scan_value callback loop key emit d s u ≡ reached t v
        → Derives value_part d (skip_whitespace s) t
    unfolding scan_value
    value_sound key emit d s u {t} {v} h = elim (Bool-cases (ltb max_nesting d)) [
      | inl p ↦ absurd (cc (rw p at h))
      | inr p ↦ start_sound key emit d (skip_whitespace s) u {t = t} {v = v} (rw p at h)
    ]

    pub child_sound :
        (f : Frame) (key : Option Slice) (s : Bytes) (u : U) {t : Bytes} {v : U}
        → scan_child callback loop f key s u ≡ reached t v
        → (f.depth < max_nesting) × Derives value_part (f.depth + 1) s t
    unfolding scan_child
    child_sound f key [] u h = absurd (cc h)
    child_sound f key (c ∷ s) u {t} {v} h =
        let emit = f.emit && is_enter f.action in
        let (shallow, cases) =
          child_cases (ltb max_nesting (f.depth + 1)) (c == b'{' || c == b'[') u
            (scan_value callback loop key emit (f.depth + 1) (c ∷ s) u)
            (scan_primitive callback key emit (c ∷ s) u) {t = t} {v = v} h in
        (
          ground (arith, shallow),
          elim cases [
            | inl (q, x) ↦
                subst (λ y. Derives value_part (f.depth + 1) y t) (mark_kept c s q)
                  (value_sound key emit (f.depth + 1) (c ∷ s) u {t = t} {v = v} x)
            | inr x ↦ primitive (IsPrimitive-sound key emit (c ∷ s) u {t = t} {v = v} x)
          ],
        )

    next_sound :
        (f : Frame) (n : ℕ) (s : Bytes) (u : U) {t : Bytes} {v : U}
        → next_element callback loop f n s u ≡ reached t v
        → (f.depth < max_nesting) × Derives (elements f.kind) f.depth s t
    unfolding next_element
    next_sound f n [] u h = absurd (cc h)
    next_sound f n (c ∷ s) u {t} {v} h = elim (Bool-cases (c == close_mark f.kind)) [
      | inl p ↦ absurd (cc (rw p at h))
      | inr p ↦ sound f n (c ∷ s) u t v (rw p at h)
    ]

    after_sound :
        (f : Frame) (n : ℕ) (s r a : Bytes) (u : U) {t : Bytes} {v : U}
        → Derives (element f.kind) f.depth a s
        → Spaces s r
        → after_child callback loop f n r u ≡ reached t v
        → Derives (elements f.kind) f.depth a t
    unfolding after_child
    after_sound f n s [] a u x spaces h = absurd (cc h)
    after_sound f n s (c ∷ r) a u {t} {v} x spaces h = elim (Bool-cases (c == close_mark f.kind)) [
      | inl p ↦
          let end = close_sound f n (c ∷ r) r u {t = t} {v = v} (rw p at h) in
          let mark : c ∷ r ≡ close_mark f.kind ∷ t = cc ((==_iff c _).0 p, end) in
          last x (subst (Spaces s) mark spaces)
      | inr p ↦ elim (Bool-cases (c == b',')) [
        | inl q ↦
            let (_, y) = next_sound f n (skip_whitespace r) u {t = t} {v = v} (rw (p, q) at h) in
            let mark : c ∷ r ≡ b',' ∷ r = cc ((==_iff c b',').0 q) in
            next x (subst (Spaces s) mark spaces) (skip_whitespace-Spaces r) y
        | inr q ↦ absurd (cc (rw (p, q) at h))
      ]
    ]

    member_sound :
        (f : Frame) (n : ℕ) (s : Bytes) (u : U) (o : Option (Option Slice × Bytes)) {t : Bytes}
        {v : U}
        → member_key f.kind s ≡ o
        → scan_member callback loop f n u o ≡ reached t v
        → (f.depth < max_nesting) × Derives (elements f.kind) f.depth s t
    unfolding scan_member
    member_sound f n s u none e h = absurd (cc h)
    member_sound f n s u (some (key, r)) {t} {v} e h =
        let (a, w, child, after) =
          then_scan-eq-reached (scan_child callback loop f key r u) _ {t = t} {v = v} h in
        let (deep, x) = child_sound f key r u {t = a} {v = w} child in
        let y = member_element f.kind f.depth s {k = key} {r = r} {t = a} e x in
        (
          deep,
          after_sound f (n + 1) a (skip_whitespace a) s w {t = t} {v = v} y
              (skip_whitespace-Spaces a) after,
        )

  pub loop_sound : (fuel : ℕ) → SoundLoop (scan_loop callback fuel)
  unfolding scan_loop scan_round
  loop_sound zero f n s u t v h = absurd (cc h)
  loop_sound (suc fuel) f n [] u t v h = absurd (cc h)
  loop_sound (suc fuel) f n (c ∷ s) u t v h =
      member_sound (scan_loop callback fuel) (loop_sound fuel) f n (c ∷ s) u
        (member_key f.kind (c ∷ s)) {t = t} {v = v} refl h

  -- A scanned value is a value of the grammar, on any fuel.
  pub scan_value-Derives :
      (fuel : ℕ) (key : Option Slice) (emit : Bool) (d : ℕ) (s : Bytes) (u : U) {t : Bytes} {v : U}
      → scan_value callback (scan_loop callback fuel) key emit d s u ≡ reached t v
      → Derives value_part d (skip_whitespace s) t
  scan_value-Derives fuel key emit d s u {t} {v} h =
      value_sound (scan_loop callback fuel) (loop_sound fuel) key emit d s u {t = t} {v = v} h
