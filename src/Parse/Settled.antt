-- ===== src/Parse/Settled.antt =====
-- The range parser of kason.c comes to an end: on fuel for every byte it is never starved, and it is
-- stopped by the callback alone.
use kason.Base.{
  ℕ, zero, suc, ◌+◌, ◌≤◌, ◌<◌, Bool, true, false, not, ◌&&◌, ◌||◌, Option, none, some, [], ◌∷◌, ltb,
  ◌==◌, if◌then◌else◌, Bytes, length, ◌≡◌, refl, arith,
}
use kason.Parse.Tokens.{Slice, Token, skip_whitespace, scan_token}
use kason.Parse.Events.{Action, enter, break_off, capture, skip, other, Data, Callback, scan_emit}
use kason.Parse.Scan.{
  member_key, emit_token, scan_primitive, close_container, open_container, with_action,
  scan_container, scan_start, scan_value, scan_child, next_element, after_child, scan_member,
  scan_round, scan_loop,
}
use kason.Parse.Frame.{
  max_nesting, Kind, object_kind, array_kind, close_mark, Scan, failed, stopped, reached, starved,
  Frame, then_scan, after_event, emitted, token_data, end_data, begin_data, end_count, is_skip,
  is_enter, new_frame,
}
use kason.Parse.Sound.{SoundLoop, loop_sound, child_sound}
use kason.Parse.Lengths.{length-skip_whitespace, length-member_key, Shorter-Derives}

module _ {U : Type 0} (callback : Option (Callback U)) where
  -- A call of the callback is answered by KaSON_ACTION_BREAK and leaves that state.
  abbrev pub Breaks : U → Type 0
  Breaks v =
      (key : Option Slice) × (event : Data) × (count : ℕ) × (u : U) × (scan_emit callback key event
          count u
        ≡ (break_off, v))

  -- A scan that ends, and why if it was stopped.
  pub data Settled : Scan U → Type 0 where
    fails : {u : U} → Settled (failed u)
    stops : {u : U} → Breaks u → Settled (stopped u)
    reaches : {t : Bytes} {u : U} → Settled (reached t u)

  Settled-if : (b : Bool) (x y : Scan U) → Settled x → Settled y → Settled (if b then x else y)
  Settled-if true x y p q = p
  Settled-if false x y p q = q

  event-Settled :
      (t : Bytes) (a : Action × U)
      → ((v : U) → a ≡ (break_off, v) → Breaks v)
      → Settled (after_event t a)
  event-Settled t (enter, u) h = reaches
  event-Settled t (break_off, u) h = stops (h u refl)
  event-Settled t (capture, u) h = fails
  event-Settled t (skip, u) h = fails
  event-Settled t (other n, u) h = fails

  emitted-Settled :
      (b : Bool) (t : Bytes) (key : Option Slice) (event : Data) (count : ℕ) (u : U)
      → Settled (emitted b t (scan_emit callback key event count u) u)
  emitted-Settled true t key event count u =
      event-Settled t (scan_emit callback key event count u) (λ v h. (key, event, count, u, h))
  emitted-Settled false t key event count u = reaches

  token-Settled :
      (key : Option Slice) (emit : Bool) (u : U) (o : Option Token)
      → Settled (emit_token callback key emit u o)
  unfolding emit_token
  token-Settled key emit u none = fails
  token-Settled key emit u (some tok) = emitted-Settled emit tok.cursor key (token_data tok) 1 u

  primitive-Settled :
      (key : Option Slice) (emit : Bool) (s : Bytes) (u : U)
      → Settled (scan_primitive callback key emit s u)
  unfolding scan_primitive
  primitive-Settled key emit s u = token-Settled key emit u (scan_token s)

  close-Settled :
      (f : Frame) (n : ℕ) (closing rest : Bytes) (u : U)
      → Settled (close_container callback f n closing rest u)
  unfolding close_container
  close-Settled f n closing rest u =
      emitted-Settled (f.emit && not (is_skip f.action)) rest f.key (end_data f closing rest)
        (end_count f.kind n) u

  pub then-Settled :
      (m : Scan U) (k : Bytes → U → Scan U)
      → Settled m
      → ((t : Bytes) (v : U) → m ≡ reached t v → Settled (k t v))
      → Settled (then_scan m k)
  then-Settled (failed u) k x h = x
  then-Settled (stopped u) k x h = x
  then-Settled (reached t v) k x h = h t v refl
  then-Settled starved k x h = x

  module _ (loop : Frame → ℕ → Bytes → U → Scan U) (bound : ℕ)
      (settles : (f : Frame) (n : ℕ) (s : Bytes) (u : U)
        → length s < bound
        → Settled (loop f n s u))
      (sound : SoundLoop loop) where
    open-Settled :
        (f : Frame) (s : Bytes) (u : U)
        → length s < bound
        → Settled (open_container callback loop f s u)
    unfolding open_container
    open-Settled f [] u h = fails
    open-Settled f (c ∷ s) u h =
        Settled-if (c == close_mark f.kind) _ _ (close-Settled f 0 (c ∷ s) s u)
          (settles f 0 (c ∷ s) u h)

    action-Settled :
        (f : Frame) (s : Bytes) (a : Action × U)
        → length s < bound
        → ((v : U) → a ≡ (break_off, v) → Breaks v)
        → Settled (with_action callback loop f s a)
    unfolding with_action
    action-Settled f s (break_off, u) h k = stops (k u refl)
    action-Settled f s (other n, u) h k = fails
    action-Settled f s (enter, u) h k =
        open-Settled (record f { action = enter }) (skip_whitespace s) u
          (omega (arith, h, length-skip_whitespace s))
    action-Settled f s (capture, u) h k =
        open-Settled (record f { action = capture }) (skip_whitespace s) u
          (omega (arith, h, length-skip_whitespace s))
    action-Settled f s (skip, u) h k =
        open-Settled (record f { action = skip }) (skip_whitespace s) u
          (omega (arith, h, length-skip_whitespace s))

    container-Settled :
        (kind : Kind) (key : Option Slice) (emit : Bool) (d c : ℕ) (s : Bytes) (u : U)
        → length s < bound
        → Settled (scan_container callback loop kind key emit d c s u)
    unfolding scan_container
    container-Settled kind key true d c s u h =
        action-Settled (new_frame kind key true d (c ∷ s)) s
          (scan_emit callback key (begin_data kind (c ∷ s)) 0 u) h
          (λ v e. (key, begin_data kind (c ∷ s), 0, u, e))
    container-Settled kind key false d c s u h =
        action-Settled (new_frame kind key false d (c ∷ s)) s (skip, u) h (λ v e. absurd (cc e))

    start-Settled :
        (key : Option Slice) (emit : Bool) (d : ℕ) (s : Bytes) (u : U)
        → length s ≤ bound
        → Settled (scan_start callback loop key emit d s u)
    unfolding scan_start
    start-Settled key emit d [] u h = fails
    start-Settled key emit d (c ∷ s) u h =
        Settled-if (c == b'{') _ _
          (container-Settled object_kind key emit d c s u (omega (arith, h)))
          (Settled-if (c == b'[') _ _
            (container-Settled array_kind key emit d c s u (omega (arith, h)))
            (primitive-Settled key emit (c ∷ s) u))

    pub value-Settled :
        (key : Option Slice) (emit : Bool) (d : ℕ) (s : Bytes) (u : U)
        → length s ≤ bound
        → Settled (scan_value callback loop key emit d s u)
    unfolding scan_value
    value-Settled key emit d s u h = Settled-if (ltb max_nesting d) _ _ fails (
        start-Settled key emit d (skip_whitespace s) u (omega (arith, h, length-skip_whitespace s)))

    child-Settled :
        (f : Frame) (key : Option Slice) (s : Bytes) (u : U)
        → length s ≤ bound
        → Settled (scan_child callback loop f key s u)
    unfolding scan_child
    child-Settled f key [] u h = fails
    child-Settled f key (c ∷ s) u h =
        let emit = f.emit && is_enter f.action in
        Settled-if (ltb max_nesting (f.depth + 1)) _ _ fails (
          Settled-if (c == b'{' || c == b'[') _ _ (value-Settled key emit (f.depth + 1) (c ∷ s) u h)
            (primitive-Settled key emit (c ∷ s) u))

    next-Settled :
        (f : Frame) (n : ℕ) (s : Bytes) (u : U)
        → length s < bound
        → Settled (next_element callback loop f n s u)
    unfolding next_element
    next-Settled f n [] u h = fails
    next-Settled f n (c ∷ s) u h =
        Settled-if (c == close_mark f.kind) _ _ fails (settles f n (c ∷ s) u h)

    after-Settled :
        (f : Frame) (n : ℕ) (s : Bytes) (u : U)
        → length s ≤ bound
        → Settled (after_child callback loop f n s u)
    unfolding after_child
    after-Settled f n [] u h = fails
    after-Settled f n (c ∷ s) u h =
        Settled-if (c == close_mark f.kind) _ _ (close-Settled f n (c ∷ s) s u) (
          Settled-if (c == b',') _ _
            (next-Settled f n (skip_whitespace s) u (omega (arith, h, length-skip_whitespace s)))
            fails)

    member-Settled :
        (f : Frame) (n : ℕ) (s : Bytes) (u : U) (o : Option (Option Slice × Bytes))
        → member_key f.kind s ≡ o
        → length s ≤ bound
        → Settled (scan_member callback loop f n u o)
    unfolding scan_member
    member-Settled f n s u none e h = fails
    member-Settled f n s u (some (key, r)) e h =
        let short : length r ≤ length s = length-member_key f.kind s {k = key} {t = r} e in
        then-Settled (scan_child callback loop f key r u)
          (λ t v. after_child callback loop f (n + 1) (skip_whitespace t) v)
          (child-Settled f key r u (omega (arith, short, h)))
          (λ t v found.
            let (_, x) = child_sound callback loop sound f key r u {t = t} {v = v} found in
            let less : length t < length r = Shorter-Derives {s = r} {t = t} x in
            after-Settled f (n + 1) (skip_whitespace t) v
              (omega (arith, short, less, h, length-skip_whitespace t)))

  pub loop-Settled :
      (fuel : ℕ) (f : Frame) (n : ℕ) (s : Bytes) (u : U)
      → length s < fuel
      → Settled (scan_loop callback fuel f n s u)
  unfolding scan_loop scan_round
  loop-Settled zero f n s u h = elim h [ ]
  loop-Settled (suc fuel) f n [] u h = fails
  loop-Settled (suc fuel) f n (c ∷ s) u h =
      member-Settled (scan_loop callback fuel) fuel (loop-Settled fuel) (loop_sound callback fuel) f
        n (c ∷ s) u (member_key f.kind (c ∷ s)) refl (omega (arith, h))
