-- ===== src/Parse/Scan.antt =====
-- `kason_scan_container`, `kason_scan_primitive` and `kason_scan_value` of kason.c.
use kason.Base.{
  ℕ, zero, suc, ◌+◌, Bool, not, ◌&&◌, ◌||◌, Option, none, some, [], ◌∷◌, ltb, ◌==◌, if◌then◌else◌,
  ◌>>=◌, Bytes,
}
use kason.Parse.Tokens.{Slice, Token, skip_whitespace, scan_string, scan_token}
use kason.Parse.Events.{Action, enter, break_off, capture, skip, other, Callback, scan_emit}
use kason.Parse.Frame.{
  max_nesting, Kind, object_kind, array_kind, close_mark, Scan, failed, stopped, starved, Frame,
  then_scan, is_enter, is_skip, end_count, token_data, end_data, begin_data, new_frame, emitted,
}

unfoldable pub after_colon : Bytes → Option Bytes
after_colon [] = none
after_colon (c ∷ s) = if c == b':' then some (skip_whitespace s) else none

unfoldable pub key_value : Slice × Bytes → Option (Option Slice × Bytes)
unfolding after_colon
key_value (key, t) = do value_text ← after_colon (skip_whitespace t); some (some key, value_text)

-- The key of an object member, up to its value.
unfoldable pub member_key : Kind → Bytes → Option (Option Slice × Bytes)
unfolding key_value
member_key array_kind s = some (none, s)
member_key object_kind [] = none
member_key object_kind (c ∷ s) =
    let key = (scan_string s >>= key_value) in if c == b'"' then key else none

module _ {U : Type 0} (callback : Option (Callback U)) where
  -- Behind the token.
  unfoldable pub emit_token : Option Slice → Bool → U → Option Token → Scan U
  emit_token key emit u none = failed u
  emit_token key emit u (some token) =
      emitted emit token.cursor (scan_emit callback key (token_data token) 1 u) u

  unfoldable pub scan_primitive : Option Slice → Bool → Bytes → U → Scan U
  unfolding emit_token
  scan_primitive key emit s u = emit_token key emit u (scan_token s)

  -- At the closing mark; `rest` is what is behind it.
  unfoldable pub close_container : Frame → ℕ → Bytes → Bytes → U → Scan U
  close_container f count closing rest u =
      let answer = scan_emit callback f.key (end_data f closing rest) (end_count f.kind count) u in
      emitted (f.emit && not (is_skip f.action)) rest answer u

  -- The container with the answer to its first event, where `loop` scans its elements.
  unfoldable pub open_container : (Frame → ℕ → Bytes → U → Scan U) → Frame → Bytes → U → Scan U
  unfolding close_container
  open_container loop f [] u = failed u
  open_container loop f (c ∷ rest) u =
      let elements = loop f 0 (c ∷ rest) u in
      if c == close_mark f.kind then close_container f 0 (c ∷ rest) rest u else elements

  unfoldable pub with_action :
      (Frame → ℕ → Bytes → U → Scan U) → Frame → Bytes → Action × U → Scan U
  unfolding open_container
  with_action loop f s (break_off, u) = stopped u
  with_action loop f s (other n, u) = failed u
  with_action loop f s (enter, u) =
      open_container loop (record f { action = enter }) (skip_whitespace s) u
  with_action loop f s (capture, u) =
      open_container loop (record f { action = capture }) (skip_whitespace s) u
  with_action loop f s (skip, u) =
      open_container loop (record f { action = skip }) (skip_whitespace s) u

  -- `kason_scan_container`; `s` is what is behind the opening mark.
  unfoldable pub scan_container :
      (Frame → ℕ → Bytes → U → Scan U) → Kind → Option Slice → Bool → ℕ → ℕ → Bytes → U → Scan U
  unfolding with_action
  scan_container loop kind key emit depth c s u =
      let event = begin_data kind (c ∷ s) in
      let frame = new_frame kind key emit depth (c ∷ s) in
      with_action loop frame s (if emit then scan_emit callback key event 0 u else (skip, u))

  -- The cursor behind the white space, in `kason_scan_value`.
  unfoldable pub scan_start :
      (Frame → ℕ → Bytes → U → Scan U) → Option Slice → Bool → ℕ → Bytes → U → Scan U
  unfolding scan_container scan_primitive
  scan_start loop key emit depth [] u = failed u
  scan_start loop key emit depth (c ∷ s) u =
      if c == b'{'
      then scan_container loop object_kind key emit depth c s u
      else if c == b'['
      then scan_container loop array_kind key emit depth c s u
      else scan_primitive key emit (c ∷ s) u

  unfoldable pub scan_value :
      (Frame → ℕ → Bytes → U → Scan U) → Option Slice → Bool → ℕ → Bytes → U → Scan U
  unfolding scan_start
  scan_value loop key emit depth s u =
      if ltb max_nesting depth
      then failed u
      else scan_start loop key emit depth (skip_whitespace s) u

  -- The value of a member or an element. Where the range ends, the code reads the byte behind it,
  -- and fails whichever it is.
  unfoldable pub scan_child :
      (Frame → ℕ → Bytes → U → Scan U) → Frame → Option Slice → Bytes → U → Scan U
  unfolding scan_value scan_primitive
  scan_child loop f key [] u = failed u
  scan_child loop f key (c ∷ s) u =
      let emit = f.emit && is_enter f.action in
      if ltb max_nesting (f.depth + 1)
      then failed u
      else if c == b'{' || c == b'['
      then scan_value loop key emit (f.depth + 1) (c ∷ s) u
      else scan_primitive key emit (c ∷ s) u

  -- Behind a comma.
  unfoldable pub next_element : (Frame → ℕ → Bytes → U → Scan U) → Frame → ℕ → Bytes → U → Scan U
  next_element loop f count [] u = failed u
  next_element loop f count (c ∷ s) u =
      let later = loop f count (c ∷ s) u in if c == close_mark f.kind then failed u else later

  -- Behind a child and the white space that follows it.
  unfoldable pub after_child : (Frame → ℕ → Bytes → U → Scan U) → Frame → ℕ → Bytes → U → Scan U
  unfolding next_element close_container
  after_child loop f count [] u = failed u
  after_child loop f count (c ∷ s) u =
      if c == close_mark f.kind
      then close_container f count (c ∷ s) s u
      else if c == b','
      then next_element loop f count (skip_whitespace s) u
      else failed u

  -- Behind the key of a member.
  unfoldable pub scan_member :
      (Frame → ℕ → Bytes → U → Scan U) → Frame → ℕ → U → Option (Option Slice × Bytes) → Scan U
  unfolding scan_child after_child
  scan_member loop f count u none = failed u
  scan_member loop f count u (some (key, t)) =
      then_scan (scan_child loop f key t u)
        (λ r v. after_child loop f (count + 1) (skip_whitespace r) v)

  -- The body of the `while` loop; `loop` is the loop behind it and inside the children.
  unfoldable pub scan_round : (Frame → ℕ → Bytes → U → Scan U) → Frame → ℕ → Bytes → U → Scan U
  unfolding scan_member
  scan_round loop f count s u = scan_member loop f count u (member_key f.kind s)

  -- The `while` loop, on fuel that the children share.
  unfoldable pub scan_loop : ℕ → Frame → ℕ → Bytes → U → Scan U
  unfolding scan_round
  scan_loop zero f count s u = starved
  scan_loop (suc fuel) f count [] u = failed u
  scan_loop (suc fuel) f count (c ∷ s) u = scan_round (scan_loop fuel) f count (c ∷ s) u
