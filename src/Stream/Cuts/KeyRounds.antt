-- ===== src/Stream/Cuts/KeyRounds.antt =====
-- The rounds of `kason_stream_feed` of kason.c in a key do not depend on the cuts.
use kason.Base.{
  ℕ, ◌-◌, ◌<◌, true, Option, none, some, [], ◌∷◌, ◌++◌, ◌==◌, if◌then◌else◌, Bytes, length,
  length-append, ◌≡◌, inl, inr, refl, sym, ◌∙◌, ap, subst, arith, Bool-cases,
}
use kason.Chars.{is_control_char}
use kason.Strings.Loop.{string_is_valid}
use kason.Parse.Tokens.{Slice}
use kason.Stream.State.{
  find_key_end, find_value_sep, key_escape, StreamResult, success, error, Stream, Outcome,
  key_bytes,
}
use kason.Stream.Feed.{
  at_rest, is_text_byte, begin_escape, key_byte, find_key_end_byte, key_escape_byte,
}
use kason.Stream.Calls.{next_round}
use kason.Stream.Cuts.Settle.{settle, settle_nothing, settle-key_bytes, settle-inside}
use kason.Stream.Cuts.Drip.{
  seen, outcome_of, proceed, drip, observe_call, at_end, GrowsTo, Nothing, Placed, Underway, Agrees,
  Agrees-going, Agrees-next_round,
}
use kason.Stream.Cuts.Between.{Underway-step}
use kason.Stream.Cuts.Escapes.{
  Sound-Agrees, Underway-append, begin_escape-Agrees, Appended, process_escape-Sound,
}
use kason.Stream.Cuts.Keys.{is_text, key_grows, DripsUpto, key_skips}

-- A byte of a key that is in the buffer already.
pub key_stays :
    {U : Type 0} (c : ℕ) (s : Bytes) (t : Stream U)
    → t.state ≡ find_key_end
    → Underway (c ∷ s) t
    → Nothing t
    → Agrees s (key_byte none c s t) (outcome_of (key_byte none c [] (settle t)))
key_stays c s t e h nothing =
    let settled = settle_nothing t nothing.0 nothing.1 in
    let n = ap (λ x. length (x.scratch)) settled in
    let room : length t.scratch < t.scratch_size = omega (arith, h.room, n) in
    let u = record t {
      scratch = t.scratch ++ (c ∷ []);
      key_end = length (t.scratch ++ (c ∷ [])) - 1;
    } in
    subst (λ x. Agrees s x (outcome_of (key_byte none c [] (settle t))))
      (sym (key_grows c s t room))
      (subst (λ x. Agrees s (success, s, u) (outcome_of (key_byte none c [] x))) (sym settled)
        (subst (λ x. Agrees s (success, s, u) (outcome_of x)) (sym (key_grows c [] t room))
          (Agrees-going s u u
            (Underway-append c s t u h (ap (λ x. x.scratch ++ (c ∷ [])) (sym settled)) refl
              (omega (arith, length-append t.scratch (c ∷ []))) refl refl nothing
              (subst (λ x. Placed x s u) (sym e)
                (subst (λ o. GrowsTo s o) (sym nothing.0) tt, nothing.1)))
            refl)))

-- The closing mark of a key.
pub key_closed :
    {U : Type 0} (c : ℕ) (s : Bytes) (t : Stream U)
    → t.state ≡ find_key_end
    → Underway (c ∷ s) t
    → Agrees s
        (if string_is_valid (some (key_bytes t))
          then (success, s, record t { has_key = true; state = find_value_sep })
          else (error, s, t))
        (outcome_of (
          let x = settle t in
          if string_is_valid (some (key_bytes x))
          then (success, [], record x { has_key = true; state = find_value_sep })
          else (error, [], x)))
key_closed {U} c s t e h =
    let x = settle t in
    let placed = subst (λ phase. Placed phase (c ∷ s) t) e h.placed in
    let u = record t { has_key = true; state = find_value_sep } in
    let v = record (settle t) { has_key = true; state = find_value_sep } in
    let back = Underway-step c s t u h refl refl refl refl refl (omega arith) placed.1 in
    subst
      (λ b.
        Agrees s (if string_is_valid (some (key_bytes t)) then (success, s, u) else (error, s, t)) (
          outcome_of (
            let r : StreamResult × Bytes × Stream U =
              if string_is_valid (some b) then (success, [], v) else (error, [], x) in
            r)))
      (sym (settle-key_bytes t h.filled h.key_inside))
      (elim (Bool-cases (string_is_valid (some (key_bytes t)))) [
        | inl p ↦ rw p (Agrees-going s u v back (unfold settle in sym (settle_nothing v refl refl)))
        | inr p ↦ unfold settle in rw p refl
      ])

module _ {U : Type 0} (later : Bytes → Stream U → Option (Outcome U)) (c : ℕ) (s : Bytes)
    (t : Stream U) (h : Underway (c ∷ s) t) (behind : DripsUpto later (length s)) where
  key_byte-drips :
      (o : Option Slice)
      → t.direct_key ≡ o
      → t.state ≡ find_key_end
      → is_text_byte c ≡ true
      → observe_call (next_round later (key_byte o c s t))
        ≡ some (at_end (proceed (drip s) (seen (outcome_of (key_byte none c [] (settle t))))))
  key_byte-drips none k e text =
      let placed = subst (λ x. Placed x (c ∷ s) t) e h.placed in
      Agrees-next_round later s (key_byte none c s t) (outcome_of (key_byte none c [] (settle t)))
        (behind s (omega arith)) (key_stays c s t e h (k, placed.1))
  key_byte-drips (some p) k e text = key_skips later c s t e h behind p k text

  pub find_key_end_byte-drips :
      t.state ≡ find_key_end
      → observe_call (next_round later (find_key_end_byte c s t))
        ≡ some (at_end (proceed (drip s) (seen (outcome_of (find_key_end_byte c [] (settle t))))))
  unfolding find_key_end_byte settle
  find_key_end_byte-drips e = elim (Bool-cases (c == b'\\')) [
    | inl p ↦ rw p (
        Agrees-next_round later s (at_rest s (begin_escape key_escape c t))
          (outcome_of (at_rest [] (begin_escape key_escape c (settle t)))) (behind s (omega arith))
          (begin_escape-Agrees key_escape c s t h (settle-inside t h.filled h.key_inside)
            (refl, refl)))
    | inr p ↦ elim (Bool-cases (c == b'"')) [
      | inl q ↦
          rw (p, q)
            (Agrees-next_round later s
              (if string_is_valid (some (key_bytes t))
                then (success, s, record t { has_key = true; state = find_value_sep })
                else (error, s, t))
              (outcome_of (
                let x = settle t in
                if string_is_valid (some (key_bytes x))
                then (success, [], record x { has_key = true; state = find_value_sep })
                else (error, [], x)))
              (behind s (omega arith)) (key_closed c s t e h))
      | inr q ↦ elim (Bool-cases (is_control_char c)) [
        | inl o ↦ rw (p, q, o) refl
        | inr o ↦ rw (p, q, o) (key_byte-drips t.direct_key refl e (is_text c p q o))
      ]
    ]
  ]

-- A byte of an escape in a key.
key_ends :
    {U : Type 0} (c : ℕ) (s : Bytes) (t u : Stream U)
    → Underway (c ∷ s) t
    → Nothing t
    → Appended c t u
    → Placed u.state s (record u { key_end = length u.scratch - 1 })
    → Underway s (record u { key_end = length u.scratch - 1 })
key_ends c s t u h nothing a placed =
    let settled = settle_nothing t nothing.0 nothing.1 in
    let v = record u { key_end = length u.scratch - 1 } in
    Underway-append c s t v h (a.scratch ∙ ap (λ x. x.scratch ++ (c ∷ [])) (sym settled)) a.size
      (omega (arith, ap length a.scratch, length-append t.scratch (c ∷ []))) a.quiet a.callback
      a.nothing placed

pub key_escape_byte-Agrees :
    {U : Type 0} (c : ℕ) (s : Bytes) (t : Stream U)
    → t.state ≡ key_escape
    → Underway (c ∷ s) t
    → Agrees s
        (at_rest s (key_escape_byte c t))
        (outcome_of (at_rest [] (key_escape_byte c (settle t))))
unfolding key_escape_byte
key_escape_byte-Agrees {U} c s t e h =
    let nothing = subst (λ x. Placed x (c ∷ s) t) e h.placed in
    let settled = settle_nothing t nothing.0 nothing.1 in
    let n = ap (λ x. length (x.scratch)) settled in
    let ended = λ (u : Stream U). record u { key_end = length u.scratch - 1 } in
    subst
      (λ x.
        Agrees s (at_rest s (key_escape_byte c t)) (outcome_of (at_rest [] (key_escape_byte c x))))
      (sym settled)
      (Sound-Agrees s (key_escape_byte c t) (
        process_escape-Sound c s t find_key_end ended nothing (omega (arith, h.room, n))
          (λ u a q.
            key_ends c s t u h nothing a
              (subst (λ x. Placed x s (ended u)) (sym (q ∙ e)) a.nothing))
          (λ u a q. key_ends c s t u h nothing a (
            subst (λ x. Placed x s (ended u)) (sym q)
              (subst (λ o. GrowsTo s o) (sym a.nothing.0) tt, a.nothing.1)))
          t.escape_hex_left))

-- With the key in the buffer.
pub find_key_end_byte-Agrees :
    {U : Type 0} (c : ℕ) (s : Bytes) (t : Stream U)
    → t.state ≡ find_key_end
    → Underway (c ∷ s) t
    → Nothing t
    → (x : StreamResult × Bytes × Stream U) × Agrees s x
        (outcome_of (find_key_end_byte c [] (settle t)))
unfolding find_key_end_byte settle
find_key_end_byte-Agrees c s t e h nothing = elim (Bool-cases (c == b'\\')) [
  | inl p ↦ (
    at_rest s (begin_escape key_escape c t),
    rw p (
        begin_escape-Agrees key_escape c s t h (settle-inside t h.filled h.key_inside)
          (refl, refl)),
  )
  | inr p ↦ elim (Bool-cases (c == b'"')) [
    | inl q ↦ (
      if string_is_valid (some (key_bytes t))
          then (success, s, record t { has_key = true; state = find_value_sep })
          else (error, s, t),
      rw (p, q) (key_closed c s t e h),
    )
    | inr q ↦ elim (Bool-cases (is_control_char c)) [
      | inl o ↦ ((error, s, t), rw (p, q, o) refl)
      | inr o ↦ (key_byte none c s t, rw (p, q, o) (key_stays c s t e h nothing))
    ]
  ]
]
