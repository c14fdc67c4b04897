-- ===== src/Stream/Cuts/Separators.antt =====
-- The rounds of `kason_stream_feed` of kason.c between the tokens do not depend on the cuts.
use kason.Base.{
  ℕ, ◌+◌, ◌≤◌, not, ◌&&◌, some, [], ◌∷◌, ◌==◌, if◌then◌else◌, Bytes, length, ◌≡◌, inl, inr, refl,
  sym, ◌∙◌, ap, subst, arith, Bool-cases,
}
use kason.Chars.{is_whitespace}
use kason.Parse.Tokens.{Slice}
use kason.Stream.State.{
  Mode, m_auto, m_object, m_array, m_string, m_generic, find_root, find_key_begin, find_key_end,
  find_value_sep, find_value_begin, find_param_sep, finished, success, error, Stream, clear_scratch,
}
use kason.Stream.Tokens.{stream_complete, after_separator}
use kason.Stream.Feed.{
  at_rest, find_root_byte, find_key_begin_byte, find_value_sep_byte, find_param_sep_byte,
}
use kason.Stream.Cuts.Settle.{part, settle, settle_nothing}
use kason.Stream.Cuts.Drip.{outcome_of, Placed, Underway, Agrees, Agrees-going, IgnoresParts}
use kason.Stream.Cuts.Between.{
  held, slice_bytes-front, settle-direct_key, same, begun_string-Agrees, begun_generic-Agrees,
}

after_separator-Placed :
    {U : Type 0} (mode : Mode) (s : Bytes) (t : Stream U)
    → Placed find_root s t
    → Placed (after_separator mode) s t
after_separator-Placed m_object s t h = h
after_separator-Placed m_array s t h = h.1
after_separator-Placed m_auto s t h = h.1
after_separator-Placed m_string s t h = h.1
after_separator-Placed m_generic s t h = h.1

pub finished-Agrees :
    {U : Type 0} (c : ℕ) (s : Bytes) (t : Stream U)
    → t.state ≡ finished
    → Underway (c ∷ s) t
    → Agrees s (if is_whitespace c then (success, s, t) else (error, s, t)) (
        outcome_of
          (let x = settle t in if is_whitespace c then (success, [], x) else (error, [], x)))
finished-Agrees c s t e h = elim (Bool-cases (is_whitespace c)) [
  | inl p ↦ rw p (
      Agrees-going s t (settle t)
        (same c s t t h refl refl refl refl refl refl refl (subst (λ x. Placed x s t) (sym e) tt))
        (unfold settle in sym (settle_nothing (settle t) refl refl)))
  | inr p ↦ unfold settle in rw p refl
]

pub find_root_byte-Agrees :
    {U : Type 0} (c : ℕ) (s : Bytes) (t : Stream U)
    → t.state ≡ find_root
    → Underway (c ∷ s) t
    → Agrees s
        (at_rest s (find_root_byte c s t))
        (outcome_of (at_rest [] (find_root_byte c [] (settle t))))
unfolding find_root_byte
find_root_byte-Agrees c s t e h =
    let nothing = subst (λ x. Placed x (c ∷ s) t) e h.placed in
    let back =
      same c s t t h refl refl refl refl refl refl refl
        (subst (λ x. Placed x s t) (sym e) nothing) in
    rw (settle_nothing t nothing.0 nothing.1) (elim (Bool-cases (is_whitespace c)) [
      | inl p ↦ rw p (Agrees-going s t t back refl)
      | inr p ↦ elim (Bool-cases (c == b'{')) [
        | inl q ↦
            let u = record t { mode = m_object; end_token = b'}'; state = find_key_begin } in
            rw (p, q)
              (Agrees-going s u u (same c s t u h refl refl refl refl refl refl refl nothing) refl)
        | inr q ↦ elim (Bool-cases (c == b'[')) [
          | inl o ↦
              let u = record t { mode = m_array; end_token = b']'; state = find_value_begin } in
              rw (p, q, o)
                (Agrees-going s u u (same c s t u h refl refl refl refl refl refl refl nothing.1)
                  refl)
          | inr o ↦ elim (Bool-cases (c == b'"')) [
            | inl n ↦
                rw (p, q, o, n)
                  (begun_string-Agrees c s t (record t { mode = m_string }) h refl refl refl refl
                    refl refl)
            | inr n ↦
                rw (p, q, o, n)
                  (begun_generic-Agrees c s t (record t { mode = m_generic }) h refl refl refl refl
                    refl refl)
          ]
        ]
      ]
    ])

-- A cleared buffer has room for what is to come.
pub Underway-cleared :
    {U : Type 0} (c : ℕ) (s : Bytes) (t u : Stream U)
    → Underway (c ∷ s) t
    → u.scratch ≡ (clear_scratch t).scratch
    → u.scratch_size ≡ t.scratch_size
    → u.key_end ≡ 0
    → u.callback_break ≡ t.callback_break
    → u.callback ≡ t.callback
    → length (part u.direct_key) + length (part u.direct_value) ≤ 0
    → Placed u.state s u
    → Underway s u
unfolding clear_scratch
Underway-cleared c s t u h scratch size key quiet callback le placed =
    let n : length (clear_scratch t).scratch ≡ 1 = ground (arith, h.room) in
    record {
      filled = omega (arith, ap length scratch, n);
      key_inside = omega (arith, ap length scratch, n, key);
      room = omega (arith, held t, held u, ap length scratch, n, size, le, h.room, h.filled);
      quiet = quiet ∙ h.quiet;
      ignores = subst (λ f. IgnoresParts f) (sym callback) h.ignores;
      placed = placed;
    }

pub find_key_begin_byte-Agrees :
    {U : Type 0} (c : ℕ) (s : Bytes) (t : Stream U)
    → t.state ≡ find_key_begin
    → Underway (c ∷ s) t
    → Agrees s
        (at_rest s (find_key_begin_byte c s t))
        (outcome_of (at_rest [] (find_key_begin_byte c [] (settle t))))
unfolding find_key_begin_byte
find_key_begin_byte-Agrees c s t e h =
    let nothing = subst (λ x. Placed x (c ∷ s) t) e h.placed in
    let back =
      same c s t t h refl refl refl refl refl refl refl
        (subst (λ x. Placed x s t) (sym e) nothing) in
    rw (settle_nothing t nothing.0 nothing.1) (elim (Bool-cases (is_whitespace c)) [
      | inl p ↦ rw p (Agrees-going s t t back refl)
      | inr p ↦ elim (Bool-cases (c == b'}' && not t.has_entries)) [
        | inl q ↦
            let u = stream_complete t in
            rw (p, q)
              (Agrees-going s u u (same c s t u h refl refl refl refl refl refl refl tt) refl)
        | inr q ↦ elim (Bool-cases (c == b'"')) [
          | inl o ↦
              let x : Slice = record { begin = s; behind = s } in
              let y : Slice = record { begin = []; behind = [] } in
              let u = record (clear_scratch t) { state = find_key_end } in
              let n = slice_bytes-front [] s in
              rw (p, q, o)
                (Agrees-going s (record u { direct_key = some x })
                  (record u { direct_key = some y })
                  (unfold clear_scratch in
                    Underway-cleared c s t (record u { direct_key = some x }) h refl refl refl refl
                      refl (omega (arith, ap length n)) (([], refl, refl), refl))
                  (settle-direct_key u x y n))
          | inr o ↦ rw (p, q, o) refl
        ]
      ]
    ])

pub find_param_sep_byte-Agrees :
    {U : Type 0} (c : ℕ) (s : Bytes) (t : Stream U)
    → t.state ≡ find_param_sep
    → Underway (c ∷ s) t
    → Agrees s
        (at_rest s (find_param_sep_byte c t))
        (outcome_of (at_rest [] (find_param_sep_byte c (settle t))))
unfolding find_param_sep_byte
find_param_sep_byte-Agrees c s t e h =
    let nothing = subst (λ x. Placed x (c ∷ s) t) e h.placed in
    let back =
      same c s t t h refl refl refl refl refl refl refl
        (subst (λ x. Placed x s t) (sym e) nothing) in
    rw (settle_nothing t nothing.0 nothing.1) (elim (Bool-cases (is_whitespace c)) [
      | inl p ↦ rw p (Agrees-going s t t back refl)
      | inr p ↦ elim (Bool-cases (c == b',')) [
        | inl q ↦
            let u = record t { state = after_separator t.mode } in
            rw (p, q)
              (Agrees-going s u u
                (same c s t u h refl refl refl refl refl refl refl
                  (after_separator-Placed t.mode s u nothing))
                refl)
        | inr q ↦ elim (Bool-cases (c == t.end_token)) [
          | inl o ↦
              let u = stream_complete t in
              rw (p, q, o)
                (Agrees-going s u u (same c s t u h refl refl refl refl refl refl refl tt) refl)
          | inr o ↦ rw (p, q, o) refl
        ]
      ]
    ])

pub find_value_sep_byte-Agrees :
    {U : Type 0} (c : ℕ) (s : Bytes) (t : Stream U)
    → t.state ≡ find_value_sep
    → Underway (c ∷ s) t
    → Agrees s
        (at_rest s (find_value_sep_byte c t))
        (outcome_of (at_rest [] (find_value_sep_byte c (settle t))))
unfolding find_value_sep_byte settle
find_value_sep_byte-Agrees c s t e h =
    let placed = subst (λ x. Placed x (c ∷ s) t) e h.placed in
    elim (Bool-cases (is_whitespace c)) [
      | inl p ↦ rw p (
          Agrees-going s t (settle t)
            (same c s t t h refl refl refl refl refl refl refl
              (subst (λ x. Placed x s t) (sym e) placed))
            (sym (settle_nothing (settle t) refl refl)))
      | inr p ↦ elim (Bool-cases (c == b':')) [
        | inl q ↦
            let u = record t { state = find_value_begin } in
            rw (p, q)
              (Agrees-going s u (record (settle t) { state = find_value_begin })
                (same c s t u h refl refl refl refl refl refl refl placed)
                (sym (settle_nothing (record (settle t) { state = find_value_begin }) refl refl)))
        | inr q ↦ rw (p, q) refl
      ]
    ]
