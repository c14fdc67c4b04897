-- ===== src/Stream/Bounds/Phases.antt =====
-- The cases of the switch in `kason_stream_feed` of kason.c stay inside the scratch buffer.
use kason.Base.{
  ℕ, zero, suc, ◌-◌, false, not, ◌&&◌, some, ◌==◌, Bytes, length, ◌≡◌, inl, inr, refl, arith,
  Bool-cases,
}
use kason.Chars.{is_whitespace, is_hex_digit, is_simple_escape}
use kason.Stream.State.{
  Mode, m_auto, m_object, m_array, m_string, m_generic, Phase, find_key_end, success, Stream,
  Outcome, on_success, clear_scratch, append_scratch, preserve_direct,
}
use kason.Stream.Tokens.{after_hex_digit, process_escape, after_separator}
use kason.Stream.Feed.{
  find_root_byte, find_key_begin_byte, escaping, begin_escape, key_to_end, value_to_end,
  find_value_sep_byte, find_param_sep_byte,
}
use kason.Stream.Bounds.{
  is_container, Bounded, Leaves, on_success-Leaves, Outside, outside, append_scratch-Outside,
  preserve_direct-Outside,
}
use kason.Stream.Bounds.Values.{clear_scratch-Cleared}

-- A step that leaves the buffer and its slices as they are.
pub kept :
    {U : Type 0} (t : Stream U) {u : Stream U}
    → Outside t
    → u.scratch ≡ t.scratch
    → u.scratch_size ≡ t.scratch_size
    → u.key_end ≡ t.key_end
    → u.value_end ≡ t.value_end
    → is_container u.state ≡ false
    → Bounded u
kept t {u = u} (h, free) s n k v e =
    (outside u (rw s h.filled) (rw (s, n) h.inside) (rw (s, k) h.key_inside)
      (rw (s, v) h.value_inside) e).0

after_separator-outside : (mode : Mode) → is_container (after_separator mode) ≡ false
after_separator-outside mode = elim mode as (λ x. is_container (after_separator x) ≡ false) [
  | m_auto ↦ refl
  | m_object ↦ refl
  | m_array ↦ refl
  | m_string ↦ refl
  | m_generic ↦ refl
]

pub find_root_byte-Bounded :
    {U : Type 0} (c : ℕ) (s : Bytes) (t : Stream U)
    → Outside t
    → Leaves Bounded (find_root_byte c s t)
unfolding find_root_byte
find_root_byte-Bounded c s t h = elim (Bool-cases (is_whitespace c)) [
  | inl p ↦ rw p h.0
  | inr p ↦ elim (Bool-cases (c == b'{')) [
    | inl q ↦ rw (p, q) (kept t h refl refl refl refl refl)
    | inr q ↦ elim (Bool-cases (c == b'[')) [
      | inl o ↦ rw (p, q, o) (kept t h refl refl refl refl refl)
      | inr o ↦ elim (Bool-cases (c == b'"')) [
        | inl n ↦ rw (p, q, o, n) (kept t h refl refl refl refl refl)
        | inr n ↦ rw (p, q, o, n) (kept t h refl refl refl refl refl)
      ]
    ]
  ]
]

pub find_key_begin_byte-Bounded :
    {U : Type 0} (c : ℕ) (s : Bytes) (t : Stream U)
    → Outside t
    → Leaves Bounded (find_key_begin_byte c s t)
unfolding find_key_begin_byte
find_key_begin_byte-Bounded c s t h =
    let k = clear_scratch-Cleared t (omega (arith, h.0.filled, h.0.inside)) in
    elim (Bool-cases (is_whitespace c)) [
      | inl p ↦ rw p h.0
      | inr p ↦ elim (Bool-cases (c == b'}' && not t.has_entries)) [
        | inl q ↦ rw (p, q) (kept t h refl refl refl refl refl)
        | inr q ↦ elim (Bool-cases (c == b'"')) [
          | inl o ↦
              rw (p, q, o)
                (outside
                  (record (clear_scratch t) {
                    direct_key = some (record { begin = s; behind = s });
                    state = find_key_end;
                  })
                  k.holds k.inside (omega (arith, k.holds, k.no_key.0))
                  (omega (arith, k.holds, k.no_value.0)) refl).0
          | inr o ↦ rw (p, q, o) h.0
        ]
      ]
    ]

pub find_value_sep_byte-Bounded :
    {U : Type 0} (c : ℕ) (t : Stream U) → Outside t → Leaves Bounded (find_value_sep_byte c t)
unfolding find_value_sep_byte
find_value_sep_byte-Bounded c t h = elim (Bool-cases (is_whitespace c)) [
  | inl p ↦ rw p h.0
  | inr p ↦ elim (Bool-cases (c == b':')) [
    | inl q ↦ rw (p, q) (kept t h refl refl refl refl refl)
    | inr q ↦ rw (p, q) h.0
  ]
]

pub find_param_sep_byte-Bounded :
    {U : Type 0} (c : ℕ) (t : Stream U) → Outside t → Leaves Bounded (find_param_sep_byte c t)
unfolding find_param_sep_byte
find_param_sep_byte-Bounded c t h = elim (Bool-cases (is_whitespace c)) [
  | inl p ↦ rw p h.0
  | inr p ↦ elim (Bool-cases (c == b',')) [
    | inl q ↦ rw (p, q) (kept t h refl refl refl refl (after_separator-outside t.mode))
    | inr q ↦ elim (Bool-cases (c == t.end_token)) [
      | inl o ↦ rw (p, q, o) (kept t h refl refl refl refl refl)
      | inr o ↦ rw (p, q, o) h.0
    ]
  ]
]

-- The end of a slice that grows in the buffer.
pub key_to_end-Outside :
    {U : Type 0} (r : Outcome U) → Leaves Outside r → Leaves Outside (key_to_end r)
key_to_end-Outside (result, t) (h, free) =
    outside (record t { key_end = length t.scratch - 1 }) h.filled h.inside
      (omega (arith, h.filled)) h.value_inside free

pub value_to_end-Outside :
    {U : Type 0} (r : Outcome U) → Leaves Outside r → Leaves Outside (value_to_end r)
value_to_end-Outside (result, t) (h, free) =
    outside (record t { value_end = length t.scratch - 1 }) h.filled h.inside h.key_inside
      (omega (arith, h.filled)) free

pub Outside-Bounded : {U : Type 0} (r : Outcome U) → Leaves Outside r → Leaves Bounded r
Outside-Bounded (result, t) h = h.0

pub begin_escape-Bounded :
    {U : Type 0} (escape_state : Phase) (c : ℕ) (t : Stream U)
    → is_container escape_state ≡ false
    → Outside t
    → Leaves Bounded (begin_escape escape_state c t)
unfolding begin_escape
begin_escape-Bounded {U} escape_state c t e h =
    escaped (on_success (preserve_direct t) (append_scratch c)) (
      on_success-Leaves Outside Outside (preserve_direct t) (append_scratch c) (λ u q. q)
        (preserve_direct-Outside t h) (λ u q. append_scratch-Outside c u q))
  where
    escaped : (r : Outcome U) → Leaves Outside r → Leaves Bounded (escaping escape_state r)
    escaped (result, u) q = kept u q refl refl refl refl e

pub process_escape-Outside :
    {U : Type 0} (left c : ℕ) (restore_state : Phase) (t : Stream U)
    → is_container restore_state ≡ false
    → Outside t
    → Leaves Outside (process_escape left c restore_state t)
unfolding process_escape
process_escape-Outside {U} (suc left) c restore_state t e h = elim (Bool-cases (is_hex_digit c)) [
  | inl p ↦ rw p (
      on_success-Leaves Outside Outside (append_scratch c t) (after_hex_digit left restore_state)
        (λ u q. q) (append_scratch-Outside c t h) (λ u q. digit left u q))
  | inr p ↦ rw p h
]
  where
    digit : (n : ℕ) (u : Stream U) → Outside u → Leaves Outside (after_hex_digit n restore_state u)
    digit zero u q = (kept u q refl refl refl refl e, e)
    digit (suc n) u q = (kept u q refl refl refl refl q.1, q.1)
process_escape-Outside {U} zero c restore_state t e h = elim (Bool-cases (c == b'u')) [
  | inl p ↦ rw p (
      on_success-Leaves Outside Outside (append_scratch c t)
        (λ u. (success, record u { escape_hex_left = 4 })) (λ u q. q) (append_scratch-Outside c t h)
        (λ u q. (kept u q refl refl refl refl q.1, q.1)))
  | inr p ↦ elim (Bool-cases (is_simple_escape c)) [
    | inl q ↦
        rw (p, q)
          (on_success-Leaves Outside Outside (append_scratch c t)
            (λ u. (success, record u { state = restore_state })) (λ u q. q)
            (append_scratch-Outside c t h) (λ u q. (kept u q refl refl refl refl e, e)))
    | inr q ↦ rw (p, q) h
  ]
]
