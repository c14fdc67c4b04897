-- ===== src/Stream/Bounds/Feed.antt =====
-- The bytes of tokens in `kason_stream_feed` of kason.c stay inside the scratch buffer.
use kason.Base.{
  ℕ, ◌≤◌, not, ◌&&◌, ◌||◌, Option, none, some, [], ◌∷◌, ◌==◌, Bytes, length, inl, inr, refl, arith,
  Bool-cases,
}
use kason.Chars.{is_control_char, is_whitespace}
use kason.Strings.Loop.{string_is_valid}
use kason.Parse.Tokens.{Slice}
use kason.Stream.State.{
  Mode, find_key_end, find_string_end, key_escape, string_escape, success, Stream, append_scratch,
  key_bytes, value_bytes,
}
use kason.Stream.Tokens.{process_escape, generic_delimiter, commit_string, commit_generic}
use kason.Stream.Feed.{
  is_array, skip_text, skip_generic, begin_escape, key_to_end, value_to_end, key_byte,
  find_key_end_byte, key_escape_byte, find_value_begin_byte, text_value_byte, find_string_end_byte,
  string_escape_byte, generic_value_byte, find_generic_end_byte,
}
use kason.Stream.Bounds.{Bounded, Leaves, on_success-Leaves, Outside, append_scratch-Outside}
use kason.Stream.Bounds.Values.{commit_string-Bounded, commit_generic-Bounded}
use kason.Stream.Bounds.Containers.{start_container-Bounded}
use kason.Stream.Bounds.ContainerLoop.{Moves, Moves-at_rest}
use kason.Stream.Bounds.Phases.{
  kept, key_to_end-Outside, value_to_end-Outside, Outside-Bounded, begin_escape-Bounded,
  process_escape-Outside,
}

pub key_escape_byte-Bounded :
    {U : Type 0} (c : ℕ) (t : Stream U) → Outside t → Leaves Bounded (key_escape_byte c t)
unfolding key_escape_byte
key_escape_byte-Bounded c t h =
    on_success-Leaves Bounded Outside (process_escape t.escape_hex_left c find_key_end t)
      (λ u. key_to_end (success, u)) (λ u q. q.0)
      (process_escape-Outside t.escape_hex_left c find_key_end t refl h)
      (λ u q. (key_to_end-Outside (success, u) q).0)

pub string_escape_byte-Bounded :
    {U : Type 0} (c : ℕ) (t : Stream U) → Outside t → Leaves Bounded (string_escape_byte c t)
unfolding string_escape_byte
string_escape_byte-Bounded c t h =
    on_success-Leaves Bounded Outside (process_escape t.escape_hex_left c find_string_end t)
      (λ u. value_to_end (success, u)) (λ u q. q.0)
      (process_escape-Outside t.escape_hex_left c find_string_end t refl h)
      (λ u q. (value_to_end-Outside (success, u) q).0)

pub find_value_begin_byte-Bounded :
    {U : Type 0} (c : ℕ) (s : Bytes) (t : Stream U)
    → Outside t
    → Leaves Bounded (find_value_begin_byte c s t)
unfolding find_value_begin_byte
find_value_begin_byte-Bounded c s t h = elim (Bool-cases (is_whitespace c)) [
  | inl p ↦ rw p h.0
  | inr p ↦ elim (Bool-cases (c == t.end_token)) [
    | inl q ↦ elim (Bool-cases (is_array t.mode && not t.has_entries)) [
      | inl o ↦ rw (p, q, o) (kept t h refl refl refl refl refl)
      | inr o ↦ rw (p, q, o) h.0
    ]
    | inr q ↦ elim (Bool-cases (c == b',')) [
      | inl o ↦ rw (p, q, o) h.0
      | inr o ↦ elim (Bool-cases (c == b'"')) [
        | inl n ↦ rw (p, q, o, n) (kept t h refl refl refl refl refl)
        | inr n ↦ elim (Bool-cases (c == b'{' || c == b'[')) [
          | inl m ↦ rw (p, q, o, n, m) (start_container-Bounded c t h.0)
          | inr m ↦ rw (p, q, o, n, m) (kept t h refl refl refl refl refl)
        ]
      ]
    ]
  ]
]

skip_text-le : (s : Bytes) → length (skip_text s) ≤ length s
unfolding skip_text
skip_text-le [] = omega arith
skip_text-le (c ∷ s) = let e = skip_text-le s in ground (arith, e)

skip_generic-le :
    (mode : Mode) (end_token : ℕ) (s : Bytes) → length (skip_generic mode end_token s) ≤ length s
unfolding skip_generic
skip_generic-le mode end_token [] = omega arith
skip_generic-le mode end_token (c ∷ s) =
    let e = skip_generic-le mode end_token s in ground (arith, e)

key_byte-Moves :
    {U : Type 0} (o : Option Slice) (c : ℕ) (s : Bytes) (t : Stream U)
    → Outside t
    → Moves Bounded (length s) (key_byte o c s t)
key_byte-Moves (some p) c s t h = (λ e. skip_text-le s, kept t h refl refl refl refl h.1)
key_byte-Moves none c s t h = Moves-at_rest Bounded s (key_to_end (append_scratch c t)) (
    Outside-Bounded (key_to_end (append_scratch c t))
      (key_to_end-Outside (append_scratch c t) (append_scratch-Outside c t h)))

text_value_byte-Moves :
    {U : Type 0} (o : Option Slice) (c : ℕ) (s : Bytes) (t : Stream U)
    → Outside t
    → Moves Bounded (length s) (text_value_byte o c s t)
text_value_byte-Moves (some p) c s t h = (λ e. skip_text-le s, kept t h refl refl refl refl h.1)
text_value_byte-Moves none c s t h = Moves-at_rest Bounded s (value_to_end (append_scratch c t)) (
    Outside-Bounded (value_to_end (append_scratch c t))
      (value_to_end-Outside (append_scratch c t) (append_scratch-Outside c t h)))

generic_value_byte-Moves :
    {U : Type 0} (o : Option Slice) (c : ℕ) (s : Bytes) (t : Stream U)
    → Outside t
    → Moves Bounded (length s) (generic_value_byte o c s t)
generic_value_byte-Moves (some p) c s t h =
    (λ e. skip_generic-le t.mode t.end_token s, kept t h refl refl refl refl h.1)
generic_value_byte-Moves none c s t h = text_value_byte-Moves none c s t h

pub find_key_end_byte-Moves :
    {U : Type 0} (c : ℕ) (s : Bytes) (t : Stream U)
    → Outside t
    → Moves Bounded (length s) (find_key_end_byte c s t)
unfolding find_key_end_byte
find_key_end_byte-Moves c s t h = elim (Bool-cases (c == b'\\')) [
  | inl p ↦ rw p (
      Moves-at_rest Bounded s (begin_escape key_escape c t)
        (begin_escape-Bounded key_escape c t refl h))
  | inr p ↦ elim (Bool-cases (c == b'"')) [
    | inl q ↦ elim (Bool-cases (string_is_valid (some (key_bytes t)))) [
      | inl o ↦ rw (p, q, o) (λ e. omega arith, kept t h refl refl refl refl refl)
      | inr o ↦ rw (p, q, o) (λ e. omega arith, h.0)
    ]
    | inr q ↦ elim (Bool-cases (is_control_char c)) [
      | inl o ↦ rw (p, q, o) (λ e. omega arith, h.0)
      | inr o ↦ rw (p, q, o) (key_byte-Moves t.direct_key c s t h)
    ]
  ]
]

pub find_string_end_byte-Moves :
    {U : Type 0} (c : ℕ) (s : Bytes) (t : Stream U)
    → Outside t
    → Moves Bounded (length s) (find_string_end_byte c s t)
unfolding find_string_end_byte
find_string_end_byte-Moves c s t h = elim (Bool-cases (c == b'\\')) [
  | inl p ↦ rw p (
      Moves-at_rest Bounded s (begin_escape string_escape c t)
        (begin_escape-Bounded string_escape c t refl h))
  | inr p ↦ elim (Bool-cases (c == b'"')) [
    | inl q ↦ elim (Bool-cases (string_is_valid (some (value_bytes t)))) [
      | inl o ↦
          rw (p, q, o) (Moves-at_rest Bounded s (commit_string t) (commit_string-Bounded t h.0))
      | inr o ↦ rw (p, q, o) (λ e. omega arith, h.0)
    ]
    | inr q ↦ elim (Bool-cases (is_control_char c)) [
      | inl o ↦ rw (p, q, o) (λ e. omega arith, h.0)
      | inr o ↦ rw (p, q, o) (text_value_byte-Moves t.direct_value c s t h)
    ]
  ]
]

pub find_generic_end_byte-Moves :
    {U : Type 0} (c : ℕ) (s : Bytes) (t : Stream U)
    → Outside t
    → Moves Bounded (length s) (find_generic_end_byte c s t)
unfolding find_generic_end_byte
find_generic_end_byte-Moves c s t h = elim (Bool-cases (generic_delimiter t.mode t.end_token c)) [
  | inl p ↦ rw p (Moves-at_rest Bounded s (commit_generic c t) (commit_generic-Bounded c t h.0))
  | inr p ↦ rw p (generic_value_byte-Moves t.direct_value c s t h)
]
