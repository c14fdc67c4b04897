-- ===== src/Stream/Cuts/Values.antt =====
-- The rounds of `kason_stream_feed` of kason.c in a value do not depend on the cuts.
use kason.Base.{
  ℕ, true, false, not, Option, none, some, [], ◌∷◌, ◌==◌, if◌then◌else◌, Bytes, length, ◌≡◌, inl,
  inr, refl, sym, ◌∙◌, ap, subst, arith, Bool-cases,
}
use kason.Chars.{is_control_char}
use kason.Strings.Loop.{string_is_valid}
use kason.Parse.Tokens.{Slice}
use kason.Stream.State.{
  Mode, find_string_end, find_generic_end, string_escape, StreamResult, error, Stream, Outcome,
  value_bytes,
}
use kason.Stream.Tokens.{generic_delimiter, commit_string, commit_generic}
use kason.Stream.Feed.{
  at_rest, is_text_byte, skip_text, skip_generic, begin_escape, text_value_byte,
  find_string_end_byte, generic_value_byte, find_generic_end_byte,
}
use kason.Stream.Calls.{feed_byte, next_round}
use kason.Stream.Bounds.{is_container}
use kason.Stream.Cuts.Settle.{settle, settle-value_bytes, settle-inside}
use kason.Stream.Cuts.Drip.{
  seen, outcome_of, proceed, drip, observe_call, at_end, GrowsTo, Nothing, Placed, Underway, Agrees,
  Agrees-next_round,
}
use kason.Stream.Cuts.Escapes.{begin_escape-Agrees}
use kason.Stream.Cuts.Keys.{text-tests, skip_text-cons, skip_text-nil, DripsUpto}
use kason.Stream.Cuts.Commits.{Nothing-Placed, commit_string-Agrees, commit_generic-Agrees}
use kason.Stream.Cuts.Growing.{valued, value_more, value_stays, value_skips}

skip_generic-cons :
    (mode : Mode) (end_token c : ℕ) (s : Bytes)
    → skip_generic mode end_token (c ∷ s)
      ≡ (if not (generic_delimiter mode end_token c) then skip_generic mode end_token s else c ∷ s)
unfolding skip_generic
skip_generic-cons mode end_token c s = elim (Bool-cases (generic_delimiter mode end_token c)) [
  | inl p ↦ rw p refl
  | inr p ↦ rw p refl
]

skip_generic-nil : (mode : Mode) (end_token : ℕ) → skip_generic mode end_token [] ≡ []
unfolding skip_generic
skip_generic-nil mode end_token = refl

string-one :
    {U : Type 0} (t : Stream U) (b : Bytes) (c : ℕ)
    → t.state ≡ find_string_end
    → is_text_byte c ≡ true
    → feed_byte t.state c [] (valued t b) ≡ value_more c [] (valued t b)
unfolding feed_byte find_string_end_byte
string-one t b c e p =
    let (x, y, z) = text-tests c p in
    ap (λ phase. feed_byte phase c [] (valued t b)) e ∙ rw (x, y, z) refl

generic-one :
    {U : Type 0} (t : Stream U) (b : Bytes) (c : ℕ)
    → t.state ≡ find_generic_end
    → not (generic_delimiter t.mode t.end_token c) ≡ true
    → feed_byte t.state c [] (valued t b) ≡ value_more c [] (valued t b)
unfolding feed_byte find_generic_end_byte
generic-one t b c e p =
    let q : generic_delimiter t.mode t.end_token c ≡ false = ground (arith, p) in
    ap (λ phase. feed_byte phase c [] (valued t b)) e
    ∙ ap
        (λ x.
          if x then at_rest [] (commit_generic c (valued t b)) else value_more c [] (valued t b))
        q

-- The closing mark of a string.
string_closed :
    {U : Type 0} (c : ℕ) (s : Bytes) (t : Stream U)
    → Underway (c ∷ s) t
    → value_bytes (settle t) ≡ value_bytes t
    → Agrees s
        (if string_is_valid (some (value_bytes t))
          then at_rest s (commit_string t)
          else (error, s, t))
        (outcome_of (
          let x = settle t in
          if string_is_valid (some (value_bytes x))
          then at_rest [] (commit_string x)
          else (error, [], x)))
string_closed c s t h e =
    let x = settle t in
    subst
      (λ b.
        Agrees s
          (if string_is_valid (some (value_bytes t))
            then at_rest s (commit_string t)
            else (error, s, t))
          (outcome_of
            (if string_is_valid (some b) then at_rest [] (commit_string x) else (error, [], x))))
      (sym e)
      (elim (Bool-cases (string_is_valid (some (value_bytes t)))) [
        | inl p ↦ rw p (commit_string-Agrees c s t h e)
        | inr p ↦ unfold settle in rw p refl
      ])

module _ {U : Type 0} (later : Bytes → Stream U → Option (Outcome U)) (c : ℕ) (s : Bytes)
    (t : Stream U) (h : Underway (c ∷ s) t) (behind : DripsUpto later (length s)) where
  agreed :
      (x : StreamResult × Bytes × Stream U) (r : Outcome U)
      → Agrees s x r
      → observe_call (next_round later x) ≡ some (at_end (proceed (drip s) (seen r)))
  agreed x r a = Agrees-next_round later s x r (behind s (omega arith)) a

  text_value_byte-drips :
      (o : Option Slice)
      → t.direct_value ≡ o
      → t.state ≡ find_string_end
      → observe_call (next_round later (text_value_byte o c s t))
        ≡ some (at_end (proceed (drip s) (seen (outcome_of (value_more c [] (settle t))))))
  text_value_byte-drips none k e =
      let placed = subst (λ x. Placed x (c ∷ s) t) e h.placed in
      agreed (value_more c s t) (outcome_of (value_more c [] (settle t))) (
        value_stays c s t h (placed.1 k, k)
          (λ u n q. Nothing-Placed u.state s u n (λ x. absurd (cc (x, ap is_container (q ∙ e))))))
  text_value_byte-drips (some p) k e =
      let placed = subst (λ x. Placed x (c ∷ s) t) e h.placed in
      value_skips is_text_byte skip_text t skip_text-nil skip_text-cons
        (λ b d pass. string-one t b d e pass) (λ r u g q. subst (λ x. Placed x r u) (sym (q ∙ e)) g)
        later c s h behind p k (subst (λ o. GrowsTo (c ∷ s) o) k placed.0)

  generic_value_byte-drips :
      (o : Option Slice)
      → t.direct_value ≡ o
      → t.state ≡ find_generic_end
      → observe_call (next_round later (generic_value_byte o c s t))
        ≡ some (at_end (proceed (drip s) (seen (outcome_of (value_more c [] (settle t))))))
  generic_value_byte-drips none k e =
      let placed = subst (λ x. Placed x (c ∷ s) t) e h.placed in
      agreed (value_more c s t) (outcome_of (value_more c [] (settle t))) (
        value_stays c s t h (placed.1 k, k)
          (λ u n q. Nothing-Placed u.state s u n (λ x. absurd (cc (x, ap is_container (q ∙ e))))))
  generic_value_byte-drips (some p) k e =
      let placed = subst (λ x. Placed x (c ∷ s) t) e h.placed in
      value_skips (λ d. not (generic_delimiter t.mode t.end_token d))
        (skip_generic t.mode t.end_token) t (skip_generic-nil t.mode t.end_token)
        (skip_generic-cons t.mode t.end_token) (λ b d pass. generic-one t b d e pass)
        (λ r u g q. subst (λ x. Placed x r u) (sym (q ∙ e)) g) later c s h behind p k
        (subst (λ o. GrowsTo (c ∷ s) o) k placed.0)

  pub find_string_end_byte-drips :
      t.state ≡ find_string_end
      → observe_call (next_round later (find_string_end_byte c s t))
        ≡ some
            (at_end (proceed (drip s) (seen (outcome_of (find_string_end_byte c [] (settle t))))))
  unfolding find_string_end_byte settle
  find_string_end_byte-drips e =
      let placed = subst (λ x. Placed x (c ∷ s) t) e h.placed in
      elim (Bool-cases (c == b'\\')) [
        | inl p ↦ rw p (
            agreed (at_rest s (begin_escape string_escape c t))
              (outcome_of (at_rest [] (begin_escape string_escape c (settle t))))
              (begin_escape-Agrees string_escape c s t h (settle-inside t h.filled h.key_inside)
                (refl, refl)))
        | inr p ↦ elim (Bool-cases (c == b'"')) [
          | inl q ↦
              rw (p, q)
                (agreed
                  (if string_is_valid (some (value_bytes t))
                    then at_rest s (commit_string t)
                    else (error, s, t))
                  (outcome_of (
                    let x = settle t in
                    if string_is_valid (some (value_bytes x))
                    then at_rest [] (commit_string x)
                    else (error, [], x)))
                  (string_closed c s t h (settle-value_bytes t h.filled placed.1)))
          | inr q ↦ elim (Bool-cases (is_control_char c)) [
            | inl o ↦ rw (p, q, o) refl
            | inr o ↦ rw (p, q, o) (text_value_byte-drips t.direct_value refl e)
          ]
        ]
      ]

  pub find_generic_end_byte-drips :
      t.state ≡ find_generic_end
      → observe_call (next_round later (find_generic_end_byte c s t))
        ≡ some
            (at_end (proceed (drip s) (seen (outcome_of (find_generic_end_byte c [] (settle t))))))
  unfolding find_generic_end_byte settle
  find_generic_end_byte-drips e =
      let placed = subst (λ x. Placed x (c ∷ s) t) e h.placed in
      elim (Bool-cases (generic_delimiter t.mode t.end_token c)) [
        | inl p ↦ rw p (
            agreed (at_rest s (commit_generic c t))
              (outcome_of (at_rest [] (commit_generic c (settle t))))
              (commit_generic-Agrees c s t h (settle-value_bytes t h.filled placed.1)))
        | inr p ↦ rw p (generic_value_byte-drips t.direct_value refl e)
      ]

-- With the value in the buffer.
pub find_string_end_byte-Agrees :
    {U : Type 0} (c : ℕ) (s : Bytes) (t : Stream U)
    → t.state ≡ find_string_end
    → Underway (c ∷ s) t
    → Nothing t
    → (x : StreamResult × Bytes × Stream U) × Agrees s x
        (outcome_of (find_string_end_byte c [] (settle t)))
unfolding find_string_end_byte settle
find_string_end_byte-Agrees c s t e h nothing = elim (Bool-cases (c == b'\\')) [
  | inl p ↦ (
    at_rest s (begin_escape string_escape c t),
    rw p (
        begin_escape-Agrees string_escape c s t h (settle-inside t h.filled h.key_inside)
          (refl, refl)),
  )
  | inr p ↦ elim (Bool-cases (c == b'"')) [
    | inl q ↦ (
      if string_is_valid (some (value_bytes t)) then at_rest s (commit_string t) else (error, s, t),
      rw (p, q) (string_closed c s t h (settle-value_bytes t h.filled (λ x. nothing.0))),
    )
    | inr q ↦ elim (Bool-cases (is_control_char c)) [
      | inl o ↦ ((error, s, t), rw (p, q, o) refl)
      | inr o ↦ (
        value_more c s t,
        rw (p, q, o)
            (value_stays c s t h nothing (λ u n x.
              Nothing-Placed u.state s u n (λ y. absurd (cc (y, ap is_container (x ∙ e)))))),
      )
    ]
  ]
]

pub find_generic_end_byte-Agrees :
    {U : Type 0} (c : ℕ) (s : Bytes) (t : Stream U)
    → t.state ≡ find_generic_end
    → Underway (c ∷ s) t
    → Nothing t
    → (x : StreamResult × Bytes × Stream U) × Agrees s x
        (outcome_of (find_generic_end_byte c [] (settle t)))
unfolding find_generic_end_byte settle
find_generic_end_byte-Agrees c s t e h nothing =
    elim (Bool-cases (generic_delimiter t.mode t.end_token c)) [
      | inl p ↦ (
        at_rest s (commit_generic c t),
        rw p (commit_generic-Agrees c s t h (settle-value_bytes t h.filled (λ x. nothing.0))),
      )
      | inr p ↦ (
        value_more c s t,
        rw p (
            value_stays c s t h nothing (λ u n x.
              Nothing-Placed u.state s u n (λ y. absurd (cc (y, ap is_container (x ∙ e)))))),
      )
    ]
