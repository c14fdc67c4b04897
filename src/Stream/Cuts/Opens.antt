-- ===== src/Stream/Cuts/Opens.antt =====
-- The rounds of `kason_stream_feed` of kason.c that begin a value do not depend on the cuts.
use kason.Base.{
  ℕ, ◌≤◌, Bool, true, false, not, ◌&&◌, ◌||◌, [], ◌∷◌, ◌++◌, ◌==◌, if◌then◌else◌, Bytes, length,
  length-append, ◌≡◌, inl, inr, refl, sym, ◌∙◌, ap, subst, arith, Bool-cases,
}
use kason.Chars.{is_whitespace}
use kason.Parse.Tokens.{Slice}
use kason.Stream.State.{
  find_value_begin, find_string_end, find_generic_end, success, container_begin, StreamData, Stream,
  Outcome, on_success, unless_break, clear_scratch, append_scratch, make_key, after_callback,
  stream_emit,
}
use kason.Stream.Tokens.{stream_complete}
use kason.Stream.Container.{container_kind, container_opened, start_container}
use kason.Stream.Feed.{at_rest, is_array, find_value_begin_byte}
use kason.Stream.Cuts.Settle.{settle, settle_nothing, settle-make_key}
use kason.Stream.Cuts.Drip.{outcome_of, Placed, Underway, Agrees, Agrees-going}
use kason.Stream.Cuts.Between.{held, Underway-step, slice_bytes-front}
use kason.Stream.Cuts.Grow.{append_scratch-room}
use kason.Stream.Cuts.Begins.{begins-Agrees}

-- A container, once the callback has answered.
abbrev container_typed : {U : Type 0} → ℕ → Stream U → Stream U
container_typed c t = record t { container_type = container_kind c }

abbrev started : {U : Type 0} → ℕ → Stream U → Bool × U → Outcome U
started c t a =
    unless_break (after_callback (container_typed c t) a)
      (λ u. on_success (append_scratch c (clear_scratch u)) (λ v. (success, container_opened v)))

abbrev bracketed : {U : Type 0} → ℕ → Stream U → U → Stream U
bracketed c t u =
    let z = clear_scratch (record (container_typed c t) { user_data = u }) in
    container_opened (record z { scratch = z.scratch ++ (c ∷ []) })

cleared-length :
    {U : Type 0} (t : Stream U) → 1 ≤ t.scratch_size → length (clear_scratch t).scratch ≡ 1
unfolding clear_scratch
cleared-length t le = ground (arith, le)

started-goes :
    {U : Type 0} (c : ℕ) (t : Stream U) (u : U)
    → t.callback_break ≡ false
    → 2 ≤ t.scratch_size
    → started c t (false, u) ≡ (success, bracketed c t u)
unfolding clear_scratch
started-goes c t u quiet le =
    let y = record (container_typed c t) { user_data = u } in
    let n = cleared-length y (omega (arith, le)) in
    ap
      (λ b.
        if b
        then (success, y)
        else on_success (append_scratch c (clear_scratch y)) (λ v. (success, container_opened v)))
      quiet
    ∙ ap (λ r. on_success r (λ v. (success, container_opened v)))
        (append_scratch-room c (clear_scratch y) (omega (arith, n, le)))

started-Agrees :
    {U : Type 0} (c : ℕ) (s : Bytes) (t : Stream U) (a : Bool × U)
    → Underway (c ∷ s) t
    → Agrees s (at_rest s (started c t a)) (outcome_of (at_rest [] (started c (settle t) a)))
unfolding clear_scratch settle
started-Agrees c s t (true, u) h = (refl, λ q. absurd (cc q), refl)
started-Agrees c s t (false, u) h =
    let v = bracketed c t u in
    let two : 2 ≤ t.scratch_size = omega (arith, held t, h.room, h.filled) in
    let n = cleared-length (record (container_typed c t) { user_data = u }) (omega (arith, two)) in
    let m =
      length-append (clear_scratch (record (container_typed c t) { user_data = u })).scratch
        (c ∷ []) in
    subst (λ x. Agrees s (at_rest s x) (outcome_of (at_rest [] (started c (settle t) (false, u)))))
      (sym (started-goes c t u h.quiet two))
      (subst (λ x. Agrees s (success, s, v) (outcome_of (at_rest [] x)))
        (sym (started-goes c (settle t) u h.quiet two))
        (Agrees-going s v v
          (record {
            filled = omega (arith, n, m);
            key_inside = omega (arith, n, m);
            room = omega (arith, held v, held t, h.room, h.filled, n, m);
            quiet = h.quiet;
            ignores = h.ignores;
            placed = ((refl, refl), refl);
          })
          refl))

start_container-Agrees :
    {U : Type 0} (c : ℕ) (s : Bytes) (t : Stream U)
    → Underway (c ∷ s) t
    → Agrees s
        (at_rest s (start_container c t))
        (outcome_of (at_rest [] (start_container c (settle t))))
unfolding start_container stream_emit make_key settle
start_container-Agrees c s t h =
    let sent : StreamData = record {
      type = container_kind c;
      event = container_begin;
      text = c ∷ [];
    } in
    subst
      (λ k.
        Agrees s (at_rest s (started c t (t.callback (make_key t) sent t.user_data)))
          (outcome_of (at_rest [] (started c (settle t) (t.callback k sent t.user_data)))))
      (sym (settle-make_key t h.filled h.key_inside))
      (started-Agrees c s t (t.callback (make_key t) sent t.user_data) h)

pub find_value_begin_byte-Agrees :
    {U : Type 0} (c : ℕ) (s : Bytes) (t : Stream U)
    → t.state ≡ find_value_begin
    → Underway (c ∷ s) t
    → Agrees s
        (at_rest s (find_value_begin_byte c s t))
        (outcome_of (at_rest [] (find_value_begin_byte c [] (settle t))))
unfolding find_value_begin_byte settle
find_value_begin_byte-Agrees c s t e h =
    let v = subst (λ x. Placed x (c ∷ s) t) e h.placed in
    elim (Bool-cases (is_whitespace c)) [
      | inl p ↦ rw p (
          Agrees-going s t (settle t)
            (Underway-step c s t t h refl refl refl refl refl (omega arith)
              (subst (λ x. Placed x s t) (sym e) v))
            (sym (settle_nothing (settle t) refl refl)))
      | inr p ↦ elim (Bool-cases (c == t.end_token)) [
        | inl q ↦ elim (Bool-cases (is_array t.mode && not t.has_entries)) [
          | inl o ↦
              rw (p, q, o)
                (Agrees-going s (stream_complete t) (stream_complete (settle t))
                  (Underway-step c s t (stream_complete t) h refl refl refl refl refl (omega arith)
                    tt)
                  (sym (settle_nothing (stream_complete (settle t)) refl refl)))
          | inr o ↦ rw (p, q, o) refl
        ]
        | inr q ↦ elim (Bool-cases (c == b',')) [
          | inl o ↦ rw (p, q, o) refl
          | inr o ↦ elim (Bool-cases (c == b'"')) [
            | inl n ↦
                let x : Slice = record { begin = s; behind = s } in
                let y : Slice = record { begin = []; behind = [] } in
                let f = slice_bytes-front [] s in
                rw (p, q, o, n)
                  (begins-Agrees c s t find_string_end x y h v f (omega (arith, ap length f))
                    (([], refl, refl), λ z. absurd (cc z)))
            | inr n ↦ elim (Bool-cases (c == b'{' || c == b'[')) [
              | inl m ↦ rw (p, q, o, n, m) (start_container-Agrees c s t h)
              | inr m ↦
                  let x : Slice = record { begin = c ∷ s; behind = s } in
                  let y : Slice = record { begin = c ∷ []; behind = [] } in
                  let f = slice_bytes-front (c ∷ []) s in
                  rw (p, q, o, n, m)
                    (begins-Agrees c s t find_generic_end x y h v
                      (f ∙ sym (slice_bytes-front (c ∷ []) [])) (omega (arith, ap length f))
                      ((c ∷ [], refl, refl), λ z. absurd (cc z)))
            ]
          ]
        ]
      ]
    ]
