-- ===== src/Stream/Cuts/Escapes.antt =====
-- The rounds of `kason_stream_feed` of kason.c in an escape do not depend on the cuts.
use kason.Base.{
  ℕ, zero, suc, ◌+◌, ◌<◌, false, [], ◌∷◌, ◌++◌, ◌==◌, Bytes, length, length-append, ◌≡◌, inl, inr,
  refl, sym, ◌∙◌, ap, subst, arith, Bool-cases,
}
use kason.Chars.{is_hex_digit, is_simple_escape}
use kason.Stream.State.{
  Phase, success, incomplete, error, null_callback, buffer_full, Stream, Outcome, on_success,
  append_scratch,
}
use kason.Stream.Tokens.{after_hex_digit, process_escape}
use kason.Stream.Feed.{at_rest, escaping, begin_escape}
use kason.Stream.Cuts.Settle.{settle, settle_nothing, preserve_direct-room}
use kason.Stream.Cuts.Drip.{
  outcome_of, Nothing, Placed, Underway, Agrees, Agrees-going, IgnoresParts,
}
use kason.Stream.Cuts.Grow.{append_scratch-room}

-- An outcome that is the same in the middle of a chunk.
abbrev pub Sound : {U : Type 0} → Bytes → Outcome U → Type 0
Sound s (success, t) = t.callback_break ≡ false → Underway s t
Sound s (incomplete, t) = ⊥
Sound s (error, t) = Unit {0}
Sound s (null_callback, t) = ⊥
Sound s (buffer_full, t) = ⊥

pub Sound-Agrees :
    {U : Type 0} (s : Bytes) (r : Outcome U)
    → Sound s r
    → Agrees s (at_rest s r) (outcome_of (at_rest [] r))
Sound-Agrees s (success, t) h = (refl, h, refl)
Sound-Agrees s (incomplete, t) h = h
Sound-Agrees s (error, t) h = refl
Sound-Agrees s (null_callback, t) h = h
Sound-Agrees s (buffer_full, t) h = h

-- A byte is put behind what `kason_stream_preserve_direct` leaves.
pub Underway-append :
    {U : Type 0} (c : ℕ) (s : Bytes) (t u : Stream U)
    → Underway (c ∷ s) t
    → u.scratch ≡ (settle t).scratch ++ (c ∷ [])
    → u.scratch_size ≡ t.scratch_size
    → u.key_end < length u.scratch
    → u.callback_break ≡ t.callback_break
    → u.callback ≡ t.callback
    → Nothing u
    → Placed u.state s u
    → Underway s u
Underway-append {U} c s t u h scratch size key quiet callback nothing placed =
    let n : length u.scratch ≡ length (settle t).scratch + 1 =
      ap length scratch ∙ length-append (settle t).scratch (c ∷ []) in
    record {
      filled = omega (arith, n);
      key_inside = key;
      room = omega (
        arith,
        n,
        h.room,
        size,
        ap (λ (x : Stream U). length x.scratch) (settle_nothing u nothing.0 nothing.1),
      );
      quiet = quiet ∙ h.quiet;
      ignores = subst (λ f. IgnoresParts f) (sym callback) h.ignores;
      placed = placed;
    }

-- A backslash.
abbrev escape_begun : {U : Type 0} → Phase → ℕ → Stream U → Stream U
escape_begun phase c t = record t {
  scratch = t.scratch ++ (c ∷ []);
  state = phase;
  escape_hex_left = 0;
}

begin_escape-room :
    {U : Type 0} (phase : Phase) (c : ℕ) (t : Stream U)
    → length (settle t).scratch < t.scratch_size
    → begin_escape phase c t ≡ (success, escape_begun phase c (settle t))
unfolding begin_escape settle
begin_escape-room phase c t room =
    ap (λ r. escaping phase (on_success r (append_scratch c)))
      (preserve_direct-room t (omega (arith, room)))
    ∙ ap (escaping phase) (append_scratch-room c (settle t) room)

pub begin_escape-Agrees :
    {U : Type 0} (phase : Phase) (c : ℕ) (s : Bytes) (t : Stream U)
    → Underway (c ∷ s) t
    → (settle t).key_end < length (settle t).scratch
    → Placed phase s (escape_begun phase c (settle t))
    → Agrees s
        (at_rest s (begin_escape phase c t))
        (outcome_of (at_rest [] (begin_escape phase c (settle t))))
unfolding settle
begin_escape-Agrees {U} phase c s t h inside placed =
    let u = escape_begun phase c (settle t) in
    let again = settle_nothing (settle t) refl refl in
    let room : length (settle t).scratch < t.scratch_size = omega (arith, h.room) in
    let both =
      begin_escape-room phase c (settle t)
        (omega (arith, room, ap (λ (x : Stream U). length x.scratch) again))
      ∙ ap (λ x. (success, escape_begun phase c x)) again in
    rw (begin_escape-room phase c t room, both)
      (Agrees-going s u u
        (Underway-append c s t u h refl refl
          (omega (arith, inside, length-append (settle t).scratch (c ∷ []))) refl refl (refl, refl)
          placed)
        refl)

-- A byte has been put behind what a stream without direct slices holds.
pub record Appended {U : Type 0} (c : ℕ) (t u : Stream U) : Type 0 where
  pub scratch : u.scratch ≡ t.scratch ++ (c ∷ [])
  pub size : u.scratch_size ≡ t.scratch_size
  pub key : u.key_end ≡ t.key_end
  pub quiet : u.callback_break ≡ t.callback_break
  pub callback : u.callback ≡ t.callback
  pub nothing : Nothing u

-- A byte of an escape; `ended` moves the end of the slice that holds it.
module _ {U : Type 0} (c : ℕ) (s : Bytes) (t : Stream U) (restore_state : Phase)
    (ended : Stream U → Stream U) (nothing : Nothing t) (room : length t.scratch < t.scratch_size)
    (stays : (u : Stream U) → Appended c t u → u.state ≡ t.state → Underway s (ended u))
    (restores : (u : Stream U)
      → Appended c t u
      → u.state ≡ restore_state
      → Underway s (ended u)) where
  digit-Sound :
      (left : ℕ) (u : Stream U)
      → Appended c t u
      → u.state ≡ t.state
      → Sound s (on_success (after_hex_digit left restore_state u) (λ x. (success, ended x)))
  digit-Sound zero u a e = λ q.
      restores (record u { escape_hex_left = 0; state = restore_state })
        (record {
          scratch = a.scratch;
          size = a.size;
          key = a.key;
          quiet = a.quiet;
          callback = a.callback;
          nothing = a.nothing;
        })
        refl
  digit-Sound (suc left) u a e = λ q.
      stays (record u { escape_hex_left = suc left })
        (record {
          scratch = a.scratch;
          size = a.size;
          key = a.key;
          quiet = a.quiet;
          callback = a.callback;
          nothing = a.nothing;
        })
        e

  appended : Appended c t (record t { scratch = t.scratch ++ (c ∷ []) })
  appended = record {
    scratch = refl;
    size = refl;
    key = refl;
    quiet = refl;
    callback = refl;
    nothing = nothing;
  }

  pub process_escape-Sound :
      (left : ℕ)
      → Sound s (on_success (process_escape left c restore_state t) (λ u. (success, ended u)))
  unfolding process_escape
  process_escape-Sound (suc left) =
      let room_left = append_scratch-room c t room in
      elim (Bool-cases (is_hex_digit c)) [
        | inl p ↦
            rw (p, room_left)
              (digit-Sound left (record t { scratch = t.scratch ++ (c ∷ []) }) appended refl)
        | inr p ↦ rw p tt
      ]
  process_escape-Sound zero =
      let room_left = append_scratch-room c t room in
      elim (Bool-cases (c == b'u')) [
        | inl p ↦
            rw (p, room_left)
              (λ q.
                stays (record t { scratch = t.scratch ++ (c ∷ []); escape_hex_left = 4 })
                  (record {
                    scratch = refl;
                    size = refl;
                    key = refl;
                    quiet = refl;
                    callback = refl;
                    nothing = nothing;
                  })
                  refl)
        | inr p ↦ elim (Bool-cases (is_simple_escape c)) [
          | inl q ↦
              rw (p, q, room_left)
                (λ x.
                  restores (record t { scratch = t.scratch ++ (c ∷ []); state = restore_state })
                    (record {
                      scratch = refl;
                      size = refl;
                      key = refl;
                      quiet = refl;
                      callback = refl;
                      nothing = nothing;
                    })
                    refl)
          | inr q ↦ rw (p, q) tt
        ]
      ]
