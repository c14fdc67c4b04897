-- ===== src/Stream/Cuts/Rests.antt =====
-- Between two chunks no slice of the input is kept: a stream that rests, and that it rests again behind
-- a byte.
use kason.Base.{
  ℕ, ◌-◌, Bool, true, false, [], ◌∷◌, if◌then◌else◌, Bytes, length, ◌≡◌, ◌≢◌, refl, sym, ◌∙◌, ap,
  subst, arith,
}
use kason.Chars.{is_whitespace}
use kason.Stream.State.{
  Phase, find_root, find_key_begin, find_key_end, find_value_sep, find_value_begin, find_string_end,
  find_generic_end, find_param_sep, stream_container, key_escape, string_escape, finished,
  StreamResult, success, incomplete, error, null_callback, buffer_full, Stream, Outcome,
}
use kason.Stream.Container.{
  ContainerStep, refused, final_close, inside, container_byte, next_container, container_loop,
  process_container,
}
use kason.Stream.Feed.{
  at_rest, find_root_byte, find_key_begin_byte, key_escape_byte, find_value_sep_byte,
  find_value_begin_byte, string_escape_byte, find_param_sep_byte,
}
use kason.Stream.Calls.{feed_byte}
use kason.Stream.Bounds.{is_container}
use kason.Stream.Cuts.Settle.{pick, with_key, settle, settle_nothing, settle-inside}
use kason.Stream.Cuts.Drip.{
  Seen, going, broke, failed, seen, outcome_of, Nothing, Placed, Underway, Agrees,
}
use kason.Stream.Cuts.Between.{held}
use kason.Stream.Cuts.Separators.{
  finished-Agrees, find_root_byte-Agrees, find_key_begin_byte-Agrees, find_param_sep_byte-Agrees,
  find_value_sep_byte-Agrees,
}
use kason.Stream.Cuts.Escapes.{Sound, Sound-Agrees}
use kason.Stream.Cuts.KeyRounds.{find_key_end_byte-Agrees, key_escape_byte-Agrees}
use kason.Stream.Cuts.Values.{find_string_end_byte-Agrees, find_generic_end_byte-Agrees}
use kason.Stream.Cuts.Begins.{string_escape_byte-Agrees}
use kason.Stream.Cuts.Opens.{find_value_begin_byte-Agrees}
use kason.Stream.Cuts.Commits.{Nothing-Placed}
use kason.Stream.Cuts.Containers.{StepContained, container_byte-Contained}
use kason.Stream.Cuts.ContainerRounds.{emit_part-ignored, end_container-ended, ended-Sound}

-- A stream between two chunks, with `s` to come and room for it.
abbrev pub Resting : {U : Type 0} → Bytes → Stream U → Type 0
Resting s t = Underway s t × Nothing t

is_container-state : (phase : Phase) → is_container phase ≡ true → phase ≡ stream_container
is_container-state stream_container e = refl
is_container-state find_root e = absurd (cc e)
is_container-state find_key_begin e = absurd (cc e)
is_container-state find_key_end e = absurd (cc e)
is_container-state find_value_sep e = absurd (cc e)
is_container-state find_value_begin e = absurd (cc e)
is_container-state find_string_end e = absurd (cc e)
is_container-state find_generic_end e = absurd (cc e)
is_container-state find_param_sep e = absurd (cc e)
is_container-state key_escape e = absurd (cc e)
is_container-state string_escape e = absurd (cc e)
is_container-state finished e = absurd (cc e)

-- In a container no key is kept.
pub Placed-no_key :
    {U : Type 0} (phase : Phase) (s : Bytes) (t : Stream U)
    → is_container phase ≡ true
    → Placed phase s t
    → t.key_end ≡ 0
Placed-no_key phase s t e h = (subst (λ x. Placed x s t) (is_container-state phase e) h).1

settle-Resting : {U : Type 0} (s : Bytes) (t : Stream U) → Underway s t → Resting s (settle t)
unfolding settle
settle-Resting {U} s t h = (
  record {
    filled = omega (arith, h.filled, held t);
    key_inside = settle-inside t h.filled h.key_inside;
    room = omega (
      arith,
      h.room,
      ap (λ (x : Stream U). length x.scratch) (settle_nothing (settle t) refl refl),
    );
    quiet = h.quiet;
    ignores = h.ignores;
    placed =
        Nothing-Placed t.state s (settle t) (refl, refl)
          (λ e. no_key (is_container-state t.state e));
  },
  (refl, refl),
)
  where
    no_key : t.state ≡ stream_container → (settle t).key_end ≡ 0
    no_key e =
        let (nothing, zero_end) = subst (λ x. Placed x s t) e h.placed in
        ap (λ o. pick o (length (with_key t) - 1) t.key_end) nothing.0 ∙ zero_end

going-injective : {U : Type 0} (t u : Stream U) → going t ≡ going u → t ≡ u
going-injective t u e = cc e

broke-going : {U : Type 0} (x : U) (u : Stream U) → broke x ≡ going u → ⊥
broke-going x u e = cc e

failed-going : {U : Type 0} (r : StreamResult) (x : U) (u : Stream U) → failed r x ≡ going u → ⊥
failed-going r x u e = cc e

-- A round that agrees with one in the middle of a chunk leaves the stream at rest.
Agrees-Resting :
    {U : Type 0} (s : Bytes) (x : StreamResult × Bytes × Stream U) (r : Outcome U) (u : Stream U)
    → Agrees s x r
    → seen r ≡ going u
    → Resting s u
Agrees-Resting {U} s (success, rest, t) r u (same, underway, agrees) e = rests t.callback_break refl
  where
    rests : (b : Bool) → t.callback_break ≡ b → Resting s u
    rests true q = absurd (
        broke-going t.user_data u
          (sym (ap (λ y. if y then broke t.user_data else going (settle t)) q) ∙ agrees ∙ e))
    rests false q =
        subst (λ y. Resting s y)
          (going-injective (settle t) u
            (sym (ap (λ y. if y then broke t.user_data else going (settle t)) q) ∙ agrees ∙ e))
          (settle-Resting s t (underway q))
Agrees-Resting s (incomplete, rest, t) r u agrees e = absurd agrees
Agrees-Resting s (error, rest, t) r u agrees e =
    absurd (failed-going error t.user_data u (agrees ∙ e))
Agrees-Resting s (null_callback, rest, t) r u agrees e = absurd agrees
Agrees-Resting s (buffer_full, rest, t) r u agrees e = absurd agrees

module _ {U : Type 0} (c : ℕ) (s : Bytes) (t : Stream U) (h : Underway (c ∷ s) t)
    (nothing : Nothing t) where
  one_container :
      (x : ContainerStep U)
      → StepContained s x
      → Sound s (outcome_of (next_container (container_loop (c ∷ []) []) (c ∷ []) c [] x))
  unfolding container_loop
  one_container (refused result u) e = subst (λ r. Sound s (r, u)) (sym e) tt
  one_container (final_close u) q =
      subst (λ r. Sound s r) (sym (end_container-ended (c ∷ []) c [] u q.0.ignores q.0.quiet))
        (ended-Sound c s u q)
  one_container (inside u) q =
      subst (λ r. Sound s r) (sym (emit_part-ignored (c ∷ []) [] u q.0.ignores)) (λ e. q.0)

  one_byte :
      (phase : Phase)
      → t.state ≡ phase
      → (x : StreamResult × Bytes × Stream U) × Agrees s x
          (outcome_of (feed_byte phase c [] (settle t)))
  unfolding feed_byte process_container
  one_byte finished e =
      ((if is_whitespace c then (success, s, t) else (error, s, t)), finished-Agrees c s t e h)
  one_byte find_root e = (at_rest s (find_root_byte c s t), find_root_byte-Agrees c s t e h)
  one_byte find_key_begin e =
      (at_rest s (find_key_begin_byte c s t), find_key_begin_byte-Agrees c s t e h)
  one_byte key_escape e = (at_rest s (key_escape_byte c t), key_escape_byte-Agrees c s t e h)
  one_byte find_value_sep e =
      (at_rest s (find_value_sep_byte c t), find_value_sep_byte-Agrees c s t e h)
  one_byte find_value_begin e =
      (at_rest s (find_value_begin_byte c s t), find_value_begin_byte-Agrees c s t e h)
  one_byte string_escape e =
      (at_rest s (string_escape_byte c t), string_escape_byte-Agrees c s t e h)
  one_byte find_param_sep e =
      (at_rest s (find_param_sep_byte c t), find_param_sep_byte-Agrees c s t e h)
  one_byte find_key_end e = find_key_end_byte-Agrees c s t e h nothing
  one_byte find_string_end e = find_string_end_byte-Agrees c s t e h nothing
  one_byte find_generic_end e = find_generic_end_byte-Agrees c s t e h nothing
  one_byte stream_container e =
      let placed = subst (λ x. Placed x (c ∷ s) t) e h.placed in
      let r = outcome_of (process_container (c ∷ []) t) in
      (
        at_rest s r,
        subst (λ x. Agrees s (at_rest s r) (outcome_of (process_container (c ∷ []) x)))
            (sym (settle_nothing t nothing.0 nothing.1))
            (Sound-Agrees s r
              (one_container (container_byte c t) (container_byte-Contained c s t (h, e, placed)))),
      )

-- A round that is not stopped by a full buffer.
abbrev pub HasRoom : {U : Type 0} → Seen U → Type 0
HasRoom (going t) = Unit {0}
HasRoom (broke u) = Unit {0}
HasRoom (failed result u) = result ≢ buffer_full

Agrees-HasRoom :
    {U : Type 0} (s : Bytes) (x : StreamResult × Bytes × Stream U) (r : Outcome U)
    → Agrees s x r
    → HasRoom (seen r)
Agrees-HasRoom {U} s (success, rest, t) r (same, underway, agrees) =
    subst (λ y. HasRoom y) agrees (either t.callback_break)
  where
    either : (b : Bool) → HasRoom (if b then broke t.user_data else going (settle t))
    either true = tt
    either false = tt
Agrees-HasRoom s (incomplete, rest, t) r agrees = absurd agrees
Agrees-HasRoom s (error, rest, t) r agrees = subst (λ y. HasRoom y) agrees (λ e. cc e)
Agrees-HasRoom s (null_callback, rest, t) r agrees = absurd agrees
Agrees-HasRoom s (buffer_full, rest, t) r agrees = absurd agrees

pub feed_byte-HasRoom :
    {U : Type 0} (c : ℕ) (s : Bytes) (t : Stream U)
    → Resting (c ∷ s) t
    → HasRoom (seen (outcome_of (feed_byte t.state c [] t)))
feed_byte-HasRoom c s t (h, nothing) =
    let (x, agrees) = one_byte c s t h nothing t.state refl in
    Agrees-HasRoom s x (outcome_of (feed_byte t.state c [] t)) (
      subst (λ y. Agrees s x (outcome_of (feed_byte t.state c [] y)))
        (settle_nothing t nothing.0 nothing.1) agrees)

pub feed_byte-Resting :
    {U : Type 0} (c : ℕ) (s : Bytes) (t u : Stream U)
    → Resting (c ∷ s) t
    → seen (outcome_of (feed_byte t.state c [] t)) ≡ going u
    → Resting s u
feed_byte-Resting c s t u (h, nothing) e =
    let (x, agrees) = one_byte c s t h nothing t.state refl in
    Agrees-Resting s x (outcome_of (feed_byte t.state c [] t)) u
      (subst (λ y. Agrees s x (outcome_of (feed_byte t.state c [] y)))
        (settle_nothing t nothing.0 nothing.1) agrees)
      e

-- Behind some of the bytes the stream rests, with room for the others.
abbrev pub AtRest : {U : Type 0} → Bytes → Seen U → Type 0
AtRest s (going t) = Resting s t
AtRest s (broke u) = Unit {0}
AtRest s (failed result u) = Unit {0}
