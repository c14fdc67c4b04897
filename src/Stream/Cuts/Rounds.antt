-- ===== src/Stream/Cuts/Rounds.antt =====
-- Whole chunks: `kason_stream_feed` of kason.c on a chunk gives what its bytes give one by one, and so
-- the input may be cut anywhere.
use kason.Base.{
  ℕ, zero, suc, ◌<◌, Bool, true, false, Option, none, some, [], ◌∷◌, if◌then◌else◌, Bytes, length,
  ◌≡◌, refl, sym, ◌∙◌, ap, subst, arith,
}
use kason.Chars.{is_whitespace}
use kason.Stream.State.{
  Phase, find_root, find_key_begin, find_key_end, find_value_sep, find_value_begin, find_string_end,
  find_generic_end, find_param_sep, stream_container, key_escape, string_escape, finished,
  StreamResult, success, incomplete, error, Stream, Outcome, on_success,
}
use kason.Stream.Container.{process_container}
use kason.Stream.Feed.{
  at_rest, find_root_byte, find_key_begin_byte, key_escape_byte, find_value_sep_byte,
  find_value_begin_byte, string_escape_byte, find_param_sep_byte,
}
use kason.Stream.Calls.{is_finished, feed_byte, feed_end, next_round, feed_loop}
use kason.Stream.Cuts.Settle.{settle, settle_nothing, preserve_direct-room}
use kason.Stream.Cuts.Drip.{
  going, seen, outcome_of, proceed, drip, observe, observe_call, at_end, Placed, Underway, Agrees,
  Agrees-next_round, Drips,
}
use kason.Stream.Cuts.Separators.{
  finished-Agrees, find_root_byte-Agrees, find_key_begin_byte-Agrees, find_param_sep_byte-Agrees,
  find_value_sep_byte-Agrees,
}
use kason.Stream.Cuts.Keys.{DripsUpto}
use kason.Stream.Cuts.KeyRounds.{find_key_end_byte-drips, key_escape_byte-Agrees}
use kason.Stream.Cuts.Values.{find_string_end_byte-drips, find_generic_end_byte-drips}
use kason.Stream.Cuts.Begins.{string_escape_byte-Agrees}
use kason.Stream.Cuts.Opens.{find_value_begin_byte-Agrees}
use kason.Stream.Cuts.ContainerRounds.{container_loop-drips}

module _ {U : Type 0} (later : Bytes → Stream U → Option (Outcome U)) (c : ℕ) (s : Bytes)
    (t : Stream U) (h : Underway (c ∷ s) t) (behind : DripsUpto later (length s)) where
  agreed :
      (x : StreamResult × Bytes × Stream U) (r : Outcome U)
      → Agrees s x r
      → observe_call (next_round later x) ≡ some (at_end (proceed (drip s) (seen r)))
  agreed x r a = Agrees-next_round later s x r (behind s (omega arith)) a

  container-drips :
      t.state ≡ stream_container
      → observe_call (next_round later (process_container (c ∷ s) t))
        ≡ some
            (at_end (proceed (drip s) (seen (outcome_of (process_container (c ∷ []) (settle t))))))
  unfolding process_container drip feed_byte
  container-drips e =
      let (nothing, zero_end) = subst (λ x. Placed x (c ∷ s) t) e h.placed in
      let settled = settle_nothing t nothing.0 nothing.1 in
      container_loop-drips later (length s) behind (c ∷ s) (c ∷ s) t (omega arith)
        (h, e, (nothing, zero_end))
      ∙ ap (λ phase. some (at_end (proceed (drip s) (seen (outcome_of (feed_byte phase c [] t))))))
          e
      ∙ ap
          (λ x. some (at_end (proceed (drip s) (seen (outcome_of (process_container (c ∷ []) x))))))
          (sym settled)

  feed_byte-drips :
      (phase : Phase)
      → t.state ≡ phase
      → observe_call (next_round later (feed_byte phase c s t))
        ≡ some (at_end (proceed (drip s) (seen (outcome_of (feed_byte phase c [] (settle t))))))
  unfolding feed_byte
  feed_byte-drips finished e =
      agreed (if is_whitespace c then (success, s, t) else (error, s, t))
        (outcome_of
          (let x = settle t in if is_whitespace c then (success, [], x) else (error, [], x)))
        (finished-Agrees c s t e h)
  feed_byte-drips find_root e =
      agreed (at_rest s (find_root_byte c s t))
        (outcome_of (at_rest [] (find_root_byte c [] (settle t)))) (find_root_byte-Agrees c s t e h)
  feed_byte-drips find_key_begin e =
      agreed (at_rest s (find_key_begin_byte c s t))
        (outcome_of (at_rest [] (find_key_begin_byte c [] (settle t))))
        (find_key_begin_byte-Agrees c s t e h)
  feed_byte-drips find_key_end e = find_key_end_byte-drips later c s t h behind e
  feed_byte-drips key_escape e =
      agreed (at_rest s (key_escape_byte c t))
        (outcome_of (at_rest [] (key_escape_byte c (settle t)))) (key_escape_byte-Agrees c s t e h)
  feed_byte-drips find_value_sep e =
      agreed (at_rest s (find_value_sep_byte c t))
        (outcome_of (at_rest [] (find_value_sep_byte c (settle t))))
        (find_value_sep_byte-Agrees c s t e h)
  feed_byte-drips find_value_begin e =
      agreed (at_rest s (find_value_begin_byte c s t))
        (outcome_of (at_rest [] (find_value_begin_byte c [] (settle t))))
        (find_value_begin_byte-Agrees c s t e h)
  feed_byte-drips find_string_end e = find_string_end_byte-drips later c s t h behind e
  feed_byte-drips string_escape e =
      agreed (at_rest s (string_escape_byte c t))
        (outcome_of (at_rest [] (string_escape_byte c (settle t))))
        (string_escape_byte-Agrees c s t e h)
  feed_byte-drips find_generic_end e = find_generic_end_byte-drips later c s t h behind e
  feed_byte-drips find_param_sep e =
      agreed (at_rest s (find_param_sep_byte c t))
        (outcome_of (at_rest [] (find_param_sep_byte c (settle t))))
        (find_param_sep_byte-Agrees c s t e h)
  feed_byte-drips stream_container e = container-drips e

-- The end of a chunk.
feed_end-observed :
    {U : Type 0} (t : Stream U) → Underway [] t → observe (feed_end t) ≡ at_end (going (settle t))
unfolding feed_end settle
feed_end-observed t h =
    ap (λ r. observe (on_success r (λ u. (if is_finished u.state then success else incomplete, u))))
      (preserve_direct-room t (omega (arith, h.room)))
    ∙ ended (is_finished t.state)
  where
    ended :
        (b : Bool)
        → observe (if b then success else incomplete, settle t)
          ≡ (if b then success else incomplete, t.user_data, some (settle t))
    ended true = ap (λ b. (success, t.user_data, if b then none else some (settle t))) h.quiet
    ended false = refl

pub feed_loop-Drips :
    {U : Type 0} (fuel : ℕ) (s : Bytes) → length s < fuel → Drips {U = U} (feed_loop fuel) s
unfolding feed_loop drip settle
feed_loop-Drips zero s lt t h = elim lt [ ]
feed_loop-Drips (suc fuel) [] lt t h = ap some (feed_end-observed t h)
feed_loop-Drips (suc fuel) (c ∷ s) lt t h =
    feed_byte-drips (feed_loop fuel) c s t h
      (λ x le u q. feed_loop-Drips fuel x (omega (arith, le, lt)) u q) t.state refl
