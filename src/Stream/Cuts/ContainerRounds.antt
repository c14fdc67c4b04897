-- ===== src/Stream/Cuts/ContainerRounds.antt =====
-- The rounds of `kason_stream_process_container` of kason.c do not depend on the cuts, for a callback
-- that takes no notice of the parts.
use kason.Base.{
  ℕ, ◌≤◌, Bool, true, false, Option, none, some, [], ◌∷◌, if◌then◌else◌, Bytes, length, ◌≡◌, inl,
  inr, refl, sym, ◌∙◌, ap, subst, arith, Bool-cases,
}
use kason.Parse.Tokens.{slice_bytes, is_empty}
use kason.Stream.State.{
  success, container_part, container_end, StreamData, Stream, Outcome, unless_break, clear_scratch,
  after_callback, stream_emit,
}
use kason.Stream.Container.{
  ContainerStep, refused, final_close, inside, container_byte, emit_part, container_ended,
  end_container, next_container, container_loop, process_container,
}
use kason.Stream.Feed.{at_rest}
use kason.Stream.Calls.{feed_byte, next_round}
use kason.Stream.Bounds.ContainerLoop.{behind_first, behind_first-le}
use kason.Stream.Cuts.Settle.{settle_nothing}
use kason.Stream.Cuts.Drip.{
  going, seen, outcome_of, proceed, drip, observe_call, at_end, Agrees-next_round, IgnoresParts,
}
use kason.Stream.Cuts.Between.{held}
use kason.Stream.Cuts.Grow.{seen-settled}
use kason.Stream.Cuts.Escapes.{Sound, Sound-Agrees}
use kason.Stream.Cuts.Keys.{DripsUpto}
use kason.Stream.Cuts.Containers.{Contained, StepContained, container_byte-Contained}

-- A part that the callback takes no notice of.
pub emit_part-ignored :
    {U : Type 0} (part_start rest : Bytes) (t : Stream U)
    → IgnoresParts t.callback
    → emit_part part_start rest t ≡ (success, t)
unfolding emit_part stream_emit
emit_part-ignored part_start rest t ignores =
    let bytes = slice_bytes (record { begin = part_start; behind = rest }) in
    let sent : StreamData = record {
      type = t.container_type;
      event = container_part;
      text = bytes;
    } in
    elim (Bool-cases (is_empty bytes)) [
      | inl p ↦
          ap (λ b. if b then (success, t) else after_callback t (t.callback none sent t.user_data))
            p
      | inr p ↦
          ap (λ b. if b then (success, t) else after_callback t (t.callback none sent t.user_data))
            p
          ∙ ap (after_callback t) (ignores sent t.user_data refl)
    ]

-- The end of the whole container.
abbrev pub ended : {U : Type 0} → ℕ → Stream U → Outcome U
ended c t =
    unless_break (stream_emit t.container_type container_end (c ∷ []) false t)
      (λ v. (success, container_ended v))

pub end_container-ended :
    {U : Type 0} (part_start : Bytes) (c : ℕ) (s : Bytes) (t : Stream U)
    → IgnoresParts t.callback
    → t.callback_break ≡ false
    → end_container part_start c s t ≡ ended c t
unfolding end_container
end_container-ended part_start c s t ignores quiet =
    ap (λ r. unless_break r (λ u. ended c u)) (emit_part-ignored part_start (c ∷ s) t ignores)
    ∙ ap (λ b. if b then (success, t) else ended c t) quiet

pub ended-Sound :
    {U : Type 0} (c : ℕ) (s : Bytes) (t : Stream U) → Contained s t → Sound s (ended c t)
unfolding stream_emit container_ended clear_scratch
ended-Sound {U} c s t (h, state, rest) = answered (
    t.callback none (record { type = t.container_type; event = container_end; text = c ∷ [] })
      t.user_data)
  where
    answered :
        (a : Bool × U)
        → Sound s (unless_break (after_callback t a) (λ v. (success, container_ended v)))
    answered (true, u) = λ q. absurd (cc q)
    answered (false, u) =
        let v = record t { user_data = u } in
        let w = container_ended v in
        subst {A = Outcome U} (λ r. Sound s r)
          (sym (ap (λ b. if b then (success, v) else (success, w)) h.quiet))
          (λ q.
            let n : length (clear_scratch v).scratch ≡ 1 =
              ground (arith, h.filled, h.room, held t) in
            record {
              filled = omega (arith, n);
              key_inside = omega (arith, n);
              room = omega (arith, held w, held t, h.filled, h.room, n);
              quiet = h.quiet;
              ignores = h.ignores;
              placed = (refl, refl);
            })

module _ {U : Type 0} (later : Bytes → Stream U → Option (Outcome U)) (n : ℕ)
    (behind : DripsUpto later n) where
  container_step :
      (part_start : Bytes) (c : ℕ) (s : Bytes) (x : ContainerStep U)
      → length s ≤ n
      → StepContained s x
      → ((t : Stream U)
          → Contained s t
          → observe_call (next_round later (container_loop part_start s t))
            ≡ some (at_end (drip s t)))
      → observe_call
          (next_round later (next_container (container_loop part_start s) part_start c s x))
        ≡ some (
            at_end (
              proceed
                (drip s)
                (seen (outcome_of (next_container (container_loop (c ∷ []) []) (c ∷ []) c [] x)))))
  unfolding container_loop
  container_step part_start c s (refused result t) le e inner = rw e refl
  container_step part_start c s (final_close t) le h inner =
      let e = end_container-ended part_start c s t h.0.ignores h.0.quiet in
      let f = end_container-ended (c ∷ []) c [] t h.0.ignores h.0.quiet in
      ap (λ r. observe_call (next_round later (at_rest s r))) e
      ∙ Agrees-next_round later s (at_rest s (ended c t)) (outcome_of (at_rest [] (ended c t)))
          (behind s le) (Sound-Agrees s (ended c t) (ended-Sound c s t h))
      ∙ ap (λ r. some (at_end (proceed (drip s) (seen (outcome_of (at_rest [] r)))))) (sym f)
  container_step part_start c s (inside t) le h inner =
      let e = emit_part-ignored (c ∷ []) [] t h.0.ignores in
      let (nothing, zero_end) = h.2 in
      inner t h
      ∙ ap (λ y. some (at_end (proceed (drip s) y)))
          (sym (
            ap (λ r. seen (outcome_of (at_rest [] r))) e
            ∙ seen-settled t h.0.quiet nothing.0 nothing.1))

  pub container_loop-drips :
      (part_start s : Bytes) (t : Stream U)
      → behind_first s ≤ n
      → Contained s t
      → observe_call (next_round later (container_loop part_start s t)) ≡ some (at_end (drip s t))
  unfolding container_loop drip feed_byte process_container
  container_loop-drips part_start [] t le h =
      let (nothing, zero_end) = h.2 in
      ap (λ r. observe_call (next_round later (at_rest [] r)))
        (emit_part-ignored part_start [] t h.0.ignores)
      ∙ ap (λ b. observe_call (if b then some (success, t) else later [] t)) h.0.quiet
      ∙ behind [] (omega arith) t h.0
      ∙ ap (λ x. some (at_end (going x))) (settle_nothing t nothing.0 nothing.1)
  container_loop-drips part_start (c ∷ s) t le h =
      container_step part_start c s (container_byte c t) le (container_byte-Contained c s t h)
        (λ u q. container_loop-drips part_start s u (omega (arith, behind_first-le s, le)) q)
      ∙ ap (λ phase. some (at_end (proceed (drip s) (seen (outcome_of (feed_byte phase c [] t))))))
          (sym h.1)
