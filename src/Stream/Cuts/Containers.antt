-- ===== src/Stream/Cuts/Containers.antt =====
-- The bytes of a container in `kason_stream_process_container` of kason.c, in the middle of a chunk.
use kason.Base.{
  ℕ, ◌-◌, ◌<◌, Bool, true, false, not, ◌||◌, [], ◌∷◌, ◌++◌, leb, ◌==◌, if◌then◌else◌, Bytes, length,
  length-append, take, get_or, ◌≡◌, inl, inr, refl, sym, ◌∙◌, ap, subst, arith, Bool-cases,
}
use kason.Stream.Text.{clear_text, TextStep, text_error, text_closed, text_next, text_byte}
use kason.Stream.State.{stream_container, error, Stream, append_scratch}
use kason.Stream.Container.{
  container_match, is_open, is_close, ContainerStep, refused, final_close, inside, after_text,
  pushed, popped, structure_byte, container_byte,
}
use kason.Stream.Bounds.Containers.{length-take, or-first}
use kason.Stream.Cuts.Settle.{part, settle_nothing}
use kason.Stream.Cuts.Drip.{Nothing, Placed, Underway}
use kason.Stream.Cuts.Between.{held, Underway-step}
use kason.Stream.Cuts.Grow.{append_scratch-room}
use kason.Stream.Cuts.Escapes.{Underway-append}

-- A stream in a container.
abbrev pub Contained : {U : Type 0} → Bytes → Stream U → Type 0
Contained s t = Underway s t × (t.state ≡ stream_container) × (Nothing t × (t.key_end ≡ 0))

-- What a byte of a container leaves.
abbrev pub StepContained : {U : Type 0} → Bytes → ContainerStep U → Type 0
StepContained s (refused result t) = result ≡ error
StepContained s (final_close t) = Contained s t
StepContained s (inside t) = Contained s t

if-StepContained :
    {U : Type 0} (s : Bytes) (b : Bool) (x y : ContainerStep U)
    → (b ≡ true → StepContained s x)
    → (b ≡ false → StepContained s y)
    → StepContained s (if b then x else y)
if-StepContained s true x y p q = p refl
if-StepContained s false x y p q = q refl

module _ {U : Type 0} (c : ℕ) (s : Bytes) (t : Stream U) (h : Contained (c ∷ s) t) where
  -- The buffer and the slices stay.
  stays :
      (u : Stream U)
      → u.scratch ≡ t.scratch
      → u.scratch_size ≡ t.scratch_size
      → u.key_end ≡ t.key_end
      → u.callback_break ≡ t.callback_break
      → u.callback ≡ t.callback
      → u.direct_key ≡ t.direct_key
      → u.direct_value ≡ t.direct_value
      → u.state ≡ t.state
      → Contained s u
  stays u scratch size key quiet callback k v e =
      let (underway, state, (nothing, zero_end)) = h in
      let at : (Nothing u) × (u.key_end ≡ 0) = ((k ∙ nothing.0, v ∙ nothing.1), key ∙ zero_end) in
      (
        Underway-step c s t u underway scratch size key quiet callback
            (omega (arith, ap (λ o. length (part o)) k, ap (λ o. length (part o)) v))
            (subst (λ x. Placed x s u) (sym (e ∙ state)) at),
        e ∙ state,
        at,
      )

  text-Contained : (x : TextStep) → StepContained s (after_text t x)
  text-Contained (text_error x) = refl
  text-Contained text_closed =
      stays (record t { container_string = false }) refl refl refl refl refl refl refl refl
  text-Contained (text_next x) =
      stays (record t { container_text = x }) refl refl refl refl refl refl refl refl

  pushed-Contained : StepContained s (pushed (append_scratch c t))
  pushed-Contained =
      let (underway, state, (nothing, zero_end)) = h in
      let settled = settle_nothing t nothing.0 nothing.1 in
      let room : length t.scratch < t.scratch_size =
        omega (arith, underway.room, ap (λ x. length (x.scratch)) settled) in
      let u = record t { scratch = t.scratch ++ (c ∷ []) } in
      subst (λ r. StepContained s (pushed r)) (sym (append_scratch-room c t room))
        (
          Underway-append c s t u underway (ap (λ x. x.scratch ++ (c ∷ [])) (sym settled)) refl
              (omega (arith, zero_end, length-append t.scratch (c ∷ []))) refl refl nothing
              (subst (λ x. Placed x s u) (sym state) (nothing, zero_end)),
          state,
          (nothing, zero_end),
        )

  popped-Contained :
      leb (length t.scratch) 1 ≡ false
      → StepContained s (popped (record t { scratch = take (length t.scratch - 1) t.scratch }))
  popped-Contained more =
      let (underway, state, (nothing, zero_end)) = h in
      let u = record t { scratch = take (length t.scratch - 1) t.scratch } in
      let n = length-take (length t.scratch - 1) t.scratch (omega arith) in
      let k = ap (λ o. length (part o)) nothing.0 in
      let v = ap (λ o. length (part o)) nothing.1 in
      let kept : Contained s u = (
        record {
          filled = ground (arith, n, more);
          key_inside = ground (arith, n, more, zero_end);
          room = omega (arith, held u, held t, n, k, v, underway.room);
          quiet = underway.quiet;
          ignores = underway.ignores;
          placed = subst (λ x. Placed x s u) (sym state) (nothing, zero_end);
        },
        state,
        (nothing, zero_end),
      ) in
      if-StepContained s (length u.scratch == 1) (final_close u) (inside u) (λ e. kept) (λ e. kept)

  structure_byte-Contained : StepContained s (structure_byte c t)
  unfolding structure_byte
  structure_byte-Contained =
      let top = get_or t.scratch (length t.scratch - 1) 0 in
      let fails = leb (length t.scratch) 1 || not (container_match top c) in
      let closed = popped (record t { scratch = take (length t.scratch - 1) t.scratch }) in
      elim (Bool-cases (c == b'"')) [
        | inl p ↦ rw p (
            stays (record t { container_string = true; container_text = clear_text }) refl refl refl
              refl refl refl refl refl)
        | inr p ↦ elim (Bool-cases (is_open c)) [
          | inl q ↦ rw (p, q) pushed-Contained
          | inr q ↦ elim (Bool-cases (is_close c)) [
            | inl o ↦
                rw (p, q, o)
                  (if-StepContained s fails (refused error t) closed (λ e. refl)
                    (λ e.
                      popped-Contained
                        (or-first (leb (length t.scratch) 1) (not (container_match top c)) e)))
            | inr o ↦ rw (p, q, o) (stays t refl refl refl refl refl refl refl refl)
          ]
        ]
      ]

  pub container_byte-Contained : StepContained s (container_byte c t)
  unfolding container_byte
  container_byte-Contained =
      let x = text_byte t.container_text.surrogate_state t.container_text c in
      if-StepContained s t.container_string (after_text t x) (structure_byte c t)
        (λ e. text-Contained x) (λ e. structure_byte-Contained)
