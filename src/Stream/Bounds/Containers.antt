-- ===== src/Stream/Bounds/Containers.antt =====
-- A byte of a container that the streaming parser of kason.c reads keeps its brackets inside the
-- scratch buffer.
use kason.Base.{
  ℕ, zero, suc, ◌-◌, ◌≤◌, Bool, true, false, not, ◌||◌, [], ◌∷◌, leb, ◌==◌, if◌then◌else◌, Bytes,
  length, take, get_or, ◌≡◌, ◌≢◌, inl, inr, refl, arith, Bool-cases,
}
use kason.Parse.Tokens.{slice_bytes, is_empty}
use kason.Stream.Text.{TextStep, text_error, text_closed, text_next, text_byte}
use kason.Stream.State.{
  success, incomplete, error, null_callback, buffer_full, container_begin, container_part,
  container_end, Stream, Outcome, on_success, unless_break, clear_scratch, append_scratch,
  stream_emit,
}
use kason.Stream.Container.{
  container_match, is_open, is_close, container_kind, container_opened, start_container,
  ContainerStep, refused, final_close, inside, after_text, pushed, popped, structure_byte,
  container_byte, emit_part, container_ended, end_container,
}
use kason.Stream.Bounds.{Bounded, Leaves, on_success-Leaves}
use kason.Stream.Bounds.Values.{
  Cleared, Cleared-Bounded, clear_scratch-Cleared, append_scratch-Cleared, stream_emit-Cleared,
  stream_emit-Bounded, unless_break-Leaves, if-Leaves,
}

pub start_container-Bounded :
    {U : Type 0} (c : ℕ) (t : Stream U) → Bounded t → Leaves Bounded (start_container c t)
unfolding start_container
start_container-Bounded {U} c t h =
    let typed = record t { container_type = container_kind c } in
    let opened = λ (u : Stream U).
      on_success (append_scratch c (clear_scratch u)) (λ v. (success, container_opened v)) in
    unless_break-Leaves Bounded Bounded
      (stream_emit (container_kind c) container_begin (c ∷ []) true typed) opened (λ u q. q)
      (stream_emit-Bounded (container_kind c) container_begin (c ∷ []) true typed (record {
        filled = h.filled;
        inside = h.inside;
        key_inside = h.key_inside;
        value_inside = h.value_inside;
        no_key = h.no_key;
        no_value = h.no_value;
      }))
      (λ u q e.
        on_success-Leaves Bounded Cleared (append_scratch c (clear_scratch u))
          (λ v. (success, container_opened v)) (λ v. Cleared-Bounded v)
          (append_scratch-Cleared c (clear_scratch u)
            (clear_scratch-Cleared u (omega (arith, q.filled, q.inside))))
          (λ v r. Cleared-Bounded (container_opened v) (record {
            holds = r.holds;
            inside = r.inside;
            no_key = r.no_key;
            no_value = r.no_value;
          })))

-- What a byte of a container leaves; it is refused with an error.
abbrev pub StepLeaves : {U : Type 0} → (Stream U → Type 0) → ContainerStep U → Type 0
StepLeaves P (refused result t) = (result ≢ success) × P t
StepLeaves P (final_close t) = P t
StepLeaves P (inside t) = P t

pub length-take : (n : ℕ) (xs : Bytes) → n ≤ length xs → length (take n xs) ≡ n
length-take zero xs le = refl
length-take (suc n) [] le = elim le [ ]
length-take (suc n) (x ∷ xs) le = omega (arith, length-take n xs (omega (arith, le)))

popped-Cleared :
    {U : Type 0} (t : Stream U)
    → leb (length t.scratch) 1 ≡ false
    → Cleared t
    → StepLeaves Cleared (popped (record t { scratch = take (length t.scratch - 1) t.scratch }))
popped-Cleared {U} t more h = closed (length (take (length t.scratch - 1) t.scratch) == 1)
  where
    e : length (take (length t.scratch - 1) t.scratch) ≡ length t.scratch - 1
    e = length-take (length t.scratch - 1) t.scratch (omega arith)

    kept : Cleared (record t { scratch = take (length t.scratch - 1) t.scratch })
    kept = record {
      holds = ground (arith, e, more);
      inside = omega (arith, e, h.inside);
      no_key = h.no_key;
      no_value = h.no_value;
    }

    closed :
        (b : Bool)
        → StepLeaves Cleared (
            let u = record t { scratch = take (length t.scratch - 1) t.scratch } in
            if b then final_close u else inside u)
    closed true = kept
    closed false = kept

pushed-Cleared : {U : Type 0} (r : Outcome U) → Leaves Cleared r → StepLeaves Cleared (pushed r)
pushed-Cleared (success, t) h = h
pushed-Cleared (incomplete, t) h = (λ e. cc e, h)
pushed-Cleared (error, t) h = (λ e. cc e, h)
pushed-Cleared (null_callback, t) h = (λ e. cc e, h)
pushed-Cleared (buffer_full, t) h = (λ e. cc e, h)

if-StepLeaves :
    {U : Type 0} (P : Stream U → Type 0) (b : Bool) (r s : ContainerStep U)
    → (b ≡ true → StepLeaves P r)
    → (b ≡ false → StepLeaves P s)
    → StepLeaves P (if b then r else s)
if-StepLeaves P true r s p q = p refl
if-StepLeaves P false r s p q = q refl

pub or-first : (a b : Bool) → (a || b) ≡ false → a ≡ false
or-first true b e = e
or-first false b e = refl

structure_byte-Cleared :
    {U : Type 0} (c : ℕ) (t : Stream U) → Cleared t → StepLeaves Cleared (structure_byte c t)
unfolding structure_byte
structure_byte-Cleared c t h =
    let top = get_or t.scratch (length t.scratch - 1) 0 in
    let refuses = leb (length t.scratch) 1 || not (container_match top c) in
    let closed = popped (record t { scratch = take (length t.scratch - 1) t.scratch }) in
    elim (Bool-cases (c == b'"')) [
      | inl p ↦
          rw p (record {
            holds = h.holds;
            inside = h.inside;
            no_key = h.no_key;
            no_value = h.no_value;
          })
      | inr p ↦ elim (Bool-cases (is_open c)) [
        | inl q ↦ rw (p, q) (pushed-Cleared (append_scratch c t) (append_scratch-Cleared c t h))
        | inr q ↦ elim (Bool-cases (is_close c)) [
          | inl o ↦
              rw (p, q, o)
                (if-StepLeaves Cleared refuses (refused error t) closed (λ e. (λ f. cc f, h))
                  (λ e.
                    popped-Cleared t
                      (or-first (leb (length t.scratch) 1) (not (container_match top c)) e) h))
          | inr o ↦ rw (p, q, o) h
        ]
      ]
    ]

after_text-Cleared :
    {U : Type 0} (t : Stream U) (x : TextStep) → Cleared t → StepLeaves Cleared (after_text t x)
after_text-Cleared t (text_error x) h = (
  λ e. cc e,
  record { holds = h.holds; inside = h.inside; no_key = h.no_key; no_value = h.no_value },
)
after_text-Cleared t text_closed h = record {
  holds = h.holds;
  inside = h.inside;
  no_key = h.no_key;
  no_value = h.no_value;
}
after_text-Cleared t (text_next x) h = record {
  holds = h.holds;
  inside = h.inside;
  no_key = h.no_key;
  no_value = h.no_value;
}

pub container_byte-Cleared :
    {U : Type 0} (c : ℕ) (t : Stream U) → Cleared t → StepLeaves Cleared (container_byte c t)
unfolding container_byte
container_byte-Cleared c t h =
    if-StepLeaves Cleared t.container_string
      (after_text t (text_byte t.container_text.surrogate_state t.container_text c))
      (structure_byte c t)
      (λ e. after_text-Cleared t (text_byte t.container_text.surrogate_state t.container_text c) h)
      (λ e. structure_byte-Cleared c t h)

pub emit_part-Cleared :
    {U : Type 0} (part_start behind : Bytes) (t : Stream U)
    → Cleared t
    → Leaves Cleared (emit_part part_start behind t)
unfolding emit_part
emit_part-Cleared part_start behind t h =
    let part = slice_bytes (record { begin = part_start; behind = behind }) in
    if-Leaves Cleared (is_empty part) (success, t)
      (stream_emit t.container_type container_part part false t) (λ e. h)
      (λ e. stream_emit-Cleared t.container_type container_part part false t h)

pub end_container-Bounded :
    {U : Type 0} (part_start : Bytes) (c : ℕ) (s : Bytes) (t : Stream U)
    → Cleared t
    → Leaves Bounded (end_container part_start c s t)
unfolding end_container container_ended
end_container-Bounded {U} part_start c s t h =
    let ended = λ (v : Stream U). let r : Outcome U = (success, container_ended v) in r in
    unless_break-Leaves Bounded Cleared (emit_part part_start (c ∷ s) t)
      (λ u. unless_break (stream_emit u.container_type container_end (c ∷ []) false u) ended)
      (λ u. Cleared-Bounded u) (emit_part-Cleared part_start (c ∷ s) t h)
      (λ u q e.
        unless_break-Leaves Bounded Cleared
          (stream_emit u.container_type container_end (c ∷ []) false u) ended
          (λ v. Cleared-Bounded v)
          (stream_emit-Cleared u.container_type container_end (c ∷ []) false u q)
          (λ v r f.
            let k = clear_scratch-Cleared v (omega (arith, r.holds, r.inside)) in
            Cleared-Bounded (container_ended v) (record {
              holds = k.holds;
              inside = k.inside;
              no_key = k.no_key;
              no_value = k.no_value;
            })))
