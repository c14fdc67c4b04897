-- ===== src/Stream/Bounds/Values.antt =====
-- The values that the streaming parser of kason.c completes leave the scratch buffer reset.
use kason.Base.{
  ℕ, ◌≤◌, Bool, true, false, Option, none, some, [], ◌∷◌, leb, if◌then◌else◌, Bytes, length,
  length-append, ◌≡◌, inl, inr, refl, arith, Bool-cases,
}
use kason.Types.{JsonType, string}
use kason.Stream.State.{
  success, incomplete, error, null_callback, buffer_full, StreamEvent, Stream, Outcome,
  unless_break, clear_scratch, append_scratch, value_bytes, after_callback, stream_emit,
}
use kason.Stream.Tokens.{
  generic_type, commit_primitive, after_completed_value, commit_string, after_generic, commit_typed,
  commit_generic,
}
use kason.Stream.Bounds.{Bounded, Leaves}

-- No slice in the buffer is in use.
pub record Cleared {U : Type 0} (t : Stream U) : Type 0 where
  pub holds : 1 ≤ length t.scratch
  pub inside : length t.scratch ≤ t.scratch_size
  pub no_key : (t.key_end ≡ 0) × (t.direct_key ≡ none)
  pub no_value : (t.value_end ≡ 0) × (t.direct_value ≡ none)

pub Cleared-Bounded : {U : Type 0} (t : Stream U) → Cleared t → Bounded t
Cleared-Bounded t h = record {
  filled = h.holds;
  inside = h.inside;
  key_inside = omega (arith, h.holds, h.no_key.0);
  value_inside = omega (arith, h.holds, h.no_value.0);
  no_key = λ e. h.no_key;
  no_value = λ e. h.no_value;
}

pub clear_scratch-Cleared :
    {U : Type 0} (t : Stream U) → 1 ≤ t.scratch_size → Cleared (clear_scratch t)
unfolding clear_scratch
clear_scratch-Cleared t le = record {
  holds = ground (arith, le);
  inside = ground (arith, le);
  no_key = (refl, refl);
  no_value = (refl, refl);
}

pub append_scratch-Cleared :
    {U : Type 0} (c : ℕ) (t : Stream U) → Cleared t → Leaves Cleared (append_scratch c t)
unfolding append_scratch
append_scratch-Cleared c t h = elim (Bool-cases (leb t.scratch_size (length t.scratch))) [
  | inl p ↦ rw p h
  | inr p ↦
      let e = length-append t.scratch (c ∷ []) in
      rw p (record {
        holds = omega (arith, e);
        inside = ground (arith, p, e);
        no_key = h.no_key;
        no_value = h.no_value;
      })
]

pub stream_emit-Cleared :
    {U : Type 0} (kind : JsonType) (event : StreamEvent) (text : Bytes) (include_key : Bool)
    (t : Stream U)
    → Cleared t
    → Leaves Cleared (stream_emit kind event text include_key t)
unfolding stream_emit
stream_emit-Cleared {U} kind event text include_key t h = answered _
  where
    answered : (a : Bool × U) → Leaves Cleared (after_callback t a)
    answered (true, u) = record {
      holds = h.holds;
      inside = h.inside;
      no_key = h.no_key;
      no_value = h.no_value;
    }
    answered (false, u) = record {
      holds = h.holds;
      inside = h.inside;
      no_key = h.no_key;
      no_value = h.no_value;
    }

pub stream_emit-Bounded :
    {U : Type 0} (kind : JsonType) (event : StreamEvent) (text : Bytes) (include_key : Bool)
    (t : Stream U)
    → Bounded t
    → Leaves Bounded (stream_emit kind event text include_key t)
unfolding stream_emit
stream_emit-Bounded {U} kind event text include_key t h = answered _
  where
    answered : (a : Bool × U) → Leaves Bounded (after_callback t a)
    answered (true, u) = record {
      filled = h.filled;
      inside = h.inside;
      key_inside = h.key_inside;
      value_inside = h.value_inside;
      no_key = λ e. absurd (cc e);
      no_value = λ e. absurd (cc e);
    }
    answered (false, u) = record {
      filled = h.filled;
      inside = h.inside;
      key_inside = h.key_inside;
      value_inside = h.value_inside;
      no_key = h.no_key;
      no_value = h.no_value;
    }

pub if-Leaves :
    {U : Type 0} (P : Stream U → Type 0) (b : Bool) (r s : Outcome U)
    → (b ≡ true → Leaves P r)
    → (b ≡ false → Leaves P s)
    → Leaves P (if b then r else s)
if-Leaves P true r s p q = p refl
if-Leaves P false r s p q = q refl

-- The two ways on from a call of the callback.
pub unless_break-Leaves :
    {U : Type 0} (P Q : Stream U → Type 0) (r : Outcome U) (later : Stream U → Outcome U)
    → ((t : Stream U) → Q t → P t)
    → Leaves Q r
    → ((t : Stream U) → Q t → t.callback_break ≡ false → Leaves P (later t))
    → Leaves P (unless_break r later)
unless_break-Leaves P Q (success, t) later weaken q step =
    if-Leaves P t.callback_break (success, t) (later t) (λ e. weaken t q) (step t q)
unless_break-Leaves P Q (incomplete, t) later weaken q step = weaken t q
unless_break-Leaves P Q (error, t) later weaken q step = weaken t q
unless_break-Leaves P Q (null_callback, t) later weaken q step = weaken t q
unless_break-Leaves P Q (buffer_full, t) later weaken q step = weaken t q

-- The buffer behind a primitive value, unless the callback breaks.
abbrev Committed : {U : Type 0} → Stream U → Type 0
Committed t = Bounded t × (t.callback_break ≡ false → Cleared t)

commit_primitive-Committed :
    {U : Type 0} (kind : JsonType) (t : Stream U)
    → Bounded t
    → Leaves Committed (commit_primitive kind t)
unfolding commit_primitive stream_emit
commit_primitive-Committed {U} kind t h = answered _
  where
    answered :
        (a : Bool × U)
        → Leaves Committed (unless_break (after_callback t a) (λ u. (success, clear_scratch u)))
    answered (true, u) = (
      record {
        filled = h.filled;
        inside = h.inside;
        key_inside = h.key_inside;
        value_inside = h.value_inside;
        no_key = λ e. absurd (cc e);
        no_value = λ e. absurd (cc e);
      },
      λ e. absurd (cc e),
    )
    answered (false, u) =
        let v = record t { user_data = u } in
        let kept : Bounded v = record {
          filled = h.filled;
          inside = h.inside;
          key_inside = h.key_inside;
          value_inside = h.value_inside;
          no_key = h.no_key;
          no_value = h.no_value;
        } in
        let reset = clear_scratch-Cleared v (omega (arith, h.filled, h.inside)) in
        if-Leaves Committed t.callback_break (success, v) (success, clear_scratch v)
          (λ e. (kept, λ f. absurd (cc (e, f))))
          (λ e. (Cleared-Bounded (clear_scratch v) reset, λ f. reset))

-- Phases and marks may change behind a completed value.
after_generic-Cleared :
    {U : Type 0} (delimiter : ℕ) (t : Stream U) → Cleared t → Cleared (after_generic delimiter t)
unfolding after_generic
after_generic-Cleared delimiter t h = record {
  holds = ground (arith, h.holds);
  inside = ground (arith, h.inside);
  no_key = (ground (arith, h.no_key.0), ground (arith, h.no_key.1));
  no_value = (ground (arith, h.no_value.0), ground (arith, h.no_value.1));
}

after_completed_value-Cleared :
    {U : Type 0} (t : Stream U) → Cleared t → Cleared (after_completed_value t)
unfolding after_completed_value
after_completed_value-Cleared t h = record {
  holds = ground (arith, h.holds);
  inside = ground (arith, h.inside);
  no_key = (ground (arith, h.no_key.0), ground (arith, h.no_key.1));
  no_value = (ground (arith, h.no_value.0), ground (arith, h.no_value.1));
}

pub commit_string-Bounded :
    {U : Type 0} (t : Stream U) → Bounded t → Leaves Bounded (commit_string t)
unfolding commit_string
commit_string-Bounded t h =
    unless_break-Leaves Bounded Committed (commit_primitive string t)
      (λ u. (success, after_completed_value u)) (λ u q. q.0) (commit_primitive-Committed string t h)
      (λ u q e. Cleared-Bounded (after_completed_value u) (after_completed_value-Cleared u (q.1 e)))

pub commit_generic-Bounded :
    {U : Type 0} (delimiter : ℕ) (t : Stream U)
    → Bounded t
    → Leaves Bounded (commit_generic delimiter t)
unfolding commit_generic
commit_generic-Bounded delimiter t h = typed (generic_type (value_bytes t))
  where
    typed : (o : Option JsonType) → Leaves Bounded (commit_typed delimiter t o)
    typed none = h
    typed (some kind) =
        unless_break-Leaves Bounded Committed (commit_primitive kind t)
          (λ u. (success, after_generic delimiter u)) (λ u q. q.0)
          (commit_primitive-Committed kind t h)
          (λ u q e.
            Cleared-Bounded (after_generic delimiter u) (after_generic-Cleared delimiter u (q.1 e)))
