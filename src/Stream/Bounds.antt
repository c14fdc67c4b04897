-- ===== src/Stream/Bounds.antt =====
-- The scratch buffer of the streaming parser of kason.c: what is written and read lies inside it.
pub mod Values
pub mod Containers
pub mod ContainerLoop
pub mod Phases
pub mod Feed
pub mod Returns
use kason.Base.{
  ℕ, zero, suc, ◌+◌, ◌-◌, ◌≤◌, ◌<◌, Bool, true, false, not, Option, none, some, List, [], ◌∷◌, ◌++◌,
  leb, Bytes, length, length-append, ◌≡◌, ◌≢◌, inl, inr, refl, arith, Bool-cases,
}
use kason.Types.{JsonType}
use kason.Parse.Tokens.{Slice, slice_bytes}
use kason.Stream.State.{
  Phase, find_root, find_key_begin, find_key_end, find_value_sep, find_value_begin, find_string_end,
  find_generic_end, find_param_sep, stream_container, key_escape, string_escape, finished,
  StreamResult, success, incomplete, error, null_callback, buffer_full, StreamEvent, StreamData,
  StreamCallback, Stream, Outcome, on_success, unless_break, clear_scratch, append_scratch,
  copy_loop, key_copied, copy_direct_key, value_copied, copy_direct_value, preserve_direct,
  make_key, after_callback, stream_emit,
}

abbrev pub is_container : Phase → Bool
is_container stream_container = true
is_container find_root = false
is_container find_key_begin = false
is_container find_key_end = false
is_container find_value_sep = false
is_container find_value_begin = false
is_container find_string_end = false
is_container find_generic_end = false
is_container find_param_sep = false
is_container key_escape = false
is_container string_escape = false
is_container finished = false

-- At least one byte of the buffer is in use and at most its size, and the slices in it end among the
-- bytes in use; in a container, whose brackets are taken back, they are reset.
pub record Bounded {U : Type 0} (t : Stream U) : Type 0 where
  pub filled : 1 ≤ length t.scratch
  pub inside : length t.scratch ≤ t.scratch_size
  pub key_inside : t.key_end < length t.scratch
  pub value_inside : t.value_end < length t.scratch
  pub no_key : is_container t.state ≡ true → (t.key_end ≡ 0) × (t.direct_key ≡ none)
  pub no_value : is_container t.state ≡ true → (t.value_end ≡ 0) × (t.direct_value ≡ none)

-- A property of the stream that an operation leaves, whatever it returns.
abbrev pub Leaves : {U : Type 0} → (Stream U → Type 0) → Outcome U → Type 0
Leaves P (result, t) = P t

pub on_success-Leaves :
    {U : Type 0} (P Q : Stream U → Type 0) (r : Outcome U) (later : Stream U → Outcome U)
    → ((t : Stream U) → Q t → P t)
    → Leaves Q r
    → ((t : Stream U) → Q t → Leaves P (later t))
    → Leaves P (on_success r later)
on_success-Leaves P Q (success, t) later weaken q step = step t q
on_success-Leaves P Q (incomplete, t) later weaken q step = weaken t q
on_success-Leaves P Q (error, t) later weaken q step = weaken t q
on_success-Leaves P Q (null_callback, t) later weaken q step = weaken t q
on_success-Leaves P Q (buffer_full, t) later weaken q step = weaken t q

-- In a phase that is not that of a container.
abbrev pub Outside : {U : Type 0} → Stream U → Type 0
Outside t = Bounded t × (is_container t.state ≡ false)

pub outside :
    {U : Type 0} (t : Stream U)
    → 1 ≤ length t.scratch
    → length t.scratch ≤ t.scratch_size
    → t.key_end < length t.scratch
    → t.value_end < length t.scratch
    → is_container t.state ≡ false
    → Outside t
outside t filled inside key value free = (
  record {
    filled = filled;
    inside = inside;
    key_inside = key;
    value_inside = value;
    no_key = λ e. absurd (cc (e, free));
    no_value = λ e. absurd (cc (e, free));
  },
  free,
)

pub append_scratch-Outside :
    {U : Type 0} (c : ℕ) (t : Stream U) → Outside t → Leaves Outside (append_scratch c t)
unfolding append_scratch
append_scratch-Outside c t (b, free) = elim (Bool-cases (leb t.scratch_size (length t.scratch))) [
  | inl p ↦ rw p (b, free)
  | inr p ↦
      let e = length-append t.scratch (c ∷ []) in
      rw p (
        outside (record t { scratch = t.scratch ++ (c ∷ []) }) (omega (arith, e))
          (ground (arith, p, e)) (omega (arith, e, b.key_inside)) (omega (arith, e, b.value_inside))
          free)
]

-- What the copy of a direct slice leaves in the buffer.
abbrev CopiedInside : ℕ → Bytes → StreamResult × Bytes × ℕ → Type 0
CopiedInside size scratch (result, x, end) =
    (length scratch ≤ length x) × (length x ≤ size) × (end < length x)

copy_loop-CopiedInside :
    (size : ℕ) (s scratch : Bytes) (end : ℕ)
    → length scratch ≤ size
    → end < length scratch
    → CopiedInside size scratch (copy_loop size s scratch end)
unfolding copy_loop
copy_loop-CopiedInside size [] scratch end inside lt = (omega arith, inside, lt)
copy_loop-CopiedInside size (c ∷ s) scratch end inside lt =
    elim (Bool-cases (leb size (length scratch))) [
      | inl p ↦ rw p (omega arith, inside, lt)
      | inr p ↦
          let e = length-append scratch (c ∷ []) in
          let x = scratch ++ (c ∷ []) in
          rw p (
            longer (copy_loop size s x (length scratch)) (omega (arith, e)) (
              copy_loop-CopiedInside size s x (length scratch) (ground (arith, p, e))
                (omega (arith, e))))
    ]
  where
    longer :
        (r : StreamResult × Bytes × ℕ)
        → length scratch ≤ length (scratch ++ (c ∷ []))
        → CopiedInside size (scratch ++ (c ∷ [])) r
        → CopiedInside size scratch r
    longer (result, x, end) le (a, b, lt) = (omega (arith, le, a), b, lt)

copy_direct_key-Outside :
    {U : Type 0} (o : Option Slice) (t : Stream U)
    → Outside t
    → Leaves Outside (copy_direct_key o t)
copy_direct_key-Outside none t h = h
copy_direct_key-Outside (some p) t (b, free) =
    copied (copy_loop t.scratch_size (slice_bytes p) t.scratch (length t.scratch - 1)) (
      copy_loop-CopiedInside t.scratch_size (slice_bytes p) t.scratch (length t.scratch - 1)
        b.inside (omega (arith, b.filled)))
  where
    copied :
        (r : StreamResult × Bytes × ℕ)
        → CopiedInside t.scratch_size t.scratch r
        → Leaves Outside (key_copied t r)
    copied (result, x, end) (longer, inside, lt) =
        let u = record t { scratch = x; key_begin = length t.scratch; key_end = end } in
        on_success-Leaves Outside Outside (result, u)
          (λ u. (success, record u { direct_key = none })) (λ u h. h)
          (outside u (omega (arith, b.filled, longer)) inside lt
            (omega (arith, b.value_inside, longer)) free)
          (λ u h.
            outside (record u { direct_key = none }) h.0.filled h.0.inside h.0.key_inside
              h.0.value_inside h.1)

copy_direct_value-Outside :
    {U : Type 0} (o : Option Slice) (t : Stream U)
    → Outside t
    → Leaves Outside (copy_direct_value o t)
copy_direct_value-Outside none t h = h
copy_direct_value-Outside (some p) t (b, free) =
    copied (copy_loop t.scratch_size (slice_bytes p) t.scratch (length t.scratch - 1)) (
      copy_loop-CopiedInside t.scratch_size (slice_bytes p) t.scratch (length t.scratch - 1)
        b.inside (omega (arith, b.filled)))
  where
    copied :
        (r : StreamResult × Bytes × ℕ)
        → CopiedInside t.scratch_size t.scratch r
        → Leaves Outside (value_copied t r)
    copied (result, x, end) (longer, inside, lt) =
        let u = record t { scratch = x; value_begin = length t.scratch; value_end = end } in
        on_success-Leaves Outside Outside (result, u)
          (λ u. (success, record u { direct_value = none })) (λ u h. h)
          (outside u (omega (arith, b.filled, longer)) inside (omega (arith, b.key_inside, longer))
            lt free)
          (λ u h.
            outside (record u { direct_value = none }) h.0.filled h.0.inside h.0.key_inside
              h.0.value_inside h.1)

pub preserve_direct-Outside :
    {U : Type 0} (t : Stream U) → Outside t → Leaves Outside (preserve_direct t)
unfolding preserve_direct
preserve_direct-Outside t h =
    on_success-Leaves Outside Outside (copy_direct_key t.direct_key t)
      (λ u. copy_direct_value u.direct_value u) (λ u q. q)
      (copy_direct_key-Outside t.direct_key t h)
      (λ u q. copy_direct_value-Outside u.direct_value u q)

-- A reset buffer is inside its bounds in every phase.
pub clear_scratch-Bounded :
    {U : Type 0} (t : Stream U) → 1 ≤ t.scratch_size → Bounded (clear_scratch t)
unfolding clear_scratch
clear_scratch-Bounded t le = record {
  filled = ground (arith, le);
  inside = ground (arith, le);
  key_inside = ground (arith, le);
  value_inside = ground (arith, le);
  no_key = λ e. (refl, refl);
  no_value = λ e. (refl, refl);
}
