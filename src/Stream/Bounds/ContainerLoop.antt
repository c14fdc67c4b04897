-- ===== src/Stream/Bounds/ContainerLoop.antt =====
-- The loop of `kason_stream_process_container` of kason.c stays inside the scratch buffer.
use kason.Base.{ℕ, ◌≤◌, [], ◌∷◌, Bytes, length, ◌≡◌, arith}
use kason.Stream.State.{StreamResult, success, Stream, Outcome}
use kason.Stream.Container.{
  ContainerStep, refused, final_close, inside, container_byte, emit_part, end_container,
  next_container, container_loop, process_container,
}
use kason.Stream.Bounds.{Bounded, Leaves}
use kason.Stream.Bounds.Values.{Cleared, Cleared-Bounded}
use kason.Stream.Bounds.Containers.{
  StepLeaves, container_byte-Cleared, emit_part-Cleared, end_container-Bounded,
}

-- What a step leaves of the chunk, at most `n` bytes where it succeeds, and of the stream.
abbrev pub Moves : {U : Type 0} → (Stream U → Type 0) → ℕ → StreamResult × Bytes × Stream U → Type 0
Moves P n (result, s, t) = (result ≡ success → length s ≤ n) × P t

pub Moves-at_most :
    {U : Type 0} (P : Stream U → Type 0) (m n : ℕ) (r : StreamResult × Bytes × Stream U)
    → m ≤ n
    → Moves P m r
    → Moves P n r
Moves-at_most P m n (result, s, t) le (short, p) = (λ e. omega (arith, le, short e), p)

abbrev closed_step : {U : Type 0} → Bytes → Outcome U → StreamResult × Bytes × Stream U
closed_step s (result, t) = (result, s, t)

pub Moves-at_rest :
    {U : Type 0} (P : Stream U → Type 0) (s : Bytes) (r : Outcome U)
    → Leaves P r
    → Moves P (length s) (closed_step s r)
Moves-at_rest P s (result, t) h = (λ e. omega arith, h)

next_container-Moves :
    {U : Type 0} (later : Stream U → StreamResult × Bytes × Stream U) (part_start : Bytes) (c : ℕ)
    (s : Bytes) (x : ContainerStep U)
    → StepLeaves Cleared x
    → ((t : Stream U) → Cleared t → Moves Bounded (length s) (later t))
    → Moves Bounded (length s) (next_container later part_start c s x)
next_container-Moves later part_start c s (refused result t) (fails, h) step =
    (λ e. absurd (fails e), Cleared-Bounded t h)
next_container-Moves later part_start c s (final_close t) h step =
    Moves-at_rest Bounded s (end_container part_start c s t)
      (end_container-Bounded part_start c s t h)
next_container-Moves later part_start c s (inside t) h step = step t h

abbrev pub behind_first : Bytes → ℕ
behind_first [] = 0
behind_first (c ∷ s) = length s

pub behind_first-le : (s : Bytes) → behind_first s ≤ length s
behind_first-le [] = omega arith
behind_first-le (c ∷ s) = omega arith

Leaves-Bounded : {U : Type 0} (r : Outcome U) → Leaves Cleared r → Leaves Bounded r
Leaves-Bounded (result, u) h = Cleared-Bounded u h

container_loop-Moves :
    {U : Type 0} (part_start s : Bytes) (t : Stream U)
    → Cleared t
    → Moves Bounded (behind_first s) (container_loop part_start s t)
unfolding container_loop
container_loop-Moves part_start [] t h =
    Moves-at_rest Bounded [] (emit_part part_start [] t)
      (Leaves-Bounded (emit_part part_start [] t) (emit_part-Cleared part_start [] t h))
container_loop-Moves part_start (c ∷ s) t h =
    next_container-Moves (container_loop part_start s) part_start c s (container_byte c t)
      (container_byte-Cleared c t h)
      (λ u q.
        Moves-at_most Bounded (behind_first s) (length s) (container_loop part_start s u)
          (behind_first-le s) (container_loop-Moves part_start s u q))

pub process_container-Moves :
    {U : Type 0} (c : ℕ) (s : Bytes) (t : Stream U)
    → Cleared t
    → Moves Bounded (length s) (process_container (c ∷ s) t)
unfolding process_container
process_container-Moves c s t h = container_loop-Moves (c ∷ s) (c ∷ s) t h
