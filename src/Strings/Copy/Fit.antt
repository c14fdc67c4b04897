-- ===== src/Strings/Copy/Fit.antt =====
-- What the copies write and return, for every buffer size.
use kason.Base.{
  ℕ, ◌+◌, ◌-◌, ◌≤◌, Bool, true, false, none, some, List, [], ◌∷◌, ◌++◌, leb, if◌then◌else◌, Bytes,
  length, foldl, ◌≡◌, refl, sym, ap, ◌∙◌, inl, inr, arith, append_assoc, append-nil, length-append,
  Bool-cases, leb→le,
}
use kason.Base.Int.{pos}
use kason.Strings.Loop.{ended, scalar_loop, Decodes, scalar_loop-foldl}
use kason.Strings.Copy.{Copy, empty_copy, copy_scalar, copied, copy_units}

copied-ended :
    (complete : Bool) (c : Copy) {n : ℕ} {out : List ℕ}
    → c.written ≡ n
    → c.buffer ≡ out
    → copied (ended complete c) ≡ ((if complete then some n else none), out)
copied-ended true c count front = cc
copied-ended false c count front = cc

module _ (units : ℕ → List ℕ) where
  -- The units of all the scalars.
  abbrev pub all_units : List ℕ → List ℕ
  all_units [] = []
  all_units (v ∷ vs) = units v ++ all_units vs

  -- The longest front of the scalars whose units fit `room`; no scalar is cut, and none follows one
  -- that was left out.
  abbrev pub fitting : ℕ → List ℕ → List ℕ
  fitting room [] = []
  fitting room (v ∷ vs) =
      if leb (length (units v)) room then v ∷ fitting (room - length (units v)) vs else []

  copy_full :
      (size : ℕ) (vs : List ℕ) (c : Copy)
      → c.full ≡ true
      → foldl (copy_scalar units (some size)) c vs ≡ c
  unfolding copy_scalar
  copy_full size [] c h = refl
  copy_full size (v ∷ vs) c h = ground (arith, copy_full size vs c h)

  copy_room :
      (size v : ℕ) (c : Copy)
      → c.full ≡ false
      → leb (length (units v)) (size - c.written) ≡ true
      → copy_scalar units (some size) c v
        ≡ record c { buffer = c.buffer ++ units v; written = c.written + length (units v) }
  unfolding copy_scalar
  copy_room size v c open_ room = rw (open_, room)

  copy_tight :
      (size v : ℕ) (c : Copy)
      → leb (length (units v)) (size - c.written) ≡ false
      → copy_scalar units (some size) c v ≡ record c { full = true }
  unfolding copy_scalar
  copy_tight size v c tight = ground arith

  copy_fitting :
      (size : ℕ) (vs : List ℕ) (c : Copy)
      → c.full ≡ false
      → c.written ≤ size
      → c.written ≡ length c.buffer
      → (c' : Copy) × (foldl (copy_scalar units (some size)) c vs ≡ c')
        × (c'.buffer ≡ c.buffer ++ all_units (fitting (size - c.written) vs))
        × (c'.written ≡ length c'.buffer)
        × (c'.written ≤ size)
  copy_fitting size [] c open_ fits sized = (c, refl, sym (append-nil c.buffer), sized, fits)
  copy_fitting size (v ∷ vs) c open_ fits sized =
      elim (Bool-cases (leb (length (units v)) (size - c.written))) [
        | inl room ↦
            let k = length (units v) in
            let c1 = record c { buffer = c.buffer ++ units v; written = c.written + k } in
            let step : copy_scalar units (some size) c v ≡ c1 = copy_room size v c open_ room in
            let bound : c.written + k ≤ size = omega (arith, fits, leb→le _ _ room) in
            let sized1 : c.written + k ≡ length (c.buffer ++ units v) =
              omega (arith, sized, length-append c.buffer (units v)) in
            let (c', run, buffer, total, below) = copy_fitting size vs c1 open_ bound sized1 in
            let left : size - (c.written + k) ≡ size - c.written - k = omega arith in
            (
              c',
              rw step run,
              buffer ∙ rw (room, left) (append_assoc c.buffer (units v) _),
              total,
              below,
            )
        | inr tight ↦
            let c1 = record c { full = true } in
            let step : copy_scalar units (some size) c v ≡ c1 = copy_tight size v c tight in
            (
              c1,
              rw step (copy_full size vs c1 refl),
              rw tight (sym (append-nil c.buffer)),
              sized,
              fits,
            )
      ]

  copy_counts :
      (vs : List ℕ) (c : Copy)
      → foldl (copy_scalar units none) c vs
        ≡ record c { written = c.written + length (all_units vs) }
  unfolding copy_scalar
  copy_counts [] c = ground arith
  copy_counts (v ∷ vs) c = ground (
    arith,
    copy_counts vs (record c { written = c.written + length (units v) }),
    length-append (units v) (all_units vs),
  )

  -- A copy writes the units of the longest front of the decoded scalars that the buffer has room
  -- for, never more than the buffer holds, and returns their number; it returns an error exactly
  -- when the slice does not decode to its end, and then has written the same front.
  pub copy_units-fitting :
      (s : Bytes) (size : ℕ) {vs : List ℕ} {complete : Bool}
      → Decodes true s vs complete
      → (copy_units units (some s) true (pos size) ≡ (
        (if complete then some (length (all_units (fitting size vs))) else none),
        all_units (fitting size vs),
      ))
        × (length (all_units (fitting size vs)) ≤ size)
  unfolding copy_units
  copy_units-fitting s size {vs} {complete} d =
      let (c, run, buffer, total, below) =
        copy_fitting size vs empty_copy refl (omega arith) refl in
      let room : size - 0 ≡ size = omega arith in
      let front : c.buffer ≡ all_units (fitting size vs) = buffer ∙ rw room in
      let count : c.written ≡ length (all_units (fitting size vs)) = total ∙ ap length front in
      let looped : scalar_loop (copy_scalar units (some size)) empty_copy (some s)
          ≡ ended complete c =
        scalar_loop-foldl (copy_scalar units (some size)) empty_copy s d
        ∙ ap (ended complete) run in
      (ap copied looped ∙ copied-ended complete c count front, omega (arith, count, below))

  -- With a NULL buffer the units are counted and nothing is written.
  pub copy_units-counts :
      (s : Bytes) (size : ℕ) {vs : List ℕ} {complete : Bool}
      → Decodes true s vs complete
      → copy_units units (some s) false (pos size)
        ≡ ((if complete then some (length (all_units vs)) else none), [])
  unfolding copy_units
  copy_units-counts s size {vs} {complete} d =
      let c : Copy = record empty_copy { written = 0 + length (all_units vs) } in
      let looped : scalar_loop (copy_scalar units none) empty_copy (some s) ≡ ended complete c =
        scalar_loop-foldl (copy_scalar units none) empty_copy s d
        ∙ ap (ended complete) (copy_counts vs empty_copy) in
      ap copied looped ∙ copied-ended complete c (omega arith) refl
