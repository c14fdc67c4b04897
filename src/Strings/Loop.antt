-- ===== src/Strings/Loop.antt =====
-- The loop `while ((result = kason_string_next(&ptr, end, &value)) == KaSON_STRING_NEXT_VALUE)` that
-- the string functions of kason.c share, and `kason_string_is_valid`.
use kason.Base.{
  ℕ, zero, suc, ◌+◌, ◌<◌, Bool, true, false, Option, none, some, List, [], ◌∷◌, foldl, Bytes,
  length, drop, length-drop, ◌≡◌, refl, arith, ap,
}
use kason.Strings.Next.{Next, invalid, finished, value, next_in_slice}
use kason.Strings.Next.Bounds.{next_in_slice-moves}

-- How the loop ends: by KaSON_STRING_NEXT_END (`true`) or by an error (`false`), with what the body
-- has computed; `starved` is for fuel alone.
pub data Loop {ℓ} (S : Type ℓ) : Type ℓ where
  ended : Bool → S → Loop S
  starved : Loop S

module _ {ℓ} {S : Type ℓ} where
  unfoldable pub for_each_scalar : ℕ → (S → ℕ → S) → S → Bytes → Loop S
  for_each_scalar zero body state s = starved
  for_each_scalar (suc fuel) body state s = elim (next_in_slice true s) [
    | invalid ↦ ended false state
    | finished ↦ ended true state
    | value v t ↦ for_each_scalar fuel body (body state v) t
  ]

  -- Every round consumes a byte, so this much fuel is enough.
  unfoldable pub scalar_loop : (S → ℕ → S) → S → Option Bytes → Loop S
  unfolding for_each_scalar
  scalar_loop body state none = ended false state
  scalar_loop body state (some s) = for_each_scalar (length s + 1) body state s

-- The scalars that a slice decodes to, and whether its end is reached.
pub data Decodes (strict_json : Bool) : Bytes → List ℕ → Bool → Type 0 where
  stop : {s : Bytes} → next_in_slice strict_json s ≡ finished → Decodes strict_json s [] true
  fail : {s : Bytes} → next_in_slice strict_json s ≡ invalid → Decodes strict_json s [] false
  more :
      {s t : Bytes} {v : ℕ} {vs : List ℕ} {complete : Bool}
      → next_in_slice strict_json s ≡ value v t
      → Decodes strict_json t vs complete
      → Decodes strict_json s (v ∷ vs) complete

pub shorter :
    (strict : Bool) (s : Bytes) {v : ℕ} {t : Bytes}
    → next_in_slice strict s ≡ value v t
    → length t < length s
shorter strict s {t = t} h =
    let m = (next_in_slice-moves strict s h).1 in
    let e : length t ≡ length (drop m.count s) = ap length m.rest in
    omega (arith, e, length-drop m.count s, m.at_least, m.inside)

for_each_scalar-foldl {ℓ} :
    {S : Type ℓ} (body : S → ℕ → S) (fuel : ℕ) (state : S) {s : Bytes} {vs : List ℕ}
    {complete : Bool}
    → length s < fuel
    → Decodes true s vs complete
    → for_each_scalar fuel body state s ≡ ended complete (foldl body state vs)
unfolding for_each_scalar
for_each_scalar-foldl body zero state lt d = elim lt [ ]
for_each_scalar-foldl body (suc fuel) state lt (stop e) = rw (e, for_each_scalar)
for_each_scalar-foldl body (suc fuel) state lt (fail e) = rw (e, for_each_scalar)
for_each_scalar-foldl body (suc fuel) state {s = s} lt (more {t = t} {v = v} e d) =
    rw (e, for_each_scalar)
      (for_each_scalar-foldl body fuel (body state v) {s = t} (omega (arith, shorter true s e)) d)

-- Fuel is never short: the loop folds its body over the decoded scalars.
pub scalar_loop-foldl {ℓ} :
    {S : Type ℓ} (body : S → ℕ → S) (state : S) (s : Bytes) {vs : List ℕ} {complete : Bool}
    → Decodes true s vs complete
    → scalar_loop body state (some s) ≡ ended complete (foldl body state vs)
unfolding scalar_loop
scalar_loop-foldl body state s d =
    for_each_scalar-foldl body (length s + 1) state {s = s} (omega arith) d

decode_upto :
    (strict : Bool) (fuel : ℕ) (s : Bytes)
    → length s < fuel
    → (vs : List ℕ) × (complete : Bool) × Decodes strict s vs complete
decode_upto strict zero s lt = elim lt [ ]
decode_upto strict (suc fuel) s lt =
    go (next_in_slice strict s) refl (λ t. decode_upto strict fuel t)
  where
    go :
        (r : Next)
        → next_in_slice strict s ≡ r
        → ((t : Bytes)
            → length t < fuel
            → (vs : List ℕ) × (complete : Bool) × Decodes strict t vs complete)
        → (vs : List ℕ) × (complete : Bool) × Decodes strict s vs complete
    go invalid e rec = ([], false, fail e)
    go finished e rec = ([], true, stop e)
    go (value v t) e rec =
        let (vs, complete, d) = rec t (omega (arith, shorter strict s e)) in
        (v ∷ vs, complete, more e d)

-- Every slice decodes to some list of scalars, or fails behind one.
pub decode_total :
    (strict_json : Bool) (s : Bytes)
    → (vs : List ℕ) × (complete : Bool) × Decodes strict_json s vs complete
decode_total strict s = decode_upto strict (length s + 1) s (omega arith)

abbrev empty_body : Unit {0} → ℕ → Unit {0}
empty_body u v = u

unfoldable pub ends_well {ℓ} : {S : Type ℓ} → Loop S → Bool
ends_well (ended complete state) = complete
ends_well starved = false

-- `kason_string_is_valid`; `none` is a NULL pointer.
unfoldable pub string_is_valid : Option Bytes → Bool
unfolding ends_well
string_is_valid none = false
string_is_valid (some s) = ends_well (scalar_loop empty_body tt (some s))

-- A slice is valid exactly when decoding reaches its end.
pub string_is_valid-Decodes :
    (s : Bytes) {vs : List ℕ} {complete : Bool}
    → Decodes true s vs complete
    → string_is_valid (some s) ≡ complete
unfolding string_is_valid
string_is_valid-Decodes s d = rw (scalar_loop-foldl empty_body tt s d)
