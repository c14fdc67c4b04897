-- ===== src/Strings/Compare/Order.antt =====
-- `kason_strcmp` is the lexicographic order of what the slices decode to.
use kason.Base.{
  ℕ, zero, suc, ◌+◌, ◌<◌, Bool, true, false, some, List, [], ◌∷◌, ltb, if◌then◌else◌, Bytes, length,
  ◌≡◌, ◌↔◌, refl, ap, ◌∙◌, arith,
}
use kason.Base.Int.{ℤ, pos, negsuc}
use kason.Strings.Next.{string_next_internal}
use kason.Strings.Loop.{Decodes, stop, fail, more, shorter}
use kason.Strings.Compare.{strcmp_round, strcmp_loop, strcmp}

-- The sort key of a decoded slice: its scalars behind 2, then 1 for an end and 0 for an error, so
-- that an error is below an end, and an end below every scalar.
abbrev pub sort_key : List ℕ → Bool → List ℕ
sort_key [] true = 1 ∷ []
sort_key [] false = 0 ∷ []
sort_key (v ∷ vs) complete = (v + 2) ∷ sort_key vs complete

abbrev pub lex : List ℕ → List ℕ → ℤ
lex [] [] = pos 0
lex [] (y ∷ ys) = negsuc 0
lex (x ∷ xs) [] = pos 1
lex (x ∷ xs) (y ∷ ys) = if ltb x y then negsuc 0 else if ltb y x then pos 1 else lex xs ys

-- The first cursor decides how many rounds there are.
strcmp_loop-lex :
    (fuel : ℕ) {s t : Bytes} {vs ws : List ℕ} {a b : Bool}
    → length s < fuel
    → Decodes false s vs a
    → Decodes false t ws b
    → strcmp_loop fuel (some s) (some t) ≡ some (lex (sort_key vs a) (sort_key ws b))
unfolding strcmp_loop string_next_internal
strcmp_loop-lex zero lt d e = elim lt [ ]
strcmp_loop-lex (suc fuel) lt (stop p) (stop q) = rw (p, q, strcmp_round)
strcmp_loop-lex (suc fuel) lt (stop p) (fail q) = rw (p, q, strcmp_round)
strcmp_loop-lex (suc fuel) lt (fail p) (stop q) = rw (p, q, strcmp_round)
strcmp_loop-lex (suc fuel) lt (fail p) (fail q) = rw (p, q, strcmp_round)
strcmp_loop-lex (suc fuel) lt (stop p) (more q e) = rw (p, q, strcmp_round) (ground arith)
strcmp_loop-lex (suc fuel) lt (fail p) (more q e) = rw (p, q, strcmp_round) (ground arith)
strcmp_loop-lex (suc fuel) lt (more p d) (stop q) = rw (p, q, strcmp_round) (ground arith)
strcmp_loop-lex (suc fuel) lt (more p d) (fail q) = rw (p, q, strcmp_round) (ground arith)
strcmp_loop-lex (suc fuel) {s = s} lt (more {t = s'} {v = v} p d) (more {t = t'} {v = w} q e) =
    let later = strcmp_loop-lex fuel {s = s'} {t = t'} (omega (arith, shorter false s p)) d e in
    rw (p, q, strcmp_round) (ground arith)

-- The comparison returns, and orders the slices as their sort keys: lexicographically by decoded
-- scalar, an early end before any scalar and a malformed slice before an end.
pub strcmp-lex :
    (s t : Bytes) {vs ws : List ℕ} {a b : Bool}
    → Decodes false s vs a
    → Decodes false t ws b
    → strcmp (some s) (some t) ≡ some (lex (sort_key vs a) (sort_key ws b))
unfolding strcmp
strcmp-lex s t d e = strcmp_loop-lex (length s + 1) {s = s} {t = t} (omega arith) d e

lex_refl : (xs : List ℕ) → lex xs xs ≡ pos 0
lex_refl [] = refl
lex_refl (x ∷ xs) = ground (arith, lex_refl xs)

lex_zero : (xs ys : List ℕ) → lex xs ys ≡ pos 0 → xs ≡ ys
lex_zero [] [] h = refl
lex_zero [] (y ∷ ys) h = cc
lex_zero (x ∷ xs) [] h = cc
lex_zero (x ∷ xs) (y ∷ ys) h = ground (arith, lex_zero xs ys)

sort_key-injective :
    (vs ws : List ℕ) (a b : Bool) → sort_key vs a ≡ sort_key ws b → (vs ≡ ws) × (a ≡ b)
sort_key-injective [] [] true true h = (refl, refl)
sort_key-injective [] [] true false h = absurd (ground arith)
sort_key-injective [] [] false true h = absurd (ground arith)
sort_key-injective [] [] false false h = (refl, refl)
sort_key-injective [] (w ∷ ws) true b h = absurd (ground arith)
sort_key-injective [] (w ∷ ws) false b h = absurd (ground arith)
sort_key-injective (v ∷ vs) [] a true h = absurd (ground arith)
sort_key-injective (v ∷ vs) [] a false h = absurd (ground arith)
sort_key-injective (v ∷ vs) (w ∷ ws) a b h = ground (arith, sort_key-injective vs ws a b)

-- Two slices compare equal exactly when they decode to the same scalars and both end well or both
-- are malformed behind them.
pub strcmp_zero_iff :
    (s t : Bytes) {vs ws : List ℕ} {a b : Bool}
    → Decodes false s vs a
    → Decodes false t ws b
    → (strcmp (some s) (some t) ≡ some (pos 0)) ↔ ((vs ≡ ws) × (a ≡ b))
strcmp_zero_iff s t {vs} {ws} {a} {b} d e = (forward, backward)
  where
    forward : strcmp (some s) (some t) ≡ some (pos 0) → (vs ≡ ws) × (a ≡ b)
    forward h = sort_key-injective vs ws a b (lex_zero _ _ (cc (strcmp-lex s t d e)))

    backward : (vs ≡ ws) × (a ≡ b) → strcmp (some s) (some t) ≡ some (pos 0)
    backward (p, q) = strcmp-lex s t d e ∙ rw (p, q) (ap some (lex_refl (sort_key ws b)))
