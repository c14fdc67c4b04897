-- ===== src/Lookup/Sample.antt =====
-- The sampled hash of kason.c is the hash of the whole key.
use kason.Base.{
  ℕ, zero, suc, ◌+◌, ◌%◌, ◌≤◌, ◌<◌, true, [], ◌∷◌, ◌++◌, append_assoc, append-nil, ltb,
  if◌then◌else◌, foldl, Bytes, length, length-append, get_or, set, drop, bit_and, ◌≡◌, ◌⊎◌, inl,
  inr, refl, sym, ◌∙◌, subst, arith, Bool-cases,
}
use kason.Base.Bits.{low_two}
use kason.Lookup.Hash.{byte_at, Sample, empty_sample, sample_add}

-- Reads of arrays and of parts of a key.
pub length-set : (xs : Bytes) (i v : ℕ) → length (set xs i v) ≡ length xs
length-set [] i v = refl
length-set (x ∷ xs) zero v = refl
length-set (x ∷ xs) (suc i) v = omega (arith, length-set xs i v)

pub get_or-set : (xs : Bytes) (i v d : ℕ) → i < length xs → get_or (set xs i v) i d ≡ v
get_or-set [] i v d h = absurd (omega (arith, h))
get_or-set (x ∷ xs) zero v d h = refl
get_or-set (x ∷ xs) (suc i) v d h = get_or-set xs i v d (omega (arith, h))

pub get_or-set_other :
    (xs : Bytes) (i j v d : ℕ) → (i < j) ⊎ (j < i) → get_or (set xs i v) j d ≡ get_or xs j d
get_or-set_other [] i j v d h = refl
get_or-set_other (x ∷ xs) zero zero v d h = absurd (omega (arith, h))
get_or-set_other (x ∷ xs) zero (suc j) v d h = refl
get_or-set_other (x ∷ xs) (suc i) zero v d h = refl
get_or-set_other (x ∷ xs) (suc i) (suc j) v d h = get_or-set_other xs i j v d (omega (arith, h))

get_or-append : (xs ys : Bytes) (i d : ℕ) → i < length xs → get_or (xs ++ ys) i d ≡ get_or xs i d
get_or-append [] ys i d h = absurd (omega (arith, h))
get_or-append (x ∷ xs) ys zero d h = refl
get_or-append (x ∷ xs) ys (suc i) d h = get_or-append xs ys i d (omega (arith, h))

get_or-last : (xs : Bytes) (v d i : ℕ) → i ≡ length xs → get_or (xs ++ (v ∷ [])) i d ≡ v
get_or-last [] v d zero h = refl
get_or-last [] v d (suc i) h = absurd (omega (arith, h))
get_or-last (x ∷ xs) v d zero h = absurd (omega (arith, h))
get_or-last (x ∷ xs) v d (suc i) h = get_or-last xs v d i (omega (arith, h))

pub get_or-drop : (k : ℕ) (xs : Bytes) (i d : ℕ) → get_or (drop k xs) i d ≡ get_or xs (k + i) d
get_or-drop zero xs i d = let e : 0 + i ≡ i = omega arith in rw e refl
get_or-drop (suc k) [] i d = refl
get_or-drop (suc k) (x ∷ xs) i d =
    let e : suc k + i ≡ suc (k + i) = omega arith in rw e (get_or-drop k xs i d)

-- What a sample holds of the bytes that have been added.
pub record Sampled (key : Bytes) (x : Sample) : Type 0 where
  pub counted : x.count ≡ length key
  pub first_room : length x.first ≡ 4
  pub last_room : length x.last ≡ 4
  pub firsts : (i : ℕ) → i < 4 → i < length key → byte_at x.first i ≡ byte_at key i
  pub lasts : (i : ℕ) → i < length key → length key ≤ i + 4 → byte_at x.last (i % 4) ≡ byte_at key i

pub empty-Sampled : Sampled [] empty_sample
empty-Sampled = record {
  counted = refl;
  first_room = refl;
  last_room = refl;
  firsts = λ i small h. absurd (omega (arith, h));
  lasts = λ i h near. absurd (omega (arith, h));
}

set_below : (xs : Bytes) (i v : ℕ) → length xs ≡ 4 → length (if ltb i 4 then set xs i v else xs) ≡ 4
set_below xs i v h = ground (arith, length-set xs i v, h)

add-firsts :
    (key xs : Bytes) (n v i : ℕ)
    → n ≡ length key
    → length xs ≡ 4
    → ((j : ℕ) → j < 4 → j < length key → byte_at xs j ≡ byte_at key j)
    → i < 4
    → i < length key + 1
    → byte_at (if ltb n 4 then set xs n v else xs) i ≡ byte_at (key ++ (v ∷ [])) i
add-firsts key xs n v i count room old small h = elim (Bool-cases (ltb i n)) [
  | inl p ↦
      let kept : byte_at (set xs n v) i ≡ byte_at xs i =
        get_or-set_other xs n i v 0 (ground (arith, p)) in
      let old_byte : byte_at xs i ≡ byte_at key i = old i small (ground (arith, p, count)) in
      let same : byte_at (key ++ (v ∷ [])) i ≡ byte_at key i =
        get_or-append key (v ∷ []) i 0 (ground (arith, p, count)) in
      ground (arith, kept, old_byte, same)
  | inr p ↦
      let now : i ≡ n = ground (arith, p, h, count) in
      let below : ltb n 4 ≡ true = ground (arith, now, small) in
      let put : byte_at (set xs n v) n ≡ v =
        get_or-set xs n v 0 (omega (arith, now, small, room)) in
      let end : byte_at (key ++ (v ∷ [])) n ≡ v = get_or-last key v 0 n count in
      rw (now, below, put, end) refl
]

add-lasts :
    (key ring : Bytes) (n v i : ℕ)
    → n ≡ length key
    → length ring ≡ 4
    → ((j : ℕ) → j < length key → length key ≤ j + 4 → byte_at ring (j % 4) ≡ byte_at key j)
    → i < length key + 1
    → length key + 1 ≤ i + 4
    → byte_at (set ring (bit_and n 3) v) (i % 4) ≡ byte_at (key ++ (v ∷ [])) i
add-lasts key ring n v i count room old h near = elim (Bool-cases (ltb i n)) [
  | inl p ↦
      let less : i < n = ground (arith, p) in
      let apart : (bit_and n 3 < i % 4) ⊎ (i % 4 < bit_and n 3) =
        omega (arith, low_two n, less, near, count) in
      get_or-set_other ring (bit_and n 3) (i % 4) v 0 apart
      ∙ old i (omega (arith, less, count)) (omega (arith, near))
      ∙ sym (get_or-append key (v ∷ []) i 0 (omega (arith, less, count)))
  | inr p ↦
      let now : i ≡ n = ground (arith, p, h, count) in
      let place : i % 4 ≡ bit_and n 3 = omega (arith, low_two n, now) in
      let end : byte_at (key ++ (v ∷ [])) i ≡ v =
        get_or-last key v 0 i (omega (arith, now, count)) in
      rw (place, end) (get_or-set ring (bit_and n 3) v 0 (omega (arith, low_two n, room)))
]

add-Sampled :
    (key : Bytes) (x : Sample) (v : ℕ) → Sampled key x → Sampled (key ++ (v ∷ [])) (sample_add x v)
unfolding sample_add
add-Sampled key x v h =
    let longer : length (key ++ (v ∷ [])) ≡ length key + 1 = length-append key (v ∷ []) in
    record {
      counted = omega (arith, longer, h.counted);
      first_room = set_below x.first x.count v h.first_room;
      last_room = length-set x.last (bit_and x.count 3) v ∙ h.last_room;
      firsts = λ i small less.
          add-firsts key x.first x.count v i h.counted h.first_room h.firsts small
            (omega (arith, less, longer));
      lasts = λ i less near.
          add-lasts key x.last x.count v i h.counted h.last_room h.lasts
            (omega (arith, less, longer)) (omega (arith, near, longer));
    }

pub foldl-Sampled :
    (key rest : Bytes) (x : Sample)
    → Sampled key x
    → Sampled (key ++ rest) (foldl sample_add x rest)
foldl-Sampled key [] x h = subst (λ k. Sampled k x) (sym (append-nil key)) h
foldl-Sampled key (v ∷ rest) x h =
    subst (λ k. Sampled k (foldl sample_add (sample_add x v) rest)) (append_assoc key (v ∷ []) rest)
      (foldl-Sampled (key ++ (v ∷ [])) rest (sample_add x v) (add-Sampled key x v h))
