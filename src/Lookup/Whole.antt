-- ===== src/Lookup/Whole.antt =====
-- The sampled hash of kason.c is the hash of the whole key: the packing of its ends.
use kason.Base.{
  ℕ, zero, suc, ◌+◌, ◌-◌, ◌*◌, ◌%◌, ◌≤◌, ◌<◌, true, false, [], ◌∷◌, leb, ltb, foldl, Bytes, length,
  All, set, drop, bit_and, bit_or, ◌≡◌, inl, inr, refl, ap, sym, ◌∙◌, subst, arith, Bool-cases,
}
use kason.Base.Bits.{shl32, low_two, bit_or-shifted}
use kason.Lookup.Hash.{
  byte_at, pack_loop, pack_hash_bytes, pack_hash_four, hash_bytes, Sample, zeros, empty_sample,
  sample_add, last_loop, sample_finish,
}
use kason.Lookup.Sample.{
  length-set, get_or-set, get_or-set_other, get_or-drop, Sampled, empty-Sampled, foldl-Sampled,
}

-- Packing reads no byte but those of its range.
pack_loop-agree :
    (left i : ℕ) (v w : Bytes) (packed : ℕ)
    → ((j : ℕ) → i ≤ j → j < i + left → byte_at v j ≡ byte_at w j)
    → pack_loop left i v packed ≡ pack_loop left i w packed
unfolding pack_loop
pack_loop-agree zero i v w packed h = refl
pack_loop-agree (suc left) i v w packed h =
    let here : byte_at v i ≡ byte_at w i = h i (omega arith) (omega arith) in
    rw here (
      pack_loop-agree left (i + 1) v w (bit_or packed (shl32 (byte_at w i) (i * 8)))
        (λ j low high. h j (omega (arith, low)) (omega (arith, high))))

pack-agree :
    (count : ℕ) (v w : Bytes)
    → ((j : ℕ) → j < count → byte_at v j ≡ byte_at w j)
    → pack_hash_bytes v count ≡ pack_hash_bytes w count
unfolding pack_hash_bytes
pack-agree count v w h = pack_loop-agree count 0 v w 0 (λ j low high. h j (omega (arith, high)))

byte_at-lt : (key : Bytes) (i : ℕ) → All (λ b. b < 256) key → byte_at key i < 256
byte_at-lt [] i h = omega arith
byte_at-lt (x ∷ key) zero (p, h) = p
byte_at-lt (x ∷ key) (suc i) (p, h) = byte_at-lt key i h

-- The unrolled packing of four bytes.
pack_hash_bytes-four : (v : Bytes) → byte_at v 0 < 256 → pack_hash_bytes v 4 ≡ pack_hash_four v
unfolding pack_hash_bytes pack_loop pack_hash_four
pack_hash_bytes-four v h =
    let first : shl32 (byte_at v 0) 0 ≡ byte_at v 0 = omega (arith, h) in
    let start : bit_or 0 (byte_at v 0) ≡ byte_at v 0 =
      omega (arith, bit_or-shifted 8 0 (byte_at v 0) h) in
    rw (first, start) refl

-- The copied bytes: those in front of the loop's index are kept, the others are the ring's.
last_loop-kept :
    (left i base : ℕ) (ring last : Bytes) (j : ℕ)
    → j < i
    → byte_at (last_loop left i base ring last) j ≡ byte_at last j
unfolding last_loop
last_loop-kept zero i base ring last j h = refl
last_loop-kept (suc left) i base ring last j h =
    last_loop-kept left (i + 1) base ring (set last i (byte_at ring (bit_and (base + i) 3))) j
      (omega (arith, h))
    ∙ get_or-set_other last i j (byte_at ring (bit_and (base + i) 3)) 0 (inr h)

last_loop-copied :
    (left i base : ℕ) (ring last : Bytes) (j : ℕ)
    → length last ≡ 4
    → i + left ≤ 4
    → i ≤ j
    → j < i + left
    → byte_at (last_loop left i base ring last) j ≡ byte_at ring ((base + j) % 4)
unfolding last_loop
last_loop-copied zero i base ring last j room fits low high = absurd (omega (arith, low, high))
last_loop-copied (suc left) i base ring last j room fits low high = elim (Bool-cases (ltb i j)) [
  | inl p ↦
      last_loop-copied left (i + 1) base ring (set last i (byte_at ring (bit_and (base + i) 3))) j
        (length-set last i (byte_at ring (bit_and (base + i) 3)) ∙ room) (omega (arith, fits))
        (ground (arith, p)) (omega (arith, high))
  | inr p ↦
      let now : j ≡ i = ground (arith, p, low) in
      let place : bit_and (base + i) 3 ≡ (base + i) % 4 = low_two (base + i) in
      rw now (
        last_loop-kept left (i + 1) base ring (set last i (byte_at ring (bit_and (base + i) 3))) i
          (omega arith)
        ∙ get_or-set last i (byte_at ring (bit_and (base + i) 3)) 0 (omega (arith, room, fits))
        ∙ ap (λ k. byte_at ring k) place)
]

-- A key of less than four bytes, and a longer one.
finish_short :
    (key : Bytes) (x : Sample)
    → Sampled key x
    → length key < 4
    → sample_finish x ≡ hash_bytes key (length key)
unfolding sample_finish hash_bytes
finish_short key x h small =
    let n = length key in
    let below : ltb n 4 ≡ true = ground (arith, small) in
    let under : leb 4 n ≡ false = ground (arith, small) in
    let base : n - n ≡ 0 = omega arith in
    let first : pack_hash_bytes x.first n ≡ pack_hash_bytes key n =
      pack-agree n x.first key (λ j less. h.firsts j (omega (arith, less, small)) less) in
    let last : pack_hash_bytes (last_loop n 0 0 x.last zeros) n ≡ pack_hash_bytes key n =
      pack-agree n (last_loop n 0 0 x.last zeros) key (λ j less.
        last_loop-copied n 0 0 x.last zeros j refl (omega (arith, small)) (omega arith)
          (omega (arith, less))
        ∙ ap (λ k. byte_at x.last (k % 4)) (zero_plus j)
        ∙ h.lasts j less (omega (arith, small))) in
    rw (h.counted, below, under, base, first, last) refl
  where
    zero_plus : (j : ℕ) → 0 + j ≡ j
    zero_plus j = omega arith

finish_long :
    (key : Bytes) (x : Sample)
    → Sampled key x
    → All (λ b. b < 256) key
    → 4 ≤ length key
    → sample_finish x ≡ hash_bytes key (length key)
unfolding sample_finish hash_bytes
finish_long key x h bytes long =
    let n = length key in
    let below : ltb n 4 ≡ false = ground (arith, long) in
    let under : leb 4 n ≡ true = ground (arith, long) in
    let first : pack_hash_bytes x.first 4 ≡ pack_hash_four key =
      pack-agree 4 x.first key (λ j less. h.firsts j less (omega (arith, less, long)))
      ∙ pack_hash_bytes-four key (byte_at-lt key 0 bytes) in
    let end = drop (n - 4) key in
    let head : byte_at end 0 < 256 =
      subst (λ k. k < 256) (sym (get_or-drop (n - 4) key 0 0)) (byte_at-lt key (n - 4 + 0) bytes) in
    let last : pack_hash_bytes (last_loop 4 0 (n - 4) x.last zeros) 4 ≡ pack_hash_four end =
      pack-agree 4 (last_loop 4 0 (n - 4) x.last zeros) end (λ j less.
        last_loop-copied 4 0 (n - 4) x.last zeros j refl (omega arith) (omega arith)
          (omega (arith, less))
        ∙ h.lasts (n - 4 + j) (omega (arith, less, long)) (omega (arith, long))
        ∙ sym (get_or-drop (n - 4) key j 0))
      ∙ pack_hash_bytes-four end head in
    rw (h.counted, below, under, first, last) refl

-- Added byte by byte, a key has the hash of the whole key, whatever its length.
pub sample_finish-hash_bytes :
    (key : Bytes)
    → All (λ b. b < 256) key
    → sample_finish (foldl sample_add empty_sample key) ≡ hash_bytes key (length key)
sample_finish-hash_bytes key bytes =
    let h = foldl-Sampled [] key empty_sample empty-Sampled in
    elim (Bool-cases (ltb (length key) 4)) [
      | inl p ↦ finish_short key (foldl sample_add empty_sample key) h (ground (arith, p))
      | inr p ↦ finish_long key (foldl sample_add empty_sample key) h bytes (ground (arith, p))
    ]
