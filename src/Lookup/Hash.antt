-- ===== src/Lookup/Hash.antt =====
-- The hash of a lookup key in kason.c: `kason_hash_bytes` on a whole key, and the sample that
-- `kason_hash_sample_add` takes of a key decoded byte by byte.
use kason.Base.{
  ℕ, zero, suc, ◌+◌, ◌-◌, ◌*◌, ◌/◌, ◌%◌, ◌^◌, [], ◌∷◌, leb, ltb, if◌then◌else◌, Bytes, get_or, set,
  drop, bit_and, bit_or, bit_xor,
}
use kason.Base.Bits.{shl32}

-- An `unsigned char` array is the list of its bytes; a read behind its end, which the code never
-- does, is 0.
abbrev pub byte_at : Bytes → ℕ → ℕ
byte_at value i = get_or value i 0

-- The loop of `kason_pack_hash_bytes`, with the number of bytes left.
unfoldable pub pack_loop : ℕ → ℕ → Bytes → ℕ → ℕ
pack_loop zero i value packed = packed
pack_loop (suc left) i value packed =
    pack_loop left (i + 1) value (bit_or packed (shl32 (byte_at value i) (i * 8)))

unfoldable pub pack_hash_bytes : Bytes → ℕ → ℕ
pack_hash_bytes value count = pack_loop count 0 value 0

unfoldable pub pack_hash_four : Bytes → ℕ
pack_hash_four value =
    bit_or
      (bit_or (bit_or (byte_at value 0) (shl32 (byte_at value 1) 8)) (shl32 (byte_at value 2) 16))
      (shl32 (byte_at value 3) 24)

abbrev pub mul32 : ℕ → ℕ → ℕ
mul32 x y = x * y % 2 ^ 32

-- `hash = (hash << 13) | (hash >> 19)`.
abbrev pub rotate13 : ℕ → ℕ
rotate13 hash = bit_or (shl32 hash 13) (hash / 2 ^ 19)

unfoldable pub hash_parts : ℕ → ℕ → ℕ → ℕ
hash_parts first last count =
    let mixed = bit_xor (mul32 count 0x9e3779b1) (mul32 first 0x85ebca6b) in
    let hash = bit_xor (rotate13 mixed) (mul32 last 0xc2b2ae35) in bit_xor hash (hash / 2 ^ 16)

unfoldable pub hash_bytes : Bytes → ℕ → ℕ
hash_bytes value count =
    if leb 4 count
    then hash_parts (pack_hash_four value) (pack_hash_four (drop (count - 4) value)) count
    else hash_parts (pack_hash_bytes value count) (pack_hash_bytes value count) count

-- `kason_hash_sample`.
pub record Sample : Type 0 where
  pub first : Bytes
  pub last : Bytes
  pub count : ℕ

abbrev pub zeros : Bytes
zeros = 0 ∷ 0 ∷ 0 ∷ 0 ∷ []

abbrev pub empty_sample : Sample
empty_sample = record { first = zeros; last = zeros; count = 0 }

unfoldable pub sample_add : Sample → ℕ → Sample
sample_add sample value = record {
  first = if ltb sample.count 4 then set sample.first sample.count value else sample.first;
  last = set sample.last (bit_and sample.count 3) value;
  count = sample.count + 1;
}

-- The loop that copies the last bytes in their order: `left` of them, from index `i` on.
unfoldable pub last_loop : ℕ → ℕ → ℕ → Bytes → Bytes → Bytes
last_loop zero i first_index ring last = last
last_loop (suc left) i first_index ring last =
    last_loop left (i + 1) first_index ring
      (set last i (byte_at ring (bit_and (first_index + i) 3)))

unfoldable pub sample_finish : Sample → ℕ
sample_finish sample =
    let sample_length = if ltb sample.count 4 then sample.count else 4 in
    let last = last_loop sample_length 0 (sample.count - sample_length) sample.last zeros in
    hash_parts (pack_hash_bytes sample.first sample_length) (pack_hash_bytes last sample_length)
      sample.count
