-- ===== src/Lookup/Key.antt =====
-- How kason.c compares an object key with a lookup key: `kason_decoded_key_info` and
-- `kason_decoded_key_equals`.
use kason.Base.{
  ℕ, zero, suc, ◌+◌, Bool, true, false, ◌&&◌, ◌||◌, Option, none, some, [], ◌∷◌, leb, ltb, ◌==◌,
  if◌then◌else◌, foldl, Bytes, length,
}
use kason.Strings.Next.{invalid, finished, value, next_in_slice}
use kason.Strings.Encode.{utf8_encode}
use kason.Strings.Loop.{Loop, ended, starved, scalar_loop}
use kason.Lookup.Hash.{hash_bytes, Sample, empty_sample, sample_add, sample_finish}

-- `kason_lookup_key`: the bytes in front of `length`, and the hash.
pub record LookupKey : Type 0 where
  pub text : Bytes
  pub hash : ℕ

-- `kason_lookup_key_init` on a value that is not NULL and that many bytes.
unfoldable pub lookup_key_init : Bytes → LookupKey
lookup_key_init text = record { text = text; hash = hash_bytes text (length text) }

-- The body of the loop of `kason_decoded_key_info`.
abbrev pub sample_scalar : Sample → ℕ → Sample
sample_scalar sample v = foldl sample_add sample (utf8_encode v)

abbrev pub sample_info : Loop Sample → Option (ℕ × ℕ)
sample_info (ended true sample) = some (sample_finish sample, sample.count)
sample_info (ended false sample) = none
sample_info starved = none

-- The hash and the length of a decoded key.
unfoldable pub decoded_key_info : Bytes → Option (ℕ × ℕ)
decoded_key_info key = sample_info (scalar_loop sample_scalar empty_sample (some key))

-- The first loop of `kason_decoded_key_equals`.
unfoldable pub plain_ascii : Bytes → Bool
plain_ascii [] = true
plain_ascii (c ∷ s) = let rest = plain_ascii s in if c == b'\\' || leb 0x80 c then false else rest

-- `memcmp(…) == 0`, on as many bytes as both have.
unfoldable pub same_bytes : Bytes → Bytes → Bool
same_bytes [] [] = true
same_bytes [] (e ∷ es) = false
same_bytes (c ∷ s) [] = false
same_bytes (c ∷ s) (e ∷ es) = c == e && same_bytes s es

-- The loop over an encoded scalar; the second list is the expected key from `offset` on.
unfoldable pub match_bytes : Bytes → Bytes → Option Bytes
match_bytes [] rest = some rest
match_bytes (c ∷ encoded) [] = none
match_bytes (c ∷ encoded) (e ∷ rest) =
    let later = match_bytes encoded rest in if c == e then later else none

unfoldable pub match_scalar : Bytes → Bytes → Option Bytes
unfolding match_bytes
match_scalar encoded rest =
    if ltb (length rest) (length encoded) then none else match_bytes encoded rest

abbrev pub at_offset_end : Bytes → Bool
at_offset_end [] = true
at_offset_end (e ∷ es) = false

abbrev pub if_matched : Option Bytes → (Bytes → Bool) → Bool
if_matched none later = false
if_matched (some rest) later = later rest

-- The `while` loop, on fuel.
unfoldable pub equals_loop : ℕ → Bytes → Bytes → Bool
unfolding match_scalar
equals_loop zero s rest = false
equals_loop (suc fuel) s rest = elim (next_in_slice true s) [
  | invalid ↦ false
  | finished ↦ at_offset_end rest
  | value v t ↦ if_matched (match_scalar (utf8_encode v) rest) (λ r. equals_loop fuel t r)
]

unfoldable pub decoded_key_equals : Bytes → LookupKey → Bool
unfolding equals_loop plain_ascii same_bytes
decoded_key_equals key expected =
    let slow = equals_loop (length key + 1) key expected.text in
    if plain_ascii key
    then (length key == length expected.text) && same_bytes key expected.text
    else slow
