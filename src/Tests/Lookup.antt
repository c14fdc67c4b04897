-- ===== src/Tests/Lookup.antt =====
-- Lookup keys of kason.c.
use kason.Base.{
  false, inr, inl, ◌%◌, set, true, some, [], ◌∷◌, Bytes, foldl, length, if◌then◌else◌, ◌≡◌, ◌↔◌,
  refl, arith, none,
}
use kason.Tests.Text.{codes}
use kason.Strings.Next.{next_in_slice, decode_first, plain_byte}
use kason.Strings.Encode.{utf8_encode}
use kason.Strings.Loop.{Decodes, stop, more}
use kason.Strings.Copy.Fit.{all_units}
use kason.Lookup.Hash.{
  pack_hash_bytes, pack_loop, hash_parts, hash_bytes, empty_sample, sample_add, sample_finish,
}
use kason.Lookup.Whole.{sample_finish-hash_bytes}
use kason.Lookup.Key.{
  plain_ascii, same_bytes, lookup_key_init, decoded_key_info, decoded_key_equals,
}
use kason.Lookup.Decoded.{decoded_key_info-hash_bytes, decoded_key_equals_iff}
use kason.Lookup.Table.{
  Table, clear_slots, add_at, probe_add, lookup_table_init, lookup_table_add, lookup,
}
use kason.Lookup.Keys.{lookup-lookup_table_add, lookup-kept, lookup_table_add-found}

abbrev name : Bytes
name = codes "id"

name-Decodes : Decodes true name name true
unfolding next_in_slice decode_first plain_byte
name-Decodes =
    more {s = name} {t = codes "d"} {v = b'i'} refl
      (more {s = codes "d"} {t = []} {v = b'd'} refl (stop {s = []} refl))

sample_finish-hash_bytes_example :
    sample_finish (foldl sample_add empty_sample (codes "abcde")) ≡ hash_bytes (codes "abcde") 5
sample_finish-hash_bytes_example =
    sample_finish-hash_bytes (codes "abcde")
      (omega arith, (omega arith, (omega arith, (omega arith, (omega arith, tt)))))

decoded_key_info-hash_bytes_example : decoded_key_info name ≡ (
    if true
    then some (
      hash_bytes (all_units utf8_encode name) (length (all_units utf8_encode name)),
      length (all_units utf8_encode name),
    )
    else none)
decoded_key_info-hash_bytes_example = decoded_key_info-hash_bytes name name-Decodes

decoded_key_equals_iff_example :
    (decoded_key_equals name (lookup_key_init (codes "id")) ≡ true)
    ↔ (all_units utf8_encode name ≡ (lookup_key_init (codes "id")).text)
decoded_key_equals_iff_example =
    decoded_key_equals_iff name (lookup_key_init (codes "id")) name-Decodes

-- A table of two slots, empty and with the key.
abbrev empty_table : Table
empty_table = record { slots = none ∷ none ∷ []; count = 0 }

abbrev full_table : Table
full_table = record {
  slots = set (none ∷ none ∷ []) ((lookup_key_init name).hash % 2) (some (lookup_key_init name));
  count = 1;
}

added : lookup_table_add empty_table (all_units utf8_encode name) ≡ some full_table
unfolding lookup_table_add probe_add add_at lookup_key_init utf8_encode hash_bytes hash_parts
    pack_hash_bytes pack_loop
added = refl

lookup-lookup_table_add_example :
    lookup full_table true name ≡ some (lookup_key_init (all_units utf8_encode name))
lookup-lookup_table_add_example =
    lookup-lookup_table_add empty_table true name {r = full_table} (inl refl) name-Decodes added

two_slots : lookup_table_init true 2 ≡ some empty_table
unfolding lookup_table_init clear_slots
two_slots = refl

-- A larger table, and the key in it.
abbrev three_table : Table
three_table = record { slots = none ∷ none ∷ none ∷ []; count = 0 }

abbrev one_of_three : Table
one_of_three = record {
  slots =
      set (none ∷ none ∷ none ∷ []) ((lookup_key_init name).hash % 3) (some (lookup_key_init name));
  count = 1;
}

first_added : lookup_table_add three_table (all_units utf8_encode name) ≡ some one_of_three
unfolding lookup_table_add probe_add add_at lookup_key_init utf8_encode hash_bytes hash_parts
    pack_hash_bytes pack_loop
first_added = refl

-- The table with both keys.
abbrev two_of_three : Table
two_of_three = record {
  slots = some (lookup_key_init (codes "x")) ∷ some (lookup_key_init name) ∷ none ∷ [];
  count = 2;
}

second_added : lookup_table_add one_of_three (codes "x") ≡ some two_of_three
unfolding lookup_table_add probe_add add_at lookup_key_init hash_bytes hash_parts pack_hash_bytes
    pack_loop same_bytes
second_added = refl

name_plain : plain_ascii name ≡ true
unfolding plain_ascii
name_plain = refl

name_found : lookup one_of_three false name ≡ some (lookup_key_init (all_units utf8_encode name))
name_found =
    lookup-lookup_table_add three_table false name {r = one_of_three} (inr (refl, name_plain))
      name-Decodes first_added

lookup-kept_example :
    lookup two_of_three false name ≡ some (lookup_key_init (all_units utf8_encode name))
lookup-kept_example =
    lookup-kept one_of_three false (codes "x") name {r = two_of_three} second_added name_found

lookup_table_add-found_example : lookup_table_add one_of_three (all_units utf8_encode name) ≡ none
lookup_table_add-found_example =
    lookup_table_add-found one_of_three false name (inr (refl, name_plain)) name-Decodes name_found
