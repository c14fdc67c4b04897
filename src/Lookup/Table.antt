-- ===== src/Lookup/Table.antt =====
-- The table of lookup keys of kason.c: open addressing with linear probes.
use kason.Base.{
  false, true, ℕ, zero, suc, ◌+◌, ◌%◌, Bool, not, ◌&&◌, ◌||◌, Option, none, some, List, [], ◌∷◌,
  leb, ltb, ◌==◌, if◌then◌else◌, ◌>>=◌, ◌>>◌, guard, Bytes, length, get_or, set,
}
use kason.Lookup.Hash.{hash_bytes}
use kason.Lookup.Key.{LookupKey, lookup_key_init, decoded_key_info, same_bytes, decoded_key_equals}

-- A slot is `none` where its `value` is NULL.
abbrev pub Slots : Type 0
Slots = List (Option LookupKey)

-- `kason_lookup_table`; the capacity is the number of slots.
pub record Table : Type 0 where
  pub slots : Slots
  pub count : ℕ

-- The loop of `kason_lookup_table_init`.
unfoldable pub clear_slots : ℕ → Slots
clear_slots zero = []
clear_slots (suc n) = none ∷ clear_slots n

-- A capacity of 0 or below is an error; so is a NULL array, for which `has_slots` is false.
unfoldable pub lookup_table_init : Bool → ℕ → Option Table
unfolding clear_slots
lookup_table_init has_slots capacity =
    if not has_slots || leb capacity 0
    then none
    else some (record { slots = clear_slots capacity; count = 0 })

-- `index++`, round at the capacity.
abbrev pub next_index : ℕ → ℕ → ℕ
next_index capacity index = if index + 1 == capacity then 0 else index + 1

abbrev pub same_key : LookupKey → LookupKey → Bool
same_key slot key =
    slot.hash == key.hash && length slot.text == length key.text && same_bytes slot.text key.text

-- A slot that the loop of `kason_lookup_table_add` comes to; `later` is the loop behind it.
unfoldable pub add_at : Slots → ℕ → LookupKey → Option Slots → Option LookupKey → Option Slots
add_at slots index key later none = some (set slots index (some key))
add_at slots index key later (some slot) = if same_key slot key then none else later

-- The loop, with the number of probes left.
unfoldable pub probe_add : ℕ → Slots → ℕ → LookupKey → Option Slots
unfolding add_at
probe_add zero slots index key = none
probe_add (suc left) slots index key =
    add_at slots index key (probe_add left slots (next_index (length slots) index) key)
      (get_or slots index none)

unfoldable pub lookup_table_add : Table → Bytes → Option Table
unfolding probe_add
lookup_table_add table text = do
  guard (not (leb (length table.slots) 0) && ltb table.count (length table.slots))
  slots ←
      probe_add (length table.slots) table.slots ((lookup_key_init text).hash % length table.slots)
        (lookup_key_init text)
  some (record { slots = slots; count = table.count + 1 })

-- A key that is looked up, with its hash and length.
abbrev pub is_expected : Bytes → ℕ → ℕ → LookupKey → Bool
is_expected key hash count expected =
    hash == expected.hash && count == length expected.text && decoded_key_equals key expected

unfoldable pub find_at : (LookupKey → Bool) → Option LookupKey → Option LookupKey → Option LookupKey
find_at wanted later none = none
find_at wanted later (some expected) = if wanted expected then some expected else later

-- The loop of `kason_lookup_find`, with the number of probes left.
unfoldable pub probe_find : ℕ → Slots → ℕ → (LookupKey → Bool) → Option LookupKey
unfolding find_at
probe_find zero slots index wanted = none
probe_find (suc left) slots index wanted =
    find_at wanted (probe_find left slots (next_index (length slots) index) wanted)
      (get_or slots index none)

unfoldable pub lookup_find : Table → Bytes → ℕ → ℕ → Option LookupKey
unfolding probe_find
lookup_find table key hash count =
    probe_find (length table.slots) table.slots (hash % length table.slots)
      (is_expected key hash count)

-- At the end of an object key, in the selected parser: a key with an escape or a byte from 0x80 on
-- needs validation and is decoded; another is hashed as it stands. A malformed key has no hash: that
-- parser then ends with an error.
unfoldable pub selected_key_info : Bool → Bytes → Option (ℕ × ℕ)
selected_key_info true key = decoded_key_info key
selected_key_info false key = some (hash_bytes key (length key), length key)

-- `none` is a key that is not found, or malformed.
unfoldable pub lookup : Table → Bool → Bytes → Option LookupKey
unfolding selected_key_info lookup_find
lookup table needs_validation key = do
  (hash, count) ← selected_key_info needs_validation key
  lookup_find table key hash count
