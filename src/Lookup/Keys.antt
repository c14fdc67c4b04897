-- ===== src/Lookup/Keys.antt =====
-- The lookup table of kason.c as its client sees it: keys are added and looked up.
use native.Mathlib.Nat.{mod-lt}
use kason.Base.{
  inr, inl, ◌⊎◌, ℕ, ◌%◌, ◌<◌, Bool, true, false, not, ◌&&◌, Option, none, some, List, [], ◌∷◌, leb,
  ltb, ◌==◌, ◌>>=◌, ◌>>◌, guard, Bytes, length, ◌≡◌, refl, ap, sym, ◌∙◌, arith, ==_iff, >>=-eq-some,
}
use kason.Strings.Encode.{utf8_encode}
use kason.Strings.Loop.{Decodes}
use kason.Strings.Copy.Fit.{all_units}
use kason.Lookup.Key.{plain_ascii, LookupKey, lookup_key_init, same_bytes, decoded_key_equals}
use kason.Strings.Copy.Whole.{unescaped_text}
use kason.Lookup.Decoded.{plain-IsUnescaped, decoded_key_info-hash_bytes, equals_text}
use kason.Lookup.Table.{
  Slots, Table, same_key, probe_add, lookup_table_add, is_expected, lookup_find, selected_key_info,
  lookup,
}
use kason.Lookup.Found.{length-probe_add, probe_find-probe_add, probe_find-kept, probe_add-found}

guard-true : (b : Bool) {u : Unit {0}} → guard b ≡ some u → b ≡ true
guard-true true h = refl
guard-true false h = absurd (cc h)

add_inv :
    (t : Table) (text : Bytes) {r : Table}
    → lookup_table_add t text ≡ some r
    → (0 < length t.slots)
      × (probe_add
            (length t.slots)
            t.slots
            ((lookup_key_init text).hash % length t.slots)
            (lookup_key_init text)
          ≡ some r.slots)
unfolding lookup_table_add
add_inv t text {r} h =
    let (_, room, h1) =
      >>=-eq-some (guard (not (leb (length t.slots) 0) && ltb t.count (length t.slots))) _ h in
    let (slots, added, e) =
      >>=-eq-some
        (probe_add (length t.slots) t.slots ((lookup_key_init text).hash % length t.slots)
          (lookup_key_init text))
        _ h1 in
    let b = guard-true _ room in
    let same : slots ≡ r.slots = slots_of e in (ground (arith, b), added ∙ ap some same)
  where
    slots_of : {a b : Table} → ◌≡◌ {A = Option Table} (some a) (some b) → a.slots ≡ b.slots
    slots_of e = cc e

==_comm : (a b : ℕ) → (a == b) ≡ (b == a)
==_comm a b = ground arith

same_bytes_comm : (a b : Bytes) → same_bytes a b ≡ same_bytes b a
unfolding same_bytes
same_bytes_comm [] [] = refl
same_bytes_comm [] (e ∷ b) = refl
same_bytes_comm (c ∷ a) [] = refl
same_bytes_comm (c ∷ a) (e ∷ b) = rw (==_comm c e, same_bytes_comm a b) refl

-- A decoded key and its text are compared alike with every slot.
compared_alike :
    (key : Bytes) {vs : List ℕ} (k : LookupKey)
    → Decodes true key vs true
    → same_key k (lookup_key_init (all_units utf8_encode vs))
      ≡ is_expected key
          (lookup_key_init (all_units utf8_encode vs)).hash
          (length (all_units utf8_encode vs))
          k
unfolding lookup_key_init
compared_alike key {vs} k d =
    let text = all_units utf8_encode vs in
    let hash = (lookup_key_init text).hash in
    let bytes : same_bytes k.text text ≡ decoded_key_equals key k =
      same_bytes_comm k.text text ∙ sym (equals_text key k d) in
    three (k.hash == hash) (hash == k.hash) (length k.text == length text)
      (length text == length k.text) (same_bytes k.text text) (decoded_key_equals key k)
      (==_comm k.hash hash) (==_comm (length k.text) (length text)) bytes
  where
    three : (a b c d e f : Bool) → a ≡ b → c ≡ d → e ≡ f → (a && c && e) ≡ (b && d && f)
    three a b c d e f p q r = cc (p, q, r)

-- What the selected parser knows of a key: it needs validation, or is plain.
abbrev pub Checked : Bool → Bytes → Type 0
Checked needs key = (needs ≡ true) ⊎ ((needs ≡ false) × (plain_ascii key ≡ true))

info-Decodes :
    (needs : Bool) (key : Bytes) {vs : List ℕ}
    → Checked needs key
    → Decodes true key vs true
    → selected_key_info needs key
      ≡ some ((lookup_key_init (all_units utf8_encode vs)).hash, length (all_units utf8_encode vs))
unfolding selected_key_info lookup_key_init
info-Decodes needs key (inl e) d = rw (e, selected_key_info) (decoded_key_info-hash_bytes key d)
info-Decodes needs key {vs} (inr (e, plain)) d =
    let same : all_units utf8_encode vs ≡ key =
      unescaped_text (plain-IsUnescaped key plain) d refl in
    rw (e, same) refl

lookup-Decodes :
    (t : Table) (needs : Bool) (key : Bytes) {vs : List ℕ}
    → Checked needs key
    → Decodes true key vs true
    → lookup t needs key
      ≡ lookup_find t key
          (lookup_key_init (all_units utf8_encode vs)).hash
          (length (all_units utf8_encode vs))
unfolding lookup
lookup-Decodes t needs key c d = rw (info-Decodes needs key c d) refl

itself : (k : LookupKey) → same_key k k ≡ true
unfolding same_bytes
itself k =
    let p : (k.hash == k.hash) ≡ true = (==_iff _ _).1 refl in
    let q : (length k.text == length k.text) ≡ true = (==_iff _ _).1 refl in rw (p, q) (same k.text)
  where
    same : (a : Bytes) → same_bytes a a ≡ true
    same [] = refl
    same (c ∷ a) = let p : (c == c) ≡ true = (==_iff _ _).1 refl in rw (p, same a) refl

-- A key that has been added is found under every spelling of it: by each object key that decodes to
-- its text, with or without escapes.
pub lookup-lookup_table_add :
    (t : Table) (needs : Bool) (key : Bytes) {vs : List ℕ} {r : Table}
    → Checked needs key
    → Decodes true key vs true
    → lookup_table_add t (all_units utf8_encode vs) ≡ some r
    → lookup r needs key ≡ some (lookup_key_init (all_units utf8_encode vs))
lookup-lookup_table_add t needs key {vs} {r} c d h =
    let text = all_units utf8_encode vs in
    let new = lookup_key_init text in
    let wanted = is_expected key new.hash (length text) in
    let (some_slots, added) = add_inv t text {r = r} h in
    let start = new.hash % length t.slots in
    let same = length-probe_add (length t.slots) t.slots start new {r = r.slots} added in
    let agree = λ (k : LookupKey). compared_alike key k d in
    let found =
      probe_find-probe_add (length t.slots) t.slots start new wanted {r = r.slots}
        (mod-lt new.hash some_slots) agree (sym (agree new) ∙ itself new) added in
    lookup-Decodes r needs key c d ∙ unfold lookup_find in rw same found

-- Adding a key does not hide another: what was found is found still.
pub lookup-kept :
    (t : Table) (needs : Bool) (text key : Bytes) {k : LookupKey} {r : Table}
    → lookup_table_add t text ≡ some r
    → lookup t needs key ≡ some k
    → lookup r needs key ≡ some k
unfolding lookup lookup_find
lookup-kept t needs text key {k} {r} h found =
    let new = lookup_key_init text in
    let (_, added) = add_inv t text {r = r} h in
    let start = new.hash % length t.slots in
    let same = length-probe_add (length t.slots) t.slots start new {r = r.slots} added in
    let ((hash, count), info, hit) = >>=-eq-some (selected_key_info needs key) _ found in
    let still =
      probe_find-kept (length t.slots) (length t.slots) t.slots (hash % length t.slots) start new
        (is_expected key hash count) {r = r.slots} {k = k} added hit in
    rw (info, same) still

refused_later :
    (b : Bool) (o : Option Slots) (f : Slots → Option Table)
    → o ≡ none
    → (guard b >> (o >>= f)) ≡ none
refused_later true o f e = rw e refl
refused_later false o f e = refl

add_refused :
    (t : Table) (text : Bytes)
    → probe_add
        (length t.slots)
        t.slots
        ((lookup_key_init text).hash % length t.slots)
        (lookup_key_init text)
      ≡ none
    → lookup_table_add t text ≡ none
unfolding lookup_table_add
add_refused t text e =
    refused_later (not (leb (length t.slots) 0) && ltb t.count (length t.slots)) _ _ e

-- A key that is found, under any spelling, is not added again.
pub lookup_table_add-found :
    (t : Table) (needs : Bool) (key : Bytes) {vs : List ℕ} {k : LookupKey}
    → Checked needs key
    → Decodes true key vs true
    → lookup t needs key ≡ some k
    → lookup_table_add t (all_units utf8_encode vs) ≡ none
lookup_table_add-found t needs key {vs} {k} c d found =
    let text = all_units utf8_encode vs in
    let new = lookup_key_init text in
    let hit = sym (lookup-Decodes t needs key c d) ∙ found in
    let refused =
      probe_add-found (length t.slots) t.slots (new.hash % length t.slots) new
        (is_expected key new.hash (length text)) {k = k} (λ x. compared_alike key x d)
        (unfold lookup_find in hit) in
    add_refused t text refused
