-- ===== src/Lookup/Found.antt =====
-- Keys that are added to the lookup table of kason.c are found, and stay so.
use kason.Base.{
  ℕ, zero, suc, ◌+◌, ◌<◌, Bool, true, false, Option, none, some, [], ◌∷◌, ◌==◌, length, get_or, set,
  ◌≡◌, ◌⊎◌, inl, inr, refl, ap, sym, ◌∙◌, subst, arith, Bool-cases,
}
use kason.Lookup.Key.{LookupKey}
use kason.Lookup.Table.{Slots, next_index, same_key, add_at, probe_add, find_at, probe_find}

length-set_slot :
    (slots : Slots) (i : ℕ) (v : Option LookupKey) → length (set slots i v) ≡ length slots
length-set_slot [] i v = refl
length-set_slot (x ∷ slots) zero v = refl
length-set_slot (x ∷ slots) (suc i) v = omega (arith, length-set_slot slots i v)

-- A slot that is filled is not the one that is written.
kept_slot :
    (slots : Slots) (i j : ℕ) (v : Option LookupKey) {k : LookupKey}
    → get_or slots i none ≡ none
    → get_or slots j none ≡ some k
    → get_or (set slots i v) j none ≡ some k
kept_slot [] i j v p q = q
kept_slot (x ∷ slots) zero zero v p q = absurd (cc (p, q))
kept_slot (x ∷ slots) zero (suc j) v p q = q
kept_slot (x ∷ slots) (suc i) zero v p q = q
kept_slot (x ∷ slots) (suc i) (suc j) v p q = kept_slot slots i j v p q

written_slot :
    (slots : Slots) (i : ℕ) (v : Option LookupKey)
    → i < length slots
    → get_or (set slots i v) i none ≡ v
written_slot [] i v h = absurd (omega (arith, h))
written_slot (x ∷ slots) zero v h = refl
written_slot (x ∷ slots) (suc i) v h = written_slot slots i v (omega (arith, h))

add_cases :
    (slots : Slots) (i : ℕ) (key : LookupKey) (later : Option Slots) (o : Option LookupKey)
    {r : Slots}
    → add_at slots i key later o ≡ some r
    → ((o ≡ none) × (set slots i (some key) ≡ r))
      ⊎ ((k : LookupKey) × (o ≡ some k) × (same_key k key ≡ false) × (later ≡ some r))
unfolding add_at
add_cases slots i key later none h = inl (refl, cc h)
add_cases slots i key later (some k) h = elim (Bool-cases (same_key k key)) [
  | inl p ↦ absurd (cc (rw p at h))
  | inr p ↦ inr (k, refl, p, rw p at h)
]

next_index-lt : (n i : ℕ) → i < n → next_index n i < n
next_index-lt n i h = elim (Bool-cases (i + 1 == n)) [
  | inl p ↦ rw p (omega (arith, h))
  | inr p ↦ rw p (ground (arith, p, h))
]

pub length-probe_add :
    (left : ℕ) (slots : Slots) (i : ℕ) (key : LookupKey) {r : Slots}
    → probe_add left slots i key ≡ some r
    → length r ≡ length slots
unfolding probe_add
length-probe_add zero slots i key h = absurd (cc h)
length-probe_add (suc left) slots i key {r} h =
    elim (add_cases slots i key (probe_add left slots (next_index (length slots) i) key)
      (get_or slots i none) {r = r} h) [
        | inl (p, e) ↦ ap length (sym e) ∙ length-set_slot slots i (some key)
        | inr (k, p, q, e) ↦ length-probe_add left slots (next_index (length slots) i) key {r = r} e
      ]

-- A key that is stored stays where it is.
probe_add-keeps :
    (left : ℕ) (slots : Slots) (i : ℕ) (key : LookupKey) {r : Slots} (j : ℕ) {k : LookupKey}
    → probe_add left slots i key ≡ some r
    → get_or slots j none ≡ some k
    → get_or r j none ≡ some k
unfolding probe_add
probe_add-keeps zero slots i key j h q = absurd (cc h)
probe_add-keeps (suc left) slots i key {r} j {k} h q =
    elim (add_cases slots i key (probe_add left slots (next_index (length slots) i) key)
      (get_or slots i none) {r = r} h) [
        | inl (p, e) ↦
            subst (λ x. get_or x j none ≡ some k) e (kept_slot slots i j (some key) {k = k} p q)
        | inr (k', p, q', e) ↦
            probe_add-keeps left slots (next_index (length slots) i) key {r = r} j {k = k} e q
      ]

find_hit :
    (wanted : LookupKey → Bool) (later : Option LookupKey) (k : LookupKey)
    → wanted k ≡ true
    → find_at wanted later (some k) ≡ some k
unfolding find_at
find_hit wanted later k h = rw h refl

find_miss :
    (wanted : LookupKey → Bool) (later : Option LookupKey) (k : LookupKey)
    → wanted k ≡ false
    → find_at wanted later (some k) ≡ later
unfolding find_at
find_miss wanted later k h = rw h refl

-- The new key is found by a test that agrees with the comparison of keys.
pub probe_find-probe_add :
    (left : ℕ) (slots : Slots) (i : ℕ) (key : LookupKey) (wanted : LookupKey → Bool) {r : Slots}
    → i < length slots
    → ((k : LookupKey) → same_key k key ≡ wanted k)
    → wanted key ≡ true
    → probe_add left slots i key ≡ some r
    → probe_find left r i wanted ≡ some key
unfolding probe_add probe_find
probe_find-probe_add zero slots i key wanted inside agree self h = absurd (cc h)
probe_find-probe_add (suc left) slots i key wanted {r} inside agree self h =
    elim (add_cases slots i key (probe_add left slots (next_index (length slots) i) key)
      (get_or slots i none) {r = r} h) [
        | inl (p, e) ↦
            let slot : get_or r i none ≡ some key =
              ap (λ x. get_or x i none) (sym e) ∙ written_slot slots i (some key) inside in
            ap (find_at wanted (probe_find left r (next_index (length r) i) wanted)) slot
            ∙ find_hit wanted (probe_find left r (next_index (length r) i) wanted) key self
        | inr (k, p, q, e) ↦
            let next = next_index (length slots) i in
            let slot = probe_add-keeps left slots next key {r = r} i {k = k} e p in
            let same = length-probe_add left slots next key {r = r} e in
            ap (find_at wanted (probe_find left r (next_index (length r) i) wanted)) slot
            ∙ find_miss wanted (probe_find left r (next_index (length r) i) wanted) k
                (sym (agree k) ∙ q)
            ∙ ap (λ n. probe_find left r (next_index n i) wanted) same
            ∙ probe_find-probe_add left slots next key wanted {r = r}
                (next_index-lt (length slots) i inside) agree self e
      ]

find_none :
    (wanted : LookupKey → Bool) (later : Option LookupKey) → find_at wanted later none ≡ none
unfolding find_at
find_none wanted later = refl

-- What a search meets first: a filled slot, which it takes or passes.
find_cases :
    (wanted : LookupKey → Bool) (later : Option LookupKey) (o : Option LookupKey) {k : LookupKey}
    → find_at wanted later o ≡ some k
    → (s : LookupKey) × (o ≡ some s)
      × (((wanted s ≡ true) × (s ≡ k)) ⊎ ((wanted s ≡ false) × (later ≡ some k)))
unfolding find_at
find_cases wanted later none h = absurd (cc h)
find_cases wanted later (some s) h = elim (Bool-cases (wanted s)) [
  | inl p ↦ (s, refl, inl (p, cc (rw p at h)))
  | inr p ↦ (s, refl, inr (p, rw p at h))
]

-- Another key that was found is found still.
pub probe_find-kept :
    (left more : ℕ) (slots : Slots) (i start : ℕ) (key : LookupKey) (wanted : LookupKey → Bool)
    {r : Slots} {k : LookupKey}
    → probe_add more slots start key ≡ some r
    → probe_find left slots i wanted ≡ some k
    → probe_find left r i wanted ≡ some k
unfolding probe_find
probe_find-kept zero more slots i start key wanted add h = absurd (cc h)
probe_find-kept (suc left) more slots i start key wanted {r} {k} add h =
    let (s, p, cases) =
      find_cases wanted (probe_find left slots (next_index (length slots) i) wanted)
        (get_or slots i none) {k = k} h in
    let slot = probe_add-keeps more slots start key {r = r} i {k = s} add p in
    let same = length-probe_add more slots start key {r = r} add in
    let later = probe_find left r (next_index (length r) i) wanted in
    ap (find_at wanted later) slot ∙ elim cases [
      | inl (q, e) ↦ find_hit wanted later s q ∙ ap some e
      | inr (q, e) ↦
          find_miss wanted later s q
          ∙ ap (λ n. probe_find left r (next_index n i) wanted) same
          ∙ probe_find-kept left more slots (next_index (length slots) i) start key wanted {r = r}
              {k = k} add e
    ]

add_hit :
    (slots : Slots) (i : ℕ) (key : LookupKey) (later : Option Slots) (s : LookupKey)
    → (same_key s key ≡ true) ⊎ (later ≡ none)
    → add_at slots i key later (some s) ≡ none
unfolding add_at
add_hit slots i key later s (inl h) = rw h refl
add_hit slots i key later s (inr h) = elim (Bool-cases (same_key s key)) [
  | inl p ↦ rw p refl
  | inr p ↦ rw (p, h) refl
]

-- A key that is found is not added again.
pub probe_add-found :
    (left : ℕ) (slots : Slots) (i : ℕ) (key : LookupKey) (wanted : LookupKey → Bool) {k : LookupKey}
    → ((k : LookupKey) → same_key k key ≡ wanted k)
    → probe_find left slots i wanted ≡ some k
    → probe_add left slots i key ≡ none
unfolding probe_find probe_add
probe_add-found zero slots i key wanted agree h = refl
probe_add-found (suc left) slots i key wanted {k} agree h =
    let next = next_index (length slots) i in
    let (s, p, cases) =
      find_cases wanted (probe_find left slots next wanted) (get_or slots i none) {k = k} h in
    ap (add_at slots i key (probe_add left slots next key)) p
    ∙ add_hit slots i key (probe_add left slots next key) s (elim cases [
      | inl (q, e) ↦ inl (agree s ∙ q)
      | inr (q, e) ↦ inr (probe_add-found left slots next key wanted {k = k} agree e)
    ])
