-- ===== src/Stream/Cuts/Settle.antt =====
-- The stream that `kason_stream_preserve_direct` of kason.c leaves where the scratch buffer has room.
use kason.Base.{
  ℕ, ◌+◌, ◌-◌, ◌≤◌, ◌<◌, false, Option, none, some, [], ◌∷◌, ◌++◌, leb, if◌then◌else◌, Bytes,
  length, length-append, length-drop, drop-length, take-length, drop-append, take-append,
  append_assoc, append-nil, drop, ◌≡◌, inl, inr, refl, sym, ◌∙◌, ap, arith, Bool-cases,
}
use kason.Parse.Tokens.{Slice, slice_bytes}
use kason.Stream.State.{
  success, Stream, scratch_slice, copy_loop, copy_direct_key, copy_direct_value, preserve_direct,
  direct_or, key_bytes, value_bytes, make_key,
}

abbrev pub part : Option Slice → Bytes
part none = []
part (some p) = slice_bytes p

abbrev pub pick : Option Slice → ℕ → ℕ → ℕ
pick none new old = old
pick (some p) new old = new

-- The scratch bytes with the key in them.
abbrev pub with_key : {U : Type 0} → Stream U → Bytes
with_key t = t.scratch ++ part t.direct_key

unfoldable pub settle : {U : Type 0} → Stream U → Stream U
settle t = record t {
  scratch = with_key t ++ part t.direct_value;
  key_begin = pick t.direct_key (length t.scratch) t.key_begin;
  key_end = pick t.direct_key (length (with_key t) - 1) t.key_end;
  value_begin = pick t.direct_value (length (with_key t)) t.value_begin;
  value_end = pick t.direct_value (length (with_key t ++ part t.direct_value) - 1) t.value_end;
  direct_key = none;
  direct_value = none;
}

copy_loop-append :
    (size : ℕ) (s scratch : Bytes)
    → length scratch + length s ≤ size
    → copy_loop size s scratch (length scratch - 1)
      ≡ (success, scratch ++ s, length (scratch ++ s) - 1)
unfolding copy_loop
copy_loop-append size [] scratch room = rw (append-nil scratch) refl
copy_loop-append size (c ∷ s) scratch room =
    let x = scratch ++ (c ∷ []) in
    let e = length-append scratch (c ∷ []) in
    let full : leb size (length scratch) ≡ false = ground (arith, room) in
    let end : length x - 1 ≡ length scratch = omega (arith, e) in
    let rest = copy_loop-append size s x (omega (arith, e, room)) in
    rw (full, sym end, rest, append_assoc scratch (c ∷ []) s) refl

pub settle_nothing :
    {U : Type 0} (t : Stream U) → t.direct_key ≡ none → t.direct_value ≡ none → settle t ≡ t
unfolding settle
settle_nothing t k v = λ i. record t {
  scratch = scratch_same i;
  key_begin = pick (k i) (length t.scratch) t.key_begin;
  key_end = pick (k i) (length (with_key t) - 1) t.key_end;
  value_begin = pick (v i) (length (with_key t)) t.value_begin;
  value_end = pick (v i) (length (with_key t ++ part t.direct_value) - 1) t.value_end;
  direct_key = sym k i;
  direct_value = sym v i;
}
  where
    scratch_same : with_key t ++ part t.direct_value ≡ t.scratch
    scratch_same =
        ap (λ o. (t.scratch ++ part o) ++ part t.direct_value) k
        ∙ ap (λ o. (t.scratch ++ []) ++ part o) v
        ∙ append-nil (t.scratch ++ [])
        ∙ append-nil t.scratch

-- The copy of a key, then of a value, into a buffer with room.
copy_direct_key-room :
    {U : Type 0} (o : Option Slice) (t : Stream U)
    → length (t.scratch ++ part o) ≤ t.scratch_size
    → copy_direct_key o (record t { direct_key = o }) ≡ (
      success,
      record t {
        scratch = t.scratch ++ part o;
        key_begin = pick o (length t.scratch) t.key_begin;
        key_end = pick o (length (t.scratch ++ part o) - 1) t.key_end;
        direct_key = none;
      },
    )
copy_direct_key-room none t room = rw (append-nil t.scratch) refl
copy_direct_key-room (some p) t room =
    let e = length-append t.scratch (slice_bytes p) in
    rw (copy_loop-append t.scratch_size (slice_bytes p) t.scratch (omega (arith, e, room))) refl

copy_direct_value-room :
    {U : Type 0} (o : Option Slice) (t : Stream U)
    → length (t.scratch ++ part o) ≤ t.scratch_size
    → copy_direct_value o (record t { direct_value = o }) ≡ (
      success,
      record t {
        scratch = t.scratch ++ part o;
        value_begin = pick o (length t.scratch) t.value_begin;
        value_end = pick o (length (t.scratch ++ part o) - 1) t.value_end;
        direct_value = none;
      },
    )
copy_direct_value-room none t room = rw (append-nil t.scratch) refl
copy_direct_value-room (some p) t room =
    let e = length-append t.scratch (slice_bytes p) in
    rw (copy_loop-append t.scratch_size (slice_bytes p) t.scratch (omega (arith, e, room))) refl

pub preserve_direct-room :
    {U : Type 0} (t : Stream U)
    → length (settle t).scratch ≤ t.scratch_size
    → preserve_direct t ≡ (success, settle t)
unfolding preserve_direct settle
preserve_direct-room t room =
    let e = length-append (with_key t) (part t.direct_value) in
    let keyed = record t {
      scratch = with_key t;
      key_begin = pick t.direct_key (length t.scratch) t.key_begin;
      key_end = pick t.direct_key (length (with_key t) - 1) t.key_end;
      direct_key = none;
    } in
    rw (copy_direct_key-room t.direct_key t (omega (arith, e, room)))
      (copy_direct_value-room t.direct_value keyed room)

-- A slice that has just been copied, and one that is there already.
scratch_slice-new :
    (a b c : Bytes)
    → 1 ≤ length a
    → scratch_slice ((a ++ b) ++ c) (length a) (length (a ++ b) - 1) ≡ b
scratch_slice-new a b c le =
    let e = length-append a b in
    let taken : drop (length a) ((a ++ b) ++ c) ≡ b ++ c =
      ap (drop (length a)) (append_assoc a b c) ∙ drop-length a (b ++ c) in
    elim (Bool-cases (leb (length a) (length (a ++ b) - 1))) [
      | inl p ↦
          let n : length (a ++ b) - 1 + 1 - length a ≡ length b = ground (arith, e, p, le) in
          rw (p, n, taken) (take-length b c)
      | inr p ↦ rw p (sym (no_bytes b (ground (arith, e, p, le))))
    ]
  where
    no_bytes : (x : Bytes) → length x ≡ 0 → x ≡ []
    no_bytes [] z = refl
    no_bytes (y ∷ x) z = absurd (omega (arith, z))

scratch_slice-kept :
    (a c : Bytes) (begin end : ℕ)
    → end < length a
    → scratch_slice (a ++ c) begin end ≡ scratch_slice a begin end
scratch_slice-kept a c begin end lt = elim (Bool-cases (leb begin end)) [
  | inl p ↦
      let d = drop-append begin a c (ground (arith, p, lt)) in
      let n = length-drop begin a in
      rw (p, d) (take-append (end + 1 - begin) (drop begin a) c (ground (arith, p, lt, n)))
  | inr p ↦ rw p refl
]

pub settle-value_bytes :
    {U : Type 0} (t : Stream U)
    → 1 ≤ length t.scratch
    → (t.direct_value ≡ none → t.direct_key ≡ none)
    → value_bytes (settle t) ≡ value_bytes t
unfolding value_bytes settle
settle-value_bytes t le alone = copied t.direct_value refl
  where
    copied :
        (o : Option Slice)
        → t.direct_value ≡ o
        → scratch_slice
            (with_key t ++ part o)
            (pick o (length (with_key t)) t.value_begin)
            (pick o (length (with_key t ++ part o) - 1) t.value_end)
          ≡ direct_or o (scratch_slice t.scratch t.value_begin t.value_end)
    copied none e =
        ap (λ x. scratch_slice x t.value_begin t.value_end)
          (append-nil (with_key t) ∙ ap (λ k. t.scratch ++ part k) (alone e) ∙ append-nil t.scratch)
    copied (some p) e =
        let b = slice_bytes p in
        ap (λ x. scratch_slice x (length (with_key t)) (length (with_key t ++ b) - 1))
          (sym (append-nil (with_key t ++ b)))
        ∙ scratch_slice-new (with_key t) b []
            (omega (arith, le, length-append t.scratch (part t.direct_key)))

pub settle-key_bytes :
    {U : Type 0} (t : Stream U)
    → 1 ≤ length t.scratch
    → t.key_end < length t.scratch
    → key_bytes (settle t) ≡ key_bytes t
unfolding key_bytes settle
settle-key_bytes t le inside = copied t.direct_key
  where
    copied :
        (o : Option Slice)
        → scratch_slice
            ((t.scratch ++ part o) ++ part t.direct_value)
            (pick o (length t.scratch) t.key_begin)
            (pick o (length (t.scratch ++ part o) - 1) t.key_end)
          ≡ direct_or o (scratch_slice t.scratch t.key_begin t.key_end)
    copied none =
        ap (λ x. scratch_slice (x ++ part t.direct_value) t.key_begin t.key_end)
          (append-nil t.scratch)
        ∙ scratch_slice-kept t.scratch (part t.direct_value) t.key_begin t.key_end inside
    copied (some p) = scratch_slice-new t.scratch (slice_bytes p) (part t.direct_value) le

pub settle-make_key :
    {U : Type 0} (t : Stream U)
    → 1 ≤ length t.scratch
    → t.key_end < length t.scratch
    → make_key (settle t) ≡ make_key t
unfolding make_key settle
settle-make_key t le inside =
    ap (λ x. if t.has_key then some x else none) (settle-key_bytes t le inside)

pub settle-inside :
    {U : Type 0} (t : Stream U)
    → 1 ≤ length t.scratch
    → t.key_end < length t.scratch
    → (settle t).key_end < length (settle t).scratch
unfolding settle
settle-inside t le inside = copied t.direct_key
  where
    copied :
        (o : Option Slice)
        → pick o (length (t.scratch ++ part o) - 1) t.key_end
          < length ((t.scratch ++ part o) ++ part t.direct_value)
    copied o =
        let e = length-append t.scratch (part o) in
        let f = length-append (t.scratch ++ part o) (part t.direct_value) in
        elim o
            as (λ x.
              length (t.scratch ++ part x) ≡ length t.scratch + length (part x)
              → length ((t.scratch ++ part x) ++ part t.direct_value)
                ≡ length (t.scratch ++ part x) + length (part t.direct_value)
              → pick x (length (t.scratch ++ part x) - 1) t.key_end
                < length ((t.scratch ++ part x) ++ part t.direct_value)) [
                  | none ↦ λ a b. omega (arith, a, b, inside)
                  | some p ↦ λ a b. omega (arith, a, b, le)
                ]
          e f
