-- ===== src/Stream/Cuts/Grow.antt =====
-- The loops of kason.c that move the cursor over the bytes of a token do what the bytes do one by one.
use kason.Base.{
  ℕ, ◌+◌, ◌≤◌, ◌<◌, Bool, true, false, none, [], ◌∷◌, ◌++◌, leb, if◌then◌else◌, Bytes, length,
  length-append, append_assoc, append-nil, ◌≡◌, inl, inr, refl, sym, ◌∙◌, ap, arith, Bool-cases,
}
use kason.Stream.State.{success, Stream, append_scratch}
use kason.Stream.Calls.{feed_byte}
use kason.Stream.Cuts.Settle.{settle, settle_nothing}
use kason.Stream.Cuts.Drip.{going, broke, seen, outcome_of, proceed, drip}

pub append_scratch-room :
    {U : Type 0} (c : ℕ) (t : Stream U)
    → length t.scratch < t.scratch_size
    → append_scratch c t ≡ (success, record t { scratch = t.scratch ++ (c ∷ []) })
unfolding append_scratch
append_scratch-room c t room =
    let full : leb t.scratch_size (length t.scratch) ≡ false = ground (arith, room) in rw full refl

-- What a stream without direct slices looks like behind a successful round.
pub seen-settled :
    {U : Type 0} (t : Stream U)
    → t.callback_break ≡ false
    → t.direct_key ≡ none
    → t.direct_value ≡ none
    → seen (success, t) ≡ going t
seen-settled t quiet k v =
    ap (λ b. if b then broke t.user_data else going (settle t)) quiet
    ∙ ap going (settle_nothing t k v)

-- A token that grows by the bytes that pass a test: `grown` is the stream by what the token holds.
module _ {U : Type 0} (passes : ℕ → Bool) (skip : Bytes → Bytes) (grown : Bytes → Stream U)
    (room : ℕ) (skip-nil : skip [] ≡ [])
    (skip-cons : (c : ℕ) (s : Bytes) → skip (c ∷ s) ≡ (if passes c then skip s else c ∷ s))
    (one : (b : Bytes) (c : ℕ)
      → length b < room
      → passes c ≡ true
      → seen (outcome_of (feed_byte (grown b).state c [] (grown b)))
        ≡ going (grown (b ++ (c ∷ [])))) where
  pub drip-skip :
      (s b : Bytes)
      → length b + length s ≤ room
      → (front : Bytes) × (s ≡ front ++ skip s)
        × (drip s (grown b) ≡ drip (skip s) (grown (b ++ front)))
  unfolding drip
  drip-skip [] b le = ([], sym skip-nil, rw (skip-nil, append-nil b) refl)
  drip-skip (c ∷ s) b le = elim (Bool-cases (passes c)) [
    | inl p ↦
        let e : skip (c ∷ s) ≡ skip s = skip-cons c s ∙ ap (λ x. if x then skip s else c ∷ s) p in
        let n = length-append b (c ∷ []) in
        let (front, split, rest) = drip-skip s (b ++ (c ∷ [])) (omega (arith, n, le)) in
        (
          c ∷ front,
          ap (◌∷◌ c) split ∙ ap (λ x. c ∷ (front ++ x)) (sym e),
          ap (proceed (drip s)) (one b c (omega (arith, le)) p)
              ∙ rest
              ∙ ap (λ x. drip (skip s) (grown x)) (append_assoc b (c ∷ []) front)
              ∙ ap (λ x. drip x (grown (b ++ (c ∷ front)))) (sym e),
        )
    | inr p ↦
        let e : skip (c ∷ s) ≡ c ∷ s = skip-cons c s ∙ ap (λ x. if x then skip s else c ∷ s) p in
        (
          [],
          sym e,
          ap (drip (c ∷ s)) (ap grown (sym (append-nil b)))
              ∙ ap (λ x. drip x (grown (b ++ []))) (sym e),
        )
  ]
