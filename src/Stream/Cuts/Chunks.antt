-- ===== src/Stream/Cuts/Chunks.antt =====
-- The streaming parser of kason.c on an input cut into chunks, and on the whole input at once.
use kason.Base.{
  ◌+◌, Bool, true, false, Option, none, some, List, [], ◌∷◌, ◌++◌, length-append, if◌then◌else◌,
  Bytes, length, ◌≡◌, refl, sym, ◌∙◌, ap, subst, arith,
}
use kason.Stream.State.{
  StreamResult, success, incomplete, error, null_callback, buffer_full, Stream, Outcome,
}
use kason.Stream.Calls.{feed_byte, feed_loop, stream_feed}
use kason.Stream.Cuts.Settle.{settle_nothing}
use kason.Stream.Cuts.Drip.{
  Seen, going, broke, failed, seen, outcome_of, proceed, drip, Observed, observe_call, at_end,
}
use kason.Stream.Cuts.Commits.{Nothing-Placed}
use kason.Stream.Cuts.Rounds.{feed_loop-Drips}
use kason.Stream.Cuts.Rests.{Resting, AtRest, Placed-no_key, feed_byte-Resting}

-- A client that feeds chunk after chunk, until a call returns an error.
abbrev pub after_chunk :
    {U : Type 0} → (Stream U → Option (Outcome U)) → Option (Outcome U) → Option (Outcome U)
after_chunk later none = none
after_chunk later (some (success, t)) = later t
after_chunk later (some (incomplete, t)) = later t
after_chunk later (some (error, t)) = some (error, t)
after_chunk later (some (null_callback, t)) = some (null_callback, t)
after_chunk later (some (buffer_full, t)) = some (buffer_full, t)

unfoldable pub feed_chunks : {U : Type 0} → Bytes → List Bytes → Stream U → Option (Outcome U)
feed_chunks chunk [] t = stream_feed chunk t
feed_chunks chunk (next ∷ chunks) t = after_chunk (feed_chunks next chunks) (stream_feed chunk t)

abbrev pub joined : Bytes → List Bytes → Bytes
joined chunk [] = chunk
joined chunk (next ∷ chunks) = chunk ++ joined next chunks

drip-append :
    {U : Type 0} (a b : Bytes) (t : Stream U) → drip (a ++ b) t ≡ proceed (drip b) (drip a t)
unfolding drip
drip-append [] b t = refl
drip-append {U} (c ∷ a) b t =
    further (seen (outcome_of (feed_byte t.state c [] t))) (λ u. drip-append a b u)
  where
    further :
        (y : Seen U)
        → ((u : Stream U) → drip (a ++ b) u ≡ proceed (drip b) (drip a u))
        → proceed (drip (a ++ b)) y ≡ proceed (drip b) (proceed (drip a) y)
    further (going u) k = k u
    further (broke u) k = refl
    further (failed result u) k = refl

drip-AtRest : {U : Type 0} (a b : Bytes) (t : Stream U) → Resting (a ++ b) t → AtRest b (drip a t)
unfolding drip
drip-AtRest [] b t h = h
drip-AtRest {U} (c ∷ a) b t h =
    further (seen (outcome_of (feed_byte t.state c [] t))) refl
      (λ u e. drip-AtRest a b u (feed_byte-Resting c (a ++ b) t u h e))
  where
    further :
        (y : Seen U)
        → seen (outcome_of (feed_byte t.state c [] t)) ≡ y
        → ((u : Stream U)
            → seen (outcome_of (feed_byte t.state c [] t)) ≡ going u
            → AtRest b (drip a u))
        → AtRest b (proceed (drip a) y)
    further (going u) e k = k u e
    further (broke u) e k = tt
    further (failed result u) e k = tt

-- On a stream between two chunks, whose scratch buffer has room for the chunk, with a callback that
-- takes no notice of the parts of containers and continues on them, a call returns, and ends with the
-- result, the user data and, unless an error or the callback has ended it, the stream of the machine
-- that takes the bytes one by one and moves each to the buffer before the next.
pub stream_feed-drips :
    {U : Type 0} (s : Bytes) (t : Stream U)
    → Resting s t
    → observe_call (stream_feed s t) ≡ some (at_end (drip s t))
unfolding stream_feed
stream_feed-drips s t (h, nothing) =
    ap (λ b. observe_call (if b then some (success, t) else feed_loop (length s + 1) s t)) h.quiet
    ∙ feed_loop-Drips (length s + 1) s (omega arith) t h
    ∙ ap (λ x. some (at_end (drip s x))) (settle_nothing t nothing.0 nothing.1)

feed_chunks-broken :
    {U : Type 0} (chunk : Bytes) (chunks : List Bytes) (t : Stream U)
    → t.callback_break ≡ true
    → feed_chunks chunk chunks t ≡ some (success, t)
unfolding feed_chunks stream_feed
feed_chunks-broken chunk [] t e =
    ap (λ b. if b then some (success, t) else feed_loop (length chunk + 1) chunk t) e
feed_chunks-broken chunk (next ∷ chunks) t e =
    ap
      (λ b.
        after_chunk (feed_chunks next chunks)
          (if b then some (success, t) else feed_loop (length chunk + 1) chunk t))
      e
    ∙ feed_chunks-broken next chunks t e

some-injective : {U : Type 0} {t u : Stream U} → some t ≡ some u → t ≡ u
some-injective e = cc e

some-none : {U : Type 0} {t : Stream U} → some t ≡ none → ⊥
some-none e = cc e

pub observed : {U : Type 0} {x y : Observed U} → some x ≡ some y → x ≡ y
observed e = cc e

-- What the chunks behind one find.
module _ {U : Type 0} (later : Stream U → Option (Outcome U)) (s : Bytes)
    (goes : (t : Stream U) → Resting s t → observe_call (later t) ≡ some (at_end (drip s t)))
    (stops : (t : Stream U) → t.callback_break ≡ true → later t ≡ some (success, t)) where
  resumed :
      (t : Stream U) (y : Seen U) (left : Option (Stream U)) (result : StreamResult)
      → left ≡ some t
      → ◌≡◌ {A = Observed U} (result, t.user_data, left) (at_end y)
      → AtRest s y
      → observe_call (later t) ≡ some (at_end (proceed (drip s) y))
  resumed t (going u) left result e q rest =
      let same : t ≡ u = some-injective (sym e ∙ ap (λ x. x.2) q) in
      subst (λ x. observe_call (later x) ≡ some (at_end (drip s u))) (sym same) (goes u rest)
  resumed t (broke u) left result e q rest = absurd (some-none (sym e ∙ ap (λ x. x.2) q))
  resumed t (failed r u) left result e q rest = absurd (some-none (sym e ∙ ap (λ x. x.2) q))

  -- The callback has asked to stop, if there is no stream to feed on.
  stopped :
      (t : Stream U) (y : Seen U) (b : Bool)
      → t.callback_break ≡ b
      → ◌≡◌ {A = Observed U} (success, t.user_data, if b then none else some t) (at_end y)
      → AtRest s y
      → observe_call (later t) ≡ some (at_end (proceed (drip s) y))
  stopped t y false e q rest = resumed t y (some t) success refl q rest
  stopped t (going u) true e q rest = absurd (some-none (sym (ap (λ x. x.2) q)))
  stopped t (broke u) true e q rest =
      ap observe_call (stops t e)
      ∙ ap (λ b. some (success, t.user_data, if b then none else some t)) e
      ∙ ap some q
  stopped t (failed r u) true e q rest =
      ap observe_call (stops t e)
      ∙ ap (λ b. some (success, t.user_data, if b then none else some t)) e
      ∙ ap some q

  refused :
      (t : Stream U) (y : Seen U) (result : StreamResult)
      → ◌≡◌ {A = Observed U} (result, t.user_data, none) (at_end y)
      → ◌≡◌ {A = Option (Observed U)}
          (some (result, t.user_data, none))
          (some (at_end (proceed (drip s) y)))
  refused t (going u) result q = absurd (some-none (sym (ap (λ x. x.2) q)))
  refused t (broke u) result q = ap some q
  refused t (failed r u) result q = ap some q

  after_chunk-drips :
      (r : Option (Outcome U)) (y : Seen U)
      → observe_call r ≡ some (at_end y)
      → AtRest s y
      → observe_call (after_chunk later r) ≡ some (at_end (proceed (drip s) y))
  after_chunk-drips none y e rest = absurd (cc e)
  after_chunk-drips (some (success, t)) y e rest =
      stopped t y t.callback_break refl (observed e) rest
  after_chunk-drips (some (incomplete, t)) y e rest =
      resumed t y (some t) incomplete refl (observed e) rest
  after_chunk-drips (some (error, t)) y e rest = refused t y error (observed e)
  after_chunk-drips (some (null_callback, t)) y e rest = refused t y null_callback (observed e)
  after_chunk-drips (some (buffer_full, t)) y e rest = refused t y buffer_full (observed e)

-- Room for more is room for less.
Resting-shorter : {U : Type 0} (a b : Bytes) (t : Stream U) → Resting (a ++ b) t → Resting a t
Resting-shorter a b t (h, nothing) = (
  record {
    filled = h.filled;
    key_inside = h.key_inside;
    room = omega (arith, h.room, length-append a b);
    quiet = h.quiet;
    ignores = h.ignores;
    placed = Nothing-Placed t.state a t nothing (λ e. Placed-no_key t.state (a ++ b) t e h.placed);
  },
  nothing,
)

pub feed_chunks-drips :
    {U : Type 0} (chunk : Bytes) (chunks : List Bytes) (t : Stream U)
    → Resting (joined chunk chunks) t
    → observe_call (feed_chunks chunk chunks t) ≡ some (at_end (drip (joined chunk chunks) t))
unfolding feed_chunks
feed_chunks-drips chunk [] t h = stream_feed-drips chunk t h
feed_chunks-drips chunk (next ∷ chunks) t h =
    let rest = joined next chunks in
    after_chunk-drips (feed_chunks next chunks) rest (λ u q. feed_chunks-drips next chunks u q)
      (feed_chunks-broken next chunks) (stream_feed chunk t) (drip chunk t)
      (stream_feed-drips chunk t (Resting-shorter chunk rest t h)) (drip-AtRest chunk rest t h)
    ∙ ap (λ y. some (at_end y)) (sym (drip-append chunk rest t))

-- The input may be cut anywhere. On a stream between two chunks, whose scratch buffer has room for all
-- the bytes to come, with a callback that takes no notice of the parts of containers and continues on
-- them, feeding chunk after chunk until a call returns an error ends with the same result and user
-- data as feeding the whole input, and, unless an error or the callback has ended it, the same stream.
pub feed_chunks-stream_feed :
    {U : Type 0} (chunk : Bytes) (chunks : List Bytes) (t : Stream U)
    → Resting (joined chunk chunks) t
    → observe_call (feed_chunks chunk chunks t) ≡ observe_call (stream_feed (joined chunk chunks) t)
feed_chunks-stream_feed chunk chunks t h =
    feed_chunks-drips chunk chunks t h ∙ sym (stream_feed-drips (joined chunk chunks) t h)
