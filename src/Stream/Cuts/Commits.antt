-- ===== src/Stream/Cuts/Commits.antt =====
-- What kason.c reports at the end of a value, and at the begin of a container, does not depend on the
-- cuts.
use kason.Base.{
  ℕ, Bool, true, false, Option, none, some, [], ◌∷◌, ◌==◌, if◌then◌else◌, Bytes, length, ◌≡◌, refl,
  sym, ◌∙◌, ap, subst, arith,
}
use kason.Types.{JsonType, string}
use kason.Stream.State.{
  Phase, find_root, find_key_begin, find_key_end, find_value_sep, find_value_begin, find_string_end,
  find_generic_end, find_param_sep, stream_container, key_escape, string_escape, finished, success,
  value_event, StreamData, Stream, Outcome, unless_break, clear_scratch, value_bytes, make_key,
  after_callback, stream_emit,
}
use kason.Stream.Tokens.{
  in_container, is_generic, generic_type, commit_primitive, after_completed_value, commit_string,
  after_generic, commit_typed, commit_generic,
}
use kason.Stream.Feed.{at_rest}
use kason.Stream.Bounds.{is_container}
use kason.Stream.Cuts.Settle.{part, settle, settle-make_key}
use kason.Stream.Cuts.Drip.{outcome_of, GrowsTo, Nothing, Placed, Underway, Agrees, Agrees-going}
use kason.Stream.Cuts.Separators.{Underway-cleared}

-- Without direct slices every phase finds them in place.
pub Nothing-Placed :
    {U : Type 0} (phase : Phase) (s : Bytes) (t : Stream U)
    → Nothing t
    → (is_container phase ≡ true → t.key_end ≡ 0)
    → Placed phase s t
Nothing-Placed find_root s t h k = h
Nothing-Placed find_key_begin s t h k = h
Nothing-Placed find_key_end s t h k = (subst (λ o. GrowsTo s o) (sym h.0) tt, h.1)
Nothing-Placed key_escape s t h k = h
Nothing-Placed find_value_sep s t h k = h.1
Nothing-Placed find_value_begin s t h k = h.1
Nothing-Placed find_string_end s t h k = (subst (λ o. GrowsTo s o) (sym h.1) tt, λ e. h.0)
Nothing-Placed string_escape s t h k = h
Nothing-Placed find_generic_end s t h k = (subst (λ o. GrowsTo s o) (sym h.1) tt, λ e. h.0)
Nothing-Placed find_param_sep s t h k = h
Nothing-Placed stream_container s t h k = (h, k refl)
Nothing-Placed finished s t h k = tt

-- A stream that differs from another in its phase and its marks.
pub record Restates {U : Type 0} (t u : Stream U) : Type 0 where
  pub scratch : u.scratch ≡ t.scratch
  pub size : u.scratch_size ≡ t.scratch_size
  pub key : u.key_end ≡ t.key_end
  pub quiet : u.callback_break ≡ t.callback_break
  pub callback : u.callback ≡ t.callback
  pub no_key : u.direct_key ≡ t.direct_key
  pub no_value : u.direct_value ≡ t.direct_value

abbrev restated : {U : Type 0} (t : Stream U) → Restates t t
restated t = record {
  scratch = refl;
  size = refl;
  key = refl;
  quiet = refl;
  callback = refl;
  no_key = refl;
  no_value = refl;
}

if-Restates :
    {U : Type 0} (b : Bool) (t u v : Stream U)
    → Restates t u
    → Restates t v
    → Restates t (if b then u else v)
if-Restates true t u v p q = p
if-Restates false t u v p q = q

marked :
    {U : Type 0} (t u : Stream U)
    → u.scratch ≡ t.scratch
    → u.scratch_size ≡ t.scratch_size
    → u.key_end ≡ t.key_end
    → u.callback_break ≡ t.callback_break
    → u.callback ≡ t.callback
    → u.direct_key ≡ t.direct_key
    → u.direct_value ≡ t.direct_value
    → Restates t u
marked t u a b c d e f g = record {
  scratch = a;
  size = b;
  key = c;
  quiet = d;
  callback = e;
  no_key = f;
  no_value = g;
}

after_generic-Restates :
    {U : Type 0} (delimiter : ℕ) (t : Stream U) → Restates t (after_generic delimiter t)
unfolding after_generic
after_generic-Restates delimiter t =
    if-Restates (is_generic t.mode) t _ _ (marked t _ refl refl refl refl refl refl refl) (
      if-Restates (delimiter == b',') t _ _ (marked t _ refl refl refl refl refl refl refl) (
        if-Restates (delimiter == t.end_token) t _ _ (marked t _ refl refl refl refl refl refl refl)
          (marked t _ refl refl refl refl refl refl refl)))

after_completed_value-Restates : {U : Type 0} (t : Stream U) → Restates t (after_completed_value t)
unfolding after_completed_value
after_completed_value-Restates t =
    if-Restates (in_container t.mode) t _ _ (marked t _ refl refl refl refl refl refl refl)
      (marked t _ refl refl refl refl refl refl refl)

-- The commit of a value, once the callback has answered.
abbrev answered : {U : Type 0} → (Stream U → Stream U) → Stream U → Bool × U → Outcome U
answered ended t a =
    unless_break (unless_break (after_callback t a) (λ u. (success, clear_scratch u)))
      (λ u. (success, ended u))

answered-goes :
    {U : Type 0} (ended : Stream U → Stream U) (t : Stream U) (u : U)
    → t.callback_break ≡ false
    → answered ended t (false, u) ≡ (success, ended (clear_scratch (record t { user_data = u })))
unfolding clear_scratch
answered-goes ended t u quiet =
    let y = record t { user_data = u } in
    ap
      (λ b.
        unless_break (if b then (success, y) else (success, clear_scratch y))
          (λ x. (success, ended x)))
      quiet
    ∙ ap (λ b. if b then (success, clear_scratch y) else (success, ended (clear_scratch y))) quiet

answered-Agrees :
    {U : Type 0} (ended : Stream U → Stream U) (c : ℕ) (s : Bytes) (t : Stream U) (a : Bool × U)
    → ((x : Stream U) → Restates x (ended x))
    → Underway (c ∷ s) t
    → Agrees s
        (at_rest s (answered ended t a))
        (outcome_of (at_rest [] (answered ended (settle t) a)))
unfolding clear_scratch settle
answered-Agrees ended c s t (true, u) marks h = (refl, λ q. absurd (cc q), refl)
answered-Agrees ended c s t (false, u) marks h =
    let z = clear_scratch (record t { user_data = u }) in
    let r = marks z in
    let nothing : Nothing (ended z) = (r.no_key, r.no_value) in
    subst
      (λ x. Agrees s (at_rest s x) (outcome_of (at_rest [] (answered ended (settle t) (false, u)))))
      (sym (answered-goes ended t u h.quiet))
      (subst (λ x. Agrees s (success, s, ended z) (outcome_of (at_rest [] x)))
        (sym (answered-goes ended (settle t) u h.quiet))
        (Agrees-going s (ended z) (ended z)
          (Underway-cleared c s t (ended z) h r.scratch r.size r.key r.quiet r.callback
            (omega
              (arith, ap (λ o. length (part o)) r.no_key, ap (λ o. length (part o)) r.no_value))
            (Nothing-Placed (ended z).state s (ended z) nothing (λ x. r.key)))
          refl))

abbrev sent_value : JsonType → Bytes → StreamData
sent_value kind text = record { type = kind; event = value_event; text = text }

-- A primitive value of a given type, in the middle of a chunk and at its end.
committed-Agrees :
    {U : Type 0} (kind : JsonType) (ended : Stream U → Stream U) (c : ℕ) (s : Bytes) (t : Stream U)
    → ((x : Stream U) → Restates x (ended x))
    → Underway (c ∷ s) t
    → value_bytes (settle t) ≡ value_bytes t
    → Agrees s (at_rest s (unless_break (commit_primitive kind t) (λ u. (success, ended u)))) (
        outcome_of
          (at_rest [] (unless_break (commit_primitive kind (settle t)) (λ u. (success, ended u)))))
unfolding commit_primitive stream_emit settle
committed-Agrees kind ended c s t marks h e =
    subst
      (λ b.
        Agrees s
          (at_rest s (
            answered ended t
              (t.callback (make_key t) (sent_value kind (value_bytes t)) t.user_data)))
          (outcome_of (
            at_rest [] (
              answered ended (settle t)
                (t.callback (make_key (settle t)) (sent_value kind b) t.user_data)))))
      (sym e)
      (subst
        (λ k.
          Agrees s
            (at_rest s (
              answered ended t
                (t.callback (make_key t) (sent_value kind (value_bytes t)) t.user_data)))
            (outcome_of (
              at_rest [] (
                answered ended (settle t)
                  (t.callback k (sent_value kind (value_bytes t)) t.user_data)))))
        (sym (settle-make_key t h.filled h.key_inside))
        (answered-Agrees ended c s t
          (t.callback (make_key t) (sent_value kind (value_bytes t)) t.user_data) marks h))

pub commit_string-Agrees :
    {U : Type 0} (c : ℕ) (s : Bytes) (t : Stream U)
    → Underway (c ∷ s) t
    → value_bytes (settle t) ≡ value_bytes t
    → Agrees s (at_rest s (commit_string t)) (outcome_of (at_rest [] (commit_string (settle t))))
unfolding commit_string
commit_string-Agrees c s t h e =
    committed-Agrees string after_completed_value c s t after_completed_value-Restates h e

commit_typed-Agrees :
    {U : Type 0} (o : Option JsonType) (c : ℕ) (s : Bytes) (t : Stream U)
    → Underway (c ∷ s) t
    → value_bytes (settle t) ≡ value_bytes t
    → Agrees s
        (at_rest s (commit_typed c t o))
        (outcome_of (at_rest [] (commit_typed c (settle t) o)))
unfolding settle
commit_typed-Agrees none c s t h e = refl
commit_typed-Agrees (some kind) c s t h e =
    committed-Agrees kind (after_generic c) c s t (after_generic-Restates c) h e

pub commit_generic-Agrees :
    {U : Type 0} (c : ℕ) (s : Bytes) (t : Stream U)
    → Underway (c ∷ s) t
    → value_bytes (settle t) ≡ value_bytes t
    → Agrees s
        (at_rest s (commit_generic c t))
        (outcome_of (at_rest [] (commit_generic c (settle t))))
unfolding commit_generic
commit_generic-Agrees c s t h e =
    subst
      (λ b.
        Agrees s (at_rest s (commit_typed c t (generic_type (value_bytes t))))
          (outcome_of (at_rest [] (commit_typed c (settle t) (generic_type b)))))
      (sym e) (commit_typed-Agrees (generic_type (value_bytes t)) c s t h e)
