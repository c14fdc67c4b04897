-- ===== src/Stream/Cuts/Drip.antt =====
-- The streaming parser of kason.c on chunks of a byte each, and how a round in the middle of a longer
-- chunk compares with it.
use kason.Base.{
  ◌+◌, ◌≤◌, ◌<◌, Bool, true, false, Option, none, some, [], ◌∷◌, ◌++◌, if◌then◌else◌, Bytes, length,
  ◌≡◌, refl, ◌∙◌, ap,
}
use kason.Parse.Tokens.{Slice}
use kason.Stream.State.{
  Phase, find_root, find_key_begin, find_key_end, find_value_sep, find_value_begin, find_string_end,
  find_generic_end, find_param_sep, stream_container, key_escape, string_escape, finished,
  StreamResult, success, incomplete, error, null_callback, buffer_full, StreamData, container_part,
  StreamCallback, Stream, Outcome,
}
use kason.Stream.Calls.{is_finished, feed_byte, next_round}
use kason.Stream.Cuts.Settle.{settle}

-- A round, as far as the rounds behind it depend on it.
pub data Seen (U : Type 0) : Type 0 where
  going : Stream U → Seen U
  broke : U → Seen U
  failed : StreamResult → U → Seen U

abbrev pub seen : {U : Type 0} → Outcome U → Seen U
seen (success, t) = if t.callback_break then broke t.user_data else going (settle t)
seen (incomplete, t) = failed incomplete t.user_data
seen (error, t) = failed error t.user_data
seen (null_callback, t) = failed null_callback t.user_data
seen (buffer_full, t) = failed buffer_full t.user_data

abbrev pub outcome_of : {U : Type 0} → StreamResult × Bytes × Stream U → Outcome U
outcome_of (result, s, t) = (result, t)

abbrev pub proceed : {U : Type 0} → (Stream U → Seen U) → Seen U → Seen U
proceed later (going t) = later t
proceed later (broke u) = broke u
proceed later (failed result u) = failed result u

-- The bytes, each as a chunk of its own.
unfoldable pub drip : {U : Type 0} → Bytes → Stream U → Seen U
drip [] t = going t
drip (c ∷ s) t = proceed (drip s) (seen (outcome_of (feed_byte t.state c [] t)))

-- What a client sees of a call: the result, the user data, and the stream where it may feed on.
abbrev pub Observed : Type 0 → Type 0
Observed U = StreamResult × U × Option (Stream U)

abbrev pub observe : {U : Type 0} → Outcome U → Observed U
observe (success, t) = (success, t.user_data, if t.callback_break then none else some t)
observe (incomplete, t) = (incomplete, t.user_data, some t)
observe (error, t) = (error, t.user_data, none)
observe (null_callback, t) = (null_callback, t.user_data, none)
observe (buffer_full, t) = (buffer_full, t.user_data, none)

abbrev pub observe_call : {U : Type 0} → Option (Outcome U) → Option (Observed U)
observe_call none = none
observe_call (some r) = some (observe r)

abbrev pub at_end : {U : Type 0} → Seen U → Observed U
at_end (going t) = (if is_finished t.state then success else incomplete, t.user_data, some t)
at_end (broke u) = (success, u, none)
at_end (failed result u) = (result, u, none)

-- Parts of containers depend on the cuts: a callback that takes no notice of them.
abbrev pub IgnoresParts : {U : Type 0} → StreamCallback U → Type 0
IgnoresParts {U} callback =
    (sent : StreamData) (u : U) → sent.event ≡ container_part → callback none sent u ≡ (false, u)

-- A slice that still grows ends at the cursor.
abbrev pub GrowsTo : Bytes → Option Slice → Type 0
GrowsTo s none = Unit {0}
GrowsTo s (some p) = (xs : Bytes) × (p.begin ≡ xs ++ s) × (p.behind ≡ s)

abbrev pub Nothing : {U : Type 0} → Stream U → Type 0
Nothing t = (t.direct_key ≡ none) × (t.direct_value ≡ none)

abbrev pub KeyGrows : {U : Type 0} → Bytes → Stream U → Type 0
KeyGrows s t = GrowsTo s t.direct_key × (t.direct_value ≡ none)

abbrev pub ValueGrows : {U : Type 0} → Bytes → Stream U → Type 0
ValueGrows s t = GrowsTo s t.direct_value × (t.direct_value ≡ none → t.direct_key ≡ none)

-- Where the slices of the key and of the value are, by the phase; the cursor is at `s`.
abbrev pub Placed : {U : Type 0} → Phase → Bytes → Stream U → Type 0
Placed find_root s t = Nothing t
Placed find_key_begin s t = Nothing t
Placed find_key_end s t = KeyGrows s t
Placed key_escape s t = Nothing t
Placed find_value_sep s t = t.direct_value ≡ none
Placed find_value_begin s t = t.direct_value ≡ none
Placed find_string_end s t = ValueGrows s t
Placed string_escape s t = Nothing t
Placed find_generic_end s t = ValueGrows s t
Placed find_param_sep s t = Nothing t
Placed stream_container s t = Nothing t × (t.key_end ≡ 0)
Placed finished s t = Unit {0}

-- A stream in the middle of a chunk, with `s` to come, whose scratch buffer has room for that.
pub record Underway {U : Type 0} (s : Bytes) (t : Stream U) : Type 0 where
  pub filled : 1 ≤ length t.scratch
  pub key_inside : t.key_end < length t.scratch
  pub room : length (settle t).scratch + length s ≤ t.scratch_size
  pub quiet : t.callback_break ≡ false
  pub ignores : IgnoresParts t.callback
  pub placed : Placed t.state s t

-- A round that moves by one byte agrees with that on a chunk of the byte; the buffer is not full.
abbrev pub Agrees : {U : Type 0} → Bytes → StreamResult × Bytes × Stream U → Outcome U → Type 0
Agrees s (success, rest, t) r =
    (rest ≡ s) × (t.callback_break ≡ false → Underway s t) × (seen (success, t) ≡ seen r)
Agrees s (incomplete, rest, t) r = ⊥
Agrees s (error, rest, t) r = seen (error, t) ≡ seen r
Agrees s (null_callback, rest, t) r = ⊥
Agrees s (buffer_full, rest, t) r = ⊥

-- The loop behind a round gives what the bytes give one by one.
abbrev pub Drips : {U : Type 0} → (Bytes → Stream U → Option (Outcome U)) → Bytes → Type 0
Drips {U} later s =
    (t : Stream U) → Underway s t → observe_call (later s t) ≡ some (at_end (drip s (settle t)))

pub Agrees-next_round :
    {U : Type 0} (later : Bytes → Stream U → Option (Outcome U)) (s : Bytes)
    (x : StreamResult × Bytes × Stream U) (r : Outcome U)
    → Drips later s
    → Agrees s x r
    → observe_call (next_round later x) ≡ some (at_end (proceed (drip s) (seen r)))
Agrees-next_round {U} later s (success, rest, t) r behind (same, underway, agrees) =
    broken t.callback_break refl ∙ ap (λ y. some (at_end (proceed (drip s) y))) agrees
  where
    broken :
        (b : Bool)
        → t.callback_break ≡ b
        → observe_call (if b then some (success, t) else later rest t)
          ≡ some (at_end (proceed (drip s) (if b then broke t.user_data else going (settle t))))
    broken true e = rw e refl
    broken false e = rw same (behind t (underway e))
Agrees-next_round later s (incomplete, rest, t) r behind agrees = absurd agrees
Agrees-next_round later s (error, rest, t) r behind agrees =
    ap (λ y. some (at_end (proceed (drip s) y))) agrees
Agrees-next_round later s (null_callback, rest, t) r behind agrees = absurd agrees
Agrees-next_round later s (buffer_full, rest, t) r behind agrees = absurd agrees

pub Agrees-going :
    {U : Type 0} (s : Bytes) (t u : Stream U)
    → Underway s t
    → settle t ≡ settle u
    → Agrees s (success, s, t) (success, u)
unfolding settle
Agrees-going s t u h e =
    (refl, λ q. h, ap (λ x. if x.callback_break then broke x.user_data else going x) e)
