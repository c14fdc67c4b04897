-- ===== src/Parse/Frame.antt =====
-- The arguments, the results and the events of `kason_scan_container` of kason.c.
use kason.Base.{ℕ, Bool, true, false, Option, none, some, Bytes}
use kason.Types.{JsonType, object, array}
use kason.Parse.Tokens.{Slice, Token}
use kason.Parse.Events.{
  Action, enter, break_off, capture, skip, other, value_event, container_begin, container_end, Data,
}

-- KaSON_MAX_NESTING.
abbrev pub max_nesting : ℕ
max_nesting = 128

pub data Kind : Type 0 where
  object_kind array_kind : Kind

abbrev pub kind_type : Kind → JsonType
kind_type object_kind = object
kind_type array_kind = array

abbrev pub open_mark : Kind → ℕ
open_mark object_kind = b'{'
open_mark array_kind = b'['

abbrev pub close_mark : Kind → ℕ
close_mark object_kind = b'}'
close_mark array_kind = b']'

-- How a scan ends: with an error, stopped by the callback (the result is a success), with the cursor
-- moved, or, in the model alone, out of fuel; each with the state behind `user_data`.
pub data Scan (U : Type 0) : Type 0 where
  failed : U → Scan U
  stopped : U → Scan U
  reached : Bytes → U → Scan U
  starved : Scan U

-- The arguments of `kason_scan_container` and its local `action`.
pub record Frame : Type 0 where
  pub kind : Kind
  pub opening : Bytes
  pub key : Option Slice
  pub emit : Bool
  pub action : Action
  pub depth : ℕ

-- `result != KaSON_PARSE_RESULT_SUCCESS || scan->stopped` returns.
abbrev pub then_scan : {U : Type 0} → Scan U → (Bytes → U → Scan U) → Scan U
then_scan (failed u) f = failed u
then_scan (stopped u) f = stopped u
then_scan (reached t u) f = f t u
then_scan starved f = starved

-- A callback behind a value or at the end of a container.
abbrev pub after_event : {U : Type 0} → Bytes → Action × U → Scan U
after_event t (enter, u) = reached t u
after_event t (break_off, u) = stopped u
after_event t (capture, u) = failed u
after_event t (skip, u) = failed u
after_event t (other n, u) = failed u

abbrev pub is_enter : Action → Bool
is_enter enter = true
is_enter _ = false

abbrev pub is_skip : Action → Bool
is_skip skip = true
is_skip _ = false

-- The count of a container that ends.
abbrev pub end_count : Kind → ℕ → ℕ
end_count array_kind count = count
end_count object_kind count = 1

-- Where the slice of a container that ends begins.
abbrev pub end_begin : Action → Bytes → Bytes → Bytes
end_begin capture opening closing = opening
end_begin enter opening closing = closing
end_begin break_off opening closing = closing
end_begin skip opening closing = closing
end_begin (other n) opening closing = closing

-- The event of a primitive, and that at the end of a container.
abbrev pub token_data : Token → Data
token_data token = record {
  type = token.type;
  begin = token.slice.begin;
  behind = some token.slice.behind;
  event = value_event;
}

abbrev pub end_data : Frame → Bytes → Bytes → Data
end_data f closing rest = record {
  type = kind_type f.kind;
  begin = end_begin f.action f.opening closing;
  behind = some rest;
  event = container_end;
}

abbrev pub begin_data : Kind → Bytes → Data
begin_data kind opening = record {
  type = kind_type kind;
  begin = opening;
  behind = none;
  event = container_begin;
}

-- Before the callback has answered.
abbrev pub new_frame : Kind → Option Slice → Bool → ℕ → Bytes → Frame
new_frame kind key emit depth opening = record {
  kind = kind;
  opening = opening;
  key = key;
  emit = emit;
  action = skip;
  depth = depth;
}

-- The answer counts if the event is emitted.
abbrev pub emitted : {U : Type 0} → Bool → Bytes → Action × U → U → Scan U
emitted true t answer u = after_event t answer
emitted false t answer u = reached t u
