-- ===== src/Parse/Events.antt =====
-- The callback of the range parser of kason.c: its arguments, its answers, and `kason_scan_emit`.
use kason.Base.{ℕ, Option, none, some, Bytes}
use kason.Types.{JsonType}
use kason.Parse.Tokens.{Slice}

-- KaSON_ACTION_*. KaSON_ACTION_ENTER is KaSON_CALLBACK_CONTINUE, and KaSON_ACTION_BREAK is
-- KaSON_CALLBACK_BREAK; `other` is any other number.
pub data Action : Type 0 where
  enter break_off capture skip : Action
  other : ℕ → Action

-- The events of KaSON_STREAM_EVENT_* that the range parser emits.
pub data Event : Type 0 where
  value_event container_begin container_end : Event

-- `kason_data`: the pointers, of which the last is NULL when a container begins.
pub record Data : Type 0 where
  pub type : JsonType
  pub begin : Bytes
  pub behind : Option Bytes
  pub event : Event

-- `kason_parse_callback`, as a function of the state behind `user_data`.
abbrev pub Callback : Type 0 → Type 0
Callback U = Option Slice → Data → ℕ → U → Action × U

-- Without a callback every container is skipped.
unfoldable pub default_action : Event → Action
default_action container_begin = skip
default_action value_event = enter
default_action container_end = enter

module _ {U : Type 0} where
  unfoldable pub scan_emit : Option (Callback U) → Option Slice → Data → ℕ → U → Action × U
  unfolding default_action
  scan_emit none key event count u = (default_action event.event, u)
  scan_emit (some callback) key event count u = callback key event count u
