-- ===== src/Stdlib/Timers.antt =====
-- packages/sandbox-stdlib/src/timers/index.ts: the registry of pending timers in one sandbox. Node
-- picks the id of a new timer: it is an argument. `Number` on a value of the guest, and the
-- truncation, are parameters of the delay. The call of the guest's function goes to the bridge: it
-- is an effect, and what it does to the registry while it runs are further steps before the end of
-- the firing.
pub mod Delay
pub mod Ownership
mod Tests
use workflow_engine.Prelude.{
  ℕ, Bool, true, false, Option, none, some, List, [], ◌∷◌, ◌++◌, ltb, ◌==◌, nat_eq, if◌then◌else◌,
}
use workflow_engine.Prelude.Maps.{get, set, delete}

pub data TimerKind : Type 0 where
  set_timeout set_interval : TimerKind

pub data ClearKind : Type 0 where
  clear_timeout clear_interval : ClearKind

-- A pending timer; the id is that of Node, the callable is named by a number.
pub record PendingTimer : Type 0 where
  pub node_id : ℕ
  pub kind : TimerKind
  pub callable : ℕ

abbrev pub int32_max : ℕ
int32_max = 2147483647

-- What `Number(raw)` gives: not finite, negative, or a number with its integral part and whether it
-- has a fraction.
pub data Numeric : Type 0 where
  not_finite negative : Numeric
  number : ℕ → Bool → Numeric

-- `n > INT32_MAX`.
abbrev above_max : ℕ → Bool → Bool
above_max n fraction = if ltb int32_max n then true else if n == int32_max then fraction else false

pub normalise_delay : Numeric → ℕ
normalise_delay not_finite = 0
normalise_delay negative = 0
normalise_delay (number n fraction) = if above_max n fraction then 0 else n

pub data Effect : Type 0 where
  start_timer : TimerKind → ℕ → Effect
  stop_timer : ClearKind → ℕ → Effect
  dispose_callable : ℕ → Effect
  call_event : ClearKind → ℕ → Effect
  request : TimerKind → ℕ → ℕ → Effect

abbrev pub Pending : Type 0
Pending = List (ℕ × PendingTimer)

abbrev pub clear_kind : TimerKind → ClearKind
clear_kind set_timeout = clear_timeout
clear_kind set_interval = clear_interval

abbrev pub stop_node_timer : PendingTimer → Effect
stop_node_timer entry = stop_timer (clear_kind entry.kind) entry.node_id

abbrev pub dispose_and_stop : PendingTimer → List Effect
dispose_and_stop entry = stop_node_timer entry ∷ dispose_callable entry.callable ∷ []

-- The loop of `clearAllPending`.
pub clear_events : Pending → List Effect
clear_events [] = []
clear_events ((id, entry) ∷ pending) =
    call_event (clear_kind entry.kind) id ∷ dispose_and_stop entry ++ clear_events pending

pub clear_all_pending : Pending → Pending × List Effect
clear_all_pending pending = ([], clear_events pending)

-- `fire` up to the call of the guest's function.
pub fire_call : ℕ → TimerKind → Pending → List Effect
fire_call id kind pending = elim (get id pending) [
  | none ↦ []
  | some entry ↦ request kind id entry.callable ∷ []
]

-- `fire` after the call, with the entry that it found before the call.
pub fire_end : ℕ → TimerKind → PendingTimer → Pending → Pending × List Effect
fire_end id set_interval entry pending = (pending, [])
fire_end id set_timeout entry pending = (delete id pending, dispose_callable entry.callable ∷ [])

pub schedule : TimerKind → ℕ → Numeric → ℕ → Pending → Pending × ℕ × List Effect
schedule kind cb raw_delay node_id pending = (
  set node_id (record { node_id = node_id; kind = kind; callable = cb }) pending,
  node_id,
  start_timer kind (normalise_delay raw_delay) ∷ [],
)

pub cancel : ℕ → Pending → Pending × List Effect
cancel id pending = elim (get id pending) [
  | none ↦ (pending, [])
  | some entry ↦ (delete id pending, dispose_and_stop entry)
]

-- `clearTimeout` and `clearInterval`: no effect where `Number(id)` is not the id of a timer.
pub clear_handler : Option ℕ → Pending → Pending × List Effect
clear_handler none pending = (pending, [])
clear_handler (some id) pending = cancel id pending
