-- ===== src/Sandbox/Termination.antt =====
-- packages/sandbox/src/worker-termination.ts: the closure's variables are the record `Termination`,
-- the worker's events, the watchdog and the methods are a `Signal`, and a signal gives the new state
-- with its effects. `Date.now()` is an argument; its readings do not go back. A signal that fires a
-- watchdog which is not armed does nothing: a cleared timer does not fire.
pub mod Once
pub mod Causes
mod Tests
use workflow_engine.Prelude.{
  ℕ, ◌-◌, ◌+◌, String, Bool, true, false, ◌&&◌, ◌||◌, not, Option, none, some, List, [], ◌∷◌, ◌==◌,
  string_eq, if◌then◌else◌,
}
use workflow_engine.Sandbox.Limits.{ErrorShape, sandbox_limit_error_name}

pub data LimitDim : Type 0 where
  cpu output pending : LimitDim

pub data TerminationCause : Type 0 where
  limit : LimitDim → Option ℕ → TerminationCause
  crash restore_failed : ErrorShape → TerminationCause

-- What the worker's `error` event carries: an `Error`, or another value, of which the text is used.
pub data Thrown : Type 0 where
  an_error : ErrorShape → Thrown
  a_value : String → Thrown

pub record Termination : Type 0 where
  pub last_error : Option ErrorShape
  pub disposing : Bool
  pub cpu_budget_expired : Bool
  pub observed_on_expiry : Option ℕ
  pub fired : Bool
  pub started_at : ℕ
  pub watchdog : Option ℕ
  pub restore_failed_err : Option ErrorShape
  pub has_callback : Bool

-- A call of the registered callback, and `worker.terminate()`.
pub data Effect : Type 0 where
  terminated : TerminationCause → Effect
  terminate_worker : Effect

pub create_worker_termination : Termination
create_worker_termination = record {
  last_error = none;
  disposing = false;
  cpu_budget_expired = false;
  observed_on_expiry = none;
  fired = false;
  started_at = 0;
  watchdog = none;
  restore_failed_err = none;
  has_callback = false;
}

pub plain_error : String → ErrorShape
plain_error message = record { name = "Error"; message = message; dim = none; observed = none }

abbrev pub limit_dim : Option String → Option LimitDim
limit_dim none = none
limit_dim (some d) =
    if d == "output" then some output else if d == "pending" then some pending else none

-- `isSandboxLimitError`, with the dimension that it finds.
pub is_sandbox_limit_error : ErrorShape → Option LimitDim
is_sandbox_limit_error err =
    if err.name == sandbox_limit_error_name then limit_dim err.dim else none

-- The part of `classify` that reads `lastError`.
pub classify_error : Option ErrorShape → TerminationCause
classify_error none = crash (plain_error "worker exited")
classify_error (some err) = elim (is_sandbox_limit_error err) [
  | none ↦ crash err
  | some dim ↦ limit dim err.observed
]

pub classify : Termination → TerminationCause
classify t = elim t.restore_failed_err [
  | some err ↦ restore_failed err
  | none ↦
      if t.cpu_budget_expired then limit cpu t.observed_on_expiry else classify_error t.last_error
]

pub dispatch : Termination → TerminationCause → Termination × List Effect
dispatch t c =
    if t.fired
    then (t, [])
    else (record t { fired = true }, if t.has_callback then terminated c ∷ [] else [])

abbrev pub error_of : Thrown → ErrorShape
error_of (an_error err) = err
error_of (a_value text) = plain_error text

-- `worker.on("error", …)`: the first error is kept.
pub on_error : Termination → Thrown → Termination
on_error t thrown = elim t.last_error [
  | none ↦ record t { last_error = some (error_of thrown) }
  | some err ↦ t
]

pub on_exit : Termination → Termination × List Effect
on_exit t = if t.disposing then (t, []) else dispatch t (classify t)

pub arm_cpu_budget : Termination → ℕ → ℕ → Termination
arm_cpu_budget t ms now = record t {
  started_at = now;
  cpu_budget_expired = false;
  observed_on_expiry = none;
  watchdog = some ms;
}

pub watchdog_fires : Termination → ℕ → Termination × List Effect
watchdog_fires t now = elim t.watchdog [
  | none ↦ (t, [])
  | some ms ↦ (
    record t {
      watchdog = none;
      cpu_budget_expired = true;
      observed_on_expiry = some (now - t.started_at);
    },
    terminate_worker ∷ [],
  )
]

pub disarm_cpu_budget : Termination → Termination
disarm_cpu_budget t = record t { watchdog = none }

pub mark_disposing : Termination → Termination
mark_disposing t = record t { disposing = true; watchdog = none }

abbrev pub first_of_two : Option ErrorShape → ErrorShape → ErrorShape
first_of_two none err = err
first_of_two (some old) err = old

pub mark_restore_failed : Termination → ErrorShape → Termination × List Effect
mark_restore_failed t err =
    if t.disposing
    then (t, [])
    else (let t' = record t { restore_failed_err = some (first_of_two t.restore_failed_err err) } in
        dispatch t' (classify t'))

pub on_terminated : Termination → Termination
on_terminated t = record t { has_callback = true }

abbrev is_set : Option ErrorShape → Bool
is_set none = false
is_set (some err) = true

pub cause : Termination → Option TerminationCause
cause t =
    if t.disposing
    then none
    else if not (t.cpu_budget_expired || is_set t.last_error || is_set t.restore_failed_err)
    then none
    else some (classify t)

pub data Signal : Type 0 where
  error_event : Thrown → Signal
  exit_event : Signal
  arm : ℕ → ℕ → Signal
  disarm : Signal
  expire : ℕ → Signal
  dispose : Signal
  restore_fails : ErrorShape → Signal
  register : Signal

pub step : Termination → Signal → Termination × List Effect
step t (error_event thrown) = (on_error t thrown, [])
step t exit_event = on_exit t
step t (arm ms now) = (arm_cpu_budget t ms now, [])
step t disarm = (disarm_cpu_budget t, [])
step t (expire now) = watchdog_fires t now
step t dispose = (mark_disposing t, [])
step t (restore_fails err) = mark_restore_failed t err
step t register = (on_terminated t, [])
