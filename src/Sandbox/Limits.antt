-- ===== src/Sandbox/Limits.antt =====
-- packages/sandbox/src/limit-counters.ts: the two resource counters of the worker. The module's
-- variables are the record `Counters`; a limit of `none` is `Number.POSITIVE_INFINITY`. An error that
-- `throwLimit` queues as a microtask is part of an operation's result.
pub mod Output
mod Tests
use workflow_engine.Prelude.{
  ℕ, ◌+◌, ◌-◌, String, Bool, true, false, Option, none, some, ltb, if◌then◌else◌,
}

-- An `Error` with the own properties that main reads. A `dim` that is no string and an `observed`
-- that is no finite number are `none`.
pub record ErrorShape : Type 0 where
  pub name : String
  pub message : String
  pub dim : Option String
  pub observed : Option ℕ

pub record Counters : Type 0 where
  pub output_bytes_limit : Option ℕ
  pub output_bytes_used : ℕ
  pub pending_callables_limit : Option ℕ
  pub pending_callables_count : ℕ

pub data Dimension : Type 0 where
  output pending : Dimension

abbrev pub dim_name : Dimension → String
dim_name output = "output"
dim_name pending = "pending"

abbrev pub sandbox_limit_error_name : String
sandbox_limit_error_name = "SandboxLimitError"

abbrev limit_message : Dimension → String
limit_message output = "sandbox limit exceeded: output"
limit_message pending = "sandbox limit exceeded: pending"

unfoldable pub throw_limit : Dimension → Option ℕ → ErrorShape
throw_limit dim observed = record {
  name = sandbox_limit_error_name;
  message = limit_message dim;
  dim = some (dim_name dim);
  observed = observed;
}

-- The counters as the module initialises them.
pub unlimited : Counters
unlimited = record {
  output_bytes_limit = none;
  output_bytes_used = 0;
  pending_callables_limit = none;
  pending_callables_count = 0;
}

pub configure_worker_limits : ℕ → ℕ → Counters → Counters
configure_worker_limits output_bytes pending_callables c = record c {
  output_bytes_limit = some output_bytes;
  pending_callables_limit = some pending_callables;
}

pub reset_run_counters : Counters → Counters
reset_run_counters c = record c { output_bytes_used = 0; pending_callables_count = 0 }

-- `n > limit`.
abbrev pub exceeds : ℕ → Option ℕ → Bool
exceeds n none = false
exceeds n (some limit) = ltb limit n

pub account_output_bytes : ℕ → Counters → Counters × Bool × Option ErrorShape
account_output_bytes size c =
    let used = c.output_bytes_used + size in
    if exceeds used c.output_bytes_limit
    then (c, false, some (throw_limit output (some used)))
    else (record c { output_bytes_used = used }, true, none)

pub enter_pending_callable : Counters → Counters × Option ErrorShape
enter_pending_callable c =
    let count = c.pending_callables_count + 1 in
    if exceeds count c.pending_callables_limit
    then (record c { pending_callables_count = count }, some (throw_limit pending (some count)))
    else (record c { pending_callables_count = count }, none)

pub exit_pending_callable : Counters → Counters
exit_pending_callable c =
    if ltb 0 c.pending_callables_count
    then record c { pending_callables_count = c.pending_callables_count - 1 }
    else c
