-- ===== src/Sandbox/Channel.antt =====
-- packages/sandbox/src/worker.ts: how the worker posts a message to main. `W` are the events on the wire,
-- `P` the errors and payloads of the other messages. The length of an event's JSON text is an argument,
-- `none` where `JSON.stringify` throws. A message that a hook posts while the hooks run is a `post`
-- of its own, without hooks, before the one whose hooks run.
use workflow_engine.Prelude.{
  ℕ, Bool, String, true, Option, none, some, List, [], ◌∷◌, if◌then◌else◌,
}
use workflow_engine.Sandbox.Limits.{Counters, ErrorShape, account_output_bytes}
use workflow_engine.Sandbox.PluginRuntime.{PluginSetup, Annotated, run_on_post}

pub data WorkerToMain (W P : Type 0) : Type 0 where
  ready : WorkerToMain W P
  init_error restore_failed done : P → WorkerToMain W P
  event : W → WorkerToMain W P
  log : String → String → P → WorkerToMain W P
  host_call_request : ℕ → String → P → WorkerToMain W P

-- What a post does: the counters after it, the messages that cross the channel, and the error that is
-- queued, if the limit is exceeded.
pub record Posting (W P : Type 0) : Type 0 where
  pub counters : Counters
  pub posted : List (WorkerToMain W P)
  pub queued : Option ErrorShape

-- The set-ups of the plugins with their order; they are absent before the set-up and while hooks run.
abbrev pub Plugins : Type 0 → Type 0 → Type 0 → Type 0 → Type 0 → Type 0
Plugins X R E W P = Option (List (String × PluginSetup X R (WorkerToMain W P) E) × List String)

module _ {W P : Type 0} (json_length : W → Option ℕ) where
  unfoldable pub account_for_output :
      WorkerToMain W P → Counters → Counters × Bool × Option ErrorShape
  account_for_output (event e) c =
      account_output_bytes (elim (json_length e) [ none ↦ 0 | some size ↦ size ]) c
  account_for_output ready c = (c, true, none)
  account_for_output (init_error error) c = (c, true, none)
  account_for_output (restore_failed error) c = (c, true, none)
  account_for_output (done payload) c = (c, true, none)
  account_for_output (log level message meta) c = (c, true, none)
  account_for_output (host_call_request id method args) c = (c, true, none)

module _ {W P : Type 0} where
  -- A message that is dropped ends the post.
  unfoldable pub post_next :
      WorkerToMain W P
      → Counters × Bool × Option ErrorShape
      → (Counters → Posting W P)
      → Posting W P
  post_next msg (c, accepted, error) following =
      let rest = following c in
      if accepted
      then record { counters = rest.counters; posted = msg ∷ rest.posted; queued = rest.queued }
      else record { counters = c; posted = []; queued = error }

  unfoldable pub nothing_more : Counters → Posting W P
  nothing_more c = record { counters = c; posted = []; queued = none }

module _ {E W P : Type 0} (log_meta : Annotated E → P) where
  abbrev pub hook_failed : Annotated E → WorkerToMain W P
  hook_failed err = log "error" "sandbox.plugin.onPost_failed" (log_meta err)

module _ {E W P : Type 0} (json_length : W → Option ℕ) (log_meta : Annotated E → P) where
  -- The loop over the errors of the hooks.
  unfoldable pub post_errors : List (Annotated E) → Counters → Posting W P
  post_errors [] c = nothing_more c
  post_errors (err ∷ errs) c =
      post_next (hook_failed log_meta err)
        (account_for_output json_length (hook_failed log_meta err) c) (post_errors errs)

module _ {X R E W P : Type 0} (json_length : W → Option ℕ) (log_meta : Annotated E → P) where
  unfoldable pub post : Plugins X R E W P → WorkerToMain W P → Counters → Posting W P
  post none msg c = post_next msg (account_for_output json_length msg c) nothing_more
  post (some (setups, order)) msg c =
      let (final_msg, hook_errors) = run_on_post setups order msg in
      post_next final_msg (account_for_output json_length final_msg c)
        (post_errors json_length log_meta hook_errors)
