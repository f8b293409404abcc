-- ===== src/Sandbox/Limits/Tests.antt =====
-- The output counter at concrete messages.
use workflow_engine.Prelude.{ℕ, ◌+◌, ◌≡◌, ◌≤◌, refl, String, none, some, List, [], ◌∷◌, string_eq}
use workflow_engine.Sandbox.Limits.{
  unlimited, configure_worker_limits, reset_run_counters, account_output_bytes,
  enter_pending_callable, exit_pending_callable,
}
use workflow_engine.Sandbox.Limits.Output.{event_lengths, posted_by, configured, posted-le-limit}
use workflow_engine.Sandbox.PluginRuntime.{Annotated, Called, returned, threw, run_on_post}
use workflow_engine.Sandbox.Channel.{
  WorkerToMain, ready, init_error, restore_failed, done, event, log, host_call_request, Plugins,
  account_for_output, post_next, nothing_more, post_errors, post,
}

-- Events are their own lengths; a hook of the plugin "p" makes each event longer by 10, and one of "q"
-- fails.
abbrev plugins : Plugins Unit Unit String ℕ String
plugins = some (
    (
      (
        "p",
        record {
          exports = none;
          guest_functions = none;
          on_before_run_started = none;
          on_run_finished = none;
          on_post = some longer;
        },
      )
          ∷ (
            "q",
            record {
              exports = none;
              guest_functions = none;
              on_before_run_started = none;
              on_run_finished = none;
              on_post = some (λ m. threw "boom");
            },
          )
          ∷ [],
      "p" ∷ "q" ∷ [],
    ))
  where
    longer : WorkerToMain ℕ String → Called String (WorkerToMain ℕ String)
    longer (event n) = returned (event (n + 10))
    longer ready = returned ready
    longer (init_error e) = returned (init_error e)
    longer (restore_failed e) = returned (restore_failed e)
    longer (done e) = returned (done e)
    longer (log l m e) = returned (log l m e)
    longer (host_call_request i m e) = returned (host_call_request i m e)

abbrev thrown_of : Annotated String → String
thrown_of err = err.thrown

abbrev run : List (Plugins Unit Unit String ℕ String × WorkerToMain ℕ String)
run = (plugins, event 50) ∷ (none, event 50) ∷ (none, done "ok") ∷ (none, event 40) ∷ []

-- The second event is too large and is dropped; the messages behind it still cross.
posted_test :
    posted_by some thrown_of (configured 100 4 unlimited) run
    ≡ event 60 ∷ log "error" "sandbox.plugin.onPost_failed" "boom" ∷ done "ok" ∷ event 40 ∷ []
unfolding post post_next post_errors nothing_more account_for_output configure_worker_limits
    reset_run_counters account_output_bytes unlimited run_on_post
posted_test = refl

pending_test :
    (enter_pending_callable
      (exit_pending_callable (exit_pending_callable (configured 100 1 unlimited)))).1
    ≡ none
unfolding enter_pending_callable exit_pending_callable configure_worker_limits reset_run_counters
    unlimited
pending_test = refl

posted-le-limit_example :
    event_lengths some (posted_by some thrown_of (configured 100 4 unlimited) run) ≤ 100
posted-le-limit_example = posted-le-limit some thrown_of 100 4 unlimited run
