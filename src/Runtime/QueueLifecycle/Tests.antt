-- ===== src/Runtime/QueueLifecycle/Tests.antt =====
-- An upload and a boot at concrete snapshots.
use workflow_engine.Prelude.{ℕ, ◌≡◌, refl, String, List, [], ◌∷◌, string_eq, ◌==◌, ap}
use workflow_engine.Prelude.Maps.{Distinct}
use workflow_engine.Runtime.QueueStore.{QueueItem}
use workflow_engine.Runtime.QueueLifecycle.{
  WorkflowManifest, diff_manifests, apply_queue_diff_via_store, gone, queue_diffs, set_of,
  tuples_of, tuple_of, repo_tuples, workflow_tuples,
}
use workflow_engine.Runtime.QueueLifecycle.Diff.{diff_applied}

abbrev queues : List String → WorkflowManifest
queues names = record { queues = names }

abbrev before : List (String × WorkflowManifest)
before = ("a", queues ("q" ∷ "r" ∷ [])) ∷ ("b", queues ("q" ∷ [])) ∷ []

abbrev after : List (String × WorkflowManifest)
after = ("c", queues ("q" ∷ [])) ∷ ("a", queues ("r" ∷ [])) ∷ []

abbrev row : ℕ → String → String → QueueItem
row n workflow queue = record {
  scope = record { owner = "o"; repo = "r"; workflow = workflow; queue = queue };
  key = "";
  seq = n;
  producer = record {
    enqueued_at = "now";
    invocation_id = "i";
    trigger_kind = "cron";
    trigger_name = "t";
  };
  item = "1";
}

abbrev table : List QueueItem
table = row 1 "a" "q" ∷ row 2 "a" "r" ∷ row 3 "b" "q" ∷ row 4 "c" "q" ∷ row 5 "a" "x" ∷ []

diff_test : diff_manifests before after ≡ record {
  removed_workflows = "b" ∷ [];
  per_workflow = record { workflow = "a"; removed = "q" ∷ [] } ∷ [];
}
unfolding diff_manifests gone queue_diffs set_of
diff_test = refl

after-Distinct : Distinct after
after-Distinct = (((λ p. cc (ap (λ x. x == "a") p)), tt), (tt, tt))

diff_applied_example :
    apply_queue_diff_via_store "o" "r" (diff_manifests before after) table
    ≡ row 2 "a" "r" ∷ row 4 "c" "q" ∷ row 5 "a" "x" ∷ []
diff_applied_example = diff_applied "o" "r" before after table after-Distinct

boot_test :
    tuples_of (("o", ("r", after) ∷ []) ∷ [])
    ≡ tuple_of "o" "r" "c" "q" ∷ tuple_of "o" "r" "a" "r" ∷ []
unfolding tuples_of repo_tuples workflow_tuples
boot_test = refl

abbrev loaded : List (String × List (String × List (String × WorkflowManifest)))
loaded = ("o", ("r", after) ∷ []) ∷ []
