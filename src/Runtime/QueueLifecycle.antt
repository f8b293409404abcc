-- ===== src/Runtime/QueueLifecycle.antt =====
-- packages/runtime/src/queue-store-lifecycle.ts: which rows an upload removes from the queue store,
-- and what is handed to the store at boot. Of a workflow's manifest only the names of its queues are
-- read. The concurrent deletions of `Promise.all` are made one after the other.
pub mod Diff
pub mod Boot
mod Tests
use workflow_engine.Prelude.{
  ℕ, ◌+◌, String, Bool, true, false, not, ◌&&◌, Option, none, some, List, [], ◌∷◌, ◌++◌, map, any,
  keep, ltb, length, ◌==◌, string_eq, if◌then◌else◌,
}
use workflow_engine.Prelude.Maps.{get, has}
use workflow_engine.Runtime.QueueStore.{
  QueueScope, QueueItem, WorkflowQueueScope, remove_declaration, reconcile,
}

-- `queues.map((q) => q.name)`.
pub record WorkflowManifest : Type 0 where
  pub queues : List String

pub record QueueWorkflowDiff : Type 0 where
  pub workflow : String
  pub removed : List String

pub record DiffResult : Type 0 where
  pub removed_workflows : List String
  pub per_workflow : List QueueWorkflowDiff

-- `new Set(names)`, in the order of insertion.
pub set_of : List String → List String
set_of [] = []
set_of (n ∷ names) = n ∷ keep (λ m. not (m == n)) (set_of names)

abbrev pub in_set : List String → String → Bool
in_set names n = any (λ m. m == n) names

-- The workflows that the new snapshot does not have.
pub gone : List (String × WorkflowManifest) → List (String × WorkflowManifest) → List String
gone new [] = []
gone new ((name, wf) ∷ old) = let rest = gone new old in if has name new then rest else name ∷ rest

abbrev pub removed_queues : WorkflowManifest → WorkflowManifest → List String
removed_queues old_wf new_wf =
    keep (λ qn. not (in_set (set_of new_wf.queues) qn)) (set_of old_wf.queues)

pub queue_diffs :
    List (String × WorkflowManifest) → List (String × WorkflowManifest) → List QueueWorkflowDiff
queue_diffs old [] = []
queue_diffs old ((name, new_wf) ∷ new) =
    let rest = queue_diffs old new in
    elim (get name old) [
      | none ↦ rest
      | some old_wf ↦
          let removed = removed_queues old_wf new_wf in
          if ltb 0 (length removed)
          then record { workflow = name; removed = removed } ∷ rest
          else rest
    ]

pub diff_manifests :
    List (String × WorkflowManifest) → List (String × WorkflowManifest) → DiffResult
diff_manifests old new = record {
  removed_workflows = gone new old;
  per_workflow = queue_diffs old new;
}

abbrev pub workflow_op : String → String → String → WorkflowQueueScope
workflow_op owner repo workflow = record {
  owner = owner;
  repo = repo;
  workflow = workflow;
  queue = none;
}

abbrev pub queue_op : String → String → String → String → WorkflowQueueScope
queue_op owner repo workflow queue = record {
  owner = owner;
  repo = repo;
  workflow = workflow;
  queue = some queue;
}

-- `diff.perWorkflow.flatMap(…)`.
pub queue_ops : String → String → List QueueWorkflowDiff → List WorkflowQueueScope
queue_ops owner repo [] = []
queue_ops owner repo (d ∷ ds) =
    map (queue_op owner repo d.workflow) d.removed ++ queue_ops owner repo ds

pub remove_each : List WorkflowQueueScope → List QueueItem → List QueueItem
remove_each [] rows = rows
remove_each (w ∷ ws) rows = remove_each ws (remove_declaration w rows).0

pub apply_queue_diff_via_store : String → String → DiffResult → List QueueItem → List QueueItem
apply_queue_diff_via_store owner repo diff rows =
    remove_each
      (map (workflow_op owner repo) diff.removed_workflows
        ++ queue_ops owner repo diff.per_workflow)
      rows

abbrev pub tuple_of : String → String → String → String → QueueScope
tuple_of owner repo workflow queue = record {
  owner = owner;
  repo = repo;
  workflow = workflow;
  queue = queue;
}

pub workflow_tuples : String → String → List (String × WorkflowManifest) → List QueueScope
workflow_tuples owner repo [] = []
workflow_tuples owner repo ((name, wf) ∷ workflows) =
    map (tuple_of owner repo name) wf.queues ++ workflow_tuples owner repo workflows

pub repo_tuples : String → List (String × List (String × WorkflowManifest)) → List QueueScope
repo_tuples owner [] = []
repo_tuples owner ((repo, workflows) ∷ repos) =
    workflow_tuples owner repo workflows ++ repo_tuples owner repos

-- The tuples that all loaded manifests declare.
pub tuples_of : List (String × List (String × List (String × WorkflowManifest))) → List QueueScope
tuples_of [] = []
tuples_of ((owner, repos) ∷ owners) = repo_tuples owner repos ++ tuples_of owners

pub reconcile_queue_store_on_boot :
    List (String × List (String × List (String × WorkflowManifest)))
    → List QueueItem
    → List QueueItem × ℕ
reconcile_queue_store_on_boot loaded_workflows rows = reconcile (tuples_of loaded_workflows) rows
