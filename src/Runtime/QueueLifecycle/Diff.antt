-- ===== src/Runtime/QueueLifecycle/Diff.antt =====
-- queue-store-lifecycle.ts: the rows that an upload's diff removes, described row by row.
use workflow_engine.Prelude.{
  All, ◌≡◌, ◌≢◌, refl, sym, ap, String, Bool, true, false, not, ◌&&◌, ◌||◌, Option, none, some,
  List, [], ◌∷◌, ◌++◌, map, any, keep, keep_cong, keep-keep, keep_everything, any-append, not_or,
  eq_swap, ltb, length, ◌==◌, string_eq, nat_eq, eq_cases, if◌then◌else◌, arith, inl, inr,
  Option-cases, ◌∙◌, subst,
}
use workflow_engine.Prelude.Maps.{get, has, Distinct, get-Fresh}
use workflow_engine.Runtime.QueueStore.{
  QueueItem, WorkflowQueueScope, declared_by, remove_declaration,
}
use workflow_engine.Runtime.QueueLifecycle.{
  WorkflowManifest, QueueWorkflowDiff, set_of, in_set, gone, removed_queues, queue_diffs,
  diff_manifests, workflow_op, queue_op, queue_ops, remove_each, apply_queue_diff_via_store,
}

remove_each-kept :
    (ws : List WorkflowQueueScope) (rows : List QueueItem)
    → remove_each ws rows ≡ keep (λ row. not (any (λ w. declared_by w row) ws)) rows
unfolding remove_each remove_declaration
remove_each-kept [] rows = sym (keep_everything rows)
remove_each-kept (w ∷ ws) rows =
    remove_each-kept ws _
    ∙ keep-keep _ _ rows
    ∙ keep_cong _ _ rows (λ row. not_or (declared_by w row) (any (λ v. declared_by v row) ws))

-- Sets of names.
any_kept :
    (p : String → Bool) (q : String) (names : List String)
    → in_set (keep p names) q ≡ (in_set names q && p q)
any_kept p q [] = refl
any_kept p q (n ∷ names) = elim (eq_cases n q) [
  | inl (t, e) ↦ (let alike : p n ≡ p q = ap p e in ground (arith, any_kept p q names))
  | inr (f, d) ↦ ground (arith, any_kept p q names)
]

in_set-set_of : (q : String) (names : List String) → in_set (set_of names) q ≡ in_set names q
unfolding set_of
in_set-set_of q [] = refl
in_set-set_of q (n ∷ names) =
    let kept = any_kept (λ m. not (m == n)) q (set_of names) in
    let swap = eq_swap q n in let rest = in_set-set_of q names in rw kept (rw rest (ground arith))

removed_iff :
    (old_wf new_wf : WorkflowManifest) (q : String)
    → in_set (removed_queues old_wf new_wf) q
      ≡ (in_set old_wf.queues q && not (in_set new_wf.queues q))
removed_iff old_wf new_wf q =
    any_kept _ q (set_of old_wf.queues)
    ∙ (rw (in_set-set_of q old_wf.queues, in_set-set_of q new_wf.queues) refl)

gone_iff :
    (wf : String) (old new : List (String × WorkflowManifest))
    → in_set (gone new old) wf ≡ (has wf old && not (has wf new))
unfolding gone
gone_iff wf [] new = refl
gone_iff wf ((name, m) ∷ old) new = elim (eq_cases name wf) [
  | inl (t, e) ↦
      (let alike : has name new ≡ has wf new = ap (λ x. has x new) e in
        let h = gone_iff wf old new in ground arith)
  | inr (f, d) ↦ (let h = gone_iff wf old new in ground arith)
]

-- Whether the list of diffs names a queue of a workflow.
abbrev names_queue : String → String → List QueueWorkflowDiff → Bool
names_queue wf q = any (λ d. d.workflow == wf && in_set d.removed q)

-- A queue that the old snapshot declares in a workflow and the new snapshot does not.
abbrev undeclared : Option WorkflowManifest → Option WorkflowManifest → String → Bool
undeclared none new_wf q = false
undeclared (some old_wf) none q = false
undeclared (some old_wf) (some new_wf) q = in_set old_wf.queues q && not (in_set new_wf.queues q)

head_iff :
    (wf name q : String) (removed : List String) (rest : List QueueWorkflowDiff)
    → names_queue wf q (
        if ltb 0 (length removed)
        then record { workflow = name; removed = removed } ∷ rest
        else rest)
      ≡ ((name == wf && in_set removed q) || names_queue wf q rest)
head_iff wf name q [] rest = ground arith
head_iff wf name q (r ∷ rs) rest = ground arith

undeclared-none : (o : Option WorkflowManifest) (q : String) → undeclared o none q ≡ false
undeclared-none none q = refl
undeclared-none (some o) q = refl

and_false : (b c : Bool) → c ≡ ((b && false) || c)
and_false true c = refl
and_false false c = refl

or_false : (b : Bool) → (b || false) ≡ b
or_false true = refl
or_false false = refl

and_or : (a b c : Bool) → ((a && b) || (a && c)) ≡ (a && (b || c))
and_or true b c = refl
and_or false b c = refl

queue_diffs_head :
    (wf name q : String) (n : WorkflowManifest) (old new : List (String × WorkflowManifest))
    → names_queue wf q (queue_diffs old ((name, n) ∷ new)) ≡ (
        (name == wf && undeclared (get name old) (some n) q)
        || names_queue wf q (queue_diffs old new))
unfolding queue_diffs
queue_diffs_head wf name q n old new = elim (Option-cases (get name old)) [
  | inl e ↦ rw (e, queue_diffs) (and_false (name == wf) _)
  | inr (o, e) ↦
      rw (e, queue_diffs)
        (head_iff wf name q (removed_queues o n) (queue_diffs old new)
          ∙ (rw (removed_iff o n q) refl))
]

queue_diffs_iff :
    (wf q : String) (old new : List (String × WorkflowManifest))
    → Distinct new
    → names_queue wf q (queue_diffs old new) ≡ undeclared (get wf old) (get wf new) q
unfolding queue_diffs
queue_diffs_iff wf q old [] dist = sym (undeclared-none (get wf old) q)
queue_diffs_iff wf q old ((name, n) ∷ new) (fresh, dist) = elim (eq_cases name wf) [
  | inl (t, p) ↦
      (let absent : get wf new ≡ none =
          get-Fresh wf new (subst (λ x. All (λ w. w.0 ≢ x) new) p fresh) in
        let alike : undeclared (get name old) (some n) q ≡ undeclared (get wf old) (some n) q =
          ap (λ x. undeclared (get x old) (some n) q) p in
        queue_diffs_head wf name q n old new
        ∙ (rw t (
            rw (queue_diffs_iff wf q old new dist, absent, undeclared-none (get wf old) q)
              (or_false _ ∙ alike))))
  | inr (f, d) ↦ queue_diffs_head wf name q n old new ∙ (rw f (queue_diffs_iff wf q old new dist))
]

-- The deletions, seen by one row.
workflow_ops_iff :
    (owner repo : String) (names : List String) (row : QueueItem)
    → any (λ w. declared_by w row) (map (workflow_op owner repo) names)
      ≡ ((row.owner == owner && row.repo == repo) && in_set names row.workflow)
workflow_ops_iff owner repo [] row = ground arith
workflow_ops_iff owner repo (n ∷ names) row =
    let swap = eq_swap row.workflow n in
    let rest = workflow_ops_iff owner repo names row in ground arith

queue_op_iff :
    (owner repo wf : String) (names : List String) (row : QueueItem)
    → any (λ w. declared_by w row) (map (queue_op owner repo wf) names)
      ≡ ((row.owner == owner && row.repo == repo) && (wf == row.workflow && in_set names row.queue))
queue_op_iff owner repo wf [] row = ground arith
queue_op_iff owner repo wf (n ∷ names) row =
    let swap = eq_swap row.queue n in
    let swap2 = eq_swap row.workflow wf in
    let rest = queue_op_iff owner repo wf names row in ground arith

queue_ops_iff :
    (owner repo : String) (ds : List QueueWorkflowDiff) (row : QueueItem)
    → any (λ w. declared_by w row) (queue_ops owner repo ds)
      ≡ ((row.owner == owner && row.repo == repo) && names_queue row.workflow row.queue ds)
unfolding queue_ops
queue_ops_iff owner repo [] row = ground arith
queue_ops_iff owner repo (d ∷ ds) row =
    let here = queue_op_iff owner repo d.workflow d.removed row in
    let rest = queue_ops_iff owner repo ds row in
    any-append (λ w. declared_by w row) (map (queue_op owner repo d.workflow) d.removed)
      (queue_ops owner repo ds)
    ∙ (rw (here, rest) (ground arith))

-- Whether an upload drops a row: its workflow is in the old snapshot of the repository and not in
-- the new one, or its queue is declared in the old one and not in the new one.
abbrev pub dropped :
    String
    → String
    → List (String × WorkflowManifest)
    → List (String × WorkflowManifest)
    → QueueItem
    → Bool
dropped owner repo old new row =
    (row.owner == owner && row.repo == repo)
    && ((has row.workflow old && not (has row.workflow new))
        || undeclared (get row.workflow old) (get row.workflow new) row.queue)

dropped_iff :
    (owner repo : String) (old new : List (String × WorkflowManifest)) (row : QueueItem)
    → Distinct new
    → any
        (λ w. declared_by w row)
        (map (workflow_op owner repo) (gone new old) ++ queue_ops owner repo (queue_diffs old new))
      ≡ dropped owner repo old new row
dropped_iff owner repo old new row dist =
    let here = workflow_ops_iff owner repo (gone new old) row in
    let rest = queue_ops_iff owner repo (queue_diffs old new) row in
    any-append (λ w. declared_by w row) (map (workflow_op owner repo) (gone new old))
      (queue_ops owner repo (queue_diffs old new))
    ∙ (rw (here, rest)
        (rw (gone_iff row.workflow old new, queue_diffs_iff row.workflow row.queue old new dist)
          (and_or (row.owner == owner && row.repo == repo) _ _)))

-- The diff of two snapshots of a repository, applied to the table, removes exactly the rows that an
-- upload drops, and keeps the others in their order; a workflow stands in the new snapshot once.
pub diff_applied :
    (owner repo : String) (old new : List (String × WorkflowManifest)) (rows : List QueueItem)
    → Distinct new
    → apply_queue_diff_via_store owner repo (diff_manifests old new) rows
      ≡ keep (λ row. not (dropped owner repo old new row)) rows
unfolding apply_queue_diff_via_store diff_manifests
diff_applied owner repo old new rows dist =
    remove_each-kept _ rows
    ∙ keep_cong _ _ rows (λ row. ap not (dropped_iff owner repo old new row dist))
