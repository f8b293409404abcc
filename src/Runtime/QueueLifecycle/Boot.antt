-- ===== src/Runtime/QueueLifecycle/Boot.antt =====
-- queue-store-lifecycle.ts: the rows that survive the reconciliation at boot.
use workflow_engine.Prelude.{
  ◌≡◌, refl, sym, ap, ◌∙◌, subst, Bool, String, true, List, [], ◌∷◌, any, keep, keep_within, ◌==◌,
  string_eq, eq_self, or_true, inl, inr, Bool-cases,
}
use workflow_engine.Runtime.QueueStore.{QueueItem, QueueScope, same_scope, tuple_key}
use workflow_engine.Runtime.QueueStore.Reconcile.{scope_same, reconcile_exact}
use workflow_engine.Runtime.QueueLifecycle.{
  WorkflowManifest, tuples_of, reconcile_queue_store_on_boot,
}

-- A row of a queue that a loaded manifest declares.
abbrev pub is_declared : List QueueScope → QueueItem → Bool
is_declared tuples row = any (same_scope row.scope) tuples

declared_key :
    (tuples : List QueueScope) (s : QueueScope)
    → any (same_scope s) tuples ≡ true
    → any (λ t. tuple_key t == tuple_key s) tuples ≡ true
declared_key [] s h = h
declared_key (t ∷ tuples) s h = elim (Bool-cases (same_scope s t)) [
  | inl e ↦
      (let alike = ap tuple_key (scope_same s t e) in
        rw (subst (λ k. (k == tuple_key s) ≡ true) (sym alike) (eq_self (tuple_key s))) refl)
  | inr f ↦ or_true (tuple_key t == tuple_key s) _ (declared_key tuples s (rw f at h))
]

-- The reconciliation at boot keeps every row of a queue that a loaded manifest declares, in its
-- place among them.
pub boot_keeps_declared :
    (loaded : List (String × List (String × List (String × WorkflowManifest))))
    (rows : List QueueItem)
    → keep (is_declared (tuples_of loaded)) (reconcile_queue_store_on_boot loaded rows).0
      ≡ keep (is_declared (tuples_of loaded)) rows
unfolding reconcile_queue_store_on_boot
boot_keeps_declared loaded rows =
    ap (keep (is_declared (tuples_of loaded))) (reconcile_exact (tuples_of loaded) rows).0
    ∙ keep_within _ _ rows (λ row h. declared_key (tuples_of loaded) row.scope h)
