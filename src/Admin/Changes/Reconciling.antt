-- ===== src/Admin/Changes/Reconciling.antt =====
-- The executor as the reconciler of the console, as main.go wires them: `text` is the text of an error,
-- `now` and `clock` the times of the reconciliation.
use frps_gateway.Base.{ℕ, String, refl, Option, none, some, List}
use frps_gateway.Store.Sql.{StoreError}
use frps_gateway.Frps.{Transport, FrpsError}
use frps_gateway.Executor.{Holding, Reconciled, reconciled, store_failed, frps_failed, reconcile}
use frps_gateway.Executor.Untouched.{reconcile-Untouched}
use frps_gateway.Admin.Changes.{Reconciler}
use frps_gateway.Admin.Changes.Handled.{KeepsAudits}

module _ (t : Transport) (order : List Holding → List Holding) (store_text : StoreError → String)
    (frps_text : FrpsError → String) (now : ℕ) (clock : String → ℕ) where
  abbrev pub failure_text : Reconciled → Option String
  failure_text reconciled = none
  failure_text (store_failed x) = some (store_text x)
  failure_text (frps_failed x) = some (frps_text x)

  abbrev pub executor_reconciler : Reconciler
  executor_reconciler = record {
    Outside = t.State;
    reconcile = λ e s.
        let (r, w) = reconcile t order now clock (record { env = e; frps = s }) in
        (failure_text r, w.env, w.frps);
  }

  -- The executor leaves the audit records alone.
  pub executor_keeps : KeepsAudits executor_reconciler
  executor_keeps = record {
    audits = λ e s.
        reconcile-Untouched (λ d. d.admin_audit) (λ d ips. refl) t order now clock
          (record { env = e; frps = s });
  }
