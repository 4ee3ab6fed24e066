-- ===== src/Reconciler.antt =====
-- pkg/controller/reconciler/base_reconciler.go: read the object, let the controller's reconciler
-- work on a copy, and write back its status and its metadata.
pub mod Quiet
use sandbox_mommy.Base.{Bool, [], if◌then◌else◌}
use sandbox_mommy.Base.Int.{pos}
use sandbox_mommy.Exec.{Exec, Result, ok, err, wrapped, is_not_found, ◌>>=◌}
use sandbox_mommy.Api.{Object, ObjectKey, Duration}
use sandbox_mommy.Env.{KindClient}
use sandbox_mommy.Updater.{update_meta, update_status}

-- `reconcile.Result`
pub record ReconcileResult : Type 0 where
  pub requeue_after : Duration

abbrev pub no_requeue : ReconcileResult
no_requeue = record { requeue_after = pos 0 }

-- From the update on: its error comes before the reconciler's own.
abbrev pub written_or_failed :
    {World : Type 0}
    → Result ReconcileResult
    → Result (Unit {0}) × World
    → Result ReconcileResult × World
written_or_failed result (ok _, s) = (result, s)
written_or_failed result (err e, s) = (err (wrapped "failed to update resource: %w" [] e), s)

module _ {World Spec Status : Type 0} (c : KindClient World (Object Spec Status))
    (deep_equal : Status → Status → Bool) where
  -- `BaseReconciler.update`
  unfoldable pub update : Object Spec Status → Object Spec Status → Exec World Unit
  update old_obj new_obj = do
    written ← update_status c deep_equal old_obj new_obj
    update_meta c old_obj written

  -- `Reconcile` from the reconciler's result on.
  abbrev pub finish :
      Object Spec Status
      → Result ReconcileResult × (Object Spec Status × World)
      → Result ReconcileResult × World
  finish obj (result, (copy, s)) = written_or_failed result (update obj copy s)

  -- `Reconcile` from the answer of `Fetch` on, with the controller's reconciler.
  abbrev pub work_on :
      Exec (Object Spec Status × World) ReconcileResult
      → Result (Object Spec Status) × World
      → Result ReconcileResult × World
  work_on reconciler (ok obj, s) = finish obj (reconciler (obj, s))
  work_on reconciler (err e, s) = if is_not_found e then (ok no_requeue, s) else (err e, s)

  -- `BaseReconciler.Reconcile`
  unfoldable pub reconcile :
      Exec (Object Spec Status × World) ReconcileResult → ObjectKey → Exec World ReconcileResult
  reconcile reconciler key s = work_on reconciler (c.get key s)
