-- ===== src/Controller/Template.antt =====
-- internal/controller/sandboxtemplate/sandboxtemplate_reconciler.go
use sandbox_mommy.Base.{Bool, true, false, some}
use sandbox_mommy.Exec.{Exec, ok}
use sandbox_mommy.Api.{
  is_zero, condition_true, condition_false, Reason, reason_string, type_ready, SandboxTemplate,
  protect_finalizer,
}
use sandbox_mommy.Common.{detect_sandbox_type}
use sandbox_mommy.Env.{Env}
use sandbox_mommy.Condition.{
  ConditionBuilder, new_condition_builder, with_status, with_reason, with_message, with_generation,
  set_condition,
}
use sandbox_mommy.Reconciler.{ReconcileResult, no_requeue}

module _ (E : Env) where
  abbrev pub ready_builder : SandboxTemplate → ConditionBuilder
  ready_builder template = with_reason (reason_string Reason.ready) (
      with_status condition_true
        (with_generation template.metadata.generation (new_condition_builder type_ready)))

  abbrev pub protected_message : Bool → ConditionBuilder → ConditionBuilder
  protected_message true cb =
      with_message
        "SandboxTemplate protected by sandbox-controller. Will be deleted after all sandboxes, which use this template terminated."
        cb
  protected_message false cb = cb

  abbrev builder_of : Bool → SandboxTemplate → ConditionBuilder
  builder_of true template = ready_builder template
  builder_of false template =
      protected_message (E.contains_finalizer template.metadata.finalizers protect_finalizer) (
        with_reason (reason_string Reason.terminating)
          (with_status condition_false (ready_builder template)))

  -- The template as `Reconcile` leaves it; the condition is set on the way out.
  unfoldable pub reconciled : SandboxTemplate → SandboxTemplate
  reconciled template = record template {
    status = record template.status {
      type = detect_sandbox_type (some template.spec);
      conditions =
          set_condition E (builder_of (is_zero template.metadata.deletion_timestamp) template)
            template.status.conditions;
    };
  }

  -- `Reconcile`
  unfoldable pub reconcile : Exec (SandboxTemplate × E.World) ReconcileResult
  reconcile (template, w) = (ok no_requeue, (reconciled template, w))
