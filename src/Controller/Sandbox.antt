-- ===== src/Controller/Sandbox.antt =====
-- internal/controller/sandbox/sandbox_reconciler.go: `Reconcile`.
pub mod Steps
pub mod Ttl
pub mod Keeps
pub mod Finalizers
pub mod Waiting
pub mod Closed
pub mod Cleanup
pub mod Cleaners
pub mod Deletion
pub mod Steady
pub mod Creation
pub mod Creators
use sandbox_mommy.Base.{Bool, true, false, List, [], ◌∷◌, Option, none, some, if◌then◌else◌}
use sandbox_mommy.Base.Int.{pos, eqb_ℤ}
use sandbox_mommy.Exec.{Exec, Result, ok, err, wrapped, pure, or_wrap, ◌>>=◌, ◌>>◌}
use sandbox_mommy.Api.{
  condition_false, Reason, reason_string, SandboxType, unset, Sandbox, SandboxTemplate,
  SandboxTemplateSpec, protect_finalizer,
}
use sandbox_mommy.Common.{detect_sandbox_type}
use sandbox_mommy.Env.{Env}
use sandbox_mommy.Condition.{ConditionBuilder, with_status, with_reason, with_message}
use sandbox_mommy.Protect.{protect_objects}
use sandbox_mommy.Sandboxer.{Sandboxer}
use sandbox_mommy.Reconciler.{ReconcileResult, no_requeue}
use sandbox_mommy.Controller.Sandbox.Steps.{
  State, current, modify, call, clock, is_ttl_expired, next_sync, is_deleted, TemplateSpec,
  new_sandboxer, put_condition, initial_builder, handle_template_spec, handle_terminating,
  set_finalizers,
}

module _ (E : Env) where
  -- `if sandbox.Status.Type == "" { ... }`
  abbrev pub detected : Option SandboxTemplateSpec → SandboxType → SandboxType
  detected spec unset = detect_sandbox_type spec
  detected spec type = type

  abbrev pub put_type : Option SandboxTemplateSpec → Sandbox → Sandbox
  put_type spec sandbox = record sandbox {
    status = record sandbox.status { type = detected spec sandbox.status.type };
  }

  abbrev pub terminating_builder : ConditionBuilder → ConditionBuilder
  terminating_builder cb =
      with_message ""
        (with_reason (reason_string Reason.terminating) (with_status condition_false cb))

  abbrev pub failed_builder : ConditionBuilder → ConditionBuilder
  failed_builder cb =
      with_message "Failed to create sandbox."
        (with_reason (reason_string Reason.failed) (with_status condition_false cb))

  -- The template's spec is read through the template that `Patch` has written over.
  abbrev pub refreshed : List (Option SandboxTemplate) → SandboxTemplateSpec → SandboxTemplateSpec
  refreshed (some template ∷ []) spec = template.spec
  refreshed _ spec = spec

  abbrev pub note_failure :
      ConditionBuilder → Sandbox → Result (Unit {0}) × E.World → Result (Unit {0}) × State E
  note_failure cb sandbox (ok _, w) = (ok tt, (sandbox, w))
  note_failure cb sandbox (err e, w) =
      let failed = put_condition E (failed_builder cb) sandbox in
      (err e, (failed, E.record_event failed (reason_string Reason.failed) e w))

  -- The call of `Create`, with what is recorded when it fails.
  unfoldable pub create_children :
      ConditionBuilder → Sandboxer E.World → SandboxTemplateSpec → Exec (State E) Unit
  create_children cb sandboxer spec (sandbox, w) =
      note_failure cb sandbox (sandboxer.create sandbox spec w)

  -- The call of `Status` and the condition made of it.
  unfoldable pub report_status : ConditionBuilder → Sandboxer E.World → Exec (State E) Unit
  report_status cb sandboxer = do
    sandbox ← current E
    st ← or_wrap (call E (sandboxer.status sandbox)) (wrapped "failed to get sandbox status: %w" [])
    modify E (
        put_condition E
          (with_message st.2 (with_reason (reason_string st.1) (with_status st.0 cb))))

  -- `RequeueAfter: nextSync(sandbox)`: the clock E is read only if there is a time to live.
  unfoldable pub schedule : Exec (State E) ReconcileResult
  schedule = do
    sandbox ← current E
    if eqb_ℤ sandbox.spec.ttl (pos 0)
        then pure no_requeue
        else do now ← clock E; pure (record { requeue_after = next_sync now sandbox })

  -- The body of `Reconcile` for a sandbox that is to run.
  unfoldable pub run_sandbox :
      TemplateSpec → SandboxTemplateSpec → Sandboxer E.World → Exec (State E) ReconcileResult
  run_sandbox t spec sandboxer = do
    modify E (λ s. set_finalizers (E.add_finalizer s.metadata.finalizers protect_finalizer) s)
    templates ←
        or_wrap (call E (protect_objects E E.templates protect_finalizer (t.template ∷ [])))
          (wrapped "failed to protect sandbox template: %w" [])
    create_children t.cb sandboxer (refreshed templates spec)
    report_status t.cb sandboxer
    schedule

  -- `if templateTerminating || sandboxTemplateSpec == nil || sandboxer == nil { return }`
  abbrev pub run_or_wait :
      TemplateSpec
      → Bool
      → Option SandboxTemplateSpec
      → Option (Sandboxer E.World)
      → Exec (State E) ReconcileResult
  run_or_wait t false (some spec) (some sandboxer) = run_sandbox t spec sandboxer
  run_or_wait t _ _ _ = pure no_requeue

  -- The branch of `Reconcile` for a sandbox that is being deleted.
  unfoldable pub terminate :
      TemplateSpec → Option (Sandboxer E.World) → Exec (State E) ReconcileResult
  terminate t sandboxer = do
    modify E (put_condition E (terminating_builder t.cb))
    handle_terminating E t.template sandboxer
    pure no_requeue

  -- The branch of `Reconcile` for one that is not.
  unfoldable pub live : TemplateSpec → Option (Sandboxer E.World) → Exec (State E) ReconcileResult
  live t sandboxer = do
    now ← clock E
    sandbox ← current E
    if is_ttl_expired now sandbox
        then (call E (E.sandboxes.delete sandbox) >> pure no_requeue)
        else run_or_wait t t.terminating t.spec sandboxer

  -- `Reconcile`
  unfoldable pub reconcile : Exec (State E) ReconcileResult
  reconcile = do
    initial ← current E
    t ← handle_template_spec E (initial_builder E initial)
    modify E (put_type t.spec)
    sandbox ← current E
    if is_deleted sandbox
        then terminate t (new_sandboxer E sandbox.status.type)
        else live t (new_sandboxer E sandbox.status.type)
