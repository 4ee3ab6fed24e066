-- ===== src/Controller/Sandbox/Cleanup.antt =====
-- sandbox_reconciler.go with the sandboxers: what a sandbox that is deleted leaves.
use sandbox_mommy.Base.{true, false, none, some, ◌≡◌, refl, ap, ◌∙◌}
use sandbox_mommy.Exec.{ok, continue}
use sandbox_mommy.Api.{Sandbox, SandboxStatus, SandboxTemplateSpec}
use sandbox_mommy.Env.{Env}
use sandbox_mommy.Condition.{ConditionBuilder}
use sandbox_mommy.Sandboxer.{Sandboxer}
use sandbox_mommy.Reconciler.{no_requeue}
use sandbox_mommy.Controller.Sandbox.Steps.{
  is_deleted, new_sandboxer, put_condition, initial_builder, TemplateSpec, handle_template_spec,
  handle_terminating,
}
use sandbox_mommy.Controller.Sandbox.{detected, put_type, terminating_builder, terminate, reconcile}
use sandbox_mommy.Controller.Sandbox.Finalizers.{unprotected}

module _ (E : Env) where
  -- What the controller relies on of a sandboxer that cleans up: `Delete` returns no error and leaves
  -- the children of the sandbox gone, in a sense that its status has no part in.
  pub record Cleans (sandboxer : Sandboxer E.World) : Type 1 where
    pub Gone : Sandbox → E.World → E.World → Type 0
    pub deletes :
        (s : Sandbox) (w : E.World)
        → ((sandboxer.delete s w).0 ≡ ok tt) × Gone s w (sandboxer.delete s w).1
    pub whatever_status :
        (s : Sandbox) (status : SandboxStatus) (w v : E.World)
        → Gone (record s { status = status }) w v
        → Gone s w v

  abbrev pub inline : SandboxTemplateSpec → ConditionBuilder → TemplateSpec
  inline spec cb = record { template = none; spec = some spec; terminating = false; cb = cb }

  pub handled :
      (s : Sandbox) (w : E.World) (spec : SandboxTemplateSpec) (cb : ConditionBuilder)
      → s.spec.template_spec ≡ some spec
      → handle_template_spec E cb (s, w) ≡ (ok (inline spec cb), (s, w))
  unfolding handle_template_spec
  handled s w spec cb e = rw e refl

  -- The sandbox that `Delete` is called with.
  abbrev pub marked : SandboxTemplateSpec → Sandbox → Sandbox
  marked spec s =
      put_condition E (terminating_builder E (initial_builder E s)) (put_type E (some spec) s)

  terminated :
      (s : Sandbox) (w : E.World) (spec : SandboxTemplateSpec) (sandboxer : Sandboxer E.World)
      → (sandboxer.delete (marked spec s) w).0 ≡ ok tt
      → terminate E
          (inline spec (initial_builder E s))
          (some sandboxer)
          (put_type E (some spec) s, w)
        ≡ (ok no_requeue, (unprotected E (marked spec s), (sandboxer.delete (marked spec s) w).1))
  unfolding terminate handle_terminating
  terminated s w spec sandboxer done = rw done refl

  -- What `Reconcile` makes of a copy of a sandbox that is being deleted, whose template is written
  -- in it and whose type has a sandboxer.
  pub reconciled :
      (s : Sandbox) (w : E.World) (spec : SandboxTemplateSpec) (sandboxer : Sandboxer E.World)
      → is_deleted s ≡ true
      → s.spec.template_spec ≡ some spec
      → new_sandboxer E (detected E (some spec) s.status.type) ≡ some sandboxer
      → (sandboxer.delete (marked spec s) w).0 ≡ ok tt
      → reconcile E (s, w)
        ≡ (ok no_requeue, (unprotected E (marked spec s), (sandboxer.delete (marked spec s) w).1))
  unfolding reconcile terminate handle_terminating
  reconciled s w spec sandboxer gone written runs done =
      ap (continue _) (handled s w spec (initial_builder E s) written)
      ∙ rw (gone, runs) (terminated s w spec sandboxer done)
