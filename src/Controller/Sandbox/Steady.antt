-- ===== src/Controller/Sandbox/Steady.antt =====
-- sandbox_reconciler.go with the sandboxers: a sandbox whose children are all in place.
use sandbox_mommy.Base.{false, some, ◌≡◌, refl, ap, ◌∙◌, inl, inr, Bool-cases}
use sandbox_mommy.Base.Int.{pos, eqb_ℤ}
use sandbox_mommy.Exec.{ok, continue}
use sandbox_mommy.Api.{
  Sandbox, SandboxStatus, SandboxTemplateSpec, condition_true, Reason, reason_string,
  protect_finalizer,
}
use sandbox_mommy.Env.{Env}
use sandbox_mommy.Condition.{ConditionBuilder, with_status, with_reason, with_message}
use sandbox_mommy.Protect.{protect_objects}
use sandbox_mommy.Sandboxer.{Sandboxer}
use sandbox_mommy.Reconciler.{ReconcileResult}
use sandbox_mommy.Controller.Sandbox.Steps.{
  is_deleted, is_ttl_expired, next_sync, new_sandboxer, put_condition, initial_builder,
}
use sandbox_mommy.Controller.Sandbox.{
  detected, put_type, create_children, report_status, schedule, run_sandbox, live, reconcile,
}
use sandbox_mommy.Controller.Sandbox.Cleanup.{inline, handled}

module _ (E : Env) where
  -- What the controller relies on of a sandboxer whose children are in place: `Create` does nothing
  -- and `Status` reports that they are ready, whatever the status of the sandbox says.
  pub record Steady (sandboxer : Sandboxer E.World) : Type 1 where
    pub InPlace : Sandbox → SandboxTemplateSpec → E.World → Type 0
    pub creates :
        (s : Sandbox) (spec : SandboxTemplateSpec) (w : E.World)
        → InPlace s spec w
        → sandboxer.create s spec w ≡ (ok tt, w)
    pub reports :
        (s : Sandbox) (spec : SandboxTemplateSpec) (w : E.World)
        → InPlace s spec w
        → sandboxer.status s w ≡ (ok (condition_true, Reason.ready, ""), w)
    pub whatever_status :
        (s : Sandbox) (status : SandboxStatus) (spec : SandboxTemplateSpec) (w : E.World)
        → InPlace s spec w
        → InPlace (record s { status = status }) spec w

  abbrev ready_builder : ConditionBuilder → ConditionBuilder
  ready_builder cb =
      with_message "" (with_reason (reason_string Reason.ready) (with_status condition_true cb))

  -- The sandbox that is reported ready, with its type.
  abbrev pub reported : SandboxTemplateSpec → Sandbox → Sandbox
  reported spec s = put_condition E (ready_builder (initial_builder E s)) (put_type E (some spec) s)

  abbrev pub requeue : Sandbox → E.World → ReconcileResult
  requeue s w = record { requeue_after = next_sync (E.now w).0 s }

  pub scheduled :
      (s : Sandbox) (w : E.World) → (E.now w).1 ≡ w → schedule E (s, w) ≡ (ok (requeue s w), (s, w))
  unfolding schedule next_sync
  scheduled s w still = elim (Bool-cases (eqb_ℤ s.spec.ttl (pos 0))) [
    | inl forever ↦ rw forever refl
    | inr limited ↦ rw (limited, still) refl
  ]

  running :
      (s : Sandbox) (w : E.World) (spec : SandboxTemplateSpec) (cb : ConditionBuilder)
      (sandboxer : Sandboxer E.World)
      → E.add_finalizer s.metadata.finalizers protect_finalizer ≡ s.metadata.finalizers
      → (E.now w).1 ≡ w
      → sandboxer.create s spec w ≡ (ok tt, w)
      → sandboxer.status s w ≡ (ok (condition_true, Reason.ready, ""), w)
      → run_sandbox E (inline E spec cb) spec sandboxer (s, w)
        ≡ (ok (requeue s w), (put_condition E (ready_builder cb) s, w))
  unfolding run_sandbox create_children report_status protect_objects next_sync
  running s w spec cb sandboxer on still creates reports =
      rw (on, creates, reports) (scheduled (put_condition E (ready_builder cb) s) w still)

  living :
      (s : Sandbox) (w : E.World) (spec : SandboxTemplateSpec) (cb : ConditionBuilder)
      (sandboxer : Sandboxer E.World) (c : Steady sandboxer)
      → is_ttl_expired (E.now w).0 s ≡ false
      → E.add_finalizer s.metadata.finalizers protect_finalizer ≡ s.metadata.finalizers
      → (E.now w).1 ≡ w
      → c.InPlace s spec w
      → live E (inline E spec cb) (some sandboxer) (s, w)
        ≡ (ok (requeue s w), (put_condition E (ready_builder cb) s, w))
  unfolding live
  living s w spec cb sandboxer c fresh on still there =
      rw (fresh, still)
        (running s w spec cb sandboxer on still (c.creates s spec w there)
          (c.reports s spec w there))

  -- A sandbox that runs stays as it is: where it is not being deleted and has not expired, its
  -- template is written in it, the finalizer is on, reading the clock leaves the world, and the
  -- sandboxer of its type finds the children in place, `Reconcile` returns no error, leaves the world
  -- as it was, sets the type and the condition Ready in the status and nothing else, and asks to
  -- be called again when the sandbox expires.
  pub reconcile-Steady :
      (s : Sandbox) (w : E.World) (spec : SandboxTemplateSpec) (sandboxer : Sandboxer E.World)
      (c : Steady sandboxer)
      → is_deleted s ≡ false
      → is_ttl_expired (E.now w).0 s ≡ false
      → s.spec.template_spec ≡ some spec
      → E.add_finalizer s.metadata.finalizers protect_finalizer ≡ s.metadata.finalizers
      → (E.now w).1 ≡ w
      → new_sandboxer E (detected E (some spec) s.status.type) ≡ some sandboxer
      → c.InPlace s spec w
      → reconcile E (s, w) ≡ (ok (requeue s w), (reported spec s, w))
  unfolding reconcile is_ttl_expired next_sync
  reconcile-Steady s w spec sandboxer c alive fresh written on still runs there =
      ap (continue _) (handled E s w spec (initial_builder E s) written)
      ∙ rw (alive, runs)
          (living (put_type E (some spec) s) w spec (initial_builder E s) sandboxer c fresh on still
            (c.whatever_status s (put_type E (some spec) s).status spec w there))
