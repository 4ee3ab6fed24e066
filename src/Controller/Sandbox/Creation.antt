-- ===== src/Controller/Sandbox/Creation.antt =====
-- sandbox_reconciler.go with the sandboxers: what a sandbox that is to run gets.
use sandbox_mommy.Base.{String, false, some, ◌≡◌, ap, ◌∙◌}
use sandbox_mommy.Exec.{ok, continue}
use sandbox_mommy.Api.{Sandbox, SandboxTemplateSpec, ConditionStatus, Reason, reason_string}
use sandbox_mommy.Env.{Env}
use sandbox_mommy.Condition.{ConditionBuilder, with_status, with_reason, with_message}
use sandbox_mommy.Protect.{protect_objects}
use sandbox_mommy.Sandboxer.{Sandboxer}
use sandbox_mommy.Controller.Sandbox.Steps.{
  is_deleted, is_ttl_expired, next_sync, new_sandboxer, put_condition, initial_builder,
}
use sandbox_mommy.Controller.Sandbox.{
  detected, put_type, create_children, report_status, run_sandbox, live, reconcile,
}
use sandbox_mommy.Controller.Sandbox.Cleanup.{inline, handled}
use sandbox_mommy.Controller.Sandbox.Finalizers.{protected}
use sandbox_mommy.Controller.Sandbox.Steady.{requeue, scheduled}

module _ (E : Env) where
  -- What the controller relies on of a sandboxer that creates: where nothing stands in the way,
  -- `Create` returns no error and leaves the children as they are wanted, and `Status` tells what it
  -- sees and changes nothing.
  pub record Creates (sandboxer : Sandboxer E.World) : Type 1 where
    pub Free : Sandbox → SandboxTemplateSpec → E.World → Type 0
    pub Made : Sandbox → SandboxTemplateSpec → E.World → E.World → Type 0
    pub seen : Sandbox → E.World → ConditionStatus × Reason × String
    pub creates :
        (s : Sandbox) (spec : SandboxTemplateSpec) (w : E.World)
        → Free s spec w
        → ((sandboxer.create s spec w).0 ≡ ok tt) × Made s spec w (sandboxer.create s spec w).1
    pub reports : (s : Sandbox) (w : E.World) → sandboxer.status s w ≡ (ok (seen s w), w)

  -- The sandbox that `Create` is called with: its type is set, and the finalizer is on.
  abbrev pub prepared : SandboxTemplateSpec → Sandbox → Sandbox
  prepared spec s = protected E (put_type E (some spec) s)

  -- The sandbox with the condition that is made of a report.
  abbrev pub told : ConditionStatus × Reason × String → ConditionBuilder → Sandbox → Sandbox
  told st cb s =
      put_condition E (with_message st.2 (with_reason (reason_string st.1) (with_status st.0 cb))) s

  ran :
      (s : Sandbox) (w : E.World) (spec : SandboxTemplateSpec) (cb : ConditionBuilder)
      (sandboxer : Sandboxer E.World) (c : Creates sandboxer)
      → ((v : E.World) → (E.now v).1 ≡ v)
      → (sandboxer.create (protected E s) spec w).0 ≡ ok tt
      → let w' = (sandboxer.create (protected E s) spec w).1 in
        run_sandbox E (inline E spec cb) spec sandboxer (s, w)
        ≡ (ok (requeue E s w'), (told (c.seen (protected E s) w') cb (protected E s), w'))
  unfolding run_sandbox create_children report_status protect_objects next_sync
  ran s w spec cb sandboxer c still done =
      let w' = (sandboxer.create (protected E s) spec w).1 in
      rw (done, c.reports (protected E s) w')
        (scheduled E (told (c.seen (protected E s) w') cb (protected E s)) w' (still w'))

  -- One reconciliation creates what a sandbox needs: where it is not being deleted and has not
  -- expired, its template is written in it, reading the clock leaves the world, and the sandboxer of
  -- its type finds nothing in the way, `Reconcile` returns no error and leaves the children as the
  -- sandboxer promises. The sandbox has its type, the finalizer and the condition that the status of
  -- the children after the creation makes, and is to be reconciled again when it expires.
  pub reconcile-Creates :
      (s : Sandbox) (w : E.World) (spec : SandboxTemplateSpec) (sandboxer : Sandboxer E.World)
      (c : Creates sandboxer)
      → is_deleted s ≡ false
      → is_ttl_expired (E.now w).0 s ≡ false
      → s.spec.template_spec ≡ some spec
      → ((v : E.World) → (E.now v).1 ≡ v)
      → new_sandboxer E (detected E (some spec) s.status.type) ≡ some sandboxer
      → c.Free (prepared spec s) spec w
      → (w' : E.World) × c.Made (prepared spec s) spec w w'
        × (reconcile E (s, w) ≡ (
          ok (requeue E s w'),
          (told (c.seen (prepared spec s) w') (initial_builder E s) (prepared spec s), w'),
        ))
  unfolding reconcile live is_ttl_expired next_sync
  reconcile-Creates s w spec sandboxer c alive fresh written still runs free =
      let (done, made) = c.creates (prepared spec s) spec w free in
      (
        (sandboxer.create (prepared spec s) spec w).1,
        made,
        ap (continue _) (handled E s w spec (initial_builder E s) written)
            ∙ rw (alive, runs, fresh, still w)
                (ran (put_type E (some spec) s) w spec (initial_builder E s) sandboxer c still
                  done),
      )
