-- ===== src/Controller/Sandbox/Waiting.antt =====
-- sandbox_reconciler.go: `Reconcile` of a sandbox whose template is not there or is going away.
use sandbox_mommy.Base.{
  Bool, true, false, Option, none, some, ◌≡◌, refl, ap, ◌∙◌, sym, ◌⊎◌, inl, inr,
}
use sandbox_mommy.Exec.{ok, continue}
use sandbox_mommy.Api.{Sandbox, SandboxTemplateSpec}
use sandbox_mommy.Env.{Env}
use sandbox_mommy.Sandboxer.{Sandboxer}
use sandbox_mommy.Reconciler.{no_requeue}
use sandbox_mommy.Controller.Sandbox.Steps.{
  is_deleted, is_ttl_expired, initial_builder, handle_template_spec, TemplateSpec, new_sandboxer,
}
use sandbox_mommy.Controller.Sandbox.{put_type, run_or_wait, live, reconcile}
use sandbox_mommy.Controller.Sandbox.Keeps.{base, handle_template_spec-Keeps}
use sandbox_mommy.Controller.Sandbox.Finalizers.{is_deleted_of}

-- There is no spec to run, or its template is being deleted.
abbrev pub Waits : TemplateSpec → Type 0
Waits t = (t.terminating ≡ true) ⊎ (t.spec ≡ none)

module _ (E : Env) where
  run_or_wait-Waits :
      (t : TemplateSpec) (sandboxer : Option (Sandboxer E.World)) (s : Sandbox) (w : E.World)
      → Waits t
      → run_or_wait E t t.terminating t.spec sandboxer (s, w) ≡ (ok no_requeue, (s, w))
  run_or_wait-Waits t sandboxer s w (inl terminating) = rw terminating refl
  run_or_wait-Waits t sandboxer s w (inr missing) = go t.terminating t.spec missing
    where
      go :
          (terminating : Bool) (spec : Option SandboxTemplateSpec)
          → spec ≡ none
          → run_or_wait E t terminating spec sandboxer (s, w) ≡ (ok no_requeue, (s, w))
      go true spec e = refl
      go false none e = refl
      go false (some spec) e = cc e

  live-Waits :
      (t : TemplateSpec) (sandboxer : Option (Sandboxer E.World)) (s : Sandbox) (w : E.World)
      → Waits t
      → is_ttl_expired (E.now w).0 s ≡ false
      → live E t sandboxer (s, w) ≡ (ok no_requeue, (s, (E.now w).1))
  unfolding live
  live-Waits t sandboxer s w waits fresh =
      rw fresh (run_or_wait-Waits t sandboxer s (E.now w).1 waits)

  -- A sandbox that is not being deleted and has not expired, where there is no template spec to run
  -- or the template is being deleted, is left waiting: `Reconcile` ends without an error and
  -- without a requeue, and after the read of the template it only reads the clock and sets the type
  -- in the status.
  pub reconcile-Waits :
      (s s₁ : Sandbox) (w w₁ : E.World) (t : TemplateSpec)
      → is_deleted s ≡ false
      → handle_template_spec E (initial_builder E s) (s, w) ≡ (ok t, (s₁, w₁))
      → Waits t
      → is_ttl_expired (E.now w₁).0 s₁ ≡ false
      → reconcile E (s, w) ≡ (ok no_requeue, (put_type E t.spec s₁, (E.now w₁).1))
  unfolding reconcile is_ttl_expired
  reconcile-Waits s s₁ w w₁ t alive read waits fresh =
      let same : base s₁ ≡ base s =
        ap (λ r. base r.1.0) (sym read) ∙ handle_template_spec-Keeps E (initial_builder E s) s w in
      ap (continue _) read
      ∙ rw (is_deleted_of E s s₁ same ∙ alive) (
          live-Waits t (new_sandboxer E (put_type E t.spec s₁).status.type) (put_type E t.spec s₁)
            w₁ waits fresh)
