-- ===== src/Controller/Sandbox/Finalizers.antt =====
-- sandbox_reconciler.go: what `Reconcile` does to the finalizers, and to nothing else of the
-- sandbox but its status.
use sandbox_mommy.Base.{
  Bool, true, false, not, [], ◌∷◌, Option, none, some, ◌≡◌, refl, ap, ◌∙◌, inl, inr, ◌&&◌,
  if◌then◌else◌, Bool-cases,
}
use sandbox_mommy.Exec.{Exec, Result, ok, err, wrapped, pure, or_wrap, continue}
use sandbox_mommy.Api.{
  TypeMeta, ObjectMeta, Sandbox, SandboxSpec, SandboxTemplate, SandboxTemplateSpec, is_zero,
  protect_finalizer,
}
use sandbox_mommy.Env.{Env}
use sandbox_mommy.Protect.{protect_objects, unprotect_object}
use sandbox_mommy.Sandboxer.{Sandboxer}
use sandbox_mommy.Reconciler.{no_requeue}
use sandbox_mommy.Controller.Sandbox.Steps.{
  State, call, is_deleted, is_ttl_expired, new_sandboxer, initial_builder, TemplateSpec,
  handle_template_spec, handle_terminating, set_finalizers, delete_children, release_template,
}
use sandbox_mommy.Controller.Sandbox.{
  put_type, terminate, live, run_or_wait, run_sandbox, refreshed, create_children, report_status,
  reconcile,
}
use sandbox_mommy.Controller.Sandbox.Keeps.{
  base, Keeps, bind-Keeps, or_wrap-Keeps, call-Keeps, handle_template_spec-Keeps,
  create_children-Keeps, report_status-Keeps, schedule-Keeps, delete_children-Keeps,
}

module _ (E : Env) where
  abbrev pub unprotected : Sandbox → Sandbox
  unprotected s = set_finalizers (E.remove_finalizer s.metadata.finalizers protect_finalizer) s

  abbrev pub protected : Sandbox → Sandbox
  protected s = set_finalizers (E.add_finalizer s.metadata.finalizers protect_finalizer) s

  -- The finalizer is off where the run ends well, and the sandbox is as it was where it does not.
  abbrev pub Drops : {A : Type 0} → Sandbox → Result A × State E → Type 0
  Drops s₀ (ok _, (s, _)) = base s ≡ base (unprotected s₀)
  Drops s₀ (err _, (s, _)) = base s ≡ base s₀

  continue-Drops :
      {A B : Type 0} (s₀ : Sandbox) (f : A → Exec (State E) B)
      → ((a : A) (s : Sandbox) (w : E.World) → base s ≡ base s₀ → Drops s₀ (f a (s, w)))
      → (r : Result A × State E) → base r.1.0 ≡ base s₀
      → Drops s₀ (continue f r)
  continue-Drops s₀ f h (ok a, (s, w)) e = h a s w e
  continue-Drops s₀ f h (err e', (s, w)) e = e

  release_template-Keeps :
      (template : Option SandboxTemplate) → Keeps E base (release_template E template)
  release_template-Keeps none s w = refl
  release_template-Keeps (some template) s w =
      bind-Keeps E base
        (or_wrap (call E (unprotect_object E E.templates protect_finalizer template))
          (wrapped "failed to unprotect sandbox template: %w" []))
        _
        (or_wrap-Keeps E base (call E (unprotect_object E E.templates protect_finalizer template)) _
          (call-Keeps E base (unprotect_object E E.templates protect_finalizer template)))
        (λ _ s' w'. refl) s w

  abbrev without_finalizer :
      TypeMeta × ObjectMeta × SandboxSpec → TypeMeta × ObjectMeta × SandboxSpec
  without_finalizer (t, m, p) =
      (t, record m { finalizers = E.remove_finalizer m.finalizers protect_finalizer }, p)

  abbrev with_finalizer : TypeMeta × ObjectMeta × SandboxSpec → TypeMeta × ObjectMeta × SandboxSpec
  with_finalizer (t, m, p) =
      (t, record m { finalizers = E.add_finalizer m.finalizers protect_finalizer }, p)

  handle_terminating-Drops :
      (s₀ : Sandbox) (template : Option SandboxTemplate) (sandboxer : Option (Sandboxer E.World))
      (s : Sandbox) (w : E.World)
      → base s ≡ base s₀
      → Drops s₀ (handle_terminating E template sandboxer (s, w))
  unfolding handle_terminating
  handle_terminating-Drops s₀ template sandboxer s w e =
      continue-Drops s₀ _
        (λ _ s₁ w₁ e₁.
          continue-Drops s₀ _ (λ _ s₂ w₂ e₂. ap without_finalizer e₂)
            (release_template E template (s₁, w₁)) (release_template-Keeps template s₁ w₁ ∙ e₁))
        (delete_children E sandboxer s (s, w)) (delete_children-Keeps E sandboxer s s w ∙ e)

  then-Drops :
      {A B : Type 0} (s₀ : Sandbox) (b : B) (r : Result A × State E)
      → Drops s₀ r
      → Drops s₀ (continue (λ _. pure b) r)
  then-Drops s₀ b (ok a, s) d = d
  then-Drops s₀ b (err e, s) d = d

  terminate-Drops :
      (s₀ : Sandbox) (t : TemplateSpec) (sandboxer : Option (Sandboxer E.World)) (s : Sandbox)
      (w : E.World)
      → base s ≡ base s₀
      → Drops s₀ (terminate E t sandboxer (s, w))
  unfolding terminate
  terminate-Drops s₀ t sandboxer s w e =
      then-Drops s₀ no_requeue (handle_terminating E t.template sandboxer _)
        (handle_terminating-Drops s₀ t.template sandboxer _ w e)

  pub is_deleted_of : (s₀ s : Sandbox) → base s ≡ base s₀ → is_deleted s ≡ is_deleted s₀
  is_deleted_of s₀ s e =
      ap (λ (b : TypeMeta × ObjectMeta × SandboxSpec). not (is_zero b.1.deletion_timestamp)) e

  -- Reconciling a sandbox that is being deleted changes nothing of it but its status and its
  -- finalizers. The finalizer is taken off where the run ends without an error, and where it ends
  -- with one the finalizers are as they were.
  pub reconcile_deleted-Drops :
      (s : Sandbox) (w : E.World) → is_deleted s ≡ true → Drops s (reconcile E (s, w))
  unfolding reconcile
  reconcile_deleted-Drops s w gone =
      continue-Drops s _
        (λ t s₁ w₁ e. rw (is_deleted_of s s₁ e ∙ gone) (
          terminate-Drops s t (new_sandboxer E (put_type E t.spec s₁).status.type)
            (put_type E t.spec s₁) w₁ e))
        (handle_template_spec E (initial_builder E s) (s, w))
        (handle_template_spec-Keeps E (initial_builder E s) s w)

  run_sandbox-protected :
      (s₀ : Sandbox) (t : TemplateSpec) (spec : SandboxTemplateSpec) (sandboxer : Sandboxer E.World)
      (s : Sandbox) (w : E.World)
      → base s ≡ base s₀
      → base (run_sandbox E t spec sandboxer (s, w)).1.0 ≡ base (protected s₀)
  unfolding run_sandbox
  run_sandbox-protected s₀ t spec sandboxer s w e =
      bind-Keeps E base
        (or_wrap (call E (protect_objects E E.templates protect_finalizer (t.template ∷ [])))
          (wrapped "failed to protect sandbox template: %w" []))
        _
        (or_wrap-Keeps E base
          (call E (protect_objects E E.templates protect_finalizer (t.template ∷ []))) _
          (call-Keeps E base (protect_objects E E.templates protect_finalizer (t.template ∷ []))))
        (λ templates.
          bind-Keeps E base (create_children E t.cb sandboxer (refreshed E templates spec)) _
            (create_children-Keeps E t.cb sandboxer (refreshed E templates spec))
            (λ _.
              bind-Keeps E base (report_status E t.cb sandboxer) _
                (report_status-Keeps E t.cb sandboxer) (λ _. schedule-Keeps E)))
        (protected s) w
      ∙ ap with_finalizer e

  -- Whether there is something to run: a spec, of a template that is not being deleted, and a
  -- sandboxer.
  abbrev pub is_runnable : Bool → Option SandboxTemplateSpec → Option (Sandboxer E.World) → Bool
  is_runnable false (some spec) (some sandboxer) = true
  is_runnable _ _ _ = false

  -- The sandbox with the finalizer, if it is to run.
  abbrev pub protected_if : Bool → Sandbox → Sandbox
  protected_if runs s = if runs then protected s else s

  run_or_wait-protected :
      (s₀ : Sandbox) (t : TemplateSpec) (terminating : Bool) (spec : Option SandboxTemplateSpec)
      (sandboxer : Option (Sandboxer E.World)) (s : Sandbox) (w : E.World)
      → base s ≡ base s₀
      → base (run_or_wait E t terminating spec sandboxer (s, w)).1.0
        ≡ base (protected_if (is_runnable terminating spec sandboxer) s₀)
  run_or_wait-protected s₀ t false (some spec) (some sandboxer) s w e =
      run_sandbox-protected s₀ t spec sandboxer s w e
  run_or_wait-protected s₀ t false (some spec) none s w e = e
  run_or_wait-protected s₀ t false none sandboxer s w e = e
  run_or_wait-protected s₀ t true spec sandboxer s w e = e

  -- Whether a sandbox runs, by the answer to the read of its template: its time to live is not over
  -- at what the clock shows then, and there is something to run.
  abbrev pub is_run : Result TemplateSpec × State E → Bool
  is_run (err e, st) = false
  is_run (ok t, (s, w)) =
      not (is_ttl_expired (E.now w).0 s)
      && is_runnable t.terminating t.spec (new_sandboxer E (put_type E t.spec s).status.type)

  live-protected :
      (s₀ : Sandbox) (t : TemplateSpec) (sandboxer : Option (Sandboxer E.World)) (s : Sandbox)
      (w : E.World)
      → base s ≡ base s₀
      → base (live E t sandboxer (s, w)).1.0
        ≡ base (
            protected_if
              (not (is_ttl_expired (E.now w).0 s) && is_runnable t.terminating t.spec sandboxer)
              s₀)
  unfolding live
  live-protected s₀ t sandboxer s w e = elim (Bool-cases (is_ttl_expired (E.now w).0 s)) [
    | inl expired ↦ rw expired (
        bind-Keeps E base (call E (E.sandboxes.delete s)) (λ _. pure no_requeue)
          (call-Keeps E base (E.sandboxes.delete s)) (λ _ s' w'. refl) s (E.now w).1
        ∙ e)
    | inr fresh ↦
        rw fresh (run_or_wait-protected s₀ t t.terminating t.spec sandboxer s (E.now w).1 e)
  ]

  continue-protected :
      (s₀ : Sandbox) {A : Type 0} (f : TemplateSpec → Exec (State E) A)
      → ((t : TemplateSpec) (s : Sandbox) (w : E.World)
          → base s ≡ base s₀
          → base (f t (s, w)).1.0 ≡ base (protected_if (is_run (ok t, (s, w))) s₀))
      → (r : Result TemplateSpec × State E) → base r.1.0 ≡ base s₀
      → base (continue f r).1.0 ≡ base (protected_if (is_run r) s₀)
  continue-protected s₀ f h (ok t, (s, w)) e = h t s w e
  continue-protected s₀ f h (err e', st) e = e

  -- Reconciling a sandbox that is not being deleted changes the metadata of the copy it is given by
  -- putting the program's finalizer on, and in no other way, and it does so exactly where the
  -- sandbox is run: the read of its template succeeds and finds a spec, of a template that is not
  -- being deleted, its type has a sandboxer, and its time to live is not over. So it is whether the
  -- run ends well or not.
  pub reconcile_live-protected :
      (s : Sandbox) (w : E.World)
      → is_deleted s ≡ false
      → (reconcile E (s, w)).1.0.metadata
        ≡ (protected_if (is_run (handle_template_spec E (initial_builder E s) (s, w))) s).metadata
  unfolding reconcile is_ttl_expired
  reconcile_live-protected s w alive =
      ap (λ (b : TypeMeta × ObjectMeta × SandboxSpec). b.1)
        (continue-protected s _
          (λ t s₁ w₁ e. rw (is_deleted_of s s₁ e ∙ alive) (
            live-protected s t (new_sandboxer E (put_type E t.spec s₁).status.type)
              (put_type E t.spec s₁) w₁ e))
          (handle_template_spec E (initial_builder E s) (s, w))
          (handle_template_spec-Keeps E (initial_builder E s) s w))
