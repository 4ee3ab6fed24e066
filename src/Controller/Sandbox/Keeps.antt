-- ===== src/Controller/Sandbox/Keeps.antt =====
-- sandbox_reconciler.go: what the steps of `Reconcile` leave of the sandbox they are given.
use sandbox_mommy.Base.{
  String, Bool, true, false, [], Option, none, some, ◌≡◌, refl, ◌∙◌, inl, inr, Bool-cases,
}
use sandbox_mommy.Base.Int.{pos, eqb_ℤ}
use sandbox_mommy.Exec.{
  Exec, Error, Result, ok, err, wrapped, is_not_found, or_wrap, wrapping, continue, ◌>>=◌,
}
use sandbox_mommy.Api.{
  TypeMeta, ObjectMeta, Sandbox, SandboxSpec, SandboxTemplate, SandboxTemplateSpec, is_zero,
}
use sandbox_mommy.Env.{Env}
use sandbox_mommy.Condition.{ConditionBuilder}
use sandbox_mommy.Sandboxer.{Sandboxer}
use sandbox_mommy.Controller.Sandbox.Steps.{
  State, call, fetch_template, handle_template_spec, read_template, found_template,
  template_spec_of, delete_children,
}
use sandbox_mommy.Controller.Sandbox.{create_children, note_failure, report_status, schedule}

-- Everything of a sandbox but its status.
abbrev pub base : Sandbox → TypeMeta × ObjectMeta × SandboxSpec
base s = (s.type_meta, s.metadata, s.spec)

module _ (E : Env) where
  -- A step that leaves a part of the sandbox as it was.
  abbrev pub Keeps : {A X : Type 0} → (Sandbox → X) → Exec (State E) A → Type 0
  Keeps g m = (s : Sandbox) (w : E.World) → g (m (s, w)).1.0 ≡ g s

  continue-Keeps :
      {A B X : Type 0} (g : Sandbox → X) (f : A → Exec (State E) B)
      → ((a : A) → Keeps g (f a))
      → (r : Result A × State E) → g (continue f r).1.0 ≡ g r.1.0
  continue-Keeps g f h (ok a, (s, w)) = h a s w
  continue-Keeps g f h (err e, s) = refl

  pub bind-Keeps :
      {A B X : Type 0} (g : Sandbox → X) (m : Exec (State E) A) (f : A → Exec (State E) B)
      → Keeps g m
      → ((a : A) → Keeps g (f a))
      → Keeps g (m >>= f)
  bind-Keeps g m f hm hf s w = continue-Keeps g f hf (m (s, w)) ∙ hm s w

  wrapping-Keeps :
      {A X : Type 0} (g : Sandbox → X) (f : Error → Error) (r : Result A × State E)
      → g (wrapping f r).1.0 ≡ g r.1.0
  wrapping-Keeps g f (ok a, s) = refl
  wrapping-Keeps g f (err e, s) = refl

  pub or_wrap-Keeps :
      {A X : Type 0} (g : Sandbox → X) (m : Exec (State E) A) (f : Error → Error)
      → Keeps g m
      → Keeps g (or_wrap m f)
  or_wrap-Keeps g m f h s w = wrapping-Keeps g f (m (s, w)) ∙ h s w

  -- A call on the world alone leaves the sandbox.
  pub call-Keeps : {A X : Type 0} (g : Sandbox → X) (m : Exec E.World A) → Keeps g (call E m)
  call-Keeps g m s w = refl

  found_template-Keeps :
      (cb : ConditionBuilder) (template : SandboxTemplate) (live : Bool)
      → Keeps base (found_template E live template cb)
  found_template-Keeps cb template true s w = refl
  found_template-Keeps cb template false s w = refl

  read_template-Keeps :
      (cb : ConditionBuilder) (r : Result SandboxTemplate × State E)
      → base (read_template E cb r).1.0 ≡ base r.1.0
  read_template-Keeps cb (ok template, (s, w)) =
      found_template-Keeps cb template (is_zero template.metadata.deletion_timestamp) s w
  read_template-Keeps cb (err e, (s, w)) = elim (Bool-cases (is_not_found e)) [
    | inl missing ↦ rw missing refl
    | inr other ↦ rw other refl
  ]

  fetch_template-Keeps :
      (name : String) (cb : ConditionBuilder) → Keeps base (fetch_template E name cb)
  unfolding fetch_template
  fetch_template-Keeps name cb s w =
      read_template-Keeps cb
        (call E (E.templates.get (record { namespace = ""; name = name })) (s, w))

  template_spec_of-Keeps :
      (spec : Option SandboxTemplateSpec) (name : String) (cb : ConditionBuilder)
      → Keeps base (template_spec_of E spec name cb)
  template_spec_of-Keeps (some spec) name cb s w = refl
  template_spec_of-Keeps none String.[] cb s w = refl
  template_spec_of-Keeps none (String.◌∷◌ a name) cb s w = fetch_template-Keeps _ cb s w

  pub handle_template_spec-Keeps : (cb : ConditionBuilder) → Keeps base (handle_template_spec E cb)
  unfolding handle_template_spec
  handle_template_spec-Keeps cb s w =
      template_spec_of-Keeps s.spec.template_spec s.spec.template cb s w

  note_failure-Keeps :
      (cb : ConditionBuilder) (s : Sandbox) (r : Result (Unit {0}) × E.World)
      → base (note_failure E cb s r).1.0 ≡ base s
  note_failure-Keeps cb s (ok _, w) = refl
  note_failure-Keeps cb s (err e, w) = refl

  pub create_children-Keeps :
      (cb : ConditionBuilder) (sandboxer : Sandboxer E.World) (spec : SandboxTemplateSpec)
      → Keeps base (create_children E cb sandboxer spec)
  unfolding create_children
  create_children-Keeps cb sandboxer spec s w = note_failure-Keeps cb s (sandboxer.create s spec w)

  pub report_status-Keeps :
      (cb : ConditionBuilder) (sandboxer : Sandboxer E.World)
      → Keeps base (report_status E cb sandboxer)
  unfolding report_status
  report_status-Keeps cb sandboxer s w =
      bind-Keeps base
        (or_wrap (call E (sandboxer.status s)) (wrapped "failed to get sandbox status: %w" [])) _
        (or_wrap-Keeps base (call E (sandboxer.status s)) _ (call-Keeps base (sandboxer.status s)))
        (λ st s' w'. refl) s w

  pub schedule-Keeps : Keeps base (schedule E)
  unfolding schedule
  schedule-Keeps s w = elim (Bool-cases (eqb_ℤ s.spec.ttl (pos 0))) [
    | inl zero ↦ rw zero refl
    | inr set ↦ rw set refl
  ]

  pub delete_children-Keeps :
      (sandboxer : Option (Sandboxer E.World)) (s' : Sandbox)
      → Keeps base (delete_children E sandboxer s')
  delete_children-Keeps none s' s w = refl
  delete_children-Keeps (some sandboxer) s' s w =
      or_wrap-Keeps base (call E (sandboxer.delete s')) _ (call-Keeps base (sandboxer.delete s')) s
        w
