-- ===== src/Controller/Sandbox/Steps.antt =====
-- internal/controller/sandbox/sandbox_reconciler.go, the steps that `Reconcile` is made of, and the
-- choice of sandboxer.go. The state is the copy of the sandbox that the base reconciler hands over,
-- with the world.
use sandbox_mommy.Base.{
  String, ◌<>◌, Bool, true, false, not, List, [], Option, none, some, if◌then◌else◌,
}
use sandbox_mommy.Base.Int.{pos, ◌+ℤ◌, ◌-ℤ◌, ltb_ℤ, eqb_ℤ}
use sandbox_mommy.Exec.{Exec, Result, ok, err, wrapped, is_not_found, pure, or_wrap, ◌>>=◌, ◌>>◌}
use sandbox_mommy.Api.{
  Time, is_zero, condition_false, Reason, reason_string, type_ready, SandboxType, pod, dvp_vm,
  kubevirt_vmi, Sandbox, SandboxTemplate, SandboxTemplateSpec, protect_finalizer,
}
use sandbox_mommy.Env.{Env}
use sandbox_mommy.Condition.{
  ConditionBuilder, new_condition_builder, with_status, with_reason, with_message, with_generation,
  set_condition,
}
use sandbox_mommy.Protect.{unprotect_object}
use sandbox_mommy.Sandboxer.{Sandboxer}
use sandbox_mommy.Sandboxer.Pod.{new_pod_sandboxer}
use sandbox_mommy.Sandboxer.Kubevirt.{new_kubevirt_sandboxer}
use sandbox_mommy.Sandboxer.Dvp.{new_dvp_sandboxer}

-- `%q` of a name that needs no escape.
abbrev pub quote : String → String
quote name = "\"" <> name <> "\""

-- `sandbox.GetCreationTimestamp().Add(sandbox.Spec.TTL.Duration)`
abbrev pub expiration : Sandbox → Time
expiration sandbox = sandbox.metadata.creation_timestamp +ℤ sandbox.spec.ttl

-- `isTTLExpired` at the time that the clock shows
unfoldable pub is_ttl_expired : Time → Sandbox → Bool
is_ttl_expired now sandbox = ltb_ℤ (expiration sandbox) now

-- `nextSync` at the time that the clock shows, where the difference fits a duration
unfoldable pub next_sync : Time → Sandbox → Time
next_sync now sandbox = if eqb_ℤ sandbox.spec.ttl (pos 0) then pos 0 else expiration sandbox -ℤ now

abbrev pub is_deleted : Sandbox → Bool
is_deleted sandbox = not (is_zero sandbox.metadata.deletion_timestamp)

abbrev pub set_finalizers : List String → Sandbox → Sandbox
set_finalizers finalizers sandbox = record sandbox {
  metadata = record sandbox.metadata { finalizers = finalizers };
}

-- What `handleTemplateSpec` returns, with the builder that it went on with.
pub record TemplateSpec : Type 0 where
  pub template : Option SandboxTemplate
  pub spec : Option SandboxTemplateSpec
  pub terminating : Bool
  pub cb : ConditionBuilder

module _ (E : Env) where
  abbrev pub State : Type 0
  State = Sandbox × E.World

  -- `NewSandboxer`
  abbrev pub new_sandboxer : SandboxType → Option (Sandboxer E.World)
  new_sandboxer pod = some (new_pod_sandboxer E)
  new_sandboxer dvp_vm = some (new_dvp_sandboxer E)
  new_sandboxer kubevirt_vmi = some (new_kubevirt_sandboxer E)
  new_sandboxer _ = none

  abbrev pub current : Exec State Sandbox
  current (sandbox, w) = (ok sandbox, (sandbox, w))

  abbrev pub modify : (Sandbox → Sandbox) → Exec State Unit
  modify f (sandbox, w) = (ok tt, (f sandbox, w))

  -- A call that works on the world alone.
  abbrev pub call : {A : Type 0} → Exec E.World A → Exec State A
  call m (sandbox, w) = let (r, w') = m w in (r, (sandbox, w'))

  -- `time.Now`
  abbrev pub clock : Exec State Time
  clock (sandbox, w) = let (t, w') = E.now w in (ok t, (sandbox, w'))

  abbrev pub put_condition : ConditionBuilder → Sandbox → Sandbox
  put_condition cb sandbox = record sandbox {
    status = record sandbox.status { conditions = set_condition E cb sandbox.status.conditions };
  }

  abbrev pub initial_builder : Sandbox → ConditionBuilder
  initial_builder sandbox = with_reason (reason_string Reason.pending) (
      with_status condition_false
        (with_generation sandbox.metadata.generation (new_condition_builder type_ready)))

  -- The branch of `handleTemplateSpec` on the template that was read. The name in the first
  -- message is that of the object that `Get` did not fill.
  abbrev pub missing_template : ConditionBuilder → ConditionBuilder
  missing_template cb =
      with_message ("SandboxTemplate " <> quote "" <> " not found")
        (with_reason (reason_string Reason.pending) (with_status condition_false cb))

  abbrev pub terminating_template : String → ConditionBuilder → ConditionBuilder
  terminating_template name cb =
      with_message ("SandboxTemplate " <> quote name <> " is terminating, rejected for use.")
        (with_reason (reason_string Reason.terminating) (with_status condition_false cb))

  abbrev pub found_template : Bool → SandboxTemplate → ConditionBuilder → Exec State TemplateSpec
  found_template false template cb = do
    modify (put_condition (terminating_template template.metadata.name cb))
    pure (record {
      template = some template;
      spec = some template.spec;
      terminating = true;
      cb = terminating_template template.metadata.name cb;
    })
  found_template true template cb =
      pure (record {
        template = some template;
        spec = some template.spec;
        terminating = false;
        cb = cb;
      })

  abbrev pub no_template : ConditionBuilder → TemplateSpec
  no_template cb = record { template = none; spec = none; terminating = false; cb = cb }

  abbrev pub read_template :
      ConditionBuilder → Result SandboxTemplate × State → Result TemplateSpec × State
  read_template cb (ok template, s) =
      found_template (is_zero template.metadata.deletion_timestamp) template cb s
  read_template cb (err e, s) =
      if is_not_found e
      then (modify (put_condition (missing_template cb))
            >> pure (no_template (missing_template cb)))
          s
      else (err e, s)

  -- `Get` of a template by the name in the sandbox.
  unfoldable pub fetch_template : String → ConditionBuilder → Exec State TemplateSpec
  fetch_template name cb s =
      read_template cb (call (E.templates.get (record { namespace = ""; name = name })) s)

  abbrev pub template_spec_of :
      Option SandboxTemplateSpec → String → ConditionBuilder → Exec State TemplateSpec
  template_spec_of (some spec) name cb =
      pure (record { template = none; spec = some spec; terminating = false; cb = cb })
  template_spec_of none String.[] cb = pure (no_template cb)
  template_spec_of none name cb = fetch_template name cb

  -- `handleTemplateSpec`
  unfoldable pub handle_template_spec : ConditionBuilder → Exec State TemplateSpec
  handle_template_spec cb = do
    sandbox ← current
    template_spec_of sandbox.spec.template_spec sandbox.spec.template cb

  abbrev pub delete_children : Option (Sandboxer E.World) → Sandbox → Exec State Unit
  delete_children none sandbox = pure tt
  delete_children (some sandboxer) sandbox =
      or_wrap (call (sandboxer.delete sandbox)) (wrapped "failed to delete sandbox: %w" [])

  abbrev pub release_template : Option SandboxTemplate → Exec State Unit
  release_template none = pure tt
  release_template (some template) =
      or_wrap (call (unprotect_object E E.templates protect_finalizer template))
        (wrapped "failed to unprotect sandbox template: %w" [])
      >>= λ _. pure tt

  -- `handleTerminating`
  unfoldable pub handle_terminating :
      Option SandboxTemplate → Option (Sandboxer E.World) → Exec State Unit
  handle_terminating template sandboxer = do
    sandbox ← current
    delete_children sandboxer sandbox
    release_template template
    modify (λ s. set_finalizers (E.remove_finalizer s.metadata.finalizers protect_finalizer) s)
