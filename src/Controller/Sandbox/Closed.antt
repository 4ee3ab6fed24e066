-- ===== src/Controller/Sandbox/Closed.antt =====
-- kubevirt.go and dvp.go behind a feature gate that is not set, and what follows for `Reconcile`.
use sandbox_mommy.Base.{false, [], Option, none, some, ◌≡◌, refl}
use sandbox_mommy.Exec.{err, wrapped}
use sandbox_mommy.Api.{Sandbox, SandboxTemplate, SandboxTemplateSpec, SandboxType}
use sandbox_mommy.Env.{Env}
use sandbox_mommy.FeatureGate.{FeatureGate, kubevirt, dvp, enabled}
use sandbox_mommy.Sandboxer.{Sandboxer, gate_closed}
use sandbox_mommy.Sandboxer.Kubevirt.{create_vmi, delete_vmi, status_vmi, new_kubevirt_sandboxer}
use sandbox_mommy.Sandboxer.Dvp.{create_vm, delete_vm, status_vm, new_dvp_sandboxer}
use sandbox_mommy.Controller.Sandbox.Steps.{handle_terminating, new_sandboxer}

module _ (E : Env) where
  -- Every operation of the sandboxer fails with the error of the gate and leaves the world.
  pub record Closed (feature : FeatureGate) (sandboxer : Sandboxer E.World) : Type 0 where
    pub creates :
        (sandbox : Sandbox) (spec : SandboxTemplateSpec) (w : E.World)
        → sandboxer.create sandbox spec w ≡ (err (gate_closed feature), w)
    pub deletes :
        (sandbox : Sandbox) (w : E.World)
        → sandboxer.delete sandbox w ≡ (err (gate_closed feature), w)
    pub reports :
        (sandbox : Sandbox) (w : E.World)
        → sandboxer.status sandbox w ≡ (err (gate_closed feature), w)

  kubevirt-Closed : enabled E.gates kubevirt ≡ false → Closed kubevirt (new_kubevirt_sandboxer E)
  unfolding create_vmi delete_vmi status_vmi
  kubevirt-Closed off = record {
    creates = λ sandbox spec w. rw off refl;
    deletes = λ sandbox w. rw off refl;
    reports = λ sandbox w. rw off refl;
  }

  dvp-Closed : enabled E.gates dvp ≡ false → Closed dvp (new_dvp_sandboxer E)
  unfolding create_vm delete_vm status_vm
  dvp-Closed off = record {
    creates = λ sandbox spec w. rw off refl;
    deletes = λ sandbox w. rw off refl;
    reports = λ sandbox w. rw off refl;
  }

  -- The gate of a type.
  abbrev pub gate_of : SandboxType → Option FeatureGate
  gate_of SandboxType.kubevirt_vmi = some kubevirt
  gate_of SandboxType.dvp_vm = some dvp
  gate_of _ = none

  new_sandboxer-Closed :
      (type : SandboxType) (feature : FeatureGate)
      → gate_of type ≡ some feature
      → enabled E.gates feature ≡ false
      → (sandboxer : Sandboxer E.World) × (new_sandboxer E type ≡ some sandboxer)
        × Closed feature sandboxer
  new_sandboxer-Closed SandboxType.kubevirt_vmi kubevirt e off =
      (new_kubevirt_sandboxer E, refl, kubevirt-Closed off)
  new_sandboxer-Closed SandboxType.dvp_vm dvp e off = (new_dvp_sandboxer E, refl, dvp-Closed off)
  new_sandboxer-Closed SandboxType.kubevirt_vmi dvp e off = cc e
  new_sandboxer-Closed SandboxType.dvp_vm kubevirt e off = cc e
  new_sandboxer-Closed SandboxType.unset feature e off = cc e
  new_sandboxer-Closed SandboxType.pod feature e off = cc e
  new_sandboxer-Closed (SandboxType.other t) feature e off = cc e

  -- A sandbox of a type whose feature gate is not set cannot be cleaned up: `handleTerminating`
  -- returns the error of the gate and changes neither the sandbox nor the world, so that the
  -- finalizer stays on.
  pub closed_gate_blocks :
      (type : SandboxType) (feature : FeatureGate) (template : Option SandboxTemplate)
      (sandbox : Sandbox) (w : E.World)
      → gate_of type ≡ some feature
      → enabled E.gates feature ≡ false
      → handle_terminating E template (new_sandboxer E type) (sandbox, w)
        ≡ (err (wrapped "failed to delete sandbox: %w" [] (gate_closed feature)), (sandbox, w))
  unfolding handle_terminating
  closed_gate_blocks type feature template sandbox w e off =
      let (sandboxer, same, closed) = new_sandboxer-Closed type feature e off in
      rw (same, closed.deletes sandbox w) refl
