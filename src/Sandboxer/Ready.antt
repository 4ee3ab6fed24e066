-- ===== src/Sandboxer/Ready.antt =====
-- `Status` and `NewSandboxer`: when a sandbox counts as ready, and which sandboxer runs it.
use sandbox_mommy.Base.{String, List, Option, none, some, ◌≡◌, ◌≢◌, ◌↔◌, refl, arith}
use sandbox_mommy.Api.{
  SandboxTemplateSpec, SandboxVolumeSpec, SandboxType, Pod, PodPhase, VirtualMachineInstance,
  VmiPhase, VirtualMachine, MachinePhase, condition_true, condition_false, PodSpec, VmiSpec, VmSpec,
}
use sandbox_mommy.Env.{Env}
use sandbox_mommy.Common.{detect, detect_sandbox_type}
use sandbox_mommy.Sandboxer.{outcome_of}
use sandbox_mommy.Sandboxer.Pod.{pod_condition, get_reason_from_pod_phase}
use sandbox_mommy.Sandboxer.Kubevirt.{vmi_condition, get_reason_from_kubevirt_vmi_phase}
use sandbox_mommy.Sandboxer.Dvp.{vm_condition, get_reason_from_dvp_vm_phase}

-- The object is there in the given phase.
abbrev pub Runs : {O P : Type 0} → (O → P) → P → Option O → Type 0
Runs phase p none = ⊥
Runs phase p (some o) = phase o ≡ p

pod_runs :
    (phase : PodPhase) (message : String)
    → ((outcome_of (get_reason_from_pod_phase phase) message).0 ≡ condition_true)
      ↔ (phase ≡ PodPhase.running)
pod_runs PodPhase.running message = ground arith
pod_runs PodPhase.pending message = ground arith
pod_runs PodPhase.succeeded message = ground arith
pod_runs PodPhase.failed message = ground arith
pod_runs PodPhase.unknown message = ground arith
pod_runs (PodPhase.other p) message = ground arith

vmi_runs :
    (phase : VmiPhase) (message : String)
    → ((outcome_of (get_reason_from_kubevirt_vmi_phase phase) message).0 ≡ condition_true)
      ↔ (phase ≡ VmiPhase.running)
vmi_runs VmiPhase.phase_unset message = ground arith
vmi_runs VmiPhase.pending message = ground arith
vmi_runs VmiPhase.scheduling message = ground arith
vmi_runs VmiPhase.scheduled message = ground arith
vmi_runs VmiPhase.running message = ground arith
vmi_runs VmiPhase.succeeded message = ground arith
vmi_runs VmiPhase.failed message = ground arith
vmi_runs VmiPhase.unknown message = ground arith
vmi_runs (VmiPhase.other p) message = ground arith

vm_runs :
    (phase : MachinePhase) (message : String)
    → ((outcome_of (get_reason_from_dvp_vm_phase phase) message).0 ≡ condition_true)
      ↔ (phase ≡ MachinePhase.running)
vm_runs MachinePhase.pending message = ground arith
vm_runs MachinePhase.running message = ground arith
vm_runs MachinePhase.terminating message = ground arith
vm_runs MachinePhase.stopped message = ground arith
vm_runs MachinePhase.stopping message = ground arith
vm_runs MachinePhase.starting message = ground arith
vm_runs MachinePhase.migrating message = ground arith
vm_runs MachinePhase.pause message = ground arith
vm_runs MachinePhase.degraded message = ground arith
vm_runs (MachinePhase.other p) message = ground arith

absent_runs : (condition_false ≡ condition_true) ↔ ⊥
absent_runs = (λ e. cc e, λ e. absurd e)

module _ (E : Env) where
  pod_ready :
      (o : Option Pod)
      → ((pod_condition E o).0 ≡ condition_true) ↔ Runs (λ p. p.status.phase) PodPhase.running o
  pod_ready none = absent_runs
  pod_ready (some o) = pod_runs o.status.phase o.status.message

  vmi_ready :
      (o : Option VirtualMachineInstance)
      → ((vmi_condition E o).0 ≡ condition_true) ↔ Runs (λ v. v.status.phase) VmiPhase.running o
  vmi_ready none = absent_runs
  vmi_ready (some o) = vmi_runs o.status.phase _

  vm_ready :
      (o : Option VirtualMachine)
      → ((vm_condition E o).0 ≡ condition_true) ↔ Runs (λ v. v.status.phase) MachinePhase.running o
  vm_ready none = absent_runs
  vm_ready (some o) = vm_runs o.status.phase _

  -- The condition made of a pod, a virtual machine instance or a virtual machine is true exactly
  -- where the object is there and its phase is running.
  pub ready_iff_Runs :
      (p : Option Pod) (i : Option VirtualMachineInstance) (m : Option VirtualMachine)
      → (((pod_condition E p).0 ≡ condition_true) ↔ Runs (λ o. o.status.phase) PodPhase.running p)
        × (((vmi_condition E i).0 ≡ condition_true) ↔ Runs (λ o. o.status.phase) VmiPhase.running i)
        × (((vm_condition E m).0 ≡ condition_true)
            ↔ Runs (λ o. o.status.phase) MachinePhase.running m)
  ready_iff_Runs p i m = (pod_ready p, vmi_ready i, vm_ready m)

-- Whether the template has the spec that a sandbox of the type runs.
abbrev pub HasSpec : SandboxTemplateSpec → SandboxType → Type 0
HasSpec spec SandboxType.pod = spec.pod_spec ≢ none
HasSpec spec SandboxType.kubevirt_vmi = spec.kubevirt_vmi_spec ≢ none
HasSpec spec SandboxType.dvp_vm = spec.dvp_vm_spec ≢ none
HasSpec spec SandboxType.unset =
    (spec.pod_spec ≡ none) × (spec.kubevirt_vmi_spec ≡ none) × (spec.dvp_vm_spec ≡ none)
HasSpec spec (SandboxType.other _) = ⊥

-- The type detected for a template is one whose spec the template has; it is unset only for a
-- template that has none of the three.
pub detect_sandbox_type-HasSpec :
    (spec : SandboxTemplateSpec) → HasSpec spec (detect_sandbox_type (some spec))
detect_sandbox_type-HasSpec spec =
    go spec.pod_spec spec.kubevirt_vmi_spec spec.dvp_vm_spec spec.volumes
  where
    go :
        (p : Option PodSpec) (k : Option VmiSpec) (d : Option VmSpec) (vs : List SandboxVolumeSpec)
        → let spec' : SandboxTemplateSpec = record {
          pod_spec = p;
          kubevirt_vmi_spec = k;
          dvp_vm_spec = d;
          volumes = vs;
        } in
          HasSpec spec' (detect p k d)
    go (some p) k d vs = λ e. cc e
    go none (some k) d vs = λ e. cc e
    go none none (some d) vs = λ e. cc e
    go none none none vs = (refl, refl, refl)
