-- ===== src/Controller/Watches.antt =====
-- internal/controller/sandbox/sandbox_reconciler.go, Setup: which changes in the cluster make a
-- sandbox be reconciled.
use sandbox_mommy.Base.{
  String, ◌≡◌, refl, ◌⊎◌, inl, inr, Bool, false, some, List, [], ◌∷◌, ◌++◌, Eq, ◌!=◌,
  String-discrete, if◌then◌else◌, arith,
}
use sandbox_mommy.Api.{
  ConditionStatus, Reason, Pod, PodPhase, VirtualMachineInstance, VmiPhase, VirtualMachine,
  MachinePhase,
}
use sandbox_mommy.FeatureGate.{kubevirt, dvp, enabled}
use sandbox_mommy.Env.{Env}
use sandbox_mommy.Sandboxer.{outcome_of}
use sandbox_mommy.Sandboxer.Pod.{pod_condition, get_reason_from_pod_phase}
use sandbox_mommy.Sandboxer.Kubevirt.{vmi_condition, get_reason_from_kubevirt_vmi_phase}
use sandbox_mommy.Sandboxer.Dvp.{vm_condition, get_reason_from_dvp_vm_phase}

unfoldable pub PodPhase-discrete : Discrete PodPhase
PodPhase-discrete = hlevel String-discrete

unfoldable pub VmiPhase-discrete : Discrete VmiPhase
VmiPhase-discrete = hlevel String-discrete

unfoldable pub MachinePhase-discrete : Discrete MachinePhase
MachinePhase-discrete = hlevel String-discrete

instance unfoldable pub pod_phase_eq : Eq PodPhase
unfolding PodPhase-discrete
pod_phase_eq = record { dec = PodPhase-discrete }

instance unfoldable pub vmi_phase_eq : Eq VmiPhase
unfolding VmiPhase-discrete
vmi_phase_eq = record { dec = VmiPhase-discrete }

instance unfoldable pub machine_phase_eq : Eq MachinePhase
unfolding MachinePhase-discrete
machine_phase_eq = record { dec = MachinePhase-discrete }

-- The kinds of children that are watched.
pub data Watch : Type 0 where
  watch_pods watch_vmis watch_vms : Watch

abbrev pub watches : List String → List Watch
watches gates =
    watch_pods ∷ (if enabled gates kubevirt then watch_vmis ∷ [] else [])
    ++ (if enabled gates dvp then watch_vms ∷ [] else [])

-- An update of a child: the old object and the new one.
pub data Update : Type 0 where
  pod_update : Pod → Pod → Update
  vmi_update : VirtualMachineInstance → VirtualMachineInstance → Update
  vm_update : VirtualMachine → VirtualMachine → Update

-- `UpdateFunc` of the predicates.
abbrev pub is_wanted : Update → Bool
is_wanted (pod_update old new) = old.status.phase != new.status.phase
is_wanted (vmi_update old new) = old.status.phase != new.status.phase
is_wanted (vm_update old new) = old.status.phase != new.status.phase

abbrev pub Outcome : Type 0
Outcome = ConditionStatus × Reason × String

module _ (E : Env) where
  -- What the sandboxers report at the old and at the new object.
  abbrev pub before_update : Update → Outcome
  before_update (pod_update old new) = pod_condition E (some old)
  before_update (vmi_update old new) = vmi_condition E (some old)
  before_update (vm_update old new) = vm_condition E (some old)

  abbrev pub after_update : Update → Outcome
  after_update (pod_update old new) = pod_condition E (some new)
  after_update (vmi_update old new) = vmi_condition E (some new)
  after_update (vm_update old new) = vm_condition E (some new)

-- The status and the reason are the same, and but for a failed child the message too.
abbrev pub Same : Outcome → Outcome → Type 0
Same a b = (a.0 ≡ b.0) × (a.1 ≡ b.1) × ((a.1 ≡ Reason.failed) ⊎ (a.2 ≡ b.2))

outcome-Same : (r : Reason) (m n : String) → Same (outcome_of r m) (outcome_of r n)
outcome-Same Reason.ready m n = (refl, refl, inr refl)
outcome-Same Reason.pending m n = (refl, refl, inr refl)
outcome-Same Reason.failed m n = (refl, refl, inl refl)
outcome-Same Reason.terminating m n = (refl, refl, inr refl)

not_changed : {A : Type 0} ⦃e : Eq A⦄ (a b : A) → (a != b) ≡ false → a ≡ b
not_changed a b h = ground arith

-- An update that the watch drops changes nothing that the sandboxer reports of the child: not the
-- status, not the reason, and the message only where the child has failed.
pub dropped-Same :
    (E : Env) (u : Update) → is_wanted u ≡ false → Same (before_update E u) (after_update E u)
dropped-Same E (pod_update old new) h =
    rw (not_changed old.status.phase new.status.phase h)
      (outcome-Same (get_reason_from_pod_phase new.status.phase) _ _)
dropped-Same E (vmi_update old new) h =
    rw (not_changed old.status.phase new.status.phase h)
      (outcome-Same (get_reason_from_kubevirt_vmi_phase new.status.phase) _ _)
dropped-Same E (vm_update old new) h =
    rw (not_changed old.status.phase new.status.phase h)
      (outcome-Same (get_reason_from_dvp_vm_phase new.status.phase) _ _)
