-- ===== src/Sandboxer/Dvp.antt =====
-- internal/controller/sandbox/dvp.go
pub mod Renames
pub mod Laws
pub mod Steady
use sandbox_mommy.Base.{
  String, ◌<>◌, string_eq, Bool, true, false, ◌&&◌, List, [], ◌∷◌, map, Option, none, some,
  contains, ◌!=◌, if◌then◌else◌,
}
use sandbox_mommy.Exec.{Exec, message, raise, pure, or_wrap, ◌>>=◌, ◌>>◌}
use sandbox_mommy.Api.{
  object_key, Opaque, Reason, reason_eq, VirtualMachine, VmSpec, MachinePhase, DeviceKind,
  virtual_disk, BlockDeviceRef, VirtualDisk, Sandbox, SandboxTemplateSpec, SandboxVolumeSpec,
  ConditionStatus, condition_false,
}
use sandbox_mommy.FeatureGate.{dvp, enabled}
use sandbox_mommy.Env.{Env}
use sandbox_mommy.Sandboxer.{
  Sandboxer, main_key, key_string, owned_meta, list_controlled, find, create_missing, delete_all,
  delete_found, outcome_of, name_of, messages, join, gate_closed,
}
use sandbox_mommy.Common.{get_full_name}

-- `mapDVPVMToSandboxReadyReason`, a lookup that fails being none.
abbrev pub map_dvp_vm_to_sandbox_ready_reason : MachinePhase → Option Reason
map_dvp_vm_to_sandbox_ready_reason MachinePhase.pending = some Reason.pending
map_dvp_vm_to_sandbox_ready_reason MachinePhase.running = some Reason.ready
map_dvp_vm_to_sandbox_ready_reason MachinePhase.terminating = some Reason.failed
map_dvp_vm_to_sandbox_ready_reason MachinePhase.stopped = some Reason.failed
map_dvp_vm_to_sandbox_ready_reason MachinePhase.stopping = some Reason.failed
map_dvp_vm_to_sandbox_ready_reason MachinePhase.starting = some Reason.pending
map_dvp_vm_to_sandbox_ready_reason MachinePhase.migrating = some Reason.pending
map_dvp_vm_to_sandbox_ready_reason MachinePhase.pause = some Reason.failed
map_dvp_vm_to_sandbox_ready_reason MachinePhase.degraded = some Reason.failed
map_dvp_vm_to_sandbox_ready_reason (MachinePhase.other _) = none

abbrev pub get_reason_from_dvp_vm_phase : MachinePhase → Reason
get_reason_from_dvp_vm_phase phase = elim (map_dvp_vm_to_sandbox_ready_reason phase) [
  | none ↦ Reason.pending
  | some r ↦ r
]

abbrev pub vd_name_prefix : String
vd_name_prefix = "sandbox-vd-"

unfoldable pub get_full_vd_name : String → Sandbox → String
get_full_vd_name name sandbox = vd_name_prefix <> sandbox.metadata.uid <> "-" <> name

abbrev is_virtual_disk : DeviceKind → Bool
is_virtual_disk virtual_disk = true
is_virtual_disk _ = false

module _ (vds_map : List String) (sandbox : Sandbox) where
  abbrev pub mutate_ref : BlockDeviceRef → BlockDeviceRef
  mutate_ref ref =
      let full_name = get_full_vd_name ref.name sandbox in
      if is_virtual_disk ref.kind && contains vds_map full_name
      then record ref { name = full_name }
      else ref

-- The object that is returned is a new one: the source changes it in place, through slices and
-- pointers that it shares with the spec of the template.
abbrev pub mutate_dvp_vm_volumes : Sandbox → VirtualMachine → List VirtualDisk → VirtualMachine
mutate_dvp_vm_volumes sandbox vm vds = record vm {
  spec = record vm.spec {
    block_device_refs = map (mutate_ref (map name_of vds) sandbox) vm.spec.block_device_refs;
  };
}

module _ (E : Env) where
  abbrev pub new_virtual_disk : Sandbox → String → Opaque → VirtualDisk
  new_virtual_disk sandbox name spec = record {
    type_meta = record {
      kind = "VirtualDisk";
      api_version = "virtualization.deckhouse.io/v1alpha2";
    };
    metadata = owned_meta E sandbox (get_full_vd_name name sandbox);
    spec = spec;
    status = record { text = "" };
  }

  -- The loop of `makeVirtualDisks`.
  abbrev pub disks_of : Sandbox → List SandboxVolumeSpec → List VirtualDisk
  disks_of sandbox [] = []
  disks_of sandbox (v ∷ vs) = elim v.virtual_disk_spec [
    | none ↦ disks_of sandbox vs
    | some spec ↦ new_virtual_disk sandbox v.name spec ∷ disks_of sandbox vs
  ]

  abbrev pub make_virtual_disks : Sandbox → SandboxTemplateSpec → List VirtualDisk
  make_virtual_disks sandbox template_spec = disks_of sandbox template_spec.volumes

  abbrev pub new_dvp_vm : Sandbox → VmSpec → VirtualMachine
  new_dvp_vm sandbox spec = record {
    type_meta = record {
      kind = "VirtualMachine";
      api_version = "virtualization.deckhouse.io/v1alpha2";
    };
    metadata = owned_meta E sandbox (get_full_name sandbox);
    spec = spec;
    status = record { phase = MachinePhase.other ""; conditions = [] };
  }

  unfoldable pub get_vm : Sandbox → Exec E.World (Option VirtualMachine)
  get_vm sandbox = find E E.vms "failed to get VirtualMachine %w" (main_key sandbox)

  unfoldable pub get_vds : Sandbox → Exec E.World (List VirtualDisk)
  get_vds sandbox = list_controlled E E.virtual_disks "failed to list VirtualDisks %w" sandbox

  -- The virtual machine that `Create` makes from the template.
  abbrev pub vm_of : Sandbox → SandboxTemplateSpec → VmSpec → VirtualMachine
  vm_of sandbox template_spec spec =
      mutate_dvp_vm_volumes sandbox (new_dvp_vm sandbox spec)
        (make_virtual_disks sandbox template_spec)

  -- `Create` after the disks, by whether the machine exists.
  abbrev pub ensure_vm : Sandbox → SandboxTemplateSpec → Option VirtualMachine → Exec E.World Unit
  ensure_vm sandbox template_spec (some vm) =
      if get_reason_from_dvp_vm_phase vm.status.phase != Reason.failed
      then pure tt
      else E.vms.delete vm
  ensure_vm sandbox template_spec none = elim template_spec.dvp_vm_spec [
    | none ↦ pure tt
    | some spec ↦
        let vm = vm_of sandbox template_spec spec in
        or_wrap (E.vms.create vm)
          (λ _. message "failed to create virtual machine %q" (key_string (object_key vm) ∷ []))
  ]

  unfoldable pub create_vm : Sandbox → SandboxTemplateSpec → Exec E.World Unit
  create_vm sandbox template_spec =
      if enabled E.gates dvp
      then (do
        existing ← get_vds sandbox
        create_missing E E.virtual_disks "failed to create pvc %q" (map object_key existing)
            (make_virtual_disks sandbox template_spec)
        vm ← get_vm sandbox
        ensure_vm sandbox template_spec vm)
      else raise (gate_closed dvp)

  unfoldable pub delete_vm : Sandbox → Exec E.World Unit
  delete_vm sandbox =
      if enabled E.gates dvp
      then (do
        vm ← get_vm sandbox
        delete_found E E.vms "failed to delete virtual machine %q" vm
        vds ← get_vds sandbox
        delete_all E E.virtual_disks "failed to delete virtual disk %q" vds)
      else raise (gate_closed dvp)

  abbrev pub vm_condition : Option VirtualMachine → ConditionStatus × Reason × String
  vm_condition none = (condition_false, Reason.pending, "")
  vm_condition (some vm) =
      outcome_of (get_reason_from_dvp_vm_phase vm.status.phase)
        (join (messages vm.status.conditions) "\n")

  unfoldable pub status_vm : Sandbox → Exec E.World (ConditionStatus × Reason × String)
  status_vm sandbox =
      if enabled E.gates dvp
      then (do vm ← get_vm sandbox; pure (vm_condition vm))
      else raise (gate_closed dvp)

  abbrev pub new_dvp_sandboxer : Sandboxer E.World
  new_dvp_sandboxer = record { create = create_vm; delete = delete_vm; status = status_vm }
