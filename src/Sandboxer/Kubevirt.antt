-- ===== src/Sandboxer/Kubevirt.antt =====
-- internal/controller/sandbox/kubevirt.go
pub mod Renames
pub mod Laws
pub mod Steady
pub mod Creation
use sandbox_mommy.Base.{
  String, ◌<>◌, string_eq, List, [], ◌∷◌, map, Option, none, some, contains, ◌!=◌, if◌then◌else◌,
}
use sandbox_mommy.Exec.{Exec, message, raise, pure, or_wrap, ◌>>=◌, ◌>>◌}
use sandbox_mommy.Api.{
  object_key, Opaque, Reason, reason_eq, VirtualMachineInstance, VmiSpec, VmiPhase, VmiVolume,
  DataVolumeSource, Disk, DataVolume, PersistentVolumeClaim, Sandbox, SandboxTemplateSpec,
  SandboxVolumeSpec, ConditionStatus, condition_false,
}
use sandbox_mommy.FeatureGate.{kubevirt, enabled}
use sandbox_mommy.Env.{Env}
use sandbox_mommy.Sandboxer.{
  Sandboxer, main_key, key_string, owned_meta, list_controlled, find, create_missing, delete_all,
  delete_found, outcome_of, name_of, messages, join, gate_closed,
}
use sandbox_mommy.Sandboxer.Pvc.{
  get_full_pvc_name, make_persistent_volume_claims, create_pvcs, delete_pvcs,
}
use sandbox_mommy.Common.{get_full_name}

-- `mapKubevirtVMIToSandboxReadyReason`, a lookup that fails being none.
abbrev pub map_kubevirt_vmi_to_sandbox_ready_reason : VmiPhase → Option Reason
map_kubevirt_vmi_to_sandbox_ready_reason VmiPhase.phase_unset = some Reason.pending
map_kubevirt_vmi_to_sandbox_ready_reason VmiPhase.pending = some Reason.pending
map_kubevirt_vmi_to_sandbox_ready_reason VmiPhase.scheduling = some Reason.pending
map_kubevirt_vmi_to_sandbox_ready_reason VmiPhase.scheduled = some Reason.pending
map_kubevirt_vmi_to_sandbox_ready_reason VmiPhase.running = some Reason.ready
map_kubevirt_vmi_to_sandbox_ready_reason VmiPhase.succeeded = some Reason.failed
map_kubevirt_vmi_to_sandbox_ready_reason VmiPhase.failed = some Reason.failed
map_kubevirt_vmi_to_sandbox_ready_reason VmiPhase.unknown = some Reason.failed
map_kubevirt_vmi_to_sandbox_ready_reason (VmiPhase.other _) = none

abbrev pub get_reason_from_kubevirt_vmi_phase : VmiPhase → Reason
get_reason_from_kubevirt_vmi_phase phase = elim (map_kubevirt_vmi_to_sandbox_ready_reason phase) [
  | none ↦ Reason.pending
  | some r ↦ r
]

abbrev pub dv_name_prefix : String
dv_name_prefix = "sandbox-dv-"

unfoldable pub get_full_dv_name : String → Sandbox → String
get_full_dv_name name sandbox = dv_name_prefix <> sandbox.metadata.uid <> "-" <> name

module _ (dvs_map pvcs_map : List String) (sandbox : Sandbox) where
  abbrev pub mutate_data_volume : Option DataVolumeSource → Option DataVolumeSource
  mutate_data_volume none = none
  mutate_data_volume (some source) =
      let full_name = get_full_dv_name source.name sandbox in
      some (if contains dvs_map full_name then record source { name = full_name } else source)

  -- The branch on the claim looks the full name up and changes nothing.
  abbrev pub mutate_vmi_volume : VmiVolume → VmiVolume
  mutate_vmi_volume v = record v { data_volume = mutate_data_volume v.data_volume }

  -- The second test sets the name over again.
  abbrev pub mutate_disk : Disk → Disk
  mutate_disk d = elim d.disk [
    | none ↦ d
    | some _ ↦
        let full_dv_name = get_full_dv_name d.name sandbox in
        let d' = if contains dvs_map full_dv_name then record d { name = full_dv_name } else d in
        let full_pvc_name = get_full_pvc_name d.name sandbox in
        if contains pvcs_map full_pvc_name then record d' { name = full_pvc_name } else d'
  ]

-- The object that is returned is a new one: the source changes it in place, through slices and
-- pointers that it shares with the spec of the template.
abbrev pub mutate_kubevirt_vmi_volumes :
    Sandbox
    → VirtualMachineInstance
    → List DataVolume
    → List PersistentVolumeClaim
    → VirtualMachineInstance
mutate_kubevirt_vmi_volumes sandbox vmi dvs pvcs =
    let dvs_map = map name_of dvs in
    let pvcs_map = map name_of pvcs in
    record vmi {
      spec = record vmi.spec {
        volumes = map (mutate_vmi_volume dvs_map pvcs_map sandbox) vmi.spec.volumes;
        disks = map (mutate_disk dvs_map pvcs_map sandbox) vmi.spec.disks;
      };
    }

module _ (E : Env) where
  abbrev pub new_data_volume : Sandbox → String → Opaque → DataVolume
  new_data_volume sandbox name spec = record {
    type_meta = record { kind = "DataVolume"; api_version = "cdi.kubevirt.io/v1beta1" };
    metadata = owned_meta E sandbox (get_full_dv_name name sandbox);
    spec = spec;
    status = record { text = "" };
  }

  -- The loop of `makeDataVolumes`.
  abbrev pub data_volumes_of : Sandbox → List SandboxVolumeSpec → List DataVolume
  data_volumes_of sandbox [] = []
  data_volumes_of sandbox (v ∷ vs) = elim v.data_volume_spec [
    | none ↦ data_volumes_of sandbox vs
    | some spec ↦ new_data_volume sandbox v.name spec ∷ data_volumes_of sandbox vs
  ]

  abbrev pub make_data_volumes : Sandbox → SandboxTemplateSpec → List DataVolume
  make_data_volumes sandbox template_spec = data_volumes_of sandbox template_spec.volumes

  abbrev pub new_kubevirt_vmi : Sandbox → VmiSpec → VirtualMachineInstance
  new_kubevirt_vmi sandbox spec = record {
    type_meta = record { kind = "VirtualMachineInstance"; api_version = "kubevirt.io/v1" };
    metadata = owned_meta E sandbox (get_full_name sandbox);
    spec = spec;
    status = record { phase = VmiPhase.phase_unset; conditions = [] };
  }

  unfoldable pub get_vmi : Sandbox → Exec E.World (Option VirtualMachineInstance)
  get_vmi sandbox = find E E.vmis "failed to get VirtualMachineInstance %w" (main_key sandbox)

  unfoldable pub get_dvs : Sandbox → Exec E.World (List DataVolume)
  get_dvs sandbox = list_controlled E E.data_volumes "failed to list VirtualDisks %w" sandbox

  -- The virtual machine instance that `Create` makes from the template.
  abbrev pub vmi_of : Sandbox → SandboxTemplateSpec → VmiSpec → VirtualMachineInstance
  vmi_of sandbox template_spec spec =
      mutate_kubevirt_vmi_volumes sandbox (new_kubevirt_vmi sandbox spec)
        (make_data_volumes sandbox template_spec)
        (make_persistent_volume_claims E sandbox template_spec)

  -- `Create` after the volumes, by whether the instance exists.
  abbrev pub ensure_vmi :
      Sandbox → SandboxTemplateSpec → Option VirtualMachineInstance → Exec E.World Unit
  ensure_vmi sandbox template_spec (some vmi) =
      if get_reason_from_kubevirt_vmi_phase vmi.status.phase != Reason.failed
      then pure tt
      else E.vmis.delete vmi
  ensure_vmi sandbox template_spec none = elim template_spec.kubevirt_vmi_spec [
    | none ↦ pure tt
    | some spec ↦
        let vmi = vmi_of sandbox template_spec spec in
        or_wrap (E.vmis.create vmi) (λ _.
          message "failed to create virtual machine instance %q" (key_string (object_key vmi) ∷ []))
  ]

  unfoldable pub create_vmi : Sandbox → SandboxTemplateSpec → Exec E.World Unit
  create_vmi sandbox template_spec =
      if enabled E.gates kubevirt
      then (do
        existing ← get_dvs sandbox
        create_missing E E.data_volumes "failed to create data volume %q" (map object_key existing)
            (make_data_volumes sandbox template_spec)
        create_pvcs E sandbox (make_persistent_volume_claims E sandbox template_spec)
        vmi ← get_vmi sandbox
        ensure_vmi sandbox template_spec vmi)
      else raise (gate_closed kubevirt)

  unfoldable pub delete_vmi : Sandbox → Exec E.World Unit
  delete_vmi sandbox =
      if enabled E.gates kubevirt
      then (do
        vmi ← get_vmi sandbox
        delete_found E E.vmis "failed to delete virtual machine instance %q" vmi
        dvs ← get_dvs sandbox
        delete_all E E.data_volumes "failed to delete data volume %q" dvs
        delete_pvcs E sandbox)
      else raise (gate_closed kubevirt)

  abbrev pub vmi_condition : Option VirtualMachineInstance → ConditionStatus × Reason × String
  vmi_condition none = (condition_false, Reason.pending, "")
  vmi_condition (some vmi) =
      outcome_of (get_reason_from_kubevirt_vmi_phase vmi.status.phase)
        (join (messages vmi.status.conditions) "\n")

  unfoldable pub status_vmi : Sandbox → Exec E.World (ConditionStatus × Reason × String)
  status_vmi sandbox =
      if enabled E.gates kubevirt
      then (do vmi ← get_vmi sandbox; pure (vmi_condition vmi))
      else raise (gate_closed kubevirt)

  abbrev pub new_kubevirt_sandboxer : Sandboxer E.World
  new_kubevirt_sandboxer = record { create = create_vmi; delete = delete_vmi; status = status_vmi }
