-- ===== src/Sandboxer/Pod.antt =====
-- internal/controller/sandbox/pod.go
pub mod Renames
pub mod Laws
pub mod Steady
use sandbox_mommy.Base.{
  String, string_eq, List, [], ◌∷◌, map, Option, none, some, contains, ◌!=◌, if◌then◌else◌,
}
use sandbox_mommy.Exec.{Exec, message, pure, or_wrap, ◌>>=◌, ◌>>◌}
use sandbox_mommy.Api.{
  object_key, Reason, reason_eq, Pod, PodSpec, PodPhase, PodVolume, PvcSource, Container,
  VolumeMount, PersistentVolumeClaim, Sandbox, SandboxTemplateSpec, ConditionStatus,
  condition_false,
}
use sandbox_mommy.Env.{Env}
use sandbox_mommy.Sandboxer.{
  Sandboxer, main_key, key_string, owned_meta, find, delete_found, outcome_of, name_of,
}
use sandbox_mommy.Sandboxer.Pvc.{
  get_full_pvc_name, make_persistent_volume_claims, create_pvcs, delete_pvcs,
}
use sandbox_mommy.Common.{get_full_name}

-- `mapPodToSandboxReadyReason`, a lookup that fails being none.
abbrev pub map_pod_to_sandbox_ready_reason : PodPhase → Option Reason
map_pod_to_sandbox_ready_reason PodPhase.pending = some Reason.pending
map_pod_to_sandbox_ready_reason PodPhase.running = some Reason.ready
map_pod_to_sandbox_ready_reason PodPhase.failed = some Reason.failed
map_pod_to_sandbox_ready_reason PodPhase.succeeded = some Reason.failed
map_pod_to_sandbox_ready_reason PodPhase.unknown = some Reason.failed
map_pod_to_sandbox_ready_reason (PodPhase.other _) = none

abbrev pub get_reason_from_pod_phase : PodPhase → Reason
get_reason_from_pod_phase phase = elim (map_pod_to_sandbox_ready_reason phase) [
  | none ↦ Reason.pending
  | some r ↦ r
]

module _ (pvcs_map : List String) (sandbox : Sandbox) where
  abbrev pub mutate_claim : Option PvcSource → Option PvcSource
  mutate_claim none = none
  mutate_claim (some source) =
      let full_name = get_full_pvc_name source.claim_name sandbox in
      some
        (if contains pvcs_map full_name then record source { claim_name = full_name } else source)

  abbrev pub mutate_volume : PodVolume → PodVolume
  mutate_volume v = record v { persistent_volume_claim = mutate_claim v.persistent_volume_claim }

  abbrev pub mutate_mount : VolumeMount → VolumeMount
  mutate_mount mount =
      let full_name = get_full_pvc_name mount.name sandbox in
      if contains pvcs_map full_name then record mount { name = full_name } else mount

  abbrev pub mutate_container : Container → Container
  mutate_container ctr = record ctr { volume_mounts = map mutate_mount ctr.volume_mounts }

-- The object that is returned is a new one: the source changes it in place, through slices and
-- pointers that it shares with the spec of the template.
abbrev pub mutate_pod_pvcs : Sandbox → Pod → List PersistentVolumeClaim → Pod
mutate_pod_pvcs sandbox pod pvcs =
    let pvcs_map = map name_of pvcs in
    record pod {
      spec = record pod.spec {
        volumes = map (mutate_volume pvcs_map sandbox) pod.spec.volumes;
        containers = map (mutate_container pvcs_map sandbox) pod.spec.containers;
      };
    }

module _ (E : Env) where
  abbrev pub new_pod : Sandbox → PodSpec → Pod
  new_pod sandbox spec = record {
    type_meta = record { kind = "Pod"; api_version = "v1" };
    metadata = owned_meta E sandbox (get_full_name sandbox);
    spec = spec;
    status = record { phase = PodPhase.other ""; message = "" };
  }

  unfoldable pub get_pod : Sandbox → Exec E.World (Option Pod)
  get_pod sandbox = find E E.pods "failed to get pod %w" (main_key sandbox)

  -- The pod that `Create` makes from the template.
  abbrev pub pod_of : Sandbox → SandboxTemplateSpec → PodSpec → Pod
  pod_of sandbox template_spec spec =
      mutate_pod_pvcs sandbox (new_pod sandbox spec)
        (make_persistent_volume_claims E sandbox template_spec)

  -- `Create` after the claims, by whether the pod exists: a failed pod is deleted, so that the
  -- next reconciliation makes a new one.
  abbrev pub ensure_pod : Sandbox → SandboxTemplateSpec → Option Pod → Exec E.World Unit
  ensure_pod sandbox template_spec (some pod) =
      if get_reason_from_pod_phase pod.status.phase != Reason.failed
      then pure tt
      else E.pods.delete pod
  ensure_pod sandbox template_spec none = elim template_spec.pod_spec [
    | none ↦ pure tt
    | some spec ↦
        let pod = pod_of sandbox template_spec spec in
        or_wrap (E.pods.create pod)
          (λ _. message "failed to create pod %q" (key_string (object_key pod) ∷ []))
  ]

  unfoldable pub create_pod : Sandbox → SandboxTemplateSpec → Exec E.World Unit
  create_pod sandbox template_spec = do
    create_pvcs E sandbox (make_persistent_volume_claims E sandbox template_spec)
    pod ← get_pod sandbox
    ensure_pod sandbox template_spec pod

  unfoldable pub delete_pod : Sandbox → Exec E.World Unit
  delete_pod sandbox = do
    pod ← get_pod sandbox
    delete_found E E.pods "failed to delete pod %q" pod
    delete_pvcs E sandbox

  -- The `switch` of `Status`.
  abbrev pub pod_condition : Option Pod → ConditionStatus × Reason × String
  pod_condition none = (condition_false, Reason.pending, "")
  pod_condition (some pod) =
      outcome_of (get_reason_from_pod_phase pod.status.phase) pod.status.message

  unfoldable pub status_pod : Sandbox → Exec E.World (ConditionStatus × Reason × String)
  status_pod sandbox = do pod ← get_pod sandbox; pure (pod_condition pod)

  abbrev pub new_pod_sandboxer : Sandboxer E.World
  new_pod_sandboxer = record { create = create_pod; delete = delete_pod; status = status_pod }
