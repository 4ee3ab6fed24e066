-- ===== src/Tests/Naming.antt =====
-- The names, the webhooks, the patches and the finalizers at concrete data.
use sandbox_mommy.Base.{
  String, string_eq, ◌==◌, true, false, [], ◌∷◌, map, none, some, Elem, ◌≡◌, ◌↔◌, refl, arith, inl,
  inr,
}
use sandbox_mommy.Api.{
  Sandbox, virtual_disk, ObjectMeta, Pod, VirtualMachineInstance, VmiPhase, VirtualMachine,
  MachinePhase, PodPhase, condition_true, PodVolume, VolumeMount, protect_finalizer,
}
use sandbox_mommy.Sandboxer.{name_of}
use sandbox_mommy.Sandboxer.Names.{declares_claim}
use sandbox_mommy.Sandboxer.Pvc.{make_persistent_volume_claims, get_full_pvc_name}
use sandbox_mommy.Sandboxer.Pod.{new_pod, pod_condition, mutate_pod_pvcs, mutate_mount}
use sandbox_mommy.Sandboxer.Pod.Renames.{
  mutate_pod_pvcs-eq-renamed, renamed_volume, renamed_container, mounts-dangle,
}
use sandbox_mommy.Sandboxer.Ready.{Runs, ready_iff_Runs}
use sandbox_mommy.Sandboxer.Kubevirt.Renames.{
  renamed_volume as vmi_volume_renamed, renamed_disk, mutate_kubevirt_vmi_volumes-eq-renamed,
}
use sandbox_mommy.Sandboxer.Dvp.Renames.{renamed_ref, mutate_dvp_vm_volumes-eq-renamed}
use sandbox_mommy.Sandboxer.Kubevirt.{
  mutate_kubevirt_vmi_volumes, new_kubevirt_vmi, make_data_volumes, vmi_condition,
}
use sandbox_mommy.Sandboxer.Dvp.{
  mutate_dvp_vm_volumes, new_dvp_vm, make_virtual_disks, vm_condition,
}
use sandbox_mommy.Patch.Pointer.{escape_json_pointer_lem, read_pointer, has_slash}
use sandbox_mommy.Patch.{escape_json_pointer}
use sandbox_mommy.Patch.Apply.{apply_all}
use sandbox_mommy.Updater.{metadata_patch}
use sandbox_mommy.Updater.Patches.{metadata_patch_applies, metadata_patch_conflicts, updated_map}
use sandbox_mommy.Tests.Cluster.{cluster, sandbox, template_spec, meta}

abbrev one_pod : Pod
one_pod = new_pod cluster sandbox (record {
  volumes =
      record {
        name = "home";
        persistent_volume_claim = some (record { claim_name = "home"; read_only = false });
        rest = "";
      }
      ∷ [];
  containers =
      record {
        name = "main";
        volume_mounts = record { name = "home"; rest = "/home" } ∷ [];
        rest = "";
      }
      ∷ [];
  rest = "";
})

abbrev home_mount : VolumeMount
home_mount = record { name = "home"; rest = "/home" }

mutate_pod_pvcs-eq-renamed_example :
    mutate_pod_pvcs sandbox one_pod (make_persistent_volume_claims cluster sandbox template_spec)
    ≡ record one_pod {
      spec = record one_pod.spec {
        volumes = map (renamed_volume sandbox template_spec) one_pod.spec.volumes;
        containers = map (renamed_container sandbox template_spec) one_pod.spec.containers;
      };
    }
mutate_pod_pvcs-eq-renamed_example =
    mutate_pod_pvcs-eq-renamed cluster sandbox template_spec one_pod

test_true : (m n : String) → m ≡ n → (m == n) ≡ true
test_true m n e = ground arith

full_name_test : (get_full_pvc_name "home" sandbox == "home") ≡ false
unfolding get_full_pvc_name string_eq
full_name_test = refl

home_declared : declares_claim template_spec.volumes "home" ≡ true
unfolding string_eq
home_declared = refl

full_name_fresh :
    ¬ Elem (get_full_pvc_name "home" sandbox) (map (λ (v : PodVolume). v.name) one_pod.spec.volumes)
full_name_fresh = elim [
  | inl e ↦ cc (full_name_test, test_true (get_full_pvc_name "home" sandbox) "home" e)
  | inr m ↦ m
]

mounts-dangle_example :
    ¬ Elem
      (mutate_mount
        (map name_of (make_persistent_volume_claims cluster sandbox template_spec))
        sandbox
        home_mount).name
      (map
        (λ (v : PodVolume). v.name)
        (mutate_pod_pvcs sandbox one_pod
          (make_persistent_volume_claims cluster sandbox template_spec)).spec.volumes)
mounts-dangle_example =
    mounts-dangle cluster sandbox template_spec one_pod home_mount home_declared full_name_fresh

escape_json_pointer_lem_example :
    (read_pointer false (escape_json_pointer "sandbox.io/a~b") ≡ "sandbox.io/a~b")
    × (has_slash (escape_json_pointer "sandbox.io/a~b") ≡ false)
escape_json_pointer_lem_example = escape_json_pointer_lem "sandbox.io/a~b"

-- Metadata with a finalizer, and with none.
abbrev guarded : ObjectMeta
guarded = record (meta "box" "42") { finalizers = protect_finalizer ∷ [] }

metadata_patch_applies_example :
    apply_all (metadata_patch (meta "box" "42") guarded).ops (meta "box" "42")
    ≡ some (record (meta "box" "42") {
      finalizers = guarded.finalizers;
      annotations = updated_map [] [];
      labels = updated_map [] [];
    })
metadata_patch_applies_example = metadata_patch_applies (meta "box" "42") guarded tt tt

metadata_patch_conflicts_example :
    apply_all (metadata_patch (meta "box" "42") guarded).ops guarded ≡ none
metadata_patch_conflicts_example =
    metadata_patch_conflicts (meta "box" "42") guarded guarded (λ e. ground (arith, e))
      (λ e. ground (arith, e))

ready_iff_Runs_example :
    (((pod_condition cluster (some one_pod)).0 ≡ condition_true)
      ↔ Runs (λ o. o.status.phase) PodPhase.running (some one_pod))
    × (((vmi_condition cluster none).0 ≡ condition_true)
        ↔ Runs (λ (o : VirtualMachineInstance). o.status.phase) VmiPhase.running none)
    × (((vm_condition cluster none).0 ≡ condition_true)
        ↔ Runs (λ (o : VirtualMachine). o.status.phase) MachinePhase.running none)
ready_iff_Runs_example = ready_iff_Runs cluster (some one_pod) none none

abbrev one_vmi : VirtualMachineInstance
one_vmi = new_kubevirt_vmi cluster sandbox (record {
  volumes =
      record {
        name = "root";
        data_volume = some (record { name = "root"; rest = "" });
        persistent_volume_claim = none;
        rest = "";
      }
      ∷ [];
  disks = record { name = "home"; disk = some "virtio"; rest = "" } ∷ [];
  rest = "";
})

mutate_kubevirt_vmi_volumes-eq-renamed_example :
    mutate_kubevirt_vmi_volumes sandbox one_vmi
      (make_data_volumes cluster sandbox template_spec)
      (make_persistent_volume_claims cluster sandbox template_spec)
    ≡ record one_vmi {
      spec = record one_vmi.spec {
        volumes = map (vmi_volume_renamed sandbox template_spec) one_vmi.spec.volumes;
        disks = map (renamed_disk sandbox template_spec) one_vmi.spec.disks;
      };
    }
mutate_kubevirt_vmi_volumes-eq-renamed_example =
    mutate_kubevirt_vmi_volumes-eq-renamed cluster sandbox template_spec one_vmi

abbrev one_vm : VirtualMachine
one_vm =
    new_dvp_vm cluster sandbox
      (record { block_device_refs = record { kind = virtual_disk; name = "root" } ∷ []; rest = "" })

mutate_dvp_vm_volumes-eq-renamed_example :
    mutate_dvp_vm_volumes sandbox one_vm (make_virtual_disks cluster sandbox template_spec)
    ≡ record one_vm {
      spec = record one_vm.spec {
        block_device_refs = map (renamed_ref sandbox template_spec) one_vm.spec.block_device_refs;
      };
    }
mutate_dvp_vm_volumes-eq-renamed_example =
    mutate_dvp_vm_volumes-eq-renamed cluster sandbox template_spec one_vm

-- A sandbox that somebody else keeps.
abbrev kept : Sandbox
kept = record sandbox { metadata = record sandbox.metadata { finalizers = "other" ∷ [] } }

protect_test : (protect_finalizer == "other") ≡ false
unfolding string_eq
protect_test = refl

not_ours : ¬ Elem protect_finalizer kept.metadata.finalizers
not_ours = elim [ inl e ↦ cc (protect_test, test_true protect_finalizer "other" e) | inr m ↦ m ]
