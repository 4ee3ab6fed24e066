-- ===== src/Tests/Instances.antt =====
-- The data volumes, the claims and the machine of a KubeVirt sandbox in the cluster.
use sandbox_mommy.Base.{true, [], ◌∷◌, none, some, All, ◌≡◌, refl}
use sandbox_mommy.Exec.{ok}
use sandbox_mommy.Api.{SandboxTemplateSpec}
use sandbox_mommy.FeatureGate.{kubevirt, enabled}
use sandbox_mommy.Env.{Env}
use sandbox_mommy.Env.Store.{Store, IsReleased}
use sandbox_mommy.Sandboxer.{main_key}
use sandbox_mommy.Sandboxer.Ownership.{NoForeign}
use sandbox_mommy.Sandboxer.Loops.{Ensured}
use sandbox_mommy.Sandboxer.Release.{Freed}
use sandbox_mommy.Sandboxer.Settle.{Settled}
use sandbox_mommy.Sandboxer.Pvc.{make_persistent_volume_claims}
use sandbox_mommy.Sandboxer.Kubevirt.{make_data_volumes, create_vmi, delete_vmi}
use sandbox_mommy.Sandboxer.Kubevirt.Laws.{VmiStores, delete_vmi-Freed}
use sandbox_mommy.Sandboxer.Kubevirt.Creation.{create_vmi-Settled, is_failed_vmi, wanted_vmi}
use sandbox_mommy.Memory.{client}
use sandbox_mommy.Memory.Laws.{client_store}
use sandbox_mommy.Tests.Cluster.{
  World, empty_world, cluster_with, vmi_shelf, volume_shelf, pvc_store, sandbox,
}

abbrev vmi_cluster : Env
vmi_cluster = cluster_with ("kubevirt" ∷ [])

abbrev vmi_store : Store (client vmi_shelf)
vmi_store = client_store vmi_shelf (λ os w. refl)

abbrev volume_store : Store (client volume_shelf)
volume_store = client_store volume_shelf (λ os w. refl)

stores : VmiStores vmi_cluster
unfolding client_store
stores = record {
  vmis = vmi_store;
  volumes = volume_store;
  claims = pvc_store;
  vmis_volumes = record { created_apart = λ o w k. refl; deleted_apart = λ o w k. refl };
  vmis_claims = record { created_apart = λ o w k. refl; deleted_apart = λ o w k. refl };
  volumes_vmis = record { created_apart = λ o w k. refl; deleted_apart = λ o w k. refl };
  volumes_claims = record { created_apart = λ o w k. refl; deleted_apart = λ o w k. refl };
  claims_vmis = record { created_apart = λ o w k. refl; deleted_apart = λ o w k. refl };
  claims_volumes = record { created_apart = λ o w k. refl; deleted_apart = λ o w k. refl };
}

abbrev vmi_template : SandboxTemplateSpec
vmi_template = record {
  pod_spec = none;
  kubevirt_vmi_spec = some (record {
    volumes = [];
    disks = record { name = "root"; disk = some "virtio"; rest = "" } ∷ [];
    rest = "";
  });
  dvp_vm_spec = none;
  volumes =
      record {
        name = "root";
        pvc_spec = none;
        data_volume_spec = some (record { text = "1Gi" });
        virtual_disk_spec = none;
      }
      ∷ [];
}

kubevirt_on : enabled vmi_cluster.gates kubevirt ≡ true
unfolding enabled
kubevirt_on = refl

volumes_free :
    All
      (NoForeign vmi_cluster stores.volumes sandbox empty_world)
      (make_data_volumes vmi_cluster sandbox vmi_template)
unfolding stores client_store
volumes_free = (λ p e. cc e, tt)

-- A world with the data volume of the sandbox.
abbrev volume_world : World
volume_world = record empty_world {
  data_volumes = make_data_volumes vmi_cluster sandbox vmi_template;
}

create_vmi-Settled_example :
    ((create_vmi vmi_cluster sandbox vmi_template empty_world).0 ≡ ok tt)
    × Settled vmi_cluster stores.vmis
        (main_key sandbox)
        is_failed_vmi
        (wanted_vmi vmi_cluster sandbox vmi_template)
        empty_world
        (create_vmi vmi_cluster sandbox vmi_template empty_world).1
    × Ensured vmi_cluster stores.volumes empty_world
        (create_vmi vmi_cluster sandbox vmi_template empty_world).1
        (make_data_volumes vmi_cluster sandbox vmi_template)
    × Ensured vmi_cluster stores.claims empty_world
        (create_vmi vmi_cluster sandbox vmi_template empty_world).1
        (make_persistent_volume_claims vmi_cluster sandbox vmi_template)
create_vmi-Settled_example =
    create_vmi-Settled vmi_cluster stores sandbox kubevirt_on vmi_template empty_world
      ((λ m. m), tt) volumes_free tt

delete_vmi-Freed_example :
    ((delete_vmi vmi_cluster sandbox volume_world).0 ≡ ok tt)
    × IsReleased
        (stores.vmis.lookup (delete_vmi vmi_cluster sandbox volume_world).1 (main_key sandbox))
    × Freed vmi_cluster stores.volumes sandbox volume_world
        (delete_vmi vmi_cluster sandbox volume_world).1
    × Freed vmi_cluster stores.claims sandbox volume_world
        (delete_vmi vmi_cluster sandbox volume_world).1
delete_vmi-Freed_example = delete_vmi-Freed vmi_cluster stores sandbox kubevirt_on volume_world
