-- ===== src/Tests/Machines.antt =====
-- The disks and the machine of a DVP sandbox in the cluster.
use sandbox_mommy.Base.{true, All, ◌≡◌, refl}
use sandbox_mommy.Exec.{ok}
use sandbox_mommy.FeatureGate.{dvp, enabled}
use sandbox_mommy.Env.Store.{IsReleased}
use sandbox_mommy.Sandboxer.{main_key}
use sandbox_mommy.Sandboxer.Ownership.{NoForeign}
use sandbox_mommy.Sandboxer.Loops.{Ensured}
use sandbox_mommy.Sandboxer.Release.{Freed}
use sandbox_mommy.Sandboxer.Settle.{Settled}
use sandbox_mommy.Sandboxer.Dvp.{make_virtual_disks, create_vm, delete_vm}
use sandbox_mommy.Sandboxer.Dvp.Laws.{create_vm-Settled, delete_vm-Freed, is_failed_vm, wanted_vm}
use sandbox_mommy.Memory.Laws.{client_store}
use sandbox_mommy.Tests.Cluster.{
  World, empty_world, dvp_cluster, vm_store, disk_store, disks-Apart, vms-Apart, vm_template,
  sandbox,
}

dvp_on : enabled dvp_cluster.gates dvp ≡ true
unfolding enabled
dvp_on = refl

nothing_foreign :
    All
      (NoForeign dvp_cluster disk_store sandbox empty_world)
      (make_virtual_disks dvp_cluster sandbox vm_template)
unfolding client_store
nothing_foreign = (λ p e. cc e, tt)

-- A world with the disks of the sandbox.
abbrev disk_world : World
disk_world = record empty_world {
  virtual_disks = make_virtual_disks dvp_cluster sandbox vm_template;
}

create_vm-Settled_example :
    ((create_vm dvp_cluster sandbox vm_template empty_world).0 ≡ ok tt)
    × Settled dvp_cluster vm_store
        (main_key sandbox)
        is_failed_vm
        (wanted_vm dvp_cluster sandbox vm_template)
        empty_world
        (create_vm dvp_cluster sandbox vm_template empty_world).1
    × Ensured dvp_cluster disk_store empty_world
        (create_vm dvp_cluster sandbox vm_template empty_world).1
        (make_virtual_disks dvp_cluster sandbox vm_template)
create_vm-Settled_example =
    create_vm-Settled dvp_cluster vm_store disk_store disks-Apart vms-Apart sandbox dvp_on
      vm_template empty_world ((λ m. m), tt) nothing_foreign

delete_vm-Freed_example :
    ((delete_vm dvp_cluster sandbox disk_world).0 ≡ ok tt)
    × IsReleased (vm_store.lookup (delete_vm dvp_cluster sandbox disk_world).1 (main_key sandbox))
    × Freed dvp_cluster disk_store sandbox disk_world (delete_vm dvp_cluster sandbox disk_world).1
delete_vm-Freed_example =
    delete_vm-Freed dvp_cluster vm_store disk_store disks-Apart vms-Apart sandbox dvp_on disk_world
