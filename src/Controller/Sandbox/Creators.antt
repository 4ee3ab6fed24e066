-- ===== src/Controller/Sandbox/Creators.antt =====
-- The three sandboxers as sandboxers that create.
use sandbox_mommy.Base.{true, All, Distinct, ◌≡◌}
use sandbox_mommy.Exec.{ok}
use sandbox_mommy.Exec.Laws.{bind_ok}
use sandbox_mommy.Api.{Sandbox}
use sandbox_mommy.FeatureGate.{kubevirt, dvp, enabled}
use sandbox_mommy.Env.{Env}
use sandbox_mommy.Env.Store.{Store, Apart}
use sandbox_mommy.Sandboxer.{main_key}
use sandbox_mommy.Sandboxer.Ensure.{find_lem}
use sandbox_mommy.Sandboxer.Loops.{Ensured}
use sandbox_mommy.Sandboxer.Ownership.{NoForeign}
use sandbox_mommy.Sandboxer.Settle.{Settled}
use sandbox_mommy.Sandboxer.Pvc.{make_persistent_volume_claims}
use sandbox_mommy.Sandboxer.Pod.{new_pod_sandboxer, get_pod, status_pod, pod_condition}
use sandbox_mommy.Sandboxer.Pod.Laws.{create_pod-Settled, is_failed_pod, wanted_pod}
use sandbox_mommy.Sandboxer.Dvp.{
  new_dvp_sandboxer, get_vm, status_vm, vm_condition, make_virtual_disks,
}
use sandbox_mommy.Sandboxer.Dvp.Laws.{create_vm-Settled, is_failed_vm, wanted_vm}
use sandbox_mommy.Sandboxer.Kubevirt.{
  new_kubevirt_sandboxer, get_vmi, status_vmi, vmi_condition, make_data_volumes,
}
use sandbox_mommy.Sandboxer.Kubevirt.Laws.{VmiStores, get_vmi_lem}
use sandbox_mommy.Sandboxer.Kubevirt.Creation.{create_vmi-Settled, is_failed_vmi, wanted_vmi}
use sandbox_mommy.Webhook.Names.{names}
use sandbox_mommy.Controller.Sandbox.Creation.{Creates}

module _ (E : Env) where
  pub pod_reports :
      (pods : Store E.pods) (s : Sandbox) (w : E.World)
      → status_pod E s w ≡ (ok (pod_condition E (pods.lookup w (main_key s))), w)
  unfolding status_pod get_pod
  pod_reports pods s w =
      bind_ok (get_pod E s) _ (find_lem E pods "failed to get pod %w" (main_key s) w)

  -- A pod sandbox: its claims and its pod, where what stands under a wanted key is its own.
  abbrev pub pod_creates :
      (pods : Store E.pods) (pvcs : Store E.pvcs)
      → Apart pvcs pods
      → Apart pods pvcs
      → Creates E (new_pod_sandboxer E)
  pod_creates pods pvcs claims_apart pods_apart = record {
    Free = λ s spec w.
        Distinct (names spec.volumes)
        × All (NoForeign E pvcs s w) (make_persistent_volume_claims E s spec);
    Made = λ s spec w w'.
        Settled E pods (main_key s) is_failed_pod (wanted_pod E s spec) w w'
        × Ensured E pvcs w w' (make_persistent_volume_claims E s spec);
    seen = λ s w. pod_condition E (pods.lookup w (main_key s));
    creates = λ s spec w (distinct, free).
        let (done, settled, ensured) =
          create_pod-Settled E pods pvcs claims_apart pods_apart s spec w distinct free in
        (done, (settled, ensured));
    reports = pod_reports pods;
  }

  pub vm_reports :
      (vms : Store E.vms) (open_gate : enabled E.gates dvp ≡ true) (s : Sandbox) (w : E.World)
      → status_vm E s w ≡ (ok (vm_condition E (vms.lookup w (main_key s))), w)
  unfolding status_vm get_vm
  vm_reports vms open_gate s w =
      rw open_gate
        (bind_ok (get_vm E s) _ (find_lem E vms "failed to get VirtualMachine %w" (main_key s) w))

  -- A DVP sandbox with its gate set: its disks and its machine.
  abbrev pub vm_creates :
      (vms : Store E.vms) (disks : Store E.virtual_disks)
      → Apart disks vms
      → Apart vms disks
      → enabled E.gates dvp ≡ true
      → Creates E (new_dvp_sandboxer E)
  vm_creates vms disks disks_apart vms_apart open_gate = record {
    Free = λ s spec w.
        Distinct (names spec.volumes) × All (NoForeign E disks s w) (make_virtual_disks E s spec);
    Made = λ s spec w w'.
        Settled E vms (main_key s) is_failed_vm (wanted_vm E s spec) w w'
        × Ensured E disks w w' (make_virtual_disks E s spec);
    seen = λ s w. vm_condition E (vms.lookup w (main_key s));
    creates = λ s spec w (distinct, free).
        let (done, settled, ensured) =
          create_vm-Settled E vms disks disks_apart vms_apart s open_gate spec w distinct free in
        (done, (settled, ensured));
    reports = vm_reports vms open_gate;
  }

  pub vmi_reports :
      (c : VmiStores E) (open_gate : enabled E.gates kubevirt ≡ true) (s : Sandbox) (w : E.World)
      → status_vmi E s w ≡ (ok (vmi_condition E (c.vmis.lookup w (main_key s))), w)
  unfolding status_vmi
  vmi_reports c open_gate s w =
      rw open_gate (bind_ok (get_vmi E s) _ (get_vmi_lem E c s open_gate w))

  -- A KubeVirt sandbox with its gate set: its data volumes, its claims and its machine instance.
  abbrev pub vmi_creates :
      (c : VmiStores E) → enabled E.gates kubevirt ≡ true → Creates E (new_kubevirt_sandboxer E)
  vmi_creates c open_gate = record {
    Free = λ s spec w.
        Distinct (names spec.volumes)
        × All (NoForeign E c.volumes s w) (make_data_volumes E s spec)
        × All (NoForeign E c.claims s w) (make_persistent_volume_claims E s spec);
    Made = λ s spec w w'.
        Settled E c.vmis (main_key s) is_failed_vmi (wanted_vmi E s spec) w w'
        × Ensured E c.volumes w w' (make_data_volumes E s spec)
        × Ensured E c.claims w w' (make_persistent_volume_claims E s spec);
    seen = λ s w. vmi_condition E (c.vmis.lookup w (main_key s));
    creates = λ s spec w (distinct, volumes_free, claims_free).
        let (done, settled, volumes, claims) =
          create_vmi-Settled E c s open_gate spec w distinct volumes_free claims_free in
        (done, (settled, volumes, claims));
    reports = vmi_reports c open_gate;
  }
