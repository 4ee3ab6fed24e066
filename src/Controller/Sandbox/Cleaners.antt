-- ===== src/Controller/Sandbox/Cleaners.antt =====
-- The three sandboxers as sandboxers that clean up, and as steady ones.
use sandbox_mommy.Base.{true, ◌≡◌}
use sandbox_mommy.Api.{Sandbox, SandboxStatus, SandboxTemplateSpec, Object}
use sandbox_mommy.FeatureGate.{kubevirt, dvp, enabled}
use sandbox_mommy.Env.{Env, KindClient}
use sandbox_mommy.Env.Store.{Store, Apart, IsReleased}
use sandbox_mommy.Sandboxer.{main_key}
use sandbox_mommy.Sandboxer.Release.{Freed}
use sandbox_mommy.Sandboxer.Pod.{new_pod_sandboxer}
use sandbox_mommy.Sandboxer.Pod.Laws.{delete_pod-Freed}
use sandbox_mommy.Sandboxer.Dvp.{new_dvp_sandboxer, get_full_vd_name}
use sandbox_mommy.Sandboxer.Dvp.Laws.{delete_vm-Freed}
use sandbox_mommy.Sandboxer.Kubevirt.{new_kubevirt_sandboxer, get_full_dv_name}
use sandbox_mommy.Sandboxer.Kubevirt.Laws.{VmiStores, delete_vmi-Freed}
use sandbox_mommy.Controller.Sandbox.Cleanup.{Cleans}
use sandbox_mommy.Controller.Sandbox.Steady.{Steady}
use sandbox_mommy.Sandboxer.Dvp.Steady.{RunningVm, create_vm_idle, status_vm_ready}
use sandbox_mommy.Sandboxer.Kubevirt.Steady.{RunningVmi, create_vmi_idle, status_vmi_ready}
use sandbox_mommy.Sandboxer.Pvc.{get_full_pvc_name}
use sandbox_mommy.Sandboxer.Pod.Steady.{Running, create_pod_idle, status_pod_ready}

module _ (E : Env) where
  -- What is freed for a sandbox does not depend on its status.
  pub Freed-status :
      {S T : Type 0} {c : KindClient E.World (Object S T)} (st : Store c) (s : Sandbox)
      (status : SandboxStatus) (w v : E.World)
      → Freed E st (record s { status = status }) w v
      → Freed E st s w v
  Freed-status st s status w v f = record { freed = f.freed; spared = f.spared }

  -- A pod sandbox: its pod and its claims.
  abbrev pub pod_cleans :
      (pods : Store E.pods) (pvcs : Store E.pvcs)
      → Apart pvcs pods
      → Apart pods pvcs
      → Cleans E (new_pod_sandboxer E)
  pod_cleans pods pvcs claims_apart pods_apart = record {
    Gone = λ s w v. IsReleased (pods.lookup v (main_key s)) × Freed E pvcs s w v;
    deletes = λ s w.
        let (done, gone, freed) = delete_pod-Freed E pods pvcs claims_apart pods_apart s w in
        (done, (gone, freed));
    whatever_status = λ s status w v gone. (gone.0, Freed-status pvcs s status w v gone.1);
  }

  -- A DVP sandbox with its gate set: its machine and its disks.
  abbrev pub vm_cleans :
      (vms : Store E.vms) (disks : Store E.virtual_disks)
      → Apart disks vms
      → Apart vms disks
      → enabled E.gates dvp ≡ true
      → Cleans E (new_dvp_sandboxer E)
  vm_cleans vms disks disks_apart vms_apart open_gate = record {
    Gone = λ s w v. IsReleased (vms.lookup v (main_key s)) × Freed E disks s w v;
    deletes = λ s w.
        let (done, gone, freed) = delete_vm-Freed E vms disks disks_apart vms_apart s open_gate w in
        (done, (gone, freed));
    whatever_status = λ s status w v gone. (gone.0, Freed-status disks s status w v gone.1);
  }

  -- A KubeVirt sandbox with its gate set: its machine instance, its data volumes and its claims.
  abbrev pub vmi_cleans :
      (c : VmiStores E) → enabled E.gates kubevirt ≡ true → Cleans E (new_kubevirt_sandboxer E)
  vmi_cleans c open_gate = record {
    Gone = λ s w v.
        IsReleased (c.vmis.lookup v (main_key s))
        × Freed E c.volumes s w v
        × Freed E c.claims s w v;
    deletes = λ s w.
        let (done, gone, volumes, claims) = delete_vmi-Freed E c s open_gate w in
        (done, (gone, volumes, claims));
    whatever_status = λ s status w v gone. (
      gone.0,
      Freed-status c.volumes s status w v gone.1,
      Freed-status c.claims s status w v gone.2,
    );
  }

  -- Nor does what runs for it.
  pub Running-status :
      (pods : Store E.pods) (pvcs : Store E.pvcs) (s : Sandbox) (status : SandboxStatus)
      (template : SandboxTemplateSpec) (w : E.World)
      → Running E pods pvcs s template w
      → Running E pods pvcs (record s { status = status }) template w
  unfolding get_full_pvc_name
  Running-status pods pvcs s status template w r = record {
    distinct = r.distinct;
    claimed = r.claimed;
    free = r.free;
    pod = r.pod;
    found = r.found;
    phase = r.phase;
  }

  -- A pod sandbox: every claim of its template is there, and its pod runs.
  abbrev pub pod_steady :
      (pods : Store E.pods) (pvcs : Store E.pvcs) → Steady E (new_pod_sandboxer E)
  pod_steady pods pvcs = record {
    InPlace = Running E pods pvcs;
    creates = create_pod_idle E pods pvcs;
    reports = status_pod_ready E pods pvcs;
    whatever_status = Running-status pods pvcs;
  }

  pub RunningVm-status :
      (vms : Store E.vms) (disks : Store E.virtual_disks) (s : Sandbox) (status : SandboxStatus)
      (template : SandboxTemplateSpec) (w : E.World)
      → RunningVm E vms disks s template w
      → RunningVm E vms disks (record s { status = status }) template w
  unfolding get_full_vd_name
  RunningVm-status vms disks s status template w r = record {
    distinct = r.distinct;
    attached = r.attached;
    free = r.free;
    vm = r.vm;
    found = r.found;
    phase = r.phase;
  }

  -- A DVP sandbox with its gate set: every disk is there, and its machine runs.
  abbrev pub vm_steady :
      (vms : Store E.vms) (disks : Store E.virtual_disks)
      → enabled E.gates dvp ≡ true
      → Steady E (new_dvp_sandboxer E)
  vm_steady vms disks open_gate = record {
    InPlace = RunningVm E vms disks;
    creates = create_vm_idle E vms disks open_gate;
    reports = status_vm_ready E vms disks open_gate;
    whatever_status = RunningVm-status vms disks;
  }

  pub RunningVmi-status :
      (c : VmiStores E) (s : Sandbox) (status : SandboxStatus) (template : SandboxTemplateSpec)
      (w : E.World)
      → RunningVmi E c s template w
      → RunningVmi E c (record s { status = status }) template w
  unfolding get_full_dv_name get_full_pvc_name
  RunningVmi-status c s status template w r = record {
    distinct = r.distinct;
    filled = r.filled;
    volumes_free = r.volumes_free;
    claimed = r.claimed;
    claims_free = r.claims_free;
    vmi = r.vmi;
    found = r.found;
    phase = r.phase;
  }

  -- A KubeVirt sandbox with its gate set: every volume and claim is there, and its machine
  -- instance runs.
  abbrev pub vmi_steady :
      (c : VmiStores E) → enabled E.gates kubevirt ≡ true → Steady E (new_kubevirt_sandboxer E)
  vmi_steady c open_gate = record {
    InPlace = RunningVmi E c;
    creates = create_vmi_idle E c open_gate;
    reports = status_vmi_ready E c open_gate;
    whatever_status = RunningVmi-status c;
  }
