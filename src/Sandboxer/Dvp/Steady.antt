-- ===== src/Sandboxer/Dvp/Steady.antt =====
-- dvp.go over a store: `Create` and `Status` of a sandbox whose virtual machine runs.
use sandbox_mommy.Base.{true, map, some, none, All, Distinct, ◌≡◌, ◌≢◌, refl, ap, ◌∙◌}
use sandbox_mommy.Exec.{ok}
use sandbox_mommy.Exec.Laws.{bind_ok}
use sandbox_mommy.Api.{
  object_key, VirtualMachine, MachinePhase, Sandbox, SandboxTemplateSpec, condition_true, Reason,
  reason_eq,
}
use sandbox_mommy.FeatureGate.{dvp, enabled}
use sandbox_mommy.Env.{Env}
use sandbox_mommy.Env.Store.{Store}
use sandbox_mommy.Sandboxer.{main_key, create_missing}
use sandbox_mommy.Sandboxer.Ensure.{find_lem, create_owned_idle}
use sandbox_mommy.Sandboxer.Ownership.{owned, NoForeign, list_controlled_lem}
use sandbox_mommy.Sandboxer.Dvp.{get_vm, get_vds, create_vm, status_vm, make_virtual_disks}
use sandbox_mommy.Sandboxer.Dvp.Laws.{disks-Distinct, disks-here}
use sandbox_mommy.Webhook.Names.{names}

module _ (E : Env) (vms : Store E.vms) (disks : Store E.virtual_disks) where
  -- Every disk of the template is there and belongs to the sandbox, and its machine runs.
  pub record RunningVm (s : Sandbox) (template : SandboxTemplateSpec) (w : E.World) : Type 0 where
    pub distinct : Distinct (names template.volumes)
    pub attached : All (λ o. disks.lookup w (object_key o) ≢ none) (make_virtual_disks E s template)
    pub free : All (NoForeign E disks s w) (make_virtual_disks E s template)
    pub vm : VirtualMachine
    pub found : vms.lookup w (main_key s) ≡ some vm
    pub phase : vm.status.phase ≡ MachinePhase.running

  got :
      (s : Sandbox) (w : E.World) (m : VirtualMachine)
      → vms.lookup w (main_key s) ≡ some m
      → get_vm E s w ≡ (ok (some m), w)
  unfolding get_vm
  got s w m e =
      find_lem E vms "failed to get VirtualMachine %w" (main_key s) w ∙ ap (λ o. (ok o, w)) e

  disks_idle :
      (s : Sandbox) (template : SandboxTemplateSpec) (w : E.World)
      → RunningVm s template w
      → create_missing E E.virtual_disks "failed to create pvc %q"
          (map object_key (owned E disks s w))
          (make_virtual_disks E s template)
          w
        ≡ (ok tt, w)
  disks_idle s template w r =
      create_owned_idle E disks s "failed to create pvc %q" (make_virtual_disks E s template) w
        (record {
          distinct = disks-Distinct E s template.volumes r.distinct;
          here = disks-here E s template.volumes;
          free = r.free;
        })
        r.attached

  module _ (open_gate : enabled E.gates dvp ≡ true) where
    pub create_vm_idle :
        (s : Sandbox) (template : SandboxTemplateSpec) (w : E.World)
        → RunningVm s template w
        → create_vm E s template w ≡ (ok tt, w)
    unfolding create_vm get_vds reason_eq
    create_vm_idle s template w r = rw open_gate (
        bind_ok (get_vds E s) _ (list_controlled_lem E disks s "failed to list VirtualDisks %w" w)
        ∙ bind_ok
            (create_missing E E.virtual_disks "failed to create pvc %q"
              (map object_key (owned E disks s w)) (make_virtual_disks E s template))
            _ (disks_idle s template w r)
        ∙ bind_ok (get_vm E s) _ (got s w r.vm r.found)
        ∙ rw r.phase refl)

    pub status_vm_ready :
        (s : Sandbox) (template : SandboxTemplateSpec) (w : E.World)
        → RunningVm s template w
        → status_vm E s w ≡ (ok (condition_true, Reason.ready, ""), w)
    unfolding status_vm
    status_vm_ready s template w r =
        rw open_gate (bind_ok (get_vm E s) _ (got s w r.vm r.found) ∙ rw r.phase refl)
