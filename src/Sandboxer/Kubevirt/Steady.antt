-- ===== src/Sandboxer/Kubevirt/Steady.antt =====
-- kubevirt.go over stores: `Create` and `Status` of a sandbox whose machine instance runs.
use sandbox_mommy.Base.{true, map, some, none, All, Distinct, ◌≡◌, ◌≢◌, refl, ap, ◌∙◌}
use sandbox_mommy.Exec.{ok}
use sandbox_mommy.Exec.Laws.{bind_ok}
use sandbox_mommy.Api.{
  object_key, VirtualMachineInstance, VmiPhase, Sandbox, SandboxTemplateSpec, condition_true,
  Reason, reason_eq,
}
use sandbox_mommy.FeatureGate.{kubevirt, enabled}
use sandbox_mommy.Env.{Env}
use sandbox_mommy.Sandboxer.{main_key, create_missing}
use sandbox_mommy.Sandboxer.Ensure.{create_owned_idle}
use sandbox_mommy.Sandboxer.Ownership.{owned, NoForeign}
use sandbox_mommy.Sandboxer.Pvc.{make_persistent_volume_claims, create_pvcs}
use sandbox_mommy.Sandboxer.Pvc.Laws.{create_pvcs_idle}
use sandbox_mommy.Sandboxer.Kubevirt.{get_vmi, get_dvs, create_vmi, status_vmi, make_data_volumes}
use sandbox_mommy.Sandboxer.Kubevirt.Laws.{VmiStores, get_vmi_lem, get_dvs_lem}
use sandbox_mommy.Sandboxer.Kubevirt.Creation.{data_volumes-Distinct, data_volumes-here}
use sandbox_mommy.Webhook.Names.{names}

module _ (E : Env) (c : VmiStores E) where
  -- Every data volume and every claim of the template is there and belongs to the sandbox, and its
  -- machine instance runs.
  pub record RunningVmi (s : Sandbox) (template : SandboxTemplateSpec) (w : E.World) : Type 0 where
    pub distinct : Distinct (names template.volumes)
    pub filled :
        All (λ o. c.volumes.lookup w (object_key o) ≢ none) (make_data_volumes E s template)
    pub volumes_free : All (NoForeign E c.volumes s w) (make_data_volumes E s template)
    pub claimed :
        All
          (λ o. c.claims.lookup w (object_key o) ≢ none)
          (make_persistent_volume_claims E s template)
    pub claims_free : All (NoForeign E c.claims s w) (make_persistent_volume_claims E s template)
    pub vmi : VirtualMachineInstance
    pub found : c.vmis.lookup w (main_key s) ≡ some vmi
    pub phase : vmi.status.phase ≡ VmiPhase.running

  volumes_idle :
      (s : Sandbox) (template : SandboxTemplateSpec) (w : E.World)
      → RunningVmi s template w
      → create_missing E E.data_volumes "failed to create data volume %q"
          (map object_key (owned E c.volumes s w))
          (make_data_volumes E s template)
          w
        ≡ (ok tt, w)
  volumes_idle s template w r =
      create_owned_idle E c.volumes s "failed to create data volume %q"
        (make_data_volumes E s template) w
        (record {
          distinct = data_volumes-Distinct E s template.volumes r.distinct;
          here = data_volumes-here E s template.volumes;
          free = r.volumes_free;
        })
        r.filled

  module _ (open_gate : enabled E.gates kubevirt ≡ true) where
    got :
        (s : Sandbox) (w : E.World) (m : VirtualMachineInstance)
        → c.vmis.lookup w (main_key s) ≡ some m
        → get_vmi E s w ≡ (ok (some m), w)
    got s w m e = get_vmi_lem E c s open_gate w ∙ ap (λ o. (ok o, w)) e

    pub create_vmi_idle :
        (s : Sandbox) (template : SandboxTemplateSpec) (w : E.World)
        → RunningVmi s template w
        → create_vmi E s template w ≡ (ok tt, w)
    unfolding create_vmi reason_eq
    create_vmi_idle s template w r = rw open_gate (
        bind_ok (get_dvs E s) _ (get_dvs_lem E c s open_gate w)
        ∙ bind_ok
            (create_missing E E.data_volumes "failed to create data volume %q"
              (map object_key (owned E c.volumes s w)) (make_data_volumes E s template))
            _ (volumes_idle s template w r)
        ∙ bind_ok (create_pvcs E s (make_persistent_volume_claims E s template)) _
            (create_pvcs_idle E c.claims s template w r.distinct r.claims_free r.claimed)
        ∙ bind_ok (get_vmi E s) _ (got s w r.vmi r.found)
        ∙ rw r.phase refl)

    pub status_vmi_ready :
        (s : Sandbox) (template : SandboxTemplateSpec) (w : E.World)
        → RunningVmi s template w
        → status_vmi E s w ≡ (ok (condition_true, Reason.ready, ""), w)
    unfolding status_vmi
    status_vmi_ready s template w r =
        rw open_gate (bind_ok (get_vmi E s) _ (got s w r.vmi r.found) ∙ rw r.phase refl)
