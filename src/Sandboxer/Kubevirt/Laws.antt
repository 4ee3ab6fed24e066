-- ===== src/Sandboxer/Kubevirt/Laws.antt =====
-- kubevirt.go over stores: `Create` and `Delete` behind an open feature gate.
use mathlib.Core.Path.{subst}
use sandbox_mommy.Base.{true, ◌≡◌, refl, sym, ap, ◌∙◌}
use sandbox_mommy.Exec.{ok}
use sandbox_mommy.Exec.Laws.{bind_ok}
use sandbox_mommy.Api.{Sandbox, reason_eq}
use sandbox_mommy.FeatureGate.{kubevirt, enabled}
use sandbox_mommy.Env.{Env}
use sandbox_mommy.Env.Store.{Store, Apart, IsReleased}
use sandbox_mommy.Sandboxer.{main_key, delete_all, delete_found}
use sandbox_mommy.Sandboxer.Ensure.{find_lem}
use sandbox_mommy.Sandboxer.Ownership.{owned, list_controlled_lem}
use sandbox_mommy.Sandboxer.Pvc.{delete_pvcs}
use sandbox_mommy.Sandboxer.Pvc.Laws.{delete_pvcs_step}
use sandbox_mommy.Sandboxer.Kubevirt.{get_vmi, get_dvs, delete_vmi}
use sandbox_mommy.Sandboxer.Release.{
  Freed, Freed-before, Freed-after, delete_owned-Freed, without, delete_found_lem,
  without-IsReleased, Untouched, delete_all-Untouched, without-Untouched,
}

-- The stores of the three kinds, of which each leaves the others alone.
pub record VmiStores (E : Env) : Type 0 where
  pub vmis : Store E.vmis
  pub volumes : Store E.data_volumes
  pub claims : Store E.pvcs
  pub vmis_volumes : Apart vmis volumes
  pub vmis_claims : Apart vmis claims
  pub volumes_vmis : Apart volumes vmis
  pub volumes_claims : Apart volumes claims
  pub claims_vmis : Apart claims vmis
  pub claims_volumes : Apart claims volumes

module _ (E : Env) (c : VmiStores E) (sandbox : Sandbox)
    (open_gate : enabled E.gates kubevirt ≡ true) where
  pub get_vmi_lem :
      (w : E.World) → get_vmi E sandbox w ≡ (ok (c.vmis.lookup w (main_key sandbox)), w)
  unfolding get_vmi
  get_vmi_lem w = find_lem E c.vmis "failed to get VirtualMachineInstance %w" (main_key sandbox) w

  pub get_dvs_lem : (w : E.World) → get_dvs E sandbox w ≡ (ok (owned E c.volumes sandbox w), w)
  unfolding get_dvs
  get_dvs_lem w = list_controlled_lem E c.volumes sandbox "failed to list VirtualDisks %w" w

  -- The world without the machine, and then without the data volumes.
  abbrev no_vmi : E.World → E.World
  no_vmi w = without E c.vmis (c.vmis.lookup w (main_key sandbox)) w

  abbrev no_volumes : E.World → E.World
  no_volumes w =
      (delete_all E E.data_volumes "failed to delete data volume %q" (owned E c.volumes sandbox w)
        w).1

  delete_vmi_steps :
      (w : E.World) → delete_vmi E sandbox w ≡ delete_pvcs E sandbox (no_volumes (no_vmi w))
  unfolding delete_vmi
  delete_vmi_steps w =
      let (done, freed) =
        delete_owned-Freed E c.volumes sandbox "failed to delete data volume %q" (no_vmi w) in
      rw open_gate (
        bind_ok (get_vmi E sandbox) _ (get_vmi_lem w)
        ∙ bind_ok
            (delete_found E E.vmis "failed to delete virtual machine instance %q"
              (c.vmis.lookup w (main_key sandbox)))
            _
            (delete_found_lem E c.vmis "failed to delete virtual machine instance %q"
              (main_key sandbox) w _ refl)
        ∙ bind_ok (get_dvs E sandbox) _ (get_dvs_lem (no_vmi w))
        ∙ bind_ok
            (delete_all E E.data_volumes "failed to delete data volume %q"
              (owned E c.volumes sandbox (no_vmi w)))
            (λ _. delete_pvcs E sandbox) (ap (λ r. (r, no_volumes (no_vmi w))) done))

  delete_pvcs-leaves :
      (w : E.World)
      → Untouched E c.vmis w (delete_pvcs E sandbox w).1
        × Untouched E c.volumes w (delete_pvcs E sandbox w).1
  delete_pvcs-leaves w = rw (delete_pvcs_step E c.claims sandbox w) (
    delete_all-Untouched E c.claims c.vmis c.claims_vmis "failed to delete pvc %q" w sandbox,
    delete_all-Untouched E c.claims c.volumes c.claims_volumes "failed to delete pvc %q" w sandbox,
  )

  delete_pvcs-Freed :
      (w : E.World)
      → ((delete_pvcs E sandbox w).0 ≡ ok tt)
        × Freed E c.claims sandbox w (delete_pvcs E sandbox w).1
  delete_pvcs-Freed w =
      rw (delete_pvcs_step E c.claims sandbox w)
        (delete_owned-Freed E c.claims sandbox "failed to delete pvc %q" w)

  no_volumes-leaves :
      (w : E.World) → Untouched E c.vmis w (no_volumes w) × Untouched E c.claims w (no_volumes w)
  no_volumes-leaves w = (
    delete_all-Untouched E c.volumes c.vmis c.volumes_vmis "failed to delete data volume %q" w
        sandbox,
    delete_all-Untouched E c.volumes c.claims c.volumes_claims "failed to delete data volume %q" w
        sandbox,
  )

  -- Over stores of machine instances, data volumes and claims, of which each leaves the others
  -- alone, and with the feature gate set, `Delete` of a KubeVirt sandbox returns no error and leaves
  -- the machine of the sandbox gone or being deleted. Every data volume and every claim in its
  -- namespace that the sandbox controls is gone or being deleted too, and every data volume
  -- and claim that the sandbox does not control stays as it was.
  pub delete_vmi-Freed :
      (w : E.World)
      → ((delete_vmi E sandbox w).0 ≡ ok tt)
        × IsReleased (c.vmis.lookup (delete_vmi E sandbox w).1 (main_key sandbox))
        × Freed E c.volumes sandbox w (delete_vmi E sandbox w).1
        × Freed E c.claims sandbox w (delete_vmi E sandbox w).1
  delete_vmi-Freed w =
      let key = main_key sandbox in
      let found = c.vmis.lookup w key in
      let w₁ = no_vmi w in
      let w₂ = no_volumes w₁ in
      let (done, claims_freed) = delete_pvcs-Freed w₂ in
      let (u, volumes_freed) =
        delete_owned-Freed E c.volumes sandbox "failed to delete data volume %q" w₁ in
      let (vmis_kept, claims_kept) = no_volumes-leaves w₁ in
      let (vmis_left, volumes_left) = delete_pvcs-leaves w₂ in
      rw (delete_vmi_steps w) (
        done,
        subst IsReleased (sym (vmis_left key ∙ vmis_kept key))
            (without-IsReleased E c.vmis key w found refl),
        Freed-after E c.volumes sandbox w w₂ _ volumes_left (
            Freed-before E c.volumes sandbox w w₁ w₂
              (without-Untouched E c.vmis c.volumes c.vmis_volumes w found) volumes_freed),
        Freed-before E c.claims sandbox w w₂ _
            (λ k. claims_kept k ∙ without-Untouched E c.vmis c.claims c.vmis_claims w found k)
            claims_freed,
      )
