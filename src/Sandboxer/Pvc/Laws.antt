-- ===== src/Sandboxer/Pvc/Laws.antt =====
-- pvc.go over a store: `createPVCs` and `deletePVCs`.
use mathlib.Core.Path.{subst}
use sandbox_mommy.Base.{sym, ◌∙◌, ◌≢◌, none, List, [], ◌∷◌, map, All, Distinct, ◌≡◌, refl, ap}
use sandbox_mommy.Exec.Laws.{bind_ok}
use sandbox_mommy.Exec.{ok}
use sandbox_mommy.Api.{
  object_key, PersistentVolumeClaim, Sandbox, SandboxVolumeSpec, SandboxTemplateSpec,
}
use sandbox_mommy.Env.{Env}
use sandbox_mommy.Env.Store.{Store}
use sandbox_mommy.Sandboxer.{create_missing, delete_all}
use sandbox_mommy.Sandboxer.Pvc.{
  claims, make_persistent_volume_claims, get_pvcs, create_pvcs, delete_pvcs, new_pvc,
}
use sandbox_mommy.Sandboxer.Names.{get_full_pvc_name_inj}
use sandbox_mommy.Sandboxer.Loops.{Ensured}
use sandbox_mommy.Sandboxer.Ownership.{owned, NoForeign, list_controlled_lem}
use sandbox_mommy.Sandboxer.Collect.{collect, collect-Distinct, All-collect, made_eq}
use sandbox_mommy.Sandboxer.Ensure.{create_owned-Runs, create_owned_idle, IsWanted}
use sandbox_mommy.Webhook.Names.{names}

module _ (E : Env) (sandbox : Sandbox) where
  claims-collect :
      (vs : List SandboxVolumeSpec)
      → claims E sandbox vs ≡ collect (λ v. v.pvc_spec) (new_pvc E sandbox) vs
  claims-collect [] = refl
  claims-collect (v ∷ vs) =
      made_eq (λ v'. v'.pvc_spec) (new_pvc E sandbox) v v.pvc_spec (claims E sandbox vs) _
        (claims-collect vs)

  claims-Distinct :
      (vs : List SandboxVolumeSpec)
      → Distinct (names vs)
      → Distinct (map object_key (claims E sandbox vs))
  claims-Distinct vs d =
      subst (λ os. Distinct (map object_key os)) (sym (claims-collect vs))
        (collect-Distinct (λ v. v.pvc_spec) (new_pvc E sandbox)
          (λ m n s t e. get_full_pvc_name_inj m n sandbox (ap (λ k. k.name) e)) vs d)

  claims-here :
      (vs : List SandboxVolumeSpec)
      → All (λ o. o.metadata.namespace ≡ sandbox.metadata.namespace) (claims E sandbox vs)
  claims-here vs =
      subst (All (λ o. o.metadata.namespace ≡ sandbox.metadata.namespace)) (sym (claims-collect vs))
        (All-collect (λ v. v.pvc_spec) (new_pvc E sandbox) _ (λ n s. refl) vs)

module _ (E : Env) (st : Store E.pvcs) (sandbox : Sandbox) where
  get_pvcs_lem : (w : E.World) → get_pvcs E sandbox w ≡ (ok (owned E st sandbox w), w)
  unfolding get_pvcs
  get_pvcs_lem w = list_controlled_lem E st sandbox "failed to list PVCs %w" w

  pub create_pvcs_step :
      (pvcs : List PersistentVolumeClaim) (w : E.World)
      → create_pvcs E sandbox pvcs w
        ≡ create_missing E E.pvcs "failed to create pvc %q"
            (map object_key (owned E st sandbox w))
            pvcs
            w
  unfolding create_pvcs
  create_pvcs_step pvcs w = bind_ok (get_pvcs E sandbox) _ (get_pvcs_lem w)

  pub delete_pvcs_step :
      (w : E.World)
      → delete_pvcs E sandbox w
        ≡ delete_all E E.pvcs "failed to delete pvc %q" (owned E st sandbox w) w
  unfolding delete_pvcs
  delete_pvcs_step w = bind_ok (get_pvcs E sandbox) _ (get_pvcs_lem w)

  pub claims-IsWanted :
      (template : SandboxTemplateSpec) (w : E.World)
      → Distinct (names template.volumes)
      → All (NoForeign E st sandbox w) (make_persistent_volume_claims E sandbox template)
      → IsWanted E st sandbox w (make_persistent_volume_claims E sandbox template)
  claims-IsWanted template w d free = record {
    distinct = claims-Distinct E sandbox template.volumes d;
    here = claims-here E sandbox template.volumes;
    free = free;
  }

  -- Over a store of claims, for a template whose volume names are distinct, where every claim that stands under a wanted
  -- key belongs to the sandbox, `createPVCs` returns no error, leaves every claim of the template
  -- in the cluster, and leaves every claim that was there as it was.
  pub create_pvcs-Ensured :
      (template : SandboxTemplateSpec) (w : E.World)
      → Distinct (names template.volumes)
      → All (NoForeign E st sandbox w) (make_persistent_volume_claims E sandbox template)
      → ((create_pvcs E sandbox (make_persistent_volume_claims E sandbox template) w).0 ≡ ok tt)
        × Ensured E st w
            (create_pvcs E sandbox (make_persistent_volume_claims E sandbox template) w).1
            (make_persistent_volume_claims E sandbox template)
  create_pvcs-Ensured template w d free =
      rw (create_pvcs_step (make_persistent_volume_claims E sandbox template) w)
        (create_owned-Runs E st sandbox _ _ w (claims-IsWanted template w d free))

  -- `createPVCs` does nothing where every claim of the template is there.
  pub create_pvcs_idle :
      (template : SandboxTemplateSpec) (w : E.World)
      → Distinct (names template.volumes)
      → All (NoForeign E st sandbox w) (make_persistent_volume_claims E sandbox template)
      → All
          (λ o. st.lookup w (object_key o) ≢ none)
          (make_persistent_volume_claims E sandbox template)
      → create_pvcs E sandbox (make_persistent_volume_claims E sandbox template) w ≡ (ok tt, w)
  create_pvcs_idle template w d free present =
      create_pvcs_step (make_persistent_volume_claims E sandbox template) w
      ∙ create_owned_idle E st sandbox _ _ w (claims-IsWanted template w d free) present
