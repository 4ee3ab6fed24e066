-- ===== src/Sandboxer/Pvc.antt =====
-- internal/controller/sandbox/pvc.go
pub mod Laws
use sandbox_mommy.Base.{String, ◌<>◌, List, [], ◌∷◌, map, none, some}
use sandbox_mommy.Exec.{Exec, ◌>>=◌}
use sandbox_mommy.Api.{
  Opaque, PersistentVolumeClaim, Sandbox, SandboxTemplateSpec, SandboxVolumeSpec, object_key,
}
use sandbox_mommy.Env.{Env}
use sandbox_mommy.Sandboxer.{owned_meta, list_controlled, create_missing, delete_all}

abbrev pub pvc_name_prefix : String
pvc_name_prefix = "sandbox-pvc-"

unfoldable pub get_full_pvc_name : String → Sandbox → String
get_full_pvc_name name sandbox = pvc_name_prefix <> sandbox.metadata.uid <> "-" <> name

module _ (E : Env) where
  abbrev pub new_pvc : Sandbox → String → Opaque → PersistentVolumeClaim
  new_pvc sandbox name spec = record {
    type_meta = record { kind = "PersistentVolumeClaim"; api_version = "v1" };
    metadata = owned_meta E sandbox (get_full_pvc_name name sandbox);
    spec = spec;
    status = record { text = "" };
  }

  -- The loop of `makePersistentVolumeClaims`.
  abbrev pub claims : Sandbox → List SandboxVolumeSpec → List PersistentVolumeClaim
  claims sandbox [] = []
  claims sandbox (v ∷ vs) = elim v.pvc_spec [
    | none ↦ claims sandbox vs
    | some spec ↦ new_pvc sandbox v.name spec ∷ claims sandbox vs
  ]

  abbrev pub make_persistent_volume_claims :
      Sandbox → SandboxTemplateSpec → List PersistentVolumeClaim
  make_persistent_volume_claims sandbox template_spec = claims sandbox template_spec.volumes

  unfoldable pub get_pvcs : Sandbox → Exec E.World (List PersistentVolumeClaim)
  unfolding list_controlled
  get_pvcs sandbox = list_controlled E E.pvcs "failed to list PVCs %w" sandbox

  unfoldable pub create_pvcs : Sandbox → List PersistentVolumeClaim → Exec E.World Unit
  create_pvcs sandbox pvcs_for_create = do
    existing ← get_pvcs sandbox
    create_missing E E.pvcs "failed to create pvc %q" (map object_key existing) pvcs_for_create

  unfoldable pub delete_pvcs : Sandbox → Exec E.World Unit
  delete_pvcs sandbox = do
    pvcs ← get_pvcs sandbox
    delete_all E E.pvcs "failed to delete pvc %q" pvcs
