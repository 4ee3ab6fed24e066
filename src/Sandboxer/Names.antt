-- ===== src/Sandboxer/Names.antt =====
-- The names that the objects of a sandbox get, against what the template declares.
use text.Mathlib.TextLemmas.{append_cancel_left}
use sandbox_mommy.Base.{
  String, ◌<>◌, string_eq, ◌==◌, Bool, false, ◌||◌, List, [], ◌∷◌, map, Option, none, some,
  contains, ◌≡◌, refl, arith,
}
use sandbox_mommy.Api.{Sandbox, SandboxVolumeSpec, Opaque}
use sandbox_mommy.Env.{Env}
use sandbox_mommy.Sandboxer.{name_of}
use sandbox_mommy.Sandboxer.Pvc.{get_full_pvc_name, claims}
use sandbox_mommy.Sandboxer.Kubevirt.{get_full_dv_name, data_volumes_of}
use sandbox_mommy.Sandboxer.Dvp.{get_full_vd_name, disks_of}

-- Two names with the same prefix, uid and dash are the same.
prefixed_inj :
    (prefix uid m n : String) → prefix <> uid <> "-" <> m ≡ prefix <> uid <> "-" <> n → m ≡ n
prefixed_inj prefix uid m n h = append_cancel_left "-" m n (
    append_cancel_left uid ("-" <> m) ("-" <> n)
      (append_cancel_left prefix (uid <> "-" <> m) (uid <> "-" <> n) h))

pub get_full_pvc_name_inj :
    (m n : String) (sandbox : Sandbox)
    → get_full_pvc_name m sandbox ≡ get_full_pvc_name n sandbox
    → m ≡ n
unfolding get_full_pvc_name
get_full_pvc_name_inj m n sandbox h = prefixed_inj _ _ m n h

pub get_full_dv_name_inj :
    (m n : String) (sandbox : Sandbox)
    → get_full_dv_name m sandbox ≡ get_full_dv_name n sandbox
    → m ≡ n
unfolding get_full_dv_name
get_full_dv_name_inj m n sandbox h = prefixed_inj _ _ m n h

pub get_full_vd_name_inj :
    (m n : String) (sandbox : Sandbox)
    → get_full_vd_name m sandbox ≡ get_full_vd_name n sandbox
    → m ≡ n
unfolding get_full_vd_name
get_full_vd_name_inj m n sandbox h = prefixed_inj _ _ m n h

-- Whether the volumes of a template declare one of the given sort under a name.
module _ (sort : SandboxVolumeSpec → Option Opaque) where
  abbrev pub declares : List SandboxVolumeSpec → String → Bool
  declares [] n = false
  declares (v ∷ vs) n = elim (sort v) [
    | none ↦ declares vs n
    | some _ ↦ n == v.name || declares vs n
  ]

abbrev pub declares_claim : List SandboxVolumeSpec → String → Bool
declares_claim = declares (λ v. v.pvc_spec)

abbrev pub declares_data_volume : List SandboxVolumeSpec → String → Bool
declares_data_volume = declares (λ v. v.data_volume_spec)

abbrev pub declares_disk : List SandboxVolumeSpec → String → Bool
declares_disk = declares (λ v. v.virtual_disk_spec)

module _ (E : Env) (sandbox : Sandbox) where
  pub contains-claims :
      (vs : List SandboxVolumeSpec) (n : String)
      → contains (map name_of (claims E sandbox vs)) (get_full_pvc_name n sandbox)
        ≡ declares_claim vs n
  contains-claims [] n = refl
  contains-claims (v ∷ vs) n =
      ground (arith, contains-claims vs n, get_full_pvc_name_inj n v.name sandbox)

  pub contains-data_volumes_of :
      (vs : List SandboxVolumeSpec) (n : String)
      → contains (map name_of (data_volumes_of E sandbox vs)) (get_full_dv_name n sandbox)
        ≡ declares_data_volume vs n
  contains-data_volumes_of [] n = refl
  contains-data_volumes_of (v ∷ vs) n =
      ground (arith, contains-data_volumes_of vs n, get_full_dv_name_inj n v.name sandbox)

  pub contains-disks_of :
      (vs : List SandboxVolumeSpec) (n : String)
      → contains (map name_of (disks_of E sandbox vs)) (get_full_vd_name n sandbox)
        ≡ declares_disk vs n
  contains-disks_of [] n = refl
  contains-disks_of (v ∷ vs) n =
      ground (arith, contains-disks_of vs n, get_full_vd_name_inj n v.name sandbox)
