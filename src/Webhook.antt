-- ===== src/Webhook.antt =====
-- internal/controller/service/volume_validator.go, internal/controller/sandbox/sandbox_webhook.go
-- and internal/controller/sandboxtemplate/sandboxtemplate_validator.go.
pub mod Names
pub mod Gates
use sandbox_mommy.Base.{
  String, string_eq, List, [], ◌∷◌, Option, none, some, contains, if◌then◌else◌,
}
use sandbox_mommy.Base.Int.{pos, eqb_ℤ}
use sandbox_mommy.Exec.{Result, ok, err, message}
use sandbox_mommy.Api.{
  Duration, Opaque, VmiSpec, VmSpec, Sandbox, SandboxTemplate, SandboxTemplateSpec,
  SandboxVolumeSpec,
}
use sandbox_mommy.FeatureGate.{kubevirt, dvp, enabled}
use sandbox_mommy.Sandboxer.{gate_closed}
use sandbox_mommy.Validator.{Warnings, Validator, new_validator, with_create_validators}

-- The loop of `VolumesValidator.Validate`, with the names in `volumeMap`.
unfoldable pub check_names : List String → List SandboxVolumeSpec → Result Warnings
check_names volume_map [] = ok []
check_names volume_map (v ∷ vs) =
    let rest = check_names (v.name ∷ volume_map) vs in
    if contains volume_map v.name
    then err (message "volume %s already exists" (v.name ∷ []))
    else rest

unfoldable pub validate_volumes : SandboxTemplateSpec → Result Warnings
validate_volumes spec = check_names [] spec.volumes

module _ (gates : List String) where
  -- The first `switch` of `TypeValidator.Validate`.
  abbrev check_main : Option VmiSpec → Option VmSpec → Result Warnings
  check_main (some _) _ = if enabled gates kubevirt then ok [] else err (gate_closed kubevirt)
  check_main none (some _) = if enabled gates dvp then ok [] else err (gate_closed dvp)
  check_main none none = ok []

  -- The `switch` on one volume.
  abbrev check_volume : Option Opaque → Option Opaque → Result Warnings
  check_volume (some _) _ = if enabled gates kubevirt then ok [] else err (gate_closed kubevirt)
  check_volume none (some _) = if enabled gates dvp then ok [] else err (gate_closed dvp)
  check_volume none none = ok []

  abbrev check_volumes : List SandboxVolumeSpec → Result Warnings
  check_volumes [] = ok []
  check_volumes (v ∷ vs) =
      let rest = check_volumes vs in
      elim (check_volume v.data_volume_spec v.virtual_disk_spec) [ ok _ ↦ rest | err e ↦ err e ]

  unfoldable pub validate_type : SandboxTemplateSpec → Result Warnings
  validate_type spec = elim (check_main spec.kubevirt_vmi_spec spec.dvp_vm_spec) [
    | ok _ ↦ check_volumes spec.volumes
    | err e ↦ err e
  ]

  -- The validators of a sandbox look at its inline template only.
  abbrev on_inline :
      (SandboxTemplateSpec → Result Warnings) → Option SandboxTemplateSpec → Result Warnings
  on_inline validate none = ok []
  on_inline validate (some spec) = validate spec

  abbrev pub sandbox_volumes_validator : Sandbox → Result Warnings
  sandbox_volumes_validator sandbox = on_inline validate_volumes sandbox.spec.template_spec

  abbrev pub sandbox_type_validator : Sandbox → Result Warnings
  sandbox_type_validator sandbox = on_inline validate_type sandbox.spec.template_spec

  -- `NewValidator` of the sandbox controller.
  abbrev pub sandbox_validator : Validator Sandbox
  sandbox_validator =
      with_create_validators (sandbox_volumes_validator ∷ sandbox_type_validator ∷ []) new_validator

  abbrev pub template_volumes_validator : SandboxTemplate → Result Warnings
  template_volumes_validator template = validate_volumes template.spec

  abbrev pub template_type_validator : SandboxTemplate → Result Warnings
  template_type_validator template = validate_type template.spec

  -- `NewValidator` of the sandbox template controller.
  abbrev pub template_validator : Validator SandboxTemplate
  template_validator =
      with_create_validators (template_volumes_validator ∷ template_type_validator ∷ [])
        new_validator

-- `time.Hour * 1`, in nanoseconds
abbrev pub default_ttl : Duration
default_ttl = pos 3600000000000

unfoldable pub default_sandbox : Sandbox → Sandbox
default_sandbox sandbox =
    if eqb_ℤ sandbox.spec.ttl (pos 0)
    then record sandbox { spec = record sandbox.spec { ttl = default_ttl } }
    else sandbox

-- `Defaulter.Default`: an object of another type is logged and left alone.
abbrev pub default : Option Sandbox → Option Sandbox
default none = none
default (some sandbox) = some (default_sandbox sandbox)
