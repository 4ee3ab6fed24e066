-- ===== src/Webhook/Names.antt =====
-- volume_validator.go: when `VolumesValidator.Validate` accepts a template.
use sandbox_mommy.Base.{String, List, map}
use sandbox_mommy.Api.{SandboxVolumeSpec}

abbrev pub names : List SandboxVolumeSpec → List String
names = map (λ v. v.name)
