-- ===== src/Common.antt =====
-- internal/common/pod.go and sandbox.go.
use sandbox_mommy.Base.{String, ◌<>◌, Option, none, some}
use sandbox_mommy.Api.{
  Sandbox, SandboxType, unset, pod, dvp_vm, kubevirt_vmi, SandboxTemplateSpec, PodSpec, VmiSpec,
  VmSpec,
}

abbrev pub name_prefix : String
name_prefix = "sandbox-"

abbrev pub get_full_name : Sandbox → String
get_full_name sandbox = name_prefix <> sandbox.metadata.uid

-- The `switch` of `DetectSandboxType`.
abbrev pub detect : Option PodSpec → Option VmiSpec → Option VmSpec → SandboxType
detect (some _) _ _ = pod
detect none (some _) _ = kubevirt_vmi
detect none none (some _) = dvp_vm
detect none none none = unset

abbrev pub detect_sandbox_type : Option SandboxTemplateSpec → SandboxType
detect_sandbox_type none = unset
detect_sandbox_type (some spec) = detect spec.pod_spec spec.kubevirt_vmi_spec spec.dvp_vm_spec
