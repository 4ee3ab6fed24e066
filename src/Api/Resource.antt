-- ===== src/Api/Resource.antt =====
-- api/core/v1alpha1/sandbox_types.go, sandboxtemplate_types.go, finalizers.go and the reasons of
-- sandbox-condition/conditions.go and sandboxtemplate-condition/conditions.go.
use sandbox_mommy.Base.{String, List, Option, Eq, String-discrete}
use sandbox_mommy.Api.Meta.{Object, Condition, Duration}
use sandbox_mommy.Api.Workload.{Opaque, PodSpec, VmiSpec, VmSpec}

abbrev pub sandbox_kind : String
sandbox_kind = "Sandbox"

-- `SchemeGroupVersion.String()`
abbrev pub scheme_group_version : String
scheme_group_version = "sandbox.io/v1alpha1"

abbrev pub protect_finalizer : String
protect_finalizer = "sandbox.io/protect-by-sandbox-controller"

pub data SandboxType : Type 0 where
  unset pod dvp_vm kubevirt_vmi : SandboxType
  other : String → SandboxType

unfoldable pub SandboxType-discrete : Discrete SandboxType
SandboxType-discrete = hlevel String-discrete

instance unfoldable pub sandbox_type_eq : Eq SandboxType
unfolding SandboxType-discrete
sandbox_type_eq = record { dec = SandboxType-discrete }

pub record SandboxVolumeSpec : Type 0 where
  pub name : String
  pub pvc_spec : Option Opaque
  pub data_volume_spec : Option Opaque
  pub virtual_disk_spec : Option Opaque

pub record SandboxTemplateSpec : Type 0 where
  pub pod_spec : Option PodSpec
  pub kubevirt_vmi_spec : Option VmiSpec
  pub dvp_vm_spec : Option VmSpec
  pub volumes : List SandboxVolumeSpec

pub record SandboxSpec : Type 0 where
  pub template : String
  pub template_spec : Option SandboxTemplateSpec
  pub ttl : Duration

pub record SandboxStatus : Type 0 where
  pub type : SandboxType
  pub conditions : List Condition

abbrev pub Sandbox : Type 0
Sandbox = Object SandboxSpec SandboxStatus

pub record SandboxTemplateStatus : Type 0 where
  pub conditions : List Condition
  pub type : SandboxType

abbrev pub SandboxTemplate : Type 0
SandboxTemplate = Object SandboxTemplateSpec SandboxTemplateStatus

abbrev pub type_ready : String
type_ready = "Ready"

-- `sandboxcondition.Reason`; those of a template are `ready` and `terminating`.
pub data Reason : Type 0 where
  ready pending failed terminating : Reason

-- `Reason.String`
abbrev pub reason_string : Reason → String
reason_string Reason.ready = "Ready"
reason_string Reason.pending = "Pending"
reason_string Reason.failed = "Failed"
reason_string Reason.terminating = "Terminating"

unfoldable pub Reason-discrete : Discrete Reason
Reason-discrete = hlevel

instance unfoldable pub reason_eq : Eq Reason
unfolding Reason-discrete
reason_eq = record { dec = Reason-discrete }
