-- ===== src/Webhook/Gates.antt =====
-- volume_validator.go and sandbox_webhook.go: what an accepted template may rely on, and the
-- default time to live.
use sandbox_mommy.Base.{String, true, List, ◌≡◌, ◌≢◌, arith}
use sandbox_mommy.Base.Int.{pos}
use sandbox_mommy.Api.{SandboxType, Sandbox}
use sandbox_mommy.FeatureGate.{kubevirt, dvp, enabled}
use sandbox_mommy.Webhook.{default_sandbox}

-- Whether a sandboxer of the type passes its feature gate.
abbrev pub IsOpen : List String → SandboxType → Type 0
IsOpen gates SandboxType.kubevirt_vmi = enabled gates kubevirt ≡ true
IsOpen gates SandboxType.dvp_vm = enabled gates dvp ≡ true
IsOpen gates _ = Unit

-- The defaulter leaves no sandbox without a time to live, keeps one that is set, and changes nothing
-- more when it runs again.
pub default_sandbox_lem :
    (sandbox : Sandbox)
    → ((default_sandbox sandbox).spec.ttl ≢ pos 0)
      × (sandbox.spec.ttl ≢ pos 0 → default_sandbox sandbox ≡ sandbox)
      × (default_sandbox (default_sandbox sandbox) ≡ default_sandbox sandbox)
unfolding default_sandbox
default_sandbox_lem sandbox = (ground arith, λ h. ground arith, ground arith)
