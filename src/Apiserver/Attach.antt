-- ===== src/Apiserver/Attach.antt =====
-- internal/apiserver/registry/sandbox/rest/attach.go and client/client.go: where a request to attach
-- is sent.
use sandbox_mommy.Base.{
  String, ◌<>◌, Bool, true, false, Option, none, some, List, [], ◌∷◌, ◌==◌, string_eq,
  if◌then◌else◌,
}
use sandbox_mommy.Exec.{
  Error, message, wrapped, Result, ok, err, Exec, pure, raise, lift, ◌>>=◌, ◌>>◌, or_wrap,
}
use sandbox_mommy.Api.{
  Sandbox, SandboxType, StringMap, ObjectKey, Pod, Container, VirtualMachineInstance,
  VirtualMachine, Condition, ConditionStatus, condition_true, type_ready,
}
use sandbox_mommy.Condition.{get_condition}
use sandbox_mommy.Common.{get_full_name}
use sandbox_mommy.FeatureGate.{FeatureGate, kubevirt, dvp, gate_string, enabled}
use sandbox_mommy.Apiserver.Secrets.{PodSecrets, load, outside}

-- `rest.Config`, as far as it is changed.
pub record RestConfig : Type 0 where
  pub host : String
  pub group_version : String
  pub api_path : String
  pub content_type : String
  pub user_agent : String

-- What the API server uses and does not implement, over a world `W`: the lister of sandboxes (by
-- namespace and name), the clients of the three kinds, files, the gates of the command line, and
-- what reads certificates and makes REST clients, with the group version that DVP declares.
pub record Backend (W : Type 0) : Type 0 where
  pub get_sandbox : String → String → Exec W Sandbox
  pub get_pod : ObjectKey → Exec W Pod
  pub get_vmi : ObjectKey → Exec W VirtualMachineInstance
  pub get_vm : ObjectKey → Exec W VirtualMachine
  pub read_file : String → Exec W String
  pub gates : List String
  pub config : RestConfig
  pub dvp_group_version : String
  pub default_user_agent : String
  pub rest_client_for : RestConfig → Option Error
  pub append_certs : String → Bool

-- The URL of a location, by what it is made of: a command in a container of a pod, with the streams
-- that are open, or the path of a console.
pub data Location : Type 0 where
  exec :
      (namespace name container : String) (command : List String) (stdin stdout stderr tty : Bool)
      → Location
  console : (path : String) → Location

-- The handler of a request. A pod's streams itself, the others are proxied with the certificates of
-- the cluster. `panics` is no handler: the code indexes a list of containers that is empty.
pub data Handler : Type 0 where
  pod_handler : Location → Handler
  proxy_handler : Location → String → Handler
  panics : Handler

-- A key that a map of strings does not have gives the empty string.
abbrev pub value_at : StringMap → String → String
value_at [] key = ""
value_at ((k, v) ∷ m) key = if k == key then v else value_at m key

abbrev pub default_container_annotation_name : String
default_container_annotation_name = "kubectl.kubernetes.io/default-container"

-- The loop over the containers.
abbrev pub container_name : StringMap → String → List Container → String
container_name annotations name [] = name
container_name annotations name (c ∷ cs) =
    if value_at annotations default_container_annotation_name == "true"
    then c.name
    else container_name annotations name cs

abbrev pub location_in : Pod → List Container → Option Location
location_in p [] = none
location_in p (c ∷ cs) = some (
    exec p.metadata.namespace p.metadata.name
      (container_name p.metadata.annotations c.name (c ∷ cs)) ("/bin/bash" ∷ []) true true false
      true)

-- None where `Containers[0]` panics.
abbrev pub get_pod_location : Pod → Option Location
get_pod_location p = location_in p p.spec.containers

abbrev pub handler_at : Option Location → Handler
handler_at none = panics
handler_at (some l) = pod_handler l

abbrev pub is_true : ConditionStatus → Bool
is_true condition_true = true
is_true _ = false

-- No condition has the empty status.
abbrev pub is_ready : Option Condition → Bool
is_ready none = false
is_ready (some c) = is_true c.status

module _ {W : Type 0} (B : Backend W) where
  -- `Kubevirt` and `DVP` of the client.
  abbrev pub client_for : FeatureGate → Result (Unit {0})
  client_for gate =
      if enabled B.gates gate
      then ok tt
      else err (message "featuregate %s is not enabled" (gate_string gate ∷ []))

  abbrev pub get_kubevirt_vmi_location : VirtualMachineInstance → Exec W Location
  get_kubevirt_vmi_location vmi =
      lift (client_for kubevirt)
      >> pure (
          console (
            "/apis/subresources.kubevirt.io/v1/namespaces/" <> vmi.metadata.namespace
            <> "/virtualmachineinstances/" <> vmi.metadata.name <> "/console"))

  -- `restClientForDVPVM`
  abbrev pub rest_config_for_dvp_vm : RestConfig
  rest_config_for_dvp_vm = record {
    host = B.config.host;
    group_version = B.dvp_group_version;
    api_path = "/apis";
    content_type = "application/json";
    user_agent = if B.config.user_agent == "" then B.default_user_agent else B.config.user_agent;
  }

  abbrev pub rest_client_for_dvp_vm : Result (Unit {0})
  rest_client_for_dvp_vm = elim (B.rest_client_for rest_config_for_dvp_vm) [
    | none ↦ ok tt
    | some e ↦ err e
  ]

  abbrev pub get_dvp_vm_location : VirtualMachine → Exec W Location
  get_dvp_vm_location vm =
      lift rest_client_for_dvp_vm
      >> pure (
          console (
            "/apis/subresources.virtualization.deckhouse.io/v1alpha2/namespaces/"
            <> vm.metadata.namespace <> "/virtualmachines/" <> vm.metadata.name <> "/console"))

  abbrev pub Server : Type 0
  Server = PodSecrets × W

  abbrev pub call : {A : Type 0} → Exec W A → Exec Server A
  call m = outside B.read_file m

  -- The certificates of the transport, in place of the transport.
  abbrev pub get_transport_with_cluster_ca : String → Result String
  get_transport_with_cluster_ca ca =
      if B.append_certs ca then ok ca else err (message "failed to parse CA certificate" [])

  abbrev pub proxy_with : Location → Result String → Result Handler
  proxy_with l (ok transport) = ok (proxy_handler l transport)
  proxy_with l (err e) = err e

  abbrev pub get_proxy_handler : Location → Exec Server Handler
  get_proxy_handler l s = (proxy_with l (get_transport_with_cluster_ca s.0.ca), s)

  -- The `switch` on the type.
  abbrev pub handler_of : SandboxType → ObjectKey → Exec Server Handler
  handler_of SandboxType.pod key = do
    p ← call (B.get_pod key)
    pure (handler_at (get_pod_location p))
  handler_of SandboxType.kubevirt_vmi key = do
    lift (client_for kubevirt)
    vmi ← call (B.get_vmi key)
    l ← call (get_kubevirt_vmi_location vmi)
    get_proxy_handler l
  handler_of SandboxType.dvp_vm key = do
    lift (client_for dvp)
    vm ← call (B.get_vm key)
    l ← call (get_dvp_vm_location vm)
    get_proxy_handler l
  handler_of SandboxType.unset key = raise (message "unknown sandbox type %s" ("" ∷ []))
  handler_of (SandboxType.other type) key = raise (message "unknown sandbox type %s" (type ∷ []))

  abbrev pub load_secrets : Exec Server Unit
  load_secrets = or_wrap (load B.read_file) (wrapped "failed to load secrets: %w" [])

  abbrev pub dependents : Sandbox → ObjectKey
  dependents sandbox = record {
    namespace = sandbox.metadata.namespace;
    name = get_full_name sandbox;
  }

  abbrev pub connect_to : String → Sandbox → Exec Server Handler
  connect_to name sandbox =
      if is_ready (get_condition type_ready sandbox.status.conditions)
      then (load_secrets >> handler_of sandbox.status.type (dependents sandbox))
      else raise (message "sandbox %s is not ready" (name ∷ []))

  abbrev pub connect : String → String → Exec Server Handler
  connect namespace name = call (B.get_sandbox namespace name) >>= connect_to name
