-- ===== src/Apiserver/Guard.antt =====
-- internal/apiserver/registry/sandbox/rest/attach.go: which requests to attach are served, and where.
use sandbox_mommy.Base.{
  ◌⊎◌, String, ◌≡◌, refl, true, false, Option, none, some, List, Bool-cases, inl, inr,
}
use sandbox_mommy.Exec.{Result, ok, err, Exec, continue, ◌>>=◌}
use sandbox_mommy.Exec.Holds.{Holds, Holds-map, continue-Holds}
use sandbox_mommy.Api.{Sandbox, SandboxType, ObjectKey, type_ready}
use sandbox_mommy.Condition.{get_condition}
use sandbox_mommy.FeatureGate.{kubevirt, dvp, enabled}
use sandbox_mommy.Apiserver.Secrets.{PodSecrets, beside}
use sandbox_mommy.Apiserver.Attach.{
  call, handler_at, get_pod_location, get_kubevirt_vmi_location, get_dvp_vm_location, Backend,
  Location, Handler, pod_handler, proxy_handler, panics, is_ready, Server, handler_of, connect,
  connect_to, load_secrets, dependents, get_proxy_handler, client_for,
}

-- The handlers that a sandbox of a type may get: a pod is streamed, a machine proxied, and a machine
-- only with its feature gate.
abbrev pub Allowed : List String → SandboxType → Handler → Type 0
Allowed gates SandboxType.pod (pod_handler l) = Unit
Allowed gates SandboxType.pod panics = Unit
Allowed gates SandboxType.kubevirt_vmi (proxy_handler l ca) = enabled gates kubevirt ≡ true
Allowed gates SandboxType.dvp_vm (proxy_handler l ca) = enabled gates dvp ≡ true
Allowed gates _ _ = ⊥

module _ {W : Type 0} (B : Backend W) where
  -- After a call on the world.
  call-Holds :
      {A : Type 0} (Q : Handler → Type 0) (f : A → Exec (Server B) Handler) (k : PodSecrets)
      (r : Result A × W)
      → ((a : A) (w : W) → r ≡ (ok a, w) → Holds Q (f a (k, w)))
      → Holds Q (continue f (beside B.read_file k r))
  call-Holds Q f k (ok a, w) h = h a w refl
  call-Holds Q f k (err e, w) h = tt

  proxy-Holds :
      (Q : Handler → Type 0) (l : Location) (s : Server B)
      → Q (proxy_handler l s.0.ca)
      → Holds Q (get_proxy_handler B l s)
  proxy-Holds Q l s q = elim (Bool-cases (B.append_certs s.0.ca)) [
    | inl h ↦ rw h q
    | inr h ↦ rw h tt
  ]

  pod-Allowed : (l : Option Location) → Allowed B.gates SandboxType.pod (handler_at l)
  pod-Allowed none = tt
  pod-Allowed (some l) = tt

  -- A machine that is read and whose console is then located.
  machine-Holds :
      {A : Type 0} (Q : Handler → Type 0) (find : Exec W A) (locate : A → Exec W Location)
      (s : Server B)
      → ((l : Location) (ca : String) → Q (proxy_handler l ca))
      → Holds Q ((call B find >>= λ m. call B (locate m) >>= get_proxy_handler B) s)
  machine-Holds Q find locate s q =
      call-Holds Q _ s.0 (find s.1)
        (λ m w _. call-Holds Q _ s.0 (locate m w) (λ l v _. proxy-Holds Q l (s.0, v) (q l s.0.ca)))

  handler-Allowed :
      (type : SandboxType) (key : ObjectKey) (s : Server B)
      → Holds (Allowed B.gates type) (handler_of B type key s)
  handler-Allowed SandboxType.unset key s = tt
  handler-Allowed (SandboxType.other type) key s = tt
  handler-Allowed SandboxType.pod key s =
      call-Holds (Allowed B.gates SandboxType.pod) _ s.0 (B.get_pod key s.1)
        (λ p w _. pod-Allowed (get_pod_location p))
  handler-Allowed SandboxType.kubevirt_vmi key s = elim (Bool-cases (enabled B.gates kubevirt)) [
    | inl g ↦
        continue-Holds (Allowed B.gates SandboxType.kubevirt_vmi) _ (client_for B kubevirt, s)
          (λ _ t _.
            machine-Holds (Allowed B.gates SandboxType.kubevirt_vmi) (B.get_vmi key)
              (get_kubevirt_vmi_location B) t (λ l ca. g))
    | inr g ↦ rw g tt
  ]
  handler-Allowed SandboxType.dvp_vm key s = elim (Bool-cases (enabled B.gates dvp)) [
    | inl g ↦
        continue-Holds (Allowed B.gates SandboxType.dvp_vm) _ (client_for B dvp, s)
          (λ _ t _.
            machine-Holds (Allowed B.gates SandboxType.dvp_vm) (B.get_vm key)
              (get_dvp_vm_location B) t (λ l ca. g))
    | inr g ↦ rw g tt
  ]

  -- What stands behind a handler: the lister's sandbox is ready, and allows it.
  abbrev pub Guarded : String → String → Server B → Handler → Type 0
  Guarded namespace name s h =
      (sandbox : Sandbox) × (w : W) × (B.get_sandbox namespace name s.1 ≡ (ok sandbox, w))
      × (is_ready (get_condition type_ready sandbox.status.conditions) ≡ true)
      × Allowed B.gates sandbox.status.type h

  -- A request to attach gets a handler only where the lister has the sandbox, its Ready condition is
  -- true, its type is the one that the handler serves, and for a virtual machine the feature gate of
  -- the type is set; any other request gets an error.
  pub connect-Guarded :
      (namespace name : String) (s : Server B)
      → Holds (Guarded namespace name s) (connect B namespace name s)
  connect-Guarded namespace name s =
      call-Holds (Guarded namespace name s) (connect_to B name) s.0
        (B.get_sandbox namespace name s.1)
        (λ sandbox w found.
          guarded sandbox w found
            (Bool-cases (is_ready (get_condition type_ready sandbox.status.conditions))))
    where
      guarded :
          (sandbox : Sandbox) (w : W)
          → B.get_sandbox namespace name s.1 ≡ (ok sandbox, w)
          → (is_ready (get_condition type_ready sandbox.status.conditions) ≡ true)
            ⊎ (is_ready (get_condition type_ready sandbox.status.conditions) ≡ false)
          → Holds (Guarded namespace name s) (connect_to B name sandbox (s.0, w))
      guarded sandbox w found (inr q) = rw q tt
      guarded sandbox w found (inl q) = rw q (
          continue-Holds (Guarded namespace name s) _ (load_secrets B (s.0, w)) (λ _ t _.
            Holds-map (Allowed B.gates sandbox.status.type) (Guarded namespace name s)
              (λ h a. (sandbox, w, found, q, a))
              (handler_of B sandbox.status.type (dependents B sandbox) t)
              (handler-Allowed sandbox.status.type (dependents B sandbox) t)))
