-- ===== src/Apiserver/Pods.antt =====
-- internal/apiserver/registry/sandbox/rest/attach.go: the container that a request to attach to a pod
-- reaches.
use sandbox_mommy.Base.{
  String, ◌≡◌, refl, ap, ◌∙◌, true, false, List, [], ◌∷◌, ◌==◌, string_eq, Bool-cases, inl, inr,
}
use sandbox_mommy.Exec.{ok}
use sandbox_mommy.Exec.Laws.{bind_ok, or_wrap_ok}
use sandbox_mommy.Api.{Sandbox, SandboxType, StringMap, Pod, Container, type_ready}
use sandbox_mommy.Condition.{get_condition}
use sandbox_mommy.Apiserver.Secrets.{PodSecrets, load, beside}
use sandbox_mommy.Apiserver.Attach.{
  Backend, exec, pod_handler, is_ready, value_at, default_container_annotation_name, container_name,
  handler_of, call, connect, connect_to, load_secrets, dependents,
}

no_default :
    (annotations : StringMap) (name : String) (cs : List Container)
    → (value_at annotations default_container_annotation_name == "true") ≡ false
    → container_name annotations name cs ≡ name
no_default annotations name [] q = refl
no_default annotations name (c ∷ cs) q = rw q (no_default annotations name cs q)

first_container :
    (annotations : StringMap) (c : Container) (cs : List Container)
    → container_name annotations c.name (c ∷ cs) ≡ c.name
first_container annotations c cs =
    elim (Bool-cases (value_at annotations default_container_annotation_name == "true")) [
      | inl q ↦ rw q refl
      | inr q ↦ no_default annotations c.name (c ∷ cs) q
    ]

module _ {W : Type 0} (B : Backend W) where
  -- A request to attach to a sandbox that is ready, of type Pod, gets a shell in the first container
  -- of its pod, whatever the annotation for the default container says, where the sandbox, the
  -- secrets and the pod are read and the pod has a container.
  pub connect_pod :
      (namespace name : String) (k l : PodSecrets) (w v u x : W) (sandbox : Sandbox) (p : Pod)
      (c : Container) (cs : List Container)
      → B.get_sandbox namespace name w ≡ (ok sandbox, v)
      → is_ready (get_condition type_ready sandbox.status.conditions) ≡ true
      → load B.read_file (k, v) ≡ (ok tt, (l, u))
      → sandbox.status.type ≡ SandboxType.pod
      → B.get_pod (dependents B sandbox) u ≡ (ok p, x)
      → p.spec.containers ≡ c ∷ cs
      → connect B namespace name (k, w) ≡ (
        ok (
            pod_handler (
              exec p.metadata.namespace p.metadata.name c.name
                ("/bin/bash" ∷ [])
                true
                true
                false
                true)),
        (l, x),
      )
  connect_pod namespace name k l w v u x sandbox p c cs found ready loaded type got containers =
      bind_ok (call B (B.get_sandbox namespace name)) (connect_to B name)
        (ap (beside B.read_file k) found)
      ∙ rw ready (
          bind_ok (load_secrets B) (λ _. handler_of B sandbox.status.type (dependents B sandbox))
            (or_wrap_ok (load B.read_file) _ loaded)
          ∙ rw type (
              bind_ok (call B (B.get_pod (dependents B sandbox))) _ (ap (beside B.read_file l) got)
              ∙ rw (containers, first_container p.metadata.annotations c cs) refl))
