-- ===== src/Sandboxer/Pod/Steady.antt =====
-- pod.go over a store: `Create` and `Status` of a sandbox whose pod runs.
use sandbox_mommy.Base.{some, none, All, Distinct, ◌≡◌, ◌≢◌, refl, ap, ◌∙◌}
use sandbox_mommy.Exec.{ok}
use sandbox_mommy.Exec.Laws.{bind_ok}
use sandbox_mommy.Api.{
  object_key, object_key_eq, Pod, PodPhase, Sandbox, SandboxTemplateSpec, condition_true, Reason,
  reason_eq,
}
use sandbox_mommy.Env.{Env}
use sandbox_mommy.Env.Store.{Store}
use sandbox_mommy.Sandboxer.{main_key}
use sandbox_mommy.Sandboxer.Ensure.{find_lem}
use sandbox_mommy.Sandboxer.Ownership.{NoForeign}
use sandbox_mommy.Sandboxer.Pod.{get_pod, create_pod, status_pod}
use sandbox_mommy.Sandboxer.Pvc.{make_persistent_volume_claims, create_pvcs}
use sandbox_mommy.Sandboxer.Pvc.Laws.{create_pvcs_idle}
use sandbox_mommy.Webhook.Names.{names}

module _ (E : Env) (pods : Store E.pods) (pvcs : Store E.pvcs) where
  -- Every claim of the template is there and belongs to the sandbox, and its pod runs.
  pub record Running (s : Sandbox) (template : SandboxTemplateSpec) (w : E.World) : Type 0 where
    pub distinct : Distinct (names template.volumes)
    pub claimed :
        All (λ o. pvcs.lookup w (object_key o) ≢ none) (make_persistent_volume_claims E s template)
    pub free : All (NoForeign E pvcs s w) (make_persistent_volume_claims E s template)
    pub pod : Pod
    pub found : pods.lookup w (main_key s) ≡ some pod
    pub phase : pod.status.phase ≡ PodPhase.running

  got :
      (s : Sandbox) (w : E.World) (p : Pod)
      → pods.lookup w (main_key s) ≡ some p
      → get_pod E s w ≡ (ok (some p), w)
  unfolding get_pod
  got s w p e = find_lem E pods "failed to get pod %w" (main_key s) w ∙ ap (λ o. (ok o, w)) e

  pub create_pod_idle :
      (s : Sandbox) (template : SandboxTemplateSpec) (w : E.World)
      → Running s template w
      → create_pod E s template w ≡ (ok tt, w)
  unfolding create_pod reason_eq
  create_pod_idle s template w r =
      bind_ok (create_pvcs E s (make_persistent_volume_claims E s template)) _
        (create_pvcs_idle E pvcs s template w r.distinct r.free r.claimed)
      ∙ bind_ok (get_pod E s) _ (got s w r.pod r.found)
      ∙ rw r.phase refl

  pub status_pod_ready :
      (s : Sandbox) (template : SandboxTemplateSpec) (w : E.World)
      → Running s template w
      → status_pod E s w ≡ (ok (condition_true, Reason.ready, ""), w)
  unfolding status_pod
  status_pod_ready s template w r =
      bind_ok (get_pod E s) _ (got s w r.pod r.found) ∙ rw r.phase refl
