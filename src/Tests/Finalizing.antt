-- ===== src/Tests/Finalizing.antt =====
-- The finalizer of a sandbox in the cluster.
use sandbox_mommy.Base.{
  string_eq, ◌==◌, Bool, true, false, ◌&&◌, List, [], ◌∷◌, Option, none, some, ◌≡◌, ◌≢◌, refl, sym,
  ap,
}
use mathlib.Core.Path.{subst}
use sandbox_mommy.Base.Int.{pos}
use sandbox_mommy.Exec.{ok}
use sandbox_mommy.Api.{
  Sandbox, SandboxStatus, SandboxType, unset, pod, Condition, ObjectKey, ObjectMeta, object_key,
  object_key_eq, protect_finalizer,
}
use sandbox_mommy.Patch.{JsonPatchOperation}
use sandbox_mommy.Patch.Apply.{apply_all}
use sandbox_mommy.Env.Store.{IsReleased}
use sandbox_mommy.Env.Writable.{Writable, remains}
use sandbox_mommy.Protect.{protect_object, unprotect_object}
use sandbox_mommy.Protect.Laws.{protect_roundtrip, with_finalizers}
use sandbox_mommy.Reconciler.{no_requeue}
use sandbox_mommy.Sandboxer.{main_key}
use sandbox_mommy.Sandboxer.Release.{Freed, Freed-after}
use sandbox_mommy.Sandboxer.Pod.{new_pod_sandboxer}
use sandbox_mommy.Sandboxer.Pod.Laws.{delete_pod-Untouched}
use sandbox_mommy.Controller.Sandbox.Finalizers.{unprotected}
use sandbox_mommy.Controller.Sandbox.Cleaners.{pod_cleans}
use sandbox_mommy.Controller.Sandbox.Cleanup.{marked}
use sandbox_mommy.Controller.Sandbox.Deletion.{run, Aside, Leaving, terminating, reconcile-Cleans}
use sandbox_mommy.Memory.{lookup_object, patch_at, patch_to}
use sandbox_mommy.Memory.Laws.{client_store}
use sandbox_mommy.Memory.Writes.{client_writable}
use sandbox_mommy.Tests.Children.{running_world}
use sandbox_mommy.Tests.Cluster.{
  World, empty_world, cluster, pod_store, pvc_store, box_shelf, box_store, claims-Apart, pods-Apart,
  pods_boxes-Apart, claims_boxes-Apart, template_spec, sandbox,
}

box_writable : Writable box_store
box_writable = client_writable box_shelf (λ os w. refl)

with_sandbox : World
with_sandbox = record empty_world { sandboxes = sandbox ∷ [] }

sandbox_there : box_store.lookup with_sandbox (object_key sandbox) ≡ some sandbox
unfolding with_sandbox client_store string_eq object_key_eq
sandbox_there = refl

protect_roundtrip_example :
    (w₁ : World) × (w₂ : World) × (protect_object cluster cluster.sandboxes protect_finalizer
        sandbox with_sandbox
      ≡ (ok (with_finalizers (protect_finalizer ∷ []) sandbox), w₁))
    × (box_store.lookup w₁ (object_key sandbox)
        ≡ some (with_finalizers (protect_finalizer ∷ []) sandbox))
    × (unprotect_object cluster cluster.sandboxes protect_finalizer
          (with_finalizers (protect_finalizer ∷ []) sandbox)
          w₁
        ≡ (ok sandbox, w₂))
    × (box_store.lookup w₂ (object_key sandbox) ≡ some sandbox)
protect_roundtrip_example =
    protect_roundtrip cluster box_store box_writable protect_finalizer sandbox with_sandbox
      sandbox_there refl refl (λ m. m)

-- The sandbox under the finalizer, being deleted, with its pod and its claims in the cluster.
abbrev going : Sandbox
going = record sandbox {
  metadata = record sandbox.metadata {
    deletion_timestamp = some (pos 90);
    finalizers = protect_finalizer ∷ [];
  };
}

abbrev going_world : World
going_world = record running_world { sandboxes = going ∷ [] }

-- Statuses are told apart by the type and the reasons of the conditions.
abbrev equal_types : SandboxType → SandboxType → Bool
equal_types unset unset = true
equal_types pod pod = true
equal_types _ _ = false

abbrev equal_reasons : List Condition → List Condition → Bool
equal_reasons [] [] = true
equal_reasons (c ∷ cs) (d ∷ ds) = c.reason == d.reason && equal_reasons cs ds
equal_reasons _ _ = false

abbrev same_status : SandboxStatus → SandboxStatus → Bool
same_status s t = equal_types s.type t.type && equal_reasons s.conditions t.conditions

-- A patch of a sandbox leaves the pods and the claims.
patch_to_leaves :
    (m : Option ObjectMeta) (k : ObjectKey) (p : Sandbox) (w : World)
    → ((patch_to box_shelf m k p w).1.pods ≡ w.pods)
      × ((patch_to box_shelf m k p w).1.pvcs ≡ w.pvcs)
patch_to_leaves none k p w = (refl, refl)
patch_to_leaves (some m) k p w = (refl, refl)

patch_at_leaves :
    (found : Option Sandbox) (ops : List JsonPatchOperation) (o : Sandbox) (w : World)
    → ((patch_at box_shelf found ops o w).1.pods ≡ w.pods)
      × ((patch_at box_shelf found ops o w).1.pvcs ≡ w.pvcs)
patch_at_leaves none ops o w = (refl, refl)
patch_at_leaves (some p) ops o w = patch_to_leaves (apply_all ops p.metadata) (object_key o) p w

pods_left :
    (ops : List JsonPatchOperation) (o : Sandbox) (w : World) (k : ObjectKey)
    → pod_store.lookup (box_writable.patched ops o w) k ≡ pod_store.lookup w k
unfolding box_writable client_writable client_store
pods_left ops o w k =
    ap (lookup_object k) (patch_at_leaves (box_store.lookup w (object_key o)) ops o w).0

claims_left :
    (ops : List JsonPatchOperation) (o : Sandbox) (w : World) (k : ObjectKey)
    → pvc_store.lookup (box_writable.patched ops o w) k ≡ pvc_store.lookup w k
unfolding box_writable client_writable client_store
claims_left ops o w k =
    ap (lookup_object k) (patch_at_leaves (box_store.lookup w (object_key o)) ops o w).1

pods-Aside :
    Aside cluster box_store box_writable same_status
      (pod_cleans cluster pod_store pvc_store claims-Apart pods-Apart)
pods-Aside = record {
  leaves = λ s w.
      delete_pod-Untouched cluster pod_store pvc_store claims-Apart pods-Apart s box_store
        pods_boxes-Apart claims_boxes-Apart w;
  stays = λ ops o s w v (gone, freed). (
    subst IsReleased (sym (pods_left ops o v (main_key s))) gone,
    Freed-after cluster pvc_store s w v (box_writable.patched ops o v) (claims_left ops o v) freed,
  );
}

going_there : box_store.lookup going_world (object_key going) ≡ some going
unfolding client_store string_eq object_key_eq
going_there = refl

going-Leaving :
    Leaving cluster box_store box_writable same_status template_spec
      (new_pod_sandboxer cluster)
      going_world
      going
going-Leaving = record {
  there = going_there;
  deleted = refl;
  written = refl;
  runs = refl;
  annotated = tt;
  labelled = tt;
}

abbrev again : Sandbox
again =
    terminating cluster box_store box_writable same_status template_spec (new_pod_sandboxer cluster)
      (pod_cleans cluster pod_store pvc_store claims-Apart pods-Apart) pods-Aside going

settled : same_status again.status (marked cluster template_spec again).status ≡ true
unfolding string_eq
settled = refl

held : protect_finalizer ∷ [] ≢ cluster.remove_finalizer (protect_finalizer ∷ []) protect_finalizer
unfolding string_eq
held e = cc e

reconcile-Cleans_example :
    (w₁ : World) × (w₂ : World) × (run cluster box_store box_writable same_status
        (object_key going)
        going_world
      ≡ (ok no_requeue, w₁))
    × (box_store.lookup w₁ (object_key going) ≡ some again)
    × (run cluster box_store box_writable same_status (object_key going) w₁ ≡ (ok no_requeue, w₂))
    × (box_store.lookup w₂ (object_key going) ≡ remains (unprotected cluster again))
    × (IsReleased (pod_store.lookup w₂ (main_key going)) × Freed cluster pvc_store going w₁ w₂)
reconcile-Cleans_example =
    reconcile-Cleans cluster box_store box_writable same_status template_spec
      (new_pod_sandboxer cluster) (pod_cleans cluster pod_store pvc_store claims-Apart pods-Apart)
      pods-Aside going_world going going-Leaving refl settled held
