-- ===== src/Controller/Sandbox/Deletion.antt =====
-- base_reconciler.go around sandbox_reconciler.go: the reconciliations of a sandbox that is being
-- deleted. The first writes the status, and the answer of the server to that takes the finalizer
-- back into the object; the next finds the status as it is to be and takes the finalizer off.
use sandbox_mommy.Base.{Bool, true, false, List, String, some, Distinct, ◌≡◌, ◌≢◌, refl, ap, ◌∙◌}
use sandbox_mommy.Exec.{Exec, ok}
use sandbox_mommy.Api.{
  Sandbox, SandboxType, SandboxStatus, SandboxTemplateSpec, ObjectKey, object_key,
  protect_finalizer,
}
use sandbox_mommy.Env.{Env}
use sandbox_mommy.Env.Store.{Store, get_answer}
use sandbox_mommy.Env.Writable.{Writable, remains, with_status_of}
use sandbox_mommy.Patch.{JsonPatchOperation}
use sandbox_mommy.Common.{detect_sandbox_type}
use sandbox_mommy.Updater.Patches.{finalizers_patch_applies, finalizers_patch_filled}
use sandbox_mommy.Sandboxer.{Sandboxer}
use sandbox_mommy.Updater.{metadata_patch}
use sandbox_mommy.Updater.Maps.{keys}
use sandbox_mommy.Reconciler.{ReconcileResult, no_requeue, reconcile as base_reconcile}
use sandbox_mommy.Reconciler.Quiet.{reconcile_writes_status, reconcile_patches}
use sandbox_mommy.Controller.Sandbox.Steps.{is_deleted, new_sandboxer}
use sandbox_mommy.Controller.Sandbox.{detected, reconcile}
use sandbox_mommy.Controller.Sandbox.Finalizers.{unprotected}
use sandbox_mommy.Controller.Sandbox.Cleanup.{Cleans, marked, reconciled}

module _ (E : Env) (boxes : Store E.sandboxes) (wr : Writable boxes)
    (deep_equal : SandboxStatus → SandboxStatus → Bool) where
  -- `Reconcile` of the controller for a key.
  abbrev pub run : ObjectKey → Exec E.World ReconcileResult
  run = base_reconcile E.sandboxes deep_equal (reconcile E)

  -- What a sandboxer that cleans up does to the sandboxes in the cluster: nothing. And its children
  -- stay gone when a sandbox is patched.
  pub record Aside {sandboxer : Sandboxer E.World} (c : Cleans E sandboxer) : Type 0 where
    pub leaves :
        (s : Sandbox) (w : E.World) (k : ObjectKey)
        → boxes.lookup (sandboxer.delete s w).1 k ≡ boxes.lookup w k
    pub stays :
        (ops : List JsonPatchOperation) (o s : Sandbox) (w v : E.World)
        → c.Gone s w v
        → c.Gone s w (wr.patched ops o v)

  got :
      (w : E.World) (s : Sandbox)
      → boxes.lookup w (object_key s) ≡ some s
      → E.sandboxes.get (object_key s) w ≡ (ok s, w)
  got w s there = boxes.get_lem (object_key s) w ∙ ap (λ o. (get_answer o, w)) there

  -- A sandbox that is being deleted, with its template written in it.
  pub record Leaving (spec : SandboxTemplateSpec) (sandboxer : Sandboxer E.World) (w : E.World)
      (s : Sandbox) : Type 0 where
    pub there : boxes.lookup w (object_key s) ≡ some s
    pub deleted : is_deleted s ≡ true
    pub written : s.spec.template_spec ≡ some spec
    pub runs : new_sandboxer E (detected E (some spec) s.status.type) ≡ some sandboxer
    pub annotated : Distinct (keys s.metadata.annotations)
    pub labelled : Distinct (keys s.metadata.labels)

  -- A type that is set is not detected again.
  detected_again :
      (spec : SandboxTemplateSpec) (type : SandboxType)
      → detected E (some spec) (detected E (some spec) type) ≡ detected E (some spec) type
  detected_again spec SandboxType.unset = go (detect_sandbox_type (some spec)) refl
    where
      go :
          (type : SandboxType)
          → detect_sandbox_type (some spec) ≡ type
          → detected E (some spec) type ≡ type
      go SandboxType.unset e = e
      go SandboxType.pod e = refl
      go SandboxType.dvp_vm e = refl
      go SandboxType.kubevirt_vmi e = refl
      go (SandboxType.other t) e = refl
  detected_again spec SandboxType.pod = refl
  detected_again spec SandboxType.dvp_vm = refl
  detected_again spec SandboxType.kubevirt_vmi = refl
  detected_again spec (SandboxType.other t) = refl

  module _ (spec : SandboxTemplateSpec) (sandboxer : Sandboxer E.World) (c : Cleans E sandboxer)
      (a : Aside c) where
    -- The world without the children, the copy that `Reconcile` leaves, and the object with its status.
    abbrev cleaned : Sandbox → E.World → E.World
    cleaned s w = (sandboxer.delete (marked E spec s) w).1

    abbrev copy_of : Sandbox → Sandbox
    copy_of s = unprotected E (marked E spec s)

    abbrev pub terminating : Sandbox → Sandbox
    terminating s = with_status_of (marked E spec s) s

    still_there :
        (w : E.World) (s : Sandbox)
        → Leaving spec sandboxer w s
        → boxes.lookup (cleaned s w) (object_key s) ≡ some s
    still_there w s l = a.leaves (marked E spec s) w (object_key s) ∙ l.there

    ran :
        (w : E.World) (s : Sandbox)
        → Leaving spec sandboxer w s
        → reconcile E (s, w) ≡ (ok no_requeue, (copy_of s, cleaned s w))
    ran w s l =
        reconciled E s w spec sandboxer l.deleted l.written l.runs (c.deletes (marked E spec s) w).0

    first_run :
        (w : E.World) (s : Sandbox)
        → Leaving spec sandboxer w s
        → deep_equal s.status (marked E spec s).status ≡ false
        → let w₁ = wr.posted (copy_of s) (cleaned s w) in
          (run (object_key s) w ≡ (ok no_requeue, w₁))
          × (boxes.lookup w₁ (object_key s) ≡ some (terminating s))
    first_run w s l changed = (
      reconcile_writes_status E.sandboxes deep_equal (reconcile E) (object_key s) w w (cleaned s w)
          (wr.posted (copy_of s) (cleaned s w)) s (copy_of s) (terminating s) (ok no_requeue)
          l.annotated l.labelled (got w s l.there) (ran w s l) changed
          (wr.update_status_lem (copy_of s) s (cleaned s w) (still_there w s l)) (refl, refl, refl),
      wr.lookup-posted (copy_of s) s (cleaned s w) (still_there w s l),
    )

    -- The finalizers that the program is to leave.
    abbrev left : Sandbox → List String
    left s = E.remove_finalizer s.metadata.finalizers protect_finalizer

    abbrev ops_of : Sandbox → List JsonPatchOperation
    ops_of s = (metadata_patch s.metadata (copy_of s).metadata).ops

    second_run :
        (w : E.World) (s : Sandbox)
        → Leaving spec sandboxer w s
        → deep_equal s.status (marked E spec s).status ≡ true
        → s.metadata.finalizers ≢ left s
        → let w₂ = wr.patched (ops_of s) (copy_of s) (cleaned s w) in
          (run (object_key s) w ≡ (ok no_requeue, w₂))
          × (boxes.lookup w₂ (object_key s) ≡ remains (unprotected E s))
          × c.Gone (marked E spec s) w w₂
    second_run w s l equal held =
        let applied = finalizers_patch_applies s.metadata (left s) l.annotated l.labelled in
        let there = still_there w s l in
        (
          reconcile_patches E.sandboxes deep_equal (reconcile E) (object_key s) w w (cleaned s w)
              (wr.patched (ops_of s) (copy_of s) (cleaned s w)) s (copy_of s) (unprotected E s)
              (ok no_requeue)
              (finalizers_patch_filled s.metadata (left s) l.annotated l.labelled held)
              (got w s l.there) (ran w s l) equal
              (wr.patch_lem (ops_of s) (copy_of s) s _ (cleaned s w) there applied),
          wr.lookup-patched (ops_of s) (copy_of s) s _ (cleaned s w) there applied refl,
          a.stays (ops_of s) (copy_of s) (marked E spec s) w (cleaned s w)
              (c.deletes (marked E spec s) w).1,
        )

    -- Two reconciliations by the controller, the base reconciler's part included, are enough for a
    -- sandbox that is being deleted and has the finalizer. Its template is written in it, and its
    -- type has a sandboxer that cleans up and writes no sandbox, and whose children stay gone when a
    -- sandbox is patched. The cluster takes statuses and patches as documented; the status with the
    -- condition Terminating differs from the one that is there, and not from itself when it is set
    -- again; annotations and labels have distinct keys. Then both reconciliations return no error.
    -- The first leaves the sandbox in the cluster with its finalizers and the new status. After the
    -- second the children are gone as the sandboxer promises, and so is the sandbox, unless other
    -- finalizers hold it.
    pub reconcile-Cleans :
        (w : E.World) (s : Sandbox)
        → Leaving spec sandboxer w s
        → deep_equal s.status (marked E spec s).status ≡ false
        → deep_equal (terminating s).status (marked E spec (terminating s)).status ≡ true
        → s.metadata.finalizers ≢ left s
        → (w₁ : E.World) × (w₂ : E.World) × (run (object_key s) w ≡ (ok no_requeue, w₁))
          × (boxes.lookup w₁ (object_key s) ≡ some (terminating s))
          × (run (object_key s) w₁ ≡ (ok no_requeue, w₂))
          × (boxes.lookup w₂ (object_key s) ≡ remains (unprotected E (terminating s)))
          × c.Gone s w₁ w₂
    reconcile-Cleans w s l changed settled held =
        let (ran₁, there₁) = first_run w s l changed in
        let l₁ : Leaving spec sandboxer _ (terminating s) = record {
          there = there₁;
          deleted = l.deleted;
          written = l.written;
          runs = ap (new_sandboxer E) (detected_again spec s.status.type) ∙ l.runs;
          annotated = l.annotated;
          labelled = l.labelled;
        } in
        let (ran₂, there₂, gone) = second_run _ (terminating s) l₁ settled held in
        (_, _, ran₁, there₁, ran₂, there₂, c.whatever_status s _ _ _ gone)
