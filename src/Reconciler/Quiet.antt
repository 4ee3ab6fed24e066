-- ===== src/Reconciler/Quiet.antt =====
-- base_reconciler.go: what is written back after the controller's reconciler has run.
use sandbox_mommy.Base.{
  Bool, true, false, List, [], ◌∷◌, ◌≢◌, length, arith, Distinct, ◌≡◌, refl, ap, ◌∙◌,
}
use sandbox_mommy.Base.Int.{eqb}
use sandbox_mommy.Exec.{Exec, Result, ok}
use sandbox_mommy.Exec.Laws.{bind_ok}
use sandbox_mommy.Api.{Object, ObjectKey, ObjectMeta}
use sandbox_mommy.Patch.{JsonPatchOperation}
use sandbox_mommy.Env.{KindClient}
use sandbox_mommy.Updater.{patched, metadata_patch, update_meta, update_status}
use sandbox_mommy.Updater.Maps.{slices_equal_refl, maps_equal_refl, keys}
use sandbox_mommy.Reconciler.{
  ReconcileResult, update, reconcile, work_on, finish, written_or_failed,
}

-- The metadata that `metaUpdater` compares.
abbrev pub SameMeta : ObjectMeta → ObjectMeta → Type 0
SameMeta m n =
    (m.finalizers ≡ n.finalizers) × (m.annotations ≡ n.annotations) × (m.labels ≡ n.labels)

no_metadata_patch :
    (m n : ObjectMeta)
    → Distinct (keys m.annotations)
    → Distinct (keys m.labels)
    → SameMeta m n
    → (metadata_patch m n).ops ≡ []
unfolding metadata_patch
no_metadata_patch m n da dl (f, a, l) =
    rw
      (
        ← f,
        ← a,
        ← l,
        slices_equal_refl m.finalizers,
        maps_equal_refl m.annotations da,
        maps_equal_refl m.labels dl,
      )
      refl

not_empty :
    (o : JsonPatchOperation) (os : List JsonPatchOperation) → eqb (length (o ∷ os)) 0 ≡ false
not_empty o os = ground arith

module _ {World Spec Status : Type 0} (c : KindClient World (Object Spec Status))
    (deep_equal : Status → Status → Bool)
    (reconciler : Exec (Object Spec Status × World) ReconcileResult) where
  update_meta_quiet :
      (old new : Object Spec Status) (w : World)
      → Distinct (keys old.metadata.annotations)
      → Distinct (keys old.metadata.labels)
      → SameMeta old.metadata new.metadata
      → update_meta c old new w ≡ (ok tt, w)
  unfolding update_meta
  update_meta_quiet old new w da dl same =
      rw (no_metadata_patch old.metadata new.metadata da dl same) refl

  update_meta_ops :
      (old new answer : Object Spec Status) (w v : World) (ops : List JsonPatchOperation)
      → (metadata_patch old.metadata new.metadata).ops ≡ ops
      → ops ≢ []
      → c.patch ops new w ≡ (ok answer, v)
      → update_meta c old new w ≡ (ok tt, v)
  unfolding update_meta
  update_meta_ops old new answer w v [] e filled sent = absurd (filled refl)
  update_meta_ops old new answer w v (o ∷ os) e filled sent =
      rw (e, not_empty o os) (ap (patched c) sent)

  update_meta_sent :
      (old new answer : Object Spec Status) (w v : World)
      → (metadata_patch old.metadata new.metadata).ops ≢ []
      → c.patch (metadata_patch old.metadata new.metadata).ops new w ≡ (ok answer, v)
      → update_meta c old new w ≡ (ok tt, v)
  update_meta_sent old new answer w v = update_meta_ops old new answer w v _ refl

  update_status_same :
      (old new : Object Spec Status) (w : World)
      → deep_equal old.status new.status ≡ true
      → update_status c deep_equal old new w ≡ (ok new, w)
  unfolding update_status
  update_status_same old new w equal = rw equal refl

  update_status_changed :
      (old new : Object Spec Status) (w : World)
      → deep_equal old.status new.status ≡ false
      → update_status c deep_equal old new w ≡ c.update_status new w
  unfolding update_status
  update_status_changed old new w changed = rw changed refl

  work_on_found :
      (key : ObjectKey) (w w₁ w₂ w₃ : World) (obj copy : Object Spec Status)
      (result : Result ReconcileResult)
      → c.get key w ≡ (ok obj, w₁)
      → reconciler (obj, w₁) ≡ (result, (copy, w₂))
      → update c deep_equal obj copy w₂ ≡ (ok tt, w₃)
      → reconcile c deep_equal reconciler key w ≡ (result, w₃)
  unfolding reconcile
  work_on_found key w w₁ w₂ w₃ obj copy result found ran written =
      ap (work_on c deep_equal reconciler) found
      ∙ ap (finish c deep_equal obj) ran
      ∙ ap (written_or_failed result) written

  -- Where the reconciler leaves the status and the compared metadata of its copy as they were, the
  -- result is the reconciler's own, be it an error or not, and nothing is written after it.
  pub reconcile_quiet :
      (key : ObjectKey) (w w₁ w₂ : World) (obj copy : Object Spec Status)
      (result : Result ReconcileResult)
      → Distinct (keys obj.metadata.annotations)
      → Distinct (keys obj.metadata.labels)
      → c.get key w ≡ (ok obj, w₁)
      → reconciler (obj, w₁) ≡ (result, (copy, w₂))
      → deep_equal obj.status copy.status ≡ true
      → SameMeta obj.metadata copy.metadata
      → reconcile c deep_equal reconciler key w ≡ (result, w₂)
  unfolding update
  reconcile_quiet key w w₁ w₂ obj copy result da dl found ran equal same =
      work_on_found key w w₁ w₂ w₂ obj copy result found ran (
        bind_ok (update_status c deep_equal obj copy) _ (update_status_same obj copy w₂ equal)
        ∙ update_meta_quiet obj copy w₂ da dl same)

  -- Where the status of the copy has changed it is written, also when the reconciler failed, and
  -- the result is still the reconciler's own. The compared metadata that the server answers are
  -- those that were read.
  pub reconcile_writes_status :
      (key : ObjectKey) (w w₁ w₂ w₃ : World) (obj copy answer : Object Spec Status)
      (result : Result ReconcileResult)
      → Distinct (keys obj.metadata.annotations)
      → Distinct (keys obj.metadata.labels)
      → c.get key w ≡ (ok obj, w₁)
      → reconciler (obj, w₁) ≡ (result, (copy, w₂))
      → deep_equal obj.status copy.status ≡ false
      → c.update_status copy w₂ ≡ (ok answer, w₃)
      → SameMeta obj.metadata answer.metadata
      → reconcile c deep_equal reconciler key w ≡ (result, w₃)
  unfolding update
  reconcile_writes_status key w w₁ w₂ w₃ obj copy answer result da dl found ran changed put same =
      work_on_found key w w₁ w₂ w₃ obj copy result found ran (
        bind_ok (update_status c deep_equal obj copy) _
          (update_status_changed obj copy w₂ changed ∙ put)
        ∙ update_meta_quiet obj answer w₃ da dl same)

  -- Where only the metadata of the copy have changed, the patch of the metadata is sent.
  pub reconcile_patches :
      (key : ObjectKey) (w w₁ w₂ w₃ : World) (obj copy answer : Object Spec Status)
      (result : Result ReconcileResult)
      → (metadata_patch obj.metadata copy.metadata).ops ≢ []
      → c.get key w ≡ (ok obj, w₁)
      → reconciler (obj, w₁) ≡ (result, (copy, w₂))
      → deep_equal obj.status copy.status ≡ true
      → c.patch (metadata_patch obj.metadata copy.metadata).ops copy w₂ ≡ (ok answer, w₃)
      → reconcile c deep_equal reconciler key w ≡ (result, w₃)
  unfolding update
  reconcile_patches key w w₁ w₂ w₃ obj copy answer result some_ops found ran equal sent =
      work_on_found key w w₁ w₂ w₃ obj copy result found ran (
        bind_ok (update_status c deep_equal obj copy) _ (update_status_same obj copy w₂ equal)
        ∙ update_meta_sent obj copy answer w₂ w₃ some_ops sent)
