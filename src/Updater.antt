-- ===== src/Updater.antt =====
-- pkg/controller/reconciler/meta_updater.go and status_updater.go
pub mod Maps
pub mod Patches
use sandbox_mommy.Base.{
  String, string_eq, ◌==◌, Bool, true, false, ◌&&◌, List, [], ◌∷◌, Option, none, some, length,
  if◌then◌else◌,
}
use sandbox_mommy.Base.Int.{eqb}
use sandbox_mommy.Exec.{Exec, Result, ok, err, wrapped, is_not_found, pure, lift, ◌>>=◌}
use sandbox_mommy.Api.{Object, ObjectMeta, StringMap}
use sandbox_mommy.Patch.{
  JsonPatchOperation, JsonPatch, strings, entries, new_json_patch, append, len, payload,
  with_test_op, with_replace_op,
}
use sandbox_mommy.Env.{KindClient}

-- `slices.Equal`
abbrev pub slices_equal : List String → List String → Bool
slices_equal [] [] = true
slices_equal (a ∷ xs) (b ∷ ys) = a == b && slices_equal xs ys
slices_equal _ _ = false

abbrev pub lookup : String → StringMap → Option String
lookup k [] = none
lookup k ((j, v) ∷ m) = if j == k then some v else lookup k m

abbrev same_value : Option String → String → Bool
same_value none v = false
same_value (some w) v = w == v

abbrev included : StringMap → StringMap → Bool
included [] n = true
included ((k, v) ∷ m) n = same_value (lookup k n) v && included m n

-- `maps.Equal` on maps as association lists with distinct keys
unfoldable pub maps_equal : StringMap → StringMap → Bool
maps_equal m n = eqb (length m) (length n) && included m n

abbrev pub json_patch_ops_for_finalizers : List String → List String → List JsonPatchOperation
json_patch_ops_for_finalizers old new =
    with_test_op "/metadata/finalizers" (strings old)
    ∷ with_replace_op "/metadata/finalizers" (strings new)
    ∷ []

abbrev pub json_patch_ops_for_annotations : StringMap → StringMap → List JsonPatchOperation
json_patch_ops_for_annotations old new =
    with_test_op "/metadata/annotations" (entries old)
    ∷ with_replace_op "/metadata/annotations" (entries new)
    ∷ []

abbrev pub json_patch_ops_for_labels : StringMap → StringMap → List JsonPatchOperation
json_patch_ops_for_labels old new =
    with_test_op "/metadata/labels" (entries old)
    ∷ with_replace_op "/metadata/labels" (entries new)
    ∷ []

-- `if !equal { patch.Append(ops...) }`
abbrev pub append_unless : Bool → List JsonPatchOperation → JsonPatch → JsonPatch
append_unless equal ops p = if equal then p else append p ops

-- The patch that `metaUpdater.Update` builds.
unfoldable pub metadata_patch : ObjectMeta → ObjectMeta → JsonPatch
metadata_patch old new =
    append_unless (maps_equal old.labels new.labels)
      (json_patch_ops_for_labels old.labels new.labels)
      (append_unless (maps_equal old.annotations new.annotations)
        (json_patch_ops_for_annotations old.annotations new.annotations)
        (append_unless (slices_equal old.finalizers new.finalizers)
          (json_patch_ops_for_finalizers old.finalizers new.finalizers) (new_json_patch [])))

module _ {World Spec Status : Type 0} (c : KindClient World (Object Spec Status)) where
  abbrev pub patched : Result (Object Spec Status) × World → Result (Unit {0}) × World
  patched (ok _, s) = (ok tt, s)
  patched (err e, s) =
      if is_not_found e
      then (ok tt, s)
      else (err (wrapped "error patching metadata (%s): %w" [] e), s)

  -- The call of `Patch`: an object that is gone needs no patch.
  abbrev pub send_patch : List JsonPatchOperation → Object Spec Status → Exec World Unit
  send_patch bytes obj s = patched (c.patch bytes obj s)

  -- `metaUpdater.Update`
  unfoldable pub update_meta : Object Spec Status → Object Spec Status → Exec World Unit
  update_meta old_obj new_obj =
      let patch = metadata_patch old_obj.metadata new_obj.metadata in
      if eqb (len patch) 0
      then pure tt
      else do bytes ← lift (payload patch); send_patch bytes new_obj

  -- `statusUpdater.Update`, with `equality.Semantic.DeepEqual` on the statuses; the object comes
  -- back as the client leaves it.
  unfoldable pub update_status :
      (Status → Status → Bool)
      → Object Spec Status
      → Object Spec Status
      → Exec World (Object Spec Status)
  update_status deep_equal obj_old obj_new =
      if deep_equal obj_old.status obj_new.status then pure obj_new else c.update_status obj_new
