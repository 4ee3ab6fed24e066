-- ===== src/Env/Writable.antt =====
-- The documented behaviour of the two calls that change an object which is there: a JSON patch is
-- applied to the metadata as RFC 6902 says, and a write to the status subresource takes the status
-- and nothing else. No call conflicts with the write of another client.
use sandbox_mommy.Base.{String, List, [], ◌∷◌, Option, none, some, ◌≡◌, if◌then◌else◌}
use sandbox_mommy.Exec.{ok}
use sandbox_mommy.Api.{Object, ObjectMeta, object_key, is_zero}
use sandbox_mommy.Patch.{JsonPatchOperation}
use sandbox_mommy.Patch.Apply.{apply_all}
use sandbox_mommy.Env.{KindClient}
use sandbox_mommy.Env.Store.{Store}

module _ {Spec Status : Type 0} where
  abbrev pub with_metadata : ObjectMeta → Object Spec Status → Object Spec Status
  with_metadata m o = record o { metadata = m }

  abbrev pub with_status_of : Object Spec Status → Object Spec Status → Object Spec Status
  with_status_of o p = record p { status = o.status }

  -- Whether finalizers hold an object back.
  abbrev pub kept_by : List String → Object Spec Status → Option (Object Spec Status)
  kept_by [] o = none
  kept_by (f ∷ fs) o = some o

  -- What a patch leaves: an object that is being deleted and has no finalizers any more is gone.
  abbrev pub remains : Object Spec Status → Option (Object Spec Status)
  remains o =
      if is_zero o.metadata.deletion_timestamp then some o else kept_by o.metadata.finalizers o

pub record Writable {World Spec Status : Type 0} {c : KindClient World (Object Spec Status)}
    (st : Store c) : Type 0 where
  pub patched : List JsonPatchOperation → Object Spec Status → World → World
  pub posted : Object Spec Status → World → World
  pub patch_lem :
      (ops : List JsonPatchOperation) (o p : Object Spec Status) (m : ObjectMeta) (w : World)
      → st.lookup w (object_key o) ≡ some p
      → apply_all ops p.metadata ≡ some m
      → c.patch ops o w ≡ (ok (with_metadata m p), patched ops o w)
  pub lookup-patched :
      (ops : List JsonPatchOperation) (o p : Object Spec Status) (m : ObjectMeta) (w : World)
      → st.lookup w (object_key o) ≡ some p
      → apply_all ops p.metadata ≡ some m
      → object_key (with_metadata m p) ≡ object_key o
      → st.lookup (patched ops o w) (object_key o) ≡ remains (with_metadata m p)
  pub update_status_lem :
      (o p : Object Spec Status) (w : World)
      → st.lookup w (object_key o) ≡ some p
      → c.update_status o w ≡ (ok (with_status_of o p), posted o w)
  pub lookup-posted :
      (o p : Object Spec Status) (w : World)
      → st.lookup w (object_key o) ≡ some p
      → st.lookup (posted o w) (object_key o) ≡ some (with_status_of o p)
