-- ===== src/Memory.antt =====
-- A cluster in memory, for the tests: each kind is a list of objects, of which the first under a key
-- counts. It behaves as Env/Store.antt and Env/Writable.antt say.
pub mod Keyed
pub mod Laws
pub mod Writes
use sandbox_mommy.Base.{
  String, string_eq, ◌==◌, ◌!=◌, Bool, true, false, List, [], ◌∷◌, Option, none, some,
  if◌then◌else◌,
}
use sandbox_mommy.Exec.{Exec, ok, err, api, not_found, ApiReason}
use sandbox_mommy.Api.{Object, ObjectMeta, ObjectKey, object_key, object_key_eq}
use sandbox_mommy.Env.{KindClient}
use sandbox_mommy.Env.Writable.{with_metadata, with_status_of, remains}
use sandbox_mommy.Patch.{JsonPatchOperation}
use sandbox_mommy.Patch.Apply.{apply_all}
use sandbox_mommy.Memory.Keyed.{lookup, drop_key, visible, filter}
use sandbox_mommy.Env.Store.{get_answer}

abbrev pub lookup_object :
    {Spec Status : Type 0} → ObjectKey → List (Object Spec Status) → Option (Object Spec Status)
lookup_object = lookup object_key

abbrev pub is_in : {Spec Status : Type 0} → String → Object Spec Status → Bool
is_in n o = o.metadata.namespace == n

abbrev pub in_namespace :
    {Spec Status : Type 0} → String → List (Object Spec Status) → List (Object Spec Status)
in_namespace n os = filter object_key (is_in n) (visible object_key os)

-- A world that holds the objects of a kind.
pub record Shelf (World O : Type 0) : Type 0 where
  pub view : World → List O
  pub put : List O → World → World

module _ {World Spec Status : Type 0} (shelf : Shelf World (Object Spec Status)) where
  abbrev pub create_at : Option (Object Spec Status) → Object Spec Status → Exec World Unit
  create_at none o w = (ok tt, shelf.put (o ∷ shelf.view w) w)
  create_at (some p) o w = (err (api (ApiReason.other "AlreadyExists")), w)

  abbrev pub delete_at : Option (Object Spec Status) → Object Spec Status → Exec World Unit
  delete_at none o w = (err (api not_found), w)
  delete_at (some p) o w = (ok tt, shelf.put (drop_key object_key (object_key o) (shelf.view w)) w)

  abbrev pub place :
      Option (Object Spec Status) → List (Object Spec Status) → List (Object Spec Status)
  place none os = os
  place (some o) os = o ∷ os

  abbrev pub patch_to :
      Option ObjectMeta → ObjectKey → Object Spec Status → Exec World (Object Spec Status)
  patch_to none k p w = (err (api (ApiReason.other "Invalid")), w)
  patch_to (some m) k p w = (
    ok (with_metadata m p),
    shelf.put (place (remains (with_metadata m p)) (drop_key object_key k (shelf.view w))) w,
  )

  abbrev pub patch_at :
      Option (Object Spec Status)
      → List JsonPatchOperation
      → Object Spec Status
      → Exec World (Object Spec Status)
  patch_at none ops o w = (err (api not_found), w)
  patch_at (some p) ops o w = patch_to (apply_all ops p.metadata) (object_key o) p w

  abbrev pub update_status_at :
      Option (Object Spec Status) → Object Spec Status → Exec World (Object Spec Status)
  update_status_at none o w = (err (api not_found), w)
  update_status_at (some p) o w =
      (ok (with_status_of o p), shelf.put (with_status_of o p ∷ shelf.view w) w)

  unfoldable pub client : KindClient World (Object Spec Status)
  client = record {
    get = λ k w. (get_answer (lookup_object k (shelf.view w)), w);
    list = λ n w. (ok (in_namespace n (shelf.view w)), w);
    create = λ o w. create_at (lookup_object (object_key o) (shelf.view w)) o w;
    delete = λ o w. delete_at (lookup_object (object_key o) (shelf.view w)) o w;
    patch = λ ops o w. patch_at (lookup_object (object_key o) (shelf.view w)) ops o w;
    update_status = λ o w. update_status_at (lookup_object (object_key o) (shelf.view w)) o w;
  }
