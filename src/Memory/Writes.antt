-- ===== src/Memory/Writes.antt =====
-- The cluster in memory takes patches and statuses.
use sandbox_mommy.Base.{
  Option, none, some, List, ◌∷◌, ◌==◌, ◌≡◌, ◌⊎◌, inl, inr, Bool, [], String, refl, ap, ◌∙◌, sym,
  arith, if◌then◌else◌, true, false,
}
use sandbox_mommy.Api.{Object, ObjectMeta, ObjectKey, object_key, object_key_eq, is_zero}
use sandbox_mommy.Exec.{ok}
use sandbox_mommy.Patch.{JsonPatchOperation}
use sandbox_mommy.Patch.Apply.{apply_all}
use sandbox_mommy.Env.Writable.{Writable, with_metadata, with_status_of, remains, kept_by}
use sandbox_mommy.Memory.Keyed.{drop_key, lookup-drop_key}
use sandbox_mommy.Memory.{lookup_object, Shelf, client, patch_at, patch_to, update_status_at, place}
use sandbox_mommy.Memory.Laws.{IsShelf, client_store}

module _ {W S T : Type 0} (shelf : Shelf W (Object S T)) (law : IsShelf shelf) where
  found_test : (k j : ObjectKey) → k ≡ j → (k == j) ≡ true
  found_test k j e = ground arith

  -- What is put in the place of an object is found there.
  lookup-place :
      (k : ObjectKey) (q : Object S T) (os : List (Object S T)) (left : Option (Object S T))
      → object_key q ≡ k
      → (left ≡ none) ⊎ (left ≡ some q)
      → lookup_object k (place shelf left (drop_key object_key k os)) ≡ left
  lookup-place k q os left same (inl gone) =
      rw (gone, lookup-drop_key object_key k k os, found_test k k refl) refl
  lookup-place k q os left same (inr there) =
      rw (there, found_test k (object_key q) (sym same)) refl

  remains_cases : (q : Object S T) → (remains q ≡ none) ⊎ (remains q ≡ some q)
  remains_cases q = go (is_zero q.metadata.deletion_timestamp) q.metadata.finalizers
    where
      go :
          (live : Bool) (fs : List String)
          → ((if live then some q else kept_by fs q) ≡ none)
            ⊎ ((if live then some q else kept_by fs q) ≡ some q)
      go true fs = inr refl
      go false [] = inl refl
      go false (f ∷ fs) = inr refl

  module _ (ops : List JsonPatchOperation) (o p : Object S T) (m : ObjectMeta) (w : W)
      (there : lookup_object (object_key o) (shelf.view w) ≡ some p)
      (applied : apply_all ops p.metadata ≡ some m) where
    pub patch_there :
        patch_at shelf (lookup_object (object_key o) (shelf.view w)) ops o w
        ≡ patch_to shelf (some m) (object_key o) p w
    patch_there =
        ap (λ found. patch_at shelf found ops o w) there
        ∙ ap (λ a. patch_to shelf a (object_key o) p w) applied

    pub lookup-patch_at :
        object_key (with_metadata m p) ≡ object_key o
        → lookup_object
            (object_key o)
            (shelf.view (patch_at shelf (lookup_object (object_key o) (shelf.view w)) ops o w).1)
          ≡ remains (with_metadata m p)
    lookup-patch_at same =
        ap (λ r. lookup_object (object_key o) (shelf.view r.1)) patch_there
        ∙ ap (lookup_object (object_key o)) (law _ w)
        ∙ lookup-place (object_key o) (with_metadata m p) (shelf.view w) _ same
            (remains_cases (with_metadata m p))

  module _ (o p : Object S T) (w : W)
      (there : lookup_object (object_key o) (shelf.view w) ≡ some p) where
    pub status_there :
        update_status_at shelf (lookup_object (object_key o) (shelf.view w)) o w
        ≡ update_status_at shelf (some p) o w
    status_there = ap (λ found. update_status_at shelf found o w) there

    pub lookup-posted_at :
        lookup_object
          (object_key o)
          (shelf.view (update_status_at shelf (lookup_object (object_key o) (shelf.view w)) o w).1)
        ≡ some (with_status_of o p)
    unfolding client_store
    lookup-posted_at =
        let (same, m) = (client_store shelf law).found-items w (object_key o) p there in
        ap (λ r. lookup_object (object_key o) (shelf.view r.1)) status_there
        ∙ ap (lookup_object (object_key o)) (law (with_status_of o p ∷ shelf.view w) w)
        ∙ rw (found_test (object_key o) (object_key p) (sym same)) refl

  unfoldable pub client_writable : Writable (client_store shelf law)
  unfolding client client_store
  client_writable = record {
    patched = λ ops o w. (patch_at shelf (lookup_object (object_key o) (shelf.view w)) ops o w).1;
    posted = λ o w. (update_status_at shelf (lookup_object (object_key o) (shelf.view w)) o w).1;
    patch_lem = λ ops o p m w there applied.
        let e = patch_there ops o p m w there applied in
        e ∙ ap (λ r. (ok (with_metadata m p), r.1)) (sym e);
    lookup-patched = lookup-patch_at;
    update_status_lem = λ o p w there.
        let e = status_there o p w there in e ∙ ap (λ r. (ok (with_status_of o p), r.1)) (sym e);
    lookup-posted = lookup-posted_at;
  }
