-- ===== src/Memory/Laws.antt =====
-- The cluster in memory is a store.
use sandbox_mommy.Base.{
  String, string_eq, ◌==◌, true, false, List, ◌∷◌, Option, none, some, ◌≡◌, ◌≢◌, refl, ap, ◌∙◌,
  arith, if◌then◌else◌,
}
use sandbox_mommy.Api.{Object, ObjectKey, object_key, object_key_eq}
use sandbox_mommy.Env.Store.{Store, IsReleased}
use sandbox_mommy.Memory.Keyed.{
  drop_key, lookup-drop_key, filter-Distinct, filter-found, found-visible, found-filter,
}
use sandbox_mommy.Memory.{lookup_object, is_in, in_namespace, Shelf, create_at, delete_at, client}

-- What is put is seen.
abbrev pub IsShelf : {W O : Type 0} → Shelf W O → Type 0
IsShelf shelf = (os : List _) (w : _) → shelf.view (shelf.put os w) ≡ os

module _ {W S T : Type 0} (shelf : Shelf W (Object S T)) (law : IsShelf shelf) where
  pub key_test_self : (k : ObjectKey) → (k == k) ≡ true
  key_test_self k = ground arith

  pub key_test_ne : (k j : ObjectKey) → k ≢ j → (k == j) ≡ false
  key_test_ne k j differ = ground arith

  pub key_test_names : (m n : String) → m ≡ n → (m == n) ≡ true
  key_test_names m n e = ground arith

  pub IsReleased-none : (o : Option (Object S T)) → o ≡ none → IsReleased o
  IsReleased-none none e = tt
  IsReleased-none (some o) e = absurd (cc e)

  pub lookup-dropped :
      (k j : ObjectKey) (w : W)
      → lookup_object j (shelf.view (shelf.put (drop_key object_key k (shelf.view w)) w))
        ≡ (if j == k then none else lookup_object j (shelf.view w))
  lookup-dropped k j w =
      ap (lookup_object j) (law (drop_key object_key k (shelf.view w)) w)
      ∙ lookup-drop_key object_key k j (shelf.view w)

  unfoldable pub client_store : Store (client shelf)
  unfolding client
  client_store = record {
    lookup = λ w k. lookup_object k (shelf.view w);
    items = λ w n. in_namespace n (shelf.view w);
    created = λ o w. shelf.put (o ∷ shelf.view w) w;
    admitted = λ o w. o;
    deleted = λ o w. shelf.put (drop_key object_key (object_key o) (shelf.view w)) w;
    get_lem = λ k w. refl;
    list_lem = λ n w. refl;
    items-found = λ w n. filter-found object_key (is_in n) (shelf.view w);
    items-Distinct = λ w n. filter-Distinct object_key (is_in n) (shelf.view w);
    found-items = λ w k o e.
        let (same, m) = found-visible object_key k o (shelf.view w) e in
        (
          same,
          found-filter object_key (is_in k.namespace) k o (shelf.view w) e
              (key_test_names o.metadata.namespace k.namespace (ap (λ j. j.namespace) same)),
        );
    create_new = λ o w absent. ap (λ found. create_at shelf found o w) absent;
    lookup-created = λ o w j. ap (lookup_object j) (law (o ∷ shelf.view w) w);
    admitted-owners = λ o w. refl;
    create_existing = λ o p w there. ap (λ found. create_at shelf found o w) there;
    delete_found = λ o p w there. ap (λ found. delete_at shelf found o w) there;
    delete_missing = λ o w absent. ap (λ found. delete_at shelf found o w) absent;
    deleted-IsReleased = λ o w.
        IsReleased-none _
          (lookup-dropped (object_key o) (object_key o) w ∙ rw (key_test_self (object_key o)) refl);
    lookup-deleted_ne = λ o w j differ.
        lookup-dropped (object_key o) j w ∙ rw (key_test_ne j (object_key o) differ) refl;
  }
