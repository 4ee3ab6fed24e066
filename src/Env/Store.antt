-- ===== src/Env/Store.antt =====
-- The documented behaviour of the API behind a client of one kind, when no call fails for a reason
-- of its own: the world holds at most one object for a key, and the calls read and write that.
use sandbox_mommy.Base.{
  String, ◌==◌, false, List, Option, none, some, map, All, Elem, Distinct, ◌≡◌, ◌≢◌, if◌then◌else◌,
}
use sandbox_mommy.Exec.{Result, ok, err, api, not_found, ApiReason}
use sandbox_mommy.Api.{Object, ObjectKey, object_key, object_key_eq, is_zero}
use sandbox_mommy.Env.{KindClient}

abbrev pub get_answer : {O : Type 0} → Option O → Result O
get_answer none = err (api not_found)
get_answer (some o) = ok o

-- An object that a deletion has left: it is gone, or it waits for its finalizers.
abbrev pub IsReleased : {Spec Status : Type 0} → Option (Object Spec Status) → Type 0
IsReleased none = Unit
IsReleased (some o) = is_zero o.metadata.deletion_timestamp ≡ false

pub record Store {World Spec Status : Type 0} (c : KindClient World (Object Spec Status))
    : Type 0 where
  pub lookup : World → ObjectKey → Option (Object Spec Status)
  pub items : World → String → List (Object Spec Status)
  pub created : Object Spec Status → World → World
  pub admitted : Object Spec Status → World → Object Spec Status
  pub deleted : Object Spec Status → World → World
  pub get_lem : (k : ObjectKey) (w : World) → c.get k w ≡ (get_answer (lookup w k), w)
  pub list_lem : (namespace : String) (w : World) → c.list namespace w ≡ (ok (items w namespace), w)
  -- a listing holds exactly the objects of the namespace
  pub items-found :
      (w : World) (namespace : String)
      → All (λ o. lookup w (object_key o) ≡ some o) (items w namespace)
  pub items-Distinct :
      (w : World) (namespace : String) → Distinct (map object_key (items w namespace))
  pub found-items :
      (w : World) (k : ObjectKey) (o : Object Spec Status)
      → lookup w k ≡ some o
      → (object_key o ≡ k) × Elem o (items w k.namespace)
  pub create_new :
      (o : Object Spec Status) (w : World)
      → lookup w (object_key o) ≡ none
      → c.create o w ≡ (ok tt, created o w)
  pub lookup-created :
      (o : Object Spec Status) (w : World) (j : ObjectKey)
      → lookup (created o w) j ≡ (if j == object_key o then some (admitted o w) else lookup w j)
  pub admitted-owners :
      (o : Object Spec Status) (w : World)
      → (admitted o w).metadata.owner_references ≡ o.metadata.owner_references
  pub create_existing :
      (o p : Object Spec Status) (w : World)
      → lookup w (object_key o) ≡ some p
      → c.create o w ≡ (err (api (ApiReason.other "AlreadyExists")), w)
  pub delete_found :
      (o p : Object Spec Status) (w : World)
      → lookup w (object_key o) ≡ some p
      → c.delete o w ≡ (ok tt, deleted o w)
  pub delete_missing :
      (o : Object Spec Status) (w : World)
      → lookup w (object_key o) ≡ none
      → c.delete o w ≡ (err (api not_found), w)
  pub deleted-IsReleased :
      (o : Object Spec Status) (w : World) → IsReleased (lookup (deleted o w) (object_key o))
  pub lookup-deleted_ne :
      (o : Object Spec Status) (w : World) (j : ObjectKey)
      → j ≢ object_key o
      → lookup (deleted o w) j ≡ lookup w j

-- Writes to one kind leave the objects of another.
pub record Apart {World S T S' T' : Type 0} {c : KindClient World (Object S T)}
    {d : KindClient World (Object S' T')} (a : Store c) (b : Store d) : Type 0 where
  pub created_apart :
      (o : Object S T) (w : World) (k : ObjectKey) → b.lookup (a.created o w) k ≡ b.lookup w k
  pub deleted_apart :
      (o : Object S T) (w : World) (k : ObjectKey) → b.lookup (a.deleted o w) k ≡ b.lookup w k
