-- ===== src/Protect.antt =====
-- pkg/controller/util/protect.go: a finalizer put on an object, or taken off, by a JSON patch.
pub mod Laws
use sandbox_mommy.Base.{
  String, string_eq, ◌!=◌, Bool, true, false, List, [], ◌∷◌, ◌++◌, Option, none, some,
  if◌then◌else◌,
}
use sandbox_mommy.Exec.{Exec, pure, lift, ◌>>=◌}
use sandbox_mommy.Api.{Object}
use sandbox_mommy.Patch.{
  JsonPatchOperation, strings, new_json_patch, payload, with_test_op, with_replace_op,
}
use sandbox_mommy.Env.{Env, KindClient}

-- The two operations of both patches: the list is replaced if it is still the one that was read.
abbrev pub finalizers_patch : List String → List String → List JsonPatchOperation
finalizers_patch old new =
    with_test_op "/metadata/finalizers" (strings old)
    ∷ with_replace_op "/metadata/finalizers" (strings new)
    ∷ []

-- The loop of `UnprotectObject`: the finalizers kept, and whether the loop ran at all.
abbrev pub drop_finalizer : String → List String → List String
drop_finalizer finalizer [] = []
drop_finalizer finalizer (s ∷ fs) =
    let rest = drop_finalizer finalizer fs in if s != finalizer then s ∷ rest else rest

abbrev pub contains_flag : List String → Bool
contains_flag [] = false
contains_flag (_ ∷ _) = true

module _ (E : Env) {Spec Status : Type 0} (c : KindClient E.World (Object Spec Status)) where
  unfoldable pub protect_object : String → Object Spec Status → Exec E.World (Object Spec Status)
  protect_object finalizer obj =
      if E.contains_finalizer obj.metadata.finalizers finalizer then pure obj else do
        let old = obj.metadata.finalizers
        patch_bytes ← lift (payload (new_json_patch (finalizers_patch old (old ++ finalizer ∷ []))))
        c.patch patch_bytes obj

  -- A nil object is skipped. The objects come back as the client leaves them.
  unfoldable pub protect_objects :
      String
      → List (Option (Object Spec Status))
      → Exec E.World (List (Option (Object Spec Status)))
  protect_objects finalizer [] = pure []
  protect_objects finalizer (none ∷ objs) = do
    rest ← protect_objects finalizer objs
    pure (none ∷ rest)
  protect_objects finalizer (some obj ∷ objs) = do
    obj' ← protect_object finalizer obj
    rest ← protect_objects finalizer objs
    pure (some obj' ∷ rest)

  unfoldable pub unprotect_object : String → Object Spec Status → Exec E.World (Object Spec Status)
  unprotect_object finalizer obj =
      if contains_flag obj.metadata.finalizers
      then (do
        let old = obj.metadata.finalizers
        patch_bytes ←
            lift (payload (new_json_patch (finalizers_patch old (drop_finalizer finalizer old))))
        c.patch patch_bytes obj)
      else pure obj

  unfoldable pub unprotect_objects :
      String
      → List (Option (Object Spec Status))
      → Exec E.World (List (Option (Object Spec Status)))
  unprotect_objects finalizer [] = pure []
  unprotect_objects finalizer (none ∷ objs) = do
    rest ← unprotect_objects finalizer objs
    pure (none ∷ rest)
  unprotect_objects finalizer (some obj ∷ objs) = do
    obj' ← unprotect_object finalizer obj
    rest ← unprotect_objects finalizer objs
    pure (some obj' ∷ rest)
