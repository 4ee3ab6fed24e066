-- ===== src/Protect/Laws.antt =====
-- protect.go: the patches of `ProtectObject` and `UnprotectObject`, and the filter of the latter.
use sandbox_mommy.Base.{
  String, string_eq, true, false, List, [], ◌∷◌, ◌++◌, some, Elem, ◌≡◌, ◌≢◌, refl, sym, ap, ◌∙◌,
  arith, inl, inr,
}
use mathlib.Core.List.{append-nil}
use sandbox_mommy.Exec.{ok}
use sandbox_mommy.Api.{Object, ObjectMeta, object_key, is_zero}
use sandbox_mommy.Env.Store.{Store}
use sandbox_mommy.Env.Writable.{Writable}
use sandbox_mommy.Env.{Env, KindClient}
use sandbox_mommy.Updater.Maps.{slices_equal_refl}
use sandbox_mommy.Patch.Apply.{apply_all}
use sandbox_mommy.Protect.{
  finalizers_patch, drop_finalizer, contains_flag, protect_object, unprotect_object,
}

drop_finalizer_self :
    (f : String) (fs : List String) → drop_finalizer f (f ∷ fs) ≡ drop_finalizer f fs
drop_finalizer_self f fs = ground arith

drop_finalizer_fresh : (f : String) (fs : List String) → ¬ Elem f fs → drop_finalizer f fs ≡ fs
drop_finalizer_fresh f [] new = refl
drop_finalizer_fresh f (g ∷ fs) new =
    let rest = drop_finalizer_fresh f fs (λ m. new (inr m)) in
    elim (string_eq.dec g f) [
      | yes same ↦ absurd (new (inl (sym same)))
      | no differ ↦ ground (arith, rest)
    ]

drop_finalizer-append :
    (f : String) (fs gs : List String)
    → drop_finalizer f (fs ++ gs) ≡ drop_finalizer f fs ++ drop_finalizer f gs
drop_finalizer-append f [] gs = refl
drop_finalizer-append f (g ∷ fs) gs = ground (arith, drop_finalizer-append f fs gs)

not_dropped : (f : String) (fs : List String) → ¬ Elem f (drop_finalizer f fs)
not_dropped f [] m = elim m [ ]
not_dropped f (g ∷ fs) m =
    let rest = not_dropped f fs in
    elim (string_eq.dec g f) [ yes same ↦ ground (arith, rest) | no differ ↦ ground (arith, rest) ]

other_kept : (f g : String) (fs : List String) → g ≢ f → Elem g fs → Elem g (drop_finalizer f fs)
other_kept f g [] differ m = m
other_kept f g (h ∷ fs) differ (inl e) = ground arith
other_kept f g (h ∷ fs) differ (inr m) = ground (arith, other_kept f g fs differ m)

-- `UnprotectObject` leaves the finalizer nowhere in the list, and every other one in it.
pub drop_finalizer_lem :
    (f : String) (fs : List String)
    → (¬ Elem f (drop_finalizer f fs))
      × ((g : String) → g ≢ f → Elem g fs → Elem g (drop_finalizer f fs))
drop_finalizer_lem f fs = (not_dropped f fs, λ g. other_kept f g fs)

restored : (f : String) (fs : List String) → ¬ Elem f fs → drop_finalizer f (fs ++ f ∷ []) ≡ fs
restored f fs new =
    let own : drop_finalizer f (f ∷ []) ≡ [] = drop_finalizer_self f [] in
    drop_finalizer-append f fs (f ∷ []) ∙ rw (own, append-nil) (drop_finalizer_fresh f fs new)

finalizers_patch_applies :
    (m : ObjectMeta) (new : List String)
    → apply_all (finalizers_patch m.finalizers new) m ≡ some (record m { finalizers = new })
unfolding apply_all
finalizers_patch_applies m new = ground (arith, slices_equal_refl m.finalizers)

-- The metadata with other finalizers.
abbrev pub with_finalizers :
    {Spec Status : Type 0} → List String → Object Spec Status → Object Spec Status
with_finalizers fs o = record o { metadata = record o.metadata { finalizers = fs } }

module _ (E : Env) {Spec Status : Type 0} {c : KindClient E.World (Object Spec Status)}
    (st : Store c) (wr : Writable st) where
  -- The world after the patch of the finalizers of an object.
  after_patch : List String → Object Spec Status → E.World → E.World
  after_patch new obj w = wr.patched (finalizers_patch obj.metadata.finalizers new) obj w

  patch_sent :
      (new : List String) (obj : Object Spec Status) (w : E.World)
      → st.lookup w (object_key obj) ≡ some obj
      → c.patch (finalizers_patch obj.metadata.finalizers new) obj w
        ≡ (ok (with_finalizers new obj), after_patch new obj w)
  unfolding after_patch
  patch_sent new obj w there =
      wr.patch_lem _ obj obj _ w there (finalizers_patch_applies obj.metadata new)

  patch_stored :
      (new : List String) (obj : Object Spec Status) (w : E.World)
      → st.lookup w (object_key obj) ≡ some obj
      → is_zero obj.metadata.deletion_timestamp ≡ true
      → st.lookup (after_patch new obj w) (object_key obj) ≡ some (with_finalizers new obj)
  unfolding after_patch
  patch_stored new obj w there live =
      wr.lookup-patched _ obj obj _ w there (finalizers_patch_applies obj.metadata new) refl
      ∙ rw live refl

  protect_sends :
      (f : String) (obj : Object Spec Status) (w : E.World)
      → E.contains_finalizer obj.metadata.finalizers f ≡ false
      → protect_object E c f obj w
        ≡ c.patch
            (finalizers_patch obj.metadata.finalizers (obj.metadata.finalizers ++ f ∷ []))
            obj
            w
  unfolding protect_object
  protect_sends f obj w lacks = rw lacks refl

  unprotect_sends :
      (f : String) (obj : Object Spec Status) (w : E.World)
      → contains_flag obj.metadata.finalizers ≡ true
      → unprotect_object E c f obj w
        ≡ c.patch
            (finalizers_patch obj.metadata.finalizers (drop_finalizer f obj.metadata.finalizers))
            obj
            w
  unfolding unprotect_object
  unprotect_sends f obj w has = rw has refl

  flag-append : (f : String) (fs : List String) → contains_flag (fs ++ f ∷ []) ≡ true
  flag-append f [] = refl
  flag-append f (g ∷ fs) = refl

  -- `ProtectObject` and then `UnprotectObject` of an object that is in the cluster as it was read,
  -- is not being deleted and lacks the finalizer: the first returns no error and puts the finalizer
  -- at the end of the list, in the object and in the cluster, and the second returns no error and
  -- brings back the object as it was, there too.
  pub protect_roundtrip :
      (f : String) (obj : Object Spec Status) (w : E.World)
      → st.lookup w (object_key obj) ≡ some obj
      → is_zero obj.metadata.deletion_timestamp ≡ true
      → E.contains_finalizer obj.metadata.finalizers f ≡ false
      → ¬ Elem f obj.metadata.finalizers
      → let protected = with_finalizers (obj.metadata.finalizers ++ f ∷ []) obj in
        (w₁ : E.World) × (w₂ : E.World) × (protect_object E c f obj w ≡ (ok protected, w₁))
        × (st.lookup w₁ (object_key obj) ≡ some protected)
        × (unprotect_object E c f protected w₁ ≡ (ok obj, w₂))
        × (st.lookup w₂ (object_key obj) ≡ some obj)
  protect_roundtrip f obj w there live lacks new =
      let fs = obj.metadata.finalizers in
      let protected = with_finalizers (fs ++ f ∷ []) obj in
      let w₁ = after_patch (fs ++ f ∷ []) obj w in
      let stored = patch_stored (fs ++ f ∷ []) obj w there live in
      let back : with_finalizers (drop_finalizer f (fs ++ f ∷ [])) protected ≡ obj =
        ap (λ gs. with_finalizers gs obj) (restored f fs new) in
      let w₂ = after_patch (drop_finalizer f (fs ++ f ∷ [])) protected w₁ in
      (
        w₁,
        w₂,
        protect_sends f obj w lacks ∙ patch_sent (fs ++ f ∷ []) obj w there,
        stored,
        unprotect_sends f protected w₁ (flag-append f fs)
            ∙ patch_sent (drop_finalizer f (fs ++ f ∷ [])) protected w₁ stored
            ∙ ap (λ o. (ok o, w₂)) back,
        patch_stored (drop_finalizer f (fs ++ f ∷ [])) protected w₁ stored live ∙ ap some back,
      )

module _ (E : Env) {Spec Status : Type 0} (c : KindClient E.World (Object Spec Status)) where
  unprotect_patches :
      (f : String) (obj : Object Spec Status) (w : E.World) (fs : List String)
      → obj.metadata.finalizers ≡ fs
      → fs ≢ []
      → unprotect_object E c f obj w ≡ c.patch (finalizers_patch fs (drop_finalizer f fs)) obj w
  unfolding unprotect_object
  unprotect_patches f obj w [] e filled = absurd (filled refl)
  unprotect_patches f obj w (g ∷ gs) e filled = rw e refl

  -- `UnprotectObject` sends a patch, which replaces the list of finalizers by itself, to an object
  -- that has finalizers but not the one to take off.
  pub unprotect_object_idle :
      (f : String) (obj : Object Spec Status) (w : E.World)
      → obj.metadata.finalizers ≢ []
      → ¬ Elem f obj.metadata.finalizers
      → unprotect_object E c f obj w
        ≡ c.patch (finalizers_patch obj.metadata.finalizers obj.metadata.finalizers) obj w
  unprotect_object_idle f obj w filled absent =
      unprotect_patches f obj w obj.metadata.finalizers refl filled
      ∙ ap (λ fs. c.patch (finalizers_patch obj.metadata.finalizers fs) obj w)
          (drop_finalizer_fresh f obj.metadata.finalizers absent)
