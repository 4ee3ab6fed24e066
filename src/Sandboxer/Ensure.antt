-- ===== src/Sandboxer/Ensure.antt =====
-- Over a store: the creation loop at the owned objects, what it keeps, and `Get` that allows for nil.
use mathlib.Core.Path.{subst}
use sandbox_mommy.Base.{
  String, true, List, [], ◌∷◌, map, Option, none, some, contains, All, Distinct, ◌≡◌, ◌≢◌, refl,
  sym, ap, ◌∙◌, inl, inr, Bool-cases,
}
use sandbox_mommy.Exec.{ok}
use sandbox_mommy.Api.{Object, ObjectKey, object_key, object_key_eq, Sandbox}
use sandbox_mommy.Env.{Env, KindClient}
use sandbox_mommy.Env.Store.{Store, get_answer}
use sandbox_mommy.Sandboxer.{found_or_nil, find, create_missing, delete_all}
use sandbox_mommy.Sandboxer.Loops.{
  Agrees, All-Agrees-created, create_missing_there, create_missing_new, create_missing-Runs, Runs,
  IsThere-deleted, delete_all-step,
}
use sandbox_mommy.Sandboxer.Ownership.{owned, NoForeign, owned-Agrees}

module _ (E : Env) {Spec Status : Type 0} {c : KindClient E.World (Object Spec Status)}
    (st : Store c) where
  find-answer :
      (format : String) (key : ObjectKey) (w : E.World) (o : Option (Object Spec Status))
      → c.get key w ≡ (get_answer o, w)
      → find E c format key w ≡ (ok o, w)
  unfolding find
  find-answer format key w none h = ap (found_or_nil format) h
  find-answer format key w (some o) h = ap (found_or_nil format) h

  pub find_lem :
      (format : String) (key : ObjectKey) (w : E.World)
      → find E c format key w ≡ (ok (st.lookup w key), w)
  find_lem format key w = find-answer format key w (st.lookup w key) (st.get_lem key w)

  module _ (P : E.World → Type 0)
      (step : (o : Object Spec Status) (w : E.World) → P w → P (st.created o w)) where
    pub create_missing-keeps :
        (format : String) (existing : List ObjectKey) (os : List (Object Spec Status)) (w : E.World)
        → Distinct (map object_key os)
        → All (Agrees E st existing w) os
        → P w
        → P (create_missing E c format existing os w).1
    create_missing-keeps format existing [] w d h p = unfold create_missing in p
    create_missing-keeps format existing (o ∷ os) w (new, d) (a, h) p =
        elim (Bool-cases (contains existing (object_key o))) [
          | inl there ↦
              subst (λ r. P r.1) (sym (create_missing_there E st format existing o os w there))
                (create_missing-keeps format existing os w d h p)
          | inr missing ↦
              subst (λ r. P r.1)
                (sym (create_missing_new E st format existing o os w missing (a.unlisted missing)))
                (create_missing-keeps format existing os (st.created o w) d
                  (All-Agrees-created E st existing w o os new h) (step o w p))
        ]

  module _ (P : E.World → Type 0)
      (step : (o : Object Spec Status) (w : E.World) → P w → P (st.deleted o w)) where
    pub delete_all-keeps :
        (format : String) (os : List (Object Spec Status)) (w : E.World)
        → Distinct (map object_key os)
        → All (λ p. st.lookup w (object_key p) ≡ some p) os
        → P w
        → P (delete_all E c format os w).1
    delete_all-keeps format [] w d h p = unfold delete_all in p
    delete_all-keeps format (o ∷ os) w (new, d) (there, h) p =
        subst (λ r. P r.1) (sym (delete_all-step E st format o os w there))
          (delete_all-keeps format os (st.deleted o w) d (IsThere-deleted E st w o os new h)
            (step o w p))

  module _ (sandbox : Sandbox) where
    -- What is wanted: one object for a key, in the namespace of the sandbox, in nobody's way.
    pub record IsWanted (w : E.World) (os : List (Object Spec Status)) : Type 0 where
      pub distinct : Distinct (map object_key os)
      pub here : All (λ o. o.metadata.namespace ≡ sandbox.metadata.namespace) os
      pub free : All (NoForeign E st sandbox w) os

    pub All-Agrees :
        (w : E.World) (os : List (Object Spec Status))
        → All (λ o. o.metadata.namespace ≡ sandbox.metadata.namespace) os
        → All (NoForeign E st sandbox w) os
        → All (Agrees E st (map object_key (owned E st sandbox w)) w) os
    All-Agrees w [] hs fs = tt
    All-Agrees w (o ∷ os) (h, hs) (f, fs) =
        (owned-Agrees E st sandbox w o h f, All-Agrees w os hs fs)

    -- The loop over the wanted objects succeeds, leaves each of them there and keeps the others.
    pub create_owned-Runs :
        (format : String) (os : List (Object Spec Status)) (w : E.World)
        → IsWanted w os
        → Runs E st format
            (map object_key (owned E st sandbox w))
            w
            os
            (create_missing E c format (map object_key (owned E st sandbox w)) os w)
    create_owned-Runs format os w i =
        create_missing-Runs E st format _ os w i.distinct (All-Agrees w os i.here i.free)

    -- Nothing is created where every wanted object is listed.
    create_missing_idle :
        (format : String) (existing : List ObjectKey) (os : List (Object Spec Status)) (w : E.World)
        → All (λ o. contains existing (object_key o) ≡ true) os
        → create_missing E c format existing os w ≡ (ok tt, w)
    create_missing_idle format existing [] w h = unfold create_missing in refl
    create_missing_idle format existing (o ∷ os) w (there, h) =
        create_missing_there E st format existing o os w there
        ∙ create_missing_idle format existing os w h

    -- What is there and agrees with the list of existing keys is listed.
    All-listed :
        (existing : List ObjectKey) (w : E.World) (os : List (Object Spec Status))
        → All (Agrees E st existing w) os
        → All (λ o. st.lookup w (object_key o) ≢ none) os
        → All (λ o. contains existing (object_key o) ≡ true) os
    All-listed existing w [] agree present = tt
    All-listed existing w (o ∷ os) (a, agree) (h, present) = (
      elim (Bool-cases (contains existing (object_key o))) [
        | inl there ↦ there
        | inr missing ↦ elim (h (a.unlisted missing)) [ ]
      ],
      All-listed existing w os agree present,
    )

    -- The loop over the wanted objects does nothing where each of them is there.
    pub create_owned_idle :
        (format : String) (os : List (Object Spec Status)) (w : E.World)
        → IsWanted w os
        → All (λ o. st.lookup w (object_key o) ≢ none) os
        → create_missing E c format (map object_key (owned E st sandbox w)) os w ≡ (ok tt, w)
    create_owned_idle format os w i present =
        create_missing_idle format _ os w
          (All-listed _ w os (All-Agrees w os i.here i.free) present)
