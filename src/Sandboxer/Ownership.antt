-- ===== src/Sandboxer/Ownership.antt =====
-- `getPVCs`, `getDVs` and `getVDs`: the listed objects that the sandbox controls, over a store.
use sandbox_mommy.Base.{
  String, true, false, List, [], ◌∷◌, map, none, some, contains, All, Elem, Distinct, ◌≡◌, ◌≢◌,
  refl, arith, inl, inr, Bool-cases, Option-cases,
}
use mathlib.Core.Path.{subst}
use sandbox_mommy.Exec.Laws.{bind_ok, or_wrap_ok}
use sandbox_mommy.Exec.{ok, or_wrap}
use sandbox_mommy.Api.{Object, ObjectKey, object_key, object_key_eq, Sandbox}
use sandbox_mommy.Env.{Env, KindClient}
use sandbox_mommy.Env.Store.{Store}
use sandbox_mommy.Sandboxer.{controlled, list_controlled}
use sandbox_mommy.Sandboxer.Loops.{Agrees}

module _ (E : Env) {Spec Status : Type 0} (sandbox : Sandbox) where
  abbrev IsControlled : Object Spec Status → Type 0
  IsControlled o = E.is_controlled_by o.metadata sandbox.metadata ≡ true

  controlled-All :
      (P : Object Spec Status → Type 0) (os : List (Object Spec Status))
      → All P os
      → All P (controlled E sandbox os)
  controlled-All P [] h = tt
  controlled-All P (o ∷ os) (p, h) =
      elim (Bool-cases (E.is_controlled_by o.metadata sandbox.metadata)) [
        | inl own ↦ rw own (p, controlled-All P os h)
        | inr foreign ↦ rw foreign (controlled-All P os h)
      ]

  controlled-fresh :
      (k : ObjectKey) (os : List (Object Spec Status))
      → ¬ Elem k (map object_key os)
      → ¬ Elem k (map object_key (controlled E sandbox os))
  controlled-fresh k [] new = new
  controlled-fresh k (o ∷ os) new =
      let rest = controlled-fresh k os (λ m. new (inr m)) in
      elim (Bool-cases (E.is_controlled_by o.metadata sandbox.metadata)) [
        | inl own ↦ rw own (elim [ inl e ↦ new (inl e) | inr m ↦ rest m ])
        | inr foreign ↦ rw foreign rest
      ]

  pub controlled-Distinct :
      (os : List (Object Spec Status))
      → Distinct (map object_key os)
      → Distinct (map object_key (controlled E sandbox os))
  controlled-Distinct [] d = tt
  controlled-Distinct (o ∷ os) (new, d) =
      elim (Bool-cases (E.is_controlled_by o.metadata sandbox.metadata)) [
        | inl own ↦ rw own (controlled-fresh (object_key o) os new, controlled-Distinct os d)
        | inr foreign ↦ rw foreign (controlled-Distinct os d)
      ]

  contains-controlled :
      (p : Object Spec Status) (os : List (Object Spec Status))
      → IsControlled p
      → Elem p os
      → contains (map object_key (controlled E sandbox os)) (object_key p) ≡ true
  contains-controlled p [] own m = elim m [ ]
  contains-controlled p (o ∷ os) own (inl e) = rw (← e, own) (ground arith)
  contains-controlled p (o ∷ os) own (inr m) =
      elim (Bool-cases (E.is_controlled_by o.metadata sandbox.metadata)) [
        | inl yours ↦ rw (yours, contains-controlled p os own m) (ground arith)
        | inr foreign ↦ rw foreign (contains-controlled p os own m)
      ]

  absent-controlled :
      (k : ObjectKey) (os : List (Object Spec Status))
      → All (λ o. object_key o ≢ k) os
      → contains (map object_key (controlled E sandbox os)) k ≡ false
  absent-controlled k [] h = refl
  absent-controlled k (o ∷ os) (differ, h) = ground (arith, absent-controlled k os h)

module _ (E : Env) {Spec Status : Type 0} {c : KindClient E.World (Object Spec Status)}
    (st : Store c) (sandbox : Sandbox) where
  abbrev pub namespace : String
  namespace = sandbox.metadata.namespace

  -- The objects that a listing for the sandbox returns.
  abbrev pub owned : E.World → List (Object Spec Status)
  owned w = controlled E sandbox (st.items w namespace)

  pub list_controlled_lem :
      (format : String) (w : E.World) → list_controlled E c format sandbox w ≡ (ok (owned w), w)
  unfolding list_controlled
  list_controlled_lem format w =
      bind_ok (or_wrap (c.list namespace) _) _
        (or_wrap_ok (c.list namespace) _ (st.list_lem namespace w))

  pub owned-Distinct : (w : E.World) → Distinct (map object_key (owned w))
  owned-Distinct w = controlled-Distinct E sandbox _ (st.items-Distinct w namespace)

  pub owned-found : (w : E.World) → All (λ o. st.lookup w (object_key o) ≡ some o) (owned w)
  owned-found w = controlled-All E sandbox _ _ (st.items-found w namespace)

  All-differ :
      (w : E.World) (k : ObjectKey) (os : List (Object Spec Status))
      → st.lookup w k ≡ none
      → All (λ o. st.lookup w (object_key o) ≡ some o) os
      → All (λ o. object_key o ≢ k) os
  All-differ w k [] absent h = tt
  All-differ w k (o ∷ os) absent (e, h) = (λ same. cc, All-differ w k os absent h)

  -- An object of the namespace that stands in the way belongs to the sandbox.
  abbrev pub NoForeign : E.World → Object Spec Status → Type 0
  NoForeign w o =
      (p : Object Spec Status)
      → st.lookup w (object_key o) ≡ some p
      → E.is_controlled_by p.metadata sandbox.metadata ≡ true

  pub owned-Agrees :
      (w : E.World) (o : Object Spec Status)
      → o.metadata.namespace ≡ namespace
      → NoForeign w o
      → Agrees E st (map object_key (owned w)) w o
  owned-Agrees w o here no_foreign = record {
    listed = λ c absent. cc (
        absent-controlled E sandbox (object_key o) (st.items w namespace)
          (All-differ w (object_key o) _ absent (st.items-found w namespace)));
    unlisted = λ c. elim (Option-cases (st.lookup w (object_key o))) [
      | inl absent ↦ absent
      | inr (p, there) ↦
          let (same, m) = st.found-items w (object_key o) p there in
          cc (
            same,
            contains-controlled E sandbox p (st.items w namespace) (no_foreign p there)
                (subst (λ n. Elem p (st.items w n)) here m),
          )
    ];
  }
