-- ===== src/Sandboxer/Release.antt =====
-- The deletion loop at the listed objects, stated by what stands in the store, and two stores of
-- which one leaves the other alone.
use sandbox_mommy.Base.{
  String, Bool, true, false, List, [], ◌∷◌, map, Option, none, some, All, Elem, Distinct, ◌≡◌, refl,
  sym, ap, ◌∙◌, inl, inr, Bool-cases, if◌then◌else◌,
}
use mathlib.Core.Path.{subst}
use sandbox_mommy.Exec.{ok}
use sandbox_mommy.Api.{Object, ObjectKey, object_key, Sandbox}
use sandbox_mommy.Env.{Env, KindClient}
use sandbox_mommy.Env.Store.{Store, Apart, IsReleased}
use sandbox_mommy.Sandboxer.{controlled, create_missing, delete_all, delete_found}
use sandbox_mommy.Sandboxer.Loops.{Agrees, Released, delete_all-Deletes}
use sandbox_mommy.Sandboxer.Ensure.{create_missing-keeps, delete_all-keeps}
use sandbox_mommy.Sandboxer.Ownership.{owned, owned-Distinct, owned-found}
use sandbox_mommy.Exec.Laws.{or_wrap_ok}

module _ (E : Env) {Spec Status : Type 0} (sandbox : Sandbox) where
  Elem-controlled :
      (p : Object Spec Status) (os : List (Object Spec Status))
      → E.is_controlled_by p.metadata sandbox.metadata ≡ true
      → Elem p os
      → Elem p (controlled E sandbox os)
  Elem-controlled p [] own m = m
  Elem-controlled p (o ∷ os) own (inl e) =
      rw (subst (λ q. E.is_controlled_by q.metadata sandbox.metadata ≡ true) e own) (inl e)
  Elem-controlled p (o ∷ os) own (inr m) =
      let rest = Elem-controlled p os own m in
      elim (Bool-cases (E.is_controlled_by o.metadata sandbox.metadata)) [
        | inl yours ↦ rw yours (inr rest)
        | inr foreign ↦ rw foreign rest
      ]

  -- An object under a key among those that the sandbox controls.
  controlled-key :
      (k : ObjectKey) (os : List (Object Spec Status))
      → Elem k (map object_key (controlled E sandbox os))
      → (p : Object Spec Status) × (object_key p ≡ k)
        × (E.is_controlled_by p.metadata sandbox.metadata ≡ true)
        × Elem p os
  controlled-key k [] m = elim m [ ]
  controlled-key k (o ∷ os) m =
      go (E.is_controlled_by o.metadata sandbox.metadata) refl (controlled-key k os) m
    where
      go :
          (b : Bool)
          → E.is_controlled_by o.metadata sandbox.metadata ≡ b
          → (Elem k (map object_key (controlled E sandbox os))
              → (p : Object Spec Status) × (object_key p ≡ k)
                × (E.is_controlled_by p.metadata sandbox.metadata ≡ true)
                × Elem p os)
          → Elem k
              (map object_key (if b then o ∷ controlled E sandbox os else controlled E sandbox os))
          → (p : Object Spec Status) × (object_key p ≡ k)
            × (E.is_controlled_by p.metadata sandbox.metadata ≡ true)
            × Elem p (o ∷ os)
      go true own rest (inl e) = (o, sym e, own, inl refl)
      go true own rest (inr m') = let (p, e, own', q) = rest m' in (p, e, own', inr q)
      go false own rest m' = let (p, e, own', q) = rest m' in (p, e, own', inr q)

module _ (E : Env) {Spec Status : Type 0} {c : KindClient E.World (Object Spec Status)}
    (st : Store c) (sandbox : Sandbox) where
  -- What a deletion of the objects of a sandbox promises of two worlds.
  pub record Freed (w w' : E.World) : Type 0 where
    -- an object in the namespace of the sandbox that it controls is gone or is being deleted
    pub freed :
        (p : Object Spec Status)
        → st.lookup w (object_key p) ≡ some p
        → p.metadata.namespace ≡ sandbox.metadata.namespace
        → E.is_controlled_by p.metadata sandbox.metadata ≡ true
        → IsReleased (st.lookup w' (object_key p))
    -- what it does not control stays
    pub spared :
        (k : ObjectKey)
        → ((p : Object Spec Status)
            → st.lookup w k ≡ some p
            → E.is_controlled_by p.metadata sandbox.metadata ≡ false)
        → st.lookup w' k ≡ st.lookup w k

  All-Elem :
      (P : Object Spec Status → Type 0) (p : Object Spec Status) (os : List (Object Spec Status))
      → All P os
      → Elem p os
      → P p
  All-Elem P p [] h m = elim m [ ]
  All-Elem P p (o ∷ os) (h, hs) (inl e) = subst P (sym e) h
  All-Elem P p (o ∷ os) (h, hs) (inr m) = All-Elem P p os hs m

  not_listed :
      (w : E.World) (k : ObjectKey)
      → ((p : Object Spec Status)
          → st.lookup w k ≡ some p
          → E.is_controlled_by p.metadata sandbox.metadata ≡ false)
      → ¬ Elem k (map object_key (owned E st sandbox w))
  not_listed w k foreign m =
      let (p, e, own, q) = controlled-key E sandbox k (st.items w sandbox.metadata.namespace) m in
      let there = All-Elem _ p _ (st.items-found w sandbox.metadata.namespace) q in
      cc (own, foreign p (ap (st.lookup w) (sym e) ∙ there))

  pub Freed-before :
      (v w w' : E.World)
      → ((k : ObjectKey) → st.lookup w k ≡ st.lookup v k)
      → Freed w w'
      → Freed v w'
  Freed-before v w w' same f = record {
    freed = λ p there here own. f.freed p (same (object_key p) ∙ there) here own;
    spared = λ k foreign. f.spared k (λ p there. foreign p (sym (same k) ∙ there)) ∙ same k;
  }

  pub Freed-after :
      (v w w' : E.World)
      → ((k : ObjectKey) → st.lookup w' k ≡ st.lookup w k)
      → Freed v w
      → Freed v w'
  Freed-after v w w' same f = record {
    freed =
        λ p there here own. subst IsReleased (sym (same (object_key p))) (f.freed p there here own);
    spared = λ k foreign. same k ∙ f.spared k foreign;
  }

  pub Released-Freed : (w w' : E.World) → Released E st w w' (owned E st sandbox w) → Freed w w'
  Released-Freed w w' r = record {
    freed = λ p there here own.
        let (same, m) = st.found-items w (object_key p) p there in
        All-Elem _ p (owned E st sandbox w) r.released
          (Elem-controlled E sandbox p _ own (subst (λ n. Elem p (st.items w n)) here m));
    spared = λ k foreign. r.others k (not_listed w k foreign);
  }

  -- `delete_all` of the owned objects.
  pub delete_owned-Freed :
      (format : String) (w : E.World)
      → ((delete_all E c format (owned E st sandbox w) w).0 ≡ ok tt)
        × Freed w (delete_all E c format (owned E st sandbox w) w).1
  delete_owned-Freed format w =
      let (done, r) =
        delete_all-Deletes E st format (owned E st sandbox w) w (owned-Distinct E st sandbox w)
          (owned-found E st sandbox w) in
      (done, Released-Freed w _ r)

-- `if obj != nil { Delete }` of what a `Get` found
module _ (E : Env) {Spec Status : Type 0} {c : KindClient E.World (Object Spec Status)}
    (st : Store c) where
  abbrev pub without : Option (Object Spec Status) → E.World → E.World
  without none w = w
  without (some o) w = st.deleted o w

  pub delete_found_lem :
      (format : String) (k : ObjectKey) (w : E.World) (found : Option (Object Spec Status))
      → st.lookup w k ≡ found
      → delete_found E c format found w ≡ (ok tt, without found w)
  delete_found_lem format k w none e = refl
  delete_found_lem format k w (some o) e =
      let (same, m) = st.found-items w k o e in
      or_wrap_ok (c.delete o) _ (st.delete_found o o w (ap (st.lookup w) same ∙ e))

  pub without-IsReleased :
      (k : ObjectKey) (w : E.World) (found : Option (Object Spec Status))
      → st.lookup w k ≡ found
      → IsReleased (st.lookup (without found w) k)
  without-IsReleased k w none e = rw e tt
  without-IsReleased k w (some o) e =
      let (same, m) = st.found-items w k o e in
      subst (λ j. IsReleased (st.lookup (st.deleted o w) j)) same (st.deleted-IsReleased o w)

module _ (E : Env) {Spec Status : Type 0} {c : KindClient E.World (Object Spec Status)}
    (st : Store c) where
  -- Every object of the kind is as it was.
  abbrev pub Untouched : E.World → E.World → Type 0
  Untouched w w' = (k : ObjectKey) → st.lookup w' k ≡ st.lookup w k

-- Two kinds: what the loops do to one leaves the other.
module _ (E : Env) {S T S' T' : Type 0} {c : KindClient E.World (Object S T)}
    {d : KindClient E.World (Object S' T')} (a : Store c) (b : Store d) (apart : Apart a b) where
  pub create_missing-Untouched :
      (format : String) (existing : List ObjectKey) (os : List (Object S T)) (w : E.World)
      → Distinct (map object_key os)
      → All (Agrees E a existing w) os
      → Untouched E b w (create_missing E c format existing os w).1
  create_missing-Untouched format existing os w d h =
      create_missing-keeps E a (Untouched E b w) (λ o w' u k. apart.created_apart o w' k ∙ u k)
        format existing os w d h (λ k. refl)

  pub delete_all-Untouched :
      (format : String) (w : E.World) (sandbox : Sandbox)
      → Untouched E b w (delete_all E c format (owned E a sandbox w) w).1
  delete_all-Untouched format w sandbox =
      delete_all-keeps E a (Untouched E b w) (λ o w' u k. apart.deleted_apart o w' k ∙ u k) format
        (owned E a sandbox w) w (owned-Distinct E a sandbox w) (owned-found E a sandbox w)
        (λ k. refl)

  pub without-Untouched :
      (w : E.World) (found : Option (Object S T)) → Untouched E b w (without E a found w)
  without-Untouched w none k = refl
  without-Untouched w (some o) k = apart.deleted_apart o w k
