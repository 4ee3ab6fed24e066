-- ===== src/Sandboxer/Loops.antt =====
-- The loops that create what is missing and delete what is owned, over a store.
use sandbox_mommy.Base.{
  String, true, false, List, [], ◌∷◌, map, none, some, contains, All, Elem, Distinct, ◌≡◌, ◌≢◌,
  refl, sym, ◌∙◌, arith, inl, inr, Bool-cases,
}
use sandbox_mommy.Exec.Laws.{bind_ok, or_wrap_ok}
use sandbox_mommy.Exec.{Result, ok, or_wrap}
use sandbox_mommy.Api.{Object, ObjectKey, object_key, object_key_eq}
use sandbox_mommy.Env.{Env, KindClient}
use sandbox_mommy.Env.Store.{Store, IsReleased}
use sandbox_mommy.Sandboxer.{create_missing, delete_all}

module _ (E : Env) {Spec Status : Type 0} {c : KindClient E.World (Object Spec Status)}
    (st : Store c) where
  -- Whether the object is there agrees with the list of existing keys.
  pub record Agrees (existing : List ObjectKey) (w : E.World) (o : Object Spec Status)
      : Type 0 where
    pub listed : contains existing (object_key o) ≡ true → st.lookup w (object_key o) ≢ none
    pub unlisted : contains existing (object_key o) ≡ false → st.lookup w (object_key o) ≡ none

  -- What the creation loop promises.
  pub record Ensured (w w' : E.World) (os : List (Object Spec Status)) : Type 0 where
    pub present : All (λ o. st.lookup w' (object_key o) ≢ none) os
    pub kept : (k : ObjectKey) → st.lookup w k ≢ none → st.lookup w' k ≡ st.lookup w k

  Agrees-created :
      (existing : List ObjectKey) (w : E.World) (o p : Object Spec Status)
      → object_key p ≢ object_key o
      → Agrees existing w p
      → Agrees existing (st.created o w) p
  Agrees-created existing w o p differ a = record {
    listed = λ e. ground (arith, st.lookup-created o w (object_key p), a.listed);
    unlisted = λ e. ground (arith, st.lookup-created o w (object_key p), a.unlisted);
  }

  pub All-Agrees-created :
      (existing : List ObjectKey) (w : E.World) (o : Object Spec Status)
      (os : List (Object Spec Status))
      → ¬ Elem (object_key o) (map object_key os)
      → All (Agrees existing w) os
      → All (Agrees existing (st.created o w)) os
  All-Agrees-created existing w o [] new h = tt
  All-Agrees-created existing w o (p ∷ os) new (a, h) = (
    Agrees-created existing w o p (λ e. new (inl (sym e))) a,
    All-Agrees-created existing w o os (λ m. new (inr m)) h,
  )

  module _ (format : String) (existing : List ObjectKey) where
    pub create_missing_there :
        (o : Object Spec Status) (os : List (Object Spec Status)) (w : E.World)
        → contains existing (object_key o) ≡ true
        → create_missing E c format existing (o ∷ os) w ≡ create_missing E c format existing os w
    unfolding create_missing
    create_missing_there o os w there = rw there

    pub create_missing_new :
        (o : Object Spec Status) (os : List (Object Spec Status)) (w : E.World)
        → contains existing (object_key o) ≡ false
        → st.lookup w (object_key o) ≡ none
        → create_missing E c format existing (o ∷ os) w
          ≡ create_missing E c format existing os (st.created o w)
    unfolding create_missing
    create_missing_new o os w missing absent = rw missing (
        bind_ok (or_wrap (c.create o) _) (λ _. create_missing E c format existing os)
          (or_wrap_ok (c.create o) _ (st.create_new o w absent)))

    -- What a run that ends in `r` promises.
    abbrev pub Runs : E.World → List (Object Spec Status) → Result (Unit {0}) × E.World → Type 0
    Runs w os r = (r.0 ≡ ok tt) × Ensured w r.1 os

    Runs-there :
        (o : Object Spec Status) (os : List (Object Spec Status)) (w : E.World)
        {r : Result (Unit {0}) × E.World}
        → st.lookup w (object_key o) ≢ none
        → Runs w os r
        → Runs w (o ∷ os) r
    Runs-there o os w there (done, e) = (
      done,
      record { present = (rw (e.kept (object_key o) there) there, e.present); kept = e.kept },
    )

    Runs-new :
        (o : Object Spec Status) (os : List (Object Spec Status)) (w : E.World)
        {r : Result (Unit {0}) × E.World}
        → st.lookup w (object_key o) ≡ none
        → Runs (st.created o w) os r
        → Runs w (o ∷ os) r
    Runs-new o os w absent (done, e) =
        let there : st.lookup (st.created o w) (object_key o) ≢ none =
          ground (arith, st.lookup-created o w (object_key o)) in
        (
          done,
          record {
            present = (rw (e.kept (object_key o) there) there, e.present);
            kept = λ k known. ground (arith, e.kept k, st.lookup-created o w k);
          },
        )

    -- The loop creates every object that is missing and fails on none.
    pub create_missing-Runs :
        (os : List (Object Spec Status)) (w : E.World)
        → Distinct (map object_key os)
        → All (Agrees existing w) os
        → Runs w os (create_missing E c format existing os w)
    create_missing-Runs [] w d h =
        unfold create_missing in (refl, record { present = tt; kept = λ k e. refl })
    create_missing-Runs (o ∷ os) w (new, d) (a, h) =
        elim (Bool-cases (contains existing (object_key o))) [
          | inl there ↦
              rw (create_missing_there o os w there)
                (Runs-there o os w (a.listed there) (create_missing-Runs os w d h))
          | inr missing ↦ rw (create_missing_new o os w missing (a.unlisted missing)) (
              Runs-new o os w (a.unlisted missing) (
                create_missing-Runs os (st.created o w) d
                  (All-Agrees-created existing w o os new h)))
        ]

  -- What the deletion loop promises.
  pub record Released (w w' : E.World) (os : List (Object Spec Status)) : Type 0 where
    pub released : All (λ o. IsReleased (st.lookup w' (object_key o))) os
    pub others : (k : ObjectKey) → ¬ Elem k (map object_key os) → st.lookup w' k ≡ st.lookup w k

  pub IsThere-deleted :
      (w : E.World) (o : Object Spec Status) (os : List (Object Spec Status))
      → ¬ Elem (object_key o) (map object_key os)
      → All (λ p. st.lookup w (object_key p) ≡ some p) os
      → All (λ p. st.lookup (st.deleted o w) (object_key p) ≡ some p) os
  IsThere-deleted w o [] new h = tt
  IsThere-deleted w o (p ∷ os) new (e, h) = (
    st.lookup-deleted_ne o w (object_key p) (λ same. new (inl (sym same))) ∙ e,
    IsThere-deleted w o os (λ m. new (inr m)) h,
  )

  module _ (format : String) where
    abbrev pub Deletes : E.World → List (Object Spec Status) → Result (Unit {0}) × E.World → Type 0
    Deletes w os r = (r.0 ≡ ok tt) × Released w r.1 os

    pub delete_all-step :
        (o : Object Spec Status) (os : List (Object Spec Status)) (w : E.World)
        → st.lookup w (object_key o) ≡ some o
        → delete_all E c format (o ∷ os) w ≡ delete_all E c format os (st.deleted o w)
    unfolding delete_all
    delete_all-step o os w there =
        bind_ok (or_wrap (c.delete o) _) (λ _. delete_all E c format os)
          (or_wrap_ok (c.delete o) _ (st.delete_found o o w there))

    Deletes-cons :
        (o : Object Spec Status) (os : List (Object Spec Status)) (w : E.World)
        {r : Result (Unit {0}) × E.World}
        → ¬ Elem (object_key o) (map object_key os)
        → Deletes (st.deleted o w) os r
        → Deletes w (o ∷ os) r
    Deletes-cons o os w new (done, e) = (
      done,
      record {
        released = (rw (e.others (object_key o) new) (st.deleted-IsReleased o w), e.released);
        others = λ k fresh.
            e.others k (λ m. fresh (inr m)) ∙ st.lookup-deleted_ne o w k (λ same. fresh (inl same));
      },
    )

    -- The loop deletes every object of the list and touches no other.
    pub delete_all-Deletes :
        (os : List (Object Spec Status)) (w : E.World)
        → Distinct (map object_key os)
        → All (λ p. st.lookup w (object_key p) ≡ some p) os
        → Deletes w os (delete_all E c format os w)
    delete_all-Deletes [] w d h =
        unfold delete_all in (refl, record { released = tt; others = λ k e. refl })
    delete_all-Deletes (o ∷ os) w (new, d) (there, h) = rw (delete_all-step o os w there) (
        Deletes-cons o os w new
          (delete_all-Deletes os (st.deleted o w) d (IsThere-deleted w o os new h)))
