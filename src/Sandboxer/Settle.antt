-- ===== src/Sandboxer/Settle.antt =====
-- What `Create` does to the pod or the virtual machine of a sandbox, once the volumes are there.
use sandbox_mommy.Base.{
  Bool, true, false, List, [], ◌∷◌, Option, none, some, All, ◌≡◌, ◌≢◌, refl, sym, ◌∙◌, arith, inl,
  inr, Bool-cases, if◌then◌else◌,
}
use mathlib.Core.Path.{subst}
use sandbox_mommy.Api.{Object, ObjectKey, object_key, object_key_eq}
use sandbox_mommy.Env.{Env, KindClient}
use sandbox_mommy.Env.Store.{Store, Apart, IsReleased}
use sandbox_mommy.Sandboxer.Loops.{Ensured}
use sandbox_mommy.Sandboxer.Release.{Untouched}

-- The object that is made where the template asks for one.
abbrev pub wanted_of : {A O : Type 0} → (A → O) → Option A → Option O
wanted_of f none = none
wanted_of f (some a) = some (f a)

pub wanted_of-keyed :
    {A Spec Status : Type 0} (f : A → Object Spec Status) (key : ObjectKey)
    → ((a : A) → object_key (f a) ≡ key)
    → (x : Option A) (o : Object Spec Status) → wanted_of f x ≡ some o
    → object_key o ≡ key
wanted_of-keyed f key h none o e = cc e
wanted_of-keyed f key h (some a) o e = cc (e, h a)

module _ (E : Env) {Spec Status : Type 0} {c : KindClient E.World (Object Spec Status)}
    (st : Store c) where
  -- The world with the wanted object, and with the object that was found.
  abbrev pub made_world : Option (Object Spec Status) → E.World → E.World
  made_world none w = w
  made_world (some o) w = st.created o w

  abbrev pub settled :
      (Object Spec Status → Bool)
      → Option (Object Spec Status)
      → Option (Object Spec Status)
      → E.World
      → E.World
  settled is_failed wanted none w = made_world wanted w
  settled is_failed wanted (some p) w = if is_failed p then st.deleted p w else w

module _ (E : Env) {Spec Status : Type 0} {c : KindClient E.World (Object Spec Status)}
    (st : Store c) (key : ObjectKey) (is_failed : Object Spec Status → Bool)
    (wanted : Option (Object Spec Status)) where
  -- What a creation promises of the object under the key.
  pub record Settled (w w' : E.World) : Type 0 where
    -- where there is none, the wanted one is there as the server admits it
    pub made :
        (o : Object Spec Status)
        → wanted ≡ some o
        → st.lookup w key ≡ none
        → (v : E.World) × st.lookup w' key ≡ some (st.admitted o v)
    -- one that has not failed stays
    pub stays :
        (p : Object Spec Status)
        → st.lookup w key ≡ some p
        → is_failed p ≡ false
        → st.lookup w' key ≡ some p
    -- one that has failed is deleted
    pub dropped :
        (p : Object Spec Status)
        → st.lookup w key ≡ some p
        → is_failed p ≡ true
        → IsReleased (st.lookup w' key)

  lookup-made :
      (o : Object Spec Status) (w : E.World)
      → object_key o ≡ key
      → st.lookup (st.created o w) key ≡ some (st.admitted o w)
  lookup-made o w e = ground (arith, st.lookup-created o w key)

  made-of :
      ((o : Object Spec Status) → wanted ≡ some o → object_key o ≡ key)
      → (w : E.World) (o : Object Spec Status) → wanted ≡ some o
      → st.lookup (made_world E st wanted w) key ≡ some (st.admitted o w)
  made-of keyed w o e = rw e (lookup-made o w (keyed o e))

  deleted-key :
      (w : E.World) (p : Object Spec Status)
      → st.lookup w key ≡ some p
      → IsReleased (st.lookup (st.deleted p w) key)
  deleted-key w p e =
      let (same, m) = st.found-items w key p e in
      subst (λ j. IsReleased (st.lookup (st.deleted p w) j)) same (st.deleted-IsReleased p w)

  pub settled-Settled :
      ((o : Object Spec Status) → wanted ≡ some o → object_key o ≡ key)
      → (w : E.World) → Settled w (settled E st is_failed wanted (st.lookup w key) w)
  settled-Settled keyed w = record {
    made = λ o e absent. (w, rw absent (made-of keyed w o e));
    stays = λ p there good. rw (there, good) there;
    dropped = λ p there bad. rw (there, bad) (deleted-key w p there);
  }

  pub Settled-before :
      (v w w' : E.World) → st.lookup w key ≡ st.lookup v key → Settled w w' → Settled v w'
  Settled-before v w w' same s = record {
    made = λ o e absent. s.made o e (same ∙ absent);
    stays = λ p there. s.stays p (same ∙ there);
    dropped = λ p there. s.dropped p (same ∙ there);
  }

-- A creation of one kind leaves the objects of another, and so what was ensured of them.
module _ (E : Env) {S T S' T' : Type 0} {c : KindClient E.World (Object S T)}
    {d : KindClient E.World (Object S' T')} (a : Store c) (b : Store d) (apart : Apart a b) where
  made-Untouched :
      (wanted : Option (Object S T)) (w : E.World) → Untouched E b w (made_world E a wanted w)
  made-Untouched none w k = refl
  made-Untouched (some o) w k = apart.created_apart o w k

  pub settled-Untouched :
      (is_failed : Object S T → Bool) (wanted found : Option (Object S T)) (w : E.World)
      → Untouched E b w (settled E a is_failed wanted found w)
  settled-Untouched is_failed wanted none w k = made-Untouched wanted w k
  settled-Untouched is_failed wanted (some p) w k = elim (Bool-cases (is_failed p)) [
    | inl bad ↦ rw bad (apart.deleted_apart p w k)
    | inr good ↦ rw good refl
  ]

module _ (E : Env) {S T : Type 0} {c : KindClient E.World (Object S T)} (st : Store c) where
  All-there :
      (w w' : E.World) (os : List (Object S T))
      → ((k : ObjectKey) → st.lookup w' k ≡ st.lookup w k)
      → All (λ o. st.lookup w (object_key o) ≢ none) os
      → All (λ o. st.lookup w' (object_key o) ≢ none) os
  All-there w w' [] same h = tt
  All-there w w' (o ∷ os) same (h, hs) =
      (λ absent. h (sym (same (object_key o)) ∙ absent), All-there w w' os same hs)

  pub Ensured-after :
      (v w w' : E.World) (os : List (Object S T))
      → ((k : ObjectKey) → st.lookup w' k ≡ st.lookup w k)
      → Ensured E st v w os
      → Ensured E st v w' os
  Ensured-after v w w' os same e = record {
    present = All-there w w' os same e.present;
    kept = λ k known. same k ∙ e.kept k known;
  }

  pub Ensured-before :
      (v w w' : E.World) (os : List (Object S T))
      → ((k : ObjectKey) → st.lookup w k ≡ st.lookup v k)
      → Ensured E st w w' os
      → Ensured E st v w' os
  Ensured-before v w w' os same e = record {
    present = e.present;
    kept = λ k known. e.kept k (λ absent. known (sym (same k) ∙ absent)) ∙ same k;
  }
