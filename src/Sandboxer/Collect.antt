-- ===== src/Sandboxer/Collect.antt =====
-- The loops that make one object for every volume of a sort: `makePersistentVolumeClaims`,
-- `makeDataVolumes` and `makeVirtualDisks` have this shape.
use sandbox_mommy.Base.{
  String, List, [], ◌∷◌, map, Option, none, some, All, Elem, Distinct, ◌≡◌, ap, inl, inr,
}
use sandbox_mommy.Api.{Object, Opaque, SandboxVolumeSpec, object_key}
use sandbox_mommy.Webhook.Names.{names}

module _ (sort : SandboxVolumeSpec → Option Opaque)
    (make : String → Opaque → Object Opaque Opaque) where
  abbrev made : String → Option Opaque → List (Object Opaque Opaque) → List (Object Opaque Opaque)
  made name none rest = rest
  made name (some spec) rest = make name spec ∷ rest

  abbrev pub collect : List SandboxVolumeSpec → List (Object Opaque Opaque)
  collect [] = []
  collect (v ∷ vs) = made v.name (sort v) (collect vs)

  -- Two volumes of different names give different keys.
  abbrev pub IsNamed : Type 0
  IsNamed = (m n : String) (s t : Opaque) → object_key (make m s) ≡ object_key (make n t) → m ≡ n

  collected :
      IsNamed
      → (n : String) (s : Opaque) (vs : List SandboxVolumeSpec)
      → Elem (object_key (make n s)) (map object_key (collect vs))
      → Elem n (names vs)
  collected named n s [] m = elim m [ ]
  collected named n s (v ∷ vs) m = go (sort v) (collected named n s vs) m
    where
      go :
          (o : Option Opaque)
          → (Elem (object_key (make n s)) (map object_key (collect vs)) → Elem n (names vs))
          → Elem (object_key (make n s)) (map object_key (made v.name o (collect vs)))
          → Elem n (names (v ∷ vs))
      go none rest m' = inr (rest m')
      go (some t) rest (inl e) = inl (named n v.name s t e)
      go (some t) rest (inr m') = inr (rest m')

  pub collect-Distinct :
      IsNamed
      → (vs : List SandboxVolumeSpec) → Distinct (names vs)
      → Distinct (map object_key (collect vs))
  collect-Distinct named [] d = tt
  collect-Distinct named (v ∷ vs) (new, d) = go (sort v) (collect-Distinct named vs d)
    where
      go :
          (o : Option Opaque)
          → Distinct (map object_key (collect vs))
          → Distinct (map object_key (made v.name o (collect vs)))
      go none rest = rest
      go (some t) rest = (λ m. new (collected named v.name t vs m), rest)

  pub All-collect :
      (P : Object Opaque Opaque → Type 0)
      → ((n : String) (s : Opaque) → P (make n s))
      → (vs : List SandboxVolumeSpec) → All P (collect vs)
  All-collect P h [] = tt
  All-collect P h (v ∷ vs) = go (sort v) (All-collect P h vs)
    where
      go : (o : Option Opaque) → All P (collect vs) → All P (made v.name o (collect vs))
      go none rest = rest
      go (some t) rest = (h v.name t, rest)

  pub made_eq :
      (v : SandboxVolumeSpec) (o : Option Opaque) (rest rest' : List (Object Opaque Opaque))
      → rest ≡ rest'
      → (elim o [ none ↦ rest | some spec ↦ make v.name spec ∷ rest ]) ≡ made v.name o rest'
  made_eq v none rest rest' e = e
  made_eq v (some spec) rest rest' e = ap (λ r. make v.name spec ∷ r) e
