-- ===== src/Memory/Keyed.antt =====
-- Lists of things with a key, of which the first under a key counts.
use sandbox_mommy.Base.{
  ◌==◌, Eq, Bool, true, List, [], ◌∷◌, map, Option, none, some, All, Elem, Distinct, ◌≡◌, ◌≢◌, sym,
  ◌∙◌, arith, inl, inr, Bool-cases, if◌then◌else◌,
}
use mathlib.Core.Path.{subst}

module _ {O K : Type 0} ⦃eq : Eq K⦄ (key : O → K) where
  abbrev pub lookup : K → List O → Option O
  lookup k [] = none
  lookup k (o ∷ os) = if k == key o then some o else lookup k os

  abbrev pub drop_key : K → List O → List O
  drop_key k [] = []
  drop_key k (o ∷ os) = let rest = drop_key k os in if key o == k then rest else o ∷ rest

  -- The things that count.
  abbrev pub visible : List O → List O
  visible [] = []
  visible (o ∷ os) = o ∷ drop_key (key o) (visible os)

  All-drop_key :
      (P : O → Type 0) (k : K) (os : List O)
      → All P os
      → All (λ o. P o × (key o ≢ k)) (drop_key k os)
  All-drop_key P k [] h = tt
  All-drop_key P k (o ∷ os) (p, h) =
      let rest = All-drop_key P k os h in
      elim (eq.dec (key o) k) [ yes same ↦ ground (arith, rest) | no differ ↦ ground (arith, rest) ]

  fresh-drop_key :
      (k j : K) (os : List O) → ¬ Elem j (map key os) → ¬ Elem j (map key (drop_key k os))
  fresh-drop_key k j [] new = new
  fresh-drop_key k j (o ∷ os) new =
      let rest = fresh-drop_key k j os (λ m. new (inr m)) in
      elim (Bool-cases (key o == k)) [
        | inl same ↦ rw same rest
        | inr differ ↦ rw differ (elim [ inl e ↦ new (inl e) | inr m ↦ rest m ])
      ]

  dropped : (k : K) (os : List O) → ¬ Elem k (map key (drop_key k os))
  dropped k [] m = elim m [ ]
  dropped k (o ∷ os) m =
      let rest = dropped k os in
      elim (eq.dec (key o) k) [ yes same ↦ ground (arith, rest) | no differ ↦ ground (arith, rest) ]

  Distinct-drop_key :
      (k : K) (os : List O) → Distinct (map key os) → Distinct (map key (drop_key k os))
  Distinct-drop_key k [] d = tt
  Distinct-drop_key k (o ∷ os) (new, d) =
      let rest = Distinct-drop_key k os d in
      elim (Bool-cases (key o == k)) [
        | inl same ↦ rw same rest
        | inr differ ↦ rw differ (fresh-drop_key k (key o) os new, rest)
      ]

  visible-Distinct : (os : List O) → Distinct (map key (visible os))
  visible-Distinct [] = tt
  visible-Distinct (o ∷ os) =
      (dropped (key o) (visible os), Distinct-drop_key (key o) (visible os) (visible-Distinct os))

  lookup_other :
      (o : O) (os ps : List O)
      → All (λ p. (lookup (key p) os ≡ some p) × (key p ≢ key o)) ps
      → All (λ p. lookup (key p) (o ∷ os) ≡ some p) ps
  lookup_other o os [] h = tt
  lookup_other o os (p ∷ ps) ((e, differ), h) = (ground arith, lookup_other o os ps h)

  visible-found : (os : List O) → All (λ p. lookup (key p) os ≡ some p) (visible os)
  visible-found [] = tt
  visible-found (o ∷ os) =
      (ground arith, lookup_other o os _ (All-drop_key _ (key o) (visible os) (visible-found os)))

  pub lookup-drop_key :
      (k j : K) (os : List O) → lookup j (drop_key k os) ≡ (if j == k then none else lookup j os)
  lookup-drop_key k j [] = ground arith
  lookup-drop_key k j (o ∷ os) = ground (arith, lookup-drop_key k j os)

  Elem-drop_key : (k : K) (o : O) (os : List O) → Elem o os → key o ≢ k → Elem o (drop_key k os)
  Elem-drop_key k o [] m differ = m
  Elem-drop_key k o (p ∷ os) (inl e) differ = ground arith
  Elem-drop_key k o (p ∷ os) (inr m) differ = ground (arith, Elem-drop_key k o os m differ)

  pub found-visible :
      (k : K) (o : O) (os : List O) → lookup k os ≡ some o → (key o ≡ k) × Elem o (visible os)
  found-visible k o [] e = absurd (cc e)
  found-visible k o (p ∷ os) e = elim (eq.dec k (key p)) [
    | yes same ↦ ground arith
    | no differ ↦
        let tail : lookup k os ≡ some o = ground arith in
        let (there, m) = found-visible k o os tail in
        (there, inr (Elem-drop_key (key p) o (visible os) m (λ e'. differ (sym there ∙ e'))))
  ]

  -- Those of them that pass a test.
  module _ (keep : O → Bool) where
    abbrev pub filter : List O → List O
    filter [] = []
    filter (o ∷ os) = let rest = filter os in if keep o then o ∷ rest else rest

    pub All-filter : (P : O → Type 0) (os : List O) → All P os → All P (filter os)
    All-filter P [] h = tt
    All-filter P (o ∷ os) (p, h) =
        let rest = All-filter P os h in
        elim (Bool-cases (keep o)) [ inl yes' ↦ rw yes' (p, rest) | inr no' ↦ rw no' rest ]

    fresh-filter : (k : K) (os : List O) → ¬ Elem k (map key os) → ¬ Elem k (map key (filter os))
    fresh-filter k [] new = new
    fresh-filter k (o ∷ os) new =
        let rest = fresh-filter k os (λ m. new (inr m)) in
        elim (Bool-cases (keep o)) [
          | inl yes' ↦ rw yes' (elim [ inl e ↦ new (inl e) | inr m ↦ rest m ])
          | inr no' ↦ rw no' rest
        ]

    Distinct-filter : (os : List O) → Distinct (map key os) → Distinct (map key (filter os))
    Distinct-filter [] d = tt
    Distinct-filter (o ∷ os) (new, d) =
        let rest = Distinct-filter os d in
        elim (Bool-cases (keep o)) [
          | inl yes' ↦ rw yes' (fresh-filter (key o) os new, rest)
          | inr no' ↦ rw no' rest
        ]

    pub filter-Distinct : (os : List O) → Distinct (map key (filter (visible os)))
    filter-Distinct os = Distinct-filter (visible os) (visible-Distinct os)

    pub filter-found : (os : List O) → All (λ p. lookup (key p) os ≡ some p) (filter (visible os))
    filter-found os = All-filter _ (visible os) (visible-found os)

    Elem-filter : (o : O) (os : List O) → keep o ≡ true → Elem o os → Elem o (filter os)
    Elem-filter o [] k m = m
    Elem-filter o (p ∷ os) k (inl e) = rw (subst (λ q. keep q ≡ true) e k) (inl e)
    Elem-filter o (p ∷ os) k (inr m) =
        let rest = Elem-filter o os k m in
        elim (Bool-cases (keep p)) [ inl yes' ↦ rw yes' (inr rest) | inr no' ↦ rw no' rest ]

    pub found-filter :
        (k : K) (o : O) (os : List O)
        → lookup k os ≡ some o
        → keep o ≡ true
        → Elem o (filter (visible os))
    found-filter k o os e kept = Elem-filter o (visible os) kept ((found-visible k o os e).1)
