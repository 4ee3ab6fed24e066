-- ===== src/Updater/Maps.antt =====
-- meta_updater.go: `slices.Equal` and `maps.Equal` as equality.
use sandbox_mommy.Base.{
  String, string_eq, true, List, [], ◌∷◌, map, some, All, Elem, Distinct, inl, inr, ◌≡◌, refl, sym,
  arith,
}
use sandbox_mommy.Api.{StringMap}
use sandbox_mommy.Updater.{slices_equal, lookup, included, maps_equal}

pub slices_equal_refl : (xs : List String) → slices_equal xs xs ≡ true
slices_equal_refl [] = refl
slices_equal_refl (x ∷ xs) = ground (arith, slices_equal_refl xs)

pub slices_equal_eq : (xs ys : List String) → slices_equal xs ys ≡ true → xs ≡ ys
slices_equal_eq [] [] h = refl
slices_equal_eq [] (y ∷ ys) h = cc
slices_equal_eq (x ∷ xs) [] h = cc
slices_equal_eq (x ∷ xs) (y ∷ ys) h = ground (arith, slices_equal_eq xs ys)

abbrev pub keys : StringMap → List String
keys = map (λ e. e.0)

abbrev Holds : StringMap → String × String → Type 0
Holds n e = lookup e.0 n ≡ some e.1

included_of_All : (m n : StringMap) → All (Holds n) m → included m n ≡ true
included_of_All [] n h = refl
included_of_All ((k, v) ∷ m) n (e, h) = ground (arith, included_of_All m n h)

All-Holds-cons :
    (k v : String) (n m : StringMap)
    → ¬ Elem k (keys m)
    → All (Holds n) m
    → All (Holds ((k, v) ∷ n)) m
All-Holds-cons k v n [] new h = tt
All-Holds-cons k v n ((j, w) ∷ m) new (e, h) = (
  elim (string_eq.dec j k) [ yes same ↦ absurd (new (inl (sym same))) | no differ ↦ ground arith ],
  All-Holds-cons k v n m (λ x. new (inr x)) h,
)

All-Holds_self : (m : StringMap) → Distinct (keys m) → All (Holds m) m
All-Holds_self [] d = tt
All-Holds_self ((k, v) ∷ m) (new, d) =
    (ground arith, All-Holds-cons k v m m new (All-Holds_self m d))

pub maps_equal_refl : (m : StringMap) → Distinct (keys m) → maps_equal m m ≡ true
unfolding maps_equal
maps_equal_refl m d = ground (arith, included_of_All m m (All-Holds_self m d))
