-- ===== src/Exec/Holds.antt =====
-- What is true of every value that a call returns.
use sandbox_mommy.Base.{◌≡◌, refl}
use sandbox_mommy.Exec.{Result, ok, err, Exec, continue}

abbrev pub Holds : {S A : Type 0} → (A → Type 0) → Result A × S → Type 0
Holds P (ok a, s) = P a
Holds P (err e, s) = Unit

pub Holds-map :
    {S A : Type 0} (P Q : A → Type 0)
    → ((a : A) → P a → Q a)
    → (r : Result A × S) → Holds P r
    → Holds Q r
Holds-map P Q f (ok a, s) p = f a p
Holds-map P Q f (err e, s) p = tt

pub continue-Holds :
    {S A B : Type 0} (Q : B → Type 0) (f : A → Exec S B) (r : Result A × S)
    → ((a : A) (t : S) → r ≡ (ok a, t) → Holds Q (f a t))
    → Holds Q (continue f r)
continue-Holds Q f (ok a, t) h = h a t refl
continue-Holds Q f (err e, t) h = tt
