-- ===== src/Exec/Laws.antt =====
-- How a chain of calls runs when its first call is known.
use sandbox_mommy.Base.{◌≡◌, ap}
use sandbox_mommy.Exec.{Exec, Error, ok, err, ◌>>=◌, or_wrap, continue, wrapping}

module _ {S A B : Type 0} where
  pub bind_ok :
      (m : Exec S A) (f : A → Exec S B) {s t : S} {a : A} → m s ≡ (ok a, t) → (m >>= f) s ≡ f a t
  bind_ok m f h = ap (continue f) h

  pub bind_err :
      (m : Exec S A) (f : A → Exec S B) {s t : S} {e : Error}
      → m s ≡ (err e, t)
      → (m >>= f) s ≡ (err e, t)
  bind_err m f h = ap (continue f) h

module _ {S A : Type 0} where
  pub or_wrap_ok :
      (m : Exec S A) (f : Error → Error) {s t : S} {a : A}
      → m s ≡ (ok a, t)
      → or_wrap m f s ≡ (ok a, t)
  or_wrap_ok m f h = ap (wrapping f) h

  pub or_wrap_err :
      (m : Exec S A) (f : Error → Error) {s t : S} {e : Error}
      → m s ≡ (err e, t)
      → or_wrap m f s ≡ (err (f e), t)
  or_wrap_err m f h = ap (wrapping f) h
