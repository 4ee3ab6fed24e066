-- ===== src/Exec.antt =====
-- Go functions that return an error, over a state: the state comes back beside the error too,
-- since what was written before a return stays written.
pub mod Laws
pub mod Holds
use sandbox_mommy.Base.{String, Bool, true, false, List}

-- The reason of an API status error, as far as the code asks for it.
pub data ApiReason : Type 0 where
  not_found conflict : ApiReason
  other : String → ApiReason

-- A Go `error`: a status error of the API, `fmt.Errorf` with `%w` (format, arguments, cause), and
-- `fmt.Errorf` without it (format, arguments).
pub data Error : Type 0 where
  api : ApiReason → Error
  wrapped : String → List String → Error → Error
  message : String → List String → Error

-- `apierrors.IsNotFound` looks through wrapped errors.
abbrev pub is_not_found : Error → Bool
is_not_found (api ApiReason.not_found) = true
is_not_found (api _) = false
is_not_found (wrapped _ _ cause) = is_not_found cause
is_not_found (message _ _) = false

pub data Result {ℓ} (A : Type ℓ) : Type ℓ where
  ok : A → Result A
  err : Error → Result A

abbrev pub Exec : Type 0 → Type 0 → Type 0
Exec S A = S → Result A × S

module _ {S A : Type 0} where
  abbrev pub pure : A → Exec S A
  pure a s = (ok a, s)

  abbrev pub raise : Error → Exec S A
  raise e s = (err e, s)

  abbrev pub lift : Result A → Exec S A
  lift r s = (r, s)

-- `if err != nil { return err }`
abbrev pub continue : {S A B : Type 0} → (A → Exec S B) → Result A × S → Result B × S
continue f (ok a, s) = f a s
continue f (err e, s) = (err e, s)

-- `if err != nil { return wrap(err) }`
abbrev pub wrapping : {S A : Type 0} → (Error → Error) → Result A × S → Result A × S
wrapping f (ok a, s) = (ok a, s)
wrapping f (err e, s) = (err (f e), s)

infixl 5 ◌>>=◌ ◌>>◌
abbrev pub ◌>>=◌ : {S A B : Type 0} → Exec S A → (A → Exec S B) → Exec S B
◌>>=◌ m f s = continue f (m s)

abbrev pub ◌>>◌ : {S A B : Type 0} → Exec S A → Exec S B → Exec S B
m >> k = m >>= λ _. k

abbrev pub or_wrap : {S A : Type 0} → Exec S A → (Error → Error) → Exec S A
or_wrap m f s = wrapping f (m s)

-- The state that a call leaves.
abbrev pub after : {S A : Type 0} → Exec S A → S → S
after m s = (m s).1
