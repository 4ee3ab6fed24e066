-- ===== src/Validator.antt =====
-- pkg/controller/validator/validator.go: a webhook that runs a list of validators in order.
-- A `runtime.Object` is `some o` if it is of the expected type, and `none` otherwise; the logger's
-- calls are left out.
pub mod Runs
use sandbox_mommy.Base.{
  String, Bool, true, false, List, [], ◌∷◌, ◌++◌, Option, none, some, if◌then◌else◌,
}
use sandbox_mommy.Exec.{Result, ok, err, message}

-- `admission.Warnings`
abbrev pub Warnings : Type 0
Warnings = List String

abbrev pub CreateValidator : Type 0 → Type 0
CreateValidator T = T → Result Warnings

abbrev pub UpdateValidator : Type 0 → Type 0
UpdateValidator T = T → T → Result Warnings

abbrev pub DeleteValidator : Type 0 → Type 0
DeleteValidator T = T → Result Warnings

-- A nil function is `none`.
pub record Predicate (T : Type 0) : Type 0 where
  pub create : Option (T → Bool)
  pub update : Option (T → T → Bool)
  pub delete : Option (T → Bool)

pub record Validator (T : Type 0) : Type 0 where
  pub create : List (CreateValidator T)
  pub update : List (UpdateValidator T)
  pub delete : List (DeleteValidator T)
  pub predicate : Option (Predicate T)

abbrev pub new_validator : {T : Type 0} → Validator T
new_validator = record { create = []; update = []; delete = []; predicate = none }

module _ {T : Type 0} where
  abbrev pub with_create_validators : List (CreateValidator T) → Validator T → Validator T
  with_create_validators validators v = record v { create = v.create ++ validators }

  abbrev pub with_update_validators : List (UpdateValidator T) → Validator T → Validator T
  with_update_validators validators v = record v { update = v.update ++ validators }

  abbrev pub with_delete_validators : List (DeleteValidator T) → Validator T → Validator T
  with_delete_validators validators v = record v { delete = v.delete ++ validators }

  abbrev pub with_predicate : Predicate T → Validator T → Validator T
  with_predicate predicate v = record v { predicate = some predicate }

  abbrev pub new_object : Option T → Result T
  new_object none = err (message "expected a new %T but got a %T" [])
  new_object (some o) = ok o

  -- `needCreateValidate` and `needDeleteValidate` at the predicate's function.
  abbrev needed : Option (T → Bool) → T → Bool
  needed none o = true
  needed (some p) o = p o

  abbrev pub need_create_validate : Option (Predicate T) → T → Bool
  need_create_validate none o = true
  need_create_validate (some p) o = needed p.create o

  abbrev pub need_delete_validate : Option (Predicate T) → T → Bool
  need_delete_validate none o = true
  need_delete_validate (some p) o = needed p.delete o

  abbrev needed_update : Option (T → T → Bool) → T → T → Bool
  needed_update none old new = true
  needed_update (some p) old new = p old new

  abbrev pub need_update_validate : Option (Predicate T) → T → T → Bool
  need_update_validate none old new = true
  need_update_validate (some p) old new = needed_update p.update old new

  -- The loop of `ValidateCreate` and `ValidateDelete`: the first error ends it.
  unfoldable pub run : List (T → Result Warnings) → T → Warnings → Result Warnings
  run [] o warnings = ok warnings
  run (validate ∷ rest) o warnings = elim (validate o) [
    | ok warn ↦ run rest o (warnings ++ warn)
    | err e ↦ err e
  ]

  -- The loop of `ValidateUpdate`.
  unfoldable pub run_update : List (UpdateValidator T) → T → T → Warnings → Result Warnings
  run_update [] old new warnings = ok warnings
  run_update (validate ∷ rest) old new warnings = elim (validate old new) [
    | ok warn ↦ run_update rest old new (warnings ++ warn)
    | err e ↦ err e
  ]

  abbrev checked : Bool → List (T → Result Warnings) → T → Result Warnings
  checked true validators o = run validators o []
  checked false validators o = ok []

  abbrev validate_object : List (T → Result Warnings) → (T → Bool) → Result T → Result Warnings
  validate_object [] need o = ok []
  validate_object (v ∷ vs) need (err e) = err e
  validate_object (v ∷ vs) need (ok o) = checked (need o) (v ∷ vs) o

  unfoldable pub validate_create : Validator T → Option T → Result Warnings
  validate_create v obj =
      validate_object v.create (need_create_validate v.predicate) (new_object obj)

  unfoldable pub validate_delete : Validator T → Option T → Result Warnings
  validate_delete v obj =
      validate_object v.delete (need_delete_validate v.predicate) (new_object obj)

  abbrev validate_pair :
      List (UpdateValidator T) → (T → T → Bool) → Result T → Result T → Result Warnings
  validate_pair [] need old new = ok []
  validate_pair (v ∷ vs) need (err e) new = err e
  validate_pair (v ∷ vs) need (ok old) (err e) = err e
  validate_pair (v ∷ vs) need (ok old) (ok new) =
      if need old new then run_update (v ∷ vs) old new [] else ok []

  unfoldable pub validate_update : Validator T → Option T → Option T → Result Warnings
  validate_update v old_obj new_obj =
      validate_pair v.update (need_update_validate v.predicate) (new_object old_obj)
        (new_object new_obj)
