-- ===== src/Validator/Runs.antt =====
-- validator.go: the accumulating loops against a plain description of the verdict.
use sandbox_mommy.Base.{
  Bool, true, List, [], ◌∷◌, ◌++◌, map, some, ◌≡◌, refl, ◌∙◌, ap, false, if◌then◌else◌,
}
use mathlib.Core.List.{append-nil, append_assoc}
use sandbox_mommy.Exec.{Result, ok, err}
use sandbox_mommy.Validator.{
  Warnings, Validator, UpdateValidator, run, run_update, validate_create, validate_update,
  validate_delete, need_create_validate, need_update_validate, need_delete_validate, checked,
  validate_object, validate_pair,
}

-- The verdict of a list of answers: the first error, or all warnings in order.
abbrev prepend : Warnings → Result Warnings → Result Warnings
prepend ws (ok vs) = ok (ws ++ vs)
prepend ws (err e) = err e

abbrev pub verdict : List (Result Warnings) → Result Warnings
verdict [] = ok []
verdict (ok ws ∷ answers) = prepend ws (verdict answers)
verdict (err e ∷ answers) = err e

prepend-prepend :
    (a b : Warnings) (r : Result Warnings) → prepend (a ++ b) r ≡ prepend a (prepend b r)
prepend-prepend a b (ok vs) = rw append_assoc
prepend-prepend a b (err e) = refl

-- One round of a loop whose other rounds meet the description.
round :
    (r : Result Warnings) (warnings : Warnings) (loop : Warnings → Result Warnings)
    (answers : List (Result Warnings))
    → ((ws : Warnings) → loop ws ≡ prepend ws (verdict answers))
    → (elim r [ ok warn ↦ loop (warnings ++ warn) | err e ↦ err e ])
      ≡ prepend warnings (verdict (r ∷ answers))
round (ok warn) warnings loop answers ih =
    ih (warnings ++ warn) ∙ prepend-prepend warnings warn (verdict answers)
round (err e) warnings loop answers ih = refl

if_same : (b : Bool) (r : Result Warnings) → r ≡ (if b then r else r)
if_same true r = refl
if_same false r = refl

prepend-nil : (r : Result Warnings) → prepend [] r ≡ r
prepend-nil (ok vs) = refl
prepend-nil (err e) = refl

module _ {T : Type 0} where
  run-eq-verdict :
      (validators : List (T → Result Warnings)) (o : T) (warnings : Warnings)
      → run validators o warnings ≡ prepend warnings (verdict (map (λ f. f o) validators))
  unfolding run
  run-eq-verdict [] o warnings = rw append-nil
  run-eq-verdict (v ∷ vs) o warnings =
      round (v o) warnings (run vs o) (map (λ f. f o) vs) (run-eq-verdict vs o)

  run_update-eq-verdict :
      (validators : List (UpdateValidator T)) (old new : T) (warnings : Warnings)
      → run_update validators old new warnings
        ≡ prepend warnings (verdict (map (λ f. f old new) validators))
  unfolding run_update
  run_update-eq-verdict [] old new warnings = rw append-nil
  run_update-eq-verdict (v ∷ vs) old new warnings =
      round (v old new) warnings (run_update vs old new) (map (λ f. f old new) vs)
        (run_update-eq-verdict vs old new)

  checked-eq-verdict :
      (validators : List (T → Result Warnings)) (need : T → Bool) (o : T)
      → validate_object validators need (ok o)
        ≡ (if need o then verdict (map (λ f. f o) validators) else ok [])
  checked-eq-verdict [] need o = if_same (need o) (ok [])
  checked-eq-verdict (v ∷ vs) need o = checked-if (need o)
    where
      checked-if :
          (b : Bool)
          → checked b (v ∷ vs) o ≡ (if b then verdict (map (λ f. f o) (v ∷ vs)) else ok [])
      checked-if true =
          run-eq-verdict (v ∷ vs) o [] ∙ prepend-nil (verdict (map (λ f. f o) (v ∷ vs)))
      checked-if false = refl

  pair-eq-verdict :
      (validators : List (UpdateValidator T)) (need : T → T → Bool) (old new : T)
      → validate_pair validators need (ok old) (ok new)
        ≡ (if need old new then verdict (map (λ f. f old new) validators) else ok [])
  pair-eq-verdict [] need old new = if_same (need old new) (ok [])
  pair-eq-verdict (v ∷ vs) need old new =
      ap (λ r. if need old new then r else ok [])
        (run_update-eq-verdict (v ∷ vs) old new []
          ∙ prepend-nil (verdict (map (λ f. f old new) (v ∷ vs))))

  -- An object of the webhook's type gets, for a creation, a deletion and an update, the first error
  -- of the validators or else all their warnings in order, unless the predicate says that it needs
  -- no validation, when it is accepted with no warning.
  pub validate-eq-verdict :
      (v : Validator T) (o new : T)
      → (validate_create v (some o) ≡ (
          if need_create_validate v.predicate o then verdict (map (λ f. f o) v.create) else ok []))
        × (validate_delete v (some o) ≡ (
            if need_delete_validate v.predicate o
            then verdict (map (λ f. f o) v.delete)
            else ok []))
        × (validate_update v (some o) (some new) ≡ (
            if need_update_validate v.predicate o new
            then verdict (map (λ f. f o new) v.update)
            else ok []))
  unfolding validate_create validate_delete validate_update
  validate-eq-verdict v o new = (
    checked-eq-verdict v.create (need_create_validate v.predicate) o,
    checked-eq-verdict v.delete (need_delete_validate v.predicate) o,
    pair-eq-verdict v.update (need_update_validate v.predicate) o new,
  )
