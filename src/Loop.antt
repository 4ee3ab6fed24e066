-- ===== src/Loop.antt =====
-- A Go `for` without a condition, on fuel: its body goes round again or leaves the loop.
use sandbox_mommy.Base.{ℕ, zero, suc, ◌<◌, ◌≡◌, refl, Option, none, some, arith}

pub data Step {ℓ κ} (S : Type ℓ) (A : Type κ) : Type (ℓ ⊔ κ) where
  again : S → Step S A
  leave : A → Step S A

abbrev pub go_on {ℓ κ} : {S : Type ℓ} {A : Type κ} → (S → Option A) → Step S A → Option A
go_on next (again s) = next s
go_on next (leave a) = some a

-- No result says that the fuel is out.
abbrev pub loop {ℓ κ} : {S : Type ℓ} {A : Type κ} → (S → Step S A) → ℕ → S → Option A
loop body zero s = none
loop body (suc fuel) s = go_on (loop body fuel) (body s)

module _ {ℓ κ μ ν} {S : Type ℓ} {A : Type κ} (I : S → Type μ) (P : S → A → Type ν)
    (size : S → ℕ) where
  -- What one round has to keep: `I` holds before each round, `size` falls, and `P` is what the
  -- result promises of the state that the loop is entered with.
  pub data Sound (s : S) : Step S A → Type (ℓ ⊔ κ ⊔ μ ⊔ ν) where
    turns : {t : S} → I t → size t < size s → ((a : A) → P t a → P s a) → Sound s (again t)
    leaves : {a : A} → P s a → Sound s (leave a)

  abbrev Ended : (S → Step S A) → ℕ → S → Type (κ ⊔ ν)
  Ended body fuel s = (a : A) × (loop body fuel s ≡ some a) × P s a

  round :
      (body : S → Step S A) (fuel : ℕ) (s : S) (t : Step S A)
      → Sound s t
      → size s < suc fuel
      → ((u : S) → size u < fuel → I u → Ended body fuel u)
      → (a : A) × (go_on (loop body fuel) t ≡ some a) × P s a
  round body fuel s (again t) (turns i smaller promise) h rest =
      let (a, e, p) = rest t (omega arith) i in (a, e, promise a p)
  round body fuel s (leave a) (leaves p) h rest = (a, refl, p)

  -- The rule of the loop: with more fuel than the size it leaves, with a result as promised.
  pub loop_ends :
      (body : S → Step S A)
      → ((s : S) → I s → Sound s (body s))
      → (fuel : ℕ) (s : S) → size s < fuel
      → I s
      → Ended body fuel s
  loop_ends body keep zero s h i = absurd (omega arith)
  loop_ends body keep (suc fuel) s h i =
      round body fuel s (body s) (keep s i) h (loop_ends body keep fuel)
