-- ===== src/Cli/Sessions.antt =====
-- internal/sandbox/cmds/attach/attach.go: when the console of a sandbox is left.
use sandbox_mommy.Base.{
  String, ℕ, zero, suc, ◌<◌, ◌≡◌, refl, ap, ◌∙◌, true, Option, none, some, Bool-cases, inl, inr,
}
use sandbox_mommy.Base.Int.{eqb}
use sandbox_mommy.Text.{codes, contains_codes}
use sandbox_mommy.Loop.{Step, leave, go_on, Sound, turns, leaves, loop_ends}
use sandbox_mommy.Cli.Console.{
  close_going_away, close_abnormal_closure, ConsoleError, interrupt, closed, failed, error_text,
  ends_run, ignore_interrupt, Terminal, waited, on_close, on_error, connect, round, run,
}

-- The errors that the command itself returns: those of a sandbox that is not found.
abbrev pub Excused : Option ConsoleError → Type 0
Excused none = Unit
Excused (some e) = contains_codes (codes (error_text e)) (codes "not found") ≡ true

excused : (e : ConsoleError) → ends_run e ≡ true → Excused (ignore_interrupt e)
excused interrupt h = tt
excused (closed code text) h = h
excused (failed text) h = h

module _ {W : Type 0} (T : Terminal W) (name : String) (left : W → ℕ)
    (pending : (w : W) → (T.interrupted w).0 ≡ true) where
  abbrev Leaves : W → Step W (Option ConsoleError × W) → Type 0
  Leaves = Sound (λ (_ : W). Unit {0}) (λ (_ : W) (r : Option ConsoleError × W). Excused r.0) left

  waited-Leaves : (w v : W) → Leaves w (waited T name (T.interrupted v))
  waited-Leaves w v =
      let now : waited T name (T.interrupted v) ≡ leave (none, (T.interrupted v).1) =
        ap (λ b. waited T name (b, (T.interrupted v).1)) (pending v) in
      rw now (leaves tt)

  on_close-Leaves : (e : ConsoleError) (w v : W) → Leaves w (on_close T name e v)
  on_close-Leaves interrupt w v = waited-Leaves w _
  on_close-Leaves (failed text) w v = waited-Leaves w _
  on_close-Leaves (closed code text) w v = elim (Bool-cases (eqb code close_going_away)) [
    | inl q ↦ rw q (leaves tt)
    | inr q ↦ elim (Bool-cases (eqb code close_abnormal_closure)) [
      | inl p ↦ rw (q, p) (waited-Leaves w _)
      | inr p ↦ rw (q, p) (waited-Leaves w v)
    ]
  ]

  on_error-Leaves :
      (w v : W) (o : Option ConsoleError)
      → (o ≡ none → left v < left w)
      → Leaves w (on_error T name (o, v))
  on_error-Leaves w v none fewer = turns tt (fewer refl) (λ a p. p)
  on_error-Leaves w v (some e) fewer = elim (Bool-cases (ends_run e)) [
    | inl q ↦ rw q (leaves (excused e q))
    | inr q ↦ rw q (on_close-Leaves e w v)
  ]

  -- Once an interrupt is pending at every look, and where only so many connections in a row end
  -- without an error, `Run` ends: with more fuel than such connections it leaves, and with no error
  -- but that of a sandbox that is not found.
  pub run_ends :
      ((w : W) → (connect T name w).0 ≡ none → left (connect T name w).1 < left w)
      → (fuel : ℕ) (w : W) → left w < fuel
      → (a : Option ConsoleError × W) × (run T name fuel w ≡ some a) × Excused a.0
  run_ends fewer fuel w enough =
      loop_ends (λ (_ : W). Unit {0}) (λ (_ : W) (r : Option ConsoleError × W). Excused r.0) left
        (round T name)
        (λ v _. on_error-Leaves v (connect T name v).1 (connect T name v).0 (fewer v)) fuel w enough
        tt

module _ {W : Type 0} (T : Terminal W) (name : String) where
  -- Where every connection ends without an error, `Run` never ends, whatever is interrupted: it
  -- connects again each time.
  pub run_reconnects :
      ((w : W) → (connect T name w).0 ≡ none) → (fuel : ℕ) (w : W) → run T name fuel w ≡ none
  run_reconnects calm zero w = refl
  run_reconnects calm (suc fuel) w =
      ap (λ o. go_on (run T name fuel) (on_error T name (o, (connect T name w).1))) (calm w)
      ∙ run_reconnects calm fuel (connect T name w).1
