-- ===== src/Cli/Exits.antt =====
-- When `_report_violations_and_exit` of cli.py lets the command go on, and what it prints.
use text.Mathlib.TextLemmas.{append_assoc, append-nil}
use dng_preflight.Base.{
  ◌≡◌, refl, ◌∙◌, String, ◌<>◌, List, [], ◌∷◌, map, Result, ok, err, Error, system_exit, arith,
}
use dng_preflight.Models.Config.{DngConfig}
use dng_preflight.Validation.Stops.{HardStop}
use dng_preflight.Validation.HardStops.{validate_plan}
use dng_preflight.Validation.Plan.{IsAcceptable, validate_plan-eq-nil_iff}
use dng_preflight.Generators.Disk.{Disk}
use dng_preflight.Cli.Terminal.{World, echo_all}
use dng_preflight.Cli.Report.{line, report, report_violations_and_exit}

-- Lines of text.
abbrev pub lines : List String → String
lines [] = ""
lines (message ∷ messages) = message <> ("\n" <> lines messages)

-- The world with these lines on the error stream.
abbrev pub printed : {D : Disk} → World D → List String → World D
printed w messages = record {
  disk = w.disk;
  stdout = w.stdout;
  stderr = w.stderr <> lines messages;
}

pub echo_all-printed :
    {D : Disk} (messages : List String) (w : World D)
    → echo_all messages w ≡ (ok tt, printed w messages)
echo_all-printed [] w = rw (append-nil w.stderr)
echo_all-printed (message ∷ messages) w =
    echo_all-printed messages
      (record { disk = w.disk; stdout = w.stdout; stderr = w.stderr <> (message <> "\n") })
    ∙ rw (
      append_assoc w.stderr (message <> "\n") (lines messages),
      append_assoc message "\n" (lines messages),
    )

module _ {D : Disk} (config : DngConfig) (overrides : List String) (w : World D) where
  -- The three outcomes.
  pub data Outcome : Type 0 where
    accepted :
        IsAcceptable config overrides
        → report_violations_and_exit config overrides w ≡ (ok tt, w)
        → Outcome
    refused :
        (v : HardStop) (vs : List HardStop)
        → validate_plan config overrides ≡ ok (v ∷ vs)
        → ¬ IsAcceptable config overrides
        → report_violations_and_exit config overrides w
          ≡ (err (system_exit 2), printed w (map line (v ∷ vs)))
        → Outcome
    raised :
        (e : Error)
        → validate_plan config overrides ≡ err e
        → ¬ IsAcceptable config overrides
        → report_violations_and_exit config overrides w ≡ (err e, w)
        → Outcome

  Outcome_of : (r : Result (List HardStop)) → validate_plan config overrides ≡ r → Outcome
  unfolding report_violations_and_exit report
  Outcome_of (err e) h =
      raised e h (λ a. ground (arith, validate_plan-eq-nil_iff config overrides)) (rw h)
  Outcome_of (ok []) h = accepted ((validate_plan-eq-nil_iff config overrides).0 h) (rw h)
  Outcome_of (ok (v ∷ vs)) h =
      refused v vs h (λ a. ground (arith, validate_plan-eq-nil_iff config overrides))
        (rw (h, echo_all-printed (map line (v ∷ vs)) w))

  pub report_violations_and_exit-Outcome : Outcome
  report_violations_and_exit-Outcome = Outcome_of (validate_plan config overrides) refl
