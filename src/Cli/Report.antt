-- ===== src/Cli/Report.antt =====
-- `_report_violations_and_exit` of cli.py.
use dng_preflight.Base.{
  String, ◌<>◌, Option, none, some, List, [], ◌∷◌, map, err, system_exit, if◌then◌else◌,
}
use dng_preflight.Base.Text.{is_empty}
use dng_preflight.Base.Exec.{Exec, pure, lift, ◌>>=◌, ◌>>◌}
use dng_preflight.Models.Config.{DngConfig}
use dng_preflight.Validation.Stops.{HardStop}
use dng_preflight.Validation.HardStops.{validate_plan}
use dng_preflight.Generators.Disk.{Disk}
use dng_preflight.Cli.Terminal.{World, echo_all}

abbrev suffix : Option String → String
suffix none = ""
suffix (some flag) = if is_empty flag then "" else " (override: " <> (flag <> ")")

-- The line that reports one violation.
unfoldable pub line : HardStop → String
line v = "HARD-STOP " <> (v.rule <> (": " <> (v.message <> suffix v.override_flag)))

module _ {D : Disk} where
  unfoldable pub report : List HardStop → Exec (World D) (Unit {0})
  report [] = pure tt
  report (v ∷ vs) = do echo_all (map line (v ∷ vs)); lift (err (system_exit 2))

  unfoldable pub report_violations_and_exit : DngConfig → List String → Exec (World D) (Unit {0})
  unfolding report
  report_violations_and_exit config overrides = do
    violations ← lift (validate_plan config overrides)
    report violations
