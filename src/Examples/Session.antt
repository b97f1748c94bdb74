-- ===== src/Examples/Session.antt =====
-- A run of `plan_cmd` of cli.py from the probes to the plan.
use dng_preflight.Base.{◌≡◌, ◌↔◌, ok}
use dng_preflight.Generators.Disk.{memory}
use dng_preflight.Cli.Session.{plan, plan-IsReady_iff}
use dng_preflight.Discovery.Ready.{IsReady}
use dng_preflight.Examples.Cli.{codec, world}
use dng_preflight.Examples.Machine.{machine, machine-IsPrompt, machine-IsLegible}
use dng_preflight.Examples.Operator.{operator, operator-IsCooperative}

plan-IsReady_iff_example :
    ((plan memory codec machine "now" "dng.example.com" machine-IsPrompt machine-IsLegible operator
        world).0
      ≡ ok tt)
    ↔ IsReady machine "dng.example.com"
plan-IsReady_iff_example =
    plan-IsReady_iff memory codec machine "now" "dng.example.com" machine-IsPrompt machine-IsLegible
      operator operator-IsCooperative world
