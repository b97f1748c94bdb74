-- ===== src/Examples/Workflow.antt =====
-- Runs of several commands of cli.py on one disk.
use dng_preflight.Base.{◌≡◌, refl, String, none, some, List, [], ok, All}
use dng_preflight.Base.Exec.{pure}
use dng_preflight.Models.Config.{build_config}
use dng_preflight.Generators.Disk.{memory, memory-IsLawful}
use dng_preflight.Generators.All.{artifact_names}
use dng_preflight.Generators.Payloads.{payloads}
use dng_preflight.Generators.Documents.{
  generate_installer, generate_runbook, generate_scripted_config,
}
use dng_preflight.Generators.DnsRecords.{generate_md}
use dng_preflight.Generators.FirewallRules
use dng_preflight.Generators.Rounds.{IsStored}
use dng_preflight.Generators.Loop.{names}
use dng_preflight.Generators.Working.{IsWorking}
use dng_preflight.Cli.Terminal.{World}
use dng_preflight.Cli.Commands.{json, emit, snapshot_for, inspect_cmd, plan_cmd, generate_cmd}
use dng_preflight.Cli.Emitted.{inspect_cmd-plan_cmd}
use dng_preflight.Cli.Workflow.{plan_cmd-generate_cmd}
use dng_preflight.Examples.Sample.{answers, snapshot}
use dng_preflight.Examples.Cli.{
  codec, world, no_flags, echoing, operator, no_discovery, interviewed, planned, plans, reads_back,
}

memory-IsWorking : IsWorking memory "out"
memory-IsWorking = record {
  makes = λ s. (_, refl);
  writes = λ path text s. (_, refl);
  sets_mode = λ path bits s. (_, refl);
}

abbrev rendered : List (String × String)
unfolding payloads generate_scripted_config generate_installer generate_runbook generate_md
    FirewallRules.generate build_config
rendered = elim (payloads echoing (build_config snapshot answers)) [ ok found ↦ found | _ ↦ [] ]

renders : payloads echoing (build_config snapshot answers) ≡ ok rendered
unfolding payloads generate_scripted_config generate_installer generate_runbook generate_md
    FirewallRules.generate build_config
renders = refl

plan_cmd-generate_cmd_example :
    (w'' : World memory) × (generate_cmd memory codec echoing "saved.yaml" "out" no_flags planned
      ≡ (ok tt, w''))
    × (names rendered ≡ artifact_names)
    × All (IsStored memory memory-IsLawful "out" w''.disk) rendered
unfolding snapshot_for
plan_cmd-generate_cmd_example =
    plan_cmd-generate_cmd memory memory-IsLawful codec no_discovery operator
      (some "dng.example.com") none no_flags world world world snapshot answers refl interviewed
      planned "saved.yaml" plans reads_back echoing "out" memory-IsWorking rendered renders

abbrev inspected : World memory
inspected = (emit memory codec (some "seen.json") "snapshot" "{}\n" world).1

inspects :
    inspect_cmd memory codec no_discovery "dng.example.com" json (some "seen.json") world
    ≡ (ok tt, inspected)
unfolding inspect_cmd
inspects = refl

inspect_cmd-plan_cmd_example :
    plan_cmd memory codec no_discovery operator none (some "seen.json") none no_flags inspected
    ≡ plan_cmd memory codec
        (λ _. pure snapshot)
        operator
        (some "dng.example.com")
        none
        none
        no_flags
        inspected
inspect_cmd-plan_cmd_example =
    inspect_cmd-plan_cmd memory memory-IsLawful codec no_discovery "dng.example.com" json
      "seen.json" world world inspected snapshot refl inspects refl operator none none no_flags
