-- ===== src/Examples/Cli.antt =====
-- Tests and runs of cli.py.
use dng_preflight.Base.{
  ◌≡◌, ◌≢◌, refl, ◌↔◌, ◌⊎◌, Result, String, ◌<>◌, true, false, none, some, List, [], ◌∷◌, map, ok,
  err, Error, system_exit, runtime_error, ◌==◌, if◌then◌else◌,
}
use mathlib.Core.Bool.{false≢true}
use dng_preflight.Base.Exec.{Exec, pure}
use dng_preflight.Models.Snapshot.{EnvironmentSnapshot}
use dng_preflight.Models.Config.{build_config}
use dng_preflight.Validation.Version.{parse_version, tuple_ge}
use dng_preflight.Validation.Stops.{HardStop}
use dng_preflight.Validation.HardStops.{
  validate_plan, check_dng_version, check_admin_port, check_domain_joined,
  check_wildcard_for_rdp_smb, check_time_offset, check_lb_trusted_proxies,
  check_public_hostname_resolves,
}
use dng_preflight.Validation.Plan.{IsAcceptable, validate_plan-eq-nil_iff}
use dng_preflight.Interview.Engine.{AnswersProvider, run}
use dng_preflight.Interview.Sound.{IsConsistent}
use dng_preflight.Templates.Engine.{Render}
use dng_preflight.Generators.Disk.{memory, memory-IsLawful}
use dng_preflight.Generators.Payloads.{payloads}
use dng_preflight.Cli.Terminal.{World}
use dng_preflight.Cli.Options.{Flags, collect_overrides}
use dng_preflight.Cli.Report.{line}
use dng_preflight.Cli.Commands.{Codec, emit, snapshot_for, validate_cmd, generate_cmd, plan_cmd}
use dng_preflight.Cli.Exits.{printed, lines}
use dng_preflight.Cli.Announced.{announcement, generate_cmd-ok_iff}
use dng_preflight.Generators.Working.{IsWorking}
use dng_preflight.Cli.Accepts.{validate_cmd-ok_iff, generate_cmd-refuses}
use dng_preflight.Cli.Generated.{Refused, Generates, generate_cmd-writes}
use dng_preflight.Cli.Plans.{plan_cmd-accepted, plan_cmd-validates, plan_cmd-validate_cmd}
use dng_preflight.Cli.Overrides.{IsWaivedOrMet, validate_plan-collect_overrides_iff}
use dng_preflight.Base.Float.{abs_le}
use dng_preflight.Base.Text.{strip, has_char}
use dng_preflight.Base.{lookup}
use dng_preflight.Interview.Hostname.{IsNamed, Holds, validate_hostname_iff}
use dng_preflight.Interview.Assemble.{model_validate}
use dng_preflight.Interview.Questions.{
  require_one_of, validate_hostname, validate_strategy, validate_wildcard, validate_balancer,
  validate_apps,
}
use dng_preflight.Interview.Canned.{canned, or_null}
use dng_preflight.Examples.Sample.{plan, bad_plan, answers, snapshot}

-- Documents are told apart by their names.
abbrev pub codec : Codec
codec = record {
  load_plan = λ text.
      if text == "plan"
      then ok plan
      else if text == "bad plan"
      then ok bad_plan
      else err (runtime_error "");
  dump_plan = λ _. "plan";
  load_snapshot = λ _. ok snapshot;
  dump_yaml = λ _. "snapshot";
  dump_json = λ _. "{}";
}

abbrev pub world : World memory
world = record {
  disk = record {
    texts = λ p.
        if p == "plan.yaml" then some "plan" else if p == "bad.yaml" then some "bad plan" else none;
    modes = λ _. none;
  };
  stdout = "";
  stderr = "";
}

abbrev pub no_flags : Flags
no_flags = record { public_admin = false; domain_joined = false; time_check = false }

abbrev all_flags : Flags
all_flags = record { public_admin = true; domain_joined = true; time_check = true }

abbrev pub echoing : Render
echoing name arguments = ok name

validate_plan-collect_overrides_iff_example :
    (validate_plan bad_plan (collect_overrides all_flags) ≡ ok [])
    ↔ IsWaivedOrMet all_flags bad_plan
validate_plan-collect_overrides_iff_example = validate_plan-collect_overrides_iff all_flags bad_plan

validate_cmd-ok_iff_example :
    ((validate_cmd memory codec "bad.yaml" all_flags world).0 ≡ ok tt)
    ↔ IsAcceptable bad_plan (collect_overrides all_flags)
validate_cmd-ok_iff_example =
    validate_cmd-ok_iff memory codec "bad.yaml" all_flags bad_plan world refl

bad_plan_unacceptable : ¬ IsAcceptable bad_plan (collect_overrides all_flags)
bad_plan_unacceptable h = false≢true (h.wildcard refl)

generate_cmd-refuses_example :
    ((v : HardStop) × (vs : List HardStop) × (validate_plan bad_plan (collect_overrides all_flags)
        ≡ ok (v ∷ vs))
      × (generate_cmd memory codec echoing "bad.yaml" "out" all_flags world
          ≡ (err (system_exit 2), printed world (map line (v ∷ vs)))))
    ⊎ ((e : Error) × (parse_version bad_plan.dng_version_minimum ≡ none)
        × (generate_cmd memory codec echoing "bad.yaml" "out" all_flags world ≡ (err e, world)))
generate_cmd-refuses_example =
    generate_cmd-refuses memory codec "bad.yaml" all_flags bad_plan world refl echoing "out"
      bad_plan_unacceptable

plan_acceptable : IsAcceptable plan (collect_overrides no_flags)
unfolding validate_plan check_dng_version parse_version check_admin_port check_domain_joined
    check_wildcard_for_rdp_smb check_time_offset abs_le tuple_ge check_lb_trusted_proxies
    check_public_hostname_resolves
plan_acceptable = (validate_plan-eq-nil_iff plan (collect_overrides no_flags)).0 refl

saves : IsWorking memory "out"
saves = record {
  makes = λ s. (s, refl);
  writes = λ path text s. ((memory.write_text path text s).1, refl);
  sets_mode = λ path bits s. ((memory.chmod path bits s).1, refl);
}

generate_cmd-ok_iff_example :
    (((generate_cmd memory codec echoing "plan.yaml" "out" no_flags world).0 ≡ ok tt) ↔ (
      IsAcceptable plan (collect_overrides no_flags)
      × ((rendered : List (String × String)) × (payloads echoing plan ≡ ok rendered))))
    × ((generate_cmd memory codec echoing "plan.yaml" "out" no_flags world).0 ≡ ok tt
        → ((generate_cmd memory codec echoing "plan.yaml" "out" no_flags world).1.stderr
            ≡ world.stderr <> lines (announcement "out"))
          × ((generate_cmd memory codec echoing "plan.yaml" "out" no_flags world).1.stdout
              ≡ world.stdout))
generate_cmd-ok_iff_example =
    generate_cmd-ok_iff memory memory-IsLawful codec "plan.yaml" "out" no_flags plan world refl
      saves echoing

generate_cmd-writes_example :
    Refused memory memory-IsLawful codec echoing "bad.yaml" "out" all_flags world
    ⊎ Generates memory memory-IsLawful codec echoing "bad.yaml" "out" all_flags world
generate_cmd-writes_example =
    generate_cmd-writes memory memory-IsLawful codec echoing "bad.yaml" "out" all_flags world

accepted : IsNamed answers.public_hostname × Holds "." answers.public_hostname
unfolding validate_hostname strip has_char
accepted = (validate_hostname_iff answers.public_hostname).0 refl

consistent : IsConsistent answers
consistent = record {
  wildcard = λ _. refl;
  relays = λ some_relay. absurd (some_relay refl);
  named = accepted.0;
  qualified = accepted.1;
}

abbrev pub operator : AnswersProvider (World memory)
operator question _ _ _ w = (ok (or_null (lookup question.id (canned answers))), w)

abbrev pub no_discovery : String → Exec (World memory) EnvironmentSnapshot
no_discovery hostname = pure snapshot

pub interviewed : run snapshot operator world ≡ (ok answers, world)
unfolding run require_one_of validate_hostname strip has_char validate_strategy validate_wildcard
    validate_balancer validate_apps model_validate
interviewed = refl

plan_built : IsAcceptable (build_config snapshot answers) (collect_overrides no_flags)
unfolding build_config
plan_built = plan_acceptable

abbrev pub planned : World memory
planned = (emit memory codec (some "saved.yaml") "plan" "plan" world).1

abbrev plans_outcome : Result (Unit {0}) × World memory
plans_outcome =
    plan_cmd memory codec no_discovery operator (some "dng.example.com") none (some "saved.yaml")
      no_flags world

pub plans :
    plan_cmd memory codec no_discovery operator
      (some "dng.example.com")
      none
      (some "saved.yaml")
      no_flags
      world
    ≡ (ok tt, planned)
unfolding snapshot_for
plans =
    plan_cmd-accepted memory codec no_discovery operator (some "dng.example.com") none no_flags
      world world world snapshot answers refl interviewed (some "saved.yaml") plan_built

plan_cmd-validates_example :
    ((plans_outcome.0 ≢ ok tt)
      × (plans_outcome.1.disk ≡ world.disk)
      × (plans_outcome.1.stdout ≡ world.stdout))
    ⊎ (IsConsistent answers
        × IsAcceptable (build_config snapshot answers) (collect_overrides no_flags)
        × (plans_outcome ≡ emit memory codec (some "saved.yaml") "plan" "plan" world))
unfolding snapshot_for
plan_cmd-validates_example =
    plan_cmd-validates memory codec no_discovery operator (some "dng.example.com") none no_flags
      world world world snapshot answers refl interviewed (some "saved.yaml")

pub reads_back :
    codec.load_plan (codec.dump_plan (build_config snapshot answers))
    ≡ ok (build_config snapshot answers)
unfolding build_config
reads_back = refl

plan_cmd-validate_cmd_example : (validate_cmd memory codec "saved.yaml" no_flags planned).0 ≡ ok tt
unfolding snapshot_for
plan_cmd-validate_cmd_example =
    plan_cmd-validate_cmd memory codec no_discovery operator (some "dng.example.com") none no_flags
      world world world snapshot answers refl interviewed planned memory-IsLawful "saved.yaml" plans
      reads_back
