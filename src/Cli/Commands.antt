-- ===== src/Cli/Commands.antt =====
-- The commands of cli.py.
use dng_preflight.Base.{
  String, ◌<>◌, Option, none, some, List, map, length, Result, err, usage_error,
}
use dng_preflight.Base.Exec.{Exec, lift, ◌>>=◌, ◌>>◌}
use dng_preflight.Base.Format.{show}
use dng_preflight.Models.Snapshot.{EnvironmentSnapshot}
use dng_preflight.Models.Config.{DngConfig, build_config}
use dng_preflight.Interview.Engine.{AnswersProvider, run}
use dng_preflight.Templates.Engine.{Render}
use dng_preflight.Generators.Disk.{Disk}
use dng_preflight.Generators.All.{generate_all}
use dng_preflight.Cli.Terminal.{World, echo, echo_all, write_out, on_disk, read_text}
use dng_preflight.Cli.Options.{Flags, collect_overrides, name}
use dng_preflight.Cli.Report.{report_violations_and_exit}

-- PyYAML, `json` and pydantic, on the program's documents.
pub record Codec : Type 0 where
  -- `DngConfig.model_validate(yaml.safe_load(text))`
  pub load_plan : String → Result DngConfig
  -- `yaml.safe_dump(config.model_dump(mode="json"), sort_keys=False)`
  pub dump_plan : DngConfig → String
  -- `EnvironmentSnapshot.model_validate(yaml.safe_load(text))`
  pub load_snapshot : String → Result EnvironmentSnapshot
  -- `yaml.safe_dump(payload, sort_keys=False, default_flow_style=False)`
  pub dump_yaml : EnvironmentSnapshot → String
  -- `json.dumps(payload, indent=2)`
  pub dump_json : EnvironmentSnapshot → String

-- The choices of `--format`.
pub data Format : Type 0 where
  yaml json : Format

module _ (D : Disk) (codec : Codec) where
  -- Text to the file of an option if it is given, announced, and else to the standard output.
  abbrev pub emit : Option String → String → String → Exec (World D) (Unit {0})
  emit none written text = write_out text
  emit (some path) written text = do
    on_disk (D.write_text path text)
    echo (written <> (" written to " <> path))

  abbrev pub payload : Format → EnvironmentSnapshot → String
  payload yaml snapshot = codec.dump_yaml snapshot
  payload json snapshot = codec.dump_json snapshot <> "\n"

  -- `load_plan` of the file.
  abbrev pub saved_plan : String → Exec (World D) DngConfig
  saved_plan path = do text ← read_text path; lift (codec.load_plan text)

  unfoldable pub validate_cmd : String → Flags → Exec (World D) (Unit {0})
  unfolding report_violations_and_exit
  validate_cmd plan_path flags = do
    config ← saved_plan plan_path
    report_violations_and_exit config (collect_overrides flags)
    echo "OK: no hard-stop violations"

  -- The lines that list what was written.
  unfoldable pub announce : String → List String → Exec (World D) (Unit {0})
  unfolding name
  announce output_dir written = do
    echo ("wrote " <> (show (length written) <> (" artifact(s) to " <> (output_dir <> ":"))))
    echo_all (map (λ path. "  - " <> name path) written)

  unfoldable pub generate_cmd : Render → String → String → Flags → Exec (World D) (Unit {0})
  unfolding report_violations_and_exit announce
  generate_cmd render plan_path output_dir flags = do
    config ← saved_plan plan_path
    report_violations_and_exit config (collect_overrides flags)
    written ← on_disk (generate_all D render config output_dir)
    announce output_dir written

  module _ (collect : String → Exec (World D) EnvironmentSnapshot) where
    unfoldable pub inspect_cmd : String → Format → Option String → Exec (World D) (Unit {0})
    inspect_cmd hostname format output_path = do
      snapshot ← collect hostname
      emit output_path "snapshot" (payload format snapshot)

    -- Where the snapshot of a plan comes from.
    unfoldable pub snapshot_for : Option String → Option String → Exec (World D) EnvironmentSnapshot
    snapshot_for hostname (some path) = do text ← read_text path; lift (codec.load_snapshot text)
    snapshot_for (some hostname) none = collect hostname
    snapshot_for none none =
        lift (err (usage_error "--hostname is required unless --snapshot is supplied"))

    unfoldable pub plan_cmd :
        AnswersProvider (World D)
        → Option String
        → Option String
        → Option String
        → Flags
        → Exec (World D) (Unit {0})
    unfolding report_violations_and_exit snapshot_for run
    plan_cmd provider hostname snapshot_path save_path flags = do
      snapshot ← snapshot_for hostname snapshot_path
      answers ← run snapshot provider
      let config = build_config snapshot answers
      report_violations_and_exit config (collect_overrides flags)
      emit save_path "plan" (codec.dump_plan config)
