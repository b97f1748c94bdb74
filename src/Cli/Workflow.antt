-- ===== src/Cli/Workflow.antt =====
-- `plan --save` and then `generate` of cli.py, on one disk.
use dng_preflight.Base.{
  ◌≡◌, sym, ◌∙◌, subst, String, Option, some, List, map, ok, ok-injective, All,
}
use dng_preflight.Base.Exec.{Exec}
use dng_preflight.Models.Snapshot.{EnvironmentSnapshot}
use dng_preflight.Models.Answers.{InterviewAnswers}
use dng_preflight.Models.Config.{build_config}
use dng_preflight.Interview.Engine.{AnswersProvider, run}
use dng_preflight.Templates.Engine.{Render}
use dng_preflight.Generators.Disk.{Disk, IsLawful}
use dng_preflight.Generators.Payloads.{payloads}
use dng_preflight.Generators.All.{artifact_names, in_dir}
use dng_preflight.Generators.Rounds.{IsStored}
use dng_preflight.Generators.Loop.{names}
use dng_preflight.Generators.Written.{generate_all-writes}
use dng_preflight.Generators.Working.{IsWorking, generate_all-Returns_iff}
use dng_preflight.Cli.Terminal.{World}
use dng_preflight.Cli.Options.{Flags}
use dng_preflight.Cli.Commands.{Codec, saved_plan, snapshot_for, plan_cmd, generate_cmd}
use dng_preflight.Cli.Accepts.{generate_cmd-reports}
use dng_preflight.Cli.Plans.{plan_cmd-emits, plan_cmd-content}

module _ (D : Disk) (law : IsLawful D) (codec : Codec)
    (collect : String → Exec (World D) EnvironmentSnapshot) (provider : AnswersProvider (World D))
    (hostname snapshot_path : Option String) (flags : Flags) (w w₁ w₂ : World D)
    (snapshot : EnvironmentSnapshot) (answers : InterviewAnswers)
    (found : snapshot_for D codec collect hostname snapshot_path w ≡ (ok snapshot, w₁))
    (interviewed : run snapshot provider w₁ ≡ (ok answers, w₂)) (w' : World D) (path : String)
    (done : plan_cmd D codec collect provider hostname snapshot_path (some path) flags w
      ≡ (ok tt, w'))
    (reads : codec.load_plan (codec.dump_plan (build_config snapshot answers))
      ≡ ok (build_config snapshot answers)) where
  saved_plan-planned : saved_plan D codec path w' ≡ (ok (build_config snapshot answers), w')
  saved_plan-planned = rw (
    plan_cmd-content D codec collect provider hostname snapshot_path flags w w₁ w₂ snapshot answers
        found interviewed w' law path done,
    reads,
  )

  -- On a lawful disk that makes the directory, writes every file and sets every mode, once `plan
  -- --save` has succeeded, `generate` on the saved file with the same flags succeeds, and
  -- afterwards all six artifacts are in the directory with their rendered texts, the shell scripts
  -- with mode 0o755, where the plan's document loads as the plan it was dumped from and every
  -- artifact of that plan can be rendered.
  pub plan_cmd-generate_cmd :
      (render : Render) (output_dir : String)
      → IsWorking D output_dir
      → (rendered : List (String × String))
      → payloads render (build_config snapshot answers) ≡ ok rendered
      → (w'' : World D) × (generate_cmd D codec render path output_dir flags w' ≡ (ok tt, w''))
        × (names rendered ≡ artifact_names)
        × All (IsStored D law output_dir w''.disk) rendered
  plan_cmd-generate_cmd render output_dir works rendered renders =
      let config = build_config snapshot answers in
      let (_, acceptable, _) =
        plan_cmd-emits D codec collect provider hostname snapshot_path flags w w₁ w₂ snapshot
          answers found interviewed w' (some path) done in
      let (disk, wrote) =
        (generate_all-Returns_iff D output_dir works render config w'.disk).1 (rendered, renders) in
      let (_, (stored_as, same, named, stored)) =
        generate_all-writes D law render config output_dir w'.disk disk
          (map (in_dir output_dir) artifact_names) wrote in
      let equal = ok-injective stored_as rendered (sym same ∙ renders) in
      (
        _,
        generate_cmd-reports D codec path flags config w' saved_plan-planned render output_dir
            (map (in_dir output_dir) artifact_names) disk acceptable wrote,
        subst (λ r. names r ≡ artifact_names) equal named,
        subst (All (IsStored D law output_dir disk)) equal stored,
      )
