-- ===== src/Cli/Plans.antt =====
-- `plan_cmd` of cli.py: what a plan that it emits satisfies, and what later commands make of it.
use dng_preflight.Base.{
  ◌≢◌, ◌⊎◌, inl, inr, Result, Error, err, ◌≡◌, refl, sym, String, Option, some, [], ◌∷◌, ok,
}
use dng_preflight.Base.Exec.{Exec, after-eq-ok}
use dng_preflight.Models.Snapshot.{EnvironmentSnapshot}
use dng_preflight.Models.Answers.{InterviewAnswers}
use dng_preflight.Models.Config.{build_config}
use dng_preflight.Interview.Engine.{AnswersProvider, run}
use dng_preflight.Interview.Sound.{IsConsistent, run-IsConsistent}
use dng_preflight.Validation.Version.{pos, floor, tuple_ge, tuple_ge_iff, parse_version}
use dng_preflight.Validation.Rules.{HasWildcard, IsRecent}
use dng_preflight.Validation.Plan.{IsAcceptable}
use dng_preflight.Generators.Disk.{Disk, IsLawful}
use dng_preflight.Cli.Terminal.{World}
use dng_preflight.Cli.Options.{Flags, collect_overrides}
use dng_preflight.Cli.Report.{report_violations_and_exit}
use dng_preflight.Cli.Commands.{Codec, emit, snapshot_for, plan_cmd, validate_cmd}
use dng_preflight.Cli.Emitted.{emit-content}
use dng_preflight.Cli.Exits.{accepted, refused, raised, report_violations_and_exit-Outcome}
use dng_preflight.Cli.Accepts.{
  report_violations_and_exit-accepts, report_violations_and_exit-eq-ok, validate_cmd-ok_iff,
}

-- A plan that is built from consistent answers meets the demands of the rules on the wildcard and
-- on the version.
pub build_config-passes :
    (snapshot : EnvironmentSnapshot) (answers : InterviewAnswers)
    → IsConsistent answers
    → HasWildcard (build_config snapshot answers)
      × IsRecent (parse_version (build_config snapshot answers).dng_version_minimum)
unfolding build_config parse_version tuple_ge
build_config-passes snapshot answers c =
    (c.wildcard, (tuple_ge_iff (pos 3 ∷ pos 3 ∷ pos 0 ∷ []) floor).0 refl)

module _ (D : Disk) (codec : Codec) (collect : String → Exec (World D) EnvironmentSnapshot)
    (provider : AnswersProvider (World D)) (hostname snapshot_path : Option String) (flags : Flags)
    (w w₁ w₂ : World D) (snapshot : EnvironmentSnapshot) (answers : InterviewAnswers)
    (found : snapshot_for D codec collect hostname snapshot_path w ≡ (ok snapshot, w₁))
    (interviewed : run snapshot provider w₁ ≡ (ok answers, w₂)) where
  -- Where the snapshot is found, the interview finishes and the plan of both is acceptable with
  -- the flags, the `plan` command does what emitting the plan's document does.
  pub plan_cmd-accepted :
      (save_path : Option String)
      → IsAcceptable (build_config snapshot answers) (collect_overrides flags)
      → plan_cmd D codec collect provider hostname snapshot_path save_path flags w
        ≡ emit D codec save_path "plan" (codec.dump_plan (build_config snapshot answers)) w₂
  unfolding plan_cmd
  plan_cmd-accepted save_path good = rw (
    found,
    interviewed,
    report_violations_and_exit-accepts (build_config snapshot answers) (collect_overrides flags) w₂
        good,
  )

  abbrev pub outcome : Option String → Result (Unit {0}) × World D
  outcome save_path = plan_cmd D codec collect provider hostname snapshot_path save_path flags w

  -- It failed, and since the interview neither the disk nor the standard output has changed.
  abbrev pub IsKept : Result (Unit {0}) × World D → Type 0
  IsKept (r, w') = (r ≢ ok tt) × (w'.disk ≡ w₂.disk) × (w'.stdout ≡ w₂.stdout)

  stopped-IsKept :
      (save_path : Option String) (e : Error) (w' : World D)
      → report_violations_and_exit (build_config snapshot answers) (collect_overrides flags) w₂
        ≡ (err e, w')
      → w'.disk ≡ w₂.disk
      → w'.stdout ≡ w₂.stdout
      → IsKept (outcome save_path)
  unfolding plan_cmd
  stopped-IsKept save_path e w' stopped disk out =
      rw (found, interviewed, stopped) ((λ h. cc h), disk, out)

  -- Once the snapshot is found and the interview is finished, a `plan` command either fails and
  -- changes neither the disk nor the standard output, or the answers are consistent, the plan of
  -- both is acceptable with the flags, and the command does what emitting the plan's document
  -- does.
  pub plan_cmd-validates :
      (save_path : Option String)
      → IsKept (outcome save_path)
        ⊎ (IsConsistent answers
            × IsAcceptable (build_config snapshot answers) (collect_overrides flags)
            × (outcome save_path
                ≡ emit D codec save_path "plan"
                    (codec.dump_plan (build_config snapshot answers))
                    w₂))
  plan_cmd-validates save_path =
      elim (report_violations_and_exit-Outcome (build_config snapshot answers)
        (collect_overrides flags) w₂) [
          | accepted good _ ↦ inr (
            run-IsConsistent snapshot provider w₁ w₂ answers interviewed,
            good,
            plan_cmd-accepted save_path good,
          )
          | refused _ _ _ _ stopped ↦ inl (stopped-IsKept save_path _ _ stopped refl refl)
          | raised e _ _ stopped ↦ inl (stopped-IsKept save_path e w₂ stopped refl refl)
        ]

  module _ (w' : World D) where
    -- The validation is the last thing that can refuse the plan.
    planned :
        (save_path : Option String)
        → plan_cmd D codec collect provider hostname snapshot_path save_path flags w ≡ (ok tt, w')
        → IsAcceptable (build_config snapshot answers) (collect_overrides flags)
          × (emit D codec save_path "plan" (codec.dump_plan (build_config snapshot answers)) w₂
              ≡ (ok tt, w'))
    unfolding plan_cmd
    planned save_path done =
        let config = build_config snapshot answers in
        let overrides = collect_overrides flags in
        let (tt, w₃, reported, h) =
          after-eq-ok (report_violations_and_exit config overrides w₂) _
            (rw (found, interviewed) at done) in
        let (acceptable, same) = report_violations_and_exit-eq-ok config overrides w₂ w₃ reported in
        (acceptable, rw (sym same) at h)

    pub plan_cmd-emits :
        (save_path : Option String)
        → plan_cmd D codec collect provider hostname snapshot_path save_path flags w ≡ (ok tt, w')
        → IsConsistent answers
          × IsAcceptable (build_config snapshot answers) (collect_overrides flags)
          × (emit D codec save_path "plan" (codec.dump_plan (build_config snapshot answers)) w₂
              ≡ (ok tt, w'))
    plan_cmd-emits save_path done =
        let (acceptable, emitted) = planned save_path done in
        (run-IsConsistent snapshot provider w₁ w₂ answers interviewed, acceptable, emitted)

    module _ (law : IsLawful D) (path : String)
        (done : plan_cmd D codec collect provider hostname snapshot_path (some path) flags w
          ≡ (ok tt, w')) where
      pub plan_cmd-content :
          D.content w'.disk path ≡ some (codec.dump_plan (build_config snapshot answers))
      plan_cmd-content =
          emit-content D law codec path "plan" (codec.dump_plan (build_config snapshot answers)) w₂
            w' (planned (some path) done).1

      -- On a lawful disk, once `plan --save` has succeeded, `validate` with the same flags accepts
      -- the saved file, where the plan's document loads as the plan it was dumped from.
      pub plan_cmd-validate_cmd :
          codec.load_plan (codec.dump_plan (build_config snapshot answers))
            ≡ ok (build_config snapshot answers)
          → (validate_cmd D codec path flags w').0 ≡ ok tt
      plan_cmd-validate_cmd reads =
          (validate_cmd-ok_iff D codec path flags (build_config snapshot answers) w'
              (rw (plan_cmd-content, reads))).1
            (planned (some path) done).0
