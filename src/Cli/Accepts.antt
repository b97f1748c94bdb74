-- ===== src/Cli/Accepts.antt =====
-- `validate_cmd` and `generate_cmd` of cli.py: which plans they accept, and what they do otherwise.
use dng_preflight.Base.{
  ◌≡◌, refl, sym, ap, ◌∙◌, subst, ◌↔◌, ◌⊎◌, inl, inr, String, ◌<>◌, List, ◌∷◌, map, ok, err, Error,
  system_exit, arith, none, length, Option-cases,
}
use dng_preflight.Base.Exec.{after-eq-ok}
use dng_preflight.Base.Format.{show}
use dng_preflight.Models.Config.{DngConfig}
use dng_preflight.Templates.Engine.{Render}
use dng_preflight.Validation.Version.{parse_version}
use dng_preflight.Validation.Stops.{HardStop}
use dng_preflight.Validation.HardStops.{validate_plan}
use dng_preflight.Validation.Plan.{IsAcceptable}
use dng_preflight.Validation.Report.{validate_plan-raises_iff}
use dng_preflight.Generators.Disk.{Disk}
use dng_preflight.Generators.All.{generate_all}
use dng_preflight.Cli.Terminal.{World, echo, on_disk}
use dng_preflight.Cli.Options.{name, Flags, collect_overrides}
use dng_preflight.Cli.Report.{line, report_violations_and_exit}
use dng_preflight.Cli.Commands.{Codec, saved_plan, announce, validate_cmd, generate_cmd}
use dng_preflight.Cli.Exits.{
  printed, accepted, refused, raised, report_violations_and_exit-Outcome, echo_all-printed,
}

announce-disk :
    (D : Disk) (codec : Codec) (output_dir : String) (paths : List String) (w w' : World D)
    → announce D codec output_dir paths w ≡ (ok tt, w')
    → w.disk ≡ w'.disk
unfolding announce
announce-disk D codec output_dir paths w w' h =
    ap (λ r. r.1.disk)
      (sym (
          echo_all-printed (map (λ path. "  - " <> name path) paths)
            (echo ("wrote " <> (show (length paths) <> (" artifact(s) to " <> (output_dir <> ":"))))
              w).1)
        ∙ h)

-- Reading a plan leaves the world as it is.
pub saved_plan-reads :
    (D : Disk) (codec : Codec) (plan_path : String) (w : World D)
    → (saved_plan D codec plan_path w).1 ≡ w
saved_plan-reads D codec plan_path w = elim (Option-cases (D.content w.disk plan_path)) [
  | inl e ↦ rw e refl
  | inr (text, e) ↦ rw e refl
]

module _ {D : Disk} (config : DngConfig) (overrides : List String) (w : World D) where
  pub report_violations_and_exit-accepts :
      IsAcceptable config overrides → report_violations_and_exit config overrides w ≡ (ok tt, w)
  report_violations_and_exit-accepts good =
      elim (report_violations_and_exit-Outcome config overrides w) [
        | accepted _ e ↦ e
        | refused _ _ _ bad _ ↦ absurd (bad good)
        | raised _ _ bad _ ↦ absurd (bad good)
      ]

  pub report_violations_and_exit-eq-ok :
      (w' : World D)
      → report_violations_and_exit config overrides w ≡ (ok tt, w')
      → IsAcceptable config overrides × (w ≡ w')
  report_violations_and_exit-eq-ok w' h =
      elim (report_violations_and_exit-Outcome config overrides w) [
        | accepted a e ↦ (a, ap (λ r. r.1) (sym e ∙ h))
        | refused _ _ _ _ e ↦ ground arith
        | raised _ _ _ e ↦ ground arith
      ]

-- The lines of the report on what was written.
abbrev pub written_lines : String → List String → List String
written_lines output_dir paths =
    ("wrote " <> (show (length paths) <> (" artifact(s) to " <> (output_dir <> ":"))))
    ∷ map (λ path. "  - " <> name path) paths

module _ (D : Disk) (codec : Codec) (plan_path : String) (flags : Flags) (config : DngConfig)
    (w : World D) (saved : saved_plan D codec plan_path w ≡ (ok config, w)) where
  abbrev overrides : List String
  overrides = collect_overrides flags

  -- On a saved plan that loads, the `validate` command succeeds exactly where the plan is
  -- acceptable with its flags.
  pub validate_cmd-ok_iff :
      ((validate_cmd D codec plan_path flags w).0 ≡ ok tt) ↔ IsAcceptable config overrides
  unfolding validate_cmd
  validate_cmd-ok_iff = elim (report_violations_and_exit-Outcome config overrides w) [
    | accepted a e ↦ rw (saved, e) (λ _. a, λ _. refl)
    | refused _ _ _ bad e ↦ rw (saved, e) (λ h. ground arith, λ a. absurd (bad a))
    | raised _ _ bad e ↦ rw (saved, e) (λ h. ground arith, λ a. absurd (bad a))
  ]

  -- A `generate` command whose plan is not acceptable with its flags leaves the disk and the
  -- standard output as they are. Either it exits with status 2 after printing one line for each
  -- violation, in order, or a part of the version is no whole number, and it raises without
  -- printing.
  pub generate_cmd-refuses :
      (render : Render) (output_dir : String)
      → ¬ IsAcceptable config overrides
      → ((v : HardStop) × (vs : List HardStop) × (validate_plan config overrides ≡ ok (v ∷ vs))
          × (generate_cmd D codec render plan_path output_dir flags w
              ≡ (err (system_exit 2), printed w (map line (v ∷ vs)))))
        ⊎ ((e : Error) × (parse_version config.dng_version_minimum ≡ none)
            × (generate_cmd D codec render plan_path output_dir flags w ≡ (err e, w)))
  unfolding generate_cmd
  generate_cmd-refuses render output_dir bad =
      elim (report_violations_and_exit-Outcome config overrides w) [
        | accepted a e ↦ absurd (bad a)
        | refused v vs some_stop _ e ↦ inl (v, vs, some_stop, rw (saved, e))
        | raised e stopped _ h ↦
            inr (e, (validate_plan-raises_iff config overrides).0 (e, stopped), rw (saved, h))
      ]

  -- Where the saved plan is acceptable with the flags and all artifacts are written, the
  -- `generate` command succeeds, and prints their number, the directory and one line for each, in
  -- order.
  pub generate_cmd-reports :
      (render : Render) (output_dir : String) (paths : List String) (disk : D.State)
      → IsAcceptable config overrides
      → generate_all D render config output_dir w.disk ≡ (ok paths, disk)
      → generate_cmd D codec render plan_path output_dir flags w ≡ (
        ok tt,
        printed
            (record { disk = disk; stdout = w.stdout; stderr = w.stderr })
            (written_lines output_dir paths),
      )
  unfolding generate_cmd announce
  generate_cmd-reports render output_dir paths disk good wrote =
      rw (saved, report_violations_and_exit-accepts config overrides w good, wrote)
        (echo_all-printed (written_lines output_dir paths)
          (record { disk = disk; stdout = w.stdout; stderr = w.stderr }))

module _ (D : Disk) (codec : Codec) (render : Render) (plan_path output_dir : String)
    (flags : Flags) (w w' : World D)
    (done : generate_cmd D codec render plan_path output_dir flags w ≡ (ok tt, w')) where
  pub generate_cmd-accepts :
      (config : DngConfig) × (paths : List String) × (saved_plan D codec plan_path w
        ≡ (ok config, w))
      × IsAcceptable config (collect_overrides flags)
      × (generate_all D render config output_dir w.disk ≡ (ok paths, w'.disk))
  unfolding generate_cmd
  generate_cmd-accepts =
      let (config, w₁, saved, h₁) = after-eq-ok (saved_plan D codec plan_path w) _ done in
      let (tt, w₂, reported, h₂) =
        after-eq-ok (report_violations_and_exit config (collect_overrides flags) w₁) _ h₁ in
      let (acceptable, same) =
        report_violations_and_exit-eq-ok config (collect_overrides flags) w₁ w₂ reported in
      let (paths, w₃, wrote, h₃) =
        after-eq-ok (on_disk (generate_all D render config output_dir) w₂) _ h₂ in
      let start : w ≡ w₂ =
        sym (saved_plan-reads D codec plan_path w) ∙ ap (λ r. r.1) saved ∙ same in
      (
        config,
        paths,
        saved ∙ ap (λ u. (ok config, u)) (same ∙ sym start),
        acceptable,
        subst (λ u. generate_all D render config output_dir u.disk ≡ (ok paths, w'.disk))
            (sym start)
            (ap (λ r. (r.0, r.1.disk)) wrote
              ∙ ap (λ d. (ok paths, d)) (announce-disk D codec output_dir paths w₃ w' h₃)),
      )
