-- ===== src/Cli/Generated.antt =====
-- What a `generate_cmd` of cli.py has written, by its outcome.
use dng_preflight.Base.{
  ◌≡◌, ◌≢◌, ◌⊎◌, inl, inr, refl, sym, ◌∙◌, subst, String, List, Result, Error, ok, err,
  ok-injective, Result-cases, All, ap,
}
use dng_preflight.Models.Config.{DngConfig}
use dng_preflight.Templates.Engine.{Render}
use dng_preflight.Validation.Plan.{IsAcceptable}
use dng_preflight.Generators.Disk.{Disk, IsLawful}
use dng_preflight.Generators.Payloads.{payloads}
use dng_preflight.Generators.All.{artifact_names}
use dng_preflight.Generators.Rounds.{IsStored}
use dng_preflight.Generators.Loop.{names}
use dng_preflight.Generators.Written.{generate_all-writes}
use dng_preflight.Cli.Terminal.{World}
use dng_preflight.Cli.Options.{Flags, collect_overrides}
use dng_preflight.Cli.Commands.{Codec, saved_plan, generate_cmd}
use dng_preflight.Cli.Exits.{accepted, refused, raised, report_violations_and_exit-Outcome}
use dng_preflight.Cli.Accepts.{saved_plan-reads, generate_cmd-refuses, generate_cmd-accepts}

module _ (D : Disk) (law : IsLawful D) (codec : Codec) (render : Render)
    (plan_path output_dir : String) (flags : Flags) (w w' : World D)
    (done : generate_cmd D codec render plan_path output_dir flags w ≡ (ok tt, w')) where
  pub generate_cmd-IsStored :
      (config : DngConfig) × (rendered : List (String × String)) × (saved_plan D codec plan_path w
        ≡ (ok config, w))
      × IsAcceptable config (collect_overrides flags)
      × (payloads render config ≡ ok rendered)
      × (names rendered ≡ artifact_names)
      × All (IsStored D law output_dir w'.disk) rendered
  generate_cmd-IsStored =
      let (config, paths, saved, acceptable, all) =
        generate_cmd-accepts D codec render plan_path output_dir flags w w' done in
      let (_, (rendered, eq, named, stored)) =
        generate_all-writes D law render config output_dir w.disk w'.disk paths all in
      (config, rendered, saved, acceptable, eq, named, stored)

module _ (D : Disk) (law : IsLawful D) (codec : Codec) (render : Render)
    (plan_path output_dir : String) (flags : Flags) (w : World D) where
  abbrev pub generated : Result (Unit {0}) × World D
  generated = generate_cmd D codec render plan_path output_dir flags w

  -- It failed, and the disk is as it was.
  abbrev pub Refused : Type 0
  Refused = (generated.0 ≢ ok tt) × (generated.1.disk ≡ w.disk)

  -- The plan was read, its flags accept it, and if all went well its artifacts are in place.
  abbrev pub Generates : Type 0
  Generates =
      (config : DngConfig) × (saved_plan D codec plan_path w ≡ (ok config, w))
      × IsAcceptable config (collect_overrides flags)
      × (generated.0 ≡ ok tt
          → (rendered : List (String × String)) × (payloads render config ≡ ok rendered)
            × (names rendered ≡ artifact_names)
            × All (IsStored D law output_dir generated.1.disk) rendered)

  unread-Refused : (e : Error) → saved_plan D codec plan_path w ≡ (err e, w) → Refused
  unfolding generate_cmd
  unread-Refused e failed = rw failed ((λ h. cc h), refl)

  bad-Refused :
      (config : DngConfig)
      → saved_plan D codec plan_path w ≡ (ok config, w)
      → ¬ IsAcceptable config (collect_overrides flags)
      → Refused
  bad-Refused config saved bad =
      elim (generate_cmd-refuses D codec plan_path flags config w saved render output_dir bad) [
        | inl (v, vs, _, same) ↦ ((λ h. cc (ap (λ r. r.0) same, h)), ap (λ r. r.1.disk) same)
        | inr (e, _, same) ↦ ((λ h. cc (ap (λ r. r.0) same, h)), ap (λ r. r.1.disk) same)
      ]

  good-Generates :
      (config : DngConfig)
      → saved_plan D codec plan_path w ≡ (ok config, w)
      → IsAcceptable config (collect_overrides flags)
      → Generates
  good-Generates config saved good = (
    config,
    saved,
    good,
    λ done.
        let whole : generated ≡ (ok tt, generated.1) = ap (λ r. (r, generated.1)) done in
        let (read, rendered, again, _, eq, named, stored) =
          generate_cmd-IsStored D law codec render plan_path output_dir flags w generated.1 whole in
        let same = ok-injective read config (ap (λ r. r.0) (sym again ∙ saved)) in
        (rendered, subst (λ c. payloads render c ≡ ok rendered) same eq, named, stored),
  )

  -- On a lawful disk, a `generate` command either fails and leaves the disk as it was, or has read
  -- a plan that its flags accept. If it succeeds then, all six artifacts of this plan rendered,
  -- and afterwards each is in the output directory with its rendered text, the shell scripts with
  -- mode 0o755.
  pub generate_cmd-writes : Refused ⊎ Generates
  generate_cmd-writes =
      let back = saved_plan-reads D codec plan_path w in
      elim (Result-cases (saved_plan D codec plan_path w).0) [
        | inr (e, failed) ↦ inl (
            unread-Refused e (
              ap (λ r. (r, (saved_plan D codec plan_path w).1)) failed ∙ ap (λ u. (err e, u)) back))
        | inl (config, read) ↦
            let saved =
              ap (λ r. (r, (saved_plan D codec plan_path w).1)) read
              ∙ ap (λ u. (ok config, u)) back in
            elim (report_violations_and_exit-Outcome config (collect_overrides flags) w) [
              | accepted good _ ↦ inr (good-Generates config saved good)
              | refused _ _ _ bad _ ↦ inl (bad-Refused config saved bad)
              | raised _ _ bad _ ↦ inl (bad-Refused config saved bad)
            ]
      ]
