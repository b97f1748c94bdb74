-- ===== src/Cli/Announced.antt =====
-- `generate_cmd` of cli.py on a disk whose calls succeed: when it succeeds, and what it prints.
use Prim.Native.String.{[], ◌∷◌}
use text.Mathlib.TextLemmas.{append_assoc, cons-append, nil-append}
use dng_preflight.Base.{
  ◌≡◌, refl, sym, ap, ◌∙◌, subst, ◌↔◌, String, ◌<>◌, none, some, List, [], ◌∷◌, map, Result, ok,
  ok-injective,
}
use dng_preflight.Base.Format.{show}
use dng_preflight.Models.Config.{DngConfig}
use dng_preflight.Templates.Engine.{Render}
use dng_preflight.Validation.Plan.{IsAcceptable}
use dng_preflight.Generators.Disk.{Disk, IsLawful}
use dng_preflight.Generators.Payloads.{payloads}
use dng_preflight.Generators.All.{artifact_names, in_dir}
use dng_preflight.Generators.Working.{IsWorking, generate_all-Returns_iff}
use dng_preflight.Cli.Terminal.{World}
use dng_preflight.Cli.Options.{Flags, collect_overrides, after_slash, name}
use dng_preflight.Cli.Commands.{Codec, saved_plan, generate_cmd}
use dng_preflight.Cli.Exits.{lines}
use dng_preflight.Cli.Accepts.{generate_cmd-reports, written_lines}
use dng_preflight.Cli.Generated.{generate_cmd-IsStored}

after_slash-in_dir :
    (dir file : String) → after_slash file ≡ none → after_slash (in_dir dir file) ≡ some file
after_slash-in_dir [] file h = rw (nil-append, cons-append, nil-append) (rw h)
after_slash-in_dir (c ∷ dir) file h = rw cons-append (rw (after_slash-in_dir dir file h))

name-in_dir : (dir file : String) → after_slash file ≡ none → name (in_dir dir file) ≡ file
unfolding name
name-in_dir dir file h = rw (after_slash-in_dir dir file h, name)

abbrev announced_files : List String
announced_files =
    "  - scripted-config.yaml" ∷ "  - install.sh" ∷ "  - RUNBOOK.md" ∷ "  - dns-records.md"
    ∷ "  - dns-records.json" ∷ "  - firewall.sh" ∷ []

-- What the command says of the artifacts, line by line.
abbrev pub announcement : String → List String
announcement output_dir = ("wrote 6 artifact(s) to " <> (output_dir <> ":")) ∷ announced_files

first_line :
    (rest : String)
    → "wrote " <> ("6" <> (" artifact(s) to " <> rest)) ≡ "wrote 6 artifact(s) to " <> rest
first_line rest =
    sym (append_assoc "wrote " "6" (" artifact(s) to " <> rest))
    ∙ sym (append_assoc "wrote 6" " artifact(s) to " rest)

written_lines-announcement :
    (output_dir : String)
    → written_lines output_dir (map (in_dir output_dir) artifact_names) ≡ announcement output_dir
unfolding show
written_lines-announcement dir =
    rw
      (
        name-in_dir dir "scripted-config.yaml" refl,
        name-in_dir dir "install.sh" refl,
        name-in_dir dir "RUNBOOK.md" refl,
        name-in_dir dir "dns-records.md" refl,
        name-in_dir dir "dns-records.json" refl,
        name-in_dir dir "firewall.sh" refl,
      )
      (ap (λ l. l ∷ announced_files) (first_line (dir <> ":")))

module _ (D : Disk) (law : IsLawful D) (codec : Codec) (plan_path output_dir : String)
    (flags : Flags) (config : DngConfig) (w : World D)
    (saved : saved_plan D codec plan_path w ≡ (ok config, w)) (works : IsWorking D output_dir)
    (render : Render) where
  abbrev pub generation : Result (Unit {0}) × World D
  generation = generate_cmd D codec render plan_path output_dir flags w

  -- The plan is acceptable with the flags, and all its artifacts can be rendered.
  abbrev pub CanGenerate : Type 0
  CanGenerate =
      IsAcceptable config (collect_overrides flags)
      × ((rendered : List (String × String)) × (payloads render config ≡ ok rendered))

  done-CanGenerate : generation.0 ≡ ok tt → CanGenerate
  done-CanGenerate done =
      let whole : generation ≡ (ok tt, generation.1) = ap (λ r. (r, generation.1)) done in
      let (read, rendered, again, good, eq, _, _) =
        generate_cmd-IsStored D law codec render plan_path output_dir flags w generation.1 whole in
      let same = ok-injective read config (ap (λ r. r.0) (sym again ∙ saved)) in
      (
        subst (λ c. IsAcceptable c (collect_overrides flags)) same good,
        (rendered, subst (λ c. payloads render c ≡ ok rendered) same eq),
      )

  CanGenerate-announced :
      CanGenerate
      → (generation.0 ≡ ok tt)
        × (generation.1.stderr ≡ w.stderr <> lines (announcement output_dir))
        × (generation.1.stdout ≡ w.stdout)
  CanGenerate-announced (good, renders) =
      let (disk, wrote) =
        (generate_all-Returns_iff D output_dir works render config w.disk).1 renders in
      let whole =
        generate_cmd-reports D codec plan_path flags config w saved render output_dir
          (map (in_dir output_dir) artifact_names) disk good wrote in
      (
        ap (λ r. r.0) whole,
        ap (λ r. r.1.stderr) whole
            ∙ ap (λ l. w.stderr <> lines l) (written_lines-announcement output_dir),
        ap (λ r. r.1.stdout) whole,
      )

  -- On a lawful disk that makes the directory, writes every file and sets every mode, `generate`
  -- on a saved plan that loads succeeds exactly where the flags accept the plan and all its
  -- artifacts can be rendered. It then prints the number six, the directory and the six names in
  -- order on the error stream, and nothing on the standard output.
  pub generate_cmd-ok_iff :
      ((generation.0 ≡ ok tt) ↔ CanGenerate)
      × (generation.0 ≡ ok tt
          → (generation.1.stderr ≡ w.stderr <> lines (announcement output_dir))
            × (generation.1.stdout ≡ w.stdout))
  generate_cmd-ok_iff = (
    (done-CanGenerate, λ can. (CanGenerate-announced can).0),
    λ done. let a = CanGenerate-announced (done-CanGenerate done) in (a.1, a.2),
  )
