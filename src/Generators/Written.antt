-- ===== src/Generators/Written.antt =====
-- What `generate_all` of generators/__init__.py leaves on the disk.

use dng_preflight.Base.{
  String, ◌≡◌, refl, sym, ap, ◌∙◌, subst, Bool, true, List, [], ◌∷◌, map, ok, arith, All, In, NoDup,
  not, ◌&&◌, contains, contains_iff,
}
use dng_preflight.Base.Exec.{after-eq-ok}
use dng_preflight.Models.Config.{DngConfig}
use dng_preflight.Templates.Engine.{Render}
use dng_preflight.Generators.Payloads.{payloads}
use dng_preflight.Generators.Disk.{Disk, IsLawful}
use dng_preflight.Generators.All.{in_dir, artifact_names, write_artifacts, generate_all}
use dng_preflight.Generators.Rounds.{IsStored}
use dng_preflight.Generators.Loop.{
  names, write_artifacts-paths, write_artifacts-elsewhere, write_artifacts-IsStored,
}

-- The names of rendered artifacts are those of the tuple, in its order.
pub payloads-names :
    (render : Render) (config : DngConfig) (rendered : List (String × String))
    → payloads render config ≡ ok rendered
    → names rendered ≡ artifact_names
unfolding payloads
payloads-names render config rendered h = ground arith

distinct : List String → Bool
distinct [] = true
distinct (x ∷ xs) = not (contains xs x) && distinct xs

NoDup-of_distinct : (xs : List String) → distinct xs ≡ true → NoDup xs
unfolding distinct
NoDup-of_distinct [] h = tt
NoDup-of_distinct (x ∷ xs) h =
    (λ m. ground (arith, contains_iff xs x), NoDup-of_distinct xs (ground arith))

artifact_names-NoDup : NoDup artifact_names
unfolding distinct
artifact_names-NoDup = NoDup-of_distinct artifact_names refl

module _ (D : Disk) (law : IsLawful D) (render : Render) (config : DngConfig) (dir : String)
    (s s' : D.State) where
  -- The parts of a run that succeeds.
  generate_all-eq-ok :
      (paths : List String)
      → generate_all D render config dir s ≡ (ok paths, s')
      → (s₁ : D.State) × (rendered : List (String × String)) × (D.mkdir dir s ≡ (ok tt, s₁))
        × (payloads render config ≡ ok rendered)
        × (write_artifacts D dir rendered s₁ ≡ (ok paths, s'))
  unfolding generate_all
  generate_all-eq-ok paths h =
      let (tt, s₁, made, h₁) = after-eq-ok (D.mkdir dir s) _ h in
      let (rendered, s₂, done, h₂) = after-eq-ok (payloads render config, s₁) _ h₁ in
      (s₁, rendered, made, ap (λ p. p.0) done, rw (sym (ap (λ p. p.1) done)) at h₂)

  -- On a lawful disk, `generate_all` that succeeds returns the six paths in the order of the
  -- artifact names, every artifact was rendered, and each file holds its rendered text, the shell
  -- scripts with mode 0o755.
  pub generate_all-writes :
      (paths : List String)
      → generate_all D render config dir s ≡ (ok paths, s')
      → (paths ≡ map (in_dir dir) artifact_names)
        × ((rendered : List (String × String)) × (payloads render config ≡ ok rendered)
            × (names rendered ≡ artifact_names)
            × All (IsStored D law dir s') rendered)
  generate_all-writes paths h =
      let (s₁, rendered, made, eq, wrote) = generate_all-eq-ok paths h in
      let named = payloads-names render config rendered eq in
      (
        write_artifacts-paths D law dir rendered s₁ s' paths wrote ∙ ap (map (in_dir dir)) named,
        (
          rendered,
          eq,
          named,
          write_artifacts-IsStored D law dir rendered s₁ s' paths wrote
              (subst NoDup (sym named) artifact_names-NoDup),
        ),
      )

  -- On a lawful disk, `generate_all` that succeeds leaves the files at all other paths as they
  -- were.
  pub generate_all-elsewhere :
      (paths : List String)
      → generate_all D render config dir s ≡ (ok paths, s')
      → (path : String) → ¬ In path paths
      → D.content s' path ≡ D.content s path
  generate_all-elsewhere paths h path away =
      let (s₁, rendered, made, eq, wrote) = generate_all-eq-ok paths h in
      let same = write_artifacts-paths D law dir rendered s₁ s' paths wrote in
      (write_artifacts-elsewhere D law dir rendered s₁ s' paths wrote path (rw same at away)).0
      ∙ law.content-mkdir dir s s₁ made path
