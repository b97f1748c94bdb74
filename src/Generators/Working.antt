-- ===== src/Generators/Working.antt =====
-- `generate_all` of generators/__init__.py on a disk whose calls all succeed.
use dng_preflight.Base.{
  ℕ, String, ◌≡◌, refl, ap, List, [], ◌∷◌, map, ok, Result, ◌==◌, Bool-cases, inl, inr, ◌↔◌,
}
use dng_preflight.Base.Exec.{after-eq-ok}
use dng_preflight.Models.Config.{DngConfig}
use dng_preflight.Templates.Engine.{Render}
use dng_preflight.Generators.Payloads.{payloads}
use dng_preflight.Generators.Disk.{Disk}
use dng_preflight.Generators.All.{
  in_dir, suffix, executable, artifact_names, write_artifact, write_artifacts, generate_all,
}
use dng_preflight.Generators.Loop.{names}
use dng_preflight.Generators.Written.{payloads-names}

-- A step that returns the value, in whatever state.
abbrev pub Returns : {W A : Type 0} → Result A × W → A → Type 0
Returns {W} r a = (w : W) × (r ≡ (ok a, w))

pub record IsWorking (D : Disk) (dir : String) : Type 0 where
  pub makes : (s : D.State) → Returns (D.mkdir dir s) tt
  pub writes : (path text : String) (s : D.State) → Returns (D.write_text path text s) tt
  pub sets_mode : (path : String) (bits : ℕ) (s : D.State) → Returns (D.chmod path bits s) tt

module _ (D : Disk) (dir : String) (works : IsWorking D dir) where
  open works use {makes, writes, sets_mode}

  write_artifact-Returns :
      (name text : String) (s : D.State) → Returns (write_artifact D dir name text s) tt
  unfolding write_artifact
  write_artifact-Returns name text s =
      let (s₁, wrote) = writes (in_dir dir name) text s in
      let (s₂, set) = sets_mode (in_dir dir name) executable s₁ in
      elim (Bool-cases (suffix name == ".sh")) [
        | inl y ↦ (s₂, rw (wrote, y, set))
        | inr n ↦ (s₁, rw (wrote, n))
      ]

  write_artifacts-Returns :
      (rendered : List (String × String)) (s : D.State)
      → Returns (write_artifacts D dir rendered s) (map (in_dir dir) (names rendered))
  unfolding write_artifacts
  write_artifacts-Returns [] s = (s, refl)
  write_artifacts-Returns ((name, text) ∷ rendered) s =
      let (s₁, one) = write_artifact-Returns name text s in
      let (s₂, rest) = write_artifacts-Returns rendered s₁ in (s₂, rw (one, rest))

  -- Where the disk makes the directory, writes every file and sets every mode, `generate_all`
  -- returns the six paths in the order of the artifact names exactly where every artifact can be
  -- rendered.
  pub generate_all-Returns_iff :
      (render : Render) (config : DngConfig) (s : D.State)
      → Returns (generate_all D render config dir s) (map (in_dir dir) artifact_names)
        ↔ ((rendered : List (String × String)) × (payloads render config ≡ ok rendered))
  unfolding generate_all
  generate_all-Returns_iff render config s = (
    (λ h.
        let (tt, s₁, made, h₁) = after-eq-ok (D.mkdir dir s) _ h.1 in
        let (rendered, s₂, done, h₂) = after-eq-ok (payloads render config, s₁) _ h₁ in
        (rendered, ap (λ p. p.0) done)),
    (λ h.
        let (s₁, made) = makes s in
        let (s₂, wrote) = write_artifacts-Returns h.0 s₁ in
        (
          s₂,
          rw (made, h.1)
              (rw wrote
                (ap (λ ns. (ok (map (in_dir dir) ns), s₂)) (payloads-names render config h.0 h.1))),
        )),
  )
