-- ===== src/Generators/All.antt =====
-- `generate_all` of generators/__init__.py.
use Prim.Native.Char.{code}
use Prim.Native.String.{[], ◌∷◌}
use dng_preflight.Base.{ℕ, String, ◌<>◌, List, [], ◌∷◌, ◌==◌, eqb, if◌then◌else◌}
use dng_preflight.Base.Text.{is_empty}
use dng_preflight.Base.Exec.{Exec, pure, lift, ◌>>=◌, ◌>>◌}
use dng_preflight.Models.Config.{DngConfig}
use dng_preflight.Templates.Engine.{Render}
use dng_preflight.Generators.Payloads.{payloads}
use dng_preflight.Generators.Disk.{Disk}

abbrev pub artifact_names : List String
artifact_names =
    "scripted-config.yaml" ∷ "install.sh" ∷ "RUNBOOK.md" ∷ "dns-records.md" ∷ "dns-records.json"
    ∷ "firewall.sh" ∷ []

-- The part of a text from its last dot, or "" without one.
last_dot : String → String
last_dot [] = ""
last_dot (c ∷ s) =
    let later = last_dot s in
    if is_empty later then if eqb (code c) b'.' then c ∷ s else "" else later

-- `PurePath.suffix` of a file's name: a first or a last dot does not count.
unfoldable pub suffix : String → String
unfolding last_dot
suffix [] = ""
suffix (c ∷ s) = let found = last_dot s in if found == "." then "" else found

-- `output_dir / name`
abbrev pub in_dir : String → String → String
in_dir dir name = dir <> ("/" <> name)

-- `0o755`
abbrev pub executable : ℕ
executable = 0o755

module _ (D : Disk) (dir : String) where
  -- One round of the loop.
  unfoldable pub write_artifact : String → String → Exec D.State (Unit {0})
  unfolding suffix
  write_artifact name content = do
    D.write_text (in_dir dir name) content
    if suffix name == ".sh" then D.chmod (in_dir dir name) executable else pure tt

  unfoldable pub write_artifacts : List (String × String) → Exec D.State (List String)
  write_artifacts [] = pure []
  write_artifacts ((name, content) ∷ payloads) = do
    write_artifact name content
    written ← write_artifacts payloads
    pure (in_dir dir name ∷ written)

module _ (D : Disk) (render : Render) where
  unfoldable pub generate_all : DngConfig → String → Exec D.State (List String)
  unfolding payloads write_artifacts write_artifact
  generate_all config dir = do
    D.mkdir dir
    rendered ← lift (payloads render config)
    write_artifacts D dir rendered
