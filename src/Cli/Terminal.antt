-- ===== src/Cli/Terminal.antt =====
-- What the commands of cli.py act on: the disk and the two output streams.
use dng_preflight.Base.{
  String, ◌<>◌, Option, none, some, List, [], ◌∷◌, Result, ok, err, usage_error,
}
use dng_preflight.Base.Exec.{Exec, pure, ◌>>◌}
use dng_preflight.Generators.Disk.{Disk}

pub record World (D : Disk) : Type 0 where
  pub disk : D.State
  pub stdout : String
  pub stderr : String

abbrev found : String → Option String → Result String
found path none = err (usage_error path)
found path (some text) = ok text

module _ {D : Disk} where
  -- `click.echo(message, err=True)`
  abbrev pub echo : String → Exec (World D) (Unit {0})
  echo message w =
      (ok tt, record { disk = w.disk; stdout = w.stdout; stderr = w.stderr <> (message <> "\n") })

  abbrev pub echo_all : List String → Exec (World D) (Unit {0})
  echo_all [] = pure tt
  echo_all (message ∷ messages) = do echo message; echo_all messages

  -- `sys.stdout.write(text)`
  abbrev pub write_out : String → Exec (World D) (Unit {0})
  write_out text w = (ok tt, record { disk = w.disk; stdout = w.stdout <> text; stderr = w.stderr })

  abbrev with_disk {ℓ} : {A : Type ℓ} → World D → Result A × D.State → Result A × World D
  with_disk w (r, disk) = (r, record { disk = disk; stdout = w.stdout; stderr = w.stderr })

  abbrev pub on_disk {ℓ} : {A : Type ℓ} → Exec D.State A → Exec (World D) A
  on_disk act w = with_disk w (act w.disk)

  -- `path.read_text()`, of an option whose type has click check that the file exists.
  abbrev pub read_text : String → Exec (World D) String
  read_text path w = (found path (D.content w.disk path), w)
