-- ===== src/Cli/Emitted.antt =====
-- What `plan_cmd` and `inspect_cmd` of cli.py leave in the file that they were told to write, and
-- the plan of a saved snapshot.
use dng_preflight.Base.{◌≡◌, ap, subst, String, Option, some, none, ok, eq_refl}
use dng_preflight.Base.Exec.{Exec, pure, after-eq-ok}
use dng_preflight.Models.Snapshot.{EnvironmentSnapshot}
use dng_preflight.Interview.Engine.{AnswersProvider}
use dng_preflight.Generators.Disk.{Disk, IsLawful}
use dng_preflight.Cli.Terminal.{World, on_disk}
use dng_preflight.Cli.Options.{Flags}
use dng_preflight.Cli.Commands.{Codec, Format, payload, emit, snapshot_for, inspect_cmd, plan_cmd}

pub emit-content :
    (D : Disk) (law : IsLawful D) (codec : Codec) (path written text : String) (w w' : World D)
    → emit D codec (some path) written text w ≡ (ok tt, w')
    → D.content w'.disk path ≡ some text
emit-content D law codec path written text w w' done =
    let (tt, w₁, wrote, h) = after-eq-ok (on_disk (D.write_text path text) w) _ done in
    subst (λ d. D.content d path ≡ some text) (ap (λ r. r.1.disk) h)
      (rw (eq_refl path) at
        (law.content-write path text w.disk w₁.disk (ap (λ r. (r.0, r.1.disk)) wrote) path))

module _ (D : Disk) (law : IsLawful D) (codec : Codec)
    (collect : String → Exec (World D) EnvironmentSnapshot) (hostname : String) (format : Format)
    (path : String) (w w₁ w' : World D) (snapshot : EnvironmentSnapshot)
    (collected : collect hostname w ≡ (ok snapshot, w₁))
    (done : inspect_cmd D codec collect hostname format (some path) w ≡ (ok tt, w'))
    (reads : codec.load_snapshot (payload D codec format snapshot) ≡ ok snapshot) where
  inspect_cmd-content : D.content w'.disk path ≡ some (payload D codec format snapshot)
  unfolding inspect_cmd
  inspect_cmd-content =
      emit-content D law codec path "snapshot" (payload D codec format snapshot) w₁ w'
        (rw collected at done)

  -- On a lawful disk, once `inspect --output` has succeeded in either format, `plan --snapshot` of
  -- that file does what `plan` does where the discovery gives the snapshot that was inspected, for
  -- every provider, destination and flags, where the document loads as the snapshot it was dumped
  -- from.
  pub inspect_cmd-plan_cmd :
      (provider : AnswersProvider (World D)) (planned : Option String) (save_path : Option String)
      (flags : Flags)
      → plan_cmd D codec collect provider planned (some path) save_path flags w'
        ≡ plan_cmd D codec (λ _. pure snapshot) provider (some hostname) none save_path flags w'
  unfolding plan_cmd snapshot_for
  inspect_cmd-plan_cmd provider planned save_path flags = rw (inspect_cmd-content, reads)
