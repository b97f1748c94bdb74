-- ===== src/Generators/Disk.antt =====
-- The file system that generators/__init__.py and cli.py write to, as an interface: its operations
-- may fail, and its laws say what a success does. `Memory` shows that the laws can be met.
use dng_preflight.Base.{
  ℕ, ◌≡◌, sym, ap, String, false, Option, some, ok, err, os_error, ◌==◌, if◌then◌else◌, arith,
}
use dng_preflight.Base.Exec.{Exec}

pub record Disk : Type 1 where
  pub State : Type 0
  -- `Path.mkdir(parents=True, exist_ok=True)`
  pub mkdir : String → Exec State (Unit {0})
  pub write_text : String → String → Exec State (Unit {0})
  pub chmod : String → ℕ → Exec State (Unit {0})
  pub content : State → String → Option String
  pub mode : State → String → Option ℕ

pub record IsLawful (D : Disk) : Type 0 where
  pub content-mkdir :
      (dir : String) (s s' : D.State)
      → D.mkdir dir s ≡ (ok tt, s')
      → (path : String) → D.content s' path ≡ D.content s path
  pub content-write :
      (path text : String) (s s' : D.State)
      → D.write_text path text s ≡ (ok tt, s')
      → (p : String) → D.content s' p ≡ (if path == p then some text else D.content s p)
  pub mode-write :
      (path text : String) (s s' : D.State)
      → D.write_text path text s ≡ (ok tt, s')
      → (p : String) → (path == p) ≡ false
      → D.mode s' p ≡ D.mode s p
  pub content-chmod :
      (path : String) (bits : ℕ) (s s' : D.State)
      → D.chmod path bits s ≡ (ok tt, s')
      → (p : String) → D.content s' p ≡ D.content s p
  pub mode-chmod :
      (path : String) (bits : ℕ) (s s' : D.State)
      → D.chmod path bits s ≡ (ok tt, s')
      → (p : String) → D.mode s' p ≡ (if path == p then some bits else D.mode s p)

-- A disk whose files are two functions; a directory that is named "" cannot be made.
abbrev pub Files : Type 0
Files = record { texts : String → Option String; modes : String → Option ℕ }

abbrev pub memory : Disk
memory = record {
  State = Files;
  mkdir = λ dir s. if dir == "" then (err os_error, s) else (ok tt, s);
  write_text = λ path text s. (
    ok tt,
    record {
      texts = λ p. if path == p then some text else s.texts p;
      modes = λ p. if path == p then some 0o644 else s.modes p;
    },
  );
  chmod = λ path bits s.
      (ok tt, record { texts = s.texts; modes = λ p. if path == p then some bits else s.modes p });
  content = λ s. s.texts;
  mode = λ s. s.modes;
}

pub memory-IsLawful : IsLawful memory
memory-IsLawful = record {
  content-mkdir = λ dir s s' h path. ground arith;
  content-write = λ path text s s' h p. sym (ap (λ r. r.1.texts p) h);
  mode-write = λ path text s s' h p away. rw away at (sym (ap (λ r. r.1.modes p) h));
  content-chmod = λ path bits s s' h p. sym (ap (λ r. r.1.texts p) h);
  mode-chmod = λ path bits s s' h p. sym (ap (λ r. r.1.modes p) h);
}
