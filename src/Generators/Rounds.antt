-- ===== src/Generators/Rounds.antt =====
-- One round of the loop of `generate_all` in generators/__init__.py.

use dng_preflight.Base.{
  String, ◌≡◌, refl, ap, ◌∙◌, ◌≢◌, ◌⊎◌, Bool, true, false, some, ok, ◌==◌, eq_iff, eq_refl, arith,
  Bool-cases, inl, inr,
}
use dng_preflight.Base.Exec.{after-eq-ok}
use dng_preflight.Generators.Disk.{Disk, IsLawful}
use dng_preflight.Generators.All.{in_dir, executable, suffix, write_artifact}

module _ (D : Disk) (law : IsLawful D) (dir : String) where
  open law use {content-write, mode-write, content-chmod, mode-chmod}

  -- The file's mode after the loop's round, where the code sets it.
  abbrev pub HasMode : D.State → String → Bool → Type 0
  HasMode s path true = D.mode s path ≡ some executable
  HasMode s path false = Unit

  abbrev pub IsStored : D.State → String × String → Type 0
  IsStored s (name, text) =
      (D.content s (in_dir dir name) ≡ some text)
      × HasMode s (in_dir dir name) (suffix name == ".sh")

  -- What one round does, with its two calls apart.
  pub record Round (name text : String) (s s' : D.State) : Type 0 where
    pub after_write : D.State
    pub write : D.write_text (in_dir dir name) text s ≡ (ok tt, after_write)
    pub set_mode :
        ((suffix name == ".sh") ≡ true)
          × (D.chmod (in_dir dir name) executable after_write ≡ (ok tt, s'))
        ⊎ ((suffix name == ".sh") ≡ false) × (after_write ≡ s')

  pub write_artifact-Round :
      (name text : String) (s s' : D.State)
      → write_artifact D dir name text s ≡ (ok tt, s')
      → Round name text s s'
  unfolding write_artifact
  write_artifact-Round name text s s' h =
      let (tt, s₁, w, r) = after-eq-ok (D.write_text (in_dir dir name) text s) _ h in
      elim (Bool-cases (suffix name == ".sh")) [
        | inl y ↦ record { after_write = s₁; write = w; set_mode = inl (y, rw y at r) }
        | inr n ↦ record {
          after_write = s₁;
          write = w;
          set_mode = inr (n, ap (λ p. p.1) (rw n at r));
        }
      ]

  HasMode-of_eq :
      (s : D.State) (path : String) (b : Bool)
      → (b ≡ true → D.mode s path ≡ some executable)
      → HasMode s path b
  HasMode-of_eq s path true h = h refl
  HasMode-of_eq s path false h = tt

  pub HasMode-kept :
      (s s' : D.State) (path : String) (b : Bool)
      → D.mode s' path ≡ D.mode s path
      → HasMode s path b
      → HasMode s' path b
  HasMode-kept s s' path true kept has = kept ∙ has
  HasMode-kept s s' path false kept has = tt

  module _ (name text : String) (s s' : D.State) (round : Round name text s s') where
    open round use {after_write, write, set_mode}

    pub Round-IsStored : IsStored s' (name, text)
    Round-IsStored =
        let path = in_dir dir name in
        elim set_mode [
          | inl (y, c) ↦ (
            content-chmod path executable after_write s' c path
                ∙ rw (eq_refl path) at (content-write path text s after_write write path),
            HasMode-of_eq s' path (suffix name == ".sh")
                (λ _. rw (eq_refl path) at (mode-chmod path executable after_write s' c path)),
          )
          | inr (n, same) ↦ (
            rw (same, eq_refl path) at (content-write path text s after_write write path),
            HasMode-of_eq s' path (suffix name == ".sh") (λ y. cc),
          )
        ]

    pub Round-elsewhere :
        (p : String)
        → in_dir dir name ≢ p
        → (D.content s' p ≡ D.content s p) × (D.mode s' p ≡ D.mode s p)
    Round-elsewhere p away =
        let path = in_dir dir name in
        let other : (path == p) ≡ false = ground (arith, eq_iff path p) in
        let content = rw other at (content-write path text s after_write write p) in
        let mode = mode-write path text s after_write write p other in
        elim set_mode [
          | inl (y, c) ↦ (
            content-chmod path executable after_write s' c p ∙ content,
            rw other at (mode-chmod path executable after_write s' c p) ∙ mode,
          )
          | inr (n, same) ↦ (rw same at content, rw same at mode)
        ]
