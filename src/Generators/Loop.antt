-- ===== src/Generators/Loop.antt =====
-- All rounds of the loop of `generate_all` in generators/__init__.py.
use text.Mathlib.TextLemmas.{append_cancel_left}
use dng_preflight.Base.{
  String, ◌<>◌, ◌≡◌, sym, ap, ◌∙◌, List, [], ◌∷◌, map, ok, ◌==◌, arith, inl, inr, All, In, NoDup,
}
use dng_preflight.Base.Exec.{after-eq-ok}
use dng_preflight.Generators.Disk.{Disk, IsLawful}
use dng_preflight.Generators.All.{in_dir, suffix, write_artifact, write_artifacts}
use dng_preflight.Generators.Rounds.{
  HasMode-kept, IsStored, Round, write_artifact-Round, Round-IsStored, Round-elsewhere,
}

abbrev pub names : List (String × String) → List String
names [] = []
names ((name, _) ∷ rendered) = name ∷ names rendered

in_dir-cancel : (dir p q : String) → in_dir dir p ≡ in_dir dir q → p ≡ q
in_dir-cancel dir p q h =
    append_cancel_left "/" p q (append_cancel_left dir ("/" <> p) ("/" <> q) h)

In-in_dir :
    (dir name : String) (xs : List String) → In (in_dir dir name) (map (in_dir dir) xs) → In name xs
In-in_dir dir name [] m = m
In-in_dir dir name (x ∷ xs) (inl h) = inl (in_dir-cancel dir x name h)
In-in_dir dir name (x ∷ xs) (inr m) = inr (In-in_dir dir name xs m)

module _ (D : Disk) (law : IsLawful D) (dir : String) where
  -- The first of several rounds, and what is left of them.
  record Rounds (name text : String) (rendered : List (String × String)) (s s' : D.State)
      (paths : List String) : Type 0 where
    pub middle : D.State
    pub later : List String
    pub first : Round D law dir name text s middle
    pub rest : write_artifacts D dir rendered middle ≡ (ok later, s')
    pub same : in_dir dir name ∷ later ≡ paths

  write_artifacts-Rounds :
      (name text : String) (rendered : List (String × String)) (s s' : D.State)
      (paths : List String)
      → write_artifacts D dir ((name, text) ∷ rendered) s ≡ (ok paths, s')
      → Rounds name text rendered s s' paths
  unfolding write_artifacts
  write_artifacts-Rounds name text rendered s s' paths h =
      let (tt, s₁, one, h₁) = after-eq-ok (write_artifact D dir name text s) _ h in
      let (later, s₂, rest, h₂) = after-eq-ok (write_artifacts D dir rendered s₁) _ h₁ in
      record {
        middle = s₁;
        later = later;
        first = write_artifact-Round D law dir name text s s₁ one;
        rest = rw (ap (λ p. p.1) h₂) at rest;
        same = ground arith;
      }

  pub write_artifacts-paths :
      (rendered : List (String × String)) (s s' : D.State) (paths : List String)
      → write_artifacts D dir rendered s ≡ (ok paths, s')
      → paths ≡ map (in_dir dir) (names rendered)
  unfolding write_artifacts
  write_artifacts-paths [] s s' paths h = ground arith
  write_artifacts-paths ((name, text) ∷ rendered) s s' paths h =
      let rounds = write_artifacts-Rounds name text rendered s s' paths h in
      sym rounds.same
      ∙ ap (λ later. in_dir dir name ∷ later)
          (write_artifacts-paths rendered rounds.middle s' rounds.later rounds.rest)

  -- A path of no artifact keeps its file.
  abbrev pub IsKept : D.State → D.State → String → Type 0
  IsKept s s' p = (D.content s' p ≡ D.content s p) × (D.mode s' p ≡ D.mode s p)

  pub write_artifacts-elsewhere :
      (rendered : List (String × String)) (s s' : D.State) (paths : List String)
      → write_artifacts D dir rendered s ≡ (ok paths, s')
      → (p : String) → ¬ In p (map (in_dir dir) (names rendered))
      → IsKept s s' p
  unfolding write_artifacts
  write_artifacts-elsewhere [] s s' paths h p away =
      let same = ap (λ r. r.1) h in (rw same, rw same)
  write_artifacts-elsewhere ((name, text) ∷ rendered) s s' paths h p away =
      let rounds = write_artifacts-Rounds name text rendered s s' paths h in
      let (c, m) =
        write_artifacts-elsewhere rendered rounds.middle s' rounds.later rounds.rest p
          (λ x. away (inr x)) in
      let (c₁, m₁) =
        Round-elsewhere D law dir name text s rounds.middle rounds.first p (λ e. away (inl e)) in
      (c ∙ c₁, m ∙ m₁)

  IsStored-later :
      (name text : String) (s s' : D.State)
      → IsStored D law dir s (name, text)
      → IsKept s s' (in_dir dir name)
      → IsStored D law dir s' (name, text)
  IsStored-later name text s s' (stored, mode) (c, m) =
      (c ∙ stored, HasMode-kept D law dir s s' (in_dir dir name) (suffix name == ".sh") m mode)

  pub write_artifacts-IsStored :
      (rendered : List (String × String)) (s s' : D.State) (paths : List String)
      → write_artifacts D dir rendered s ≡ (ok paths, s')
      → NoDup (names rendered)
      → All (IsStored D law dir s') rendered
  write_artifacts-IsStored [] s s' paths h u = tt
  write_artifacts-IsStored ((name, text) ∷ rendered) s s' paths h (fresh, u) =
      let rounds = write_artifacts-Rounds name text rendered s s' paths h in
      (
        IsStored-later name text rounds.middle s'
            (Round-IsStored D law dir name text s rounds.middle rounds.first)
            (write_artifacts-elsewhere rendered rounds.middle s' rounds.later rounds.rest
              (in_dir dir name) (λ x. fresh (In-in_dir dir name (names rendered) x))),
        write_artifacts-IsStored rendered rounds.middle s' rounds.later rounds.rest u,
      )
