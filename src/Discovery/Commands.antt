-- ===== src/Discovery/Commands.antt =====
-- The outcomes of a command that the probes of discovery/ look for and run.
use Prim.Native.String.{[], ◌∷◌}
use dng_preflight.Base.{
  false, ◌≡◌, ◌≢◌, refl, sym, ap, ◌∙◌, subst, ◌↔◌, ◌⊎◌, inl, inr, String, true, none, some, List,
  ◌∷◌, ok, err, unicode_error, arith, Option-cases, Bool-cases, map_result, Result,
}
use dng_preflight.Base.Int.{ℤ, pos, negsuc}
use dng_preflight.Base.Text.{is_empty}
use dng_preflight.Discovery.Host.{
  Host, Ran, completed, failed, undecodable, Completed, is_zero, caught, code_and_output, attempt,
}
use dng_preflight.Discovery.TimeSync.{output, succeeding}

pub is_zero_iff : (code : ℤ) → (is_zero code ≡ true) ↔ (code ≡ pos 0)
is_zero_iff (pos n) = ((λ h. ap pos (ground arith)), λ h. ap is_zero h)
is_zero_iff (negsuc n) = ((λ h. cc h), λ h. cc h)

some-cancel : (a b : String) → some a ≡ some b → a ≡ b
some-cancel a b h = cc h

completed-cancel : (a b : Completed) → completed a ≡ completed b → a ≡ b
completed-cancel a b h = cc h

map_result-map_result :
    {A B C : Type 0} (f : A → B) (g : B → C) (r : Result A)
    → map_result g (map_result f r) ≡ map_result (λ x. g (f x)) r
map_result-map_result f g (ok a) = refl
map_result-map_result f g (err e) = refl

pub is_empty_iff : (text : String) → (is_empty text ≡ false) ↔ (text ≢ "")
is_empty_iff [] = ((λ h. cc h), λ h. absurd (h refl))
is_empty_iff (c ∷ text) = ((λ h e. cc (ap is_empty e)), λ h. refl)

module _ (host : Host) (command : String) (arguments : List String) where
  -- The command is installed, and running it ends so.
  abbrev pub Runs : Ran → Type 0
  Runs ran = (bin : String) × (host.which command ≡ some bin) × (host.run (bin ∷ arguments) ≡ ran)

  -- Its output is no text.
  abbrev pub IsMangled : Type 0
  IsMangled = Runs undecodable

  -- It exits with status 0, and prints this.
  abbrev pub Prints : String → Type 0
  Prints out =
      (result : Completed) × Runs (completed result)
      × (result.returncode ≡ pos 0)
      × (result.stdout ≡ out)

  -- It is not installed, cannot be run, or exits with another status.
  abbrev pub IsMute : Type 0
  IsMute =
      (host.which command ≡ none)
      ⊎ (Runs failed
          ⊎ ((result : Completed) × Runs (completed result) × (result.returncode ≢ pos 0)))

  -- How it ends, if it is installed.
  pub data Ending : Type 0 where
    missing : host.which command ≡ none → Ending
    ran : (r : Ran) → Runs r → Ending

  pub ending : Ending
  ending = elim (Option-cases (host.which command)) [
    | inl e ↦ missing e
    | inr (bin, e) ↦ ran (host.run (bin ∷ arguments)) (bin, e, refl)
  ]

  -- It ends in one way.
  pub Runs-unique : (r s : Ran) → Runs r → Runs s → r ≡ s
  Runs-unique r s (bin, e, h) (other, e', h') =
      sym h ∙ ap (λ b. host.run (b ∷ arguments)) (some-cancel bin other (sym e ∙ e')) ∙ h'

  pub missing-Runs : host.which command ≡ none → (r : Ran) → ¬ Runs r
  missing-Runs e r (bin, e', h) = cc (e, e')

  pub Runs-Prints :
      (result : Completed) (out : String)
      → Runs (completed result)
      → Prints out
      → (result.returncode ≡ pos 0) × (result.stdout ≡ out)
  Runs-Prints result out runs (other, runs', zero, same) =
      let equal = completed-cancel other result (Runs-unique _ _ runs' runs) in
      (subst (λ r. r.returncode ≡ pos 0) equal zero, subst (λ r. r.stdout ≡ out) equal same)

  pub Runs-failed-silent : Runs failed → (out : String) → ¬ Prints out
  Runs-failed-silent runs out (result, runs', _, _) = cc (Runs-unique _ _ runs runs')

  -- One of the three.
  pub data Outcome : Type 0 where
    mute : IsMute → Outcome
    prints : (out : String) → Prints out → Outcome
    mangled : IsMangled → Outcome

  outcome_of : (r : Ran) → Runs r → Outcome
  outcome_of failed runs = mute (inr (inl runs))
  outcome_of undecodable runs = mangled runs
  outcome_of (completed result) runs = elim (Bool-cases (is_zero result.returncode)) [
    | inl zero ↦ prints result.stdout (result, runs, (is_zero_iff result.returncode).0 zero, refl)
    | inr other ↦
        mute (inr (inr (result, runs, λ h. cc (other, (is_zero_iff result.returncode).1 h))))
  ]

  pub outcome : Outcome
  outcome = elim ending [ missing e ↦ mute (inl e) | ran r runs ↦ outcome_of r runs ]

  Runs-output :
      (r : Ran) → Runs r → output host command arguments ≡ map_result succeeding (caught r)
  unfolding output
  Runs-output r (bin, e, h) = rw (e, h, output)

  pub output-mangled : IsMangled → output host command arguments ≡ err unicode_error
  unfolding caught
  output-mangled runs = Runs-output undecodable runs

  pub output-Prints : (out : String) → Prints out → output host command arguments ≡ ok (some out)
  unfolding caught
  output-Prints out (result, runs, zero, same) =
      rw (Runs-output (completed result) runs, (is_zero_iff result.returncode).1 zero, same)

  pub output-mute : IsMute → output host command arguments ≡ ok none
  unfolding caught output
  output-mute (inl e) = rw (e, output)
  output-mute (inr (inl runs)) = Runs-output failed runs
  output-mute (inr (inr (result, runs, other))) = elim (Bool-cases (is_zero result.returncode)) [
    | inl zero ↦ absurd (other ((is_zero_iff result.returncode).0 zero))
    | inr nonzero ↦ rw (Runs-output (completed result) runs, nonzero)
  ]

  -- What the code makes of the command, by how it ends.
  pub attempt-missing : host.which command ≡ none → attempt host command arguments ≡ ok none
  unfolding attempt
  attempt-missing e = rw e

  pub attempt-Runs :
      (r : Ran)
      → Runs r
      → attempt host command arguments ≡ map_result (λ x. some (code_and_output x)) (caught r)
  unfolding attempt
  attempt-Runs r (bin, e, h) = rw (e, h) (map_result-map_result code_and_output some (caught r))
