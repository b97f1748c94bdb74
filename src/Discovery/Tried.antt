-- ===== src/Discovery/Tried.antt =====
-- What `_run` of discovery/firewall.py makes of a command, by how the command ends.
use dng_preflight.Base.{
  ◌≡◌, ◌≢◌, refl, sym, subst, ◌↔◌, inl, inr, String, Bool, true, false, none, some, List,
  Bool-cases, ok, err, unicode_error,
}
use dng_preflight.Base.Int.{ℤ, pos}
use dng_preflight.Base.Text.{strip}
use dng_preflight.Discovery.Host.{
  Host, Ran, Completed, completed, failed, undecodable, is_zero, attempt, caught,
}
use dng_preflight.Discovery.Commands.{
  Runs, IsMangled, Prints, ending, missing, ran, is_zero_iff, Runs-Prints, Runs-failed-silent,
  attempt-missing, attempt-Runs,
}

module _ (host : Host) where
  -- The command exits with status 0 and its output, less the spaces around it, passes a test.
  abbrev pub Says : String → List String → (String → Type 0) → Type 0
  Says command arguments P = (out : String) × Prints host command arguments out × P (strip out)

  abbrev pub Succeeds : String → List String → Type 0
  Succeeds command arguments = (out : String) × Prints host command arguments out

module _ (host : Host) (command : String) (arguments : List String) where
  -- How the command ended, and what the attempt gives then.
  pub data Tried : Type 0 where
    absent : host.which command ≡ none → attempt host command arguments ≡ ok none → Tried
    garbled :
        IsMangled host command arguments
        → attempt host command arguments ≡ err unicode_error
        → Tried
    silent :
        (code : ℤ) (out : String)
        → host.which command ≢ none
        → is_zero code ≡ false
        → ¬ Succeeds host command arguments
        → attempt host command arguments ≡ ok (some (code, out))
        → Tried
    said :
        (result : Completed)
        → Runs host command arguments (completed result)
        → result.returncode ≡ pos 0
        → attempt host command arguments ≡ ok (some (result.returncode, strip result.stdout))
        → Tried

  installed : (r : Ran) → Runs host command arguments r → host.which command ≢ none
  installed r (bin, e, _) n = cc (e, n)

  tried_of : (r : Ran) → Runs host command arguments r → Tried
  unfolding caught
  tried_of failed runs =
      silent _ _ (installed failed runs) refl
        (λ (out, p). Runs-failed-silent host command arguments runs out p)
        (attempt-Runs host command arguments failed runs)
  tried_of undecodable runs = garbled runs (attempt-Runs host command arguments undecodable runs)
  tried_of (completed result) runs = elim (Bool-cases (is_zero result.returncode)) [
    | inl zero ↦
        said result runs ((is_zero_iff result.returncode).0 zero)
          (attempt-Runs host command arguments (completed result) runs)
    | inr other ↦
        silent result.returncode (strip result.stdout) (installed (completed result) runs) other
          (λ (out, p).
            let (zero, _) = Runs-Prints host command arguments result out runs p in
            cc (other, (is_zero_iff result.returncode).1 zero))
          (attempt-Runs host command arguments (completed result) runs)
  ]

  pub tried : Tried
  tried = elim (ending host command arguments) [
    | missing e ↦ absent e (attempt-missing host command arguments e)
    | ran r runs ↦ tried_of r runs
  ]

  -- A test of what a command said.
  pub says_iff :
      (P : String → Type 0) (test : Bool) (result : Completed)
      → Runs host command arguments (completed result)
      → result.returncode ≡ pos 0
      → (test ≡ true) ↔ P (strip result.stdout)
      → (test ≡ true) ↔ Says host command arguments P
  says_iff P test result runs zero (to, from) = (
    (λ h. (result.stdout, (result, runs, zero, refl), to h)),
    (λ (out, p, holds).
        let (_, same) = Runs-Prints host command arguments result out runs p in
        from (subst (λ o. P (strip o)) (sym same) holds)),
  )
