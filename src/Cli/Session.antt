-- ===== src/Cli/Session.antt =====
-- `plan_cmd` of cli.py from the probes to the plan: discovery, the interview at the terminal and the
-- hard-stop rules together.
use dng_preflight.Base.{◌≡◌, ap, ◌↔◌, false, String, none, some, [], ok}
use dng_preflight.Base.Exec.{Exec, after-eq-ok}
use dng_preflight.Models.Config.{build_config}
use dng_preflight.Validation.Plan.{validate_plan-eq-nil_iff}
use dng_preflight.Interview.Engine.{run}
use dng_preflight.Interview.Prompt.{Dialogue, questionary_provider}
use dng_preflight.Interview.Proxies.{run-HasProxies}
use dng_preflight.Interview.Cooperative.{IsCooperative}
use dng_preflight.Interview.Finish.{run-Returns}
use dng_preflight.Generators.Disk.{Disk}
use dng_preflight.Cli.Terminal.{World}
use dng_preflight.Cli.Options.{Flags, collect_overrides}
use dng_preflight.Cli.Commands.{Codec, snapshot_for, plan_cmd}
use dng_preflight.Cli.Discover.{discover}
use dng_preflight.Cli.Plans.{plan_cmd-accepted, plan_cmd-emits}
use dng_preflight.Discovery.Machine.{Machine}
use dng_preflight.Discovery.Whole.{IsPrompt}
use dng_preflight.Discovery.Legible.{IsLegible}
use dng_preflight.Discovery.Ready.{IsReady}
use dng_preflight.Discovery.Accepted.{Passes-IsReady_iff, collect_on-IsTaken, acceptable-IsReady}

abbrev pub no_flags : Flags
no_flags = record { public_admin = false; domain_joined = false; time_check = false }

module _ (D : Disk) (codec : Codec) (machine : Machine) (captured_at hostname : String)
    (prompt : IsPrompt machine) (legible : IsLegible machine) (dialogue : Dialogue (World D)) where
  -- `dng-preflight plan --hostname hostname`
  abbrev pub plan : Exec (World D) (Unit {0})
  plan =
      plan_cmd D codec (discover machine captured_at) (questionary_provider dialogue)
        (some hostname) none none no_flags

  planned-IsReady : (w : World D) → (plan w).0 ≡ ok tt → IsReady machine hostname
  unfolding plan_cmd snapshot_for discover collect_overrides
  planned-IsReady w done =
      let w' = (plan w).1 in
      let whole : plan w ≡ (ok tt, w') = ap (λ r. (r, w')) done in
      let (s, w₁, found, h₁) =
        after-eq-ok (snapshot_for D codec (discover machine captured_at) (some hostname) none w) _
          whole in
      let (answers, w₂, interviewed, h₂) =
        after-eq-ok (run s (questionary_provider dialogue) w₁) _ h₁ in
      let (consistent, acceptable, _) =
        plan_cmd-emits D codec (discover machine captured_at) (questionary_provider dialogue)
          (some hostname) none no_flags w w₁ w₂ s answers found interviewed w' none whole in
      (Passes-IsReady_iff machine hostname captured_at prompt legible answers consistent
          (run-HasProxies dialogue s w₁ w₂ answers interviewed)).0
        (
          s,
          ap (λ r. r.0) found,
          (validate_plan-eq-nil_iff (build_config s answers) []).1 acceptable,
        )

  ready-plan :
      IsCooperative dialogue → (w : World D) → IsReady machine hostname → (plan w).0 ≡ ok tt
  unfolding snapshot_for discover collect_overrides
  ready-plan good w ready =
      let (s, collected, taken) =
        collect_on-IsTaken machine hostname captured_at prompt legible ready in
      let (answers, w', interviewed, consistent) = run-Returns dialogue good s w in
      let proxies = run-HasProxies dialogue s w w' answers interviewed in
      let acceptable =
        acceptable-IsReady machine hostname answers consistent proxies s taken legible ready in
      ap (λ r. r.0)
        (plan_cmd-accepted D codec (discover machine captured_at) (questionary_provider dialogue)
          (some hostname) none no_flags w w w' s answers (ap (λ r. (r, w)) collected) interviewed
          none acceptable)

  -- Where every probe ends in time, all outputs, files and certificates can be decoded and the
  -- operator at the terminal is cooperative, `plan` for a hostname, without flags, a saved file or
  -- a saved snapshot, succeeds exactly where the machine is ready: os-release is not unreadable
  -- and no selected ntpq peer is without a name, neither `realm list` nor krb5.conf shows a realm,
  -- a public IPv4 or IPv6 address that an interface has is behind an active firewall, the offset
  -- that the bytes of the time server show, if any, is at most 30 s, and some public resolver has
  -- an A or AAAA record.
  pub plan-IsReady_iff :
      IsCooperative dialogue → (w : World D) → ((plan w).0 ≡ ok tt) ↔ IsReady machine hostname
  plan-IsReady_iff good w = (planned-IsReady w, ready-plan good w)
