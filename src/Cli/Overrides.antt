-- ===== src/Cli/Overrides.antt =====
-- What the flags of a command of cli.py mean for the rules: `_collect_overrides` and `validate_plan`
-- together.
use dng_preflight.Base.{
  ◌≡◌, refl, ◌↔◌, ◌⊎◌, String, Bool, true, false, arith, In, contains, contains_iff, ok, [],
}
use dng_preflight.Models.Config.{DngConfig}
use dng_preflight.Validation.Stops.{allow_public_admin, allow_domain_joined, skip_time_check}
use dng_preflight.Validation.Rules.{
  IsPrivate, HasWildcard, HasProxies, IsSynchronised, IsRecent, IsResolved,
}
use dng_preflight.Validation.Version.{parse_version}
use dng_preflight.Validation.HardStops.{validate_plan}
use dng_preflight.Validation.Plan.{IsAcceptable, validate_plan-eq-nil_iff}
use dng_preflight.Cli.Options.{Flags, collect_overrides}

contains-collect_overrides :
    (a b c : Bool)
    → let given =
        collect_overrides (record { public_admin = a; domain_joined = b; time_check = c }) in
      (contains given allow_public_admin ≡ a)
      × (contains given allow_domain_joined ≡ b)
      × (contains given skip_time_check ≡ c)
unfolding collect_overrides
contains-collect_overrides true true true = (refl, refl, refl)
contains-collect_overrides true true false = (refl, refl, refl)
contains-collect_overrides true false true = (refl, refl, refl)
contains-collect_overrides true false false = (refl, refl, refl)
contains-collect_overrides false true true = (refl, refl, refl)
contains-collect_overrides false true false = (refl, refl, refl)
contains-collect_overrides false false true = (refl, refl, refl)
contains-collect_overrides false false false = (refl, refl, refl)

-- The plan passes the rules that no flag of the command waives.
pub record IsWaivedOrMet (flags : Flags) (config : DngConfig) : Type 0 where
  pub admin_port : (flags.public_admin ≡ true) ⊎ IsPrivate config
  pub standalone : (flags.domain_joined ≡ true) ⊎ (config.snapshot.system.domain_joined ≡ false)
  pub wildcard : HasWildcard config
  pub clock : (flags.time_check ≡ true) ⊎ IsSynchronised config.snapshot.time_sync
  pub version : IsRecent (parse_version config.dng_version_minimum)
  pub proxies : HasProxies config.answers.load_balancer
  pub resolved : IsResolved config

In-collect_overrides_iff :
    (flags : Flags) (flag : String) (b : Bool)
    → contains (collect_overrides flags) flag ≡ b
    → In flag (collect_overrides flags) ↔ (b ≡ true)
In-collect_overrides_iff flags flag b h =
    ground (arith, contains_iff (collect_overrides flags) flag)

collect_overrides-IsAcceptable_iff :
    (flags : Flags) (config : DngConfig)
    → IsAcceptable config (collect_overrides flags) ↔ IsWaivedOrMet flags config
collect_overrides-IsAcceptable_iff flags config =
    let (p, d, t) =
      contains-collect_overrides flags.public_admin flags.domain_joined flags.time_check in
    let port = In-collect_overrides_iff flags allow_public_admin flags.public_admin p in
    let domain = In-collect_overrides_iff flags allow_domain_joined flags.domain_joined d in
    let time = In-collect_overrides_iff flags skip_time_check flags.time_check t in
    (
      λ a. record {
        admin_port = ground (arith, port, a.admin_port);
        standalone = ground (arith, domain, a.standalone);
        wildcard = a.wildcard;
        clock = ground (arith, time, a.clock);
        version = a.version;
        proxies = a.proxies;
        resolved = a.resolved;
      },
      λ a. record {
        admin_port = ground (arith, port, a.admin_port);
        standalone = ground (arith, domain, a.standalone);
        wildcard = a.wildcard;
        clock = ground (arith, time, a.clock);
        version = a.version;
        proxies = a.proxies;
        resolved = a.resolved;
      },
    )

-- With the overrides that a command collects, validation reports nothing exactly where the plan
-- meets the demands of all rules, but for the admin port, the domain and the clock, each of which
-- its own flag waives.
pub validate_plan-collect_overrides_iff :
    (flags : Flags) (config : DngConfig)
    → (validate_plan config (collect_overrides flags) ≡ ok []) ↔ IsWaivedOrMet flags config
validate_plan-collect_overrides_iff flags config =
    let (accept, pass) = validate_plan-eq-nil_iff config (collect_overrides flags) in
    let (met, demands) = collect_overrides-IsAcceptable_iff flags config in
    (λ h. met (accept h), λ m. pass (demands m))
