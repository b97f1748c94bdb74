-- ===== src/Validation/Plan.antt =====
-- `validate_plan` of validation/hard_stops.py as a whole: when a plan passes, what overrides do,
-- when it raises, and the order of its report.

use dng_preflight.Base.{
  ◌≡◌, refl, ap, subst, ◌&&◌, ◌↔◌, ◌⊎◌, inl, inr, String, Bool, true, false, not, Option, none,
  some, List, [], ◌∷◌, In, contains_iff, contains, All, filter, Result, ok, err, map_result, arith,
}
use dng_preflight.Models.Config.{DngConfig}
use dng_preflight.Validation.Version.{parse_version}
use dng_preflight.Validation.Rules.{
  Decides, IsPrivate, HasWildcard, HasProxies, IsSynchronised, IsRecent, IsResolved,
  check_admin_port_lem, check_domain_joined_lem, check_wildcard_for_rdp_smb_lem,
  check_time_offset_lem, check_dng_version_lem, check_lb_trusted_proxies_lem,
  check_public_hostname_resolves_lem,
}
use dng_preflight.Validation.Stops.{
  HardStop, Severity, block, overridable, is_overridable, allow_public_admin, allow_domain_joined,
  skip_time_check,
}
use dng_preflight.Validation.HardStops.{
  Check, all_checks, flag_in, dropped, run_checks, validate_plan, check_dng_version,
  check_time_offset,
}

-- The plan passes the rules that are not overridden.
pub record IsAcceptable (config : DngConfig) (overrides : List String) : Type 0 where
  pub admin_port : In allow_public_admin overrides ⊎ IsPrivate config
  pub standalone : In allow_domain_joined overrides ⊎ (config.snapshot.system.domain_joined ≡ false)
  pub wildcard : HasWildcard config
  pub clock : In skip_time_check overrides ⊎ IsSynchronised config.snapshot.time_sync
  pub version : IsRecent (parse_version config.dng_version_minimum)
  pub proxies : HasProxies config.answers.load_balancer
  pub resolved : IsResolved config

module _ (config : DngConfig) (overrides : List String) where
  -- A check reports nothing, or something that is dropped.
  abbrev Passes : Result (Option HardStop) → Type 0
  Passes (err e) = ⊥
  Passes (ok none) = Unit
  Passes (ok (some v)) = dropped overrides v ≡ true

  run_checks-eq-nil_iff :
      (checks : List Check)
      → (run_checks overrides config checks ≡ ok []) ↔ All (λ check. Passes (check config)) checks
  unfolding run_checks
  run_checks-eq-nil_iff [] = (λ _. tt, λ _. refl)
  run_checks-eq-nil_iff (check ∷ checks) = ground (arith, run_checks-eq-nil_iff checks)

  -- A rule whose violations cannot be dropped.
  Passes-of_block :
      {result : Option HardStop} {Demand : Type 0} {stop : HardStop}
      → Decides result Demand stop
      → dropped overrides stop ≡ false
      → Passes (ok result) ↔ Demand
  Passes-of_block (inl (e, holds)) kept = rw e (λ _. holds, λ _. tt)
  Passes-of_block (inr (e, fails)) kept = rw e (λ h. cc, λ h. absurd (fails h))

  -- A rule whose violations are dropped where `flag` is among the overrides.
  Passes-of_flag :
      {result : Option HardStop} {Demand : Type 0} {stop : HardStop} (flag : String)
      → Decides result Demand stop
      → dropped overrides stop ≡ contains overrides flag
      → Passes (ok result) ↔ (In flag overrides ⊎ Demand)
  Passes-of_flag flag (inl (e, holds)) same = rw e (λ _. inr holds, λ _. tt)
  Passes-of_flag flag (inr (e, fails)) same =
      rw (e, same) (ground (arith, contains_iff overrides flag))

  Passes-version :
      Passes (check_dng_version config) ↔ IsRecent (parse_version config.dng_version_minimum)
  Passes-version = elim (check_dng_version_lem config) [
    | inl (e, holds) ↦ rw e (λ _. holds, λ _. tt)
    | inr (inl (e, fails)) ↦ rw e (λ h. cc, λ h. absurd (fails h))
    | inr (inr (_, e, fails)) ↦ rw e (λ h. absurd h, λ h. absurd (fails h))
  ]

  Passes-clock :
      Passes (ok (check_time_offset config))
      ↔ (In skip_time_check overrides ⊎ IsSynchronised config.snapshot.time_sync)
  Passes-clock = elim (check_time_offset_lem config) [
    | inl (e, holds) ↦ rw e (λ _. inr holds, λ _. tt)
    | inr (x, source, e, fails) ↦ Passes-of_flag skip_time_check (inr (e, fails)) refl
  ]

  all_checks-IsAcceptable_iff :
      All (λ check. Passes (check config)) all_checks ↔ IsAcceptable config overrides
  all_checks-IsAcceptable_iff =
      let port = Passes-of_flag allow_public_admin (check_admin_port_lem config) refl in
      let domain = Passes-of_flag allow_domain_joined (check_domain_joined_lem config) refl in
      let wild = Passes-of_block (check_wildcard_for_rdp_smb_lem config) refl in
      let lb = Passes-of_block (check_lb_trusted_proxies_lem config) refl in
      let dns = Passes-of_block (check_public_hostname_resolves_lem config) refl in
      (
        λ (a, (b, (c, (d, (e, (f, (g, _))))))). record {
          admin_port = port.0 a;
          standalone = domain.0 b;
          wildcard = wild.0 c;
          clock = Passes-clock.0 d;
          version = Passes-version.0 e;
          proxies = lb.0 f;
          resolved = dns.0 g;
        },
        λ h. (
          port.1 h.admin_port,
          (
            domain.1 h.standalone,
            (
              wild.1 h.wildcard,
              (
                Passes-clock.1 h.clock,
                (Passes-version.1 h.version, (lb.1 h.proxies, (dns.1 h.resolved, tt))),
              ),
            ),
          ),
        ),
      )

  -- With these overrides a plan passes exactly where every rule's demand holds or, for the three
  -- rules on the admin port, the domain and the clock, their flag is among the overrides.
  pub validate_plan-eq-nil_iff :
      (validate_plan config overrides ≡ ok []) ↔ IsAcceptable config overrides
  unfolding validate_plan
  validate_plan-eq-nil_iff =
      let (to, from) = run_checks-eq-nil_iff all_checks in
      let (accept, run) = all_checks-IsAcceptable_iff in (λ h. accept (to h), λ a. from (run a))

run_checks-filter :
    (config : DngConfig) (overrides : List String) (checks : List Check)
    → run_checks overrides config checks
      ≡ map_result (filter (λ v. not (dropped overrides v))) (run_checks [] config checks)
unfolding run_checks
run_checks-filter config overrides [] = refl
run_checks-filter config overrides (check ∷ checks) =
    ground (arith, run_checks-filter config overrides checks)

-- A violation of an overridable rule whose flag is given.
abbrev pub IsWaived : List String → HardStop → Type 0
IsWaived overrides v =
    (v.severity ≡ overridable) × (flag : String) × (v.override_flag ≡ some flag) × In flag overrides

waived_lem :
    (overrides : List String) (severity : Severity) (given : Option String)
    → ((is_overridable severity && flag_in overrides given) ≡ true)
      ↔ ((severity ≡ overridable) × (flag : String) × (given ≡ some flag) × In flag overrides)
waived_lem overrides block given = (λ h. cc h, λ h. cc h.0)
waived_lem overrides overridable none = (λ h. cc h, λ (_, flag, e, _). cc e)
waived_lem overrides overridable (some flag) =
    let (to, from) = contains_iff overrides flag in
    (λ h. (refl, flag, refl, to h), λ (_, other, e, m). from (subst (λ f. In f overrides) (cc e) m))

-- Overrides drop a violation exactly where it is overridable and its flag is among them. The
-- report with overrides is the report without them less the dropped violations, in the same order,
-- and raises where the other does.
pub validate_plan-filter :
    (config : DngConfig) (overrides : List String)
    → ((v : HardStop) → (dropped overrides v ≡ true) ↔ IsWaived overrides v)
      × (validate_plan config overrides
          ≡ map_result (filter (λ v. not (dropped overrides v))) (validate_plan config []))
unfolding validate_plan
validate_plan-filter config overrides = (
  λ v. waived_lem overrides v.severity v.override_flag,
  run_checks-filter config overrides all_checks,
)

abbrev pub is_block : HardStop → Bool
is_block v = not (is_overridable v.severity)

filter-is_block :
    (overrides : List String) (vs : List HardStop)
    → filter is_block (filter (λ v. not (dropped overrides v)) vs) ≡ filter is_block vs
filter-is_block overrides [] = refl
filter-is_block overrides (v ∷ vs) = ground (arith, filter-is_block overrides vs)

map_result-is_block :
    (overrides : List String) (r : Result (List HardStop))
    → map_result (filter is_block) (map_result (filter (λ v. not (dropped overrides v))) r)
      ≡ map_result (filter is_block) r
map_result-is_block overrides (ok vs) = ap ok (filter-is_block overrides vs)
map_result-is_block overrides (err e) = refl

-- No set of overrides removes a violation of severity `block`, nor adds one.
pub validate_plan-block :
    (config : DngConfig) (overrides : List String)
    → map_result (filter is_block) (validate_plan config overrides)
      ≡ map_result (filter is_block) (validate_plan config [])
validate_plan-block config overrides =
    rw ((validate_plan-filter config overrides).1)
      (map_result-is_block overrides (validate_plan config []))
