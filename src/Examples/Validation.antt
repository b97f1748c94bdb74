-- ===== src/Examples/Validation.antt =====
-- Tests and runs of validation/hard_stops.py.
use dng_preflight.Base.{
  ◌≡◌, refl, ◌↔◌, String, true, not, none, [], ◌∷◌, map, map_result, filter, ok, err, Error,
}
use dng_preflight.Validation.Version.{parse_version, tuple_ge}
use dng_preflight.Validation.Stops.{HardStop, allow_domain_joined, skip_time_check, wildcard_stop}
use dng_preflight.Validation.HardStops.{
  invalid_literal, dropped, validate_plan, check_dng_version, check_admin_port, check_domain_joined,
  check_wildcard_for_rdp_smb, check_time_offset, check_lb_trusted_proxies,
  check_public_hostname_resolves,
}
use dng_preflight.Base.Float.{abs_le}
use dng_preflight.Validation.Plan.{
  IsAcceptable, IsWaived, validate_plan-eq-nil_iff, validate_plan-filter,
}
use dng_preflight.Validation.Report.{
  InOrder, rule_names, validate_plan-InOrder, validate_plan-raises_iff,
}
use dng_preflight.Examples.Sample.{plan, bad_plan, odd_plan}

plan_passes : validate_plan plan [] ≡ ok []
unfolding validate_plan check_dng_version parse_version check_admin_port check_domain_joined
    check_wildcard_for_rdp_smb check_time_offset abs_le tuple_ge check_lb_trusted_proxies
    check_public_hostname_resolves
plan_passes = refl

abbrev rule_id : HardStop → String
rule_id v = v.rule

bad_plan_fails :
    map_result (map rule_id) (validate_plan bad_plan [])
    ≡ ok (
        "host_must_not_be_domain_joined" ∷ "wildcard_required_for_rdp_smb"
        ∷ "time_offset_within_30s" ∷ [])
unfolding validate_plan check_dng_version parse_version check_admin_port check_domain_joined
    check_wildcard_for_rdp_smb check_time_offset abs_le tuple_ge check_lb_trusted_proxies
    check_public_hostname_resolves
bad_plan_fails = refl

bad_plan_overridden :
    validate_plan bad_plan (skip_time_check ∷ allow_domain_joined ∷ []) ≡ ok (wildcard_stop ∷ [])
unfolding validate_plan check_dng_version parse_version check_admin_port check_domain_joined
    check_wildcard_for_rdp_smb check_time_offset abs_le tuple_ge check_lb_trusted_proxies
    check_public_hostname_resolves
bad_plan_overridden = refl

odd_plan_raises : validate_plan odd_plan [] ≡ err invalid_literal
unfolding validate_plan check_dng_version parse_version check_admin_port check_domain_joined
    check_wildcard_for_rdp_smb check_time_offset abs_le tuple_ge check_lb_trusted_proxies
    check_public_hostname_resolves
odd_plan_raises = refl

validate_plan-eq-nil_iff_example : (validate_plan plan [] ≡ ok []) ↔ IsAcceptable plan []
validate_plan-eq-nil_iff_example = validate_plan-eq-nil_iff plan []

validate_plan-filter_example :
    ((v : HardStop) → (dropped (skip_time_check ∷ []) v ≡ true) ↔ IsWaived (skip_time_check ∷ []) v)
    × (validate_plan bad_plan (skip_time_check ∷ [])
        ≡ map_result
            (filter (λ v. not (dropped (skip_time_check ∷ []) v)))
            (validate_plan bad_plan []))
validate_plan-filter_example = validate_plan-filter bad_plan (skip_time_check ∷ [])

validate_plan-InOrder_example : InOrder rule_names (validate_plan bad_plan [])
validate_plan-InOrder_example = validate_plan-InOrder bad_plan []

validate_plan-raises_iff_example :
    ((e : Error) × (validate_plan odd_plan [] ≡ err e))
    ↔ (parse_version odd_plan.dng_version_minimum ≡ none)
validate_plan-raises_iff_example = validate_plan-raises_iff odd_plan []
