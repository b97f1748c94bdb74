-- ===== src/Validation/Report.antt =====
-- The report of `validate_plan` of validation/hard_stops.py: its order, and when there is none.
use mathlib.Core.List.{Sublistᴰ}
use dng_preflight.Base.{
  ◌≡◌, refl, ◌↔◌, inl, inr, String, Option, none, some, List, [], ◌∷◌, map, Result, ok, err, Error,
  ◌>>=◌, arith, Bool-cases, Option-cases,
}
use dng_preflight.Models.Config.{DngConfig}
use dng_preflight.Validation.Version.{parse_version}
use dng_preflight.Validation.Rules.{
  Decides, check_admin_port_lem, check_domain_joined_lem, check_wildcard_for_rdp_smb_lem,
  check_time_offset_lem, check_dng_version_lem, check_lb_trusted_proxies_lem,
  check_public_hostname_resolves_lem,
}
use dng_preflight.Validation.Stops.{
  HardStop, admin_port_rule, domain_joined_rule, wildcard_rdp_smb_rule, time_offset_rule,
  dng_version_rule, lb_trusted_proxies_rule, hostname_resolves_rule,
}
use dng_preflight.Validation.HardStops.{
  invalid_literal, Check, all_checks, dropped, keep, run_checks, validate_plan, check_dng_version,
  check_time_offset,
}

-- A check's violations carry this rule id.
abbrev Names : DngConfig → Check → String → Type 0
Names config check name = (v : HardStop) → check config ≡ ok (some v) → v.rule ≡ name

abbrev AllNamed : DngConfig → List Check → List String → Type 0
AllNamed config [] [] = Unit
AllNamed config (check ∷ checks) (name ∷ names) =
    Names config check name × AllNamed config checks names
AllNamed config _ _ = ⊥

abbrev rule_of : HardStop → String
rule_of v = v.rule

-- The rules of the report are some of the names, in their order.
abbrev pub InOrder : List String → Result (List HardStop) → Type 0
InOrder names (ok vs) = Sublistᴰ (map rule_of vs) names
InOrder names (err e) = Unit

module _ (config : DngConfig) (overrides : List String) where
  InOrder-keep :
      (name : String) (names : List String) (result : Result (Option HardStop))
      (rest : Result (List HardStop))
      → ((v : HardStop) → result ≡ ok (some v) → v.rule ≡ name)
      → InOrder names rest
      → InOrder (name ∷ names) (do r ← result; vs ← rest; ok (keep overrides r vs))
  InOrder-keep name names (err e) rest named sub = tt
  InOrder-keep name names (ok r) (err e) named sub = tt
  InOrder-keep name names (ok none) (ok vs) named sub = Sublistᴰ.cons sub
  InOrder-keep name names (ok (some v)) (ok vs) named sub =
      elim (Bool-cases (dropped overrides v)) [
        | inl gone ↦ rw gone (Sublistᴰ.cons sub)
        | inr kept ↦ rw kept (Sublistᴰ.cons-cons (named v refl) sub)
      ]

  run_checks-InOrder :
      (checks : List Check) (names : List String)
      → AllNamed config checks names
      → InOrder names (run_checks overrides config checks)
  unfolding run_checks
  run_checks-InOrder [] [] named = Sublistᴰ.slnil
  run_checks-InOrder [] (name ∷ names) named = absurd named
  run_checks-InOrder (check ∷ checks) [] named = absurd named
  run_checks-InOrder (check ∷ checks) (name ∷ names) (named, rest) =
      InOrder-keep name names (check config) _ named (run_checks-InOrder checks names rest)

named_of_Decides :
    {result : Option HardStop} {Demand : Type 0} {stop : HardStop}
    → Decides result Demand stop
    → (v : HardStop) → ok result ≡ ok (some v)
    → v.rule ≡ stop.rule
named_of_Decides (inl (e, _)) v h = cc
named_of_Decides (inr (e, _)) v h = ground arith

abbrev pub rule_names : List String
rule_names =
    admin_port_rule ∷ domain_joined_rule ∷ wildcard_rdp_smb_rule ∷ time_offset_rule
    ∷ dng_version_rule ∷ lb_trusted_proxies_rule ∷ hostname_resolves_rule ∷ []

named_time_offset :
    (config : DngConfig) → Names config (λ c. ok (check_time_offset c)) time_offset_rule
named_time_offset config v h = elim (check_time_offset_lem config) [
  | inl (e, _) ↦ cc
  | inr (_, _, e, _) ↦ ground arith
]

named_dng_version : (config : DngConfig) → Names config check_dng_version dng_version_rule
named_dng_version config v h = elim (check_dng_version_lem config) [
  | inl (e, _) ↦ cc
  | inr (inl (e, _)) ↦ ground arith
  | inr (inr (_, e, _)) ↦ cc
]

all_checks-AllNamed : (config : DngConfig) → AllNamed config all_checks rule_names
all_checks-AllNamed config = (
  named_of_Decides (check_admin_port_lem config),
  (
    named_of_Decides (check_domain_joined_lem config),
    (
      named_of_Decides (check_wildcard_for_rdp_smb_lem config),
      (
        named_time_offset config,
        (
          named_dng_version config,
          (
            named_of_Decides (check_lb_trusted_proxies_lem config),
            (named_of_Decides (check_public_hostname_resolves_lem config), tt),
          ),
        ),
      ),
    ),
  ),
)

-- Each rule is reported at most once, and in the order of the seven rules.
pub validate_plan-InOrder :
    (config : DngConfig) (overrides : List String)
    → InOrder rule_names (validate_plan config overrides)
unfolding validate_plan
validate_plan-InOrder config overrides =
    run_checks-InOrder config overrides all_checks rule_names (all_checks-AllNamed config)

-- Validation raises exactly where a part of the version is no whole number, whatever the
-- overrides.
pub validate_plan-raises_iff :
    (config : DngConfig) (overrides : List String)
    → ((e : Error) × (validate_plan config overrides ≡ err e))
      ↔ (parse_version config.dng_version_minimum ≡ none)
unfolding validate_plan check_dng_version run_checks
validate_plan-raises_iff config overrides =
    elim (Option-cases (parse_version config.dng_version_minimum)) [
      | inl bad ↦ (λ _. bad, λ _. (invalid_literal, ground arith))
      | inr (version, read) ↦ ground arith
    ]
