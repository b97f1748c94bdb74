-- ===== src/Generators/Documents.antt =====
-- generators/installer.py, generators/runbook.py and generators/scripted_config.py.
use dng_preflight.Base.{String, ◌<>◌, Bool, Option, none, some, [], ◌∷◌, not, Result, if◌then◌else◌}
use dng_preflight.Base.Text.{join}
use dng_preflight.Models.Answers.{LoadBalancerConfig, kind}
use dng_preflight.Models.Config.{DngConfig}
use dng_preflight.Validation.HardStops.{resolves}
use dng_preflight.Templates.Engine.{Render, whole_config, text, flag}
use dng_preflight.Generators.Domain.{domain_from_fqdn}

-- `__version__` of the package.
abbrev tool_version : String
tool_version = "0.1.0"

unfoldable pub generate_installer : Render → DngConfig → Result String
generate_installer render c = render "installer.sh.j2" (("config", whole_config c) ∷ [])

abbrev lb_cidrs : Option LoadBalancerConfig → String
lb_cidrs none = ""
lb_cidrs (some lb) = join ", " lb.trusted_proxies

-- The argument `needs_dns_step_zero` of the runbook's template.
unfoldable pub needs_dns_step_zero : DngConfig → Bool
needs_dns_step_zero c = not (resolves c.snapshot.dns)

unfoldable pub generate_runbook : Render → DngConfig → Result String
unfolding needs_dns_step_zero
generate_runbook render c = render "runbook.md.j2" (
    ("config", whole_config c)
    ∷ ("tool_version", text tool_version)
    ∷ ("tls_kind", text (kind c.answers.tls_strategy))
    ∷ ("needs_dns_step_zero", flag (needs_dns_step_zero c))
    ∷ (
      "hostname_resolves_status",
      text (if resolves c.snapshot.dns then "✓" else "override applied"),
    )
    ∷ ("lb_cidrs", text (lb_cidrs c.answers.load_balancer))
    ∷ [])

unfoldable pub generate_scripted_config : Render → DngConfig → Result String
generate_scripted_config render c =
    let domain = domain_from_fqdn c.answers.public_hostname in
    render "scripted-config.yaml.j2" (
      ("config", whole_config c)
      ∷ ("admin_email", text ("admin@" <> domain))
      ∷ ("public_hostname_domain", text domain)
      ∷ ("tls_kind", text (kind c.answers.tls_strategy))
      ∷ [])
