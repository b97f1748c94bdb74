-- ===== src/Generators/FirewallRules.antt =====
-- generators/firewall_rules.py.
use dng_preflight.Base.{String, Option, none, some, List, [], ◌∷◌, Result, ◌==◌, if◌then◌else◌}
use dng_preflight.Models.Snapshot.{
  Probed, detected, not_detected, FirewallState, value, ufw, firewalld,
}
use dng_preflight.Models.Answers.{LoadBalancerConfig}
use dng_preflight.Models.Config.{DngConfig}
use dng_preflight.Templates.Engine.{Render, whole_config, text, texts}

abbrev pub kind_text : Probed FirewallState → String
kind_text (not_detected _) = "not_detected"
kind_text (detected firewall) = value firewall.kind

unfoldable pub detected_kind : DngConfig → String
detected_kind config = kind_text config.snapshot.firewall

unfoldable pub template_name : String → String
template_name kind =
    if kind == value ufw
    then "firewall-ufw.sh.j2"
    else if kind == value firewalld
    then "firewall-firewalld.sh.j2"
    else "firewall-unsupported.sh.j2"

abbrev pub proxies : Option LoadBalancerConfig → List String
proxies none = []
proxies (some lb) = lb.trusted_proxies

unfoldable pub generate : Render → DngConfig → Result String
unfolding detected_kind template_name
generate render c =
    let kind = detected_kind c in
    render (template_name kind) (
      ("config", whole_config c)
      ∷ ("detected_firewall", text kind)
      ∷ ("admin_cidrs", texts (proxies c.answers.load_balancer))
      ∷ [])
