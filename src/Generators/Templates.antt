-- ===== src/Generators/Templates.antt =====
-- Which template generators/firewall_rules.py renders.
use dng_preflight.Base.{◌≡◌, refl, sym, ◌≢◌, ◌↔◌, ◌⊎◌, inl, inr, String, Bool, arith, eq_iff}
use dng_preflight.Models.Snapshot.{
  FirewallKind, firewalld, ufw, iptables, no_firewall, Probed, detected, not_detected,
  FirewallState, value,
}
use dng_preflight.Models.Config.{DngConfig}
use dng_preflight.Generators.FirewallRules.{kind_text, detected_kind, template_name}

abbrev pub HasKind : FirewallKind → Probed FirewallState → Type 0
HasKind k (not_detected _) = ⊥
HasKind k (detected firewall) = firewall.kind ≡ k

abbrev pub ufw_template : String
ufw_template = "firewall-ufw.sh.j2"

abbrev pub firewalld_template : String
firewalld_template = "firewall-firewalld.sh.j2"

abbrev pub unsupported_template : String
unsupported_template = "firewall-unsupported.sh.j2"

-- One template for each kind of firewall that has commands, and one for all else.
abbrev pub IsChosen : String → Probed FirewallState → Type 0
IsChosen name firewall =
    ((name ≡ ufw_template) ↔ HasKind ufw firewall)
    × ((name ≡ firewalld_template) ↔ HasKind firewalld firewall)
    × ((name ≡ ufw_template) ⊎ (name ≡ firewalld_template) ⊎ (name ≡ unsupported_template))

ufw-ne-firewalld : ufw_template ≢ firewalld_template
ufw-ne-firewalld h = ground (arith, eq_iff ufw_template firewalld_template)

unsupported-ne-ufw : unsupported_template ≢ ufw_template
unsupported-ne-ufw h = ground (arith, eq_iff unsupported_template ufw_template)

unsupported-ne-firewalld : unsupported_template ≢ firewalld_template
unsupported-ne-firewalld h = ground (arith, eq_iff unsupported_template firewalld_template)

unsupported-IsChosen :
    {A B : Type 0}
    → ¬ A
    → ¬ B
    → ((unsupported_template ≡ ufw_template) ↔ A)
      × ((unsupported_template ≡ firewalld_template) ↔ B)
      × ((unsupported_template ≡ ufw_template)
          ⊎ (unsupported_template ≡ firewalld_template)
          ⊎ (unsupported_template ≡ unsupported_template))
unsupported-IsChosen a b = (
  (λ h. absurd (unsupported-ne-ufw h), λ h. absurd (a h)),
  (λ h. absurd (unsupported-ne-firewalld h), λ h. absurd (b h)),
  inr (inr refl),
)

kind-IsChosen :
    (kind : FirewallKind) (active : Bool)
    → IsChosen (template_name (value kind)) (detected (record { kind = kind; active = active }))
unfolding template_name
kind-IsChosen ufw _ =
    ((λ _. refl, λ _. refl), (λ h. absurd (ufw-ne-firewalld h), λ h. cc), inl refl)
kind-IsChosen firewalld _ =
    ((λ h. absurd (ufw-ne-firewalld (sym h)), λ h. cc), (λ _. refl, λ _. refl), inr (inl refl))
kind-IsChosen iptables _ = unsupported-IsChosen (λ h. cc) (λ h. cc)
kind-IsChosen no_firewall _ = unsupported-IsChosen (λ h. cc) (λ h. cc)

firewall-IsChosen :
    (firewall : Probed FirewallState) → IsChosen (template_name (kind_text firewall)) firewall
unfolding template_name
firewall-IsChosen (not_detected _) = unsupported-IsChosen (λ h. h) (λ h. h)
firewall-IsChosen (detected firewall) = kind-IsChosen firewall.kind firewall.active

-- The template of the firewall script is ufw's exactly where ufw was detected, firewalld's exactly
-- where firewalld was, and in all other cases the one with manual guidance.
pub detected_kind-IsChosen :
    (config : DngConfig) → IsChosen (template_name (detected_kind config)) config.snapshot.firewall
unfolding detected_kind
detected_kind-IsChosen config = firewall-IsChosen config.snapshot.firewall
