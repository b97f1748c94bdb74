-- ===== src/Discovery/Firewall.antt =====
-- discovery/firewall.py.
use dng_preflight.Base.{
  String, Bool, not, ◌&&◌, Option, none, some, List, [], ◌∷◌, filter, any, truthy, if◌then◌else◌,
  false, Result, ok, map_result, ◌>>=◌,
}
use dng_preflight.Base.Int.{ℤ}
use dng_preflight.Base.Text.{is_empty, strip, splitlines}
use dng_preflight.Base.Words.{starts_with, has_text, lower}
use dng_preflight.Models.Snapshot.{
  FirewallState, Probed, detected, firewalld, ufw, iptables, no_firewall,
}
use dng_preflight.Discovery.Host.{Host, is_zero, attempt}

unfoldable pub firewalld_state : Option (ℤ × String) → Option FirewallState
firewalld_state none = none
firewalld_state (some (code, out)) =
    some (record { kind = firewalld; active = is_zero code && starts_with "running" (lower out) })

unfoldable pub probe_firewalld : Host → Result (Option FirewallState)
unfolding attempt firewalld_state
probe_firewalld host = map_result firewalld_state (attempt host "firewall-cmd" ("--state" ∷ []))

unfoldable pub ufw_state : Option (ℤ × String) → Option FirewallState
ufw_state none = none
ufw_state (some (code, out)) =
    if not (is_zero code)
    then none
    else some (record { kind = ufw; active = has_text "Status: active" out })

unfoldable pub probe_ufw : Host → Result (Option FirewallState)
unfolding attempt ufw_state
probe_ufw host = map_result ufw_state (attempt host "ufw" ("status" ∷ []))

abbrev pub default_accept : List String
default_accept = "-P INPUT ACCEPT" ∷ "-P OUTPUT ACCEPT" ∷ "-P FORWARD ACCEPT" ∷ []

-- The test of the list comprehension.
unfoldable pub is_rule : String → Bool
is_rule text =
    not (is_empty (strip text)) && not (any (λ prefix. starts_with prefix text) default_accept)

unfoldable pub iptables_state : Option (ℤ × String) → Option FirewallState
iptables_state none = none
iptables_state (some (code, out)) =
    if not (is_zero code)
    then none
    else some (record { kind = iptables; active = truthy (filter is_rule (splitlines out)) })

unfoldable pub probe_iptables : Host → Result (Option FirewallState)
unfolding attempt iptables_state
probe_iptables host = map_result iptables_state (attempt host "iptables" ("-S" ∷ []))

abbrev pub no_state : FirewallState
no_state = record { kind = no_firewall; active = false }

-- `probe`: the first probe that finds something.
unfoldable pub probe : Host → Result (Probed FirewallState)
unfolding probe_firewalld probe_ufw probe_iptables
probe host = do
  first ← probe_firewalld host
  elim first [
    | some state ↦ ok (detected state)
    | none ↦ do
      second ← probe_ufw host
      elim second [
        | some state ↦ ok (detected state)
        | none ↦ do
          third ← probe_iptables host
          elim third [ some state ↦ ok (detected state) | none ↦ ok (detected no_state) ]
      ]
  ]
