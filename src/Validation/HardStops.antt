-- ===== src/Validation/HardStops.antt =====
-- validation/hard_stops.py.
use dng_preflight.Base.{
  String, Bool, true, false, not, ◌&&◌, ◌||◌, Option, none, some, List, [], ◌∷◌, ◌++◌, Result,
  Error, ok, err, value_error, ◌>>=◌, if◌then◌else◌, contains, truthy, any, values,
}
use dng_preflight.Base.Float.{Float, abs_le}
use dng_preflight.Models.Snapshot.{
  FirewallKind, no_firewall, Probed, detected, not_detected, FirewallState, TimeSyncState,
  DnsResolution, NetworkInfo,
}
use dng_preflight.Models.Answers.{LoadBalancerConfig}
use dng_preflight.Models.Config.{DngConfig, is_rdp_smb}
use dng_preflight.Validation.Version.{ℤ, parse_version, tuple_ge, floor}
use dng_preflight.Validation.Stops.{
  HardStop, admin_port_stop, domain_joined_stop, wildcard_stop, time_offset_stop, version_stop,
  trusted_proxies_stop, unresolved_stop, is_overridable,
}

-- The set comprehension over all interfaces, as the list of its members.
abbrev pub interface_ips : List (List String) → List String
interface_ips [] = []
interface_ips (ips ∷ rest) = ips ++ interface_ips rest

-- `firewall.kind is not FirewallKind.NONE`
abbrev is_some_kind : FirewallKind → Bool
is_some_kind no_firewall = false
is_some_kind _ = true

abbrev pub firewall_blocks : Probed FirewallState → Bool
firewall_blocks (not_detected _) = false
firewall_blocks (detected firewall) = firewall.active && is_some_kind firewall.kind

unfoldable pub admin_port : NetworkInfo → Probed FirewallState → Option String → Option HardStop
admin_port network firewall none = none
admin_port network firewall (some egress) =
    if not (contains (interface_ips (values network.interfaces)) egress)
    then none
    else if firewall_blocks firewall
    then none
    else some admin_port_stop

-- Rule 1.
unfoldable pub check_admin_port : DngConfig → Option HardStop
unfolding admin_port
check_admin_port config =
    let network = config.snapshot.network in
    admin_port network config.snapshot.firewall network.egress_public_ip

-- Rule 2.
unfoldable pub check_domain_joined : DngConfig → Option HardStop
check_domain_joined config =
    if not config.snapshot.system.domain_joined then none else some domain_joined_stop

-- Rule 3.
unfoldable pub check_wildcard_for_rdp_smb : DngConfig → Option HardStop
check_wildcard_for_rdp_smb config =
    let answers = config.answers in
    if not (is_rdp_smb answers.deployment_scope)
    then none
    else if answers.wildcard_cert
    then none
    else some wildcard_stop

unfoldable pub time_offset : Option String → Option Float → Option HardStop
time_offset source none = none
time_offset source (some offset) =
    if abs_le offset 30 then none else some (time_offset_stop offset source)

unfoldable pub time_sync_offset : Probed TimeSyncState → Option HardStop
time_sync_offset (not_detected _) = none
time_sync_offset (detected ts) = time_offset ts.sync_source ts.offset_seconds

-- Rule 4.
unfoldable pub check_time_offset : DngConfig → Option HardStop
unfolding time_sync_offset time_offset
check_time_offset config = time_sync_offset config.snapshot.time_sync

abbrev pub invalid_literal : Error
invalid_literal = value_error "invalid literal for int() with base 10"

-- `int(p)` raises on a part that is no number.
unfoldable pub dng_version : String → Option (List ℤ) → Result (Option HardStop)
dng_version text none = err invalid_literal
dng_version text (some version) =
    ok (if tuple_ge version floor then none else some (version_stop text))

-- Rule 5.
unfoldable pub check_dng_version : DngConfig → Result (Option HardStop)
unfolding dng_version
check_dng_version config =
    let text = config.dng_version_minimum in dng_version text (parse_version text)

unfoldable pub trusted_proxies : Option LoadBalancerConfig → Option HardStop
trusted_proxies none = none
trusted_proxies (some lb) = if truthy lb.trusted_proxies then none else some trusted_proxies_stop

-- Rule 6.
unfoldable pub check_lb_trusted_proxies : DngConfig → Option HardStop
unfolding trusted_proxies
check_lb_trusted_proxies config = trusted_proxies config.answers.load_balancer

-- `any(d.a_records.values()) or any(d.aaaa_records.values())`
abbrev pub resolves : DnsResolution → Bool
resolves dns = any truthy (values dns.a_records) || any truthy (values dns.aaaa_records)

-- Rule 7.
unfoldable pub check_public_hostname_resolves : DngConfig → Option HardStop
check_public_hostname_resolves config =
    if resolves config.snapshot.dns
    then none
    else some (unresolved_stop config.answers.public_hostname)

abbrev pub Check : Type 0
Check = DngConfig → Result (Option HardStop)

-- `_ALL_CHECKS`, in its order.
abbrev pub all_checks : List Check
all_checks =
    (λ c. ok (check_admin_port c))
    ∷ (λ c. ok (check_domain_joined c))
    ∷ (λ c. ok (check_wildcard_for_rdp_smb c))
    ∷ (λ c. ok (check_time_offset c))
    ∷ check_dng_version
    ∷ (λ c. ok (check_lb_trusted_proxies c))
    ∷ (λ c. ok (check_public_hostname_resolves c))
    ∷ []

abbrev pub flag_in : List String → Option String → Bool
flag_in overrides none = false
flag_in overrides (some flag) = contains overrides flag

-- The test under which a violation is dropped.
abbrev pub dropped : List String → HardStop → Bool
dropped overrides v = is_overridable v.severity && flag_in overrides v.override_flag

abbrev pub keep : List String → Option HardStop → List HardStop → List HardStop
keep overrides none rest = rest
keep overrides (some v) rest = if dropped overrides v then rest else v ∷ rest

-- The loop of `validate_plan`, whose `out` is the prefix of its result.
unfoldable pub run_checks : List String → DngConfig → List Check → Result (List HardStop)
run_checks overrides config [] = ok []
run_checks overrides config (check ∷ checks) = do
  result ← check config
  rest ← run_checks overrides config checks
  ok (keep overrides result rest)

-- The set of overrides is the list of its members.
unfoldable pub validate_plan : DngConfig → List String → Result (List HardStop)
unfolding run_checks
validate_plan config overrides = run_checks overrides config all_checks
