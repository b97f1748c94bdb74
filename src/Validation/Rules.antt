-- ===== src/Validation/Rules.antt =====
-- What each rule of validation/hard_stops.py demands, stated without its code, and that the rule
-- reports its violation exactly where the demand fails.
use mathlib.Core.Bool.{false≢true}
use dng_preflight.Base.{
  ℕ, ◌*◌, ◌^◌, ◌≤◌, ◌≡◌, refl, sym, ◌∙◌, ◌≢◌, ◌↔◌, ◌⊎◌, inl, inr, String, true, false, Option, none,
  some, List, [], ◌∷◌, Dict, InValues, contains_iff, contains-append, contains, values, any, truthy,
  ok, err, arith, Bool-cases, truthy-cases, Error, Result,
}
use dng_preflight.Base.Float.{Float, finite, infinite, nan, abs_le}
use dng_preflight.Models.Snapshot.{
  no_firewall, Probed, detected, not_detected, FirewallState, TimeSyncState, NetworkInfo,
}
use dng_preflight.Models.Answers.{web_ssh_rdp_smb, LoadBalancerConfig}
use dng_preflight.Models.Config.{DngConfig}
use dng_preflight.Validation.Version.{ℤ, Below, parse_version, tuple_ge, tuple_ge_iff, floor}
use dng_preflight.Validation.Stops.{
  HardStop, admin_port_stop, domain_joined_stop, wildcard_stop, time_offset_stop, version_stop,
  trusted_proxies_stop, unresolved_stop,
}
use dng_preflight.Validation.HardStops.{
  interface_ips, firewall_blocks, admin_port, check_admin_port, check_domain_joined,
  check_wildcard_for_rdp_smb, time_offset, time_sync_offset, check_time_offset, dng_version,
  check_dng_version, trusted_proxies, check_lb_trusted_proxies, resolves,
  check_public_hostname_resolves,
}

abbrev pub IsFiltered : Probed FirewallState → Type 0
IsFiltered (not_detected _) = ⊥
IsFiltered (detected firewall) = (firewall.active ≡ true) × (firewall.kind ≢ no_firewall)

-- Some resolver returned a record.
abbrev pub IsAnswered : Dict (List String) → Type 0
IsAnswered [] = ⊥
IsAnswered ((_, records) ∷ d) = (records ≢ []) ⊎ IsAnswered d

abbrev pub IsWithin : ℕ → Float → Type 0
IsWithin bound (finite _ m k) = m ≤ bound * 2 ^ k
IsWithin bound (infinite _) = ⊥
IsWithin bound nan = ⊥

contains-InValues_iff :
    (interfaces : Dict (List String)) (ip : String)
    → (contains (interface_ips (values interfaces)) ip ≡ true) ↔ InValues ip interfaces
contains-InValues_iff [] ip = (λ h. cc, λ h. absurd h)
contains-InValues_iff ((_, ips) ∷ rest) ip = ground (
  arith,
  contains-append ips (interface_ips (values rest)) ip,
  contains_iff ips ip,
  contains-InValues_iff rest ip,
)

firewall_blocks_iff :
    (firewall : Probed FirewallState) → (firewall_blocks firewall ≡ true) ↔ IsFiltered firewall
firewall_blocks_iff (not_detected _) = (λ h. cc, λ h. absurd h)
firewall_blocks_iff (detected firewall) = ground arith

any-truthy_iff : (d : Dict (List String)) → (any truthy (values d) ≡ true) ↔ IsAnswered d
any-truthy_iff [] = (λ h. cc, λ h. absurd h)
any-truthy_iff ((_, records) ∷ d) = ground (arith, any-truthy_iff d)

abs_le_iff : (x : Float) (bound : ℕ) → (abs_le x bound ≡ true) ↔ IsWithin bound x
unfolding abs_le
abs_le_iff (finite _ m k) bound = ground arith
abs_le_iff (infinite _) bound = (λ h. cc, λ h. absurd h)
abs_le_iff nan bound = (λ h. cc, λ h. absurd h)

-- A rule with this demand passes where it holds, and reports this violation where it fails.
abbrev pub Decides : Option HardStop → Type 0 → HardStop → Type 0
Decides result Demand stop = ((result ≡ none) × Demand) ⊎ ((result ≡ some stop) × ¬ Demand)

-- A public address that is bound to an interface is behind an active firewall.
abbrev pub IsShielded : NetworkInfo → Probed FirewallState → Option String → Type 0
IsShielded network firewall none = Unit
IsShielded network firewall (some ip) = InValues ip network.interfaces → IsFiltered firewall

abbrev pub HasProxies : Option LoadBalancerConfig → Type 0
HasProxies none = Unit
HasProxies (some lb) = lb.trusted_proxies ≢ []

-- An offset that was measured is at most 30 seconds.
abbrev pub IsSmall : Option Float → Type 0
IsSmall none = Unit
IsSmall (some offset) = IsWithin 30 offset

abbrev pub IsSynchronised : Probed TimeSyncState → Type 0
IsSynchronised (not_detected _) = Unit
IsSynchronised (detected state) = IsSmall state.offset_seconds

-- The version is a tuple of numbers that is not below (3, 3, 0).
abbrev pub IsRecent : Option (List ℤ) → Type 0
IsRecent none = ⊥
IsRecent (some version) = ¬ Below version floor

trusted_proxies_lem :
    (lb : Option LoadBalancerConfig)
    → Decides (trusted_proxies lb) (HasProxies lb) trusted_proxies_stop
unfolding trusted_proxies
trusted_proxies_lem none = inl (refl, tt)
trusted_proxies_lem (some lb) = ground (arith, truthy-cases lb.trusted_proxies)

admin_port_lem :
    (network : NetworkInfo) (firewall : Probed FirewallState) (egress : Option String)
    → Decides
        (admin_port network firewall egress)
        (IsShielded network firewall egress)
        admin_port_stop
unfolding admin_port
admin_port_lem network firewall none = inl (refl, tt)
admin_port_lem network firewall (some ip) =
    ground (arith, contains-InValues_iff network.interfaces ip, firewall_blocks_iff firewall)

time_offset_lem :
    (source : Option String) (offset : Option Float)
    → ((time_offset source offset ≡ none) × IsSmall offset)
      ⊎ ((x : Float) × (time_offset source offset ≡ some (time_offset_stop x source))
          × ¬ IsSmall offset)
unfolding time_offset
time_offset_lem source none = inl (refl, tt)
time_offset_lem source (some x) = elim (Bool-cases (abs_le x 30)) [
  | inl small ↦ inl (rw small, (abs_le_iff x 30).0 small)
  | inr large ↦ inr (x, rw large, λ within. false≢true (sym large ∙ (abs_le_iff x 30).1 within))
]

time_sync_offset_lem :
    (sync : Probed TimeSyncState)
    → ((time_sync_offset sync ≡ none) × IsSynchronised sync)
      ⊎ ((x : Float) × (source : Option String) × (time_sync_offset sync
            ≡ some (time_offset_stop x source))
          × ¬ IsSynchronised sync)
unfolding time_sync_offset
time_sync_offset_lem (not_detected _) = inl (refl, tt)
time_sync_offset_lem (detected state) =
    elim (time_offset_lem state.sync_source state.offset_seconds) [
      | inl passes ↦ inl passes
      | inr (x, e, late) ↦ inr (x, state.sync_source, e, late)
    ]

-- A version passes, is too old, or is no version at all.
abbrev pub DecidesVersion : String → Result (Option HardStop) → Type 0 → Type 0
DecidesVersion text result Demand =
    ((result ≡ ok none) × Demand)
    ⊎ ((result ≡ ok (some (version_stop text))) × ¬ Demand)
    ⊎ ((e : Error) × (result ≡ err e) × ¬ Demand)

dng_version_lem :
    (text : String) (version : Option (List ℤ))
    → DecidesVersion text (dng_version text version) (IsRecent version)
unfolding dng_version
dng_version_lem text none = inr (inr (_, refl, λ h. h))
dng_version_lem text (some version) = elim (Bool-cases (tuple_ge version floor)) [
  | inl recent ↦ inl (rw recent, (tuple_ge_iff version floor).0 recent)
  | inr old ↦ inr (inl (rw old, λ h. false≢true (sym old ∙ (tuple_ge_iff version floor).1 h)))
]

module _ (config : DngConfig) where
  open config.snapshot use {network, firewall, time_sync, system, dns}
  open config.answers use {deployment_scope, wildcard_cert, load_balancer}

  abbrev pub IsPrivate : Type 0
  IsPrivate = IsShielded network firewall network.egress_public_ip

  abbrev pub HasWildcard : Type 0
  HasWildcard = deployment_scope ≡ web_ssh_rdp_smb → wildcard_cert ≡ true

  abbrev pub IsResolved : Type 0
  IsResolved = IsAnswered dns.a_records ⊎ IsAnswered dns.aaaa_records

  pub check_admin_port_lem : Decides (check_admin_port config) IsPrivate admin_port_stop
  unfolding check_admin_port
  check_admin_port_lem = admin_port_lem network firewall network.egress_public_ip

  pub check_domain_joined_lem :
      Decides (check_domain_joined config) (system.domain_joined ≡ false) domain_joined_stop
  unfolding check_domain_joined
  check_domain_joined_lem = ground arith

  pub check_wildcard_for_rdp_smb_lem :
      Decides (check_wildcard_for_rdp_smb config) HasWildcard wildcard_stop
  unfolding check_wildcard_for_rdp_smb
  check_wildcard_for_rdp_smb_lem = ground arith

  pub check_time_offset_lem :
      ((check_time_offset config ≡ none) × IsSynchronised time_sync)
      ⊎ ((x : Float) × (source : Option String) × (check_time_offset config
            ≡ some (time_offset_stop x source))
          × ¬ IsSynchronised time_sync)
  unfolding check_time_offset
  check_time_offset_lem = time_sync_offset_lem time_sync

  pub check_dng_version_lem :
      DecidesVersion config.dng_version_minimum
        (check_dng_version config)
        (IsRecent (parse_version config.dng_version_minimum))
  unfolding check_dng_version
  check_dng_version_lem = dng_version_lem _ (parse_version config.dng_version_minimum)

  pub check_lb_trusted_proxies_lem :
      Decides (check_lb_trusted_proxies config) (HasProxies load_balancer) trusted_proxies_stop
  unfolding check_lb_trusted_proxies
  check_lb_trusted_proxies_lem = trusted_proxies_lem load_balancer

  pub resolves_iff : (resolves dns ≡ true) ↔ IsResolved
  resolves_iff = ground (arith, any-truthy_iff dns.a_records, any-truthy_iff dns.aaaa_records)

  pub check_public_hostname_resolves_lem :
      Decides
        (check_public_hostname_resolves config)
        IsResolved
        (unresolved_stop config.answers.public_hostname)
  unfolding check_public_hostname_resolves
  check_public_hostname_resolves_lem = ground (arith, resolves_iff)
