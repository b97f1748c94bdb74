-- ===== src/Models/Snapshot.antt =====
-- models/snapshot.py. A union `X | NotDetected` is `Probed X`, and the discriminating field
-- `detected` is the constructor. Counts are natural numbers.
use dng_preflight.Base.{ℕ, String, Bool, Option, List, Dict}
use dng_preflight.Base.Float.{Float}

pub data FirewallKind : Type 0 where
  firewalld ufw iptables no_firewall : FirewallKind

-- The value of the `StrEnum` member.
abbrev pub value : FirewallKind → String
value firewalld = "firewalld"
value ufw = "ufw"
value iptables = "iptables"
value no_firewall = "none"

pub data Probed (A : Type 0) : Type 0 where
  detected : A → Probed A
  not_detected : (reason : String) → Probed A

pub record SystemInfo : Type 0 where
  pub platform : String
  pub distro : String
  pub distro_version : String
  pub kernel : String
  pub arch : String
  pub ram_mb : ℕ
  pub cpu_count : ℕ
  pub selinux_mode : Option String
  pub apparmor_active : Option Bool
  pub domain_joined : Bool

pub record DockerInfo : Type 0 where
  pub engine_version : String
  pub compose_version : Option String
  pub daemon_reachable : Bool
  pub current_user_in_docker_group : Bool

pub record NetworkInfo : Type 0 where
  pub interfaces : Dict (List String)
  pub default_route_iface : Option String
  pub listening_ports : List (ℕ × String)
  pub egress_public_ip : Option String

pub record DnsResolution : Type 0 where
  pub hostname : String
  pub a_records : Dict (List String)
  pub aaaa_records : Dict (List String)
  pub reverse_ptr : Option String
  pub local_resolvers : List String

pub record TlsObservation : Type 0 where
  pub answers_on_443 : Bool
  pub cn : Option String
  pub sans : List String
  pub not_before : Option String
  pub not_after : Option String
  pub issuer : Option String
  pub key_algorithm : Option String

pub record TimeSyncState : Type 0 where
  pub daemon : String
  pub sync_source : Option String
  pub offset_seconds : Option Float

pub record FirewallState : Type 0 where
  pub kind : FirewallKind
  pub active : Bool

-- An HTTP status, or a short error text.
pub data Endpoint : Type 0 where
  status : ℕ → Endpoint
  failure : String → Endpoint

pub record DuoReachability : Type 0 where
  pub endpoints : Dict Endpoint

pub record EnvironmentSnapshot : Type 0 where
  pub captured_at : String
  pub hostname_planned : String
  pub system : SystemInfo
  pub docker : Probed DockerInfo
  pub network : NetworkInfo
  pub dns : DnsResolution
  pub tls : TlsObservation
  pub time_sync : Probed TimeSyncState
  pub firewall : Probed FirewallState
  pub duo_reachability : DuoReachability
