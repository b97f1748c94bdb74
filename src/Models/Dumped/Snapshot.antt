-- ===== src/Models/Dumped/Snapshot.antt =====
-- `EnvironmentSnapshot.model_validate` of models/snapshot.py on the dump of a snapshot.
use dng_preflight.Base.{
  ℕ, ◌≡◌, refl, ◌∙◌, String, Bool, Option, none, some, List, [], ◌∷◌, Dict, All,
}
use dng_preflight.Base.Format.{show}
use dng_preflight.Base.Float.{Float, finite, infinite, nan, IsNumber}
use dng_preflight.Models.Snapshot.{
  FirewallKind, value, firewalld, ufw, iptables, no_firewall, Probed, detected, not_detected,
  SystemInfo, DockerInfo, NetworkInfo, DnsResolution, TlsObservation, TimeSyncState, FirewallState,
  Endpoint, status, failure, DuoReachability, EnvironmentSnapshot,
}
use dng_preflight.Models.Document.{Value, boolean, float, text, Scalars, IsExact}
use dng_preflight.Models.Dump.{
  dump_option, dump_list, dump_dict, dump_ports, dump_probed, dump_system, dump_docker,
  dump_network, dump_dns, dump_tls, dump_time_sync, dump_firewall, dump_endpoint, dump_duo,
  dump_snapshot,
}
use dng_preflight.Models.Load.{◌>>=◌, optional, list_of, dict_of, probed, load_not_detected}
use dng_preflight.Models.Load.Snapshot.{
  kind_of, load_system, load_docker, load_ports, load_network, load_dns, load_tls, load_time_sync,
  load_firewall, load_duo, load_snapshot,
}
use dng_preflight.Models.Dumped.{
  Reads, All-Reads, list_of-dump_list, dict_of-dump_dict, optional-dump_option,
}

-- A number, if there is one.
abbrev pub IsFinite : Option Float → Type 0
IsFinite none = Unit
IsFinite (some x) = IsNumber x

abbrev pub offset_of : Probed TimeSyncState → Option Float
offset_of (detected state) = state.offset_seconds
offset_of (not_detected _) = none

kind_of-value : (kind : FirewallKind) → kind_of (value kind) ≡ some kind
kind_of-value firewalld = refl
kind_of-value ufw = refl
kind_of-value iptables = refl
kind_of-value no_firewall = refl

module _ (scalars : Scalars) (exact : IsExact scalars) where
  open scalars use {string_of, boolean_of, integer_of, float_of, integer_or_string_of}
  open exact use {strings, booleans, integers, floats, codes, failures}

  -- The key of a port reads as the port.
  abbrev pub IsPort : ℕ × String → Type 0
  IsPort (port, name) = integer_of (text (show port)) ≡ some port

  pub text_option : (o : Option String) → optional string_of (dump_option text o) ≡ some o
  text_option o = optional-dump_option text string_of (λ _. refl) o (λ s _. strings s)

  boolean_option : (o : Option Bool) → optional boolean_of (dump_option boolean o) ≡ some o
  boolean_option o = optional-dump_option boolean boolean_of (λ _. refl) o (λ b _. booleans b)

  float_option : (o : Option Float) → IsFinite o → optional float_of (dump_option float o) ≡ some o
  float_option none h = refl
  float_option (some (finite negative m k)) h = rw (floats negative m k)
  float_option (some (infinite _)) h = absurd h
  float_option (some nan) h = absurd h

  pub text_list : (ss : List String) → list_of string_of (dump_list text ss) ≡ some ss
  text_list ss = list_of-dump_list text string_of ss (All-Reads text string_of strings ss)

  text_lists :
      (d : Dict (List String)) → dict_of (list_of string_of) (dump_dict (dump_list text) d) ≡ some d
  text_lists d = dict_of-dump_dict (dump_list text) (list_of string_of) text_list d

  endpoint : (e : Endpoint) → integer_or_string_of (dump_endpoint e) ≡ some e
  endpoint (status code) = codes code
  endpoint (failure reason) = failures reason

  load_ports-dump_ports :
      (ports : List (ℕ × String))
      → All IsPort ports
      → load_ports scalars (dump_ports ports) ≡ some ports
  load_ports-dump_ports [] all = refl
  load_ports-dump_ports ((port, name) ∷ ports) (h, all) =
      rw (h, strings name, load_ports-dump_ports ports all)

  load_system-dump_system : (s : SystemInfo) → load_system scalars (dump_system s) ≡ some s
  unfolding load_system dump_system
  load_system-dump_system s = rw (
    strings s.platform,
    strings s.distro,
    strings s.distro_version,
    strings s.kernel,
    strings s.arch,
    integers s.ram_mb,
    integers s.cpu_count,
    text_option s.selinux_mode,
    boolean_option s.apparmor_active,
    booleans s.domain_joined,
  )

  load_docker-dump_docker : (d : DockerInfo) → load_docker scalars (dump_docker d) ≡ some d
  unfolding load_docker dump_docker
  load_docker-dump_docker d = rw (
    strings d.engine_version,
    text_option d.compose_version,
    booleans d.daemon_reachable,
    booleans d.current_user_in_docker_group,
  )

  load_network-dump_network :
      (n : NetworkInfo)
      → All IsPort n.listening_ports
      → load_network scalars (dump_network n) ≡ some n
  unfolding load_network dump_network
  load_network-dump_network n ports = rw (
    text_lists n.interfaces,
    text_option n.default_route_iface,
    load_ports-dump_ports n.listening_ports ports,
    text_option n.egress_public_ip,
  )

  load_dns-dump_dns : (d : DnsResolution) → load_dns scalars (dump_dns d) ≡ some d
  unfolding load_dns dump_dns
  load_dns-dump_dns d = rw (
    strings d.hostname,
    text_lists d.a_records,
    text_lists d.aaaa_records,
    text_option d.reverse_ptr,
    text_list d.local_resolvers,
  )

  load_tls-dump_tls : (t : TlsObservation) → load_tls scalars (dump_tls t) ≡ some t
  unfolding load_tls dump_tls
  load_tls-dump_tls t = rw (
    booleans t.answers_on_443,
    text_option t.cn,
    text_list t.sans,
    text_option t.not_before,
    text_option t.not_after,
    text_option t.issuer,
    text_option t.key_algorithm,
  )

  load_time_sync-dump_time_sync :
      (t : TimeSyncState)
      → IsFinite t.offset_seconds
      → load_time_sync scalars (dump_time_sync t) ≡ some t
  unfolding load_time_sync dump_time_sync
  load_time_sync-dump_time_sync t fine =
      rw (strings t.daemon, text_option t.sync_source, float_option t.offset_seconds fine)

  load_firewall-dump_firewall :
      (f : FirewallState) → load_firewall scalars (dump_firewall f) ≡ some f
  unfolding load_firewall dump_firewall
  load_firewall-dump_firewall f = rw (kind_of-value f.kind, booleans f.active)

  load_duo-dump_duo : (d : DuoReachability) → load_duo scalars (dump_duo d) ≡ some d
  unfolding load_duo dump_duo
  load_duo-dump_duo d =
      rw (dict_of-dump_dict dump_endpoint integer_or_string_of endpoint d.endpoints)

  probed-dump_probed :
      {A : Type 0} (dump : A → Value) (load : Value → Option A)
      → ((a : A) → probed scalars load (dump a) ≡ (load (dump a) >>= λ x. some (detected x)))
      → (p : Probed A) → ((a : A) → p ≡ detected a → Reads dump load a)
      → probed scalars load (dump_probed dump p) ≡ some p
  unfolding load_not_detected
  probed-dump_probed dump load tagged (detected a) reads = tagged a ∙ rw (reads a refl)
  probed-dump_probed dump load tagged (not_detected reason) reads = rw (strings reason)

  docker_part :
      (p : Probed DockerInfo)
      → probed scalars (load_docker scalars) (dump_probed dump_docker p) ≡ some p
  unfolding dump_docker
  docker_part p =
      probed-dump_probed dump_docker (load_docker scalars) (λ _. refl) p
        (λ d _. load_docker-dump_docker d)

  time_sync_part :
      (p : Probed TimeSyncState)
      → IsFinite (offset_of p)
      → probed scalars (load_time_sync scalars) (dump_probed dump_time_sync p) ≡ some p
  unfolding dump_time_sync
  time_sync_part p fine =
      probed-dump_probed dump_time_sync (load_time_sync scalars) (λ _. refl) p
        (λ t e. load_time_sync-dump_time_sync t (rw e at fine))

  firewall_part :
      (p : Probed FirewallState)
      → probed scalars (load_firewall scalars) (dump_probed dump_firewall p) ≡ some p
  unfolding dump_firewall
  firewall_part p =
      probed-dump_probed dump_firewall (load_firewall scalars) (λ _. refl) p
        (λ f _. load_firewall-dump_firewall f)

  pub load_snapshot-dump_snapshot :
      (s : EnvironmentSnapshot)
      → All IsPort s.network.listening_ports
      → IsFinite (offset_of s.time_sync)
      → load_snapshot scalars (dump_snapshot s) ≡ some s
  unfolding load_snapshot dump_snapshot
  load_snapshot-dump_snapshot s ports fine = rw (
    strings s.captured_at,
    strings s.hostname_planned,
    load_system-dump_system s.system,
    docker_part s.docker,
    load_network-dump_network s.network ports,
    load_dns-dump_dns s.dns,
    load_tls-dump_tls s.tls,
    time_sync_part s.time_sync fine,
    firewall_part s.firewall,
    load_duo-dump_duo s.duo_reachability,
  )
