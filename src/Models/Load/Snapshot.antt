-- ===== src/Models/Load/Snapshot.antt =====
-- `EnvironmentSnapshot.model_validate` of models/snapshot.py.
use dng_preflight.Base.{
  ℕ, String, true, false, Option, none, some, List, [], ◌∷◌, ◌==◌, if◌then◌else◌,
}
use dng_preflight.Models.Snapshot.{
  FirewallKind, firewalld, ufw, iptables, no_firewall, SystemInfo, DockerInfo, NetworkInfo,
  DnsResolution, TlsObservation, TimeSyncState, FirewallState, DuoReachability, EnvironmentSnapshot,
}
use dng_preflight.Models.Document.{Value, text, mapping, Members, end, member, Scalars}
use dng_preflight.Models.Load.{
  ◌>>=◌, fields, field, field_or, optional, list_of, dict_of, detected_field, member_of, probed,
}

-- The member of the `StrEnum` with this value.
abbrev pub kind_of : String → Option FirewallKind
kind_of s =
    if s == "firewalld"
    then some firewalld
    else if s == "ufw"
    then some ufw
    else if s == "iptables"
    then some iptables
    else if s == "none"
    then some no_firewall
    else none

module _ (scalars : Scalars) where
  open scalars use {string_of, boolean_of, integer_of, float_of, integer_or_string_of}

  unfoldable pub load_system : Value → Option SystemInfo
  load_system v = do
    members ←
        fields
          ("detected" ∷ "platform" ∷ "distro" ∷ "distro_version" ∷ "kernel" ∷ "arch" ∷ "ram_mb"
            ∷ "cpu_count" ∷ "selinux_mode" ∷ "apparmor_active" ∷ "domain_joined" ∷ [])
          v
    tt ← detected_field true members
    platform ← field string_of members "platform"
    distro ← field string_of members "distro"
    distro_version ← field string_of members "distro_version"
    kernel ← field string_of members "kernel"
    arch ← field string_of members "arch"
    ram_mb ← field integer_of members "ram_mb"
    cpu_count ← field integer_of members "cpu_count"
    selinux_mode ← field_or (optional string_of) none members "selinux_mode"
    apparmor_active ← field_or (optional boolean_of) none members "apparmor_active"
    domain_joined ← field_or boolean_of false members "domain_joined"
    some (record {
      platform = platform;
      distro = distro;
      distro_version = distro_version;
      kernel = kernel;
      arch = arch;
      ram_mb = ram_mb;
      cpu_count = cpu_count;
      selinux_mode = selinux_mode;
      apparmor_active = apparmor_active;
      domain_joined = domain_joined;
    })

  unfoldable pub load_docker : Value → Option DockerInfo
  load_docker v = do
    members ←
        fields
          ("detected" ∷ "engine_version" ∷ "compose_version" ∷ "daemon_reachable"
            ∷ "current_user_in_docker_group" ∷ [])
          v
    tt ← detected_field true members
    engine_version ← field string_of members "engine_version"
    compose_version ← field (optional string_of) members "compose_version"
    daemon_reachable ← field boolean_of members "daemon_reachable"
    in_group ← field boolean_of members "current_user_in_docker_group"
    some (record {
      engine_version = engine_version;
      compose_version = compose_version;
      daemon_reachable = daemon_reachable;
      current_user_in_docker_group = in_group;
    })

  -- `dict[int, str]`; keys that read as the same number are kept apart.
  abbrev pub load_ports : Members → Option (List (ℕ × String))
  load_ports end = some []
  load_ports (member k v members) = integer_of (text k) >>= λ port.
      string_of v >>= λ name. load_ports members >>= λ rest. some ((port, name) ∷ rest)

  abbrev pub ports_of : Value → Option (List (ℕ × String))
  ports_of (mapping members) = load_ports members
  ports_of _ = none

  unfoldable pub load_network : Value → Option NetworkInfo
  load_network v = do
    members ←
        fields
          ("detected" ∷ "interfaces" ∷ "default_route_iface" ∷ "listening_ports"
            ∷ "egress_public_ip" ∷ [])
          v
    tt ← detected_field true members
    interfaces ← field (dict_of (list_of string_of)) members "interfaces"
    default_route_iface ← field (optional string_of) members "default_route_iface"
    listening_ports ← field ports_of members "listening_ports"
    egress_public_ip ← field (optional string_of) members "egress_public_ip"
    some (record {
      interfaces = interfaces;
      default_route_iface = default_route_iface;
      listening_ports = listening_ports;
      egress_public_ip = egress_public_ip;
    })

  unfoldable pub load_dns : Value → Option DnsResolution
  load_dns v = do
    members ←
        fields
          ("detected" ∷ "hostname" ∷ "a_records" ∷ "aaaa_records" ∷ "reverse_ptr"
            ∷ "local_resolvers" ∷ [])
          v
    tt ← detected_field true members
    hostname ← field string_of members "hostname"
    a_records ← field (dict_of (list_of string_of)) members "a_records"
    aaaa_records ← field (dict_of (list_of string_of)) members "aaaa_records"
    reverse_ptr ← field (optional string_of) members "reverse_ptr"
    local_resolvers ← field (list_of string_of) members "local_resolvers"
    some (record {
      hostname = hostname;
      a_records = a_records;
      aaaa_records = aaaa_records;
      reverse_ptr = reverse_ptr;
      local_resolvers = local_resolvers;
    })

  unfoldable pub load_tls : Value → Option TlsObservation
  load_tls v = do
    members ←
        fields
          ("detected" ∷ "answers_on_443" ∷ "cn" ∷ "sans" ∷ "not_before" ∷ "not_after" ∷ "issuer"
            ∷ "key_algorithm" ∷ [])
          v
    tt ← detected_field true members
    answers_on_443 ← field boolean_of members "answers_on_443"
    cn ← field_or (optional string_of) none members "cn"
    sans ← field_or (list_of string_of) [] members "sans"
    not_before ← field_or (optional string_of) none members "not_before"
    not_after ← field_or (optional string_of) none members "not_after"
    issuer ← field_or (optional string_of) none members "issuer"
    key_algorithm ← field_or (optional string_of) none members "key_algorithm"
    some (record {
      answers_on_443 = answers_on_443;
      cn = cn;
      sans = sans;
      not_before = not_before;
      not_after = not_after;
      issuer = issuer;
      key_algorithm = key_algorithm;
    })

  unfoldable pub load_time_sync : Value → Option TimeSyncState
  load_time_sync v = do
    members ← fields ("detected" ∷ "daemon" ∷ "sync_source" ∷ "offset_seconds" ∷ []) v
    tt ← detected_field true members
    daemon ← field string_of members "daemon"
    sync_source ← field (optional string_of) members "sync_source"
    offset_seconds ← field (optional float_of) members "offset_seconds"
    some (record { daemon = daemon; sync_source = sync_source; offset_seconds = offset_seconds })

  unfoldable pub load_firewall : Value → Option FirewallState
  load_firewall v = do
    members ← fields ("detected" ∷ "kind" ∷ "active" ∷ []) v
    tt ← detected_field true members
    kind ← field (member_of kind_of) members "kind"
    active ← field boolean_of members "active"
    some (record { kind = kind; active = active })

  unfoldable pub load_duo : Value → Option DuoReachability
  load_duo v = do
    members ← fields ("detected" ∷ "endpoints" ∷ []) v
    tt ← detected_field true members
    endpoints ← field (dict_of integer_or_string_of) members "endpoints"
    some (record { endpoints = endpoints })

  unfoldable pub load_snapshot : Value → Option EnvironmentSnapshot
  unfolding load_system load_docker load_network load_dns load_tls load_time_sync load_firewall
      load_duo
  load_snapshot v = do
    members ←
        fields
          ("captured_at" ∷ "hostname_planned" ∷ "system" ∷ "docker" ∷ "network" ∷ "dns" ∷ "tls"
            ∷ "time_sync" ∷ "firewall" ∷ "duo_reachability" ∷ [])
          v
    captured_at ← field string_of members "captured_at"
    hostname_planned ← field string_of members "hostname_planned"
    system ← field load_system members "system"
    docker ← field (probed scalars load_docker) members "docker"
    network ← field load_network members "network"
    dns ← field load_dns members "dns"
    tls ← field load_tls members "tls"
    time_sync ← field (probed scalars load_time_sync) members "time_sync"
    firewall ← field (probed scalars load_firewall) members "firewall"
    duo_reachability ← field load_duo members "duo_reachability"
    some (record {
      captured_at = captured_at;
      hostname_planned = hostname_planned;
      system = system;
      docker = docker;
      network = network;
      dns = dns;
      tls = tls;
      time_sync = time_sync;
      firewall = firewall;
      duo_reachability = duo_reachability;
    })
