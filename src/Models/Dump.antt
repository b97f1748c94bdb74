-- ===== src/Models/Dump.antt =====
-- `model_dump(mode="json")` of the models: the fields in the order of their declaration.
use dng_preflight.Base.{ℕ, String, true, false, Option, none, some, List, [], ◌∷◌, Dict}
use dng_preflight.Base.Format.{show}
use dng_preflight.Models.Snapshot.{
  value, Probed, detected, not_detected, SystemInfo, DockerInfo, NetworkInfo, DnsResolution,
  TlsObservation, TimeSyncState, FirewallState, Endpoint, status, failure, DuoReachability,
  EnvironmentSnapshot,
}
use dng_preflight.Models.Answers.{
  scope_text, idp_text, topology_text, TlsStrategy, existing_bundle, lets_encrypt_dns01,
  internal_ca, LoadBalancerConfig, AppStub, SeedApps, InterviewAnswers,
}
use dng_preflight.Models.Config.{DngConfig}
use dng_preflight.Models.Document.{
  Value, null, boolean, integer, float, text, sequence, mapping, Items, nil, item, Members, end,
  member,
}

module _ {A : Type 0} (dump : A → Value) where
  abbrev pub dump_option : Option A → Value
  dump_option none = null
  dump_option (some a) = dump a

  abbrev pub dump_items : List A → Items
  dump_items [] = nil
  dump_items (a ∷ rest) = item (dump a) (dump_items rest)

  abbrev pub dump_list : List A → Value
  dump_list elements = sequence (dump_items elements)

  abbrev pub dump_members : Dict A → Members
  dump_members [] = end
  dump_members ((k, a) ∷ d) = member k (dump a) (dump_members d)

  abbrev pub dump_dict : Dict A → Value
  dump_dict d = mapping (dump_members d)

-- The keys of a mapping are texts.
abbrev pub dump_ports : List (ℕ × String) → Members
dump_ports [] = end
dump_ports ((port, name) ∷ ports) = member (show port) (text name) (dump_ports ports)

-- A model of a probe's result, after its field `detected`.
abbrev pub found : Members → Value
found members = mapping (member "detected" (boolean true) members)

abbrev pub dump_probed : {A : Type 0} → (A → Value) → Probed A → Value
dump_probed dump (detected a) = dump a
dump_probed dump (not_detected reason) =
    mapping (member "detected" (boolean false) (member "reason" (text reason) end))

unfoldable pub dump_system : SystemInfo → Value
dump_system s = found (
    member "platform" (text s.platform) (
      member "distro" (text s.distro) (
        member "distro_version" (text s.distro_version) (
          member "kernel" (text s.kernel) (
            member "arch" (text s.arch) (
              member "ram_mb" (integer s.ram_mb) (
                member "cpu_count" (integer s.cpu_count) (
                  member "selinux_mode" (dump_option text s.selinux_mode) (
                    member "apparmor_active" (dump_option boolean s.apparmor_active)
                      (member "domain_joined" (boolean s.domain_joined) end))))))))))

unfoldable pub dump_docker : DockerInfo → Value
dump_docker d = found (
    member "engine_version" (text d.engine_version) (
      member "compose_version" (dump_option text d.compose_version) (
        member "daemon_reachable" (boolean d.daemon_reachable)
          (member "current_user_in_docker_group" (boolean d.current_user_in_docker_group) end))))

unfoldable pub dump_network : NetworkInfo → Value
dump_network n = found (
    member "interfaces" (dump_dict (dump_list text) n.interfaces) (
      member "default_route_iface" (dump_option text n.default_route_iface) (
        member "listening_ports" (mapping (dump_ports n.listening_ports))
          (member "egress_public_ip" (dump_option text n.egress_public_ip) end))))

unfoldable pub dump_dns : DnsResolution → Value
dump_dns d = found (
    member "hostname" (text d.hostname) (
      member "a_records" (dump_dict (dump_list text) d.a_records) (
        member "aaaa_records" (dump_dict (dump_list text) d.aaaa_records) (
          member "reverse_ptr" (dump_option text d.reverse_ptr)
            (member "local_resolvers" (dump_list text d.local_resolvers) end)))))

unfoldable pub dump_tls : TlsObservation → Value
dump_tls t = found (
    member "answers_on_443" (boolean t.answers_on_443) (
      member "cn" (dump_option text t.cn) (
        member "sans" (dump_list text t.sans) (
          member "not_before" (dump_option text t.not_before) (
            member "not_after" (dump_option text t.not_after) (
              member "issuer" (dump_option text t.issuer)
                (member "key_algorithm" (dump_option text t.key_algorithm) end)))))))

unfoldable pub dump_time_sync : TimeSyncState → Value
dump_time_sync t = found (
    member "daemon" (text t.daemon) (
      member "sync_source" (dump_option text t.sync_source)
        (member "offset_seconds" (dump_option float t.offset_seconds) end)))

unfoldable pub dump_firewall : FirewallState → Value
dump_firewall f =
    found (member "kind" (text (value f.kind)) (member "active" (boolean f.active) end))

abbrev pub dump_endpoint : Endpoint → Value
dump_endpoint (status code) = integer code
dump_endpoint (failure reason) = text reason

unfoldable pub dump_duo : DuoReachability → Value
dump_duo d = found (member "endpoints" (dump_dict dump_endpoint d.endpoints) end)

unfoldable pub dump_snapshot : EnvironmentSnapshot → Value
unfolding dump_system dump_docker dump_network dump_dns dump_tls dump_time_sync dump_firewall
    dump_duo
dump_snapshot s = mapping (
    member "captured_at" (text s.captured_at) (
      member "hostname_planned" (text s.hostname_planned) (
        member "system" (dump_system s.system) (
          member "docker" (dump_probed dump_docker s.docker) (
            member "network" (dump_network s.network) (
              member "dns" (dump_dns s.dns) (
                member "tls" (dump_tls s.tls) (
                  member "time_sync" (dump_probed dump_time_sync s.time_sync) (
                    member "firewall" (dump_probed dump_firewall s.firewall)
                      (member "duo_reachability" (dump_duo s.duo_reachability) end))))))))))

unfoldable pub dump_strategy : TlsStrategy → Value
dump_strategy (existing_bundle cert key chain) = mapping (
    member "kind" (text "existing_bundle") (
      member "cert_path" (text cert)
        (member "key_path" (text key) (member "chain_path" (dump_option text chain) end))))
dump_strategy (lets_encrypt_dns01 email provider) = mapping (
    member "kind" (text "lets_encrypt_dns01")
      (member "contact_email" (text email) (member "dns_provider" (text provider) end)))
dump_strategy (internal_ca cert key chain) = mapping (
    member "kind" (text "internal_ca") (
      member "cert_path" (text cert)
        (member "key_path" (text key) (member "chain_path" (text chain) end))))

unfoldable pub dump_balancer : LoadBalancerConfig → Value
dump_balancer lb = mapping (
    member "name" (text lb.name) (member "trusted_proxies" (dump_list text lb.trusted_proxies) end))

abbrev pub dump_app : AppStub → Value
dump_app app = mapping (member "name" (text app.name) end)

unfoldable pub dump_apps : SeedApps → Value
dump_apps apps = mapping (
    member "web_apps" (dump_list dump_app apps.web_apps) (
      member "ssh_relays" (dump_list dump_app apps.ssh_relays)
        (member "rdp_relays" (dump_list dump_app apps.rdp_relays) end)))

unfoldable pub dump_answers : InterviewAnswers → Value
unfolding dump_strategy dump_balancer dump_apps
dump_answers a = mapping (
    member "deployment_scope" (text (scope_text a.deployment_scope)) (
      member "idp" (text (idp_text a.idp)) (
        member "public_hostname" (text a.public_hostname) (
          member "tls_strategy" (dump_strategy a.tls_strategy) (
            member "wildcard_cert" (boolean a.wildcard_cert) (
              member "load_balancer" (dump_option dump_balancer a.load_balancer) (
                member "internal_dns" (text (topology_text a.internal_dns))
                  (member "seed_apps" (dump_apps a.seed_apps) end))))))))

unfoldable pub dump_config : DngConfig → Value
unfolding dump_snapshot dump_answers
dump_config c = mapping (
    member "snapshot" (dump_snapshot c.snapshot) (
      member "answers" (dump_answers c.answers) (
        member "requires_extra_dns_container" (boolean c.requires_extra_dns_container)
          (member "dng_version_minimum" (text c.dng_version_minimum) end))))
