-- ===== src/Examples/Sample.antt =====
-- A host, its interview answers, and the plan of both.
use dng_preflight.Base.{String, Bool, true, false, none, some, List, [], ◌∷◌}
use dng_preflight.Base.Float.{Float, finite}
use dng_preflight.Models.Snapshot.{EnvironmentSnapshot, detected, ufw, status, failure}
use dng_preflight.Models.Answers.{
  InterviewAnswers, DeploymentScope, web_ssh_rdp_smb, okta, lets_encrypt_dns01, split_horizon,
}
use dng_preflight.Models.Config.{DngConfig}

abbrev pub resolvers : List (String × List String)
resolvers = ("system", "203.0.113.10" ∷ []) ∷ ("1.1.1.1", "203.0.113.10" ∷ "203.0.113.11" ∷ []) ∷ []

abbrev pub snapshot_with : (joined active : Bool) → Float → EnvironmentSnapshot
snapshot_with joined active offset = record {
  captured_at = "2026-04-01T12:00:00Z";
  hostname_planned = "dng.example.com";
  system = record {
    platform = "Linux";
    distro = "ubuntu";
    distro_version = "24.04";
    kernel = "6.8.0";
    arch = "x86_64";
    ram_mb = 8192;
    cpu_count = 4;
    selinux_mode = none;
    apparmor_active = some true;
    domain_joined = joined;
  };
  docker = detected (record {
    engine_version = "27.0.3";
    compose_version = some "2.28.1";
    daemon_reachable = true;
    current_user_in_docker_group = true;
  });
  network = record {
    interfaces = ("lo", "127.0.0.1" ∷ []) ∷ ("eth0", "203.0.113.10" ∷ []) ∷ [];
    default_route_iface = some "eth0";
    listening_ports = (22, "sshd") ∷ [];
    egress_public_ip = some "203.0.113.10";
  };
  dns = record {
    hostname = "dng.example.com";
    a_records = resolvers;
    aaaa_records = [];
    reverse_ptr = none;
    local_resolvers = "127.0.0.53" ∷ [];
  };
  tls = record {
    answers_on_443 = false;
    cn = none;
    sans = [];
    not_before = none;
    not_after = none;
    issuer = none;
    key_algorithm = none;
  };
  time_sync = detected (record {
    daemon = "chrony";
    sync_source = some "ntp.example.com";
    offset_seconds = some offset;
  });
  firewall = detected (record { kind = ufw; active = active });
  duo_reachability = record {
    endpoints =
        ("api.duosecurity.com", status 200) ∷ ("sso.duosecurity.com", failure "timeout") ∷ [];
  };
}

abbrev pub half_second : Float
half_second = finite false 1 1

abbrev pub snapshot : EnvironmentSnapshot
snapshot = snapshot_with false true half_second

abbrev pub answers_with : DeploymentScope → Bool → InterviewAnswers
answers_with scope wildcard = record {
  deployment_scope = scope;
  idp = okta;
  public_hostname = "dng.example.com";
  tls_strategy = lets_encrypt_dns01 "ops@example.com" "cloudflare";
  wildcard_cert = wildcard;
  load_balancer = some (record { name = "f5"; trusted_proxies = "10.0.0.0/8" ∷ [] });
  internal_dns = split_horizon;
  seed_apps = record {
    web_apps = record { name = "wiki" } ∷ [];
    ssh_relays = record { name = "bastion" } ∷ [];
    rdp_relays = [];
  };
}

abbrev pub answers : InterviewAnswers
answers = answers_with web_ssh_rdp_smb true

abbrev pub plan_of : EnvironmentSnapshot → InterviewAnswers → String → DngConfig
plan_of s a version = record {
  snapshot = s;
  answers = a;
  requires_extra_dns_container = true;
  dng_version_minimum = version;
}

-- A plan without violations.
abbrev pub plan : DngConfig
plan = plan_of snapshot answers "3.3.0"

-- A plan that breaks the rules on the domain, the wildcard and the clock.
abbrev pub bad_plan : DngConfig
bad_plan =
    plan_of (snapshot_with true true (finite true 95 1)) (answers_with web_ssh_rdp_smb false) "3.4"

-- A plan whose version is no version.
abbrev pub odd_plan : DngConfig
odd_plan = plan_of snapshot answers "3.x"
