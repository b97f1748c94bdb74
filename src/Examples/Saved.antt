-- ===== src/Examples/Saved.antt =====
-- A plan that was built from a machine, saved and loaded.
use dng_preflight.Base.{◌≡◌, refl, [], ◌∷◌, ok, none, some, true, false}
use dng_preflight.Base.Text.{strip, split}
use dng_preflight.Base.Words.{has_text, lower}
use dng_preflight.Models.Snapshot.{EnvironmentSnapshot, not_detected, detected, ufw}
use dng_preflight.Models.Config.{build_config}
use dng_preflight.Models.Dump.{dump_config}
use dng_preflight.Models.Dumped.Answers.{AreBalanced}
use dng_preflight.Validation.Version.{parse_int}
use dng_preflight.Discovery.System
use dng_preflight.Discovery.Docker
use dng_preflight.Discovery.Network
use dng_preflight.Discovery.Dns
use dng_preflight.Discovery.Tls
use dng_preflight.Discovery.TimeSync
use dng_preflight.Discovery.Firewall
use dng_preflight.Discovery.Duo
use dng_preflight.Discovery.Sntp
use dng_preflight.Discovery.Machine.{collect_on}
use dng_preflight.Discovery.Whole.{IsTaken, collect_on-ok_iff}
use dng_preflight.Discovery.Storable.{HasClock, ReadsPorts}
use dng_preflight.Cli.Documents.{Texts, codec_of}
use dng_preflight.Cli.Saved.{collect_on-load_plan}
use dng_preflight.Examples.Sample.{answers}
use dng_preflight.Examples.Models.{scalars, scalars-IsExact}
use dng_preflight.Examples.Machine.{machine, machine-IsPrompt, machine-IsLegible}

abbrev snapshot : EnvironmentSnapshot
snapshot = record {
  captured_at = "now";
  hostname_planned = "dng.example.com";
  system = record {
    platform = "linux";
    distro = "linux";
    distro_version = "6.8.0";
    kernel = "6.8.0-31-generic";
    arch = "x86_64";
    ram_mb = 8192;
    cpu_count = 4;
    selinux_mode = none;
    apparmor_active = some true;
    domain_joined = false;
  };
  docker = not_detected Docker.no_cli;
  network = record {
    interfaces = ("eth0", "10.0.0.5" ∷ []) ∷ [];
    default_route_iface = none;
    listening_ports = [];
    egress_public_ip = none;
  };
  dns = record {
    hostname = "dng.example.com";
    a_records =
        ("1.1.1.1", []) ∷ ("8.8.8.8", "198.51.100.7" ∷ "203.0.113.10" ∷ []) ∷ ("9.9.9.9", []) ∷ [];
    aaaa_records = ("1.1.1.1", []) ∷ ("8.8.8.8", []) ∷ ("9.9.9.9", []) ∷ [];
    reverse_ptr = some "dng.example.com";
    local_resolvers = [];
  };
  tls = record {
    answers_on_443 = true;
    cn = some "old.example.com";
    sans = "dng.example.com" ∷ "www.example.com" ∷ [];
    not_before = some "2026-01-01T00:00:00+00:00";
    not_after = some "2026-04-01T00:00:00+00:00";
    issuer = some "CN=Test CA";
    key_algorithm = some "RSA-2048";
  };
  time_sync = not_detected TimeSync.nothing_found;
  firewall = detected (record { kind = ufw; active = true });
  duo_reachability = Duo.probe machine.head;
}

taken : IsTaken machine "dng.example.com" snapshot
unfolding System.probe Docker.probe Network.probe Dns.probe Tls.probe Firewall.probe TimeSync.probe
    Sntp.query_ntp_offset strip has_text lower split
taken = record {
  system = refl;
  docker = refl;
  network = refl;
  dns = refl;
  tls = refl;
  time_sync = refl;
  firewall = refl;
  duo = refl;
}

collected : (collect_on machine "now" "dng.example.com").result ≡ ok snapshot
collected =
    (collect_on-ok_iff machine "dng.example.com" machine-IsPrompt machine-IsLegible "now"
        snapshot).1
      (refl, refl, taken)

clock : HasClock machine.host
clock x h = cc h

ports : ReadsPorts scalars scalars-IsExact
unfolding parse_int strip
ports = record { http = refl; https = refl; admin = refl }

abbrev texts : Texts
texts = record {
  safe_load = λ _. ok (dump_config (build_config snapshot answers));
  safe_dump = λ _. "plan";
  safe_dump_block = λ _. "snapshot";
  json_dumps = λ _. "{}";
}

balanced : AreBalanced scalars scalars-IsExact answers.load_balancer
balanced = record { full = λ h. cc h; networks = (refl, tt) }

collect_on-load_plan_example :
    (codec_of texts scalars).load_plan
      ((codec_of texts scalars).dump_plan (build_config snapshot answers))
    ≡ ok (build_config snapshot answers)
collect_on-load_plan_example =
    collect_on-load_plan scalars scalars-IsExact machine clock ports "now" "dng.example.com"
      snapshot collected answers balanced texts refl
