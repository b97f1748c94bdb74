-- ===== src/Examples/Discovery.antt =====
-- Tests and runs of discovery/.

use dng_preflight.Base.{contains, ◌&&◌, ℕ, ◌+◌, ◌*◌, ◌^◌, ◌%◌, ◌<◌, map_result, false, arith}
use dng_preflight.Base.Float.{finite}
use dng_preflight.Discovery.Tls
use dng_preflight.Discovery.Tls.{Tls, Certificate, rsa, fetch_peer_cert}
use dng_preflight.Discovery.Observed.{IsObserved, probe-IsObserved}
use dng_preflight.Discovery.Sntp.{ntp_epoch_offset, unpack, server_time, unix_seconds}
use dng_preflight.Discovery.Clock.{timestamp, timestamp-near, era_end, unix_seconds-era_iff}
use dng_preflight.Base.{unicode_error, Error}
use dng_preflight.Models.Snapshot.{DnsResolution}
use dng_preflight.Base.{
  index_error, ◌≡◌, refl, ◌≤◌, ◌↔◌, ◌⊎◌, String, true, none, some, List, [], ◌∷◌, ok, err, ◌==◌,
  if◌then◌else◌,
}
use dng_preflight.Base.Text.{splitlines, strip, has_char, split_once}
use dng_preflight.Base.Words.{starts_with, has_text, lower, strip_of}
use dng_preflight.Base.Int.{pos}
use dng_preflight.Models.Snapshot.{EnvironmentSnapshot, detected, not_detected, ufw}
use dng_preflight.Validation.HardStops.{resolves}
use dng_preflight.Discovery.Host.{Host, completed, absent, contents}
use dng_preflight.Discovery.System.{detect_domain_joined, assignment, read_assignments}
use dng_preflight.Discovery.Realms
use dng_preflight.Discovery.Sections.{IsRealmFile}
use dng_preflight.Discovery.Realms.{IsListed, detect_domain_joined_iff}
use dng_preflight.Discovery.TimeSync
use dng_preflight.Discovery.Peers
use dng_preflight.Discovery.Peers.{IsStuck, probe-raises_iff}
use dng_preflight.Discovery.TimeSync.{timesyncd, ntpq_source}
use dng_preflight.Discovery.Firewall
use dng_preflight.Discovery.Reported.{IsReported, probe-IsReported}
use dng_preflight.Discovery.Dns
use dng_preflight.Discovery.Dns.{Resolver, public_resolvers}
use dng_preflight.Discovery.Resolution
use dng_preflight.Discovery.Resolution.{SomeAnswers, probe-resolves_iff}
use dng_preflight.Discovery.Aggregator.{Probes, per_probe_timeout, gather, collect, run_group}
use dng_preflight.Discovery.Budget.{collect-at}
use dng_preflight.Discovery.Collected.{IsCollected, collect-ok_iff}
use dng_preflight.Examples.Sample.{snapshot}

abbrev krb5_conf : String
krb5_conf = "# comment\n[libdefaults]\n dns = false\n[Realms]\n; none yet\n EXAMPLE.COM = {\n"

abbrev pub host : Host
host = record {
  which = λ command. if command == "ufw" then some "/usr/sbin/ufw" else none;
  run = λ _. completed (record { returncode = pos 0; stdout = "Status: active\n" });
  file = λ path. if path == "/etc/krb5.conf" then contents krb5_conf else absent;
  is_dir = λ _. true;
  system = "Linux";
  release = "6.8.0-31-generic";
  machine = "x86_64";
  total_memory = 8589934592;
  os_cpu_count = some 4;
  psutil_cpu_count = none;
  docker_group = none;
  groups = [];
  login = none;
  net_if_addrs = [];
  net_connections = none;
  get = λ _. none;
  exchange = λ _ _ _. none;
}

joined : detect_domain_joined host ≡ ok true
unfolding detect_domain_joined splitlines strip starts_with lower has_char
joined = refl

detect_domain_joined_iff_example :
    ((detect_domain_joined host ≡ ok true)
      ↔ ((¬ Realms.IsGarbled host) × (IsListed host ⊎ IsRealmFile (host.file "/etc/krb5.conf"))))
    × ((e : Error)
        → (detect_domain_joined host ≡ err e) ↔ ((e ≡ unicode_error) × Realms.IsGarbled host))
detect_domain_joined_iff_example = detect_domain_joined_iff host

ufw_active : Firewall.probe host ≡ ok (detected (record { kind = ufw; active = true }))
unfolding Firewall.probe has_text strip
ufw_active = refl

probe-IsReported_example : IsReported host (Firewall.probe host)
probe-IsReported_example = probe-IsReported host

abbrev os_release : List String
os_release = "# generated" ∷ "ID=ubuntu" ∷ "VERSION_ID=\"24.04\"" ∷ "ID=debian" ∷ []

last_assignment : read_assignments [] os_release ≡ ("ID", "debian") ∷ ("VERSION_ID", "24.04") ∷ []
unfolding read_assignments assignment strip starts_with split_once strip_of
last_assignment = refl

-- Only one public resolver answers, out of order.
abbrev pub resolver : Resolver
resolver = record {
  resolve = λ nameservers _ rdtype _.
      if contains nameservers "8.8.8.8" && rdtype == "A"
      then some ("203.0.113.10" ∷ "198.51.100.7" ∷ [])
      else if rdtype == "PTR"
      then some ("dng.example.com." ∷ [])
      else none;
  reverse_name = λ ip. some "7.100.51.198.in-addr.arpa.";
}

probe-resolves_iff_example :
    ((e : Error)
      → (Dns.probe resolver host "dng.example.com" ≡ err e)
        ↔ ((e ≡ unicode_error) × Resolution.IsGarbled resolver "dng.example.com" host))
    × ((s : DnsResolution)
        → Dns.probe resolver host "dng.example.com" ≡ ok s
        → (resolves s ≡ true) ↔ (
            SomeAnswers resolver "dng.example.com" "A" public_resolvers
            ⊎ SomeAnswers resolver "dng.example.com" "AAAA" public_resolvers))
probe-resolves_iff_example = probe-resolves_iff resolver "dng.example.com" host

looked_up :
    Dns.probe resolver host "dng.example.com"
    ≡ ok (record {
      hostname = "dng.example.com";
      a_records =
          ("1.1.1.1", [])
          ∷ ("8.8.8.8", "198.51.100.7" ∷ "203.0.113.10" ∷ [])
          ∷ ("9.9.9.9", [])
          ∷ [];
      aaaa_records = ("1.1.1.1", []) ∷ ("8.8.8.8", []) ∷ ("9.9.9.9", []) ∷ [];
      reverse_ptr = some "dng.example.com";
      local_resolvers = [];
    })
unfolding Dns.probe
looked_up = refl

-- The docker probe hangs.
abbrev probes : Probes
probes = record {
  system = record { ends = some 40; result = ok snapshot.system };
  docker = record { ends = none; result = ok snapshot.docker };
  network = record { ends = some 4100; result = ok snapshot.network };
  dns = record { ends = some 3000; result = ok snapshot.dns };
  tls = record { ends = some 12; result = ok snapshot.tls };
  time_sync = record { ends = some 3000; result = ok snapshot.time_sync };
  firewall = record { ends = some 90; result = ok snapshot.firewall };
  duo = record { ends = some 700; result = ok snapshot.duo_reachability };
}

abbrev taken : EnvironmentSnapshot
taken = record snapshot { docker = not_detected "docker probe exceeded 10s timeout" }

collects : (collect probes "2026-04-01T12:00:00Z" "dng.example.com").result ≡ ok taken
unfolding collect
collects = refl

collect-at_example :
    ((collect probes "now" "dng.example.com").at ≤ per_probe_timeout)
    × (collect probes "now" "dng.example.com"
        ≡ run_group probes "now" "dng.example.com" (gather probes))
collect-at_example = collect-at probes "now" "dng.example.com"

collect-ok_iff_example :
    ((collect probes "2026-04-01T12:00:00Z" "dng.example.com").result ≡ ok taken) ↔ (
      (taken.captured_at ≡ "2026-04-01T12:00:00Z")
      × (taken.hostname_planned ≡ "dng.example.com")
      × IsCollected probes taken)
collect-ok_iff_example = collect-ok_iff probes "2026-04-01T12:00:00Z" "dng.example.com" taken

-- `CanNTP=yes` passes for `NTP=yes`.
can_ntp : timesyncd (some "CanNTP=yes\nNTP=no\nNTPSynchronized=no\n") ≡ ("systemd-timesyncd", none)
unfolding timesyncd has_text
can_ntp = refl

-- A row of ntpq that is an asterisk alone raises.
bare_peer : ntpq_source ("     remote" ∷ "*" ∷ []) ≡ err index_error
unfolding ntpq_source starts_with
bare_peer = refl

-- A host with ntpd only, which lists a bare asterisk.
abbrev ntpd_host : Host
ntpd_host = record host {
  which = λ command. if command == "ntpq" then some "/usr/bin/ntpq" else none;
  run = λ _. completed (record { returncode = pos 0; stdout = "     remote\n*\n" });
}

ntpd_raises : TimeSync.probe ntpd_host ≡ err index_error
unfolding TimeSync.probe ntpq_source starts_with splitlines
ntpd_raises = refl

probe-raises_iff_example : (TimeSync.probe ntpd_host ≡ err index_error) ↔ (
    ((index_error ≡ unicode_error) × Peers.IsGarbled ntpd_host)
    ⊎ ((index_error ≡ index_error) × IsStuck ntpd_host))
probe-raises_iff_example = probe-raises_iff ntpd_host index_error

abbrev pub certificate : Certificate
certificate = record {
  public_key = ok (rsa 2048);
  common_names = ok ("old.example.com" ∷ []);
  alternative_names = ok (some ("www.example.com" ∷ "dng.example.com" ∷ []));
  not_valid_before = ok "2026-01-01T00:00:00+00:00";
  not_valid_after = ok "2026-04-01T00:00:00+00:00";
  issuer = ok "CN=Test CA";
}

abbrev pub server : Tls
server = record {
  Der = Unit {0};
  getpeercert = λ _ _ _ _. some tt;
  load_der = λ _. some certificate;
}

observed :
    Tls.probe server
    ≡ ok (record {
      answers_on_443 = true;
      cn = some "old.example.com";
      sans = "dng.example.com" ∷ "www.example.com" ∷ [];
      not_before = some "2026-01-01T00:00:00+00:00";
      not_after = some "2026-04-01T00:00:00+00:00";
      issuer = some "CN=Test CA";
      key_algorithm = some "RSA-2048";
    })
unfolding Tls.probe
observed = refl

probe-IsObserved_example : IsObserved server (some tt) (Tls.probe server)
unfolding fetch_peer_cert
probe-IsObserved_example = probe-IsObserved server

-- Half a second into 2024.
timestamp-near_example :
    (m : ℕ) × (map_result server_time (unpack (timestamp 1704067200 2147483648))
      ≡ ok (finite false m 32))
    × (m ≤ 1704067200 * 2 ^ 32 + 2147483648 + 2 ^ 9)
    × (1704067200 * 2 ^ 32 + 2147483648 ≤ m + 2 ^ 9)
timestamp-near_example = timestamp-near 1704067200 2147483648 (omega arith) (omega arith)

-- 8 February 2036.
unix_seconds-era_iff_example :
    (unix_seconds ((2086041600 + ntp_epoch_offset) % 2 ^ 32) ≡ pos 2086041600)
    ↔ (2086041600 < era_end)
unix_seconds-era_iff_example = unix_seconds-era_iff 2086041600
