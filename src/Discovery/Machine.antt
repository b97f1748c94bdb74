-- ===== src/Discovery/Machine.antt =====
-- The probes that `collect` of discovery/aggregator.py starts, on one machine.
use dng_preflight.Base.{ℕ, String, Option, ok}
use dng_preflight.Models.Snapshot.{EnvironmentSnapshot}
use dng_preflight.Discovery.Host.{Host}
use dng_preflight.Discovery.System
use dng_preflight.Discovery.Docker
use dng_preflight.Discovery.Network
use dng_preflight.Discovery.Dns
use dng_preflight.Discovery.Dns.{Resolver}
use dng_preflight.Discovery.Tls
use dng_preflight.Discovery.Tls.{Tls}
use dng_preflight.Discovery.TimeSync
use dng_preflight.Discovery.Firewall
use dng_preflight.Discovery.Duo
use dng_preflight.Discovery.Duo.{Response}
use dng_preflight.Discovery.Timed.{network_ends, duo_ends}
use dng_preflight.Discovery.Aggregator.{Finished, Probes, collect}

-- How long the probes take, if they end, in milliseconds.
pub record Durations : Type 0 where
  pub system : Option ℕ
  pub docker : Option ℕ
  -- Interfaces, listening ports and the default route.
  pub local_network : Option ℕ
  -- The GET of a URL.
  pub get : String → Option ℕ
  pub dns : Option ℕ
  pub tls : Option ℕ
  pub time_sync : Option ℕ
  pub firewall : Option ℕ
  -- The HEAD of a URL.
  pub head : String → Option ℕ

-- All that the probes read, and how long they take.
pub record Machine : Type 1 where
  pub host : Host
  pub tls : Tls
  pub resolver : Resolver
  -- How an HTTPS HEAD of a URL ends.
  pub head : String → Response
  pub durations : Durations

module _ (machine : Machine) where
  open machine use {host, tls, resolver, head, durations}

  -- When the probe of the network ends, and that of Duo's endpoints.
  abbrev pub network_at : Option ℕ
  network_at = network_ends durations.get durations.local_network host

  abbrev pub duo_at : Option ℕ
  duo_at = duo_ends durations.head

  -- The coroutines `system_probe.probe()` and so on.
  abbrev pub probes_of : (hostname : String) → Probes
  probes_of hostname = record {
    system = record { ends = durations.system; result = System.probe host };
    docker = record { ends = durations.docker; result = Docker.probe host };
    network = record { ends = network_at; result = Network.probe host };
    dns = record { ends = durations.dns; result = Dns.probe resolver host hostname };
    tls = record { ends = durations.tls; result = Tls.probe tls };
    time_sync = record { ends = durations.time_sync; result = TimeSync.probe host };
    firewall = record { ends = durations.firewall; result = Firewall.probe host };
    duo = record { ends = duo_at; result = ok (Duo.probe head) };
  }

  -- `collect(hostname)` at the time `captured_at`.
  unfoldable pub collect_on : (captured_at hostname : String) → Finished EnvironmentSnapshot
  collect_on captured_at hostname = collect (probes_of hostname) captured_at hostname
