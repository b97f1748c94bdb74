-- ===== src/Discovery/Whole.antt =====
-- The snapshot that `collect` of discovery/aggregator.py takes of a machine whose probes are in time.
use dng_preflight.Base.{
  ◌≡◌, ap, ◌↔◌, ◌⊎◌, inl, inr, String, ok, err, timeout_error, ok-injective, Result,
}
use dng_preflight.Models.Snapshot.{EnvironmentSnapshot, Probed}
use dng_preflight.Discovery.System
use dng_preflight.Discovery.Docker
use dng_preflight.Discovery.Network
use dng_preflight.Discovery.Dns
use dng_preflight.Discovery.Tls
use dng_preflight.Discovery.TimeSync
use dng_preflight.Discovery.Firewall
use dng_preflight.Discovery.Duo
use dng_preflight.Discovery.Legible.{IsLegible, Returned, Docker-Returned, Firewall-Returned}
use dng_preflight.Discovery.Peers.{probe-raises_iff}
use dng_preflight.Discovery.Machine.{Machine, network_at, duo_at, probes_of, collect_on}
use dng_preflight.Discovery.Aggregator.{Coroutine}
use dng_preflight.Discovery.Collected.{IsEarly, Delivers, IsCutOff, collect-ok_iff}

-- Every probe ends within its budget.
pub record IsPrompt (machine : Machine) : Type 0 where
  pub system : IsEarly machine.durations.system
  pub docker : IsEarly machine.durations.docker
  pub network : IsEarly (network_at machine)
  pub dns : IsEarly machine.durations.dns
  pub tls : IsEarly machine.durations.tls
  pub time_sync : IsEarly machine.durations.time_sync
  pub firewall : IsEarly machine.durations.firewall
  pub duo : IsEarly (duo_at machine)

-- Every part of the snapshot is what its probe returns.
pub record IsTaken (machine : Machine) (hostname : String) (s : EnvironmentSnapshot) : Type 0 where
  pub system : System.probe machine.host ≡ ok s.system
  pub docker : Docker.probe machine.host ≡ ok s.docker
  pub network : Network.probe machine.host ≡ ok s.network
  pub dns : Dns.probe machine.resolver machine.host hostname ≡ ok s.dns
  pub tls : Tls.probe machine.tls ≡ ok s.tls
  pub time_sync : TimeSync.probe machine.host ≡ ok s.time_sync
  pub firewall : Firewall.probe machine.host ≡ ok s.firewall
  pub duo : Duo.probe machine.head ≡ s.duo_reachability

-- A probe that ends in time and does not raise `TimeoutError` is not cut off.
Delivers-result :
    {A : Type 0} (coro : Coroutine (Probed A)) (label : String) (found : Probed A)
    → IsEarly coro.ends
    → ¬ (coro.result ≡ err timeout_error)
    → Delivers coro found ⊎ IsCutOff label coro found
    → coro.result ≡ ok found
Delivers-result coro label found early fine (inl (_, same)) = same
Delivers-result coro label found early fine (inr (inl late, _)) = absurd (late early)
Delivers-result coro label found early fine (inr (inr cut, _)) = absurd (fine cut)

ne-timeout : {A : Type 0} (r : Result A) → Returned r → ¬ (r ≡ err timeout_error)
ne-timeout r (a, same) h = cc (same, h)

module _ (machine : Machine) (hostname : String) (prompt : IsPrompt machine)
    (legible : IsLegible machine) where
  clock-ne-timeout : ¬ (TimeSync.probe machine.host ≡ err timeout_error)
  clock-ne-timeout h = elim ((probe-raises_iff machine.host timeout_error).0 h) [
    | inl (bad, _) ↦ cc bad
    | inr (bad, _) ↦ cc bad
  ]

  pub collect_on-ok_iff :
      (captured_at : String) (s : EnvironmentSnapshot)
      → ((collect_on machine captured_at hostname).result ≡ ok s) ↔ (
          (s.captured_at ≡ captured_at)
          × (s.hostname_planned ≡ hostname)
          × IsTaken machine hostname s)
  unfolding collect_on
  collect_on-ok_iff captured_at s =
      let probes = probes_of machine hostname in
      let (to, from) = collect-ok_iff probes captured_at hostname s in
      (
        (λ h.
            let (a, b, c) = to h in
            (
              a,
              b,
              record {
                system = c.system.1;
                docker =
                    Delivers-result probes.docker "docker" s.docker prompt.docker
                      (ne-timeout (Docker.probe machine.host)
                        (Docker-Returned machine.host legible.host))
                      c.docker;
                network = c.network.1;
                dns = c.dns.1;
                tls = c.tls.1;
                time_sync =
                    Delivers-result probes.time_sync "time_sync" s.time_sync prompt.time_sync
                      clock-ne-timeout c.time_sync;
                firewall =
                    Delivers-result probes.firewall "firewall" s.firewall prompt.firewall
                      (ne-timeout (Firewall.probe machine.host)
                        (Firewall-Returned machine.host legible.host))
                      c.firewall;
                duo = ok-injective _ _ c.duo.1;
              },
            )),
        (λ (a, b, c). from (
          a,
          b,
          record {
            system = (prompt.system, c.system);
            docker = inl (prompt.docker, c.docker);
            network = (prompt.network, c.network);
            dns = (prompt.dns, c.dns);
            tls = (prompt.tls, c.tls);
            time_sync = inl (prompt.time_sync, c.time_sync);
            firewall = inl (prompt.firewall, c.firewall);
            duo = (prompt.duo, ap ok c.duo);
          },
        )),
      )
