-- ===== src/Discovery/Aggregator.antt =====
-- discovery/aggregator.py, with time in milliseconds. A probe that ends exactly at its budget
-- counts as late.
use dng_preflight.Base.{
  ℕ, String, ◌<>◌, Bool, true, false, Option, none, some, Result, ok, err, Error, timeout_error,
  exception_group, map_result, ltb, leb, if◌then◌else◌,
}
use dng_preflight.Models.Snapshot.{
  EnvironmentSnapshot, SystemInfo, DockerInfo, NetworkInfo, DnsResolution, TlsObservation,
  TimeSyncState, FirewallState, DuoReachability, Probed, not_detected,
}

-- What a coroutine would do on its own: when it ends, if it does, and how.
pub record Coroutine (A : Type 0) : Type 0 where
  pub ends : Option ℕ
  pub result : Result A

-- A coroutine under a timeout: it ends.
pub record Finished (A : Type 0) : Type 0 where
  pub at : ℕ
  pub result : Result A

abbrev pub per_probe_timeout : ℕ
per_probe_timeout = 10000

abbrev pub total_budget : ℕ
total_budget = 30000

abbrev pub timeout_reason : String → String
timeout_reason label = label <> " probe exceeded 10s timeout"

abbrev pub is_timeout : Error → Bool
is_timeout timeout_error = true
is_timeout _ = false

module _ {A : Type 0} where
  abbrev late : ℕ → Finished A
  late budget = record { at = budget; result = err timeout_error }

  -- `asyncio.wait_for`
  abbrev pub wait_until : ℕ → Option ℕ → Result A → Finished A
  wait_until budget none result = late budget
  wait_until budget (some t) result =
      if ltb t budget then record { at = t; result = result } else late budget

  abbrev pub wait_for : ℕ → Coroutine A → Finished A
  wait_for budget coro = wait_until budget coro.ends coro.result

  -- `_required`
  unfoldable pub required : Coroutine A → Finished A
  required coro = wait_for per_probe_timeout coro

  -- `except TimeoutError`
  abbrev pub downgrade : String → Result (Probed A) → Result (Probed A)
  downgrade label (ok found) = ok found
  downgrade label (err e) = if is_timeout e then ok (not_detected (timeout_reason label)) else err e

abbrev changed : {A : Type 0} → (Result A → Result A) → Finished A → Finished A
changed f done = record { at = done.at; result = f done.result }

-- `_optional`
unfoldable pub optional : {A : Type 0} → Coroutine (Probed A) → String → Finished (Probed A)
optional coro label = changed (downgrade label) (wait_for per_probe_timeout coro)

abbrev larger : ℕ → ℕ → ℕ
larger a b = if leb a b then b else a

abbrev smaller : ℕ → ℕ → ℕ
smaller a b = if leb a b then a else b

-- Two tasks of a group: both results, or the group's exception as soon as one has failed.
abbrev pub join_at : {A B : Type 0} → ℕ → ℕ → Result A → Result B → Finished (A × B)
join_at s t (ok a) (ok b) = record { at = larger s t; result = ok (a, b) }
join_at s t (err e) (ok b) = record { at = s; result = err exception_group }
join_at s t (ok a) (err e) = record { at = t; result = err exception_group }
join_at s t (err e) (err f) = record { at = smaller s t; result = err exception_group }

abbrev pub both : {A B : Type 0} → Finished A → Finished B → Finished (A × B)
both p q = join_at p.at q.at p.result q.result

pub record Probes : Type 0 where
  pub system : Coroutine SystemInfo
  pub docker : Coroutine (Probed DockerInfo)
  pub network : Coroutine NetworkInfo
  pub dns : Coroutine DnsResolution
  pub tls : Coroutine TlsObservation
  pub time_sync : Coroutine (Probed TimeSyncState)
  pub firewall : Coroutine (Probed FirewallState)
  pub duo : Coroutine DuoReachability

abbrev pub Found : Type 0
Found =
    SystemInfo
    × (Probed DockerInfo
        × (NetworkInfo
            × (DnsResolution
                × (TlsObservation
                    × (Probed TimeSyncState × (Probed FirewallState × DuoReachability))))))

module _ (probes : Probes) where
  -- The tasks of the group.
  unfoldable pub gather : Finished Found
  unfolding required optional
  gather = both (required probes.system) (
      both (optional probes.docker "docker") (
        both (required probes.network) (
          both (required probes.dns) (
            both (required probes.tls) (
              both (optional probes.time_sync "time_sync")
                (both (optional probes.firewall "firewall") (required probes.duo)))))))

  abbrev pub snapshot_of : (captured_at hostname : String) → Found → EnvironmentSnapshot
  snapshot_of captured_at hostname
        (system, (docker, (network, (dns, (tls, (time_sync, (firewall, duo))))))) =
      record {
        captured_at = captured_at;
        hostname_planned = hostname;
        system = system;
        docker = docker;
        network = network;
        dns = dns;
        tls = tls;
        time_sync = time_sync;
        firewall = firewall;
        duo_reachability = duo;
      }

  abbrev pub run_group :
      (captured_at hostname : String) → Finished Found → Finished EnvironmentSnapshot
  run_group captured_at hostname found = record {
    at = found.at;
    result = map_result (snapshot_of captured_at hostname) found.result;
  }

  -- `collect`, at the time `captured_at`.
  unfoldable pub collect : (captured_at hostname : String) → Finished EnvironmentSnapshot
  unfolding gather
  collect captured_at hostname =
      let group = run_group captured_at hostname gather in
      wait_for total_budget (record { ends = some group.at; result = group.result })
