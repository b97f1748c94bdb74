-- ===== src/Discovery/Dropped.antt =====
-- Hosts whose outgoing traffic is dropped: the requests of discovery/network.py and of
-- discovery/duo_reachability.py run into their timeouts, one after another.
use dng_preflight.Base.{
  ℕ, ◌+◌, ◌≤◌, ◌≡◌, ◌⊎◌, sym, ap, ◌∙◌, inl, inr, String, Option, none, some, List, [], ◌∷◌, All,
  err, Result-cases, exception_group, arith, ok, Error, false,
}
use dng_preflight.Discovery.Host.{Host}
use dng_preflight.Discovery.Network.{address_in, egress_urls, default_route_iface}
use dng_preflight.Discovery.Network
use dng_preflight.Models.Snapshot.{NetworkInfo}
use dng_preflight.Discovery.Duo.{endpoints}
use dng_preflight.Discovery.Timed.{followed_by, egress_ends, network_ends, heads_end, raises}
use dng_preflight.Discovery.Machine.{Machine, network_at, duo_at, probes_of, collect_on}
use dng_preflight.Discovery.Budget.{collect-err}
use dng_preflight.Discovery.Collected.{IsEarly, collect-ok_iff}

-- `_EGRESS_TIMEOUT_S` and `_TIMEOUT_S`
abbrev pub request_timeout : ℕ
request_timeout = 4000

-- The sum of the timeouts of these requests.
abbrev timeouts : List String → ℕ
timeouts [] = 0
timeouts (url ∷ urls) = request_timeout + timeouts urls

-- It takes at least this long, if it ends.
abbrev pub Takes : ℕ → Option ℕ → Type 0
Takes n none = Unit
Takes n (some t) = n ≤ t

-- No service gives an address, and each request takes the whole timeout.
abbrev pub IsDropped : Machine → Type 0
IsDropped machine =
    All
      (λ url.
        (address_in (machine.host.get url) ≡ none)
        × Takes request_timeout (machine.durations.get url))
      egress_urls

-- The request to each of Duo's endpoints takes the whole timeout.
abbrev pub IsUnreachable : Machine → Type 0
IsUnreachable machine = All (λ url. Takes request_timeout (machine.durations.head url)) endpoints

followed_by-Takes :
    (m n : ℕ) (first later : Option ℕ)
    → Takes m first
    → Takes n later
    → Takes (m + n) (followed_by first later)
followed_by-Takes m n none later h k = tt
followed_by-Takes m n (some t) none h k = tt
followed_by-Takes m n (some t) (some u) h k = omega arith

Takes-zero : (ends : Option ℕ) → Takes 0 ends
Takes-zero none = tt
Takes-zero (some t) = omega arith

Takes-late : (n : ℕ) (ends : Option ℕ) → 10000 ≤ n → Takes n ends → ¬ IsEarly ends
Takes-late n none big h = λ early. early
Takes-late n (some t) big h = λ early. omega arith

module _ (took : String → Option ℕ) where
  egress_ends-Takes :
      (get : String → Option (ℕ × String)) (urls : List String)
      → All (λ url. (address_in (get url) ≡ none) × Takes request_timeout (took url)) urls
      → Takes (timeouts urls) (egress_ends took get urls)
  unfolding egress_ends
  egress_ends-Takes get [] all = omega arith
  egress_ends-Takes get (url ∷ urls) ((silent, whole), all) = rw silent (
      followed_by-Takes request_timeout (timeouts urls) (took url) _ whole
        (egress_ends-Takes get urls all))

  heads_end-Takes :
      (urls : List String)
      → All (λ url. Takes request_timeout (took url)) urls
      → Takes (timeouts urls) (heads_end took urls)
  unfolding heads_end
  heads_end-Takes [] all = omega arith
  heads_end-Takes (url ∷ urls) (whole, all) =
      followed_by-Takes request_timeout (timeouts urls) (took url) _ whole
        (heads_end-Takes urls all)

  network_ends-Takes :
      (gathered : Option ℕ) (host : Host)
      → raises (default_route_iface host) ≡ false
      → All
          (λ url. (address_in (host.get url) ≡ none) × Takes request_timeout (took url))
          egress_urls
      → Takes 12000 (network_ends took gathered host)
  unfolding network_ends
  network_ends-Takes gathered host routed all = rw routed (
      followed_by-Takes 0 12000 gathered _ (Takes-zero gathered)
        (egress_ends-Takes host.get egress_urls all))

module _ (machine : Machine) (captured_at hostname : String) where
  late-err :
      ((¬ IsEarly (network_at machine))
        ⊎ ((¬ IsEarly (duo_at machine))
            ⊎ ((n : NetworkInfo) → ¬ (Network.probe machine.host ≡ ok n))))
      → (collect_on machine captured_at hostname).result ≡ err exception_group
  unfolding collect_on
  late-err late = elim (Result-cases (collect_on machine captured_at hostname).result) [
    | inr (e, failed) ↦
        failed
        ∙ ap err (sym (collect-err (probes_of machine hostname) captured_at hostname e failed))
    | inl (s, found) ↦
        let (_, _, c) =
          (collect-ok_iff (probes_of machine hostname) captured_at hostname s).0 found in
        absurd (elim late [
          | inl h ↦ h c.network.0
          | inr (inl h) ↦ h c.duo.0
          | inr (inr h) ↦ h s.network c.network.1
        ])
  ]

  -- The probe of the network raises where the default route cannot be read.
  unrouted :
      (e : Error)
      → default_route_iface machine.host ≡ err e
      → (n : NetworkInfo) → ¬ (Network.probe machine.host ≡ ok n)
  unfolding Network.probe
  unrouted e failed n h = cc (rw failed at h)

  -- Where none of the three egress services gives an address and each request to them takes its
  -- whole timeout of 4 s, or each request to Duo's three endpoints does, no snapshot is collected:
  -- the group of tasks raises its exception.
  pub collect_on-IsDropped :
      IsDropped machine ⊎ IsUnreachable machine
      → (collect_on machine captured_at hostname).result ≡ err exception_group
  collect_on-IsDropped (inl dropped) = elim (Result-cases (default_route_iface machine.host)) [
    | inr (e, failed) ↦ late-err (inr (inr (unrouted e failed)))
    | inl (iface, found) ↦ late-err (
        inl (
          Takes-late 12000 (network_at machine) (omega arith) (
            network_ends-Takes machine.durations.get machine.durations.local_network machine.host
              (ap raises found) dropped)))
  ]
  collect_on-IsDropped (inr unreachable) = late-err (
      inr (
        inl (
          Takes-late 12000 (duo_at machine) (omega arith)
            (heads_end-Takes machine.durations.head endpoints unreachable))))
