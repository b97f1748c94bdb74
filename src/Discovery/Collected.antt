-- ===== src/Discovery/Collected.antt =====
-- When a collection of discovery/aggregator.py succeeds, and with which snapshot.
use dng_preflight.Base.{
  ok-injective, ℕ, ◌<◌, ◌≡◌, refl, sym, ◌∙◌, ap, ◌↔◌, ◌⊎◌, String, true, Option, none, some, Result,
  ok, err, Error, timeout_error, arith, map_result,
}
use dng_preflight.Models.Snapshot.{EnvironmentSnapshot, Probed, not_detected}
use dng_preflight.Discovery.Aggregator.{
  Coroutine, Finished, Probes, Found, per_probe_timeout, wait_until, required, optional, is_timeout,
  downgrade, both, join_at, gather, collect, snapshot_of, timeout_reason,
}
use dng_preflight.Discovery.Budget.{collect-at}

-- The coroutine ends within the probe's budget.
abbrev pub IsEarly : Option ℕ → Type 0
IsEarly none = ⊥
IsEarly (some t) = t < per_probe_timeout

-- It returns this value in time.
abbrev pub Delivers : {A : Type 0} → Coroutine A → A → Type 0
Delivers coro a = IsEarly coro.ends × (coro.result ≡ ok a)

-- It is cut off, or raises `TimeoutError` itself, and this stands for what it would have found.
abbrev pub IsCutOff : {A : Type 0} → String → Coroutine (Probed A) → Probed A → Type 0
IsCutOff label coro found =
    ((¬ IsEarly coro.ends) ⊎ (coro.result ≡ err timeout_error))
    × (found ≡ not_detected (timeout_reason label))

wait_until-ok_iff :
    {A : Type 0} (ends : Option ℕ) (r : Result A) (a : A)
    → ((wait_until per_probe_timeout ends r).result ≡ ok a) ↔ (IsEarly ends × (r ≡ ok a))
wait_until-ok_iff none r a = (λ h. cc, λ h. absurd h.0)
wait_until-ok_iff (some t) r a = ground arith

required-ok_iff :
    {A : Type 0} (coro : Coroutine A) (a : A) → ((required coro).result ≡ ok a) ↔ Delivers coro a
unfolding required
required-ok_iff coro a = wait_until-ok_iff coro.ends coro.result a

is_timeout_iff : (e : Error) → (is_timeout e ≡ true) ↔ (e ≡ timeout_error)
is_timeout_iff timeout_error = (λ _. refl, λ _. refl)
is_timeout_iff _ = (λ h. cc, λ h. cc)

downgrade-ok_iff :
    {A : Type 0} (label : String) (r : Result (Probed A)) (found : Probed A)
    → (downgrade label r ≡ ok found)
      ↔ ((r ≡ ok found) ⊎ (r ≡ err timeout_error) × (found ≡ not_detected (timeout_reason label)))
downgrade-ok_iff label (ok x) found = ground arith
downgrade-ok_iff label (err e) found = ground (arith, is_timeout_iff e)

wait_until-downgrade_iff :
    {A : Type 0} (ends : Option ℕ) (r : Result (Probed A)) (label : String) (found : Probed A)
    → (downgrade label (wait_until per_probe_timeout ends r).result ≡ ok found) ↔ (
        (IsEarly ends × (r ≡ ok found))
        ⊎ ((¬ IsEarly ends) ⊎ (r ≡ err timeout_error))
          × (found ≡ not_detected (timeout_reason label)))
wait_until-downgrade_iff none r label found = ground arith
wait_until-downgrade_iff (some t) r label found = ground (arith, downgrade-ok_iff label r found)

optional-ok_iff :
    {A : Type 0} (coro : Coroutine (Probed A)) (label : String) (found : Probed A)
    → ((optional coro label).result ≡ ok found) ↔ (Delivers coro found ⊎ IsCutOff label coro found)
unfolding optional
optional-ok_iff coro label found = wait_until-downgrade_iff coro.ends coro.result label found

join_at-ok_iff :
    {A B : Type 0} (s t : ℕ) (p : Result A) (q : Result B) (a : A) (b : B)
    → ((join_at s t p q).result ≡ ok (a, b)) ↔ ((p ≡ ok a) × (q ≡ ok b))
join_at-ok_iff s t (ok x) (ok y) a b = ground arith
join_at-ok_iff s t (ok x) (err e) a b = ground arith
join_at-ok_iff s t (err e) (ok y) a b = ground arith
join_at-ok_iff s t (err e) (err f) a b = ground arith

both-ok_iff :
    {A B : Type 0} (p : Finished A) (q : Finished B) (a : A) (b : B)
    → ((both p q).result ≡ ok (a, b)) ↔ ((p.result ≡ ok a) × (q.result ≡ ok b))
both-ok_iff p q a b = join_at-ok_iff p.at q.at p.result q.result a b

-- A task whose results are described by a predicate.
abbrev Known : Type 0 → Type 1
Known A = (done : Finished A) × (P : A → Type 0) × ((a : A) → (done.result ≡ ok a) ↔ P a)

abbrev known_required : {A : Type 0} → Coroutine A → Known A
known_required coro = (required coro, Delivers coro, required-ok_iff coro)

abbrev known_optional : {A : Type 0} → Coroutine (Probed A) → String → Known (Probed A)
known_optional coro label = (
  optional coro label,
  (λ found. Delivers coro found ⊎ IsCutOff label coro found),
  optional-ok_iff coro label,
)

abbrev known_both : {A B : Type 0} → Known A → Known B → Known (A × B)
known_both (p, P, h) (q, Q, k) = (
  both p q,
  (λ ab. P ab.0 × Q ab.1),
  λ ab. (
    λ e. let (a, b) = (both-ok_iff p q ab.0 ab.1).0 e in ((h ab.0).0 a, (k ab.1).0 b),
    λ x. (both-ok_iff p q ab.0 ab.1).1 ((h ab.0).1 x.0, (k ab.1).1 x.1),
  ),
)

-- Every required probe delivers its part, and every optional one delivers or is cut off.
pub record IsCollected (probes : Probes) (s : EnvironmentSnapshot) : Type 0 where
  pub system : Delivers probes.system s.system
  pub docker : Delivers probes.docker s.docker ⊎ IsCutOff "docker" probes.docker s.docker
  pub network : Delivers probes.network s.network
  pub dns : Delivers probes.dns s.dns
  pub tls : Delivers probes.tls s.tls
  pub time_sync :
      Delivers probes.time_sync s.time_sync ⊎ IsCutOff "time_sync" probes.time_sync s.time_sync
  pub firewall :
      Delivers probes.firewall s.firewall ⊎ IsCutOff "firewall" probes.firewall s.firewall
  pub duo : Delivers probes.duo s.duo_reachability

abbrev found_of : EnvironmentSnapshot → Found
found_of s = (
  s.system,
  (s.docker, (s.network, (s.dns, (s.tls, (s.time_sync, (s.firewall, s.duo_reachability)))))),
)

gather-IsCollected_iff :
    (probes : Probes) (s : EnvironmentSnapshot)
    → ((gather probes).result ≡ ok (found_of s)) ↔ IsCollected probes s
unfolding gather
gather-IsCollected_iff probes s =
    let known = known_both (known_required probes.system) (
      known_both (known_optional probes.docker "docker") (
        known_both (known_required probes.network) (
          known_both (known_required probes.dns) (
            known_both (known_required probes.tls) (
              known_both (known_optional probes.time_sync "time_sync") (
                known_both (known_optional probes.firewall "firewall")
                  (known_required probes.duo))))))) in
    let (to, from) = known.2 (found_of s) in
    (
      λ h.
          let (a, (b, (c, (d, (e, (f, (g, k))))))) = to h in
          record {
            system = a;
            docker = b;
            network = c;
            dns = d;
            tls = e;
            time_sync = f;
            firewall = g;
            duo = k;
          },
      λ x.
          from (
            x.system,
            (x.docker, (x.network, (x.dns, (x.tls, (x.time_sync, (x.firewall, x.duo)))))),
          ),
    )

map_result-ok_iff :
    (probes : Probes) (captured_at hostname : String) (r : Result Found) (s : EnvironmentSnapshot)
    → (map_result (snapshot_of probes captured_at hostname) r ≡ ok s)
      ↔ ((s.captured_at ≡ captured_at) × (s.hostname_planned ≡ hostname) × (r ≡ ok (found_of s)))
map_result-ok_iff probes captured_at hostname (ok found) s = (
  λ h.
      let e = ok-injective (snapshot_of probes captured_at hostname found) s h in
      (
        sym (ap (λ x. x.captured_at) e),
        sym (ap (λ x. x.hostname_planned) e),
        ap (λ x. ok (found_of x)) e,
      ),
  λ (a, b, h).
      let e = ok-injective found (found_of s) h in
      ap (λ x. ok (snapshot_of probes captured_at hostname x)) e
      ∙ ap (λ t. ok (snapshot_of probes t hostname (found_of s))) (sym a)
      ∙ ap (λ t. ok (snapshot_of probes s.captured_at t (found_of s))) (sym b),
)
map_result-ok_iff probes captured_at hostname (err e) s = ground arith

-- A collection ends with a snapshot exactly where the snapshot has the given time and hostname,
-- each required probe returns its part of it within the probe's budget, and each optional probe
-- does so too or is cut off or raises `TimeoutError`, in which case its part says that the probe
-- was not detected and why.
pub collect-ok_iff :
    (probes : Probes) (captured_at hostname : String) (s : EnvironmentSnapshot)
    → ((collect probes captured_at hostname).result ≡ ok s)
      ↔ ((s.captured_at ≡ captured_at) × (s.hostname_planned ≡ hostname) × IsCollected probes s)
collect-ok_iff probes captured_at hostname s =
    let (_, same) = collect-at probes captured_at hostname in
    let (to, from) = map_result-ok_iff probes captured_at hostname (gather probes).result s in
    let (into, out) = gather-IsCollected_iff probes s in
    rw same (λ h. let (a, b, c) = to h in (a, b, into c), λ (a, b, c). from (a, b, out c))
