-- ===== src/Discovery/Budget.antt =====
-- The budgets of discovery/aggregator.py: how long a collection takes and when it succeeds.
use dng_preflight.Base.{
  ℕ, ◌≤◌, ◌<◌, ◌≡◌, sym, ap, ◌∙◌, String, Option, none, some, Result, ok, err, Error,
  exception_group, map_result, err-injective, arith,
}
use dng_preflight.Models.Snapshot.{Probed}
use dng_preflight.Discovery.Aggregator.{
  Coroutine, Finished, Probes, per_probe_timeout, total_budget, wait_until, required, optional,
  both, join_at, gather, collect, run_group, snapshot_of,
}

wait_until-at :
    {A : Type 0} (budget : ℕ) (ends : Option ℕ) (r : Result A)
    → (wait_until budget ends r).at ≤ budget
wait_until-at budget none r = ground arith
wait_until-at budget (some t) r = ground arith

required-at : {A : Type 0} (coro : Coroutine A) → (required coro).at ≤ per_probe_timeout
unfolding required
required-at coro = wait_until-at per_probe_timeout coro.ends coro.result

optional-at :
    {A : Type 0} (coro : Coroutine (Probed A)) (label : String)
    → (optional coro label).at ≤ per_probe_timeout
unfolding optional
optional-at coro label = wait_until-at per_probe_timeout coro.ends coro.result

join_at-at :
    {A B : Type 0} (bound s t : ℕ) (p : Result A) (q : Result B)
    → s ≤ bound
    → t ≤ bound
    → (join_at s t p q).at ≤ bound
join_at-at bound s t (ok a) (ok b) h k = ground arith
join_at-at bound s t (ok a) (err e) h k = k
join_at-at bound s t (err e) (ok b) h k = h
join_at-at bound s t (err e) (err f) h k = ground arith

-- A task that ends within the budget of one probe.
abbrev Quick : Type 0 → Type 0
Quick A = (done : Finished A) × (done.at ≤ per_probe_timeout)

abbrev quick_required : {A : Type 0} → Coroutine A → Quick A
quick_required coro = (required coro, required-at coro)

abbrev quick_optional : {A : Type 0} → Coroutine (Probed A) → String → Quick (Probed A)
quick_optional coro label = (optional coro label, optional-at coro label)

abbrev quick_both : {A B : Type 0} → Quick A → Quick B → Quick (A × B)
quick_both (p, h) (q, k) = (both p q, join_at-at per_probe_timeout p.at q.at p.result q.result h k)

gather-at : (probes : Probes) → (gather probes).at ≤ per_probe_timeout
unfolding gather
gather-at probes =
    (quick_both (quick_required probes.system) (
      quick_both (quick_optional probes.docker "docker") (
        quick_both (quick_required probes.network) (
          quick_both (quick_required probes.dns) (
            quick_both (quick_required probes.tls) (
              quick_both (quick_optional probes.time_sync "time_sync") (
                quick_both (quick_optional probes.firewall "firewall")
                  (quick_required probes.duo)))))))).1

wait_until-early :
    {A : Type 0} (budget t : ℕ) (r : Result A)
    → t < budget
    → wait_until budget (some t) r ≡ record { at = t; result = r }
wait_until-early budget t r h = ground arith

-- A collection ends within the budget of one probe, so that the total budget never cuts it short.
pub collect-at :
    (probes : Probes) (captured_at hostname : String)
    → ((collect probes captured_at hostname).at ≤ per_probe_timeout)
      × (collect probes captured_at hostname
          ≡ run_group probes captured_at hostname (gather probes))
unfolding collect
collect-at probes captured_at hostname =
    let early = gather-at probes in
    let same =
      wait_until-early total_budget (gather probes).at
        (run_group probes captured_at hostname (gather probes)).result (ground arith) in
    (rw same early, same)

join_at-err :
    {A B : Type 0} (s t : ℕ) (p : Result A) (q : Result B) (e : Error)
    → (join_at s t p q).result ≡ err e
    → exception_group ≡ e
join_at-err s t (ok a) (ok b) e h = cc h
join_at-err s t (ok a) (err f) e h = err-injective exception_group e h
join_at-err s t (err f) (ok b) e h = err-injective exception_group e h
join_at-err s t (err f) (err g) e h = err-injective exception_group e h

both-err :
    {A B : Type 0} (p : Finished A) (q : Finished B) (e : Error)
    → (both p q).result ≡ err e
    → exception_group ≡ e
both-err p q e h = join_at-err p.at q.at p.result q.result e h

map_result-err :
    {A B : Type 0} (f : A → B) (r : Result A) (e : Error) → map_result f r ≡ err e → r ≡ err e
map_result-err f (ok a) e h = cc h
map_result-err f (err d) e h = ap err (err-injective d e h)

-- A collection that fails raises the group's exception.
pub collect-err :
    (probes : Probes) (captured_at hostname : String) (e : Error)
    → (collect probes captured_at hostname).result ≡ err e
    → exception_group ≡ e
unfolding gather
collect-err probes captured_at hostname e h =
    let (_, same) = collect-at probes captured_at hostname in
    both-err (required probes.system) _ e (
      map_result-err (snapshot_of probes captured_at hostname) (gather probes).result e
        (ap (λ x. x.result) (sym same) ∙ h))
