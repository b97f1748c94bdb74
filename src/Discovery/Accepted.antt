-- ===== src/Discovery/Accepted.antt =====
-- Discovery and validation together: which machines' plans pass the rules of
-- validation/hard_stops.py.

use dng_preflight.Base.{
  ◌≡◌, refl, sym, ap, ◌∙◌, ◌↔◌, ◌⊎◌, inl, inr, String, Bool, true, false, [], ok, ok-injective,
  bind-eq-ok,
}
use dng_preflight.Models.Snapshot.{EnvironmentSnapshot}
use dng_preflight.Models.Answers.{InterviewAnswers}
use dng_preflight.Models.Config.{build_config}
use dng_preflight.Interview.Sound.{IsConsistent}
use dng_preflight.Validation.HardStops.{validate_plan}
use dng_preflight.Validation.Rules.{IsShielded, IsResolved, HasProxies, resolves_iff}
use dng_preflight.Validation.Plan.{IsAcceptable, validate_plan-eq-nil_iff}
use dng_preflight.Cli.Plans.{build_config-passes}
use dng_preflight.Discovery.Network
use dng_preflight.Discovery.Dns.{public_resolvers}
use dng_preflight.Discovery.Duo
use dng_preflight.Discovery.Sections.{IsRealmFile}
use dng_preflight.Discovery.Realms.{IsListed, IsGarbled, detect_domain_joined_iff}
use dng_preflight.Discovery.Egress.{IsSafe}
use dng_preflight.Discovery.Shielded.{IsShielded-IsSafe_iff}
use dng_preflight.Discovery.Legible.{
  IsLegible, Docker-Returned, Network-Returned, Dns-Returned, Tls-Returned, Firewall-Returned,
}
use dng_preflight.Discovery.Resolution.{SomeAnswers, probe-resolves_iff}
use dng_preflight.Discovery.Machine.{Machine, collect_on}
use dng_preflight.Discovery.Whole.{IsPrompt, IsTaken, collect_on-ok_iff}
use dng_preflight.Discovery.Ready.{
  IsReady, System-ok_iff, System-joined, TimeSync-ok_iff, TimeSync-IsSynchronised_iff,
}

-- Neither side of an exclusive test.
false-of_not : (b : Bool) (P : Type 0) → (b ≡ true) ↔ P → (b ≡ false) ↔ (¬ P)
false-of_not true P (to, from) = ((λ h. cc h), λ no_p. absurd (no_p (to refl)))
false-of_not false P (to, from) = ((λ _ p. cc (from p)), λ _. refl)

right : {P : Type 0} → (⊥ ⊎ P) → P
right (inl h) = absurd h
right (inr p) = p

module _ (machine : Machine) (hostname : String) (answers : InterviewAnswers)
    (consistent : IsConsistent answers) (proxies : HasProxies answers.load_balancer)
    (s : EnvironmentSnapshot) (taken : IsTaken machine hostname s)
    (legible : IsLegible machine) where
  joined_iff :
      (s.system.domain_joined ≡ false)
      ↔ (¬ (IsListed machine.host ⊎ IsRealmFile (machine.host.file "/etc/krb5.conf")))
  joined_iff =
      let found = System-joined machine.host s.system taken.system in
      let (to, from) = (detect_domain_joined_iff machine.host).0 in
      let clean : ¬ IsGarbled machine.host = λ (_, _, m). legible.host.commands _ m in
      false-of_not s.system.domain_joined _ (
        (λ h. (to (found ∙ ap ok h)).1),
        λ why. ok-injective _ true (sym found ∙ from (clean, why)),
      )

  resolved_iff : IsResolved (build_config s answers) ↔ (
      SomeAnswers machine.resolver hostname "A" public_resolvers
      ⊎ SomeAnswers machine.resolver hostname "AAAA" public_resolvers)
  unfolding build_config
  resolved_iff =
      let (to, from) = resolves_iff (build_config s answers) in
      let (seen, unseen) =
        (probe-resolves_iff machine.resolver hostname machine.host).1 s.dns taken.dns in
      ((λ h. seen (from h)), λ h. to (unseen h))

  snapshot-IsShielded_iff :
      IsShielded s.network s.firewall s.network.egress_public_ip ↔ IsSafe machine.host
  unfolding Network.probe Network.egress_public_ip
  snapshot-IsShielded_iff =
      let (iface, _, same) =
        bind-eq-ok (Network.default_route_iface machine.host) _ taken.network in
      let found = ok-injective _ s.network same in
      IsShielded-IsSafe_iff machine.host s.network s.firewall s.network.egress_public_ip
        (sym (ap (λ n. n.interfaces) found)) (sym (ap (λ n. n.egress_public_ip) found))
        taken.firewall

  pub IsReady-acceptable : IsAcceptable (build_config s answers) [] → IsReady machine hostname
  unfolding build_config
  IsReady-acceptable a = record {
    readable = (System-ok_iff machine.host legible.host).0 (s.system, taken.system);
    unstuck = (TimeSync-ok_iff machine.host legible.host).0 (s.time_sync, taken.time_sync);
    standalone = joined_iff.0 (right a.standalone);
    shielded = snapshot-IsShielded_iff.0 (right a.admin_port);
    close =
        (TimeSync-IsSynchronised_iff machine.host s.time_sync taken.time_sync).0 (right a.clock);
    resolved = resolved_iff.0 a.resolved;
  }

  pub acceptable-IsReady : IsReady machine hostname → IsAcceptable (build_config s answers) []
  unfolding build_config
  acceptable-IsReady r =
      let (wildcard, version) = build_config-passes s answers consistent in
      record {
        admin_port = inr (snapshot-IsShielded_iff.1 r.shielded);
        standalone = inr (joined_iff.1 r.standalone);
        wildcard = wildcard;
        clock =
            inr ((TimeSync-IsSynchronised_iff machine.host s.time_sync taken.time_sync).1 r.close);
        version = version;
        proxies = proxies;
        resolved = resolved_iff.1 r.resolved;
      }

-- The collection ends with a snapshot whose plan with the answers has no violations.
abbrev pub Passes : Machine → (hostname captured_at : String) → InterviewAnswers → Type 0
Passes machine hostname captured_at answers =
    (s : EnvironmentSnapshot) × ((collect_on machine captured_at hostname).result ≡ ok s)
    × (validate_plan (build_config s answers) [] ≡ ok [])

module _ (machine : Machine) (hostname captured_at : String) (prompt : IsPrompt machine)
    (legible : IsLegible machine) where
  -- The snapshot of a machine on which no probe raises.
  pub collect_on-IsTaken :
      IsReady machine hostname
      → (s : EnvironmentSnapshot) × ((collect_on machine captured_at hostname).result ≡ ok s)
        × IsTaken machine hostname s
  collect_on-IsTaken r =
      let (system, found) = (System-ok_iff machine.host legible.host).1 r.readable in
      let (clock, measured) = (TimeSync-ok_iff machine.host legible.host).1 r.unstuck in
      let (docker, docker_found) = Docker-Returned machine.host legible.host in
      let (network, network_found) = Network-Returned machine.host legible.host in
      let (dns, dns_found) = Dns-Returned machine.host legible.host machine.resolver hostname in
      let (tls, tls_found) = Tls-Returned machine legible in
      let (firewall, firewall_found) = Firewall-Returned machine.host legible.host in
      let s : EnvironmentSnapshot = record {
        captured_at = captured_at;
        hostname_planned = hostname;
        system = system;
        docker = docker;
        network = network;
        dns = dns;
        tls = tls;
        time_sync = clock;
        firewall = firewall;
        duo_reachability = Duo.probe machine.head;
      } in
      let taken : IsTaken machine hostname s = record {
        system = found;
        docker = docker_found;
        network = network_found;
        dns = dns_found;
        tls = tls_found;
        time_sync = measured;
        firewall = firewall_found;
        duo = refl;
      } in
      (
        s,
        (collect_on-ok_iff machine hostname prompt legible captured_at s).1 (refl, refl, taken),
        taken,
      )

module _ (machine : Machine) (hostname captured_at : String) (prompt : IsPrompt machine)
    (legible : IsLegible machine) (answers : InterviewAnswers) (consistent : IsConsistent answers)
    (proxies : HasProxies answers.load_balancer) where
  pub Passes-IsReady_iff : Passes machine hostname captured_at answers ↔ IsReady machine hostname
  Passes-IsReady_iff = (
    (λ (s, collected, valid).
        let (_, _, taken) =
          (collect_on-ok_iff machine hostname prompt legible captured_at s).0 collected in
        IsReady-acceptable machine hostname answers consistent proxies s taken legible
          ((validate_plan-eq-nil_iff (build_config s answers) []).0 valid)),
    (λ r.
        let (s, collected, taken) =
          collect_on-IsTaken machine hostname captured_at prompt legible r in
        (
          s,
          collected,
          (validate_plan-eq-nil_iff (build_config s answers) []).1
              (acceptable-IsReady machine hostname answers consistent proxies s taken legible r),
        )),
  )
