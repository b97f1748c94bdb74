-- ===== src/Interview/Complete.antt =====
-- An interview of interview/engine.py whose provider has consistent answers at hand returns them,
-- and asks each question that applies, once and in order.
use dng_preflight.Base.{
  ◌≡◌, refl, ◌≢◌, String, Bool, true, false, Option, [], ok, arith, truthy-cases, ◌||◌,
}
use dng_preflight.Models.Snapshot.{EnvironmentSnapshot}
use dng_preflight.Models.Answers.{
  DeploymentScope, web_ssh, web_ssh_rdp_smb, IdpKind, InternalDnsTopology, SeedApps, TlsStrategy,
  LoadBalancerConfig, InterviewAnswers,
}
use dng_preflight.Interview.Questions.{
  text, boolean, apps, validate_hostname, validate_wildcard, validate_apps,
}
use dng_preflight.Interview.Engine.{run}
use dng_preflight.Interview.Hostname.{IsNamed, Holds, validate_hostname_iff}
use dng_preflight.Models.Config.{is_rdp_smb}
use dng_preflight.Interview.Canned.{
  replying, asked, scope-accepted, idp-accepted, strategy-accepted, balancer-accepted,
  topology-accepted, model_validate-canned,
}

ruleset accepted =
    (scope-accepted, idp-accepted, strategy-accepted, balancer-accepted, topology-accepted)

module _ (snapshot : EnvironmentSnapshot) (idp : IdpKind) (hostname : String) (tls : TlsStrategy)
    (wildcard : Bool) (lb : Option LoadBalancerConfig) (dns : InternalDnsTopology) (seed : SeedApps)
    (hostname-accepted : validate_hostname (text hostname) ≡ ok tt) where
  abbrev with_scope : DeploymentScope → Bool → InterviewAnswers
  with_scope scope wild = record {
    deployment_scope = scope;
    idp = idp;
    public_hostname = hostname;
    tls_strategy = tls;
    wildcard_cert = wild;
    load_balancer = lb;
    internal_dns = dns;
    seed_apps = seed;
  }

  run_web_ssh :
      validate_wildcard (boolean wildcard) false ≡ ok tt
      → validate_apps (apps seed) false ≡ ok tt
      → let a = with_scope web_ssh wildcard in run snapshot (replying a) [] ≡ (ok a, asked web_ssh)
  unfolding run
  run_web_ssh wild relays =
      simp (accepted, hostname-accepted, wild, relays)
        (rw (model_validate-canned (with_scope web_ssh wildcard)))

  -- The provider is not asked about the certificate, whatever it would say.
  run_rdp_smb :
      validate_wildcard (boolean true) true ≡ ok tt
      → validate_apps (apps seed) true ≡ ok tt
      → run snapshot (replying (with_scope web_ssh_rdp_smb wildcard)) []
        ≡ (ok (with_scope web_ssh_rdp_smb true), asked web_ssh_rdp_smb)
  unfolding run
  run_rdp_smb wild relays =
      simp (accepted, hostname-accepted, wild, relays)
        (rw (model_validate-canned (with_scope web_ssh_rdp_smb true)))

wildcard-accepted : (w : Bool) → validate_wildcard (boolean w) false ≡ ok tt
unfolding validate_wildcard
wildcard-accepted w = ground arith

forced-accepted : validate_wildcard (boolean true) true ≡ ok tt
unfolding validate_wildcard
forced-accepted = refl

apps-accepted :
    (scope : DeploymentScope) (seed : SeedApps)
    → (seed.rdp_relays ≢ [] → scope ≡ web_ssh_rdp_smb)
    → validate_apps (apps seed) (is_rdp_smb scope) ≡ ok tt
unfolding validate_apps
apps-accepted web_ssh seed h = ground (arith, truthy-cases seed.rdp_relays)
apps-accepted web_ssh_rdp_smb seed h = ground arith

-- The answers, with the wildcard certificate that the scope forces.
abbrev pub forced : InterviewAnswers → InterviewAnswers
forced a = record a { wildcard_cert = is_rdp_smb a.deployment_scope || a.wildcard_cert }

run_scope :
    (snapshot : EnvironmentSnapshot) (idp : IdpKind) (hostname : String) (tls : TlsStrategy)
    (wild : Bool) (lb : Option LoadBalancerConfig) (dns : InternalDnsTopology) (seed : SeedApps)
    (scope : DeploymentScope)
    → validate_hostname (text hostname) ≡ ok tt
    → (seed.rdp_relays ≢ [] → scope ≡ web_ssh_rdp_smb)
    → let a : InterviewAnswers = record {
      deployment_scope = scope;
      idp = idp;
      public_hostname = hostname;
      tls_strategy = tls;
      wildcard_cert = wild;
      load_balancer = lb;
      internal_dns = dns;
      seed_apps = seed;
    } in
      run snapshot (replying a) [] ≡ (ok (forced a), asked scope)
run_scope snapshot idp hostname tls wild lb dns seed web_ssh h r =
    run_web_ssh snapshot idp hostname tls wild lb dns seed h (wildcard-accepted wild)
      (apps-accepted web_ssh seed r)
run_scope snapshot idp hostname tls wild lb dns seed web_ssh_rdp_smb h r =
    run_rdp_smb snapshot idp hostname tls wild lb dns seed h forced-accepted
      (apps-accepted web_ssh_rdp_smb seed r)

-- An interview whose provider has answers with a good hostname, and RDP relays only in the RDP/SMB
-- scope, ends with these answers, but for the wildcard certificate, which the RDP/SMB scope
-- forces. Each question is asked once and in order, except that this scope skips the
-- certificate's.
pub run-replying :
    (snapshot : EnvironmentSnapshot) (a : InterviewAnswers)
    → IsNamed a.public_hostname
    → Holds "." a.public_hostname
    → (a.seed_apps.rdp_relays ≢ [] → a.deployment_scope ≡ web_ssh_rdp_smb)
    → run snapshot (replying a) [] ≡ (ok (forced a), asked a.deployment_scope)
run-replying snapshot a n d r =
    run_scope snapshot a.idp a.public_hostname a.tls_strategy a.wildcard_cert a.load_balancer
      a.internal_dns a.seed_apps a.deployment_scope
      ((validate_hostname_iff a.public_hostname).1 (n, d)) r
