-- ===== src/Models/Dumped/Answers.antt =====
-- `DngConfig.model_validate` of models/config.py on the dump of a plan.
use dng_preflight.Base.{◌≡◌, ◌≢◌, refl, Option, none, some, List, [], ◌∷◌, All}
use dng_preflight.Models.Answers.{
  scope_of-scope_text, idp_of-idp_text, topology_of-topology_text, Network, TlsStrategy,
  existing_bundle, lets_encrypt_dns01, internal_ca, LoadBalancerConfig, AppStub, SeedApps,
  InterviewAnswers,
}
use dng_preflight.Models.Config.{DngConfig}
use dng_preflight.Models.Document.{text, Scalars, IsExact}
use dng_preflight.Models.Dump.{
  dump_option, dump_list, dump_strategy, dump_balancer, dump_app, dump_apps, dump_answers,
  dump_config,
}
use dng_preflight.Models.Load.{optional, list_of}
use dng_preflight.Models.Load.Answers.{
  not_empty, load_bundle, load_lets_encrypt, load_internal_ca, load_strategy, load_balancer,
  load_app, load_apps, load_answers, load_config,
}
use dng_preflight.Models.Dumped.{Reads, All-Reads, list_of-dump_list}
use dng_preflight.Models.Dumped.Snapshot.{
  IsFinite, offset_of, IsPort, text_option, load_snapshot-dump_snapshot,
}

not_empty-some : (networks : List Network) → networks ≢ [] → not_empty networks ≡ some networks
not_empty-some [] h = absurd (h refl)
not_empty-some (n ∷ networks) h = refl

module _ (scalars : Scalars) (exact : IsExact scalars) where
  open scalars use {string_of, network_of}
  open exact use {strings, booleans}

  -- There is a network, and the text of each reads as the network.
  pub record IsBalancer (lb : LoadBalancerConfig) : Type 0 where
    pub full : lb.trusted_proxies ≢ []
    pub networks : All (Reads text network_of) lb.trusted_proxies

  abbrev pub AreBalanced : Option LoadBalancerConfig → Type 0
  AreBalanced none = Unit
  AreBalanced (some lb) = IsBalancer lb

  load_strategy-dump_strategy : (t : TlsStrategy) → load_strategy scalars (dump_strategy t) ≡ some t
  unfolding load_strategy dump_strategy load_bundle load_lets_encrypt load_internal_ca
  load_strategy-dump_strategy (existing_bundle cert key chain) =
      rw (strings cert, strings key, text_option scalars exact chain)
  load_strategy-dump_strategy (lets_encrypt_dns01 email provider) =
      rw (strings email, strings provider)
  load_strategy-dump_strategy (internal_ca cert key chain) =
      rw (strings cert, strings key, strings chain)

  load_balancer-dump_balancer :
      (lb : LoadBalancerConfig) → IsBalancer lb → load_balancer scalars (dump_balancer lb) ≡ some lb
  unfolding load_balancer dump_balancer
  load_balancer-dump_balancer lb good = rw (
    strings lb.name,
    list_of-dump_list text network_of lb.trusted_proxies good.networks,
    not_empty-some lb.trusted_proxies good.full,
  )

  balancer_option :
      (o : Option LoadBalancerConfig)
      → AreBalanced o
      → optional (load_balancer scalars) (dump_option dump_balancer o) ≡ some o
  unfolding dump_balancer
  balancer_option none good = refl
  balancer_option (some lb) good = rw (load_balancer-dump_balancer lb good)

  load_app-dump_app : (app : AppStub) → load_app scalars (dump_app app) ≡ some app
  unfolding load_app
  load_app-dump_app app = rw (strings app.name)

  app_list :
      (apps : List AppStub) → list_of (load_app scalars) (dump_list dump_app apps) ≡ some apps
  app_list apps =
      list_of-dump_list dump_app (load_app scalars) apps
        (All-Reads dump_app (load_app scalars) load_app-dump_app apps)

  load_apps-dump_apps : (apps : SeedApps) → load_apps scalars (dump_apps apps) ≡ some apps
  unfolding load_apps dump_apps
  load_apps-dump_apps apps =
      rw (app_list apps.web_apps, app_list apps.ssh_relays, app_list apps.rdp_relays)

  load_answers-dump_answers :
      (a : InterviewAnswers)
      → AreBalanced a.load_balancer
      → load_answers scalars (dump_answers a) ≡ some a
  unfolding load_answers dump_answers
  load_answers-dump_answers a good = rw (
    scope_of-scope_text a.deployment_scope,
    idp_of-idp_text a.idp,
    strings a.public_hostname,
    load_strategy-dump_strategy a.tls_strategy,
    booleans a.wildcard_cert,
    balancer_option a.load_balancer good,
    topology_of-topology_text a.internal_dns,
    load_apps-dump_apps a.seed_apps,
  )

  -- What a plan must be for its document to hold it.
  pub record IsDumped (config : DngConfig) : Type 0 where
    pub ports : All (IsPort scalars exact) config.snapshot.network.listening_ports
    pub offset : IsFinite (offset_of config.snapshot.time_sync)
    pub balancer : AreBalanced config.answers.load_balancer

  pub load_config-dump_config :
      (config : DngConfig)
      → IsDumped config
      → load_config scalars (dump_config config) ≡ some config
  unfolding load_config dump_config
  load_config-dump_config config good = rw (
    load_snapshot-dump_snapshot scalars exact config.snapshot good.ports good.offset,
    load_answers-dump_answers config.answers good.balancer,
    booleans config.requires_extra_dns_container,
    strings config.dng_version_minimum,
  )
