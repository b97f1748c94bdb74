-- ===== src/Models/Load/Answers.antt =====
-- `InterviewAnswers.model_validate` of models/answers.py and `DngConfig.model_validate` of
-- models/config.py, on documents.
use dng_preflight.Base.{String, Option, none, some, List, [], ◌∷◌, ◌==◌, if◌then◌else◌, truthy}
use dng_preflight.Models.Answers.{
  scope_of, idp_of, topology_of, Network, TlsStrategy, existing_bundle, lets_encrypt_dns01,
  internal_ca, LoadBalancerConfig, AppStub, SeedApps, InterviewAnswers,
}
use dng_preflight.Models.Config.{DngConfig}
use dng_preflight.Models.Document.{Value, Members, Scalars}
use dng_preflight.Models.Load.{
  ◌>>=◌, fields, field, field_or, optional, list_of, member_of, text_tag, tag,
}
use dng_preflight.Models.Load.Snapshot.{load_snapshot}

-- The field `kind` of a strategy on its own, with its default.
abbrev kind_literal : String → String → Option (Unit {0})
kind_literal expected s = if s == expected then some tt else none

abbrev pub kind_field : String → Members → Option (Unit {0})
kind_field expected members = field_or (member_of (kind_literal expected)) tt members "kind"

-- `Field(min_length=1)`
abbrev pub not_empty : List Network → Option (List Network)
not_empty networks = if truthy networks then some networks else none

abbrev pub answer_fields : List String
answer_fields =
    "deployment_scope" ∷ "idp" ∷ "public_hostname" ∷ "tls_strategy" ∷ "wildcard_cert"
    ∷ "load_balancer" ∷ "internal_dns" ∷ "seed_apps" ∷ []

abbrev pub config_fields : List String
config_fields = "snapshot" ∷ "answers" ∷ "requires_extra_dns_container" ∷ "dng_version_minimum" ∷ []

module _ (scalars : Scalars) where
  open scalars use {string_of, boolean_of, network_of}

  unfoldable pub load_bundle : Value → Option TlsStrategy
  load_bundle v = do
    members ← fields ("kind" ∷ "cert_path" ∷ "key_path" ∷ "chain_path" ∷ []) v
    tt ← kind_field "existing_bundle" members
    cert ← field string_of members "cert_path"
    key ← field string_of members "key_path"
    chain ← field_or (optional string_of) none members "chain_path"
    some (existing_bundle cert key chain)

  unfoldable pub load_lets_encrypt : Value → Option TlsStrategy
  load_lets_encrypt v = do
    members ← fields ("kind" ∷ "contact_email" ∷ "dns_provider" ∷ []) v
    tt ← kind_field "lets_encrypt_dns01" members
    email ← field string_of members "contact_email"
    provider ← field string_of members "dns_provider"
    some (lets_encrypt_dns01 email provider)

  unfoldable pub load_internal_ca : Value → Option TlsStrategy
  load_internal_ca v = do
    members ← fields ("kind" ∷ "cert_path" ∷ "key_path" ∷ "chain_path" ∷ []) v
    tt ← kind_field "internal_ca" members
    cert ← field string_of members "cert_path"
    key ← field string_of members "key_path"
    chain ← field string_of members "chain_path"
    some (internal_ca cert key chain)

  -- The union of the strategies, told apart by the field `kind`, which must be there.
  abbrev strategy_named : String → Value → Option TlsStrategy
  strategy_named name v =
      if name == "existing_bundle"
      then load_bundle v
      else if name == "lets_encrypt_dns01"
      then load_lets_encrypt v
      else if name == "internal_ca"
      then load_internal_ca v
      else none

  unfoldable pub load_strategy : Value → Option TlsStrategy
  unfolding load_bundle load_lets_encrypt load_internal_ca
  load_strategy v = text_tag (tag "kind" v) >>= λ name. strategy_named name v

  unfoldable pub load_balancer : Value → Option LoadBalancerConfig
  load_balancer v = do
    members ← fields ("name" ∷ "trusted_proxies" ∷ []) v
    name ← field string_of members "name"
    networks ← field (list_of network_of) members "trusted_proxies"
    proxies ← not_empty networks
    some (record { name = name; trusted_proxies = proxies })

  unfoldable pub load_app : Value → Option AppStub
  load_app v = do
    members ← fields ("name" ∷ []) v
    name ← field string_of members "name"
    some (record { name = name })

  unfoldable pub load_apps : Value → Option SeedApps
  unfolding load_app
  load_apps v = do
    members ← fields ("web_apps" ∷ "ssh_relays" ∷ "rdp_relays" ∷ []) v
    web ← field_or (list_of load_app) [] members "web_apps"
    ssh ← field_or (list_of load_app) [] members "ssh_relays"
    rdp ← field_or (list_of load_app) [] members "rdp_relays"
    some (record { web_apps = web; ssh_relays = ssh; rdp_relays = rdp })

  unfoldable pub load_answers : Value → Option InterviewAnswers
  unfolding load_strategy load_balancer load_apps
  load_answers v = do
    members ← fields answer_fields v
    scope ← field (member_of scope_of) members "deployment_scope"
    idp ← field (member_of idp_of) members "idp"
    hostname ← field string_of members "public_hostname"
    strategy ← field load_strategy members "tls_strategy"
    wildcard ← field boolean_of members "wildcard_cert"
    balancer ← field_or (optional load_balancer) none members "load_balancer"
    topology ← field (member_of topology_of) members "internal_dns"
    apps ← field load_apps members "seed_apps"
    some (record {
      deployment_scope = scope;
      idp = idp;
      public_hostname = hostname;
      tls_strategy = strategy;
      wildcard_cert = wildcard;
      load_balancer = balancer;
      internal_dns = topology;
      seed_apps = apps;
    })

  unfoldable pub load_config : Value → Option DngConfig
  unfolding load_snapshot load_answers
  load_config v = do
    members ← fields config_fields v
    snapshot ← field (load_snapshot scalars) members "snapshot"
    answers ← field load_answers members "answers"
    extra ← field boolean_of members "requires_extra_dns_container"
    version ← field string_of members "dng_version_minimum"
    some (record {
      snapshot = snapshot;
      answers = answers;
      requires_extra_dns_container = extra;
      dng_version_minimum = version;
    })
