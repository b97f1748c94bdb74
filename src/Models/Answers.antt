-- ===== src/Models/Answers.antt =====
-- models/answers.py. The `Literal` types are enumerations with their texts, and the union of TLS
-- strategies is a data type; a network is its text, `str(network)`.
use dng_preflight.Base.{◌≡◌, refl, String, Bool, Option, some, none, List, ◌==◌, if◌then◌else◌}

pub data DeploymentScope : Type 0 where
  web_ssh web_ssh_rdp_smb : DeploymentScope

pub data IdpKind : Type 0 where
  duo_sso okta entra_id adfs generic_saml : IdpKind

pub data InternalDnsTopology : Type 0 where
  split_horizon internal_only no_internal_dns : InternalDnsTopology

-- The member of a `Literal` type that a text is.
abbrev pub scope_of : String → Option DeploymentScope
scope_of s =
    if s == "web_ssh"
    then some web_ssh
    else if s == "web_ssh_rdp_smb"
    then some web_ssh_rdp_smb
    else none

abbrev pub idp_of : String → Option IdpKind
idp_of s =
    if s == "duo_sso"
    then some duo_sso
    else if s == "okta"
    then some okta
    else if s == "entra_id"
    then some entra_id
    else if s == "adfs"
    then some adfs
    else if s == "generic_saml"
    then some generic_saml
    else none

abbrev pub topology_of : String → Option InternalDnsTopology
topology_of s =
    if s == "split_horizon"
    then some split_horizon
    else if s == "internal_only"
    then some internal_only
    else if s == "none"
    then some no_internal_dns
    else none

-- The text of a member.
abbrev pub scope_text : DeploymentScope → String
scope_text web_ssh = "web_ssh"
scope_text web_ssh_rdp_smb = "web_ssh_rdp_smb"

abbrev pub idp_text : IdpKind → String
idp_text duo_sso = "duo_sso"
idp_text okta = "okta"
idp_text entra_id = "entra_id"
idp_text adfs = "adfs"
idp_text generic_saml = "generic_saml"

abbrev pub topology_text : InternalDnsTopology → String
topology_text split_horizon = "split_horizon"
topology_text internal_only = "internal_only"
topology_text no_internal_dns = "none"

pub idp_of-idp_text : (i : IdpKind) → idp_of (idp_text i) ≡ some i
idp_of-idp_text duo_sso = refl
idp_of-idp_text okta = refl
idp_of-idp_text entra_id = refl
idp_of-idp_text adfs = refl
idp_of-idp_text generic_saml = refl

pub topology_of-topology_text : (t : InternalDnsTopology) → topology_of (topology_text t) ≡ some t
topology_of-topology_text split_horizon = refl
topology_of-topology_text internal_only = refl
topology_of-topology_text no_internal_dns = refl

pub scope_of-scope_text : (s : DeploymentScope) → scope_of (scope_text s) ≡ some s
scope_of-scope_text web_ssh = refl
scope_of-scope_text web_ssh_rdp_smb = refl

pub data TlsStrategy : Type 0 where
  existing_bundle : (cert_path key_path : String) (chain_path : Option String) → TlsStrategy
  lets_encrypt_dns01 : (contact_email dns_provider : String) → TlsStrategy
  internal_ca : (cert_path key_path chain_path : String) → TlsStrategy

-- The field `kind`.
abbrev pub kind : TlsStrategy → String
kind (existing_bundle _ _ _) = "existing_bundle"
kind (lets_encrypt_dns01 _ _) = "lets_encrypt_dns01"
kind (internal_ca _ _ _) = "internal_ca"

abbrev pub Network : Type 0
Network = String

pub record LoadBalancerConfig : Type 0 where
  pub name : String
  pub trusted_proxies : List Network

pub record AppStub : Type 0 where
  pub name : String

pub record SeedApps : Type 0 where
  pub web_apps : List AppStub
  pub ssh_relays : List AppStub
  pub rdp_relays : List AppStub

pub record InterviewAnswers : Type 0 where
  pub deployment_scope : DeploymentScope
  pub idp : IdpKind
  pub public_hostname : String
  pub tls_strategy : TlsStrategy
  pub wildcard_cert : Bool
  pub load_balancer : Option LoadBalancerConfig
  pub internal_dns : InternalDnsTopology
  pub seed_apps : SeedApps
