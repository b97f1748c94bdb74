-- ===== src/Interview/Questions.antt =====
-- interview/questions.py.
use dng_preflight.Base.{
  String, Bool, true, false, not, ◌&&◌, Option, none, some, List, [], ◌∷◌, Dict, lookup, contains,
  truthy, Result, ok, err, value_error, not_one_of, ◌==◌, if◌then◌else◌,
}
use dng_preflight.Base.Text.{strip, has_char, is_empty}
use dng_preflight.Models.Snapshot.{EnvironmentSnapshot}
use dng_preflight.Models.Answers.{TlsStrategy, LoadBalancerConfig, SeedApps}

pub data QuestionKind : Type 0 where
  select text_line confirm multi : QuestionKind

-- What a provider may return: the shapes that the questions tell apart.
pub data Object : Type 0 where
  null : Object
  text : String → Object
  boolean : Bool → Object
  strategy : TlsStrategy → Object
  balancer : LoadBalancerConfig → Object
  apps : SeedApps → Object
  other : Object

abbrev pub Prior : Type 0
Prior = Dict Object

pub record Choice : Type 0 where
  pub value : String
  pub label : String

-- A question with its three methods; a subclass is a value.
pub record Question : Type 0 where
  pub id : String
  pub prompt : String
  pub kind : QuestionKind
  pub choices : Option (List Choice)
  pub default_from : EnvironmentSnapshot → Prior → Object
  pub applies_when : EnvironmentSnapshot → Prior → Bool
  pub validate_answer : Object → EnvironmentSnapshot → Prior → Result (Unit {0})

-- The methods of the base class.
abbrev pub no_default : EnvironmentSnapshot → Prior → Object
no_default snapshot prior = null

abbrev pub always : EnvironmentSnapshot → Prior → Bool
always snapshot prior = true

-- The test of `_require_one_of`. The message's tail, the answer's `repr`, is left out.
unfoldable pub require_one_of : Object → List String → String → Result (Unit {0})
require_one_of (text answer) allowed field =
    if contains allowed answer then ok tt else err (not_one_of field allowed)
require_one_of _ allowed field = err (not_one_of field allowed)

-- `prior.get("deployment_scope") == "web_ssh_rdp_smb"`
abbrev pub is_rdp_smb_text : Option Object → Bool
is_rdp_smb_text (some (text s)) = s == "web_ssh_rdp_smb"
is_rdp_smb_text _ = false

abbrev pub includes_rdp_smb : Prior → Bool
includes_rdp_smb prior = is_rdp_smb_text (lookup "deployment_scope" prior)

abbrev pub scope_values : List String
scope_values = "web_ssh" ∷ "web_ssh_rdp_smb" ∷ []

abbrev pub deployment_scope : Question
deployment_scope = record {
  id = "deployment_scope";
  prompt = "Which deployment scope do you want?";
  kind = select;
  choices = some (
      record { value = "web_ssh"; label = "Web + SSH only" }
      ∷ record { value = "web_ssh_rdp_smb"; label = "Web + SSH + RDP/SMB" }
      ∷ []);
  default_from = no_default;
  applies_when = always;
  validate_answer = λ answer _ _. require_one_of answer scope_values "deployment_scope";
}

abbrev pub idp_values : List String
idp_values = "duo_sso" ∷ "okta" ∷ "entra_id" ∷ "adfs" ∷ "generic_saml" ∷ []

abbrev pub idp : Question
idp = record {
  id = "idp";
  prompt = "Which IdP will DNG use?";
  kind = select;
  choices = some (
      record { value = "duo_sso"; label = "Duo SSO" }
      ∷ record { value = "okta"; label = "Okta" }
      ∷ record { value = "entra_id"; label = "Microsoft Entra ID" }
      ∷ record { value = "adfs"; label = "AD FS" }
      ∷ record { value = "generic_saml"; label = "Generic SAML 2.0" }
      ∷ []);
  default_from = no_default;
  applies_when = always;
  validate_answer = λ answer _ _. require_one_of answer idp_values "idp";
}

unfoldable pub validate_hostname : Object → Result (Unit {0})
validate_hostname (text answer) =
    if is_empty (strip answer)
    then err (value_error "public_hostname must be a non-empty string")
    else if not (has_char "." answer)
    then err (value_error "public_hostname must be a fully-qualified domain name")
    else ok tt
validate_hostname _ = err (value_error "public_hostname must be a non-empty string")

abbrev pub public_hostname : Question
public_hostname = record {
  id = "public_hostname";
  prompt = "What is the public hostname for DNG?";
  kind = text_line;
  choices = none;
  default_from = λ snapshot _. text snapshot.hostname_planned;
  applies_when = always;
  validate_answer = λ answer _ _. validate_hostname answer;
}

unfoldable pub validate_strategy : Object → Result (Unit {0})
validate_strategy (strategy _) = ok tt
validate_strategy _ =
    err (value_error "tls_strategy must be an ExistingBundle, LetsEncryptDns01, or InternalCa")

abbrev pub tls_strategy : Question
tls_strategy = record {
  id = "tls_strategy";
  prompt = "How will TLS certificates be sourced?";
  kind = select;
  choices = some (
      record { value = "existing_bundle"; label = "Existing cert + key on disk" }
      ∷ record { value = "lets_encrypt_dns01"; label = "Let's Encrypt (DNS-01 challenge)" }
      ∷ record { value = "internal_ca"; label = "Internal CA-signed cert" }
      ∷ []);
  default_from = no_default;
  applies_when = always;
  validate_answer = λ answer _ _. validate_strategy answer;
}

unfoldable pub validate_wildcard : Object → Bool → Result (Unit {0})
validate_wildcard (boolean answer) rdp_smb =
    if rdp_smb && not answer
    then err (value_error "wildcard_cert must be True when deployment_scope includes RDP/SMB")
    else ok tt
validate_wildcard _ rdp_smb = err (value_error "wildcard_cert must be a bool")

abbrev pub wildcard_cert : Question
wildcard_cert = record {
  id = "wildcard_cert";
  prompt = "Use a wildcard certificate?";
  kind = confirm;
  choices = none;
  default_from = λ _ prior. boolean (includes_rdp_smb prior);
  applies_when = λ _ prior. not (includes_rdp_smb prior);
  validate_answer = λ answer _ prior. validate_wildcard answer (includes_rdp_smb prior);
}

unfoldable pub validate_balancer : Object → Result (Unit {0})
validate_balancer null = ok tt
validate_balancer (balancer _) = ok tt
validate_balancer _ = err (value_error "load_balancer must be a LoadBalancerConfig or None")

abbrev pub load_balancer : Question
load_balancer = record {
  id = "load_balancer";
  prompt = "Is there a load balancer in front of DNG?";
  kind = confirm;
  choices = none;
  default_from = no_default;
  applies_when = always;
  validate_answer = λ answer _ _. validate_balancer answer;
}

abbrev pub topology_values : List String
topology_values = "split_horizon" ∷ "internal_only" ∷ "none" ∷ []

abbrev pub internal_dns : Question
internal_dns = record {
  id = "internal_dns";
  prompt = "How is internal DNS structured for this host?";
  kind = select;
  choices = some (
      record { value = "split_horizon"; label = "Split-horizon (internal + public views)" }
      ∷ record { value = "internal_only"; label = "Internal DNS only" }
      ∷ record { value = "none"; label = "No internal DNS" }
      ∷ []);
  default_from = no_default;
  applies_when = always;
  validate_answer = λ answer _ _. require_one_of answer topology_values "internal_dns";
}

unfoldable pub validate_apps : Object → Bool → Result (Unit {0})
validate_apps (apps answer) rdp_smb =
    if truthy answer.rdp_relays && not rdp_smb
    then err (value_error "rdp_relays may only be set when deployment_scope is web_ssh_rdp_smb")
    else ok tt
validate_apps _ rdp_smb = err (value_error "seed_apps must be a SeedApps instance")

abbrev pub seed_apps : Question
seed_apps = record {
  id = "seed_apps";
  prompt = "How many seed applications, by category?";
  kind = multi;
  choices = none;
  default_from = no_default;
  applies_when = always;
  validate_answer = λ answer _ prior. validate_apps answer (includes_rdp_smb prior);
}

abbrev pub ordered_questions : List Question
ordered_questions =
    deployment_scope ∷ idp ∷ public_hostname ∷ tls_strategy ∷ wildcard_cert ∷ load_balancer
    ∷ internal_dns ∷ seed_apps ∷ []
