-- ===== src/Interview/Canned.antt =====
-- A provider for interview/engine.py that has its answers at hand, and that the questions accept them.
use dng_preflight.Base.{◌≡◌, refl, String, Option, none, some, List, [], ◌∷◌, ◌++◌, lookup, ok}
use dng_preflight.Models.Answers.{
  scope_text, idp_text, topology_text, scope_of-scope_text, idp_of-idp_text,
  topology_of-topology_text, DeploymentScope, web_ssh, web_ssh_rdp_smb, IdpKind, duo_sso, okta,
  entra_id, adfs, generic_saml, InternalDnsTopology, split_horizon, internal_only, no_internal_dns,
  TlsStrategy, LoadBalancerConfig, InterviewAnswers,
}
use dng_preflight.Interview.Questions.{
  Object, null, text, boolean, strategy, balancer, apps, Prior, require_one_of, scope_values,
  idp_values, topology_values, validate_strategy, validate_balancer,
}
use dng_preflight.Interview.Assemble.{balancer_field, model_validate}
use dng_preflight.Interview.Engine.{AnswersProvider}

abbrev balancer_object : Option LoadBalancerConfig → Object
balancer_object none = null
balancer_object (some lb) = balancer lb

-- The answers by question id.
abbrev pub canned : InterviewAnswers → Prior
canned a =
    ("deployment_scope", text (scope_text a.deployment_scope))
    ∷ ("idp", text (idp_text a.idp))
    ∷ ("public_hostname", text a.public_hostname)
    ∷ ("tls_strategy", strategy a.tls_strategy)
    ∷ ("wildcard_cert", boolean a.wildcard_cert)
    ∷ ("load_balancer", balancer_object a.load_balancer)
    ∷ ("internal_dns", text (topology_text a.internal_dns))
    ∷ ("seed_apps", apps a.seed_apps)
    ∷ []

abbrev pub or_null : Option Object → Object
or_null none = null
or_null (some o) = o

-- A provider that looks its answers up, and logs the question.
abbrev pub replying : InterviewAnswers → AnswersProvider (List String)
replying a question snapshot default prior log =
    (ok (or_null (lookup question.id (canned a))), log ++ (question.id ∷ []))

-- The questions that apply.
abbrev pub asked : DeploymentScope → List String
asked web_ssh =
    "deployment_scope" ∷ "idp" ∷ "public_hostname" ∷ "tls_strategy" ∷ "wildcard_cert"
    ∷ "load_balancer" ∷ "internal_dns" ∷ "seed_apps" ∷ []
asked web_ssh_rdp_smb =
    "deployment_scope" ∷ "idp" ∷ "public_hostname" ∷ "tls_strategy" ∷ "load_balancer"
    ∷ "internal_dns" ∷ "seed_apps" ∷ []

pub idp-accepted : (i : IdpKind) → require_one_of (text (idp_text i)) idp_values "idp" ≡ ok tt
unfolding require_one_of
idp-accepted duo_sso = refl
idp-accepted okta = refl
idp-accepted entra_id = refl
idp-accepted adfs = refl
idp-accepted generic_saml = refl

pub topology-accepted :
    (t : InternalDnsTopology)
    → require_one_of (text (topology_text t)) topology_values "internal_dns" ≡ ok tt
unfolding require_one_of
topology-accepted split_horizon = refl
topology-accepted internal_only = refl
topology-accepted no_internal_dns = refl

pub balancer-accepted :
    (lb : Option LoadBalancerConfig) → validate_balancer (balancer_object lb) ≡ ok tt
unfolding validate_balancer
balancer-accepted none = refl
balancer-accepted (some lb) = refl

pub scope-accepted :
    (s : DeploymentScope)
    → require_one_of (text (scope_text s)) scope_values "deployment_scope" ≡ ok tt
unfolding require_one_of
scope-accepted web_ssh = refl
scope-accepted web_ssh_rdp_smb = refl

pub strategy-accepted : (t : TlsStrategy) → validate_strategy (strategy t) ≡ ok tt
unfolding validate_strategy
strategy-accepted t = refl

balancer_field-balancer_object :
    (lb : Option LoadBalancerConfig) → balancer_field (some (balancer_object lb)) ≡ some lb
balancer_field-balancer_object none = refl
balancer_field-balancer_object (some lb) = refl

-- The model takes the dict of all answers back to the answers.
pub model_validate-canned : (a : InterviewAnswers) → model_validate (canned a) ≡ ok a
unfolding model_validate
model_validate-canned a = simp (
  scope_of-scope_text, idp_of-idp_text, topology_of-topology_text, balancer_field-balancer_object,
)
