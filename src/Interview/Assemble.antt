-- ===== src/Interview/Assemble.antt =====
-- The model `InterviewAnswers` of models/answers.py, validating what the interview collected.
use dng_preflight.Base.{
  ◌≡◌, arith, String, Bool, true, false, Option, none, some, List, [], ◌∷◌, lookup, contains,
  Result, ok, err, validation_error, ◌>>=◌, ◌>>◌, if◌then◌else◌,
}
use dng_preflight.Models.Answers.{
  DeploymentScope, IdpKind, InternalDnsTopology, TlsStrategy, LoadBalancerConfig, SeedApps,
  InterviewAnswers, scope_of, idp_of, topology_of,
}
use dng_preflight.Interview.Questions.{Object, null, text, boolean, strategy, balancer, apps, Prior}

-- The fields of the model, by the shapes that answers have once the questions have passed them.
-- The conversions that the model makes from other shapes are left out.
abbrev pub text_field {ℓ} : {A : Type ℓ} → (String → Option A) → Option Object → Option A
text_field member (some (text s)) = member s
text_field member _ = none

abbrev pub boolean_field : Option Object → Option Bool
boolean_field (some (boolean b)) = some b
boolean_field _ = none

abbrev pub strategy_field : Option Object → Option TlsStrategy
strategy_field (some (strategy t)) = some t
strategy_field _ = none

-- The one field with a default.
abbrev pub balancer_field : Option Object → Option (Option LoadBalancerConfig)
balancer_field none = some none
balancer_field (some null) = some none
balancer_field (some (balancer lb)) = some (some lb)
balancer_field _ = none

abbrev pub apps_field : Option Object → Option SeedApps
apps_field (some (apps a)) = some a
apps_field _ = none

abbrev field_names : List String
field_names =
    "deployment_scope" ∷ "idp" ∷ "public_hostname" ∷ "tls_strategy" ∷ "wildcard_cert"
    ∷ "load_balancer" ∷ "internal_dns" ∷ "seed_apps" ∷ []

-- `extra="forbid"`
abbrev pub no_extra : Prior → Bool
no_extra [] = true
no_extra ((k, _) ∷ prior) =
    let rest = no_extra prior in if contains field_names k then rest else false

abbrev pub need {ℓ} : {A : Type ℓ} → Option A → Result A
need none = err (validation_error "InterviewAnswers")
need (some a) = ok a

abbrev pub permit : Bool → Result (Unit {0})
permit true = ok tt
permit false = err (validation_error "InterviewAnswers")

-- All fields, or the error of the model.
unfoldable pub assemble :
    Option DeploymentScope
    → Option IdpKind
    → Option String
    → Option TlsStrategy
    → Option Bool
    → Option (Option LoadBalancerConfig)
    → Option InternalDnsTopology
    → Option SeedApps
    → Result InterviewAnswers
assemble scope? idp? hostname? tls? wildcard? lb? dns? seed? = do
  scope ← need scope?
  idp ← need idp?
  hostname ← need hostname?
  tls ← need tls?
  wildcard ← need wildcard?
  lb ← need lb?
  dns ← need dns?
  seed ← need seed?
  ok (record {
    deployment_scope = scope;
    idp = idp;
    public_hostname = hostname;
    tls_strategy = tls;
    wildcard_cert = wildcard;
    load_balancer = lb;
    internal_dns = dns;
    seed_apps = seed;
  })

-- `InterviewAnswers.model_validate(prior)`
unfoldable pub model_validate : Prior → Result InterviewAnswers
unfolding assemble
model_validate prior = do
  permit (no_extra prior)
  assemble (text_field scope_of (lookup "deployment_scope" prior))
      (text_field idp_of (lookup "idp" prior)) (text_field some (lookup "public_hostname" prior))
      (strategy_field (lookup "tls_strategy" prior)) (boolean_field (lookup "wildcard_cert" prior))
      (balancer_field (lookup "load_balancer" prior))
      (text_field topology_of (lookup "internal_dns" prior)) (apps_field (lookup "seed_apps" prior))

-- Answers that were assembled have every field.
pub assemble-eq-ok :
    (scope? : Option DeploymentScope) (idp? : Option IdpKind) (hostname? : Option String)
    (tls? : Option TlsStrategy) (wildcard? : Option Bool) (lb? : Option (Option LoadBalancerConfig))
    (dns? : Option InternalDnsTopology) (seed? : Option SeedApps) (answers : InterviewAnswers)
    → assemble scope? idp? hostname? tls? wildcard? lb? dns? seed? ≡ ok answers
    → (scope? ≡ some answers.deployment_scope)
      × (hostname? ≡ some answers.public_hostname)
      × (wildcard? ≡ some answers.wildcard_cert)
      × (seed? ≡ some answers.seed_apps)
unfolding assemble
assemble-eq-ok (some a) (some b) (some c) (some d) (some e) (some f) (some g) (some k) answers h =
    ground arith
assemble-eq-ok _ _ _ _ _ _ _ _ answers h = cc
