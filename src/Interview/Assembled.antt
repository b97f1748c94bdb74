-- ===== src/Interview/Assembled.antt =====
-- The model `InterviewAnswers` takes whatever the questions of interview/questions.py have accepted.
use dng_preflight.Base.{
  ◌≡◌, refl, sym, ap, subst, ◌∙◌, String, Bool, Option, none, some, List, [], In, ok, inl, inr,
}
use dng_preflight.Models.Snapshot.{EnvironmentSnapshot}
use dng_preflight.Models.Answers.{
  DeploymentScope, web_ssh, web_ssh_rdp_smb, IdpKind, duo_sso, okta, entra_id, adfs, generic_saml,
  InternalDnsTopology, split_horizon, internal_only, no_internal_dns, TlsStrategy,
  LoadBalancerConfig, SeedApps, InterviewAnswers, scope_of, idp_of, topology_of,
}
use dng_preflight.Interview.Questions.{
  Object, null, text, boolean, strategy, balancer, apps, other, Prior, ordered_questions,
  require_one_of, scope_values, idp_values, topology_values, validate_hostname, validate_strategy,
  validate_wildcard, validate_balancer, validate_apps,
}
use dng_preflight.Interview.Assemble.{
  text_field, strategy_field, boolean_field, balancer_field, apps_field, assemble, model_validate,
}
use dng_preflight.Interview.Engine.{AnswersProvider, walk, run}
use dng_preflight.Interview.Sound.{Collected, walk-Collected, require_one_of-eq-ok}

abbrev Present : {A : Type 0} → Option A → Type 0
Present {A} o = (a : A) × (o ≡ some a)

scope_of-Present : (s : String) → In s scope_values → Present (scope_of s)
scope_of-Present s (inl e) = (web_ssh, rw (sym e))
scope_of-Present s (inr (inl e)) = (web_ssh_rdp_smb, rw (sym e))
scope_of-Present s (inr (inr m)) = elim m [ ]

idp_of-Present : (s : String) → In s idp_values → Present (idp_of s)
idp_of-Present s (inl e) = (duo_sso, rw (sym e))
idp_of-Present s (inr (inl e)) = (okta, rw (sym e))
idp_of-Present s (inr (inr (inl e))) = (entra_id, rw (sym e))
idp_of-Present s (inr (inr (inr (inl e)))) = (adfs, rw (sym e))
idp_of-Present s (inr (inr (inr (inr (inl e))))) = (generic_saml, rw (sym e))
idp_of-Present s (inr (inr (inr (inr (inr m))))) = elim m [ ]

topology_of-Present : (s : String) → In s topology_values → Present (topology_of s)
topology_of-Present s (inl e) = (split_horizon, rw (sym e))
topology_of-Present s (inr (inl e)) = (internal_only, rw (sym e))
topology_of-Present s (inr (inr (inl e))) = (no_internal_dns, rw (sym e))
topology_of-Present s (inr (inr (inr m))) = elim m [ ]

text_field-Present :
    {A : Type 0} (member : String → Option A) (answer : Object) (allowed : List String)
    (field : String)
    → ((s : String) → In s allowed → Present (member s))
    → require_one_of answer allowed field ≡ ok tt
    → Present (text_field member (some answer))
text_field-Present member answer allowed field known h =
    let (s, same, m) = require_one_of-eq-ok answer allowed field h in
    let (a, e) = known s m in (a, ap (λ o. text_field member (some o)) same ∙ e)

hostname-Present :
    (answer : Object) → validate_hostname answer ≡ ok tt → Present (text_field some (some answer))
unfolding validate_hostname
hostname-Present (text s) h = (s, refl)
hostname-Present null h = cc
hostname-Present (boolean _) h = cc
hostname-Present (strategy _) h = cc
hostname-Present (balancer _) h = cc
hostname-Present (apps _) h = cc
hostname-Present other h = cc

strategy-Present :
    (answer : Object) → validate_strategy answer ≡ ok tt → Present (strategy_field (some answer))
unfolding validate_strategy
strategy-Present (strategy t) h = (t, refl)
strategy-Present (text _) h = cc
strategy-Present null h = cc
strategy-Present (boolean _) h = cc
strategy-Present (balancer _) h = cc
strategy-Present (apps _) h = cc
strategy-Present other h = cc

wildcard-Present :
    (answer : Object) (rdp_smb : Bool)
    → validate_wildcard answer rdp_smb ≡ ok tt
    → Present (boolean_field (some answer))
unfolding validate_wildcard
wildcard-Present (boolean b) rdp_smb h = (b, refl)
wildcard-Present (text _) rdp_smb h = cc
wildcard-Present null rdp_smb h = cc
wildcard-Present (strategy _) rdp_smb h = cc
wildcard-Present (balancer _) rdp_smb h = cc
wildcard-Present (apps _) rdp_smb h = cc
wildcard-Present other rdp_smb h = cc

balancer-Present :
    (answer : Object) → validate_balancer answer ≡ ok tt → Present (balancer_field (some answer))
unfolding validate_balancer
balancer-Present null h = (none, refl)
balancer-Present (balancer lb) h = (some lb, refl)
balancer-Present (text _) h = cc
balancer-Present (boolean _) h = cc
balancer-Present (strategy _) h = cc
balancer-Present (apps _) h = cc
balancer-Present other h = cc

apps-Present :
    (answer : Object) (rdp_smb : Bool)
    → validate_apps answer rdp_smb ≡ ok tt
    → Present (apps_field (some answer))
unfolding validate_apps
apps-Present (apps a) rdp_smb h = (a, refl)
apps-Present (text _) rdp_smb h = cc
apps-Present null rdp_smb h = cc
apps-Present (boolean _) rdp_smb h = cc
apps-Present (strategy _) rdp_smb h = cc
apps-Present (balancer _) rdp_smb h = cc
apps-Present other rdp_smb h = cc

assemble-Present :
    (scope? : Option DeploymentScope) (idp? : Option IdpKind) (hostname? : Option String)
    (tls? : Option TlsStrategy) (wildcard? : Option Bool) (lb? : Option (Option LoadBalancerConfig))
    (dns? : Option InternalDnsTopology) (seed? : Option SeedApps)
    → Present scope?
    → Present idp?
    → Present hostname?
    → Present tls?
    → Present wildcard?
    → Present lb?
    → Present dns?
    → Present seed?
    → (answers : InterviewAnswers) × (assemble scope? idp? hostname? tls? wildcard? lb? dns? seed?
        ≡ ok answers)
unfolding assemble
assemble-Present _ _ _ _ _ _ _ _ (a, ea) (b, eb) (c, ec) (d, ed) (e, ee) (f, ef) (g, eg) (h, eh) = (
  record {
    deployment_scope = a;
    idp = b;
    public_hostname = c;
    tls_strategy = d;
    wildcard_cert = e;
    load_balancer = f;
    internal_dns = g;
    seed_apps = h;
  },
  rw (ea, eb, ec, ed, ee, ef, eg, eh),
)

module _ {W : Type 0} (snapshot : EnvironmentSnapshot) (provider : AnswersProvider W) where
  Collected-model :
      (p : Prior)
      → Collected snapshot provider ordered_questions [] p
      → (answers : InterviewAnswers) × (model_validate p ≡ ok answers)
  unfolding model_validate
  Collected-model p (a, va, (b, vb, (c, vc, (d, vd, (e, ve, (f, vf, (g, vg, (k, vk, same)))))))) =
      let (answers, assembled) =
        assemble-Present _ _ _ _ _ _ _ _
          (text_field-Present scope_of a scope_values "deployment_scope" scope_of-Present va)
          (text_field-Present idp_of b idp_values "idp" idp_of-Present vb) (hostname-Present c vc)
          (strategy-Present d vd) (wildcard-Present e _ ve) (balancer-Present f vf)
          (text_field-Present topology_of g topology_values "internal_dns" topology_of-Present vg)
          (apps-Present k _ vk) in
      (answers, subst (λ q. model_validate q ≡ ok answers) same assembled)

  pub walk-run :
      (w w' : W) (p : Prior)
      → walk snapshot provider ordered_questions [] w ≡ (ok p, w')
      → (answers : InterviewAnswers) × (run snapshot provider w ≡ (ok answers, w'))
  unfolding run
  walk-run w w' p walked =
      let (answers, valid) =
        Collected-model p (walk-Collected snapshot provider ordered_questions [] p w w' walked) in
      (answers, rw walked (ap (λ r. (r, w')) valid))
