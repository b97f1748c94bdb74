-- ===== src/Models/Loaded.antt =====
-- What a plan has that `DngConfig.model_validate` of models/config.py accepts.
use dng_preflight.Base.{
  ◌≡◌, ◌≢◌, refl, subst, Option, none, some, List, [], ◌∷◌, inl, inr, Option-cases,
}
use dng_preflight.Models.Load.Snapshot.{load_snapshot}
use dng_preflight.Models.Answers.{
  scope_of, idp_of, topology_of, Network, LoadBalancerConfig, InterviewAnswers,
}
use dng_preflight.Models.Config.{DngConfig}
use dng_preflight.Models.Document.{Value, null, find, Members, Scalars}
use dng_preflight.Models.Load.{◌>>=◌, fields, field, field_or, optional, list_of, member_of}
use dng_preflight.Models.Load.Answers.{
  answer_fields, config_fields, load_strategy, load_apps, not_empty, load_balancer, load_answers,
  load_config,
}
use dng_preflight.Validation.HardStops.{check_lb_trusted_proxies}
use dng_preflight.Validation.Rules.{HasProxies, check_lb_trusted_proxies_lem}

-- Inversion of a sequence that gives a value.
bind-eq-some :
    {A B : Type 0} (o : Option A) (next : A → Option B) {b : B}
    → (o >>= next) ≡ some b
    → (a : A) × (o ≡ some a) × (next a ≡ some b)
bind-eq-some none next h = cc h
bind-eq-some (some a) next h = (a, refl, h)

some-injective : {A : Type 0} (a b : A) → some a ≡ some b → a ≡ b
some-injective a b h = cc h

not_empty-eq-some :
    (networks proxies : List Network) → not_empty networks ≡ some proxies → proxies ≢ []
not_empty-eq-some [] proxies h = cc h
not_empty-eq-some (n ∷ networks) proxies h = λ empty. cc (h, empty)

module _ (scalars : Scalars) where
  open scalars use {string_of, boolean_of, network_of}

  load_balancer-full :
      (v : Value) (lb : LoadBalancerConfig)
      → load_balancer scalars v ≡ some lb
      → lb.trusted_proxies ≢ []
  unfolding load_balancer
  load_balancer-full v lb h =
      let (members, _, h₁) = bind-eq-some (fields ("name" ∷ "trusted_proxies" ∷ []) v) _ h in
      let (name, _, h₂) = bind-eq-some (field string_of members "name") _ h₁ in
      let (networks, _, h₃) =
        bind-eq-some (field (list_of network_of) members "trusted_proxies") _ h₂ in
      let (proxies, full, h₄) = bind-eq-some (not_empty networks) _ h₃ in
      subst (λ x. x.trusted_proxies ≢ []) (some-injective _ lb h₄)
        (not_empty-eq-some networks proxies full)

  optional-HasProxies :
      (v : Value) (o : Option LoadBalancerConfig)
      → optional (load_balancer scalars) v ≡ some o
      → HasProxies o
  optional-HasProxies null o h = subst HasProxies (some-injective none o h) tt
  optional-HasProxies v o h =
      let (lb, loaded, same) = bind-eq-some (load_balancer scalars v) _ h in
      subst HasProxies (some-injective (some lb) o same) (load_balancer-full v lb loaded)

  field_or-HasProxies :
      (members : Members) (o : Option LoadBalancerConfig)
      → field_or (optional (load_balancer scalars)) none members "load_balancer" ≡ some o
      → HasProxies o
  field_or-HasProxies members o h = elim (Option-cases (find "load_balancer" members)) [
    | inl e ↦ subst HasProxies (some-injective none o (rw (e, field_or) at h)) tt
    | inr (v, e) ↦ optional-HasProxies v o (rw (e, field_or) at h)
  ]

  load_answers-HasProxies :
      (v : Value) (answers : InterviewAnswers)
      → load_answers scalars v ≡ some answers
      → HasProxies answers.load_balancer
  unfolding load_answers
  load_answers-HasProxies v answers h =
      let (members, _, h₁) = bind-eq-some (fields answer_fields v) _ h in
      let (scope, _, h₂) =
        bind-eq-some (field (member_of scope_of) members "deployment_scope") _ h₁ in
      let (idp, _, h₃) = bind-eq-some (field (member_of idp_of) members "idp") _ h₂ in
      let (hostname, _, h₄) = bind-eq-some (field string_of members "public_hostname") _ h₃ in
      let (strategy, _, h₅) =
        bind-eq-some (field (load_strategy scalars) members "tls_strategy") _ h₄ in
      let (wildcard, _, h₆) = bind-eq-some (field boolean_of members "wildcard_cert") _ h₅ in
      let (lb, loaded, h₇) =
        bind-eq-some (field_or (optional (load_balancer scalars)) none members "load_balancer") _
          h₆ in
      let (topology, _, h₈) =
        bind-eq-some (field (member_of topology_of) members "internal_dns") _ h₇ in
      let (apps, _, h₉) = bind-eq-some (field (load_apps scalars) members "seed_apps") _ h₈ in
      subst (λ a. HasProxies a.load_balancer) (some-injective _ answers h₉)
        (field_or-HasProxies members lb loaded)

  pub load_config-HasProxies :
      (v : Value) (config : DngConfig)
      → load_config scalars v ≡ some config
      → HasProxies config.answers.load_balancer
  unfolding load_config
  load_config-HasProxies v config h =
      let (members, _, h₁) = bind-eq-some (fields config_fields v) _ h in
      let (snapshot, _, h₂) =
        bind-eq-some (field (load_snapshot scalars) members "snapshot") _ h₁ in
      let (answers, loaded, h₃) =
        bind-eq-some (field (load_answers scalars) members "answers") _ h₂ in
      let (extra, _, h₄) =
        bind-eq-some (field boolean_of members "requires_extra_dns_container") _ h₃ in
      let (version, _, h₅) = bind-eq-some (field string_of members "dng_version_minimum") _ h₄ in
      let (value, _, read) = bind-eq-some (find "answers" members) (load_answers scalars) loaded in
      subst (λ c. HasProxies c.answers.load_balancer) (some-injective _ config h₅)
        (load_answers-HasProxies value answers read)

  -- No document loads as a plan that rule 6, on the trusted proxies of a load balancer, refuses.
  pub load_config-check_lb_trusted_proxies :
      (v : Value) (config : DngConfig)
      → load_config scalars v ≡ some config
      → check_lb_trusted_proxies config ≡ none
  load_config-check_lb_trusted_proxies v config h = elim (check_lb_trusted_proxies_lem config) [
    | inl (passes, _) ↦ passes
    | inr (_, lacks) ↦ absurd (lacks (load_config-HasProxies v config h))
  ]
