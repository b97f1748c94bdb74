-- ===== src/Interview/Proxies.antt =====
-- A load balancer that the prompts of interview/prompt.py return has trusted proxies.
use mathlib.Core.Option.{some-injective}
use dng_preflight.Base.{
  ◌≡◌, refl, sym, ap, ◌∙◌, subst, String, Bool, false, Option, none, some, List, [], ◌∷◌, lookup,
  insert, All, ok, arith, inl, inr, Bool-cases, ◌==◌, eq_iff, then-eq-ok, ok-injective,
  if◌then◌else◌,
}
use dng_preflight.Base.Text.{split}
use dng_preflight.Base.Exec.{after-eq-ok}
use dng_preflight.Models.Snapshot.{EnvironmentSnapshot}
use dng_preflight.Models.Answers.{
  DeploymentScope, IdpKind, TlsStrategy, InternalDnsTopology, SeedApps, LoadBalancerConfig, Network,
  InterviewAnswers,
}
use dng_preflight.Validation.Rules.{HasProxies}
use dng_preflight.Interview.Questions.{
  Object, null, balancer, Prior, Question, ordered_questions, load_balancer, deployment_scope, idp,
  public_hostname, tls_strategy, wildcard_cert, internal_dns, seed_apps,
}
use dng_preflight.Interview.Assemble.{balancer_field, assemble, model_validate, permit, no_extra}
use dng_preflight.Interview.Prompt.{
  Dialogue, networks, load_balancer_config, ask_balancer, ask_load_balancer, questionary_provider,
}
use dng_preflight.Interview.Engine.{ask, walk, run}
use dng_preflight.Interview.Sound.{ask-eq-ok}

lookup-insert :
    (k j : String) (v : Object) (d : Prior)
    → lookup k (insert j v d) ≡ (if j == k then some v else lookup k d)
lookup-insert k j v [] = refl
lookup-insert k j v ((i, u) ∷ d) =
    ground (arith, eq_iff j k, eq_iff i j, eq_iff i k, lookup-insert k j v d)

-- What the field of the model is made from has proxies.
abbrev IsProxied : Option Object → Type 0
IsProxied o = (lb : Option LoadBalancerConfig) → balancer_field o ≡ some lb → HasProxies lb

load_balancer_config-IsProxied :
    (name : String) (found : List Network) (lb : LoadBalancerConfig)
    → load_balancer_config name found ≡ ok lb
    → HasProxies (some lb)
load_balancer_config-IsProxied name [] lb h = cc h
load_balancer_config-IsProxied name (n ∷ ns) lb h =
    subst (λ b. HasProxies (some b)) (ok-injective _ lb h) (λ e. cc e)

balancer-IsProxied :
    (lb : LoadBalancerConfig) → HasProxies (some lb) → IsProxied (some (balancer lb))
balancer-IsProxied lb proxied other h = subst HasProxies (some-injective (some lb) other h) proxied

null-IsProxied : IsProxied (some null)
null-IsProxied other h = subst HasProxies (some-injective none other h) tt

assemble-balancer :
    (scope? : Option DeploymentScope) (idp? : Option IdpKind) (hostname? : Option String)
    (tls? : Option TlsStrategy) (wildcard? : Option Bool) (lb? : Option (Option LoadBalancerConfig))
    (dns? : Option InternalDnsTopology) (seed? : Option SeedApps) (answers : InterviewAnswers)
    → assemble scope? idp? hostname? tls? wildcard? lb? dns? seed? ≡ ok answers
    → lb? ≡ some answers.load_balancer
unfolding assemble
assemble-balancer (some a) (some b) (some c) (some d) (some e) (some f) (some g) (some k) answers
      h =
    ground arith
assemble-balancer _ _ _ _ _ _ _ _ answers h = cc h

module _ {W : Type 0} (dialogue : Dialogue W) where
  ask_balancer-IsProxied :
      (w w' : W) (answer : Object)
      → ask_balancer dialogue w ≡ (ok answer, w')
      → IsProxied (some answer)
  unfolding ask_balancer
  ask_balancer-IsProxied w w' answer h =
      let (name, w₁, _, h₁) =
        after-eq-ok (dialogue.text_line "Load balancer name (e.g. nginx, haproxy, aws-alb):" "" w) _
          h in
      let (raw, w₂, _, h₂) =
        after-eq-ok
          (dialogue.text_line
            "Trusted proxy CIDRs (comma-separated, e.g. 10.0.0.0/8,192.168.1.0/24):" "" w₁)
          _ h₁ in
      let (cidrs, w₃, _, h₃) = after-eq-ok (networks dialogue (split "," raw), w₂) _ h₂ in
      let (lb, w₄, made, h₄) = after-eq-ok (load_balancer_config name cidrs, w₃) _ h₃ in
      subst (λ o. IsProxied (some o)) (ok-injective (balancer lb) answer (ap (λ r. r.0) h₄))
        (balancer-IsProxied lb (load_balancer_config-IsProxied name cidrs lb (ap (λ r. r.0) made)))

  ask_load_balancer-IsProxied :
      (w w' : W) (answer : Object)
      → ask_load_balancer dialogue w ≡ (ok answer, w')
      → IsProxied (some answer)
  unfolding ask_load_balancer
  ask_load_balancer-IsProxied w w' answer h =
      let (has_lb, w₁, _, h₁) =
        after-eq-ok (dialogue.confirm "Is there a load balancer in front of DNG?" false w) _ h in
      elim (Bool-cases has_lb) [
        | inl e ↦ ask_balancer-IsProxied w₁ w' answer (rw e at h₁)
        | inr n ↦
            subst (λ o. IsProxied (some o)) (ok-injective null answer (ap (λ r. r.0) (rw n at h₁)))
              null-IsProxied
      ]

  module _ (snapshot : EnvironmentSnapshot) where
    -- The round of the load balancer's question.
    ask-IsProxied :
        (prior next : Prior) (w w' : W)
        → ask snapshot (questionary_provider dialogue) load_balancer prior w ≡ (ok next, w')
        → IsProxied (lookup "load_balancer" next)
    unfolding ask questionary_provider
    ask-IsProxied prior next w w' h =
        let (answer, w₁, given, h₁) = after-eq-ok (ask_load_balancer dialogue w) _ h in
        let (done, w₂, valid, h₂) =
          after-eq-ok (load_balancer.validate_answer answer snapshot prior, w₁) _ h₁ in
        let same = ok-injective (insert "load_balancer" answer prior) next (ap (λ r. r.0) h₂) in
        subst (λ d. IsProxied (lookup "load_balancer" d)) same
          (rw (lookup-insert "load_balancer" "load_balancer" answer prior)
            (ask_load_balancer-IsProxied w w₁ answer given))

    -- Rounds of other questions keep the answer.
    walk-lookup :
        (k : String) (qs : List Question)
        → All (λ q. (q.id == k) ≡ false) qs
        → (prior p : Prior) (w w' : W)
        → walk snapshot (questionary_provider dialogue) qs prior w ≡ (ok p, w')
        → lookup k p ≡ lookup k prior
    unfolding walk
    walk-lookup k [] away prior p w w' h =
        ap (lookup k) (sym (ok-injective prior p (ap (λ r. r.0) h)))
    walk-lookup k (q ∷ qs) (other, away) prior p w w' h =
        let (next, w₁, asked, h₁) =
          after-eq-ok (ask snapshot (questionary_provider dialogue) q prior w) _ h in
        let (answer, _, same) =
          ask-eq-ok snapshot (questionary_provider dialogue) q prior next w w₁ asked in
        walk-lookup k qs away next p w₁ w' h₁
        ∙ ap (lookup k) (sym same)
        ∙ rw (lookup-insert k q.id answer prior, other)

    walk-IsProxied :
        (prior p : Prior) (w w' : W)
        → walk snapshot
            (questionary_provider dialogue)
            (load_balancer ∷ internal_dns ∷ seed_apps ∷ [])
            prior
            w
          ≡ (ok p, w')
        → IsProxied (lookup "load_balancer" p)
    unfolding walk
    walk-IsProxied prior p w w' h =
        let (next, w₁, asked, h₁) =
          after-eq-ok (ask snapshot (questionary_provider dialogue) load_balancer prior w) _ h in
        subst IsProxied
          (sym (
            walk-lookup "load_balancer" (internal_dns ∷ seed_apps ∷ []) (refl, (refl, tt)) next p w₁
              w' h₁))
          (ask-IsProxied prior next w w₁ asked)

    -- The rounds before the load balancer's question.
    walk-skip :
        (q : Question) (qs : List Question) (prior p : Prior) (w w' : W)
        → walk snapshot (questionary_provider dialogue) (q ∷ qs) prior w ≡ (ok p, w')
        → (next : Prior) × (w₁ : W) × (walk snapshot (questionary_provider dialogue) qs next w₁
            ≡ (ok p, w'))
    unfolding walk
    walk-skip q qs prior p w w' h =
        let (next, w₁, _, h₁) =
          after-eq-ok (ask snapshot (questionary_provider dialogue) q prior w) _ h in
        (next, w₁, h₁)

    ordered-IsProxied :
        (p : Prior) (w w' : W)
        → walk snapshot (questionary_provider dialogue) ordered_questions [] w ≡ (ok p, w')
        → IsProxied (lookup "load_balancer" p)
    ordered-IsProxied p w w' h =
        let (p₁, w₁, h₁) = walk-skip deployment_scope _ [] p w w' h in
        let (p₂, w₂, h₂) = walk-skip idp _ p₁ p w₁ w' h₁ in
        let (p₃, w₃, h₃) = walk-skip public_hostname _ p₂ p w₂ w' h₂ in
        let (p₄, w₄, h₄) = walk-skip tls_strategy _ p₃ p w₃ w' h₃ in
        let (p₅, w₅, h₅) = walk-skip wildcard_cert _ p₄ p w₄ w' h₄ in walk-IsProxied p₅ p w₅ w' h₅

    model_validate-balancer :
        (p : Prior) (answers : InterviewAnswers)
        → model_validate p ≡ ok answers
        → balancer_field (lookup "load_balancer" p) ≡ some answers.load_balancer
    unfolding model_validate
    model_validate-balancer p answers h =
        assemble-balancer _ _ _ _ _ _ _ _ answers (then-eq-ok (permit (no_extra p)) _ h)

    pub run-HasProxies :
        (w w' : W) (answers : InterviewAnswers)
        → run snapshot (questionary_provider dialogue) w ≡ (ok answers, w')
        → HasProxies answers.load_balancer
    unfolding run
    run-HasProxies w w' answers h =
        let (p, w₁, walked, h₁) =
          after-eq-ok (walk snapshot (questionary_provider dialogue) ordered_questions [] w) _ h in
        ordered-IsProxied p w w₁ walked answers.load_balancer
          (model_validate-balancer p answers (ap (λ r. r.0) h₁))
