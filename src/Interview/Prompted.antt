-- ===== src/Interview/Prompted.antt =====
-- The answers of interview/prompt.py pass the validators of interview/questions.py.
use dng_preflight.Base.{
  ◌≡◌, refl, sym, ap, subst, String, Bool, true, false, not, List, In, contains_iff, ok, arith, inl,
  inr, map, Bool-cases, if◌then◌else◌, ◌==◌, ok-injective,
}
use dng_preflight.Base.Int.{ℤ, pos}
use dng_preflight.Base.Text.{split}
use dng_preflight.Base.Exec.{after-eq-ok, pure}
use dng_preflight.Models.Snapshot.{EnvironmentSnapshot}
use dng_preflight.Interview.Questions.{
  scope_values, idp_values, topology_values, Object, Prior, Choice, Question, includes_rdp_smb,
  require_one_of, validate_strategy, validate_wildcard, validate_balancer, validate_apps,
  deployment_scope, idp, tls_strategy, wildcard_cert, load_balancer, internal_dns, seed_apps,
}
use dng_preflight.Interview.Prompt.{
  ask_confirm, is_truthy, ask_existing, ask_lets_encrypt, ask_internal, ask_kind, tls_choices,
  ask_balancer, networks, load_balancer_config, ask_count, stubs, Dialogue, questionary_provider,
  ask_choice, ask_tls_strategy, ask_load_balancer, ask_seed_apps, or_empty,
}

abbrev pub value_of : Choice → String
value_of c = c.value

-- A selection is one of the choices.
abbrev pub IsFaithful : {W : Type 0} → Dialogue W → Type 0
IsFaithful {W} dialogue =
    (message : String) (choices : List Choice) (w w' : W) (value : String)
    → dialogue.select message choices w ≡ (ok value, w')
    → In value (map value_of choices)

-- The answer that a last step returns.
returned :
    {W : Type 0} {answer object : Object} {w w' : W}
    → pure object w ≡ (ok answer, w')
    → object ≡ answer
returned {answer} {object} h = ok-injective object answer (ap (λ r. r.0) h)

module _ {W : Type 0} (dialogue : Dialogue W) (answer : Object) where
  open dialogue use {select, text_line, path, confirm}

  ask_existing-IsStrategy :
      (w w' : W) → ask_existing dialogue w ≡ (ok answer, w') → validate_strategy answer ≡ ok tt
  unfolding validate_strategy ask_existing
  ask_existing-IsStrategy w w' h =
      let (cert, w₁, _, h₁) = after-eq-ok (path "Cert file path:" w) _ h in
      let (key, w₂, _, h₂) = after-eq-ok (path "Key file path:" w₁) _ h₁ in
      let (chain, w₃, _, h₃) = after-eq-ok (text_line "Chain file path (optional):" "" w₂) _ h₂ in
      rw (sym (returned h₃))

  ask_lets_encrypt-IsStrategy :
      (w w' : W) → ask_lets_encrypt dialogue w ≡ (ok answer, w') → validate_strategy answer ≡ ok tt
  unfolding validate_strategy ask_lets_encrypt
  ask_lets_encrypt-IsStrategy w w' h =
      let (email, w₁, _, h₁) =
        after-eq-ok (text_line "Contact email for Let's Encrypt:" "" w) _ h in
      let (provider, w₂, _, h₂) =
        after-eq-ok (text_line "DNS provider (e.g. cloudflare, route53):" "" w₁) _ h₁ in
      rw (sym (returned h₂))

  ask_internal-IsStrategy :
      (w w' : W) → ask_internal dialogue w ≡ (ok answer, w') → validate_strategy answer ≡ ok tt
  unfolding validate_strategy ask_internal
  ask_internal-IsStrategy w w' h =
      let (cert, w₁, _, h₁) = after-eq-ok (path "Cert file path:" w) _ h in
      let (key, w₂, _, h₂) = after-eq-ok (path "Key file path:" w₁) _ h₁ in
      let (chain, w₃, _, h₃) = after-eq-ok (path "Chain file path:" w₂) _ h₂ in
      rw (sym (returned h₃))

  ask_tls_strategy-accepted :
      (w w' : W) → ask_tls_strategy dialogue w ≡ (ok answer, w') → validate_strategy answer ≡ ok tt
  unfolding ask_tls_strategy ask_kind
  ask_tls_strategy-accepted w w' h =
      let (kind, w₁, _, h₁) = after-eq-ok (select "TLS strategy:" tls_choices w) _ h in
      elim (Bool-cases (kind == "existing_bundle")) [
        | inl e ↦ ask_existing-IsStrategy w₁ w' (rw e at h₁)
        | inr n ↦ elim (Bool-cases (kind == "lets_encrypt_dns01")) [
          | inl e ↦ ask_lets_encrypt-IsStrategy w₁ w' (rw (n, e) at h₁)
          | inr m ↦ ask_internal-IsStrategy w₁ w' (rw (n, m) at h₁)
        ]
      ]

  ask_balancer-accepted :
      (w w' : W) → ask_balancer dialogue w ≡ (ok answer, w') → validate_balancer answer ≡ ok tt
  unfolding validate_balancer ask_balancer
  ask_balancer-accepted w w' h =
      let (name, w₁, _, h₁) =
        after-eq-ok (text_line "Load balancer name (e.g. nginx, haproxy, aws-alb):" "" w) _ h in
      let (raw, w₂, _, h₂) =
        after-eq-ok
          (text_line "Trusted proxy CIDRs (comma-separated, e.g. 10.0.0.0/8,192.168.1.0/24):" "" w₁)
          _ h₁ in
      let (cidrs, w₃, _, h₃) = after-eq-ok (networks dialogue (split "," raw), w₂) _ h₂ in
      let (lb, w₄, _, h₄) = after-eq-ok (load_balancer_config name cidrs, w₃) _ h₃ in
      rw (sym (returned h₄))

  ask_load_balancer-accepted :
      (w w' : W) → ask_load_balancer dialogue w ≡ (ok answer, w') → validate_balancer answer ≡ ok tt
  unfolding validate_balancer ask_load_balancer
  ask_load_balancer-accepted w w' h =
      let (has_lb, w₁, _, h₁) =
        after-eq-ok (confirm "Is there a load balancer in front of DNG?" false w) _ h in
      elim (Bool-cases has_lb) [
        | inl e ↦ ask_balancer-accepted w₁ w' (rw e at h₁)
        | inr n ↦ rw (sym (returned (rw n at h₁)))
      ]

  count_relays-none :
      (scope : Bool)
      → scope ≡ false
      → (w : W) (n : ℤ) (w' : W)
      → (if scope then ask_count dialogue "How many RDP relay apps to stub?" else pure (pos 0)) w
        ≡ (ok n, w')
      → n ≡ pos 0
  count_relays-none scope e w n w' h = sym (ok-injective (pos 0) n (ap (λ r. r.0) (rw e at h)))

  ask_seed_apps-accepted :
      (scope : Bool) (w w' : W)
      → ask_seed_apps dialogue scope w ≡ (ok answer, w')
      → validate_apps answer scope ≡ ok tt
  unfolding validate_apps ask_seed_apps stubs
  ask_seed_apps-accepted scope w w' h =
      let (web, w₁, _, h₁) = after-eq-ok (ask_count dialogue "How many web apps to stub?" w) _ h in
      let (ssh, w₂, _, h₂) =
        after-eq-ok (ask_count dialogue "How many SSH relay apps to stub?" w₁) _ h₁ in
      let (rdp, w₃, asked, h₃) =
        after-eq-ok
          ((if scope then ask_count dialogue "How many RDP relay apps to stub?" else pure (pos 0))
            w₂)
          _ h₂ in
      rw (sym (returned h₃)) (elim (Bool-cases scope) [
        | inl e ↦ rw e (ground arith)
        | inr n ↦ rw (count_relays-none scope n w₂ rdp w₃ asked)
      ])

-- The questions but the one on the hostname, whose answer is any text.
pub data IsSettled : Question → Type 0 where
  on_scope : IsSettled deployment_scope
  on_idp : IsSettled idp
  on_tls : IsSettled tls_strategy
  on_wildcard : IsSettled wildcard_cert
  on_balancer : IsSettled load_balancer
  on_dns : IsSettled internal_dns
  on_apps : IsSettled seed_apps

module _ {W : Type 0} (dialogue : Dialogue W) (faithful : IsFaithful dialogue) (answer : Object)
    (w w' : W) where
  ask_choice-accepted :
      (question : Question) (allowed : List String) (field : String)
      → map value_of (or_empty question.choices) ≡ allowed
      → ask_choice dialogue question w ≡ (ok answer, w')
      → require_one_of answer allowed field ≡ ok tt
  unfolding ask_choice require_one_of
  ask_choice-accepted question allowed field same h =
      let (value, w₁, chosen, h₁) =
        after-eq-ok (dialogue.select question.prompt (or_empty question.choices) w) _ h in
      let member = faithful question.prompt (or_empty question.choices) w w₁ value chosen in
      rw (sym (returned h₁)) (rw ((contains_iff allowed value).1 (subst (In value) same member)))

  ask_confirm-accepted :
      (question : Question) (default : Object) (scope : Bool)
      → not scope ≡ true
      → ask_confirm dialogue question default w ≡ (ok answer, w')
      → validate_wildcard answer scope ≡ ok tt
  unfolding ask_confirm validate_wildcard
  ask_confirm-accepted question default scope no_rdp h =
      let (b, w₁, _, h₁) =
        after-eq-ok (dialogue.confirm question.prompt (is_truthy default) w) _ h in
      rw (sym (returned h₁)) (ground arith)

  -- Where the terminal's selections are among the choices offered, whatever answer the terminal
  -- provider returns to a question that applies, other than the one on the hostname, passes that
  -- question's validator.
  pub questionary_provider-accepted :
      (question : Question) (snapshot : EnvironmentSnapshot) (default : Object) (prior : Prior)
      → IsSettled question
      → question.applies_when snapshot prior ≡ true
      → questionary_provider dialogue question snapshot default prior w ≡ (ok answer, w')
      → question.validate_answer answer snapshot prior ≡ ok tt
  unfolding questionary_provider
  questionary_provider-accepted _ snapshot default prior on_scope applies h =
      ask_choice-accepted deployment_scope scope_values "deployment_scope" refl h
  questionary_provider-accepted _ snapshot default prior on_idp applies h =
      ask_choice-accepted idp idp_values "idp" refl h
  questionary_provider-accepted _ snapshot default prior on_tls applies h =
      ask_tls_strategy-accepted dialogue answer w w' h
  questionary_provider-accepted _ snapshot default prior on_wildcard applies h =
      ask_confirm-accepted wildcard_cert default (includes_rdp_smb prior) applies h
  questionary_provider-accepted _ snapshot default prior on_balancer applies h =
      ask_load_balancer-accepted dialogue answer w w' h
  questionary_provider-accepted _ snapshot default prior on_dns applies h =
      ask_choice-accepted internal_dns topology_values "internal_dns" refl h
  questionary_provider-accepted _ snapshot default prior on_apps applies h =
      ask_seed_apps-accepted dialogue answer (includes_rdp_smb prior) w w' h
