-- ===== src/Interview/Cooperative.antt =====
-- The prompts of interview/prompt.py return, where the operator answers them with what they can read.
use dng_preflight.Base.{
  subst, ok-injective, ◌==◌, ◌≡◌, refl, sym, ap, ◌∙◌, ◌≢◌, String, Bool, true, false, some, List,
  [], ◌∷◌, In, ok, Bool-cases, inl, inr, if◌then◌else◌,
}
use dng_preflight.Base.Int.{ℤ, pos}
use dng_preflight.Base.Text.{split}
use dng_preflight.Base.Exec.{pure, Returns, after-Returns, after-eq-ok}
use dng_preflight.Validation.Version.{parse_int}
use dng_preflight.Models.Snapshot.{EnvironmentSnapshot}
use dng_preflight.Models.Answers.{Network, LoadBalancerConfig}
use dng_preflight.Interview.Questions.{
  Object, null, text, boolean, balancer, Prior, Choice, Question, includes_rdp_smb,
  validate_hostname, deployment_scope, idp, public_hostname, wildcard_cert, internal_dns,
}
use dng_preflight.Interview.Prompt.{
  Dialogue, questionary_provider, ask_choice, ask_text, ask_confirm, ask_existing, ask_lets_encrypt,
  ask_internal, ask_kind, ask_tls_strategy, tls_choices, networks, load_balancer_config,
  ask_balancer, ask_load_balancer, ask_count, ask_seed_apps, or_empty, is_truthy,
}
use dng_preflight.Interview.Prompted.{
  IsFaithful, IsSettled, on_scope, on_idp, on_tls, on_wildcard, on_balancer, on_dns, on_apps,
}
use dng_preflight.Interview.Hostname.{IsNamed, Holds, validate_hostname_iff}

abbrev pub proxies_message : String
proxies_message = "Trusted proxy CIDRs (comma-separated, e.g. 10.0.0.0/8,192.168.1.0/24):"

abbrev pub count_messages : List String
count_messages =
    "How many web apps to stub?" ∷ "How many SSH relay apps to stub?"
    ∷ "How many RDP relay apps to stub?" ∷ []

-- An operator who answers every prompt and enters what the program can read.
pub record IsCooperative {W : Type 0} (dialogue : Dialogue W) : Type 0 where
  pub selects :
      (message : String) (choices : List Choice) (w : W)
      → choices ≢ []
      → Returns (dialogue.select message choices w)
  pub faithful : IsFaithful dialogue
  pub paths : (message : String) (w : W) → Returns (dialogue.path message w)
  pub confirms :
      (message : String) (initial : Bool) (w : W) → Returns (dialogue.confirm message initial w)
  pub lines : (message initial : String) (w : W) → Returns (dialogue.text_line message initial w)
  -- The hostname is not blank and has a dot.
  pub hostname :
      (initial line : String) (w w' : W)
      → dialogue.text_line public_hostname.prompt initial w ≡ (ok line, w')
      → IsNamed line × Holds "." line
  -- Counts are whole numbers.
  pub counts :
      (message line : String) (w w' : W)
      → In message count_messages
      → dialogue.text_line message "0" w ≡ (ok line, w')
      → (n : ℤ) × (parse_int line ≡ some n)
  -- Each part of the list of networks is one, and there is at least one.
  pub proxies :
      (line : String) (w w' : W)
      → dialogue.text_line proxies_message "" w ≡ (ok line, w')
      → (found : List Network) × (networks dialogue (split "," line) ≡ ok found) × (found ≢ [])

-- The model takes a list of networks that is not empty.
load_balancer_config-ok :
    (name : String) (found : List Network)
    → found ≢ []
    → (lb : LoadBalancerConfig) × (load_balancer_config name found ≡ ok lb)
load_balancer_config-ok name [] h = absurd (h refl)
load_balancer_config-ok name (n ∷ ns) h = (_, refl)

module _ {W : Type 0} (dialogue : Dialogue W) (good : IsCooperative dialogue) where
  open good use {selects, paths, confirms, lines, hostname, counts, proxies}

  ask_existing-Returns : (w : W) → Returns (ask_existing dialogue w)
  unfolding ask_existing
  ask_existing-Returns w =
      after-Returns (dialogue.path "Cert file path:" w) _ (paths "Cert file path:" w) λ cert w₁ _.
        after-Returns (dialogue.path "Key file path:" w₁) _ (paths "Key file path:" w₁) λ key w₂ _.
          after-Returns (dialogue.text_line "Chain file path (optional):" "" w₂) _
            (lines "Chain file path (optional):" "" w₂) λ chain w₃ _. (_, w₃, refl)

  ask_lets_encrypt-Returns : (w : W) → Returns (ask_lets_encrypt dialogue w)
  unfolding ask_lets_encrypt
  ask_lets_encrypt-Returns w =
      after-Returns (dialogue.text_line "Contact email for Let's Encrypt:" "" w) _
        (lines "Contact email for Let's Encrypt:" "" w)
        λ email w₁ _.
          after-Returns (dialogue.text_line "DNS provider (e.g. cloudflare, route53):" "" w₁) _
            (lines "DNS provider (e.g. cloudflare, route53):" "" w₁) λ provider w₂ _. (_, w₂, refl)

  ask_internal-Returns : (w : W) → Returns (ask_internal dialogue w)
  unfolding ask_internal
  ask_internal-Returns w =
      after-Returns (dialogue.path "Cert file path:" w) _ (paths "Cert file path:" w) λ cert w₁ _.
        after-Returns (dialogue.path "Key file path:" w₁) _ (paths "Key file path:" w₁) λ key w₂ _.
          after-Returns (dialogue.path "Chain file path:" w₂) _ (paths "Chain file path:" w₂)
            λ chain w₃ _. (_, w₃, refl)

  ask_kind-Returns : (kind : String) (w : W) → Returns (ask_kind dialogue kind w)
  unfolding ask_kind
  ask_kind-Returns kind w = elim (Bool-cases (kind == "existing_bundle")) [
    | inl e ↦ rw e (ask_existing-Returns w)
    | inr n ↦ elim (Bool-cases (kind == "lets_encrypt_dns01")) [
      | inl e ↦ rw (n, e) (ask_lets_encrypt-Returns w)
      | inr m ↦ rw (n, m) (ask_internal-Returns w)
    ]
  ]

  ask_tls_strategy-Returns : (w : W) → Returns (ask_tls_strategy dialogue w)
  unfolding ask_tls_strategy
  ask_tls_strategy-Returns w =
      after-Returns (dialogue.select "TLS strategy:" tls_choices w) _
        (selects "TLS strategy:" tls_choices w (λ h. cc h)) λ kind w₁ _. ask_kind-Returns kind w₁

  ask_balancer-Returns : (w : W) → Returns (ask_balancer dialogue w)
  unfolding ask_balancer
  ask_balancer-Returns w =
      after-Returns (dialogue.text_line "Load balancer name (e.g. nginx, haproxy, aws-alb):" "" w) _
        (lines "Load balancer name (e.g. nginx, haproxy, aws-alb):" "" w)
        λ name w₁ _.
          after-Returns (dialogue.text_line proxies_message "" w₁) _ (lines proxies_message "" w₁)
            λ raw w₂ h.
              let (found, same, full) = proxies raw w₁ w₂ h in
              after-Returns (networks dialogue (split "," raw), w₂) _
                (found, w₂, ap (λ r. (r, w₂)) same)
                λ cidrs w₃ k.
                  let (lb, valid) = load_balancer_config-ok name cidrs (λ empty.
                    full (ok-injective found [] (sym same ∙ ap (λ r. r.0) k ∙ ap ok empty))) in
                  (balancer lb, w₃, rw valid)

  ask_load_balancer-Returns : (w : W) → Returns (ask_load_balancer dialogue w)
  unfolding ask_load_balancer
  ask_load_balancer-Returns w =
      after-Returns (dialogue.confirm "Is there a load balancer in front of DNG?" false w) _
        (confirms "Is there a load balancer in front of DNG?" false w)
        λ has_lb w₁ _. elim (Bool-cases has_lb) [
          | inl e ↦ rw e (ask_balancer-Returns w₁)
          | inr n ↦ rw n (null, w₁, refl)
        ]

  ask_count-Returns :
      (message : String) (w : W)
      → In message count_messages
      → Returns (ask_count dialogue message w)
  unfolding ask_count
  ask_count-Returns message w m =
      after-Returns (dialogue.text_line message "0" w) _ (lines message "0" w)
        λ line w₁ h. let (n, read) = counts message line w w₁ m h in (n, w₁, rw read)

  rdp-Returns :
      (scope : Bool) (w : W)
      → Returns (
          (if scope then ask_count dialogue "How many RDP relay apps to stub?" else pure (pos 0)) w)
  rdp-Returns true w = ask_count-Returns "How many RDP relay apps to stub?" w (inr (inr (inl refl)))
  rdp-Returns false w = (pos 0, w, refl)

  ask_seed_apps-Returns : (scope : Bool) (w : W) → Returns (ask_seed_apps dialogue scope w)
  unfolding ask_seed_apps
  ask_seed_apps-Returns scope w =
      after-Returns (ask_count dialogue "How many web apps to stub?" w) _
        (ask_count-Returns "How many web apps to stub?" w (inl refl))
        λ web w₁ _.
          after-Returns (ask_count dialogue "How many SSH relay apps to stub?" w₁) _
            (ask_count-Returns "How many SSH relay apps to stub?" w₁ (inr (inl refl)))
            λ ssh w₂ _.
              after-Returns
                ((if scope
                    then ask_count dialogue "How many RDP relay apps to stub?"
                    else pure (pos 0))
                  w₂)
                _ (rdp-Returns scope w₂) λ rdp w₃ _. (_, w₃, refl)

  ask_choice-Returns :
      (q : Question) (w : W) → or_empty q.choices ≢ [] → Returns (ask_choice dialogue q w)
  unfolding ask_choice
  ask_choice-Returns q w some_choice =
      after-Returns (dialogue.select q.prompt (or_empty q.choices) w) _
        (selects q.prompt (or_empty q.choices) w some_choice) λ value w₁ _. (text value, w₁, refl)

  ask_confirm-Returns :
      (q : Question) (default : Object) (w : W) → Returns (ask_confirm dialogue q default w)
  unfolding ask_confirm
  ask_confirm-Returns q default w =
      after-Returns (dialogue.confirm q.prompt (is_truthy default) w) _
        (confirms q.prompt (is_truthy default) w) λ b w₁ _. (boolean b, w₁, refl)

  -- The provider returns an answer to each question, whatever the answers before.
  pub provider-Returns :
      (q : Question) (snapshot : EnvironmentSnapshot) (default : Object) (prior : Prior) (w : W)
      → IsSettled q
      → Returns (questionary_provider dialogue q snapshot default prior w)
  unfolding questionary_provider
  provider-Returns _ snapshot default prior w on_scope =
      ask_choice-Returns deployment_scope w (λ h. cc h)
  provider-Returns _ snapshot default prior w on_idp = ask_choice-Returns idp w (λ h. cc h)
  provider-Returns _ snapshot default prior w on_tls = ask_tls_strategy-Returns w
  provider-Returns _ snapshot default prior w on_wildcard =
      ask_confirm-Returns wildcard_cert default w
  provider-Returns _ snapshot default prior w on_balancer = ask_load_balancer-Returns w
  provider-Returns _ snapshot default prior w on_dns = ask_choice-Returns internal_dns w (λ h. cc h)
  provider-Returns _ snapshot default prior w on_apps =
      ask_seed_apps-Returns (includes_rdp_smb prior) w

  pub hostname-Returns :
      (snapshot : EnvironmentSnapshot) (default : Object) (prior : Prior) (w : W)
      → Returns (questionary_provider dialogue public_hostname snapshot default prior w)
  unfolding questionary_provider ask_text
  hostname-Returns snapshot default prior w =
      after-Returns (dialogue.text_line public_hostname.prompt _ w) _
        (lines public_hostname.prompt _ w) λ line w₁ _. (text line, w₁, refl)

  pub hostname-valid :
      (snapshot : EnvironmentSnapshot) (default : Object) (prior : Prior) (w w' : W)
      (answer : Object)
      → questionary_provider dialogue public_hostname snapshot default prior w ≡ (ok answer, w')
      → validate_hostname answer ≡ ok tt
  unfolding questionary_provider ask_text
  hostname-valid snapshot default prior w w' answer h =
      let (line, w₁, entered, h₁) =
        after-eq-ok (dialogue.text_line public_hostname.prompt _ w) _ h in
      subst (λ a. validate_hostname a ≡ ok tt) (ok-injective (text line) answer (ap (λ r. r.0) h₁))
        ((validate_hostname_iff line).1 (hostname _ line w w₁ entered))
