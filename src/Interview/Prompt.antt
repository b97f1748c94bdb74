-- ===== src/Interview/Prompt.antt =====
-- interview/prompt.py. The prompts of questionary and `ip_network` are a parameter.
use dng_preflight.Base.{
  ℕ, zero, suc, ◌+◌, String, ◌<>◌, Bool, true, false, not, Option, none, some, List, [], ◌∷◌,
  contains, truthy, Result, ok, err, runtime_error, validation_error, ◌==◌, if◌then◌else◌,
}
use dng_preflight.Base.Int.{ℤ, pos, negsuc}
use dng_preflight.Base.Text.{strip, split, is_empty}
use dng_preflight.Base.Format.{show, repr}
use dng_preflight.Base.Exec.{Exec, pure, lift, ◌>>=◌}
use dng_preflight.Models.Answers.{
  existing_bundle, lets_encrypt_dns01, internal_ca, Network, LoadBalancerConfig, AppStub,
}
use dng_preflight.Validation.Version.{parse_int}
use dng_preflight.Validation.HardStops.{invalid_literal}
use dng_preflight.Interview.Questions.{
  deployment_scope, idp, internal_dns, public_hostname, tls_strategy, wildcard_cert, load_balancer,
  seed_apps, Object, null, text, boolean, strategy, balancer, apps, Choice, Question,
  includes_rdp_smb,
}
use dng_preflight.Interview.Engine.{AnswersProvider}

-- questionary's prompts, each with its `unsafe_ask()`, on the terminal `W`.
pub record Dialogue (W : Type 0) : Type 0 where
  pub select : (message : String) → List Choice → Exec W String
  pub text_line : (message initial : String) → Exec W String
  pub path : (message : String) → Exec W String
  pub confirm : (message : String) (initial : Bool) → Exec W Bool
  -- `ip_network(text, strict=False)`
  pub ip_network : String → Result Network
  -- `str` of an object that is neither a text, a bool nor `None`
  pub str : Object → String

abbrev pub tls_choices : List Choice
tls_choices =
    record { value = "existing_bundle"; label = "Existing cert + key on disk" }
    ∷ record { value = "lets_encrypt_dns01"; label = "Let's Encrypt (DNS-01)" }
    ∷ record { value = "internal_ca"; label = "Internal CA-signed cert" }
    ∷ []

-- `text or None`
abbrev text_or_none : String → Option String
text_or_none s = if is_empty s then none else some s

-- `int(text)`
abbrev int_of : Option ℤ → Result ℤ
int_of none = err invalid_literal
int_of (some n) = ok n

-- `[AppStub(name=f"{prefix}{i + 1}") for i in range(n)]`
abbrev stubs_from : String → ℕ → ℕ → List AppStub
unfolding show
stubs_from prefix i zero = []
stubs_from prefix i (suc n) = record { name = prefix <> show (i + 1) } ∷ stubs_from prefix (i + 1) n

unfoldable pub stubs : String → ℤ → List AppStub
unfolding stubs_from
stubs prefix (pos n) = stubs_from prefix 0 n
stubs prefix (negsuc n) = []

-- The model's `min_length=1`.
abbrev pub load_balancer_config : String → List Network → Result LoadBalancerConfig
load_balancer_config name cidrs =
    if truthy cidrs
    then ok (record { name = name; trusted_proxies = cidrs })
    else err (validation_error "LoadBalancerConfig")

-- `default or ""`, as a text, and `bool(default)`.
abbrev falsy_text : (Object → String) → Object → String
falsy_text str null = ""
falsy_text str (text s) = s
falsy_text str (boolean true) = "True"
falsy_text str (boolean false) = ""
falsy_text str o = str o

abbrev pub is_truthy : Object → Bool
is_truthy null = false
is_truthy (text s) = not (is_empty s)
is_truthy (boolean b) = b
is_truthy _ = true

-- One network in front of those of the later parts, or the first exception.
abbrev first_network : Result Network → Result (List Network) → Result (List Network)
first_network (err e) later = err e
first_network (ok network) (err e) = err e
first_network (ok network) (ok later) = ok (network ∷ later)

abbrev pub or_empty : Option (List Choice) → List Choice
or_empty none = []
or_empty (some choices) = choices

module _ {W : Type 0} (dialogue : Dialogue W) where
  open dialogue use {select, text_line, path, confirm, ip_network, str}

  unfoldable pub ask_existing : Exec W Object
  ask_existing = do
    cert ← path "Cert file path:"
    key ← path "Key file path:"
    chain ← text_line "Chain file path (optional):" ""
    pure (strategy (existing_bundle cert key (text_or_none chain)))

  unfoldable pub ask_lets_encrypt : Exec W Object
  ask_lets_encrypt = do
    email ← text_line "Contact email for Let's Encrypt:" ""
    provider ← text_line "DNS provider (e.g. cloudflare, route53):" ""
    pure (strategy (lets_encrypt_dns01 email provider))

  unfoldable pub ask_internal : Exec W Object
  ask_internal = do
    cert ← path "Cert file path:"
    key ← path "Key file path:"
    chain ← path "Chain file path:"
    pure (strategy (internal_ca cert key chain))

  -- What follows the first prompt.
  unfoldable pub ask_kind : String → Exec W Object
  unfolding ask_existing ask_lets_encrypt ask_internal
  ask_kind kind =
      if kind == "existing_bundle"
      then ask_existing
      else if kind == "lets_encrypt_dns01"
      then ask_lets_encrypt
      else ask_internal

  unfoldable pub ask_tls_strategy : Exec W Object
  unfolding ask_kind
  ask_tls_strategy = do kind ← select "TLS strategy:" tls_choices; ask_kind kind

  -- The list comprehension over the parts between commas.
  unfoldable pub networks : List String → Result (List Network)
  networks [] = ok []
  networks (part ∷ rest) =
      let later = networks rest in
      if is_empty (strip part) then later else first_network (ip_network (strip part)) later

  unfoldable pub ask_balancer : Exec W Object
  unfolding networks
  ask_balancer = do
    name ← text_line "Load balancer name (e.g. nginx, haproxy, aws-alb):" ""
    raw ← text_line "Trusted proxy CIDRs (comma-separated, e.g. 10.0.0.0/8,192.168.1.0/24):" ""
    cidrs ← lift (networks (split "," raw))
    lb ← lift (load_balancer_config name cidrs)
    pure (balancer lb)

  unfoldable pub ask_load_balancer : Exec W Object
  unfolding ask_balancer
  ask_load_balancer = do
    has_lb ← confirm "Is there a load balancer in front of DNG?" false
    if not has_lb then pure null else ask_balancer

  unfoldable pub ask_count : String → Exec W ℤ
  ask_count message = do answer ← text_line message "0"; lift (int_of (parse_int answer))

  unfoldable pub ask_seed_apps : Bool → Exec W Object
  unfolding ask_count stubs
  ask_seed_apps scope_is_rdp_smb = do
    web ← ask_count "How many web apps to stub?"
    ssh ← ask_count "How many SSH relay apps to stub?"
    rdp ← (if scope_is_rdp_smb then ask_count "How many RDP relay apps to stub?" else pure (pos 0))
    pure (
        apps (record {
          web_apps = stubs "web-app-" web;
          ssh_relays = stubs "ssh-relay-" ssh;
          rdp_relays = stubs "rdp-relay-" rdp;
        }))

  -- `_select`
  unfoldable pub ask_choice : Question → Exec W Object
  ask_choice question = do
    value ← select question.prompt (or_empty question.choices)
    pure (text value)

  unfoldable pub ask_text : Question → Object → Exec W Object
  ask_text question default = do
    answer ← text_line question.prompt (falsy_text str default)
    pure (text answer)

  unfoldable pub ask_confirm : Question → Object → Exec W Object
  ask_confirm question default = do
    answer ← confirm question.prompt (is_truthy default)
    pure (boolean answer)

  unfoldable pub questionary_provider : AnswersProvider W
  unfolding ask_choice ask_text ask_tls_strategy ask_confirm ask_load_balancer ask_seed_apps
  questionary_provider question snapshot default prior =
      if contains (deployment_scope.id ∷ idp.id ∷ internal_dns.id ∷ []) question.id
      then ask_choice question
      else if question.id == public_hostname.id
      then ask_text question default
      else if question.id == tls_strategy.id
      then ask_tls_strategy
      else if question.id == wildcard_cert.id
      then ask_confirm question default
      else if question.id == load_balancer.id
      then ask_load_balancer
      else if question.id == seed_apps.id
      then ask_seed_apps (includes_rdp_smb prior)
      else lift (err (runtime_error ("no prompt handler for question id " <> repr question.id)))
