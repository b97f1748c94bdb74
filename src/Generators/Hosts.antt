-- ===== src/Generators/Hosts.antt =====
-- The A records of `dns-records.json`, against a description of the hosts that need an address.
use Prim.Native.String.{[], ◌∷◌}
use text.Mathlib.TextLemmas.{cons-append, nil-append}
use dng_preflight.Base.{
  ◌≡◌, refl, ap, ◌∙◌, inl, inr, String, ◌<>◌, Bool, true, false, some, List, [], ◌∷◌, ◌++◌, map,
  filter, values, contains, Bool-cases,
}
use dng_preflight.Base.Text.{split_once, has_char, same_char}
use dng_preflight.Models.Answers.{
  TlsStrategy, existing_bundle, lets_encrypt_dns01, internal_ca, AppStub,
}
use dng_preflight.Models.Config.{DngConfig}
use dng_preflight.Generators.Domain.{domain_from_fqdn}
use dng_preflight.Generators.Records.{is_address}
use dng_preflight.Generators.DnsRecords.{
  DnsRecord, address, build_records, dns_records, target_value, seed_app_hostnames, first_or,
  add_new, add_all, resolved_ips,
}

-- A host's name and its address.
abbrev pub Host : Type 0
Host = String × String

abbrev pub entry : DnsRecord → Host
entry r = (r.name, r.value)

-- The first address of the first answer that has one, or a placeholder.
abbrev pub first_address : List (List String) → String
first_address [] = "<set to DNG host public IP>"
first_address ([] ∷ answers) = first_address answers
first_address ((ip ∷ ips) ∷ answers) = ip

abbrev pub app_hosts : (domain target : String) → List AppStub → List Host
app_hosts domain target [] = []
app_hosts domain target (app ∷ apps) =
    (app.name <> ("." <> domain), target) ∷ app_hosts domain target apps

abbrev pub wildcard_host : (domain target : String) → Bool → List Host
wildcard_host domain target true = ("*." <> domain, target) ∷ []
wildcard_host domain target false = []

-- The hosts that need an address: the gateway, its wildcard, and the applications of each kind.
abbrev pub hosts : DngConfig → String → List Host
hosts config domain =
    let answers = config.answers in
    let target = first_address (values config.snapshot.dns.a_records) in
    (answers.public_hostname, target)
    ∷ (wildcard_host domain target answers.wildcard_cert
        ++ (app_hosts domain target answers.seed_apps.web_apps
            ++ (app_hosts domain target answers.seed_apps.ssh_relays
                ++ app_hosts domain target answers.seed_apps.rdp_relays)))

-- The first label, and what follows its dot.
split_once-append :
    (label domain : String)
    → has_char "." label ≡ false
    → split_once "." (label <> ("." <> domain)) ≡ some (label, domain)
unfolding split_once has_char
split_once-append [] domain h = rw (nil-append, cons-append, nil-append)
split_once-append (c ∷ label) domain h = elim (Bool-cases (same_char c ".")) [
  | inl dot ↦ cc (rw dot at h)
  | inr plain ↦ rw cons-append (rw plain (rw (split_once-append label domain (rw plain at h))))
]

domain_from_fqdn-append :
    (label domain : String)
    → has_char "." label ≡ false
    → domain_from_fqdn (label <> ("." <> domain)) ≡ domain
unfolding domain_from_fqdn
domain_from_fqdn-append label domain h = rw (split_once-append label domain h)

-- The first address stays in front.
abbrev StartsWith : String → List String → Type 0
StartsWith ip ips = (rest : List String) × (ips ≡ ip ∷ rest)

add_new-StartsWith :
    (ip : String) (ips more : List String) → StartsWith ip (add_new (ip ∷ ips) more)
unfolding add_new
add_new-StartsWith ip ips [] = (ips, refl)
add_new-StartsWith ip ips (new ∷ more) = elim (Bool-cases (contains (ip ∷ ips) new)) [
  | inl known ↦ rw known (add_new-StartsWith ip ips more)
  | inr unknown ↦ rw unknown (add_new-StartsWith ip (ips ++ new ∷ []) more)
]

add_all-StartsWith :
    (ip : String) (ips : List String) (answers : List (List String))
    → StartsWith ip (add_all (ip ∷ ips) answers)
unfolding add_all
add_all-StartsWith ip ips [] = (ips, refl)
add_all-StartsWith ip ips (answer ∷ answers) =
    let (rest, same) = add_new-StartsWith ip ips answer in
    rw same (add_all-StartsWith ip rest answers)

add_all-first_address :
    (answers : List (List String))
    → first_or "<set to DNG host public IP>" (add_all [] answers) ≡ first_address answers
unfolding add_all add_new
add_all-first_address [] = refl
add_all-first_address ([] ∷ answers) = add_all-first_address answers
add_all-first_address ((ip ∷ ips) ∷ answers) =
    let (rest, same) = add_new-StartsWith ip [] ips in
    let (more, whole) = add_all-StartsWith ip rest answers in rw same (rw whole)

module _ (host domain target : String) where
  abbrev app_entries : List String → List Host
  app_entries apps =
      map entry (filter is_address (map (λ name. address (name <> ("." <> domain)) target) apps))

  app_entries-app_hosts :
      (apps more : List AppStub)
      → app_entries (map (λ a. a.name) (apps ++ more))
        ≡ app_hosts domain target apps ++ app_entries (map (λ a. a.name) more)
  app_entries-app_hosts [] more = refl
  app_entries-app_hosts (app ∷ apps) more =
      ap (λ l. (app.name <> ("." <> domain), target) ∷ l) (app_entries-app_hosts apps more)

  app_entries-last :
      (apps : List AppStub) → app_entries (map (λ a. a.name) apps) ≡ app_hosts domain target apps
  app_entries-last [] = refl
  app_entries-last (app ∷ apps) =
      ap (λ l. (app.name <> ("." <> domain), target) ∷ l) (app_entries-last apps)

  build_records-entries :
      (wildcard : Bool) (tls : TlsStrategy) (apps : List String)
      → map entry (filter is_address (build_records host domain target wildcard tls apps))
        ≡ (host, target) ∷ (wildcard_host domain target wildcard ++ app_entries apps)
  unfolding build_records
  build_records-entries false (existing_bundle _ _ _) apps = refl
  build_records-entries true (existing_bundle _ _ _) apps = refl
  build_records-entries false (lets_encrypt_dns01 _ _) apps = refl
  build_records-entries true (lets_encrypt_dns01 _ _) apps = refl
  build_records-entries false (internal_ca _ _ _) apps = refl
  build_records-entries true (internal_ca _ _ _) apps = refl

seed_app_hostnames-app_hosts :
    (config : DngConfig) (host domain target : String)
    → app_entries host domain target (seed_app_hostnames config)
      ≡ app_hosts domain target config.answers.seed_apps.web_apps
        ++ (app_hosts domain target config.answers.seed_apps.ssh_relays
            ++ app_hosts domain target config.answers.seed_apps.rdp_relays)
unfolding seed_app_hostnames
seed_app_hostnames-app_hosts config host domain target =
    let apps = config.answers.seed_apps in
    rw (
      app_entries-app_hosts host domain target apps.web_apps (apps.ssh_relays ++ apps.rdp_relays),
      app_entries-app_hosts host domain target apps.ssh_relays apps.rdp_relays,
      app_entries-last host domain target apps.rdp_relays,
    )

target_value-first_address :
    (config : DngConfig)
    → target_value config ≡ first_address (values config.snapshot.dns.a_records)
unfolding target_value resolved_ips
target_value-first_address config = add_all-first_address (values config.snapshot.dns.a_records)

-- Where the public hostname is a label without dots, a dot and a domain, the A records of the JSON
-- document are, in order, those of the public hostname, of the domain's wildcard if there is a
-- wildcard certificate, and of the web applications, the SSH relays and the RDP relays in the
-- domain. The value of each is the first address in the resolvers' A records, or a placeholder
-- without one.
pub dns_records-hosts :
    (config : DngConfig) (label domain : String)
    → config.answers.public_hostname ≡ label <> ("." <> domain)
    → has_char "." label ≡ false
    → map entry (filter is_address (dns_records config)) ≡ hosts config domain
unfolding dns_records
dns_records-hosts config label domain named plain =
    let answers = config.answers in
    let split : domain_from_fqdn answers.public_hostname ≡ domain =
      ap domain_from_fqdn named ∙ domain_from_fqdn-append label domain plain in
    let target = first_address (values config.snapshot.dns.a_records) in
    ap
      (λ d. map entry (
        filter is_address (
          build_records answers.public_hostname d (target_value config) answers.wildcard_cert
            answers.tls_strategy (seed_app_hostnames config))))
      split
    ∙ ap
        (λ t. map entry (
          filter is_address (
            build_records answers.public_hostname domain t answers.wildcard_cert
              answers.tls_strategy (seed_app_hostnames config))))
        (target_value-first_address config)
    ∙ build_records-entries answers.public_hostname domain target answers.wildcard_cert
        answers.tls_strategy (seed_app_hostnames config)
    ∙ ap
        (λ l.
          (answers.public_hostname, target)
          ∷ (wildcard_host domain target answers.wildcard_cert ++ l))
        (seed_app_hostnames-app_hosts config answers.public_hostname domain target)
