-- ===== src/Generators/Records.antt =====
-- The record set of `dns-records.json`, against a description by kind of record.
use dng_preflight.Base.{
  ◌≡◌, refl, String, ◌<>◌, Bool, true, false, List, [], ◌∷◌, map, ◌==◌, filter,
}
use dng_preflight.Models.Answers.{TlsStrategy, existing_bundle, lets_encrypt_dns01, internal_ca}
use dng_preflight.Models.Config.{DngConfig}
use dng_preflight.Generators.Domain.{domain_from_fqdn}
use dng_preflight.Generators.DnsRecords.{
  DnsRecord, address, build_records, dns_records, target_value, seed_app_hostnames,
}

abbrev pub is_address : DnsRecord → Bool
is_address r = r.type == "A"

abbrev pub is_challenge : DnsRecord → Bool
is_challenge r = r.type == "TXT"

abbrev pub name_of : DnsRecord → String
name_of r = r.name

-- The names under which Let's Encrypt looks for its challenges.
abbrev pub challenge_names : (host domain : String) → Bool → TlsStrategy → List String
challenge_names host domain false (lets_encrypt_dns01 _ _) = ("_acme-challenge." <> host) ∷ []
challenge_names host domain true (lets_encrypt_dns01 _ _) =
    ("_acme-challenge." <> host) ∷ ("_acme-challenge." <> domain) ∷ []
challenge_names host domain wildcard (existing_bundle _ _ _) = []
challenge_names host domain wildcard (internal_ca _ _ _) = []

apps-challenges :
    (domain target : String) (apps : List String)
    → filter is_challenge (map (λ name. address (name <> ("." <> domain)) target) apps) ≡ []
apps-challenges domain target [] = refl
apps-challenges domain target (a ∷ apps) = apps-challenges domain target apps

module _ (host domain target : String) (apps : List String) where
  build_records-challenges :
      (wildcard : Bool) (tls : TlsStrategy)
      → map name_of (filter is_challenge (build_records host domain target wildcard tls apps))
        ≡ challenge_names host domain wildcard tls
  unfolding build_records
  build_records-challenges false (existing_bundle _ _ _) = rw (apps-challenges domain target apps)
  build_records-challenges true (existing_bundle _ _ _) = rw (apps-challenges domain target apps)
  build_records-challenges false (lets_encrypt_dns01 _ _) = rw (apps-challenges domain target apps)
  build_records-challenges true (lets_encrypt_dns01 _ _) = rw (apps-challenges domain target apps)
  build_records-challenges false (internal_ca _ _ _) = rw (apps-challenges domain target apps)
  build_records-challenges true (internal_ca _ _ _) = rw (apps-challenges domain target apps)

-- The names of the TXT records of the JSON document are the ACME challenges: none without Let's
-- Encrypt, the public hostname's with it, and then the domain's for a wildcard certificate.
pub dns_records-challenges :
    (config : DngConfig)
    → map name_of (filter is_challenge (dns_records config))
      ≡ challenge_names config.answers.public_hostname
          (domain_from_fqdn config.answers.public_hostname)
          config.answers.wildcard_cert
          config.answers.tls_strategy
unfolding dns_records
dns_records-challenges config =
    let answers = config.answers in
    build_records-challenges answers.public_hostname (domain_from_fqdn answers.public_hostname)
      (target_value config) (seed_app_hostnames config) answers.wildcard_cert answers.tls_strategy
