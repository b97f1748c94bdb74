-- ===== src/Generators/Values.antt =====
-- The values of the record set of `dns-records.json`.
use dng_preflight.Base.{
  ◌≡◌, refl, sym, arith, eq_iff, ◌∙◌, ◌≢◌, ◌⊎◌, String, ◌<>◌, Bool, true, false, List, [], ◌∷◌, map,
  All, In, NoDup, inl, inr, ap, lookup, some, Dict,
}
use mathlib.Core.Path.{subst}
use dng_preflight.Models.Answers.{TlsStrategy, existing_bundle, lets_encrypt_dns01, internal_ca}
use dng_preflight.Models.Config.{DngConfig}
use dng_preflight.Templates.Engine.{Render, Argument, texts}
use dng_preflight.Generators.Domain.{domain_from_fqdn}
use dng_preflight.Generators.DnsRecords.{
  DnsRecord, address, build_records, dns_records, resolved_ips, target_value, seed_app_hostnames,
  generate_md,
}
use dng_preflight.Generators.Addresses.{resolved_ips-In_iff}

-- A record is an address of this target, or a challenge.
abbrev pub IsPlain : String → DnsRecord → Type 0
IsPlain target r =
    ((r.type ≡ "A") × (r.value ≡ target) × (r.ttl ≡ 300)) ⊎ ((r.type ≡ "TXT") × (r.ttl ≡ 60))

apps-IsPlain :
    (domain target : String) (apps : List String)
    → All (IsPlain target) (map (λ name. address (name <> ("." <> domain)) target) apps)
apps-IsPlain domain target [] = tt
apps-IsPlain domain target (a ∷ apps) = (inl (refl, refl, refl), apps-IsPlain domain target apps)

build_records-IsPlain :
    (host domain target : String) (wildcard : Bool) (tls : TlsStrategy) (apps : List String)
    → All (IsPlain target) (build_records host domain target wildcard tls apps)
unfolding build_records
build_records-IsPlain host domain target false (existing_bundle _ _ _) apps =
    (inl (refl, refl, refl), apps-IsPlain domain target apps)
build_records-IsPlain host domain target true (existing_bundle _ _ _) apps =
    (inl (refl, refl, refl), (inl (refl, refl, refl), apps-IsPlain domain target apps))
build_records-IsPlain host domain target false (internal_ca _ _ _) apps =
    (inl (refl, refl, refl), apps-IsPlain domain target apps)
build_records-IsPlain host domain target true (internal_ca _ _ _) apps =
    (inl (refl, refl, refl), (inl (refl, refl, refl), apps-IsPlain domain target apps))
build_records-IsPlain host domain target false (lets_encrypt_dns01 _ _) apps =
    (inl (refl, refl, refl), (inr (refl, refl), apps-IsPlain domain target apps))
build_records-IsPlain host domain target true (lets_encrypt_dns01 _ _) apps = (
  inl (refl, refl, refl),
  (inl (refl, refl, refl), (inr (refl, refl), (inr (refl, refl), apps-IsPlain domain target apps))),
)

-- Every record of the JSON document is an A record of the one target with a TTL of 300, or a TXT
-- record with a TTL of 60.
pub dns_records-IsPlain :
    (config : DngConfig) → All (IsPlain (target_value config)) (dns_records config)
unfolding dns_records
dns_records-IsPlain config =
    let answers = config.answers in
    build_records-IsPlain answers.public_hostname (domain_from_fqdn answers.public_hostname)
      (target_value config) answers.wildcard_cert answers.tls_strategy (seed_app_hostnames config)

-- The record is no address of `ip`.
abbrev pub IsElsewhere : String → DnsRecord → Type 0
IsElsewhere ip r = r.type ≡ "A" → r.value ≢ ip

txt-ne-a : ◌≢◌ {A = String} "A" "TXT"
txt-ne-a h = ground (arith, eq_iff "A" "TXT")

All-IsElsewhere :
    (target ip : String) (rs : List DnsRecord)
    → target ≢ ip
    → All (IsPlain target) rs
    → All (IsElsewhere ip) rs
All-IsElsewhere target ip [] away _ = tt
All-IsElsewhere target ip (r ∷ rs) away (inl (_, value, _), plain) =
    (λ _ same. away (sym value ∙ same), All-IsElsewhere target ip rs away plain)
All-IsElsewhere target ip (r ∷ rs) away (inr (txt, _), plain) =
    (λ a _. txt-ne-a (sym a ∙ txt), All-IsElsewhere target ip rs away plain)

first-target :
    (config : DngConfig) {first : String} {rest : List String}
    → resolved_ips config ≡ first ∷ rest
    → target_value config ≡ first
unfolding target_value
first-target config h = rw h

-- What the template of the Markdown document is rendered with.
abbrev pub IsGiven : DngConfig → Dict Argument → Type 0
IsGiven config args =
    (render : Render) → generate_md render config ≡ render "dns-records.md.j2" args

base_ips-IsGiven :
    (config : DngConfig) (ips : List String)
    → resolved_ips config ≡ ips
    → (args : Dict Argument) × IsGiven config args × (lookup "base_ips" args ≡ some (texts ips))
unfolding generate_md
base_ips-IsGiven config ips h = (_, (λ render. refl), ap (λ l. some (texts l)) h)

-- Where several addresses were resolved, no A record of the JSON document has any of them but the
-- first as its value, whereas the template of the Markdown document is given all of them as its
-- base addresses.
pub dns_records-omits :
    (config : DngConfig) (first : String) (rest : List String) (ip : String)
    → resolved_ips config ≡ first ∷ rest
    → In ip rest
    → All (IsElsewhere ip) (dns_records config)
      × ((args : Dict Argument) × IsGiven config args
          × (lookup "base_ips" args ≡ some (texts (first ∷ rest))))
dns_records-omits config first rest ip h listed =
    let unique : NoDup (first ∷ rest) = subst NoDup h (resolved_ips-In_iff config).0 in
    (
      All-IsElsewhere (target_value config) ip (dns_records config)
          (λ same.
            unique.0 (subst (λ x. In x rest) (sym (sym (first-target config h) ∙ same)) listed))
          (dns_records-IsPlain config),
      base_ips-IsGiven config (first ∷ rest) h,
    )
