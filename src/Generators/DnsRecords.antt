-- ===== src/Generators/DnsRecords.antt =====
-- generators/dns_records.py.
use dng_preflight.Base.{
  ℕ, String, ◌<>◌, Bool, true, false, List, [], ◌∷◌, ◌++◌, map, values, contains, Result, ◌==◌,
  if◌then◌else◌,
}
use dng_preflight.Base.Json.{
  Json, string, number, boolean, array, object, Items, nil, item, end, member, dumps,
}
use dng_preflight.Models.Answers.{TlsStrategy, kind, AppStub}
use dng_preflight.Models.Config.{DngConfig}
use dng_preflight.Templates.Engine.{Render, whole_config, text, texts}
use dng_preflight.Generators.Domain.{domain_from_fqdn}

-- The inner loop: the addresses that are new.
unfoldable pub add_new : List String → List String → List String
add_new ips [] = ips
add_new ips (ip ∷ rest) = add_new (if contains ips ip then ips else ips ++ ip ∷ []) rest

unfoldable pub add_all : List String → List (List String) → List String
add_all ips [] = ips
add_all ips (records ∷ rest) = add_all (add_new ips records) rest

unfoldable pub resolved_ips : DngConfig → List String
unfolding add_all add_new
resolved_ips config = add_all [] (values config.snapshot.dns.a_records)

abbrev app_name : AppStub → String
app_name a = a.name

unfoldable pub seed_app_hostnames : DngConfig → List String
seed_app_hostnames config =
    let apps = config.answers.seed_apps in
    map app_name (apps.web_apps ++ (apps.ssh_relays ++ apps.rdp_relays))

-- One entry of the list `records`.
pub record DnsRecord : Type 0 where
  pub type : String
  pub name : String
  pub value : String
  pub ttl : ℕ

abbrev pub address : String → String → DnsRecord
address name value = record { type = "A"; name = name; value = value; ttl = 300 }

abbrev pub challenge : String → String → DnsRecord
challenge name value = record { type = "TXT"; name = name; value = value; ttl = 60 }

abbrev pub first_or : String → List String → String
first_or fallback [] = fallback
first_or fallback (ip ∷ ips) = ip

unfoldable pub target_value : DngConfig → String
unfolding resolved_ips
target_value config = first_or "<set to DNG host public IP>" (resolved_ips config)

abbrev pub when : Bool → List DnsRecord → List DnsRecord
when true records = records
when false records = []

-- The statements of `generate_json` that fill `records`.
unfoldable pub build_records :
    (host domain target : String) (wildcard : Bool) (tls : TlsStrategy) (apps : List String)
    → List DnsRecord
build_records host domain target wildcard tls apps =
    (address host target ∷ [])
    ++ (when wildcard (address ("*." <> domain) target ∷ [])
        ++ (when (kind tls == "lets_encrypt_dns01") (
              challenge ("_acme-challenge." <> host) "<set by ACME client>"
              ∷ when wildcard (
                  challenge ("_acme-challenge." <> domain) "<set by ACME client for wildcard>"
                  ∷ []))
            ++ map (λ name. address (name <> ("." <> domain)) target) apps))

unfoldable pub dns_records : DngConfig → List DnsRecord
unfolding build_records target_value domain_from_fqdn seed_app_hostnames
dns_records config =
    let answers = config.answers in
    build_records answers.public_hostname (domain_from_fqdn answers.public_hostname)
      (target_value config) answers.wildcard_cert answers.tls_strategy (seed_app_hostnames config)

record_json : DnsRecord → Json
record_json r = object (
    member "type" (string r.type) (
      member "name" (string r.name)
        (member "value" (string r.value) (member "ttl" (number r.ttl) end))))

records_json : List DnsRecord → Items
unfolding record_json
records_json [] = nil
records_json (r ∷ rs) = item (record_json r) (records_json rs)

unfoldable pub generate_json : DngConfig → String
unfolding dns_records records_json dumps
generate_json config =
    dumps (
      object (
        member "hostname" (string config.answers.public_hostname) (
          member "wildcard" (boolean config.answers.wildcard_cert) (
            member "tls_strategy" (string (kind config.answers.tls_strategy))
              (member "records" (array (records_json (dns_records config))) end)))))
    <> "\n"

unfoldable pub generate_md : Render → DngConfig → Result String
generate_md render c = render "dns-records.md.j2" (
    ("config", whole_config c)
    ∷ ("public_hostname_domain", text (domain_from_fqdn c.answers.public_hostname))
    ∷ ("tls_kind", text (kind c.answers.tls_strategy))
    ∷ ("base_ips", texts (resolved_ips c))
    ∷ ("seed_app_hostnames", texts (seed_app_hostnames c))
    ∷ [])
