-- ===== src/Examples/Generators.antt =====
-- Tests and runs of generators/.
use dng_preflight.Base.{
  ◌≡◌, refl, ◌↔◌, inl, String, none, some, List, [], ◌∷◌, map, filter, ok, All, In, InValues, NoDup,
  Dict, lookup, false, contains_iff,
}
use mathlib.Core.Bool.{false≢true}
use dng_preflight.Templates.Engine.{Render, Argument, texts}
use dng_preflight.Templates.Filters.{is_line, read_scalar, yaml_str, yaml_str-roundtrip}
use dng_preflight.Generators.Working.{IsWorking}
use dng_preflight.Base.{◌↔◌}
use dng_preflight.Generators.DnsRecords.{generate_md, dns_records, resolved_ips}
use dng_preflight.Generators.Documents.{
  generate_installer, generate_runbook, generate_scripted_config,
}
use dng_preflight.Generators.FirewallRules
use dng_preflight.Generators.FirewallRules.{detected_kind, template_name}
use dng_preflight.Generators.Addresses.{resolved_ips-In_iff}
use dng_preflight.Base.{true}
use dng_preflight.Base.Text.{has_char}
use dng_preflight.Generators.Records.{is_address}
use dng_preflight.Generators.Hosts.{entry, hosts, dns_records-hosts}
use dng_preflight.Generators.Values.{IsElsewhere, IsGiven, dns_records-omits}
use dng_preflight.Generators.Disk.{Files, memory, memory-IsLawful}
use dng_preflight.Generators.Payloads.{payloads}
use dng_preflight.Generators.All.{artifact_names, in_dir, generate_all}
use dng_preflight.Generators.Rounds.{IsStored}
use dng_preflight.Generators.Loop.{names}
use dng_preflight.Generators.Written.{generate_all-writes, generate_all-elsewhere}
use dng_preflight.Examples.Sample.{plan}

resolved_ips-In_iff_example :
    NoDup (resolved_ips plan)
    × ((ip : String) → In ip (resolved_ips plan) ↔ InValues ip plan.snapshot.dns.a_records)
resolved_ips-In_iff_example = resolved_ips-In_iff plan

has_no_dot : has_char "." "dng" ≡ false
unfolding has_char
has_no_dot = refl

dns_records-hosts_example :
    map entry (filter is_address (dns_records plan)) ≡ hosts plan "example.com"
dns_records-hosts_example = dns_records-hosts plan "dng" "example.com" refl has_no_dot

sample_hosts :
    hosts plan "example.com"
    ≡ ("dng.example.com", "203.0.113.10")
      ∷ ("*.example.com", "203.0.113.10")
      ∷ ("wiki.example.com", "203.0.113.10")
      ∷ ("bastion.example.com", "203.0.113.10")
      ∷ []
sample_hosts = refl

sample_ips : resolved_ips plan ≡ "203.0.113.10" ∷ "203.0.113.11" ∷ []
unfolding resolved_ips
sample_ips = refl

dns_records-omits_example :
    All (IsElsewhere "203.0.113.11") (dns_records plan)
    × ((args : Dict Argument) × IsGiven plan args
        × (lookup "base_ips" args ≡ some (texts ("203.0.113.10" ∷ "203.0.113.11" ∷ []))))
dns_records-omits_example =
    dns_records-omits plan "203.0.113.10" ("203.0.113.11" ∷ []) "203.0.113.11" sample_ips (inl refl)

one_line : is_line "it's" ≡ true
unfolding is_line
one_line = refl

yaml_str-roundtrip_example : read_scalar "'it''s': x" ≡ some ("it's", ": x")
unfolding yaml_str
yaml_str-roundtrip_example = yaml_str-roundtrip "it's" ": x" one_line refl

-- A rendering that gives a template's name.
abbrev echoing : Render
echoing name arguments = ok name

abbrev empty : Files
empty = record { texts = λ p. none; modes = λ p. none }

abbrev written : Files
written = (generate_all memory echoing plan "out" empty).1

wrote :
    generate_all memory echoing plan "out" empty ≡ (ok (map (in_dir "out") artifact_names), written)
unfolding generate_all generate_scripted_config generate_installer generate_runbook generate_md
    FirewallRules.generate
wrote = refl

generate_all-writes_example :
    (map (in_dir "out") artifact_names ≡ map (in_dir "out") artifact_names)
    × ((rendered : List (String × String)) × (payloads echoing plan ≡ ok rendered)
        × (names rendered ≡ artifact_names)
        × All (IsStored memory memory-IsLawful "out" written) rendered)
generate_all-writes_example =
    generate_all-writes memory memory-IsLawful echoing plan "out" empty written
      (map (in_dir "out") artifact_names) wrote

outside : ¬ In "out/notes.txt" (map (in_dir "out") artifact_names)
outside h = false≢true ((contains_iff (map (in_dir "out") artifact_names) "out/notes.txt").1 h)

generate_all-elsewhere_example : memory.content written "out/notes.txt" ≡ none
generate_all-elsewhere_example =
    generate_all-elsewhere memory memory-IsLawful echoing plan "out" empty written
      (map (in_dir "out") artifact_names) wrote "out/notes.txt" outside

memory_works : IsWorking memory "out"
memory_works = record {
  makes = λ s. (s, refl);
  writes = λ path text s. ((memory.write_text path text s).1, refl);
  sets_mode = λ path bits s. ((memory.chmod path bits s).1, refl);
}
