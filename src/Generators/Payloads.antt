-- ===== src/Generators/Payloads.antt =====
-- The tuple `payloads` of `generate_all` in generators/__init__.py: all artifacts are rendered
-- before the first is written.
use dng_preflight.Base.{String, List, [], ◌∷◌, Result, ok, ◌>>=◌}
use dng_preflight.Models.Config.{DngConfig}
use dng_preflight.Templates.Engine.{Render}
use dng_preflight.Generators.DnsRecords.{generate_md, generate_json}
use dng_preflight.Generators.FirewallRules
use dng_preflight.Generators.Documents.{
  generate_installer, generate_runbook, generate_scripted_config,
}

unfoldable pub payloads : Render → DngConfig → Result (List (String × String))
payloads render config = do
  scripted_config ← generate_scripted_config render config
  installer ← generate_installer render config
  runbook ← generate_runbook render config
  dns_md ← generate_md render config
  let dns_json = generate_json config
  firewall ← FirewallRules.generate render config
  ok (
      ("scripted-config.yaml", scripted_config)
      ∷ ("install.sh", installer)
      ∷ ("RUNBOOK.md", runbook)
      ∷ ("dns-records.md", dns_md)
      ∷ ("dns-records.json", dns_json)
      ∷ ("firewall.sh", firewall)
      ∷ [])
