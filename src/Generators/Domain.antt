-- ===== src/Generators/Domain.antt =====
-- `_domain_from_fqdn` of generators/dns_records.py and generators/scripted_config.py.
use dng_preflight.Base.{String, Option, none, some}
use dng_preflight.Base.Text.{split_once}

abbrev after_label : String → Option (String × String) → String
after_label fqdn none = fqdn
after_label fqdn (some (label, domain)) = domain

-- What follows the first dot, or the whole name without one.
unfoldable pub domain_from_fqdn : String → String
unfolding split_once
domain_from_fqdn fqdn = after_label fqdn (split_once "." fqdn)
