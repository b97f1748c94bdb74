-- ===== src/Validation/Stops.antt =====
-- The violations of validation/hard_stops.py: their types, rule ids, flags and messages.
use dng_preflight.Base.{String, ◌<>◌, Bool, true, false, Option, none, some}
use dng_preflight.Base.Float.{Float}
use dng_preflight.Base.Format.{repr, repr_option, format_signed}

pub data Severity : Type 0 where
  block overridable : Severity

pub record HardStop : Type 0 where
  pub rule : String
  pub message : String
  pub severity : Severity
  pub override_flag : Option String

abbrev pub admin_port_rule : String
admin_port_rule = "admin_port_must_be_private"

abbrev pub domain_joined_rule : String
domain_joined_rule = "host_must_not_be_domain_joined"

abbrev pub wildcard_rdp_smb_rule : String
wildcard_rdp_smb_rule = "wildcard_required_for_rdp_smb"

abbrev pub time_offset_rule : String
time_offset_rule = "time_offset_within_30s"

abbrev pub dng_version_rule : String
dng_version_rule = "dng_version_minimum"

abbrev pub lb_trusted_proxies_rule : String
lb_trusted_proxies_rule = "lb_requires_trusted_proxies"

abbrev pub hostname_resolves_rule : String
hostname_resolves_rule = "public_hostname_must_resolve"

abbrev pub allow_public_admin : String
allow_public_admin = "--allow-public-admin"

abbrev pub allow_domain_joined : String
allow_domain_joined = "--allow-domain-joined"

abbrev pub skip_time_check : String
skip_time_check = "--skip-time-check"

abbrev pub admin_port_stop : HardStop
admin_port_stop = record {
  rule = admin_port_rule;
  message =
      "Host has a publicly-routable interface and no active firewall; DNG admin console on 8443 would be Internet-facing.";
  severity = overridable;
  override_flag = some allow_public_admin;
}

abbrev pub domain_joined_stop : HardStop
domain_joined_stop = record {
  rule = domain_joined_rule;
  message =
      "Host appears to be domain-joined (realm list or /etc/krb5.conf indicates a Kerberos realm). DNG must run on a non-domain-joined host.";
  severity = overridable;
  override_flag = some allow_domain_joined;
}

abbrev pub wildcard_stop : HardStop
wildcard_stop = record {
  rule = wildcard_rdp_smb_rule;
  message =
      "Deployment scope includes RDP/SMB but wildcard_cert is False. Resolve by enabling wildcard_cert or narrowing the scope.";
  severity = block;
  override_flag = none;
}

pub time_offset_message : Float → Option String → String
time_offset_message offset source =
    "Host clock is "
    <> (format_signed offset
        <> ("s off from " <> (repr_option source <> "; SAML signatures will fail outside ±30s.")))

abbrev pub time_offset_stop : Float → Option String → HardStop
time_offset_stop offset source = record {
  rule = time_offset_rule;
  message = time_offset_message offset source;
  severity = overridable;
  override_flag = some skip_time_check;
}

pub version_message : String → String
version_message version =
    "dng_version_minimum "
    <> (repr version
        <> " is below the 3.3.0 floor required for the April 15, 2026 CA bundle cutoff.")

abbrev pub version_stop : String → HardStop
version_stop version = record {
  rule = dng_version_rule;
  message = version_message version;
  severity = block;
  override_flag = none;
}

abbrev pub trusted_proxies_stop : HardStop
trusted_proxies_stop = record {
  rule = lb_trusted_proxies_rule;
  message = "load_balancer is configured but trusted_proxies is empty.";
  severity = block;
  override_flag = none;
}

pub unresolved_message : String → String
unresolved_message hostname =
    "No authoritative resolver returned A or AAAA records for "
    <> (repr hostname <> ". Runbook must include DNS setup as Step 0.")

abbrev pub unresolved_stop : String → HardStop
unresolved_stop hostname = record {
  rule = hostname_resolves_rule;
  message = unresolved_message hostname;
  severity = block;
  override_flag = none;
}

abbrev pub is_overridable : Severity → Bool
is_overridable block = false
is_overridable overridable = true
