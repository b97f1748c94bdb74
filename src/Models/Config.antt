-- ===== src/Models/Config.antt =====
-- models/config.py.
use dng_preflight.Base.{String, Bool, true, false}
use dng_preflight.Models.Snapshot.{EnvironmentSnapshot}
use dng_preflight.Models.Answers.{DeploymentScope, web_ssh, web_ssh_rdp_smb, InterviewAnswers}

abbrev pub dng_min_version : String
dng_min_version = "3.3.0"

pub record DngConfig : Type 0 where
  pub snapshot : EnvironmentSnapshot
  pub answers : InterviewAnswers
  pub requires_extra_dns_container : Bool
  pub dng_version_minimum : String

-- `scope == "web_ssh_rdp_smb"`
abbrev pub is_rdp_smb : DeploymentScope → Bool
is_rdp_smb web_ssh = false
is_rdp_smb web_ssh_rdp_smb = true

unfoldable pub build_config : EnvironmentSnapshot → InterviewAnswers → DngConfig
build_config snapshot answers = record {
  snapshot = snapshot;
  answers = answers;
  requires_extra_dns_container = is_rdp_smb answers.deployment_scope;
  dng_version_minimum = dng_min_version;
}
