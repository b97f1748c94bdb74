-- ===== src/Examples/Models.antt =====
-- Documents of the models, and a plan read back from one.
use dng_preflight.Base.{◌≡◌, refl, none, some, ok}
use dng_preflight.Base.Format.{show}
use dng_preflight.Base.Int.{pos}
use dng_preflight.Base.Text.{strip}
use dng_preflight.Models.Snapshot.{status, failure}
use dng_preflight.Models.Document.{text, integer, boolean, float, Scalars, IsExact}
use dng_preflight.Models.Dump.{dump_config}
use dng_preflight.Models.Dumped.Answers.{IsDumped, load_config-dump_config}
use dng_preflight.Models.Loaded.{load_config-check_lb_trusted_proxies}
use dng_preflight.Validation.Version.{parse_int}
use dng_preflight.Validation.HardStops.{check_lb_trusted_proxies}
use dng_preflight.Cli.Documents.{Texts, codec_of, load_plan-dump_plan}
use dng_preflight.Examples.Sample.{plan}

-- No conversion but that of whole numbers in texts.
abbrev pub scalars : Scalars
scalars = record {
  string_of = λ v. elim v [ text s ↦ some s | _ ↦ none ];
  boolean_of = λ v. elim v [ boolean b ↦ some b | _ ↦ none ];
  integer_of = λ v. elim v [
    | integer n ↦ some n
    | text s ↦ elim (parse_int s) [ some (pos n) ↦ some n | _ ↦ none ]
    | _ ↦ none
  ];
  float_of = λ v. elim v [ float x ↦ some x | _ ↦ none ];
  network_of = λ v. elim v [ text s ↦ some s | _ ↦ none ];
  integer_or_string_of =
      λ v. elim v [ integer n ↦ some (status n) | text s ↦ some (failure s) | _ ↦ none ];
}

pub scalars-IsExact : IsExact scalars
scalars-IsExact = record {
  strings = λ s. refl;
  booleans = λ b. refl;
  integers = λ n. refl;
  floats = λ negative m k. refl;
  codes = λ n. refl;
  failures = λ s. refl;
}

plan-IsDumped : IsDumped scalars scalars-IsExact plan
unfolding show parse_int strip
plan-IsDumped = record {
  ports = (refl, tt);
  offset = tt;
  balancer = record { full = λ h. cc h; networks = (refl, tt) };
}

-- PyYAML on this one document.
abbrev texts : Texts
texts = record {
  safe_load = λ _. ok (dump_config plan);
  safe_dump = λ _. "plan";
  safe_dump_block = λ _. "snapshot";
  json_dumps = λ _. "{}";
}

load_plan-dump_plan_example :
    (codec_of texts scalars).load_plan ((codec_of texts scalars).dump_plan plan) ≡ ok plan
load_plan-dump_plan_example =
    load_plan-dump_plan texts scalars scalars-IsExact plan refl plan-IsDumped

load_config-check_lb_trusted_proxies_example : check_lb_trusted_proxies plan ≡ none
load_config-check_lb_trusted_proxies_example =
    load_config-check_lb_trusted_proxies scalars (dump_config plan) plan
      (load_config-dump_config scalars scalars-IsExact plan plan-IsDumped)
