-- ===== src/Cli/Documents.antt =====
-- The documents of cli.py: `model_validate` and `model_dump` of the models between PyYAML's texts.
use dng_preflight.Base.{◌≡◌, String, Option, none, some, Result, ok, err, validation_error, ◌>>=◌}
use dng_preflight.Models.Config.{DngConfig}
use dng_preflight.Models.Document.{Value, Scalars, IsExact}
use dng_preflight.Models.Dump.{dump_snapshot, dump_config}
use dng_preflight.Models.Load.Snapshot.{load_snapshot}
use dng_preflight.Models.Load.Answers.{load_config}
use dng_preflight.Models.Dumped.Answers.{IsDumped, load_config-dump_config}
use dng_preflight.Cli.Commands.{Codec}

-- PyYAML and json.
pub record Texts : Type 0 where
  pub safe_load : String → Result Value
  -- With `sort_keys=False`, and for the second with `default_flow_style=False` too.
  pub safe_dump : Value → String
  pub safe_dump_block : Value → String
  -- `json.dumps(payload, indent=2)`
  pub json_dumps : Value → String

-- A model, or the model's `ValidationError`.
abbrev validated : {A : Type 0} → String → Option A → Result A
validated model none = err (validation_error model)
validated model (some a) = ok a

module _ (texts : Texts) (scalars : Scalars) where
  abbrev pub codec_of : Codec
  codec_of = record {
    load_plan =
        λ document. texts.safe_load document >>= λ v. validated "DngConfig" (load_config scalars v);
    dump_plan = λ config. texts.safe_dump (dump_config config);
    load_snapshot = λ document.
        texts.safe_load document >>= λ v. validated "EnvironmentSnapshot" (load_snapshot scalars v);
    dump_yaml = λ snapshot. texts.safe_dump_block (dump_snapshot snapshot);
    dump_json = λ snapshot. texts.json_dumps (dump_snapshot snapshot);
  }

  module _ (exact : IsExact scalars) where
    -- A plan's document loads as the plan: every field of the snapshot and of the answers comes
    -- back, where PyYAML reads the values that it wrote, pydantic takes scalars of a field's own
    -- type as they are, the decimal texts of the listening ports read as the ports, the measured
    -- offset is no infinity nor not-a-number, and a load balancer has trusted proxies, the text of
    -- each of which reads as the network.
    pub load_plan-dump_plan :
        (config : DngConfig)
        → texts.safe_load (texts.safe_dump (dump_config config)) ≡ ok (dump_config config)
        → IsDumped scalars exact config
        → codec_of.load_plan (codec_of.dump_plan config) ≡ ok config
    load_plan-dump_plan config reads good =
        rw (reads, load_config-dump_config scalars exact config good)
