-- ===== src/Cli/Saved.antt =====
-- The plans that `plan_cmd` of cli.py builds from a machine can be saved and loaded again.
use dng_preflight.Base.{◌≡◌, sym, subst, String, ok, inl, inr, ◌⊎◌}
use dng_preflight.Models.Snapshot.{EnvironmentSnapshot, Probed, TimeSyncState}
use dng_preflight.Models.Answers.{InterviewAnswers}
use dng_preflight.Models.Config.{build_config}
use dng_preflight.Models.Document.{Scalars, IsExact}
use dng_preflight.Models.Dump.{dump_config}
use dng_preflight.Models.Dumped.Snapshot.{IsFinite, offset_of}
use dng_preflight.Models.Dumped.Answers.{AreBalanced, IsDumped}
use dng_preflight.Discovery.Machine.{Machine, probes_of, collect_on}
use dng_preflight.Discovery.Collected.{Delivers, IsCutOff, collect-ok_iff}
use dng_preflight.Discovery.Storable.{HasClock, ReadsPorts, TimeSync-IsFinite, Network-IsPort}
use dng_preflight.Cli.Documents.{Texts, codec_of, load_plan-dump_plan}

module _ (scalars : Scalars) (exact : IsExact scalars) (machine : Machine)
    (clock : HasClock machine.host) (reads : ReadsPorts scalars exact) where
  -- Found in time, or cut off.
  time_sync-IsFinite :
      (found : Probed TimeSyncState) (hostname : String)
      → Delivers (probes_of machine hostname).time_sync found
        ⊎ IsCutOff "time_sync" (probes_of machine hostname).time_sync found
      → IsFinite (offset_of found)
  time_sync-IsFinite found hostname (inl (_, same)) =
      TimeSync-IsFinite machine.host found clock same
  time_sync-IsFinite found hostname (inr (_, missing)) =
      subst (λ p. IsFinite (offset_of p)) (sym missing) tt

  module _ (captured_at hostname : String) (s : EnvironmentSnapshot)
      (collected : (collect_on machine captured_at hostname).result ≡ ok s)
      (answers : InterviewAnswers)
      (balanced : AreBalanced scalars exact answers.load_balancer) where
    built-IsDumped : IsDumped scalars exact (build_config s answers)
    unfolding build_config collect_on
    built-IsDumped =
        let (_, _, c) =
          (collect-ok_iff (probes_of machine hostname) captured_at hostname s).0 collected in
        record {
          ports = Network-IsPort scalars exact machine.host s.network reads c.network.1;
          offset = time_sync-IsFinite s.time_sync hostname c.time_sync;
          balancer = balanced;
        }

    -- Every plan of a snapshot that was collected on a machine whose clock gives numbers is loaded
    -- again from its document, unchanged, where PyYAML reads the value that it wrote, pydantic
    -- takes scalars of a field's own type as they are and reads the texts 80, 443 and 8443 as
    -- these numbers, and a load balancer in the answers has trusted proxies whose texts read as
    -- the networks.
    pub collect_on-load_plan :
        (texts : Texts)
        → texts.safe_load (texts.safe_dump (dump_config (build_config s answers)))
          ≡ ok (dump_config (build_config s answers))
        → (codec_of texts scalars).load_plan
            ((codec_of texts scalars).dump_plan (build_config s answers))
          ≡ ok (build_config s answers)
    collect_on-load_plan texts written =
        load_plan-dump_plan texts scalars exact (build_config s answers) written built-IsDumped
