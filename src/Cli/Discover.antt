-- ===== src/Cli/Discover.antt =====
-- `asyncio.run(collect(hostname))` in the commands of cli.py, on a machine.
use dng_preflight.Base.{String}
use dng_preflight.Base.Exec.{Exec}
use dng_preflight.Models.Snapshot.{EnvironmentSnapshot}
use dng_preflight.Generators.Disk.{Disk}
use dng_preflight.Cli.Terminal.{World}
use dng_preflight.Discovery.Machine.{Machine, collect_on}

-- The collection ends at the time `captured_at`, and neither writes nor prints.
unfoldable pub discover :
    {D : Disk} → Machine → (captured_at : String) → String → Exec (World D) EnvironmentSnapshot
discover machine captured_at hostname w = ((collect_on machine captured_at hostname).result, w)
