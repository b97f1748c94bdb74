-- ===== src/Discovery/TimeSync.antt =====
-- discovery/time_sync.py.

use Prim.Native.String.{[], ◌∷◌}
use dng_preflight.Base.{
  String, ◌||◌, Option, none, some, List, [], ◌∷◌, Result, ok, err, index_error, map_result, ◌>>=◌,
  ◌==◌, if◌then◌else◌,
}
use dng_preflight.Base.Text.{is_empty, strip, split_once, splitlines}
use dng_preflight.Base.Words.{starts_with, has_text, lower, words}
use dng_preflight.Base.Float.{Float}
use dng_preflight.Models.Snapshot.{TimeSyncState, Probed, detected, not_detected}
use dng_preflight.Discovery.Sntp.{query_ntp_offset}
use dng_preflight.Discovery.Host.{Host, Completed, is_zero, caught}

abbrev pub succeeding : Option Completed → Option String
succeeding none = none
succeeding (some out) = if is_zero out.returncode then some out.stdout else none

-- `text or None`
abbrev non_empty : String → Option String
non_empty text = if is_empty text then none else some text

-- The output of a command that is installed, runs and succeeds.
unfoldable pub output : Host → String → List String → Result (Option String)
unfolding caught
output host command arguments = elim (host.which command) [
  | none ↦ ok none
  | some bin ↦ map_result succeeding (caught (host.run (bin ∷ arguments)))
]

-- The first "reference id" line that has a colon.
unfoldable pub chrony_source : List String → Option String
chrony_source [] = none
chrony_source (line ∷ lines) =
    let rest = chrony_source lines in
    if starts_with "reference id" (lower line)
    then elim (split_once ":" line) [ none ↦ rest | some (_, source) ↦ non_empty (strip source) ]
    else rest

-- `line[1:].split()[0]`
abbrev pub peer : List String → Result (Option String)
peer [] = err index_error
peer (word ∷ rest) = ok (some word)

-- The first line with an asterisk in front.
unfoldable pub ntpq_source : List String → Result (Option String)
unfolding words
ntpq_source [] = ok none
ntpq_source ([] ∷ lines) = ntpq_source lines
ntpq_source ((c ∷ line) ∷ lines) =
    let rest = ntpq_source lines in if starts_with "*" (c ∷ line) then peer (words line) else rest

abbrev pub Daemon : Type 0
Daemon = String × Option String

abbrev named : String → Option String → Daemon
named daemon source = (daemon, source)

unfoldable pub timesyncd : Option String → Daemon
timesyncd none = ("none", none)
timesyncd (some out) =
    if has_text "NTP=yes" out || has_text "NTPSynchronized=yes" out
    then ("systemd-timesyncd", none)
    else ("none", none)

unfoldable pub detect_daemon : Host → Result Daemon
unfolding output chrony_source ntpq_source timesyncd
detect_daemon host = do
  tracking ← output host "chronyc" ("tracking" ∷ [])
  elim tracking [
    | some out ↦ ok ("chronyd", chrony_source (splitlines out))
    | none ↦ do
      peers ← output host "ntpq" ("-pn" ∷ [])
      elim peers [
        | some out ↦ map_result (named "ntpd") (ntpq_source (splitlines out))
        | none ↦ map_result timesyncd (output host "timedatectl" ("show" ∷ []))
      ]
  ]

abbrev pub nothing_found : String
nothing_found = "no time-sync daemon detected and pool.ntp.org unreachable"

unfoldable pub state_of : Daemon → Option Float → Probed TimeSyncState
state_of (daemon, source) none =
    if daemon == "none"
    then not_detected nothing_found
    else detected (record { daemon = daemon; sync_source = source; offset_seconds = none })
state_of (daemon, source) (some offset) =
    detected (record { daemon = daemon; sync_source = source; offset_seconds = some offset })

unfoldable pub probe : Host → Result (Probed TimeSyncState)
unfolding detect_daemon state_of
probe host = do
  daemon ← detect_daemon host
  offset ← query_ntp_offset host
  ok (state_of daemon offset)
