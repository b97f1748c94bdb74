-- ===== src/Discovery/Docker.antt =====
-- discovery/docker.py.
use dng_preflight.Base.{
  ℕ, String, Bool, true, false, not, ◌&&◌, Option, none, some, List, [], ◌∷◌, contains, eqb, Result,
  ok, map_result, ◌>>=◌, if◌then◌else◌,
}
use dng_preflight.Base.Int.{ℤ}
use dng_preflight.Base.Text.{is_empty}
use dng_preflight.Models.Snapshot.{DockerInfo, Probed, detected, not_detected}
use dng_preflight.Discovery.Host.{Host, is_zero, run_command}

-- The output of a command that succeeds and prints something.
abbrev pub printed : ℤ × String → Option String
printed (code, out) = if is_zero code && not (is_empty out) then some out else none

abbrev pub succeeded : ℤ × String → Bool
succeeded (code, out) = is_zero code

module _ (host : Host) (docker_bin : String) where
  unfoldable pub engine_version : Result (Option String)
  unfolding run_command
  engine_version = do
    server ← run_command host (docker_bin ∷ "version" ∷ "--format" ∷ "{{.Server.Version}}" ∷ [])
    elim (printed server) [
      | some out ↦ ok (some out)
      | none ↦ map_result printed (run_command host (docker_bin ∷ "--version" ∷ []))
    ]

  unfoldable pub compose_version : Result (Option String)
  unfolding run_command
  compose_version =
      map_result printed (run_command host (docker_bin ∷ "compose" ∷ "version" ∷ "--short" ∷ []))

  unfoldable pub daemon_reachable : Result Bool
  unfolding run_command
  daemon_reachable =
      map_result succeeded
        (run_command host (docker_bin ∷ "info" ∷ "--format" ∷ "{{.ServerVersion}}" ∷ []))

-- `x in xs` on group ids.
abbrev has_id : List ℕ → ℕ → Bool
has_id [] id = false
has_id (g ∷ gs) id = let rest = has_id gs id in if eqb g id then true else rest

abbrev login_in : Option String → List String → Bool
login_in none members = false
login_in (some login) members = contains members login

unfoldable pub current_user_in_docker_group : Host → Bool
current_user_in_docker_group host = elim host.docker_group [
  | none ↦ false
  | some (id, members) ↦ if has_id host.groups id then true else login_in host.login members
]

abbrev pub no_cli : String
no_cli = "docker CLI not found in PATH"

abbrev pub no_version : String
no_version = "docker CLI present but `docker version` failed"

unfoldable pub describe : Host → String → Option String → Result (Probed DockerInfo)
unfolding compose_version daemon_reachable current_user_in_docker_group
describe host bin none = ok (not_detected no_version)
describe host bin (some engine) = do
  compose ← compose_version host bin
  reachable ← daemon_reachable host bin
  ok (
      detected (record {
        engine_version = engine;
        compose_version = compose;
        daemon_reachable = reachable;
        current_user_in_docker_group = current_user_in_docker_group host;
      }))

unfoldable pub probe : Host → Result (Probed DockerInfo)
unfolding describe engine_version
probe host = elim (host.which "docker") [
  | none ↦ ok (not_detected no_cli)
  | some bin ↦ do engine ← engine_version host bin; describe host bin engine
]
