-- ===== src/Discovery/Host.antt =====
-- What the probes of discovery/ read from a host: its commands, files and libraries' answers. The
-- host answers alike whenever it is asked.
use dng_preflight.Base.{
  ℕ, String, Bool, false, Option, none, some, List, ◌∷◌, Dict, eqb, Result, ok, err, unicode_error,
  map_result,
}
use dng_preflight.Base.Int.{ℤ, pos, negsuc}
use dng_preflight.Base.Text.{strip}
use dng_preflight.Base.Float.{Float}

-- The fields of `subprocess.CompletedProcess` that are read.
pub record Completed : Type 0 where
  pub returncode : ℤ
  pub stdout : String

-- What `subprocess.run` does with `text=True` and a timeout: the command ends, or it raises
-- `SubprocessError` or `OSError`, or its output is no text in the locale's encoding, which raises
-- `UnicodeDecodeError`.
pub data Ran : Type 0 where
  completed : Completed → Ran
  failed undecodable : Ran

-- A path that does not exist, one whose reading raises `OSError`, a text, or bytes that are none in
-- the locale's encoding, with what `errors="ignore"` leaves of them.
pub data File : Type 0 where
  absent : File
  unreadable : File
  contents : String → File
  garbled : String → File

-- One of psutil's connections, with the name of its process if there is one to be had.
pub record Connection : Type 0 where
  pub is_listening : Bool
  pub port : Option ℕ
  pub process_name : Option String

-- What `time.time()` gives before and after, and the bytes received.
pub record Exchange : Type 0 where
  pub sent : Float
  pub received : Float
  pub reply : List ℕ

pub record Host : Type 0 where
  -- `shutil.which`
  pub which : String → Option String
  -- `subprocess.run`
  pub run : List String → Ran
  pub file : String → File
  -- `Path.is_dir`
  pub is_dir : String → Bool
  -- `platform.system()`, and `uname`
  pub system : String
  pub release : String
  pub machine : String
  -- `psutil.virtual_memory().total`
  pub total_memory : ℕ
  -- `os.cpu_count()` and `psutil.cpu_count(logical=True)`
  pub os_cpu_count : Option ℕ
  pub psutil_cpu_count : Option ℕ
  -- `grp.getgrnam("docker")`, as its id and members
  pub docker_group : Option (ℕ × List String)
  pub groups : List ℕ
  -- `os.getlogin()`, or none where it raises
  pub login : Option String
  -- `psutil.net_if_addrs()`, by family and address
  pub net_if_addrs : Dict (List (String × String))
  -- `psutil.net_connections(kind="inet")`, or none where access is denied
  pub net_connections : Option (List Connection)
  -- status and text of an HTTP GET, or none where it raises `HTTPError`
  pub get : String → Option (ℕ × String)
  -- The packet is sent to a host and port, and a reply received: the clock before and after and the
  -- bytes, or none where the socket raises or times out.
  pub exchange : (packet : List ℕ) (server : String) (port : ℕ) → Option Exchange

abbrev pub is_zero : ℤ → Bool
is_zero (pos n) = eqb n 0
is_zero (negsuc n) = false

-- The value of `subprocess.run` under `except (subprocess.SubprocessError, OSError)`, or none where
-- that catches what it raises.
unfoldable pub caught : Ran → Result (Option Completed)
caught (completed result) = ok (some result)
caught failed = ok none
caught undecodable = err unicode_error

abbrev pub code_and_output : Option Completed → ℤ × String
code_and_output none = (negsuc 0, "")
code_and_output (some result) = (result.returncode, strip result.stdout)

-- `_run` of docker.py and firewall.py.
unfoldable pub run_command : Host → List String → Result (ℤ × String)
unfolding caught
run_command host cmd = map_result code_and_output (caught (host.run cmd))

-- The command's result, where `shutil.which` finds it.
unfoldable pub run_found : Host → List String → Option String → Result (Option (ℤ × String))
unfolding run_command
run_found host arguments none = ok none
run_found host arguments (some bin) = map_result some (run_command host (bin ∷ arguments))

unfoldable pub attempt : Host → String → List String → Result (Option (ℤ × String))
unfolding run_found
attempt host command arguments = run_found host arguments (host.which command)
