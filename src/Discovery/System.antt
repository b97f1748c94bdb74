-- ===== src/Discovery/System.antt =====
-- discovery/system.py.
use dng_preflight.Base.{
  ℕ, ◌*◌, ◌/◌, String, Bool, true, false, not, ◌&&◌, ◌||◌, Option, none, some, List, [], ◌∷◌, Dict,
  insert, lookup, Result, ok, err, os_error, unicode_error, map_result, ◌>>=◌, ◌==◌, eqb,
  if◌then◌else◌,
}
use dng_preflight.Base.Text.{is_empty, strip, has_char, split_once, split, splitlines}
use dng_preflight.Base.Words.{starts_with, lower, strip_of}
use dng_preflight.Models.Snapshot.{SystemInfo}
use dng_preflight.Discovery.Host.{
  Host, Completed, File, absent, unreadable, contents, garbled, is_zero, caught,
}

-- `key, _, value = line.partition("=")`, for a line that is kept.
unfoldable pub assignment : String → Option (String × String)
assignment raw_line =
    let line = strip raw_line in
    if is_empty line || starts_with "#" line then none else elim (split_once "=" line) [
      | none ↦ none
      | some (key, value) ↦ some (strip key, strip_of "'" (strip_of "\"" (strip value)))
    ]

-- `result[key] = value`, for a line that is kept.
abbrev pub set_line : Option (String × String) → Dict String → Dict String
set_line none result = result
set_line (some (key, value)) result = insert key value result

-- The loop over the lines.
unfoldable pub read_assignments : Dict String → List String → Dict String
read_assignments result [] = result
read_assignments result (raw_line ∷ lines) =
    read_assignments (set_line (assignment raw_line) result) lines

unfoldable pub assignments_in : File → Result (Dict String)
unfolding read_assignments
assignments_in absent = ok []
assignments_in unreadable = err os_error
assignments_in (garbled text) = err unicode_error
assignments_in (contents text) = ok (read_assignments [] (splitlines text))

unfoldable pub read_os_release : Host → Result (Dict String)
unfolding assignments_in
read_os_release host = assignments_in (host.file "/etc/os-release")

-- `text or None`
abbrev or_none : String → Option String
or_none text = if is_empty text then none else some text

abbrev enforce_mode : String → String
enforce_mode text =
    if text == "1" then "enforcing" else if text == "0" then "permissive" else "disabled"

abbrev pub getenforce_mode : Option Completed → Option String
getenforce_mode none = none
getenforce_mode (some out) =
    if not (is_zero out.returncode) then none else or_none (lower (strip out.stdout))

unfoldable pub detect_selinux_mode : Host → Result (Option String)
unfolding caught
detect_selinux_mode host = elim (host.file "/sys/fs/selinux/enforce") [
  | contents text ↦ ok (some (enforce_mode (strip text)))
  | unreadable ↦ ok none
  | garbled text ↦ err unicode_error
  | absent ↦ elim (host.which "getenforce") [
    | none ↦ ok none
    | some bin ↦ map_result getenforce_mode (caught (host.run (bin ∷ [])))
  ]
]

unfoldable pub detect_apparmor_active : Host → Option Bool
detect_apparmor_active host =
    if not (host.system == "Linux")
    then none
    else some (host.is_dir "/sys/kernel/security/apparmor")

abbrev pub listed : Option Completed → Bool
listed none = false
listed (some out) = is_zero out.returncode && not (is_empty (strip out.stdout))

unfoldable pub realm_listed : Host → Result Bool
unfolding caught
realm_listed host = elim (host.which "realm") [
  | none ↦ ok false
  | some realm ↦ map_result listed (caught (host.run (realm ∷ "list" ∷ [])))
]

unfoldable pub is_skipped : String → Bool
is_skipped line = is_empty line || starts_with "#" line || starts_with ";" line

unfoldable pub is_header : String → Bool
is_header line = starts_with "[" line

unfoldable pub is_realms_header : String → Bool
is_realms_header line = starts_with "[realms]" (lower line)

-- The loop over krb5.conf.
unfoldable pub has_realms : Bool → List String → Bool
unfolding is_skipped is_header is_realms_header
has_realms in_realms [] = false
has_realms in_realms (raw_line ∷ lines) =
    let line = strip raw_line in
    let rest = has_realms in_realms lines in
    let section = has_realms (is_realms_header line) lines in
    if is_skipped line
    then rest
    else if is_header line
    then section
    else if in_realms && has_char "=" line
    then true
    else rest

unfoldable pub krb5_realms : File → Bool
unfolding has_realms
krb5_realms absent = false
krb5_realms unreadable = false
krb5_realms (garbled text) = has_realms false (splitlines text)
krb5_realms (contents text) = has_realms false (splitlines text)

unfoldable pub detect_domain_joined : Host → Result Bool
unfolding realm_listed krb5_realms
detect_domain_joined host = do
  found ← realm_listed host
  ok (found || krb5_realms (host.file "/etc/krb5.conf"))

-- `found or fallback`
abbrev pub or_text : Option String → String → String
or_text none fallback = fallback
or_text (some found) fallback = if is_empty found then fallback else found

abbrev or_count : Option ℕ → ℕ → ℕ
or_count none fallback = fallback
or_count (some n) fallback = if eqb n 0 then fallback else n

abbrev first_part : List String → String
first_part [] = ""
first_part (part ∷ parts) = part

unfoldable pub describe : Host → Dict String → Result SystemInfo
unfolding detect_selinux_mode detect_apparmor_active detect_domain_joined
describe host os_release = do
  selinux ← detect_selinux_mode host
  joined ← detect_domain_joined host
  ok (record {
    platform = lower host.system;
    distro = or_text (lookup "ID" os_release) (lower host.system);
    distro_version = or_text (lookup "VERSION_ID" os_release) (first_part (split "-" host.release));
    kernel = host.release;
    arch = host.machine;
    ram_mb = host.total_memory / (1024 * 1024);
    cpu_count = or_count host.os_cpu_count (or_count host.psutil_cpu_count 1);
    selinux_mode = selinux;
    apparmor_active = detect_apparmor_active host;
    domain_joined = joined;
  })

unfoldable pub probe : Host → Result SystemInfo
unfolding read_os_release describe
probe host = do os_release ← read_os_release host; describe host os_release
