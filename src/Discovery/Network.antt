-- ===== src/Discovery/Network.antt =====
-- discovery/network.py.
use dng_preflight.Base.{
  ℕ, String, Bool, true, false, not, ◌&&◌, ◌||◌, Option, none, some, List, [], ◌∷◌, map, filter,
  Dict, ◌==◌, eqb, Result, ok, err, unicode_error, map_result, ◌>>=◌, if◌then◌else◌, truthy,
}
use dng_preflight.Base.Text.{is_empty, strip, split_once, splitlines}
use dng_preflight.Base.Words.{starts_with, words}
use dng_preflight.Models.Snapshot.{NetworkInfo}
use dng_preflight.Discovery.Host.{
  Host, Completed, absent, unreadable, contents, garbled, caught, Connection,
}

-- `a.family.name in {"AF_INET", "AF_INET6"}`
abbrev pub is_inet : String × String → Bool
is_inet (family, address) = family == "AF_INET" || family == "AF_INET6"

abbrev pub address_of : String × String → String
address_of (family, address) = address

unfoldable pub interfaces : Dict (List (String × String)) → Dict (List String)
interfaces [] = []
interfaces ((name, addrs) ∷ rest) =
    let ips = map address_of (filter is_inet addrs) in
    let others = interfaces rest in if truthy ips then (name, ips) ∷ others else others

-- The interface of a row of /proc/net/route whose destination is 0.
abbrev default_row : List String → Option String
default_row (iface ∷ destination ∷ rest) = if destination == "00000000" then some iface else none
default_row _ = none

unfoldable pub default_route : List String → Option String
unfolding words
default_route [] = none
default_route (raw ∷ lines) = elim (default_row (words raw)) [
  | some iface ↦ some iface
  | none ↦ default_route lines
]

-- `text.splitlines()[1:]`
abbrev rest_of : List String → List String
rest_of [] = []
rest_of (line ∷ lines) = lines

abbrev interface_of : Option (String × String) → Option String
interface_of none = none
interface_of (some (_, iface)) = some (strip iface)

unfoldable pub darwin_route : List String → Option String
darwin_route [] = none
darwin_route (raw ∷ lines) =
    let line = strip raw in
    let rest = darwin_route lines in
    if starts_with "interface:" line then interface_of (split_once ":" line) else rest

abbrev pub darwin_output : Option Completed → Option String
unfolding darwin_route
darwin_output none = none
darwin_output (some out) = darwin_route (splitlines out.stdout)

unfoldable pub default_route_iface : Host → Result (Option String)
unfolding default_route darwin_output caught
default_route_iface host = elim (host.file "/proc/net/route") [
  | contents text ↦ ok (default_route (rest_of (splitlines text)))
  | unreadable ↦ ok none
  | garbled text ↦ err unicode_error
  | absent ↦
      if host.system == "Darwin"
      then elim (host.which "route") [
        | none ↦ ok none
        | some bin ↦
            map_result darwin_output (caught (host.run (bin ∷ "-n" ∷ "get" ∷ "default" ∷ [])))
      ]
      else ok none
]

abbrev pub is_relevant : ℕ → Bool
is_relevant port = eqb port 80 || eqb port 443 || eqb port 8443

-- `result[port] = name`
abbrev pub set_port : ℕ → String → List (ℕ × String) → List (ℕ × String)
set_port port name [] = (port, name) ∷ []
set_port port name ((p, n) ∷ ports) =
    let rest = set_port port name ports in if eqb p port then (p, name) ∷ ports else (p, n) ∷ rest

abbrev pub name_or_unknown : Option String → String
name_or_unknown none = "unknown"
name_or_unknown (some name) = name

abbrev pub add_connection : Bool → Option ℕ → Option String → List (ℕ × String) → List (ℕ × String)
add_connection false port name result = result
add_connection true none name result = result
add_connection true (some port) name result =
    if is_relevant port then set_port port (name_or_unknown name) result else result

unfoldable pub add_connections : List (ℕ × String) → List Connection → List (ℕ × String)
add_connections result [] = result
add_connections result (conn ∷ conns) =
    add_connections (add_connection conn.is_listening conn.port conn.process_name result) conns

unfoldable pub listening_ports : Option (List Connection) → List (ℕ × String)
unfolding add_connections
listening_ports none = []
listening_ports (some conns) = add_connections [] conns

abbrev pub egress_urls : List String
egress_urls = "https://api.ipify.org" ∷ "https://ifconfig.me/ip" ∷ "https://icanhazip.com" ∷ []

-- The address in a response: its text, if the status is 200 and the text is not blank.
unfoldable pub address_in : Option (ℕ × String) → Option String
address_in none = none
address_in (some (status, text)) =
    if eqb status 200 && not (is_empty (strip text)) then some (strip text) else none

unfoldable pub egress_from : (String → Option (ℕ × String)) → List String → Option String
unfolding address_in
egress_from get [] = none
egress_from get (url ∷ urls) = elim (address_in (get url)) [
  | some ip ↦ some ip
  | none ↦ egress_from get urls
]

unfoldable pub egress_public_ip : Host → Option String
unfolding egress_from
egress_public_ip host = egress_from host.get egress_urls

unfoldable pub probe : Host → Result NetworkInfo
unfolding interfaces listening_ports default_route_iface egress_public_ip
probe host = do
  iface ← default_route_iface host
  ok (record {
    interfaces = interfaces host.net_if_addrs;
    default_route_iface = iface;
    listening_ports = listening_ports host.net_connections;
    egress_public_ip = egress_public_ip host;
  })
