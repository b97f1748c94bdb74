-- ===== src/Discovery/Storable.antt =====
-- The snapshots that discovery/ takes can be saved: `model_dump` of models/snapshot.py loses nothing
-- of them.
use dng_preflight.Base.{
  err, eqb, Bool, ◌==◌, ℕ, ◌≡◌, refl, sym, subst, String, true, false, Option, none, some, List, [],
  ◌∷◌, All, ok, ok-injective, arith, ◌⊎◌, inl, inr, Bool-cases, Result, map_result, bind-eq-ok, ltb,
  length,
}
use dng_preflight.Base.Format.{show}
use dng_preflight.Base.Int.{pos}
use dng_preflight.Base.Float.{Float, IsNumber}
use dng_preflight.Base.Arithmetic.{
  of_int, add, shift_down, add-IsNumber, subtract-IsNumber, shift_down-IsNumber, of_int-IsNumber,
}
use dng_preflight.Models.Snapshot.{Probed, TimeSyncState, NetworkInfo}
use dng_preflight.Models.Document.{text, Scalars, IsExact}
use dng_preflight.Models.Dumped.Snapshot.{IsFinite, IsPort, offset_of}
use dng_preflight.Discovery.Host.{Host, Exchange, Connection}
use dng_preflight.Discovery.Network
use dng_preflight.Discovery.Network.{
  is_relevant, set_port, name_or_unknown, add_connection, add_connections, listening_ports,
}
use dng_preflight.Discovery.TimeSync
use dng_preflight.Discovery.TimeSync.{Daemon, state_of, detect_daemon}
use dng_preflight.Discovery.Sntp

-- The host's clock gives numbers.
abbrev pub HasClock : Host → Type 0
HasClock host =
    (x : Exchange)
    → host.exchange Sntp.ntp_packet Sntp.ntp_host Sntp.ntp_port ≡ some x
    → IsNumber x.sent × IsNumber x.received

server_time-IsNumber : (stamp : ℕ × ℕ) → IsNumber (Sntp.server_time stamp)
unfolding Sntp.server_time
server_time-IsNumber (secs, frac) =
    add-IsNumber (of_int (Sntp.unix_seconds secs)) (shift_down 32 (of_int (pos frac)))
      (of_int-IsNumber (Sntp.unix_seconds secs))
      (shift_down-IsNumber 32 (of_int (pos frac)) (of_int-IsNumber (pos frac)))

offset_from-IsNumber :
    (t1 t4 : Float) (stamp : ℕ × ℕ)
    → IsNumber t1
    → IsNumber t4
    → IsNumber (Sntp.offset_from t1 t4 stamp)
unfolding Sntp.offset_from
offset_from-IsNumber t1 t4 stamp h k =
    subtract-IsNumber (Sntp.server_time stamp) (shift_down 1 (add t1 t4))
      (server_time-IsNumber stamp) (shift_down-IsNumber 1 (add t1 t4) (add-IsNumber t1 t4 h k))

map_result-IsFinite :
    {A : Type 0} (f : A → Float) (r : Result A) (offset : Option Float)
    → ((a : A) → IsNumber (f a))
    → map_result (λ a. some (f a)) r ≡ ok offset
    → IsFinite offset
map_result-IsFinite f (ok a) offset number h =
    subst IsFinite (ok-injective (some (f a)) offset h) (number a)
map_result-IsFinite f (err _) offset number h = cc h

offset_of-IsFinite :
    (exchange : Option Exchange) (offset : Option Float)
    → ((x : Exchange) → exchange ≡ some x → IsNumber x.sent × IsNumber x.received)
    → Sntp.offset_of exchange ≡ ok offset
    → IsFinite offset
unfolding Sntp.offset_of
offset_of-IsFinite none offset clock h = subst IsFinite (ok-injective none offset h) tt
offset_of-IsFinite (some x) offset clock h = elim (Bool-cases (ltb (length x.reply) 48)) [
  | inl short ↦ subst IsFinite (ok-injective none offset (rw short at h)) tt
  | inr whole ↦
      let (sent, received) = clock x refl in
      map_result-IsFinite (Sntp.offset_from x.sent x.received) (Sntp.unpack (Sntp.transmit x.reply))
        offset (λ stamp. offset_from-IsNumber x.sent x.received stamp sent received) (rw whole at h)
]

state_of-IsFinite :
    (daemon : Daemon) (offset : Option Float)
    → IsFinite offset
    → IsFinite (offset_of (state_of daemon offset))
unfolding state_of
state_of-IsFinite daemon none h = elim (Bool-cases (daemon.0 == "none")) [
  | inl e ↦ rw e tt
  | inr e ↦ rw e tt
]
state_of-IsFinite daemon (some x) h = h

pub TimeSync-IsFinite :
    (host : Host) (s : Probed TimeSyncState)
    → HasClock host
    → TimeSync.probe host ≡ ok s
    → IsFinite (offset_of s)
unfolding TimeSync.probe Sntp.query_ntp_offset
TimeSync-IsFinite host s clock h =
    let (daemon, _, h₁) = bind-eq-ok (detect_daemon host) _ h in
    let (offset, measured, h₂) = bind-eq-ok (Sntp.query_ntp_offset host) _ h₁ in
    subst (λ x. IsFinite (offset_of x)) (ok-injective (state_of daemon offset) s h₂)
      (state_of-IsFinite daemon offset (
        offset_of-IsFinite (host.exchange Sntp.ntp_packet Sntp.ntp_host Sntp.ntp_port) offset clock
          measured))

-- The ports that the probe looks for.
abbrev IsKnown : ℕ × String → Type 0
IsKnown (port, name) = is_relevant port ≡ true

set_port-IsKnown :
    (port : ℕ) (name : String) (ports : List (ℕ × String))
    → is_relevant port ≡ true
    → All IsKnown ports
    → All IsKnown (set_port port name ports)
set_port-IsKnown port name [] h all = (h, tt)
set_port-IsKnown port name ((p, n) ∷ ports) h (k, all) = elim (Bool-cases (eqb p port)) [
  | inl e ↦ rw e (k, all)
  | inr e ↦ rw e (k, set_port-IsKnown port name ports h all)
]

add_connection-IsKnown :
    (listening : Bool) (port : Option ℕ) (name : Option String) (ports : List (ℕ × String))
    → All IsKnown ports
    → All IsKnown (add_connection listening port name ports)
add_connection-IsKnown false port name ports all = all
add_connection-IsKnown true none name ports all = all
add_connection-IsKnown true (some port) name ports all = elim (Bool-cases (is_relevant port)) [
  | inl e ↦ rw e (set_port-IsKnown port (name_or_unknown name) ports e all)
  | inr e ↦ rw e all
]

add_connections-IsKnown :
    (ports : List (ℕ × String)) (conns : List Connection)
    → All IsKnown ports
    → All IsKnown (add_connections ports conns)
unfolding add_connections
add_connections-IsKnown ports [] all = all
add_connections-IsKnown ports (conn ∷ conns) all =
    add_connections-IsKnown (add_connection conn.is_listening conn.port conn.process_name ports)
      conns (add_connection-IsKnown conn.is_listening conn.port conn.process_name ports all)

listening_ports-IsKnown : (conns : Option (List Connection)) → All IsKnown (listening_ports conns)
unfolding listening_ports
listening_ports-IsKnown none = tt
listening_ports-IsKnown (some conns) = add_connections-IsKnown [] conns tt

module _ (scalars : Scalars) (exact : IsExact scalars) where
  -- The texts of the ports that the probe looks for read as the ports.
  pub record ReadsPorts : Type 0 where
    pub http : scalars.integer_of (text "80") ≡ some 80
    pub https : scalars.integer_of (text "443") ≡ some 443
    pub admin : scalars.integer_of (text "8443") ≡ some 8443

  known-port :
      (port : ℕ)
      → ReadsPorts
      → (port ≡ 80) ⊎ (port ≡ 443) ⊎ (port ≡ 8443)
      → scalars.integer_of (text (show port)) ≡ some port
  unfolding show
  known-port port reads (inl e) =
      subst (λ p. scalars.integer_of (text (show p)) ≡ some p) (sym e) reads.http
  known-port port reads (inr (inl e)) =
      subst (λ p. scalars.integer_of (text (show p)) ≡ some p) (sym e) reads.https
  known-port port reads (inr (inr e)) =
      subst (λ p. scalars.integer_of (text (show p)) ≡ some p) (sym e) reads.admin

  known-IsPort :
      (ports : List (ℕ × String))
      → ReadsPorts
      → All IsKnown ports
      → All (IsPort scalars exact) ports
  known-IsPort [] reads all = tt
  known-IsPort ((port, name) ∷ ports) reads (k, all) =
      (known-port port reads (ground arith), known-IsPort ports reads all)

  pub Network-IsPort :
      (host : Host) (found : NetworkInfo)
      → ReadsPorts
      → Network.probe host ≡ ok found
      → All (IsPort scalars exact) found.listening_ports
  unfolding Network.probe
  Network-IsPort host found reads h =
      let (iface, _, same) = bind-eq-ok (Network.default_route_iface host) _ h in
      subst (λ n. All (IsPort scalars exact) n.listening_ports) (ok-injective _ found same)
        (known-IsPort (listening_ports host.net_connections) reads
          (listening_ports-IsKnown host.net_connections))
