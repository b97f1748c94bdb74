-- ===== src/Discovery/Legible.antt =====
-- Machines whose outputs, files and certificates can all be decoded: what the probes of discovery/
-- return on them.
use dng_preflight.Base.{
  ◌≡◌, ◌≢◌, refl, ap, ◌∙◌, inl, inr, String, Option, none, some, List, [], ◌∷◌, Result, ok, err,
  Error, map_result, ◌>>=◌, Option-cases, Result-cases, Bool-cases, ◌==◌, Dict,
}
use dng_preflight.Discovery.Host.{
  Host, Ran, completed, failed, undecodable, File, absent, unreadable, contents, garbled, caught,
  code_and_output, run_command,
}
use dng_preflight.Discovery.System
use dng_preflight.Discovery.System.{
  detect_selinux_mode, detect_domain_joined, read_os_release, assignments_in, getenforce_mode,
}
use dng_preflight.Discovery.Docker
use dng_preflight.Discovery.Network
use dng_preflight.Discovery.Network.{default_route_iface, darwin_output}
use dng_preflight.Discovery.Dns
use dng_preflight.Discovery.Dns.{Resolver}
use dng_preflight.Discovery.Tls
use dng_preflight.Discovery.Tls.{Tls, Certificate, fetch_peer_cert}
use dng_preflight.Discovery.Firewall
use dng_preflight.Discovery.Realms.{detect_domain_joined_iff}
use dng_preflight.Discovery.Resolution.{file-cases, probe-resolves_iff}
use dng_preflight.Discovery.Reported.{probe-IsReported, IsGarbled}
use dng_preflight.Discovery.Observed.{IsSpoilt, probe-IsObserved}
use dng_preflight.Discovery.Machine.{Machine}

abbrev pub Returned : {A : Type 0} → Result A → Type 0
Returned {A} r = (a : A) × (r ≡ ok a)

Returned-bind :
    {A B : Type 0} (r : Result A) (f : A → Result B)
    → Returned r
    → ((a : A) → Returned (f a))
    → Returned (r >>= f)
Returned-bind r f (a, h) rest = let (b, k) = rest a in (b, ap (λ x. x >>= f) h ∙ k)

Returned-map : {A B : Type 0} (f : A → B) (r : Result A) → Returned r → Returned (map_result f r)
Returned-map f r (a, h) = (f a, ap (map_result f) h)

-- It returns, since it could only raise what it does not.
Returned-of : {A : Type 0} (r : Result A) → ((e : Error) → ¬ (r ≡ err e)) → Returned r
Returned-of r fine = elim (Result-cases r) [ inl found ↦ found | inr (e, h) ↦ absurd (fine e h) ]

-- Every command's output and every file is text.
pub record IsLegibleHost (host : Host) : Type 0 where
  pub commands : (cmd : List String) → host.run cmd ≢ undecodable
  pub files : (path rest : String) → host.file path ≢ garbled rest

-- And every part of a certificate can be decoded.
pub record IsLegible (machine : Machine) : Type 0 where
  pub host : IsLegibleHost machine.host
  pub certificates :
      (der : machine.tls.Der) (cert : Certificate) (e : Error)
      → machine.tls.load_der der ≡ some cert
      → ¬ IsSpoilt cert e

module _ (host : Host) (legible : IsLegibleHost host) where
  caught_of : (r : Ran) → r ≢ undecodable → Returned (caught r)
  unfolding caught
  caught_of (completed result) h = (_, refl)
  caught_of failed h = (_, refl)
  caught_of undecodable h = absurd (h refl)

  caught-Returned : (cmd : List String) → Returned (caught (host.run cmd))
  caught-Returned cmd = caught_of (host.run cmd) (legible.commands cmd)

  run_command-Returned : (cmd : List String) → Returned (run_command host cmd)
  unfolding run_command
  run_command-Returned cmd =
      Returned-map code_and_output (caught (host.run cmd)) (caught-Returned cmd)

  engine_version-Returned : (bin : String) → Returned (Docker.engine_version host bin)
  unfolding Docker.engine_version
  engine_version-Returned bin =
      Returned-bind (run_command host (bin ∷ "version" ∷ "--format" ∷ "{{.Server.Version}}" ∷ [])) _
        (run_command-Returned _)
        (λ server. elim (Option-cases (Docker.printed server)) [
          | inl e ↦ rw e (
              Returned-map Docker.printed (run_command host (bin ∷ "--version" ∷ []))
                (run_command-Returned _))
          | inr (out, e) ↦ (some out, rw e)
        ])

  describe-Returned :
      (bin : String) (engine : Option String) → Returned (Docker.describe host bin engine)
  unfolding Docker.describe Docker.compose_version Docker.daemon_reachable
  describe-Returned bin none = (_, refl)
  describe-Returned bin (some engine) =
      Returned-bind (Docker.compose_version host bin) _
        (Returned-map Docker.printed _ (run_command-Returned _))
        (λ compose.
          Returned-bind (Docker.daemon_reachable host bin) _
            (Returned-map Docker.succeeded _ (run_command-Returned _)) (λ reachable. (_, refl)))

  pub Docker-Returned : Returned (Docker.probe host)
  unfolding Docker.probe
  Docker-Returned = elim (Option-cases (host.which "docker")) [
    | inl e ↦ rw (e, Docker.probe) (_, refl)
    | inr (bin, e) ↦
        rw (e, Docker.probe)
          (Returned-bind (Docker.engine_version host bin) _ (engine_version-Returned bin)
            (describe-Returned bin))
  ]

  selinux-Returned : Returned (detect_selinux_mode host)
  unfolding detect_selinux_mode
  selinux-Returned = elim (file-cases (host.file "/sys/fs/selinux/enforce")) [
    | inl e ↦ elim (Option-cases (host.which "getenforce")) [
      | inl n ↦ rw (e, n, detect_selinux_mode) (none, refl)
      | inr (bin, n) ↦
          rw (e, n, detect_selinux_mode)
            (Returned-map getenforce_mode (caught (host.run (bin ∷ [])))
              (caught-Returned (bin ∷ [])))
    ]
    | inr (inl e) ↦ rw (e, detect_selinux_mode) (none, refl)
    | inr (inr (inl (text, e))) ↦ rw (e, detect_selinux_mode) (_, refl)
    | inr (inr (inr (rest, e))) ↦ absurd (legible.files "/sys/fs/selinux/enforce" rest e)
  ]

  joined-Returned : Returned (detect_domain_joined host)
  joined-Returned = Returned-of (detect_domain_joined host) (λ e h.
      let (_, (bin, _, mangled)) = ((detect_domain_joined_iff host).1 e).0 h in
      legible.commands _ mangled)

  system_facts-Returned : (os_release : Dict String) → Returned (System.describe host os_release)
  unfolding System.describe
  system_facts-Returned os_release =
      Returned-bind (detect_selinux_mode host) _ selinux-Returned (λ selinux.
        Returned-bind (detect_domain_joined host) _ joined-Returned (λ joined. (_, refl)))

  assignments-Returned :
      (file : File)
      → file ≢ unreadable
      → ((rest : String) → file ≢ garbled rest)
      → Returned (assignments_in file)
  unfolding assignments_in
  assignments-Returned absent h g = (_, refl)
  assignments-Returned unreadable h g = absurd (h refl)
  assignments-Returned (contents text) h g = (_, refl)
  assignments-Returned (garbled rest) h g = absurd (g rest refl)

  pub System-Returned : host.file "/etc/os-release" ≢ unreadable → Returned (System.probe host)
  unfolding System.probe read_os_release
  System-Returned readable =
      Returned-bind (read_os_release host) (System.describe host)
        (assignments-Returned (host.file "/etc/os-release") readable
          (legible.files "/etc/os-release"))
        system_facts-Returned

  route-Returned : Returned (default_route_iface host)
  unfolding default_route_iface
  route-Returned = elim (file-cases (host.file "/proc/net/route")) [
    | inl e ↦ elim (Bool-cases (host.system == "Darwin")) [
      | inr other ↦ rw (e, other, default_route_iface) (none, refl)
      | inl darwin ↦ elim (Option-cases (host.which "route")) [
        | inl n ↦ rw (e, darwin, n, default_route_iface) (none, refl)
        | inr (bin, n) ↦
            rw (e, darwin, n, default_route_iface)
              (Returned-map darwin_output (caught (host.run (bin ∷ "-n" ∷ "get" ∷ "default" ∷ [])))
                (caught-Returned _))
      ]
    ]
    | inr (inl e) ↦ rw (e, default_route_iface) (none, refl)
    | inr (inr (inl (text, e))) ↦ rw (e, default_route_iface) (_, refl)
    | inr (inr (inr (rest, e))) ↦ absurd (legible.files "/proc/net/route" rest e)
  ]

  pub Network-Returned : Returned (Network.probe host)
  unfolding Network.probe
  Network-Returned = Returned-bind (default_route_iface host) _ route-Returned (λ iface. (_, refl))

  pub Dns-Returned :
      (resolver : Resolver) (hostname : String) → Returned (Dns.probe resolver host hostname)
  Dns-Returned resolver hostname = Returned-of (Dns.probe resolver host hostname) (λ e h.
      let (_, (rest, bad)) = ((probe-resolves_iff resolver hostname host).0 e).0 h in
      legible.files "/etc/resolv.conf" rest bad)

  pub not-IsGarbled : ¬ IsGarbled host
  not-IsGarbled (inl (_, _, m)) = legible.commands _ m
  not-IsGarbled (inr (inl (_, (_, _, m)))) = legible.commands _ m
  not-IsGarbled (inr (inr (_, _, (_, _, m)))) = legible.commands _ m

  pub Firewall-Returned : Returned (Firewall.probe host)
  Firewall-Returned = elim (probe-IsReported host) [
    | inl (_, bad) ↦ absurd (not-IsGarbled bad)
    | inr (s, same, _) ↦ (_, same)
  ]

module _ (machine : Machine) (legible : IsLegible machine) where
  pub Tls-Returned : Returned (Tls.probe machine.tls)
  Tls-Returned = elim (probe-IsObserved machine.tls) [
    | inl (_, (seen, same, _, _)) ↦ (seen, same)
    | inr (inl (d, _, _, (seen, same, _, _))) ↦ (seen, same)
    | inr (inr (d, cert, _, loaded, described)) ↦ elim described [
      | inl (seen, same, _) ↦ (seen, same)
      | inr (e, _, spoilt) ↦ absurd (legible.certificates d cert e loaded spoilt)
    ]
  ]
