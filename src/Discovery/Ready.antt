-- ===== src/Discovery/Ready.antt =====
-- The machines that discovery/ and validation/hard_stops.py together accept, described by what
-- the machine answers.
use dng_preflight.Base.{
  ◌≡◌, ◌≢◌, refl, sym, ap, ◌∙◌, subst, ◌↔◌, ◌⊎◌, inl, inr, String, Option, none, some, ok,
  index_error, ok-injective, Bool-cases, ◌==◌, Dict, Result-cases, bind-eq-ok,
}
use dng_preflight.Base.Float.{Float}
use dng_preflight.Models.Snapshot.{SystemInfo, TimeSyncState, Probed}
use dng_preflight.Validation.Rules.{IsSmall, IsSynchronised}
use dng_preflight.Discovery.Host.{Host, unreadable, File}
use dng_preflight.Discovery.System
use dng_preflight.Discovery.System.{
  detect_domain_joined, detect_selinux_mode, read_os_release, assignments_in,
}
use dng_preflight.Discovery.Dns.{public_resolvers}
use dng_preflight.Discovery.TimeSync
use dng_preflight.Discovery.TimeSync.{state_of, Daemon, detect_daemon}
use dng_preflight.Discovery.Sntp.{query_ntp_offset}
use dng_preflight.Discovery.Peers.{IsStuck, IsGarbled, probe-raises_iff}
use dng_preflight.Discovery.Realms.{IsListed}
use dng_preflight.Discovery.Sections.{IsRealmFile}
use dng_preflight.Discovery.Resolution.{SomeAnswers}
use dng_preflight.Discovery.Egress.{IsSafe}
use dng_preflight.Discovery.Offset.{IsClose, query_ntp_offset-IsClose_iff}
use dng_preflight.Discovery.Legible.{IsLegibleHost, System-Returned}
use dng_preflight.Discovery.Machine.{Machine}

pub record IsReady (machine : Machine) (hostname : String) : Type 0 where
  -- The probes of the system and of the clock do not raise.
  pub readable : machine.host.file "/etc/os-release" ≢ unreadable
  pub unstuck : ¬ IsStuck machine.host
  pub standalone : ¬ (IsListed machine.host ⊎ IsRealmFile (machine.host.file "/etc/krb5.conf"))
  pub shielded : IsSafe machine.host
  pub close : IsClose machine.host
  pub resolved :
      SomeAnswers machine.resolver hostname "A" public_resolvers
      ⊎ SomeAnswers machine.resolver hostname "AAAA" public_resolvers

-- An unreadable file has no assignments.
unreadable-raises :
    (file : File) (d : Dict String) → file ≡ unreadable → ¬ (assignments_in file ≡ ok d)
unfolding assignments_in
unreadable-raises file d e h = cc (rw e at h)

state_of-IsSynchronised_iff :
    (daemon : Daemon) (offset : Option Float)
    → IsSynchronised (state_of daemon offset) ↔ IsSmall offset
unfolding state_of
state_of-IsSynchronised_iff (daemon, source) none = elim (Bool-cases (daemon == "none")) [
  | inl e ↦ rw e (λ h. h, λ h. h)
  | inr n ↦ rw n (λ h. h, λ h. h)
]
state_of-IsSynchronised_iff (daemon, source) (some offset) = (λ h. h, λ h. h)

module _ (host : Host) (legible : IsLegibleHost host) where
  pub System-ok_iff :
      ((s : SystemInfo) × (System.probe host ≡ ok s)) ↔ (host.file "/etc/os-release" ≢ unreadable)
  unfolding System.probe read_os_release
  System-ok_iff = (
    (λ (s, h) e.
        let (d, read, _) = bind-eq-ok (read_os_release host) _ h in
        unreadable-raises (host.file "/etc/os-release") d e read),
    System-Returned host legible,
  )

  unmangled : ¬ IsGarbled host
  unmangled (inl (_, _, m)) = legible.commands _ m
  unmangled (inr (inl (_, (_, _, m)))) = legible.commands _ m
  unmangled (inr (inr (_, _, (_, _, m)))) = legible.commands _ m

  pub TimeSync-ok_iff :
      ((s : Probed TimeSyncState) × (TimeSync.probe host ≡ ok s)) ↔ (¬ IsStuck host)
  TimeSync-ok_iff = elim (Result-cases (TimeSync.probe host)) [
    | inl (s, same) ↦ (
      (λ _. λ stuck. cc (same, (probe-raises_iff host index_error).1 (inr (refl, stuck)))),
      λ _. (s, same),
    )
    | inr (e, raised) ↦ (
      (λ (s, h). cc (raised, h)),
      λ free. elim ((probe-raises_iff host e).0 raised) [
        | inl (_, bad) ↦ absurd (unmangled bad)
        | inr (_, stuck) ↦ absurd (free stuck)
      ],
    )
  ]

module _ (host : Host) where
  pub System-joined :
      (s : SystemInfo) → System.probe host ≡ ok s → detect_domain_joined host ≡ ok s.domain_joined
  unfolding System.probe System.describe
  System-joined s h =
      let (d, _, h₁) = bind-eq-ok (read_os_release host) _ h in
      let (selinux, _, h₂) = bind-eq-ok (detect_selinux_mode host) _ h₁ in
      let (joined, found, h₃) = bind-eq-ok (detect_domain_joined host) _ h₂ in
      found ∙ ap (λ x. ok x.domain_joined) (ok-injective _ s h₃)

  pub TimeSync-IsSynchronised_iff :
      (s : Probed TimeSyncState) → TimeSync.probe host ≡ ok s → IsSynchronised s ↔ IsClose host
  unfolding TimeSync.probe
  TimeSync-IsSynchronised_iff s h =
      let (daemon, _, h₁) = bind-eq-ok (detect_daemon host) _ h in
      let (offset, measured, h₂) = bind-eq-ok (query_ntp_offset host) _ h₁ in
      let same = ok-injective (state_of daemon offset) s h₂ in
      let (to, from) = state_of-IsSynchronised_iff daemon offset in
      let (near, far) = query_ntp_offset-IsClose_iff host offset measured in
      (
        (λ k. near (to (subst IsSynchronised (sym same) k))),
        λ c. subst IsSynchronised same (from (far c)),
      )
