-- ===== src/Discovery/Peers.antt =====
-- When the probe of discovery/time_sync.py raises.
use Prim.Native.String.{[], ◌∷◌}
use dng_preflight.Base.{
  ◌∙◌, ◌≡◌, sym, ap, ◌↔◌, ◌⊎◌, inl, inr, String, Option, [], ◌∷◌, Result, ok, err, Error,
  index_error, unicode_error, err-injective, map_result,
}
use dng_preflight.Base.Text.{splitlines}
use dng_preflight.Base.Float.{Float}
use dng_preflight.Discovery.Sntp.{query_ntp_offset}
use dng_preflight.Discovery.Clock.{query_ntp_offset-ok}
use dng_preflight.Discovery.Host.{Host}
use dng_preflight.Discovery.Commands.{
  IsMangled, IsMute, Prints, outcome, mute, prints, mangled, output-mute, output-Prints,
  output-mangled,
}
use dng_preflight.Discovery.TimeSync.{
  Daemon, output, ntpq_source, detect_daemon, probe, state_of, timesyncd, chrony_source,
}
use dng_preflight.Discovery.Rows.{IsBare, ntpq_source-Outcome, IsBare-Raises}

-- What does not return raises this.
refused : {A : Type 0} (r : Result A) (e d : Error) → r ≡ err d → r ≡ err e → e ≡ d
refused r e d h k = err-injective e d (sym k ∙ h)

returned : {A : Type 0} (r : Result A) (a : A) (e : Error) → r ≡ ok a → ¬ (r ≡ err e)
returned r a e h k = cc (h, k)

module _ (host : Host) where
  -- The output of the first command that is needed and can be had is no text.
  abbrev pub IsGarbled : Type 0
  IsGarbled =
      IsMangled host "chronyc" ("tracking" ∷ [])
      ⊎ ((IsMute host "chronyc" ("tracking" ∷ []) × IsMangled host "ntpq" ("-pn" ∷ []))
          ⊎ (IsMute host "chronyc" ("tracking" ∷ [])
              × IsMute host "ntpq" ("-pn" ∷ [])
              × IsMangled host "timedatectl" ("show" ∷ [])))

  -- Without chronyc, the selected peer of ntpq has no name.
  abbrev pub IsStuck : Type 0
  IsStuck =
      IsMute host "chronyc" ("tracking" ∷ [])
      × ((out : String) × Prints host "ntpq" ("-pn" ∷ []) out × IsBare (splitlines out))

  measured : (offset : Option Float) × (query_ntp_offset host ≡ ok offset)
  measured = query_ntp_offset-ok host

  -- What the daemon's detection raises, the probe raises, and it returns otherwise.
  detected-raises : (e : Error) → detect_daemon host ≡ err e → probe host ≡ err e
  unfolding probe
  detected-raises e h = rw h

  detected-returns :
      (daemon : Daemon)
      → detect_daemon host ≡ ok daemon
      → probe host ≡ ok (state_of daemon measured.0)
  unfolding probe
  detected-returns daemon h = rw (h, measured.1)

  tracked :
      (out : String)
      → Prints host "chronyc" ("tracking" ∷ []) out
      → detect_daemon host ≡ ok ("chronyd", chrony_source (splitlines out))
  unfolding detect_daemon
  tracked out h = rw (output-Prints host "chronyc" ("tracking" ∷ []) out h)

  untracked_garbled :
      IsMangled host "chronyc" ("tracking" ∷ []) → detect_daemon host ≡ err unicode_error
  unfolding detect_daemon
  untracked_garbled h = rw (output-mangled host "chronyc" ("tracking" ∷ []) h)

  module _ (mute_chronyc : IsMute host "chronyc" ("tracking" ∷ [])) where
    listed :
        (out : String)
        → Prints host "ntpq" ("-pn" ∷ []) out
        → detect_daemon host ≡ map_result (λ s. ("ntpd", s)) (ntpq_source (splitlines out))
    unfolding detect_daemon
    listed out h = rw (
      output-mute host "chronyc" ("tracking" ∷ []) mute_chronyc,
      output-Prints host "ntpq" ("-pn" ∷ []) out h,
    )

    unlisted_garbled : IsMangled host "ntpq" ("-pn" ∷ []) → detect_daemon host ≡ err unicode_error
    unfolding detect_daemon
    unlisted_garbled h = rw (
      output-mute host "chronyc" ("tracking" ∷ []) mute_chronyc,
      output-mangled host "ntpq" ("-pn" ∷ []) h,
    )

    unlisted :
        IsMute host "ntpq" ("-pn" ∷ [])
        → detect_daemon host ≡ map_result timesyncd (output host "timedatectl" ("show" ∷ []))
    unfolding detect_daemon
    unlisted h = rw (
      output-mute host "chronyc" ("tracking" ∷ []) mute_chronyc,
      output-mute host "ntpq" ("-pn" ∷ []) h,
    )

    stuck-raises :
        (out : String)
        → Prints host "ntpq" ("-pn" ∷ []) out
        → IsBare (splitlines out)
        → detect_daemon host ≡ err index_error
    stuck-raises out h bare =
        listed out h ∙ ap (map_result (λ s. ("ntpd", s))) (IsBare-Raises (splitlines out) bare)

  garbled-raises : IsGarbled → detect_daemon host ≡ err unicode_error
  garbled-raises (inl h) = untracked_garbled h
  garbled-raises (inr (inl (m, h))) = unlisted_garbled m h
  garbled-raises (inr (inr (m, n, h))) =
      unlisted m n ∙ ap (map_result timesyncd) (output-mangled host "timedatectl" ("show" ∷ []) h)

  -- How the detection ends: with a daemon, or in one of the two ways that raise.
  abbrev Detection : Type 0
  Detection =
      ((daemon : Daemon) × (detect_daemon host ≡ ok daemon))
      ⊎ (((detect_daemon host ≡ err unicode_error) × IsGarbled)
          ⊎ ((detect_daemon host ≡ err index_error) × IsStuck))

  timesyncd-Detection :
      IsMute host "chronyc" ("tracking" ∷ []) → IsMute host "ntpq" ("-pn" ∷ []) → Detection
  timesyncd-Detection m n =
      let start = unlisted m n in
      elim (outcome host "timedatectl" ("show" ∷ [])) [
        | mute k ↦
            inl (
              _,
              start ∙ ap (map_result timesyncd) (output-mute host "timedatectl" ("show" ∷ []) k),
            )
        | prints out k ↦ inl (
          _,
          start ∙ ap (map_result timesyncd) (output-Prints host "timedatectl" ("show" ∷ []) out k),
        )
        | mangled k ↦ inr (inl (garbled-raises (inr (inr (m, n, k))), inr (inr (m, n, k))))
      ]

  ntpd-Detection : IsMute host "chronyc" ("tracking" ∷ []) → Detection
  ntpd-Detection m = elim (outcome host "ntpq" ("-pn" ∷ [])) [
    | mute n ↦ timesyncd-Detection m n
    | mangled k ↦ inr (inl (unlisted_garbled m k, inr (inl (m, k))))
    | prints out k ↦ elim (ntpq_source-Outcome (splitlines out)) [
      | inl (raised, bare) ↦ inr (inr (stuck-raises m out k bare, (m, (out, k, bare))))
      | inr (source, same, _) ↦
          inl (("ntpd", source), listed m out k ∙ ap (map_result (λ s. ("ntpd", s))) same)
    ]
  ]

  detection : Detection
  detection = elim (outcome host "chronyc" ("tracking" ∷ [])) [
    | mute m ↦ ntpd-Detection m
    | prints out k ↦ inl (_, tracked out k)
    | mangled k ↦ inr (inl (untracked_garbled k, inl k))
  ]

  -- The time-sync probe raises exactly in two cases. It is `UnicodeDecodeError` where the output
  -- of chronyc is no text, or chronyc gives nothing and the output of ntpq is no text, or both
  -- give nothing and the output of timedatectl is no text. It is `IndexError` where chronyc gives
  -- nothing, ntpq succeeds, and the first of its lines with an asterisk in front has nothing but
  -- spaces after it.
  pub probe-raises_iff :
      (e : Error)
      → (probe host ≡ err e) ↔ (((e ≡ unicode_error) × IsGarbled) ⊎ ((e ≡ index_error) × IsStuck))
  probe-raises_iff e = (
    (λ h. elim detection [
      | inl (daemon, same) ↦ absurd (returned (probe host) _ e (detected-returns daemon same) h)
      | inr (inl (raised, why)) ↦
          inl (refused (probe host) e unicode_error (detected-raises unicode_error raised) h, why)
      | inr (inr (raised, why)) ↦
          inr (refused (probe host) e index_error (detected-raises index_error raised) h, why)
    ]),
    (λ w. elim w [
      | inl (same, why) ↦
          detected-raises unicode_error (garbled-raises why) ∙ ap (λ x. err x) (sym same)
      | inr (same, (m, (out, k, bare))) ↦
          detected-raises index_error (stuck-raises m out k bare) ∙ ap (λ x. err x) (sym same)
    ]),
  )
