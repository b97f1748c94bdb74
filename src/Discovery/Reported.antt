-- ===== src/Discovery/Reported.antt =====
-- Which firewall discovery/firewall.py reports, and when as active.
use dng_preflight.Base.{
  ◌≡◌, ◌≢◌, refl, sym, ap, ◌∙◌, subst, ◌↔◌, ◌⊎◌, inl, inr, String, true, false, Option, none, some,
  List, [], ◌∷◌, arith, filter, In, truthy, Bool-cases, Result, ok, err, unicode_error, map_result,
}
use dng_preflight.Base.Int.{ℤ}
use dng_preflight.Base.Text.{strip, splitlines}
use dng_preflight.Base.Words.{starts_with, has_text, lower}
use dng_preflight.Models.Snapshot.{
  FirewallKind, FirewallState, Probed, detected, firewalld, ufw, iptables, no_firewall,
}
use dng_preflight.Discovery.Host.{Host, attempt}
use dng_preflight.Discovery.Commands.{IsMangled, is_zero_iff, is_empty_iff, missing-Runs}
use dng_preflight.Discovery.Tried.{Says, Succeeds, tried, absent, garbled, silent, said, says_iff}
use dng_preflight.Discovery.Firewall.{
  is_rule, firewalld_state, ufw_state, iptables_state, probe_firewalld, probe_ufw, probe_iptables,
  probe, no_state,
}

-- A line of iptables that is not blank and no default policy of acceptance.
abbrev pub IsRule : String → Type 0
IsRule line =
    (strip line ≢ "")
    × (starts_with "-P INPUT ACCEPT" line ≡ false)
    × (starts_with "-P OUTPUT ACCEPT" line ≡ false)
    × (starts_with "-P FORWARD ACCEPT" line ≡ false)

module _ (host : Host) where
  -- The kind of firewall is the first that answers; firewalld need only be installed.
  abbrev pub IsFirst : FirewallKind → Type 0
  IsFirst firewalld = host.which "firewall-cmd" ≢ none
  IsFirst ufw = (host.which "firewall-cmd" ≡ none) × Succeeds host "ufw" ("status" ∷ [])
  IsFirst iptables =
      (host.which "firewall-cmd" ≡ none)
      × (¬ Succeeds host "ufw" ("status" ∷ []))
      × Succeeds host "iptables" ("-S" ∷ [])
  IsFirst no_firewall =
      (host.which "firewall-cmd" ≡ none)
      × (¬ Succeeds host "ufw" ("status" ∷ []))
      × ¬ Succeeds host "iptables" ("-S" ∷ [])

  abbrev pub IsActive : FirewallKind → Type 0
  IsActive firewalld =
      Says host "firewall-cmd" ("--state" ∷ []) (λ out. starts_with "running" (lower out) ≡ true)
  IsActive ufw = Says host "ufw" ("status" ∷ []) (λ out. has_text "Status: active" out ≡ true)
  IsActive iptables =
      Says host "iptables" ("-S" ∷ [])
        (λ out. (line : String) × In line (splitlines out) × IsRule line)
  IsActive no_firewall = ⊥

  -- The output of the first command that is needed is no text.
  abbrev pub IsGarbled : Type 0
  IsGarbled =
      IsMangled host "firewall-cmd" ("--state" ∷ [])
      ⊎ (((host.which "firewall-cmd" ≡ none) × IsMangled host "ufw" ("status" ∷ []))
          ⊎ ((host.which "firewall-cmd" ≡ none)
              × (¬ Succeeds host "ufw" ("status" ∷ []))
              × IsMangled host "iptables" ("-S" ∷ [])))

  abbrev pub IsState : FirewallState → Type 0
  IsState s = IsFirst s.kind × ((s.active ≡ true) ↔ IsActive s.kind)

  abbrev pub IsReported : Result (Probed FirewallState) → Type 0
  IsReported r =
      ((r ≡ err unicode_error) × IsGarbled)
      ⊎ ((s : FirewallState) × (r ≡ ok (detected s)) × IsState s)

is_rule_iff : (line : String) → (is_rule line ≡ true) ↔ IsRule line
unfolding is_rule
is_rule_iff line = ground (arith, is_empty_iff (strip line))

filter-is_rule_iff :
    (lines : List String)
    → (truthy (filter is_rule lines) ≡ true) ↔ ((line : String) × In line lines × IsRule line)
filter-is_rule_iff [] = ((λ h. cc h), λ (_, m, _). absurd m)
filter-is_rule_iff (line ∷ lines) =
    let (to, from) = filter-is_rule_iff lines in
    let (seen, unseen) = is_rule_iff line in
    elim (Bool-cases (is_rule line)) [
      | inl rule ↦ rw rule ((λ _. (line, inl refl, seen rule)), λ _. refl)
      | inr other ↦ rw other (
        (λ h. let (l, m, r) = to h in (l, inr m, r)),
        λ (l, m, r). elim m [
          | inl same ↦ cc (other, unseen (subst IsRule (sym same) r))
          | inr later ↦ from (l, later, r)
        ],
      )
    ]

module _ (host : Host) where
  -- The first answer decides.
  decided_firewalld :
      (r : Result (Option (ℤ × String)))
      → attempt host "firewall-cmd" ("--state" ∷ []) ≡ r
      → probe_firewalld host ≡ map_result firewalld_state r
  unfolding probe_firewalld
  decided_firewalld r h = ap (map_result firewalld_state) h

  decided_ufw :
      (r : Result (Option (ℤ × String)))
      → attempt host "ufw" ("status" ∷ []) ≡ r
      → probe_ufw host ≡ map_result ufw_state r
  unfolding probe_ufw
  decided_ufw r h = ap (map_result ufw_state) h

  decided_iptables :
      (r : Result (Option (ℤ × String)))
      → attempt host "iptables" ("-S" ∷ []) ≡ r
      → probe_iptables host ≡ map_result iptables_state r
  unfolding probe_iptables
  decided_iptables r h = ap (map_result iptables_state) h

  module _ (uninstalled : host.which "firewall-cmd" ≡ none)
      (first : probe_firewalld host ≡ ok none) where
    module _ (no_ufw : ¬ Succeeds host "ufw" ("status" ∷ []))
        (second : probe_ufw host ≡ ok none) where
      none-IsReported :
          ¬ Succeeds host "iptables" ("-S" ∷ [])
          → probe_iptables host ≡ ok none
          → IsReported host (probe host)
      unfolding probe
      none-IsReported no_rules third = inr (
        no_state,
        rw (first, second, third),
        ((uninstalled, no_ufw, no_rules), ((λ h. cc h), λ h. absurd h)),
      )

      iptables-IsReported : IsReported host (probe host)
      unfolding probe iptables_state
      iptables-IsReported = elim (tried host "iptables" ("-S" ∷ [])) [
        | absent missing_iptables e ↦
            none-IsReported
              (λ (out, (result, runs, _, _)).
                missing-Runs host "iptables" ("-S" ∷ []) missing_iptables _ runs)
              (decided_iptables _ e)
        | garbled mangled e ↦
            inl (rw (first, second, decided_iptables _ e), inr (inr (uninstalled, no_ufw, mangled)))
        | silent code out _ nonzero no_rules e ↦
            none-IsReported no_rules (decided_iptables _ e ∙ rw nonzero refl)
        | said result runs zero e ↦
            let code = (is_zero_iff result.returncode).1 zero in
            let active = truthy (filter is_rule (splitlines (strip result.stdout))) in
            let third : probe_iptables host
                ≡ ok (some (record { kind = iptables; active = active })) =
              decided_iptables _ e ∙ rw code refl in
            inr (
              record { kind = iptables; active = active },
              rw (first, second, third),
              (
                (uninstalled, no_ufw, (result.stdout, (result, runs, zero, refl))),
                says_iff host "iptables" ("-S" ∷ [])
                    (λ out. (line : String) × In line (splitlines out) × IsRule line) active result
                    runs zero (filter-is_rule_iff (splitlines (strip result.stdout))),
              ),
            )
      ]

    ufw-IsReported : IsReported host (probe host)
    unfolding probe ufw_state
    ufw-IsReported = elim (tried host "ufw" ("status" ∷ [])) [
      | absent missing_ufw e ↦
          iptables-IsReported
            (λ (out, (result, runs, _, _)).
              missing-Runs host "ufw" ("status" ∷ []) missing_ufw _ runs)
            (decided_ufw _ e)
      | garbled mangled e ↦ inl (rw (first, decided_ufw _ e), inr (inl (uninstalled, mangled)))
      | silent code out _ nonzero no_ufw e ↦
          iptables-IsReported no_ufw (decided_ufw _ e ∙ rw nonzero refl)
      | said result runs zero e ↦
          let code = (is_zero_iff result.returncode).1 zero in
          let active = has_text "Status: active" (strip result.stdout) in
          let second : probe_ufw host ≡ ok (some (record { kind = ufw; active = active })) =
            decided_ufw _ e ∙ rw code refl in
          inr (
            record { kind = ufw; active = active },
            rw (first, second),
            (
              (uninstalled, (result.stdout, (result, runs, zero, refl))),
              says_iff host "ufw" ("status" ∷ []) (λ out. has_text "Status: active" out ≡ true)
                  active result runs zero ((λ h. h), λ h. h),
            ),
          )
    ]

  -- The firewall probe raises `UnicodeDecodeError`, where the output of the first command that is
  -- needed is no text, or detects a firewall state. Its kind is firewalld if firewall-cmd is
  -- installed, else ufw if its status can be had, else iptables if its rules can be listed, else
  -- none; it is active exactly where firewall-cmd says that it runs, ufw says that it is active,
  -- or iptables lists a rule that is not blank and no default policy of acceptance.
  pub probe-IsReported : IsReported host (probe host)
  unfolding probe firewalld_state
  probe-IsReported = elim (tried host "firewall-cmd" ("--state" ∷ [])) [
    | absent uninstalled e ↦ ufw-IsReported uninstalled (decided_firewalld _ e)
    | garbled mangled e ↦ inl (rw (decided_firewalld _ e), inl mangled)
    | silent code out installed nonzero no_answer e ↦
        let first : probe_firewalld host ≡ ok (some (record { kind = firewalld; active = false })) =
          decided_firewalld _ e ∙ rw nonzero refl in
        inr (
          record { kind = firewalld; active = false },
          rw first,
          (installed, ((λ h. cc h), λ (answer, p, _). absurd (no_answer (answer, p)))),
        )
    | said result runs zero e ↦
        let code = (is_zero_iff result.returncode).1 zero in
        let active = starts_with "running" (lower (strip result.stdout)) in
        let first : probe_firewalld host
            ≡ ok (some (record { kind = firewalld; active = active })) =
          decided_firewalld _ e ∙ rw code refl in
        inr (
          record { kind = firewalld; active = active },
          rw first,
          (
            (λ n. missing-Runs host "firewall-cmd" ("--state" ∷ []) n _ runs),
            says_iff host "firewall-cmd" ("--state" ∷ [])
                (λ out. starts_with "running" (lower out) ≡ true) active result runs zero
                ((λ h. h), λ h. h),
          ),
        )
  ]
