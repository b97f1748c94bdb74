-- ===== src/Discovery/Shielded.antt =====
-- When rule 1 of validation/hard_stops.py passes for what discovery/network.py and
-- discovery/firewall.py find, described by what the host answers.
use dng_preflight.Base.{
  ◌≡◌, refl, sym, ◌∙◌, subst, ◌↔◌, inl, inr, String, Option, none, some, InValues, ok, ok-injective,
}
use dng_preflight.Models.Snapshot.{
  NetworkInfo, FirewallKind, FirewallState, Probed, detected, firewalld, ufw, iptables, no_firewall,
}
use dng_preflight.Validation.Rules.{IsShielded, IsFiltered}
use dng_preflight.Discovery.Host.{Host}
use dng_preflight.Discovery.Network.{interfaces, egress_from, egress_urls}
use dng_preflight.Discovery.Firewall
use dng_preflight.Discovery.Reported.{IsFirst, IsActive, IsState, probe-IsReported}
use dng_preflight.Discovery.Egress.{
  IsGuarded, IsSafe, IsBound, InValues-IsBound_iff, egress_from-Gives_iff, some_same,
}

module _ (host : Host) where
  -- There is one first.
  IsFirst-unique : (k l : FirewallKind) → IsFirst host k → IsFirst host l → k ≡ l
  IsFirst-unique firewalld firewalld h i = refl
  IsFirst-unique firewalld ufw h (n, _) = absurd (h n)
  IsFirst-unique firewalld iptables h (n, _, _) = absurd (h n)
  IsFirst-unique firewalld no_firewall h (n, _, _) = absurd (h n)
  IsFirst-unique ufw firewalld (n, _) i = absurd (i n)
  IsFirst-unique ufw ufw h i = refl
  IsFirst-unique ufw iptables (_, s) (_, q, _) = absurd (q s)
  IsFirst-unique ufw no_firewall (_, s) (_, q, _) = absurd (q s)
  IsFirst-unique iptables firewalld (n, _, _) i = absurd (i n)
  IsFirst-unique iptables ufw (_, q, _) (_, s) = absurd (q s)
  IsFirst-unique iptables iptables h i = refl
  IsFirst-unique iptables no_firewall (_, _, s) (_, _, q) = absurd (q s)
  IsFirst-unique no_firewall firewalld (n, _, _) i = absurd (i n)
  IsFirst-unique no_firewall ufw (_, q, _) (_, s) = absurd (q s)
  IsFirst-unique no_firewall iptables (_, _, q) (_, _, s) = absurd (q s)
  IsFirst-unique no_firewall no_firewall h i = refl

  IsState-IsGuarded_iff :
      (s : FirewallState) → IsState host s → IsFiltered (detected s) ↔ IsGuarded host
  IsState-IsGuarded_iff s (first, (to, from)) = (
    (λ (active, _). (s.kind, first, to active)),
    (λ (kind, other, acts).
        let same = IsFirst-unique kind s.kind other first in
        (
          from (subst (IsActive host) same acts),
          λ none_there. subst (IsActive host) (same ∙ none_there) acts,
        )),
  )

  IsFiltered-IsGuarded_iff :
      (firewall : Probed FirewallState)
      → Firewall.probe host ≡ ok firewall
      → IsFiltered firewall ↔ IsGuarded host
  IsFiltered-IsGuarded_iff firewall h = elim (probe-IsReported host) [
    | inl (raised, _) ↦ cc (raised, h)
    | inr (s, same, state) ↦
        subst (λ f. IsFiltered f ↔ IsGuarded host)
          (ok-injective (detected s) firewall (sym same ∙ h)) (IsState-IsGuarded_iff s state)
  ]

  pub IsShielded-IsSafe_iff :
      (network : NetworkInfo) (firewall : Probed FirewallState) (egress : Option String)
      → network.interfaces ≡ interfaces host.net_if_addrs
      → egress ≡ egress_from host.get egress_urls
      → Firewall.probe host ≡ ok firewall
      → IsShielded network firewall egress ↔ IsSafe host
  IsShielded-IsSafe_iff network firewall none bound egress found = (
    (λ _ ip gives _. cc (egress, (egress_from-Gives_iff host.get egress_urls ip).1 gives)),
    λ _. tt,
  )
  IsShielded-IsSafe_iff network firewall (some ip) bound egress found =
      let (filtered, guarded) = IsFiltered-IsGuarded_iff firewall found in
      let (to, from) = InValues-IsBound_iff ip host.net_if_addrs in
      (
        (λ shielded other gives bound_there.
            let same : ip ≡ other =
              some_same ip other
                (egress ∙ (egress_from-Gives_iff host.get egress_urls other).1 gives) in
            filtered (
              shielded (
                subst (InValues ip) (sym bound)
                  (from (subst (λ a. IsBound a host.net_if_addrs) (sym same) bound_there))))),
        (λ safe bound_there. guarded (
            safe ip ((egress_from-Gives_iff host.get egress_urls ip).0 (sym egress))
              (to (subst (InValues ip) bound bound_there)))),
      )
