-- ===== src/Discovery/Egress.antt =====
-- The addresses of a host's interfaces and its public address, as discovery/network.py finds them.
use dng_preflight.Base.{
  ◌≡◌, ◌≢◌, refl, sym, ap, ◌∙◌, subst, ◌↔◌, ◌⊎◌, inl, inr, ℕ, String, true, false, not, ◌&&◌,
  Option, none, some, List, [], ◌∷◌, Dict, map, filter, truthy-cases, In, InValues, eqb, arith,
  eq_iff, Bool-cases, Option-cases,
}
use dng_preflight.Base.Text.{strip, is_empty}
use dng_preflight.Models.Snapshot.{FirewallKind}
use dng_preflight.Discovery.Host.{Host}
use dng_preflight.Discovery.Commands.{is_empty_iff}
use dng_preflight.Discovery.Network.{is_inet, address_of, interfaces, address_in, egress_from}
use dng_preflight.Discovery.Reported.{IsFirst, IsActive}

-- An address of either family.
abbrev pub HasAddress : String → List (String × String) → Type 0
HasAddress ip [] = ⊥
HasAddress ip ((family, address) ∷ rest) =
    ((address ≡ ip) × ((family ≡ "AF_INET") ⊎ (family ≡ "AF_INET6"))) ⊎ HasAddress ip rest

-- An interface has the address.
abbrev pub IsBound : String → Dict (List (String × String)) → Type 0
IsBound ip [] = ⊥
IsBound ip ((name, addrs) ∷ rest) = HasAddress ip addrs ⊎ IsBound ip rest

-- A service answers with status 200 and this address, which is not blank.
abbrev pub Shows : (String → Option (ℕ × String)) → String → String → Type 0
Shows get url ip = (text : String) × (get url ≡ some (200, text)) × (strip text ≡ ip) × (ip ≢ "")

-- The first service that answers with an address gives this one.
abbrev pub Gives : (String → Option (ℕ × String)) → List String → String → Type 0
Gives get [] ip = ⊥
Gives get (url ∷ urls) ip =
    Shows get url ip ⊎ ((¬ ((other : String) × Shows get url other)) × Gives get urls ip)

module _ (host : Host) where
  -- Some firewall is the first to answer, and is active.
  abbrev pub IsGuarded : Type 0
  IsGuarded = (kind : FirewallKind) × IsFirst host kind × IsActive host kind

  -- A public address that an interface has is behind an active firewall.
  abbrev pub IsSafe : Type 0
  IsSafe =
      (ip : String)
      → Gives host.get
          ("https://api.ipify.org" ∷ "https://ifconfig.me/ip" ∷ "https://icanhazip.com" ∷ []) ip
      → IsBound ip host.net_if_addrs
      → IsGuarded

is_inet_iff :
    (family address : String)
    → (is_inet (family, address) ≡ true) ↔ ((family ≡ "AF_INET") ⊎ (family ≡ "AF_INET6"))
is_inet_iff family address = ground (arith, eq_iff family "AF_INET", eq_iff family "AF_INET6")

In-HasAddress_iff :
    (ip : String) (addrs : List (String × String))
    → In ip (map address_of (filter is_inet addrs)) ↔ HasAddress ip addrs
In-HasAddress_iff ip [] = ((λ h. h), λ h. h)
In-HasAddress_iff ip ((family, address) ∷ addrs) =
    let (to, from) = In-HasAddress_iff ip addrs in
    let (seen, unseen) = is_inet_iff family address in
    elim (Bool-cases (is_inet (family, address))) [
      | inl inet ↦ rw inet (
        (λ m. elim m [ inl e ↦ inl (e, seen inet) | inr later ↦ inr (to later) ]),
        λ m. elim m [ inl (e, _) ↦ inl e | inr later ↦ inr (from later) ],
      )
      | inr plain ↦ rw plain (
        (λ m. inr (to m)),
        λ m. elim m [ inl (_, f) ↦ cc (plain, unseen f) | inr later ↦ from later ],
      )
    ]

pub InValues-IsBound_iff :
    (ip : String) (addrs : Dict (List (String × String)))
    → InValues ip (interfaces addrs) ↔ IsBound ip addrs
unfolding interfaces
InValues-IsBound_iff ip [] = ((λ h. h), λ h. h)
InValues-IsBound_iff ip ((name, addrs) ∷ rest) =
    let (to, from) = InValues-IsBound_iff ip rest in
    let (here, back) = In-HasAddress_iff ip addrs in
    elim (truthy-cases (map address_of (filter is_inet addrs))) [
      | inl (full, _) ↦ rw full (
        (λ m. elim m [ inl h ↦ inl (here h) | inr later ↦ inr (to later) ]),
        λ m. elim m [ inl h ↦ inl (back h) | inr later ↦ inr (from later) ],
      )
      | inr (empty, nil) ↦ rw empty (
        (λ m. inr (to m)),
        λ m. elim m [ inl h ↦ absurd (subst (In ip) nil (back h)) | inr later ↦ from later ],
      )
    ]

pub some_same : (a b : String) → some a ≡ some b → a ≡ b
some_same a b h = cc h

-- What an answer shows.
abbrev ShowsIn : Option (ℕ × String) → String → Type 0
ShowsIn answer ip = (text : String) × (answer ≡ some (200, text)) × (strip text ≡ ip) × (ip ≢ "")

answer_text :
    (status other : ℕ) (text shown : String)
    → ◌≡◌ {A = Option (ℕ × String)} (some (status, text)) (some (other, shown))
    → (status ≡ other) × (text ≡ shown)
answer_text status other text shown h = (cc h, cc h)

address_in_iff :
    (answer : Option (ℕ × String)) (ip : String) → (address_in answer ≡ some ip) ↔ ShowsIn answer ip
unfolding address_in
address_in_iff none ip = ((λ h. cc h), λ (text, e, _, _). cc e)
address_in_iff (some (status, text)) ip =
    let (filled, unfilled) = is_empty_iff (strip text) in
    elim (Bool-cases (eqb status 200 && not (is_empty (strip text)))) [
      | inl both ↦ rw both (
        (λ h.
            let same : strip text ≡ ip = cc h in
            (
              text,
              ap (λ n. some (n, text)) (ground arith),
              same,
              subst (λ t. t ≢ "") same (filled (ground arith)),
            )),
        λ (shown, e, same, _).
            let (_, equal) = answer_text status 200 text shown e in
            ap (λ t. some t) (ap strip equal ∙ same),
      )
      | inr neither ↦ rw neither (
        (λ h. cc h),
        λ (shown, e, same, full).
            let (code, equal) = answer_text status 200 text shown e in
            let whole : is_empty (strip text) ≡ false =
              unfilled (subst (λ t. t ≢ "") (sym (ap strip equal ∙ same)) full) in
            absurd (ground arith),
      )
    ]

module _ (get : String → Option (ℕ × String)) (url : String) (urls : List String) where
  egress_silent : address_in (get url) ≡ none → egress_from get (url ∷ urls) ≡ egress_from get urls
  unfolding egress_from
  egress_silent e = rw (e, egress_from)

  egress_found :
      (ip : String) → address_in (get url) ≡ some ip → egress_from get (url ∷ urls) ≡ some ip
  unfolding egress_from
  egress_found ip e = rw (e, egress_from)

egress_nil : (get : String → Option (ℕ × String)) → egress_from get [] ≡ none
unfolding egress_from
egress_nil get = refl

pub egress_from-Gives_iff :
    (get : String → Option (ℕ × String)) (urls : List String) (ip : String)
    → (egress_from get urls ≡ some ip) ↔ Gives get urls ip
egress_from-Gives_iff get [] ip = ((λ h. cc (egress_nil get, h)), λ h. absurd h)
egress_from-Gives_iff get (url ∷ urls) ip =
    let (to, from) = egress_from-Gives_iff get urls ip in
    let (seen, unseen) = address_in_iff (get url) ip in
    elim (Option-cases (address_in (get url))) [
      | inl e ↦ (
        (λ h. inr (
          (λ (other, shows). cc (e, (address_in_iff (get url) other).1 shows)),
          to (sym (egress_silent get url urls e) ∙ h),
        )),
        λ g. elim g [
          | inl shows ↦ cc (e, unseen shows)
          | inr (_, later) ↦ egress_silent get url urls e ∙ from later
        ],
      )
      | inr (found, e) ↦ (
        (λ h. inl (seen (e ∙ sym (egress_found get url urls found e) ∙ h))),
        λ g. elim g [
          | inl shows ↦ egress_found get url urls found e ∙ (sym e ∙ unseen shows)
          | inr (silent, _) ↦ absurd (silent (found, (address_in_iff (get url) found).0 e))
        ],
      )
    ]
