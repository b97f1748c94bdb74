-- ===== src/Discovery/Timed.antt =====
-- How long the probes of discovery/network.py and discovery/duo_reachability.py take: their HTTPS
-- requests are sent one after another.
use dng_preflight.Base.{
  ℕ, ◌+◌, String, Option, none, some, List, [], ◌∷◌, Bool, true, false, Result, ok, err,
  if◌then◌else◌,
}
use dng_preflight.Discovery.Host.{Host}
use dng_preflight.Discovery.Network.{address_in, egress_urls, default_route_iface}
use dng_preflight.Discovery.Duo.{endpoints}

-- A step that starts when another ends, if that does.
abbrev pub followed_by : Option ℕ → Option ℕ → Option ℕ
followed_by none later = none
followed_by (some t) none = none
followed_by (some t) (some later) = some (t + later)

abbrev pub raises {ℓ} : {A : Type ℓ} → Result A → Bool
raises (ok _) = false
raises (err _) = true

module _ (took : String → Option ℕ) where
  -- The services are asked in order until one has answered with an address.
  unfoldable pub egress_ends : (String → Option (ℕ × String)) → List String → Option ℕ
  unfolding address_in
  egress_ends get [] = some 0
  egress_ends get (url ∷ urls) =
      let later = egress_ends get urls in
      followed_by (took url) (elim (address_in (get url)) [ some ip ↦ some 0 | none ↦ later ])

  -- The local facts first, and then the egress address, unless they raise.
  unfoldable pub network_ends : (gathered : Option ℕ) → Host → Option ℕ
  unfolding egress_ends default_route_iface
  network_ends gathered host =
      let egress = egress_ends host.get egress_urls in
      followed_by gathered (if raises (default_route_iface host) then some 0 else egress)

  -- All endpoints are asked in order.
  unfoldable pub heads_end : List String → Option ℕ
  heads_end [] = some 0
  heads_end (url ∷ urls) = followed_by (took url) (heads_end urls)

  abbrev pub duo_ends : Option ℕ
  duo_ends = heads_end endpoints
