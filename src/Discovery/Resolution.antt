-- ===== src/Discovery/Resolution.antt =====
-- What rule 7 of validation/hard_stops.py asks of the probe in discovery/dns.py.
use dng_preflight.Base.{
  ◌≡◌, refl, ◌↔◌, ◌≢◌, ◌⊎◌, inl, inr, String, true, Option, none, some, List, [], ◌∷◌, In, any,
  truthy, truthy-cases, values, arith, Bool-cases, subst, sym,
}
use dng_preflight.Base.Sorted.{sorted-truthy}
use dng_preflight.Validation.HardStops.{resolves}
use dng_preflight.Base.{ok, err, Error, unicode_error, ap, ok-injective, err-injective, bind-eq-ok}
use dng_preflight.Base.Text.{splitlines}
use dng_preflight.Models.Snapshot.{DnsResolution}
use dng_preflight.Discovery.Host.{Host, File, absent, unreadable, contents, garbled}
use dng_preflight.Discovery.Dns.{
  Resolver, public_resolvers, query_timeout, sorted_or_nil, query, records, probe, nameservers,
  local_resolvers,
}

-- A lookup that succeeds and has a record.
abbrev pub HasRecord : Option (List String) → Type 0
HasRecord none = ⊥
HasRecord (some answer) = answer ≢ []

HasRecord-truthy_iff :
    (found : Option (List String)) → (truthy (sorted_or_nil found) ≡ true) ↔ HasRecord found
unfolding sorted_or_nil
HasRecord-truthy_iff none = (λ h. cc, λ h. absurd h)
HasRecord-truthy_iff (some answer) = ground (arith, sorted-truthy answer, truthy-cases answer)

pub file-cases :
    (file : File)
    → (file ≡ absent)
      ⊎ ((file ≡ unreadable)
          ⊎ (((text : String) × (file ≡ contents text))
              ⊎ ((rest : String) × (file ≡ garbled rest))))
file-cases absent = inl refl
file-cases unreadable = inr (inl refl)
file-cases (contents text) = inr (inr (inl (text, refl)))
file-cases (garbled rest) = inr (inr (inr (rest, refl)))

module _ (resolver : Resolver) (hostname : String) where
  -- This server returns records of this type.
  abbrev pub Answers : String → String → Type 0
  Answers rdtype server = HasRecord (resolver.resolve (server ∷ []) hostname rdtype query_timeout)

  abbrev pub SomeAnswers : String → List String → Type 0
  SomeAnswers rdtype servers = (server : String) × In server servers × Answers rdtype server

  query-Answers_iff :
      (rdtype server : String)
      → (truthy (query resolver hostname rdtype server) ≡ true) ↔ Answers rdtype server
  unfolding query
  query-Answers_iff rdtype server =
      HasRecord-truthy_iff (resolver.resolve (server ∷ []) hostname rdtype query_timeout)

  any-truthy-SomeAnswers_iff :
      (rdtype : String) (servers : List String)
      → (any truthy (values (records resolver hostname rdtype servers)) ≡ true)
        ↔ SomeAnswers rdtype servers
  unfolding records
  any-truthy-SomeAnswers_iff rdtype [] = (λ h. cc, λ (_, m, _). absurd m)
  any-truthy-SomeAnswers_iff rdtype (server ∷ servers) =
      let (to, from) = any-truthy-SomeAnswers_iff rdtype servers in
      let (seen, unseen) = query-Answers_iff rdtype server in
      elim (Bool-cases (truthy (query resolver hostname rdtype server))) [
        | inl full ↦ rw full (λ _. (server, inl refl, seen full), λ _. refl)
        | inr empty ↦ rw empty (
          λ h. let (s, m, full) = to h in (s, inr m, full),
          λ (s, m, full). elim m [
            | inl same ↦ cc (empty, unseen (subst (Answers rdtype) (sym same) full))
            | inr later ↦ from (s, later, full)
          ],
        )
      ]

  -- What rule 7 asks of the two dictionaries.
  resolution_iff :
      (s : DnsResolution)
      → s.a_records ≡ records resolver hostname "A" public_resolvers
      → s.aaaa_records ≡ records resolver hostname "AAAA" public_resolvers
      → (resolves s ≡ true)
        ↔ (SomeAnswers "A" public_resolvers ⊎ SomeAnswers "AAAA" public_resolvers)
  resolution_iff s a aaaa =
      rw (a, aaaa)
        (ground (
          arith,
          any-truthy-SomeAnswers_iff "A" public_resolvers,
          any-truthy-SomeAnswers_iff "AAAA" public_resolvers,
        ))

  -- The resolvers' configuration is no text.
  abbrev pub IsGarbled : Host → Type 0
  IsGarbled host = (rest : String) × (host.file "/etc/resolv.conf" ≡ garbled rest)

  local_resolvers-cases :
      (host : Host)
      → ((resolvers : List String) × (local_resolvers host ≡ ok resolvers) × ¬ IsGarbled host)
        ⊎ ((local_resolvers host ≡ err unicode_error) × IsGarbled host)
  unfolding local_resolvers
  local_resolvers-cases host = elim (file-cases (host.file "/etc/resolv.conf")) [
    | inl e ↦ inl ([], rw (e, local_resolvers), λ (rest, g). cc (e, g))
    | inr (inl e) ↦ inl ([], rw (e, local_resolvers), λ (rest, g). cc (e, g))
    | inr (inr (inl (text, e))) ↦
        inl (nameservers (splitlines text), rw (e, local_resolvers), λ (rest, g). cc (e, g))
    | inr (inr (inr (text, e))) ↦ inr (rw (e, local_resolvers), (text, e))
  ]

  -- The DNS probe raises exactly where resolv.conf is no text, and then `UnicodeDecodeError`. The
  -- snapshot part that it returns satisfies rule 7's test exactly where some public resolver
  -- returned an A record or some public resolver returned an AAAA record.
  pub probe-resolves_iff :
      (host : Host)
      → ((e : Error)
          → (probe resolver host hostname ≡ err e) ↔ ((e ≡ unicode_error) × IsGarbled host))
        × ((s : DnsResolution)
            → probe resolver host hostname ≡ ok s
            → (resolves s ≡ true)
              ↔ (SomeAnswers "A" public_resolvers ⊎ SomeAnswers "AAAA" public_resolvers))
  unfolding probe
  probe-resolves_iff host = (
    (λ e. elim (local_resolvers-cases host) [
      | inl (resolvers, found, clean) ↦ rw found ((λ h. cc h), λ (_, g). absurd (clean g))
      | inr (raised, g) ↦ rw raised (
        (λ h. (err-injective e unicode_error (sym h), g)),
        λ (same, _). ap (λ x. err x) (sym same),
      )
    ]),
    (λ s h.
        let (resolvers, _, same) = bind-eq-ok (local_resolvers host) _ h in
        let equal = ok-injective _ s same in
        resolution_iff s (sym (ap (λ x. x.a_records) equal))
          (sym (ap (λ x. x.aaaa_records) equal))),
  )
