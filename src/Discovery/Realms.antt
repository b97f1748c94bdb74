-- ===== src/Discovery/Realms.antt =====
-- When discovery/system.py takes a host for domain-joined: its scan of krb5.conf against a
-- description by sections.
use dng_preflight.Base.{
  ◌≡◌, ◌≢◌, refl, sym, ap, ◌↔◌, ◌⊎◌, inl, inr, String, Bool, true, false, ◌||◌, [], ◌∷◌, arith, ok,
  err, Error, unicode_error, ok-injective, err-injective, some,
}
use dng_preflight.Base.Text.{strip}
use dng_preflight.Discovery.Host.{Host, Ran, completed, failed, undecodable, caught}
use dng_preflight.Discovery.Commands.{
  Runs, IsMangled, Prints, ending, missing, ran, is_zero_iff, is_empty_iff, Runs-unique,
  Runs-Prints, Runs-failed-silent, missing-Runs,
}
use dng_preflight.Discovery.System.{realm_listed, listed, detect_domain_joined}
use dng_preflight.Discovery.Sections.{IsRealmFile, krb5_realms-IsRealmFile_iff}

joined_parts : (a b : Bool) → (a || b) ≡ true → (a ≡ true) ⊎ (b ≡ true)
joined_parts true b h = inl refl
joined_parts false b h = inr h

joined_left : (a b : Bool) → a ≡ true → (a || b) ≡ true
joined_left a b h = rw h

joined_right : (a b : Bool) → b ≡ true → (a || b) ≡ true
joined_right true b h = refl
joined_right false b h = h

module _ (host : Host) where
  -- `realm list` succeeds and prints something.
  abbrev pub IsListed : Type 0
  IsListed = (out : String) × Prints host "realm" ("list" ∷ []) out × (strip out ≢ "")

  abbrev pub IsGarbled : Type 0
  IsGarbled = IsMangled host "realm" ("list" ∷ [])

  -- Either its output is no text, or it tells whether there is a realm.
  abbrev Listing : Type 0
  Listing =
      ((realm_listed host ≡ err unicode_error) × IsGarbled)
      ⊎ ((b : Bool) × (realm_listed host ≡ ok b) × (¬ IsGarbled) × ((b ≡ true) ↔ IsListed))

  listing_of : (r : Ran) → Runs host "realm" ("list" ∷ []) r → Listing
  unfolding realm_listed caught
  listing_of undecodable runs = inl (rw (runs.1, runs.2, realm_listed), runs)
  listing_of failed runs = inr (
    false,
    rw (runs.1, runs.2, realm_listed),
    (λ m. cc (Runs-unique host "realm" ("list" ∷ []) _ _ runs m)),
    ((λ h. cc h), λ (out, p, _). absurd (Runs-failed-silent host "realm" ("list" ∷ []) runs out p)),
  )
  listing_of (completed result) runs = inr (
    listed (some result),
    rw (runs.1, runs.2, realm_listed),
    (λ m. cc (Runs-unique host "realm" ("list" ∷ []) _ _ runs m)),
    (
      (λ h.
          let zero = (is_zero_iff result.returncode).0 (ground arith) in
          (
            result.stdout,
            (result, runs, zero, refl),
            (is_empty_iff (strip result.stdout)).0 (ground arith),
          )),
      (λ (out, p, filled).
          let (zero, same) = Runs-Prints host "realm" ("list" ∷ []) result out runs p in
          let full = (is_empty_iff (strip out)).1 filled in
          let code = (is_zero_iff result.returncode).1 zero in rw (code, same, full)),
    ),
  )

  listing : Listing
  unfolding realm_listed
  listing = elim (ending host "realm" ("list" ∷ [])) [
    | ran r runs ↦ listing_of r runs
    | missing e ↦ inr (
      false,
      rw (e, realm_listed),
      missing-Runs host "realm" ("list" ∷ []) e undecodable,
      (
        (λ h. cc h),
        λ (out, (result, runs, _, _), _).
            absurd (missing-Runs host "realm" ("list" ∷ []) e (completed result) runs),
      ),
    )
  ]

  -- A host is taken for domain-joined exactly where the output of `realm list` is not undecodable,
  -- and it succeeds and prints something, or krb5.conf can be read and some section of realms in
  -- it has an assignment before the next header. The test raises exactly where that output is
  -- undecodable, and then `UnicodeDecodeError`.
  pub detect_domain_joined_iff :
      ((detect_domain_joined host ≡ ok true)
        ↔ ((¬ IsGarbled) × (IsListed ⊎ IsRealmFile (host.file "/etc/krb5.conf"))))
      × ((e : Error) → (detect_domain_joined host ≡ err e) ↔ ((e ≡ unicode_error) × IsGarbled))
  unfolding detect_domain_joined
  detect_domain_joined_iff = elim listing [
    | inl (raised, mangled) ↦ rw raised (
      ((λ h. cc h), λ (clean, _). absurd (clean mangled)),
      λ e.
          ((λ h. (err-injective e unicode_error (sym h), mangled)), λ (same, _). ap err (sym same)),
    )
    | inr (b, found, clean, (to, from)) ↦ rw found (
      (
        (λ h.
            let either = joined_parts b _ (ok-injective _ true h) in
            (
              clean,
              elim either [
                | inl l ↦ inl (to l)
                | inr k ↦ inr ((krb5_realms-IsRealmFile_iff (host.file "/etc/krb5.conf")).0 k)
              ],
            )),
        (λ (_, why). ap ok (elim why [
          | inl l ↦ joined_left b _ (from l)
          | inr k ↦
              joined_right b _ ((krb5_realms-IsRealmFile_iff (host.file "/etc/krb5.conf")).1 k)
        ])),
      ),
      λ e. ((λ h. cc h), λ (_, mangled). absurd (clean mangled)),
    )
  ]
