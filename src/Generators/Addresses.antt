-- ===== src/Generators/Addresses.antt =====
-- The addresses that generators/dns_records.py collects.
use mathlib.Core.Path.{subst}
use dng_preflight.Base.{
  ◌≡◌, ◌↔◌, ◌⊎◌, String, List, [], ◌∷◌, ◌++◌, values, contains, contains_iff, In, Dict,
  In-append_iff, InValues, NoDup, NoDup-concat, arith, Bool-cases, inl, inr, if◌then◌else◌,
}
use dng_preflight.Models.Config.{DngConfig}
use dng_preflight.Generators.DnsRecords.{add_new, add_all, resolved_ips}

abbrev step : List String → String → List String
step ips ip = if contains ips ip then ips else ips ++ ip ∷ []

step-In_iff : (ips : List String) (ip a : String) → In a (step ips ip) ↔ (In a ips ⊎ (ip ≡ a))
step-In_iff ips ip a = elim (Bool-cases (contains ips ip)) [
  | inl old ↦ rw old (
    inl,
    λ h. elim h [ inl m ↦ m | inr e ↦ subst (λ x. In x ips) e ((contains_iff ips ip).0 old) ],
  )
  | inr new ↦ rw new (ground (arith, In-append_iff ips (ip ∷ []) a))
]

step-NoDup : (ips : List String) (ip : String) → NoDup ips → NoDup (step ips ip)
step-NoDup ips ip u = elim (Bool-cases (contains ips ip)) [
  | inl old ↦ rw old u
  | inr new ↦ rw new (NoDup-concat ips ip u (λ m. ground (arith, contains_iff ips ip)))
]

add_new-In_iff :
    (ips records : List String) (a : String)
    → In a (add_new ips records) ↔ (In a ips ⊎ In a records)
unfolding add_new
add_new-In_iff ips [] a = ground arith
add_new-In_iff ips (ip ∷ rest) a =
    ground (arith, add_new-In_iff (step ips ip) rest a, step-In_iff ips ip a)

add_all-In_iff :
    (ips : List String) (d : Dict (List String)) (a : String)
    → In a (add_all ips (values d)) ↔ (In a ips ⊎ InValues a d)
unfolding add_all
add_all-In_iff ips [] a = ground arith
add_all-In_iff ips ((_, records) ∷ rest) a =
    ground (arith, add_all-In_iff (add_new ips records) rest a, add_new-In_iff ips records a)

add_new-NoDup : (ips records : List String) → NoDup ips → NoDup (add_new ips records)
unfolding add_new
add_new-NoDup ips [] u = u
add_new-NoDup ips (ip ∷ rest) u = add_new-NoDup (step ips ip) rest (step-NoDup ips ip u)

add_all-NoDup : (ips : List String) (rs : List (List String)) → NoDup ips → NoDup (add_all ips rs)
unfolding add_all
add_all-NoDup ips [] u = u
add_all-NoDup ips (records ∷ rest) u =
    add_all-NoDup (add_new ips records) rest (add_new-NoDup ips records u)

-- The addresses that the documents list are those in the A records of any resolver, each listed
-- once.
pub resolved_ips-In_iff :
    (config : DngConfig)
    → NoDup (resolved_ips config)
      × ((ip : String) → In ip (resolved_ips config) ↔ InValues ip config.snapshot.dns.a_records)
unfolding resolved_ips
resolved_ips-In_iff config = (
  add_all-NoDup [] (values config.snapshot.dns.a_records) tt,
  λ ip. ground (arith, add_all-In_iff [] config.snapshot.dns.a_records ip),
)
