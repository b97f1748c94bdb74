-- ===== src/Discovery/Observed.antt =====
-- What discovery/tls.py reports of the certificate on port 443.
use mathlib.Core.List.{Perm}
use mathlib.Core.List.Perm
use mathlib.Core.List.Pairwise
use dng_preflight.Base.{
  ℕ, ◌≡◌, refl, ◌⊎◌, inl, inr, false, String, ◌<>◌, true, Option, none, some, List, [], ◌∷◌, Result,
  ok, err, Error, Result-cases,
}
use dng_preflight.Base.Format.{show}
use dng_preflight.Base.Sorted.{IsSorted, sorted-perm, sorted-IsSorted}
use dng_preflight.Models.Snapshot.{TlsObservation}
use dng_preflight.Discovery.Tls.{
  Tls, Certificate, PublicKey, rsa, elliptic_curve, dsa, ed25519, ed448, other, extract_sans,
  extract_cn, describe, describe_or_bare, observe, fetch_peer_cert, probe, key_algorithm,
}

-- A text is the first of a list, if the list has one.
abbrev pub IsFirst : List String → Option String → Type 0
IsFirst [] first = first ≡ none
IsFirst (s ∷ ss) first = first ≡ some s

abbrev pub names_of : Option (List String) → List String
names_of none = []
names_of (some names) = names

-- How a key is written.
pub data Writes : PublicKey → String → Type 0 where
  rsa_key : (size : ℕ) → Writes (rsa size) ("RSA-" <> show size)
  curve_key : (name : String) → Writes (elliptic_curve name) ("EC-" <> name)
  dsa_key : (size : ℕ) → Writes (dsa size) ("DSA-" <> show size)
  ed25519_key : Writes ed25519 "Ed25519"
  ed448_key : Writes ed448 "Ed448"
  other_key : (name : String) → Writes (other name) name

-- What is said of a certificate whose parts can all be decoded: its first common name, all
-- alternative names in order, its validity, issuer and key.
pub record IsDescribed (cert : Certificate) (seen : TlsObservation) : Type 0 where
  pub answers : seen.answers_on_443 ≡ true
  pub cn : (names : List String) × (cert.common_names ≡ ok names) × IsFirst names seen.cn
  pub ordered : IsSorted seen.sans
  pub complete :
      (names : Option (List String)) × (cert.alternative_names ≡ ok names)
      × Perm seen.sans (names_of names)
  pub start : (time : String) × (cert.not_valid_before ≡ ok time) × (seen.not_before ≡ some time)
  pub end : (time : String) × (cert.not_valid_after ≡ ok time) × (seen.not_after ≡ some time)
  pub issuer : (name : String) × (cert.issuer ≡ ok name) × (seen.issuer ≡ some name)
  pub key :
      (key : PublicKey) × (text : String) × (cert.public_key ≡ ok key)
      × Writes key text
      × (seen.key_algorithm ≡ some text)

-- Some part of the certificate cannot be decoded, which raises this.
abbrev pub IsSpoilt : Certificate → Error → Type 0
IsSpoilt cert e =
    (cert.common_names ≡ err e)
    ⊎ ((cert.alternative_names ≡ err e)
        ⊎ ((cert.not_valid_before ≡ err e)
            ⊎ ((cert.not_valid_after ≡ err e)
                ⊎ ((cert.issuer ≡ err e) ⊎ (cert.public_key ≡ err e)))))

-- Nothing is said of a certificate.
pub record IsSilent (seen : TlsObservation) : Type 0 where
  pub cn : seen.cn ≡ none
  pub sans : seen.sans ≡ []
  pub start : seen.not_before ≡ none
  pub end : seen.not_after ≡ none
  pub issuer : seen.issuer ≡ none
  pub key : seen.key_algorithm ≡ none

extract_sans-IsSorted : (names : Option (List String)) → IsSorted (extract_sans names)
unfolding extract_sans
extract_sans-IsSorted none = Pairwise.nil
extract_sans-IsSorted (some names) = sorted-IsSorted names

extract_sans-perm : (names : Option (List String)) → Perm (extract_sans names) (names_of names)
unfolding extract_sans
extract_sans-perm none = Perm.rfl
extract_sans-perm (some names) = sorted-perm names

extract_cn-IsFirst : (names : List String) → IsFirst names (extract_cn names)
unfolding extract_cn
extract_cn-IsFirst [] = refl
extract_cn-IsFirst (name ∷ names) = refl

key_algorithm-Writes : (key : PublicKey) → Writes key (key_algorithm key)
unfolding key_algorithm
key_algorithm-Writes (rsa size) = rsa_key size
key_algorithm-Writes (elliptic_curve name) = curve_key name
key_algorithm-Writes (dsa size) = dsa_key size
key_algorithm-Writes ed25519 = ed25519_key
key_algorithm-Writes ed448 = ed448_key
key_algorithm-Writes (other name) = other_key name

-- The observation of these parts.
abbrev observation :
    List String → Option (List String) → String → String → String → PublicKey → TlsObservation
observation names alternatives not_before not_after issuer key = record {
  answers_on_443 = true;
  cn = extract_cn names;
  sans = extract_sans alternatives;
  not_before = some not_before;
  not_after = some not_after;
  issuer = some issuer;
  key_algorithm = some (key_algorithm key);
}

-- Either the certificate is described, or a part of it raises.
abbrev pub Description : Certificate → Result TlsObservation → Type 0
Description cert r =
    ((seen : TlsObservation) × (r ≡ ok seen) × IsDescribed cert seen)
    ⊎ ((e : Error) × (r ≡ err e) × IsSpoilt cert e)

pub describe-Description : (cert : Certificate) → Description cert (describe cert)
unfolding describe
describe-Description cert = elim (Result-cases cert.common_names) [
  | inr (e, a) ↦ inr (e, rw a, inl a)
  | inl (names, a) ↦ elim (Result-cases cert.alternative_names) [
    | inr (e, b) ↦ inr (e, rw (a, b), inr (inl b))
    | inl (alternatives, b) ↦ elim (Result-cases cert.not_valid_before) [
      | inr (e, c) ↦ inr (e, rw (a, b, c), inr (inr (inl c)))
      | inl (not_before, c) ↦ elim (Result-cases cert.not_valid_after) [
        | inr (e, d) ↦ inr (e, rw (a, b, c, d), inr (inr (inr (inl d))))
        | inl (not_after, d) ↦ elim (Result-cases cert.issuer) [
          | inr (e, i) ↦ inr (e, rw (a, b, c, d, i), inr (inr (inr (inr (inl i)))))
          | inl (issuer, i) ↦ elim (Result-cases cert.public_key) [
            | inr (e, k) ↦ inr (e, rw (a, b, c, d, i, k), inr (inr (inr (inr (inr k)))))
            | inl (key, k) ↦ inl (
              observation names alternatives not_before not_after issuer key,
              rw (a, b, c, d, i, k),
              record {
                answers = refl;
                cn = (names, a, extract_cn-IsFirst names);
                ordered = extract_sans-IsSorted alternatives;
                complete = (alternatives, b, extract_sans-perm alternatives);
                start = (not_before, c, refl);
                end = (not_after, d, refl);
                issuer = (issuer, i, refl);
                key = (key, key_algorithm key, k, key_algorithm-Writes key, refl);
              },
            )
          ]
        ]
      ]
    ]
  ]
]

module _ (tls : Tls) where
  -- Nothing answered, or no certificate could be read from what answered, or one is described or
  -- raises.
  abbrev pub IsObserved : Option tls.Der → Result TlsObservation → Type 0
  IsObserved der r =
      ((der ≡ none)
        × ((seen : TlsObservation) × (r ≡ ok seen) × (seen.answers_on_443 ≡ false) × IsSilent seen))
      ⊎ (((d : tls.Der) × (der ≡ some d)
            × (tls.load_der d ≡ none)
            × ((seen : TlsObservation) × (r ≡ ok seen)
                × (seen.answers_on_443 ≡ true)
                × IsSilent seen))
          ⊎ ((d : tls.Der) × (cert : Certificate) × (der ≡ some d)
              × (tls.load_der d ≡ some cert)
              × Description cert r))

  describe_or_bare-cases :
      (loaded : Option Certificate)
      → ((loaded ≡ none)
          × ((seen : TlsObservation) × (describe_or_bare tls loaded ≡ ok seen)
              × (seen.answers_on_443 ≡ true)
              × IsSilent seen))
        ⊎ ((cert : Certificate) × (loaded ≡ some cert)
            × Description cert (describe_or_bare tls loaded))
  unfolding describe_or_bare
  describe_or_bare-cases none = inl (
    refl,
    (
      _,
      refl,
      refl,
      record { cn = refl; sans = refl; start = refl; end = refl; issuer = refl; key = refl },
    ),
  )
  describe_or_bare-cases (some cert) = inr (cert, refl, describe-Description cert)

  observe-IsObserved : (der : Option tls.Der) → IsObserved der (observe tls der)
  unfolding observe
  observe-IsObserved none = inl (
    refl,
    (
      _,
      refl,
      refl,
      record { cn = refl; sans = refl; start = refl; end = refl; issuer = refl; key = refl },
    ),
  )
  observe-IsObserved (some d) = elim (describe_or_bare-cases (tls.load_der d)) [
    | inl (failed, silent) ↦ inr (inl (d, refl, failed, silent))
    | inr (cert, loaded, described) ↦ inr (inr (d, cert, refl, loaded, described))
  ]

  -- The TLS probe reports no answer, and nothing else, where no certificate is fetched, and an
  -- answer without details where the certificate cannot be loaded. Otherwise it reports the
  -- certificate's first common name, its alternative names sorted and complete, its validity,
  -- issuer and key, where all of these can be decoded, or raises what the decoding of one of them
  -- raises.
  pub probe-IsObserved : IsObserved (fetch_peer_cert tls "127.0.0.1" 443) (probe tls)
  unfolding probe
  probe-IsObserved = observe-IsObserved (fetch_peer_cert tls "127.0.0.1" 443)
