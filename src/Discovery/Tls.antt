-- ===== src/Discovery/Tls.antt =====
-- discovery/tls.py. The sockets, the handshake and the decoding of certificates are a parameter.
use dng_preflight.Base.{
  ℕ, String, ◌<>◌, Bool, true, false, Option, none, some, List, [], ◌∷◌, Result, ok, ◌>>=◌,
}
use dng_preflight.Base.Format.{show}
use dng_preflight.Base.Sorted.{sorted}
use dng_preflight.Models.Snapshot.{TlsObservation}

-- The classes of public keys that are told apart; any other by its type's name.
pub data PublicKey : Type 0 where
  rsa : (key_size : ℕ) → PublicKey
  elliptic_curve : (curve_name : String) → PublicKey
  dsa : (key_size : ℕ) → PublicKey
  ed25519 ed448 : PublicKey
  other : (type_name : String) → PublicKey

-- What is read of an `x509.Certificate`, each part where it is decoded or the exception that this
-- raises: the values of the subject's common names, and of the extension with alternative names, if
-- it is found; times in ISO format and the issuer as text.
pub record Certificate : Type 0 where
  pub public_key : Result PublicKey
  pub common_names : Result (List String)
  pub alternative_names : Result (Option (List String))
  pub not_valid_before : Result String
  pub not_valid_after : Result String
  pub issuer : Result String

-- The fields of the `SSLContext` that are set.
pub record Context : Type 0 where
  pub check_hostname : Bool
  pub verify : Bool

pub record Tls : Type 1 where
  -- A certificate in DER.
  pub Der : Type 0
  -- `getpeercert(binary_form=True)` after the handshake with a host and port under a timeout in
  -- milliseconds, or none where the socket raises or there is no certificate
  pub getpeercert : Context → (host : String) (port timeout : ℕ) → Option Der
  -- `x509.load_der_x509_certificate`, or none where it raises `ValueError`
  pub load_der : Der → Option Certificate

unfoldable pub key_algorithm : PublicKey → String
unfolding show
key_algorithm (rsa size) = "RSA-" <> show size
key_algorithm (elliptic_curve name) = "EC-" <> name
key_algorithm (dsa size) = "DSA-" <> show size
key_algorithm ed25519 = "Ed25519"
key_algorithm ed448 = "Ed448"
key_algorithm (other name) = name

unfoldable pub extract_sans : Option (List String) → List String
unfolding sorted
extract_sans none = []
extract_sans (some names) = sorted names

unfoldable pub extract_cn : List String → Option String
extract_cn [] = none
extract_cn (name ∷ names) = some name

abbrev pub connect_timeout : ℕ
connect_timeout = 3000

-- Neither the name nor the chain is verified.
abbrev pub context : Context
context = record { check_hostname = false; verify = false }

-- An observation with no more than whether anything answers.
abbrev pub bare : Bool → TlsObservation
bare answers = record {
  answers_on_443 = answers;
  cn = none;
  sans = [];
  not_before = none;
  not_after = none;
  issuer = none;
  key_algorithm = none;
}

unfoldable pub describe : Certificate → Result TlsObservation
unfolding key_algorithm extract_sans extract_cn
describe cert = do
  common_names ← cert.common_names
  alternative_names ← cert.alternative_names
  not_before ← cert.not_valid_before
  not_after ← cert.not_valid_after
  issuer ← cert.issuer
  public_key ← cert.public_key
  ok (record {
    answers_on_443 = true;
    cn = extract_cn common_names;
    sans = extract_sans alternative_names;
    not_before = some not_before;
    not_after = some not_after;
    issuer = some issuer;
    key_algorithm = some (key_algorithm public_key);
  })

module _ (tls : Tls) where
  unfoldable pub fetch_peer_cert : String → ℕ → Option tls.Der
  fetch_peer_cert host port = tls.getpeercert context host port connect_timeout

  unfoldable pub describe_or_bare : Option Certificate → Result TlsObservation
  unfolding describe
  describe_or_bare none = ok (bare true)
  describe_or_bare (some cert) = describe cert

  unfoldable pub observe : Option tls.Der → Result TlsObservation
  unfolding describe_or_bare
  observe none = ok (bare false)
  observe (some der) = describe_or_bare (tls.load_der der)

  unfoldable pub probe : Result TlsObservation
  unfolding fetch_peer_cert observe
  probe = observe (fetch_peer_cert "127.0.0.1" 443)
