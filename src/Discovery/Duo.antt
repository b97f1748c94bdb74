-- ===== src/Discovery/Duo.antt =====
-- discovery/duo_reachability.py.
use dng_preflight.Base.{ℕ, String, ◌<>◌, List, [], ◌∷◌, Dict}
use dng_preflight.Models.Snapshot.{Endpoint, status, failure, DuoReachability}

-- How an HTTPS HEAD ends.
pub data Response : Type 0 where
  answered : ℕ → Response
  connect_timeout read_timeout connect_error : Response
  http_error : (type_name : String) → Response

abbrev pub endpoints : List String
endpoints =
    "https://duo.com" ∷ "https://api.duosecurity.com" ∷ "https://admin-d1.duosecurity.com" ∷ []

unfoldable pub outcome : Response → Endpoint
outcome (answered code) = status code
outcome connect_timeout = failure "connect_timeout"
outcome read_timeout = failure "read_timeout"
outcome connect_error = failure "connect_error"
outcome (http_error type_name) = failure ("http_error:" <> type_name)

unfoldable pub probe_all : (String → Response) → List String → Dict Endpoint
unfolding outcome
probe_all head [] = []
probe_all head (url ∷ urls) = (url, outcome (head url)) ∷ probe_all head urls

unfoldable pub probe : (String → Response) → DuoReachability
unfolding probe_all
probe head = record { endpoints = probe_all head endpoints }
