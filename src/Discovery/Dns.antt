-- ===== src/Discovery/Dns.antt =====
-- discovery/dns.py. The lookups are a parameter.
use dng_preflight.Base.{
  ℕ, String, Option, none, some, List, [], ◌∷◌, Dict, values, if◌then◌else◌, Result, ok, err,
  unicode_error, ◌>>=◌,
}
use dng_preflight.Base.Text.{strip, splitlines, is_empty}
use dng_preflight.Base.Words.{starts_with, words, rstrip_of}
use dng_preflight.Base.Sorted.{sorted}
use dng_preflight.Models.Snapshot.{DnsResolution}
use dng_preflight.Discovery.Host.{Host, absent, unreadable, contents, garbled}

abbrev pub public_resolvers : List String
public_resolvers = "1.1.1.1" ∷ "8.8.8.8" ∷ "9.9.9.9" ∷ []

-- The second word of a line, if there is one.
abbrev second : List String → Option String
second (first ∷ word ∷ rest) = some word
second _ = none

unfoldable pub nameservers : List String → List String
unfolding words
nameservers [] = []
nameservers (raw ∷ lines) =
    let line = strip raw in
    let rest = nameservers lines in
    if starts_with "nameserver" line
    then elim (second (words line)) [ none ↦ rest | some ip ↦ ip ∷ rest ]
    else rest

unfoldable pub local_resolvers : Host → Result (List String)
unfolding nameservers
local_resolvers host = elim (host.file "/etc/resolv.conf") [
  | absent ↦ ok []
  | unreadable ↦ ok []
  | garbled text ↦ err unicode_error
  | contents text ↦ ok (nameservers (splitlines text))
]

-- The first record of any resolver.
unfoldable pub first_record : List (List String) → Option String
first_record [] = none
first_record ([] ∷ rest) = first_record rest
first_record ((record_text ∷ records) ∷ rest) = some record_text

-- The resolver of dnspython. Each answer is a list of records as text, or none where the lookup
-- raises one of the exceptions that the code catches.
pub record Resolver : Type 0 where
  pub resolve :
      (nameservers : List String) (name rdtype : String) (lifetime : ℕ) → Option (List String)
  -- `dns.reversename.from_address`, or none where it raises
  pub reverse_name : String → Option String

abbrev pub query_timeout : ℕ
query_timeout = 3000

unfoldable pub sorted_or_nil : Option (List String) → List String
unfolding sorted
sorted_or_nil none = []
sorted_or_nil (some answer) = sorted answer

-- `str(answer[0]).rstrip(".") if len(answer) else None`
unfoldable pub first_name : Option (List String) → Option String
unfolding rstrip_of
first_name none = none
first_name (some []) = none
first_name (some (name ∷ names)) = some (rstrip_of "." name)

module _ (resolver : Resolver) where
  unfoldable pub query : (hostname rdtype resolver_ip : String) → List String
  unfolding sorted_or_nil
  query hostname rdtype resolver_ip =
      sorted_or_nil (resolver.resolve (resolver_ip ∷ []) hostname rdtype query_timeout)

  abbrev ptr_of : Option String → Option String
  unfolding first_name
  ptr_of none = none
  ptr_of (some rev) = first_name (resolver.resolve public_resolvers rev "PTR" query_timeout)

  unfoldable pub reverse_ptr : String → Option String
  unfolding ptr_of
  reverse_ptr ip = if is_empty ip then none else ptr_of (resolver.reverse_name ip)

  -- The tasks of `gather` for one type of record, with `dict(zip(_PUBLIC_RESOLVERS, results))`.
  unfoldable pub records : (hostname rdtype : String) → List String → Dict (List String)
  unfolding query
  records hostname rdtype [] = []
  records hostname rdtype (ip ∷ ips) = (ip, query hostname rdtype ip) ∷ records hostname rdtype ips

  abbrev reverse_of : Option String → Option String
  unfolding reverse_ptr
  reverse_of none = none
  reverse_of (some ip) = if is_empty ip then none else reverse_ptr ip

  unfoldable pub probe : Host → String → Result DnsResolution
  unfolding local_resolvers first_record records reverse_of
  probe host hostname = do
    let a_records = records hostname "A" public_resolvers
    resolvers ← local_resolvers host
    ok (record {
      hostname = hostname;
      a_records = a_records;
      aaaa_records = records hostname "AAAA" public_resolvers;
      reverse_ptr = reverse_of (first_record (values a_records));
      local_resolvers = resolvers;
    })
