-- ===== src/Examples/Machine.antt =====
-- A machine with all its probes, and a collection that fails.

use dng_preflight.Base.{arith}
use dng_preflight.Discovery.Timed.{network_ends, heads_end, egress_ends}
use dng_preflight.Discovery.Machine.{Machine, collect_on}
use dng_preflight.Discovery.Dropped.{collect_on-IsDropped}
use dng_preflight.Base.{err, exception_group, inl}
use dng_preflight.Discovery.Network.{address_in}
use dng_preflight.Discovery.Duo.{answered}
use dng_preflight.Base.{Error, subst, sym}
use dng_preflight.Discovery.Tls.{Certificate}
use dng_preflight.Discovery.Observed.{IsSpoilt}
use dng_preflight.Discovery.Legible.{IsLegible}
use dng_preflight.Discovery.Network.{default_route_iface}
use dng_preflight.Discovery.Whole.{IsPrompt}
use dng_preflight.Base.{◌≡◌, refl, none, some, [], ◌∷◌, err}
use dng_preflight.Base.Text.{strip}
use dng_preflight.Discovery.Host.{absent}
use dng_preflight.Examples.Discovery.{host, server, resolver, certificate}

abbrev pub machine : Machine
machine = record {
  host = record host {
    file = λ path. absent;
    net_if_addrs = ("eth0", ("AF_INET", "10.0.0.5") ∷ []) ∷ [];
  };
  tls = server;
  resolver = resolver;
  head = λ url. answered 200;
  durations = record {
    system = some 40;
    docker = some 300;
    local_network = some 30;
    get = λ url. some 1200;
    dns = some 3000;
    tls = some 12;
    time_sync = some 3000;
    firewall = some 90;
    head = λ url. some 700;
  };
}

loaded_certificate : (cert : Certificate) → some certificate ≡ some cert → certificate ≡ cert
loaded_certificate cert h = cc h

certificate_IsSound : (e : Error) → ¬ IsSpoilt certificate e
certificate_IsSound e spoilt = ground arith

pub machine-IsLegible : IsLegible machine
machine-IsLegible = record {
  host = record { commands = λ cmd h. cc h; files = λ path rest h. cc h };
  certificates = λ der cert e loaded spoilt.
      certificate_IsSound e
        (subst (λ c. IsSpoilt c e) (sym (loaded_certificate cert loaded)) spoilt);
}

pub machine-IsPrompt : IsPrompt machine
unfolding network_ends heads_end egress_ends address_in strip default_route_iface
machine-IsPrompt = omega arith

-- The same machine, behind a firewall that drops what is sent.
abbrev dropped : Machine
dropped = record machine {
  host = record machine.host { get = λ url. none };
  durations = record machine.durations { get = λ url. some 4000 };
}

collect_on-IsDropped_example :
    (collect_on dropped "now" "dng.example.com").result ≡ err exception_group
unfolding address_in
collect_on-IsDropped_example =
    collect_on-IsDropped dropped "now" "dng.example.com"
      (inl ((refl, omega arith), ((refl, omega arith), ((refl, omega arith), tt))))
