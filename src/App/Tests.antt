-- ===== src/App/Tests.antt =====
-- One connection and one reload of src/main.rs.
use layer4_lb.Prelude.{
  inl, map, ℕ, ◌-◌, ◌+◌, ◌*◌, ◌≤◌, All, ◌<◌, ◌≡◌, refl, true, false, String, none, some, List, [],
  ◌∷◌, Result, ok, err, inr, length, arith, if◌then◌else◌, str_eq,
}
use layer4_lb.Prelude.Word.{usize_mod, wrapping_add}
use layer4_lb.Config.{LbRule, Config, BackendConfig, simple}
use layer4_lb.Metrics
use layer4_lb.Metrics.{Metrics}
use layer4_lb.Networking.Addr.{IpAddr, SocketAddr, ip_eq, ip_eq_iff}
use layer4_lb.Networking.Acl.{IpNetLib}
use layer4_lb.Networking.Proxy.{Network, ProxyConfig, proxy_connection}
use layer4_lb.Networking.Proxy.Account.{copied, Settled, proxy_connection_lem}
use layer4_lb.Core.Balancer.{LoadBalancer, World, new}
use layer4_lb.Traffic.Limiter.{SimpleLimiter, billion}
use layer4_lb.Traffic.Registry.{check, new_manager}
use layer4_lb.Traffic.Registry
use layer4_lb.Traffic.Limiter.Level.{IsBounded}
use layer4_lb.Traffic.Registry.Table.{lookup, view}
use layer4_lb.Traffic.Registry.Sharing.{bucket, Separate, Within}
use layer4_lb.App.Connection.{accept_loop}
use layer4_lb.App.Connection.Loop.{accept_loop-LeavesNoTrace}
use layer4_lb.App.Connection.Rate.{admitted_from, let_in}
use layer4_lb.App.Connection.Rate.Bound.{admitted_from-le-rate}
use layer4_lb.App.Connection.{Shared, Listener, Accepted}
use layer4_lb.App.Connection.Admission.{LeavesNoTrace}
use layer4_lb.App.Watch.{Watched, Event, modify, write, deliver, receive, notice, other, run}
use layer4_lb.App.Watch.Loaded.{IsLoadedSince}
use layer4_lb.App.Watch.Latest.{rounds, IsReported, catches_up}
use layer4_lb.App.Reload.{ReloadError, unparsable, Process, start_rule, reload}
use layer4_lb.App.Reload.Kept.{KeptByReload, reload-KeptByReload, reloads, reload_misses_shadowed}

abbrev hosts : IpNetLib
hosts = record {
  IpNet = IpAddr;
  contains = ip_eq;
  net_from_str = λ s. none;
  ip_from_str = λ s. if str_eq s "10.0.0.1" then some (IpAddr.v4 0x0A000001) else none;
  net_from_ip = λ a. a;
  contains-net_from_ip = ip_eq_iff;
}

-- A network on which every backend answers, after 12 bytes to it and 30 from it.
abbrev network : Network
network = record {
  Client = String;
  Server = String;
  Error = String;
  connect = λ addr. ok addr;
  write_all = λ bytes server. ok server;
  handshake = λ ignore_verify server. err "no certificate";
  copy = λ client server. ok (12, 30);
  elapsed = 7;
}

abbrev plain : ProxyConfig
plain = record {
  client_read_limiter = none;
  client_write_limiter = none;
  backend_read_limiter = none;
  backend_write_limiter = none;
  backend_tls = none;
  proxy_protocol = true;
  client_addr = SocketAddr.v4 0x0A000001 40000;
  local_addr = SocketAddr.v4 0x0A000002 80;
}

abbrev proxied : Result (Unit {0}) String × Metrics
proxied = proxy_connection network "client" "a:80" plain "web" Metrics.init

proxy_connection_lem_example :
    ((l : String) → proxied.1.active_connections l ≡ Metrics.init.active_connections l)
    × (proxied.1.total_connections "web" ≡ wrapping_add (Metrics.init.total_connections "web") 1)
    × Settled network "web" Metrics.init (copied network "client" "a:80" plain) proxied.0 proxied.1
    × (proxied.1.backend_active_connections ≡ Metrics.init.backend_active_connections)
proxy_connection_lem_example = proxy_connection_lem network "client" "a:80" plain "web" Metrics.init

abbrev world : World
world = record {
  cell = λ p. record {
    rule_name = "web";
    addr = "a:80";
    active_connections = 3;
    healthy = true;
    drain = false;
  };
  next = 1;
  metrics = Metrics.init;
}

abbrev limiter : SimpleLimiter
limiter = record { rate_per_sec = 1; burst_size = 1; tokens = 0; last_update = 0 }

abbrev balancer : LoadBalancer
balancer = record { rule_name = "web"; backends = 0 ∷ []; current = 0; connection_limit = some 10 }

abbrev shared : Shared
shared = record {
  lb = balancer;
  world = world;
  rate_limiter = Registry.new (record { enabled = true; requests_per_second = 5; burst = 10 });
  bandwidth_manager = new_manager (record { enabled = false; client = none; backend = none });
  heap = record { cell = λ _. limiter; next = 0 };
}

abbrev listener : Listener IpAddr
listener = record {
  rule_name = "web";
  acl = record { allow_list = IpAddr.v4 0x0A000001 ∷ []; deny_list = [] };
  tls = false;
  backend_tls = none;
  proxy_protocol = true;
}

abbrev conn : Accepted network
conn = record {
  stream = "client";
  client_addr = SocketAddr.v4 0x0A000001 40000;
  local_addr = none;
  accept_tls = λ stream. ok stream;
  to_string = λ addr. "10.0.0.1";
  clock = λ i. i;
}

few_connections : (q : ℕ) → (world.cell q).active_connections < usize_mod
few_connections q = omega arith

accept_loop-LeavesNoTrace_example :
    LeavesNoTrace world
      (accept_loop hosts network listener (some conn ∷ none ∷ some conn ∷ []) shared).1.world
accept_loop-LeavesNoTrace_example =
    accept_loop-LeavesNoTrace hosts network listener (some conn ∷ none ∷ some conn ∷ []) shared
      few_connections

-- The client is known to the rate limiter, and its bandwidth is limited.
abbrev client_ip : IpAddr
client_ip = IpAddr.v4 0x0A000001

abbrev known : Shared
known = record shared {
  rate_limiter = record shared.rate_limiter { limiters = (client_ip, 0) ∷ [] };
  bandwidth_manager = new_manager (record {
    enabled = true;
    client = some (record { upload_per_sec = 4096; download_per_sec = 4096 });
    backend = none;
  });
  heap = record { cell = λ _. limiter; next = 1 };
}

known-Separate : Separate known.rate_limiter known.heap
unfolding lookup
known-Separate = record {
  used = λ k p e. ground (arith, e);
  apart = λ k j p e f. ground (arith, ip_eq_iff client_ip k, ip_eq_iff client_ip j, e, f);
}

known_bucket : bucket client_ip known.rate_limiter known.heap ≡ some limiter
unfolding view lookup
known_bucket = refl

limiter-IsBounded : IsBounded limiter
limiter-IsBounded = omega arith

-- The second is not on the allow list.
abbrev callers : List (Accepted network)
callers = conn ∷ record conn { client_addr = SocketAddr.v4 0x0A000009 40000 } ∷ conn ∷ []

conns-Within : All (λ c. Within 0 2000000000 (c.clock 0)) callers
conns-Within = ground arith

admitted_from-le-rate_example :
    (admitted_from hosts network listener client_ip callers known * billion
      ≤ 1 * billion + (2000000000 - 0) * 1)
    × ((accept_loop hosts network listener (map some callers) known).1
        ≡ (accept_loop hosts network listener
            (map some (let_in hosts network listener callers))
            known).1)
admitted_from-le-rate_example =
    admitted_from-le-rate hosts network listener client_ip callers 0 2000000000 known limiter refl
      known-Separate known_bucket limiter-IsBounded (omega arith) (omega arith) conns-Within

abbrev rule : List BackendConfig → LbRule
rule backends = record {
  name = "web";
  listen = "0.0.0.0:80";
  backends = backends;
  protocol = none;
  proxy_protocol = false;
  tls = none;
  backend_tls = none;
  rate_limit = none;
  bandwidth_limit = none;
  backend_connection_limit = none;
  health_check = none;
  allow_list = none;
  deny_list = none;
}

abbrev process : Process
process = record { balancer = λ _. balancer; next = 0; lbs = []; world = world; checkers = [] }

abbrev new_config : Config
new_config = record { rules = rule (simple "c:80" ∷ []) ∷ []; cluster = none; log = none }

abbrev running : Process
running = start_rule (rule (simple "a:80" ∷ [])) process

reload-KeptByReload_example : KeptByReload running (reload (ok new_config) running)
reload-KeptByReload_example = reload-KeptByReload (ok new_config) running

abbrev twice : Process
twice = start_rule (rule (simple "b:80" ∷ [])) running

reload_misses_shadowed_example :
    (reloads (err unparsable ∷ ok new_config ∷ ok new_config ∷ []) twice).balancer 0
    ≡ (new "web" (simple "a:80" ∷ []) none world).0
reload_misses_shadowed_example =
    reload_misses_shadowed (rule (simple "a:80" ∷ [])) (rule (simple "b:80" ∷ []))
      (err unparsable ∷ ok new_config ∷ ok new_config ∷ []) process refl refl

-- Two changes of the file, while the loop has not run.
abbrev watched : Watched
watched = record { file = some "a"; notices = []; rx = 0; content = some "a"; process = running }

abbrev from_str : String → Result Config ReloadError
from_str text = if str_eq text "c" then ok new_config else err unparsable

abbrev changes : List Event
changes =
    write (some "b") (modify ∷ [])
    ∷ deliver
    ∷ write (some "c") (other ∷ modify ∷ [])
    ∷ deliver
    ∷ notice other
    ∷ []

changes-IsReported : All IsReported changes
changes-IsReported = (inl refl, (tt, (inr (inl refl), (tt, (tt, tt)))))

catches_up_example :
    let w = run from_str changes watched in
    let settled = run from_str (rounds (length w.notices)) w in
    (settled.content ≡ w.file) × (settled.file ≡ w.file) × IsLoadedSince from_str watched settled
catches_up_example =
    catches_up from_str changes watched changes-IsReported (inr (inr refl)) (omega arith)

-- The file is removed and made again.
abbrev replacement : List Event
replacement =
    write none (other ∷ [])
    ∷ deliver
    ∷ receive
    ∷ write (some "c") (other ∷ [])
    ∷ deliver
    ∷ receive
    ∷ []
