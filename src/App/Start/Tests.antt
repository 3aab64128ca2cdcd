-- ===== src/App/Start/Tests.antt =====
-- A start of src/main.rs on a small host, with two acceptors for each rule.
use layer4_lb.Prelude.{
  ◌<◌, ℕ, ◌+◌, ◌*◌, ◌≤◌, ◌≡◌, refl, true, false, String, none, some, List, [], ◌∷◌, ok, err, arith,
  Any, All, inl, inr, length, if◌then◌else◌, str_eq, ◌↔◌, ok≢err,
}
use mathlib.Core.Option
use layer4_lb.Config.{Config, LbRule, simple}
use layer4_lb.Metrics
use layer4_lb.Networking.Addr.{IpAddr, SocketAddr, ip_eq, ip_eq_iff}
use layer4_lb.Networking.Acl.{IpNetLib}
use layer4_lb.Networking.Tls.{TlsLib, load_tls_config, IsLoaded, load_tls_config-ok_iff}
use layer4_lb.Cluster.{BincodeLib}
use layer4_lb.Cluster.Node.{FocaLib, finished}
use layer4_lb.App.Reload.{Process}
use layer4_lb.App.Host.{Host, Returns}
use layer4_lb.App.Start.{num_acceptors, start_rules, start}
use layer4_lb.App.Start.Listeners.{start_rules-length}
use layer4_lb.App.Start.Families.{Families, ListensOnIpv6, start-fails_on_ipv6}
use layer4_lb.App.Start.Reachable.{Distinct, IsFound, start_rules-IsFound}

abbrev hosts : IpNetLib
hosts = record {
  IpNet = IpAddr;
  contains = ip_eq;
  net_from_str = λ s. none;
  ip_from_str = λ s. none;
  net_from_ip = λ a. a;
  contains-net_from_ip = ip_eq_iff;
}

-- Any file opens; a certificate file has one certificate, and a key file one key.
abbrev files : TlsLib
files = record {
  IoError = Unit {0};
  YamlError = Unit {0};
  AnyhowError = Unit {0};
  File = String;
  Certificate = String;
  Pkcs8Key = String;
  TlsError = String;
  TlsAcceptor = String;
  open_file = λ path. ok path;
  certs = λ file. ok file ∷ [];
  pkcs8_private_keys = λ file. ok file ∷ [];
  with_single_cert = λ chain key. ok key;
  to_string = λ e. e;
}

loaded : load_tls_config files "cert.pem" "key.pem" ≡ ok "key.pem"
unfolding load_tls_config
loaded = refl

load_tls_config-ok_iff_example :
    (load_tls_config files "cert.pem" "key.pem" ≡ ok "key.pem")
    ↔ IsLoaded files "cert.pem" "key.pem" "key.pem"
load_tls_config-ok_iff_example = load_tls_config-ok_iff files "cert.pem" "key.pem" "key.pem"

-- The state counts the sockets.
abbrev system : Host
system = record {
  System = ℕ;
  IoError = String;
  Socket = ℕ;
  TcpListener = ℕ;
  new_socket = λ domain n. (ok n, n + 1);
  set_reuse_port = λ socket n. (err "not supported", n);
  set_reuse_address = λ socket n. (ok tt, n);
  bind = λ socket addr n. elim addr [
    | SocketAddr.v4 a p ↦ (ok tt, n)
    | SocketAddr.v6 a p ↦ (err "address family", n)
  ];
  listen = λ socket backlog n. (ok tt, n);
  set_nonblocking = λ socket n. (ok tt, n);
  from_std = λ socket n. (ok socket, n);
  bind_udp = λ addr n. (ok tt, n);
  parse_addr = λ s. if str_eq s "[::]:80" then ok (SocketAddr.v6 0 80) else ok (SocketAddr.v4 0 80);
  parse_usize = λ s. if str_eq s "2" then some 2 else none;
  num_acceptors_var = some "2";
  available_parallelism = none;
}

families : Families system
unfolding Returns
families = record {
  IsIpv4 = λ _. Unit {0};
  new_socket-IsIpv4 = λ n. tt;
  other_family = λ socket a p v4 n. tt;
}

abbrev rule : String → String → LbRule
rule name listen = record {
  name = name;
  listen = listen;
  backends = simple "a:80" ∷ [];
  protocol = none;
  proxy_protocol = false;
  tls = none;
  backend_tls = none;
  rate_limit = none;
  bandwidth_limit = none;
  backend_connection_limit = none;
  health_check = none;
  allow_list = none;
  deny_list = none;
}

abbrev process : Process
process = record {
  balancer = λ _. record { rule_name = ""; backends = []; current = 0; connection_limit = none };
  next = 0;
  lbs = [];
  world = record {
    cell = λ _. record {
      rule_name = "";
      addr = "";
      active_connections = 0;
      healthy = true;
      drain = false;
    };
    next = 0;
    metrics = Metrics.init;
  };
  checkers = [];
}

abbrev rules : List LbRule
rules = rule "web" "0.0.0.0:80" ∷ rule "mail" "0.0.0.0:25" ∷ []

names-Distinct : Distinct rules
names-Distinct = ((λ e. cc, tt), (tt, tt))

start_rules-length_example :
    Returns
      (λ r. length r.0 ≤ num_acceptors system hosts files * 2)
      (start_rules system hosts files rules process)
start_rules-length_example = start_rules-length system hosts files rules process

start_rules-IsFound_example :
    Returns
      (λ (tasks, s). All (IsFound system hosts files s) tasks)
      (start_rules system hosts files rules process)
start_rules-IsFound_example = start_rules-IsFound system hosts files rules process names-Distinct

abbrev codec : BincodeLib
codec = record {
  DecodeError = Unit {0};
  EncodeError = Unit {0};
  decode_from_slice = λ bytes. err tt;
  encode_to_vec = λ msg. err tt;
  decode-encode = λ msg bytes e. absurd (ok≢err e);
}

abbrev gossip : FocaLib (Unit {0})
gossip = record {
  Foca = Unit {0};
  Error = Unit {0};
  with_custom_broadcast = λ _. tt;
  gossip = λ _. finished tt (record { to_send = []; to_notify = [] }) none;
  handle_data = λ bytes _. finished tt (record { to_send = []; to_notify = [] }) none;
  add_broadcast = λ bytes _. finished tt (record { to_send = []; to_notify = [] }) none;
}

abbrev config : Config
config = record {
  rules = rule "web" "0.0.0.0:80" ∷ rule "web6" "[::]:80" ∷ [];
  cluster = none;
  log = none;
}

on_ipv6 : Any (ListensOnIpv6 system hosts files families) config.rules
on_ipv6 = inr (inl (0, (80, refl)))

some_acceptor : 0 < num_acceptors system hosts files
unfolding Option.bind
some_acceptor = omega arith

start-fails_on_ipv6_example :
    Returns (λ _. ⊥) (start system hosts files codec gossip (ok config) 7 process)
start-fails_on_ipv6_example =
    start-fails_on_ipv6 system hosts files families codec gossip config 7 process on_ipv6
      some_acceptor
