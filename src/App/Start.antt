-- ===== src/App/Start.antt =====
-- The start of src/main.rs: the listeners of each rule, and the cluster. The balancers and the health
-- checkers are those of `start_rule`.
pub mod Listeners
pub mod Families
pub mod Reachable
mod Tests
use mathlib.Core.Option
use layer4_lb.Prelude.{
  ℕ, zero, suc, ◌≡◌, String, Bool, true, false, Option, none, some, List, [], ◌∷◌, ◌++◌, map,
  Result, ok, err, collect, if◌then◌else◌,
}
use layer4_lb.Config.{
  ConfigError, LogConfig, ClusterConfig, TlsConfig, RateLimitConfig, BandwidthLimitConfig, LbRule,
  Config, validate,
}
use layer4_lb.Networking.Addr.{SocketAddr}
use layer4_lb.Common.{LbError}
use layer4_lb.Networking.Tls.{TlsLib, load_tls_config}
use layer4_lb.Networking.Acl.{IpNetLib}
use layer4_lb.Networking.Acl
use layer4_lb.Traffic.Registry.{RateLimiter, BandwidthManager, new_manager}
use layer4_lb.Traffic.Registry
use layer4_lb.Cluster.{BincodeLib}
use layer4_lb.Cluster.Node.{FocaLib, Node}
use layer4_lb.Cluster.Node
use layer4_lb.App.Connection.{Listener}
use layer4_lb.App.Reload.{Process, ReloadError, start_rule}
use layer4_lb.App.Reload
use layer4_lb.App.Host.{
  Host, Domain, ipv4, Io, pure, fail, ◌>>=◌, ◌>>◌, attempt, StartError, unreadable, unparsable,
  invalid, invalid_address, tls, panicked, try_io, try_with,
}

abbrev pub log_level : Config → String
log_level c = elim c.log [ some log ↦ log.level | none ↦ "info" ]

-- A task that accepts connections: its balancer, its socket, what is fixed for it, and the limiters
-- that the acceptors of the rule share, as they are at the start.
pub record Acceptor (Socket IpNet Tls : Type 0) : Type 0 where
  pub lb : ℕ
  pub socket : Socket
  pub listener : Listener IpNet
  pub tls : Option Tls
  pub rate_limiter : RateLimiter
  pub bandwidth_manager : BandwidthManager

-- The values for a rule that has no limits.
abbrev no_rate_limit : RateLimitConfig
no_rate_limit = record { enabled = false; requests_per_second = 0; burst = 0 }

abbrev no_bandwidth_limit : BandwidthLimitConfig
no_bandwidth_limit = record { enabled = false; client = none; backend = none }

module _ (host : Host) (net_lib : IpNetLib) (tls_lib : TlsLib) where
  open host use {
    System, IoError, Socket, TcpListener, new_socket, set_reuse_port, set_reuse_address, bind,
    listen, set_nonblocking, from_std, parse_addr, parse_usize, num_acceptors_var,
    available_parallelism,
  }
  open tls_lib use {TlsAcceptor}

  abbrev pub TlsFailure : Type 0
  TlsFailure = LbError tls_lib.IoError tls_lib.YamlError tls_lib.AnyhowError

  abbrev pub Failure : Type 0
  Failure = StartError IoError TlsFailure

  abbrev pub Main : Type 0 → Type 0
  Main A = Io System Failure A

  abbrev pub Task : Type 0
  Task = Acceptor TcpListener net_lib.IpNet TlsAcceptor

  abbrev pub num_acceptors : ℕ
  num_acceptors =
      Option.get_or (Option.bind num_acceptors_var parse_usize)
        (Option.get_or available_parallelism 4)

  -- The steps behind the binding of a socket; none when the conversion at their end fails.
  pub listen_on : Socket → Main (Option TcpListener)
  listen_on socket = do
    try_io (listen socket 1024)
    try_io (set_nonblocking socket)
    listener ← attempt (from_std socket)
    pure (elim listener [ ok l ↦ some l | err e ↦ none ])

  -- The socket of one acceptor.
  unfoldable pub open_listener : SocketAddr → Main (Option TcpListener)
  open_listener addr = do
    socket ← try_io (new_socket ipv4)
    reused ← attempt (set_reuse_port socket)
    try_io (set_reuse_address socket)
    try_io (bind socket addr)
    listen_on socket

  -- The acceptor of a listener.
  abbrev pub task_of : LbRule → ℕ → Option TlsAcceptor → TcpListener → Task
  task_of rule p tls_acceptor socket = record {
    lb = p;
    socket = socket;
    listener = record {
      rule_name = rule.name;
      acl = Acl.new net_lib rule.allow_list rule.deny_list;
      tls = elim tls_acceptor [ some _ ↦ true | none ↦ false ];
      backend_tls = rule.backend_tls;
      proxy_protocol = rule.proxy_protocol;
    };
    tls = tls_acceptor;
    rate_limiter = Registry.new (Option.get_or rule.rate_limit no_rate_limit);
    bandwidth_manager = new_manager (Option.get_or rule.bandwidth_limit no_bandwidth_limit);
  }

  abbrev pub append_some : (TcpListener → Task) → Option TcpListener → List Task → List Task
  append_some task none tasks = tasks
  append_some task (some socket) tasks = task socket ∷ tasks

  -- The loop over the acceptors of a rule.
  unfoldable pub start_acceptors : ℕ → SocketAddr → (TcpListener → Task) → Main (List Task)
  start_acceptors zero addr task = pure []
  start_acceptors (suc n) addr task = do
    socket ← open_listener addr
    tasks ← start_acceptors n addr task
    pure (append_some task socket tasks)

  abbrev tls_acceptor_of : Option TlsConfig → Main (Option TlsAcceptor)
  tls_acceptor_of none = pure none
  tls_acceptor_of (some config) =
      if config.enabled
      then (do
        acceptor ← try_with tls (load_tls_config tls_lib config.cert config.key)
        pure (some acceptor))
      else pure none

  -- The listeners of a rule whose balancer has the cell p.
  unfoldable pub start_listeners : LbRule → ℕ → Main (List Task)
  start_listeners rule p = do
    tls_acceptor ← tls_acceptor_of rule.tls
    addr ← try_with invalid_address (parse_addr rule.listen)
    start_acceptors num_acceptors addr (task_of rule p tls_acceptor)

  -- The loop over the rules. An error ends the process, so what it has made by then is not given.
  unfoldable pub start_rules : List LbRule → Process → Main (List Task × Process)
  start_rules [] s = pure ([], s)
  start_rules (rule ∷ rules) s = do
    tasks ← start_listeners rule s.next
    (more, s') ← start_rules rules (start_rule rule s)
    pure (tasks ++ more, s')

  module _ (bincode : BincodeLib) (foca : FocaLib bincode.DecodeError) where
    -- The node of the cluster, if there is one. A bad address panics; a socket that cannot be bound is only
    -- reported.
    unfoldable pub start_cluster : Option ClusterConfig → ℕ → Main (Option (Node bincode foca))
    start_cluster none random = pure none
    start_cluster (some config) random =
        if config.enabled
        then (do
          bind_addr ←
              try_with (λ e. panicked "Invalid cluster bind address") (parse_addr config.bind_addr)
          seeds ←
              try_with (λ e. panicked "Invalid seed address")
                (collect (map parse_addr config.peers))
          bound ← attempt (host.bind_udp bind_addr)
          pure (elim (Node.new bincode foca bound random bind_addr seeds) [
            | ok node ↦ some node
            | err e ↦ none
          ]))
        else pure none

    -- `main` up to the metrics server, on what reading and parsing the file gave.
    unfoldable pub start :
        Result Config ReloadError
        → ℕ
        → Process
        → Main (List Task × Process × Option (Node bincode foca))
    start read random s = do
      config ←
          try_with
            (λ e. elim e [
              | ReloadError.unreadable ↦ unreadable
              | ReloadError.unparsable ↦ unparsable
            ])
            read
      try_with invalid (validate config)
      (tasks, s') ← start_rules config.rules s
      node ← start_cluster config.cluster random
      pure (tasks, s', node)
