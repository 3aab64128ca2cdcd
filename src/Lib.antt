-- ===== src/Lib.antt =====
-- layer4-lb, a TCP load balancer: its selection of backends, its limits, its access control, the
-- PROXY protocol header it writes, its start and its gossip with other nodes.
--
-- A rule of the configuration has a listener, a balancer over a list of backends, an access control
-- list, a rate limiter and a bandwidth manager. A connection task asks the access control list and
-- the rate limiter about the client, takes a backend with a guard from the balancer, and copies
-- bytes between two throttled streams; the guard is dropped when the task ends. Health checkers
-- report to the balancer, and a reload of the configuration replaces its list. A node of a cluster
-- gossips usages with its peers, which a task logs.
--
--   Config            src/config/mod.rs: the types, `Config::validate` (`validate`)
--   Metrics           src/metrics/mod.rs: the values of the metrics, `metrics_handler`, and its task
--   Common            src/common/error.rs: `LbError`
--   Core.Balancer     src/core/balancer.rs: `LoadBalancer::{new, update_backends,
--                     set_backend_health, next_backend}` and `Drop for ConnectionGuard`
--                     (`drop_guard`); `System` has the sequences of calls that tasks make,
--                     and `Race` the interleavings of the accesses of `next_backend`, which
--                     a call makes one after the other (the increment of the gauge is one)
--   Core.Health       src/core/health.rs: the probes (`check`) and the loop of
--                     `start_health_check` (`probe_rounds`)
--   Traffic.Limiter   src/traffic/limiter.rs: `SimpleLimiter`
--   Traffic.Registry  src/traffic/limiter.rs: `RateLimiter` and `BandwidthManager`
--   Traffic.Bandwidth src/traffic/bandwidth.rs: `RateLimitedStream`
--   Networking.Acl    src/networking/acl.rs: `AccessControl`
--   Networking.ProxyProtocol
--                     src/networking/proxy_protocol.rs: `create_v2_header`
--   Networking.Proxy  src/networking/proxy.rs: `proxy_connection`
--   Networking.Tls    src/networking/tls.rs: `load_tls_config`
--   Cluster           src/cluster/mod.rs: the messages and `receive_item`; `Node` has the loop of
--                     a node (`Cluster::run`), an event at a time, and the log of the updates
--   App.Connection    src/main.rs: what an acceptor and the task of one connection do
--                     (`accept_loop`, `handle_connection`)
--   App.Start         src/main.rs: the start (`start`), with the sockets and acceptors of each rule
--                     (`start_listeners`) and the node of the cluster (`start_cluster`)
--   App.Watch         src/main.rs: the watcher of the configuration file and the loop that it wakes
--   App.Host          the calls of the system that can fail, and what they return
--   App.Reload        src/main.rs: the balancers and health checkers of the start (`start_rule`)
--                     and the reload loop (`reload`)
--   Throughput        utilities/throughput.rs: the command line (`main_command`), the sinks with
--                     their reporter (`Sink`), the tasks that flood (`Flood`)
--   Networking.Addr   the addresses of `std::net`
--   Prelude           names and lemmas that the parts share
--
-- How code becomes definitions. An `Arc` to something mutable is the address of a cell, and the
-- cells of the backends and of the limiters are passed through every operation (`World`, `Heap`),
-- with the gauges. A call is one step, but for `Race`. An integer of a machine width wraps where
-- the code computes with it (`wrapping_add` of the counters, 2^64, as release builds do). A `DashMap` is an
-- association list. Times are nanoseconds and tokens are counted in billionths, so every sum that
-- the limiter forms is exact: the rounding of f64 is not modelled. A `poll` takes the readings of
-- the clock that its calls get, and `until_n_ready` takes the readings of its rounds as a list, with what
-- others do to the bucket before each; a list that ends stands for a task that still waits.
-- A change of the configuration file comes with whatever notify reports of it. `decimal` has fuel for
-- 20 digits, the most that a usize has.
--
-- Parameters. `Timer` says when a poll finds a sleep of tokio over, and is under no law. `IpNetLib` is
-- what acl.rs uses of the crate ipnet: its one law is the documented
-- meaning of the network of a single address. `AsyncStream` is the stream that is wrapped: no
-- read adds more bytes than there is room, and no write takes more than it is given. Buffers are
-- initialised, as those of `copy_bidirectional` are. `Network` and `Accepted` have the answers of
-- the network, of TLS and of the clock during one connection, `Answers` those during one probe, and
-- they are under no law. `BincodeLib` decodes what it has encoded. `FocaLib` is the gossip: one of its
-- operations is a tree of the calls that it makes of the broadcast handler, with what it asks to send at
-- the end; `Solitude` is what foca documents of a node that knows no other. `TlsLib` has the files and
-- the TLS library, `Host` the sockets and the environment; `Families` is what a system documents of
-- a socket that is made for IPv4. `TextEncoder` is that of prometheus.
--
-- Not modelled: reading YAML (serde), the log but for the lines that a node of the cluster prints, the
-- registration of metrics (prometheus) and the HTTP around their text (hyper), and the averages that
-- utilities/throughput.rs prints. `NoVerify` of src/networking/proxy.rs is the argument of a handshake,
-- which is a parameter.
pub mod App
pub mod Cluster
pub mod Common
pub mod Config
pub mod Core
pub mod Metrics
pub mod Networking
pub mod Prelude
pub mod Throughput
pub mod Traffic
