-- ===== src/App/Connection.antt =====
-- One accepted connection of src/main.rs, from the access control list to the end of its task. The
-- checks of the acceptor and the task run one after another here.
pub mod Admission
pub mod Rate
pub mod Loop
use layer4_lb.Prelude.{
  ℕ, ◌<◌, ◌≡◌, refl, String, Bool, true, false, not, Option, none, some, List, [], ◌∷◌, Result, ok,
  err, arith, if◌then◌else◌, Bool-cases, Option-cases, inl, inr, ap, ◌∙◌, sym,
}
use mathlib.Core.Option
use layer4_lb.Prelude.Word.{usize_mod}
use layer4_lb.Config.{BackendTlsConfig}
use layer4_lb.Metrics.{Metrics}
use layer4_lb.Networking.Addr.{IpAddr, SocketAddr, ip}
use layer4_lb.Networking.Acl.{IpNetLib, AccessControl, is_allowed}
use layer4_lb.Networking.Proxy.{Network, ProxyConfig, proxy_connection}
use layer4_lb.Core.Balancer.{LoadBalancer, ConnectionGuard, World, next_backend, drop_guard}
use layer4_lb.Traffic.Registry.Table.{Heap}
use layer4_lb.Traffic.Registry.{
  RateLimiter, BandwidthManager, check, get_client_upload_limiter, get_client_download_limiter,
  get_backend_upload_limiter, get_backend_download_limiter,
}

-- What the tasks of one rule share.
pub record Shared : Type 0 where
  pub lb : LoadBalancer
  pub world : World
  pub rate_limiter : RateLimiter
  pub bandwidth_manager : BandwidthManager
  pub heap : Heap

-- What is fixed for a listener. `tls` says whether it has an acceptor.
pub record Listener (IpNet : Type 0) : Type 0 where
  pub rule_name : String
  pub acl : AccessControl IpNet
  pub tls : Bool
  pub backend_tls : Option BackendTlsConfig
  pub proxy_protocol : Bool

-- What the libraries answer during one connection: the addresses of the client and, if there is
-- one, of the socket, the handshake with the client, the text of an address, and the clock at the
-- calls that read it.
pub record Accepted (net : Network) : Type 0 where
  pub stream : net.Client
  pub client_addr : SocketAddr
  pub local_addr : Option SocketAddr
  pub accept_tls : net.Client → Result net.Client net.Error
  pub to_string : IpAddr → String
  pub clock : ℕ → ℕ

pub data Handled : Type 0 where
  denied : Handled
  limited : Handled
  no_backend : Handled
  finished : Handled

module _ (lib : IpNetLib) (net : Network) (listener : Listener lib.IpNet)
    (conn : Accepted net) where
  -- The four limiters, in the source's order.
  pub proxy_config : BandwidthManager → Heap → ProxyConfig × BandwidthManager × Heap
  proxy_config bw h =
      let addr = ip conn.client_addr in
      let (client_read, bw₁, h₁) = get_client_upload_limiter addr (conn.clock 1) bw h in
      let (client_write, bw₂, h₂) = get_client_download_limiter addr (conn.clock 2) bw₁ h₁ in
      let (backend_read, bw₃, h₃) =
        get_backend_download_limiter (conn.to_string addr) (conn.clock 3) bw₂ h₂ in
      let (backend_write, bw₄, h₄) =
        get_backend_upload_limiter (conn.to_string addr) (conn.clock 4) bw₃ h₃ in
      (
        record {
          client_read_limiter = client_read;
          client_write_limiter = client_write;
          backend_read_limiter = backend_read;
          backend_write_limiter = backend_write;
          backend_tls = listener.backend_tls;
          proxy_protocol = listener.proxy_protocol;
          client_addr = conn.client_addr;
          local_addr = Option.get_or conn.local_addr (SocketAddr.v4 0 0);
        },
        bw₄,
        h₄,
      )

  -- The handshake with the client, if there is one, and the proxying; errors are only logged.
  pub serve_client : String → ProxyConfig → Metrics → Metrics
  serve_client addr config m =
      if listener.tls
      then elim (conn.accept_tls conn.stream) [
        | ok tls_stream ↦ (proxy_connection net tls_stream addr config listener.rule_name m).1
        | err e ↦ m
      ]
      else (proxy_connection net conn.stream addr config listener.rule_name m).1

  -- What follows the selection. The guard is dropped at the end of the task.
  pub with_backend :
      Shared → Option (String × ConnectionGuard) × LoadBalancer × World → Handled × Shared
  unfolding proxy_config serve_client
  with_backend s (none, lb, w) = (no_backend, record s { lb = lb; world = w })
  with_backend s (some (addr, guard), lb, w) =
      let (config, bw, h) = proxy_config s.bandwidth_manager s.heap in
      let w' = record w { metrics = serve_client addr config w.metrics } in
      (
        finished,
        record s { lb = lb; world = drop_guard guard w'; bandwidth_manager = bw; heap = h },
      )

  pub handle_connection : Shared → Handled × Shared
  unfolding with_backend
  handle_connection s =
      if not (is_allowed lib listener.acl (ip conn.client_addr))
      then (denied, s)
      else let (granted, rate_limiter, heap) =
          check (ip conn.client_addr) (conn.clock 0) s.rate_limiter s.heap in
        let s' = record s { rate_limiter = rate_limiter; heap = heap } in
        if not granted then (limited, s') else with_backend s' (next_backend s'.lb s'.world)

-- The loop of an acceptor; a failed accept is only logged.
module _ (lib : IpNetLib) (net : Network) (listener : Listener lib.IpNet) where
  unfoldable pub accept_loop : List (Option (Accepted net)) → Shared → List Handled × Shared
  unfolding handle_connection
  accept_loop [] s = ([], s)
  accept_loop (none ∷ accepts) s = accept_loop accepts s
  accept_loop (some conn ∷ accepts) s =
      let (outcome, s') = handle_connection lib net listener conn s in
      let (outcomes, s'') = accept_loop accepts s' in (outcome ∷ outcomes, s'')
