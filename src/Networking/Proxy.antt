-- ===== src/Networking/Proxy.antt =====
-- `proxy_connection` of src/networking/proxy.rs. What the network, the TLS library and
-- `copy_bidirectional` answer is a parameter.
pub mod Account
use layer4_lb.Prelude.{
  ℕ, ◌≡◌, String, Bool, Option, none, some, List, [], ◌∷◌, Result, ok, err, if◌then◌else◌,
}
use layer4_lb.Prelude.Int.{ℤ, pos, ◌+ℤ◌, ◌-ℤ◌}
use layer4_lb.Prelude.Word.{wrapping_add}
use layer4_lb.Config.{BackendTlsConfig}
use layer4_lb.Metrics.{Metrics, update, update₂}
use layer4_lb.Networking.Addr.{SocketAddr}
use layer4_lb.Networking.ProxyProtocol.{create_v2_header}
use layer4_lb.Traffic.Bandwidth.{RateLimitedStream}
use layer4_lb.Traffic.Bandwidth

-- A limiter is the address of its cell.
pub record ProxyConfig : Type 0 where
  pub client_read_limiter : Option ℕ
  pub client_write_limiter : Option ℕ
  pub backend_read_limiter : Option ℕ
  pub backend_write_limiter : Option ℕ
  pub backend_tls : Option BackendTlsConfig
  pub proxy_protocol : Bool
  pub client_addr : SocketAddr
  pub local_addr : SocketAddr

-- The answers during one connection. `handshake` gets `ignore_verify`, `copy` gives the bytes that
-- went to the backend and those that went to the client, and `elapsed` is the time at the end.
pub record Network : Type 1 where
  pub Client : Type 0
  pub Server : Type 0
  pub Error : Type 0
  pub connect : String → Result Server Error
  pub write_all : List ℕ → Server → Result Server Error
  pub handshake : Bool → Server → Result Server Error
  pub copy : RateLimitedStream Client → RateLimitedStream Server → Result (ℕ × ℕ) Error
  pub elapsed : ℕ

-- The two increments at the start, and the drop of the guard at the end.
pub count_start : String → Metrics → Metrics
count_start rule m = record m {
  active_connections = update m.active_connections rule (m.active_connections rule +ℤ pos 1);
  total_connections = update m.total_connections rule (wrapping_add (m.total_connections rule) 1);
}

pub count_end : String → Metrics → Metrics
count_end rule m = record m {
  active_connections = update m.active_connections rule (m.active_connections rule -ℤ pos 1);
}

pub add_traffic : String → String → ℕ → (String → String → ℕ) → String → String → ℕ
add_traffic rule direction n t = update₂ t rule direction (wrapping_add (t rule direction) n)

-- What is recorded after the copy.
pub record_traffic : String → ℕ → ℕ → ℕ → Metrics → Metrics
unfolding add_traffic
record_traffic rule c2b b2c elapsed m = record m {
  traffic_bytes = add_traffic rule "client_out" b2c (
      add_traffic rule "backend_in" b2c
        (add_traffic rule "backend_out" c2b (add_traffic rule "client_in" c2b m.traffic_bytes)));
  connection_duration = update m.connection_duration rule (elapsed ∷ m.connection_duration rule);
}

module _ (net : Network) where
  open net use {Client, Server, Error, connect, write_all, handshake, copy, elapsed}

  -- The two throttled streams, the copy, and what is recorded of it.
  pub copy_streams :
      Client → Server → ProxyConfig → String → Metrics → Result (Unit {0}) Error × Metrics
  unfolding record_traffic
  copy_streams client server config rule m =
      let backend_stream_limited =
        Bandwidth.new server config.backend_read_limiter config.backend_write_limiter in
      let client_stream_limited =
        Bandwidth.new client config.client_read_limiter config.client_write_limiter in
      elim (copy client_stream_limited backend_stream_limited) [
        | ok (c2b, b2c) ↦ (ok tt, record_traffic rule c2b b2c elapsed m)
        | err e ↦ (err e, m)
      ]

  -- The TLS branch and the plain branch.
  pub over_tls_or_plain :
      Client → Server → ProxyConfig → String → Metrics → Result (Unit {0}) Error × Metrics
  unfolding copy_streams
  over_tls_or_plain client server config rule m = elim config.backend_tls [
    | some tls ↦
        if tls.enabled
        then elim (handshake tls.ignore_verify server) [
          | ok tls_stream ↦ copy_streams client tls_stream config rule m
          | err e ↦ (err e, m)
        ]
        else copy_streams client server config rule m
    | none ↦ copy_streams client server config rule m
  ]

  -- The body between the two counts.
  pub proxy_body :
      Client → String → ProxyConfig → String → Metrics → Result (Unit {0}) Error × Metrics
  unfolding over_tls_or_plain
  proxy_body client addr config rule m = elim (connect addr) [
    | err e ↦ (err e, m)
    | ok server ↦
        if config.proxy_protocol
        then elim (write_all (create_v2_header config.client_addr config.local_addr) server) [
          | ok announced ↦ over_tls_or_plain client announced config rule m
          | err e ↦ (err e, m)
        ]
        else over_tls_or_plain client server config rule m
  ]

  pub proxy_connection :
      Client → String → ProxyConfig → String → Metrics → Result (Unit {0}) Error × Metrics
  unfolding count_start count_end proxy_body
  proxy_connection client addr config rule m =
      let (result, m') = proxy_body client addr config rule (count_start rule m) in
      (result, count_end rule m')
