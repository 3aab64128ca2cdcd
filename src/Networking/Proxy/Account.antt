-- ===== src/Networking/Proxy/Account.antt =====
-- What `proxy_connection` of src/networking/proxy.rs leaves in the metrics.
use layer4_lb.Prelude.{
  ℕ, ◌≡◌, ◌≢◌, inl, inr, refl, ap, String, true, ◌∷◌, Result, ok, err, arith, str_eq, str_eq_iff,
  Bool-cases, Option-cases, Result-cases, Option, none, some, if◌then◌else◌, ◌>>=◌,
}
use layer4_lb.Config.{BackendTlsConfig}
use layer4_lb.Prelude.Int.{pos, +ℤ_cancel}
use layer4_lb.Prelude.Word.{wrapping_add}
use layer4_lb.Metrics.{Metrics}
use layer4_lb.Networking.ProxyProtocol.{create_v2_header}
use layer4_lb.Traffic.Bandwidth
use layer4_lb.Networking.Proxy.{
  ProxyConfig, Network, count_start, count_end, add_traffic, record_traffic, copy_streams,
  over_tls_or_plain, proxy_body, proxy_connection,
}

-- What a part of a connection records: after success, the bytes of both directions for its rule;
-- after an error, nothing.
pub record Recorded (rule : String) (m m' : Metrics) (c2b b2c elapsed : ℕ) : Type 0 where
  pub client_in :
      m'.traffic_bytes rule "client_in" ≡ wrapping_add (m.traffic_bytes rule "client_in") c2b
  pub backend_out :
      m'.traffic_bytes rule "backend_out" ≡ wrapping_add (m.traffic_bytes rule "backend_out") c2b
  pub backend_in :
      m'.traffic_bytes rule "backend_in" ≡ wrapping_add (m.traffic_bytes rule "backend_in") b2c
  pub client_out :
      m'.traffic_bytes rule "client_out" ≡ wrapping_add (m.traffic_bytes rule "client_out") b2c
  pub duration : m'.connection_duration rule ≡ elapsed ∷ m.connection_duration rule
  pub other_rules : (l d : String) → l ≢ rule → m'.traffic_bytes l d ≡ m.traffic_bytes l d

record_traffic-Recorded :
    (rule : String) (c2b b2c elapsed : ℕ) (m : Metrics)
    → Recorded rule m (record_traffic rule c2b b2c elapsed m) c2b b2c elapsed
unfolding record_traffic add_traffic
record_traffic-Recorded rule c2b b2c elapsed m =
    let same : str_eq rule rule ≡ true = (str_eq_iff rule rule).1 refl in
    record {
      client_in = rw same refl;
      backend_out = rw same refl;
      backend_in = rw same refl;
      client_out = rw same refl;
      duration = rw same refl;
      other_rules = λ l d apart. ground (arith, str_eq_iff l rule);
    }

-- The end of a part that does not touch the two counts, by what was copied.
abbrev pub EndedAs :
    {E : Type 0} → String → ℕ → Metrics → Result (ℕ × ℕ) E → Result (Unit {0}) E × Metrics → Type 0
EndedAs rule elapsed m (ok (c2b, b2c)) (r, m') =
    (r ≡ ok tt)
    × Recorded rule m m' c2b b2c elapsed
    × (m'.active_connections ≡ m.active_connections)
    × (m'.total_connections ≡ m.total_connections)
    × (m'.backend_active_connections ≡ m.backend_active_connections)
EndedAs rule elapsed m (err e) (r, m') = (r ≡ err e) × (m' ≡ m)

count_end-start :
    (rule : String) (m m₁ : Metrics)
    → m₁.active_connections ≡ (count_start rule m).active_connections
    → m₁.total_connections ≡ (count_start rule m).total_connections
    → ((l : String) → (count_end rule m₁).active_connections l ≡ m.active_connections l)
      × ((count_end rule m₁).total_connections rule ≡ wrapping_add (m.total_connections rule) 1)
unfolding count_start count_end
count_end-start rule m m₁ e f =
    let own = (str_eq_iff rule rule).1 refl in
    (
      λ l.
          rw e
            (ground (arith, str_eq_iff l rule, own, +ℤ_cancel (m.active_connections rule) (pos 1))),
      rw (f, own) refl,
    )

module _ (net : Network) where
  open net use {Client, Server, Error, connect, write_all, handshake, copy, elapsed}

  -- What the network answers, step by step: the connection, the header if it is asked for, the
  -- handshake if it is, and the copy between the streams with the limiters of their own side.
  abbrev pub announced : ProxyConfig → Server → Result Server Error
  announced config server =
      if config.proxy_protocol
      then write_all (create_v2_header config.client_addr config.local_addr) server
      else ok server

  abbrev pub secured : Option BackendTlsConfig → Server → Result Server Error
  secured none server = ok server
  secured (some tls) server = if tls.enabled then handshake tls.ignore_verify server else ok server

  abbrev pub copied_to : Client → ProxyConfig → Server → Result (ℕ × ℕ) Error
  copied_to client config server =
      copy (Bandwidth.new client config.client_read_limiter config.client_write_limiter)
        (Bandwidth.new server config.backend_read_limiter config.backend_write_limiter)

  abbrev pub copied : Client → String → ProxyConfig → Result (ℕ × ℕ) Error
  copied client addr config =
      ((connect addr >>= announced config) >>= secured config.backend_tls)
      >>= copied_to client config

  copy_streams-EndedAs :
      (client : Client) (server : Server) (config : ProxyConfig) (rule : String) (m : Metrics)
      → EndedAs rule elapsed m
          (copied_to client config server)
          (copy_streams net client server config rule m)
  unfolding copy_streams
  copy_streams-EndedAs client server config rule m =
      elim (Result-cases (copied_to client config server)) [
        | inl ((c2b, b2c), e) ↦
            rw (e, copy_streams)
              (
                refl,
                record_traffic-Recorded rule c2b b2c elapsed m,
                unfold record_traffic in refl,
                unfold record_traffic in refl,
                unfold record_traffic in refl,
              )
        | inr (x, e) ↦ rw (e, copy_streams) (refl, refl)
      ]

  over_tls_or_plain-EndedAs :
      (client : Client) (server : Server) (config : ProxyConfig) (rule : String) (m : Metrics)
      → EndedAs rule elapsed m
          (secured config.backend_tls server >>= copied_to client config)
          (over_tls_or_plain net client server config rule m)
  unfolding over_tls_or_plain
  over_tls_or_plain-EndedAs client server config rule m = elim (Option-cases config.backend_tls) [
    | inl e ↦ rw (e, over_tls_or_plain) (copy_streams-EndedAs client server config rule m)
    | inr (tls, e) ↦ elim (Bool-cases tls.enabled) [
      | inl on ↦ elim (Result-cases (handshake tls.ignore_verify server)) [
        | inl (s, f) ↦
            rw (e, on, f, over_tls_or_plain) (copy_streams-EndedAs client s config rule m)
        | inr (x, f) ↦ rw (e, on, f, over_tls_or_plain) (refl, refl)
      ]
      | inr off ↦ rw (e, off, over_tls_or_plain) (copy_streams-EndedAs client server config rule m)
    ]
  ]

  proxy_body-EndedAs :
      (client : Client) (addr : String) (config : ProxyConfig) (rule : String) (m : Metrics)
      → EndedAs rule elapsed m
          (copied client addr config)
          (proxy_body net client addr config rule m)
  unfolding proxy_body
  proxy_body-EndedAs client addr config rule m = elim (Result-cases (connect addr)) [
    | inr (x, e) ↦ rw (e, proxy_body) (refl, refl)
    | inl (server, e) ↦ elim (Bool-cases config.proxy_protocol) [
      | inr off ↦ rw (e, off, proxy_body) (over_tls_or_plain-EndedAs client server config rule m)
      | inl on ↦
          elim (Result-cases
            (write_all (create_v2_header config.client_addr config.local_addr) server)) [
              | inl (s, f) ↦
                  rw (e, on, f, proxy_body) (over_tls_or_plain-EndedAs client s config rule m)
              | inr (x, f) ↦ rw (e, on, f, proxy_body) (refl, refl)
            ]
    ]
  ]

  -- The result, the traffic and the durations of a connection, by what was copied: the bytes, each in
  -- two counters, and one duration; or the error and nothing else.
  abbrev pub Settled :
      String → Metrics → Result (ℕ × ℕ) Error → Result (Unit {0}) Error → Metrics → Type 0
  Settled rule m (ok (c2b, b2c)) r m' = (r ≡ ok tt) × Recorded rule m m' c2b b2c elapsed
  Settled rule m (err e) r m' =
      (r ≡ err e)
      × (m'.traffic_bytes ≡ m.traffic_bytes)
      × (m'.connection_duration ≡ m.connection_duration)

  ended :
      (rule : String) (m : Metrics) (c : Result (ℕ × ℕ) Error) (r : Result (Unit {0}) Error)
      (m₁ : Metrics)
      → EndedAs rule elapsed (count_start rule m) c (r, m₁)
      → let m' = count_end rule m₁ in
        ((l : String) → m'.active_connections l ≡ m.active_connections l)
        × (m'.total_connections rule ≡ wrapping_add (m.total_connections rule) 1)
        × Settled rule m c r m'
        × (m'.backend_active_connections ≡ m.backend_active_connections)
  unfolding count_start count_end
  ended rule m (ok (c2b, b2c)) r m₁ (fine, t, active, total, backends) =
      let counts = count_end-start rule m m₁ active total in
      (
        counts.0,
        counts.1,
        (
          fine,
          record {
            client_in = t.client_in;
            backend_out = t.backend_out;
            backend_in = t.backend_in;
            client_out = t.client_out;
            duration = t.duration;
            other_rules = t.other_rules;
          },
        ),
        backends,
      )
  ended rule m (err e) r m₁ (failure, same) =
      let counts =
        count_end-start rule m m₁ (ap (λ x. x.active_connections) same)
          (ap (λ x. x.total_connections) same) in
      (
        counts.0,
        counts.1,
        (failure, ap (λ x. x.traffic_bytes) same, ap (λ x. x.connection_duration) same),
        ap (λ x. x.backend_active_connections) same,
      )

  -- Whatever the network answers, at the end of a connection every gauge of active connections, also
  -- of the backends, is what it was, and the rule has one more connection in total. If the connection
  -- to the backend, the header, the handshake and the copy succeed, so far as they are asked for, the
  -- result is a success, what the copy counted from the client to the backend is added to the rule's
  -- client_in and backend_out, what it counted back to backend_in and client_out, one duration is
  -- recorded, and no other rule's traffic changes. Otherwise the first error is the result, and traffic
  -- and durations are unchanged.
  pub proxy_connection_lem :
      (client : Client) (addr : String) (config : ProxyConfig) (rule : String) (m : Metrics)
      → let (r, m') = proxy_connection net client addr config rule m in
        ((l : String) → m'.active_connections l ≡ m.active_connections l)
        × (m'.total_connections rule ≡ wrapping_add (m.total_connections rule) 1)
        × Settled rule m (copied client addr config) r m'
        × (m'.backend_active_connections ≡ m.backend_active_connections)
  unfolding proxy_connection
  proxy_connection_lem client addr config rule m =
      let (r, m₁) = proxy_body net client addr config rule (count_start rule m) in
      ended rule m (copied client addr config) r m₁
        (proxy_body-EndedAs client addr config rule (count_start rule m))
