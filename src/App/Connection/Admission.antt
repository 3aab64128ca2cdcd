-- ===== src/App/Connection/Admission.antt =====
-- Which clients of src/main.rs get through to a backend, and what their connections leave behind.
use layer4_lb.Prelude.{
  ℕ, ◌<◌, ◌≡◌, ◌≢◌, refl, String, true, false, none, arith, Bool-cases, Result-cases, inl, inr, ◌⊎◌,
  ap, ◌∙◌,
}
use layer4_lb.Prelude.Int.{ℤ}
use layer4_lb.Prelude.Word.{usize_mod}
use layer4_lb.Metrics.{Metrics}
use layer4_lb.Networking.Addr.{ip}
use layer4_lb.Networking.Acl.{IpNetLib, is_allowed}
use layer4_lb.Networking.Proxy.{Network, ProxyConfig}
use layer4_lb.Networking.Proxy.Account.{proxy_connection_lem}
use layer4_lb.Core.Balancer.{World, next_backend, take_connection}
use layer4_lb.Core.Balancer.Effect.{next_backend-cases}
use layer4_lb.Core.Balancer.Guard.{
  gauge, take_connection-active_connections, drop-take_connection_later,
}
use layer4_lb.Traffic.Registry.{check}
use layer4_lb.App.Connection.{
  Shared, Listener, Accepted, denied, limited, no_backend, finished, proxy_config, serve_client,
  with_backend, handle_connection,
}

-- Every backend, its gauge, and the gauge of the rule's connections are as they were.
abbrev pub LeavesNoTrace : World → World → Type 0
LeavesNoTrace w w' =
    ((q : ℕ) → w'.cell q ≡ w.cell q)
    × ((rule addr : String) → gauge w' rule addr ≡ gauge w rule addr)
    × ((l : String) → w'.metrics.active_connections l ≡ w.metrics.active_connections l)

unchanged-LeavesNoTrace : (w : World) → LeavesNoTrace w w
unchanged-LeavesNoTrace w = (λ q. refl, λ rule addr. refl, λ l. refl)

module _ (lib : IpNetLib) (net : Network) (listener : Listener lib.IpNet)
    (conn : Accepted net) where
  serve_client-gauges :
      (addr : String) (config : ProxyConfig) (m : Metrics)
      → let m' = serve_client lib net listener conn addr config m in
        ((l : String) → m'.active_connections l ≡ m.active_connections l)
        × (m'.backend_active_connections ≡ m.backend_active_connections)
  unfolding serve_client
  serve_client-gauges addr config m = elim (Bool-cases listener.tls) [
    | inr plain ↦
        let kept = proxy_connection_lem net conn.stream addr config listener.rule_name m in
        rw plain (kept.0, kept.3)
    | inl secure ↦ elim (Result-cases (conn.accept_tls conn.stream)) [
      | inr (x, e) ↦ rw (secure, e) (λ l. refl, refl)
      | inl (tls_stream, e) ↦
          let kept = proxy_connection_lem net tls_stream addr config listener.rule_name m in
          rw (secure, e) (kept.0, kept.3)
    ]
  ]

  with_backend-LeavesNoTrace :
      (s : Shared)
      → ((q : ℕ) → (s.world.cell q).active_connections < usize_mod)
      → LeavesNoTrace s.world
          (with_backend lib net listener conn s (next_backend s.lb s.world)).1.world
  unfolding with_backend
  with_backend-LeavesNoTrace s small = elim (next_backend-cases s.lb s.world) [
    | inr (lb, e) ↦ rw e (unchanged-LeavesNoTrace s.world)
    | inl (p, e) ↦
        let config = (proxy_config lib net listener conn s.bandwidth_manager s.heap).0 in
        let taken = take_connection p s.world in
        let m = serve_client lib net listener conn (s.world.cell p).addr config taken.metrics in
        let kept = serve_client-gauges (s.world.cell p).addr config taken.metrics in
        let back = drop-take_connection_later p s.world m (small p) kept.1 in
        rw e (
          back.0,
          back.1,
          λ l.
              ap (λ (f : String → ℤ). f l) back.2
              ∙ kept.0 l
              ∙ take_connection-active_connections p s.world l,
        )
  ]

  -- Whatever a connection meets - a denial, a limit, no backend, or any answer of the network - at
  -- its end every backend has the connections, the health and the drain flag that it had before,
  -- and the gauges of active connections of the rule and of the backends are what they were, if no
  -- counter stood at 2^64 or more.
  pub handle_connection-LeavesNoTrace :
      (s : Shared)
      → ((q : ℕ) → (s.world.cell q).active_connections < usize_mod)
      → LeavesNoTrace s.world (handle_connection lib net listener conn s).1.world
  unfolding handle_connection
  handle_connection-LeavesNoTrace s small =
      let checked = check (ip conn.client_addr) (conn.clock 0) s.rate_limiter s.heap in
      let s' = record s { rate_limiter = checked.1; heap = checked.2 } in
      elim (Bool-cases (is_allowed lib listener.acl (ip conn.client_addr))) [
        | inr refused ↦ rw refused (unchanged-LeavesNoTrace s.world)
        | inl allowed ↦ elim (Bool-cases checked.0) [
          | inr over ↦ rw (allowed, over) (unchanged-LeavesNoTrace s.world)
          | inl granted ↦ rw (allowed, granted) (with_backend-LeavesNoTrace s' small)
        ]
      ]

  -- A connection ends in one of four ways. A client that the access control list refuses changes
  -- nothing at all, not even the rate limiter. One that is let in and has no token is dropped
  -- before a backend is asked for. One with a token ends without a backend exactly when the
  -- selection gives none, and is proxied otherwise.
  pub handle_connection-outcome :
      (s : Shared)
      → let (outcome, s') = handle_connection lib net listener conn s in
        let allowed = is_allowed lib listener.acl (ip conn.client_addr) in
        let granted = (check (ip conn.client_addr) (conn.clock 0) s.rate_limiter s.heap).0 in
        ((outcome ≡ denied) × (allowed ≡ false) × (s' ≡ s))
        ⊎ ((outcome ≡ limited) × (allowed ≡ true) × (granted ≡ false) × (s'.world ≡ s.world))
        ⊎ ((outcome ≡ no_backend)
            × (allowed ≡ true)
            × (granted ≡ true)
            × ((next_backend s.lb s.world).0 ≡ none))
        ⊎ ((outcome ≡ finished)
            × (allowed ≡ true)
            × (granted ≡ true)
            × ((next_backend s.lb s.world).0 ≢ none))
  unfolding handle_connection with_backend
  handle_connection-outcome s =
      let checked = check (ip conn.client_addr) (conn.clock 0) s.rate_limiter s.heap in
      elim (Bool-cases (is_allowed lib listener.acl (ip conn.client_addr))) [
        | inr refused ↦ inl (rw refused (refl, refl, refl))
        | inl allowed ↦ elim (Bool-cases checked.0) [
          | inr over ↦ inr (inl (rw (allowed, over) (refl, refl, refl, refl)))
          | inl granted ↦ elim (next_backend-cases s.lb s.world) [
            | inr (lb, e) ↦ inr (inr (inl (rw (allowed, granted, e) (refl, refl, refl, refl))))
            | inl (p, e) ↦
                inr (inr (inr (rw (allowed, granted, e) (refl, refl, refl, λ k. ground arith))))
          ]
        ]
      ]
