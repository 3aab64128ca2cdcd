-- ===== src/App/Connection/Rate.antt =====
-- How many connections of one client src/main.rs lets through to the selection of a backend.
pub mod Bound
use mathlib.Core.Option
use layer4_lb.Prelude.{
  ℕ, ◌+◌, ◌-◌, ◌*◌, ◌≤◌, ◌<◌, ◌≡◌, ◌≢◌, refl, sym, ap, ◌∙◌, Bool, true, false, ◌&&◌, Option, none,
  some, List, [], ◌∷◌, All, arith, Bool-cases, inl, inr, is_ok, if◌then◌else◌,
}
use layer4_lb.Networking.Addr.{IpAddr, ip, ip_eq, ip_eq_iff}
use layer4_lb.Networking.Acl.{IpNetLib, is_allowed}
use layer4_lb.Networking.Proxy.{Network}
use layer4_lb.Core.Balancer.{next_backend}
use layer4_lb.Core.Balancer.Effect.{next_backend-cases}
use layer4_lb.Traffic.Limiter.{SimpleLimiter, check_n, billion}
use layer4_lb.Traffic.Limiter.Level.{IsBounded}
use layer4_lb.Traffic.Limiter.Rate.{serve, granted, serve-le-rate}
use layer4_lb.Traffic.Registry.Table.{Heap}
use layer4_lb.Traffic.Registry.{
  BandwidthManager, check, fresh_limiter, get_client_upload_limiter, get_client_download_limiter,
  get_backend_upload_limiter, get_backend_download_limiter,
}
use layer4_lb.Traffic.Registry.Fresh.{
  Extends, Extends-refl, Extends-trans, view-Extends, client_upload-Extends,
  client_download-Extends, backend_upload-Extends, backend_download-Extends,
}
use layer4_lb.Traffic.Registry.Sharing.{
  bucket, Separate, check_lem, requests_of, one_granted, Within, requests-Within,
}
use layer4_lb.App.Connection.{
  Shared, Listener, Accepted, Handled, denied, limited, no_backend, finished, proxy_config,
  with_backend, handle_connection,
}

-- The connections that get to the selection of a backend.
abbrev pub is_admitted : Handled → Bool
is_admitted denied = false
is_admitted limited = false
is_admitted no_backend = true
is_admitted finished = true

module _ (lib : IpNetLib) (net : Network) (listener : Listener lib.IpNet) where
  -- The connections of an acceptor one after the other, and how many of one address are admitted.
  unfoldable pub admitted_from : IpAddr → List (Accepted net) → Shared → ℕ
  admitted_from k [] s = 0
  admitted_from k (conn ∷ conns) s =
      let (outcome, s') = handle_connection lib net listener conn s in
      let rest = admitted_from k conns s' in
      if ip_eq (ip conn.client_addr) k && is_admitted outcome then 1 + rest else rest

  -- The checks that these connections lead to: those that the access control list lets in.
  unfoldable pub checks_of : List (Accepted net) → List (IpAddr × ℕ)
  checks_of [] = []
  checks_of (conn ∷ conns) =
      let rest = checks_of conns in
      if is_allowed lib listener.acl (ip conn.client_addr)
      then (ip conn.client_addr, conn.clock 0) ∷ rest
      else rest

  -- The connections that the access control list lets in.
  unfoldable pub let_in : List (Accepted net) → List (Accepted net)
  let_in [] = []
  let_in (conn ∷ conns) =
      let rest = let_in conns in
      if is_allowed lib listener.acl (ip conn.client_addr) then conn ∷ rest else rest

  module _ (conn : Accepted net) where
    proxy_config-Extends :
        (bw : BandwidthManager) (h : Heap) → Extends h (proxy_config lib net listener conn bw h).2
    unfolding proxy_config
    proxy_config-Extends bw h =
        let addr = ip conn.client_addr in
        let (client_read, bw₁, h₁) = get_client_upload_limiter addr (conn.clock 1) bw h in
        let (client_write, bw₂, h₂) = get_client_download_limiter addr (conn.clock 2) bw₁ h₁ in
        let (backend_read, bw₃, h₃) =
          get_backend_download_limiter (conn.to_string addr) (conn.clock 3) bw₂ h₂ in
        let (backend_write, bw₄, h₄) =
          get_backend_upload_limiter (conn.to_string addr) (conn.clock 4) bw₃ h₃ in
        let first =
          Extends-trans h h₁ h₂ (client_upload-Extends addr (conn.clock 1) bw h)
            (client_download-Extends addr (conn.clock 2) bw₁ h₁) in
        let second =
          Extends-trans h₂ h₃ h₄
            (backend_download-Extends (conn.to_string addr) (conn.clock 3) bw₂ h₂)
            (backend_upload-Extends (conn.to_string addr) (conn.clock 4) bw₃ h₃) in
        Extends-trans h h₂ h₄ first second

    -- What a connection that the access control list lets in does to the rate limiter: its check.
    record IsChecked (s s' : Shared) (outcome : Handled) : Type 0 where
      pub answer :
          is_admitted outcome ≡ (check (ip conn.client_addr) (conn.clock 0) s.rate_limiter s.heap).0
      pub limiter :
          s'.rate_limiter ≡ (check (ip conn.client_addr) (conn.clock 0) s.rate_limiter s.heap).1
      pub heap :
          Extends (check (ip conn.client_addr) (conn.clock 0) s.rate_limiter s.heap).2 s'.heap

    allowed-IsChecked :
        (s : Shared)
        → is_allowed lib listener.acl (ip conn.client_addr) ≡ true
        → let (outcome, s') = handle_connection lib net listener conn s in IsChecked s s' outcome
    unfolding handle_connection with_backend
    allowed-IsChecked s allowed =
        let checked = check (ip conn.client_addr) (conn.clock 0) s.rate_limiter s.heap in
        elim (Bool-cases checked.0) [
          | inr over ↦
              rw (allowed, over)
                (record { answer = sym over; limiter = refl; heap = Extends-refl checked.2 })
          | inl granted ↦ elim (next_backend-cases s.lb s.world) [
            | inr (lb, e) ↦
                rw (allowed, granted, e)
                  (record { answer = sym granted; limiter = refl; heap = Extends-refl checked.2 })
            | inl (p, e) ↦
                rw (allowed, granted, e)
                  (record {
                    answer = sym granted;
                    limiter = refl;
                    heap = proxy_config-Extends s.bandwidth_manager checked.2;
                  })
          ]
        ]

    pub denied-same :
        (s : Shared)
        → is_allowed lib listener.acl (ip conn.client_addr) ≡ false
        → handle_connection lib net listener conn s ≡ (denied, s)
    unfolding handle_connection
    denied-same s refused = rw refused refl

    -- The buckets behind such a connection are those behind its check.
    pub checked-bucket :
        (s : Shared)
        → s.rate_limiter.config.enabled ≡ true
        → Separate s.rate_limiter s.heap
        → is_allowed lib listener.acl (ip conn.client_addr) ≡ true
        → let (outcome, s') = handle_connection lib net listener conn s in
          let (result, l') = check_n (conn.clock 0) 1 (
            Option.get_or
              (bucket (ip conn.client_addr) s.rate_limiter s.heap)
              (fresh_limiter (conn.clock 0) s.rate_limiter.config)) in
          (is_admitted outcome ≡ is_ok result)
          × (bucket (ip conn.client_addr) s'.rate_limiter s'.heap ≡ some l')
          × ((other : IpAddr)
              → other ≢ ip conn.client_addr
              → bucket other s'.rate_limiter s'.heap ≡ bucket other s.rate_limiter s.heap)
          × Separate s'.rate_limiter s'.heap
          × (s'.rate_limiter.config ≡ s.rate_limiter.config)
    checked-bucket s on separate allowed =
        let addr = ip conn.client_addr in
        let s' = (handle_connection lib net listener conn s).1 in
        let (answer, r, h) = check addr (conn.clock 0) s.rate_limiter s.heap in
        let step = check_lem addr (conn.clock 0) s.rate_limiter s.heap on separate in
        let c = allowed-IsChecked s allowed in
        let behind = view-Extends ip_eq r.limiters h s'.heap step.3 c.heap in
        rw c.limiter (
          c.answer ∙ step.0,
          behind.0 addr ∙ step.1,
          λ other apart. behind.0 other ∙ step.2 other apart,
          behind.1,
          step.4,
        )
