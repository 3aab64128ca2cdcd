-- ===== src/App/Connection/Rate/Bound.antt =====
-- The bound on the connections of one client that src/main.rs lets through to a backend.
use layer4_lb.Prelude.{
  ℕ, ◌+◌, ◌-◌, ◌*◌, ◌≤◌, ◌≡◌, ◌≢◌, refl, ◌∙◌, true, false, some, List, [], ◌∷◌, All, arith, sym, ap,
  Option, map, Bool-cases, inl, inr,
}
use layer4_lb.Networking.Addr.{IpAddr, ip, ip_eq, ip_eq_iff}
use layer4_lb.Networking.Acl.{IpNetLib, is_allowed}
use layer4_lb.Networking.Proxy.{Network}
use layer4_lb.Traffic.Limiter.{SimpleLimiter, check_n, billion}
use layer4_lb.Traffic.Limiter.Level.{IsBounded}
use layer4_lb.Traffic.Limiter.Rate.{serve, serve-le-rate}
use layer4_lb.Traffic.Registry.Sharing.{
  bucket, Separate, requests_of, one_granted, Within, requests-Within,
}
use layer4_lb.App.Connection.{Shared, Listener, Accepted, handle_connection, accept_loop}
use layer4_lb.App.Connection.Rate.{admitted_from, checks_of, let_in, denied-same, checked-bucket}

module _ (lib : IpNetLib) (net : Network) (listener : Listener lib.IpNet) where
  -- A connection that the access control list refuses counts for nothing.
  refused-admitted :
      (k : IpAddr) (conn : Accepted net) (conns : List (Accepted net)) (s : Shared)
      → is_allowed lib listener.acl (ip conn.client_addr) ≡ false
      → admitted_from lib net listener k (conn ∷ conns) s ≡ admitted_from lib net listener k conns s
  unfolding admitted_from
  refused-admitted k conn conns s refused = elim (Bool-cases (ip_eq (ip conn.client_addr) k)) [
    | inl mine ↦ rw (denied-same lib net listener conn s refused, mine) refl
    | inr other ↦ rw (denied-same lib net listener conn s refused, other) refl
  ]

  accept_loop-next :
      (conn : Accepted net) (conns : List (Option (Accepted net))) (s : Shared)
      → (accept_loop lib net listener (some conn ∷ conns) s).1
        ≡ (accept_loop lib net listener conns (handle_connection lib net listener conn s).1).1
  unfolding accept_loop
  accept_loop-next conn conns s = refl

  -- What the connections leave is what those leave that the list lets in.
  accept_loop-let_in :
      (conns : List (Accepted net)) (s : Shared)
      → (accept_loop lib net listener (map some conns) s).1
        ≡ (accept_loop lib net listener (map some (let_in lib net listener conns)) s).1
  unfolding let_in
  accept_loop-let_in [] s = refl
  accept_loop-let_in (conn ∷ conns) s =
      elim (Bool-cases (is_allowed lib listener.acl (ip conn.client_addr))) [
        | inl allowed ↦
            let s' = (handle_connection lib net listener conn s).1 in
            let kept = map some (let_in lib net listener conns) in
            rw allowed (
              accept_loop-next conn (map some conns) s
              ∙ accept_loop-let_in conns s'
              ∙ sym (accept_loop-next conn kept s))
        | inr refused ↦
            let same = ap (λ x. x.1) (denied-same lib net listener conn s refused) in
            rw refused (
              accept_loop-next conn (map some conns) s
              ∙ ap (λ x. (accept_loop lib net listener (map some conns) x).1) same
              ∙ accept_loop-let_in conns s)
      ]

  admitted_from-serve :
      (k : IpAddr) (conns : List (Accepted net)) (s : Shared) (l : SimpleLimiter)
      → s.rate_limiter.config.enabled ≡ true
      → Separate s.rate_limiter s.heap
      → bucket k s.rate_limiter s.heap ≡ some l
      → admitted_from lib net listener k conns s
        ≡ (serve (requests_of k (checks_of lib net listener conns)) l).0
  unfolding admitted_from checks_of requests_of serve
  admitted_from-serve k [] s l on separate e = refl
  admitted_from-serve k (conn ∷ conns) s l on separate e =
      let addr = ip conn.client_addr in
      elim (Bool-cases (is_allowed lib listener.acl addr)) [
        | inr refused ↦
            refused-admitted k conn conns s refused
            ∙ rw refused (admitted_from-serve k conns s l on separate e)
        | inl allowed ↦
            let (outcome, s') = handle_connection lib net listener conn s in
            let step = checked-bucket lib net listener conn s on separate allowed in
            let on' : s'.rate_limiter.config.enabled ≡ true = rw step.4 on in
            elim (Bool-cases (ip_eq addr k)) [
              | inl mine ↦
                  let same : addr ≡ k = (ip_eq_iff addr k).0 mine in
                  let found : bucket addr s.rate_limiter s.heap ≡ some l = rw same e in
                  let l' = (check_n (conn.clock 0) 1 l).1 in
                  let after : bucket k s'.rate_limiter s'.heap ≡ some l' =
                    rw (← same) (rw found at step.1) in
                  let ih = admitted_from-serve k conns s' l' on' step.3 after in
                  rw (allowed, mine, ih, rw found at step.0)
                    (one_granted (check_n (conn.clock 0) 1 l).0 _)
              | inr other ↦
                  let apart : k ≢ addr = λ same. ground (arith, ip_eq_iff addr k) in
                  let after : bucket k s'.rate_limiter s'.heap ≡ some l = step.2 k apart ∙ e in
                  rw (allowed, other, admitted_from-serve k conns s' l on' step.3 after)
            ]
      ]

  checks-Within :
      (conns : List (Accepted net)) (begin end : ℕ)
      → All (λ conn. Within begin end (conn.clock 0)) conns
      → All (λ c. Within begin end c.1) (checks_of lib net listener conns)
  unfolding checks_of
  checks-Within [] begin end w = tt
  checks-Within (conn ∷ conns) begin end w =
      elim (Bool-cases (is_allowed lib listener.acl (ip conn.client_addr))) [
        | inl allowed ↦ rw allowed (w.0, checks-Within conns begin end w.1)
        | inr refused ↦ rw refused (checks-Within conns begin end w.1)
      ]

  -- Whatever clients connect to a rule with an enabled rate limiter between two times, the connections of
  -- one address that get to the selection of a backend are at most the burst of its bucket and what its
  -- rate brings in between, if the address has a bucket, which holds at most its burst and was last
  -- updated before, and no two addresses share one. The bandwidth limiters that each connection makes
  -- do not disturb the buckets. And the connections that the access control list refuses take no token, nor
  -- anything else: without them, the acceptor leaves the same state.
  pub admitted_from-le-rate :
      (k : IpAddr) (conns : List (Accepted net)) (begin end : ℕ) (s : Shared) (l : SimpleLimiter)
      → s.rate_limiter.config.enabled ≡ true
      → Separate s.rate_limiter s.heap
      → bucket k s.rate_limiter s.heap ≡ some l
      → IsBounded l
      → l.last_update ≤ begin
      → begin ≤ end
      → All (λ conn. Within begin end (conn.clock 0)) conns
      → (admitted_from lib net listener k conns s * billion
          ≤ l.burst_size * billion + (end - begin) * l.rate_per_sec)
        × ((accept_loop lib net listener (map some conns) s).1
            ≡ (accept_loop lib net listener (map some (let_in lib net listener conns)) s).1)
  admitted_from-le-rate k conns begin end s l on separate e b last le w = (
    rw (admitted_from-serve k conns s l on separate e) (
        serve-le-rate (requests_of k (checks_of lib net listener conns)) begin end l b last le (
          requests-Within k (checks_of lib net listener conns) begin end
            (checks-Within conns begin end w))),
    accept_loop-let_in conns s,
  )
