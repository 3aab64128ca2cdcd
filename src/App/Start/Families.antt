-- ===== src/App/Start/Families.antt =====
-- The address families of the listeners of src/main.rs: every socket is made for IPv4.
use layer4_lb.Prelude.{ℕ, zero, suc, ◌<◌, ◌≡◌, List, [], ◌∷◌, ok, Any, arith, inl, inr}
use layer4_lb.Config.{Config, LbRule, validate}
use layer4_lb.Networking.Addr.{SocketAddr}
use layer4_lb.Networking.Acl.{IpNetLib}
use layer4_lb.Networking.Tls.{TlsLib}
use layer4_lb.Cluster.{BincodeLib}
use layer4_lb.Cluster.Node.{FocaLib}
use layer4_lb.App.Reload.{Process, start_rule}
use layer4_lb.App.Host.{
  Host, ipv4, Io, Returns, Returns-bind, Returns-then, Returns-try_io, ◌>>=◌, attempt, try_io,
  try_with, invalid,
}
use layer4_lb.App.Start.{
  TlsFailure, Failure, Task, num_acceptors, open_listener, listen_on, start_acceptors,
  tls_acceptor_of, start_listeners, start_rules, start,
}

-- What the system documents of a socket for IPv4: it cannot be bound to an address of the other family.
pub record Families (host : Host) : Type 1 where
  pub IsIpv4 : host.Socket → Type 0
  pub new_socket-IsIpv4 : Returns IsIpv4 (host.new_socket ipv4)
  pub other_family :
      (socket : host.Socket) (a p : ℕ)
      → IsIpv4 socket
      → Returns (λ _. ⊥) (host.bind socket (SocketAddr.v6 a p))

module _ (host : Host) (net_lib : IpNetLib) (tls_lib : TlsLib) (families : Families host) where
  open families use {IsIpv4, new_socket-IsIpv4, other_family}

  abbrev Fails : {W E A : Type 0} → Io W E A → Type 0
  Fails m = Returns (λ _. ⊥) m

  Fails-bind : {W E A B : Type 0} (m : Io W E A) (f : A → Io W E B) → Fails m → Fails (m >>= f)
  Fails-bind m f h = Returns-bind (λ _. ⊥) (λ _. ⊥) m f h λ a never. absurd never

  abbrev L : Type 0
  L = TlsFailure host net_lib tls_lib

  abbrev E : Type 0
  E = Failure host net_lib tls_lib

  -- The steps of `open_listener` behind the making of the socket.
  bind-Fails :
      (socket : host.Socket) (a p : ℕ)
      → IsIpv4 socket
      → Fails {E = E} (
          try_io {L = L} (host.bind socket (SocketAddr.v6 a p)) >>= λ done.
          listen_on host net_lib tls_lib socket)
  bind-Fails socket a p v4 =
      Fails-bind (try_io {L = L} (host.bind socket (SocketAddr.v6 a p)))
        (λ done. listen_on host net_lib tls_lib socket)
        (Returns-try_io L (λ _. ⊥) (host.bind socket (SocketAddr.v6 a p))
          (other_family socket a p v4))

  open_listener-Fails : (a p : ℕ) → Fails (open_listener host net_lib tls_lib (SocketAddr.v6 a p))
  unfolding open_listener
  open_listener-Fails a p =
      Returns-bind IsIpv4 (λ _. ⊥) (try_io {L = L} (host.new_socket ipv4)) _
        (Returns-try_io L IsIpv4 (host.new_socket ipv4) new_socket-IsIpv4)
        λ socket v4.
          let bound = try_io {L = L} (host.bind socket (SocketAddr.v6 a p)) >>= λ done.
          listen_on host net_lib tls_lib socket in
          Returns-then (λ _. ⊥) (attempt {E = E} (host.set_reuse_port socket))
            (λ reused. try_io {L = L} (host.set_reuse_address socket) >>= λ done. bound)
            λ reused.
              Returns-then (λ _. ⊥) (try_io {L = L} (host.set_reuse_address socket)) (λ done. bound)
                λ done. bind-Fails socket a p v4

  abbrev pub ListensOnIpv6 : LbRule → Type 0
  ListensOnIpv6 rule = (a : ℕ) × ((p : ℕ) × (host.parse_addr rule.listen ≡ ok (SocketAddr.v6 a p)))

  start_acceptors-Fails :
      (n a p : ℕ) (task : host.TcpListener → Task host net_lib tls_lib)
      → 0 < n
      → Fails (start_acceptors host net_lib tls_lib n (SocketAddr.v6 a p) task)
  unfolding start_acceptors
  start_acceptors-Fails zero a p task some_acceptor = absurd (omega arith)
  start_acceptors-Fails (suc n) a p task some_acceptor =
      Fails-bind (open_listener host net_lib tls_lib (SocketAddr.v6 a p)) _
        (open_listener-Fails a p)

  start_listeners-Fails :
      (rule : LbRule) (cell : ℕ)
      → ListensOnIpv6 rule
      → 0 < num_acceptors host net_lib tls_lib
      → Fails (start_listeners host net_lib tls_lib rule cell)
  unfolding Returns start_listeners
  start_listeners-Fails rule cell (a, (p, v6)) some_acceptor =
      Returns-then (λ _. ⊥) (tls_acceptor_of host net_lib tls_lib rule.tls) _
        λ tls_acceptor w.
          rw v6 (start_acceptors-Fails (num_acceptors host net_lib tls_lib) a p _ some_acceptor w)

  start_rules-Fails :
      (rules : List LbRule) (s : Process)
      → Any ListensOnIpv6 rules
      → 0 < num_acceptors host net_lib tls_lib
      → Fails (start_rules host net_lib tls_lib rules s)
  unfolding start_rules
  start_rules-Fails [] s never some_acceptor = absurd never
  start_rules-Fails (rule ∷ rules) s (inl v6) some_acceptor =
      Fails-bind (start_listeners host net_lib tls_lib rule s.next) _
        (start_listeners-Fails rule s.next v6 some_acceptor)
  start_rules-Fails (rule ∷ rules) s (inr later) some_acceptor =
      Returns-then (λ _. ⊥) (start_listeners host net_lib tls_lib rule s.next) _
        λ tasks.
          Fails-bind (start_rules host net_lib tls_lib rules (start_rule rule s)) _
            (start_rules-Fails rules (start_rule rule s) later some_acceptor)

  -- A configuration in which a rule listens on an IPv6 address never starts, whatever else it says, if at
  -- least one acceptor is asked for and a socket for IPv4 cannot be bound to such an address.
  pub start-fails_on_ipv6 :
      (bincode : BincodeLib) (foca : FocaLib bincode.DecodeError) (config : Config) (random : ℕ)
      (s : Process)
      → Any ListensOnIpv6 config.rules
      → 0 < num_acceptors host net_lib tls_lib
      → Returns (λ _. ⊥) (start host net_lib tls_lib bincode foca (ok config) random s)
  unfolding start
  start-fails_on_ipv6 bincode foca config random s v6 some_acceptor =
      Returns-then (λ _. ⊥) (try_with invalid (validate config)) _
        λ done.
          Fails-bind (start_rules host net_lib tls_lib config.rules s) _
            (start_rules-Fails config.rules s v6 some_acceptor)
