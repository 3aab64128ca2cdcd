-- ===== src/App/Start/Listeners.antt =====
-- Which listeners a start of src/main.rs leaves, and which balancers they use.
use layer4_lb.Prelude.{
  ℕ, zero, suc, ◌+◌, ◌*◌, ◌≤◌, Option, none, some, List, [], ◌∷◌, length, length-append, arith,
}
use layer4_lb.Config.{LbRule}
use layer4_lb.Networking.Addr.{SocketAddr}
use layer4_lb.Networking.Acl.{IpNetLib}
use layer4_lb.Networking.Tls.{TlsLib}
use layer4_lb.App.Reload.{Process, start_rule}
use layer4_lb.App.Host.{Host, Returns, Returns-bind, Returns-then, try_with, invalid_address}
use layer4_lb.App.Start.{
  Task, num_acceptors, open_listener, append_some, start_acceptors, task_of, tls_acceptor_of,
  start_listeners, start_rules,
}

module _ (host : Host) (net_lib : IpNetLib) (tls_lib : TlsLib) where
  open host use {System, TcpListener, from_std}

  append_some-length :
      (task : TcpListener → Task host net_lib tls_lib) (socket : Option TcpListener)
      (tasks : List (Task host net_lib tls_lib))
      → length (append_some host net_lib tls_lib task socket tasks) ≤ 1 + length tasks
  append_some-length task none tasks = omega arith
  append_some-length task (some socket) tasks = omega arith

  start_acceptors-length :
      (n : ℕ) (addr : SocketAddr) (task : TcpListener → Task host net_lib tls_lib)
      → Returns (λ tasks. length tasks ≤ n) (start_acceptors host net_lib tls_lib n addr task)
  unfolding Returns start_acceptors
  start_acceptors-length zero addr task = λ w. omega arith
  start_acceptors-length (suc n) addr task =
      Returns-then _ (open_listener host net_lib tls_lib addr) _ λ socket.
        Returns-bind (λ tasks. length tasks ≤ n) _
          (start_acceptors host net_lib tls_lib n addr task) _ (start_acceptors-length n addr task)
          λ tasks few w. omega (arith, few, append_some-length task socket tasks)

  start_listeners-length :
      (rule : LbRule) (p : ℕ)
      → Returns
          (λ tasks. length tasks ≤ num_acceptors host net_lib tls_lib)
          (start_listeners host net_lib tls_lib rule p)
  unfolding Returns start_listeners
  start_listeners-length rule p =
      Returns-then _ (tls_acceptor_of host net_lib tls_lib rule.tls) _ λ tls_acceptor.
        Returns-then _ (try_with invalid_address (host.parse_addr rule.listen)) _ λ addr.
          start_acceptors-length (num_acceptors host net_lib tls_lib) addr
            (task_of host net_lib tls_lib rule p tls_acceptor)

  -- A start that succeeds leaves at most `num_acceptors` acceptors for each rule, so none at all when
  -- that number is 0.
  pub start_rules-length :
      (rules : List LbRule) (s : Process)
      → Returns
          (λ r. length r.0 ≤ num_acceptors host net_lib tls_lib * length rules)
          (start_rules host net_lib tls_lib rules s)
  unfolding Returns start_rules
  start_rules-length [] s = λ w. omega arith
  start_rules-length (rule ∷ rules) s =
      Returns-bind (λ tasks. length tasks ≤ num_acceptors host net_lib tls_lib) _
        (start_listeners host net_lib tls_lib rule s.next) _ (start_listeners-length rule s.next)
        λ tasks few.
          Returns-bind (λ r. length r.0 ≤ num_acceptors host net_lib tls_lib * length rules) _
            (start_rules host net_lib tls_lib rules (start_rule rule s)) _
            (start_rules-length rules (start_rule rule s))
            λ r fewer w. omega (arith, few, fewer, length-append tasks r.0)
