-- ===== src/App/Start/Reachable.antt =====
-- The balancers of the acceptors of src/main.rs, and those that its reload finds.
use layer4_lb.Prelude.{
  ℕ, zero, suc, ◌≡◌, ◌≢◌, refl, sym, ap, ◌∙◌, String, Option, none, some, List, [], ◌∷◌, All,
  All-append, All-map_of,
}
use layer4_lb.Config.{LbRule}
use layer4_lb.Networking.Addr.{SocketAddr}
use layer4_lb.Networking.Acl.{IpNetLib}
use layer4_lb.Networking.Tls.{TlsLib}
use layer4_lb.App.Reload.{Process, start_rule, get_lb}
use layer4_lb.App.Reload.Registered.{start_rule-own, start_rule-others}
use layer4_lb.App.Host.{
  Host, Returns, Returns-weaken, Returns-bind, Returns-then, try_with, invalid_address,
}
use layer4_lb.App.Start.{
  Task, Failure, num_acceptors, open_listener, append_some, start_acceptors, task_of,
  tls_acceptor_of, start_listeners, start_rules,
}

-- Rules of different names.
abbrev pub Distinct : List LbRule → Type 0
Distinct [] = Unit {0}
Distinct (rule ∷ rules) = All (λ r. r.name ≢ rule.name) rules × Distinct rules

module _ (host : Host) (net_lib : IpNetLib) (tls_lib : TlsLib) where
  abbrev Acc : Type 0
  Acc = Task host net_lib tls_lib

  append_some-All :
      (P : Acc → Type 0) (task : host.TcpListener → Acc) (socket : Option host.TcpListener)
      (tasks : List Acc)
      → ((l : host.TcpListener) → P (task l))
      → All P tasks
      → All P (append_some host net_lib tls_lib task socket tasks)
  append_some-All P task none tasks each h = h
  append_some-All P task (some socket) tasks each h = (each socket, h)

  start_acceptors-All :
      (P : Acc → Type 0) (n : ℕ) (addr : SocketAddr) (task : host.TcpListener → Acc)
      → ((l : host.TcpListener) → P (task l))
      → Returns (All P) (start_acceptors host net_lib tls_lib n addr task)
  unfolding Returns start_acceptors
  start_acceptors-All P zero addr task each = λ w. tt
  start_acceptors-All P (suc n) addr task each =
      Returns-then (All P) (open_listener host net_lib tls_lib addr) _ λ socket.
        Returns-bind (All P) (All P) (start_acceptors host net_lib tls_lib n addr task) _
          (start_acceptors-All P n addr task each)
          λ tasks h w. append_some-All P task socket tasks each h

  -- The acceptors of a rule have its name and its balancer.
  start_listeners-All :
      (rule : LbRule) (p : ℕ)
      → Returns
          (All (λ t. (t.lb ≡ p) × (t.listener.rule_name ≡ rule.name)))
          (start_listeners host net_lib tls_lib rule p)
  unfolding start_listeners
  start_listeners-All rule p =
      Returns-then _ (tls_acceptor_of host net_lib tls_lib rule.tls) _ λ tls_acceptor.
        Returns-then _
          (try_with {E = Failure host net_lib tls_lib} invalid_address
            (host.parse_addr rule.listen))
          _
          λ addr.
            start_acceptors-All _ (num_acceptors host net_lib tls_lib) addr
              (task_of host net_lib tls_lib rule p tls_acceptor) λ l. (refl, refl)

  -- An acceptor whose balancer is found under its name.
  abbrev pub IsFound : Process → Acc → Type 0
  IsFound s t = get_lb t.listener.rule_name s.lbs ≡ some t.lb

  -- What a start keeps for the rules before it.
  abbrev KeepsOthers : List LbRule → Process → Process → Type 0
  KeepsOthers rules s s' =
      (name : String) → All (λ r. r.name ≢ name) rules → get_lb name s'.lbs ≡ get_lb name s.lbs

  found :
      (rules : List LbRule) (s : Process)
      → Distinct rules
      → Returns
          (λ (tasks, s'). All (IsFound s') tasks × KeepsOthers rules s s')
          (start_rules host net_lib tls_lib rules s)
  unfolding Returns start_rules
  found [] s distinct = λ w. (tt, λ name apart. refl)
  found (rule ∷ rules) s (apart, distinct) =
      let t = start_rule rule s in
      Returns-bind (All (λ a. (a.lb ≡ s.next) × (a.listener.rule_name ≡ rule.name))) _
        (start_listeners host net_lib tls_lib rule s.next) _ (start_listeners-All rule s.next)
        λ tasks own.
          Returns-bind (λ (more, s'). All (IsFound s') more × KeepsOthers rules t s') _
            (start_rules host net_lib tls_lib rules t) _ (found rules t distinct)
            λ r h w.
              let (more, s') = r in
              let mine : get_lb rule.name s'.lbs ≡ some s.next =
                h.1 rule.name apart ∙ start_rule-own rule s in
              (
                All-append (IsFound s') tasks more
                    (All-map_of _ (IsFound s')
                      (λ a e. ap (λ n. get_lb n s'.lbs) e.1 ∙ mine ∙ sym (ap some e.0)) tasks own)
                    h.0,
                λ name (first, others). h.1 name others ∙ start_rule-others name rule s first,
              )

  -- If the rules have different names, a start that succeeds leaves every acceptor with the balancer that a
  -- reload finds under the name of its rule.
  pub start_rules-IsFound :
      (rules : List LbRule) (s : Process)
      → Distinct rules
      → Returns (λ (tasks, s'). All (IsFound s') tasks) (start_rules host net_lib tls_lib rules s)
  start_rules-IsFound rules s distinct =
      Returns-weaken (λ (tasks, s'). All (IsFound s') tasks × KeepsOthers rules s s') _
        (start_rules host net_lib tls_lib rules s) (λ r h. h.0) (found rules s distinct)
