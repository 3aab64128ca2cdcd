-- ===== src/Core/Balancer.antt =====
-- src/core/balancer.rs: `LoadBalancer`, `Backend` and `ConnectionGuard`. A `Backend` is shared by
-- reference counting and mutated through atomics, so backends live in the cells of a heap, and a
-- balancer and a guard hold the addresses of cells. A call is one step here;
-- `Race` takes `next_backend` apart into its accesses.
mod Rotation
pub mod Selection
pub mod Effect
pub mod RoundRobin
mod Growth
pub mod System
pub mod Accounting
pub mod Limit
pub mod Reload
pub mod Health
pub mod Guard
pub mod Race
mod Tests
use layer4_lb.Prelude.{
  ℕ, zero, suc, ◌+◌, ◌%◌, String, Bool, true, false, Option, none, some, List, [], ◌∷◌, leb, ◌==◌,
  if◌then◌else◌, length, is_empty, get_or, find, str_eq,
}
use layer4_lb.Prelude.Int.{ℤ, pos, ◌+ℤ◌, ◌-ℤ◌}
use layer4_lb.Prelude.Word.{usize_mod, wrapping_add, wrapping_sub}
use layer4_lb.Config.{BackendConfig, simple, detailed}
use layer4_lb.Metrics.{Metrics, update₂}

pub record Backend : Type 0 where
  pub rule_name : String
  pub addr : String
  pub active_connections : ℕ
  pub healthy : Bool
  pub drain : Bool

pub record LoadBalancer : Type 0 where
  pub rule_name : String
  pub backends : List ℕ
  pub current : ℕ
  pub connection_limit : Option ℕ

-- `counter` is the cell whose `active_connections` the guard shares.
pub record ConnectionGuard : Type 0 where
  pub rule_name : String
  pub backend_addr : String
  pub counter : ℕ

-- Cells from `next` on are free.
pub record World : Type 0 where
  pub cell : ℕ → Backend
  pub next : ℕ
  pub metrics : Metrics

pub store : World → ℕ → Backend → World
store w p b = record w { cell = λ q. if q == p then b else w.cell q }

pub allocate : World → Backend → ℕ × World
unfolding store
allocate w b = (w.next, record (store w w.next b) { next = suc w.next })

-- `with_label_values(&[rule, addr]).set(…)` on the two backend gauges, in the source's order.
pub init_metrics : String → String → World → World
init_metrics rule addr w = record w {
  metrics = record w.metrics {
    backend_health_status = update₂ w.metrics.backend_health_status rule addr (pos 1);
    backend_active_connections = update₂ w.metrics.backend_active_connections rule addr (pos 0);
  };
}

abbrev pub addr_of : BackendConfig → String
addr_of (simple a) = a
addr_of (detailed a drain) = a

abbrev pub drain_of : BackendConfig → Bool
drain_of (simple a) = false
drain_of (detailed a drain) = drain

abbrev pub fresh_backend : String → BackendConfig → Backend
fresh_backend rule c = record {
  rule_name = rule;
  addr = addr_of c;
  active_connections = 0;
  healthy = true;
  drain = drain_of c;
}

pub new_backend : String → BackendConfig → World → ℕ × World
unfolding allocate init_metrics
new_backend rule c w = allocate (init_metrics rule (addr_of c) w) (fresh_backend rule c)

pub new_backends : String → List BackendConfig → World → List ℕ × World
new_backends rule [] w = ([], w)
new_backends rule (c ∷ cs) w =
    let (p, w₁) = new_backend rule c w in let (ps, w₂) = new_backends rule cs w₁ in (p ∷ ps, w₂)

pub new : String → List BackendConfig → Option ℕ → World → LoadBalancer × World
unfolding new_backends new_backend
new rule cs limit w =
    let (ps, w') = new_backends rule cs w in
    (record { rule_name = rule; backends = ps; current = 0; connection_limit = limit }, w')

abbrev pub find_backend : World → List ℕ → String → Option ℕ
find_backend w ps addr = find (λ p. str_eq (w.cell p).addr addr) ps

-- One round of `update_backends`: `ps` is the list that was loaded before the loop.
pub keep_or_create : String → List ℕ → BackendConfig → World → ℕ × World
unfolding store
keep_or_create rule ps c w = elim (find_backend w ps (addr_of c)) [
  | some p ↦ (p, store w p (record (w.cell p) { drain = drain_of c }))
  | none ↦ new_backend rule c w
]

pub reconcile : String → List ℕ → List BackendConfig → World → List ℕ × World
unfolding keep_or_create new_backend
reconcile rule ps [] w = ([], w)
reconcile rule ps (c ∷ cs) w =
    let (p, w₁) = keep_or_create rule ps c w in
    let (qs, w₂) = reconcile rule ps cs w₁ in (p ∷ qs, w₂)

pub update_backends : LoadBalancer → List BackendConfig → World → LoadBalancer × World
update_backends lb cs w =
    let (ps, w') = reconcile lb.rule_name lb.backends cs w in (record lb { backends = ps }, w')

pub set_backend_health : LoadBalancer → String → Bool → World → World
unfolding store
set_backend_health lb addr healthy w =
    let w₁ = record w {
      metrics = record w.metrics {
        backend_health_status =
            update₂ w.metrics.backend_health_status lb.rule_name addr
              (if healthy then pos 1 else pos 0);
      };
    } in
    elim (find_backend w₁ lb.backends addr) [
      | some p ↦ store w₁ p (record (w₁.cell p) { healthy = healthy })
      | none ↦ w₁
    ]

-- The three tests of the loop body that `continue`.
pub selectable : Option ℕ → Backend → Bool
selectable limit b =
    if b.drain
    then false
    else if b.healthy
    then elim limit [ some l ↦ if leb l b.active_connections then false else true | none ↦ true ]
    else false

-- `for i in 0..len`, with the rounds that are left.
pub scan : Option ℕ → World → List ℕ → ℕ → ℕ → ℕ → Option ℕ
scan limit w ps start i zero = none
scan limit w ps start i (suc rounds) =
    let p = get_or ps (wrapping_add start i % length ps) 0 in
    if selectable limit (w.cell p) then some p else scan limit w ps start (i + 1) rounds

-- The increment of the counter, and that of the gauge under the labels of the backend.
pub count_connection : ℕ → World → World
unfolding store
count_connection p w =
    let b = w.cell p in
    store w p (record b { active_connections = wrapping_add b.active_connections 1 })

pub raise_gauge : String → String → World → World
raise_gauge rule addr w =
    let g = w.metrics.backend_active_connections in
    record w {
      metrics = record w.metrics {
        backend_active_connections = update₂ g rule addr (g rule addr +ℤ pos 1);
      };
    }

pub take_connection : ℕ → World → World
unfolding count_connection raise_gauge
take_connection p w = raise_gauge (w.cell p).rule_name (w.cell p).addr (count_connection p w)

abbrev pub guard_of : ℕ → World → ConnectionGuard
guard_of p w = record {
  rule_name = (w.cell p).rule_name;
  backend_addr = (w.cell p).addr;
  counter = p;
}

-- What follows the loop's tests: the connection of the backend that passed, or none.
pub hand_out :
    LoadBalancer → World → Option ℕ → Option (String × ConnectionGuard) × LoadBalancer × World
unfolding take_connection
hand_out lb w (some p) = (some ((w.cell p).addr, guard_of p w), lb, take_connection p w)
hand_out lb w none = (none, lb, w)

pub next_backend : LoadBalancer → World → Option (String × ConnectionGuard) × LoadBalancer × World
unfolding scan selectable hand_out
next_backend lb w =
    if is_empty lb.backends
    then (none, lb, w)
    else hand_out (record lb { current = wrapping_add lb.current 1 }) w
        (scan lb.connection_limit w lb.backends lb.current 0 (length lb.backends))

-- `Drop for ConnectionGuard`.
pub drop_guard : ConnectionGuard → World → World
unfolding store
drop_guard g w =
    let b = w.cell g.counter in
    let w₁ =
      store w g.counter (record b { active_connections = wrapping_sub b.active_connections 1 }) in
    let m = w₁.metrics.backend_active_connections in
    record w₁ {
      metrics = record w₁.metrics {
        backend_active_connections =
            update₂ m g.rule_name g.backend_addr (m g.rule_name g.backend_addr -ℤ pos 1);
      };
    }
