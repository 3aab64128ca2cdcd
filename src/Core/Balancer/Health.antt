-- ===== src/Core/Balancer/Health.antt =====
-- What a health report does to the selection, in src/core/balancer.rs.
use layer4_lb.Prelude.{
  ℕ, ◌≡◌, ◌≢◌, Bool, false, String, some, arith, Any, ◌==◌, if◌then◌else◌, inl, inr, Bool-cases,
}
use layer4_lb.Core.Balancer.{
  LoadBalancer, ConnectionGuard, World, find_backend, set_backend_health, next_backend,
}
use layer4_lb.Core.Balancer.Effect.{next_backend_effect}

-- The list names at most one backend with the address, and `p` is it.
abbrev pub IsOnly : LoadBalancer → World → String → ℕ → Type 0
IsOnly lb w addr p =
    (find_backend w lb.backends addr ≡ some p)
    × ((q : ℕ) → Any (λ x. x ≡ q) lb.backends → (w.cell q).addr ≡ addr → q ≡ p)

pub set_backend_health-cell :
    (lb : LoadBalancer) (addr : String) (healthy : Bool) (w : World) (p : ℕ)
    → find_backend w lb.backends addr ≡ some p
    → (q : ℕ)
    → (set_backend_health lb addr healthy w).cell q
      ≡ (if q == p then record (w.cell p) { healthy = healthy } else w.cell q)
unfolding set_backend_health
set_backend_health-cell lb addr healthy w p e q = ground arith

-- After the report that the one backend with an address is unhealthy, no call returns that address.
pub unhealthy_not_returned :
    (lb lb' : LoadBalancer) (w w' : World) (addr other : String) (p : ℕ) (g : ConnectionGuard)
    → IsOnly lb w addr p
    → next_backend lb (set_backend_health lb addr false w) ≡ (some (other, g), lb', w')
    → other ≢ addr
unhealthy_not_returned lb lb' w w' addr other p g only e same =
    let reported = set_backend_health lb addr false w in
    let eff = next_backend_effect lb lb' reported w' other g e in
    let cells = set_backend_health-cell lb addr false w p only.0 in
    elim (Bool-cases (g.counter == p)) [
      | inl hit ↦ ground (arith, cells g.counter, eff.1.1)
      | inr miss ↦
          let kept : reported.cell g.counter ≡ w.cell g.counter = ground (arith, cells g.counter) in
          let own : (w.cell g.counter).addr ≡ addr = cc (kept, eff.2, same) in
          ground (arith, only.1 g.counter eff.0 own)
    ]

-- A report for an address reaches only the first backend of the list that has it: every other
-- backend, also one with the same address, stays as it was, whatever the report says.
pub report_reaches_first_only :
    (lb : LoadBalancer) (w : World) (addr : String) (healthy : Bool) (p q : ℕ)
    → find_backend w lb.backends addr ≡ some p
    → q ≢ p
    → ((set_backend_health lb addr healthy w).cell p ≡ record (w.cell p) { healthy = healthy })
      × ((set_backend_health lb addr healthy w).cell q ≡ w.cell q)
report_reaches_first_only lb w addr healthy p q e other = (
  ground (arith, set_backend_health-cell lb addr healthy w p e p),
  ground (arith, set_backend_health-cell lb addr healthy w p e q),
)
