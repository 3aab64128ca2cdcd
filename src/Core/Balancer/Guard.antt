-- ===== src/Core/Balancer/Guard.antt =====
-- `ConnectionGuard` of src/core/balancer.rs: what its drop undoes, and the gauge of open
-- connections across reloads.
use layer4_lb.Prelude.{refl, ℕ, ◌<◌, ◌≡◌, ap, String, [], ◌∷◌, arith, str_eq_iff}
use layer4_lb.Prelude.Int.{ℤ, pos, negsuc, ◌-ℤ◌, +ℤ_cancel}
use layer4_lb.Prelude.Word.{usize_mod}
use layer4_lb.Config.{simple}
use layer4_lb.Metrics.{Metrics}
use layer4_lb.Core.Balancer.{
  LoadBalancer, ConnectionGuard, World, take_connection, drop_guard, guard_of, update_backends,
  reconcile,
}

abbrev pub gauge : World → String → String → ℤ
gauge w = w.metrics.backend_active_connections

-- The drop of the guard that a selection made undoes it: every backend and every value of the gauge
-- of open connections is what it was before the selection.
pub drop-take_connection :
    (p : ℕ) (w : World)
    → (w.cell p).active_connections < usize_mod
    → let w' = drop_guard (guard_of p w) (take_connection p w) in
      ((q : ℕ) → w'.cell q ≡ w.cell q)
      × ((rule addr : String) → gauge w' rule addr ≡ gauge w rule addr)
unfolding take_connection drop_guard
drop-take_connection p w small =
    let b = w.cell p in
    (
      λ q. ground (arith, λ (e : q ≡ p). ap w.cell e),
      λ rule addr. ground (
        arith,
        str_eq_iff rule b.rule_name,
        str_eq_iff addr b.addr,
        str_eq_iff b.rule_name b.rule_name,
        str_eq_iff b.addr b.addr,
        +ℤ_cancel (gauge w rule addr) (pos 1),
      ),
    )

-- When a backend leaves the list by one reload and comes back by another while a connection to it
-- is open, the end of that connection takes its gauge to -1, though nothing is connected to it.
pub gauge_after_return :
    (lb : LoadBalancer) (w : World) (g : ConnectionGuard)
    → g.rule_name ≡ lb.rule_name
    → let (lb₁, w₁) = update_backends lb [] w in
      let (lb₂, w₂) = update_backends lb₁ (simple g.backend_addr ∷ []) w₁ in
      (gauge (drop_guard g w₂) g.rule_name g.backend_addr ≡ negsuc 0)
unfolding update_backends reconcile drop_guard ◌-ℤ◌
gauge_after_return lb w g e = ground (
  arith,
  str_eq_iff g.rule_name lb.rule_name,
  str_eq_iff g.backend_addr g.backend_addr,
  str_eq_iff g.rule_name g.rule_name,
)

-- The same when other metrics have changed in between.
pub drop-take_connection_later :
    (p : ℕ) (w : World) (m : Metrics)
    → (w.cell p).active_connections < usize_mod
    → m.backend_active_connections ≡ gauge (take_connection p w)
    → let w' = drop_guard (guard_of p w) (record (take_connection p w) { metrics = m }) in
      ((q : ℕ) → w'.cell q ≡ w.cell q)
      × ((rule addr : String) → gauge w' rule addr ≡ gauge w rule addr)
      × (w'.metrics.active_connections ≡ m.active_connections)
unfolding drop_guard
drop-take_connection_later p w m small same =
    let back = drop-take_connection p w small in
    (back.0, λ rule addr. rw same (back.1 rule addr), refl)

pub take_connection-active_connections :
    (p : ℕ) (w : World) (l : String)
    → (take_connection p w).metrics.active_connections l ≡ w.metrics.active_connections l
unfolding take_connection
take_connection-active_connections p w l = refl
