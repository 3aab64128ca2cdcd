-- ===== src/App/Connection/Loop.antt =====
-- What the connections of an acceptor of src/main.rs leave behind.
use layer4_lb.Prelude.{ℕ, ◌<◌, refl, ap, ◌∙◌, Option, none, some, List, [], ◌∷◌, arith}
use layer4_lb.Prelude.Word.{usize_mod}
use layer4_lb.Networking.Acl.{IpNetLib}
use layer4_lb.Networking.Proxy.{Network}
use layer4_lb.Core.Balancer.{World, Backend}
use layer4_lb.App.Connection.{Shared, Listener, Accepted, handle_connection, accept_loop}
use layer4_lb.App.Connection.Admission.{LeavesNoTrace, handle_connection-LeavesNoTrace}

LeavesNoTrace-trans : (u v w : World) → LeavesNoTrace u v → LeavesNoTrace v w → LeavesNoTrace u w
LeavesNoTrace-trans u v w h k =
    (λ q. k.0 q ∙ h.0 q, λ rule addr. k.1 rule addr ∙ h.1 rule addr, λ l. k.2 l ∙ h.2 l)

module _ (lib : IpNetLib) (net : Network) (listener : Listener lib.IpNet) where
  -- Whatever connections an acceptor gets one after the other - denied, limited, without a backend, or
  -- proxied with any answer of the network - and whichever accepts fail, at the end every backend has the
  -- connections, the health and the drain flag that it had before, and the gauges of active
  -- connections are what they were, if no counter stood at 2^64 or more.
  pub accept_loop-LeavesNoTrace :
      (accepts : List (Option (Accepted net))) (s : Shared)
      → ((q : ℕ) → (s.world.cell q).active_connections < usize_mod)
      → LeavesNoTrace s.world (accept_loop lib net listener accepts s).1.world
  unfolding accept_loop
  accept_loop-LeavesNoTrace [] s small = (λ q. refl, λ rule addr. refl, λ l. refl)
  accept_loop-LeavesNoTrace (none ∷ accepts) s small = accept_loop-LeavesNoTrace accepts s small
  accept_loop-LeavesNoTrace (some conn ∷ accepts) s small =
      let s' = (handle_connection lib net listener conn s).1 in
      let once = handle_connection-LeavesNoTrace lib net listener conn s small in
      LeavesNoTrace-trans s.world s'.world (accept_loop lib net listener accepts s').1.world once (
        accept_loop-LeavesNoTrace accepts s'
          (λ q. omega (arith, small q, ap (λ (b : Backend). b.active_connections) (once.0 q))))
