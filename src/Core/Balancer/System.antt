-- ===== src/Core/Balancer/System.antt =====
-- A balancer of src/core/balancer.rs with the guards of its open connections, and the steps that
-- its callers make it take: a connection task selects a backend, a guard is dropped when its task
-- ends in any way, a health check reports, and a reload replaces the list.
use layer4_lb.Prelude.{ℕ, ◌≡◌, Bool, String, Option, none, some, List, [], ◌∷◌, ◌++◌, map}
use layer4_lb.Config.{BackendConfig}
use layer4_lb.Core.Balancer.{
  LoadBalancer, ConnectionGuard, World, new, next_backend, drop_guard, set_backend_health,
  update_backends,
}

pub record System : Type 0 where
  pub lb : LoadBalancer
  pub world : World
  pub guards : List ConnectionGuard

-- The caller keeps the guard that it gets.
abbrev pub kept :
    List ConnectionGuard → Option (String × ConnectionGuard) × LoadBalancer × World → System
kept gs (some (addr, g), lb, w) = record { lb = lb; world = w; guards = g ∷ gs }
kept gs (none, lb, w) = record { lb = lb; world = w; guards = gs }

pub data Step : System → System → Type 0 where
  connect : (s : System) → Step s (kept s.guards (next_backend s.lb s.world))
  close :
      (s : System) (before : List ConnectionGuard) (g : ConnectionGuard)
      (after : List ConnectionGuard)
      → s.guards ≡ before ++ g ∷ after
      → Step s (record s { world = drop_guard g s.world; guards = before ++ after })
  probe :
      (s : System) (addr : String) (healthy : Bool)
      → Step s (record s { world = set_backend_health s.lb addr healthy s.world })
  reload :
      (s : System) (cs : List BackendConfig)
      → Step s (record s {
        lb = (update_backends s.lb cs s.world).0;
        world = (update_backends s.lb cs s.world).1;
      })

-- The balancer as `new` makes it, and no connection.
abbrev pub start : String → List BackendConfig → Option ℕ → World → System
start rule cs limit w = record {
  lb = (new rule cs limit w).0;
  world = (new rule cs limit w).1;
  guards = [];
}

pub data Reach (s : System) : System → Type 0 where
  here : Reach s s
  later : {t u : System} → Reach s t → Step t u → Reach s u

-- The cells that the open connections count at.
abbrev pub counters : List ConnectionGuard → List ℕ
counters = map (λ g. g.counter)
