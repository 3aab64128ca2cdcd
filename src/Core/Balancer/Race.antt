-- ===== src/Core/Balancer/Race.antt =====
-- `next_backend` of src/core/balancer.rs by its accesses: each load and each increment of an atomic, and
-- the increment of the gauge, which the crate prometheus makes under its own synchronisation, as one
-- step. The call never awaits, so a worker thread of the runtime runs at most one at a time, and a
-- call is the phase of a worker. Between two accesses other workers make theirs, guards are dropped,
-- checks report and reloads come, each of these as one step. A guard is in the list from the
-- increment on that it stands for, so that it can be dropped even before its call has returned: more
-- orders than the code has.
pub mod Workers
pub mod Overshoot
pub mod Solo
pub mod Alone
mod Tests
use layer4_lb.Prelude.{
  ℕ, zero, suc, ◌+◌, ◌%◌, ◌≡◌, String, Bool, true, false, Option, none, some, List, [], ◌∷◌, ◌++◌,
  leb, if◌then◌else◌, length, is_empty, get_or,
}
use layer4_lb.Prelude.Word.{wrapping_add}
use layer4_lb.Config.{BackendConfig}
use layer4_lb.Core.Balancer.{
  LoadBalancer, ConnectionGuard, World, update_backends, set_backend_health, count_connection,
  raise_gauge, guard_of, drop_guard,
}

-- Where a worker stands: in no call; with the list it has loaded; before the load of the drain
-- flag, of the health, or of the connections in round `i`, with the rounds left; or, when a backend
-- has passed, before the increment, before that of the gauge, or before the load for the log line.
pub data Phase : Type 0 where
  idle : Phase
  loaded : List ℕ → Phase
  drain_test : List ℕ → ℕ → ℕ → ℕ → Phase
  health_test : List ℕ → ℕ → ℕ → ℕ → Phase
  limit_test : List ℕ → ℕ → ℕ → ℕ → Phase
  passed : ℕ → Phase
  counted : ℕ → Phase
  gauged : ℕ → Phase

-- The balancer and what it counts at, the guards, and the phase of each worker.
pub record Race : Type 0 where
  pub lb : LoadBalancer
  pub world : World
  pub guards : List ConnectionGuard
  pub workers : List Phase

abbrev pub indexed : List ℕ → ℕ → ℕ → ℕ
indexed ps start i = get_or ps (wrapping_add start i % length ps) 0

-- Whether the connection limit lets a backend pass.
pub below_limit : Option ℕ → ℕ → Bool
below_limit none n = true
below_limit (some l) n = if leb l n then false else true

-- The next access of a worker, with what it changes.
pub advance : Race → Phase → Phase × LoadBalancer × World × List ConnectionGuard
unfolding below_limit count_connection raise_gauge
advance s idle = (loaded s.lb.backends, s.lb, s.world, s.guards)
advance s (loaded ps) = if is_empty ps then (idle, s.lb, s.world, s.guards) else (
  drain_test ps s.lb.current 0 (length ps),
  record s.lb { current = wrapping_add s.lb.current 1 },
  s.world,
  s.guards,
)
advance s (drain_test ps start i zero) = (idle, s.lb, s.world, s.guards)
advance s (drain_test ps start i (suc rounds)) = (
  if (s.world.cell (indexed ps start i)).drain
      then drain_test ps start (i + 1) rounds
      else health_test ps start i rounds,
  s.lb,
  s.world,
  s.guards,
)
advance s (health_test ps start i rounds) = (
  if (s.world.cell (indexed ps start i)).healthy
      then limit_test ps start i rounds
      else drain_test ps start (i + 1) rounds,
  s.lb,
  s.world,
  s.guards,
)
advance s (limit_test ps start i rounds) = (
  if below_limit s.lb.connection_limit (s.world.cell (indexed ps start i)).active_connections
      then passed (indexed ps start i)
      else drain_test ps start (i + 1) rounds,
  s.lb,
  s.world,
  s.guards,
)
advance s (passed p) = (counted p, s.lb, count_connection p s.world, guard_of p s.world ∷ s.guards)
advance s (counted p) =
    (gauged p, s.lb, raise_gauge (s.world.cell p).rule_name (s.world.cell p).addr s.world, s.guards)
advance s (gauged p) = (idle, s.lb, s.world, s.guards)

abbrev pub moved :
    List Phase → List Phase → Phase × LoadBalancer × World × List ConnectionGuard → Race
moved before after (phase, lb, world, guards) = record {
  lb = lb;
  world = world;
  guards = guards;
  workers = before ++ phase ∷ after;
}

pub data Move : Race → Race → Type 0 where
  work :
      (s : Race) (before : List Phase) (phase : Phase) (after : List Phase)
      → s.workers ≡ before ++ phase ∷ after
      → Move s (moved before after (advance s phase))
  close :
      (s : Race) (before : List ConnectionGuard) (g : ConnectionGuard)
      (after : List ConnectionGuard)
      → s.guards ≡ before ++ g ∷ after
      → Move s (record s { world = drop_guard g s.world; guards = before ++ after })
  probe :
      (s : Race) (addr : String) (healthy : Bool)
      → Move s (record s { world = set_backend_health s.lb addr healthy s.world })
  reload :
      (s : Race) (cs : List BackendConfig)
      → Move s (record s {
        lb = (update_backends s.lb cs s.world).0;
        world = (update_backends s.lb cs s.world).1;
      })

pub data Runs (s : Race) : Race → Type 0 where
  here : Runs s s
  later : {t u : Race} → Runs s t → Move t u → Runs s u
