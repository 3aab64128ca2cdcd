-- ===== src/App/Reload.antt =====
-- The start of the rules and the reload of src/main.rs. The map `lbs` holds shared balancers, so a
-- balancer is the address of a cell: the listeners of a rule keep the cell that it got at the start.
pub mod Kept
pub mod Registered
use layer4_lb.Prelude.{
  ℕ, suc, ◌≡◌, String, Option, none, some, List, [], ◌∷◌, ◌++◌, map, Result, ok, err, str_eq, ◌==◌,
  if◌then◌else◌,
}
use layer4_lb.Config.{LbRule, Config, BackendConfig, HealthCheckConfig}
use layer4_lb.Core.Balancer.{LoadBalancer, World, addr_of, new, update_backends}

-- A task of `start_health_check`.
pub record Checker : Type 0 where
  pub lb : ℕ
  pub backend_addr : String
  pub config : HealthCheckConfig

-- Cells from `next` on are free.
pub record Process : Type 0 where
  pub balancer : ℕ → LoadBalancer
  pub next : ℕ
  pub lbs : List (String × ℕ)
  pub world : World
  pub checkers : List Checker

-- `HashMap::insert` and `HashMap::get`.
pub insert_lb : String → ℕ → List (String × ℕ) → List (String × ℕ)
insert_lb name p [] = (name, p) ∷ []
insert_lb name p ((other, q) ∷ lbs) =
    let rest = insert_lb name p lbs in
    if str_eq other name then (other, p) ∷ lbs else (other, q) ∷ rest

pub get_lb : String → List (String × ℕ) → Option ℕ
get_lb name [] = none
get_lb name ((other, q) ∷ lbs) =
    let rest = get_lb name lbs in if str_eq other name then some q else rest

abbrev pub set_lb : (ℕ → LoadBalancer) → ℕ → LoadBalancer → ℕ → LoadBalancer
set_lb f p lb q = if q == p then lb else f q

-- The loop over the backends of a rule that has a health check.
pub spawn_checkers : ℕ → Option HealthCheckConfig → List BackendConfig → List Checker
spawn_checkers p none backends = []
spawn_checkers p (some config) backends =
    map (λ b. record { lb = p; backend_addr = addr_of b; config = config }) backends

-- The part of the start that makes the balancer of a rule and its health checkers.
pub start_rule : LbRule → Process → Process
unfolding insert_lb spawn_checkers
start_rule rule s =
    let (lb, w) = new rule.name rule.backends rule.backend_connection_limit s.world in
    record {
      balancer = set_lb s.balancer s.next lb;
      next = suc s.next;
      lbs = insert_lb rule.name s.next s.lbs;
      world = w;
      checkers = s.checkers ++ spawn_checkers s.next rule.health_check rule.backends;
    }

-- One round of the reload's loop over the new rules; a rule with a new name only gets a warning.
pub reload_rule : LbRule → Process → Process
unfolding get_lb spawn_checkers
reload_rule rule s = elim (get_lb rule.name s.lbs) [
  | some p ↦
      let (lb, w) = update_backends (s.balancer p) rule.backends s.world in
      record s {
        balancer = set_lb s.balancer p lb;
        world = w;
        checkers = s.checkers ++ spawn_checkers p rule.health_check rule.backends;
      }
  | none ↦ s
]

pub reload_rules : List LbRule → Process → Process
unfolding reload_rule
reload_rules [] s = s
reload_rules (rule ∷ rules) s = reload_rules rules (reload_rule rule s)

-- Reading the file can fail, and so can parsing it.
pub data ReloadError : Type 0 where
  unreadable : ReloadError
  unparsable : ReloadError

pub reload : Result Config ReloadError → Process → Process
unfolding reload_rules
reload (ok new_config) s = reload_rules new_config.rules s
reload (err e) s = s
