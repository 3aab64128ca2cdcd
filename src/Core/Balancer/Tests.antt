-- ===== src/Core/Balancer/Tests.antt =====
-- Runs of the balancer of src/core/balancer.rs on small lists.
use layer4_lb.Prelude.{
  ℕ, ◌≤◌, ◌<◌, ◌≡◌, ◌≢◌, ◌↔◌, refl, Bool, true, false, String, Option, none, some, List, [], ◌∷◌,
  arith, All, Any, map, length, find, if◌then◌else◌, ◌==◌, count, str_eq_iff,
}
use layer4_lb.Prelude.Word.{usize_mod, wrapping_add}
use layer4_lb.Config.{BackendConfig, simple, detailed}
use layer4_lb.Metrics
use mathlib.Core.Option
use layer4_lb.Core.Balancer.{
  Backend, LoadBalancer, World, new, update_backends, set_backend_health, selectable,
  take_connection, guard_of, next_backend,
}
use layer4_lb.Core.Balancer.Selection.{
  candidates, CanTake, next_backend-eq-find, next_backend-none_iff,
}
use layer4_lb.Core.Balancer.Effect.{OthersKept, next_backend_effect}
use layer4_lb.Core.Balancer.RoundRobin.{picks, IsAccepting, picks-round, picks-perm}
use layer4_lb.Core.Balancer.System.{System, start, kept, connect, Reach, here, later, counters}
use layer4_lb.Core.Balancer.Growth.{active, Below}
use layer4_lb.Core.Balancer.Accounting.{active-eq-open}
use layer4_lb.Core.Balancer.Limit.{active-le-limit}
use layer4_lb.Core.Balancer.Reload.{AllCarried, KeepsState, update_backends_lem}
use layer4_lb.Core.Balancer.Health.{IsOnly, unhealthy_not_returned}
use mathlib.Core.List.{Perm}

abbrev backend : String → ℕ → Bool → Bool → Backend
backend addr n healthy drain = record {
  rule_name = "web";
  addr = addr;
  active_connections = n;
  healthy = healthy;
  drain = drain;
}

abbrev cells : ℕ → Backend
cells p =
    if p == 0
    then backend "a:80" 2 true false
    else if p == 1
    then backend "b:80" 0 true true
    else backend "c:80" 1 true false

-- A full backend, one that drains, and one that has room.
abbrev mixed : World
mixed = record { cell = cells; next = 3; metrics = Metrics.init }

abbrev balancer : ℕ → Option ℕ → LoadBalancer
balancer current limit = record {
  rule_name = "web";
  backends = 0 ∷ 1 ∷ 2 ∷ [];
  current = current;
  connection_limit = limit;
}

next_backend-eq-find_example :
    (next_backend (balancer 3 (some 2)) mixed).0
    ≡ Option.map
        (λ p. ((mixed.cell p).addr, guard_of p mixed))
        (find (λ p. selectable (some 2) (mixed.cell p)) (candidates (balancer 3 (some 2))))
next_backend-eq-find_example = next_backend-eq-find (balancer 3 (some 2)) mixed (omega arith)

third_is_taken : (next_backend (balancer 3 (some 2)) mixed).0 ≡ some ("c:80", guard_of 2 mixed)
unfolding next_backend
third_is_taken = refl

next_backend-none_iff_example :
    ((next_backend (balancer 3 (some 1)) mixed).0 ≡ none)
    ↔ All (λ p. ¬ CanTake (some 1) (mixed.cell p)) (0 ∷ 1 ∷ 2 ∷ [])
next_backend-none_iff_example = next_backend-none_iff (balancer 3 (some 1)) mixed (omega arith)

none_is_taken : (next_backend (balancer 3 (some 1)) mixed).0 ≡ none
unfolding next_backend
none_is_taken = refl

abbrev taken : World
taken = take_connection 2 mixed

takes_third :
    next_backend (balancer 3 (some 2)) mixed
    ≡ (some ("c:80", guard_of 2 mixed), balancer 4 (some 2), taken)
unfolding next_backend
takes_third = refl

next_backend_effect_example :
    Any (λ (p : ℕ). p ≡ 2) (0 ∷ 1 ∷ 2 ∷ [])
    × CanTake (some 2) (mixed.cell 2)
    × ("c:80" ≡ (mixed.cell 2).addr)
    × (taken.cell 2 ≡ record (mixed.cell 2) {
      active_connections = wrapping_add (mixed.cell 2).active_connections 1;
    })
    × OthersKept 2 mixed taken
    × (balancer 4 (some 2)
        ≡ record (balancer 3 (some 2)) { current = wrapping_add (balancer 3 (some 2)).current 1 })
    × (taken.next ≡ mixed.next)
next_backend_effect_example =
    next_backend_effect (balancer 3 (some 2)) (balancer 4 (some 2)) mixed taken "c:80"
      (guard_of 2 mixed) takes_third

-- Two backends with room.
abbrev open_cells : World
open_cells = record {
  cell = λ p. if p == 0 then backend "a:80" 2 true false else backend "c:80" 1 true false;
  next = 3;
  metrics = Metrics.init;
}

All-IsAccepting : All (IsAccepting open_cells) (balancer 4 none).backends
All-IsAccepting = ((refl, refl), ((refl, refl), ((refl, refl), tt)))

picks-round_example : picks 3 (balancer 4 none) open_cells ≡ map some (candidates (balancer 4 none))
picks-round_example = picks-round (balancer 4 none) open_cells (omega arith) refl All-IsAccepting

picks-perm_example : Perm (picks 3 (balancer 4 none) open_cells) (map some (0 ∷ 1 ∷ 2 ∷ []))
picks-perm_example = picks-perm (balancer 4 none) open_cells (omega arith) refl All-IsAccepting

full : ¬ CanTake (some 2) (mixed.cell 0)
full can = omega (arith, can.2 2 refl)

draining : ¬ CanTake (some 2) (mixed.cell 1)
draining can = ground (arith, can.0)

room : CanTake (some 2) (mixed.cell 2)
room = ground arith

-- A balancer as `new` makes it, after one connection.
abbrev nothing : World
nothing = record { cell = λ _. backend "" 0 false false; next = 0; metrics = Metrics.init }

abbrev configs : List BackendConfig
configs = simple "a:80" ∷ detailed "b:80" true ∷ []

abbrev begun : System
begun = start "web" configs (some 1) nothing

abbrev one_open : System
one_open = kept [] (next_backend begun.lb begun.world)

one_open-Reach : Reach begun one_open
one_open-Reach = later here (connect begun)

few_guards : length one_open.guards < usize_mod
unfolding next_backend new
few_guards = omega arith

in_use : 0 < one_open.world.next
unfolding next_backend new
in_use = omega arith

active-eq-open_example : active one_open.world 0 ≡ count 0 (counters one_open.guards)
active-eq-open_example =
    active-eq-open "web" configs (some 1) nothing one_open 0 refl one_open-Reach few_guards in_use

one_is_open : count 0 (counters one_open.guards) ≡ 1
unfolding next_backend new
one_is_open = refl

active-le-limit_example : (count 0 (counters one_open.guards) ≤ 1) × (active one_open.world 0 ≤ 1)
active-le-limit_example =
    active-le-limit "web" configs 1 nothing one_open 0 (omega arith) refl one_open-Reach in_use

All-Below : All (Below mixed) (balancer 3 none).backends
All-Below = ground arith

update_backends_lem_example :
    AllCarried
      (0 ∷ 1 ∷ 2 ∷ [])
      mixed
      (update_backends (balancer 3 none) configs mixed).1
      configs
      (update_backends (balancer 3 none) configs mixed).0.backends
    × KeepsState mixed (update_backends (balancer 3 none) configs mixed).1
update_backends_lem_example = update_backends_lem (balancer 3 none) configs mixed All-Below

-- The report that "a:80" is unhealthy, and a selection after it.
b_apart : ◌≢◌ {A = String} "b:80" "a:80"
b_apart e = ground (arith, (str_eq_iff "b:80" "a:80").1 e)

c_apart : ◌≢◌ {A = String} "c:80" "a:80"
c_apart e = ground (arith, (str_eq_iff "c:80" "a:80").1 e)

IsOnly-first : IsOnly (balancer 3 (some 2)) mixed "a:80" 0
IsOnly-first = (refl, λ q member same. ground (arith, b_apart, c_apart))

abbrev reported : World
reported = set_backend_health (balancer 3 (some 2)) "a:80" false mixed

abbrev after : World
after = (next_backend (balancer 3 (some 2)) reported).2

selected_after :
    next_backend (balancer 3 (some 2)) reported
    ≡ (some ("c:80", guard_of 2 mixed), balancer 4 (some 2), after)
unfolding next_backend set_backend_health
selected_after = refl

unhealthy_not_returned_example : ◌≢◌ {A = String} "c:80" "a:80"
unhealthy_not_returned_example =
    unhealthy_not_returned (balancer 3 (some 2)) (balancer 4 (some 2)) mixed after "a:80" "c:80" 0
      (guard_of 2 mixed) IsOnly-first selected_after
