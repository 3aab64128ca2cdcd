-- ===== src/Core/Balancer/Race/Tests.antt =====
-- Two workers that both pass the test of a limit of one, in src/core/balancer.rs.
use layer4_lb.Prelude.{
  ℕ, ◌+◌, ◌-◌, ◌*◌, ◌≤◌, ◌≡◌, refl, true, false, some, List, [], ◌∷◌, arith, count,
}
use layer4_lb.Metrics
use layer4_lb.Core.Balancer.{World, count_connection, next_backend}
use layer4_lb.Core.Balancer.Growth.{active}
use layer4_lb.Core.Balancer.System.{counters}
use layer4_lb.Core.Balancer.Race.{
  Phase, idle, loaded, drain_test, health_test, limit_test, passed, counted, Race, advance,
  below_limit, moved, work, Runs, here, later,
}
use layer4_lb.Core.Balancer.Race.Solo.{alone, returned}
use layer4_lb.Core.Balancer.Race.Alone.{alone-next_backend}
use layer4_lb.Core.Balancer.Race.Overshoot.{IsQuiet, overshoot-le-workers}

abbrev world : World
world = record {
  cell = λ p. record {
    rule_name = "web";
    addr = "a:80";
    active_connections = 0;
    healthy = true;
    drain = false;
  };
  next = 1;
  metrics = Metrics.init;
}

abbrev quiet : Race
quiet = record {
  lb = record { rule_name = "web"; backends = 0 ∷ []; current = 0; connection_limit = some 1 };
  world = world;
  guards = [];
  workers = idle ∷ idle ∷ [];
}

quiet-IsQuiet : IsQuiet 1 2 0 quiet
quiet-IsQuiet = record {
  used = omega arith;
  limited = refl;
  staff = refl;
  resting = (refl, (refl, tt));
  counted = refl;
  within = omega arith;
}

-- An access of the first worker, and one of the second.
abbrev first : Phase → Phase → Race → Race
first x y s = moved [] (y ∷ []) (advance s x)

abbrev second : Phase → Phase → Race → Race
second x y s = moved (x ∷ []) [] (advance s y)

first-Runs :
    (x y : Phase) (s : Race) → s.workers ≡ x ∷ y ∷ [] → Runs quiet s → Runs quiet (first x y s)
first-Runs x y s split r = later r (work s [] x (y ∷ []) split)

second-Runs :
    (x y : Phase) (s : Race) → s.workers ≡ x ∷ y ∷ [] → Runs quiet s → Runs quiet (second x y s)
second-Runs x y s split r = later r (work s (x ∷ []) y [] split)

abbrev ps : List ℕ
ps = 0 ∷ []

-- The first worker passes.
abbrev one_passed : Race
one_passed = first (limit_test ps 0 0 0) idle (
    first (health_test ps 0 0 0) idle
      (first (drain_test ps 0 0 1) idle (first (loaded ps) idle (first idle idle quiet))))

one_passed-Runs : Runs quiet one_passed
unfolding advance below_limit
one_passed-Runs = first-Runs (limit_test ps 0 0 0) idle _ refl (
    first-Runs (health_test ps 0 0 0) idle _ refl (
      first-Runs (drain_test ps 0 0 1) idle _ refl
        (first-Runs (loaded ps) idle _ refl (first-Runs idle idle quiet refl here))))

-- The second one does too, before the first has taken its connection.
abbrev both_passed : Race
both_passed = second (passed 0) (limit_test ps 1 0 0) (
    second (passed 0) (health_test ps 1 0 0) (
      second (passed 0) (drain_test ps 1 0 1)
        (second (passed 0) (loaded ps) (second (passed 0) idle one_passed))))

both_passed-Runs : Runs quiet both_passed
unfolding advance below_limit
both_passed-Runs = second-Runs (passed 0) (limit_test ps 1 0 0) _ refl (
    second-Runs (passed 0) (health_test ps 1 0 0) _ refl (
      second-Runs (passed 0) (drain_test ps 1 0 1) _ refl (
        second-Runs (passed 0) (loaded ps) _ refl
          (second-Runs (passed 0) idle one_passed refl one_passed-Runs))))

abbrev both_open : Race
both_open = second (counted 0) (passed 0) (first (passed 0) (passed 0) both_passed)

both_open-Runs : Runs quiet both_open
unfolding advance below_limit
both_open-Runs =
    second-Runs (counted 0) (passed 0) _ refl
      (first-Runs (passed 0) (passed 0) _ refl both_passed-Runs)

two_are_open : active both_open.world 0 ≡ 2
unfolding advance below_limit count_connection
two_are_open = refl

overshoot-le-workers_example :
    (count 0 (counters both_open.guards) ≤ 1 + (2 - 1))
    × (active both_open.world 0 ≡ count 0 (counters both_open.guards))
overshoot-le-workers_example =
    overshoot-le-workers 1 2 0 quiet both_open (omega arith) quiet-IsQuiet both_open-Runs

alone-next_backend_example :
    (n : ℕ) × ((n ≤ 3 * 1 + 5)
      × (alone n quiet idle ≡ (idle, returned quiet (next_backend quiet.lb quiet.world))))
alone-next_backend_example = alone-next_backend quiet
