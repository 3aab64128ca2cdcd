-- ===== src/Core/Health/Tests.antt =====
-- Two rounds of probes of src/core/health.rs: a backend that answers and one that is gone.
use layer4_lb.Prelude.{
  ℕ, ◌≡◌, ◌≢◌, ◌⊎◌, refl, String, true, false, none, some, [], ◌∷◌, ok, err, ◌==◌, if◌then◌else◌,
}
use mathlib.Core.Option
use layer4_lb.Metrics
use layer4_lb.Config.{HealthCheckConfig}
use layer4_lb.Core.Balancer.{Backend, LoadBalancer, World}
use layer4_lb.Core.Health.{Answers, check, contains, probe_rounds}
use layer4_lb.Core.Health.Verdict.{Served, last_verdict, healthy_means_answered, probe_rounds_lem}

abbrev up : Answers
up = record {
  Stream = String;
  Error = String;
  connect = λ addr. ok addr;
  write_all = λ request stream. ok stream;
  read = λ stream. ok (72 ∷ 84 ∷ 84 ∷ 80 ∷ []);
  from_utf8_lossy = λ bytes. "HTTP/1.1 200 OK\r\n";
  in_time = λ timeout. true;
}

abbrev down : Answers
down = record {
  Stream = String;
  Error = String;
  connect = λ addr. err "refused";
  write_all = λ request stream. ok stream;
  read = λ stream. ok [];
  from_utf8_lossy = λ bytes. "";
  in_time = λ timeout. true;
}

abbrev config : HealthCheckConfig
config = record {
  enabled = true;
  interval_ms = 1000;
  timeout_ms = 500;
  protocol = "http";
  path = some "/live";
}

answers : check up "a:80" config ≡ true
unfolding check contains
answers = refl

healthy_means_answered_example :
    (up.in_time 500 ≡ true)
    × (((config.protocol ≡ "http") × Served up "a:80" (Option.get_or config.path "/"))
        ⊎ ((config.protocol ≢ "http") × ((stream : String) × (up.connect "a:80" ≡ ok stream))))
healthy_means_answered_example = healthy_means_answered up "a:80" config answers

abbrev balancer : LoadBalancer
balancer = record { rule_name = "web"; backends = 0 ∷ 1 ∷ []; current = 0; connection_limit = none }

abbrev backend : String → Backend
backend addr = record {
  rule_name = "web";
  addr = addr;
  active_connections = 0;
  healthy = true;
  drain = false;
}

abbrev world : World
world = record {
  cell = λ p. if p == 0 then backend "a:80" else backend "b:80";
  next = 2;
  metrics = Metrics.init;
}

probe_rounds_lem_example :
    ((probe_rounds balancer "b:80" config (up ∷ down ∷ []) world).cell 1
      ≡ record (world.cell 1) { healthy = last_verdict "b:80" config (up ∷ down ∷ []) true })
    × ((q : ℕ)
        → q ≢ 1
        → (probe_rounds balancer "b:80" config (up ∷ down ∷ []) world).cell q ≡ world.cell q)
probe_rounds_lem_example = probe_rounds_lem balancer "b:80" config (up ∷ down ∷ []) world 1 refl
