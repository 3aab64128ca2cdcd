-- ===== src/Traffic/Tests.antt =====
-- Limiters, registries and throttled streams of src/traffic on small inputs.
use layer4_lb.Prelude.{ℕ, ◌+◌, ◌-◌, ◌*◌, ◌≤◌, ◌≡◌, refl, true, some, List, [], ◌∷◌, ok, arith, All}
use layer4_lb.Config.{RateLimitConfig}
use layer4_lb.Networking.Addr.{IpAddr, ip_eq, ip_eq_iff}
use layer4_lb.Traffic.Limiter.{
  SimpleLimiter, Attempt, wait, billion, check_n, refill, attempt, until_n_ready, undisturbed,
}
use layer4_lb.Traffic.Limiter
use layer4_lb.Traffic.Limiter.Level.{IsBounded, level}
use layer4_lb.Traffic.Limiter.Rate.{serve, serve-le-rate}
use layer4_lb.Traffic.Limiter.Waiting.{until_n_ready-second}
use layer4_lb.Traffic.Registry.Table.{Heap, IsSeparate-empty}
use layer4_lb.Traffic.Registry.{
  RateLimiter, fresh_limiter, check, BandwidthManager, new_manager, burst, get_or_create_limiter,
  get_client_upload_limiter, get_client_download_limiter, get_backend_upload_limiter,
  get_backend_download_limiter,
}
use layer4_lb.Traffic.Registry
use layer4_lb.Traffic.Registry.Sharing.{Separate}
use layer4_lb.Traffic.Registry.Refinement.{run, replay, buckets, run-eq-replay}

-- Two tokens a second, a burst of three, one token left at time 0.
abbrev low : SimpleLimiter
low = record { rate_per_sec = 2; burst_size = 3; tokens = billion; last_update = 0 }

low-IsBounded : IsBounded low
low-IsBounded = omega arith

granted_test : check_n 500000000 2 low ≡ (ok tt, record low { tokens = 0; last_update = 500000000 })
unfolding check_n refill
granted_test = refl

abbrev requests : List (ℕ × ℕ)
requests = (500000000, 2) ∷ (600000000, 1) ∷ (billion, 1) ∷ []

requests_within : All (λ r. (0 ≤ r.0) × (r.0 ≤ billion)) requests
requests_within = ground arith

serve-le-rate_example : (serve requests low).0 * billion ≤ 3 * billion + (billion - 0) * 2
serve-le-rate_example =
    serve-le-rate requests 0 billion low low-IsBounded (omega arith) (omega arith) requests_within

served_test : (serve requests low).0 ≡ 3
unfolding serve check_n refill
served_test = refl

-- Three tokens are asked for: two are missing, so the first round waits for a second.
waits : attempt 0 3 low ≡ wait billion low
unfolding attempt refill Limiter.nearest
waits = refl

until_n_ready-second_example :
    (l : SimpleLimiter) × (until_n_ready (undisturbed 0 ∷ undisturbed 1000000001 ∷ []) 3 low
      ≡ some l)
    × (l.tokens + 3 * billion ≡ level 1000000001 low)
until_n_ready-second_example =
    until_n_ready-second 0 1000000001 3 billion low low low-IsBounded (omega arith) (omega arith)
      (omega arith) waits (omega arith)

-- A registry with no bucket yet.
abbrev limits : RateLimitConfig
limits = record { enabled = true; requests_per_second = 5; burst = 10 }

abbrev registry : RateLimiter
registry = Registry.new limits

abbrev heap : Heap
heap = record { cell = λ _. low; next = 0 }

abbrev home : IpAddr
home = IpAddr.v4 1

abbrev away : IpAddr
away = IpAddr.v4 2

registry-Separate : Separate registry heap
registry-Separate = IsSeparate-empty ip_eq ip_eq_iff heap

abbrev calls : List (IpAddr × ℕ)
calls = (home, 5) ∷ (away, 6) ∷ (home, 7) ∷ []

run-eq-replay_example : run calls registry heap ≡ replay limits calls (buckets registry heap)
run-eq-replay_example = run-eq-replay calls registry heap registry-Separate
