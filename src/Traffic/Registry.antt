-- ===== src/Traffic/Registry.antt =====
-- `RateLimiter` and `BandwidthManager` of src/traffic/limiter.rs. A limiter is shared by reference
-- counting, so limiters live in the cells of a heap. A `DashMap` is an association list of keys
-- and cells, and one call runs after another.
pub mod Table
pub mod Sharing
pub mod Refinement
pub mod Fresh
pub mod Manager
use layer4_lb.Prelude.{
  ℕ, suc, ◌^◌, String, Bool, true, false, not, Option, none, some, List, [], ◌∷◌, is_ok,
  if◌then◌else◌, max, str_eq, ◌==◌,
}
use layer4_lb.Config.{
  RateLimitConfig, BandwidthLimitConfig, ClientBandwidthConfig, BackendBandwidthConfig,
}
use layer4_lb.Networking.Addr.{IpAddr, ip_eq}
use layer4_lb.Traffic.Limiter.{SimpleLimiter, check_n}
use layer4_lb.Traffic.Limiter
use Table.{LimiterTable, Heap, write, lookup, or_insert_with}

pub record RateLimiter : Type 0 where
  pub limiters : LimiterTable IpAddr
  pub config : RateLimitConfig

abbrev pub new : RateLimitConfig → RateLimiter
new config = record { limiters = []; config = config }

abbrev pub fresh_limiter : ℕ → RateLimitConfig → SimpleLimiter
fresh_limiter now c = Limiter.new (max c.requests_per_second 1) (max c.burst 1) now

pub check : IpAddr → ℕ → RateLimiter → Heap → Bool × RateLimiter × Heap
unfolding or_insert_with
check addr now r h =
    if not r.config.enabled
    then (true, r, h)
    else let (p, limiters, h₁) =
        or_insert_with ip_eq addr (fresh_limiter now r.config) r.limiters h in
      let (result, l) = check_n now 1 (h₁.cell p) in
      (is_ok result, record r { limiters = limiters }, write h₁ p l)

pub record BandwidthManager : Type 0 where
  pub config : BandwidthLimitConfig
  pub client_upload : LimiterTable IpAddr
  pub client_download : LimiterTable IpAddr
  pub backend_upload : LimiterTable String
  pub backend_download : LimiterTable String

abbrev pub new_manager : BandwidthLimitConfig → BandwidthManager
new_manager config = record {
  config = config;
  client_upload = [];
  client_download = [];
  backend_upload = [];
  backend_download = [];
}

-- 64 KB.
abbrev pub burst : ℕ
burst = 65536

unfoldable pub get_or_create_limiter :
    {K : Type 0} → (K → K → Bool) → K → ℕ → ℕ → LimiterTable K → Heap → ℕ × LimiterTable K × Heap
unfolding or_insert_with
get_or_create_limiter eq key rate now t h = elim (lookup eq key t) [
  | some p ↦ (p, t, h)
  | none ↦ or_insert_with eq key (Limiter.new (max rate 1024) burst now) t h
]

pub get_client_upload_limiter :
    IpAddr → ℕ → BandwidthManager → Heap → Option ℕ × BandwidthManager × Heap
get_client_upload_limiter addr now m h =
    if not m.config.enabled then (none, m, h) else elim m.config.client [
      | none ↦ (none, m, h)
      | some limits ↦
          let (p, t, h') =
            get_or_create_limiter ip_eq addr limits.upload_per_sec now m.client_upload h in
          (some p, record m { client_upload = t }, h')
    ]

pub get_client_download_limiter :
    IpAddr → ℕ → BandwidthManager → Heap → Option ℕ × BandwidthManager × Heap
get_client_download_limiter addr now m h =
    if not m.config.enabled then (none, m, h) else elim m.config.client [
      | none ↦ (none, m, h)
      | some limits ↦
          let (p, t, h') =
            get_or_create_limiter ip_eq addr limits.download_per_sec now m.client_download h in
          (some p, record m { client_download = t }, h')
    ]

pub get_backend_upload_limiter :
    String → ℕ → BandwidthManager → Heap → Option ℕ × BandwidthManager × Heap
get_backend_upload_limiter key now m h =
    if not m.config.enabled then (none, m, h) else elim m.config.backend [
      | none ↦ (none, m, h)
      | some limits ↦
          let (p, t, h') =
            get_or_create_limiter str_eq key limits.upload_per_sec now m.backend_upload h in
          (some p, record m { backend_upload = t }, h')
    ]

pub get_backend_download_limiter :
    String → ℕ → BandwidthManager → Heap → Option ℕ × BandwidthManager × Heap
get_backend_download_limiter key now m h =
    if not m.config.enabled then (none, m, h) else elim m.config.backend [
      | none ↦ (none, m, h)
      | some limits ↦
          let (p, t, h') =
            get_or_create_limiter str_eq key limits.download_per_sec now m.backend_download h in
          (some p, record m { backend_download = t }, h')
    ]
