-- ===== src/Traffic/Registry/Fresh.antt =====
-- What the lookups of one map of src/traffic/limiter.rs leave of the limiters of another: a new limiter
-- gets a new cell.
use mathlib.Core.Option
use layer4_lb.Prelude.{
  ℕ, ◌<◌, ◌≤◌, ◌≡◌, refl, ap, ◌∙◌, String, Bool, Option, none, some, arith, Option-cases,
  Bool-cases, inl, inr, str_eq,
}
use layer4_lb.Networking.Addr.{IpAddr, ip_eq}
use layer4_lb.Traffic.Limiter.{SimpleLimiter}
use layer4_lb.Traffic.Registry.Table.{Heap, LimiterTable, lookup, or_insert_with, view, IsSeparate}
use layer4_lb.Traffic.Registry.{
  BandwidthManager, get_or_create_limiter, get_client_upload_limiter, get_client_download_limiter,
  get_backend_upload_limiter, get_backend_download_limiter,
}

-- The cells in use stay as they were.
pub record Extends (h h' : Heap) : Type 0 where
  pub more : h.next ≤ h'.next
  pub kept : (p : ℕ) → p < h.next → h'.cell p ≡ h.cell p

pub Extends-refl : (h : Heap) → Extends h h
Extends-refl h = record { more = omega arith; kept = λ p lt. refl }

pub Extends-trans : (f g h : Heap) → Extends f g → Extends g h → Extends f h
Extends-trans f g h e e' = record {
  more = omega (arith, e.more, e'.more);
  kept = λ p lt. e'.kept p (omega (arith, lt, e.more)) ∙ e.kept p lt;
}

map-Extends :
    (h h' : Heap) (o : Option ℕ)
    → ((p : ℕ) → o ≡ some p → h'.cell p ≡ h.cell p)
    → Option.map h'.cell o ≡ Option.map h.cell o
map-Extends h h' none same = refl
map-Extends h h' (some p) same = ap some (same p refl)

module _ {K : Type 0} (eq : K → K → Bool) where
  pub view-Extends :
      (t : LimiterTable K) (h h' : Heap)
      → IsSeparate eq t h
      → Extends h h'
      → ((k : K) → view eq k t h' ≡ view eq k t h) × IsSeparate eq t h'
  unfolding view
  view-Extends t h h' s e = (
    λ k. map-Extends h h' (lookup eq k t) (λ p found. e.kept p (s.used k p found)),
    record { used = λ k p found. omega (arith, s.used k p found, e.more); apart = s.apart },
  )

  or_insert_with-Extends :
      (k : K) (l : SimpleLimiter) (t : LimiterTable K) (h : Heap)
      → let (p, t', h') = or_insert_with eq k l t h in Extends h h'
  unfolding or_insert_with
  or_insert_with-Extends k l t h = elim (Option-cases (lookup eq k t)) [
    | inl e ↦
        rw (e, or_insert_with) (record { more = omega arith; kept = λ p lt. ground (arith, lt) })
    | inr (p, e) ↦ rw (e, or_insert_with) (Extends-refl h)
  ]

  get_or_create_limiter-Extends :
      (k : K) (rate now : ℕ) (t : LimiterTable K) (h : Heap)
      → let (p, t', h') = get_or_create_limiter eq k rate now t h in Extends h h'
  unfolding get_or_create_limiter
  get_or_create_limiter-Extends k rate now t h = elim (Option-cases (lookup eq k t)) [
    | inl e ↦ rw (e, get_or_create_limiter) (or_insert_with-Extends k _ t h)
    | inr (p, e) ↦ rw (e, get_or_create_limiter) (Extends-refl h)
  ]

pub client_upload-Extends :
    (addr : IpAddr) (now : ℕ) (m : BandwidthManager) (h : Heap)
    → Extends h (get_client_upload_limiter addr now m h).2
unfolding get_client_upload_limiter
client_upload-Extends addr now m h = elim (Bool-cases m.config.enabled) [
  | inr off ↦ rw off (Extends-refl h)
  | inl on ↦ elim (Option-cases m.config.client) [
    | inl e ↦ rw (on, e) (Extends-refl h)
    | inr (limits, e) ↦
        rw (on, e)
          (get_or_create_limiter-Extends ip_eq addr limits.upload_per_sec now m.client_upload h)
  ]
]

pub client_download-Extends :
    (addr : IpAddr) (now : ℕ) (m : BandwidthManager) (h : Heap)
    → Extends h (get_client_download_limiter addr now m h).2
unfolding get_client_download_limiter
client_download-Extends addr now m h = elim (Bool-cases m.config.enabled) [
  | inr off ↦ rw off (Extends-refl h)
  | inl on ↦ elim (Option-cases m.config.client) [
    | inl e ↦ rw (on, e) (Extends-refl h)
    | inr (limits, e) ↦
        rw (on, e)
          (get_or_create_limiter-Extends ip_eq addr limits.download_per_sec now m.client_download h)
  ]
]

pub backend_upload-Extends :
    (key : String) (now : ℕ) (m : BandwidthManager) (h : Heap)
    → Extends h (get_backend_upload_limiter key now m h).2
unfolding get_backend_upload_limiter
backend_upload-Extends key now m h = elim (Bool-cases m.config.enabled) [
  | inr off ↦ rw off (Extends-refl h)
  | inl on ↦ elim (Option-cases m.config.backend) [
    | inl e ↦ rw (on, e) (Extends-refl h)
    | inr (limits, e) ↦
        rw (on, e)
          (get_or_create_limiter-Extends str_eq key limits.upload_per_sec now m.backend_upload h)
  ]
]

pub backend_download-Extends :
    (key : String) (now : ℕ) (m : BandwidthManager) (h : Heap)
    → Extends h (get_backend_download_limiter key now m h).2
unfolding get_backend_download_limiter
backend_download-Extends key now m h = elim (Bool-cases m.config.enabled) [
  | inr off ↦ rw off (Extends-refl h)
  | inl on ↦ elim (Option-cases m.config.backend) [
    | inl e ↦ rw (on, e) (Extends-refl h)
    | inr (limits, e) ↦
        rw (on, e)
          (get_or_create_limiter-Extends str_eq key limits.download_per_sec now m.backend_download
            h)
  ]
]
