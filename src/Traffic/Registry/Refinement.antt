-- ===== src/Traffic/Registry/Refinement.antt =====
-- What `RateLimiter` of src/traffic/limiter.rs promises: a bucket of its own for each address.
use mathlib.Core.Option
use layer4_lb.Prelude.{
  ℕ, ◌≡◌, refl, sym, ap, ap₂, ◌∙◌, fun_ext, Bool, true, false, not, Option, some, List, [], ◌∷◌,
  arith, is_ok, if◌then◌else◌, Bool-cases, inl, inr,
}
use layer4_lb.Config.{RateLimitConfig}
use layer4_lb.Networking.Addr.{IpAddr, ip_eq, ip_eq_iff}
use layer4_lb.Traffic.Limiter.{SimpleLimiter, check_n}
use layer4_lb.Traffic.Registry.{RateLimiter, fresh_limiter, check}
use layer4_lb.Traffic.Registry.Table.{Heap}
use layer4_lb.Traffic.Registry.Sharing.{bucket, Separate, check_lem, check-off}

-- The abstract state: each address has a bucket or none yet.
abbrev pub Buckets : Type 0
Buckets = IpAddr → Option SimpleLimiter

abbrev pub set_bucket : Buckets → IpAddr → SimpleLimiter → Buckets
set_bucket f addr l k = if ip_eq k addr then some l else f k

-- One check of the abstract limiter.
pub check_bucket : RateLimitConfig → IpAddr → ℕ → Buckets → Bool × Buckets
check_bucket config addr now f =
    if not config.enabled
    then (true, f)
    else let (result, l) = check_n now 1 (Option.get_or (f addr) (fresh_limiter now config)) in
      (is_ok result, set_bucket f addr l)

-- A client's checks in order, with what each answers, on the limiter and on the buckets.
pub run : List (IpAddr × ℕ) → RateLimiter → Heap → List Bool
run [] r h = []
run ((addr, now) ∷ calls) r h =
    let (answer, r', h') = check addr now r h in answer ∷ run calls r' h'

pub replay : RateLimitConfig → List (IpAddr × ℕ) → Buckets → List Bool
replay config [] f = []
replay config ((addr, now) ∷ calls) f =
    let (answer, f') = check_bucket config addr now f in answer ∷ replay config calls f'

-- The buckets that a limiter stands for.
abbrev pub buckets : RateLimiter → Heap → Buckets
buckets r h addr = bucket addr r h

check_bucket_on :
    (config : RateLimitConfig) (addr : IpAddr) (now : ℕ) (f : Buckets)
    → config.enabled ≡ true
    → let (result, l) = check_n now 1 (Option.get_or (f addr) (fresh_limiter now config)) in
      check_bucket config addr now f ≡ (is_ok result, set_bucket f addr l)
unfolding check_bucket
check_bucket_on config addr now f on = rw on refl

check_bucket_off :
    (config : RateLimitConfig) (addr : IpAddr) (now : ℕ) (f : Buckets)
    → config.enabled ≡ false
    → check_bucket config addr now f ≡ (true, f)
unfolding check_bucket
check_bucket_off config addr now f off = rw off refl

-- One check: the same answer, and buckets that are those of the abstract limiter.
check_refines :
    (addr : IpAddr) (now : ℕ) (r : RateLimiter) (h : Heap)
    → Separate r h
    → let (answer, r', h') = check addr now r h in
      let (promised, f) = check_bucket r.config addr now (buckets r h) in
      (answer ≡ promised) × (buckets r' h' ≡ f) × Separate r' h' × (r'.config ≡ r.config)
check_refines addr now r h s = elim (Bool-cases r.config.enabled) [
  | inr off ↦
      rw (check-off addr now r h off, check_bucket_off r.config addr now (buckets r h) off)
        (refl, refl, s, refl)
  | inl on ↦
      let (answer, own, others, separate, same) = check_lem addr now r h on s in
      let l = (check_n now 1 (Option.get_or (bucket addr r h) (fresh_limiter now r.config))).1 in
      let (_, r', h') = check addr now r h in
      let all : buckets r' h' ≡ set_bucket (buckets r h) addr l = fun_ext λ k.
        elim (Bool-cases (ip_eq k addr)) [
          | inl mine ↦ rw mine (ap (λ j. bucket j r' h') ((ip_eq_iff k addr).0 mine) ∙ own)
          | inr other ↦ rw other (others k (λ e. ground (arith, ip_eq_iff k addr, e)))
        ] in
      let promised = check_bucket_on r.config addr now (buckets r h) on in
      (answer ∙ sym (ap (λ x. x.0) promised), all ∙ sym (ap (λ x. x.1) promised), separate, same)
]

-- Whatever addresses a sequence of checks names, at whatever times, the limiter gives the answers
-- of buckets that are kept for each address apart, be it enabled or not, if each address of its
-- table has a limiter of its own.
pub run-eq-replay :
    (calls : List (IpAddr × ℕ)) (r : RateLimiter) (h : Heap)
    → Separate r h
    → run calls r h ≡ replay r.config calls (buckets r h)
unfolding run replay
run-eq-replay [] r h s = refl
run-eq-replay ((addr, now) ∷ calls) r h s =
    let (answer, r', h') = check addr now r h in
    let (same_answer, same_buckets, separate, same_config) = check_refines addr now r h s in
    ap₂ (◌∷◌) same_answer (run-eq-replay calls r' h' separate ∙ rw (same_config, same_buckets) refl)
