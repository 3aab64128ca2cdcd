-- ===== src/Traffic/Registry/Sharing.antt =====
-- Who shares a limiter in src/traffic/limiter.rs, and what that means for the rate of one client.
use mathlib.Core.Option
use layer4_lb.Prelude.{
  ℕ, ◌+◌, ◌-◌, ◌*◌, ◌≤◌, ◌≡◌, ◌≢◌, inl, inr, refl, ap, ◌∙◌, true, false, ◌&&◌, Option, none, some,
  List, [], ◌∷◌, arith, All, Result, ok, err, is_ok, if◌then◌else◌, Bool-cases,
}
use layer4_lb.Networking.Addr.{IpAddr, ip_eq, ip_eq_iff}
use layer4_lb.Config.{RateLimitConfig}
use layer4_lb.Traffic.Limiter.{SimpleLimiter, check_n, billion}
use layer4_lb.Traffic.Limiter.Level.{IsBounded, check_n_lem}
use layer4_lb.Traffic.Limiter.Rate.{serve, granted, serve-le-rate}
use layer4_lb.Traffic.Registry.Table.{
  Heap, view, or_insert_with, IsSeparate, or_insert_with_lem, write_lem,
}
use layer4_lb.Traffic.Registry.{RateLimiter, fresh_limiter, check}

abbrev pub bucket : IpAddr → RateLimiter → Heap → Option SimpleLimiter
bucket addr r h = view ip_eq addr r.limiters h

abbrev pub Separate : RateLimiter → Heap → Type 0
Separate r h = IsSeparate ip_eq r.limiters h

-- A check of an enabled limiter takes one token from the bucket of its address alone: the one that
-- the address has or, at its first check, a new full one. The answer is whether the token was
-- there, and no other address sees a change.
pub check_lem :
    (addr : IpAddr) (now : ℕ) (r : RateLimiter) (h : Heap)
    → r.config.enabled ≡ true
    → Separate r h
    → let (answer, r', h') = check addr now r h in
      let (result, l') =
        check_n now 1 (Option.get_or (bucket addr r h) (fresh_limiter now r.config)) in
      (answer ≡ is_ok result)
      × (bucket addr r' h' ≡ some l')
      × ((other : IpAddr) → other ≢ addr → bucket other r' h' ≡ bucket other r h)
      × Separate r' h'
      × (r'.config ≡ r.config)
unfolding check
check_lem addr now r h on s =
    let (p, t, h₁) = or_insert_with ip_eq addr (fresh_limiter now r.config) r.limiters h in
    let entry =
      or_insert_with_lem ip_eq ip_eq_iff addr (fresh_limiter now r.config) r.limiters h s in
    let (result, l') = check_n now 1 (h₁.cell p) in
    let written = write_lem ip_eq ip_eq_iff addr p l' t h₁ entry.separate entry.present in
    rw (on, ← entry.limiter)
      (refl, written.0, λ j ne. written.1 j ne ∙ entry.others j ne, written.2, refl)

full_bucket : (now : ℕ) (c : RateLimitConfig) → is_ok (check_n now 1 (fresh_limiter now c)).0 ≡ true
full_bucket now c =
    let full = check_n_lem now 1 (fresh_limiter now c) (omega arith) in
    ap is_ok (full.0.1 (omega arith))

-- The first check of an address is granted, whatever rate and burst the configuration gives.
pub first_check_granted :
    (addr : IpAddr) (now : ℕ) (r : RateLimiter) (h : Heap)
    → Separate r h
    → bucket addr r h ≡ none
    → (check addr now r h).0 ≡ true
first_check_granted addr now r h s new = elim (Bool-cases r.config.enabled) [
  | inl on ↦ rw ((check_lem addr now r h on s).0, new) (full_bucket now r.config)
  | inr off ↦ unfold check in rw off
]

-- A check when the limiter is off.
pub check-off :
    (addr : IpAddr) (now : ℕ) (r : RateLimiter) (h : Heap)
    → r.config.enabled ≡ false
    → check addr now r h ≡ (true, r, h)
unfolding check
check-off addr now r h off = rw off

-- How many of a sequence of checks, each at its time, are granted to one address.
pub granted_to : IpAddr → List (IpAddr × ℕ) → RateLimiter → Heap → ℕ
granted_to k [] r h = 0
granted_to k ((addr, now) ∷ calls) r h =
    let (answer, r', h') = check addr now r h in
    let rest = granted_to k calls r' h' in if ip_eq addr k && answer then 1 + rest else rest

-- The requests that these checks make of the bucket of the address.
unfoldable pub requests_of : IpAddr → List (IpAddr × ℕ) → List (ℕ × ℕ)
requests_of k [] = []
requests_of k ((addr, now) ∷ calls) =
    let rest = requests_of k calls in if ip_eq addr k then (now, 1) ∷ rest else rest

pub one_granted :
    (r : Result (Unit {0}) (Unit {0})) (n : ℕ) → (if is_ok r then 1 + n else n) ≡ granted r 1 + n
unfolding granted
one_granted (ok _) n = refl
one_granted (err _) n = omega arith

granted_to-serve :
    (k : IpAddr) (calls : List (IpAddr × ℕ)) (r : RateLimiter) (h : Heap) (l : SimpleLimiter)
    → r.config.enabled ≡ true
    → Separate r h
    → bucket k r h ≡ some l
    → granted_to k calls r h ≡ (serve (requests_of k calls) l).0
unfolding granted_to requests_of serve
granted_to-serve k [] r h l on s e = refl
granted_to-serve k ((addr, now) ∷ calls) r h l on s e =
    let (answer, r', h') = check addr now r h in
    let step = check_lem addr now r h on s in
    let on' : r'.config.enabled ≡ true = rw step.4 on in
    elim (Bool-cases (ip_eq addr k)) [
      | inl mine ↦
          let same : addr ≡ k = (ip_eq_iff addr k).0 mine in
          let found : bucket addr r h ≡ some l = rw same e in
          let l' = (check_n now 1 l).1 in
          let after : bucket k r' h' ≡ some l' = rw (← same) (rw found at step.1) in
          let ih = granted_to-serve k calls r' h' l' on' step.3 after in
          rw (mine, ih, rw found at step.0) (one_granted (check_n now 1 l).0 _)
      | inr other ↦
          let apart : k ≢ addr = λ same. ground (arith, ip_eq_iff addr k) in
          let after : bucket k r' h' ≡ some l = step.2 k apart ∙ e in
          rw (other, granted_to-serve k calls r' h' l on' step.3 after)
    ]

abbrev pub Within : ℕ → ℕ → ℕ → Type 0
Within begin end t = (begin ≤ t) × (t ≤ end)

pub requests-Within :
    (k : IpAddr) (calls : List (IpAddr × ℕ)) (begin end : ℕ)
    → All (λ c. Within begin end c.1) calls
    → All (λ c. Within begin end c.0) (requests_of k calls)
unfolding requests_of
requests-Within k [] begin end w = tt
requests-Within k ((addr, now) ∷ calls) begin end w =
    ground (arith, requests-Within k calls begin end w.1)

-- Whatever addresses connect between two times, and however often, the checks grant one address no
-- more than the burst of its bucket and what its rate brings in between the two times.
pub granted_to-le-rate :
    (k : IpAddr) (calls : List (IpAddr × ℕ)) (begin end : ℕ) (r : RateLimiter) (h : Heap)
    (l : SimpleLimiter)
    → r.config.enabled ≡ true
    → Separate r h
    → bucket k r h ≡ some l
    → IsBounded l
    → l.last_update ≤ begin
    → begin ≤ end
    → All (λ c. Within begin end c.1) calls
    → granted_to k calls r h * billion ≤ l.burst_size * billion + (end - begin) * l.rate_per_sec
granted_to-le-rate k calls begin end r h l on s e b last le w =
    rw (granted_to-serve k calls r h l on s e) (
      serve-le-rate (requests_of k calls) begin end l b last le
        (requests-Within k calls begin end w))
