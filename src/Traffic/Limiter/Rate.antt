-- ===== src/Traffic/Limiter/Rate.antt =====
-- The rate that a bucket of src/traffic/limiter.rs keeps its clients to.
use native.Mathlib.Decide.{dec_lt}
use layer4_lb.Prelude.{
  ℕ, ◌+◌, ◌-◌, ◌*◌, ◌≤◌, ◌≡◌, List, [], ◌∷◌, ok, err, Result, arith, All, All-map_of, ap,
}
use layer4_lb.Traffic.Limiter.{SimpleLimiter, billion, refill, check_n}
use layer4_lb.Traffic.Limiter.Level.{IsBounded, refill-refill, refill-IsBounded, gap}

-- The tokens that a sequence of requests gets, each at its time, with the bucket behind it.
unfoldable pub granted : Result (Unit {0}) (Unit {0}) → ℕ → ℕ
granted (ok _) n = n
granted (err _) n = 0

unfoldable pub serve : List (ℕ × ℕ) → SimpleLimiter → ℕ × SimpleLimiter
unfolding granted
serve [] l = (0, l)
serve ((now, n) ∷ requests) l =
    let (r, l₁) = check_n now n l in
    let (total, l₂) = serve requests l₁ in (granted r n + total, l₂)

-- Each request is made at or before the end.
abbrev pub AllBefore : ℕ → List (ℕ × ℕ) → Type 0
AllBefore end = All (λ r. r.0 ≤ end)

pub refill-pays :
    (now end : ℕ) (l : SimpleLimiter)
    → l.last_update ≤ end
    → now ≤ end
    → let l' = refill now l in
      (l'.tokens + (end - l'.last_update) * l'.rate_per_sec
        ≤ l.tokens + (end - l.last_update) * l.rate_per_sec)
      × (l'.last_update ≤ end)
      × (l'.rate_per_sec ≡ l.rate_per_sec)
unfolding refill
refill-pays now end l h k = elim (dec_lt now l.last_update) [
  | yes early ↦
      let none_passed : now - l.last_update ≡ 0 = omega arith in rw none_passed (ground arith)
  | no late ↦ ground (arith, gap l.last_update now end l.rate_per_sec (omega arith) k)
]

pub check_n-pays :
    (now n end : ℕ) (l : SimpleLimiter)
    → l.last_update ≤ end
    → now ≤ end
    → let (r, l') = check_n now n l in
      (granted r n * billion + l'.tokens + (end - l'.last_update) * l'.rate_per_sec
        ≤ l.tokens + (end - l.last_update) * l.rate_per_sec)
      × (l'.last_update ≤ end)
      × (l'.rate_per_sec ≡ l.rate_per_sec)
unfolding check_n granted
check_n-pays now n end l h k = ground (arith, refill-pays now end l h k)

serve-pays :
    (requests : List (ℕ × ℕ)) (end : ℕ) (l : SimpleLimiter)
    → l.last_update ≤ end
    → AllBefore end requests
    → (serve requests l).0 * billion ≤ l.tokens + (end - l.last_update) * l.rate_per_sec
unfolding serve
serve-pays [] end l h all = omega arith
serve-pays ((now, n) ∷ requests) end l h all =
    let (r, l₁) = check_n now n l in
    let paid = check_n-pays now n end l h all.0 in
    let rest = serve-pays requests end l₁ paid.1 all.1 in omega (arith, paid.0, rest)

-- A request at `t` or later does not see whether the bucket was brought up to date at `t`.
check_n-refill :
    (t now n : ℕ) (l : SimpleLimiter)
    → IsBounded l
    → t ≤ now
    → check_n now n (refill t l) ≡ check_n now n l
unfolding check_n
check_n-refill t now n l b h = rw ((refill-refill t now l b h).0)

refill-caught_up :
    (begin end : ℕ) (l : SimpleLimiter)
    → l.last_update ≤ begin
    → begin ≤ end
    → let l' = refill begin l in
      ((end - l'.last_update) * l'.rate_per_sec ≤ (end - begin) * l.rate_per_sec)
      × (l'.last_update ≤ begin)
      × (l'.burst_size ≡ l.burst_size)
unfolding refill
refill-caught_up begin end l h k = ground (arith, gap l.last_update begin end l.rate_per_sec h k)

-- Requests that all fall between two times get no more tokens than the burst and what the rate
-- brings in between them, whatever the sequence asks for and in whatever order the times come.
pub serve-le-rate :
    (requests : List (ℕ × ℕ)) (begin end : ℕ) (l : SimpleLimiter)
    → IsBounded l
    → l.last_update ≤ begin
    → begin ≤ end
    → All (λ r. (begin ≤ r.0) × (r.0 ≤ end)) requests
    → (serve requests l).0 * billion ≤ l.burst_size * billion + (end - begin) * l.rate_per_sec
unfolding serve
serve-le-rate [] begin end l b h k all = omega arith
serve-le-rate ((now, n) ∷ requests) begin end l b h k all =
    let l' = refill begin l in
    let caught_up = refill-caught_up begin end l h k in
    let paid =
      serve-pays ((now, n) ∷ requests) end l' (omega (arith, caught_up.1))
        (all.0.1, All-map_of _ _ (λ r w. w.1) requests all.1) in
    let paid' = rw (check_n-refill begin now n l b all.0.0) at paid in
    omega (
      arith,
      paid',
      caught_up.0,
      refill-IsBounded begin l b,
      ap (λ (x : ℕ). x * billion) caught_up.2,
    )
