-- ===== src/Traffic/Limiter.antt =====
-- `SimpleLimiter` of src/traffic/limiter.rs, a token bucket. Times are nanoseconds, as `Instant`
-- counts them, and tokens are counted in billionths. Every amount that the code computes is then a
-- whole number: a rate times some nanoseconds. The rounding of `f64` is not modelled.
pub mod Level
pub mod Rate
pub mod Waiting
use layer4_lb.Prelude.{
  ℕ, ◌+◌, ◌-◌, ◌*◌, ◌/◌, ◌%◌, ◌^◌, ◌<◌, Bool, List, [], ◌∷◌, Option, none, some, Result, ok, err,
  ltb, leb, ◌==◌, if◌then◌else◌, min,
}

-- A token, or a second.
abbrev pub billion : ℕ
billion = 10 ^ 9

pub record SimpleLimiter : Type 0 where
  pub rate_per_sec : ℕ
  pub burst_size : ℕ
  pub tokens : ℕ
  pub last_update : ℕ

abbrev pub new : ℕ → ℕ → ℕ → SimpleLimiter
new rate burst now = record {
  rate_per_sec = rate;
  burst_size = burst;
  tokens = burst * billion;
  last_update = now;
}

-- `duration_since` is zero for a time before `last_update`.
unfoldable pub refill : ℕ → SimpleLimiter → SimpleLimiter
refill now l =
    let elapsed = now - l.last_update in
    let new_tokens = elapsed * l.rate_per_sec in
    if ltb 0 new_tokens
    then record l {
      tokens = min (l.tokens + new_tokens) (l.burst_size * billion);
      last_update = now;
    }
    else l

unfoldable pub check_n : ℕ → ℕ → SimpleLimiter → Result (Unit {0}) (Unit {0}) × SimpleLimiter
check_n now n l =
    let l' = refill now l in
    if leb (n * billion) l'.tokens
    then (ok tt, record l' { tokens = l'.tokens - n * billion })
    else (err tt, l')

-- `a / b` seconds as a `Duration`, to the nearest nanosecond, and to the even one of two nearest.
unfoldable pub nearest : ℕ → ℕ → ℕ
nearest a b =
    let q = a / b in
    let r = a % b in if ltb (r + r) b then q else if ltb b (r + r) then q + 1 else q + q % 2

-- One round of the loop in `until_n_ready`. With a rate of 0 the quotient is infinite, and
-- `Duration::from_secs_f64` panics.
pub data Attempt : Type 0 where
  ready : SimpleLimiter → Attempt
  wait : ℕ → SimpleLimiter → Attempt
  panicked : Attempt

unfoldable pub attempt : ℕ → ℕ → SimpleLimiter → Attempt
attempt now n l =
    let l' = refill now l in
    if leb (n * billion) l'.tokens
    then ready (record l' { tokens = l'.tokens - n * billion })
    else let missing = n * billion - l'.tokens in
      if l'.rate_per_sec == 0 then panicked else wait (nearest missing l'.rate_per_sec) l'

-- The loop, round by round: what others do to the bucket before a round, while it is not locked, and
-- the clock's reading in it. `none` is a loop that still waits when the rounds end, or that panicked.
unfoldable pub until_n_ready :
    List ((SimpleLimiter → SimpleLimiter) × ℕ) → ℕ → SimpleLimiter → Option SimpleLimiter
until_n_ready [] n l = none
until_n_ready ((others, now) ∷ later) n l = elim (attempt now n (others l)) [
  | ready l' ↦ some l'
  | wait d l' ↦ until_n_ready later n l'
  | panicked ↦ none
]

-- A round before which nobody else uses the bucket.
abbrev pub undisturbed : ℕ → (SimpleLimiter → SimpleLimiter) × ℕ
undisturbed now = (λ l. l, now)
