-- ===== src/Traffic/Limiter/Waiting.antt =====
-- `until_n_ready` of src/traffic/limiter.rs: when the wait ends, and when it never does.
use native.Mathlib.Nat.{div-add-mod, mod-lt}
use layer4_lb.Prelude.{
  All, ℕ, ◌+◌, ◌-◌, ◌*◌, ◌/◌, ◌%◌, ◌≤◌, ◌<◌, ◌≡◌, refl, List, [], ◌∷◌, none, some, arith, ◌==◌, ap,
  ◌⊎◌, inl, inr, Bool-cases, ◌∙◌,
}
use layer4_lb.Traffic.Limiter.{
  SimpleLimiter, ready, wait, panicked, billion, refill, nearest, attempt, until_n_ready,
  undisturbed,
}
use layer4_lb.Traffic.Limiter.Level.{
  IsBounded, level, tokens-refill, refill-IsBounded, refill-refill,
}

mod_two : (q : ℕ) → q % 2 ≤ 1
mod_two q = omega arith

nearest_bounds : (a b : ℕ) → (a / b ≤ nearest a b) × (nearest a b ≤ a / b + 1)
unfolding nearest
nearest_bounds a b = ground (arith, mod_two (a / b))

times_mono : (a b r : ℕ) → a ≤ b → a * r ≤ b * r
times_mono a b r h = grind arith

-- One nanosecond beyond the rounded quotient covers the whole amount.
covered :
    (missing rate waited : ℕ) → 0 < rate → nearest missing rate < waited → missing ≤ waited * rate
covered missing rate waited pos h =
    let q = missing / rate in
    let more : (q + 1) * rate ≤ waited * rate =
      times_mono (q + 1) waited rate (omega (arith, (nearest_bounds missing rate).0)) in
    omega (arith, more, div-add-mod missing rate, mod-lt missing pos)

-- The limiter that a round leaves to the next is the refilled one.
pub attempt-wait :
    (now n d : ℕ) (l l' : SimpleLimiter)
    → attempt now n l ≡ wait d l'
    → (l' ≡ refill now l)
      × ((refill now l).tokens < n * billion)
      × (d ≡ nearest (n * billion - (refill now l).tokens) (refill now l).rate_per_sec)
unfolding attempt
attempt-wait now n d l l' e = ground arith

pub attempt-ready :
    (u n : ℕ) (l : SimpleLimiter)
    → n * billion ≤ (refill u l).tokens
    → attempt u n l ≡ ready (record (refill u l) { tokens = (refill u l).tokens - n * billion })
unfolding attempt
attempt-ready u n l h = ground arith

until_n_ready-wait :
    (now n d : ℕ) (later : List ((SimpleLimiter → SimpleLimiter) × ℕ)) (l l' : SimpleLimiter)
    → attempt now n l ≡ wait d l'
    → until_n_ready (undisturbed now ∷ later) n l ≡ until_n_ready later n l'
unfolding until_n_ready
until_n_ready-wait now n d later l l' e = rw (e, until_n_ready)

until_n_ready-ready :
    (now n : ℕ) (later : List ((SimpleLimiter → SimpleLimiter) × ℕ)) (l l' : SimpleLimiter)
    → attempt now n l ≡ ready l'
    → until_n_ready (undisturbed now ∷ later) n l ≡ some l'
unfolding until_n_ready
until_n_ready-ready now n later l l' e = rw (e, until_n_ready)

pub refill-facts :
    (now : ℕ) (l : SimpleLimiter)
    → l.last_update ≤ now
    → ((refill now l).last_update ≤ now)
      × ((refill now l).rate_per_sec ≡ l.rate_per_sec)
      × ((refill now l).burst_size ≡ l.burst_size)
unfolding refill
refill-facts now l h = ground arith

-- A bucket that lacks some tokens at `now` has them once the wait for them is over.
level_after_wait :
    (now u n : ℕ) (l : SimpleLimiter)
    → 0 < l.rate_per_sec
    → n ≤ l.burst_size
    → l.last_update ≤ now
    → now + nearest (n * billion - l.tokens) l.rate_per_sec < u
    → n * billion ≤ level u l
level_after_wait now u n l pos fits last late =
    let missing = n * billion - l.tokens in
    let enough = covered missing l.rate_per_sec (u - now) pos (omega arith) in
    let longer = times_mono (u - now) (u - l.last_update) l.rate_per_sec (omega arith) in
    let capped = times_mono n l.burst_size billion fits in omega (arith, enough, longer, capped)

-- The round after a wait, at any clock reading later than its end.
module _ (now u n d : ℕ) (l l' : SimpleLimiter) (b : IsBounded l) (pos : 0 < l.rate_per_sec)
    (fits : n ≤ l.burst_size) (last : l.last_update ≤ now) (e : attempt now n l ≡ wait d l')
    (late : now + d < u) where
  pub attempt-after_wait :
      (l₂ : SimpleLimiter) × (attempt u n l' ≡ ready l₂) × (l₂.tokens + n * billion ≡ level u l)
  attempt-after_wait =
      let l₁ = refill now l in
      let (same, below, waited) = attempt-wait now n d l l' e in
      let facts = refill-facts now l last in
      let twice = refill-refill now u l b (omega arith) in
      let reached =
        level_after_wait now u n l₁ (omega (arith, facts.1)) (omega (arith, facts.2)) facts.0
          (omega (arith, waited)) in
      let holds : (refill u l₁).tokens ≡ level u l = rw twice.0 (tokens-refill u l b) in
      let done = attempt-ready u n l₁ (omega (arith, holds, reached, twice.1)) in
      (
        record (refill u l₁) { tokens = (refill u l₁).tokens - n * billion },
        rw same done,
        omega (arith, holds, reached, twice.1),
      )

  -- In a bucket that refills, for a request within the burst, a round that waits is followed by one
  -- that succeeds, at any clock reading later than the end of the wait, if nobody else uses the bucket
  -- in between. The bucket is left with what it would hold then, less the request.
  pub until_n_ready-second :
      (l₂ : SimpleLimiter) × (until_n_ready (undisturbed now ∷ undisturbed u ∷ []) n l ≡ some l₂)
      × (l₂.tokens + n * billion ≡ level u l)
  until_n_ready-second =
      let (l₂, done, left) = attempt-after_wait in
      (
        l₂,
        until_n_ready-wait now n d (undisturbed u ∷ []) l l' e
            ∙ until_n_ready-ready u n [] l' l₂ done,
        left,
      )

refill-burst : (now : ℕ) (l : SimpleLimiter) → (refill now l).burst_size ≡ l.burst_size
unfolding refill
refill-burst now l = ground arith

attempt-cases :
    (now n : ℕ) (l : SimpleLimiter)
    → l.burst_size < n
    → IsBounded l
    → (attempt now n l ≡ panicked) ⊎ ((d : ℕ) × (attempt now n l ≡ wait d (refill now l)))
unfolding attempt
attempt-cases now n l over b =
    let l' = refill now l in
    let short : l'.tokens < n * billion =
      omega (arith, refill-IsBounded now l b, ap (λ (x : ℕ). x * billion) (refill-burst now l)) in
    elim (Bool-cases (l'.rate_per_sec == 0)) [
      | inl stopped ↦ inl (ground arith)
      | inr running ↦ inr (nearest (n * billion - l'.tokens) l'.rate_per_sec, ground arith)
    ]

-- What others do keeps the burst, and at most the burst in the bucket.
abbrev Keeps : (SimpleLimiter → SimpleLimiter) × ℕ → Type 0
Keeps (others, now) =
    (l : SimpleLimiter)
    → IsBounded l
    → IsBounded (others l) × ((others l).burst_size ≡ l.burst_size)

-- A request for more than the burst is never granted, however long the task waits, and whatever others
-- do to the bucket that keeps its burst and no more than that in it.
pub until_n_ready-never :
    (rounds : List ((SimpleLimiter → SimpleLimiter) × ℕ)) (n : ℕ) (l : SimpleLimiter)
    → All Keeps rounds
    → IsBounded l
    → l.burst_size < n
    → until_n_ready rounds n l ≡ none
unfolding until_n_ready
until_n_ready-never [] n l _ b over = refl
until_n_ready-never ((others, now) ∷ rounds) n l (first, rest) b over =
    let (b', same) = first l b in
    let l' = others l in
    let over' : l'.burst_size < n = omega (arith, same, over) in
    elim (attempt-cases now n l' over' b') [
      | inl e ↦ rw (e, until_n_ready) refl
      | inr (d, e) ↦
          rw (e, until_n_ready)
            (until_n_ready-never rounds n (refill now l') rest (refill-IsBounded now l' b')
              (omega (arith, refill-burst now l', over')))
    ]

-- A successful round leaves the level of its time, less the request.
pub attempt-charged :
    (now n : ℕ) (l l' : SimpleLimiter)
    → IsBounded l
    → attempt now n l ≡ ready l'
    → l'.tokens + n * billion ≡ level now l
unfolding attempt
attempt-charged now n l l' b e = ground (arith, tokens-refill now l b)
