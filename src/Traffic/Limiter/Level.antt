-- ===== src/Traffic/Limiter/Level.antt =====
-- How many tokens a bucket of src/traffic/limiter.rs holds, against a formula.
use native.Mathlib.Nat.{add-mul}
use native.Mathlib.Decide.{dec_lt}
use layer4_lb.Prelude.{
  ℕ, zero, suc, sym, ◌∙◌, subst, lt→ltb, ◌+◌, ◌-◌, ◌*◌, ◌≤◌, ◌<◌, ◌≡◌, refl, ◌↔◌, ok, arith, min,
  leb, if◌then◌else◌,
}
use layer4_lb.Traffic.Limiter.{SimpleLimiter, billion, refill, check_n}

-- The bucket holds no more than its burst.
abbrev pub IsBounded : SimpleLimiter → Type 0
IsBounded l = l.tokens ≤ l.burst_size * billion

-- The tokens at a time: those of the last update and what has come in since, up to the burst.
abbrev pub level : ℕ → SimpleLimiter → ℕ
level now l = min (l.tokens + (now - l.last_update) * l.rate_per_sec) (l.burst_size * billion)

pub tokens-refill :
    (now : ℕ) (l : SimpleLimiter) → IsBounded l → (refill now l).tokens ≡ level now l
unfolding refill
tokens-refill now l b = ground arith

pub refill-IsBounded : (now : ℕ) (l : SimpleLimiter) → IsBounded l → IsBounded (refill now l)
unfolding refill
refill-IsBounded now l b = ground arith

pub gap : (a t u r : ℕ) → a ≤ t → t ≤ u → (u - a) * r ≡ (t - a) * r + (u - t) * r
gap a t u r h k =
    let split : u - a ≡ (t - a) + (u - t) = omega arith in rw split (add-mul (t - a) (u - t) r)

abbrev income : ℕ → SimpleLimiter → ℕ
income now l = (now - l.last_update) * l.rate_per_sec

refill-idle : (now : ℕ) (l : SimpleLimiter) → income now l ≡ 0 → refill now l ≡ l
unfolding refill
refill-idle now l h = rw h

abbrev updated : ℕ → SimpleLimiter → SimpleLimiter
updated now l = record l {
  tokens = min (l.tokens + income now l) (l.burst_size * billion);
  last_update = now;
}

refill-busy : (now : ℕ) (l : SimpleLimiter) → 0 < income now l → refill now l ≡ updated now l
unfolding refill
refill-busy now l h = rw (lt→ltb 0 (income now l) h)

factor_pos : (a r : ℕ) → 0 < a * r → (0 < a) × (0 < r)
factor_pos zero r h = absurd (omega arith)
factor_pos (suc a) zero h = absurd (omega arith)
factor_pos (suc a) (suc r) h = omega arith

no_time : (t r : ℕ) → (t - t) * r ≡ 0
no_time t r = let none_passed : t - t ≡ 0 = omega arith in rw none_passed (omega arith)

pos_product : (a r : ℕ) → 0 < a → 0 < r → 0 < a * r
pos_product zero r h k = absurd (omega arith)
pos_product (suc a) zero h k = absurd (omega arith)
pos_product (suc a) (suc r) h k = omega arith

-- After a refill at `t` that did something, a refill at `u` does what it would have done alone.
refill-updated :
    (t u : ℕ) (l : SimpleLimiter) → t ≤ u → 0 < income t l → refill u (updated t l) ≡ updated u l
refill-updated t u l h busy =
    let (pos, rate) = factor_pos (t - l.last_update) l.rate_per_sec busy in
    let whole = gap l.last_update t u l.rate_per_sec (omega arith) h in
    elim (dec_lt t u) [
      | yes lt ↦
          let more : 0 < (u - t) * l.rate_per_sec =
            pos_product (u - t) l.rate_per_sec (omega arith) rate in
          rw (refill-busy u (updated t l) more) (ground (arith, whole))
      | no ge ↦
          let same : t ≡ u = omega arith in
          subst (λ v. refill v (updated t l) ≡ updated v l) same
            (refill-idle t (updated t l) (no_time t l.rate_per_sec))
    ]

-- A bucket may be brought up to date as often as one likes: a refill on the way changes neither a
-- later refill nor the level that it reaches, so no fraction of a token is lost.
pub refill-refill :
    (t u : ℕ) (l : SimpleLimiter)
    → IsBounded l
    → t ≤ u
    → (refill u (refill t l) ≡ refill u l) × (level u (refill t l) ≡ level u l)
refill-refill t u l b h = elim (dec_lt 0 (income t l)) [
  | yes busy ↦
      let whole =
        gap l.last_update t u l.rate_per_sec
          (omega (arith, factor_pos (t - l.last_update) l.rate_per_sec busy)) h in
      rw (refill-busy t l busy)
        (refill-updated t u l h busy ∙ sym (refill-busy u l (omega arith)), ground (arith, whole))
  | no idle ↦ rw (refill-idle t l (omega arith)) (refl, refl)
]

-- A request is granted exactly when the level covers it, and then takes just that off the level; a
-- refused request takes nothing. Either way the bucket stays within its burst.
pub check_n_lem :
    (now n : ℕ) (l : SimpleLimiter)
    → IsBounded l
    → (((check_n now n l).0 ≡ ok tt) ↔ (n * billion ≤ level now l))
      × ((check_n now n l).1.tokens
          ≡ (if leb (n * billion) (level now l) then level now l - n * billion else level now l))
      × IsBounded (check_n now n l).1
unfolding check_n refill
check_n_lem now n l b = ground arith
