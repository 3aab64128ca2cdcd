-- ===== src/Traffic/Bandwidth/Waits.antt =====
-- The futures that a throttled stream of src/traffic/bandwidth.rs keeps between polls.
use layer4_lb.Prelude.{
  ℕ, ◌+◌, ◌*◌, ◌≤◌, ◌<◌, ◌≡◌, refl, ap, sym, ◌∙◌, Option, none, some, List, Result, ok, err, ◌==◌,
  arith, min, length, take, false, true,
}
use mathlib.Core.Option
use layer4_lb.Traffic.Limiter.{
  SimpleLimiter, Attempt, ready, wait, panicked, billion, check_n, attempt, refill,
}
use layer4_lb.Traffic.Limiter.Level.{IsBounded, level, check_n_lem, refill-IsBounded}
use layer4_lb.Traffic.Limiter.Waiting.{attempt-after_wait, refill-facts}
use layer4_lb.Traffic.Registry.Table.{Heap, write}
use layer4_lb.Traffic.Bandwidth.Paying.{Charged, poll_permit-settled, settled, check_n-err}
use layer4_lb.Traffic.Bandwidth.Chunks.{poll_write-pay}
use layer4_lb.Traffic.Bandwidth.{
  Timer, AsyncStream, pending, Permit, RateLimitedStream, Payment, paid, unpaid, failed, pay,
  poll_permit, taken_or_wait, chunk_size, poll_write, write_chunk, after_write_payment, sleeps,
}

-- What a bucket needs so that its waits end: it refills, and its burst covers the amount.
abbrev pub Covers : ℕ → SimpleLimiter → Type 0
Covers amount l = IsBounded l × (0 < l.rate_per_sec) × (amount ≤ l.burst_size)

unpaid_inj :
    (f g : Permit) (h k : Heap)
    → ◌≡◌ {A = Payment × Heap} (unpaid f, h) (unpaid g, k)
    → (f ≡ g) × (h ≡ k)
unpaid_inj f g h k e = (ap asked (ap (λ x. x.0) e), ap (λ x. x.1) e)
  where
    asked : Payment → Permit
    asked paid = f
    asked (unpaid g) = g
    asked failed = f

wakes :
    ⦃timer : Timer⦄
    → (p amount now u d : ℕ) (h : Heap) (l : SimpleLimiter) → Covers amount (h.cell p)
    → (h.cell p).last_update ≤ now
    → attempt now amount (h.cell p) ≡ wait d l
    → now + d < u
    → sleeps (some (now + d)) u ≡ false
    → (poll_permit p (record { amount = amount; deadline = some (now + d) }) u (write h p l)).0
      ≡ paid
wakes p amount now u d h l covers last made late awake =
    let (b, pos, fits) = covers in
    let (l₂, got, left) =
      attempt-after_wait now u amount d (h.cell p) l b pos fits last made late in
    let same : (write h p l).cell p ≡ l = ground arith in
    rw
      (
        poll_permit-settled p (record { amount = amount; deadline = some (now + d) }) u
            (write h p l) awake,
        same,
        got,
      )
      refl

-- A fresh future that has to sleep has a deadline, and a poll later than that, when the sleep is
-- over, gets the tokens, if the bucket refills, its burst covers the amount, and nobody else used it in
-- between.
pub sleeper_wakes :
    ⦃timer : Timer⦄
    → (p amount now u : ℕ) (h h' : Heap) (f : Permit) → Covers amount (h.cell p)
    → (h.cell p).last_update ≤ now
    → poll_permit p (record { amount = amount; deadline = none }) now h ≡ (unpaid f, h')
    → (d : ℕ) × (f.deadline ≡ some d)
      × (now ≤ d)
      × (d < u → sleeps (some d) u ≡ false → (poll_permit p f u h').0 ≡ paid)
sleeper_wakes p amount now u h h' f covers last e =
    go (attempt now amount (h.cell p)) refl
      (sym (poll_permit-settled p (record { amount = amount; deadline = none }) now h refl) ∙ e)
  where
    go :
        (a : Attempt)
        → attempt now amount (h.cell p) ≡ a
        → settled p (record { amount = amount; deadline = none }) now h a ≡ (unpaid f, h')
        → (d : ℕ) × (f.deadline ≡ some d)
          × (now ≤ d)
          × (d < u → sleeps (some d) u ≡ false → (poll_permit p f u h').0 ≡ paid)
    go (ready l) made k = absurd (ground arith)
    go (wait d l) made k =
        let (same, left) =
          unpaid_inj (record { amount = amount; deadline = some (now + d) }) f (write h p l) h' k in
        (
          now + d,
          sym (ap (λ x. x.deadline) same),
          omega arith,
          λ late over. rw (← same, ← left) (wakes p amount now u d h l covers last made late over),
        )
    go panicked made k = absurd (ground arith)

fresh_sleeper :
    ⦃timer : Timer⦄
    → (p amount now again u : ℕ) (r : Result (Unit {0}) (Unit {0})) (l : SimpleLimiter)
      (h h' : Heap) (f : Permit)
    → Covers amount (h.cell p)
    → (h.cell p).last_update ≤ now
    → now ≤ again
    → check_n now amount (h.cell p) ≡ (r, l)
    → taken_or_wait p amount again r (write h p l) ≡ (unpaid f, h')
    → (d : ℕ) × (f.deadline ≡ some d)
      × (again ≤ d)
      × (d < u → sleeps (some d) u ≡ false → (poll_permit p f u h').0 ≡ paid)
unfolding taken_or_wait
fresh_sleeper p amount now again u (ok _) l h h' f covers last le c e = absurd (ground arith)
fresh_sleeper p amount now again u (err _) l h h' f covers last le c e =
    let same : (write h p l).cell p ≡ refill now (h.cell p) =
      ground (arith, check_n-err now amount (h.cell p) l c) in
    let facts = refill-facts now (h.cell p) last in
    let (b, pos, fits) = covers in
    sleeper_wakes p amount again u (write h p l) h' f
      (rw same (refill-IsBounded now (h.cell p) b, omega (arith, facts.1), omega (arith, facts.2)))
      (rw same (omega (arith, facts.0))) e

-- When a stream with no pending future finds its bucket short, the future that it keeps has a
-- deadline, no earlier than the poll, and a poll later than that deadline, by when the timer has ended
-- the sleep, is paid, if the bucket refills, its burst covers the amount, and nobody else used it in
-- between.
pub permit_gets_through :
    ⦃timer : Timer⦄ (p amount now again u : ℕ) (h h' : Heap) (f : Permit)
    → Covers amount (h.cell p)
    → (h.cell p).last_update ≤ now
    → now ≤ again
    → pay p none amount now again h ≡ (unpaid f, h')
    → Option.get_or f.deadline 0 < u
    → timer.is_elapsed (Option.get_or f.deadline 0) u ≡ true
    → (again ≤ Option.get_or f.deadline 0) × ((poll_permit p f u h').0 ≡ paid)
unfolding pay
permit_gets_through p amount now again u h h' f covers last le e late over =
    let (r, l) = check_n now amount (h.cell p) in
    let (d, set, after, woken) =
      fresh_sleeper p amount now again u r l h h' f covers last le refl e in
    let same : Option.get_or f.deadline 0 ≡ d = ap (λ (o : Option ℕ). Option.get_or o 0) set in
    (omega (arith, same), woken (omega (arith, same)) (rw ((rw same at over)) refl))

pays_at_once :
    ⦃timer : Timer⦄
    → (p amount now again : ℕ) (h : Heap) → IsBounded (h.cell p)
    → amount * billion ≤ level now (h.cell p)
    → pay p none amount now again h ≡ (paid, write h p (check_n now amount (h.cell p)).1)
unfolding pay taken_or_wait
pays_at_once p amount now again h b enough =
    rw (((check_n_lem now amount (h.cell p) b).0).1 enough) refl

blocked_chunk :
    (lib : AsyncStream) (bytes : List ℕ) (s : RateLimitedStream lib.Stream) (h : Heap)
    → 0 < length bytes
    → (lib.inner_write (take (min (length bytes) chunk_size) bytes) s.inner).0 ≡ pending
    → ((after_write_payment lib bytes s (paid, h)).0 ≡ pending)
      × ((after_write_payment lib bytes s (paid, h)).1.write_permit_fut ≡ none)
      × ((after_write_payment lib bytes s (paid, h)).2 ≡ h)
unfolding after_write_payment write_chunk
blocked_chunk lib bytes s h more blocked =
    let some_bytes : length bytes == 0 ≡ false = ground arith in rw some_bytes (blocked, refl, refl)

module _ (lib : AsyncStream) where
  open lib use {inner_write}

  -- When a first poll of a throttled write finds enough tokens and the wrapped stream is not ready,
  -- the write is pending, the tokens for its chunk are gone, and no permit is kept: the next poll
  -- has to pay for the same chunk again.
  pub pending_write_keeps_no_permit :
      ⦃timer : Timer⦄
      → (bytes : List ℕ) (now again p : ℕ) (s : RateLimitedStream lib.Stream) (h : Heap)
      → s.write_limiter ≡ some p
      → s.write_permit_fut ≡ none
      → 0 < length bytes
      → IsBounded (h.cell p)
      → min (length bytes) chunk_size * billion ≤ level now (h.cell p)
      → (inner_write (take (min (length bytes) chunk_size) bytes) s.inner).0 ≡ pending
      → ((poll_write lib bytes now again s h).0 ≡ pending)
        × ((poll_write lib bytes now again s h).1.write_permit_fut ≡ none)
        × Charged p (min (length bytes) chunk_size) now h ((poll_write lib bytes now again s h).2)
  pending_write_keeps_no_permit bytes now again p s h limited fresh more b enough blocked =
      let amount = min (length bytes) chunk_size in
      let charge = check_n_lem now amount (h.cell p) b in
      let stuck =
        blocked_chunk lib bytes s (write h p (check_n now amount (h.cell p)).1) more blocked in
      let left : (check_n now amount (h.cell p)).1.tokens + amount * billion
          ≡ level now (h.cell p) =
        ground (arith, charge.1) in
      let now_paid : pay p s.write_permit_fut amount now again h
          ≡ (paid, write h p (check_n now amount (h.cell p)).1) =
        rw (fresh, pays_at_once p amount now again h b enough) refl in
      rw (poll_write-pay lib bytes now again p s h limited more, now_paid)
        (stuck.0, stuck.1, rw (stuck.2) (ground (arith, left)))
