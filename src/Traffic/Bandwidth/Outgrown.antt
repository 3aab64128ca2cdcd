-- ===== src/Traffic/Bandwidth/Outgrown.antt =====
-- A throttled write of src/traffic/bandwidth.rs whose buffer has grown while its payment was pending.
use layer4_lb.Prelude.{
  ℕ, ◌*◌, ◌≤◌, ◌<◌, ◌≡◌, refl, ◌∙◌, some, List, ok, min, length, take, arith, ◌==◌, false,
}
use layer4_lb.Traffic.Limiter.{billion}
use layer4_lb.Traffic.Limiter.Level.{IsBounded, level, tokens-refill}
use layer4_lb.Traffic.Limiter.Waiting.{attempt-ready}
use layer4_lb.Traffic.Registry.Table.{Heap}
use layer4_lb.Traffic.Bandwidth.{
  Timer, AsyncStream, done, Permit, RateLimitedStream, poll_permit, pay, chunk_size, poll_write,
  after_write_payment, write_chunk, sleeps, paid,
}
use layer4_lb.Traffic.Bandwidth.Paying.{Charged, poll_permit-Charged, poll_permit-settled}

module _ (lib : AsyncStream) where
  open lib use {Stream, Error, inner_write}

  poll_write-kept :
      ⦃timer : Timer⦄
      → (bytes : List ℕ) (now again p : ℕ) (f : Permit) (s : RateLimitedStream Stream) (h : Heap)
      → s.write_limiter ≡ some p
      → s.write_permit_fut ≡ some f
      → poll_write lib bytes now again s h ≡ after_write_payment lib bytes s (poll_permit p f now h)
  unfolding poll_write pay
  poll_write-kept bytes now again p f s h limited kept = rw (limited, kept) refl

  -- The wrapped stream is offered a chunk of the present buffer, and what it answers is the result.
  offered :
      (bytes : List ℕ) (s : RateLimitedStream Stream) (h : Heap)
      → 0 < min (length bytes) chunk_size
      → let (r, s', h') = after_write_payment lib bytes s (paid, h) in
        (r ≡ (inner_write (take (min (length bytes) chunk_size) bytes) s.inner).0) × (h' ≡ h)
  unfolding after_write_payment write_chunk
  offered bytes s h more =
      let some_bytes : length bytes == 0 ≡ false = ground arith in rw some_bytes (refl, refl)

  -- A future whose sleep is over takes its amount if the bucket has it.
  pays_for_permit :
      ⦃timer : Timer⦄ (p now : ℕ) (f : Permit) (h : Heap)
      → IsBounded (h.cell p)
      → sleeps f.deadline now ≡ false
      → f.amount * billion ≤ level now (h.cell p)
      → (poll_permit p f now h).0 ≡ paid
  pays_for_permit p now f h b awake enough =
      let filled = tokens-refill now (h.cell p) b in
      let ready_now = attempt-ready now f.amount (h.cell p) (rw filled enough) in
      rw (poll_permit-settled p f now h awake, ready_now) refl

  -- When a poll finds a permit of an earlier one whose sleep is over and whose amount the bucket has,
  -- and the buffer has grown beyond that amount by now, a wrapped stream that takes all it is offered
  -- writes more bytes than the bucket is charged for: a chunk of the present buffer, for the amount of the
  -- permit.
  pub outgrown_permit_underpays :
      ⦃timer : Timer⦄ (bytes : List ℕ) (now again p : ℕ) (f : Permit) (s : RateLimitedStream Stream)
      (h : Heap)
      → s.write_limiter ≡ some p
      → s.write_permit_fut ≡ some f
      → sleeps f.deadline now ≡ false
      → IsBounded (h.cell p)
      → f.amount * billion ≤ level now (h.cell p)
      → f.amount < min (length bytes) chunk_size
      → (inner_write (take (min (length bytes) chunk_size) bytes) s.inner).0
        ≡ done (ok (min (length bytes) chunk_size))
      → let (r, s', h') = poll_write lib bytes now again s h in
        (n : ℕ) × (r ≡ done (ok n)) × (f.amount < n) × Charged p f.amount now h h'
  outgrown_permit_underpays bytes now again p f s h limited kept awake b enough grown takes =
      let h₁ = (poll_permit p f now h).1 in
      let settled : poll_permit p f now h ≡ (paid, h₁) =
        λ i. (pays_for_permit p now f h b awake enough i, h₁) in
      let goes = offered bytes s h₁ (omega (arith, grown)) in
      rw (poll_write-kept bytes now again p f s h limited kept, settled)
        (
          min (length bytes) chunk_size,
          goes.0 ∙ takes,
          grown,
          rw goes.1 (poll_permit-Charged p f now h h₁ b settled),
        )
