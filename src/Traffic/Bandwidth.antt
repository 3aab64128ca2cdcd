-- ===== src/Traffic/Bandwidth.antt =====
-- `RateLimitedStream` of src/traffic/bandwidth.rs. The wrapped stream is a parameter. A read buffer
-- is the room that is left in it, and a read gives the number of bytes that were added to it.
pub mod Paying
pub mod Chunks
pub mod Waits
pub mod Outgrown
pub mod Spending
pub mod Shared
mod Tests
use layer4_lb.Prelude.{
  ℕ, ◌+◌, Bool, true, false, Option, none, some, List, [], ◌∷◌, Result, ok, err, not, ltb, leb,
  ◌==◌, if◌then◌else◌, ◌&&◌, min, take, length, ◌≤◌, ◌≡◌,
}
use layer4_lb.Traffic.Limiter.{SimpleLimiter, Attempt, ready, wait, panicked, check_n, attempt}
use layer4_lb.Traffic.Registry.Table.{Heap, write}

-- `std::task::Poll`, with the panic of a call beside it.
pub data Poll (A : Type 0) : Type 0 where
  done : A → Poll A
  pending : Poll A
  panics : Poll A

-- What `AsyncRead` and `AsyncWrite` give of the wrapped stream. A read adds no more bytes than
-- there is room, and a write accepts no more than it is given.
pub record AsyncStream : Type 1 where
  pub Stream : Type 0
  pub Error : Type 0
  pub inner_read : ℕ → Stream → Poll (Result ℕ Error) × Stream
  pub inner_write : List ℕ → Stream → Poll (Result ℕ Error) × Stream
  pub inner_flush : Stream → Poll (Result (Unit {0}) Error) × Stream
  pub inner_shutdown : Stream → Poll (Result (Unit {0}) Error) × Stream
  pub read-le : (room n : ℕ) (s : Stream) → (inner_read room s).0 ≡ done (ok n) → n ≤ room
  pub write-le :
      (bytes : List ℕ) (n : ℕ) (s : Stream)
      → (inner_write bytes s).0 ≡ done (ok n)
      → n ≤ length bytes

-- The boxed future of `until_n_ready(amount)`: it sleeps until its deadline, if it has one.
pub record Permit : Type 0 where
  pub amount : ℕ
  pub deadline : Option ℕ

pub record RateLimitedStream (S : Type 0) : Type 0 where
  pub inner : S
  pub read_limiter : Option ℕ
  pub write_limiter : Option ℕ
  pub read_permit_fut : Option Permit
  pub write_permit_fut : Option Permit

abbrev pub new : {S : Type 0} → S → Option ℕ → Option ℕ → RateLimitedStream S
new inner read_limiter write_limiter = record {
  inner = inner;
  read_limiter = read_limiter;
  write_limiter = write_limiter;
  read_permit_fut = none;
  write_permit_fut = none;
}

abbrev pub chunk_size : ℕ
chunk_size = 16384

-- Whether the way to the wrapped stream is free, and the permit that is kept.
pub data Payment : Type 0 where
  paid : Payment
  unpaid : Permit → Payment
  failed : Payment

-- The timer of tokio: whether a sleep until a deadline is over at a poll. It is no more exact than
-- the driver that ends the sleeps.
pub record Timer : Type 0 where
  pub is_elapsed : ℕ → ℕ → Bool

abbrev pub sleeps : ⦃timer : Timer⦄ → Option ℕ → ℕ → Bool
sleeps none now = false
sleeps ⦃timer⦄ (some d) now = not (timer.is_elapsed d now)

-- A poll of the future: one round of the loop of `until_n_ready`, unless it still sleeps. A round
-- that does not succeed ends in a new sleep.
unfoldable pub poll_permit : ⦃timer : Timer⦄ → ℕ → Permit → ℕ → Heap → Payment × Heap
poll_permit p f now h =
    if sleeps f.deadline now then (unpaid f, h) else elim (attempt now f.amount (h.cell p)) [
      | ready l ↦ (paid, write h p l)
      | wait d l ↦ (unpaid (record f { deadline = some (now + d) }), write h p l)
      | panicked ↦ (failed, h)
    ]

-- What follows `check_n`: the tokens were taken, or a future is made and polled in the next turn of
-- the loop, at the clock reading `again`.
taken_or_wait : ⦃timer : Timer⦄ → ℕ → ℕ → ℕ → Result (Unit {0}) (Unit {0}) → Heap → Payment × Heap
unfolding poll_permit
taken_or_wait p amount again (ok _) h = (paid, h)
taken_or_wait p amount again (err _) h =
    poll_permit p (record { amount = amount; deadline = none }) again h

-- Steps 1 and 2 of both loops, for an amount that is not 0: a pending future is polled, and
-- otherwise the tokens are taken at once or waited for.
unfoldable pub pay : ⦃timer : Timer⦄ → ℕ → Option Permit → ℕ → ℕ → ℕ → Heap → Payment × Heap
unfolding poll_permit taken_or_wait
pay p (some f) amount now again h = poll_permit p f now h
pay p none amount now again h =
    let (result, l) = check_n now amount (h.cell p) in
    taken_or_wait p amount again result (write h p l)

abbrev is_none : Option Permit → Bool
is_none none = true
is_none (some f) = false

module _ (lib : AsyncStream) where
  open lib use {Stream, Error, inner_read, inner_write, inner_flush, inner_shutdown}

  -- Step 3 of the read loop.
  read_chunk :
      ℕ → RateLimitedStream Stream → Heap → Poll (Result ℕ Error) × RateLimitedStream Stream × Heap
  read_chunk room s h =
      if room == 0
      then (done (ok 0), s, h)
      else let (result, inner) = inner_read (min room chunk_size) s.inner in
        (result, record s { inner = inner }, h)

  after_read_payment :
      ℕ
      → RateLimitedStream Stream
      → Payment × Heap
      → Poll (Result ℕ Error) × RateLimitedStream Stream × Heap
  unfolding read_chunk
  after_read_payment room s (paid, h) = read_chunk room (record s { read_permit_fut = none }) h
  after_read_payment room s (unpaid f, h) = (pending, record s { read_permit_fut = some f }, h)
  after_read_payment room s (failed, h) = (panics, s, h)

  pub poll_read :
      ⦃timer : Timer⦄
      → ℕ
      → ℕ
      → ℕ
      → RateLimitedStream Stream
      → Heap
      → Poll (Result ℕ Error) × RateLimitedStream Stream × Heap
  unfolding after_read_payment pay
  poll_read room now again s h = elim s.read_limiter [
    | none ↦
        let (result, inner) = inner_read room s.inner in (result, record s { inner = inner }, h)
    | some p ↦
        if is_none s.read_permit_fut && room == 0
        then (done (ok 0), s, h)
        else after_read_payment room s (pay p s.read_permit_fut (min room chunk_size) now again h)
  ]

  -- Step 3 of the write loop.
  write_chunk :
      List ℕ
      → RateLimitedStream Stream
      → Heap
      → Poll (Result ℕ Error) × RateLimitedStream Stream × Heap
  write_chunk bytes s h =
      if length bytes == 0
      then (done (ok 0), s, h)
      else let (result, inner) = inner_write (take (min (length bytes) chunk_size) bytes) s.inner in
        (result, record s { inner = inner }, h)

  pub after_write_payment :
      List ℕ
      → RateLimitedStream Stream
      → Payment × Heap
      → Poll (Result ℕ Error) × RateLimitedStream Stream × Heap
  unfolding write_chunk
  after_write_payment bytes s (paid, h) = write_chunk bytes (record s { write_permit_fut = none }) h
  after_write_payment bytes s (unpaid f, h) = (pending, record s { write_permit_fut = some f }, h)
  after_write_payment bytes s (failed, h) = (panics, s, h)

  pub poll_write :
      ⦃timer : Timer⦄
      → List ℕ
      → ℕ
      → ℕ
      → RateLimitedStream Stream
      → Heap
      → Poll (Result ℕ Error) × RateLimitedStream Stream × Heap
  unfolding after_write_payment pay
  poll_write bytes now again s h = elim s.write_limiter [
    | none ↦
        let (result, inner) = inner_write bytes s.inner in (result, record s { inner = inner }, h)
    | some p ↦
        if is_none s.write_permit_fut && length bytes == 0
        then (done (ok 0), s, h)
        else after_write_payment bytes s
            (pay p s.write_permit_fut (min (length bytes) chunk_size) now again h)
  ]

  pub poll_flush :
      RateLimitedStream Stream → Poll (Result (Unit {0}) Error) × RateLimitedStream Stream
  poll_flush s = let (result, inner) = inner_flush s.inner in (result, record s { inner = inner })

  pub poll_shutdown :
      RateLimitedStream Stream → Poll (Result (Unit {0}) Error) × RateLimitedStream Stream
  poll_shutdown s =
      let (result, inner) = inner_shutdown s.inner in (result, record s { inner = inner })
