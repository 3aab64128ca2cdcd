-- ===== src/Traffic/Bandwidth/Tests.antt =====
-- Throttled streams of src/traffic/bandwidth.rs over a stream that is always ready, and over one
-- that never is.
use layer4_lb.Prelude.{
  ℕ, ◌-◌, ◌+◌, ◌*◌, ◌≤◌, ◌≡◌, ◌⊎◌, refl, String, none, some, List, [], ◌∷◌, Result, ok, arith, min,
  length, leb, ◌<◌,
}
use mathlib.Core.Option
use layer4_lb.Traffic.Limiter.{SimpleLimiter, billion, check_n, attempt, refill, nearest}
use layer4_lb.Traffic.Registry.Table.{Heap}
use layer4_lb.Traffic.Bandwidth.Shared
use layer4_lb.Traffic.Bandwidth.Outgrown.{outgrown_permit_underpays}
use layer4_lb.Traffic.Bandwidth.Paying.{Charged}
use layer4_lb.Traffic.Bandwidth.Chunks.{poll_write-pays}
use layer4_lb.Traffic.Bandwidth.Waits.{permit_gets_through, pending_write_keeps_no_permit}
use layer4_lb.Traffic.Bandwidth.{
  Timer, AsyncStream, Poll, done, pending, Permit, RateLimitedStream, paid, unpaid, poll_permit,
  pay, chunk_size, poll_write, new,
}

-- A timer that ends a sleep a millisecond late.
instance abbrev late_timer : Timer
late_timer = record { is_elapsed = λ d now. leb (d + 1000000) now }

read_two :
    (room n : ℕ)
    → ◌≡◌ {A = Poll (Result ℕ String)} (done (ok (min 2 room))) (done (ok n))
    → n ≤ room
read_two room n e = ground arith

read_nothing : (room n : ℕ) → ◌≡◌ {A = Poll (Result ℕ String)} pending (done (ok n)) → n ≤ room
read_nothing room n e = ground arith

-- It keeps the number of bytes that went through, and moves two bytes at a time.
abbrev pipe : AsyncStream
pipe = record {
  Stream = ℕ;
  Error = String;
  inner_read = λ room s. (done (ok (min 2 room)), s + min 2 room);
  inner_write = λ bytes s. (done (ok (min 2 (length bytes))), s + min 2 (length bytes));
  inner_flush = λ s. (done (ok tt), s);
  inner_shutdown = λ s. (done (ok tt), s);
  read-le = λ room n s e. read_two room n e;
  write-le = λ bytes n s e. read_two (length bytes) n e;
}

abbrev blocked : AsyncStream
blocked = record {
  Stream = ℕ;
  Error = String;
  inner_read = λ room s. (pending, s);
  inner_write = λ bytes s. (pending, s);
  inner_flush = λ s. (pending, s);
  inner_shutdown = λ s. (pending, s);
  read-le = λ room n s e. read_nothing room n e;
  write-le = λ bytes n s e. read_nothing (length bytes) n e;
}

-- A bucket of 1024 bytes a second that holds ten.
abbrev bucket : SimpleLimiter
bucket = record { rate_per_sec = 1024; burst_size = 65536; tokens = 10 * billion; last_update = 0 }

abbrev heap : Heap
heap = record { cell = λ _. bucket; next = 1 }

abbrev stream : RateLimitedStream ℕ
stream = new 0 (some 0) (some 0)

abbrev bytes : List ℕ
bytes = 72 ∷ 105 ∷ 33 ∷ []

abbrev written : Poll (Result ℕ String) × RateLimitedStream ℕ × Heap
written = poll_write pipe bytes 0 0 stream heap

two_written : written ≡ (done (ok 2), written.1, written.2)
unfolding poll_write pay check_n refill
two_written = refl

poll_write-pays_example :
    (2 ≤ min (length bytes) chunk_size)
    × (Charged 0 (min (length bytes) chunk_size) 0 heap written.2
        ⊎ Charged 0 (min (length bytes) chunk_size) 0 heap written.2)
    × (written.1.write_permit_fut ≡ none)
poll_write-pays_example =
    poll_write-pays pipe bytes 0 0 0 stream written.1 heap written.2 2 refl (omega arith)
      (omega arith) tt (omega arith) two_written

pending_write_keeps_no_permit_example :
    ((poll_write blocked bytes 0 0 stream heap).0 ≡ pending)
    × ((poll_write blocked bytes 0 0 stream heap).1.write_permit_fut ≡ none)
    × Charged 0
        (min (length bytes) chunk_size)
        0
        heap
        ((poll_write blocked bytes 0 0 stream heap).2)
pending_write_keeps_no_permit_example =
    pending_write_keeps_no_permit blocked bytes 0 0 0 stream heap refl refl (omega arith)
      (omega arith) (omega arith) refl

-- 1034 bytes are asked for: 1024 are missing, a second's worth.
abbrev asleep : Permit
asleep = record { amount = 1034; deadline = some billion }

abbrev waiting : Heap
waiting = (pay 0 none 1034 0 0 heap).1

falls_asleep : pay 0 none 1034 0 0 heap ≡ (unpaid asleep, waiting)
unfolding pay poll_permit check_n attempt refill nearest
falls_asleep = refl

permit_gets_through_example :
    (0 ≤ Option.get_or asleep.deadline 0) × ((poll_permit 0 asleep 1001000000 waiting).0 ≡ paid)
permit_gets_through_example =
    permit_gets_through 0 1034 0 0 1001000000 heap waiting asleep
      (omega arith, omega arith, omega arith) (omega arith) (omega arith) falls_asleep (omega arith)
      refl

-- Two streams of one client.
abbrev turns : List (Shared.Turn pipe)
turns = (0, bytes, 0, 0) ∷ (1, bytes, 5, 5) ∷ []

turns_fit : Shared.Retries pipe billion turns (λ _. stream) heap
unfolding Shared.Retries
turns_fit = (omega arith, omega arith, tt, (omega arith, omega arith, tt, tt))

four_written : Shared.written pipe turns (λ _. stream) heap ≡ 4
unfolding Shared.written poll_write pay check_n refill
four_written = refl

written-le-funds_example :
    Shared.written pipe turns (λ _. stream) heap * billion ≤ 10 * billion + (billion - 0) * 1024
written-le-funds_example =
    Shared.written-le-funds pipe turns billion 0 (λ _. stream) heap (λ j. refl) (omega arith)
      turns_fit

-- The permit is for one byte; the buffer has two by now, and the stream takes both.
abbrev outgrown : RateLimitedStream ℕ
outgrown = record stream { write_permit_fut = some (record { amount = 1; deadline = none }) }

outgrown_permit_underpays_example :
    (n : ℕ) × ((poll_write pipe (72 ∷ 105 ∷ []) 0 0 outgrown heap).0 ≡ done (ok n))
    × (1 < n)
    × Charged 0 1 0 heap ((poll_write pipe (72 ∷ 105 ∷ []) 0 0 outgrown heap).2)
outgrown_permit_underpays_example =
    outgrown_permit_underpays pipe (72 ∷ 105 ∷ []) 0 0 0 (record { amount = 1; deadline = none })
      outgrown heap refl refl refl (omega arith) (omega arith) (omega arith) refl
