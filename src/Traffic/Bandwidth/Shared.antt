-- ===== src/Traffic/Bandwidth/Shared.antt =====
-- Streams of src/traffic/bandwidth.rs that share one limiter, as the connections of one client do: what they
-- write together.
use layer4_lb.Prelude.{
  ℕ, ◌+◌, ◌-◌, ◌*◌, ◌≤◌, ◌≡◌, refl, sym, subst, ◌∙◌, none, some, List, [], ◌∷◌, Result, ok, err,
  arith, true, false, Bool-cases, inl, inr, length, take, length-take, min, ◌==◌, if◌then◌else◌,
  ◌&&◌,
}
use layer4_lb.Traffic.Limiter.{billion}
use layer4_lb.Traffic.Registry.Table.{Heap}
use layer4_lb.Traffic.Bandwidth.{
  Timer, AsyncStream, Poll, done, pending, panics, RateLimitedStream, Payment, paid, unpaid, failed,
  pay, chunk_size, poll_write, write_chunk, after_write_payment, is_none,
}
use layer4_lb.Traffic.Bandwidth.Paying.{IsFor}
use layer4_lb.Traffic.Bandwidth.Spending.{Spends, Spends-less, Spends-nothing, paid_by, pay-Spends}

module _ (lib : AsyncStream) where
  open lib use {Stream, Error, inner_write, write-le}

  -- The bytes that a poll reports.
  abbrev pub moved : Poll (Result ℕ Error) → ℕ
  moved (done (ok n)) = n
  moved (done (err e)) = 0
  moved pending = 0
  moved panics = 0

  abbrev pub amount : List ℕ → ℕ
  amount bytes = min (length bytes) chunk_size

  inner-moved :
      (bytes : List ℕ) (n : ℕ) (r : Poll (Result ℕ Error)) (s : Stream)
      → (inner_write bytes s).0 ≡ r
      → length bytes ≤ n
      → moved r ≤ n
  inner-moved bytes n (done (ok k)) s e le = omega (arith, le, write-le bytes k s e)
  inner-moved bytes n (done (err x)) s e le = omega arith
  inner-moved bytes n pending s e le = omega arith
  inner-moved bytes n panics s e le = omega arith

  -- The steps behind the payment move no more than the chunk, and leave the limiters.
  write_chunk_lem :
      (bytes : List ℕ) (s : RateLimitedStream Stream) (h : Heap)
      → let (r, s', h') = write_chunk lib bytes s h in
        (moved r ≤ amount bytes) × (h' ≡ h) × (s'.write_limiter ≡ s.write_limiter)
  unfolding write_chunk
  write_chunk_lem bytes s h = elim (Bool-cases (length bytes == 0)) [
    | inl empty ↦ rw empty (omega arith, refl, refl)
    | inr some_bytes ↦
        let chunk = take (amount bytes) bytes in
        rw some_bytes (
          inner-moved chunk (amount bytes) (inner_write chunk s.inner).0 s.inner refl
              (omega (arith, length-take (amount bytes) bytes)),
          refl,
          refl,
        )
  ]

  after_payment_lem :
      (bytes : List ℕ) (s : RateLimitedStream Stream) (q : Payment) (h : Heap)
      → let (r, s', h') = after_write_payment lib bytes s (q, h) in
        (moved r ≤ paid_by q (amount bytes)) × (h' ≡ h) × (s'.write_limiter ≡ s.write_limiter)
  unfolding after_write_payment
  after_payment_lem bytes s paid h = write_chunk_lem bytes (record s { write_permit_fut = none }) h
  after_payment_lem bytes s (unpaid f) h = (omega arith, refl, refl)
  after_payment_lem bytes s failed h = (omega arith, refl, refl)

  -- A poll with nothing to do, and any other.
  poll_write-nothing :
      ⦃timer : Timer⦄
      → (bytes : List ℕ) (now again p : ℕ) (s : RateLimitedStream Stream) (h : Heap)
      → s.write_limiter ≡ some p
      → is_none s.write_permit_fut && length bytes == 0 ≡ true
      → poll_write lib bytes now again s h ≡ (done (ok 0), s, h)
  unfolding poll_write
  poll_write-nothing bytes now again p s h limited nothing = rw (limited, nothing) refl

  poll_write-something :
      ⦃timer : Timer⦄
      → (bytes : List ℕ) (now again p : ℕ) (s : RateLimitedStream Stream) (h : Heap)
      → s.write_limiter ≡ some p
      → is_none s.write_permit_fut && length bytes == 0 ≡ false
      → poll_write lib bytes now again s h
        ≡ after_write_payment lib bytes s (pay p s.write_permit_fut (amount bytes) now again h)
  unfolding poll_write
  poll_write-something bytes now again p s h limited something = rw (limited, something) refl

  -- What a poll leaves of the bucket, whatever it gives.
  abbrev IsPaid : ℕ → ℕ → Heap → Poll (Result ℕ Error) × RateLimitedStream Stream × Heap → Type 0
  IsPaid end p h (r, s', h') =
      Spends end (moved r) (h.cell p) (h'.cell p) × (s'.write_limiter ≡ some p)

  poll_write-IsPaid :
      ⦃timer : Timer⦄
      → (bytes : List ℕ) (now again end p : ℕ) (s : RateLimitedStream Stream) (h : Heap)
      → s.write_limiter ≡ some p
      → (h.cell p).last_update ≤ end
      → IsFor (amount bytes) s.write_permit_fut
      → now ≤ end
      → again ≤ end
      → IsPaid end p h (poll_write lib bytes now again s h)
  poll_write-IsPaid bytes now again end p s h limited early same le le' =
      elim (Bool-cases (is_none s.write_permit_fut && length bytes == 0)) [
        | inl nothing ↦
            subst (IsPaid end p h) (sym (poll_write-nothing bytes now again p s h limited nothing))
              (Spends-nothing end (h.cell p) early, limited)
        | inr something ↦
            let (q, h₁) = pay p s.write_permit_fut (amount bytes) now again h in
            let spent =
              pay-Spends p s.write_permit_fut (amount bytes) now again end h early same le le' in
            let (r, s', h') = after_write_payment lib bytes s (q, h₁) in
            let (few, kept, limiter) = after_payment_lem bytes s q h₁ in
            let fewer =
              Spends-less end (paid_by q (amount bytes)) (moved r) (h.cell p) (h₁.cell p) few
                spent in
            subst (IsPaid end p h)
              (sym (poll_write-something bytes now again p s h limited something))
              (
                subst (λ (g : Heap). Spends end (moved r) (h.cell p) (g.cell p)) (sym kept) fewer,
                limiter ∙ limited,
              )
      ]

  -- A poll of one of the streams: which, the bytes, and the two readings of the clock.
  abbrev pub Turn : Type 0
  Turn = ℕ × List ℕ × ℕ × ℕ

  abbrev pub put :
      ℕ → RateLimitedStream Stream → (ℕ → RateLimitedStream Stream) → ℕ → RateLimitedStream Stream
  put i s streams j = if j == i then s else streams j

  -- What the polls report together.
  unfoldable pub written : ⦃timer : Timer⦄ → List Turn → (ℕ → RateLimitedStream Stream) → Heap → ℕ
  written [] streams h = 0
  written ((i, bytes, now, again) ∷ turns) streams h =
      let (r, s, h') = poll_write lib bytes now again (streams i) h in
      moved r + written turns (put i s streams) h'

  -- The times come before the end, and a stream whose payment is pending is polled again for the same amount.
  unfoldable pub Retries :
      ⦃timer : Timer⦄ → ℕ → List Turn → (ℕ → RateLimitedStream Stream) → Heap → Type 0
  Retries end [] streams h = Unit {0}
  Retries end ((i, bytes, now, again) ∷ turns) streams h =
      (now ≤ end)
      × (again ≤ end)
      × IsFor (amount bytes) (streams i).write_permit_fut
      × (let (r, s, h') = poll_write lib bytes now again (streams i) h in
          Retries end turns (put i s streams) h')

  put-limited :
      (i p : ℕ) (s : RateLimitedStream Stream) (streams : ℕ → RateLimitedStream Stream)
      → s.write_limiter ≡ some p
      → ((j : ℕ) → (streams j).write_limiter ≡ some p)
      → (j : ℕ) → (put i s streams j).write_limiter ≡ some p
  put-limited i p s streams own others j = elim (Bool-cases (j == i)) [
    | inl mine ↦ rw mine own
    | inr other ↦ rw other (others j)
  ]

  -- Streams that share a limiter, however many they are and in whatever order they are polled, together
  -- write no more bytes until a time than the bucket has tokens and its rate brings, if neither the
  -- last update of the bucket nor a reading of the clock is later than that time, and a stream whose payment
  -- is pending is polled again for the same amount.
  pub written-le-funds :
      ⦃timer : Timer⦄
      → (turns : List Turn) (end p : ℕ) (streams : ℕ → RateLimitedStream Stream) (h : Heap)
      → ((j : ℕ) → (streams j).write_limiter ≡ some p)
      → (h.cell p).last_update ≤ end
      → Retries end turns streams h
      → written turns streams h * billion
        ≤ (h.cell p).tokens + (end - (h.cell p).last_update) * (h.cell p).rate_per_sec
  unfolding written Retries
  written-le-funds [] end p streams h limited early retries = omega arith
  written-le-funds ((i, bytes, now, again) ∷ turns) end p streams h limited early
        (le, le', same, retries) =
      let (r, s, h') = poll_write lib bytes now again (streams i) h in
      let (spent, limiter) =
        poll_write-IsPaid bytes now again end p (streams i) h (limited i) early same le le' in
      let rest =
        written-le-funds turns end p (put i s streams) h'
          (put-limited i p s streams limiter limited) spent.early retries in
      omega (arith, spent.taken, rest)
