-- ===== src/Traffic/Bandwidth/Chunks.antt =====
-- The chunks that a throttled stream of src/traffic/bandwidth.rs moves, and what they cost.
use layer4_lb.Prelude.{
  ℕ, ◌≤◌, ◌<◌, ◌≡◌, ◌⊎◌, inl, inr, refl, sym, ◌∙◌, none, some, List, ok, ◌==◌, arith, min, length,
  take, length-take, false, Bool-cases,
}
use layer4_lb.Traffic.Limiter.Level.{IsBounded}
use layer4_lb.Traffic.Registry.Table.{Heap}
use layer4_lb.Traffic.Bandwidth.Paying.{Charged, IsFor, pay-Charged}
use layer4_lb.Traffic.Bandwidth.{
  Timer, AsyncStream, done, RateLimitedStream, Payment, paid, unpaid, failed, pay, chunk_size,
  poll_read, poll_write, write_chunk, after_write_payment, read_chunk, after_read_payment, is_none,
}

module _ (lib : AsyncStream) where
  open lib use {Stream, Error, inner_read, inner_write, read-le, write-le}

  write_chunk-le :
      (bytes : List ℕ) (s s' : RateLimitedStream Stream) (h h' : Heap) (n : ℕ)
      → write_chunk lib bytes s h ≡ (done (ok n), s', h')
      → (n ≤ min (length bytes) chunk_size) × (h' ≡ h) × (s'.write_permit_fut ≡ s.write_permit_fut)
  unfolding write_chunk
  write_chunk-le bytes s s' h h' n e =
      let chunk = take (min (length bytes) chunk_size) bytes in
      let within : length chunk ≡ min (length bytes) chunk_size =
        length-take (min (length bytes) chunk_size) bytes ∙ (omega arith) in
      elim (Bool-cases (length bytes == 0)) [
        | inl empty ↦ ground arith
        | inr some_bytes ↦ ground (arith, within, write-le chunk n s.inner)
      ]

  pub write_paid :
      (bytes : List ℕ) (s s' : RateLimitedStream Stream) (q : Payment) (h₁ h' : Heap) (n : ℕ)
      → after_write_payment lib bytes s (q, h₁) ≡ (done (ok n), s', h')
      → (q ≡ paid) × (n ≤ min (length bytes) chunk_size) × (h' ≡ h₁) × (s'.write_permit_fut ≡ none)
  unfolding after_write_payment
  write_paid bytes s s' paid h₁ h' n e =
      let moved = write_chunk-le bytes (record s { write_permit_fut = none }) s' h₁ h' n e in
      (refl, moved.0, moved.1, moved.2)
  write_paid bytes s s' (unpaid f) h₁ h' n e = absurd (ground arith)
  write_paid bytes s s' failed h₁ h' n e = absurd (ground arith)

  pub poll_write-pay :
      ⦃timer : Timer⦄
      → (bytes : List ℕ) (now again p : ℕ) (s : RateLimitedStream Stream) (h : Heap)
      → s.write_limiter ≡ some p
      → 0 < length bytes
      → poll_write lib bytes now again s h
        ≡ after_write_payment lib bytes s
            (pay p s.write_permit_fut (min (length bytes) chunk_size) now again h)
  unfolding poll_write
  poll_write-pay bytes now again p s h limited more =
      let some_bytes : length bytes == 0 ≡ false = ground arith in
      elim (Bool-cases (is_none s.write_permit_fut)) [
        | inl fresh ↦ rw (limited, fresh, some_bytes) refl
        | inr kept ↦ rw (limited, kept) refl
      ]

  -- A throttled write of at least one byte that reports success has moved no more than one
  -- chunk, and its limiter has paid, at one of the two clock readings of the poll, for the whole
  -- chunk that was offered, even when fewer bytes went. No permit is kept. A pending permit has to be for the same amount.
  pub poll_write-pays :
      ⦃timer : Timer⦄
      → (bytes : List ℕ) (now again p : ℕ) (s s' : RateLimitedStream Stream) (h h' : Heap) (n : ℕ)
      → s.write_limiter ≡ some p
      → 0 < length bytes
      → IsBounded (h.cell p)
      → IsFor (min (length bytes) chunk_size) s.write_permit_fut
      → now ≤ again
      → poll_write lib bytes now again s h ≡ (done (ok n), s', h')
      → (n ≤ min (length bytes) chunk_size)
        × (Charged p (min (length bytes) chunk_size) now h h'
            ⊎ Charged p (min (length bytes) chunk_size) again h h')
        × (s'.write_permit_fut ≡ none)
  poll_write-pays bytes now again p s s' h h' n limited more b same le e =
      let amount = min (length bytes) chunk_size in
      let (q, h₁) = pay p s.write_permit_fut amount now again h in
      let (is_paid, few, kept, gone) =
        write_paid bytes s s' q h₁ h' n
          (sym (poll_write-pay bytes now again p s h limited more) ∙ e) in
      (
        few,
        pay-Charged p s.write_permit_fut amount now again h h' b same le
            (λ i. (is_paid i, (sym kept) i)),
        gone,
      )

  read_chunk-le :
      (room : ℕ) (s s' : RateLimitedStream Stream) (h h' : Heap) (n : ℕ)
      → read_chunk lib room s h ≡ (done (ok n), s', h')
      → (n ≤ min room chunk_size) × (h' ≡ h) × (s'.read_permit_fut ≡ s.read_permit_fut)
  unfolding read_chunk
  read_chunk-le room s s' h h' n e = elim (Bool-cases (room == 0)) [
    | inl full ↦ ground arith
    | inr free ↦ ground (arith, read-le (min room chunk_size) n s.inner)
  ]

  read_paid :
      (room : ℕ) (s s' : RateLimitedStream Stream) (q : Payment) (h₁ h' : Heap) (n : ℕ)
      → after_read_payment lib room s (q, h₁) ≡ (done (ok n), s', h')
      → (q ≡ paid) × (n ≤ min room chunk_size) × (h' ≡ h₁) × (s'.read_permit_fut ≡ none)
  unfolding after_read_payment
  read_paid room s s' paid h₁ h' n e =
      let moved = read_chunk-le room (record s { read_permit_fut = none }) s' h₁ h' n e in
      (refl, moved.0, moved.1, moved.2)
  read_paid room s s' (unpaid f) h₁ h' n e = absurd (ground arith)
  read_paid room s s' failed h₁ h' n e = absurd (ground arith)

  poll_read-pay :
      ⦃timer : Timer⦄
      → (room now again p : ℕ) (s : RateLimitedStream Stream) (h : Heap) → s.read_limiter ≡ some p
      → 0 < room
      → poll_read lib room now again s h
        ≡ after_read_payment lib room s (pay p s.read_permit_fut (min room chunk_size) now again h)
  unfolding poll_read
  poll_read-pay room now again p s h limited more =
      let free : room == 0 ≡ false = ground arith in
      elim (Bool-cases (is_none s.read_permit_fut)) [
        | inl fresh ↦ rw (limited, fresh, free) refl
        | inr kept ↦ rw (limited, kept) refl
      ]

  -- A throttled read with room for at least one byte that reports success has added no more than one
  -- chunk, and its limiter has paid, at one of the two clock readings of the poll, for the whole room
  -- up to a chunk, even when fewer bytes came. No permit is kept. A pending permit has to be for the
  -- same amount.
  pub poll_read-pays :
      ⦃timer : Timer⦄
      → (room now again p : ℕ) (s s' : RateLimitedStream Stream) (h h' : Heap) (n : ℕ)
      → s.read_limiter ≡ some p
      → 0 < room
      → IsBounded (h.cell p)
      → IsFor (min room chunk_size) s.read_permit_fut
      → now ≤ again
      → poll_read lib room now again s h ≡ (done (ok n), s', h')
      → (n ≤ min room chunk_size)
        × (Charged p (min room chunk_size) now h h' ⊎ Charged p (min room chunk_size) again h h')
        × (s'.read_permit_fut ≡ none)
  poll_read-pays room now again p s s' h h' n limited more b same le e =
      let amount = min room chunk_size in
      let (q, h₁) = pay p s.read_permit_fut amount now again h in
      let (is_paid, few, kept, gone) =
        read_paid room s s' q h₁ h' n (sym (poll_read-pay room now again p s h limited more) ∙ e) in
      let spent : pay p s.read_permit_fut amount now again h ≡ (paid, h') =
        λ i. (is_paid i, (sym kept) i) in
      (few, pay-Charged p s.read_permit_fut amount now again h h' b same le spent, gone)
