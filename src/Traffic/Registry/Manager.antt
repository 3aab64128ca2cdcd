-- ===== src/Traffic/Registry/Manager.antt =====
-- The limiters that `BandwidthManager` of src/traffic/limiter.rs hands out.
use mathlib.Core.Option
use layer4_lb.Prelude.{
  ℕ, ◌≤◌, ◌≡◌, ◌↔◌, ◌⊎◌, inl, inr, refl, subst, Bool, true, false, String, Option, none, some,
  arith, max, Option-cases, Bool-cases,
}
use layer4_lb.Networking.Addr.{IpAddr}
use layer4_lb.Traffic.Limiter.{SimpleLimiter, billion}
use layer4_lb.Traffic.Limiter
use layer4_lb.Traffic.Limiter.Level.{IsBounded}
use layer4_lb.Traffic.Registry.Table.{
  Heap, LimiterTable, lookup, view, or_insert_with, IsSeparate, IsEntry, or_insert_with_lem,
}
use layer4_lb.Traffic.Registry.{
  BandwidthManager, burst, get_or_create_limiter, get_client_upload_limiter,
  get_client_download_limiter, get_backend_upload_limiter, get_backend_download_limiter,
}

-- A limiter that a throttled stream can live with: it refills, and its burst covers a chunk.
abbrev pub Throttles : SimpleLimiter → Type 0
Throttles l = (1024 ≤ l.rate_per_sec) × (l.burst_size ≡ burst) × IsBounded l

Throttles-old_or_new :
    (o : Option SimpleLimiter) (rate now : ℕ)
    → ((l : SimpleLimiter) → o ≡ some l → Throttles l)
    → Throttles (Option.get_or o (Limiter.new (max rate 1024) burst now))
Throttles-old_or_new none rate now all = (omega arith, refl, omega arith)
Throttles-old_or_new (some l) rate now all = all l refl

module _ {K : Type 0} (eq : K → K → Bool) (eq_iff : (a b : K) → (eq a b ≡ true) ↔ (a ≡ b)) where
  get_or_create-or_insert :
      (key : K) (rate now : ℕ) (t : LimiterTable K) (h : Heap)
      → get_or_create_limiter eq key rate now t h
        ≡ or_insert_with eq key (Limiter.new (max rate 1024) burst now) t h
  unfolding get_or_create_limiter
  get_or_create-or_insert key rate now t h = elim (Option-cases (lookup eq key t)) [
    | inl e ↦ rw (e, get_or_create_limiter)
    | inr (p, e) ↦ rw (e, get_or_create_limiter, or_insert_with)
  ]

  get_or_create-present :
      (key : K) (p rate now : ℕ) (t : LimiterTable K) (h : Heap)
      → lookup eq key t ≡ some p
      → get_or_create_limiter eq key rate now t h ≡ (p, t, h)
  unfolding get_or_create_limiter
  get_or_create-present key p rate now t h e = rw (e, get_or_create_limiter)

  get_or_create-IsEntry :
      (key : K) (rate now : ℕ) (t : LimiterTable K) (h : Heap)
      → IsSeparate eq t h
      → let (p, t', h') = get_or_create_limiter eq key rate now t h in
        IsEntry eq eq_iff key (Limiter.new (max rate 1024) burst now) t h p t' h'
  get_or_create-IsEntry key rate now t h s =
      rw (get_or_create-or_insert key rate now t h)
        (or_insert_with_lem eq eq_iff key (Limiter.new (max rate 1024) burst now) t h s)

  -- A key gets one limiter: every later request for it gets that same one, whatever rate it names,
  -- and the limiters of all other keys stay as they are.
  pub get_or_create_limiter_lem :
      (key : K) (rate now rate' later : ℕ) (t : LimiterTable K) (h : Heap)
      → IsSeparate eq t h
      → let (p, t', h') = get_or_create_limiter eq key rate now t h in
        IsEntry eq eq_iff key (Limiter.new (max rate 1024) burst now) t h p t' h'
        × (get_or_create_limiter eq key rate' later t' h' ≡ (p, t', h'))
  get_or_create_limiter_lem key rate now rate' later t h s =
      let (p, t', h') = get_or_create_limiter eq key rate now t h in
      let entry = get_or_create-IsEntry key rate now t h s in
      (entry, get_or_create-present key p rate' later t' h' entry.present)

  seen :
      (key : K) (p : ℕ) (l : SimpleLimiter) (t : LimiterTable K) (h : Heap)
      → lookup eq key t ≡ some p
      → view eq key t h ≡ some l
      → h.cell p ≡ l
  unfolding view
  seen key p l t h e f = ground arith

  -- Every limiter that the table gives refills at 1024 bytes a second or more, has a burst of
  -- 65536 bytes and holds no more, if the limiters already in the table do.
  pub get_or_create-Throttles :
      (key : K) (rate now : ℕ) (t : LimiterTable K) (h : Heap)
      → IsSeparate eq t h
      → ((k : K) (l : SimpleLimiter) → view eq k t h ≡ some l → Throttles l)
      → let (p, t', h') = get_or_create_limiter eq key rate now t h in
        Throttles (h'.cell p)
        × ((k : K) (l : SimpleLimiter) → view eq k t' h' ≡ some l → Throttles l)
  get_or_create-Throttles key rate now t h s all =
      let (p, t', h') = get_or_create_limiter eq key rate now t h in
      let entry = get_or_create-IsEntry key rate now t h s in
      let fits : Throttles (h'.cell p) =
        rw entry.limiter (Throttles-old_or_new (view eq key t h) rate now (all key)) in
      (
        fits,
        λ k l e. elim (Bool-cases (eq k key)) [
          | inl same ↦
              subst Throttles (seen key p l t' h' entry.present (rw ((eq_iff k key).0 same) at e))
                fits
          | inr other ↦ all k l (rw (entry.others k (λ same. ground (arith, eq_iff k key))) at e)
        ],
      )

-- Which limits of the configuration apply: a getter gives no limiter exactly when bandwidth limits
-- are off or the configuration has none for its side.
pub getters-none_iff :
    (addr : IpAddr) (key : String) (now : ℕ) (m : BandwidthManager) (h : Heap)
    → let off = (m.config.enabled ≡ false) in
      (((get_client_upload_limiter addr now m h).0 ≡ none) ↔ (off ⊎ (m.config.client ≡ none)))
      × (((get_client_download_limiter addr now m h).0 ≡ none) ↔ (off ⊎ (m.config.client ≡ none)))
      × (((get_backend_upload_limiter key now m h).0 ≡ none) ↔ (off ⊎ (m.config.backend ≡ none)))
      × (((get_backend_download_limiter key now m h).0 ≡ none) ↔ (off ⊎ (m.config.backend ≡ none)))
unfolding get_client_upload_limiter get_client_download_limiter get_backend_upload_limiter
    get_backend_download_limiter
getters-none_iff addr key now m h = ground arith
