-- ===== src/Traffic/Registry/Table.antt =====
-- The maps of src/traffic/limiter.rs from keys to shared limiters, and the heap that holds these.
use layer4_lb.Prelude.{
  ℕ, suc, ◌<◌, ◌≡◌, ◌≢◌, ◌↔◌, refl, Bool, true, false, Option, none, some, List, [], ◌∷◌, arith,
  ◌==◌, if◌then◌else◌, Option-cases, inl, inr,
}
use layer4_lb.Traffic.Limiter.{SimpleLimiter}
use mathlib.Core.Option

-- Cells from `next` on are free.
pub record Heap : Type 0 where
  pub cell : ℕ → SimpleLimiter
  pub next : ℕ

abbrev pub write : Heap → ℕ → SimpleLimiter → Heap
write h p l = record h { cell = λ q. if q == p then l else h.cell q }

abbrev pub LimiterTable : Type 0 → Type 0
LimiterTable K = List (K × ℕ)

map-write :
    (h : Heap) (p n : ℕ) (l : SimpleLimiter) (o : Option ℕ)
    → ((q : ℕ) → o ≡ some q → q ≢ p)
    → Option.map (record (write h p l) { next = n }).cell o ≡ Option.map h.cell o
map-write h p n l none apart = refl
map-write h p n l (some q) apart = ground (arith, apart q refl)

module _ {K : Type 0} (eq : K → K → Bool) where
  unfoldable pub lookup : K → LimiterTable K → Option ℕ
  lookup k [] = none
  lookup k ((j, p) ∷ t) = if eq j k then some p else lookup k t

  -- `entry(key).or_insert_with(make)`.
  unfoldable pub or_insert_with :
      K → SimpleLimiter → LimiterTable K → Heap → ℕ × LimiterTable K × Heap
  or_insert_with k l t h = elim (lookup k t) [
    | some p ↦ (p, t, h)
    | none ↦ (h.next, (k, h.next) ∷ t, record (write h h.next l) { next = suc h.next })
  ]

  -- The limiter of a key.
  unfoldable pub view : K → LimiterTable K → Heap → Option SimpleLimiter
  view k t h = Option.map h.cell (lookup k t)

  -- Every limiter is in use, and two keys never share one.
  pub record IsSeparate (t : LimiterTable K) (h : Heap) : Type 0 where
    pub used : (k : K) (p : ℕ) → lookup k t ≡ some p → p < h.next
    pub apart : (k j : K) (p : ℕ) → lookup k t ≡ some p → lookup j t ≡ some p → k ≡ j

module _ {K : Type 0} (eq : K → K → Bool) (eq_iff : (a b : K) → (eq a b ≡ true) ↔ (a ≡ b)) where
  pub IsSeparate-empty : (h : Heap) → IsSeparate eq [] h
  unfolding lookup
  IsSeparate-empty h = record { used = λ k p e. cc; apart = λ k j p e f. cc }

  inserted-IsSeparate :
      (k : K) (l : SimpleLimiter) (t : LimiterTable K) (h : Heap)
      → IsSeparate eq t h
      → IsSeparate eq ((k, h.next) ∷ t) (record (write h h.next l) { next = suc h.next })
  unfolding lookup
  inserted-IsSeparate k l t h s = record {
    used = λ j p e. ground (arith, eq_iff k j, s.used j p);
    apart =
        λ i j p e f. ground (arith, eq_iff k i, eq_iff k j, s.used i p, s.used j p, s.apart i j p);
  }

  pub or_insert_with-IsSeparate :
      (k : K) (l : SimpleLimiter) (t : LimiterTable K) (h : Heap)
      → IsSeparate eq t h
      → let (p, t', h') = or_insert_with eq k l t h in IsSeparate eq t' h'
  unfolding or_insert_with
  or_insert_with-IsSeparate k l t h s = elim (Option-cases (lookup eq k t)) [
    | inl e ↦ rw (e, or_insert_with) (inserted-IsSeparate k l t h s)
    | inr (p, e) ↦ rw (e, or_insert_with) s
  ]

  -- The entry of the key is there afterwards, with the limiter that it had or else the new one, and
  -- no other key sees a change.
  pub record IsEntry (k : K) (l : SimpleLimiter) (t : LimiterTable K) (h : Heap) (p : ℕ)
      (t' : LimiterTable K) (h' : Heap) : Type 0 where
    pub present : lookup eq k t' ≡ some p
    pub limiter : h'.cell p ≡ Option.get_or (view eq k t h) l
    pub others : (j : K) → j ≢ k → view eq j t' h' ≡ view eq j t h
    pub separate : IsSeparate eq t' h'

  inserted-others :
      (k j : K) (l : SimpleLimiter) (t : LimiterTable K) (h : Heap)
      → IsSeparate eq t h
      → j ≢ k
      → view eq j ((k, h.next) ∷ t) (record (write h h.next l) { next = suc h.next })
        ≡ view eq j t h
  unfolding view lookup
  inserted-others k j l t h s ne =
      let missed : eq k j ≡ false = ground (arith, eq_iff k j) in
      rw missed (
        map-write h h.next (suc h.next) l (lookup eq j t)
          (λ q e same. absurd (omega (arith, s.used j q e))))

  pub or_insert_with_lem :
      (k : K) (l : SimpleLimiter) (t : LimiterTable K) (h : Heap)
      → IsSeparate eq t h
      → let (p, t', h') = or_insert_with eq k l t h in IsEntry k l t h p t' h'
  unfolding or_insert_with
  or_insert_with_lem k l t h s = elim (Option-cases (lookup eq k t)) [
    | inl e ↦
        rw (e, or_insert_with)
          (record {
            present = unfold lookup in ground (arith, eq_iff k k);
            limiter = unfold view in ground arith;
            others = λ j ne. inserted-others k j l t h s ne;
            separate = inserted-IsSeparate k l t h s;
          })
    | inr (p, e) ↦
        rw (e, or_insert_with)
          (record {
            present = e;
            limiter = unfold view in ground arith;
            others = λ j ne. refl;
            separate = s;
          })
  ]

  -- A write through the shared limiter of a key is seen under that key and no other.
  pub write_lem :
      (k : K) (p : ℕ) (l : SimpleLimiter) (t : LimiterTable K) (h : Heap)
      → IsSeparate eq t h
      → lookup eq k t ≡ some p
      → (view eq k t (write h p l) ≡ some l)
        × ((j : K) → j ≢ k → view eq j t (write h p l) ≡ view eq j t h)
        × IsSeparate eq t (write h p l)
  unfolding view
  write_lem k p l t h s e = (
    rw e (ground arith),
    λ j ne.
        map-write h p h.next l (lookup eq j t) (λ q f same. ne (s.apart j k p (rw same at f) e)),
    record { used = s.used; apart = s.apart },
  )
