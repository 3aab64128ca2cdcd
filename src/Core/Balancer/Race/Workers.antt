-- ===== src/Core/Balancer/Race/Workers.antt =====
-- What one access of a worker adds to the open connections and to those about to be taken, in
-- src/core/balancer.rs.
use layer4_lb.Prelude.{
  ℕ, zero, suc, ◌+◌, ◌-◌, ◌%◌, ◌≤◌, ◌<◌, ◌≡◌, refl, sym, ap, ◌∙◌, true, some, List, [], ◌∷◌, ◌++◌,
  ◌==◌, if◌then◌else◌, length, is_empty, count, arith, inl, inr, Bool-cases, length-append,
}
use layer4_lb.Prelude.Word.{usize_mod, wrapping_add}
use layer4_lb.Core.Balancer.{Backend, LoadBalancer, World, count_connection, raise_gauge}
use layer4_lb.Core.Balancer.Growth.{active}
use layer4_lb.Core.Balancer.System.{counters}
use layer4_lb.Core.Balancer.Effect.{OthersKept}
use layer4_lb.Core.Balancer.Race.{
  Phase, idle, loaded, drain_test, health_test, limit_test, passed, counted, gauged, Race, indexed,
  below_limit, advance, moved,
}

-- Whether a worker is about to take a connection of `p`.
abbrev pub takes : ℕ → Phase → ℕ
takes p (passed q) = if q == p then 1 else 0
takes p (counted _) = 0
takes p (gauged _) = 0
takes p idle = 0
takes p (loaded _) = 0
takes p (drain_test _ _ _ _) = 0
takes p (health_test _ _ _ _) = 0
takes p (limit_test _ _ _ _) = 0

abbrev pub takers : ℕ → List Phase → ℕ
takers p [] = 0
takers p (x ∷ xs) = takes p x + takers p xs

takes_le : (p : ℕ) (x : Phase) → takes p x ≤ 1
takes_le p (passed q) = ground arith
takes_le p (counted _) = omega arith
takes_le p (gauged _) = omega arith
takes_le p idle = omega arith
takes_le p (loaded _) = omega arith
takes_le p (drain_test _ _ _ _) = omega arith
takes_le p (health_test _ _ _ _) = omega arith
takes_le p (limit_test _ _ _ _) = omega arith

takers_le : (p : ℕ) (xs : List Phase) → takers p xs ≤ length xs
takers_le p [] = omega arith
takers_le p (x ∷ xs) = omega (arith, takes_le p x, takers_le p xs)

takers-append : (p : ℕ) (xs ys : List Phase) → takers p (xs ++ ys) ≡ takers p xs + takers p ys
takers-append p [] ys = omega arith
takers-append p (x ∷ xs) ys = omega (arith, takers-append p xs ys)

-- The backend is in use, its counter is the number of its open connections, and these and the
-- increments to come do not exceed the limit by more than the workers, less one.
pub record IsBounded (l k p : ℕ) (s : Race) : Type 0 where
  pub used : p < s.world.next
  pub limited : s.lb.connection_limit ≡ some l
  pub staff : length s.workers ≡ k
  pub counted : active s.world p ≡ count p (counters s.guards) % usize_mod
  pub bounded : count p (counters s.guards) + takers p s.workers ≤ l + (k - 1)

-- The workers before, at and after a place.
takers_split :
    (p : ℕ) (before after : List Phase) (x : Phase)
    → takers p (before ++ x ∷ after) ≡ takers p before + takes p x + takers p after
takers_split p before after x = omega (arith, takers-append p before (x ∷ after))

length_split :
    (before after : List Phase) (x : Phase)
    → length (before ++ x ∷ after) ≡ length before + length after + 1
length_split before after x = omega (arith, length-append {0} before (x ∷ after))

below_limit_lem : (l n : ℕ) → below_limit (some l) n ≡ true → n < l
unfolding below_limit
below_limit_lem l n e = ground arith

module _ (l k p : ℕ) (small : l + k < usize_mod) (s : Race) (before after : List Phase)
    (phase : Phase) (split : s.workers ≡ before ++ phase ∷ after) (b : IsBounded l k p s) where
  old :
      count p (counters s.guards) + (takers p before + takes p phase + takers p after) ≤ l + (k - 1)
  old = rw (split, takers_split p before after phase) at b.bounded

  staffed : length before + length after + 1 ≡ k
  staffed = sym (length_split before after phase) ∙ ap (length {0}) (sym split) ∙ b.staff

  -- An access that changes nothing but the phase and the round-robin counter.
  stays :
      (next : Phase) (lb : LoadBalancer)
      → lb.connection_limit ≡ s.lb.connection_limit
      → count p (counters s.guards) + (takers p before + takes p next + takers p after)
        ≤ l + (k - 1)
      → IsBounded l k p (moved before after (next, lb, s.world, s.guards))
  stays next lb same fits = record {
    used = b.used;
    limited = same ∙ b.limited;
    staff = length_split before after next ∙ staffed;
    counted = b.counted;
    bounded = rw (takers_split p before after next) fits;
  }

  quiet :
      (next : Phase) (lb : LoadBalancer)
      → lb.connection_limit ≡ s.lb.connection_limit
      → takes p next ≡ 0
      → IsBounded l k p (moved before after (next, lb, s.world, s.guards))
  quiet next lb same none_added = stays next lb same (omega (arith, old, none_added))

  -- A worker that passes the test leaves room for itself among the others.
  passes :
      (q : ℕ)
      → below_limit s.lb.connection_limit (active s.world q) ≡ true
      → count p (counters s.guards) + (takers p before + takes p (passed q) + takers p after)
        ≤ l + (k - 1)
  passes q free = elim (Bool-cases (q == p)) [
    | inl hit ↦
        let same : q ≡ p = ground arith in
        ground (
          arith,
          below_limit_lem l (active s.world q) (rw b.limited at free),
          ap (active s.world) same,
          b.counted,
          old,
          staffed,
          takers_le p before,
          takers_le p after,
        )
    | inr miss ↦ ground (arith, old)
  ]

-- What the increment of a counter changes.
count_connection-cell :
    (p : ℕ) (w : World)
    → ((count_connection p w).cell p
        ≡ record (w.cell p) { active_connections = wrapping_add (w.cell p).active_connections 1 })
      × OthersKept p w (count_connection p w)
unfolding count_connection
count_connection-cell p w = (ground arith, λ q h. ground arith)

-- The increment turns a worker that has passed into an open connection.
increments :
    (l k p q : ℕ) (s : Race) (before after : List Phase)
    → l + k < usize_mod
    → s.workers ≡ before ++ passed q ∷ after
    → IsBounded l k p s
    → IsBounded l k p (moved before after (advance s (passed q)))
unfolding advance count_connection
increments l k p q s before after small split b =
    let cells = count_connection-cell q s.world in
    let room = old l k p small s before after (passed q) split b in
    let own = ap (λ (x : Backend). x.active_connections) cells.0 in
    record {
      used = b.used;
      limited = b.limited;
      staff =
          length_split before after (counted q)
          ∙ staffed l k p small s before after (passed q) split b;
      counted = elim (Bool-cases (q == p)) [
        | inl hit ↦
            let same : q ≡ p = ground arith in
            ground (
              arith,
              own,
              ap (active (count_connection q s.world)) same,
              ap (active s.world) same,
              b.counted,
            )
        | inr miss ↦ ground (arith, b.counted, cells.1 p)
      ];
      bounded = ground (arith, takers_split p before after (counted q), room);
    }

-- The gauge counts for no test.
raises :
    (l k p q : ℕ) (s : Race) (before after : List Phase)
    → l + k < usize_mod
    → s.workers ≡ before ++ counted q ∷ after
    → IsBounded l k p s
    → IsBounded l k p (moved before after (advance s (counted q)))
unfolding advance raise_gauge
raises l k p q s before after small split b =
    let still = quiet l k p small s before after (counted q) split b (gauged q) s.lb refl refl in
    record {
      used = still.used;
      limited = still.limited;
      staff = still.staff;
      counted = still.counted;
      bounded = still.bounded;
    }

pub advance-IsBounded :
    (l k p : ℕ) (s : Race) (before after : List Phase) (phase : Phase)
    → l + k < usize_mod
    → s.workers ≡ before ++ phase ∷ after
    → IsBounded l k p s
    → IsBounded l k p (moved before after (advance s phase))
unfolding advance
advance-IsBounded l k p s before after idle small split b =
    quiet l k p small s before after idle split b (loaded s.lb.backends) s.lb refl refl
advance-IsBounded l k p s before after (loaded ps) small split b =
    let still = quiet l k p small s before after (loaded ps) split b in
    elim (Bool-cases (is_empty ps)) [
      | inl no_backend ↦ rw no_backend (still idle s.lb refl refl)
      | inr some_backend ↦ rw some_backend (
          still (drain_test ps s.lb.current 0 (length ps))
            (record s.lb { current = wrapping_add s.lb.current 1 }) refl refl)
    ]
advance-IsBounded l k p s before after (drain_test ps start i zero) small split b =
    quiet l k p small s before after (drain_test ps start i zero) split b idle s.lb refl refl
advance-IsBounded l k p s before after (drain_test ps start i (suc r)) small split b =
    let still = quiet l k p small s before after (drain_test ps start i (suc r)) split b in
    elim (Bool-cases (s.world.cell (indexed ps start i)).drain) [
      | inl set ↦ rw set (still (drain_test ps start (i + 1) r) s.lb refl refl)
      | inr clear ↦ rw clear (still (health_test ps start i r) s.lb refl refl)
    ]
advance-IsBounded l k p s before after (health_test ps start i r) small split b =
    let still = quiet l k p small s before after (health_test ps start i r) split b in
    elim (Bool-cases (s.world.cell (indexed ps start i)).healthy) [
      | inl set ↦ rw set (still (limit_test ps start i r) s.lb refl refl)
      | inr clear ↦ rw clear (still (drain_test ps start (i + 1) r) s.lb refl refl)
    ]
advance-IsBounded l k p s before after (limit_test ps start i r) small split b =
    let q = indexed ps start i in
    let phase = limit_test ps start i r in
    elim (Bool-cases (below_limit s.lb.connection_limit (active s.world q))) [
      | inl free ↦ rw free (
          stays l k p small s before after phase split b (passed q) s.lb refl
            (passes l k p small s before after phase split b q free))
      | inr full ↦ rw full (
          quiet l k p small s before after phase split b (drain_test ps start (i + 1) r) s.lb refl
            refl)
    ]
advance-IsBounded l k p s before after (passed q) small split b =
    increments l k p q s before after small split b
advance-IsBounded l k p s before after (counted q) small split b =
    raises l k p q s before after small split b
advance-IsBounded l k p s before after (gauged q) small split b =
    quiet l k p small s before after (gauged q) split b idle s.lb refl refl
