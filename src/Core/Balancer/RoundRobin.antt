-- ===== src/Core/Balancer/RoundRobin.antt =====
-- The turns that successive calls of `next_backend` of src/core/balancer.rs give the backends, and
-- what happens when the counter wraps.
use native.Mathlib.Nat.{mod-lt, add-zero}
use mathlib.Core.Option
use mathlib.Core.List.{Perm}
use mathlib.Core.List.Perm
use layer4_lb.Prelude.{
  ℕ, zero, suc, ◌+◌, ◌-◌, ◌%◌, ◌≤◌, ◌<◌, ◌≡◌, refl, List, [], ◌∷◌, length, map, get_or, drop,
  drop-get_or, drop_all, arith, true, false, Option, none, some, All, All-get_or, All-map_of,
  is_empty,
}
use layer4_lb.Prelude.Word.{usize_mod, wrapping_add}
use layer4_lb.Core.Balancer.Rotation.{rotate, rotate-perm, length-rotate, get_or-rotate}
use layer4_lb.Core.Balancer.Selection.{candidates, visited, refused_iff, CanTake}
use layer4_lb.Core.Balancer.{
  Backend, LoadBalancer, World, selectable, scan, next_backend, take_connection, hand_out, guard_of,
}

-- The cells that so many successive calls return.
pub picks : ℕ → LoadBalancer → World → List (Option ℕ)
unfolding next_backend
picks zero lb w = []
picks (suc n) lb w =
    let (result, lb', w') = next_backend lb w in
    Option.map (λ r. r.1.counter) result ∷ picks n lb' w'

abbrev pub IsAccepting : World → ℕ → Type 0
IsAccepting w p = ((w.cell p).drain ≡ false) × ((w.cell p).healthy ≡ true)

take_connection-IsAccepting :
    (p q : ℕ) (w : World) → IsAccepting w q → IsAccepting (take_connection p w) q
unfolding take_connection
take_connection-IsAccepting p q w h = ground arith

accepting-selectable : (w : World) (p : ℕ) → IsAccepting w p → selectable none (w.cell p) ≡ true
unfolding selectable
accepting-selectable w p h = ground arith

turn : LoadBalancer → ℕ
turn lb = get_or lb.backends (wrapping_add lb.current 0 % length lb.backends) 0

scan-first :
    (limit : Option ℕ) (w : World) (ps : List ℕ) (start rounds n : ℕ)
    → rounds ≡ suc n
    → selectable limit (w.cell (get_or ps (wrapping_add start 0 % length ps) 0)) ≡ true
    → scan limit w ps start 0 rounds ≡ some (get_or ps (wrapping_add start 0 % length ps) 0)
unfolding scan
scan-first limit w ps start zero n e h = absurd (omega arith)
scan-first limit w ps start (suc rounds) n e h = rw h

not_empty : (ps : List ℕ) (n : ℕ) → length ps ≡ suc n → is_empty ps ≡ false
not_empty [] n e = absurd (omega arith)
not_empty (p ∷ ps) n e = refl

turn-selectable :
    (lb : LoadBalancer) (w : World) (n : ℕ)
    → length lb.backends ≡ suc n
    → lb.connection_limit ≡ none
    → All (IsAccepting w) lb.backends
    → selectable lb.connection_limit (w.cell (turn lb)) ≡ true
unfolding turn
turn-selectable lb w n len limit h = rw limit (
    accepting-selectable w _ (
      All-get_or (IsAccepting w) lb.backends _ 0 h
        (mod-lt (wrapping_add lb.current 0) (omega arith))))

-- One call, when every backend accepts: the backend whose turn it is.
next_backend-turn :
    (lb : LoadBalancer) (w : World) (n : ℕ)
    → length lb.backends ≡ suc n
    → lb.connection_limit ≡ none
    → All (IsAccepting w) lb.backends
    → next_backend lb w ≡ (
      some ((w.cell (turn lb)).addr, guard_of (turn lb) w),
      record lb { current = wrapping_add lb.current 1 },
      take_connection (turn lb) w,
    )
unfolding next_backend turn hand_out
next_backend-turn lb w n len limit h = rw (
  not_empty lb.backends n len,
  scan-first lb.connection_limit w lb.backends lb.current (length lb.backends) n len
      (turn-selectable lb w n len limit h),
  hand_out,
)

module _ (ps : List ℕ) (start : ℕ) (room : start + length ps + length ps ≤ usize_mod) where
  abbrev order : List ℕ
  order = rotate (start % length ps) ps

  turn-eq :
      (i : ℕ) (lb : LoadBalancer)
      → i < length ps
      → lb.backends ≡ ps
      → lb.current ≡ start + i
      → turn lb ≡ get_or order i 0
  unfolding turn
  turn-eq i lb lt backends current = rw (
    backends,
    current,
    add-zero,
    visited start i (length ps) room₁ lt,
    get_or-rotate (start % length ps) i ps 0 (mod-lt start (omega arith)) lt,
  )
    where
      room₁ : start + length ps ≤ usize_mod
      room₁ = omega arith

  -- The calls from the `i`-th one on.
  picks_from :
      (k i : ℕ) (lb : LoadBalancer) (w : World)
      → i + k ≡ length ps
      → lb.backends ≡ ps
      → lb.current ≡ start + i
      → lb.connection_limit ≡ none
      → All (IsAccepting w) ps
      → picks k lb w ≡ map some (drop i (rotate (start % length ps) ps))
  unfolding picks
  picks_from zero i lb w e backends current limit h =
      rw (drop_all i order (omega (arith, length-rotate (start % length ps) ps)))
  picks_from (suc k) i lb w e backends current limit h =
      let len : length lb.backends ≡ suc (length ps - 1) = rw backends (omega arith) in
      let lb' : LoadBalancer = record lb { current = wrapping_add lb.current 1 } in
      let rest =
        picks_from k (suc i) lb' (take_connection (turn lb) w) (omega arith) backends
          (rw current (omega arith)) limit
          (All-map_of _ _ (λ q. take_connection-IsAccepting (turn lb) q w) ps h) in
      rw (
        next_backend-turn lb w (length ps - 1) len limit (rw backends h),
        drop-get_or i order 0 (omega (arith, length-rotate (start % length ps) ps)),
        rest,
        turn-eq i lb (omega arith) backends current,
      )

-- With no limit and every backend healthy and not draining, as many calls as there are backends
-- return the backends of the list in a circle from the counter on, while the counter is not about
-- to wrap.
pub picks-round :
    (lb : LoadBalancer) (w : World)
    → lb.current + length lb.backends + length lb.backends ≤ usize_mod
    → lb.connection_limit ≡ none
    → All (IsAccepting w) lb.backends
    → picks (length lb.backends) lb w ≡ map some (candidates lb)
picks-round lb w room limit h =
    picks_from lb.backends lb.current room (length lb.backends) 0 lb w (omega arith) refl
      (omega arith) limit h

-- In such a round each backend of the list is returned exactly as often as the list names it.
pub picks-perm :
    (lb : LoadBalancer) (w : World)
    → lb.current + length lb.backends + length lb.backends ≤ usize_mod
    → lb.connection_limit ≡ none
    → All (IsAccepting w) lb.backends
    → Perm (picks (length lb.backends) lb w) (map some lb.backends)
picks-perm lb w room limit h =
    rw (picks-round lb w room limit h)
      (Perm.map some (rotate-perm (lb.current % length lb.backends) lb.backends))

not_selectable : (limit : Option ℕ) (b : Backend) → ¬ CanTake limit b → selectable limit b ≡ false
not_selectable limit b h = (refused_iff limit b).1 h

-- On the call that wraps the counter around, a list of three backends is not searched whole: the
-- call returns none although the third backend could take the connection.
pub next_backend-skips_at_wrap :
    (lb : LoadBalancer) (w : World) (a b c : ℕ)
    → ¬ CanTake lb.connection_limit (w.cell a)
    → ¬ CanTake lb.connection_limit (w.cell b)
    → CanTake lb.connection_limit (w.cell c)
    → (next_backend (record lb { backends = a ∷ b ∷ c ∷ []; current = usize_mod - 1 }) w).0 ≡ none
unfolding next_backend scan hand_out
next_backend-skips_at_wrap lb w a b c ha hb hc = rw (
  not_selectable lb.connection_limit (w.cell a) ha,
  not_selectable lb.connection_limit (w.cell b) hb,
)
