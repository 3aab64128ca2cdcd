-- ===== src/Core/Balancer/Selection.antt =====
-- Which backend `next_backend` of src/core/balancer.rs selects.
use native.Mathlib.Numerals.{add-one}
use mathlib.Core.Option
use native.Mathlib.Nat.{mod-lt, mod-eq_of_lt, mod-add-mod}
use layer4_lb.Prelude.{
  ℕ, zero, suc, ◌+◌, ◌%◌, ◌≤◌, ◌<◌, ◌≡◌, refl, sym, ap, ◌∙◌, ◌↔◌, List, [], ◌∷◌, length, drop,
  arith, Bool, true, false, Option, none, some, find, find-none_iff, All, All-map_of, is_empty,
  Bool-cases, inl, inr, drop-get_or, drop_all, String,
}
use layer4_lb.Prelude.Word.{usize_mod, wrapping_add}
use layer4_lb.Core.Balancer.Rotation.{rotate, rotate-nil, rotate-All, length-rotate, get_or-rotate}
use layer4_lb.Core.Balancer.{
  Backend, LoadBalancer, ConnectionGuard, World, selectable, scan, next_backend, hand_out, guard_of,
}

-- The backends in the order in which a call tries them.
abbrev pub candidates : LoadBalancer → List ℕ
candidates lb = rotate (lb.current % length lb.backends) lb.backends

-- The index that the code computes, before the counter wraps.
pub visited :
    (start i n : ℕ) → start + n ≤ usize_mod → i < n → wrapping_add start i % n ≡ (start % n + i) % n
visited start i n room h =
    ap (λ k. k % n) (mod-eq_of_lt {n = start + i} {m = usize_mod} (omega arith))
    ∙ sym (mod-add-mod start n i)

module _ (limit : Option ℕ) (w : World) (ps : List ℕ) (start : ℕ)
    (room : start + length ps ≤ usize_mod) where
  abbrev order : List ℕ
  order = rotate (start % length ps) ps

  scan-eq-find :
      (i rounds : ℕ)
      → i + rounds ≡ length ps
      → scan limit w ps start i rounds ≡ find (λ p. selectable limit (w.cell p)) (drop i order)
  unfolding scan
  scan-eq-find i zero h =
      rw (drop_all i order (omega (arith, length-rotate (start % length ps) ps)))
  scan-eq-find i (suc rounds) h = rw (
    drop-get_or i order 0 (omega (arith, length-rotate (start % length ps) ps)),
    get_or-rotate (start % length ps) i ps 0 (mod-lt start (omega arith)) (omega arith),
    visited start i (length ps) room (omega arith),
    add-one i,
    scan-eq-find (suc i) rounds (omega arith),
  )

scan_all :
    (lb : LoadBalancer) (w : World)
    → lb.current + length lb.backends ≤ usize_mod
    → scan lb.connection_limit w lb.backends lb.current 0 (length lb.backends)
      ≡ find (λ p. selectable lb.connection_limit (w.cell p)) (candidates lb)
scan_all lb w room =
    scan-eq-find lb.connection_limit w lb.backends lb.current room 0 (length lb.backends)
      (omega arith)

hand_out-result :
    (lb : LoadBalancer) (w : World) (pick : Option ℕ)
    → (hand_out lb w pick).0 ≡ Option.map (λ p. ((w.cell p).addr, guard_of p w)) pick
unfolding hand_out
hand_out-result lb w none = refl
hand_out-result lb w (some p) = refl

find-rotate_empty :
    (f : ℕ → String × ConnectionGuard) (p : ℕ → Bool) (s : ℕ) (ps : List ℕ)
    → is_empty ps ≡ true
    → Option.map f (find p (rotate s ps)) ≡ none
find-rotate_empty f p s [] e = rw (rotate-nil s)
find-rotate_empty f p s (q ∷ ps) e = cc

-- While the counter is not about to wrap, a call returns the first backend that passes the tests
-- for draining, health and the connection limit, in the list read in a circle from the counter on.
pub next_backend-eq-find :
    (lb : LoadBalancer) (w : World)
    → lb.current + length lb.backends ≤ usize_mod
    → (next_backend lb w).0
      ≡ Option.map
          (λ p. ((w.cell p).addr, guard_of p w))
          (find (λ p. selectable lb.connection_limit (w.cell p)) (candidates lb))
unfolding next_backend
next_backend-eq-find lb w room = elim (Bool-cases (is_empty lb.backends)) [
  | inl e ↦ rw (e, find-rotate_empty _ _ (lb.current % length lb.backends) lb.backends e)
  | inr e ↦
      rw (e, ← scan_all lb w room)
        (hand_out-result (record lb { current = wrapping_add lb.current 1 }) w _)
]

-- What the three tests ask of a backend.
abbrev pub CanTake : Option ℕ → Backend → Type 0
CanTake limit b =
    (b.drain ≡ false) × (b.healthy ≡ true) × ((l : ℕ) → limit ≡ some l → b.active_connections < l)

pub selectable_iff :
    (limit : Option ℕ) (b : Backend) → (selectable limit b ≡ true) ↔ CanTake limit b
unfolding selectable
selectable_iff none b = ground arith
selectable_iff (some l) b =
    (λ h. (ground arith, ground arith, λ k e. ground arith), λ h. ground (arith, h.2 l))

map-none_iff :
    (f : ℕ → String × ConnectionGuard) (o : Option ℕ) → (Option.map f o ≡ none) ↔ (o ≡ none)
map-none_iff f none = (λ _. refl, λ _. refl)
map-none_iff f (some p) = ((λ e. cc), (λ e. cc))

pub refused_iff :
    (limit : Option ℕ) (b : Backend) → (selectable limit b ≡ false) ↔ (¬ CanTake limit b)
refused_iff limit b = elim (Bool-cases (selectable limit b)) [
  | inl e ↦ ((λ f. cc), λ n. absurd (n ((selectable_iff limit b).0 e)))
  | inr e ↦ ((λ _ c. cc ((selectable_iff limit b).1 c)), λ _. e)
]

-- While the counter is not about to wrap, a call returns no backend exactly when every backend of
-- the list drains, is unhealthy or has reached the limit.
pub next_backend-none_iff :
    (lb : LoadBalancer) (w : World)
    → lb.current + length lb.backends ≤ usize_mod
    → ((next_backend lb w).0 ≡ none)
      ↔ All (λ p. ¬ CanTake lb.connection_limit (w.cell p)) lb.backends
next_backend-none_iff lb w room =
    let s = lb.current % length lb.backends in
    let test = λ (p : ℕ). selectable lb.connection_limit (w.cell p) in
    rw (next_backend-eq-find lb w room) (
      (λ e.
          All-map_of _ _ (λ p. (refused_iff lb.connection_limit (w.cell p)).0) lb.backends
            ((rotate-All _ s lb.backends).0
              ((find-none_iff test (candidates lb)).0 ((map-none_iff _ _).0 e)))),
      (λ h. (map-none_iff _ _).1 (
          (find-none_iff test (candidates lb)).1 (
            (rotate-All _ s lb.backends).1 (
              All-map_of _ _ (λ p. (refused_iff lb.connection_limit (w.cell p)).1) lb.backends
                h)))),
    )
