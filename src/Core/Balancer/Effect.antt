-- ===== src/Core/Balancer/Effect.antt =====
-- What a call of `next_backend` of src/core/balancer.rs changes.

use native.Mathlib.Nat.{mod-lt}
use layer4_lb.Prelude.{
  ◌⊎◌, Option-cases, ℕ, zero, suc, ◌+◌, ◌%◌, ◌<◌, ◌≡◌, refl, ap, ◌≢◌, List, [], ◌∷◌, length, get_or,
  arith, true, false, Option, none, some, Any, Any-get_or, is_empty, Bool-cases, inl, inr, subst,
  String,
}
use layer4_lb.Prelude.Word.{wrapping_add}
use layer4_lb.Core.Balancer.{
  LoadBalancer, ConnectionGuard, World, selectable, scan, next_backend, hand_out, take_connection,
  guard_of,
}
use layer4_lb.Core.Balancer.Selection.{CanTake, selectable_iff}

scan_sound :
    (limit : Option ℕ) (w : World) (ps : List ℕ) (start i rounds p : ℕ)
    → 0 < length ps
    → scan limit w ps start i rounds ≡ some p
    → (selectable limit (w.cell p) ≡ true) × Any (λ q. q ≡ p) ps
unfolding scan
scan_sound limit w ps start i zero p pos e = cc
scan_sound limit w ps start i (suc rounds) p pos e =
    let q = get_or ps (wrapping_add start i % length ps) 0 in
    elim (Bool-cases (selectable limit (w.cell q))) [
      | inl hit ↦
          let same : q ≡ p = ground arith in
          subst (λ r. (selectable limit (w.cell r) ≡ true) × Any (λ x. x ≡ r) ps) same
            (
              hit,
              Any-get_or ps (wrapping_add start i % length ps) 0
                  (mod-lt (wrapping_add start i) pos),
            )
      | inr miss ↦ scan_sound limit w ps start (i + 1) rounds p pos (rw miss at e)
    ]

-- What a call does to a shared cell that it does not select: nothing.
abbrev pub OthersKept : ℕ → World → World → Type 0
OthersKept p w w' = (q : ℕ) → q ≢ p → w'.cell q ≡ w.cell q

pub take_connection-cell :
    (p : ℕ) (w : World)
    → ((take_connection p w).cell p
        ≡ record (w.cell p) { active_connections = wrapping_add (w.cell p).active_connections 1 })
      × OthersKept p w (take_connection p w)
unfolding take_connection
take_connection-cell p w = (ground arith, λ q h. ground arith)

hand_out_effect :
    (lb lb' : LoadBalancer) (w w' : World) (pick : Option ℕ) (addr : String) (g : ConnectionGuard)
    → hand_out lb w pick ≡ (some (addr, g), lb', w')
    → (pick ≡ some g.counter)
      × (addr ≡ (w.cell g.counter).addr)
      × (lb' ≡ lb)
      × (w' ≡ take_connection g.counter w)
unfolding hand_out
hand_out_effect lb lb' w w' none addr g e = cc
hand_out_effect lb lb' w w' (some p) addr g e = ground arith

length_pos : (ps : List ℕ) → is_empty ps ≡ false → 0 < length ps
length_pos [] e = cc
length_pos (p ∷ ps) e = omega arith

-- A call that returns a backend returns one of the list which was accepting, healthy and below the
-- limit, with its own address. It adds one to the connections of that backend, leaves every other
-- backend as it was, makes no new one, and moves the round-robin counter by one.
pub next_backend_effect :
    (lb lb' : LoadBalancer) (w w' : World) (addr : String) (g : ConnectionGuard)
    → next_backend lb w ≡ (some (addr, g), lb', w')
    → Any (λ p. p ≡ g.counter) lb.backends
      × CanTake lb.connection_limit (w.cell g.counter)
      × (addr ≡ (w.cell g.counter).addr)
      × (w'.cell g.counter ≡ record (w.cell g.counter) {
        active_connections = wrapping_add (w.cell g.counter).active_connections 1;
      })
      × OthersKept g.counter w w'
      × (lb' ≡ record lb { current = wrapping_add lb.current 1 })
      × (w'.next ≡ w.next)
unfolding next_backend take_connection
next_backend_effect lb lb' w w' addr g e = elim (Bool-cases (is_empty lb.backends)) [
  | inl no_backend ↦ absurd (cc (rw no_backend at e))
  | inr some_backend ↦
      let (picked, own_addr, moved, taken) =
        hand_out_effect _ lb' w w' _ addr g (rw some_backend at e) in
      let (hit, listed) =
        scan_sound lb.connection_limit w lb.backends lb.current 0 (length lb.backends) g.counter
          (length_pos lb.backends some_backend) picked in
      (
        listed,
        (selectable_iff lb.connection_limit (w.cell g.counter)).0 hit,
        own_addr,
        rw taken (take_connection-cell g.counter w).0,
        rw taken (take_connection-cell g.counter w).1,
        moved,
        rw taken,
      )
]

hand_out-none :
    (lb lb' : LoadBalancer) (w w' : World) (pick : Option ℕ)
    → hand_out lb w pick ≡ (none, lb', w')
    → (lb' ≡ lb) × (w' ≡ w)
unfolding hand_out
hand_out-none lb lb' w w' none e = ground arith
hand_out-none lb lb' w w' (some p) e = cc

-- A call that returns none changes no backend.
pub next_backend-none_effect :
    (lb lb' : LoadBalancer) (w w' : World)
    → next_backend lb w ≡ (none, lb', w')
    → (lb'.backends ≡ lb.backends) × (w' ≡ w)
unfolding next_backend
next_backend-none_effect lb lb' w w' e = elim (Bool-cases (is_empty lb.backends)) [
  | inl no_backend ↦ ground arith
  | inr some_backend ↦
      let (moved, same) = hand_out-none _ lb' w w' _ (rw some_backend at e) in
      (ap (λ (l : LoadBalancer). l.backends) moved, same)
]

hand_out-limit :
    (lb lb' : LoadBalancer) (w w' : World) (pick : Option ℕ) (r : Option (String × ConnectionGuard))
    → hand_out lb w pick ≡ (r, lb', w')
    → lb'.connection_limit ≡ lb.connection_limit
unfolding hand_out
hand_out-limit lb lb' w w' none r e = ground arith
hand_out-limit lb lb' w w' (some p) r e = ground arith

pub next_backend-limit :
    (lb lb' : LoadBalancer) (w w' : World) (r : Option (String × ConnectionGuard))
    → next_backend lb w ≡ (r, lb', w')
    → lb'.connection_limit ≡ lb.connection_limit
unfolding next_backend
next_backend-limit lb lb' w w' r e = elim (Bool-cases (is_empty lb.backends)) [
  | inl no_backend ↦ ground arith
  | inr some_backend ↦ hand_out-limit _ lb' w w' _ r (rw some_backend at e)
]

-- The two ways in which a call ends.
pub next_backend-cases :
    (lb : LoadBalancer) (w : World)
    → ((p : ℕ) × (next_backend lb w ≡ (
      some ((w.cell p).addr, guard_of p w),
      record lb { current = wrapping_add lb.current 1 },
      take_connection p w,
    )))
      ⊎ ((lb' : LoadBalancer) × (next_backend lb w ≡ (none, lb', w)))
unfolding next_backend hand_out
next_backend-cases lb w = elim (Bool-cases (is_empty lb.backends)) [
  | inl no_backend ↦ inr (lb, rw no_backend refl)
  | inr some_backend ↦
      let pick = scan lb.connection_limit w lb.backends lb.current 0 (length lb.backends) in
      elim (Option-cases pick) [
        | inl none_found ↦
            inr (
              record lb { current = wrapping_add lb.current 1 },
              rw (some_backend, none_found) refl,
            )
        | inr (p, found) ↦ inl (p, rw (some_backend, found) refl)
      ]
]
