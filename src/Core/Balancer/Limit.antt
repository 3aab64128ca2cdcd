-- ===== src/Core/Balancer/Limit.antt =====
-- The connection limit of src/core/balancer.rs, when each call of `next_backend` is one step.
use layer4_lb.Prelude.{
  ℕ, ◌≤◌, ◌<◌, ◌≡◌, refl, ap, ◌∙◌, List, ◌∷◌, ◌++◌, arith, Option, none, some, count, String, inl,
  inr, ◌==◌, Bool-cases, All-of_Any,
}
use layer4_lb.Prelude.Word.{usize_mod}
use layer4_lb.Config.{BackendConfig}
use layer4_lb.Core.Balancer.{
  LoadBalancer, ConnectionGuard, World, new, update_backends, next_backend,
}
use layer4_lb.Core.Balancer.Effect.{next_backend_effect, next_backend-limit}
use layer4_lb.Core.Balancer.Growth.{active, Below}
use layer4_lb.Core.Balancer.System.{
  System, Step, connect, close, probe, reload, kept, start, Reach, here, later, counters,
}
use layer4_lb.Core.Balancer.Accounting.{
  IsAccounted, IsEmpty, Step-IsAccounted, start-IsAccounted, count-counters,
}

pub record IsWithin (l : ℕ) (s : System) : Type 0 where
  pub limited : s.lb.connection_limit ≡ some l
  pub within : (p : ℕ) → count p (counters s.guards) ≤ l
  pub accounted : IsAccounted s

connect-within :
    (l : ℕ) (s : System) (r : Option (String × ConnectionGuard)) (lb : LoadBalancer) (w : World)
    → l < usize_mod
    → next_backend s.lb s.world ≡ (r, lb, w)
    → IsWithin l s
    → (p : ℕ) → count p (counters (kept s.guards (r, lb, w)).guards) ≤ l
connect-within l s none lb w small e h p = h.within p
connect-within l s (some (addr, g)) lb w small e h p =
    let eff = next_backend_effect s.lb lb s.world w addr g e in
    let free : active s.world g.counter < l = eff.1.2 l h.limited in
    let known =
      h.accounted.counted g.counter
        (All-of_Any (Below s.world) s.lb.backends g.counter h.accounted.listed eff.0) in
    elim (Bool-cases (g.counter == p)) [
      | inl e ↦
          let same : g.counter ≡ p = ground arith in
          ground (arith, ap (λ q. count q (counters s.guards)) same, h.within p, known, free)
      | inr e ↦ ground (arith, h.within p)
    ]

close-within :
    (l p : ℕ) (before : List ConnectionGuard) (g : ConnectionGuard) (after : List ConnectionGuard)
    → count p (counters (before ++ g ∷ after)) ≤ l
    → count p (counters (before ++ after)) ≤ l
close-within l p before g after h =
    ground (arith, count-counters p before (g ∷ after), count-counters p before after)

kept-limit :
    (s : System) (r : Option (String × ConnectionGuard)) (lb : LoadBalancer) (w : World)
    → next_backend s.lb s.world ≡ (r, lb, w)
    → (kept s.guards (r, lb, w)).lb.connection_limit ≡ s.lb.connection_limit
kept-limit s none lb w e = next_backend-limit s.lb lb s.world w none e
kept-limit s (some x) lb w e = next_backend-limit s.lb lb s.world w (some x) e

Step-IsWithin : {l : ℕ} {s t : System} → l < usize_mod → Step s t → IsWithin l s → IsWithin l t
Step-IsWithin {l} small (connect s) h =
    let (r, lb, w) = next_backend s.lb s.world in
    record {
      limited = kept-limit s r lb w refl ∙ h.limited;
      within = connect-within l s r lb w small refl h;
      accounted = Step-IsAccounted (connect s) h.accounted;
    }
Step-IsWithin {l} small (close s before g after e) h = record {
  limited = h.limited;
  within = λ p. close-within l p before g after (rw (← e) (h.within p));
  accounted = Step-IsAccounted (close s before g after e) h.accounted;
}
Step-IsWithin small (probe s addr healthy) h = record {
  limited = h.limited;
  within = h.within;
  accounted = Step-IsAccounted (probe s addr healthy) h.accounted;
}
Step-IsWithin small (reload s cs) h = record {
  limited = unfold update_backends in h.limited;
  within = h.within;
  accounted = Step-IsAccounted (reload s cs) h.accounted;
}

Reach-IsWithin : {l : ℕ} {s t : System} → l < usize_mod → IsWithin l s → Reach s t → IsWithin l t
Reach-IsWithin small h here = h
Reach-IsWithin small h (later r st) = Step-IsWithin small st (Reach-IsWithin small h r)

-- From an empty start with a connection limit, after any sequence of whole calls no backend has
-- more connections than the limit, neither open nor counted.
pub active-le-limit :
    (rule : String) (cs : List BackendConfig) (l : ℕ) (w : World) (s : System) (p : ℕ)
    → l < usize_mod
    → IsEmpty w
    → Reach (start rule cs (some l) w) s
    → p < s.world.next
    → (count p (counters s.guards) ≤ l) × (active s.world p ≤ l)
active-le-limit rule cs l w s p small empty r h =
    let start_within : IsWithin l (start rule cs (some l) w) = record {
      limited = unfold new in refl;
      within = λ q. omega arith;
      accounted = start-IsAccounted rule cs (some l) w empty;
    } in
    let v = Reach-IsWithin small start_within r in
    (v.within p, omega (arith, v.within p, v.accounted.counted p h))
