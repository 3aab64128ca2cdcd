-- ===== src/Core/Balancer/Accounting.antt =====
-- `active_connections` of src/core/balancer.rs counts the open connections of a backend.
use mathlib.Core.List.{map-append}
use layer4_lb.Prelude.{
  ℕ, ◌+◌, ◌%◌, ◌≤◌, ◌<◌, ◌≡◌, refl, sym, ap, ◌≢◌, List, [], ◌∷◌, ◌++◌, length, arith, Bool, Option,
  none, some, All, All-map_of, All-of_Any, count, count-append, count_fresh, String, inl, inr,
  Bool-cases, ◌==◌, subst,
}
use layer4_lb.Prelude.Word.{usize_mod, wrapping_add}
use layer4_lb.Config.{BackendConfig}
use layer4_lb.Core.Balancer.{
  Backend, LoadBalancer, ConnectionGuard, World, new, update_backends, set_backend_health,
  next_backend, drop_guard,
}
use layer4_lb.Core.Balancer.Effect.{next_backend_effect, next_backend-none_effect}
use layer4_lb.Core.Balancer.Growth.{
  active, Grows, Below, Below-mono, reconcile-Grows, new_backends-Grows, set_backend_health-Grows,
}
use layer4_lb.Core.Balancer.System.{
  System, Step, connect, close, probe, reload, kept, start, Reach, here, later, counters,
}

-- The counter of each backend in use is the number of open guards, as a machine word.
pub record IsAccounted (s : System) : Type 0 where
  pub counted :
      (p : ℕ) → p < s.world.next → active s.world p ≡ count p (counters s.guards) % usize_mod
  pub held : All (Below s.world) (counters s.guards)
  pub listed : All (Below s.world) s.lb.backends

-- A world with no backend yet.
abbrev pub IsEmpty : World → Type 0
IsEmpty w = w.next ≡ 0

pub start-IsAccounted :
    (rule : String) (cs : List BackendConfig) (limit : Option ℕ) (w : World)
    → IsEmpty w
    → IsAccounted (start rule cs limit w)
unfolding new
start-IsAccounted rule cs limit w empty =
    let (g, b) = new_backends-Grows rule cs w in
    record { counted = λ p h. g.zeroed p (omega arith) h; held = tt; listed = b }

grown-IsAccounted :
    (s : System) (lb : LoadBalancer) (w : World)
    → Grows s.world w
    → All (Below w) lb.backends
    → IsAccounted s
    → IsAccounted (record s { lb = lb; world = w })
grown-IsAccounted s lb w g b a = record {
  counted = λ p h. grind (
    arith,
    g.same p,
    g.zeroed p,
    a.counted p,
    count_fresh s.world.next p (counters s.guards) a.held,
  );
  held = Below-mono s.world w (counters s.guards) g a.held;
  listed = b;
}

pub taken_count :
    (s : System) (w : World) (g : ConnectionGuard) (p : ℕ)
    → active w g.counter ≡ wrapping_add (active s.world g.counter) 1
    → (p ≢ g.counter → active w p ≡ active s.world p)
    → active s.world p ≡ count p (counters s.guards) % usize_mod
    → active w p ≡ count p (counters (g ∷ s.guards)) % usize_mod
taken_count s w g p hit miss counted = elim (Bool-cases (g.counter == p)) [
  | inl e ↦
      let same : g.counter ≡ p = ground arith in
      ground (arith, ap (active w) same, ap (active s.world) same)
  | inr e ↦ ground arith
]

same_Below : (w w' : World) (ps : List ℕ) → w'.next ≡ w.next → All (Below w) ps → All (Below w') ps
same_Below w w' ps e h = All-map_of (Below w) (Below w') (λ p b. omega arith) ps h

kept-IsAccounted :
    (s : System) (r : Option (String × ConnectionGuard)) (lb : LoadBalancer) (w : World)
    → next_backend s.lb s.world ≡ (r, lb, w)
    → IsAccounted s
    → IsAccounted (kept s.guards (r, lb, w))
kept-IsAccounted s none lb w e a =
    let (same_list, same_world) = next_backend-none_effect s.lb lb s.world w e in
    record {
      counted =
          subst
            (λ (v : World).
              (p : ℕ) → p < v.next → active v p ≡ count p (counters s.guards) % usize_mod)
            (sym same_world) a.counted;
      held = rw same_world a.held;
      listed = rw (same_world, same_list) a.listed;
    }
kept-IsAccounted s (some (addr, g)) lb w e a =
    let eff = next_backend_effect s.lb lb s.world w addr g e in
    record {
      counted = λ p h.
          taken_count s w g p (ap (λ (b : Backend). b.active_connections) eff.3)
            (λ ne. ap (λ (b : Backend). b.active_connections) (eff.4 p ne))
            (a.counted p (omega (arith, eff.6)));
      held = (
        omega (arith, eff.6, All-of_Any (Below s.world) s.lb.backends g.counter a.listed eff.0),
        same_Below s.world w (counters s.guards) eff.6 a.held,
      );
      listed = rw eff.5 (same_Below s.world w s.lb.backends eff.6 a.listed);
    }

pub count-counters :
    (p : ℕ) (xs ys : List ConnectionGuard)
    → count p (counters (xs ++ ys)) ≡ count p (counters xs) + count p (counters ys)
count-counters p xs ys = rw (map-append, count-append)

pub dropped_count :
    (g : ConnectionGuard) (p : ℕ) (w : World) (before after : List ConnectionGuard)
    → active w p ≡ count p (counters (before ++ g ∷ after)) % usize_mod
    → active (drop_guard g w) p ≡ count p (counters (before ++ after)) % usize_mod
unfolding drop_guard
dropped_count g p w before after h = elim (Bool-cases (g.counter == p)) [
  | inl e ↦
      let same : g.counter ≡ p = ground arith in
      ground (
        arith,
        ap (active w) same,
        count-counters p before (g ∷ after),
        count-counters p before after,
      )
  | inr e ↦ ground (arith, count-counters p before (g ∷ after), count-counters p before after)
]

held_after_drop :
    (P : ℕ → Type 0) (before : List ConnectionGuard) (g : ConnectionGuard)
    (after : List ConnectionGuard)
    → All P (counters (before ++ g ∷ after))
    → All P (counters (before ++ after))
held_after_drop P [] g after h = h.1
held_after_drop P (x ∷ before) g after h = (h.0, held_after_drop P before g after h.1)

close-IsAccounted :
    (s : System) (before : List ConnectionGuard) (g : ConnectionGuard)
    (after : List ConnectionGuard)
    → s.guards ≡ before ++ g ∷ after
    → IsAccounted s
    → IsAccounted (record s { world = drop_guard g s.world; guards = before ++ after })
unfolding drop_guard
close-IsAccounted s before g after e a = record {
  counted = λ p h. dropped_count g p s.world before after (rw (← e) (a.counted p h));
  held = held_after_drop (Below s.world) before g after (rw (← e) a.held);
  listed = a.listed;
}

probe-IsAccounted :
    (s : System) (addr : String) (healthy : Bool)
    → IsAccounted s
    → IsAccounted (record s { world = set_backend_health s.lb addr healthy s.world })
probe-IsAccounted s addr healthy a =
    grown-IsAccounted s s.lb _ (set_backend_health-Grows s.lb addr healthy s.world)
      (Below-mono _ _ s.lb.backends (set_backend_health-Grows s.lb addr healthy s.world) a.listed) a

reload-IsAccounted :
    (s : System) (cs : List BackendConfig)
    → IsAccounted s
    → IsAccounted (record s {
      lb = (update_backends s.lb cs s.world).0;
      world = (update_backends s.lb cs s.world).1;
    })
unfolding update_backends
reload-IsAccounted s cs a =
    let (g, b) = reconcile-Grows s.lb.rule_name s.lb.backends cs s.world a.listed in
    grown-IsAccounted s _ _ g b a

pub Step-IsAccounted : {s t : System} → Step s t → IsAccounted s → IsAccounted t
Step-IsAccounted (connect s) a =
    let (r, lb, w) = next_backend s.lb s.world in kept-IsAccounted s r lb w refl a
Step-IsAccounted (close s before g after e) a = close-IsAccounted s before g after e a
Step-IsAccounted (probe s addr healthy) a = probe-IsAccounted s addr healthy a
Step-IsAccounted (reload s cs) a = reload-IsAccounted s cs a

pub Reach-IsAccounted : {s t : System} → IsAccounted s → Reach s t → IsAccounted t
Reach-IsAccounted a here = a
Reach-IsAccounted a (later r st) = Step-IsAccounted st (Reach-IsAccounted a r)

count-le-length : (p : ℕ) (gs : List ConnectionGuard) → count p (counters gs) ≤ length gs
count-le-length p [] = omega arith
count-le-length p (g ∷ gs) = ground (arith, count-le-length p gs)

-- From an empty start, after any sequence of connections, ended connections, health reports and
-- reloads, the counter of every backend is the number of its open connections, while fewer than
-- 2^64 connections are open.
pub active-eq-open :
    (rule : String) (cs : List BackendConfig) (limit : Option ℕ) (w : World) (s : System) (p : ℕ)
    → IsEmpty w
    → Reach (start rule cs limit w) s
    → length s.guards < usize_mod
    → p < s.world.next
    → active s.world p ≡ count p (counters s.guards)
active-eq-open rule cs limit w s p empty r few h =
    let a = Reach-IsAccounted (start-IsAccounted rule cs limit w empty) r in
    omega (arith, a.counted p h, count-le-length p s.guards)
