-- ===== src/Core/Balancer/Reload.antt =====
-- What `update_backends` of src/core/balancer.rs keeps of the backends that it finds again.
use layer4_lb.Prelude.{
  ℕ, ◌≤◌, ◌<◌, ◌≡◌, refl, ◌∙◌, inl, inr, String, none, some, List, [], ◌∷◌, arith, All, All-map_of,
  Option-cases, str_eq_iff, true, find-eq-some,
}
use layer4_lb.Config.{BackendConfig}
use layer4_lb.Core.Balancer.{
  Backend, LoadBalancer, World, new_backend, find_backend, keep_or_create, reconcile,
  update_backends, addr_of,
}
use layer4_lb.Core.Balancer.Growth.{Below, keep_or_create-Grows}

-- Everything of a backend but its drain flag.
pub record SameButDrain (b b' : Backend) : Type 0 where
  pub rule_name : b'.rule_name ≡ b.rule_name
  pub addr : b'.addr ≡ b.addr
  pub active_connections : b'.active_connections ≡ b.active_connections
  pub healthy : b'.healthy ≡ b.healthy

-- The cells in use keep everything but the drain flag, and none is given up.
pub record KeepsState (w w' : World) : Type 0 where
  pub next_le : w.next ≤ w'.next
  pub cells : (p : ℕ) → p < w.next → SameButDrain (w.cell p) (w'.cell p)

pub KeepsState-refl : (w : World) → KeepsState w w
KeepsState-refl w = record {
  next_le = omega arith;
  cells =
      λ p h. record { rule_name = refl; addr = refl; active_connections = refl; healthy = refl };
}

SameButDrain-trans : (a b c : Backend) → SameButDrain a b → SameButDrain b c → SameButDrain a c
SameButDrain-trans a b c h k = record {
  rule_name = k.rule_name ∙ h.rule_name;
  addr = k.addr ∙ h.addr;
  active_connections = k.active_connections ∙ h.active_connections;
  healthy = k.healthy ∙ h.healthy;
}

pub KeepsState-trans : (u v w : World) → KeepsState u v → KeepsState v w → KeepsState u w
KeepsState-trans u v w h k = record {
  next_le = omega (arith, h.next_le, k.next_le);
  cells = λ p lt.
      SameButDrain-trans (u.cell p) (v.cell p) (w.cell p) (h.cells p lt)
        (k.cells p (omega (arith, h.next_le)));
}

new_backend-KeepsState :
    (rule : String) (c : BackendConfig) (w : World) → KeepsState w (new_backend rule c w).1
unfolding new_backend
new_backend-KeepsState rule c w = record {
  next_le = omega arith;
  cells = λ p h. record {
    rule_name = ground arith;
    addr = ground arith;
    active_connections = ground arith;
    healthy = ground arith;
  };
}

keep_or_create-KeepsState :
    (rule : String) (ps : List ℕ) (c : BackendConfig) (w : World)
    → KeepsState w (keep_or_create rule ps c w).1
unfolding keep_or_create
keep_or_create-KeepsState rule ps c w = elim (Option-cases (find_backend w ps (addr_of c))) [
  | inl e ↦ rw (e, keep_or_create) (new_backend-KeepsState rule c w)
  | inr (p, e) ↦
      rw (e, keep_or_create)
        (record {
          next_le = omega arith;
          cells = λ q h. record {
            rule_name = ground arith;
            addr = ground arith;
            active_connections = ground arith;
            healthy = ground arith;
          };
        })
]

-- What a configuration entry becomes: the backend of the old list that is found by its address, or
-- a new backend that is healthy and has no connection. In both cases it has the entry's address.
pub data Carried (ps : List ℕ) (w w' : World) (c : BackendConfig) (q : ℕ) : Type 0 where
  found :
      find_backend w ps (addr_of c) ≡ some q → (w'.cell q).addr ≡ addr_of c → Carried ps w w' c q
  created :
      find_backend w ps (addr_of c) ≡ none
      → w.next ≤ q
      → (w'.cell q).addr ≡ addr_of c
      → (w'.cell q).healthy ≡ true
      → (w'.cell q).active_connections ≡ 0
      → Carried ps w w' c q

-- Entry by entry, in order.
abbrev pub AllCarried : List ℕ → World → World → List BackendConfig → List ℕ → Type 0
AllCarried ps w w' [] [] = Unit {0}
AllCarried ps w w' (c ∷ cs) (q ∷ qs) = Carried ps w w' c q × AllCarried ps w w' cs qs
AllCarried ps w w' [] (q ∷ qs) = ⊥
AllCarried ps w w' (c ∷ cs) [] = ⊥

-- The search reads addresses only, so it finds the same in a world that keeps the state.
find_backend-kept :
    (w w' : World) (ps : List ℕ) (addr : String)
    → KeepsState w w'
    → All (Below w) ps
    → find_backend w' ps addr ≡ find_backend w ps addr
find_backend-kept w w' [] addr k h = refl
find_backend-kept w w' (p ∷ ps) addr k h =
    let same = (k.cells p h.0).addr in rw (same, find_backend-kept w w' ps addr k h.1)

Carried-later :
    (ps : List ℕ) (w w₁ w₂ : World) (c : BackendConfig) (q : ℕ)
    → KeepsState w₁ w₂
    → Below w₁ q
    → Carried ps w w₁ c q
    → Carried ps w w₂ c q
Carried-later ps w w₁ w₂ c q k b (found e a) = found e ((k.cells q b).addr ∙ a)
Carried-later ps w w₁ w₂ c q k b (created e le a h n) =
    let same = k.cells q b in
    created e le (same.addr ∙ a) (same.healthy ∙ h) (same.active_connections ∙ n)

new_backend-Carried :
    (rule : String) (ps : List ℕ) (c : BackendConfig) (w₀ w : World)
    → w₀.next ≤ w.next
    → find_backend w₀ ps (addr_of c) ≡ none
    → Carried ps w₀ (new_backend rule c w).1 c (new_backend rule c w).0
unfolding new_backend
new_backend-Carried rule ps c w₀ w le e = created e le (ground arith) (ground arith) (ground arith)

keep_or_create-Carried :
    (rule : String) (ps : List ℕ) (c : BackendConfig) (w₀ w : World)
    → KeepsState w₀ w
    → All (Below w₀) ps
    → let (q, w') = keep_or_create rule ps c w in Carried ps w₀ w' c q
unfolding keep_or_create
keep_or_create-Carried rule ps c w₀ w k b = elim (Option-cases (find_backend w ps (addr_of c))) [
  | inl e ↦
      rw (e, keep_or_create)
        (new_backend-Carried rule ps c w₀ w k.next_le
          (rw (find_backend-kept w₀ w ps (addr_of c) k b) at e))
  | inr (p, e) ↦
      let own : (w.cell p).addr ≡ addr_of c =
        (str_eq_iff (w.cell p).addr (addr_of c)).0 (find-eq-some _ ps p e) in
      rw (e, keep_or_create)
        (found (rw (find_backend-kept w₀ w ps (addr_of c) k b) at e) (ground arith))
]

reconcile-Carried :
    (rule : String) (ps : List ℕ) (cs : List BackendConfig) (w₀ w : World)
    → KeepsState w₀ w
    → All (Below w₀) ps
    → let (qs, w') = reconcile rule ps cs w in AllCarried ps w₀ w' cs qs × KeepsState w w'
unfolding reconcile
reconcile-Carried rule ps [] w₀ w k b = (tt, KeepsState-refl w)
reconcile-Carried rule ps (c ∷ cs) w₀ w k b =
    let (q, w₁) = keep_or_create rule ps c w in
    let (qs, w₂) = reconcile rule ps cs w₁ in
    let k₁ = keep_or_create-KeepsState rule ps c w in
    let (rest, k₂) = reconcile-Carried rule ps cs w₀ w₁ (KeepsState-trans w₀ w w₁ k k₁) b in
    let own =
      (keep_or_create-Grows rule ps c w
        (All-map_of (Below w₀) (Below w) (λ p lt. omega (arith, k.next_le)) ps b)).1 in
    (
      (Carried-later ps w₀ w₁ w₂ c q k₂ own (keep_or_create-Carried rule ps c w₀ w k b), rest),
      KeepsState-trans w w₁ w₂ k₁ k₂,
    )

-- A reload makes the list of backends the new configuration's, entry by entry and in its order. An
-- entry whose address the old list has is that same backend, and any other is a new backend that
-- is healthy and has no connection. Every backend that was in use, on the new list or not, keeps
-- its address, its open connections and its health: only drain flags change.
pub update_backends_lem :
    (lb : LoadBalancer) (cs : List BackendConfig) (w : World)
    → All (Below w) lb.backends
    → let (lb', w') = update_backends lb cs w in
      AllCarried lb.backends w w' cs lb'.backends × KeepsState w w'
unfolding update_backends
update_backends_lem lb cs w b =
    reconcile-Carried lb.rule_name lb.backends cs w w (KeepsState-refl w) b

reconcile-KeepsState :
    (rule : String) (ps : List ℕ) (cs : List BackendConfig) (w : World)
    → KeepsState w (reconcile rule ps cs w).1
unfolding reconcile
reconcile-KeepsState rule ps [] w = KeepsState-refl w
reconcile-KeepsState rule ps (c ∷ cs) w =
    let w₁ = (keep_or_create rule ps c w).1 in
    KeepsState-trans w w₁ (reconcile rule ps cs w₁).1 (keep_or_create-KeepsState rule ps c w)
      (reconcile-KeepsState rule ps cs w₁)

pub update_backends-KeepsState :
    (lb : LoadBalancer) (cs : List BackendConfig) (w : World)
    → KeepsState w (update_backends lb cs w).1
unfolding update_backends
update_backends-KeepsState lb cs w = reconcile-KeepsState lb.rule_name lb.backends cs w
