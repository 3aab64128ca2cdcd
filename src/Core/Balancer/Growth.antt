-- ===== src/Core/Balancer/Growth.antt =====
-- How `new` and `update_backends` of src/core/balancer.rs extend the heap: no count changes, and a
-- new backend starts at none.
use layer4_lb.Prelude.{
  ℕ, ◌≤◌, ◌<◌, ◌≡◌, refl, ◌∙◌, List, [], ◌∷◌, arith, Bool, All, All-map_of, All-of_Any, String, inl,
  inr, Option-cases, find-Any,
}
use layer4_lb.Config.{BackendConfig}
use layer4_lb.Core.Balancer.{
  LoadBalancer, World, new_backend, new_backends, find_backend, keep_or_create, reconcile,
  set_backend_health, addr_of,
}

abbrev pub active : World → ℕ → ℕ
active w p = (w.cell p).active_connections

-- Later worlds keep the counts of the cells in use and start new cells at 0.
pub record Grows (w w' : World) : Type 0 where
  pub next_le : w.next ≤ w'.next
  pub same : (p : ℕ) → p < w.next → active w' p ≡ active w p
  pub zeroed : (p : ℕ) → w.next ≤ p → p < w'.next → active w' p ≡ 0

Grows-refl : (w : World) → Grows w w
Grows-refl w = record {
  next_le = omega arith;
  same = λ p h. refl;
  zeroed = λ p h k. absurd (omega arith);
}

Grows-trans : (u v w : World) → Grows u v → Grows v w → Grows u w
Grows-trans u v w g h = record {
  next_le = omega (arith, g.next_le, h.next_le);
  same = λ p lt. h.same p (omega (arith, g.next_le)) ∙ g.same p lt;
  zeroed = λ p le lt. grind (arith, g.zeroed p, h.zeroed p, h.same p);
}

abbrev pub Below : World → ℕ → Type 0
Below w p = p < w.next

new_backend-Grows :
    (rule : String) (c : BackendConfig) (w : World)
    → Grows w (new_backend rule c w).1 × Below (new_backend rule c w).1 (new_backend rule c w).0
unfolding new_backend
new_backend-Grows rule c w =
    let (p, w') = new_backend rule c w in
    (
      record { next_le = omega arith; same = λ q h. ground arith; zeroed = λ q h k. ground arith },
      omega arith,
    )

pub Below-mono : (w w' : World) (ps : List ℕ) → Grows w w' → All (Below w) ps → All (Below w') ps
Below-mono w w' ps g h = All-map_of (Below w) (Below w') (λ p b. omega (arith, g.next_le)) ps h

pub keep_or_create-Grows :
    (rule : String) (ps : List ℕ) (c : BackendConfig) (w : World)
    → All (Below w) ps
    → let (p, w') = keep_or_create rule ps c w in Grows w w' × Below w' p
unfolding keep_or_create
keep_or_create-Grows rule ps c w h = elim (Option-cases (find_backend w ps (addr_of c))) [
  | inl e ↦ rw (e, keep_or_create) (new_backend-Grows rule c w)
  | inr (p, e) ↦
      rw (e, keep_or_create)
        (
          record {
            next_le = omega arith;
            same = λ q lt. ground arith;
            zeroed = λ q le lt. absurd (omega arith);
          },
          All-of_Any (Below w) ps p h (find-Any _ ps p e),
        )
]

pub reconcile-Grows :
    (rule : String) (ps : List ℕ) (cs : List BackendConfig) (w : World)
    → All (Below w) ps
    → let (qs, w') = reconcile rule ps cs w in Grows w w' × All (Below w') qs
unfolding reconcile
reconcile-Grows rule ps [] w h = (Grows-refl w, tt)
reconcile-Grows rule ps (c ∷ cs) w h =
    let (p, w₁) = keep_or_create rule ps c w in
    let (g₁, b₁) = keep_or_create-Grows rule ps c w h in
    let (qs, w₂) = reconcile rule ps cs w₁ in
    let (g₂, b₂) = reconcile-Grows rule ps cs w₁ (Below-mono w w₁ ps g₁ h) in
    (Grows-trans w w₁ w₂ g₁ g₂, (omega (arith, b₁, g₂.next_le), b₂))

pub new_backends-Grows :
    (rule : String) (cs : List BackendConfig) (w : World)
    → let (qs, w') = new_backends rule cs w in Grows w w' × All (Below w') qs
unfolding new_backends
new_backends-Grows rule [] w = (Grows-refl w, tt)
new_backends-Grows rule (c ∷ cs) w =
    let (p, w₁) = new_backend rule c w in
    let (g₁, b₁) = new_backend-Grows rule c w in
    let (qs, w₂) = new_backends rule cs w₁ in
    let (g₂, b₂) = new_backends-Grows rule cs w₁ in
    (Grows-trans w w₁ w₂ g₁ g₂, (omega (arith, b₁, g₂.next_le), b₂))

pub set_backend_health-Grows :
    (lb : LoadBalancer) (addr : String) (healthy : Bool) (w : World)
    → Grows w (set_backend_health lb addr healthy w)
unfolding set_backend_health
set_backend_health-Grows lb addr healthy w = record {
  next_le = ground arith;
  same = λ p h. ground arith;
  zeroed = λ p h k. absurd (ground arith);
}
