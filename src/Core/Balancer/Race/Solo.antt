-- ===== src/Core/Balancer/Race/Solo.antt =====
-- The accesses of one worker of src/core/balancer.rs with nothing in between.
use layer4_lb.Prelude.{
  ℕ, zero, suc, ◌+◌, ◌≡◌, refl, String, true, false, Option, none, some, List, ◌∷◌, arith,
}
use layer4_lb.Core.Balancer.{LoadBalancer, ConnectionGuard, World, Backend, selectable}
use layer4_lb.Core.Balancer.Race.{
  Phase, drain_test, health_test, limit_test, passed, Race, indexed, below_limit, advance,
}

-- So many accesses of one worker, with nothing in between.
unfoldable pub alone : ℕ → Race → Phase → Phase × Race
unfolding advance
alone zero s phase = (phase, s)
alone (suc n) s phase =
    let (phase', lb, w, guards) = advance s phase in
    alone n (record s { lb = lb; world = w; guards = guards }) phase'

-- What the call leaves: its caller keeps the guard that it gets.
abbrev pub returned : Race → Option (String × ConnectionGuard) × LoadBalancer × World → Race
returned s (some (addr, guard), lb, w) = record s { lb = lb; world = w; guards = guard ∷ s.guards }
returned s (none, lb, w) = record s { lb = lb; world = w }

pub selectable-stages :
    (limit : Option ℕ) (b : Backend)
    → b.drain ≡ false
    → b.healthy ≡ true
    → selectable limit b ≡ below_limit limit b.active_connections
unfolding selectable below_limit
selectable-stages none b ready well = rw (ready, well) refl
selectable-stages (some l) b ready well = rw (ready, well) refl

pub skips_draining : (limit : Option ℕ) (b : Backend) → b.drain ≡ true → selectable limit b ≡ false
unfolding selectable
skips_draining limit b draining = rw draining refl

pub skips_ill : (limit : Option ℕ) (b : Backend) → b.healthy ≡ false → selectable limit b ≡ false
unfolding selectable
skips_ill limit b ill = ground arith

-- One access of the worker after another.
module _ (n : ℕ) (s : Race) (ps : List ℕ) (start i rounds : ℕ) where
  abbrev pub here : Backend
  here = s.world.cell (indexed ps start i)

  pub drains :
      here.drain ≡ true
      → alone (suc n) s (drain_test ps start i (suc rounds))
        ≡ alone n s (drain_test ps start (i + 1) rounds)
  unfolding alone
  drains e = rw e refl

  pub is_ready :
      here.drain ≡ false
      → alone (suc n) s (drain_test ps start i (suc rounds))
        ≡ alone n s (health_test ps start i rounds)
  unfolding alone
  is_ready e = rw e refl

  pub is_ill :
      here.healthy ≡ false
      → alone (suc n) s (health_test ps start i rounds)
        ≡ alone n s (drain_test ps start (i + 1) rounds)
  unfolding alone
  is_ill e = rw e refl

  pub is_well :
      here.healthy ≡ true
      → alone (suc n) s (health_test ps start i rounds) ≡ alone n s (limit_test ps start i rounds)
  unfolding alone
  is_well e = rw e refl

  pub is_full :
      below_limit s.lb.connection_limit here.active_connections ≡ false
      → alone (suc n) s (limit_test ps start i rounds)
        ≡ alone n s (drain_test ps start (i + 1) rounds)
  unfolding alone
  is_full e = rw e refl

  pub is_free :
      below_limit s.lb.connection_limit here.active_connections ≡ true
      → alone (suc n) s (limit_test ps start i rounds) ≡ alone n s (passed (indexed ps start i))
  unfolding alone
  is_free e = rw e refl
