-- ===== src/Core/Balancer/Race/Alone.antt =====
-- A worker of src/core/balancer.rs that nobody disturbs does what the whole call does.
use layer4_lb.Prelude.{
  ℕ, zero, suc, ◌+◌, ◌*◌, ◌≤◌, ◌≡◌, inl, inr, refl, ap, sym, ◌∙◌, String, true, false, Option, none,
  some, List, arith, length, is_empty, Bool-cases, ◌==◌, ==_iff,
}
use layer4_lb.Prelude.Word.{wrapping_add}
use layer4_lb.Core.Balancer.{
  LoadBalancer, ConnectionGuard, World, selectable, scan, next_backend, hand_out, take_connection,
  count_connection, raise_gauge,
}
use layer4_lb.Core.Balancer.Race.{Phase, idle, drain_test, passed, Race, indexed, below_limit}
use layer4_lb.Core.Balancer.Race.Solo.{
  alone, returned, selectable-stages, skips_draining, skips_ill, drains, is_ready, is_ill, is_well,
  is_full, is_free,
}

-- The increment, the gauge and the log line are the connection that `hand_out` takes.
takes_it :
    (s : Race) (p : ℕ) → alone 3 s (passed p) ≡ (idle, returned s (hand_out s.lb s.world (some p)))
unfolding alone hand_out take_connection count_connection raise_gauge
takes_it s p = let here : p == p ≡ true = (==_iff p p).1 refl in rw here refl

-- What the search finds, and the connection that is then taken.
module _ (s : Race) (ps : List ℕ) (start i rounds : ℕ) where
  abbrev found : Option ℕ → Phase × Race
  found o = (idle, returned s (hand_out s.lb s.world o))

  abbrev searched : ℕ → ℕ → Phase × Race
  searched i rounds = found (scan s.lb.connection_limit s.world ps start i rounds)

  hit :
      selectable s.lb.connection_limit (s.world.cell (indexed ps start i)) ≡ true
      → alone 3 s (passed (indexed ps start i)) ≡ searched i (suc rounds)
  unfolding scan
  hit e = takes_it s (indexed ps start i) ∙ sym (ap found (scan_hit e))
    where
      scan_hit :
          selectable s.lb.connection_limit (s.world.cell (indexed ps start i)) ≡ true
          → scan s.lb.connection_limit s.world ps start i (suc rounds) ≡ some (indexed ps start i)
      scan_hit e = rw e refl

  miss :
      selectable s.lb.connection_limit (s.world.cell (indexed ps start i)) ≡ false
      → searched (i + 1) rounds ≡ searched i (suc rounds)
  unfolding scan
  miss e = sym (ap found (scan_miss e))
    where
      scan_miss :
          selectable s.lb.connection_limit (s.world.cell (indexed ps start i)) ≡ false
          → scan s.lb.connection_limit s.world ps start i (suc rounds)
            ≡ scan s.lb.connection_limit s.world ps start (i + 1) rounds
      scan_miss e = rw e refl

-- The rounds of the search, from any of them on.
alone-scan :
    (s : Race) (ps : List ℕ) (start i rounds : ℕ)
    → (n : ℕ) × ((n ≤ 3 * rounds + 3)
        × (alone n s (drain_test ps start i rounds) ≡ searched s ps start i rounds i rounds))
unfolding alone scan hand_out
alone-scan s ps start i zero = (1, (omega arith, refl))
alone-scan s ps start i (suc r) =
    let limit = s.lb.connection_limit in
    let b = s.world.cell (indexed ps start i) in
    let (n, (few, rest)) = alone-scan s ps start (i + 1) r in
    elim (Bool-cases b.drain) [
      | inl draining ↦ (
        suc n,
        (
          omega (arith, few),
          drains n s ps start i r draining
              ∙ rest
              ∙ miss s ps start i r (skips_draining limit b draining),
        ),
      )
      | inr ready ↦ elim (Bool-cases b.healthy) [
        | inr ill ↦ (
          suc (suc n),
          (
            omega (arith, few),
            is_ready (suc n) s ps start i r ready
                ∙ is_ill n s ps start i r ill
                ∙ rest
                ∙ miss s ps start i r (skips_ill limit b ill),
          ),
        )
        | inl well ↦ elim (Bool-cases (below_limit limit b.active_connections)) [
          | inr full ↦ (
            suc (suc (suc n)),
            (
              omega (arith, few),
              is_ready (suc (suc n)) s ps start i r ready
                  ∙ is_well (suc n) s ps start i r well
                  ∙ is_full n s ps start i r full
                  ∙ rest
                  ∙ miss s ps start i r (selectable-stages limit b ready well ∙ full),
            ),
          )
          | inl free ↦ (
            6,
            (
              omega arith,
              is_ready 5 s ps start i r ready
                  ∙ is_well 4 s ps start i r well
                  ∙ is_free 3 s ps start i r free
                  ∙ hit s ps start i r (selectable-stages limit b ready well ∙ free),
            ),
          )
        ]
      ]
    ]

returned-lb :
    (s : Race) (lb : LoadBalancer) (r : Option (String × ConnectionGuard) × LoadBalancer × World)
    → returned (record s { lb = lb }) r ≡ returned s r
returned-lb s lb (some (addr, guard), lb', w) = refl
returned-lb s lb (none, lb', w) = refl

starts :
    (n : ℕ) (s : Race)
    → is_empty s.lb.backends ≡ false
    → alone (suc (suc n)) s idle
      ≡ alone n
          (record s { lb = record s.lb { current = wrapping_add s.lb.current 1 } })
          (drain_test s.lb.backends s.lb.current 0 (length s.lb.backends))
unfolding alone
starts n s e = rw e refl

called :
    (s : Race)
    → is_empty s.lb.backends ≡ false
    → next_backend s.lb s.world
      ≡ hand_out
          (record s.lb { current = wrapping_add s.lb.current 1 })
          s.world
          (scan s.lb.connection_limit s.world s.lb.backends s.lb.current 0 (length s.lb.backends))
unfolding next_backend
called s e = rw e refl

-- A call whose accesses nothing comes between does to the state what `next_backend` does as one
-- step, within three accesses for each backend of the list and five more.
pub alone-next_backend :
    (s : Race)
    → (n : ℕ) × ((n ≤ 3 * length s.lb.backends + 5)
        × (alone n s idle ≡ (idle, returned s (next_backend s.lb s.world))))
unfolding alone next_backend
alone-next_backend s = elim (Bool-cases (is_empty s.lb.backends)) [
  | inl no_backend ↦ (2, (omega arith, rw no_backend refl))
  | inr some_backend ↦
      let lb : LoadBalancer = record s.lb { current = wrapping_add s.lb.current 1 } in
      let (n, (few, rest)) =
        alone-scan (record s { lb = lb }) s.lb.backends s.lb.current 0 (length s.lb.backends) in
      let outcome =
        hand_out lb s.world (
          scan s.lb.connection_limit s.world s.lb.backends s.lb.current 0 (length s.lb.backends)) in
      (
        suc (suc n),
        (
          omega (arith, few),
          starts n s some_backend
              ∙ rest
              ∙ ap (λ (t : Race). (idle, t)) (returned-lb s lb outcome)
              ∙ ap (λ r. (idle, returned s r)) (sym (called s some_backend)),
        ),
      )
]
