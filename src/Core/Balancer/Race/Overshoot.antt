-- ===== src/Core/Balancer/Race/Overshoot.antt =====
-- By how much concurrent calls of `next_backend` can exceed the connection limit.
use layer4_lb.Prelude.{
  ℕ, ◌+◌, ◌-◌, ◌≤◌, ◌<◌, ◌≡◌, refl, ap, ◌∙◌, some, List, [], ◌∷◌, ◌++◌, All, length, count, arith,
}
use layer4_lb.Prelude.Word.{usize_mod}
use layer4_lb.Config.{BackendConfig}
use layer4_lb.Core.Balancer.{LoadBalancer, ConnectionGuard, World, update_backends, drop_guard}
use layer4_lb.Core.Balancer.Growth.{active, set_backend_health-Grows}
use layer4_lb.Core.Balancer.System.{counters}
use layer4_lb.Core.Balancer.Accounting.{count-counters, dropped_count}
use layer4_lb.Core.Balancer.Reload.{update_backends-KeepsState}
use layer4_lb.Core.Balancer.Race.{
  Phase, idle, Race, Move, work, close, probe, reload, Runs, here, later,
}
use layer4_lb.Core.Balancer.Race.Workers.{takes, takers, IsBounded, advance-IsBounded}

-- An ended connection counts one less at its backend.
closed :
    (l k p : ℕ) (s : Race) (before : List ConnectionGuard) (g : ConnectionGuard)
    (after : List ConnectionGuard)
    → s.guards ≡ before ++ g ∷ after
    → IsBounded l k p s
    → IsBounded l k p (record s { world = drop_guard g s.world; guards = before ++ after })
unfolding drop_guard
closed l k p s before g after split b = record {
  used = b.used;
  limited = b.limited;
  staff = b.staff;
  counted = dropped_count g p s.world before after (rw split at b.counted);
  bounded =
      let room : count p (counters (before ++ g ∷ after)) + takers p s.workers ≤ l + (k - 1) =
        rw split at b.bounded in
      ground (arith, room, count-counters p before (g ∷ after), count-counters p before after);
}

update_backends-limit :
    (lb : LoadBalancer) (cs : List BackendConfig) (w : World)
    → (update_backends lb cs w).0.connection_limit ≡ lb.connection_limit
unfolding update_backends
update_backends-limit lb cs w = refl

Move-IsBounded :
    {s t : Race} (l k p : ℕ) → l + k < usize_mod → Move s t → IsBounded l k p s → IsBounded l k p t
Move-IsBounded l k p small (work s before phase after split) b =
    advance-IsBounded l k p s before after phase small split b
Move-IsBounded l k p small (close s before g after split) b = closed l k p s before g after split b
Move-IsBounded l k p small (probe s addr healthy) b =
    let grown = set_backend_health-Grows s.lb addr healthy s.world in
    record {
      used = omega (arith, b.used, grown.next_le);
      limited = b.limited;
      staff = b.staff;
      counted = grown.same p b.used ∙ b.counted;
      bounded = b.bounded;
    }
Move-IsBounded l k p small (reload s cs) b =
    let kept = update_backends-KeepsState s.lb cs s.world in
    record {
      used = omega (arith, b.used, kept.next_le);
      limited = update_backends-limit s.lb cs s.world ∙ b.limited;
      staff = b.staff;
      counted = (kept.cells p b.used).active_connections ∙ b.counted;
      bounded = b.bounded;
    }

-- Workers between calls, and a backend in use that counts its open connections, which are within
-- the limit.
pub record IsQuiet (l k p : ℕ) (s : Race) : Type 0 where
  pub used : p < s.world.next
  pub limited : s.lb.connection_limit ≡ some l
  pub staff : length s.workers ≡ k
  pub resting : All (λ x. x ≡ idle) s.workers
  pub counted : active s.world p ≡ count p (counters s.guards)
  pub within : count p (counters s.guards) ≤ l

takers-resting : (p : ℕ) (xs : List Phase) → All (λ x. x ≡ idle) xs → takers p xs ≡ 0
takers-resting p [] h = refl
takers-resting p (x ∷ xs) h = omega (arith, ap (takes p) h.0, takers-resting p xs h.1)

Runs-IsBounded :
    {s t : Race} (l k p : ℕ) → l + k < usize_mod → Runs s t → IsBounded l k p s → IsBounded l k p t
Runs-IsBounded l k p small here b = b
Runs-IsBounded l k p small (later r m) b =
    Move-IsBounded l k p small m (Runs-IsBounded l k p small r b)

-- Let `k` workers be between calls, and let a backend in use count its open connections, at most the
-- limit. Then no interleaving of the workers' accesses with each other, with ended connections,
-- health reports and reloads takes its open connections beyond the limit by more than `k - 1`, and
-- its counter is their number throughout, if the limit and `k` are below 2^64 together.
pub overshoot-le-workers :
    (l k p : ℕ) (s t : Race)
    → l + k < usize_mod
    → IsQuiet l k p s
    → Runs s t
    → (count p (counters t.guards) ≤ l + (k - 1)) × (active t.world p ≡ count p (counters t.guards))
overshoot-le-workers l k p s t small q r =
    let b = Runs-IsBounded l k p small r (record {
      used = q.used;
      limited = q.limited;
      staff = q.staff;
      counted = ground (arith, q.counted, q.within);
      bounded = omega (arith, q.within, takers-resting p s.workers q.resting);
    }) in
    (omega (arith, b.bounded), omega (arith, b.counted, b.bounded))
