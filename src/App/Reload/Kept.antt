-- ===== src/App/Reload/Kept.antt =====
-- What a reload of src/main.rs leaves alone.
use layer4_lb.Prelude.{
  ℕ, suc, ◌≡◌, ◌≢◌, refl, ◌∙◌, String, some, List, [], ◌∷◌, Result, ok, err, str_eq_iff, All, arith,
  inl, inr, Option-cases,
}
use layer4_lb.Config.{LbRule, Config}
use layer4_lb.Core.Balancer.{new}
use layer4_lb.Core.Balancer.Reload.{
  KeepsState, KeepsState-refl, KeepsState-trans, update_backends-KeepsState,
}
use layer4_lb.App.Reload.{
  Process, insert_lb, get_lb, start_rule, reload_rule, reload_rules, ReloadError, reload,
}

-- The rules that are known, the number of balancers and what connections rely on are kept.
pub record KeptByReload (s s' : Process) : Type 0 where
  pub lbs : s'.lbs ≡ s.lbs
  pub next : s'.next ≡ s.next
  pub backends : KeepsState s.world s'.world

KeptByReload-refl : (s : Process) → KeptByReload s s
KeptByReload-refl s = record { lbs = refl; next = refl; backends = KeepsState-refl s.world }

KeptByReload-trans : (s t u : Process) → KeptByReload s t → KeptByReload t u → KeptByReload s u
KeptByReload-trans s t u h k = record {
  lbs = k.lbs ∙ h.lbs;
  next = k.next ∙ h.next;
  backends = KeepsState-trans s.world t.world u.world h.backends k.backends;
}

reload_rule-KeptByReload : (rule : LbRule) (s : Process) → KeptByReload s (reload_rule rule s)
unfolding reload_rule
reload_rule-KeptByReload rule s = elim (Option-cases (get_lb rule.name s.lbs)) [
  | inl unknown ↦ rw (unknown, reload_rule) (KeptByReload-refl s)
  | inr (p, known) ↦
      rw (known, reload_rule)
        (record {
          lbs = refl;
          next = refl;
          backends = update_backends-KeepsState (s.balancer p) rule.backends s.world;
        })
]

reload_rules-KeptByReload :
    (rules : List LbRule) (s : Process) → KeptByReload s (reload_rules rules s)
unfolding reload_rules
reload_rules-KeptByReload [] s = KeptByReload-refl s
reload_rules-KeptByReload (rule ∷ rules) s =
    let t = reload_rule rule s in
    KeptByReload-trans s t (reload_rules rules t) (reload_rule-KeptByReload rule s)
      (reload_rules-KeptByReload rules t)

-- A reload, whatever the file holds or whether it can be read, starts and forgets no rule, and
-- every backend that was in use keeps its address, its open connections and its health.
pub reload-KeptByReload :
    (read : Result Config ReloadError) (s : Process) → KeptByReload s (reload read s)
unfolding reload
reload-KeptByReload (ok c) s = reload_rules-KeptByReload c.rules s
reload-KeptByReload (err e) s = KeptByReload-refl s

reload_rule-other :
    (rule : LbRule) (s : Process) (i : ℕ)
    → get_lb rule.name s.lbs ≢ some i
    → (reload_rule rule s).balancer i ≡ s.balancer i
unfolding reload_rule
reload_rule-other rule s i apart = elim (Option-cases (get_lb rule.name s.lbs)) [
  | inl unknown ↦ rw (unknown, reload_rule) refl
  | inr (p, known) ↦ rw (known, reload_rule) (ground arith)
]

-- A reload changes no balancer that none of the new configuration's rules names.
pub reload_rules-other :
    (rules : List LbRule) (s : Process) (i : ℕ)
    → All (λ rule. get_lb rule.name s.lbs ≢ some i) rules
    → (reload_rules rules s).balancer i ≡ s.balancer i
unfolding reload_rules
reload_rules-other [] s i apart = refl
reload_rules-other (rule ∷ rules) s i apart =
    let t = reload_rule rule s in
    let same = (reload_rule-KeptByReload rule s).lbs in
    reload_rules-other rules t i (rw same apart.1) ∙ reload_rule-other rule s i apart.0

-- Two starts under one name leave one entry, for the second balancer.
one_entry :
    (first second : LbRule) (s : Process)
    → s.lbs ≡ []
    → second.name ≡ first.name
    → (start_rule second (start_rule first s)).lbs ≡ (first.name, suc s.next) ∷ []
unfolding start_rule insert_lb
one_entry first second s empty same =
    rw (empty, same, (str_eq_iff first.name first.name).1 refl) refl

entry_apart :
    (rules : List LbRule) (name : String) (p : ℕ)
    → All (λ rule. get_lb rule.name ((name, suc p) ∷ []) ≢ some p) rules
unfolding get_lb
entry_apart [] name p = tt
entry_apart (rule ∷ rules) name p = (λ e. ground arith, entry_apart rules name p)

-- One reload after the other, whatever each reads.
unfoldable pub reloads : List (Result Config ReloadError) → Process → Process
unfolding reload
reloads [] s = s
reloads (read ∷ reads) s = reloads reads (reload read s)

-- What no reload reaches stays as it is.
reload-apart :
    (read : Result Config ReloadError) (s : Process) (name : String) (p : ℕ)
    → s.lbs ≡ (name, suc p) ∷ []
    → (reload read s).balancer p ≡ s.balancer p
unfolding reload
reload-apart (ok c) s name p e = reload_rules-other c.rules s p (rw e (entry_apart c.rules name p))
reload-apart (err x) s name p e = refl

reloads-apart :
    (reads : List (Result Config ReloadError)) (s : Process) (name : String) (p : ℕ)
    → s.lbs ≡ (name, suc p) ∷ []
    → (reloads reads s).balancer p ≡ s.balancer p
unfolding reloads
reloads-apart [] s name p e = refl
reloads-apart (read ∷ reads) s name p e =
    reloads-apart reads (reload read s) name p ((reload-KeptByReload read s).lbs ∙ e)
    ∙ reload-apart read s name p e

-- The balancer of a rule that has just been started, and of the one before it.
started_balancer :
    (first second : LbRule) (s : Process)
    → (start_rule second (start_rule first s)).balancer s.next
      ≡ (new first.name first.backends first.backend_connection_limit s.world).0
unfolding start_rule
started_balancer first second s = ground arith

-- When two rules of one name are what is started on an empty process, no later reload reaches the
-- balancer of the first, however many there are and whatever they read: its list of backends, its
-- rotation and its limit are those of its start.
pub reload_misses_shadowed :
    (first second : LbRule) (reads : List (Result Config ReloadError)) (s : Process)
    → s.lbs ≡ []
    → second.name ≡ first.name
    → (reloads reads (start_rule second (start_rule first s))).balancer s.next
      ≡ (new first.name first.backends first.backend_connection_limit s.world).0
reload_misses_shadowed first second reads s empty same =
    reloads-apart reads (start_rule second (start_rule first s)) first.name s.next
      (one_entry first second s empty same)
    ∙ started_balancer first second s
