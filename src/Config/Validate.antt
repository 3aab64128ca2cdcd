-- ===== src/Config/Validate.antt =====
-- What `Config::validate` of src/config/mod.rs accepts, and which rule it blames.
use layer4_lb.Prelude.{
  ℕ, ◌+◌, ◌≡◌, refl, ◌≢◌, ◌↔◌, List, [], ◌∷◌, ◌++◌, ok, err, arith, All, length, str_eq_iff,
  is_empty, if◌then◌else◌,
}
use layer4_lb.Config.{
  ConfigError, invalid_value, LbRule, Config, validate_rules, validate, no_backends_message,
  no_listen_message,
}

abbrev pub HasBackendsAndListen : LbRule → Type 0
HasBackendsAndListen r = (r.backends ≢ []) × (r.listen ≢ "")

validate_rules-ok_iff :
    (i : ℕ) (rules : List LbRule)
    → (validate_rules i rules ≡ ok tt) ↔ All HasBackendsAndListen rules
unfolding validate_rules
validate_rules-ok_iff i [] = (λ _. tt, λ _. refl)
validate_rules-ok_iff i (r ∷ rules) =
    ground (arith, str_eq_iff r.listen "", validate_rules-ok_iff (i + 1) rules)

-- `validate` accepts a configuration exactly when it has a rule, and every rule has a backend and a
-- listen address that is not empty.
pub validate-ok_iff :
    (c : Config) → (validate c ≡ ok tt) ↔ ((c.rules ≢ []) × All HasBackendsAndListen c.rules)
unfolding validate
validate-ok_iff c = ground (arith, validate_rules-ok_iff 0 c.rules)

-- The error that a faulty rule at index `i` gets.
abbrev pub fault_of : ℕ → LbRule → ConfigError
fault_of i r =
    if is_empty r.backends
    then invalid_value (no_backends_message r.name i)
    else invalid_value (no_listen_message r.name)

validate_rules-first_fault :
    (i : ℕ) (good : List LbRule) (r : LbRule) (rest : List LbRule)
    → All HasBackendsAndListen good
    → ¬ HasBackendsAndListen r
    → validate_rules i (good ++ r ∷ rest) ≡ err (fault_of (i + length good) r)
unfolding validate_rules
validate_rules-first_fault i [] r rest h bad = ground (arith, str_eq_iff r.listen "")
validate_rules-first_fault i (g ∷ good) r rest h bad =
    ground (arith, str_eq_iff g.listen "", validate_rules-first_fault (i + 1) good r rest h.1 bad)

-- When the rules before `r` are all well formed and `r` has no backend or an empty listen address,
-- `validate` fails with the error of `r`: the missing backend, with the name and the index of `r`,
-- before the missing address.
pub validate-first_fault :
    (c : Config) (good : List LbRule) (r : LbRule) (rest : List LbRule)
    → c.rules ≡ good ++ r ∷ rest
    → All HasBackendsAndListen good
    → ¬ HasBackendsAndListen r
    → validate c ≡ err (fault_of (length good) r)
unfolding validate
validate-first_fault c good r rest e h bad =
    ground (arith, validate_rules-first_fault 0 good r rest h bad)
