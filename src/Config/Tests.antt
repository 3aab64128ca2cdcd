-- ===== src/Config/Tests.antt =====
-- `Config::validate` of src/config/mod.rs on a configuration of two rules.
use layer4_lb.Prelude.{
  ◌≡◌, ◌≢◌, ◌↔◌, refl, false, String, none, some, List, [], ◌∷◌, ok, err, All, arith, length,
  str_eq_iff,
}
use layer4_lb.Config.{LbRule, BackendConfig, simple, Config, validate}
use layer4_lb.Config.Validate.{
  HasBackendsAndListen, fault_of, validate-ok_iff, validate-first_fault,
}

abbrev rule : String → String → List BackendConfig → LbRule
rule name listen backends = record {
  name = name;
  listen = listen;
  backends = backends;
  protocol = none;
  proxy_protocol = false;
  tls = none;
  backend_tls = none;
  rate_limit = none;
  bandwidth_limit = none;
  backend_connection_limit = some 100;
  health_check = none;
  allow_list = none;
  deny_list = none;
}

abbrev web : LbRule
web = rule "web" "0.0.0.0:80" (simple "10.0.0.1:8080" ∷ [])

abbrev bare : LbRule
bare = rule "bare" "0.0.0.0:81" []

abbrev two_rules : Config
two_rules = record { rules = web ∷ bare ∷ []; cluster = none; log = none }

validate-ok_iff_example :
    (validate two_rules ≡ ok tt)
    ↔ ((two_rules.rules ≢ []) × All HasBackendsAndListen two_rules.rules)
validate-ok_iff_example = validate-ok_iff two_rules

not_empty : web.listen ≢ ""
not_empty e = ground (arith, (str_eq_iff "0.0.0.0:80" "").1 e)

web-HasBackendsAndListen : HasBackendsAndListen web
web-HasBackendsAndListen = (ground arith, not_empty)

bare_faulty : ¬ HasBackendsAndListen bare
bare_faulty h = h.0 refl

validate-first_fault_example : validate two_rules ≡ err (fault_of (length (web ∷ [])) bare)
validate-first_fault_example =
    validate-first_fault two_rules (web ∷ []) bare [] refl (web-HasBackendsAndListen, tt)
      bare_faulty
