-- ===== src/Config.antt =====
-- src/config/mod.rs: the configuration types and `Config::validate`. Reading the YAML text into
-- these types is serde's work and is not modelled, but for the defaults that the source gives.
pub mod Validate
mod Tests
use Prim.Native.String.{◌++◌ as str_append}
use layer4_lb.Prelude.{
  ℕ, zero, suc, ◌+◌, ◌/◌, ◌%◌, String, Bool, false, Option, List, [], ◌∷◌, Result, ok, err, ltb,
  ◌≡◌, refl, if◌then◌else◌, get_or, is_empty, str_eq,
}

pub data ConfigError : Type 0 where
  missing_field : String → ConfigError
  invalid_value : String → ConfigError

pub record LogConfig : Type 0 where
  pub level : String

pub record ClusterConfig : Type 0 where
  pub enabled : Bool
  pub bind_addr : String
  pub peers : List String

pub data BackendConfig : Type 0 where
  simple : String → BackendConfig
  detailed : String → Bool → BackendConfig

abbrev pub default_drain : Bool
default_drain = false

pub record HealthCheckConfig : Type 0 where
  pub enabled : Bool
  pub interval_ms : ℕ
  pub timeout_ms : ℕ
  pub protocol : String
  pub path : Option String

pub record TlsConfig : Type 0 where
  pub enabled : Bool
  pub cert : String
  pub key : String

pub record RateLimitConfig : Type 0 where
  pub enabled : Bool
  pub requests_per_second : ℕ
  pub burst : ℕ

pub record ClientBandwidthConfig : Type 0 where
  pub upload_per_sec : ℕ
  pub download_per_sec : ℕ

pub record BackendBandwidthConfig : Type 0 where
  pub upload_per_sec : ℕ
  pub download_per_sec : ℕ

pub record BandwidthLimitConfig : Type 0 where
  pub enabled : Bool
  pub client : Option ClientBandwidthConfig
  pub backend : Option BackendBandwidthConfig

pub record BackendTlsConfig : Type 0 where
  pub enabled : Bool
  pub ignore_verify : Bool

pub record LbRule : Type 0 where
  pub name : String
  pub listen : String
  pub backends : List BackendConfig
  pub protocol : Option String
  pub proxy_protocol : Bool
  pub tls : Option TlsConfig
  pub backend_tls : Option BackendTlsConfig
  pub rate_limit : Option RateLimitConfig
  pub bandwidth_limit : Option BandwidthLimitConfig
  pub backend_connection_limit : Option ℕ
  pub health_check : Option HealthCheckConfig
  pub allow_list : Option (List String)
  pub deny_list : Option (List String)

pub record Config : Type 0 where
  pub rules : List LbRule
  pub cluster : Option ClusterConfig
  pub log : Option LogConfig

-- `{}` of a number in `format!`. A `usize` has at most 20 digits.
abbrev digit : ℕ → String
digit n = get_or ("0" ∷ "1" ∷ "2" ∷ "3" ∷ "4" ∷ "5" ∷ "6" ∷ "7" ∷ "8" ∷ "9" ∷ []) n "0"

decimal_fuel : ℕ → ℕ → String
decimal_fuel zero n = ""
decimal_fuel (suc f) n =
    let rest = decimal_fuel f (n / 10) in
    if ltb n 10 then digit n else str_append rest (digit (n % 10))

decimal : ℕ → String
unfolding decimal_fuel
decimal n = decimal_fuel 20 n

pub no_backends_message : String → ℕ → String
unfolding decimal
no_backends_message name i =
    str_append "Rule '"
      (str_append name (str_append "' (index " (str_append (decimal i) ") has no backends")))

pub no_listen_message : String → String
no_listen_message name = str_append "Rule '" (str_append name "' has no listen address")

-- The loop over `self.rules.iter().enumerate()`, from index `i` on.
pub validate_rules : ℕ → List LbRule → Result (Unit {0}) ConfigError
validate_rules i [] = ok tt
validate_rules i (rule ∷ rules) =
    if is_empty rule.backends
    then err (invalid_value (no_backends_message rule.name i))
    else if str_eq rule.listen ""
    then err (invalid_value (no_listen_message rule.name))
    else validate_rules (i + 1) rules

unfoldable pub validate : Config → Result (Unit {0}) ConfigError
unfolding validate_rules
validate c =
    if is_empty c.rules then err (missing_field "rules are empty") else validate_rules 0 c.rules

decimal_test : decimal 1024 ≡ "1024"
unfolding decimal
decimal_test = refl
