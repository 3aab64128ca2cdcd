-- ===== src/Networking/Acl.antt =====
-- src/networking/acl.rs: `AccessControl`. The crate `ipnet` and the parser of addresses are a
-- parameter.
pub mod Rules
use layer4_lb.Prelude.{
  String, ◌≡◌, ◌↔◌, Bool, true, false, Option, none, some, List, [], ◌∷◌, is_empty, if◌then◌else◌,
}
use layer4_lb.Networking.Addr.{IpAddr}

-- What `acl.rs` uses of `ipnet`, and of `str::parse::<IpAddr>`. `IpNet::from(ip)` is documented as
-- the network of that one address, /32 or /128.
pub record IpNetLib : Type 1 where
  pub IpNet : Type 0
  pub contains : IpNet → IpAddr → Bool
  pub net_from_str : String → Option IpNet
  pub ip_from_str : String → Option IpAddr
  pub net_from_ip : IpAddr → IpNet
  pub contains-net_from_ip : (a b : IpAddr) → (contains (net_from_ip a) b ≡ true) ↔ (a ≡ b)

pub record AccessControl (IpNet : Type 0) : Type 0 where
  pub allow_list : List IpNet
  pub deny_list : List IpNet

module _ (lib : IpNetLib) where
  open lib use {IpNet, contains, net_from_str, ip_from_str, net_from_ip}

  parse_entry : String → Option IpNet
  parse_entry s = elim (net_from_str s) [
    | some net ↦ some net
    | none ↦ elim (ip_from_str s) [ some addr ↦ some (net_from_ip addr) | none ↦ none ]
  ]

  parse_strs : List String → List IpNet
  unfolding parse_entry
  parse_strs [] = []
  parse_strs (s ∷ strs) =
      let rest = parse_strs strs in elim (parse_entry s) [ some net ↦ net ∷ rest | none ↦ rest ]

  unfoldable pub parse_cidrs : Option (List String) → List IpNet
  unfolding parse_strs
  parse_cidrs (some strs) = parse_strs strs
  parse_cidrs none = []

  unfoldable pub new : Option (List String) → Option (List String) → AccessControl IpNet
  unfolding parse_cidrs
  new allow_strs deny_strs = record {
    allow_list = parse_cidrs allow_strs;
    deny_list = parse_cidrs deny_strs;
  }

  -- The loop over the allow list, with the implicit denial behind it.
  allowed_by : List IpNet → IpAddr → Bool
  allowed_by [] addr = false
  allowed_by (net ∷ nets) addr = if contains net addr then true else allowed_by nets addr

  -- The loop over the deny list, and what follows it.
  denied_or : List IpNet → IpAddr → Bool → Bool
  denied_or [] addr rest = rest
  denied_or (net ∷ nets) addr rest = if contains net addr then false else denied_or nets addr rest

  unfoldable pub is_allowed : AccessControl IpNet → IpAddr → Bool
  unfolding allowed_by denied_or
  is_allowed acl addr =
      denied_or acl.deny_list addr
        (if is_empty acl.allow_list then true else allowed_by acl.allow_list addr)
