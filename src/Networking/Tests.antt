-- ===== src/Networking/Tests.antt =====
-- Access control and the PROXY header on a few addresses.
use layer4_lb.Prelude.{
  ◌≡◌, ◌↔◌, refl, true, none, some, [], ◌∷◌, ◌++◌, arith, Any, ◌⊎◌, if◌then◌else◌, str_eq,
}
use layer4_lb.Networking.Addr.{IpAddr, SocketAddr, ip_eq, ip_eq_iff}
use layer4_lb.Networking.Acl.{IpNetLib, AccessControl, new, parse_cidrs, is_allowed}
use layer4_lb.Networking.Acl.Rules.{Covers, is_allowed_iff, unreadable_allow_list_is_open}
use layer4_lb.Networking.ProxyProtocol.{create_v2_header}
use layer4_lb.Networking.ProxyProtocol.Receiver.{
  receive, proxied, unspecified, receive-create_v2_header, mixed_families_corrupt_payload,
}

-- Networks of one address, and a parser that reads two strings.
abbrev hosts : IpNetLib
hosts = record {
  IpNet = IpAddr;
  contains = ip_eq;
  net_from_str = λ s. if str_eq s "10.0.0.2/32" then some (IpAddr.v4 0x0A000002) else none;
  ip_from_str = λ s. if str_eq s "10.0.0.1" then some (IpAddr.v4 0x0A000001) else none;
  net_from_ip = λ a. a;
  contains-net_from_ip = ip_eq_iff;
}

abbrev one : IpAddr
one = IpAddr.v4 0x0A000001

abbrev two : IpAddr
two = IpAddr.v4 0x0A000002

abbrev office : AccessControl IpAddr
office = record { allow_list = one ∷ two ∷ []; deny_list = two ∷ [] }

is_allowed_iff_example : (is_allowed hosts office two ≡ true) ↔ (
    (¬ Any (Covers hosts two) office.deny_list)
    × ((office.allow_list ≡ []) ⊎ Any (Covers hosts two) office.allow_list))
is_allowed_iff_example = is_allowed_iff hosts office two

-- The host part of the only entry is not a number.
unreadable_allow_list_is_open_example :
    (is_allowed hosts (new hosts (some ("10.0.0.x" ∷ [])) none) two ≡ true)
    ↔ (¬ Any (Covers hosts two) (parse_cidrs hosts none))
unreadable_allow_list_is_open_example =
    unreadable_allow_list_is_open hosts ("10.0.0.x" ∷ []) none two ((refl, refl), tt)

abbrev client : SocketAddr
client = SocketAddr.v4 0xC0A80101 12345

abbrev server : SocketAddr
server = SocketAddr.v4 0x0A000001 80

receive-create_v2_header_example :
    receive (create_v2_header client server ++ 71 ∷ 69 ∷ 84 ∷ [])
    ≡ some (proxied client server, 71 ∷ 69 ∷ 84 ∷ [])
receive-create_v2_header_example =
    receive-create_v2_header client server (71 ∷ 69 ∷ 84 ∷ []) (omega arith, omega arith)
      (omega arith, omega arith) tt

mixed_families_corrupt_payload_example :
    receive (create_v2_header client (SocketAddr.v6 1 80) ++ 71 ∷ 69 ∷ 84 ∷ [])
    ≡ some (unspecified, 0 ∷ 71 ∷ 69 ∷ 84 ∷ [])
mixed_families_corrupt_payload_example =
    mixed_families_corrupt_payload client (SocketAddr.v6 1 80) (71 ∷ 69 ∷ 84 ∷ []) (λ e. e)
