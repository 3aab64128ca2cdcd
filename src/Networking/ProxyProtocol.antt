-- ===== src/Networking/ProxyProtocol.antt =====
-- src/networking/proxy_protocol.rs: the header of PROXY protocol version 2.
pub mod Receiver
use layer4_lb.Prelude.{ℕ, ◌≡◌, refl, List, [], ◌∷◌, ◌++◌}
use layer4_lb.Networking.Addr.{SocketAddr, be_bytes}

abbrev pub v2_sig : List ℕ
v2_sig = 0x0D ∷ 0x0A ∷ 0x0D ∷ 0x0A ∷ 0x00 ∷ 0x0D ∷ 0x0A ∷ 0x51 ∷ 0x55 ∷ 0x49 ∷ 0x54 ∷ 0x0A ∷ []

-- The address block, `put_slice` and `put_u16` in the source's order.
abbrev address_block : ℕ → ℕ → ℕ → ℕ → ℕ → List ℕ
address_block w src_ip src_port dst_ip dst_port =
    be_bytes w src_ip ++ (be_bytes w dst_ip ++ (be_bytes 2 src_port ++ be_bytes 2 dst_port))

-- What the `match` on the two addresses appends.
family_and_addresses : SocketAddr → SocketAddr → List ℕ
family_and_addresses (SocketAddr.v4 src sp) (SocketAddr.v4 dst dp) =
    0x11 ∷ (be_bytes 2 12 ++ address_block 4 src sp dst dp)
family_and_addresses (SocketAddr.v6 src sp) (SocketAddr.v6 dst dp) =
    0x21 ∷ (be_bytes 2 36 ++ address_block 16 src sp dst dp)
family_and_addresses _ _ = 0x20 ∷ 0x00 ∷ be_bytes 2 0

unfoldable pub create_v2_header : SocketAddr → SocketAddr → List ℕ
unfolding family_and_addresses
create_v2_header src dst = v2_sig ++ 0x21 ∷ family_and_addresses src dst

-- `test_v2_header_ipv4`.
header_test :
    create_v2_header (SocketAddr.v4 0xC0A80101 12345) (SocketAddr.v4 0x0A000001 80)
    ≡ v2_sig
      ++ (0x21 ∷ 0x11 ∷ 0x00 ∷ 0x0C ∷ 192 ∷ 168 ∷ 1 ∷ 1 ∷ 10 ∷ 0 ∷ 0 ∷ 1 ∷ 0x30 ∷ 0x39 ∷ 0x00 ∷ 0x50
          ∷ [])
unfolding create_v2_header be_bytes
header_test = refl
