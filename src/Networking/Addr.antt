-- ===== src/Networking/Addr.antt =====
-- The addresses of `std::net`, by their bits, and their bytes in network order.
use native.Mathlib.Nat.{pow-suc}
use mathlib.Core.List.{foldl, foldl-append}
use layer4_lb.Prelude.{
  ℕ, zero, suc, ◌+◌, ◌*◌, ◌/◌, ◌%◌, ◌^◌, ◌<◌, ◌≡◌, refl, ◌↔◌, Bool, true, false, List, [], ◌∷◌,
  ◌++◌, length, length-append, arith, ◌==◌,
}

-- The 32 bits of an `Ipv4Addr`, the 128 bits of an `Ipv6Addr`.
pub data IpAddr : Type 0 where
  v4 : ℕ → IpAddr
  v6 : ℕ → IpAddr

-- The address and the port; the flow label and the scope of `SocketAddrV6` are read nowhere.
pub data SocketAddr : Type 0 where
  v4 : ℕ → ℕ → SocketAddr
  v6 : ℕ → ℕ → SocketAddr

abbrev pub ip : SocketAddr → IpAddr
ip (SocketAddr.v4 a p) = IpAddr.v4 a
ip (SocketAddr.v6 a p) = IpAddr.v6 a

-- The derived `PartialEq` of `IpAddr`.
abbrev pub ip_eq : IpAddr → IpAddr → Bool
ip_eq (IpAddr.v4 a) (IpAddr.v4 b) = a == b
ip_eq (IpAddr.v6 a) (IpAddr.v6 b) = a == b
ip_eq (IpAddr.v4 a) (IpAddr.v6 b) = false
ip_eq (IpAddr.v6 a) (IpAddr.v4 b) = false

pub ip_eq_iff : (a b : IpAddr) → (ip_eq a b ≡ true) ↔ (a ≡ b)
ip_eq_iff (IpAddr.v4 a) (IpAddr.v4 b) = ground arith
ip_eq_iff (IpAddr.v6 a) (IpAddr.v6 b) = ground arith
ip_eq_iff (IpAddr.v4 a) (IpAddr.v6 b) = ground arith
ip_eq_iff (IpAddr.v6 a) (IpAddr.v4 b) = ground arith

-- The `w` low bytes of a number, the highest first: `octets()`, and `put_u16` at two bytes.
unfoldable pub be_bytes : ℕ → ℕ → List ℕ
be_bytes zero n = []
be_bytes (suc w) n = be_bytes w (n / 256) ++ (n % 256) ∷ []

-- The number that bytes in network order stand for.
unfoldable pub from_be : List ℕ → ℕ
from_be = foldl (λ acc b. acc * 256 + b) 0

pub length-be_bytes : (w n : ℕ) → length (be_bytes w n) ≡ w
unfolding be_bytes
length-be_bytes zero n = refl
length-be_bytes (suc w) n =
    omega (
      arith,
      length-append {0} (be_bytes w (n / 256)) ((n % 256) ∷ []),
      length-be_bytes w (n / 256),
    )

pub from_be-be_bytes : (w n : ℕ) → n < 256 ^ w → from_be (be_bytes w n) ≡ n
unfolding from_be be_bytes
from_be-be_bytes zero n h = ground arith
from_be-be_bytes (suc w) n h =
    rw foldl-append (omega (arith, from_be-be_bytes w (n / 256) (omega (arith, pow-suc 256 w))))
