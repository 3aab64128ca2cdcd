-- ===== src/Networking/ProxyProtocol/Receiver.antt =====
-- The receiving side of PROXY protocol version 2, as its specification describes it, against the
-- header that src/networking/proxy_protocol.rs sends.
use layer4_lb.Prelude.{
  ℕ, ◌+◌, ◌*◌, ◌^◌, ◌<◌, ◌≡◌, ap, ◌∙◌, Option, none, some, List, [], ◌∷◌, ◌++◌, length, take, drop,
  take-append_exact, drop-append_exact, take_all, length-append, ltb, ◌==◌, if◌then◌else◌, arith,
}
use layer4_lb.Networking.Addr.{SocketAddr, be_bytes, from_be, length-be_bytes, from_be-be_bytes}
use layer4_lb.Networking.ProxyProtocol.{v2_sig, create_v2_header}

-- What a header says of the connection that it opens.
pub data Announced : Type 0 where
  proxied : SocketAddr → SocketAddr → Announced
  unspecified : Announced
  own_connection : Announced

strip : List ℕ → List ℕ → Option (List ℕ)
strip [] bytes = some bytes
strip (x ∷ xs) [] = none
strip (x ∷ xs) (b ∷ bytes) = if x == b then strip xs bytes else none

-- Two addresses of `w` bytes and two ports, from a block that may go on behind them.
addresses : ℕ → (ℕ → ℕ → SocketAddr) → List ℕ → Announced
addresses w make block =
    let behind_src = drop w block in
    let ports = drop w behind_src in
    proxied (make (from_be (take w block)) (from_be (take 2 ports)))
      (make (from_be (take w behind_src)) (from_be (take 2 (drop 2 ports))))

-- A family other than TCP over IPv4 or IPv6, or a block too short for it, announces nothing.
announced : ℕ → List ℕ → Announced
unfolding addresses
announced family block =
    if family == 0x11
    then (if ltb (length block) 12 then unspecified else addresses 4 SocketAddr.v4 block)
    else if family == 0x21
    then (if ltb (length block) 36 then unspecified else addresses 16 SocketAddr.v6 block)
    else unspecified

-- Version 2 and its two commands; the length field says where the payload begins.
body : ℕ → ℕ → ℕ → List ℕ → Option (Announced × List ℕ)
body ver_cmd family len bytes =
    if ltb (length bytes) len
    then none
    else if ver_cmd == 0x21
    then some (announced family (take len bytes), drop len bytes)
    else if ver_cmd == 0x20
    then some (own_connection, drop len bytes)
    else none

fixed_part : Option (List ℕ) → Option (Announced × List ℕ)
fixed_part (some (ver_cmd ∷ family ∷ hi ∷ lo ∷ bytes)) = body ver_cmd family (hi * 256 + lo) bytes
fixed_part _ = none

pub receive : List ℕ → Option (Announced × List ℕ)
unfolding strip fixed_part body announced
receive bytes = fixed_part (strip v2_sig bytes)

module _ (w a b p q : ℕ) where
  block : List ℕ
  block = be_bytes w a ++ (be_bytes w b ++ (be_bytes 2 p ++ be_bytes 2 q))

  length-block : length block ≡ w + w + 4
  unfolding block
  length-block = omega (
    arith,
    length-append {0} (be_bytes w a) (be_bytes w b ++ (be_bytes 2 p ++ be_bytes 2 q)),
    length-append {0} (be_bytes w b) (be_bytes 2 p ++ be_bytes 2 q),
    length-append {0} (be_bytes 2 p) (be_bytes 2 q),
    length-be_bytes w a,
    length-be_bytes w b,
    length-be_bytes 2 p,
    length-be_bytes 2 q,
  )

  addresses-block :
      (make : ℕ → ℕ → SocketAddr)
      → a < 256 ^ w
      → b < 256 ^ w
      → p < 256 ^ 2
      → q < 256 ^ 2
      → addresses w make block ≡ proxied (make a p) (make b q)
  unfolding block addresses
  addresses-block make ha hb hp hq = rw (
    drop-append_exact w (be_bytes w a) _ (length-be_bytes w a),
    drop-append_exact w (be_bytes w b) _ (length-be_bytes w b),
    drop-append_exact 2 (be_bytes 2 p) _ (length-be_bytes 2 p),
    take-append_exact w (be_bytes w a) _ (length-be_bytes w a),
    take-append_exact w (be_bytes w b) _ (length-be_bytes w b),
    take-append_exact 2 (be_bytes 2 p) _ (length-be_bytes 2 p),
    take_all 2 (be_bytes 2 q) (omega (arith, length-be_bytes 2 q)),
    from_be-be_bytes w a ha,
    from_be-be_bytes w b hb,
    from_be-be_bytes 2 p hp,
    from_be-be_bytes 2 q hq,
  )

-- An address and a port that fit their fields.
abbrev pub InRange : SocketAddr → Type 0
InRange (SocketAddr.v4 a p) = (a < 2 ^ 32) × (p < 2 ^ 16)
InRange (SocketAddr.v6 a p) = (a < 2 ^ 128) × (p < 2 ^ 16)

abbrev pub IsSameFamily : SocketAddr → SocketAddr → Type 0
IsSameFamily (SocketAddr.v4 _ _) (SocketAddr.v4 _ _) = Unit {0}
IsSameFamily (SocketAddr.v6 _ _) (SocketAddr.v6 _ _) = Unit {0}
IsSameFamily _ _ = ⊥

receive-block :
    (family len : ℕ) (bytes payload : List ℕ)
    → length bytes ≡ len
    → body 0x21 family len (bytes ++ payload) ≡ some (announced family bytes, payload)
unfolding body
receive-block family len bytes payload h =
    rw (take-append_exact len bytes payload h, drop-append_exact len bytes payload h)
      (ground (arith, length-append {0} bytes payload))

module _ (a b p q : ℕ) (hp : p < 2 ^ 16) (hq : q < 2 ^ 16) where
  announced-v4 :
      a < 2 ^ 32
      → b < 2 ^ 32
      → announced 0x11 (block 4 a b p q) ≡ proxied (SocketAddr.v4 a p) (SocketAddr.v4 b q)
  unfolding announced
  announced-v4 ha hb =
      ground (arith, length-block 4 a b p q, addresses-block 4 a b p q SocketAddr.v4 ha hb hp hq)

  announced-v6 :
      a < 2 ^ 128
      → b < 2 ^ 128
      → announced 0x21 (block 16 a b p q) ≡ proxied (SocketAddr.v6 a p) (SocketAddr.v6 b q)
  unfolding announced
  announced-v6 ha hb =
      ground (arith, length-block 16 a b p q, addresses-block 16 a b p q SocketAddr.v6 ha hb hp hq)

-- When both addresses are of one family, a receiver reads back the source, the destination and the
-- two ports from the header, and takes what follows the header as the payload.
pub receive-create_v2_header :
    (src dst : SocketAddr) (payload : List ℕ)
    → InRange src
    → InRange dst
    → IsSameFamily src dst
    → receive (create_v2_header src dst ++ payload) ≡ some (proxied src dst, payload)
unfolding receive create_v2_header block be_bytes
receive-create_v2_header (SocketAddr.v4 a p) (SocketAddr.v4 b q) payload h k f =
    receive-block 0x11 12 (block 4 a b p q) payload (length-block 4 a b p q)
    ∙ ap (λ x. some (x, payload)) (announced-v4 a b p q h.1 k.1 h.0 k.0)
receive-create_v2_header (SocketAddr.v6 a p) (SocketAddr.v6 b q) payload h k f =
    receive-block 0x21 36 (block 16 a b p q) payload (length-block 16 a b p q)
    ∙ ap (λ x. some (x, payload)) (announced-v6 a b p q h.1 k.1 h.0 k.0)
receive-create_v2_header (SocketAddr.v4 a p) (SocketAddr.v6 b q) payload h k f = elim f [ ]
receive-create_v2_header (SocketAddr.v6 a p) (SocketAddr.v4 b q) payload h k f = elim f [ ]

-- When the two addresses are of different families, a receiver learns no address and takes the
-- last byte of the header for the first byte of the payload.
pub mixed_families_corrupt_payload :
    (src dst : SocketAddr) (payload : List ℕ)
    → ¬ IsSameFamily src dst
    → receive (create_v2_header src dst ++ payload) ≡ some (unspecified, 0 ∷ payload)
unfolding receive create_v2_header be_bytes
mixed_families_corrupt_payload (SocketAddr.v4 a p) (SocketAddr.v6 b q) payload f = ground arith
mixed_families_corrupt_payload (SocketAddr.v6 a p) (SocketAddr.v4 b q) payload f = ground arith
mixed_families_corrupt_payload (SocketAddr.v4 a p) (SocketAddr.v4 b q) payload f = absurd (f tt)
mixed_families_corrupt_payload (SocketAddr.v6 a p) (SocketAddr.v6 b q) payload f = absurd (f tt)
