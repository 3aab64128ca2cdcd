-- ===== src/App/Host.antt =====
-- What src/main.rs asks of the operating system and of the standard library at the start, as
-- parameters, and its chain of calls that can fail.
use layer4_lb.Prelude.{ℕ, String, Option, Result, ok, err, map_err}
use layer4_lb.Config.{ConfigError}
use layer4_lb.Networking.Addr.{SocketAddr}

-- `socket2::Domain`.
pub data Domain : Type 0 where
  ipv4 : Domain
  ipv6 : Domain

-- A call takes the state of the system and leaves one, whether it fails or not.
abbrev pub Io : Type 0 → Type 0 → Type 0 → Type 0
Io W E A = W → Result A E × W

abbrev pub pure : {W E A : Type 0} → A → Io W E A
pure a w = (ok a, w)

abbrev pub fail : {W E A : Type 0} → E → Io W E A
fail e w = (err e, w)

abbrev proceed : {W E A B : Type 0} → (A → Io W E B) → Result A E × W → Result B E × W
proceed f (ok a, w) = f a w
proceed f (err e, w) = (err e, w)

infixl 5 ◌>>=◌ ◌>>◌
abbrev pub ◌>>=◌ : {W E A B : Type 0} → Io W E A → (A → Io W E B) → Io W E B
(m >>= f) w = proceed f (m w)

abbrev pub ◌>>◌ : {W E B : Type 0} → Io W E (Unit {0}) → Io W E B → Io W E B
m >> k = m >>= λ _. k

-- What the result is when there is one.
abbrev pub Post : {A E : Type 0} → (A → Type 0) → Result A E → Type 0
Post P (ok a) = P a
Post P (err e) = Unit {0}

unfoldable pub Returns : {W E A : Type 0} → (A → Type 0) → Io W E A → Type 0
Returns {W = W} P m = (w : W) → Post P (m w).0

-- A call whose error the caller looks at.
abbrev pub attempt : {W E F A : Type 0} → Io W F A → Io W E (Result A F)
attempt m w = let (r, w') = m w in (ok r, w')

-- The errors with which `main` ends. Those of the files, of a library and of TLS are parameters.
pub data StartError (I L : Type 0) : Type 0 where
  unreadable : StartError I L
  unparsable : StartError I L
  invalid : ConfigError → StartError I L
  invalid_address : String → StartError I L
  io : I → StartError I L
  tls : L → StartError I L
  panicked : String → StartError I L

-- The `?` behind a call of the system.
abbrev pub try_io : {W I L A : Type 0} → Io W I A → Io W (StartError I L) A
try_io m w = let (r, w') = m w in (map_err io r, w')

-- The `?` behind a computation.
abbrev pub try_with : {W E F A : Type 0} → (F → E) → Result A F → Io W E A
try_with f r w = (map_err f r, w)

module _ {W : Type 0} where
  pub Returns-weaken :
      {E A : Type 0} (P Q : A → Type 0) (m : Io W E A)
      → ((a : A) → P a → Q a)
      → Returns P m
      → Returns Q m
  unfolding Returns
  Returns-weaken {E} {A} P Q m weaken h w = go (m w).0 (h w)
    where
      go : (r : Result A E) → Post P r → Post Q r
      go (ok a) h = weaken a h
      go (err e) h = tt

  pub Returns-bind :
      {E A B : Type 0} (P : A → Type 0) (Q : B → Type 0) (m : Io W E A) (f : A → Io W E B)
      → Returns P m
      → ((a : A) → P a → Returns Q (f a))
      → Returns Q (m >>= f)
  unfolding Returns
  Returns-bind P Q m f first then w = go (m w) (first w)
    where
      go : (r : Result _ _ × W) → Post P r.0 → Post Q (proceed f r).0
      go (ok a, w') h = then a h w'
      go (err e, w') h = tt

  -- Whatever comes before, the rest decides.
  pub Returns-then :
      {E A B : Type 0} (Q : B → Type 0) (m : Io W E A) (f : A → Io W E B)
      → ((a : A) → Returns Q (f a))
      → Returns Q (m >>= f)
  unfolding Returns
  Returns-then Q m f then w = go (m w)
    where
      go : (r : Result _ _ × W) → Post Q (proceed f r).0
      go (ok a, w') = then a w'
      go (err e, w') = tt

  pub Returns-try_io :
      {I A : Type 0} (L : Type 0) (P : A → Type 0) (m : Io W I A)
      → Returns P m
      → Returns P (try_io {L = L} m)
  unfolding Returns
  Returns-try_io {I} {A} L P m h w = go (m w).0 (h w)
    where
      go : (r : Result A I) → Post P r → Post {E = StartError I L} P (map_err io r)
      go (ok a) h = h
      go (err e) h = tt

pub record Host : Type 1 where
  pub System : Type 0
  pub IoError : Type 0
  pub Socket : Type 0
  pub TcpListener : Type 0
  pub new_socket : Domain → Io System IoError Socket
  pub set_reuse_port : Socket → Io System IoError (Unit {0})
  pub set_reuse_address : Socket → Io System IoError (Unit {0})
  pub bind : Socket → SocketAddr → Io System IoError (Unit {0})
  pub listen : Socket → ℕ → Io System IoError (Unit {0})
  pub set_nonblocking : Socket → Io System IoError (Unit {0})
  pub from_std : Socket → Io System IoError TcpListener
  pub bind_udp : SocketAddr → Io System IoError (Unit {0})
  -- `str::parse`, with the text of the error of an address.
  pub parse_addr : String → Result SocketAddr String
  pub parse_usize : String → Option ℕ
  -- `std::env::var("NUM_ACCEPTORS")` and `std::thread::available_parallelism`.
  pub num_acceptors_var : Option String
  pub available_parallelism : Option ℕ
