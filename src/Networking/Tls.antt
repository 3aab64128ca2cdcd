-- ===== src/Networking/Tls.antt =====
-- src/networking/tls.rs: `load_tls_config`. The file system, `rustls-pemfile` and `rustls` are
-- parameters.
use layer4_lb.Prelude.{
  ◌≡◌, ◌↔◌, refl, ap, ◌∙◌, String, List, [], ◌∷◌, Result, ok, err, ◌>>=◌, map_err, collect,
  >>=-ok_iff, map_err-ok_iff, ok_inj, ok≢err,
}
use layer4_lb.Common.{LbError, io, tls}

pub record TlsLib : Type 1 where
  pub IoError : Type 0
  pub YamlError : Type 0
  pub AnyhowError : Type 0
  pub File : Type 0
  pub Certificate : Type 0
  pub Pkcs8Key : Type 0
  pub TlsError : Type 0
  pub TlsAcceptor : Type 0
  pub open_file : String → Result File IoError
  pub certs : File → List (Result Certificate IoError)
  pub pkcs8_private_keys : File → List (Result Pkcs8Key IoError)
  -- The builder with no client authentication.
  pub with_single_cert : List Certificate → Pkcs8Key → Result TlsAcceptor TlsError
  pub to_string : TlsError → String

module _ (lib : TlsLib) where
  open lib use {
    IoError, YamlError, AnyhowError, File, Certificate, Pkcs8Key, TlsError, TlsAcceptor, open_file,
    certs, pkcs8_private_keys, with_single_cert, to_string,
  }

  abbrev pub Fallible : Type 0 → Type 0
  Fallible A = Result A (LbError IoError YamlError AnyhowError)

  -- `keys.is_empty()` and `keys.remove(0)`.
  abbrev first_key : List Pkcs8Key → Fallible Pkcs8Key
  first_key [] = err (tls "No private keys found")
  first_key (key ∷ keys) = ok key

  unfoldable pub load_tls_config : String → String → Fallible TlsAcceptor
  load_tls_config cert_path key_path = do
    cert_file ← map_err io (open_file cert_path)
    chain ← map_err io (collect (certs cert_file))
    key_file ← map_err io (open_file key_path)
    keys ← map_err io (collect (pkcs8_private_keys key_file))
    key ← first_key keys
    map_err (λ e. tls (to_string e)) (with_single_cert chain key)

  -- What an acceptor is made of.
  pub record IsLoaded (cert_path key_path : String) (acceptor : TlsAcceptor) : Type 0 where
    pub cert_file : File
    pub key_file : File
    pub chain : List Certificate
    pub key : Pkcs8Key
    pub other_keys : List Pkcs8Key
    pub cert_opens : open_file cert_path ≡ ok cert_file
    pub chain_reads : collect (certs cert_file) ≡ ok chain
    pub key_opens : open_file key_path ≡ ok key_file
    pub keys_read : collect (pkcs8_private_keys key_file) ≡ ok (key ∷ other_keys)
    pub accepted : with_single_cert chain key ≡ ok acceptor

  first_key-ok :
      (keys : List Pkcs8Key) {key : Pkcs8Key}
      → first_key keys ≡ ok key
      → (other_keys : List Pkcs8Key) × (keys ≡ key ∷ other_keys)
  first_key-ok [] h = absurd (ok≢err h)
  first_key-ok (key ∷ keys) h = (keys, ap (λ k. k ∷ keys) (ok_inj h))

  -- An acceptor is loaded exactly if both files can be read whole, the second has a PKCS#8 key, and rustls
  -- takes the certificates of the first with the first such key.
  pub load_tls_config-ok_iff :
      (cert_path key_path : String) (acceptor : TlsAcceptor)
      → (load_tls_config cert_path key_path ≡ ok acceptor) ↔ IsLoaded cert_path key_path acceptor
  unfolding load_tls_config
  load_tls_config-ok_iff cert_path key_path acceptor = (
    λ h.
        let (cert_file, (cert_opens, h₁)) = (>>=-ok_iff (map_err io (open_file cert_path)) _).0 h in
        let (chain, (chain_reads, h₂)) =
          (>>=-ok_iff (map_err io (collect (certs cert_file))) _).0 h₁ in
        let (key_file, (key_opens, h₃)) = (>>=-ok_iff (map_err io (open_file key_path)) _).0 h₂ in
        let (keys, (keys_read, h₄)) =
          (>>=-ok_iff (map_err io (collect (pkcs8_private_keys key_file))) _).0 h₃ in
        let (key, (first, accepted)) = (>>=-ok_iff (first_key keys) _).0 h₄ in
        let (other_keys, listed) = first_key-ok keys first in
        record {
          cert_file = cert_file;
          key_file = key_file;
          chain = chain;
          key = key;
          other_keys = other_keys;
          cert_opens = (map_err-ok_iff io (open_file cert_path)).0 cert_opens;
          chain_reads = (map_err-ok_iff io (collect (certs cert_file))).0 chain_reads;
          key_opens = (map_err-ok_iff io (open_file key_path)).0 key_opens;
          keys_read =
              (map_err-ok_iff io (collect (pkcs8_private_keys key_file))).0 keys_read
              ∙ ap ok listed;
          accepted =
              (map_err-ok_iff (λ e. tls (to_string e)) (with_single_cert chain key)).0 accepted;
        },
    λ l. rw (l.cert_opens, l.chain_reads, l.key_opens, l.keys_read, l.accepted) refl,
  )

  -- With two readable files and no PKCS#8 key in the second, the error says so.
  pub without_key :
      (cert_path key_path : String) (cert_file key_file : File) (chain : List Certificate)
      → open_file cert_path ≡ ok cert_file
      → collect (certs cert_file) ≡ ok chain
      → open_file key_path ≡ ok key_file
      → pkcs8_private_keys key_file ≡ []
      → load_tls_config cert_path key_path ≡ err (tls "No private keys found")
  unfolding load_tls_config
  without_key cert_path key_path cert_file key_file chain opens reads key_opens none =
      rw (opens, reads, key_opens, none) refl
