-- ===== src/Pqctls/Standard.antt =====
-- internal/pqctls/pqc_tls.go: configurations of `crypto/tls`. `load_pair`, `read` and `append`
-- stand for `tls.LoadX509KeyPair`, `ioutil.ReadFile` and `AppendCertsFromPEM` on a new pool; `Cert`
-- and `Pool` are what they make.
pub mod Mutual
use ngp_mtls.Prelude.{ℕ, Bool, true, false, Option, none, some, [], Bytes, Error, Result, ok, err}

-- `PQCTLSConfig`.
pub record TlsFiles : Type 0 where
  pub cert_file : Bytes
  pub key_file : Bytes
  pub ca_file : Bytes
  pub server_name : Bytes

-- `tls.Config`, as far as the program sets it: what it leaves out is `none`, and
-- `demands_client_cert` says that `ClientAuth` is `RequireAndVerifyClientCert`.
pub record TlsConfig (Cert Pool : Type 0) : Type 0 where
  pub certificate : Cert
  pub demands_client_cert : Bool
  pub client_cas : Option Pool
  pub root_cas : Option Pool
  pub name : Bytes
  pub min_version : ℕ
  pub max_version : ℕ

-- The errors, two of them with the error that they wrap.
pub data ConfigError : Type 0 where
  certificate_failed ca_failed : Error → ConfigError
  ca_unreadable : ConfigError

pub data Configured (A : Type 0) : Type 0 where
  configured : A → Configured A
  refused : ConfigError → Configured A

-- `tls.VersionTLS13`.
abbrev pub version_tls13 : ℕ
version_tls13 = 0x0304

module _ {Cert Pool : Type 0} (load_pair : Bytes → Bytes → Result Cert)
    (read : Bytes → Result Bytes) (append : Bytes → Option Pool) where
  -- The certificate and the pool that both functions load.
  load : TlsFiles → (Cert → Pool → TlsConfig Cert Pool) → Configured (TlsConfig Cert Pool)
  load f make = elim (load_pair f.cert_file f.key_file) [
    | err e ↦ refused (certificate_failed e)
    | ok cert ↦ elim (read f.ca_file) [
      | err e ↦ refused (ca_failed e)
      | ok text ↦ elim (append text) [
        | none ↦ refused ca_unreadable
        | some pool ↦ configured (make cert pool)
      ]
    ]
  ]

  -- `NewServerTLSConfig`.
  pub new_server_tls_config : TlsFiles → Configured (TlsConfig Cert Pool)
  new_server_tls_config f = load f λ cert pool. record {
    certificate = cert;
    demands_client_cert = true;
    client_cas = some pool;
    root_cas = none;
    name = [];
    min_version = version_tls13;
    max_version = version_tls13;
  }

  -- `NewClientTLSConfig`.
  pub new_client_tls_config : TlsFiles → Configured (TlsConfig Cert Pool)
  new_client_tls_config f = load f λ cert pool. record {
    certificate = cert;
    demands_client_cert = false;
    client_cas = none;
    root_cas = some pool;
    name = f.server_name;
    min_version = version_tls13;
    max_version = version_tls13;
  }

-- `ListenTLS`: `listen` and `wrap` stand for `net.Listen` and `tls.NewListener`.
pub listen_tls :
    {Listener Config : Type 0}
    → (Bytes → Bytes → Result Listener)
    → (Listener → Config → Listener)
    → Bytes
    → Bytes
    → Config
    → Result Listener
listen_tls listen wrap network address config = elim (listen network address) [
  | err e ↦ err e
  | ok l ↦ ok (wrap l config)
]
