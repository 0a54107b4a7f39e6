-- ===== src/Config.antt =====
-- internal/config/config.go. `read` stands for `os.ReadFile`, and `unmarshal` for `json.Unmarshal`
-- into a new value of the type.
pub mod Loads
use ngp_mtls.Prelude.{Bool, List, [], ◌∷◌, Bytes, codes, ℤ, Result, ok, err, Error}

pub record ServerTls : Type 0 where
  pub enabled : Bool
  pub cert : Bytes
  pub key : Bytes
  pub ca : Bytes

-- `ServerConfig`.
pub record ServerConfig : Type 0 where
  pub control_listen : Bytes
  pub public_listen : Bytes
  pub tls : ServerTls

pub record ClientTls : Type 0 where
  pub enabled : Bool
  pub cert : Bytes
  pub key : Bytes
  pub ca : Bytes
  pub server_name : Bytes

-- `ClientConfig`.
pub record ClientConfig : Type 0 where
  pub server : Bytes
  pub local : Bytes
  pub remote_port : ℤ
  pub tls : ClientTls

-- The errors of the two functions, the first two with the error that they wrap.
pub data LoadError : Type 0 where
  read_failed parse_failed : Error → LoadError
  server_required local_required : LoadError

pub data Loaded (A : Type 0) : Type 0 where
  loaded : A → Loaded A
  refused : LoadError → Loaded A

-- The beginning that the two functions share.
parse_file : {A : Type 0} → (Bytes → Result Bytes) → (Bytes → Result A) → Bytes → Loaded A
parse_file read unmarshal path = elim (read path) [
  | err e ↦ refused (read_failed e)
  | ok text ↦ elim (unmarshal text) [ err e ↦ refused (parse_failed e) | ok c ↦ loaded c ]
]

set_default : ServerConfig → ServerConfig
set_default c = elim c.control_listen [
  | [] ↦ record c { control_listen = codes ":7000" }
  | _ ∷ _ ↦ c
]

-- `LoadServerConfig`.
pub load_server_config :
    (Bytes → Result Bytes) → (Bytes → Result ServerConfig) → Bytes → Loaded ServerConfig
load_server_config read unmarshal path = elim (parse_file read unmarshal path) [
  | refused e ↦ refused e
  | loaded c ↦ loaded (set_default c)
]

check_required : ClientConfig → Loaded ClientConfig
check_required c = elim c.server [
  | [] ↦ refused server_required
  | _ ∷ _ ↦ elim c.local [ [] ↦ refused local_required | _ ∷ _ ↦ loaded c ]
]

-- `LoadClientConfig`.
pub load_client_config :
    (Bytes → Result Bytes) → (Bytes → Result ClientConfig) → Bytes → Loaded ClientConfig
load_client_config read unmarshal path = elim (parse_file read unmarshal path) [
  | refused e ↦ refused e
  | loaded c ↦ check_required c
]
