-- ===== src/Config/Loads.antt =====
-- What the configuration files must hold, and what is filled in.
use ngp_mtls.Prelude.{List-cases, inl, inr, ◌⊎◌, ◌≡◌, ◌≢◌, [], Bytes, codes, arith, Result, ok}
use ngp_mtls.Config.{
  ServerConfig, ClientConfig, loaded, refused, server_required, local_required, parse_file,
  set_default, check_required, load_server_config, load_client_config,
}

-- A client's file that parses is accepted, unchanged, exactly if it names a server and a local
-- address; otherwise the error says which one is missing, the server first.
pub load_client_config_lem :
    (read : Bytes → Result Bytes) (unmarshal : Bytes → Result ClientConfig) (path text : Bytes)
    (c : ClientConfig)
    → read path ≡ ok text
    → unmarshal text ≡ ok c
    → ((c.server ≢ []) × (c.local ≢ []) × (load_client_config read unmarshal path ≡ loaded c))
      ⊎ (((c.server ≡ []) × (load_client_config read unmarshal path ≡ refused server_required))
          ⊎ ((c.server ≢ [])
              × (c.local ≡ [])
              × (load_client_config read unmarshal path ≡ refused local_required)))
unfolding load_client_config parse_file check_required
load_client_config_lem read unmarshal path text c r u = elim (List-cases c.server) [
  | inl no_server ↦ inr (inl (no_server, ground arith))
  | inr server ↦ elim (List-cases c.local) [
    | inl no_local ↦ inr (inr (server, no_local, ground arith))
    | inr local ↦ inl (server, local, ground arith)
  ]
]

-- A server's file that parses is accepted; the address for clients is the one that it names, or
-- `:7000` if it names none, and all else is as in the file.
pub load_server_config_lem :
    (read : Bytes → Result Bytes) (unmarshal : Bytes → Result ServerConfig) (path text : Bytes)
    (c : ServerConfig)
    → read path ≡ ok text
    → unmarshal text ≡ ok c
    → ((c.control_listen ≢ []) × (load_server_config read unmarshal path ≡ loaded c))
      ⊎ ((c.control_listen ≡ [])
          × (load_server_config read unmarshal path
              ≡ loaded (record c { control_listen = codes ":7000" })))
unfolding load_server_config parse_file set_default
load_server_config_lem read unmarshal path text c r u = elim (List-cases c.control_listen) [
  | inl unnamed ↦ inr (unnamed, ground arith)
  | inr named ↦ inl (named, ground arith)
]

pub load_client_config_names :
    (read : Bytes → Result Bytes) (unmarshal : Bytes → Result ClientConfig) (path : Bytes)
    (c : ClientConfig)
    → load_client_config read unmarshal path ≡ loaded c
    → (c.server ≢ []) × (c.local ≢ [])
unfolding load_client_config check_required
load_client_config_names read unmarshal path c h = ground arith
