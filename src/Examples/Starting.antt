-- ===== src/Examples/Starting.antt =====
-- Configurations, and what starts from them.
use ngp_mtls.Prelude.{
  List, some, ◌∷◌, ℕ, ◌≡◌, ◌≢◌, ◌⊎◌, refl, true, false, none, some, [], ◌∷◌, Bytes, codes, nat_eq,
  bytes_eq, Error, other, Result, ok, err, pos,
}
use ngp_mtls.Pqctls.{Handle, Attempt, wants_more, shaken}
use ngp_mtls.Tunnel.Server.{Server, Returns, control_listener, global_listener}
use ngp_mtls.Examples.Data.{network, idle_server}
use ngp_mtls.Examples.Data.{network, idle_client}
use ngp_mtls.Config.{ServerConfig, ClientConfig, LoadError, loaded, refused}
use ngp_mtls.Cmd.{default_client_flags, client_config, client_program}
use ngp_mtls.Cmd.Exits.{client_program_lem}
use ngp_mtls.Cmd.Starts.{client_main_lem, client_main_flags}
use ngp_mtls.Tunnel.Server.Run.{start, new_server_with_tls}
use ngp_mtls.Tunnel.Server.Run.Starts.{start_lem, Ended, start_ends}

abbrev granted : Result ℕ
granted = ok 21

abbrev handle : Handle
handle = record { ssl_live = true; conn_open = true }

abbrev handshake : List Attempt
handshake = wants_more ∷ shaken (pos 512) (some (codes "X25519MLKEM768")) ∷ []

abbrev tls_server : Server
tls_server =
    new_server_with_tls (codes ":7000") [] (codes "s.crt") (codes "s.key") (codes "ca.crt") network

abbrev client_file : ClientConfig
client_file = record {
  server = codes "example.org:7000";
  local = codes "127.0.0.1:80";
  remote_port = pos 8080;
  tls = record { enabled = false; cert = []; key = []; ca = []; server_name = [] };
}

abbrev server_file : ServerConfig
server_file = record {
  control_listen = [];
  public_listen = [];
  tls = record { enabled = false; cert = []; key = []; ca = [] };
}

-- Every file reads as one text, which parses as the configuration.
abbrev read : Bytes → Result Bytes
read path = ok (codes "{}")

abbrev unmarshal : {A : Type 0} → A → Bytes → Result A
unmarshal c text = ok c

start_lem_example :
    ((m : ℕ) × (granted ≡ ok m)
      × Returns (start none idle_server) λ out s'.
        (out ≡ ok (20, some m))
        × (s'.public_listener ≡ some m)
        × (s'.tasks ≡ control_listener 20 ∷ global_listener m ∷ idle_server.tasks)
        × (s'.net.is_open 20 ≡ true)
        × (s'.net.is_open m ≡ true))
    ⊎ ((e : Error) × (granted ≡ err e)
        × Returns
            (start none idle_server)
            λ out s'. (out ≡ err e) × (s'.net.is_open 20 ≡ false) × (s'.tasks ≡ idle_server.tasks))
start_lem_example = start_lem idle_server 20 granted [] refl (λ h. cc)

start_ends_example :
    Returns (start (some (other 0)) tls_server) (λ out s'. Ended tls_server 20 out s')
start_ends_example = start_ends tls_server (some (other 0)) 20

client_main_lem_example :
    (idle_client.server_addr ≢ [])
    × (idle_client.local_addr ≢ [])
    × (idle_client.use_tls ≡ true → idle_client.server_name ≢ [])
    × (idle_client.control_conn ≡ none)
client_main_lem_example =
    client_main_lem read (unmarshal client_file) (record { config = []; given = client_file })
      network idle_client
      (client_main_flags read (unmarshal client_file) client_file network (λ h. cc) (λ h. cc) refl)

client_program_lem_example :
    ((e : LoadError) × (client_config read (unmarshal client_file) default_client_flags ≡ refused e)
      × (client_program read (unmarshal client_file) default_client_flags [] network ≡ some 1))
    ⊎ ((c : ClientConfig) × (client_config read (unmarshal client_file) default_client_flags
          ≡ loaded c)
        × ((client_program read (unmarshal client_file) default_client_flags [] network ≡ none)
            ⊎ (client_program read (unmarshal client_file) default_client_flags [] network
                ≡ some 0)))
client_program_lem_example =
    client_program_lem read (unmarshal client_file) default_client_flags [] network
