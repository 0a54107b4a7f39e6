-- ===== src/Cmd.antt =====
-- cmd/client/main.go and cmd/server/main.go: from the flags to the client and the server that run,
-- and from the error of `Run` to the exit code. Signals only cancel the context.
pub mod Starts
pub mod Exits
use ngp_mtls.Prelude.{
  ℕ, Bool, true, false, Option, none, some, List, [], ◌∷◌, Bytes, ℤ, Result, Error, cancelled,
  if◌then◌else◌, pos, codes, ok, err, eof, unexpected_eof, closed_conn, other, invalid_format,
  invalid_port, no_control_conn,
}
use ngp_mtls.Config.{
  ServerConfig, ClientConfig, Loaded, loaded, refused, LoadError, server_required, local_required,
  load_server_config, load_client_config,
}
use ngp_mtls.Tunnel.Net.{Net}
use ngp_mtls.Tunnel.Client.{Client}
use ngp_mtls.Tunnel.Client.Run.{Round, run, new_client, new_client_with_tls}
use ngp_mtls.Tunnel.Server.{Server, done, blocked, fatal}
use ngp_mtls.Tunnel.Server.Run.{start, new_server, new_server_with_tls}

-- The flags after `flag.Parse`, as a path and what else they say in the form of a configuration.
pub record Flags (A : Type 0) : Type 0 where
  pub config : Bytes
  pub given : A

-- The configuration of the client. A refusal ends the program with `log.Fatal`.
pub client_config :
    (Bytes → Result Bytes)
    → (Bytes → Result ClientConfig)
    → Flags ClientConfig
    → Loaded ClientConfig
client_config read unmarshal flags = elim flags.config [
  | b ∷ bs ↦ load_client_config read unmarshal (b ∷ bs)
  | [] ↦ elim flags.given.server [
    | [] ↦ refused server_required
    | _ ∷ _ ↦ elim flags.given.local [ [] ↦ refused local_required | _ ∷ _ ↦ loaded flags.given ]
  ]
]

-- The name that the client expects: that of the configuration, or else the server's address.
sni : ClientConfig → Bytes
sni c = elim c.tls.server_name [ [] ↦ c.server | b ∷ bs ↦ b ∷ bs ]

make_client : ClientConfig → Net → Client
make_client c w =
    if c.tls.enabled
    then new_client_with_tls c.server c.local c.remote_port c.tls.cert c.tls.key c.tls.ca (sni c) w
    else new_client c.server c.local c.remote_port w

-- The client that `main` runs.
pub client_main :
    (Bytes → Result Bytes)
    → (Bytes → Result ClientConfig)
    → Flags ClientConfig
    → Net
    → Loaded Client
client_main read unmarshal flags w = elim (client_config read unmarshal flags) [
  | refused e ↦ refused e
  | loaded c ↦ loaded (make_client c w)
]

pub server_config :
    (Bytes → Result Bytes)
    → (Bytes → Result ServerConfig)
    → Flags ServerConfig
    → Loaded ServerConfig
server_config read unmarshal flags = elim flags.config [
  | b ∷ bs ↦ load_server_config read unmarshal (b ∷ bs)
  | [] ↦ loaded flags.given
]

make_server : ServerConfig → Net → Server
make_server c w =
    if c.tls.enabled
    then new_server_with_tls c.control_listen c.public_listen c.tls.cert c.tls.key c.tls.ca w
    else new_server c.control_listen c.public_listen w

-- The server that `main` runs.
pub server_main :
    (Bytes → Result Bytes)
    → (Bytes → Result ServerConfig)
    → Flags ServerConfig
    → Net
    → Loaded Server
server_main read unmarshal flags w = elim (server_config read unmarshal flags) [
  | refused e ↦ refused e
  | loaded c ↦ loaded (make_server c w)
]

-- The flags when none is given.
abbrev pub default_client_flags : Flags ClientConfig
default_client_flags = record {
  config = [];
  given = record {
    server = [];
    local = [];
    remote_port = pos 0;
    tls = record {
      enabled = false;
      cert = codes "/root/pq-certs/client.crt";
      key = codes "/root/pq-certs/client.key";
      ca = codes "/root/pq-certs/ca.crt";
      server_name = [];
    };
  };
}

abbrev pub default_server_flags : Flags ServerConfig
default_server_flags = record {
  config = [];
  given = record {
    control_listen = codes ":7000";
    public_listen = [];
    tls = record {
      enabled = false;
      cert = codes "/root/pq-certs/server.crt";
      key = codes "/root/pq-certs/server.key";
      ca = codes "/root/pq-certs/ca.crt";
    };
  };
}

-- The exit code after `Run` has returned an error: that of the cancelled context is the orderly end.
exit_code : Error → ℕ
exit_code cancelled = 0
exit_code eof = 1
exit_code unexpected_eof = 1
exit_code closed_conn = 1
exit_code (other n) = 1
exit_code invalid_format = 1
exit_code invalid_port = 1
exit_code no_control_conn = 1

-- The exit code of the client's program over what the rounds of `Run` meet; `none` while it goes on.
-- `log.Fatal` exits with 1.
pub client_program :
    (Bytes → Result Bytes)
    → (Bytes → Result ClientConfig)
    → Flags ClientConfig
    → List Round
    → Net
    → Option ℕ
client_program read unmarshal flags rs w = elim (client_main read unmarshal flags w) [
  | refused e ↦ some 1
  | loaded c ↦ elim (run rs c).0 [ none ↦ none | some e ↦ some (exit_code e) ]
]

-- The exit code of the server's program once `Run` has opened its listeners, or could not; `none`
-- while it goes on.
pub server_program :
    (Bytes → Result Bytes)
    → (Bytes → Result ServerConfig)
    → Flags ServerConfig
    → Option Error
    → Net
    → Option ℕ
server_program read unmarshal flags pqc w = elim (server_main read unmarshal flags w) [
  | refused e ↦ some 1
  | loaded s ↦ elim (start pqc s) [
    | done (err e, t) ↦ some (exit_code e)
    | done (ok l, t) ↦ none
    | blocked ↦ none
    | fatal ↦ some 2
  ]
]
