-- ===== src/Tunnel/Client/Run.antt =====
-- internal/tunnel/client.go: the constructors, `Run` with `connectToServer`, and `cleanup`.
pub mod Ends
use ngp_mtls.Prelude.{
  ℕ, suc, Bool, true, false, Option, none, some, List, [], ◌∷◌, Error, cancelled, Result, ok, err,
  if◌then◌else◌, positive, Bytes, ℤ, ◌≡◌, refl,
}
use ngp_mtls.Proto.{Stream}
use ngp_mtls.Tunnel.Net.{Net, opened}
use ngp_mtls.Tunnel.Client.{
  Client, M, pure, ◌>>=◌, ◌>>◌, modify, gets, close_conn, delete_conn, send_init_config,
  close_control_conn,
}
use ngp_mtls.Tunnel.Client.Frames.{handle_connection}

-- `NewClient`, in a process whose network is `w`.
abbrev pub new_client : Bytes → Bytes → ℤ → Net → Client
new_client server local remote_port w = record {
  server_addr = server;
  local_addr = local;
  remote_port = remote_port;
  use_tls = false;
  tls_cert_file = [];
  tls_key_file = [];
  tls_ca_file = [];
  server_name = [];
  control_conn = none;
  conn_map = [];
  net = w;
  tasks = [];
}

-- `NewClientWithTLS`.
abbrev pub new_client_with_tls : Bytes → Bytes → ℤ → Bytes → Bytes → Bytes → Bytes → Net → Client
new_client_with_tls server local remote_port cert key ca name w =
    record (new_client server local remote_port w) {
      use_tls = true;
      tls_cert_file = cert;
      tls_key_file = key;
      tls_ca_file = ca;
      server_name = name;
    }

-- What one round of the loop of `Run` meets.
pub record Round : Type 0 where
  -- The context is cancelled at the start of the round.
  pub stop : Bool
  -- The dial to the server, by TCP or through the PQC dialer.
  pub connects : Result ℕ
  -- What the server sends on the connection, and how many frames are served before the end.
  pub incoming : Stream
  pub served : ℕ
  -- The context is cancelled while the connection is served.
  pub stop_serving : Bool
  -- The context is cancelled during the five seconds of waiting.
  pub stop_waiting : Bool

-- `connectToServer`: the connection is kept on success only.
pub connect_to_server : Result ℕ → M (Option Error)
connect_to_server (err e) = pure (some e)
connect_to_server (ok c) = do
  modify λ s. record s { control_conn = some c; net = opened c s.net }
  pure none

-- The wait before the next round: `some` if `Run` returns.
pub wait : Round → M (Option Error)
wait r = pure (if r.stop_waiting then some cancelled else none)

-- The connection is served, and closed if that ended with an error.
pub serve : Round → M (Option Error)
serve r = do
  e ← handle_connection r.served r.stop_serving r.incoming
  elim e [ none ↦ pure tt | some _ ↦ close_control_conn ]
  wait r

-- The INIT frame, for a client that names a port: without it the next round follows at once.
pub configure : Round → M (Option Error)
configure r = do
  port ← gets (λ s. s.remote_port)
  if positive port
      then (do
        e ← send_init_config
        elim e [ some _ ↦ (do close_control_conn; pure none) | none ↦ serve r ])
      else serve r

-- One round: `some e` if `Run` returns `e`, `none` if the next round follows.
pub run_round : Round → M (Option Error)
run_round r =
    if r.stop
    then pure (some cancelled)
    else (do e ← connect_to_server r.connects; elim e [ some _ ↦ wait r | none ↦ configure r ])

-- `Run` over what its rounds meet; `none` if it goes on after them.
pub run : List Round → M (Option Error)
run [] = pure none
run (r ∷ rs) = do e ← run_round r; elim e [ some x ↦ pure (some x) | none ↦ run rs ]

close_all : List (ℕ × ℕ) → M (Unit {0})
close_all [] = pure tt
close_all ((k, c) ∷ rest) = do close_conn c; delete_conn k; close_all rest

-- `cleanup`, which nothing calls.
pub cleanup : M (Unit {0})
cleanup = do close_control_conn; entries ← gets (λ s. s.conn_map); close_all entries

pub connect_to_server-done :
    (c : ℕ) (s : Client)
    → connect_to_server (ok c) s ≡ (none, record s { control_conn = some c; net = opened c s.net })
unfolding connect_to_server
connect_to_server-done c s = refl
