-- ===== src/Tunnel/Server/Frames.antt =====
-- internal/tunnel/server.go: the frames that come from a client.
pub mod Handle
pub mod Isolation
pub mod Init
pub mod Loop
pub mod Relay
pub mod Serve
pub mod Early
pub mod Cases
pub mod Sound
pub mod Said
pub mod Listens
pub mod Quiet
pub mod Kept
pub mod Sink
pub mod Demux
use ngp_mtls.Prelude.{
  ℕ, zero, suc, Bool, true, false, Option, none, some, List, [], ◌∷◌, Bytes, length, ltb, ◌==◌,
  if◌then◌else◌, lookup, nat_eq, bytes_eq, Error, Result, ok, err, pos, positive,
}
use ngp_mtls.Proto
use ngp_mtls.Proto.{Frame, Stream, decode_frame}
use ngp_mtls.Proto.Init.{InitConfig, decode_init_config}
use ngp_mtls.Tunnel.Net.{dial}
use ngp_mtls.Tunnel.Server.{
  ClientInfo, Server, M, pure, ◌>>=◌, ◌>>◌, modify, gets, close_conn, delete_conn, get_info,
  set_info, when_some, find_client, find_client_locked, write_conn, send_close_frame, go,
  client_listener, lock, unlock,
}
use ngp_mtls.Tunnel.Server.Clients.{unregister_client}

-- `handleDataFrame`.
pub handle_data_frame : Bytes → Frame → M (Unit {0})
handle_data_frame id f = do
  found ← find_client id
  when_some found λ p. do
    info ← get_info p
    when_some (lookup f.conn_id info.conn_map) λ public_conn.
        if ltb 0 (length f.payload)
        then (do
          e ← write_conn public_conn f.payload
          when_some e λ _. do
            close_conn public_conn
            delete_conn p f.conn_id
            send_close_frame id f.conn_id)
        else pure tt

-- `handleCloseFrame`.
pub handle_close_frame : Bytes → Frame → M (Unit {0})
handle_close_frame id f = do
  found ← find_client id
  when_some found λ p. do
    info ← get_info p
    delete_conn p f.conn_id
    when_some (lookup f.conn_id info.conn_map) close_conn

-- `net.Listen` for a client, and the goroutine of its listener.
pub listen_for : Bytes → ℕ → M (Unit {0})
listen_for id p s =
    let (r, w) = dial s.net in
    (do
      modify (λ s. record s { net = w })
      elim r [
        | err e ↦ pure tt
        | ok l ↦ do
          info ← get_info p
          set_info p (record info { public_listener = some l })
          go (client_listener id l)
      ])
      s

pub apply_config : Bytes → ℕ → Result InitConfig → M (Unit {0})
apply_config id p (err e) = pure tt
apply_config id p (ok c) = do
  info ← get_info p
  set_info p (record info { local_addr = c.local_addr; remote_port = c.remote_port })
  if positive c.remote_port
      then elim info.public_listener [ some l ↦ pure tt | none ↦ listen_for id p ]
      else pure tt

-- `handleInitFrame`.
pub handle_init_frame : Bytes → Frame → M (Unit {0})
handle_init_frame id f = do
  found ← find_client_locked id
  when_some found λ p. do
    addr ← gets (λ s. s.public_listen_addr)
    elim addr [
      | [] ↦ apply_config id p (decode_init_config f.payload)
      | _ ∷ _ ↦ do
        info ← get_info p
        set_info p (record info { local_addr = []; remote_port = pos 0 })
    ]

-- The `switch` of `handleFramesFromClient`; other types are only logged.
pub handle_frame : Bytes → Frame → M (Unit {0})
handle_frame id f =
    if f.frame_type == Proto.init
    then handle_init_frame id f
    else if f.frame_type == Proto.data_type
    then handle_data_frame id f
    else if f.frame_type == Proto.close
    then handle_close_frame id f
    else pure tt

-- `handleFramesFromClient`: `ctx n` tells whether the context is cancelled at the round with `n`
-- rounds of fuel left behind it. `true` if it has returned, `false` if the fuel ran out.
pub handle_frames : ℕ → (ℕ → Bool) → Bytes → ℕ → Stream → M Bool
handle_frames zero ctx id conn r = pure false
handle_frames (suc n) ctx id conn r = elim (ctx n) [
  | true ↦ do close_conn conn; pure true
  | false ↦ elim (decode_frame r) [
    | err e ↦ do close_conn conn; pure true
    | ok (f, rest) ↦ do handle_frame id f; handle_frames n ctx id conn rest
  ]
]

-- `handleClientConnection`.
pub handle_client_connection : ℕ → (ℕ → Bool) → Bytes → ℕ → Stream → M Bool
handle_client_connection fuel ctx id conn r = do
  ended ← handle_frames fuel ctx id conn r
  if ended then (do unregister_client id; pure true) else pure false
