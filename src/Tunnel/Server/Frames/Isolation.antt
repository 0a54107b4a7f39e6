-- ===== src/Tunnel/Server/Frames/Isolation.antt =====
-- A frame of one client leaves the other clients alone, and its handler always returns.
use ngp_mtls.Prelude.{
  ℕ, ◌≡◌, ◌≢◌, none, some, Bytes, lookup, nat_eq, bytes_eq, arith, ok, err, Result, All,
}
use ngp_mtls.Proto
use ngp_mtls.Proto.{bare_frame, Frame, encode_frame}
use ngp_mtls.Proto.RoundTrip.{encode_frame-layout}
use ngp_mtls.Proto.Init.{InitConfig, decode_init_config}
use ngp_mtls.Tunnel.Net.{write, dial_other}
use ngp_mtls.Tunnel.Server.{
  Server, free, find_client, rlock, runlock, send, write_conn, send_close_frame, Returns,
}
use ngp_mtls.Tunnel.Server.Steps.{find_client_lem, find_client_locked_lem}
use ngp_mtls.Tunnel.Server.Frames.{
  handle_data_frame, handle_close_frame, handle_init_frame, handle_frame, apply_config, listen_for,
}

-- `c` is none of the connections of the client at `p`, and not the next to be opened.
pub record Foreign (s : Server) (p c : ℕ) : Type 0 where
  pub not_control : c ≢ (s.infos p).conn
  pub not_mapped : (k : ℕ) → lookup k (s.infos p).conn_map ≢ some c
  pub not_dialled : All (λ r. r ≢ ok c) s.net.dials

-- What a handler for the client at `p` may not touch: the mutex is free again, the table of clients
-- and the settings are the same, and so are another client's record and a foreign connection.
pub record Untouched (s s' : Server) (q c : ℕ) : Type 0 where
  pub unlocked : s'.clients_mu ≡ free
  pub clients : s'.clients ≡ s.clients
  pub names : s'.next_client_id ≡ s.next_client_id
  pub listener : s'.public_listener ≡ s.public_listener
  pub other : s'.infos q ≡ s.infos q
  pub sent : s'.net.sent c ≡ s.net.sent c
  pub open_still : s'.net.is_open c ≡ s.net.is_open c

module _ (id : Bytes) (f : Frame) (s : Server) (q c : ℕ) (h : s.clients_mu ≡ free) where
  handle_data_frame_gone :
      lookup id s.clients ≡ none → Returns (handle_data_frame id f s) (λ _ s'. Untouched s s' q c)
  unfolding handle_data_frame
  handle_data_frame_gone gone = ground (arith, find_client_lem id s h)

  handle_data_frame-Untouched :
      (p : ℕ)
      → lookup id s.clients ≡ some p
      → q ≢ p
      → Foreign s p c
      → Returns (handle_data_frame id f s) (λ _ s'. Untouched s s' q c)
  unfolding handle_data_frame write_conn write send_close_frame send find_client rlock runlock
  handle_data_frame-Untouched p found ne v = ground (
    arith,
    v.not_control,
    v.not_mapped f.conn_id,
    encode_frame-layout (bare_frame Proto.close f.conn_id),
  )

  handle_close_frame-Untouched :
      (p : ℕ)
      → lookup id s.clients ≡ some p
      → q ≢ p
      → Foreign s p c
      → Returns (handle_close_frame id f s) (λ _ s'. Untouched s s' q c)
  unfolding handle_close_frame
  handle_close_frame-Untouched p found ne v =
      ground (arith, v.not_mapped f.conn_id, find_client_lem id s h)

  handle_close_frame_gone :
      lookup id s.clients ≡ none → Returns (handle_close_frame id f s) (λ _ s'. Untouched s s' q c)
  unfolding handle_close_frame
  handle_close_frame_gone gone = ground (arith, find_client_lem id s h)

  apply_config-Untouched :
      (p : ℕ) (r : Result InitConfig)
      → q ≢ p
      → Foreign s p c
      → Returns (apply_config id p r s) (λ _ s'. Untouched s s' q c)
  unfolding apply_config listen_for
  apply_config-Untouched p (err e) ne v = ground arith
  apply_config-Untouched p (ok r) ne v = ground (arith, dial_other s.net c v.not_dialled)

  handle_init_frame-Untouched :
      (p : ℕ)
      → lookup id s.clients ≡ some p
      → q ≢ p
      → Foreign s p c
      → Returns (handle_init_frame id f s) (λ _ s'. Untouched s s' q c)
  unfolding handle_init_frame
  handle_init_frame-Untouched p found ne v = ground (
    arith,
    find_client_locked_lem id s h,
    apply_config-Untouched p (decode_init_config f.payload) ne v,
  )

  handle_init_frame_gone :
      lookup id s.clients ≡ none → Returns (handle_init_frame id f s) (λ _ s'. Untouched s s' q c)
  unfolding handle_init_frame
  handle_init_frame_gone gone = ground (arith, find_client_locked_lem id s h)

  -- While nobody holds the mutex, a frame of the registered client at `p`, of whatever type and
  -- with whatever payload, is handled to the end. The table, the settings, and the record of any
  -- other client at `q` stay as they are, and so does any connection `c` that is neither one of
  -- the client's own nor one that the system opens next.
  pub handle_frame_isolated :
      (p : ℕ)
      → lookup id s.clients ≡ some p
      → q ≢ p
      → Foreign s p c
      → Returns (handle_frame id f s) (λ _ s'. Untouched s s' q c)
  unfolding handle_frame
  handle_frame_isolated p found ne v = ground (
    arith,
    handle_init_frame-Untouched p found ne v,
    handle_data_frame-Untouched p found ne v,
    handle_close_frame-Untouched p found ne v,
  )

  -- Nor does a frame whose client is not registered any more touch anything.
  pub handle_frame_gone :
      lookup id s.clients ≡ none → Returns (handle_frame id f s) (λ _ s'. Untouched s s' q c)
  unfolding handle_frame
  handle_frame_gone gone = ground (
    arith,
    handle_init_frame_gone gone,
    handle_data_frame_gone gone,
    handle_close_frame_gone gone,
  )
