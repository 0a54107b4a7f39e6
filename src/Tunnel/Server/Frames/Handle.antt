-- ===== src/Tunnel/Server/Frames/Handle.antt =====
-- What the handlers of DATA and CLOSE frames do, branch by branch.
use ngp_mtls.Prelude.{
  Bool-cases, inl, inr, ℕ, ◌<◌, ◌≡◌, ◌≢◌, true, false, none, some, [], ◌++◌, Bytes, length, update,
  lookup, delete, lookup-delete, nat_eq, bytes_eq, arith, ◌⊎◌,
}
use ngp_mtls.Proto
use ngp_mtls.Proto.{bare_frame, Frame, encode_frame}
use ngp_mtls.Proto.RoundTrip.{layout}
use ngp_mtls.Tunnel.Net.{write, close, takes, wrote, part-within}
use ngp_mtls.Tunnel.Server.{Server, free, done, write_conn, send_close_frame, Returns}
use ngp_mtls.Tunnel.Server.Steps.{find_client_lem, send_close_frame-sent}
use ngp_mtls.Tunnel.Server.Frames.{handle_data_frame, handle_close_frame}

-- A DATA frame changes nothing if its client is not registered, its connection is not in the map, or
-- it carries no bytes.
handle_data_frame_ignored :
    (id : Bytes) (f : Frame) (s : Server)
    → s.clients_mu ≡ free
    → ((lookup id s.clients ≡ none)
        ⊎ ((p : ℕ) × (lookup id s.clients ≡ some p)
            × ((lookup f.conn_id (s.infos p).conn_map ≡ none) ⊎ (f.payload ≡ []))))
    → handle_data_frame id f s ≡ done (tt, s)
unfolding handle_data_frame
handle_data_frame_ignored id f s h why = ground (arith, find_client_lem id s h)

module _ (id : Bytes) (f : Frame) (s : Server) (p c : ℕ) (h : s.clients_mu ≡ free)
    (found : lookup id s.clients ≡ some p)
    (mapped : lookup f.conn_id (s.infos p).conn_map ≡ some c) where
  pub handle_data_frame-delivers :
      takes s.net c f.payload ≡ true
      → 0 < length f.payload
      → handle_data_frame id f s ≡ done (tt, record s { net = wrote s.net c f.payload })
  unfolding handle_data_frame write_conn write
  handle_data_frame-delivers t pos = ground (arith, find_client_lem id s h)

  -- The state after the outside connection failed: closed, out of the map.
  abbrev pub dropped : Server
  dropped = record s {
    net = close c (write c f.payload s.net).1;
    infos =
        update s.infos p (record (s.infos p) { conn_map = delete f.conn_id (s.infos p).conn_map });
  }

  pub handle_data_frame-fails :
      takes s.net c f.payload ≡ false
      → 0 < length f.payload
      → handle_data_frame id f s ≡ send_close_frame id f.conn_id dropped
  unfolding handle_data_frame write_conn write
  handle_data_frame-fails t pos = ground (arith, find_client_lem id s h)

-- While nobody holds the mutex, a DATA frame with bytes for a mapped outside connection of a
-- registered client that takes CLOSE_CONN frames on another connection: either the bytes are
-- appended to what the outside connection was sent, its entry stays, and the client is sent
-- nothing; or the write fails, and then the connection is closed, its entry is gone, and a
-- CLOSE_CONN frame for it goes to the client.
handle_data_frame_lem :
    (id : Bytes) (f : Frame) (s : Server) (p c : ℕ)
    → s.clients_mu ≡ free
    → lookup id s.clients ≡ some p
    → lookup f.conn_id (s.infos p).conn_map ≡ some c
    → 0 < length f.payload
    → (s.infos p).conn ≢ c
    → takes s.net (s.infos p).conn (layout (bare_frame Proto.close f.conn_id)) ≡ true
    → ((takes s.net c f.payload ≡ true)
        × Returns (handle_data_frame id f s) λ _ s'.
          (s'.net.sent c ≡ s.net.sent c ++ f.payload)
          × (lookup f.conn_id (s'.infos p).conn_map ≡ some c)
          × (s'.net.sent (s.infos p).conn ≡ s.net.sent (s.infos p).conn))
      ⊎ ((takes s.net c f.payload ≡ false)
          × Returns (handle_data_frame id f s) λ _ s'.
            (s'.net.is_open c ≡ false)
            × (lookup f.conn_id (s'.infos p).conn_map ≡ none)
            × (s'.net.sent (s.infos p).conn
                ≡ s.net.sent (s.infos p).conn ++ layout (bare_frame Proto.close f.conn_id)))
unfolding write
handle_data_frame_lem id f s p c h found mapped pos ne u =
    elim (Bool-cases (takes s.net c f.payload)) [
      | inl t ↦ inl (
        t,
        rw (handle_data_frame-delivers id f s p c h found mapped t pos)
            (ground (arith, part-within (s.net.limit c) f.payload)),
      )
      | inr t ↦ inr (
        t,
        rw
            (
              handle_data_frame-fails id f s p c h found mapped t pos,
              send_close_frame-sent id f.conn_id (dropped id f s p c h found mapped) p h found,
            )
            (ground (
              arith,
              lookup-delete f.conn_id f.conn_id (s.infos p).conn_map,
              part-within (s.net.limit (s.infos p).conn)
                  (layout (bare_frame Proto.close f.conn_id)),
            )),
      )
    ]

-- While nobody holds the mutex, a CLOSE_CONN frame for a mapped connection of a registered
-- client closes that connection and takes its entry out of the map. Every other entry stays, and
-- nothing is written to anyone.
pub handle_close_frame_lem :
    (id : Bytes) (f : Frame) (s : Server) (p c k : ℕ)
    → s.clients_mu ≡ free
    → lookup id s.clients ≡ some p
    → lookup f.conn_id (s.infos p).conn_map ≡ some c
    → k ≢ f.conn_id
    → Returns (handle_close_frame id f s) λ _ s'.
      (s'.net.is_open c ≡ false)
      × (lookup f.conn_id (s'.infos p).conn_map ≡ none)
      × (lookup k (s'.infos p).conn_map ≡ lookup k (s.infos p).conn_map)
      × (s'.net.sent ≡ s.net.sent)
unfolding handle_close_frame
handle_close_frame_lem id f s p c k h found mapped ne = ground (
  arith,
  find_client_lem id s h,
  lookup-delete f.conn_id f.conn_id (s.infos p).conn_map,
  lookup-delete f.conn_id k (s.infos p).conn_map,
)
