-- ===== src/Tunnel/Server/Frames/Cases.antt =====
-- What the handlers of frames do, case by case, while nobody holds the mutex.
use ngp_mtls.Prelude.{
  ℤ, ℕ, ◌≡◌, ◌≢◌, refl, ◌⊎◌, true, false, none, some, [], ◌∷◌, Bytes, lookup, nat_eq, bytes_eq,
  update, arith, pos, positive, Error, ok, err, ◌==◌,
}
use ngp_mtls.Proto
use ngp_mtls.Proto.{Frame, IsFrame, bare_frame}
use ngp_mtls.Proto.Init.{InitConfig, decode_init_config}
use ngp_mtls.Tunnel.Net.{Net, dial, opened}
use ngp_mtls.Tunnel.Server.{Server, free, done, client_listener}
use ngp_mtls.Tunnel.Server.Steps.{find_client_locked_lem}
use ngp_mtls.Tunnel.Server.Frames.{
  handle_data_frame, handle_close_frame, handle_init_frame, handle_frame, apply_config, listen_for,
}
use ngp_mtls.Prelude.{
  ℕ, ◌≡◌, ◌⊎◌, true, false, none, some, Bytes, length, ltb, lookup, delete, nat_eq, bytes_eq,
  update, arith,
}
use ngp_mtls.Proto
use ngp_mtls.Proto.{Frame, IsFrame, bare_frame}
use ngp_mtls.Tunnel.Net.{write, wrote, close, takes}
use ngp_mtls.Tunnel.Server.{Server, free, done}
use ngp_mtls.Tunnel.Server.Steps.{find_client_lem}
use ngp_mtls.Tunnel.Server.Frames.{handle_data_frame, handle_close_frame}

abbrev pub configured : Server → ℕ → Bytes → ℤ → Server
configured s p addr port = record s {
  infos = update s.infos p (record (s.infos p) { local_addr = addr; remote_port = port });
}

abbrev pub undialled : Net → Net
undialled w = record w { dials = [] }

module _ (id : Bytes) (p : ℕ) (s : Server) where
  pub listen_refused :
      (e : Error)
      → s.net.dials ≡ err e ∷ []
      → listen_for id p s ≡ done (tt, record s { net = undialled s.net })
  unfolding listen_for dial
  listen_refused e d = ground arith

  pub listen_granted :
      (l : ℕ)
      → s.net.dials ≡ ok l ∷ []
      → listen_for id p s
        ≡ done (
          tt,
          record s {
            net = opened l (undialled s.net);
            infos = update s.infos p (record (s.infos p) { public_listener = some l });
            tasks = client_listener id l ∷ s.tasks;
          },
        )
  unfolding listen_for dial
  listen_granted l d = ground arith

  pub listen_failed :
      (e : Error) (w : Net)
      → dial s.net ≡ (err e, w)
      → listen_for id p s ≡ done (tt, record s { net = w })
  unfolding listen_for
  listen_failed e w d = ground arith

  pub listen_dialled :
      (l : ℕ) (w : Net)
      → dial s.net ≡ (ok l, w)
      → listen_for id p s
        ≡ done (
          tt,
          record s {
            net = w;
            infos = update s.infos p (record (s.infos p) { public_listener = some l });
            tasks = client_listener id l ∷ s.tasks;
          },
        )
  unfolding listen_for
  listen_dialled l w d = ground arith

module _ (id : Bytes) (f : Frame) (s : Server) (h : s.clients_mu ≡ free) where
  pub init_unknown : lookup id s.clients ≡ none → handle_init_frame id f s ≡ done (tt, s)
  unfolding handle_init_frame
  init_unknown gone = ground (arith, find_client_locked_lem id s h)

  pub init_global :
      (p : ℕ)
      → lookup id s.clients ≡ some p
      → s.public_listen_addr ≢ []
      → handle_init_frame id f s ≡ done (tt, configured s p [] (pos 0))
  unfolding handle_init_frame
  init_global p found global = ground (arith, find_client_locked_lem id s h)

  pub init_own :
      (p : ℕ)
      → lookup id s.clients ≡ some p
      → s.public_listen_addr ≡ []
      → handle_init_frame id f s ≡ apply_config id p (decode_init_config f.payload) s
  unfolding handle_init_frame
  init_own p found own = ground (arith, find_client_locked_lem id s h)

  pub apply_stops :
      (p : ℕ) (c : InitConfig)
      → (positive c.remote_port ≡ false) ⊎ ((l : ℕ) × ((s.infos p).public_listener ≡ some l))
      → apply_config id p (ok c) s ≡ done (tt, configured s p c.local_addr c.remote_port)
  unfolding apply_config
  apply_stops p c why = ground arith

  pub apply_listens :
      (p : ℕ) (c : InitConfig)
      → positive c.remote_port ≡ true
      → (s.infos p).public_listener ≡ none
      → apply_config id p (ok c) s ≡ listen_for id p (configured s p c.local_addr c.remote_port)
  unfolding apply_config
  apply_listens p c wanted none_yet = ground arith

  pub apply_bad : (p : ℕ) (e : Error) → apply_config id p (err e) s ≡ done (tt, s)
  unfolding apply_config
  apply_bad p e = refl

  pub handle_frame_ignored :
      (f.frame_type == Proto.init) ≡ false
      → (f.frame_type == Proto.data_type) ≡ false
      → (f.frame_type == Proto.close) ≡ false
      → handle_frame id f s ≡ done (tt, s)
  unfolding handle_frame
  handle_frame_ignored a b c = ground arith

  pub handle_data_frame_idle :
      (lookup id s.clients ≡ none)
        ⊎ ((p : ℕ) × (lookup id s.clients ≡ some p)
            × ((lookup f.conn_id (s.infos p).conn_map ≡ none) ⊎ (ltb 0 (length f.payload) ≡ false)))
      → handle_data_frame id f s ≡ done (tt, s)
  unfolding handle_data_frame
  handle_data_frame_idle why = ground (arith, find_client_lem id s h)

  pub written_wrote :
      (c : ℕ)
      → takes s.net c f.payload ≡ true
      → (write c f.payload s.net).1 ≡ wrote s.net c f.payload
  unfolding write
  written_wrote c t = ground arith

  pub close_unknown : lookup id s.clients ≡ none → handle_close_frame id f s ≡ done (tt, s)
  unfolding handle_close_frame
  close_unknown gone = ground (arith, find_client_lem id s h)

  abbrev pub unmapped : ℕ → Server
  unmapped p = record s {
    infos =
        update s.infos p (record (s.infos p) { conn_map = delete f.conn_id (s.infos p).conn_map });
  }

  pub close_unmapped :
      (p : ℕ)
      → lookup id s.clients ≡ some p
      → lookup f.conn_id (s.infos p).conn_map ≡ none
      → handle_close_frame id f s ≡ done (tt, unmapped p)
  unfolding handle_close_frame
  close_unmapped p found gone = ground (arith, find_client_lem id s h)

  pub close_mapped :
      (p c : ℕ)
      → lookup id s.clients ≡ some p
      → lookup f.conn_id (s.infos p).conn_map ≡ some c
      → handle_close_frame id f s ≡ done (tt, record (unmapped p) { net = close c s.net })
  unfolding handle_close_frame
  close_mapped p c found there = ground (arith, find_client_lem id s h)
