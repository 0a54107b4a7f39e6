-- ===== src/Tunnel/Server/Frames/Quiet.antt =====
-- The handler of INIT says nothing to the clients; and so a frame is answered with CLOSE_CONN at
-- most.
use ngp_mtls.Prelude.{
  ℕ, ◌^◌, ◌<◌, ◌≡◌, refl, inl, inr, Bool-cases, Option-cases, Bytes, lookup, nat_eq, bytes_eq,
  arith, [], ◌==◌,
}
use ngp_mtls.Proto
use ngp_mtls.Proto.{Frame, bare_frame}
use ngp_mtls.Tunnel.Server.{Server, free, Returns, Returns_mono}
use ngp_mtls.Tunnel.Server.Sound.{IsSound, control}
use ngp_mtls.Tunnel.Server.Moves.{Moves, nobody, Moves-quiet, Moves-refl, Moves-trans}
use ngp_mtls.Tunnel.Server.Frames.Sound.{registered_below}
use ngp_mtls.Prelude.{ok, err, Result, pos, ℤ, positive, List-cases, if◌then◌else◌}
use ngp_mtls.Proto.Init.{InitConfig, decode_init_config}
use ngp_mtls.Tunnel.Server.Frames.{handle_init_frame, handle_frame, apply_config, listen_for}
use ngp_mtls.Tunnel.Server.Sound.Updates.{IsSound-config}
use ngp_mtls.Tunnel.Server.Frames.Said.{handle_data_frame-Moves, handle_close_frame-Moves}
use ngp_mtls.Tunnel.Server.Frames.Listens.{IsOffered, grants, refuses}
use ngp_mtls.Tunnel.Server.Frames.Cases.{
  configured, listen_refused, listen_granted, init_unknown, init_global, init_own, apply_stops,
  apply_listens, apply_bad, handle_frame_ignored,
}

module _ {j n : ℕ} (id : Bytes) (s : Server) (v : IsSound j n s) where
  -- A control connection is not the one that comes next.
  control_below : (q : ℕ) → q < s.fresh → (s.infos q).conn < n
  control_below q below = v.owners.used (control q) (s.infos q).conn (below, refl)

  configured-Moves :
      (f : Frame) (h : s.clients_mu ≡ free) (o : IsOffered n s.net) (p : ℕ) (addr : Bytes)
      (port : ℤ)
      → Moves nobody s (configured s p addr port)
  configured-Moves f h o p addr port =
      Moves-quiet s _ refl (λ q below. ground arith) (λ q below. refl) (λ q below. refl)

module _ {j n : ℕ} (id : Bytes) (p : ℕ) (s : Server) (v : IsSound j n s) (below : p < s.fresh) where
  listen_for-Moves : IsOffered n s.net → Returns (listen_for id p s) (λ _ s'. Moves nobody s s')
  listen_for-Moves (refuses e d) =
      rw (listen_refused id p s e d)
        (Moves-quiet s _ refl (λ q below. refl) (λ q below. refl) (λ q below. refl))
  listen_for-Moves (grants d) = rw (listen_granted id p s n d) (
      Moves-quiet s _ refl (λ q below. ground arith)
        (λ q below. ground (arith, control_below id s v q below)) (λ q below. refl))

module _ {j n : ℕ} (id : Bytes) (f : Frame) (s : Server) (v : IsSound j n s)
    (h : s.clients_mu ≡ free) (o : IsOffered n s.net) where
  apply_config-Moves :
      (p : ℕ) (r : Result InitConfig)
      → p < s.fresh
      → Returns (apply_config id p r s) (λ _ s'. Moves nobody s s')
  apply_config-Moves p (err e) below = rw (apply_bad id f s h p e) (Moves-refl s)
  apply_config-Moves p (ok c) below =
      let set = IsSound-config s v p c.local_addr c.remote_port below in
      let changed = configured-Moves id s v f h o p c.local_addr c.remote_port in
      let t = configured s p c.local_addr c.remote_port in
      elim (Bool-cases (positive c.remote_port)) [
        | inr unwanted ↦ rw (apply_stops id f s h p c (inl unwanted)) changed
        | inl wanted ↦ elim (Option-cases (s.infos p).public_listener) [
          | inr (l, there) ↦ rw (apply_stops id f s h p c (inr (l, there))) changed
          | inl none_yet ↦ rw (apply_listens id f s h p c wanted none_yet) (
              Returns_mono (listen_for id p t) _ _ (listen_for-Moves id p t set below o)
                (λ _ s' m. Moves-trans s t s' changed m))
        ]
      ]

  handle_init_frame-Moves : Returns (handle_init_frame id f s) (λ _ s'. Moves nobody s s')
  handle_init_frame-Moves = elim (Option-cases (lookup id s.clients)) [
    | inl gone ↦ rw (init_unknown id f s h gone) (Moves-refl s)
    | inr (p, found) ↦ elim (List-cases s.public_listen_addr) [
      | inl own ↦
          rw (init_own id f s h p found own)
            (apply_config-Moves p (decode_init_config f.payload) (registered_below id s p v found))
      | inr global ↦
          rw (init_global id f s h p found global) (configured-Moves id s v f h o p [] (pos 0))
    ]
  ]

  -- Any frame.
  pub handle_frame-Moves :
      f.conn_id < 2 ^ 32 → Returns (handle_frame id f s) (λ _ s'. Moves nobody s s')
  unfolding handle_frame
  handle_frame-Moves fits = elim (Bool-cases (f.frame_type == Proto.init)) [
    | inl a ↦ rw (a, if◌then◌else◌) handle_init_frame-Moves
    | inr a ↦ elim (Bool-cases (f.frame_type == Proto.data_type)) [
      | inl b ↦ rw (a, b, if◌then◌else◌) (handle_data_frame-Moves id f s v h fits)
      | inr b ↦ elim (Bool-cases (f.frame_type == Proto.close)) [
        | inl c ↦ rw (a, b, c, if◌then◌else◌) (handle_close_frame-Moves id f s v h)
        | inr c ↦ rw (handle_frame_ignored id f s h a b c) (Moves-refl s)
      ]
    ]
  ]
