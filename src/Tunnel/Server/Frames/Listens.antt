-- ===== src/Tunnel/Server/Frames/Listens.antt =====
-- The handler of INIT keeps a sound state, and returns; and so does that of any frame.
use ngp_mtls.Prelude.{
  ℕ, suc, ◌^◌, ◌<◌, ◌≡◌, refl, inl, inr, Bool-cases, Option-cases, [], ◌∷◌, Bytes, lookup, nat_eq,
  bytes_eq, arith, pos, positive, Error, Result, List-cases, ok, err, ◌==◌, if◌then◌else◌,
}
use ngp_mtls.Proto
use ngp_mtls.Proto.{Frame, IsFrame, bare_frame}
use ngp_mtls.Proto.Init.{InitConfig, decode_init_config}
use ngp_mtls.Tunnel.Net.{Net}
use ngp_mtls.Tunnel.Server.{Server, free, Returns, Returns_mono, client_listener}
use ngp_mtls.Tunnel.Server.Sound.{IsSound, IsReady}
use ngp_mtls.Tunnel.Framed.{IsFramed-same}
use ngp_mtls.Tunnel.Server.Sound.Actions.{IsSound-net, IsSound-go, IsSound-later}
use ngp_mtls.Tunnel.Server.Sound.Updates.{IsSound-config}
use ngp_mtls.Tunnel.Server.Sound.Arrivals.{IsSound-opened, IsSound-listener}
use ngp_mtls.Tunnel.Server.Frames.{
  handle_data_frame, handle_close_frame, handle_init_frame, handle_frame, apply_config, listen_for,
}
use ngp_mtls.Tunnel.Server.Frames.Sound.{
  registered_below, handle_data_frame-IsReady, handle_close_frame-IsReady,
}
use ngp_mtls.Tunnel.Server.Frames.Cases.{
  configured, undialled, listen_refused, listen_granted, init_unknown, init_global, init_own,
  apply_stops, apply_listens, apply_bad, handle_frame_ignored,
}

-- The next `Listen` returns `n`, or an error.
pub data IsOffered (n : ℕ) (w : Net) : Type 0 where
  grants : w.dials ≡ ok n ∷ [] → IsOffered n w
  refuses : (e : Error) → w.dials ≡ err e ∷ [] → IsOffered n w

module _ {j n : ℕ} (id : Bytes) (p : ℕ) (s : Server) (v : IsSound j n s) (below : p < s.fresh) where
  undialled-IsSound : IsSound j n (record s { net = undialled s.net })
  undialled-IsSound = IsSound-net s v (undialled s.net) λ q h.
      IsFramed-same s.net (undialled s.net) (s.infos q).conn (v.streams q h) (λ fs q. q) refl refl

  listen_for-IsReady :
      s.clients_mu ≡ free
      → IsOffered n s.net
      → Returns (listen_for id p s) (λ _ s'. IsReady j (suc n) s')
  listen_for-IsReady h (refuses e d) =
      rw (listen_refused id p s e d)
        (IsSound-later j j n (suc n) _ (omega arith) (omega arith) undialled-IsSound, h)
  listen_for-IsReady h (grants d) =
      let got = IsSound-opened _ undialled-IsSound in
      let with_listener = IsSound-listener _ got p below in
      rw (listen_granted id p s n d) (IsSound-go _ with_listener (client_listener id n) tt, h)

module _ {j n : ℕ} (id : Bytes) (f : Frame) (s : Server) (v : IsSound j n s)
    (h : s.clients_mu ≡ free) (offered : IsOffered n s.net) where
  later : {s' : Server} → IsReady j n s' → IsReady j (suc n) s'
  later {s'} (w, u) = (IsSound-later j j n (suc n) s' (omega arith) (omega arith) w, u)

  apply_config-IsReady :
      (p : ℕ) (r : Result InitConfig)
      → p < s.fresh
      → Returns (apply_config id p r s) (λ _ s'. IsReady j (suc n) s')
  apply_config-IsReady p (err e) below = rw (apply_bad id f s h p e) (later (v, h))
  apply_config-IsReady p (ok c) below =
      let set = IsSound-config s v p c.local_addr c.remote_port below in
      elim (Bool-cases (positive c.remote_port)) [
        | inr unwanted ↦ rw (apply_stops id f s h p c (inl unwanted)) (later (set, h))
        | inl wanted ↦ elim (Option-cases (s.infos p).public_listener) [
          | inr (l, there) ↦ rw (apply_stops id f s h p c (inr (l, there))) (later (set, h))
          | inl none_yet ↦ rw (apply_listens id f s h p c wanted none_yet) (
              listen_for-IsReady id p (configured s p c.local_addr c.remote_port) set below h
                offered)
        ]
      ]

  handle_init_frame-IsReady : Returns (handle_init_frame id f s) (λ _ s'. IsReady j (suc n) s')
  handle_init_frame-IsReady = elim (Option-cases (lookup id s.clients)) [
    | inl gone ↦ rw (init_unknown id f s h gone) (later (v, h))
    | inr (p, found) ↦
        let below = registered_below id s p v found in
        elim (List-cases s.public_listen_addr) [
          | inl own ↦
              rw (init_own id f s h p found own)
                (apply_config-IsReady p (decode_init_config f.payload) below)
          | inr global ↦
              rw (init_global id f s h p found global)
                (later (IsSound-config s v p [] (pos 0) below, h))
        ]
  ]

  -- Any frame.
  pub handle_frame-IsReady :
      f.conn_id < 2 ^ 32 → Returns (handle_frame id f s) (λ _ s'. IsReady j (suc n) s')
  unfolding handle_frame
  handle_frame-IsReady fits = elim (Bool-cases (f.frame_type == Proto.init)) [
    | inl a ↦ rw (a, if◌then◌else◌) handle_init_frame-IsReady
    | inr a ↦ elim (Bool-cases (f.frame_type == Proto.data_type)) [
      | inl b ↦
          rw (a, b, if◌then◌else◌)
            (Returns_mono (handle_data_frame id f s) _ _ (handle_data_frame-IsReady id f s v h fits)
              (λ _ s' w. later w))
      | inr b ↦ elim (Bool-cases (f.frame_type == Proto.close)) [
        | inl c ↦
            rw (a, b, c, if◌then◌else◌)
              (Returns_mono (handle_close_frame id f s) _ _ (handle_close_frame-IsReady id f s v h)
                (λ _ s' w. later w))
        | inr c ↦ rw (handle_frame_ignored id f s h a b c) (later (v, h))
      ]
    ]
  ]
