-- ===== src/Tunnel/Server/Frames/Init.antt =====
-- What an INIT frame does.
use ngp_mtls.Prelude.{
  Result-cases, Bool-cases, Option-cases, false, inl, inr, ℕ, ◌≡◌, ◌≢◌, true, none, some, [], ◌∷◌,
  Bytes, lookup, bytes_eq, arith, ok, err, Error, ◌⊎◌, pos, positive,
}
use ngp_mtls.Proto.{Frame}
use ngp_mtls.Proto.Init.{InitConfig, decode_init_config}
use ngp_mtls.Tunnel.Net.{dial}
use ngp_mtls.Tunnel.Server.{Server, free, done, Returns, client_listener}
use ngp_mtls.Tunnel.Server.Steps.{find_client_locked_lem}
use ngp_mtls.Tunnel.Server.Frames.{handle_init_frame, apply_config, listen_for}

module _ (id : Bytes) (f : Frame) (s : Server) (p : ℕ) (h : s.clients_mu ≡ free)
    (found : lookup id s.clients ≡ some p) where
  -- On a server with a public address of its own the payload is not even parsed: the client's address
  -- and port are cleared, and no listener is made.
  pub handle_init_frame_global :
      s.public_listen_addr ≢ []
      → Returns (handle_init_frame id f s) λ _ s'.
        ((s'.infos p).local_addr ≡ [])
        × ((s'.infos p).remote_port ≡ pos 0)
        × ((s'.infos p).public_listener ≡ (s.infos p).public_listener)
        × (s'.net ≡ s.net)
        × (s'.tasks ≡ s.tasks)
  unfolding handle_init_frame
  handle_init_frame_global global = ground (arith, find_client_locked_lem id s h)

  -- On a server without one: a payload that does not parse changes nothing. One that does is
  -- recorded, and then there are three cases. Without a positive port, or with a listener that
  -- the client has already, nothing is asked of the system and no goroutine is started. Otherwise
  -- the system is asked for one listener; if it grants it, that is the client's, and its goroutine is
  -- started; if not, the client has none and no goroutine is started.
  pub handle_init_frame_lem :
      s.public_listen_addr ≡ []
      → ((e : Error) × (decode_init_config f.payload ≡ err e)
          × (handle_init_frame id f s ≡ done (tt, s)))
        ⊎ ((c : InitConfig) × (decode_init_config f.payload ≡ ok c)
            × Returns (handle_init_frame id f s) λ _ s'.
              ((s'.infos p).local_addr ≡ c.local_addr)
              × ((s'.infos p).remote_port ≡ c.remote_port)
              × ((((positive c.remote_port ≡ false)
                      ⊎ ((l : ℕ) × ((s.infos p).public_listener ≡ some l)))
                    × ((s'.infos p).public_listener ≡ (s.infos p).public_listener)
                    × (s'.net ≡ s.net)
                    × (s'.tasks ≡ s.tasks))
                  ⊎ ((positive c.remote_port ≡ true)
                      × ((s.infos p).public_listener ≡ none)
                      × (s'.net ≡ (dial s.net).1)
                      × (((l : ℕ) × ((dial s.net).0 ≡ ok l)
                            × ((s'.infos p).public_listener ≡ some l)
                            × (s'.tasks ≡ client_listener id l ∷ s.tasks))
                          ⊎ ((e : Error) × ((dial s.net).0 ≡ err e)
                              × ((s'.infos p).public_listener ≡ none)
                              × (s'.tasks ≡ s.tasks))))))
  unfolding handle_init_frame apply_config listen_for
  handle_init_frame_lem own = elim (Result-cases (decode_init_config f.payload)) [
    | inl (e, bad) ↦ inl (e, bad, ground (arith, find_client_locked_lem id s h))
    | inr (c, good) ↦ inr (
      c,
      good,
      elim (Bool-cases (positive c.remote_port)) [
        | inr unwanted ↦ ground (arith, find_client_locked_lem id s h)
        | inl wanted ↦ elim (Option-cases (s.infos p).public_listener) [
          | inr (l, there) ↦ ground (arith, find_client_locked_lem id s h)
          | inl none_yet ↦ elim (Result-cases (dial s.net).0) [
            | inl (e, bad) ↦ ground (arith, find_client_locked_lem id s h)
            | inr (l, granted) ↦ ground (arith, find_client_locked_lem id s h)
          ]
        ]
      ],
    )
  ]

  -- The other way round: a positive port, no listener yet, and a system that grants one.
  pub handle_init_frame-listens :
      (c : InitConfig) (l : ℕ)
      → s.public_listen_addr ≡ []
      → decode_init_config f.payload ≡ ok c
      → positive c.remote_port ≡ true
      → (s.infos p).public_listener ≡ none
      → (dial s.net).0 ≡ ok l
      → Returns (handle_init_frame id f s) λ _ s'.
        ((s'.infos p).public_listener ≡ some l)
        × ((s'.infos p).remote_port ≡ c.remote_port)
        × (s'.tasks ≡ client_listener id l ∷ s.tasks)
        × (s'.net ≡ (dial s.net).1)
  unfolding handle_init_frame apply_config listen_for
  handle_init_frame-listens c l own good wanted none_yet granted =
      ground (arith, find_client_locked_lem id s h)
