-- ===== src/Tunnel/Server/Frames/Kept.antt =====
-- A frame closes what it takes out of a map, and opens no outside connection.
use ngp_mtls.Prelude.{
  ◌∷◌, [], update, ℕ, ◌≡◌, refl, inl, inr, Bool-cases, Option-cases, List-cases, some, Bytes,
  length, ltb, lookup, nat_eq, bytes_eq, arith, pos, ℤ, positive, Result, ok, err, ◌==◌,
  if◌then◌else◌,
}
use ngp_mtls.Proto
use ngp_mtls.Proto.{Frame, bare_frame}
use ngp_mtls.Proto.RoundTrip.{layout}
use ngp_mtls.Proto.Init.{InitConfig, decode_init_config}
use ngp_mtls.Tunnel.Net.{write, wrote, close, opened, takes}
use ngp_mtls.Tunnel.Server.{Server, free, Returns, Returns_mono, send_close_frame, client_listener}
use ngp_mtls.Tunnel.Server.Steps.{send_close_frame-sent, send_close_frame_gone}
use ngp_mtls.Tunnel.Server.Keeping.{
  Keeps, Keeps-trans, Keeps-net, Keeps-refl, Keeps-close, Keeps-write, Keeps-info, Keeps-delete,
  deleted,
}
use ngp_mtls.Tunnel.Server.Frames.{
  handle_data_frame, handle_close_frame, handle_init_frame, handle_frame, apply_config, listen_for,
}
use ngp_mtls.Tunnel.Server.Frames.Handle.{
  handle_data_frame-delivers, handle_data_frame-fails, dropped,
}
use ngp_mtls.Tunnel.Server.Frames.Listens.{IsOffered, grants, refuses}
use ngp_mtls.Tunnel.Server.Frames.Cases.{
  configured, undialled, listen_refused, listen_granted, init_unknown, init_global, init_own,
  apply_stops, apply_listens, apply_bad, handle_frame_ignored, handle_data_frame_idle,
  close_unknown, close_unmapped, close_mapped,
}

-- The goroutines that accept connections do not read them.
listening-Keeps :
    {n : ℕ} (id : Bytes) (l : ℕ) (s : Server)
    → Keeps n s (record s { tasks = client_listener id l ∷ s.tasks })
listening-Keeps id l s = (
  record {
    fresh = refl;
    closed = λ c h o. o;
    entries = λ p k c h. h;
    ids = λ p. omega arith;
    readers = λ p i k c h. elim h [ inl e ↦ absurd cc | inr there ↦ there ];
    started = λ p i k c h. inr h;
  },
  λ p k c h m o. m,
)

configured-Keeps :
    {n : ℕ} (s : Server) (p : ℕ) (addr : Bytes) (port : ℤ) → Keeps n s (configured s p addr port)
configured-Keeps s p addr port =
    Keeps-info s p (record (s.infos p) { local_addr = addr; remote_port = port }) refl (omega arith)

listen_for-Keeps :
    {n : ℕ} (id : Bytes) (p : ℕ) (s : Server)
    → IsOffered n s.net
    → Returns (listen_for id p s) (λ _ s'. Keeps n s s')
listen_for-Keeps id p s (refuses e d) =
    rw (listen_refused id p s e d) (Keeps-net s (undialled s.net) (λ c h o. o))
listen_for-Keeps {n} id p s (grants d) =
    let t = record s { net = opened n (undialled s.net) } in
    let i = record (s.infos p) { public_listener = some n } in
    let u = record t { infos = update s.infos p i } in
    rw (listen_granted id p s n d) (
      Keeps-trans s u _
        (Keeps-trans s t u (Keeps-net s (opened n (undialled s.net)) (λ c h o. ground arith))
          (Keeps-info t p i refl (omega arith)))
        (listening-Keeps id n u))

pub send_close_frame-Keeps :
    (n : ℕ) (id : Bytes) (k : ℕ) (s : Server)
    → s.clients_mu ≡ free
    → Returns (send_close_frame id k s) (λ _ s'. Keeps n s s')
send_close_frame-Keeps n id k s h = elim (Option-cases (lookup id s.clients)) [
  | inl gone ↦ rw (send_close_frame_gone id k s h gone) (Keeps-refl s)
  | inr (p, found) ↦
      rw (send_close_frame-sent id k s p h found)
        (Keeps-write s (s.infos p).conn (layout (bare_frame Proto.close k)))
]

module _ (n : ℕ) (id : Bytes) (f : Frame) (s : Server) (h : s.clients_mu ≡ free) where
  apply_config-Keeps :
      (p : ℕ) (r : Result InitConfig)
      → IsOffered n s.net
      → Returns (apply_config id p r s) (λ _ s'. Keeps n s s')
  apply_config-Keeps p (err e) o = rw (apply_bad id f s h p e) (Keeps-refl s)
  apply_config-Keeps p (ok c) o =
      let changed = configured-Keeps s p c.local_addr c.remote_port in
      let t = configured s p c.local_addr c.remote_port in
      elim (Bool-cases (positive c.remote_port)) [
        | inr unwanted ↦ rw (apply_stops id f s h p c (inl unwanted)) changed
        | inl wanted ↦ elim (Option-cases (s.infos p).public_listener) [
          | inr (l, there) ↦ rw (apply_stops id f s h p c (inr (l, there))) changed
          | inl none_yet ↦ rw (apply_listens id f s h p c wanted none_yet) (
              Returns_mono (listen_for id p t) _ _ (listen_for-Keeps id p t o)
                (λ _ s' m. Keeps-trans s t s' changed m))
        ]
      ]

  handle_init_frame-Keeps :
      IsOffered n s.net → Returns (handle_init_frame id f s) (λ _ s'. Keeps n s s')
  handle_init_frame-Keeps o = elim (Option-cases (lookup id s.clients)) [
    | inl gone ↦ rw (init_unknown id f s h gone) (Keeps-refl s)
    | inr (p, found) ↦ elim (List-cases s.public_listen_addr) [
      | inl own ↦
          rw (init_own id f s h p found own) (apply_config-Keeps p (decode_init_config f.payload) o)
      | inr global ↦ rw (init_global id f s h p found global) (configured-Keeps s p [] (pos 0))
    ]
  ]

  dropped-Keeps :
      (p c : ℕ) (found : lookup id s.clients ≡ some p)
      (there : lookup f.conn_id (s.infos p).conn_map ≡ some c)
      → Keeps n s (dropped id f s p c h found there)
  dropped-Keeps p c found there =
      let t = record s { net = (write c f.payload s.net).1 } in
      let u = record t { net = close c t.net } in
      Keeps-trans s u (deleted p f.conn_id u)
        (Keeps-trans s t u (Keeps-write s c f.payload) (Keeps-close t c))
        (Keeps-delete u p f.conn_id (λ d m. ground (arith, there)))

  handle_data_frame-Keeps : Returns (handle_data_frame id f s) (λ _ s'. Keeps n s s')
  handle_data_frame-Keeps = elim (Option-cases (lookup id s.clients)) [
    | inl gone ↦ rw (handle_data_frame_idle id f s h (inl gone)) (Keeps-refl s)
    | inr (p, found) ↦ elim (Option-cases (lookup f.conn_id (s.infos p).conn_map)) [
      | inl unmapped ↦
          rw (handle_data_frame_idle id f s h (inr (p, found, inl unmapped))) (Keeps-refl s)
      | inr (c, there) ↦ elim (Bool-cases (ltb 0 (length f.payload))) [
        | inr empty ↦
            rw (handle_data_frame_idle id f s h (inr (p, found, inr empty))) (Keeps-refl s)
        | inl ne ↦ elim (Bool-cases (takes s.net c f.payload)) [
          | inl t ↦
              rw (handle_data_frame-delivers id f s p c h found there t (ground arith))
                (Keeps-net s (wrote s.net c f.payload) (λ d below o. o))
          | inr t ↦
              let u = dropped id f s p c h found there in
              rw (handle_data_frame-fails id f s p c h found there t (ground arith)) (
                Returns_mono (send_close_frame id f.conn_id u) _ _
                  (send_close_frame-Keeps n id f.conn_id u h)
                  (λ _ s' m. Keeps-trans s u s' (dropped-Keeps p c found there) m))
        ]
      ]
    ]
  ]

  handle_close_frame-Keeps : Returns (handle_close_frame id f s) (λ _ s'. Keeps n s s')
  handle_close_frame-Keeps = elim (Option-cases (lookup id s.clients)) [
    | inl gone ↦ rw (close_unknown id f s h gone) (Keeps-refl s)
    | inr (p, found) ↦ elim (Option-cases (lookup f.conn_id (s.infos p).conn_map)) [
      | inl unknown ↦
          rw (close_unmapped id f s h p found unknown) (Keeps-delete s p f.conn_id (λ c m. cc))
      | inr (c, there) ↦
          let t = record s { net = close c s.net } in
          rw (close_mapped id f s h p c found there) (
            Keeps-trans s t (deleted p f.conn_id t) (Keeps-close s c)
              (Keeps-delete t p f.conn_id (λ d m. ground (arith, there))))
    ]
  ]

  -- Any frame.
  pub handle_frame-Keeps : IsOffered n s.net → Returns (handle_frame id f s) (λ _ s'. Keeps n s s')
  unfolding handle_frame
  handle_frame-Keeps o = elim (Bool-cases (f.frame_type == Proto.init)) [
    | inl a ↦ rw (a, if◌then◌else◌) (handle_init_frame-Keeps o)
    | inr a ↦ elim (Bool-cases (f.frame_type == Proto.data_type)) [
      | inl b ↦ rw (a, b, if◌then◌else◌) handle_data_frame-Keeps
      | inr b ↦ elim (Bool-cases (f.frame_type == Proto.close)) [
        | inl c ↦ rw (a, b, c, if◌then◌else◌) handle_close_frame-Keeps
        | inr c ↦ rw (handle_frame_ignored id f s h a b c) (Keeps-refl s)
      ]
    ]
  ]
