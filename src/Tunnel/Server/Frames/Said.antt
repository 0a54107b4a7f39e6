-- ===== src/Tunnel/Server/Frames/Said.antt =====
-- What the handlers of frames say to the clients: CLOSE_CONN at most.
use ngp_mtls.Prelude.{
  ℕ, ◌^◌, ◌<◌, ◌≡◌, refl, sym, inl, inr, Bool-cases, Option-cases, some, Bytes, length, ltb, lookup,
  nat_eq, bytes_eq, arith,
}
use ngp_mtls.Proto
use ngp_mtls.Proto.{Frame, bare_frame}
use ngp_mtls.Proto.RoundTrip.{bare_frame-IsSendable}
use ngp_mtls.Tunnel.Net.{write, takes}
use ngp_mtls.Tunnel.Server.{Server, free, Returns, Returns_mono, send_close_frame}
use ngp_mtls.Tunnel.Server.Steps.{send_close_frame-sent, send_close_frame_gone}
use ngp_mtls.Tunnel.Server.Sound.{IsSound, control, mapped}
use ngp_mtls.Tunnel.Server.Moves.{
  Moves, nobody, Moves-net, Moves-quiet, Moves-refl, Moves-trans, Moves-send,
}
use ngp_mtls.Tunnel.Saying.{Says-write_other}
use ngp_mtls.Tunnel.Server.Frames.{handle_data_frame, handle_close_frame}
use ngp_mtls.Tunnel.Server.Frames.Handle.{
  handle_data_frame-delivers, handle_data_frame-fails, dropped,
}
use ngp_mtls.Tunnel.Server.Frames.Sound.{registered_below}
use ngp_mtls.Tunnel.Server.Frames.Cases.{
  handle_data_frame_idle, written_wrote, close_unknown, close_unmapped, close_mapped,
}

pub send_close_frame-Moves :
    (id : Bytes) (k : ℕ) (s : Server)
    → s.clients_mu ≡ free
    → k < 2 ^ 32
    → Returns (send_close_frame id k s) (λ _ s'. Moves nobody s s')
send_close_frame-Moves id k s h fits = elim (Option-cases (lookup id s.clients)) [
  | inl gone ↦ rw (send_close_frame_gone id k s h gone) (Moves-refl s)
  | inr (p, found) ↦ rw (send_close_frame-sent id k s p h found) (
      Moves-send s p (bare_frame Proto.close k)
        (bare_frame-IsSendable Proto.close k (omega arith) fits) refl)
]

module _ {j n : ℕ} (id : Bytes) (f : Frame) (s : Server) (v : IsSound j n s)
    (h : s.clients_mu ≡ free) where
  written-Moves :
      (p c : ℕ)
      → p < s.fresh
      → lookup f.conn_id (s.infos p).conn_map ≡ some c
      → Moves nobody s (record s { net = (write c f.payload s.net).1 })
  written-Moves p c below there = Moves-net s (write c f.payload s.net).1 λ q below_q.
      Says-write_other s.net (s.infos q).conn c f.payload
        λ e. cc (v.owners.unique (control q) (mapped p f.conn_id) c (below_q, sym e) (below, there))

  -- Another connection is closed, and leaves the map.
  dropped-Moves :
      (p c : ℕ) (found : lookup id s.clients ≡ some p)
      (there : lookup f.conn_id (s.infos p).conn_map ≡ some c)
      → Moves nobody s (dropped id f s p c h found there)
  dropped-Moves p c found there =
      let wrote_on = record s { net = (write c f.payload s.net).1 } in
      Moves-trans s wrote_on (dropped id f s p c h found there)
        (written-Moves p c (registered_below id s p v found) there)
        (Moves-quiet wrote_on (dropped id f s p c h found there) refl (λ q below. ground arith)
          (λ q below. refl) (λ q below. refl))

  pub handle_data_frame-Moves :
      f.conn_id < 2 ^ 32 → Returns (handle_data_frame id f s) (λ _ s'. Moves nobody s s')
  handle_data_frame-Moves fits = elim (Option-cases (lookup id s.clients)) [
    | inl gone ↦ rw (handle_data_frame_idle id f s h (inl gone)) (Moves-refl s)
    | inr (p, found) ↦ elim (Option-cases (lookup f.conn_id (s.infos p).conn_map)) [
      | inl unmapped ↦
          rw (handle_data_frame_idle id f s h (inr (p, found, inl unmapped))) (Moves-refl s)
      | inr (c, there) ↦ elim (Bool-cases (ltb 0 (length f.payload))) [
        | inr empty ↦
            rw (handle_data_frame_idle id f s h (inr (p, found, inr empty))) (Moves-refl s)
        | inl ne ↦ elim (Bool-cases (takes s.net c f.payload)) [
          | inl t ↦ rw (handle_data_frame-delivers id f s p c h found there t (ground arith)) (
              rw (← written_wrote id f s h c t)
                (written-Moves p c (registered_below id s p v found) there))
          | inr t ↦ rw (handle_data_frame-fails id f s p c h found there t (ground arith)) (
              Returns_mono (send_close_frame id f.conn_id (dropped id f s p c h found there)) _ _
                (send_close_frame-Moves id f.conn_id (dropped id f s p c h found there) h fits)
                (λ _ s' m. Moves-trans s _ s' (dropped-Moves p c found there) m))
        ]
      ]
    ]
  ]

  pub handle_close_frame-Moves : Returns (handle_close_frame id f s) (λ _ s'. Moves nobody s s')
  handle_close_frame-Moves = elim (Option-cases (lookup id s.clients)) [
    | inl gone ↦ rw (close_unknown id f s h gone) (Moves-refl s)
    | inr (p, found) ↦ elim (Option-cases (lookup f.conn_id (s.infos p).conn_map)) [
      | inl unknown ↦
          rw (close_unmapped id f s h p found unknown)
            (Moves-quiet s _ refl (λ q below. ground arith) (λ q below. refl) (λ q below. refl))
      | inr (c, there) ↦
          rw (close_mapped id f s h p c found there)
            (Moves-quiet s _ refl (λ q below. ground arith) (λ q below. refl) (λ q below. refl))
    ]
  ]
