-- ===== src/Tunnel/Server/Frames/Sound.antt =====
-- The handlers of DATA and CLOSE keep a sound state, and return.
use ngp_mtls.Prelude.{
  ℕ, ◌^◌, ◌<◌, ◌≡◌, inl, inr, Bool-cases, Option-cases, some, Bytes, length, ltb, lookup, nat_eq,
  bytes_eq, arith,
}
use ngp_mtls.Proto
use ngp_mtls.Proto.{Frame, IsFrame, bare_frame}
use ngp_mtls.Proto.RoundTrip.{bare_frame-IsSendable}
use ngp_mtls.Tunnel.Net.{takes}
use ngp_mtls.Tunnel.Server.{Server, free, Returns, send_close_frame}
use ngp_mtls.Tunnel.Server.Steps.{send_close_frame-sent, send_close_frame_gone}
use ngp_mtls.Tunnel.Protocol.{Speaks-close}
use ngp_mtls.Tunnel.Server.Sound.{IsSound, IsReady}
use ngp_mtls.Tunnel.Server.Sound.Actions.{IsSound-close, IsSound-send, IsSound-write}
use ngp_mtls.Tunnel.Server.Sound.Updates.{IsSound-delete}
use ngp_mtls.Tunnel.Server.Frames.{handle_data_frame, handle_close_frame}
use ngp_mtls.Tunnel.Server.Frames.Handle.{
  handle_data_frame-delivers, handle_data_frame-fails, dropped,
}
use ngp_mtls.Tunnel.Server.Frames.Cases.{
  handle_data_frame_idle, written_wrote, close_unknown, close_unmapped, close_mapped,
}

-- The record of a registered client is allocated.
pub registered_below :
    {j n : ℕ} (id : Bytes) (s : Server) (p : ℕ)
    → IsSound j n s
    → lookup id s.clients ≡ some p
    → p < s.fresh
registered_below id s p v found = (v.numbered.names id p found).0

pub send_close_frame-IsReady :
    {j n : ℕ} (id : Bytes) (k : ℕ) (s : Server)
    → IsReady j n s
    → k < 2 ^ 32
    → Returns (send_close_frame id k s) (λ _ s'. IsReady j n s')
send_close_frame-IsReady id k s (v, h) fits = elim (Option-cases (lookup id s.clients)) [
  | inl gone ↦ rw (send_close_frame_gone id k s h gone) (v, h)
  | inr (p, found) ↦ rw (send_close_frame-sent id k s p h found) (
    IsSound-send s v p (bare_frame Proto.close k) (registered_below id s p v found)
        (bare_frame-IsSendable Proto.close k (omega arith) fits) (Speaks-close k (s.infos p)),
    h,
  )
]

module _ {j n : ℕ} (id : Bytes) (f : Frame) (s : Server) (v : IsSound j n s)
    (h : s.clients_mu ≡ free) where
  data_mapped :
      (p c : ℕ)
      → f.conn_id < 2 ^ 32
      → lookup id s.clients ≡ some p
      → lookup f.conn_id (s.infos p).conn_map ≡ some c
      → 0 < length f.payload
      → Returns (handle_data_frame id f s) (λ _ s'. IsReady j n s')
  data_mapped p c fits found there ne =
      let below = registered_below id s p v found in
      let wrote_on = IsSound-write s v p f.conn_id c f.payload below there in
      elim (Bool-cases (takes s.net c f.payload)) [
        | inl t ↦
            rw (handle_data_frame-delivers id f s p c h found there t ne)
              (rw (← written_wrote id f s h c t) (wrote_on, h))
        | inr t ↦
            let closed = IsSound-close _ wrote_on c in
            let out = IsSound-delete _ closed p f.conn_id below in
            rw (handle_data_frame-fails id f s p c h found there t ne) (
              send_close_frame-IsReady id f.conn_id (dropped id f s p c h found there) (out, h)
                fits)
      ]

  pub handle_data_frame-IsReady :
      f.conn_id < 2 ^ 32 → Returns (handle_data_frame id f s) (λ _ s'. IsReady j n s')
  handle_data_frame-IsReady fits = elim (Option-cases (lookup id s.clients)) [
    | inl gone ↦ rw (handle_data_frame_idle id f s h (inl gone)) (v, h)
    | inr (p, found) ↦ elim (Option-cases (lookup f.conn_id (s.infos p).conn_map)) [
      | inl unmapped ↦ rw (handle_data_frame_idle id f s h (inr (p, found, inl unmapped))) (v, h)
      | inr (c, there) ↦ elim (Bool-cases (ltb 0 (length f.payload))) [
        | inr empty ↦ rw (handle_data_frame_idle id f s h (inr (p, found, inr empty))) (v, h)
        | inl ne ↦ data_mapped p c fits found there (ground arith)
      ]
    ]
  ]

  pub handle_close_frame-IsReady : Returns (handle_close_frame id f s) (λ _ s'. IsReady j n s')
  handle_close_frame-IsReady = elim (Option-cases (lookup id s.clients)) [
    | inl gone ↦ rw (close_unknown id f s h gone) (v, h)
    | inr (p, found) ↦
        let out = IsSound-delete s v p f.conn_id (registered_below id s p v found) in
        elim (Option-cases (lookup f.conn_id (s.infos p).conn_map)) [
          | inl unknown ↦ rw (close_unmapped id f s h p found unknown) (out, h)
          | inr (c, there) ↦ rw (close_mapped id f s h p c found there) (IsSound-close _ out c, h)
        ]
  ]
