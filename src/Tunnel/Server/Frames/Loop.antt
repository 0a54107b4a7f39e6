-- ===== src/Tunnel/Server/Frames/Loop.antt =====
-- The loop over a client's frames: it returns, it handles the frames in their order, and it leaves
-- the client unregistered.
use ngp_mtls.Prelude.{
  ℕ, zero, suc, ◌<◌, ◌≡◌, refl, sym, ◌∙◌, Bool, true, false, Bool-cases, Result-cases, Option-cases,
  List, [], ◌∷◌, Bytes, length, lookup, nat_eq, bytes_eq, arith, ok, err, Error, Result, inl, inr,
  All,
}
use ngp_mtls.Proto
use ngp_mtls.Proto.{bare_frame, Frame, IsFrame, Stream, encode_frame, decode_frame}
use ngp_mtls.Proto.RoundTrip.{wire, IsSendable, stream, encode_frame-layout, decode_frame-layout}
use ngp_mtls.Proto.Errors.{decode_frame_end}
use ngp_mtls.Proto.Sound.{decode_frame_shorter}
use ngp_mtls.Proto.Init.{InitConfig, decode_init_config}
use ngp_mtls.Tunnel.Server.{
  Server, free, M, pure, ◌>>◌, find_client, rlock, runlock, send, write_conn, send_close_frame,
  Returns, Returns-chain, chain_congr, chain_assoc, close_conn,
}
use ngp_mtls.Tunnel.Server.Steps.{find_client_lem, find_client_locked_lem}
use ngp_mtls.Tunnel.Server.Frames.{
  handle_data_frame, handle_close_frame, handle_init_frame, handle_frame, apply_config, listen_for,
  handle_frames,
}

-- What handling a frame keeps, whoever sent it.
record Kept (s s' : Server) : Type 0 where
  unlocked : s'.clients_mu ≡ free
  clients : s'.clients ≡ s.clients

module _ (id : Bytes) (f : Frame) (s : Server) (h : s.clients_mu ≡ free) where
  handle_data_frame-Kept : Returns (handle_data_frame id f s) (λ _ s'. Kept s s')
  unfolding handle_data_frame write_conn send_close_frame send find_client rlock runlock
  handle_data_frame-Kept = ground (arith, encode_frame-layout (bare_frame Proto.close f.conn_id))

  handle_close_frame-Kept : Returns (handle_close_frame id f s) (λ _ s'. Kept s s')
  unfolding handle_close_frame
  handle_close_frame-Kept = ground (arith, find_client_lem id s h)

  apply_config-Kept :
      (p : ℕ) (r : Result InitConfig) → Returns (apply_config id p r s) (λ _ s'. Kept s s')
  unfolding apply_config listen_for
  apply_config-Kept p (err e) = ground arith
  apply_config-Kept p (ok c) = ground arith

  handle_init_frame-Kept : Returns (handle_init_frame id f s) (λ _ s'. Kept s s')
  unfolding handle_init_frame
  handle_init_frame-Kept = elim (Option-cases (lookup id s.clients)) [
    | inl gone ↦ ground (arith, find_client_locked_lem id s h)
    | inr (p, found) ↦
        ground
          (arith, find_client_locked_lem id s h, apply_config-Kept p (decode_init_config f.payload))
  ]

  handle_frame-Kept : Returns (handle_frame id f s) (λ _ s'. Kept s s')
  unfolding handle_frame
  handle_frame-Kept =
      ground (arith, handle_init_frame-Kept, handle_data_frame-Kept, handle_close_frame-Kept)

-- One round of the loop.
module _ (n : ℕ) (ctx : ℕ → Bool) (id : Bytes) (conn : ℕ) (r : Stream) (s : Server) where
  round_cancelled :
      ctx n ≡ true → handle_frames (suc n) ctx id conn r s ≡ (do close_conn conn; pure true) s
  unfolding handle_frames
  round_cancelled e = rw (e, handle_frames)

  round_ended :
      (e : Error)
      → ctx n ≡ false
      → decode_frame r ≡ err e
      → handle_frames (suc n) ctx id conn r s ≡ (do close_conn conn; pure true) s
  unfolding handle_frames
  round_ended e running d = rw (running, d, handle_frames)

  round_decoded :
      (f : Frame) (rest : Stream)
      → ctx n ≡ false
      → decode_frame r ≡ ok (f, rest)
      → handle_frames (suc n) ctx id conn r s
        ≡ (do handle_frame id f; handle_frames n ctx id conn rest) s
  unfolding handle_frames
  round_decoded f rest running d = rw (running, d, handle_frames)

-- If nobody holds the mutex when it starts, `handleFramesFromClient` returns whatever bytes
-- arrive and whenever the context is cancelled: one round more than there are bytes is enough.
-- By then it has closed the control connection, nobody holds the mutex, and the table of clients
-- is the same.
pub handle_frames_returns :
    (n : ℕ) (ctx : ℕ → Bool) (id : Bytes) (conn : ℕ) (r : Stream) (s : Server)
    → length r.bytes < n
    → s.clients_mu ≡ free
    → Returns (handle_frames n ctx id conn r s) λ ended s'.
      (ended ≡ true)
      × (s'.net.is_open conn ≡ false)
      × (s'.clients_mu ≡ free)
      × (s'.clients ≡ s.clients)
handle_frames_returns zero ctx id conn r s fuel h = absurd (omega arith)
handle_frames_returns (suc n) ctx id conn r s fuel h = elim (Bool-cases (ctx n)) [
  | inl stop ↦ rw (round_cancelled n ctx id conn r s stop) (ground arith)
  | inr running ↦ elim (Result-cases (decode_frame r)) [
    | inl (e, d) ↦ rw (round_ended n ctx id conn r s e running d) (ground arith)
    | inr ((f, rest), d) ↦ rw (round_decoded n ctx id conn r s f rest running d) (
        Returns-chain (handle_frame id f s) _ (λ _ s'. Kept s s') _ (handle_frame-Kept id f s h)
          λ _ s' k. rw (← k.clients) (
            handle_frames_returns n ctx id conn rest s'
              (omega (arith, decode_frame_shorter r f rest d)) k.unlocked))
  ]
]

-- The frames one after the other.
unfoldable pub handle_all : Bytes → List Frame → M (Unit {0})
handle_all id [] = pure tt
handle_all id (f ∷ fs) = do handle_frame id f; handle_all id fs

-- When the bytes of a list of frames, each with fields in range and a payload shorter than 2^32
-- bytes, arrive and then the stream ends, and the context is not cancelled, the loop handles
-- exactly these frames in their order, and closes the connection: one round more than there are
-- frames is enough.
pub handle_frames-wire :
    (n : ℕ) (id : Bytes) (conn : ℕ) (fs : List Frame) (e : Error) (s : Server)
    → All IsSendable fs
    → length fs < n
    → handle_frames n (λ _. false) id conn (stream (wire fs) e) s
      ≡ (do handle_all id fs; close_conn conn; pure true) s
unfolding handle_all
handle_frames-wire zero id conn fs e s v fuel = absurd (omega arith)
handle_frames-wire (suc n) id conn [] e s v fuel =
    round_ended n (λ _. false) id conn (stream [] e) s e refl (decode_frame_end e)
handle_frames-wire (suc n) id conn (f ∷ fs) e s v fuel =
    let d = decode_frame-layout f (wire fs) e v.0.0 v.0.1 in
    round_decoded n (λ _. false) id conn (stream (wire (f ∷ fs)) e) s f (stream (wire fs) e) refl d
    ∙ chain_congr (handle_frame id f s) _ _
        (λ _ s'. handle_frames-wire n id conn fs e s' v.1 (omega arith))
    ∙ sym (chain_assoc (handle_frame id f s) _ _)
