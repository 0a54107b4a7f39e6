-- ===== src/Tunnel/Server/Frames/Relay.antt =====
-- A run of DATA frames and a CLOSE_CONN frame, as a client sends them for one connection.
use ngp_mtls.Prelude.{
  ℕ, ◌≡◌, refl, ap, ◌∙◌, true, false, none, some, List, [], ◌∷◌, ◌++◌, append_assoc, append-nil,
  Bytes, lookup, lookup-delete, nat_eq, bytes_eq, arith,
}
use ngp_mtls.Proto
use ngp_mtls.Proto.{bare_frame, data_frame, Frame}
use ngp_mtls.Proto.RoundTrip.{data_frames}
use ngp_mtls.Tunnel.Net.{wrote}
use ngp_mtls.Tunnel.Server.{Server, free, done, Returns, Returns_mono}
use ngp_mtls.Tunnel.Server.Steps.{find_client_lem}
use ngp_mtls.Tunnel.Server.Frames.{handle_frame, handle_close_frame}
use ngp_mtls.Tunnel.Server.Frames.Handle.{handle_data_frame-delivers}
use ngp_mtls.Tunnel.Server.Frames.Loop.{handle_all}
use ngp_mtls.Tunnel.Client.Frames.Relay.{concat}

-- The client `id` is at `p`, nobody holds the mutex, and its outside connection `c` is in the map
-- under `k`, open, and takes all that is written to it.
pub record IsRelaying (s : Server) (id : Bytes) (p k c : ℕ) : Type 0 where
  pub unlocked : s.clients_mu ≡ free
  pub registered : lookup id s.clients ≡ some p
  pub mapped : lookup k (s.infos p).conn_map ≡ some c
  pub public_open : s.net.is_open c ≡ true
  pub unlimited : s.net.limit c ≡ none

abbrev delivered : Server → ℕ → Bytes → Server
delivered s c b = record s { net = wrote s.net c b }

module _ (id : Bytes) (p k c : ℕ) where
  delivered-IsRelaying :
      (s : Server) (b : Bytes) → IsRelaying s id p k c → IsRelaying (delivered s c b) id p k c
  delivered-IsRelaying s b v = ground arith

  frame_data :
      (s : Server) (x : ℕ) (b : Bytes)
      → IsRelaying s id p k c
      → handle_frame id (data_frame k (x ∷ b)) s ≡ done (tt, delivered s c (x ∷ b))
  unfolding handle_frame
  frame_data s x b v =
      handle_data_frame-delivers id (data_frame k (x ∷ b)) s p c v.unlocked v.registered v.mapped
        (ground (arith, v.public_open, v.unlimited)) (omega arith)

  all_data :
      (s : Server) (x : ℕ) (b : Bytes) (fs : List Frame)
      → IsRelaying s id p k c
      → handle_all id (data_frame k (x ∷ b) ∷ fs) s ≡ handle_all id fs (delivered s c (x ∷ b))
  unfolding handle_all
  all_data s x b fs v = rw (frame_data s x b v) refl

  all_close :
      (s : Server)
      → IsRelaying s id p k c
      → Returns (handle_all id (bare_frame Proto.close k ∷ []) s) λ _ s'.
        (s'.net.sent c ≡ s.net.sent c)
        × (s'.net.is_open c ≡ false)
        × (lookup k (s'.infos p).conn_map ≡ none)
  unfolding handle_all handle_frame handle_close_frame
  all_close s v = ground (
    arith,
    find_client_lem id s v.unlocked,
    v.registered,
    v.mapped,
    lookup-delete k k (s.infos p).conn_map,
  )

  -- An outside connection that is being relayed is sent exactly the bytes of the reads that the
  -- frames carry, in their order; the CLOSE_CONN frame then closes it and takes its entry out of
  -- the map.
  pub server_handle_all-delivers :
      (bs : List Bytes) (s : Server)
      → IsRelaying s id p k c
      → Returns (handle_all id (data_frames k bs ++ bare_frame Proto.close k ∷ []) s) λ _ s'.
        (s'.net.sent c ≡ s.net.sent c ++ concat bs)
        × (s'.net.is_open c ≡ false)
        × (lookup k (s'.infos p).conn_map ≡ none)
  server_handle_all-delivers [] s v = rw (append-nil (s.net.sent c)) (all_close s v)
  server_handle_all-delivers ([] ∷ bs) s v = server_handle_all-delivers bs s v
  server_handle_all-delivers ((x ∷ b) ∷ bs) s v =
      rw (all_data s x b (data_frames k bs ++ bare_frame Proto.close k ∷ []) v) (
        Returns_mono (handle_all id _ (delivered s c (x ∷ b))) _ _
          (server_handle_all-delivers bs (delivered s c (x ∷ b)) (delivered-IsRelaying s (x ∷ b) v))
          λ _ s' (sent, closed, gone). (
            sent ∙ ap (λ z. z ++ concat bs) now ∙ append_assoc (s.net.sent c) (x ∷ b) (concat bs),
            closed,
            gone,
          ))
    where
      now : (delivered s c (x ∷ b)).net.sent c ≡ s.net.sent c ++ (x ∷ b)
      now = ground (arith, v.unlimited)
