-- ===== src/Tunnel/Client/Frames/Relay.antt =====
-- A run of DATA frames and a CLOSE_CONN frame, as the server sends them for one connection.
use ngp_mtls.Prelude.{
  ℕ, ◌≡◌, ◌≢◌, refl, ap, ◌∙◌, true, false, none, some, List, [], ◌∷◌, ◌++◌, append_assoc,
  append-nil, Bytes, lookup, delete, lookup-delete, nat_eq, arith,
}
use ngp_mtls.Proto
use ngp_mtls.Proto.{bare_frame, data_frame, Frame}
use ngp_mtls.Proto.RoundTrip.{layout, data_frames}
use ngp_mtls.Tunnel.Net.{wrote, write, close, part-within}
use ngp_mtls.Tunnel.Client.{Client}
use ngp_mtls.Tunnel.Client.Steps.{send_close_frame-sent}
use ngp_mtls.Tunnel.Client.Frames.{handle_frame, handle_all, handle_close_frame}
use ngp_mtls.Tunnel.Client.Frames.Handle.{handle_data_frame-delivers}

-- All bytes of a list of reads.
abbrev pub concat : List Bytes → Bytes
concat [] = []
concat (b ∷ bs) = b ++ concat bs

-- The local connection `l` is in the map under `k`, and it and the control connection `c` are open
-- and take all that is written to them.
pub record IsServing (s : Client) (k c l : ℕ) : Type 0 where
  pub connected : s.control_conn ≡ some c
  pub mapped : lookup k s.conn_map ≡ some l
  pub control_open : s.net.is_open c ≡ true
  pub local_open : s.net.is_open l ≡ true
  pub control_unlimited : s.net.limit c ≡ none
  pub local_unlimited : s.net.limit l ≡ none
  pub apart : c ≢ l

abbrev delivered : Client → ℕ → Bytes → Client
delivered s l b = record s { net = wrote s.net l b }

module _ (k c l : ℕ) where
  delivered-IsServing :
      (s : Client) (b : Bytes) → IsServing s k c l → IsServing (delivered s l b) k c l
  delivered-IsServing s b v = ground arith

  frame_data :
      (s : Client) (x : ℕ) (b : Bytes)
      → IsServing s k c l
      → handle_frame (data_frame k (x ∷ b)) s ≡ (none, delivered s l (x ∷ b))
  unfolding handle_frame
  frame_data s x b v =
      handle_data_frame-delivers (data_frame k (x ∷ b)) s l v.mapped (omega arith)
        (ground (arith, v.local_open, v.local_unlimited))

  frame_close :
      (s : Client)
      → IsServing s k c l
      → ((handle_frame (bare_frame Proto.close k) s).1.net.sent l ≡ s.net.sent l)
        × ((handle_frame (bare_frame Proto.close k) s).1.net.is_open l ≡ false)
        × (lookup k (handle_frame (bare_frame Proto.close k) s).1.conn_map ≡ none)
        × ((handle_frame (bare_frame Proto.close k) s).1.net.sent c
            ≡ s.net.sent c ++ layout (bare_frame Proto.close k))
  unfolding handle_frame handle_close_frame write
  frame_close s v = ground (
    arith,
    v.mapped,
    send_close_frame-sent k c (record s { net = close l s.net; conn_map = delete k s.conn_map }),
    lookup-delete k k s.conn_map,
    part-within (s.net.limit c) (layout (bare_frame Proto.close k)),
  )

  all_data :
      (s : Client) (x : ℕ) (b : Bytes) (fs : List Frame)
      → IsServing s k c l
      → handle_all (data_frame k (x ∷ b) ∷ fs) s ≡ handle_all fs (delivered s l (x ∷ b))
  unfolding handle_all
  all_data s x b fs v = ap (λ z. handle_all fs z.1) (frame_data s x b v)

  all_close :
      (s : Client)
      → handle_all (bare_frame Proto.close k ∷ []) s
        ≡ (tt, (handle_frame (bare_frame Proto.close k) s).1)
  unfolding handle_all
  all_close s = refl

  -- A local connection that is being served is sent exactly the bytes of the reads that the frames
  -- carry, in their order; the CLOSE_CONN frame then closes it, takes its entry out of the map, and
  -- is answered by a CLOSE_CONN frame, the only bytes that go to the server.
  pub handle_all-delivers :
      (bs : List Bytes) (s : Client)
      → IsServing s k c l
      → ((handle_all (data_frames k bs ++ bare_frame Proto.close k ∷ []) s).1.net.sent l
          ≡ s.net.sent l ++ concat bs)
        × ((handle_all (data_frames k bs ++ bare_frame Proto.close k ∷ []) s).1.net.is_open l
            ≡ false)
        × (lookup k (handle_all (data_frames k bs ++ bare_frame Proto.close k ∷ []) s).1.conn_map
            ≡ none)
        × ((handle_all (data_frames k bs ++ bare_frame Proto.close k ∷ []) s).1.net.sent c
            ≡ s.net.sent c ++ layout (bare_frame Proto.close k))
  handle_all-delivers [] s v = rw (append-nil (s.net.sent l), all_close s) (frame_close s v)
  handle_all-delivers ([] ∷ bs) s v = handle_all-delivers bs s v
  handle_all-delivers ((x ∷ b) ∷ bs) s v =
      rw (all_data s x b (data_frames k bs ++ bare_frame Proto.close k ∷ []) v) (
        let (sent, closed, gone, echo) =
          handle_all-delivers bs (delivered s l (x ∷ b)) (delivered-IsServing s (x ∷ b) v) in
        (
          sent ∙ ap (λ z. z ++ concat bs) now ∙ append_assoc (s.net.sent l) (x ∷ b) (concat bs),
          closed,
          gone,
          echo ∙ ap (λ z. z ++ layout (bare_frame Proto.close k)) before,
        ))
    where
      now : (delivered s l (x ∷ b)).net.sent l ≡ s.net.sent l ++ (x ∷ b)
      now = ground (arith, v.local_unlimited)

      before : (delivered s l (x ∷ b)).net.sent c ≡ s.net.sent c
      before = ground (arith, v.apart)
