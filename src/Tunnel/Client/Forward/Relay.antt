-- ===== src/Tunnel/Client/Forward/Relay.antt =====
-- The goroutine that reads a local connection: what it reads is what the server is sent.
use ngp_mtls.Prelude.{
  ℕ, ◌≡◌, refl, ap, ◌∙◌, false, none, List, [], ◌∷◌, ◌++◌, append_assoc, append-nil, map, Bytes,
  lookup, lookup-delete, nat_eq, arith, Error,
}
use ngp_mtls.Proto
use ngp_mtls.Proto.{bare_frame, data_frame, Frame}
use ngp_mtls.Proto.RoundTrip.{layout, wire, data_frames}
use ngp_mtls.Tunnel.Net.{write, write-takes, part-within}
use ngp_mtls.Tunnel.Client.{Client}
use ngp_mtls.Tunnel.Client.Steps.{send_lem, send_close_frame-sent, after_send}
use ngp_mtls.Tunnel.Client.Forward.{Poll, got, failed, forward_local, forward_round, forward}
use ngp_mtls.Tunnel.Client.Frames.Relay.{IsServing}

module _ (k c l : ℕ) where
  sent-IsServing : (s : Client) (f : Frame) → IsServing s k c l → IsServing (after_send c f s) k c l
  unfolding write
  sent-IsServing s f v = ground arith

  round_bytes :
      (s : Client) (x : ℕ) (b : Bytes) (polls : List Poll)
      → IsServing s k c l
      → forward_local k l (got (x ∷ b) ∷ polls) s
        ≡ forward_local k l polls (after_send c (data_frame k (x ∷ b)) s)
  unfolding forward_local forward_round forward
  round_bytes s x b polls v = ground (
    arith,
    v.connected,
    send_lem c (data_frame k (x ∷ b)) s,
    write-takes s.net c (layout (data_frame k (x ∷ b))),
  )

  round_empty :
      (s : Client) (polls : List Poll)
      → forward_local k l (got [] ∷ polls) s ≡ forward_local k l polls s
  unfolding forward_local forward_round
  round_empty s polls = refl

  round_failed :
      (s : Client) (e : Error)
      → IsServing s k c l
      → ((forward_local k l (failed e ∷ []) s).0 ≡ false)
        × ((forward_local k l (failed e ∷ []) s).1.net.sent c
            ≡ s.net.sent c ++ layout (bare_frame Proto.close k))
        × ((forward_local k l (failed e ∷ []) s).1.net.is_open l ≡ false)
        × (lookup k (forward_local k l (failed e ∷ []) s).1.conn_map ≡ none)
  unfolding forward_local forward_round write
  round_failed s e v = ground (
    arith,
    send_close_frame-sent k c s v.connected,
    part-within (s.net.limit c) (layout (bare_frame Proto.close k)),
    lookup-delete k k s.conn_map,
  )

  after_sent :
      (s : Client) (f : Frame)
      → IsServing s k c l
      → (after_send c f s).net.sent c ≡ s.net.sent c ++ layout f
  after_sent s f v = (write-takes s.net c (layout f) (ground (arith, v.control_open))).1

  -- As long as nothing interferes, what is read from a local connection goes to the server as DATA
  -- frames with the connection's number, in order and complete, followed by one CLOSE_CONN frame when
  -- `Read` fails or the file ends; then the goroutine returns, with the connection closed and its
  -- entry gone.
  pub forward_local_relays :
      (bs : List Bytes) (e : Error) (s : Client)
      → IsServing s k c l
      → ((forward_local k l (map got bs ++ failed e ∷ []) s).0 ≡ false)
        × ((forward_local k l (map got bs ++ failed e ∷ []) s).1.net.sent c
            ≡ s.net.sent c ++ wire (data_frames k bs ++ bare_frame Proto.close k ∷ []))
        × ((forward_local k l (map got bs ++ failed e ∷ []) s).1.net.is_open l ≡ false)
        × (lookup k (forward_local k l (map got bs ++ failed e ∷ []) s).1.conn_map ≡ none)
  forward_local_relays [] e s v = rw append-nil (round_failed s e v)
  forward_local_relays ([] ∷ bs) e s v =
      rw (round_empty s (map got bs ++ failed e ∷ [])) (forward_local_relays bs e s v)
  forward_local_relays ((x ∷ b) ∷ bs) e s v =
      let f = data_frame k (x ∷ b) in
      let (ended, sent, closed, gone) =
        forward_local_relays bs e (after_send c f s) (sent-IsServing s f v) in
      rw (round_bytes s x b (map got bs ++ failed e ∷ []) v) (
        ended,
        sent
            ∙ ap (λ z. z ++ wire (data_frames k bs ++ bare_frame Proto.close k ∷ []))
                (after_sent s f v)
            ∙ append_assoc (s.net.sent c) (layout f) _,
        closed,
        gone,
      )
