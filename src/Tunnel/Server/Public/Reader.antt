-- ===== src/Tunnel/Server/Public/Reader.antt =====
-- The goroutine that reads an outside connection: what it reads is what the client is sent.
use ngp_mtls.Prelude.{
  ℕ, ◌≡◌, ◌≢◌, ap, ◌∙◌, true, false, none, some, List, [], ◌∷◌, ◌++◌, append_assoc, append-nil, map,
  Bytes, lookup, lookup-delete, nat_eq, bytes_eq, arith,
}
use ngp_mtls.Proto
use ngp_mtls.Proto.{bare_frame, data_frame, Frame}
use ngp_mtls.Proto.RoundTrip.{layout, wire, data_frames}
use ngp_mtls.Tunnel.Net.{write, write-takes}
use ngp_mtls.Tunnel.Server.{Server, free, Returns, Returns_mono}
use ngp_mtls.Tunnel.Server.Steps.{send_lem, send_close_frame-sent}
use ngp_mtls.Tunnel.Server.Public.{
  Poll, got, got_eof, read_public, reader_round, reader_exit, after_read, forward,
}

-- The goroutine of connection `k` of the client at `p`, while nothing interferes: the client is
-- registered, the entry is there, and the control connection takes all that is written to it.
pub record IsReading (s : Server) (p : ℕ) (id : Bytes) (k conn : ℕ) : Type 0 where
  pub unlocked : s.clients_mu ≡ free
  pub registered : lookup id s.clients ≡ some p
  pub mapped : lookup k (s.infos p).conn_map ≡ some conn
  pub control_open : s.net.is_open (s.infos p).conn ≡ true
  pub unlimited : s.net.limit (s.infos p).conn ≡ none
  pub apart : conn ≢ (s.infos p).conn

-- After a DATA frame.
abbrev forwarded : Server → ℕ → ℕ → Bytes → Server
forwarded s p k b = record s { net = (write (s.infos p).conn (layout (data_frame k b)) s.net).1 }

module _ (p : ℕ) (id : Bytes) (k conn : ℕ) where
  forwarded-IsReading :
      (s : Server) (b : Bytes) → IsReading s p id k conn → IsReading (forwarded s p k b) p id k conn
  unfolding write
  forwarded-IsReading s b v = ground arith

  forwarded_sent :
      (s : Server) (b : Bytes)
      → IsReading s p id k conn
      → (forwarded s p k b).net.sent (s.infos p).conn
        ≡ s.net.sent (s.infos p).conn ++ layout (data_frame k b)
  forwarded_sent s b v = (write-takes s.net (s.infos p).conn _ (ground (arith, v.control_open))).1

  round_empty :
      (s : Server) (polls : List Poll)
      → IsReading s p id k conn
      → read_public p id k conn (got [] ∷ polls) s ≡ read_public p id k conn polls s
  unfolding read_public reader_round after_read
  round_empty s polls v = ground (arith, v.mapped)

  round_bytes :
      (s : Server) (x : ℕ) (b : Bytes) (polls : List Poll)
      → IsReading s p id k conn
      → read_public p id k conn (got (x ∷ b) ∷ polls) s
        ≡ read_public p id k conn polls (forwarded s p k (x ∷ b))
  unfolding read_public reader_round after_read forward
  round_bytes s x b polls v = ground (
    arith,
    v.mapped,
    send_lem (s.infos p).conn (data_frame k (x ∷ b)) s,
    write-takes s.net (s.infos p).conn (layout (data_frame k (x ∷ b))),
  )

  round_eof :
      (s : Server)
      → IsReading s p id k conn
      → Returns (read_public p id k conn (got_eof ∷ []) s) λ again s'.
        (again ≡ false)
        × (s'.net.sent (s.infos p).conn
            ≡ s.net.sent (s.infos p).conn ++ layout (bare_frame Proto.close k))
        × (s'.net.is_open conn ≡ false)
        × (lookup k (s'.infos p).conn_map ≡ none)
  unfolding read_public reader_round reader_exit after_read
  round_eof s v = ground (
    arith,
    v.mapped,
    send_close_frame-sent id k s p v.unlocked v.registered,
    write-takes s.net (s.infos p).conn (layout (bare_frame Proto.close k)),
    lookup-delete k k (s.infos p).conn_map,
  )

  -- As long as nothing interferes, what is read from an outside connection goes to the client as DATA
  -- frames with the connection's number, in order and complete, followed by one CLOSE_CONN frame at
  -- the end of the file; then the goroutine returns, with the connection closed and its entry gone.
  pub read_public_relays :
      (bs : List Bytes) (s : Server)
      → IsReading s p id k conn
      → Returns (read_public p id k conn (map got bs ++ got_eof ∷ []) s) λ again s'.
        (again ≡ false)
        × (s'.net.sent (s.infos p).conn
            ≡ s.net.sent (s.infos p).conn
              ++ wire (data_frames k bs ++ bare_frame Proto.close k ∷ []))
        × (s'.net.is_open conn ≡ false)
        × (lookup k (s'.infos p).conn_map ≡ none)
  read_public_relays [] s v = rw append-nil (round_eof s v)
  read_public_relays ([] ∷ bs) s v = rw (round_empty s _ v) (read_public_relays bs s v)
  read_public_relays ((x ∷ b) ∷ bs) s v = rw (round_bytes s x b _ v) (
      Returns_mono (read_public p id k conn _ (forwarded s p k (x ∷ b))) _ _
        (read_public_relays bs (forwarded s p k (x ∷ b)) (forwarded-IsReading s (x ∷ b) v))
        λ again s' (ended, sent, closed, gone). (
          ended,
          sent
              ∙ ap (λ z. z ++ wire (data_frames k bs ++ bare_frame Proto.close k ∷ []))
                  (forwarded_sent s (x ∷ b) v)
              ∙ append_assoc (s.net.sent (s.infos p).conn) (layout (data_frame k (x ∷ b))) _,
          closed,
          gone,
        ))
