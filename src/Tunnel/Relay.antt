-- ===== src/Tunnel/Relay.antt =====
-- Both ends together: what one end reads from its connection reaches the connection of the other end,
-- through frames on the wire.
use ngp_mtls.Prelude.{
  ℕ, suc, ◌^◌, ◌≤◌, ◌<◌, ◌≡◌, ◌≢◌, false, none, List, [], ◌∷◌, ◌++◌, map, Bytes, IsBytes, length,
  lookup, nat_eq, arith, Error, All,
}
use ngp_mtls.Proto
use ngp_mtls.Proto.{bare_frame, data_frame, Frame, IsFrame}
use ngp_mtls.Proto.RoundTrip.{wire, data_frames, IsSendable, stream}
use ngp_mtls.Tunnel.Server.{Server, Returns, Returns_mono, Returns-chain}
use ngp_mtls.Tunnel.Server.Public
use ngp_mtls.Tunnel.Server.Public.{read_public}
use ngp_mtls.Tunnel.Server.Public.Reader.{IsReading, read_public_relays}
use ngp_mtls.Tunnel.Server.Frames.{handle_frames}
use ngp_mtls.Tunnel.Server.Frames.Loop.{handle_frames-wire, handle_all}
use ngp_mtls.Tunnel.Server.Frames.Relay.{IsRelaying, server_handle_all-delivers}
use ngp_mtls.Tunnel.Client.{Client}
use ngp_mtls.Tunnel.Client.Frames.{handle_connection}
use ngp_mtls.Tunnel.Client.Frames.Relay.{concat, IsServing, handle_all-delivers}
use ngp_mtls.Tunnel.Client.Frames.Serve.{handle_connection-wire}
use ngp_mtls.Tunnel.Client.Forward
use ngp_mtls.Tunnel.Client.Forward.{forward_local}
use ngp_mtls.Tunnel.Client.Forward.Relay.{forward_local_relays}

-- What reads of at most 4096 bytes return.
abbrev pub AreReads : List Bytes → Type 0
AreReads = All (λ b. IsBytes b × (length b ≤ 4096))

-- The frames of one connection.
abbrev pub relay_frames : ℕ → List Bytes → List Frame
relay_frames k bs = data_frames k bs ++ bare_frame Proto.close k ∷ []

pub relay_frames-IsSendable :
    (k : ℕ) (bs : List Bytes) → k < 2 ^ 32 → AreReads bs → All IsSendable (relay_frames k bs)
relay_frames-IsSendable k [] h v =
    ((record { type_fits = omega arith; id_fits = h; payload_bytes = tt }, omega arith), tt)
relay_frames-IsSendable k ([] ∷ bs) h v = relay_frames-IsSendable k bs h v.1
relay_frames-IsSendable k ((x ∷ b) ∷ bs) h ((bytes, short), v) = (
  (record { type_fits = omega arith; id_fits = h; payload_bytes = bytes }, omega arith),
  relay_frames-IsSendable k bs h v,
)

pub length-relay_frames : (k : ℕ) (bs : List Bytes) → length (relay_frames k bs) ≤ suc (length bs)
length-relay_frames k [] = omega arith
length-relay_frames k ([] ∷ bs) = omega (arith, length-relay_frames k bs)
length-relay_frames k ((x ∷ b) ∷ bs) = omega (arith, length-relay_frames k bs)

-- From the outside to the local service. The server has the outside connection `conn` in its
-- map, the client the local connection `l` under the same number, the connections are open and
-- take all that is written, nothing else happens, and a read returns at most 4096 bytes. Then
-- what the server's goroutine reads from `conn` until the end of the file becomes bytes `w` on
-- the control connection; the client that receives `w`, and then an error, and serves all frames
-- before it takes the error, writes exactly what was read to `l`, in order and complete, and
-- closes it. Both entries for the number are gone, and `conn` is closed.
pub relay_downstream :
    (s : Server) (p : ℕ) (id : Bytes) (k conn : ℕ) (t : Client) (c l : ℕ) (bs : List Bytes)
    (served : ℕ) (e : Error)
    → IsReading s p id k conn
    → IsServing t k c l
    → k < 2 ^ 32
    → AreReads bs
    → length bs < served
    → Returns (read_public p id k conn (map Public.got bs ++ Public.got_eof ∷ []) s) λ _ s'.
      (s'.net.is_open conn ≡ false)
      × (lookup k (s'.infos p).conn_map ≡ none)
      × ((w : Bytes) × (s'.net.sent (s.infos p).conn ≡ s.net.sent (s.infos p).conn ++ w)
          × ((handle_connection served false (stream w e) t).1.net.sent l
              ≡ t.net.sent l ++ concat bs)
          × ((handle_connection served false (stream w e) t).1.net.is_open l ≡ false)
          × (lookup k (handle_connection served false (stream w e) t).1.conn_map ≡ none))
relay_downstream s p id k conn t c l bs served e reads serves h v enough =
    Returns_mono (read_public p id k conn _ s) _ _ (read_public_relays p id k conn bs s reads)
      λ _ s' (_, sent, closed, gone).
        let (got_all, closed', gone', _) = handle_all-delivers k c l bs t serves in
        let served_all =
          handle_connection-wire served (relay_frames k bs) e t (relay_frames-IsSendable k bs h v)
            (omega (arith, length-relay_frames k bs)) in
        (
          closed,
          gone,
          (
            wire (relay_frames k bs),
            sent,
            rw served_all got_all,
            rw served_all closed',
            rw served_all gone',
          ),
        )

-- From the local service to the outside. The client has the local connection `l` in its map, the
-- server the outside connection `conn` under the same number, the connections are open and take
-- all that is written, nothing else happens, and a read returns at most 4096 bytes. Then what
-- the client's goroutine reads from `l` until `Read` fails becomes bytes `w` on the control
-- connection; the server that receives `w`, and then an error, writes exactly what was read to
-- `conn`, in order and complete, and closes it. Both entries for the number are gone, and `l` is
-- closed.
pub relay_upstream :
    (t : Client) (k c l : ℕ) (s : Server) (p : ℕ) (id : Bytes) (conn control n : ℕ)
    (bs : List Bytes) (e e' : Error)
    → IsServing t k c l
    → IsRelaying s id p k conn
    → conn ≢ control
    → k < 2 ^ 32
    → AreReads bs
    → suc (length bs) < n
    → ((forward_local k l (map Forward.got bs ++ Forward.failed e ∷ []) t).1.net.is_open l ≡ false)
      × (lookup k (forward_local k l (map Forward.got bs ++ Forward.failed e ∷ []) t).1.conn_map
          ≡ none)
      × ((w : Bytes) × ((forward_local k l
                (map Forward.got bs ++ Forward.failed e ∷ [])
                t).1.net.sent
              c
            ≡ t.net.sent c ++ w)
          × Returns (handle_frames n (λ _. false) id control (stream w e') s) λ _ s'.
            (s'.net.sent conn ≡ s.net.sent conn ++ concat bs)
            × (s'.net.is_open conn ≡ false)
            × (lookup k (s'.infos p).conn_map ≡ none))
relay_upstream t k c l s p id conn control n bs e e' serves relays apart h v enough =
    let (_, sent, closed, gone) = forward_local_relays k c l bs e t serves in
    (
      closed,
      gone,
      (
        wire (relay_frames k bs),
        sent,
        rw
            (handle_frames-wire n id control (relay_frames k bs) e' s
              (relay_frames-IsSendable k bs h v) (omega (arith, length-relay_frames k bs)))
            (Returns-chain (handle_all id (relay_frames k bs) s) _ _ _
              (server_handle_all-delivers id p k conn bs s relays)
              λ _ s' (got_all, closed', gone'). (got_all, ground (arith, closed'), gone')),
      ),
    )
