-- ===== src/Tunnel/Delivery/Upstream.antt =====
-- The other direction: from the reads of the client's goroutines, in any order of its actions, to
-- the writes of the server.
use ngp_mtls.Prelude.{
  ℕ, ◌<◌, ◌≡◌, ◌≢◌, refl, ap, sym, ◌∙◌, true, false, none, some, List, [], ◌∷◌, ◌++◌, All, Bytes,
  Error, length, lookup, nat_eq, arith,
}
use ngp_mtls.Proto.{Frame}
use ngp_mtls.Proto.RoundTrip.{wire, IsSendable, stream}
use ngp_mtls.Tunnel.Protocol.Announced.{Open}
use ngp_mtls.Tunnel.Protocol.Carried.{bytes_for, bytes_for-append, nothing_carried}
use ngp_mtls.Tunnel.Server.{Server, Returns, Returns-chain}
use ngp_mtls.Tunnel.Server.Frames.{handle_frames}
use ngp_mtls.Tunnel.Server.Frames.Loop.{handle_all, handle_frames-wire}
use ngp_mtls.Tunnel.Server.Frames.Sink.{IsSink}
use ngp_mtls.Tunnel.Server.Frames.Demux.{server_demultiplexes}
use ngp_mtls.Tunnel.Server.System.Order.{wire_inj}
use ngp_mtls.Tunnel.Client.{Client}
use ngp_mtls.Tunnel.Client.System.{Reach}
use ngp_mtls.Tunnel.Client.System.History.{taken, Reach-Told}

all-IsSendable : (xs ys : List Frame) → All IsSendable (xs ++ ys) → All IsSendable ys
all-IsSendable [] ys v = v
all-IsSendable (x ∷ xs) ys v = all-IsSendable xs ys v.1

-- What was written carries what was read.
client_passes_on :
    {n : ℕ} {s : Client} (r : Reach n s) (c k : ℕ) (fs : List Frame)
    → s.control_conn ≡ some c
    → s.net.limit c ≡ none
    → All IsSendable fs
    → s.net.sent c ≡ wire fs
    → bytes_for k fs ≡ taken r k
client_passes_on r c k fs h takes sendable sent =
    let (gs, sendable', sent', carries) = Reach-Told r c h takes in
    let same : fs ≡ gs = wire_inj fs gs sendable sendable' (sym sent ∙ sent') in rw same (carries k)

-- The client has reached, by actions of its goroutines in any order, a state in which what it
-- wrote to its control connection `c`, which takes all that is written to it, is the frames `xs`,
-- none of which is for the number `k`, and `ys`, none of which closes `k`. A server in the state
-- `t`, where `d` is the connection for `k` of this client, open, taking all that is written to it
-- and used for nothing else, receives `ys` and then an error, and nobody else does anything. Then
-- the server's loop ends, and has written to `d` exactly what the rounds of the client's
-- goroutines for `k` have read and passed on since it connected, in order, whatever it did with
-- the other connections of this client; `d` is open and in the map.
pub delivers_upstream :
    {n : ℕ} {s : Client} (r : Reach n s) (c k : ℕ) (xs ys : List Frame) (t : Server) (id : Bytes)
    (p d conn fuel : ℕ) (e : Error)
    → s.control_conn ≡ some c
    → s.net.limit c ≡ none
    → All IsSendable (xs ++ ys)
    → s.net.sent c ≡ wire (xs ++ ys)
    → All (λ f. f.conn_id ≢ k) xs
    → All (Open k) ys
    → IsSink t id p k d
    → conn ≢ d
    → length ys < fuel
    → Returns (handle_frames fuel (λ _. false) id conn (stream (wire ys) e) t) λ ended t'.
      (ended ≡ true)
      × (t'.net.sent d ≡ t.net.sent d ++ taken r k)
      × (t'.net.is_open d ≡ true)
      × (lookup k (t'.infos p).conn_map ≡ some d)
delivers_upstream r c k xs ys t id p d conn fuel e h takes sendable sent before opens v apart
      enough =
    let all : bytes_for k ys ≡ taken r k =
      sym (ap (λ z. z ++ bytes_for k ys) (nothing_carried k xs before))
      ∙ (sym (bytes_for-append k xs ys)
          ∙ client_passes_on r c k (xs ++ ys) h takes sendable sent) in
    rw (handle_frames-wire fuel id conn ys e t (all-IsSendable xs ys sendable) enough) (
      Returns-chain (handle_all id ys t) _
        (λ _ t'. (t'.net.sent d ≡ t.net.sent d ++ bytes_for k ys) × IsSink t' id p k d) _
        (server_demultiplexes id p k d ys t v opens)
        λ _ t' (got, w).
          (refl, got ∙ ap (λ z. t.net.sent d ++ z) all, ground (arith, w.public_open), w.mapped))
