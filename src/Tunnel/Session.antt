-- ===== src/Tunnel/Session.antt =====
-- A whole session through both ends, from the arrival of an outside connection to its end.
pub mod Arriving
use ngp_mtls.Prelude.{
  ℕ, suc, ◌+◌, ◌^◌, ◌<◌, ◌≡◌, ◌≢◌, ap, sym, ◌∙◌, true, false, none, some, List, [], ◌∷◌, ◌++◌,
  append_assoc, append-nil, map, Bytes, length, lookup, lookup-insert, insert, update, nat_eq,
  bytes_eq, arith, Error, Result, All,
}
use ngp_mtls.Proto
use ngp_mtls.Proto.{bare_frame, Frame}
use ngp_mtls.Proto.RoundTrip.{layout, wire, IsSendable, stream}
use ngp_mtls.Tunnel.Net.{Net, takes, write, write-takes}
use ngp_mtls.Tunnel.Relay.{
  relay_upstream, AreReads, relay_frames, relay_frames-IsSendable, length-relay_frames,
}
use ngp_mtls.Tunnel.Server.{Server, free, done, Returns, Returns_mono, ◌>>◌, public_reader}
use ngp_mtls.Tunnel.Server.Public
use ngp_mtls.Tunnel.Server.Public.{handle_public_connection, read_public, announced}
use ngp_mtls.Tunnel.Server.Public.Handle.{
  numbered, accepted_for-announced, announced-stored, handle_public_connection-accepted_for,
}
use ngp_mtls.Tunnel.Server.Public.Reader.{IsReading, read_public_relays}
use ngp_mtls.Tunnel.Server.Frames.{handle_frames}
use ngp_mtls.Tunnel.Server.Frames.Relay.{IsRelaying}
use ngp_mtls.Tunnel.Client.{Client}
use ngp_mtls.Tunnel.Client.Forward
use ngp_mtls.Tunnel.Client.Forward.{forward_local}
use ngp_mtls.Tunnel.Client.Frames.{handle_connection, handle_all}
use ngp_mtls.Tunnel.Client.Frames.Relay.{concat, handle_all-delivers}
use ngp_mtls.Tunnel.Client.Frames.Dialled.{
  IsWilling, dialled, dialled-IsServing, handle_all-dialled, handle_all-alone,
}
use ngp_mtls.Tunnel.Client.Frames.Serve.{handle_connection-wire}
use ngp_mtls.Tunnel.Session.Arriving.{
  IsArriving, stored, write_other, arrives-stored, stored-IsReading, stored_sent, stored_conn,
  stored-IsRelaying,
}

-- A whole session. An outside connection `conn` arrives for a registered client, whose control
-- connection takes all that is written to it; the server's goroutine for it then reads `bs`, each
-- at most 4096 bytes, and the end of the file; nothing else happens in between. What the server has
-- then written to the control connection is some bytes `w`. The client that receives `w`, and then
-- an error, and serves all frames before it takes the error, with a local service that accepts and
-- connections that take all that is written to them, opens the local connection `l`, writes exactly
-- what was read to it, in order and complete, and closes it. Both ends have forgotten the number of
-- the connection, and `conn` is closed.
pub session_downstream :
    (s : Server) (p : ℕ) (id : Bytes) (conn : ℕ) (t : Client) (c l : ℕ) (rest : List (Result ℕ))
    (bs : List Bytes) (served : ℕ) (e : Error)
    → IsArriving s p id conn
    → IsWilling t c l rest
    → AreReads bs
    → suc (length bs) < served
    → let k = (s.infos p).next_conn_id + 1 in
      Returns
        ((do
          handle_public_connection conn id
          read_public p id k conn (map Public.got bs ++ Public.got_eof ∷ []))
          s)
        λ _ s'.
          (s'.net.is_open conn ≡ false)
          × (lookup k (s'.infos p).conn_map ≡ none)
          × ((w : Bytes) × (s'.net.sent (s.infos p).conn ≡ s.net.sent (s.infos p).conn ++ w)
              × ((handle_connection served false (stream w e) t).1.net.sent l ≡ concat bs)
              × ((handle_connection served false (stream w e) t).1.net.is_open l ≡ false)
              × (lookup k (handle_connection served false (stream w e) t).1.conn_map ≡ none))
session_downstream s p id conn t c l rest bs served e v u reads enough =
    let k = (s.infos p).next_conn_id + 1 in
    let fs = bare_frame Proto.new_conn k ∷ relay_frames k bs in
    let sendable : All IsSendable fs = (
      (record { type_fits = omega arith; id_fits = v.below; payload_bytes = tt }, omega arith),
      relay_frames-IsSendable k bs v.below reads,
    ) in
    let (got_all, closed', gone', _) =
      handle_all-delivers k c l bs (dialled t k l rest) (dialled-IsServing t k c l rest u) in
    let all_served =
      handle_connection-wire served fs e t sendable (omega (arith, length-relay_frames k bs)) in
    let same = stored_conn s p id conn v in
    let fresh : (dialled t k l rest).net.sent l ≡ [] = ground arith in
    let after = handle_all-dialled k l (relay_frames k bs) t rest u.dials in
    rw (arrives-stored s p id conn v) (
      Returns_mono (read_public p id k conn _ (stored s p id k conn)) _ _
        (read_public_relays p id k conn bs (stored s p id k conn) (stored-IsReading s p id conn v))
        λ _ s' (_, sent, closed, gone). (
          closed,
          gone,
          (
            wire fs,
            ap s'.net.sent (sym same)
                ∙ sent
                ∙ ap (λ z. z ++ wire (relay_frames k bs))
                    (ap (stored s p id k conn).net.sent same ∙ stored_sent s p id conn v)
                ∙ append_assoc (s.net.sent (s.infos p).conn) (layout (bare_frame Proto.new_conn k))
                    _,
            rw (all_served, after) (got_all ∙ ap (λ z. z ++ concat bs) fresh),
            rw (all_served, after) closed',
            rw (all_served, after) gone',
          ),
        ))

-- The other direction. An outside connection `conn` arrives for a registered client, and what the
-- server then writes to the client is one NEW_CONN frame. The client that handles this frame, with
-- a local service that accepts, reads `bs` from the new local connection `l`, each at most 4096
-- bytes, and then `Read` fails; all connections take what is written to them, and nothing else
-- happens in between. What the client has then written to the server is some bytes `w`; the server
-- that receives `w`, and then an error, writes exactly what was read to `conn`, in order and
-- complete, and closes it. Both ends have forgotten the number of the connection, and `l` is
-- closed.
pub session_upstream :
    (s : Server) (p : ℕ) (id : Bytes) (conn : ℕ) (t : Client) (c l n : ℕ) (rest : List (Result ℕ))
    (bs : List Bytes) (e e' : Error)
    → IsArriving s p id conn
    → s.net.is_open conn ≡ true
    → s.net.limit conn ≡ none
    → IsWilling t c l rest
    → AreReads bs
    → suc (length bs) < n
    → let k = (s.infos p).next_conn_id + 1 in
      let notice = bare_frame Proto.new_conn k ∷ [] in
      let t' = (handle_all notice t).1 in
      let out = (forward_local k l (map Forward.got bs ++ Forward.failed e ∷ []) t').1 in
      Returns (handle_public_connection conn id s) λ _ s'.
        (s'.net.sent (s.infos p).conn ≡ s.net.sent (s.infos p).conn ++ wire notice)
        × (out.net.is_open l ≡ false)
        × (lookup k out.conn_map ≡ none)
        × ((w : Bytes) × (out.net.sent c ≡ t.net.sent c ++ w)
            × Returns (handle_frames n (λ _. false) id (s.infos p).conn (stream w e') s') λ _ s''.
              (s''.net.sent conn ≡ s.net.sent conn ++ concat bs)
              × (s''.net.is_open conn ≡ false)
              × (lookup k (s''.infos p).conn_map ≡ none))
session_upstream s p id conn t c l n rest bs e e' v open_still unlimited u reads enough =
    let k = (s.infos p).next_conn_id + 1 in
    let (shut, gone, (w, sent, up)) =
      relay_upstream (dialled t k l rest) k c l (stored s p id k conn) p id conn (s.infos p).conn n
        bs e e' (dialled-IsServing t k c l rest u)
        (stored-IsRelaying s p id conn v open_still unlimited) v.apart v.below reads enough in
    let after = handle_all-alone k l t rest u.dials in
    let untouched : (stored s p id k conn).net.sent conn ≡ s.net.sent conn =
      write_other (s.infos p).conn conn (layout (bare_frame Proto.new_conn k)) s.net v.apart in
    let kept : (dialled t k l rest).net.sent c ≡ t.net.sent c = ground (arith, u.apart) in
    rw (arrives-stored s p id conn v, after)
      (
        stored_sent s p id conn v
            ∙ ap (λ z. s.net.sent (s.infos p).conn ++ z)
                (sym (append-nil (layout (bare_frame Proto.new_conn k)))),
        shut,
        gone,
        (
          w,
          sent ∙ ap (λ z. z ++ w) kept,
          Returns_mono (handle_frames n (λ _. false) id (s.infos p).conn (stream w e') _) _ _ up
              λ _ s'' (all, closed, out). (all ∙ ap (λ z. z ++ concat bs) untouched, closed, out),
        ),
      )
