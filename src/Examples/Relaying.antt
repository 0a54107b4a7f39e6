-- ===== src/Examples/Relaying.antt =====
-- Whole sessions through both ends.
use ngp_mtls.Prelude.{
  ◌≡◌, refl, ok, false, none, List, [], ◌∷◌, ◌++◌, map, Bytes, codes, lookup, nat_eq, bytes_eq,
  arith, eof,
}
use ngp_mtls.Proto.RoundTrip.{wire, stream}
use ngp_mtls.Tunnel.Server.{Returns, ◌>>◌}
use ngp_mtls.Examples.Data.{name, server, registered_name}
use ngp_mtls.Examples.Data.{client}
use ngp_mtls.Tunnel.Server.Public
use ngp_mtls.Tunnel.Server.Public.{handle_public_connection, read_public}
use ngp_mtls.Tunnel.Server.Frames.{handle_frames}
use ngp_mtls.Tunnel.Client.Frames.{handle_connection, handle_all}
use ngp_mtls.Tunnel.Client.Frames.Relay.{concat}
use ngp_mtls.Tunnel.Client.Forward
use ngp_mtls.Tunnel.Client.Forward.{forward_local}
use ngp_mtls.Tunnel.Relay.{AreReads}
use ngp_mtls.Tunnel.Session.Arriving.{IsArriving}
use ngp_mtls.Tunnel.Session.{session_downstream, session_upstream}
use ngp_mtls.Tunnel.Client.{Client}
use ngp_mtls.Tunnel.Client.Frames.Dialled.{IsWilling}
use ngp_mtls.Proto
use ngp_mtls.Proto.{Frame, bare_frame}

abbrev reads : List Bytes
reads = codes "a" ∷ [] ∷ codes "bc" ∷ []

reads-AreReads : AreReads reads
reads-AreReads = omega arith

server-IsArriving : IsArriving server 0 name 30
server-IsArriving = record {
  unlocked = refl;
  registered = registered_name;
  below = omega arith;
  control_open = refl;
  unlimited = refl;
  apart = omega arith;
}

client-IsWilling : IsWilling client 2 20 (ok 21 ∷ [])
client-IsWilling = record {
  connected = refl;
  control_open = refl;
  control_unlimited = refl;
  dials = refl;
  local_unlimited = refl;
  apart = omega arith;
}

session_downstream_example :
    Returns
      ((do
        handle_public_connection 30 name
        read_public 0 name 6 30 (map Public.got reads ++ Public.got_eof ∷ []))
        server)
      λ _ s'.
        (s'.net.is_open 30 ≡ false)
        × (lookup 6 (s'.infos 0).conn_map ≡ none)
        × ((w : Bytes) × (s'.net.sent 1 ≡ [] ++ w)
            × ((handle_connection 5 false (stream w eof) client).1.net.sent 20 ≡ concat reads)
            × ((handle_connection 5 false (stream w eof) client).1.net.is_open 20 ≡ false)
            × (lookup 6 (handle_connection 5 false (stream w eof) client).1.conn_map ≡ none))
session_downstream_example =
    session_downstream server 0 name 30 client 2 20 (ok 21 ∷ []) reads 5 eof server-IsArriving
      client-IsWilling reads-AreReads (omega arith)

abbrev notice : List Frame
notice = bare_frame Proto.new_conn 6 ∷ []

-- What the client does once it has dialled.
abbrev sender : Client
sender =
    (forward_local 6 20 (map Forward.got reads ++ Forward.failed eof ∷ [])
      (handle_all notice client).1).1

session_upstream_example : Returns (handle_public_connection 30 name server) λ _ s'.
    (s'.net.sent 1 ≡ [] ++ wire notice)
    × (sender.net.is_open 20 ≡ false)
    × (lookup 6 sender.conn_map ≡ none)
    × ((w : Bytes) × (sender.net.sent 2 ≡ [] ++ w)
        × Returns (handle_frames 5 (λ _. false) name 1 (stream w eof) s') λ _ s''.
          (s''.net.sent 30 ≡ [] ++ concat reads)
          × (s''.net.is_open 30 ≡ false)
          × (lookup 6 (s''.infos 0).conn_map ≡ none))
session_upstream_example =
    session_upstream server 0 name 30 client 2 20 5 (ok 21 ∷ []) reads eof eof server-IsArriving
      refl refl client-IsWilling reads-AreReads (omega arith)
