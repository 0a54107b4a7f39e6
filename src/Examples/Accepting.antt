-- ===== src/Examples/Accepting.antt =====
-- The connections and clients of the server.
use ngp_mtls.Prelude.{
  eof, ℕ, ◌+◌, ◌≡◌, ◌≢◌, ◌⊎◌, refl, true, false, none, some, [], ◌∷◌, ◌++◌, map, Bytes, lookup,
  nat_eq, bytes_eq, arith, All, other, ok, err, ◌==◌, if◌then◌else◌,
}
use ngp_mtls.Proto
use ngp_mtls.Proto.{Frame, bare_frame, data_frame, Stream}
use ngp_mtls.Proto.RoundTrip.{layout}
use ngp_mtls.Tunnel.Net.{takes, close}
use ngp_mtls.Tunnel.Server.{◌>>◌, free, done, blocked, Returns, public_reader}
use ngp_mtls.Examples.Data.{
  name, idle_server, server, listening, registered_name, no_empty_name, info-IsCounted,
  idle-IsAccepting,
}
use ngp_mtls.Tunnel.Server.Clients.{unregister_client, cleanup}
use ngp_mtls.Tunnel.Server.Clients.Unregister.{Holds, unregister_client_lem}
use ngp_mtls.Tunnel.Server.Clients.Cleanup.{cleanup-blocked}
use ngp_mtls.Tunnel.Server.Public.{handle_public_connection, accept_for_client, route_public}
use ngp_mtls.Tunnel.Server.Public.{accepted_for, announced}
use ngp_mtls.Tunnel.Server.Frames.{handle_close_frame}
use ngp_mtls.Tunnel.Server.Frames.Early.{early_close}
use ngp_mtls.Tunnel.Server.Public.Handle.{numbered, IsCounted, handle_public_connection_lem}
use ngp_mtls.Tunnel.Server.Public.Accept.{unregister_client-spins, route_public_lem}
use ngp_mtls.Tunnel.Server.Run.{accept_clients}
use ngp_mtls.Tunnel.Server.Run.Accepts.{arrives, IsServed, Keeps, IsAccepting, accept_clients_lem}

unregister_client_lem_example : Returns (unregister_client name server) λ _ s'.
    (lookup name s'.clients ≡ none)
    × ((j : Bytes) → j ≢ name → lookup j s'.clients ≡ lookup j server.clients)
    × (s'.net.is_open (server.infos 0).conn ≡ false)
    × ((l : ℕ) → (server.infos 0).public_listener ≡ some l → s'.net.is_open l ≡ false)
    × ((c : ℕ) → Holds c (server.infos 0).conn_map → s'.net.is_open c ≡ false)
    × ((k : ℕ) → lookup k (s'.infos 0).conn_map ≡ none)
    × ((q : ℕ) → q ≢ 0 → s'.infos q ≡ server.infos q)
    × (s'.clients_mu ≡ free)
unregister_client_lem_example = unregister_client_lem name server 0 refl registered_name

cleanup-blocked_example : cleanup server ≡ blocked
cleanup-blocked_example = cleanup-blocked server refl (λ h. cc)

handle_public_connection_lem_example :
    let k = (server.infos 0).next_conn_id + 1 in
    let notice = layout (bare_frame Proto.new_conn k) in
    (lookup k (server.infos 0).conn_map ≡ none)
    × (((takes server.net (server.infos 0).conn notice ≡ true)
          × Returns (handle_public_connection 30 name server) λ _ s'.
            (s'.net.sent (server.infos 0).conn ≡ server.net.sent (server.infos 0).conn ++ notice)
            × ((j : ℕ)
                → lookup j (s'.infos 0).conn_map
                  ≡ (if k == j then some 30 else lookup j (server.infos 0).conn_map))
            × (s'.tasks ≡ public_reader 0 name k 30 ∷ server.tasks)
            × IsCounted (s'.infos 0))
        ⊎ ((takes server.net (server.infos 0).conn notice ≡ false)
            × Returns (handle_public_connection 30 name server) λ _ s'.
              (s'.net.is_open 30 ≡ false)
              × ((s'.infos 0).conn_map ≡ (server.infos 0).conn_map)
              × (s'.tasks ≡ server.tasks)
              × IsCounted (s'.infos 0)))
handle_public_connection_lem_example =
    handle_public_connection_lem 30 name server 0 refl registered_name (omega arith) (omega arith)
      info-IsCounted

unregister_client-spins_example : Returns (unregister_client name listening) λ _ s'.
    (lookup name s'.clients ≡ none)
    × (accept_for_client name 4 ((err (other 0), false) ∷ (ok 30, false) ∷ []) s' ≡ done (true, s'))
unregister_client-spins_example =
    unregister_client-spins name listening 0 4 ((err (other 0), false) ∷ (ok 30, false) ∷ []) refl
      registered_name refl (refl, (refl, tt))

route_public_lem_example :
    ((server.clients ≡ [])
      × (route_public 0 30 server ≡ done (tt, record server { net = close 30 server.net })))
    ⊎ ((id : Bytes) × (lookup id server.clients ≢ none)
        × (route_public 0 30 server ≡ handle_public_connection 30 id server))
route_public_lem_example = route_public_lem 0 30 server refl no_empty_name

accept_clients_lem_example :
    Returns (accept_clients 6 (map arrives (ok 7 ∷ err eof ∷ ok 8 ∷ [])) idle_server) λ again s'.
      (again ≡ true)
      × All (λ r. (c : ℕ) → r ≡ ok c → IsServed s' c) (ok 7 ∷ err eof ∷ ok 8 ∷ [])
      × Keeps idle_server s'
      × IsAccepting 6 s'
accept_clients_lem_example =
    accept_clients_lem 6 (ok 7 ∷ err eof ∷ ok 8 ∷ []) idle_server idle-IsAccepting (omega arith)

early_close_example :
    let k = (server.infos 0).next_conn_id + 1 in
    (accepted_for 30 name 0 server ≡ announced 0 name k 30 none (numbered server 0 k))
    × Returns
        ((do handle_close_frame name (bare_frame Proto.close k); announced 0 name k 30 none)
          (numbered server 0 k))
        λ _ s'.
          (lookup k (s'.infos 0).conn_map ≡ some 30)
          × (s'.net.is_open 30 ≡ server.net.is_open 30)
          × (s'.tasks ≡ public_reader 0 name k 30 ∷ server.tasks)
early_close_example =
    early_close 30 name server 0 refl registered_name (omega arith) info-IsCounted refl
